-- ===== src/Omemo/Prekeys.antt =====
-- The maintenance of our own pre-keys, crates/mxc-omemo/src/session.rs: `maintain_bundle` with what
-- it calls.
pub mod First
pub mod Published
pub mod Reading
pub mod Ready
pub mod Rows
pub mod Signed
pub mod Steps
pub mod Stock
use monocles_chat_desktop.Base.{
  ℕ, zero, suc, ◌+◌, ◌-◌, ◌*◌, Bool, true, false, not, ◌&&◌, ◌||◌, List, [], ◌∷◌, Option, none,
  some, map, if◌then◌else◌, ◌==◌, ltb, leb, length, map_or,
}
use monocles_chat_desktop.Base.Tables.{Table, nat_key, delete}
use monocles_chat_desktop.Omemo.Bundle.{Bundle, KemPreKey, is_ml_kem_1024}
use monocles_chat_desktop.Omemo.Database.{
  Database, KyberRow, store_prekey, count_prekeys, list_prekeys, max_prekey_id, load_signed_prekey,
  newest_signed_prekey, store_signed_prekey, store_kyber_prekey, available_kyber_prekeys,
  last_resort_kyber, delete_kyber_prekey, prune_orphaned_kyber_last_resort_sessions,
  max_kyber_prekey_id,
}
use monocles_chat_desktop.Omemo.Error.{OmemoError, Result, ok, err}
use monocles_chat_desktop.Omemo.Establish.{ec_raw}
use monocles_chat_desktop.Uri.Utf8.{Bytes}

-- The records of libsignal: fresh ones by their id, as bytes, and what can be read of bytes. `none`
-- is an error. A fresh pre-key comes with its public key; the time is that of the clock.
pub record Records : Type 0 where
  pub new_prekey : ℕ → Option (Bytes × Bytes)
  -- With its public key and its signature.
  pub new_signed : ℕ → Option (Bytes × Bytes × Bytes)
  pub new_kyber : ℕ → Option Bytes
  pub prekey_public : Bytes → Option Bytes
  -- The id, the public key and the signature.
  pub signed_parts : Bytes → Option (ℕ × Bytes × Bytes)
  pub signed_time : Bytes → Option ℕ
  pub is_kyber : Bytes → Bool
  pub kyber_parts : Bytes → Option (Bytes × Bytes)
  pub kyber_public : Bytes → Option Bytes
  pub kyber_time : Bytes → Option ℕ
  -- Our identity key, and the post-quantum identity with its signature over the keys.
  pub identity_public : Bytes
  pub sign_bundle_pq : ℕ → Bytes → ℕ → Bytes → List (ℕ × Bytes) → Option (Bytes × Bytes)
  pub now_ms : ℕ

-- The store, with the errors of libsignal; what was written before an error stays.
abbrev pub S : Type 0 → Type 0
S A = Database → Result A × Database

-- An error ends the call.
unfoldable pub bind : {A B : Type 0} → S A → (A → S B) → S B
bind m f db = let out = m db in elim out.0 [ ok a ↦ f a out.1 | err e ↦ (err e, out.1) ]

infixl 5 ◌>>=◌ ◌>>◌
abbrev pub ◌>>=◌ : {A B : Type 0} → S A → (A → S B) → S B
m >>= f = bind m f

abbrev pub ◌>>◌ : {B : Type 0} → S (Unit {0}) → S B → S B
m >> k = bind m (λ _. k)

abbrev pub done : {A : Type 0} → A → S A
done a db = (ok a, db)

abbrev pub gets : {A : Type 0} → (Database → A) → S A
gets f db = (ok (f db), db)

abbrev pub modify : (Database → Database) → S (Unit {0})
modify f db = (ok tt, f db)

abbrev pub lift : {A : Type 0} → Option A → S A
lift (some a) db = (ok a, db)
lift none db = (err OmemoError.signal, db)

abbrev pub kem_spk_rotation_ms : ℕ
kem_spk_rotation_ms = 30 * 24 * 60 * 60 * 1000

abbrev pub signed_prekey_rotation_ms : ℕ
signed_prekey_rotation_ms = 30 * 24 * 60 * 60 * 1000

abbrev pub kem_prekey_max_age_ms : ℕ
kem_prekey_max_age_ms = 90 * 24 * 60 * 60 * 1000

module _ (l : Records) where
  -- So many one-time keys from an id on; the ids with the public keys.
  unfoldable pub add_prekeys : ℕ → ℕ → S (List (ℕ × Bytes))
  add_prekeys zero next = done []
  add_prekeys (suc n) next = do
    kp ← lift (l.new_prekey next)
    modify (store_prekey next kp.0)
    rest ← add_prekeys n (next + 1)
    done ((next, ec_raw kp.1) ∷ rest)

  unfoldable pub add_kyber : ℕ → ℕ → S (Unit {0})
  add_kyber zero next = done tt
  add_kyber (suc n) next = do
    rec ← lift (l.new_kyber next)
    modify (store_kyber_prekey next rec false)
    add_kyber n (next + 1)

  unfoldable pub replenish_ec : ℕ → ℕ → S (Unit {0})
  unfolding add_prekeys
  replenish_ec target low_water = do
    ec_count ← gets count_prekeys
    next ← gets max_prekey_id
    if ltb ec_count low_water
        then (do _ ← add_prekeys (target - ec_count) (next + 1); done tt)
        else done tt

  unfoldable pub replenish_kem : ℕ → ℕ → S (Unit {0})
  unfolding add_kyber
  replenish_kem target low_water = do
    available ← gets available_kyber_prekeys
    next ← gets max_kyber_prekey_id
    if ltb (length available) low_water
        then add_kyber (target - length available) (next + 1)
        else done tt

  unfoldable pub replenish : ℕ → ℕ → S (Unit {0})
  unfolding replenish_ec replenish_kem
  replenish target low_water = do replenish_ec target low_water; replenish_kem target low_water

  -- Whether the row is one of ML-KEM-1024.
  abbrev pub is_current : KyberRow → Bool
  is_current r = map_or (l.kyber_public r.bytes) false is_ml_kem_1024

  unfoldable pub delete_where : (ℕ × KyberRow → Bool) → Table ℕ KyberRow → Database → Database
  unfolding delete
  delete_where p [] db = db
  delete_where p (r ∷ rs) db = delete_where p rs (if p r then delete_kyber_prekey r.0 db else db)

  unfoldable pub purge_non_ml_kem_prekeys : Database → Database
  unfolding delete_where
  purge_non_ml_kem_prekeys db = delete_where (λ p. not (is_current p.1)) db.kyber_prekeys db

  unfoldable pub rotate_last_resort_if_due : S (Unit {0})
  rotate_last_resort_if_due = do
    current ← gets last_resort_kyber
    map_or current (done tt) (λ p. do
      time ← lift (l.kyber_time p.1.bytes)
      if leb (l.now_ms - time) kem_spk_rotation_ms then done tt else (do
        next ← gets max_kyber_prekey_id
        rec ← lift (l.new_kyber (next + 1))
        modify (store_kyber_prekey (next + 1) rec true)))

  -- The id to publish.
  unfoldable pub rotate_signed_prekey_if_due : ℕ → S ℕ
  rotate_signed_prekey_if_due fallback_id = do
    current ← gets newest_signed_prekey
    map_or current (done fallback_id) (λ p. do
      time ← lift (l.signed_time p.1)
      if leb (l.now_ms - time) signed_prekey_rotation_ms then done p.0 else (do
        rec ← lift (l.new_signed (p.0 + 1))
        modify (store_signed_prekey (p.0 + 1) rec.0)
        done (p.0 + 1)))

  -- Consumed or superseded, and too old.
  abbrev pub prunable : Option ℕ → ℕ × KyberRow → Bool
  prunable current (id, r) =
      not (map_or current false (λ c. c == id))
      && (r.used || r.is_last_resort)
      && l.is_kyber r.bytes
      && ltb (map_or (l.kyber_time r.bytes) 0 (λ t. t)) (l.now_ms - kem_prekey_max_age_ms)

  unfoldable pub prune_stale_kyber_prekeys : Database → Database
  unfolding delete_where prune_orphaned_kyber_last_resort_sessions
  prune_stale_kyber_prekeys db =
      let current = map_or (last_resort_kyber db) none (λ p. some p.0) in
      prune_orphaned_kyber_last_resort_sessions
        (delete_where (prunable current) db.kyber_prekeys db)

  unfoldable pub read_prekeys : Table ℕ Bytes → S (List (ℕ × Bytes))
  read_prekeys [] = done []
  read_prekeys ((id, bytes) ∷ rows) = do
    key ← lift (l.prekey_public bytes)
    rest ← read_prekeys rows
    done ((id, ec_raw key) ∷ rest)

  unfoldable pub read_kem_prekeys : Table ℕ KyberRow → S (List KemPreKey)
  read_kem_prekeys [] = done []
  read_kem_prekeys ((id, r) ∷ rows) = do
    parts ← lift (l.kyber_parts r.bytes)
    rest ← read_kem_prekeys rows
    done (record { id = id; key = parts.0; sig = parts.1 } ∷ rest)

  unfoldable pub rebuild_bundle : ℕ → S Bundle
  unfolding read_prekeys read_kem_prekeys
  rebuild_bundle signed_prekey_id = do
    spk_bytes ← gets (load_signed_prekey signed_prekey_id)
    bytes ← lift spk_bytes
    spk ← lift (l.signed_parts bytes)
    last_resort ← gets last_resort_kyber
    kem ← lift last_resort
    kem_parts ← lift (l.kyber_parts kem.1.bytes)
    ec_rows ← gets list_prekeys
    prekeys ← read_prekeys ec_rows
    kem_rows ← gets available_kyber_prekeys
    kem_prekeys ← read_kem_prekeys kem_rows
    pq ←
        lift (l.sign_bundle_pq spk.0 spk.1 kem.0 kem_parts.0 (map (λ k. (k.id, k.key)) kem_prekeys))
    done (record {
      spk_id = spk.0;
      spk = ec_raw spk.1;
      spk_sig = spk.2;
      ik = ec_raw l.identity_public;
      prekeys = prekeys;
      kem_spk_id = kem.0;
      kem_spk = kem_parts.0;
      kem_spk_sig = kem_parts.1;
      kem_prekeys = kem_prekeys;
      pq_ik = pq.0;
      pq_sig = pq.1;
    })

  -- A store that has a signed pre-key; the first publication generates all keys.
  unfoldable pub refresh_bundle : ℕ → ℕ → ℕ → S Bundle
  unfolding purge_non_ml_kem_prekeys replenish rotate_last_resort_if_due rotate_signed_prekey_if_due
      prune_stale_kyber_prekeys rebuild_bundle
  refresh_bundle signed_prekey_id target low_water = do
    modify purge_non_ml_kem_prekeys
    replenish target low_water
    rotate_last_resort_if_due
    current_spk_id ← rotate_signed_prekey_if_due signed_prekey_id
    modify prune_stale_kyber_prekeys
    rebuild_bundle current_spk_id
