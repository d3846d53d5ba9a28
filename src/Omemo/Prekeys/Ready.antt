-- ===== src/Omemo/Prekeys/Ready.antt =====
-- What the maintenance of our pre-keys keeps: a stock of one-time keys, and KEM keys of ML-KEM-1024
-- only.
use mathlib.Core.Path.{subst}
use monocles_chat_desktop.Base.{
  ℕ, zero, suc, ◌+◌, ◌-◌, ◌≤◌, ◌≡◌, ◌⊎◌, inl, inr, refl, sym, ap, Bool, true, false, not, List, [],
  ◌∷◌, Option, none, some, if◌then◌else◌, ltb, leb, length, map_or, AnyOf, All, All-map, All-later,
  arith,
}
use monocles_chat_desktop.Base.Tables.{Table, nat_key, delete}
use monocles_chat_desktop.Omemo.Bundle.{is_ml_kem_1024}
use monocles_chat_desktop.Omemo.Database.{
  Database, KyberRow, store_prekey, count_prekeys, max_prekey_id, store_kyber_prekey,
  delete_kyber_prekey, last_resort_kyber, newest_signed_prekey, available_kyber_prekeys,
  max_kyber_prekey_id, store_signed_prekey,
}
use monocles_chat_desktop.Omemo.Error.{Result, ok, err}
use monocles_chat_desktop.Omemo.Prekeys.{
  Records, S, bind, gets, lift, modify, add_prekeys, add_kyber, replenish_ec, replenish_kem,
  kem_spk_rotation_ms, signed_prekey_rotation_ms, is_current, delete_where,
  purge_non_ml_kem_prekeys, rotate_last_resort_if_due, rotate_signed_prekey_if_due,
  prune_stale_kyber_prekeys,
}
use monocles_chat_desktop.Omemo.Prekeys.Rows.{
  All-both, All-delete, delete_gone, All-upsert, length-upsert_le,
}
use monocles_chat_desktop.Uri.Utf8.{Bytes}

-- What is documented of libsignal's records: a KEM key generated as ML-KEM-1024 has the tag of that
-- algorithm, and a record has one public key.
pub record RecordsLaws (l : Records) : Type 0 where
  pub fresh_kyber :
      (id : ℕ) (b : Bytes)
      → l.new_kyber id ≡ some b
      → map_or (l.kyber_public b) false is_ml_kem_1024 ≡ true
  pub same_public :
      (b key sig : Bytes) → l.kyber_parts b ≡ some (key, sig) → l.kyber_public b ≡ some key

abbrev resumed : {A B : Type 0} → (A → S B) → Result A × Database → Result B × Database
resumed f out = elim out.0 [ ok a ↦ f a out.1 | err e ↦ (err e, out.1) ]

All-self : {A : Type 0} (xs : List A) → All (λ x. AnyOf (λ y. y ≡ x) xs) xs
All-self [] = tt
All-self (x ∷ xs) = (inl refl, All-later (λ y z. y ≡ z) x xs xs (All-self xs))

module _ (l : Records) where
  -- All KEM keys are of ML-KEM-1024, and there are so many one-time EC keys.
  abbrev pub Ready : ℕ → Database → Type 0
  Ready n db = All (λ p. is_current l p.1 ≡ true) db.kyber_prekeys × (n ≤ length db.prekeys)

  abbrev Keeps : {A : Type 0} → ℕ → S A → Type 0
  Keeps n m = (db : Database) → Ready n db → Ready n (m db).1

  bind-Keeps :
      {A B : Type 0} (n : ℕ) (m : S A) (f : A → S B)
      → Keeps n m
      → ((a : A) → Keeps n (f a))
      → Keeps n (bind m f)
  unfolding bind
  bind-Keeps {A} {B} n m f hm hf db r = after (m db) (hm db r)
    where
      after : (out : Result A × Database) → Ready n out.1 → Ready n (resumed f out).1
      after (ok a, db') r' = hf a db' r'
      after (err e, db') r' = r'

  lift-Keeps :
      {A B : Type 0} (n : ℕ) (o : Option A) (f : A → S B)
      → ((a : A) → o ≡ some a → Keeps n (f a))
      → Keeps n (bind (lift o) f)
  unfolding bind
  lift-Keeps n none f h db r = r
  lift-Keeps n (some a) f h db r = h a refl db r

  gets-Keeps :
      {A B : Type 0} (n : ℕ) (g : Database → A) (f : A → S B)
      → ((a : A) → Keeps n (f a))
      → Keeps n (bind (gets g) f)
  unfolding bind
  gets-Keeps n g f h db r = h (g db) db r

  modify-Keeps :
      {B : Type 0} (n : ℕ) (g : Database → Database) (f : Unit {0} → S B)
      → ((db : Database) → Ready n db → Ready n (g db))
      → ((a : Unit {0}) → Keeps n (f a))
      → Keeps n (bind (modify g) f)
  unfolding bind
  modify-Keeps n g f hg hf db r = hf tt (g db) (hg db r)

  if-Keeps :
      {A : Type 0} (n : ℕ) (b : Bool) (m m' : S A)
      → Keeps n m
      → Keeps n m'
      → Keeps n (if b then m else m')
  if-Keeps n true m m' h h' = h
  if-Keeps n false m m' h h' = h'

  option-Keeps :
      {A B : Type 0} (n : ℕ) (o : Option A) (m : S B) (f : A → S B)
      → Keeps n m
      → ((a : A) → Keeps n (f a))
      → Keeps n (map_or o m f)
  option-Keeps n none m f h h' = h
  option-Keeps n (some a) m f h h' = h' a

  store_prekey-Ready :
      (n id : ℕ) (bytes : Bytes) (db : Database) → Ready n db → Ready n (store_prekey id bytes db)
  store_prekey-Ready n id bytes db (c, le) =
      (c, omega (arith, le, length-upsert_le id bytes (λ _. bytes) db.prekeys))

  store_kyber_prekey-Ready :
      (n id : ℕ) (bytes : Bytes) (flag : Bool) (db : Database)
      → map_or (l.kyber_public bytes) false is_ml_kem_1024 ≡ true
      → Ready n db
      → Ready n (store_kyber_prekey id bytes flag db)
  store_kyber_prekey-Ready n id bytes flag db current (c, le) = (
    All-upsert (λ p. is_current l p.1 ≡ true) id _ _ db.kyber_prekeys current (λ _ _ _. current) c,
    le,
  )

  add_prekeys-Keeps : (n count next : ℕ) → Keeps n (add_prekeys l count next)
  unfolding add_prekeys
  add_prekeys-Keeps n zero next = λ db r. r
  add_prekeys-Keeps n (suc count) next = lift-Keeps n (l.new_prekey next) _ λ kp _.
      modify-Keeps n (store_prekey next kp.0) _ (store_prekey-Ready n next kp.0) λ _.
        bind-Keeps n (add_prekeys l count (next + 1)) _ (add_prekeys-Keeps n count (next + 1))
          λ rest db r. r

  pub replenish_ec-Keeps : (n target low_water : ℕ) → Keeps n (replenish_ec l target low_water)
  unfolding replenish_ec
  replenish_ec-Keeps n target low_water = gets-Keeps n count_prekeys _ λ ec_count.
      gets-Keeps n max_prekey_id _ λ next.
        if-Keeps n (ltb ec_count low_water) _ _
          (bind-Keeps n (add_prekeys l (target - ec_count) (next + 1)) _
            (add_prekeys-Keeps n (target - ec_count) (next + 1)) λ _ db r. r)
          (λ db r. r)

  delete_where-Ready :
      (n : ℕ) (p : ℕ × KyberRow → Bool) (rows : Table ℕ KyberRow) (db : Database)
      → Ready n db
      → Ready n (delete_where l p rows db)
  unfolding delete_where
  delete_where-Ready n p [] db r = r
  delete_where-Ready n p (q ∷ rows) db r = delete_where-Ready n p rows _ (deleted (p q))
    where
      deleted : (b : Bool) → Ready n (if b then delete_kyber_prekey q.0 db else db)
      deleted true = (All-delete _ q.0 db.kyber_prekeys r.0, r.1)
      deleted false = r

  module _ (laws : RecordsLaws l) where
    add_kyber-Keeps : (n count next : ℕ) → Keeps n (add_kyber l count next)
    unfolding add_kyber
    add_kyber-Keeps n zero next = λ db r. r
    add_kyber-Keeps n (suc count) next = lift-Keeps n (l.new_kyber next) _ λ rec e.
        modify-Keeps n (store_kyber_prekey next rec false) _
          (λ db. store_kyber_prekey-Ready n next rec false db (laws.fresh_kyber next rec e))
          λ _. add_kyber-Keeps n count (next + 1)

    pub replenish_kem-Keeps : (n target low_water : ℕ) → Keeps n (replenish_kem l target low_water)
    unfolding replenish_kem
    replenish_kem-Keeps n target low_water = gets-Keeps n available_kyber_prekeys _ λ available.
        gets-Keeps n max_kyber_prekey_id _ λ next.
          if-Keeps n (ltb (length available) low_water) _ _
            (add_kyber-Keeps n (target - length available) (next + 1)) (λ db r. r)

    pub rotate_last_resort-Keeps : (n : ℕ) → Keeps n (rotate_last_resort_if_due l)
    unfolding rotate_last_resort_if_due
    rotate_last_resort-Keeps n = gets-Keeps n last_resort_kyber _ λ current.
        option-Keeps n current _ _ (λ db r. r)
          λ p. lift-Keeps n (l.kyber_time p.1.bytes) _ λ time _.
            if-Keeps n (leb (l.now_ms - time) kem_spk_rotation_ms) _ _ (λ db r. r)
              (gets-Keeps n max_kyber_prekey_id _ λ next.
                lift-Keeps n (l.new_kyber (next + 1)) _ λ rec e db.
                  store_kyber_prekey-Ready n (next + 1) rec true db
                    (laws.fresh_kyber (next + 1) rec e))

  pub rotate_signed_prekey-Keeps : (n id : ℕ) → Keeps n (rotate_signed_prekey_if_due l id)
  unfolding rotate_signed_prekey_if_due
  rotate_signed_prekey-Keeps n id = gets-Keeps n newest_signed_prekey _ λ current.
      option-Keeps n current _ _ (λ db r. r)
        λ p. lift-Keeps n (l.signed_time p.1) _ λ time _.
          if-Keeps n (leb (l.now_ms - time) signed_prekey_rotation_ms) _ _ (λ db r. r)
            (lift-Keeps n (l.new_signed (p.0 + 1)) _ λ rec _.
              modify-Keeps n (store_signed_prekey (p.0 + 1) rec.0) _ (λ db r. r) λ _ db r. r)

  pub prune-Ready : (n : ℕ) (db : Database) → Ready n db → Ready n (prune_stale_kyber_prekeys l db)
  unfolding prune_stale_kyber_prekeys
  prune-Ready n db r = delete_where-Ready n _ db.kyber_prekeys db r

  -- Whatever is not current is among the rows to be gone through, and goes.
  purged :
      (rows : Table ℕ KyberRow) (db : Database)
      → All (λ p. (is_current l p.1 ≡ true) ⊎ AnyOf (λ r. r ≡ p) rows) db.kyber_prekeys
      → All
          (λ p. is_current l p.1 ≡ true)
          (delete_where l (λ p. not (is_current l p.1)) rows db).kyber_prekeys
  unfolding delete_where
  purged [] db h = All-map _ _ db.kyber_prekeys (λ p c. elim c [ inl e ↦ e | inr m ↦ absurd m ]) h
  purged (q ∷ rows) db h = purged rows _ (step (is_current l q.1) refl)
    where
      Left : ℕ × KyberRow → Type 0
      Left p = (is_current l p.1 ≡ true) ⊎ AnyOf (λ r. r ≡ p) rows

      step :
          (b : Bool)
          → is_current l q.1 ≡ b
          → All
              (λ p. (is_current l p.1 ≡ true) ⊎ AnyOf (λ r. r ≡ p) rows)
              (if not b then delete_kyber_prekey q.0 db else db).kyber_prekeys
      step true e =
          All-map _ _ db.kyber_prekeys
            (λ p c. elim c [
              | inl e' ↦ inl e'
              | inr (inl same) ↦ inl (subst (λ x. is_current l x.1 ≡ true) same e)
              | inr (inr m) ↦ inr m
            ])
            h
      step false e =
          let rest = All-delete _ q.0 db.kyber_prekeys h in
          All-map _ _ (delete q.0 db.kyber_prekeys)
            (λ p c. elim c.0 [
              | inl e' ↦ inl e'
              | inr (inl same) ↦ absurd (c.1 (ap (λ x. x.0) (sym same)))
              | inr (inr m) ↦ inr m
            ])
            (All-both _ _ (delete q.0 db.kyber_prekeys) rest (delete_gone q.0 db.kyber_prekeys))

  pub purge-Ready : (db : Database) → Ready 0 (purge_non_ml_kem_prekeys l db)
  unfolding purge_non_ml_kem_prekeys
  purge-Ready db = (
    purged db.kyber_prekeys db
        (All-map _ _ db.kyber_prekeys (λ p m. inr m) (All-self db.kyber_prekeys)),
    omega arith,
  )
