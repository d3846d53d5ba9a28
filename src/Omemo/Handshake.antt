-- ===== src/Omemo/Handshake.antt =====
-- `KyberPreKeyStoreImpl` of crates/mxc-omemo/src/store.rs: the KEM pre-keys behind an inbound
-- handshake.
use monocles_chat_desktop.Base.{
  ℕ, ◌≡◌, ◌⊎◌, refl, sym, ap, ◌∙◌, Bool, true, false, not, ◌&&◌, ◌||◌, List, [], ◌∷◌, ◌++◌, Option,
  none, some, inl, inr, if◌then◌else◌, any, map_or, text_eq_refl, ◌==◌, Option-cases, arith,
}
use monocles_chat_desktop.Base.Tables.{nat_key, row, row-update, map_option, same_refl}
use monocles_chat_desktop.Omemo.Database.{
  Database, KyberRow, Initiation, load_kyber_prekey_meta, mark_kyber_prekey_used,
  kyber_last_resort_session_seen, record_kyber_last_resort_session, same_initiation,
}
use monocles_chat_desktop.Omemo.Error.{OmemoError, Result, ok, err, ok_or, ◌>>=◌}
use monocles_chat_desktop.Uri.Utf8.{Bytes}

-- `deserialize` is that of libsignal's `KyberPreKeyRecord`.
unfoldable pub get_kyber_pre_key : {R : Type 0} → (Bytes → Option R) → ℕ → Database → Result R
unfolding row
get_kyber_pre_key deserialize id db =
    map_or (load_kyber_prekey_meta id db) (err OmemoError.signal) (λ r.
      if r.used && not r.is_last_resort
      then err OmemoError.signal
      else ok_or (deserialize r.bytes) OmemoError.signal)

unfoldable pub mark_kyber_pre_key_used : Initiation → Database → Result Database
unfolding row mark_kyber_prekey_used record_kyber_last_resort_session same_initiation
mark_kyber_pre_key_used i db =
    if map_or (load_kyber_prekey_meta i.kyber_id db) false (λ r. r.is_last_resort)
    then (if kyber_last_resort_session_seen i db
        then err OmemoError.signal
        else ok (record_kyber_last_resort_session i db))
    else ok (mark_kyber_prekey_used i.kyber_id db)

-- What libsignal asks of the store in an inbound handshake: the key, and at its end the mark.
unfoldable pub accept : {R : Type 0} → (Bytes → Option R) → Initiation → Database → Result Database
unfolding get_kyber_pre_key mark_kyber_pre_key_used
accept deserialize i db = do
  _ ← get_kyber_pre_key deserialize i.kyber_id db
  mark_kyber_pre_key_used i db

abbrev pub either : Database → Result Database → Database
either db (ok db') = db'
either db (err e) = db

-- The handshakes that arrive; one that is refused changes nothing.
abbrev pub arrive : {R : Type 0} → (Bytes → Option R) → List Initiation → Database → Database
arrive deserialize [] db = db
arrive deserialize (i ∷ is) db = arrive deserialize is (either db (accept deserialize i db))

-- The key behind an initiation serves it no more.
abbrev spent_row : Bool → Option KyberRow → Bool
spent_row seen none = false
spent_row seen (some r) = if r.is_last_resort then seen else r.used

abbrev spent : Initiation → Database → Bool
spent i db = spent_row (kyber_last_resort_session_seen i db) (row i.kyber_id db.kyber_prekeys)

any-append_last :
    {A : Type 0} (p : A → Bool) (xs : List A) (a : A) → any p (xs ++ (a ∷ [])) ≡ any p xs || p a
any-append_last p [] a = ground arith
any-append_last p (x ∷ xs) a = ground (arith, any-append_last p xs a)

same_initiation_refl : (i : Initiation) → same_initiation i i ≡ true
unfolding same_initiation
same_initiation_refl i = ground (arith, text_eq_refl i.base)

recorded-spent :
    (i : Initiation) (db : Database) {r : KyberRow}
    → row i.kyber_id db.kyber_prekeys ≡ some r
    → r.is_last_resort ≡ true
    → spent i (record db { initiations = db.initiations ++ (i ∷ []) }) ≡ true
recorded-spent i db e last =
    ground (arith, any-append_last (same_initiation i) db.initiations i, same_initiation_refl i)

recorded-spent_kept :
    (i j : Initiation) (db : Database)
    → spent i db ≡ true
    → spent i (record db { initiations = db.initiations ++ (j ∷ []) }) ≡ true
recorded-spent_kept i j db s = elim (Option-cases (row i.kyber_id db.kyber_prekeys)) [
  | inl n ↦ absurd (ground (arith, n))
  | inr (r, e) ↦ ground (arith, e, any-append_last (same_initiation i) db.initiations j)
]

marked_row :
    (seen : Bool) (b : Bool) (o : Option KyberRow)
    → spent_row seen o ≡ true
    → spent_row seen (if b then map_option (λ r. record r { used = true }) o else o) ≡ true
marked_row seen true none h = h
marked_row seen true (some r) h = ground arith
marked_row seen false o h = h

marked-spent_kept :
    (i j : Initiation) (db : Database)
    → spent i db ≡ true
    → spent i (mark_kyber_prekey_used j.kyber_id db) ≡ true
unfolding mark_kyber_prekey_used
marked-spent_kept i j db s =
    ap (spent_row (kyber_last_resort_session_seen i db))
      (row-update j.kyber_id i.kyber_id (λ r. record r { used = true }) db.kyber_prekeys)
    ∙ marked_row (kyber_last_resort_session_seen i db) (j.kyber_id == i.kyber_id)
        (row i.kyber_id db.kyber_prekeys) s

marked-spent :
    (i : Initiation) (db : Database) {r : KyberRow}
    → row i.kyber_id db.kyber_prekeys ≡ some r
    → r.is_last_resort ≡ false
    → spent i (mark_kyber_prekey_used i.kyber_id db) ≡ true
unfolding mark_kyber_prekey_used
marked-spent i db {r} e last =
    ap (spent_row (kyber_last_resort_session_seen i db))
      (row-update i.kyber_id i.kyber_id (λ r. record r { used = true }) db.kyber_prekeys)
    ∙ rw (same_refl i.kyber_id, e, last) refl

-- An accepted handshake, by the kind of its key.
abbrev Accepted : Initiation → Database → Database → KyberRow → Type 0
Accepted i db db' r =
    ((r.is_last_resort ≡ true) × (record db { initiations = db.initiations ++ (i ∷ []) } ≡ db'))
    ⊎ ((r.is_last_resort ≡ false) × (mark_kyber_prekey_used i.kyber_id db ≡ db'))

either-spent :
    (i : Initiation) (db : Database) (m : Result Database)
    → spent i db ≡ true
    → ((db' : Database) → m ≡ ok db' → spent i db' ≡ true)
    → spent i (either db m) ≡ true
either-spent i db (ok db') h k = k db' refl
either-spent i db (err e) h k = h

module _ {R : Type 0} (deserialize : Bytes → Option R) where
  spent-refused :
      (i : Initiation) (db : Database)
      → spent i db ≡ true
      → (e : OmemoError) × (accept deserialize i db ≡ err e)
  unfolding accept
  spent-refused i db h = elim (Option-cases (row i.kyber_id db.kyber_prekeys)) [
    | inl n ↦ absurd (ground (arith, ap (spent_row (kyber_last_resort_session_seen i db)) n))
    | inr (r, e) ↦ (OmemoError.signal, ground (arith, e))
  ]

  accept-Accepted :
      (i : Initiation) (db : Database) {db' : Database}
      → accept deserialize i db ≡ ok db'
      → (r : KyberRow) × (row i.kyber_id db.kyber_prekeys ≡ some r) × Accepted i db db' r
  unfolding accept
  accept-Accepted i db {db'} h = elim (Option-cases (row i.kyber_id db.kyber_prekeys)) [
    | inl n ↦ absurd (ground (arith, n))
    | inr (r, e) ↦ (r, e, ground (arith, e))
  ]

  accept-spent :
      (i : Initiation) (db : Database) {db' : Database}
      → accept deserialize i db ≡ ok db'
      → spent i db' ≡ true
  accept-spent i db {db'} h =
      let (r, e, how) = accept-Accepted i db h in
      elim how [
        | inl (last, changed) ↦ ap (spent i) (sym changed) ∙ recorded-spent i db e last
        | inr (last, changed) ↦ ap (spent i) (sym changed) ∙ marked-spent i db e last
      ]

  spent_kept :
      (i j : Initiation) (db : Database) {db' : Database}
      → accept deserialize j db ≡ ok db'
      → spent i db ≡ true
      → spent i db' ≡ true
  spent_kept i j db {db'} h s =
      let (r, e, how) = accept-Accepted j db h in
      elim how [
        | inl (last, changed) ↦ ap (spent i) (sym changed) ∙ recorded-spent_kept i j db s
        | inr (last, changed) ↦ ap (spent i) (sym changed) ∙ marked-spent_kept i j db s
      ]

  arrive-spent :
      (i : Initiation) (is : List Initiation) (db : Database)
      → spent i db ≡ true
      → spent i (arrive deserialize is db) ≡ true
  arrive-spent i [] db h = h
  arrive-spent i (j ∷ is) db h =
      arrive-spent i is (either db (accept deserialize j db))
        (either-spent i db (accept deserialize j db) h (λ db' e. spent_kept i j db e h))

  -- A handshake that was accepted is accepted never again, whatever handshakes arrive between: a
  -- one-time key is used up, and a last-resort key remembers the initiation.
  pub accept_once :
      (i : Initiation) (is : List Initiation) (db : Database) {db' : Database}
      → accept deserialize i db ≡ ok db'
      → (e : OmemoError) × (accept deserialize i (arrive deserialize is db') ≡ err e)
  accept_once i is db {db'} h =
      spent-refused i (arrive deserialize is db') (arrive-spent i is db' (accept-spent i db h))
