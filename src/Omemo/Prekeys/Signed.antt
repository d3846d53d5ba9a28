-- ===== src/Omemo/Prekeys/Signed.antt =====
-- The signed pre-key that `rotate_signed_prekey_if_due` of crates/mxc-omemo/src/session.rs leaves
-- to be published.
use mathlib.Core.Path.{subst}
use monocles_chat_desktop.Base.{
  ℕ, ◌+◌, ◌-◌, ◌≤◌, ◌≡◌, refl, sym, ap, ◌∙◌, Bool, true, false, [], ◌∷◌, Option, none, some,
  if◌then◌else◌, leb, map_or, All, All-map, arith,
}
use monocles_chat_desktop.Base.Tables.{Table}
use monocles_chat_desktop.Omemo.Database.{
  Database, KyberRow, newest_signed_prekey, store_signed_prekey, delete_kyber_prekey,
}
use monocles_chat_desktop.Omemo.Error.{ok}
use monocles_chat_desktop.Omemo.Prekeys.{
  Records, bind, done, lift, modify, delete_where, prune_stale_kyber_prekeys,
  rotate_signed_prekey_if_due, signed_prekey_rotation_ms,
}
use monocles_chat_desktop.Omemo.Prekeys.Rows.{newest-IsNewest, newest-none, All-upsert}
use monocles_chat_desktop.Omemo.Prekeys.Steps.{done-ok, gets-bind, lift-bind, step-bind}
use monocles_chat_desktop.Uri.Utf8.{Bytes}

module _ (l : Records) where
  -- No signed pre-key of the store has a higher id.
  abbrev pub IsHighest : ℕ → Database → Type 0
  IsHighest id db = All (λ r. r.0 ≤ id) db.signed_prekeys

  -- The next id, which no row exceeds if none exceeds the one before.
  store-IsHighest :
      (id : ℕ) (bytes : Bytes) (db : Database)
      → IsHighest id db
      → IsHighest (id + 1) (store_signed_prekey (id + 1) bytes db)
  store-IsHighest id bytes db h =
      All-upsert (λ r. r.0 ≤ id + 1) (id + 1) bytes (λ _. bytes) db.signed_prekeys (omega arith)
        (λ i w le. le)
        (All-map (λ r. r.0 ≤ id) (λ r. r.0 ≤ id + 1) db.signed_prekeys (λ r le. omega (arith, le))
          h)

  delete_where-signed :
      (p : ℕ × KyberRow → Bool) (rows : Table ℕ KyberRow) (db : Database)
      → (delete_where l p rows db).signed_prekeys ≡ db.signed_prekeys
  unfolding delete_where
  delete_where-signed p [] db = refl
  delete_where-signed p (q ∷ rows) db =
      delete_where-signed p rows (if p q then delete_kyber_prekey q.0 db else db) ∙ same (p q)
    where
      same :
          (b : Bool)
          → (if b then delete_kyber_prekey q.0 db else db).signed_prekeys ≡ db.signed_prekeys
      same true = refl
      same false = refl

  pub prune-IsHighest :
      (id : ℕ) (db : Database) → IsHighest id db → IsHighest id (prune_stale_kyber_prekeys l db)
  unfolding prune_stale_kyber_prekeys
  prune-IsHighest id db h =
      subst (λ t. All (λ r. r.0 ≤ id) t) (sym (delete_where-signed _ db.kyber_prekeys db)) h

  pub rotate_signed_prekey_if_due-IsHighest :
      (fallback_id : ℕ) (db : Database) {id : ℕ} {after : Database}
      → rotate_signed_prekey_if_due l fallback_id db ≡ (ok id, after)
      → IsHighest id after
  unfolding rotate_signed_prekey_if_due
  rotate_signed_prekey_if_due-IsHighest fallback_id db {id} {after} h =
      taken (newest_signed_prekey db) refl (gets-bind newest_signed_prekey _ db h)
    where
      kept : (i : ℕ) → IsHighest i db → done i db ≡ (ok id, after) → IsHighest id after
      kept i highest h' =
          let (same, left) = done-ok i db h' in
          subst (λ x. IsHighest x after) same (subst (IsHighest i) left highest)

      taken :
          (o : Option (ℕ × Bytes))
          → newest_signed_prekey db ≡ o
          → map_or o
              (done fallback_id)
              (λ p. bind (lift (l.signed_time p.1)) λ time.
                if leb (l.now_ms - time) signed_prekey_rotation_ms
                then done p.0
                else bind
                    (lift (l.new_signed (p.0 + 1)))
                    λ rec. bind (modify (store_signed_prekey (p.0 + 1) rec.0)) λ _. done (p.0 + 1))
              db
            ≡ (ok id, after)
          → IsHighest id after
      taken none e h' = kept fallback_id (newest-none _ db.signed_prekeys e) h'
      taken (some p) e h' =
          lift-bind (l.signed_time p.1) _ db h'
            λ time _ h2. due (leb (l.now_ms - time) signed_prekey_rotation_ms) h2
        where
          highest : IsHighest p.0 db
          highest = (newest-IsNewest db.signed_prekeys p e).1

          due :
              (b : Bool)
              → (if b
                    then done p.0
                    else bind (lift (l.new_signed (p.0 + 1))) λ rec.
                      bind (modify (store_signed_prekey (p.0 + 1) rec.0)) λ _. done (p.0 + 1))
                  db
                ≡ (ok id, after)
              → IsHighest id after
          due true h2 = kept p.0 highest h2
          due false h2 = lift-bind (l.new_signed (p.0 + 1)) _ db h2 λ rec _ h3.
              step-bind (modify (store_signed_prekey (p.0 + 1) rec.0)) _ db h3 λ _ db' e' h4.
                let (same, left) = done-ok (p.0 + 1) db' h4 in
                subst (λ x. IsHighest x after) same
                  (subst (IsHighest (p.0 + 1)) (ap (λ out. out.1) e' ∙ left)
                    (store-IsHighest p.0 rec.0 db highest))
