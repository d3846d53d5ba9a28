-- ===== src/Omemo/Prekeys/Reading.antt =====
-- What `read_prekeys` and `read_kem_prekeys` read of the rows they are given.
use mathlib.Core.Path.{subst}
use monocles_chat_desktop.Base.{
  suc, length, ℕ, ◌≡◌, inl, refl, sym, ap, ◌∙◌, List, [], ◌∷◌, some, AnyOf, All, All-later,
}
use monocles_chat_desktop.Base.Tables.{Table, row}
use monocles_chat_desktop.Omemo.Bundle.{KemPreKey}
use monocles_chat_desktop.Omemo.Database.{Database, KyberRow}
use monocles_chat_desktop.Omemo.Error.{ok}
use monocles_chat_desktop.Omemo.Establish.{ec_raw}
use monocles_chat_desktop.Omemo.Prekeys.{Records, lift, read_prekeys, read_kem_prekeys}
use monocles_chat_desktop.Omemo.Prekeys.Steps.{bind-ok, lift-ok, done-ok, lift-bind, step-bind}
use monocles_chat_desktop.Uri.Utf8.{Bytes}

module _ (l : Records) where
  -- The row behind a published key.
  abbrev pub IsPrekeyOf : ℕ × Bytes → ℕ × Bytes → Type 0
  IsPrekeyOf row published =
      (row.0 ≡ published.0)
      × ((key : Bytes) × (l.prekey_public row.1 ≡ some key) × (ec_raw key ≡ published.1))

  abbrev pub IsKemOf : ℕ × KyberRow → KemPreKey → Type 0
  IsKemOf row k = (row.0 ≡ k.id) × (l.kyber_parts row.1.bytes ≡ some (k.key, k.sig))

  pub read_prekeys-rows :
      (rows : Table ℕ Bytes) (db : Database) {out : List (ℕ × Bytes)} {after : Database}
      → read_prekeys l rows db ≡ (ok out, after)
      → (db ≡ after) × All (λ k. AnyOf (λ r. IsPrekeyOf r k) rows) out
  unfolding read_prekeys
  read_prekeys-rows [] db h =
      let (none_left, same) = done-ok [] db h in
      (same, subst (All (λ k. AnyOf (λ r. IsPrekeyOf r k) [])) none_left tt)
  read_prekeys-rows ((id, bytes) ∷ rows) db h =
      let (key, db1, e1, h1) = bind-ok (lift (l.prekey_public bytes)) _ db h in
      let (read, same1) = lift-ok (l.prekey_public bytes) db e1 in
      let (rest, db2, e2, h2) = bind-ok (read_prekeys l rows) _ db1 h1 in
      let (same2, found) = read_prekeys-rows rows db1 e2 in
      let (made, same3) = done-ok ((id, ec_raw key) ∷ rest) db2 h2 in
      (
        same1 ∙ (same2 ∙ same3),
        subst (All (λ k. AnyOf (λ r. IsPrekeyOf r k) ((id, bytes) ∷ rows))) made (
          inl (refl, (key, read, refl)),
          All-later (λ r k. IsPrekeyOf r k) (id, bytes) rows rest found,
        ),
      )

  pub read_kem_prekeys-rows :
      (rows : Table ℕ KyberRow) (db : Database) {out : List KemPreKey} {after : Database}
      → read_kem_prekeys l rows db ≡ (ok out, after)
      → (db ≡ after) × All (λ k. AnyOf (λ r. IsKemOf r k) rows) out
  unfolding read_kem_prekeys
  read_kem_prekeys-rows [] db h =
      let (none_left, same) = done-ok [] db h in
      (same, subst (All (λ k. AnyOf (λ r. IsKemOf r k) [])) none_left tt)
  read_kem_prekeys-rows ((id, r) ∷ rows) db h =
      let (parts, db1, e1, h1) = bind-ok (lift (l.kyber_parts r.bytes)) _ db h in
      let (read, same1) = lift-ok (l.kyber_parts r.bytes) db e1 in
      let (rest, db2, e2, h2) = bind-ok (read_kem_prekeys l rows) _ db1 h1 in
      let (same2, found) = read_kem_prekeys-rows rows db1 e2 in
      let one : KemPreKey = record { id = id; key = parts.0; sig = parts.1 } in
      let (made, same3) = done-ok (one ∷ rest) db2 h2 in
      (
        same1 ∙ (same2 ∙ same3),
        subst (All (λ k. AnyOf (λ r'. IsKemOf r' k) ((id, r) ∷ rows))) made
            (inl (refl, read), All-later (λ r' k. IsKemOf r' k) (id, r) rows rest found),
      )

  pub read_prekeys-length :
      (rows : Table ℕ Bytes) (db : Database) {out : List (ℕ × Bytes)} {after : Database}
      → read_prekeys l rows db ≡ (ok out, after)
      → length out ≡ length rows
  unfolding read_prekeys
  read_prekeys-length [] db h = sym (ap length (done-ok [] db h).0)
  read_prekeys-length ((id, bytes) ∷ rows) db h =
      lift-bind (l.prekey_public bytes) _ db h λ key _ h1.
        step-bind (read_prekeys l rows) _ db h1 λ rest db1 e h2.
          sym (ap length (done-ok ((id, ec_raw key) ∷ rest) db1 h2).0)
          ∙ ap suc (read_prekeys-length rows db e)
