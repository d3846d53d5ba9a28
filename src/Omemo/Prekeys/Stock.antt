-- ===== src/Omemo/Prekeys/Stock.antt =====
-- The stock of one-time EC keys after `replenish`.
use mathlib.Core.Path.{subst}
use monocles_chat_desktop.Base.{
  ℕ, zero, suc, ◌+◌, ◌-◌, ◌≤◌, ◌<◌, ◌≡◌, refl, sym, ap, ◌∙◌, Bool, true, false, List, [],
  if◌then◌else◌, ltb, length, arith,
}
use monocles_chat_desktop.Base.Tables.{nat_key}
use monocles_chat_desktop.Omemo.Database.{Database, store_prekey, count_prekeys, max_prekey_id}
use monocles_chat_desktop.Omemo.Error.{ok}
use monocles_chat_desktop.Omemo.Prekeys.{
  Records, bind, done, modify, add_prekeys, replenish_ec, replenish,
}
use monocles_chat_desktop.Omemo.Prekeys.Rows.{IsBelow, upsert_new, max_id-IsBelow}
use monocles_chat_desktop.Omemo.Prekeys.Steps.{step-bind, gets-bind, lift-bind, done-ok}
use monocles_chat_desktop.Uri.Utf8.{Bytes}
use monocles_chat_desktop.Omemo.Prekeys.Ready.{
  RecordsLaws, Ready, replenish_ec-Keeps, replenish_kem-Keeps,
}

module _ (l : Records) where
  -- Each new key is a further row.
  add_prekeys_stock :
      (count next : ℕ) (db : Database) {out : List (ℕ × Bytes)} {after : Database}
      → IsBelow next db.prekeys
      → add_prekeys l count next db ≡ (ok out, after)
      → length after.prekeys ≡ length db.prekeys + count
  unfolding add_prekeys
  add_prekeys_stock zero next db below h =
      sym (ap (λ d. length d.prekeys) (done-ok [] db h).1) ∙ omega arith
  add_prekeys_stock (suc count) next db below h = lift-bind (l.new_prekey next) _ db h λ kp _ h1.
      step-bind (modify (store_prekey next kp.0)) _ db h1 λ _ db1 e1 h2.
        step-bind (add_prekeys l count (next + 1)) _ db1 h2 λ rest db2 e2 h3.
          let (longer, below') = upsert_new next kp.0 (λ _. kp.0) db.prekeys below in
          let stored = ap (λ x. x.1) e1 in
          let more =
            add_prekeys_stock count (next + 1) db1
              (subst (λ d. IsBelow (next + 1) d.prekeys) stored below') e2 in
          let same = ap (λ d. length d.prekeys) (done-ok _ db2 h3).1 in
          let first = ap (λ d. length d.prekeys) stored in omega (arith, longer, more, same, first)

  replenish_ec_stock :
      (target low_water : ℕ) (db : Database) {u : Unit {0}} {after : Database}
      → low_water ≤ target
      → replenish_ec l target low_water db ≡ (ok u, after)
      → low_water ≤ length after.prekeys
  unfolding replenish_ec
  replenish_ec_stock target low_water db {u} {after} le h =
      let h' = gets-bind max_prekey_id _ db (gets-bind count_prekeys _ db h) in
      filled (ltb (length db.prekeys) low_water) refl h'
    where
      filled :
          (b : Bool)
          → ltb (length db.prekeys) low_water ≡ b
          → (if b
                then bind
                    (add_prekeys l (target - length db.prekeys) (max_prekey_id db + 1))
                    (λ _. done tt)
                else done tt)
              db
            ≡ (ok u, after)
          → low_water ≤ length after.prekeys
      filled true e h' =
          step-bind (add_prekeys l (target - length db.prekeys) (max_prekey_id db + 1)) _ db h'
            λ out db1 e1 h2.
              let stock =
                add_prekeys_stock (target - length db.prekeys) (max_prekey_id db + 1) db
                  (max_id-IsBelow db.prekeys) e1 in
              let same = ap (λ d. length d.prekeys) (done-ok tt db1 h2).1 in
              let few : length db.prekeys < low_water = ground arith in
              omega (arith, stock, same, few, le)
      filled false e h' =
          let same = ap (λ d. length d.prekeys) (done-ok tt db h').1 in
          let enough : low_water ≤ length db.prekeys = ground arith in omega (arith, same, enough)

  module _ (laws : RecordsLaws l) where
    pub replenish-Ready :
        (target low_water : ℕ) (db : Database) {u : Unit {0}} {after : Database}
        → low_water ≤ target
        → Ready l 0 db
        → replenish l target low_water db ≡ (ok u, after)
        → Ready l low_water after
    unfolding replenish
    replenish-Ready target low_water db {u} {after} le r h =
        step-bind (replenish_ec l target low_water) _ db h λ _ db1 e1 h1.
          let kept = replenish_ec-Keeps l 0 target low_water db r in
          let ready = subst (λ x. Ready l 0 x.1) e1 kept in
          let stock = replenish_ec_stock target low_water db le e1 in
          subst (λ x. Ready l low_water x.1) h1
            (replenish_kem-Keeps l laws low_water target low_water db1 (ready.0, stock))
