-- ===== src/Omemo/Prekeys/Published.antt =====
-- The bundle that is published is one of keys that the store has.
use mathlib.Core.Path.{subst}
use monocles_chat_desktop.Base.{
  ◌≤◌, not, ◌&&◌, length, map_or, arith, ℕ, ◌≡◌, ◌⊎◌, refl, sym, ap, ◌∙◌, Bool, true, false, List,
  some, keep, AnyOf, All, All-map,
}
use monocles_chat_desktop.Omemo.Bundle.{Bundle, KemPreKey}
use monocles_chat_desktop.Omemo.Database.{
  Database, KyberRow, list_prekeys, load_signed_prekey, available, available_kyber_prekeys,
  last_resort_kyber,
}
use monocles_chat_desktop.Omemo.Error.{ok}
use monocles_chat_desktop.Omemo.Establish.{ec_raw}
use monocles_chat_desktop.Omemo.Prekeys.{
  Records, modify, read_prekeys, read_kem_prekeys, rebuild_bundle, refresh_bundle,
  purge_non_ml_kem_prekeys, replenish, rotate_last_resort_if_due, rotate_signed_prekey_if_due,
  prune_stale_kyber_prekeys,
}
use monocles_chat_desktop.Omemo.Bundle.{is_ml_kem_1024}
use monocles_chat_desktop.Omemo.Prekeys.Ready.{
  RecordsLaws, Ready, purge-Ready, rotate_last_resort-Keeps, rotate_signed_prekey-Keeps,
  prune-Ready,
}
use monocles_chat_desktop.Omemo.Prekeys.Reading.{
  IsPrekeyOf, IsKemOf, read_prekeys-rows, read_kem_prekeys-rows, read_prekeys-length,
}
use monocles_chat_desktop.Omemo.Prekeys.Rows.{
  AnyOf-by_id, AnyOf-keep, AnyOf-map, AnyOf-All, All-keep, newest-IsNewest, length-by_id,
}
use monocles_chat_desktop.Omemo.Prekeys.Signed.{
  IsHighest, prune-IsHighest, rotate_signed_prekey_if_due-IsHighest,
}
use monocles_chat_desktop.Omemo.Prekeys.Stock.{replenish-Ready}
use monocles_chat_desktop.Omemo.Prekeys.Steps.{done-ok, gets-bind, lift-bind, step-bind}
use monocles_chat_desktop.Uri.Utf8.{Bytes}

module _ (l : Records) where
  -- Each key of the bundle is one that the store has: the signed one, and no other signed key has a
  -- higher id; a last-resort KEM key, and no other last-resort key has a higher id; each one-time key, the KEM ones unused and no last
  -- resort.
  abbrev pub IsBacked : Bundle → Database → Type 0
  IsBacked b db =
      ((id : ℕ) × (bytes : Bytes) × (key : Bytes) × (load_signed_prekey id db ≡ some bytes)
        × (l.signed_parts bytes ≡ some (b.spk_id, key, b.spk_sig))
        × (ec_raw key ≡ b.spk)
        × IsHighest l id db)
      × AnyOf
          (λ p.
            (p.1.is_last_resort ≡ true)
            × (p.0 ≡ b.kem_spk_id)
            × (l.kyber_parts p.1.bytes ≡ some (b.kem_spk, b.kem_spk_sig)))
          db.kyber_prekeys
      × All (λ p. (p.1.is_last_resort ≡ false) ⊎ (p.0 ≤ b.kem_spk_id)) db.kyber_prekeys
      × All (λ k. AnyOf (λ r. IsPrekeyOf l r k) db.prekeys) b.prekeys
      × All
          (λ k.
            AnyOf (λ r. (r.1.used ≡ false) × (r.1.is_last_resort ≡ false) × IsKemOf l r k)
              db.kyber_prekeys)
          b.kem_prekeys

  -- What a peer demands of a bundle's KEM keys, and what is left for further peers.
  abbrev pub IsOffer : ℕ → Bundle → Type 0
  IsOffer low_water b =
      (is_ml_kem_1024 b.kem_spk ≡ true)
      × All (λ k. is_ml_kem_1024 k.key ≡ true) b.kem_prekeys
      × (low_water ≤ length b.prekeys)

  -- The order of the rows and the tests of the query, for the rows of the store.
  stored_prekeys :
      (db : Database) (out : List (ℕ × Bytes))
      → All (λ k. AnyOf (λ r. IsPrekeyOf l r k) (list_prekeys db)) out
      → All (λ k. AnyOf (λ r. IsPrekeyOf l r k) db.prekeys) out
  stored_prekeys db out = All-map _ _ out (λ k. AnyOf-by_id (λ r. IsPrekeyOf l r k) db.prekeys)

  stored_kems :
      (db : Database) (out : List KemPreKey)
      → All (λ k. AnyOf (λ r. IsKemOf l r k) (available_kyber_prekeys db)) out
      → All
          (λ k.
            AnyOf
              (λ r. (r.1.used ≡ false) × (r.1.is_last_resort ≡ false) × IsKemOf l r k)
              db.kyber_prekeys)
          out
  stored_kems db out = All-map _ _ out (λ k m.
      AnyOf-map _ _ db.kyber_prekeys
        (λ r h. let test = free r.1.used r.1.is_last_resort h.0 in (test.0, test.1, h.1))
        (AnyOf-keep (λ r. IsKemOf l r k) available db.kyber_prekeys
          (AnyOf-by_id (λ r. IsKemOf l r k) (keep available db.kyber_prekeys) m)))
    where
      free : (u r : Bool) → not u && not r ≡ true → (u ≡ false) × (r ≡ false)
      free u r h = ground arith

  -- The newest last-resort key.
  stored_last_resort :
      (db : Database) (p : ℕ × KyberRow) (key sig : Bytes)
      → last_resort_kyber db ≡ some p
      → l.kyber_parts p.1.bytes ≡ some (key, sig)
      → AnyOf
          (λ q.
            (q.1.is_last_resort ≡ true) × (q.0 ≡ p.0) × (l.kyber_parts q.1.bytes ≡ some (key, sig)))
          db.kyber_prekeys
        × All (λ q. (q.1.is_last_resort ≡ false) ⊎ (q.0 ≤ p.0)) db.kyber_prekeys
  stored_last_resort db p key sig h read =
      let (there, highest) =
        newest-IsNewest (keep (λ q. q.1.is_last_resort) db.kyber_prekeys) p h in
      (
        AnyOf-map _ _ db.kyber_prekeys
            (λ q m. (
              m.0,
              ap (λ x. x.0) m.1,
              ap (λ (x : ℕ × KyberRow). l.kyber_parts x.1.bytes) m.1 ∙ read,
            ))
            (AnyOf-keep (λ q. q ≡ p) (λ q. q.1.is_last_resort) db.kyber_prekeys there),
        All-keep _ (λ q. q.1.is_last_resort) db.kyber_prekeys highest,
      )

  -- The store is only read.
  abbrev IsRebuilt : Bundle → Database → Database → Type 0
  IsRebuilt b db after = (db ≡ after) × IsBacked b db × (length b.prekeys ≡ length db.prekeys)

  rebuild_bundle-IsRebuilt :
      (id : ℕ) (db : Database) {b : Bundle} {after : Database}
      → IsHighest l id db
      → rebuild_bundle l id db ≡ (ok b, after)
      → IsRebuilt b db after
  unfolding rebuild_bundle
  rebuild_bundle-IsRebuilt id db {b} {after} top h =
      lift-bind (load_signed_prekey id db) _ db (gets-bind (load_signed_prekey id) _ db h)
        λ bytes stored h2. lift-bind (l.signed_parts bytes) _ db h2 λ spk parts h3.
          lift-bind (last_resort_kyber db) _ db (gets-bind last_resort_kyber _ db h3)
            λ kem newest h5. lift-bind (l.kyber_parts kem.1.bytes) _ db h5 λ kem_parts kem_read h6.
              step-bind (read_prekeys l (list_prekeys db)) _ db (gets-bind list_prekeys _ db h6)
                λ prekeys db1 e1 h8.
                  step-bind (read_kem_prekeys l (available_kyber_prekeys db1)) _ db1
                    (gets-bind available_kyber_prekeys _ db1 h8)
                    λ kems db2 e2 h10. lift-bind _ _ db2 h10 λ pq signed h11.
                      let (same1, found) = read_prekeys-rows l (list_prekeys db) db e1 in
                      let (same2, kems_found) =
                        read_kem_prekeys-rows l (available_kyber_prekeys db1) db1 e2 in
                      let (made, same3) = done-ok _ db2 h11 in
                      let there =
                        subst
                          (λ d.
                            All (λ k. AnyOf (λ r. IsKemOf l r k) (available_kyber_prekeys d)) kems)
                          (sym same1) kems_found in
                      let (last, highest) =
                        stored_last_resort db kem kem_parts.0 kem_parts.1 newest kem_read in
                      let published : Bundle = record {
                        spk_id = spk.0;
                        spk = ec_raw spk.1;
                        spk_sig = spk.2;
                        ik = ec_raw l.identity_public;
                        prekeys = prekeys;
                        kem_spk_id = kem.0;
                        kem_spk = kem_parts.0;
                        kem_spk_sig = kem_parts.1;
                        kem_prekeys = kems;
                        pq_ik = pq.0;
                        pq_sig = pq.1;
                      } in
                      subst (λ x. IsRebuilt x db after) made
                        (
                          (same1 ∙ (same2 ∙ same3)),
                          (
                            (id, bytes, spk.1, stored, parts, refl, top),
                            last,
                            highest,
                            stored_prekeys db prekeys found,
                            stored_kems db kems there,
                          ),
                          read_prekeys-length l (list_prekeys db) db e1 ∙ length-by_id db.prekeys,
                        )

  -- A key that is read of a row of ML-KEM-1024.
  read_key :
      (laws : RecordsLaws l) (db : Database) (n : ℕ) (Q : ℕ × KyberRow → Type 0) (key sig : Bytes)
      → Ready l n db
      → AnyOf (λ p. Q p × (l.kyber_parts p.1.bytes ≡ some (key, sig))) db.kyber_prekeys
      → is_ml_kem_1024 key ≡ true
  read_key laws db n Q key sig ready m = AnyOf-All _ _ db.kyber_prekeys ready.0 m λ p current h.
      ap (λ o. map_or o false is_ml_kem_1024) (sym (laws.same_public p.1.bytes key sig h.1))
      ∙ current

  Ready-IsOffer :
      (laws : RecordsLaws l) (n : ℕ) (b : Bundle) (db : Database)
      → Ready l n db
      → IsBacked b db
      → length b.prekeys ≡ length db.prekeys
      → IsOffer n b
  Ready-IsOffer laws n b db ready backed same = (
    read_key laws db n (λ p. (p.1.is_last_resort ≡ true) × (p.0 ≡ b.kem_spk_id)) b.kem_spk
        b.kem_spk_sig ready (AnyOf-map _ _ db.kyber_prekeys (λ p h. ((h.0, h.1), h.2)) backed.1),
    All-map _ _ b.kem_prekeys
        (λ k m.
          read_key laws db n (λ p. p.0 ≡ k.id) k.key k.sig ready
            (AnyOf-map _ _ db.kyber_prekeys (λ p h. h.2) m))
        backed.4,
    omega (arith, same, ready.1),
  )

  -- When the pre-keys of a store that was set up are maintained and a bundle is returned, whatever
  -- keys of other algorithms, used keys and superseded ones the store had: every KEM key of the
  -- bundle is one of ML-KEM-1024, and it has no fewer one-time EC keys than the low-water mark, which
  -- is not above the target. And the store that is left has all of them: the signed pre-key, in the
  -- signed row with the highest id; the last-resort KEM key, which is that with the highest id; and for each one-time key a row with
  -- its id from which it is read, the KEM ones unused and no last resort.
  pub refresh_bundle-IsBacked :
      (signed_prekey_id target low_water : ℕ) (db : Database) {b : Bundle} {after : Database}
      → RecordsLaws l
      → low_water ≤ target
      → refresh_bundle l signed_prekey_id target low_water db ≡ (ok b, after)
      → IsOffer low_water b × IsBacked b after
  unfolding refresh_bundle
  refresh_bundle-IsBacked signed_prekey_id target low_water db {b} {after} laws le h =
      step-bind (modify (purge_non_ml_kem_prekeys l)) _ db h λ _ db1 e1 h1.
        step-bind (replenish l target low_water) _ db1 h1 λ _ db2 e2 h2.
          step-bind (rotate_last_resort_if_due l) _ db2 h2 λ _ db3 e3 h3.
            step-bind (rotate_signed_prekey_if_due l signed_prekey_id) _ db3 h3 λ id db4 e4 h4.
              step-bind (modify (prune_stale_kyber_prekeys l)) _ db4 h4 λ _ db5 e5 h5.
                let r1 = subst (λ x. Ready l 0 x.1) e1 (purge-Ready l db) in
                let r2 = replenish-Ready l laws target low_water db1 le r1 e2 in
                let r3 =
                  subst (λ x. Ready l low_water x.1) e3
                    (rotate_last_resort-Keeps l laws low_water db2 r2) in
                let r4 =
                  subst (λ x. Ready l low_water x.1) e4
                    (rotate_signed_prekey-Keeps l low_water signed_prekey_id db3 r3) in
                let r5 = subst (λ x. Ready l low_water x.1) e5 (prune-Ready l low_water db4 r4) in
                let top =
                  subst (λ x. IsHighest l id x.1) e5
                    (prune-IsHighest l id db4
                      (rotate_signed_prekey_if_due-IsHighest l signed_prekey_id db3 e4)) in
                let (same, backed, keys) = rebuild_bundle-IsRebuilt id db5 top h5 in
                (Ready-IsOffer laws low_water b db5 r5 backed keys, subst (IsBacked b) same backed)
