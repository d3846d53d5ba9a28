-- ===== src/Omemo/PrekeyTests.antt =====
-- The maintenance of pre-keys on a small store.
use monocles_chat_desktop.Base.{
  ap, sym, map_or, none, arith, ℕ, ◌≡◌, List, ◌++◌, map, refl, true, false, [], ◌∷◌, some, codes,
}
use monocles_chat_desktop.Base.Tables.{nat_key, row, upsert}
use monocles_chat_desktop.Omemo.Bundle.{Bundle, is_ml_kem_1024}
use monocles_chat_desktop.Omemo.Database.{Database, by_id, max_id, newest}
use monocles_chat_desktop.Omemo.Error.{Result, ok, err}
use monocles_chat_desktop.Omemo.Establish.{ec_raw}
use monocles_chat_desktop.Omemo.Prekeys.{Records, bind, refresh_bundle}
use monocles_chat_desktop.Omemo.Prekeys.First.{maintain_bundle}
use monocles_chat_desktop.Omemo.Prekeys.Published.{IsOffer, IsBacked, refresh_bundle-IsBacked}
use monocles_chat_desktop.Omemo.Prekeys.Ready.{RecordsLaws}
use monocles_chat_desktop.Omemo.Worlds.{no_rows}

-- A record is its key; all were made at time 5.
abbrev records : Records
records = record {
  new_prekey = λ id. some (100 ∷ id ∷ [], 100 ∷ id ∷ []);
  new_signed = λ id. some (101 ∷ id ∷ [], 101 ∷ id ∷ [], codes "sig");
  new_kyber = λ id. some (10 ∷ id ∷ []);
  prekey_public = λ b. some b;
  signed_parts = λ b. some (1, b, codes "sig");
  signed_time = λ b. some 5;
  is_kyber = λ b. true;
  kyber_parts = λ b. some (b, codes "sig");
  kyber_public = λ b. some b;
  kyber_time = λ b. some 5;
  identity_public = codes "ik";
  sign_bundle_pq = λ id spk kem_id kem others. some (codes "pq", codes "pqsig");
  now_ms = 1000;
}

-- A last-resort key, a used key, and one of another algorithm.
abbrev stored : Database
stored = record no_rows {
  signed_prekeys = (1, 101 ∷ 1 ∷ []) ∷ [];
  kyber_prekeys =
      (1, record { bytes = 10 ∷ 1 ∷ []; is_last_resort = true; used = false })
      ∷ (2, record { bytes = 10 ∷ 2 ∷ []; is_last_resort = false; used = true })
      ∷ (3, record { bytes = 9 ∷ 3 ∷ []; is_last_resort = false; used = false })
      ∷ [];
}

abbrev left : Database
left = record stored {
  prekeys = (1, 100 ∷ 1 ∷ []) ∷ [];
  kyber_prekeys =
      (1, record { bytes = 10 ∷ 1 ∷ []; is_last_resort = true; used = false })
      ∷ (2, record { bytes = 10 ∷ 2 ∷ []; is_last_resort = false; used = true })
      ∷ (3, record { bytes = 10 ∷ 3 ∷ []; is_last_resort = false; used = false })
      ∷ [];
}

abbrev refreshed : Bundle
refreshed = record {
  spk_id = 1;
  spk = 101 ∷ 1 ∷ [];
  spk_sig = codes "sig";
  ik = codes "ik";
  prekeys = (1, 100 ∷ 1 ∷ []) ∷ [];
  kem_spk_id = 1;
  kem_spk = 10 ∷ 1 ∷ [];
  kem_spk_sig = codes "sig";
  kem_prekeys = record { id = 3; key = 10 ∷ 3 ∷ []; sig = codes "sig" } ∷ [];
  pq_ik = codes "pq";
  pq_sig = codes "pqsig";
}

laws : RecordsLaws records
laws = record {
  fresh_kyber = λ id b e. ap (λ o. map_or o false is_ml_kem_1024) (sym e);
  same_public = λ b key sig e. ap (λ o. map_or o none (λ p. some p.0)) e;
}

refresh_bundle-IsBacked_example : IsOffer records 1 refreshed × IsBacked records refreshed left
unfolding refresh_bundle bind by_id newest upsert max_id row ec_raw
refresh_bundle-IsBacked_example =
    refresh_bundle-IsBacked records 1 1 1 stored {b = refreshed} {after = left} laws (omega arith)
      refl

abbrev published : Result Bundle → List ℕ
published (ok b) = map (λ k. k.0) b.prekeys ++ map (λ k. k.id) b.kem_prekeys
published (err e) = []

-- A fresh store is given two keys of each kind, from the ids 100 and 2 on.
maintain_bundle_fresh :
    published (maintain_bundle records 1 1 100 2 1 no_rows).0 ≡ 100 ∷ 101 ∷ 2 ∷ 3 ∷ []
unfolding maintain_bundle bind upsert row
maintain_bundle_fresh = refl
