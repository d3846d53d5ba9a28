-- ===== src/Omemo/Prekeys/First.antt =====
-- The first pre-keys, `generate_and_store_prekeys` of crates/mxc-omemo/src/session.rs, and
-- `maintain_bundle`, which makes them or maintains those there are.
use monocles_chat_desktop.Base.{
  ℕ, zero, suc, ◌+◌, true, false, List, [], ◌∷◌, map, is_some, if◌then◌else◌,
}
use monocles_chat_desktop.Base.Tables.{row}
use monocles_chat_desktop.Omemo.Bundle.{Bundle, KemPreKey}
use monocles_chat_desktop.Omemo.Database.{
  load_signed_prekey, store_signed_prekey, store_kyber_prekey,
}
use monocles_chat_desktop.Omemo.Establish.{ec_raw}
use monocles_chat_desktop.Omemo.Prekeys.{
  Records, S, ◌>>=◌, ◌>>◌, done, gets, modify, lift, add_prekeys, refresh_bundle,
}

module _ (l : Records) where
  -- So many one-time KEM keys from an id on.
  unfoldable pub add_kems : ℕ → ℕ → S (List KemPreKey)
  add_kems zero next = done []
  add_kems (suc n) next = do
    rec ← lift (l.new_kyber next)
    modify (store_kyber_prekey next rec false)
    parts ← lift (l.kyber_parts rec)
    rest ← add_kems n (next + 1)
    done (record { id = next; key = parts.0; sig = parts.1 } ∷ rest)

  unfoldable pub generate_and_store_prekeys : ℕ → ℕ → ℕ → ℕ → S Bundle
  unfolding add_prekeys add_kems ec_raw
  generate_and_store_prekeys signed_prekey_id kem_signed_id first_prekey_id count = do
    prekeys ← add_prekeys l count first_prekey_id
    spk ← lift (l.new_signed signed_prekey_id)
    modify (store_signed_prekey signed_prekey_id spk.0)
    kem ← lift (l.new_kyber kem_signed_id)
    modify (store_kyber_prekey kem_signed_id kem true)
    kem_parts ← lift (l.kyber_parts kem)
    kem_prekeys ← add_kems count (kem_signed_id + 1)
    pq ← lift (
        l.sign_bundle_pq signed_prekey_id spk.1 kem_signed_id kem_parts.0
          (map (λ k. (k.id, k.key)) kem_prekeys))
    done (record {
      spk_id = signed_prekey_id;
      spk = ec_raw spk.1;
      spk_sig = spk.2;
      ik = ec_raw l.identity_public;
      prekeys = prekeys;
      kem_spk_id = kem_signed_id;
      kem_spk = kem_parts.0;
      kem_spk_sig = kem_parts.1;
      kem_prekeys = kem_prekeys;
      pq_ik = pq.0;
      pq_sig = pq.1;
    })

  unfoldable pub maintain_bundle : ℕ → ℕ → ℕ → ℕ → ℕ → S Bundle
  unfolding row generate_and_store_prekeys refresh_bundle
  maintain_bundle signed_prekey_id kem_signed_id first_prekey_id target low_water = do
    current ← gets (load_signed_prekey signed_prekey_id)
    if is_some current
        then refresh_bundle l signed_prekey_id target low_water
        else generate_and_store_prekeys signed_prekey_id kem_signed_id first_prekey_id target
