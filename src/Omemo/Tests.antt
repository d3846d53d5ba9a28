-- ===== src/Omemo/Tests.antt =====
-- The context binding, the payload, the bundles, the handshakes and the trust on concrete inputs.
use monocles_chat_desktop.Base.{
  ℕ, ◌≡◌, ◌≢◌, ◌⊎◌, refl, text_eq, true, false, Option, none, some, List, [], ◌∷◌, ◌++◌, codes,
  contains, split, is_empty, arith,
}
use monocles_chat_desktop.Base.Tables.{address_key, texts_key, nat_key, row, upsert, update}
use monocles_chat_desktop.Calls.State.{bare}
use monocles_chat_desktop.Omemo.Bundle.{Bundle, from_xml, is_ml_kem_1024, has_pq_identity}
use monocles_chat_desktop.Omemo.Bundle.Accepted.{only_ml_kem, from_xml-accepted}
use monocles_chat_desktop.Omemo.ContextBinding.{recipient_bytes, compute_context_binding}
use monocles_chat_desktop.Omemo.Database.{
  Address, Database, OmemoIdentity, Initiation, omemo_identity, save_omemo_identity,
  set_omemo_trust,
}
use monocles_chat_desktop.Omemo.Error.{OmemoError, ok, err}
use monocles_chat_desktop.Omemo.Establish.{establish_session}
use monocles_chat_desktop.Omemo.Establish.Pins.{establish_session-Kept}
use monocles_chat_desktop.Omemo.Fingerprint.{hybrid_fingerprint-commits}
use monocles_chat_desktop.Omemo.Handshake.{accept, arrive, accept_once}
use monocles_chat_desktop.Omemo.Kmac.{omemo2_key_commitment, zeros}
use monocles_chat_desktop.Omemo.Payload.{omemo2_open, omemo2_seal}
use monocles_chat_desktop.Omemo.Payload.Committing.{
  Collision, omemo2_open-commits, omemo2_open-omemo2_seal,
}
use monocles_chat_desktop.Omemo.Trust.{trusted, save_identity}
use monocles_chat_desktop.Omemo.Trust.Vouched.{Change, brought, decided, run, knows, run-trusted}
use monocles_chat_desktop.Omemo.Worlds.{
  flat_sponge, zeros-IsBytes, open_aead, open_aead_laws, signal, reading, bundle_events, no_rows,
  message_key,
}
use monocles_chat_desktop.Uri.Utf8.{Bytes, as_bytes}

compute_context_binding_phone :
    compute_context_binding (codes "a@x/phone") (some (codes "b@y/desk")) 258
    ≡ codes "OMEMO2" ++ (0 ∷ (codes "a@x" ++ (0 ∷ (codes "b@y" ++ (0 ∷ 0 ∷ 0 ∷ 1 ∷ 2 ∷ [])))))
unfolding compute_context_binding split
compute_context_binding_phone = refl

-- A message without a recipient has an empty segment.
compute_context_binding_metadata :
    compute_context_binding (codes "a@x") none 7
    ≡ codes "OMEMO2" ++ (0 ∷ (codes "a@x" ++ (0 ∷ 0 ∷ 0 ∷ 0 ∷ 0 ∷ 7 ∷ [])))
unfolding compute_context_binding split
compute_context_binding_metadata = refl

abbrev hello : Bytes
hello = codes "hello"

abbrev sealed_hello : Bytes
sealed_hello = zeros 16 ++ hello

abbrev commitment : Bytes
commitment = zeros 64

omemo2_open-omemo2_seal_example :
    omemo2_open flat_sponge open_aead message_key sealed_hello
      (codes "a@x")
      (some (codes "b@y"))
      7
      (some (
        omemo2_key_commitment flat_sponge message_key
          (compute_context_binding (codes "a@x") (some (codes "b@y")) 7)))
    ≡ ok hello
unfolding omemo2_seal omemo2_key_commitment
omemo2_open-omemo2_seal_example =
    omemo2_open-omemo2_seal flat_sponge open_aead message_key hello (codes "a@x")
      (some (codes "b@y")) 7 sealed_hello open_aead_laws (zeros-IsBytes 64) refl

omemo2_open-commits_example :
    ((message_key ≡ message_key)
      × (as_bytes (bare (codes "a@x/1")) ≡ as_bytes (bare (codes "a@x/2")))
      × (recipient_bytes (some (codes "b@y")) ≡ recipient_bytes (some (codes "b@y/z")))
      × (◌≡◌ {A = ℕ} 7 7))
    ⊎ Collision flat_sponge
unfolding omemo2_open bare as_bytes contains split
omemo2_open-commits_example =
    omemo2_open-commits flat_sponge open_aead message_key message_key sealed_hello sealed_hello
      hello hello commitment (codes "a@x/1") (codes "a@x/2") (some (codes "b@y"))
      (some (codes "b@y/z")) 7 7 (λ name custom x n. zeros-IsBytes n) (zeros-IsBytes 64) refl refl
      refl refl refl refl (omega arith) (omega arith) refl refl

abbrev read_bundle : Bundle
read_bundle = record {
  spk_id = 0;
  spk = 10 ∷ codes "s";
  spk_sig = [];
  ik = 10 ∷ codes "i";
  prekeys = (0, 10 ∷ codes "p") ∷ [];
  kem_spk_id = 0;
  kem_spk = 10 ∷ codes "k";
  kem_spk_sig = [];
  kem_prekeys = record { id = 0; key = 10 ∷ codes "o"; sig = [] } ∷ [];
  pq_ik = 10 ∷ codes "q";
  pq_sig = 10 ∷ codes "g";
}

from_xml-accepted_example :
    (is_empty read_bundle.ik ≡ false)
    × (is_empty read_bundle.spk ≡ false)
    × (is_ml_kem_1024 read_bundle.kem_spk ≡ true)
    × (only_ml_kem read_bundle.kem_prekeys ≡ true)
    × (has_pq_identity read_bundle ≡ true)
unfolding from_xml
from_xml-accepted_example = from_xml-accepted reading bundle_events {b = read_bundle} refl

-- Keys of ten and of two bytes.
hybrid_fingerprint-commits_example :
    ((hello ≡ hello) × (sealed_hello ≡ sealed_hello))
    ⊎ ((x : Bytes) × (y : Bytes) × (x ≢ y) × (x ≡ y))
hybrid_fingerprint-commits_example =
    hybrid_fingerprint-commits (λ b. b) (λ b. b) hello hello sealed_hello sealed_hello (λ x y e. e)
      (omega arith) (omega arith) refl

abbrev bob : Address
bob = (codes "b@y", 7)

abbrev pinned_rows : Database
pinned_rows = record no_rows { pins = ((codes "b@y", 10 ∷ codes "i"), codes "old") ∷ [] }

-- The bundle has another post-quantum identity than the one that is pinned.
establish_session-Kept_example :
    (row
        (codes "b@y", 10 ∷ codes "i")
        (establish_session signal (codes "a@x", 3) bob read_bundle pinned_rows).1.pins
      ≡ some (codes "old"))
    ⊎ ((codes "b@y" ≡ codes "b@y")
        × ((r : OmemoIdentity) × (omemo_identity bob pinned_rows ≡ some r) × (r.trust ≡ 3)))
unfolding row save_identity texts_key text_eq
establish_session-Kept_example =
    establish_session-Kept signal (codes "a@x", 3) bob read_bundle pinned_rows
      (codes "b@y", 10 ∷ codes "i") (codes "old") (λ a b q d. refl) refl

-- A one-time key and a last-resort key.
abbrev kem_rows : Database
kem_rows = record no_rows {
  kyber_prekeys =
      (1, record { bytes = hello; is_last_resort = true; used = false })
      ∷ (2, record { bytes = hello; is_last_resort = false; used = false })
      ∷ [];
}

abbrev initiation : ℕ → Initiation
initiation n = record { kyber_id = n; spk_id = 1; base = codes "base" }

abbrev deserialize : Bytes → Option Bytes
deserialize b = some b

abbrev met : Database
met = record kem_rows { initiations = initiation 1 ∷ [] }

accept_once_example :
    (e : OmemoError) × (accept deserialize
        (initiation 1)
        (arrive deserialize (initiation 2 ∷ initiation 1 ∷ []) met)
      ≡ err e)
unfolding accept
accept_once_example =
    accept_once deserialize (initiation 1) (initiation 2 ∷ initiation 1 ∷ []) kem_rows {db' = met}
      refl

-- A device, its replaced key, and the user's verdict on it.
abbrev changes : List Change
changes = brought bob (codes "k1") ∷ brought bob (codes "k2") ∷ decided bob 3 ∷ []

run-trusted_example :
    (r : OmemoIdentity) × (omemo_identity bob (run changes no_rows []).0 ≡ some r)
    × (knows (run changes no_rows []).1 bob r.identity_key ≡ true)
unfolding trusted save_identity save_omemo_identity set_omemo_trust row upsert update address_key
    text_eq
run-trusted_example = run-trusted changes no_rows bob refl refl
