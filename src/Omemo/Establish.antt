-- ===== src/Omemo/Establish.antt =====
-- `establish_session` and `reconcile_pq_pin` of crates/mxc-omemo/src/session.rs: a session from a
-- peer's bundle, and the pin of the post-quantum identity.
pub mod Pins
use monocles_chat_desktop.Base.{
  ℕ, Bool, true, false, not, ◌&&◌, ◌||◌, List, [], ◌∷◌, ◌++◌, Option, none, some, Text, map,
  if◌then◌else◌, ◌==◌, length, is_some, map_or, text_eq,
}
use monocles_chat_desktop.Base.Tables.{address_key, texts_key, row, upsert}
use monocles_chat_desktop.Omemo.Bundle.{Bundle, KemPreKey, supports_pqxdh, has_pq_identity}
use monocles_chat_desktop.Omemo.Database.{
  Address, Database, omemo_identity, get_pinned_omemo2_pq_identity, pin_omemo2_pq_identity,
}
use monocles_chat_desktop.Omemo.Error.{OmemoError, Result, ok, err, guard, ok_or, ◌>>=◌, ◌>>◌}
use monocles_chat_desktop.Uri.Utf8.{Bytes}

-- An EC public key in the form of libsignal, with its type byte.
unfoldable pub ec_djb : Bytes → Bytes
ec_djb bytes = if length bytes == 32 then 0x05 ∷ bytes else bytes

abbrev pub starts_djb : Bytes → Bool
starts_djb [] = false
starts_djb (b ∷ _) = b == 0x05

abbrev pub rest_of : Bytes → Bytes
rest_of [] = []
rest_of (_ ∷ bs) = bs

-- The raw form, of the wire.
unfoldable pub ec_raw : Bytes → Bytes
ec_raw bytes = if length bytes == 33 && starts_djb bytes then rest_of bytes else bytes

-- What is handed to `process_prekey_bundle`.
pub record PreKeyBundle : Type 0 where
  pub device : ℕ
  pub ec : ℕ × Bytes
  pub spk : ℕ × Bytes
  pub spk_sig : Bytes
  pub kem : ℕ × Bytes
  pub kem_sig : Bytes
  pub identity : Bytes
  pub pq_identity : Bytes
  pub pq_signature : Bytes
  pub kem_binding : Bytes

-- What the code calls of libsignal and `hex`: whether bytes are read as what they should be, the
-- digest and the transcript that the ML-DSA-87 signature covers, its verification, and the
-- handshake, which works on the stores that it is given.
pub record Signal : Type 0 where
  -- `IdentityKey::decode`, serialized again.
  pub identity : Bytes → Option Bytes
  pub is_pq_identity : Bytes → Bool
  pub is_pq_signature : Bytes → Bool
  pub is_public : Bytes → Bool
  pub is_kem_public : Bytes → Bool
  pub is_device_id : ℕ → Bool
  pub pq_kem_binding : ℕ → Bytes → List (ℕ × Bytes) → Bytes
  pub pq_bundle_transcript : Bytes → Bytes → ℕ → Bytes → Bytes → Bytes
  pub verify : Bytes → Bytes → Bytes → Bool
  pub process_prekey_bundle :
      Address → Address → PreKeyBundle → Database → Result (Unit {0}) × Database
  pub hex : Bytes → Text

abbrev pub first : {A : Type 0} → List A → Option A
first [] = none
first (a ∷ _) = some a

abbrev pub kem_prekey_ids : Bundle → List (ℕ × Bytes)
kem_prekey_ids bundle = map (λ k. (k.id, k.key)) bundle.kem_prekeys

-- The KEM pre-key to use: a one-time one if there is one.
abbrev pub chosen_kem : Bundle → ℕ × Bytes × Bytes
chosen_kem bundle =
    map_or (first bundle.kem_prekeys) (bundle.kem_spk_id, bundle.kem_spk, bundle.kem_spk_sig)
      (λ k. (k.id, k.key, k.sig))

module _ (s : Signal) where
  -- `pq_pin_key`.
  abbrev pub pq_pin_key : Bytes → Text
  pq_pin_key identity_key = s.hex identity_key

  -- Whether a pinned identity forbids the bundle's.
  unfoldable pub pin_allows : Address → Text → Bundle → Database → Bool
  unfolding row text_eq
  pin_allows remote fp_key bundle db =
      map_or (get_pinned_omemo2_pq_identity remote.0 fp_key db) true (λ pinned.
        text_eq pinned bundle.pq_ik || map_or (omemo_identity remote db) false (λ r. r.trust == 3))

  -- All that precedes the handshake: what it is given, and the key of the pin.
  unfoldable pub prepare : Address → Bundle → Database → Result (PreKeyBundle × Text)
  unfolding pin_allows ec_djb
  prepare remote bundle db = do
    guard (supports_pqxdh bundle) OmemoError.no_pqxdh
    guard (has_pq_identity bundle) OmemoError.no_pq_identity
    ik ← ok_or (s.identity (ec_djb bundle.ik)) OmemoError.signal
    guard (s.is_pq_identity bundle.pq_ik) OmemoError.signal
    guard (s.is_pq_signature bundle.pq_sig) OmemoError.signal
    let fp_key = pq_pin_key ik
    guard (pin_allows remote fp_key bundle db) (OmemoError.pq_identity_changed fp_key)
    ec ← ok_or (first bundle.prekeys) OmemoError.bundle_parse
    guard (s.is_public (ec_djb ec.1)) OmemoError.signal
    let kem = chosen_kem bundle
    guard (s.is_kem_public kem.1) OmemoError.signal
    guard (s.is_device_id remote.1) OmemoError.signal
    guard (s.is_public (ec_djb bundle.spk)) OmemoError.signal
    ok (
      record {
        device = remote.1;
        ec = (ec.0, ec_djb ec.1);
        spk = (bundle.spk_id, ec_djb bundle.spk);
        spk_sig = bundle.spk_sig;
        kem = (kem.0, kem.1);
        kem_sig = kem.2;
        identity = ik;
        pq_identity = bundle.pq_ik;
        pq_signature = bundle.pq_sig;
        kem_binding = s.pq_kem_binding bundle.kem_spk_id bundle.kem_spk (kem_prekey_ids bundle);
      },
      fp_key,
    )

  -- The handshake, and then the pin.
  unfoldable pub finish :
      Address → Bundle → Text → Result (Unit {0}) × Database → Result (Unit {0}) × Database
  unfolding upsert
  finish remote bundle fp_key (ok _, db) =
      (ok tt, pin_omemo2_pq_identity remote.0 fp_key bundle.pq_ik db)
  finish remote bundle fp_key (err e, db) = (err e, db)

  unfoldable pub handshake :
      Address
      → Address
      → Bundle
      → Database
      → Result (PreKeyBundle × Text)
      → Result (Unit {0}) × Database
  unfolding finish
  handshake own remote bundle db (err e) = (err e, db)
  handshake own remote bundle db (ok (pre_bundle, fp_key)) =
      if s.is_device_id own.1
      then finish remote bundle fp_key (s.process_prekey_bundle remote own pre_bundle db)
      else (err OmemoError.signal, db)

  unfoldable pub establish_session :
      Address → Address → Bundle → Database → Result (Unit {0}) × Database
  unfolding handshake prepare
  establish_session own remote bundle db = handshake own remote bundle db (prepare remote bundle db)

  -- The signature of the bundle's post-quantum identity, over what it covers.
  unfoldable pub pq_signed : Bytes → Bundle → Bool
  unfolding ec_djb
  pq_signed ik bundle =
      let kem_binding = s.pq_kem_binding bundle.kem_spk_id bundle.kem_spk (kem_prekey_ids bundle) in
      s.verify bundle.pq_ik
        (s.pq_bundle_transcript ik bundle.pq_ik bundle.spk_id (ec_djb bundle.spk) kem_binding)
        bundle.pq_sig

  -- Whether a pin was written.
  unfoldable pub reconcile_pq_pin : Address → Bundle → Bytes → Database → Result (Bool × Database)
  unfolding pq_signed ec_djb row upsert text_eq
  reconcile_pq_pin remote bundle known_ik db = do
    guard (has_pq_identity bundle) OmemoError.no_pq_identity
    ik ← ok_or (s.identity (ec_djb bundle.ik)) OmemoError.signal
    guard (text_eq ik known_ik) OmemoError.bundle_parse
    guard (s.is_pq_identity bundle.pq_ik) OmemoError.signal
    guard (s.is_pq_signature bundle.pq_sig) OmemoError.signal
    guard (s.is_public (ec_djb bundle.spk)) OmemoError.signal
    guard (pq_signed ik bundle) OmemoError.bad_signature
    let fp_key = pq_pin_key known_ik
    ok (
        if is_some (get_pinned_omemo2_pq_identity remote.0 fp_key db)
        then (false, db)
        else (true, pin_omemo2_pq_identity remote.0 fp_key bundle.pq_ik db))
