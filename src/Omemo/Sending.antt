-- ===== src/Omemo/Sending.antt =====
-- `encrypt` of crates/mxc-omemo/src/session.rs, and `encrypt_for_recipients`, `build_header` and
-- `build_encrypted` of crates/mxc-proto/src/xeps/omemo.rs.
pub mod Safe
pub mod Targets
use monocles_chat_desktop.Base.{
  ℕ, Bool, true, false, not, ◌&&◌, List, [], ◌∷◌, ◌++◌, Option, none, some, Text, Map, codes, map,
  if◌then◌else◌, all, is_empty, text_eq, text_lt, eq_ignore_case,
}
use monocles_chat_desktop.Dom.{Dom}
use monocles_chat_desktop.Omemo.ContextBinding.{compute_context_binding}
use monocles_chat_desktop.Omemo.Database.{Address, Database}
use monocles_chat_desktop.Omemo.Devices.{State, Peers, sessions_for, ns_omemo2}
use monocles_chat_desktop.Omemo.Error.{OmemoError, Result, ok, err}
use monocles_chat_desktop.Omemo.Kmac.{Sponge, omemo2_key_commitment}
use monocles_chat_desktop.Omemo.Payload.{Aead, omemo2_seal}
use monocles_chat_desktop.Uri.Decimal.{show_nat}
use monocles_chat_desktop.Uri.Utf8.{Bytes}

-- `WrappedKey`; the JID and the device id are the address.
pub record WrappedKey : Type 0 where
  pub address : Address
  pub bytes : Bytes
  pub kex : Bool

pub record EncryptedMessage : Type 0 where
  pub payload : Bytes
  pub keys : List WrappedKey
  pub commit : Bytes

-- What is not in the repository: the hash, the cipher, base64, the fresh message key, and
-- `message_encrypt` of libsignal, with whether its message begins a session. It advances the
-- ratchet in the store.
pub record Sealing : Type 0 where
  pub sponge : Sponge
  pub aead : Aead
  pub encode : Bytes → Text
  pub message_key : Bytes
  pub message_encrypt : Address → Address → Bytes → Database → Result (Bytes × Bool) × Database

abbrev pub with_key : Address → Bytes × Bool → Result (List WrappedKey) → Result (List WrappedKey)
with_key r ct (err e) = err e
with_key r ct (ok keys) = ok (record { address = r; bytes = ct.0; kex = ct.1 } ∷ keys)

-- A wrap that fails ends the loop.
abbrev pub after_wrap :
    Address
    → Result (Bytes × Bool) × Database
    → Result (List WrappedKey) × Database
    → Result (List WrappedKey) × Database
after_wrap r (err e, db) rest = (err e, db)
after_wrap r (ok ct, db) rest = (with_key r ct rest.0, rest.1)

module _ (x : Sealing) where
  unfoldable pub wrap_all : Address → List Address → Database → Result (List WrappedKey) × Database
  wrap_all own [] db = (ok [], db)
  wrap_all own (r ∷ rs) db =
      let out = x.message_encrypt r own x.message_key db in
      let rest = wrap_all own rs out.1 in after_wrap r out rest

  abbrev pub finished :
      Bytes → Bytes → Result (List WrappedKey) × Database → Result EncryptedMessage × Database
  finished payload commit (ok keys, db) =
      (ok (record { payload = payload; keys = keys; commit = commit }), db)
  finished payload commit (err e, db) = (err e, db)

  abbrev pub sealed :
      Address → List Address → Bytes → Database → Result Bytes → Result EncryptedMessage × Database
  sealed own recipients commit db (err e) = (err e, db)
  sealed own recipients commit db (ok payload) =
      finished payload commit (wrap_all own recipients db)

  unfoldable pub encrypt :
      Address → List Address → Option Text → Bytes → Database → Result EncryptedMessage × Database
  unfolding wrap_all omemo2_seal omemo2_key_commitment compute_context_binding
  encrypt own recipients to_bare plaintext db =
      let binding = compute_context_binding own.0 to_bare own.1 in
      sealed own recipients (omemo2_key_commitment x.sponge x.message_key binding) db
        (omemo2_seal x.sponge x.aead x.message_key plaintext own.0 to_bare own.1)

-- `by_jid.entry(jid).or_default().push(k)` of a `BTreeMap`.
unfoldable pub push_key : WrappedKey → Map (List WrappedKey) → Map (List WrappedKey)
unfolding text_eq text_lt
push_key k [] = (k.address.0, k ∷ []) ∷ []
push_key k ((jid, ks) ∷ m) =
    if text_eq jid k.address.0
    then (jid, ks ++ (k ∷ [])) ∷ m
    else if text_lt jid k.address.0
    then (jid, ks) ∷ push_key k m
    else (k.address.0, k ∷ []) ∷ (jid, ks) ∷ m

unfoldable pub by_jid : List WrappedKey → Map (List WrappedKey) → Map (List WrappedKey)
unfolding push_key
by_jid [] m = m
by_jid (k ∷ ks) m = by_jid ks (push_key k m)

module _ (d : Dom) (encode : Bytes → Text) where
  open d use {Element, build}

  abbrev key_el : WrappedKey → Element
  key_el k =
      build (codes "key") ns_omemo2
        ((codes "rid", show_nat k.address.1)
          ∷ (if k.kex then (codes "kex", codes "true") ∷ [] else []))
        [] (encode k.bytes)

  abbrev keys_el : Text × List WrappedKey → Element
  keys_el (jid, ks) = build (codes "keys") ns_omemo2 ((codes "jid", jid) ∷ []) (map key_el ks) []

  unfoldable pub build_header : EncryptedMessage → ℕ → Element
  unfolding by_jid show_nat
  build_header enc sender_device =
      build (codes "header") ns_omemo2 ((codes "sid", show_nat sender_device) ∷ [])
        (map keys_el (by_jid enc.keys [])) []

  unfoldable pub build_encrypted : EncryptedMessage → ℕ → Element
  unfolding build_header
  build_encrypted enc sender_device =
      build (codes "encrypted") ns_omemo2 []
        (build_header enc sender_device
          ∷ build (codes "payload") ns_omemo2 [] [] (encode enc.payload)
          ∷ build (codes "commit") ns_omemo2 [] [] (encode enc.commit)
          ∷ [])
        []

pub data Sent (E : Type 0) : Type 0 where
  no_device : Sent E
  failed : OmemoError → Sent E
  encrypted : E → Sent E

module _ (d : Dom) (w : Peers d) where
  -- The devices of the recipients, but for those of our own account.
  unfoldable pub recipient_addrs : List Text → State → List Address × State
  unfolding sessions_for eq_ignore_case
  recipient_addrs [] st = ([], st)
  recipient_addrs (jid ∷ jids) st =
      let (here, st') = if eq_ignore_case jid w.own then ([], st) else sessions_for d w jid st in
      let (rest, st'') = recipient_addrs jids st' in (here ++ rest, st'')

  -- Those, and with them the other devices of our own.
  unfoldable pub targets : List Text → State → List Address × List Address × State
  unfolding recipient_addrs
  targets recipients st =
      let (theirs, st') = recipient_addrs recipients st in
      let (ours, st'') = sessions_for d w w.own st' in (theirs, theirs ++ ours, st'')

  unfoldable pub note_to_self : List Text → Bool
  unfolding eq_ignore_case
  note_to_self recipients =
      not (is_empty recipients) && all (λ j. eq_ignore_case j w.own) recipients

module _ (d : Dom) (x : Sealing) (w : Peers d) where
  open d use {Element}

  abbrev pub sent_as : State → Result EncryptedMessage × Database → Sent Element × State
  sent_as st (ok enc, db) =
      (encrypted (build_encrypted d x.encode enc w.our_device), record st { db = db })
  sent_as st (err e, db) = (failed e, record st { db = db })

  unfoldable pub encrypt_for_recipients :
      List Text → Option Text → Bytes → State → Sent Element × State
  encrypt_for_recipients recipients binding_to envelope_xml st =
      let (theirs, addrs, st') = targets d w recipients st in
      if is_empty theirs && not (note_to_self d w recipients)
      then (no_device, st')
      else sent_as st' (encrypt x (w.own, w.our_device) addrs binding_to envelope_xml st'.db)

  -- To a single recipient.
  unfoldable pub encrypt_for : Text → Bytes → State → Sent Element × State
  encrypt_for to_bare envelope_xml st =
      encrypt_for_recipients (to_bare ∷ []) (some to_bare) envelope_xml st
