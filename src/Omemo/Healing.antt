-- ===== src/Omemo/Healing.antt =====
-- `heal_session`, `send_heartbeat` and `reconcile_pq_pin_if_missing` of
-- crates/mxc-proto/src/xeps/omemo.rs: what the client sends of itself to keep a session sound.
pub mod Quiet
use monocles_chat_desktop.Base.{
  ℕ, Bool, true, false, not, ◌&&◌, List, [], ◌∷◌, ◌++◌, Option, none, some, Text, codes,
  if◌then◌else◌, ◌==◌, any, is_some, map_or, text_eq,
}
use monocles_chat_desktop.Base.Tables.{address_key, texts_key, row}
use monocles_chat_desktop.Dom.{Dom}
use monocles_chat_desktop.Omemo.Bundle.{Bundle}
use monocles_chat_desktop.Omemo.Caches.{
  Caches, may_heal, forget_jid_failures, note_establish_failure,
}
use monocles_chat_desktop.Omemo.Database.{
  Address, Database, OmemoIdentity, omemo_identity, get_pinned_omemo2_pq_identity,
}
use monocles_chat_desktop.Omemo.Devices.{State, Peers, fetch_bundle}
use monocles_chat_desktop.Omemo.Error.{OmemoError, Result, ok, err}
use monocles_chat_desktop.Omemo.Establish.{Signal, establish_session, pq_pin_key, reconcile_pq_pin}
use monocles_chat_desktop.Omemo.Sending.{EncryptedMessage, Sealing, encrypt, build_encrypted}
use monocles_chat_desktop.Omemo.Trust.{trusted}
use monocles_chat_desktop.Uri.Utf8.{Bytes}

-- What is sent: nothing, or a message; or the call fails.
pub data Outcome (E : Type 0) : Type 0 where
  silent : Outcome E
  message : E → Outcome E
  failed : OmemoError → Outcome E

abbrev ns_client : Text
ns_client = codes "jabber:client"

module _ (d : Dom) (x : Sealing) (w : Peers d) where
  open d use {Element, build}

  -- `eme_hint`.
  abbrev pub eme_hint : Element
  eme_hint =
      build (codes "encryption") (codes "urn:xmpp:eme:0")
        ((codes "name", codes "PQ-OMEMO2")
          ∷ (codes "namespace", codes "urn:monocles:omemo-pq:1")
          ∷ [])
        [] []

  -- The stanza, with the id that `new_id` makes.
  abbrev pub carrier : Text → Text → Element → Element
  carrier to id enc_el =
      build (codes "message") ns_client
        ((codes "to", to) ∷ (codes "type", codes "chat") ∷ (codes "id", id) ∷ [])
        (enc_el ∷ eme_hint ∷ build (codes "no-store") (codes "urn:xmpp:hints") [] [] [] ∷ []) []

  abbrev sent_as :
      Address → Text → State → Result EncryptedMessage × Database → Outcome Element × State
  sent_as addr id st (ok enc, db) = (
    message (carrier addr.0 id (build_encrypted d x.encode enc w.our_device)),
    record st { db = db },
  )
  sent_as addr id st (err e, db) = (failed e, record st { db = db })

  -- `build_empty_omemo2` and the message around it; `empty` are the bytes of an empty envelope.
  unfoldable pub send_empty : Address → Text → Bytes → State → Outcome Element × State
  send_empty addr id empty st =
      sent_as addr id st (encrypt x (w.own, w.our_device) (addr ∷ []) (some addr.0) empty st.db)

  abbrev pub ourselves : Address → Bool
  ourselves addr = text_eq addr.0 w.own && addr.1 == w.our_device

  -- To a trusted device only.
  abbrev pub if_trusted : Address → Text → Bytes → State → Outcome Element × State
  if_trusted addr id empty st =
      if trusted addr st.db then send_empty addr id empty st else (silent, st)

  abbrev pub healed :
      Address → Text → Bytes → Caches → Result (Unit {0}) × Database → Outcome Element × State
  healed addr id empty c (ok _, db) = if_trusted addr id empty (record { db = db; caches = c })
  healed addr id empty c (err e, db) =
      (silent, record { db = db; caches = note_establish_failure w.now addr c })

  abbrev pub heal_from : Address → Text → Bytes → State → Result Bundle → Outcome Element × State
  heal_from addr id empty st (err e) =
      (silent, record st { caches = note_establish_failure w.now addr st.caches })
  heal_from addr id empty st (ok bundle) =
      healed addr id empty st.caches
        (establish_session w.signal (w.own, w.our_device) addr bundle st.db)

  abbrev pub heal_now : Address → Text → Bytes → State → Bool × Caches → Outcome Element × State
  heal_now addr id empty st (false, c) = (silent, record st { caches = c })
  heal_now addr id empty st (true, c) =
      if ourselves addr
      then (silent, record st { caches = c })
      else heal_from addr id empty (record st { caches = forget_jid_failures addr.0 c })
          (fetch_bundle d w addr)

  unfoldable pub heal_session : Address → Text → Bytes → State → Outcome Element × State
  heal_session addr id empty st = heal_now addr id empty st (may_heal w.now addr st.caches)

  unfoldable pub send_heartbeat : Address → Text → Bytes → State → Outcome Element × State
  send_heartbeat addr id empty st =
      if ourselves addr then (silent, st) else if_trusted addr id empty st

-- The pin of the post-quantum identity of a device that began the session.
module _ (d : Dom) (w : Peers d) where
  abbrev reconciled : State → Result (Bool × Database) → State
  reconciled st (ok (_, db)) = record st { db = db }
  reconciled st (err e) = st

  abbrev reconcile_from : Address → Bytes → State → Result Bundle → State
  reconcile_from addr known_ik st (err e) = st
  reconcile_from addr known_ik st (ok bundle) =
      reconciled st (reconcile_pq_pin w.signal addr bundle known_ik st.db)

  abbrev pub reconcile_known : Address → State → Option OmemoIdentity → State
  reconcile_known addr st none = st
  reconcile_known addr st (some rec) =
      if is_some (get_pinned_omemo2_pq_identity addr.0 (pq_pin_key w.signal rec.identity_key) st.db)
      then st
      else reconcile_from addr rec.identity_key st (fetch_bundle d w addr)

  -- Once in a run for each device.
  unfoldable pub reconcile_pq_pin_if_missing : Address → State → State
  unfolding row text_eq
  reconcile_pq_pin_if_missing addr st =
      if text_eq addr.0 w.own && addr.1 == w.our_device
      then st
      else if any (address_key.same addr) st.caches.pq_pin_reconcile_attempts
      then st
      else (let c = st.caches in
          reconcile_known addr
            (record st {
              caches = record c { pq_pin_reconcile_attempts = addr ∷ c.pq_pin_reconcile_attempts };
            })
            (omemo_identity addr st.db))
