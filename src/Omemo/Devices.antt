-- ===== src/Omemo/Devices.antt =====
-- crates/mxc-proto/src/xeps/omemo.rs and `extract_items` of pep.rs: the devices of a JID, and a
-- session with each of those that the client encrypts to.
pub mod Usable
use monocles_chat_desktop.Base.{
  ℕ, Bool, true, false, not, ◌&&◌, List, [], ◌∷◌, ◌++◌, Option, none, some, Text, codes, map,
  if◌then◌else◌, ◌==◌, leb, keep, length, is_some, map_or, text_eq,
}
use monocles_chat_desktop.Base.Tables.{address_key, row}
use monocles_chat_desktop.Dom.{Dom, attr, get_child}
use monocles_chat_desktop.Omemo.Bundle.{Bundle, Reading, parse_u32, from_xml}
use monocles_chat_desktop.Omemo.Caches.{
  Caches, recently_failed, note_establish_failure, note_establish_success, refresh_device_list,
}
use monocles_chat_desktop.Omemo.Database.{Address, Database, load_omemo_session}
use monocles_chat_desktop.Omemo.Error.{OmemoError, Result, ok, err}
use monocles_chat_desktop.Omemo.Establish.{Signal, establish_session, first}
use monocles_chat_desktop.Omemo.Trust.{trusted}
use monocles_chat_desktop.Sce.Reader.{XmlEvent}

abbrev pub ns_omemo2 : Text
ns_omemo2 = codes "urn:monocles:omemo-pq:1"

abbrev pub ns_pubsub : Text
ns_pubsub = codes "http://jabber.org/protocol/pubsub"

abbrev pub node_devices : Text
node_devices = codes "urn:monocles:omemo-pq:1:devices"

abbrev pub node_bundles : Text
node_bundles = codes "urn:monocles:omemo-pq:1:bundles"

abbrev pub max_devices_per_jid : ℕ
max_devices_per_jid = 128

-- What the store and the caches hold.
pub record State : Type 0 where
  pub db : Database
  pub caches : Caches

module _ (d : Dom) where
  open d use {Element, name, children}

  abbrev named : Text → Element → List Element
  named n e = keep (λ c. text_eq (name c) n) (children e)

  payloads : List Element → List (Option Text × Element)
  payloads [] = []
  payloads (item ∷ items) =
      map_or (first (children item)) [] (λ p. (attr d (codes "id") item, p) ∷ []) ++ payloads items

  unfoldable pub extract_items : Element → List (Option Text × Element)
  unfolding get_child text_eq payloads attr
  extract_items reply = map_or (get_child d (codes "pubsub") ns_pubsub reply) [] (λ pubsub.
      map_or (get_child d (codes "items") ns_pubsub pubsub) []
        (λ items. payloads (named (codes "item") items)))

  -- The inner loop, up to the cap.
  unfoldable pub collect_devices : List Element → List ℕ → List ℕ
  unfolding attr parse_u32
  collect_devices [] out = out
  collect_devices (e ∷ es) out =
      let more = collect_devices es (
        map_or (attr d (codes "id") e) out
          (λ s. map_or (parse_u32 s) out (λ id. out ++ (id ∷ [])))) in
      if leb max_devices_per_jid (length out) then out else more

  unfoldable pub device_ids : List (Option Text × Element) → List ℕ → List ℕ
  unfolding collect_devices text_eq
  device_ids [] out = out
  device_ids ((id, payload) ∷ rest) out = device_ids rest (
      if text_eq (name payload) (codes "devices")
      then collect_devices (named (codes "device") payload) out
      else out)

  -- The network, and what is read with: the reply to a request for the items of a node, or for one
  -- item; the events of an element's text.
  pub record Peers : Type 0 where
    pub items : Text → Text → Option Element
    pub item : Text → Text → ℕ → Option Element
    pub events : Element → List XmlEvent
    pub reading : Reading
    pub signal : Signal
    -- The account's bare JID, its device, and the time.
    pub own : Text
    pub our_device : ℕ
    pub now : ℕ

  module _ (w : Peers) where
    -- Nothing, where the request fails.
    unfoldable pub fetch_device_list : Text → Option (List ℕ)
    unfolding device_ids extract_items
    fetch_device_list jid =
        map_or (w.items jid node_devices) none (λ reply. some (device_ids (extract_items reply) []))

    unfoldable pub fetch_bundle : Address → Result Bundle
    unfolding extract_items from_xml
    fetch_bundle addr =
        map_or (w.item addr.0 node_bundles addr.1) (err OmemoError.bundle_parse) (λ reply.
          map_or (first (extract_items reply)) (err OmemoError.bundle_parse)
            (λ p. from_xml w.reading (w.events p.1)))

    abbrev pub failed : Address → State → Bool × State
    failed addr st = (false, record st { caches = note_establish_failure w.now addr st.caches })

    abbrev pub settled : Address → Caches → Result (Unit {0}) × Database → Bool × State
    settled addr c (ok _, db) = (true, record { db = db; caches = note_establish_success addr c })
    settled addr c (err e, db) = failed addr (record { db = db; caches = c })

    -- From the bundle that was fetched.
    abbrev pub establish : Address → State → Result Bundle → Bool × State
    establish addr st (err e) = failed addr st
    establish addr st (ok bundle) =
        settled addr st.caches (establish_session w.signal (w.own, w.our_device) addr bundle st.db)

    -- Unless the device failed recently.
    abbrev pub attempt : Address → State → Bool × Caches → Bool × State
    attempt addr st (true, c) = (false, record st { caches = c })
    attempt addr st (false, c) = establish addr (record st { caches = c }) (fetch_bundle addr)

    -- Whether there is a session, or one could be established.
    unfoldable pub session_with : Address → State → Bool × State
    unfolding row recently_failed establish_session fetch_bundle
    session_with addr st =
        if is_some (load_omemo_session addr st.db)
        then (true, st)
        else attempt addr st (recently_failed w.now addr st.caches)

    abbrev pub selected : Address → Bool × State → List Address × State
    selected addr (there, st) = (if there && trusted addr st.db then addr ∷ [] else [], st)

    -- A device of the list: nothing for our own, or if it cannot be encrypted to.
    unfoldable pub visit : Text → ℕ → State → List Address × State
    unfolding session_with trusted text_eq
    visit jid dev st =
        if text_eq jid w.own && dev == w.our_device
        then ([], st)
        else selected (jid, dev) (session_with (jid, dev) st)

    unfoldable pub visit_all : Text → List ℕ → State → List Address × State
    unfolding visit
    visit_all jid [] st = ([], st)
    visit_all jid (dev ∷ devs) st =
        let (here, st') = visit jid dev st in
        let (rest, st'') = visit_all jid devs st' in (here ++ rest, st'')

    unfoldable pub sessions_for : Text → State → List Address × State
    unfolding visit_all fetch_device_list refresh_device_list
    sessions_for jid st =
        let devices = map_or (fetch_device_list jid) [] (λ l. l) in
        visit_all jid devices (record st { caches = refresh_device_list jid devices st.caches })
