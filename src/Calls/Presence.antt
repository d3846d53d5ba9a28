-- ===== src/Calls/Presence.antt =====
-- `observe_muji_presence`: what an occupant's presence does to the group calls.
use monocles_chat_desktop.Base.{
  Bool, false, not, ◌&&◌, [], ◌∷◌, Option, none, some, Text, Map, codes, if◌then◌else◌, any, keep,
  text_eq, is_some, is_empty, unwrap_or, lookup, insert, remove, split_once,
}
use monocles_chat_desktop.Calls.Members.{emit_conference, ensure_member, remove_member, resource}
use monocles_chat_desktop.Calls.Mesh.{maybe_initiate}
use monocles_chat_desktop.Calls.State.{
  Calls, MujiPeer, MujiState, preparing, ready, conference_invite, conference_invite_cancelled,
  emitted, Env, M, ◌>>=◌, ◌>>◌, gets, modify, effect, skip,
}
use monocles_chat_desktop.Calls.Stanzas.{ns_muc_user, parse_muji_state}
use monocles_chat_desktop.Dom.{Dom, attr, get_child}

-- The peers of a room with one occupant's state noted. A state that is gone leaves the room's
-- entry, which may be empty.
unfoldable pub note_peer :
    Text → Text → Option MujiState → Text → Map (Map MujiPeer) → Map (Map MujiPeer)
note_peer room occupant (some s) addr seen =
    insert room
      (insert occupant (record { state = s; real_jid = addr }) (unwrap_or (lookup room seen) []))
      seen
note_peer room occupant none addr seen = elim (lookup room seen) [
  | none ↦ seen
  | some m ↦ insert room (remove occupant m) seen
]

unfoldable pub any_participant : {E : Type 0} → Calls E → Text → Bool
any_participant c room = elim (lookup room c.muji_seen) [ none ↦ false | some m ↦ not (is_empty m) ]

abbrev pub is_invited : {E : Type 0} → Calls E → Text → Bool
is_invited c room = any (text_eq room) c.invited

abbrev pub in_conference : {E : Type 0} → Calls E → Text → Bool
in_conference c room = is_some (lookup room c.conferences)

-- Outside the room's call: invite once, and cancel when the call is over.
unfoldable pub update_invite : {E : Type 0} → Text → Text → M E (Unit {0})
unfolding any_participant
update_invite room occupant = do
  anybody ← gets (λ c. any_participant c room)
  already ← gets (λ c. is_invited c room)
  if anybody && not already
      then (do
        modify (λ c. record c { invited = room ∷ c.invited })
        effect (emitted (conference_invite room (resource occupant))))
      else if not anybody && already
      then (do
        modify (λ c. record c { invited = keep (λ r. not (text_eq room r)) c.invited })
        effect (emitted (conference_invite_cancelled room)))
      else skip

module _ (d : Dom) (env : Env) where
  open d use {Element, name, children}

  -- Inside the room's call.
  unfoldable pub coordinate : Option MujiState → Text → Text → Text → M Element (Unit {0})
  coordinate (some ready) room occupant addr = do
    video ← gets (λ c. elim (lookup room c.conferences) [ none ↦ false | some k ↦ k.video ])
    maybe_initiate d env room occupant addr video
  coordinate (some preparing) room occupant addr = do
    ensure_member env room occupant addr
    emit_conference room
  coordinate none room occupant addr = do remove_member d env room occupant; emit_conference room

  -- The occupant's state, and the address of its leg.
  unfoldable pub observe : Option MujiState → Text → Text → Text → M Element (Unit {0})
  unfolding note_peer update_invite
  observe state room occupant addr = do
    modify (λ c. record c { muji_seen = note_peer room occupant state addr c.muji_seen })
    in_conf ← gets (λ c. in_conference c room)
    if in_conf then coordinate state room occupant addr else update_invite room occupant

  -- `<status code='110'/>` in the MUC's `<x/>`.
  unfoldable pub is_self_presence : Element → Bool
  is_self_presence pres = elim (get_child d (codes "x") ns_muc_user pres) [
    | none ↦ false
    | some x ↦
        any
          (λ c.
            text_eq (name c) (codes "status")
            && elim (attr d (codes "code") c) [ none ↦ false | some v ↦ text_eq v (codes "110") ])
          (children x)
  ]

  -- The `jid` of the MUC's `<item/>`, or nothing.
  unfoldable pub real_jid_of : Element → Text
  real_jid_of pres = elim (get_child d (codes "x") ns_muc_user pres) [
    | none ↦ []
    | some x ↦ elim (get_child d (codes "item") ns_muc_user x) [
      | none ↦ []
      | some item ↦ unwrap_or (attr d (codes "jid") item) []
    ]
  ]

  unfoldable pub observe_muji_presence : Element → M Element (Unit {0})
  unfolding is_self_presence real_jid_of observe attr get_child parse_muji_state
  observe_muji_presence pres = elim (attr d (codes "from") pres) [
    | none ↦ skip
    | some from ↦ elim (split_once b'/' from) [
      | none ↦ skip
      | some (room, _) ↦
          if is_self_presence pres
          then skip
          else (let kind = unwrap_or (attr d (codes "type") pres) (codes "available") in
              let state =
                if text_eq kind (codes "unavailable") then none else parse_muji_state d pres in
              let real = real_jid_of pres in
              observe state room from (if is_empty real then from else real))
    ]
  ]
