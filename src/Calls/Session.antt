-- ===== src/Calls/Session.antt =====
-- `handle_iq`: the Jingle session of a live call, and the legs of a group call.
use monocles_chat_desktop.Base.{
  Bool, true, false, not, ◌&&◌, ◌||◌, List, [], ◌∷◌, ◌++◌, Option, none, some, Text, codes, ℕ,
  if◌then◌else◌, keep, find, lookup, insert, is_empty, is_some, map_or, unwrap_or, text_eq,
}
use monocles_chat_desktop.Calls.Members.{
  apply_conf_state_to_leg, emit_conference, register_member_session, set_member_state,
}
use monocles_chat_desktop.Calls.Signalling.{start_call}
use monocles_chat_desktop.Calls.State.{
  Calls, ActiveCall, MemberCallState, Conference, MujiPeer, CallState, Env, M, ◌>>=◌, ◌>>◌, done,
  gets, modify, effect, send, next_id, for_each, skip, engine, emitted, set_remote_description,
  add_remote_ice, call_verified, call_video_upgrade_request, callee, bare, emit, log_call_end,
  terminate_local,
}
use monocles_chat_desktop.Calls.Stanzas.{ack, el, jingle_iq, ns_jingle, ns_muji}
use monocles_chat_desktop.Dom.{Dom, attr, get_child}

abbrev pub ns_ice : Text
ns_ice = codes "urn:xmpp:jingle:transports:ice-udp:1"

-- The peer's identity that a description was protected with: its fingerprint, its device and how
-- far it is trusted.
pub record Verified : Type 0 where
  pub fingerprint : Text
  pub device_id : ℕ
  pub trust : ℕ

-- What `handle_iq` asks of its neighbours: the translations of jingle_sdp.rs, the OMEMO sessions
-- that decrypt the fingerprints of a peer's contents, and the media engine of a session, which
-- applies a remote description (an offer or an answer) or refuses it.
pub record Negotiation (E : Type 0) : Type 0 where
  pub contents_to_sdp : List E → Option Text
  pub candidate_to_sdp : E → Option Text
  pub decrypt : Text → List E → List E × Option Verified
  pub applies : Text → Bool → Text → Bool

-- The occupant of the room who answers to this JID: by the address that the room vouched for, or
-- by the room itself.
unfoldable pub participant_of : {E : Type 0} → Calls E → Text → Text → Option (Text × MujiPeer)
unfolding bare
participant_of c room from = elim (lookup room c.muji_seen) [
  | none ↦ none
  | some seen ↦
      find (λ e. text_eq (bare e.1.real_jid) (bare from) || text_eq (bare e.0) (bare from)) seen
]

module _ (d : Dom) (env : Env) (n : Negotiation d.Element) where
  open d use {Element, name, children}
  open n use {contents_to_sdp, candidate_to_sdp, decrypt, applies}

  -- A leg that a participant starts; another JID is refused. The result says whether to go on.
  unfoldable pub admit_leg : Text → Text → Text → Conference → M Element Bool
  admit_leg room sid from conf = do
    who ← gets (λ c. participant_of c room from)
    elim who [
      | none ↦ (do
        id ← next_id env (codes "jingle")
        _ ← send env (
            jingle_iq d id from sid [] (codes "session-terminate") (
              el d (codes "reason") ns_jingle []
                (el d (codes "security-error") ns_jingle [] [] ∷ [])
              ∷ []))
        done false)
      | some (occupant, _) ↦ (do
        started ← start_call d env sid from callee conf.video (some room)
        if started
            then (do
              register_member_session env room occupant from sid
              apply_conf_state_to_leg room sid)
            else skip
        done true)
    ]

  -- The `<muji room=…/>` of a session-initiate.
  unfoldable pub admit : Text → Text → Text → M Element Bool
  admit room sid from = do
    call ← gets (λ c. lookup sid c.active)
    conf ← gets (λ c. lookup room c.conferences)
    elim call [
      | some _ ↦ done true
      | none ↦ elim conf [ none ↦ done false | some k ↦ admit_leg room sid from k ]
    ]

  abbrev pub contents_of : Element → List Element
  contents_of jingle = keep (λ c. text_eq (name c) (codes "content")) (children jingle)

  -- Change the record of a live session.
  abbrev on_call : Text → (ActiveCall Element → M Element (Unit {0})) → M Element (Unit {0})
  on_call sid f = do call ← gets (λ c. lookup sid c.active); map_or call skip f

  abbrev set_call : Text → ActiveCall Element → M Element (Unit {0})
  set_call sid a = modify (λ c. record c { active = insert sid a c.active })

  -- The remote description of an offer (`true`) or of an answer.
  unfoldable pub negotiate : Bool → Text → Text → List Element → M Element (Unit {0})
  negotiate offer sid from owned = do
    let r = decrypt (bare from) owned
    map_or (contents_to_sdp r.0) skip (λ sdp. on_call sid (λ a. do
      effect (engine sid (set_remote_description offer sdp))
      set_call sid (record a { remote_contents = r.0; peer_used_omemo = is_some r.1 })))
    map_or r.1 skip (λ v. effect (emitted (call_verified sid v.fingerprint v.device_id v.trust)))

  -- The room of a session-initiate that belongs to a group call.
  unfoldable pub muji_room : Element → Option Text
  muji_room jingle = map_or (get_child d (codes "muji") ns_muji jingle) none (attr d (codes "room"))

  unfoldable pub session_initiate : Text → Text → Element → M Element (Unit {0})
  session_initiate sid from jingle = do
    go_on ← map_or (muji_room jingle) (done true) (λ room. admit room sid from)
    if go_on then negotiate true sid from (contents_of jingle) else skip

  unfoldable pub content_accept : Text → Text → Element → M Element (Unit {0})
  content_accept sid from jingle =
      let new = (decrypt (bare from) (contents_of jingle)).0 in
      on_call sid (λ a.
        let full = a.remote_contents ++ new in
        map_or (contents_to_sdp full) skip (λ sdp. do
          effect (engine sid (set_remote_description false sdp))
          if applies sid false sdp
              then (do
                set_call sid (record a { remote_contents = full; video = true })
                emit sid (bare from) true CallState.active)
              else skip))

  unfoldable pub content_add : Text → Text → Element → M Element (Unit {0})
  content_add sid from jingle =
      let new = (decrypt (bare from) (contents_of jingle)).0 in
      on_call sid (λ a.
        if not a.video && not (is_empty new)
        then (do
          set_call sid (record a { pending_video = new })
          effect (emitted (call_video_upgrade_request sid (bare from))))
        else skip)

  unfoldable pub transport_info : Text → Element → M Element (Unit {0})
  transport_info sid jingle =
      map_or (get_child d (codes "content") ns_jingle jingle) skip (λ content.
        map_or (get_child d (codes "transport") ns_ice content) skip (λ transport. on_call sid (λ a.
          for_each (keep (λ c. text_eq (name c) (codes "candidate")) (children transport)) (λ c.
            map_or (candidate_to_sdp c) skip
              (λ line. effect (engine sid (add_remote_ice (codes "candidate:" ++ line))))))))

  unfoldable pub session_terminate : Text → Text → M Element (Unit {0})
  session_terminate sid from = do
    call ← gets (λ c. lookup sid c.active)
    terminate_local sid
    log_call_end sid
    map_or (map_or call none (λ a. a.room))
        (emit sid (bare from) false (CallState.ended (codes "Call ended")))
        (λ room. do set_member_state sid MemberCallState.ended; emit_conference room)

  unfoldable pub handle_session : Text → Text → Text → Element → M Element (Unit {0})
  handle_session action sid from jingle =
      if text_eq action (codes "session-initiate")
      then session_initiate sid from jingle
      else if text_eq action (codes "session-accept")
      then negotiate false sid from (contents_of jingle)
      else if text_eq action (codes "content-accept")
      then content_accept sid from jingle
      else if text_eq action (codes "content-add")
      then content_add sid from jingle
      else if text_eq action (codes "transport-info")
      then transport_info sid jingle
      else if text_eq action (codes "session-terminate")
      then session_terminate sid from
      else skip

  -- Whether the IQ was consumed.
  unfoldable pub handle_iq : Element → M Element Bool
  handle_iq iq = elim (get_child d (codes "jingle") ns_jingle iq) [
    | none ↦ done false
    | some jingle ↦ (do
      _ ← ack d env iq
      map_or (attr d (codes "sid") jingle) skip (λ sid.
          handle_session (unwrap_or (attr d (codes "action") jingle) []) sid
            (unwrap_or (attr d (codes "from") iq) []) jingle)
      done true)
  ]
