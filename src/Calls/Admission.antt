-- ===== src/Calls/Admission.antt =====
-- Which Jingle IQs start a media session, and who may end one.
use monocles_chat_desktop.Base.{
  true, false, ◌&&◌, ◌≡◌, refl, ◌∙◌, ap, sym, [], none, some, Text, inl, inr, arith, Option-cases,
  Bool-cases, clash, if◌then◌else◌, codes, is_some, map_or, unwrap_or, lookup, lookup-insert,
  text_eq, text_eq_iff,
}
use monocles_chat_desktop.Calls.Created.{apply_conf_state_calls, emit_conference_calls}
use monocles_chat_desktop.Calls.Members.{
  apply_conf_state_to_leg, register_member_session, set_member_state,
}
use monocles_chat_desktop.Calls.Session.{
  Negotiation, participant_of, muji_room, admit_leg, admit, contents_of, session_initiate,
  session_terminate, handle_session, handle_iq,
}
use monocles_chat_desktop.Calls.Signalling.{start_call}
use monocles_chat_desktop.Calls.Stanzas.{ack, ns_jingle}
use monocles_chat_desktop.Calls.State.{
  MujiPeer, Conference, ActiveCall, Calls, Env, World, emit, terminate_local, callee,
}
use monocles_chat_desktop.Dom.{Dom, attr, get_child}
use monocles_chat_desktop.Calls.Live.{
  is_live, terminate_local_ends, log_call_end-is_live, negotiate-is_live, content_accept-is_live,
  content_add-is_live, session_terminate-is_live, transport_info-is_live,
}

module _ (d : Dom) (env : Env) (n : Negotiation d.Element) (k : Text) where
  open d use {Element}

  admit_leg_refused :
      (room sid from : Text) (conf : Conference) (w : World Element)
      → participant_of w.calls room from ≡ none
      → (admit_leg d env n room sid from conf w).1.calls ≡ w.calls
  unfolding admit_leg
  admit_leg_refused room sid from conf w e = ground arith

  -- A participant's leg is the session of the IQ.
  admit_leg_taken :
      (room sid from : Text) (conf : Conference) (w : World Element) {p : Text × MujiPeer}
      → participant_of w.calls room from ≡ some p
      → is_live k (admit_leg d env n room sid from conf w).1
        ≡ (if env.engine_starts sid && text_eq sid k then true else is_live k w)
  unfolding admit_leg start_call register_member_session
  admit_leg_taken room sid from conf w {p} e = elim (Bool-cases (env.engine_starts sid)) [
    | inl s ↦
        let w₁ = (start_call d env sid from callee conf.video (some room) w).1 in
        let w₂ = (register_member_session env room p.0 from sid w₁).1 in
        let step : (admit_leg d env n room sid from conf w).1
            ≡ (apply_conf_state_to_leg room sid w₂).1 =
          ground arith in
        let leg : ActiveCall Element = record {
          peer_full = from;
          remote_contents = [];
          video = conf.video;
          pending_video = [];
          peer_used_omemo = false;
          room = some room;
        } in
        let begun : is_live k w₂ ≡ (if text_eq sid k then true else is_live k w) =
          ground (arith, lookup-insert sid k leg w.calls.active) in
        ap (is_live k) step
        ∙ ap (λ (c : Calls Element). is_some (lookup k c.active))
            (apply_conf_state_calls room sid w₂)
        ∙ begun
        ∙ sym (rw s refl)
    | inr s ↦ ground arith
  ]

  admit-is_live :
      (room sid from : Text) (w : World Element)
      → is_live k w ≡ false
      → is_live k (admit d env n room sid from w).1 ≡ true
      → (k ≡ sid)
        × (is_some (lookup room w.calls.conferences) ≡ true)
        × (is_some (participant_of w.calls room from) ≡ true)
  unfolding admit
  admit-is_live room sid from w q h = elim (Option-cases (lookup room w.calls.conferences)) [
    | inl e ↦ ground arith
    | inr (conf, e) ↦ elim (Option-cases (participant_of w.calls room from)) [
      | inl e' ↦ ground (arith, admit_leg_refused room sid from conf w e')
      | inr (p, e') ↦
          ground
            (arith, admit_leg_taken room sid from conf w e', text_eq_iff sid k, text_eq_iff k sid)
    ]
  ]

  session_initiate-is_live :
      (sid from : Text) (jingle : Element) (w : World Element)
      → is_live k w ≡ false
      → is_live k (session_initiate d env n sid from jingle w).1 ≡ true
      → (room : Text) × (muji_room d env n jingle ≡ some room)
        × (k ≡ sid)
        × (is_some (lookup room w.calls.conferences) ≡ true)
        × (is_some (participant_of w.calls room from) ≡ true)
  unfolding session_initiate
  session_initiate-is_live sid from jingle w q h =
      let owned = contents_of d env n jingle in
      elim (Option-cases (muji_room d env n jingle)) [
        | inl e ↦
            clash {b = is_live k (session_initiate d env n sid from jingle w).1} ground
              (arith, negotiate-is_live d env n k true sid from owned w q) h
        | inr (room, e) ↦
            let a = admit d env n room sid from w in
            elim (Bool-cases (is_live k a.1)) [
              | inl l ↦
                  let (same, joined, present) = admit-is_live room sid from w q l in
                  (room, e, same, joined, present)
              | inr l ↦
                  clash {b = is_live k (session_initiate d env n sid from jingle w).1} ground
                    (arith, negotiate-is_live d env n k true sid from owned a.1 l) h
            ]
      ]

  handle_session-is_live :
      (action sid from : Text) (jingle : Element) (w : World Element)
      → is_live k w ≡ false
      → is_live k (handle_session d env n action sid from jingle w).1 ≡ true
      → (action ≡ codes "session-initiate")
        × (is_live k (session_initiate d env n sid from jingle w).1 ≡ true)
  unfolding handle_session
  handle_session-is_live action sid from jingle w q h = ground (
    arith,
    negotiate-is_live d env n k false sid from (contents_of d env n jingle) w q,
    content_accept-is_live d env n k sid from jingle w q,
    content_add-is_live d env n k sid from jingle w q,
    transport_info-is_live d env n k sid jingle w q,
    session_terminate-is_live d env n k sid from w q,
    text_eq_iff action (codes "session-initiate"),
  )

  -- The answer to the IQ changes no call.
  ack_calls : (iq : Element) (w : World Element) → (ack d env iq w).1.calls ≡ w.calls
  unfolding ack
  ack_calls iq w = ground arith

  -- A Jingle IQ starts a media session only if it is a session-initiate for a group call that we
  -- are in, from a JID for which `participant_of` finds an occupant who takes part in that call;
  -- and the session that it starts is its own.
  pub handle_iq_admits :
      (iq : Element) (w : World Element)
      → is_live k w ≡ false
      → is_live k (handle_iq d env n iq w).1 ≡ true
      → (jingle : Element) × (room : Text) × (get_child d (codes "jingle") ns_jingle iq
          ≡ some jingle)
        × (attr d (codes "sid") jingle ≡ some k)
        × (unwrap_or (attr d (codes "action") jingle) [] ≡ codes "session-initiate")
        × (muji_room d env n jingle ≡ some room)
        × (is_some (lookup room w.calls.conferences) ≡ true)
        × (is_some (participant_of w.calls room (unwrap_or (attr d (codes "from") iq) [])) ≡ true)
  unfolding handle_iq
  handle_iq_admits iq w q h =
      let w₁ = (ack d env iq w).1 in
      let same = ack_calls iq w in
      let from = unwrap_or (attr d (codes "from") iq) [] in
      let idle : is_live k w₁ ≡ false = rw same q in
      elim (Option-cases (get_child d (codes "jingle") ns_jingle iq)) [
        | inl e ↦ clash {b = is_live k (handle_iq d env n iq w).1} ground arith h
        | inr (jingle, e) ↦ elim (Option-cases (attr d (codes "sid") jingle)) [
          | inl e' ↦ clash {b = is_live k (handle_iq d env n iq w).1} ground arith h
          | inr (sid, e') ↦
              let action = unwrap_or (attr d (codes "action") jingle) [] in
              let step : (handle_iq d env n iq w).1
                  ≡ (handle_session d env n action sid from jingle w₁).1 =
                ground arith in
              let (is_initiate, started) =
                handle_session-is_live action sid from jingle w₁ idle
                  (ap (is_live k) (sym step) ∙ h) in
              let (room, in_room, own, joined, present) =
                session_initiate-is_live sid from jingle w₁ idle started in
              (
                jingle,
                room,
                e,
                e' ∙ ap some (sym own),
                is_initiate,
                in_room,
                rw same at joined,
                rw same at present,
              )
        ]
      ]

  -- A session-terminate ends the session that it names whoever sends it: the registry that it
  -- leaves does not depend on the sender, who is not compared with the session's peer.
  pub session_terminate_sender :
      (from other : Text) (jingle : Element) (w : World Element)
      → let after =
          λ (who : Text). (handle_session d env n (codes "session-terminate") k who jingle w).1 in
        (is_live k (after from) ≡ false) × ((after from).calls ≡ (after other).calls)
  unfolding handle_session session_terminate emit set_member_state text_eq
  session_terminate_sender from other jingle w =
      let ended = log_call_end-is_live k k (terminate_local k w).1 (terminate_local_ends k w) in
      elim (Option-cases (map_or (lookup k w.calls.active) none (λ a. a.room))) [
        | inl e ↦ rw (e, session_terminate) (ended, refl)
        | inr (room, e) ↦ rw (e, session_terminate, emit_conference_calls room) (ended, refl)
      ]
