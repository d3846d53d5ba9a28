-- ===== src/Calls/Quiet/Session.antt =====
-- Jingle IQs, as they reach a quiet client.
use monocles_chat_desktop.Base.{
  ◌≡◌, refl, Bool, true, false, List, Text, Option-cases, inl, inr, arith, lookup, codes,
}
use monocles_chat_desktop.Calls.Session.{
  Negotiation, ns_ice, admit, content_accept, content_add, handle_iq, handle_session, muji_room,
  negotiate, contents_of, session_initiate, session_terminate, transport_info,
}
use monocles_chat_desktop.Calls.Stanzas.{ack, ns_jingle}
use monocles_chat_desktop.Calls.State.{Env, World, CallState, bare, call_verified}
use monocles_chat_desktop.Dom.{Dom, attr, get_child}
use monocles_chat_desktop.Calls.Quiet.{
  IsQuiet, no_call, no_conference, emit-IsQuiet, log_call_end-IsQuiet, terminate_local-IsQuiet,
  send-IsQuiet, emitted-IsQuiet, map_or-IsQuiet,
}

module _ (d : Dom) (env : Env) (n : Negotiation d.Element) where
  open d use {Element}
  open n use {contents_to_sdp, decrypt}

  pub negotiate-IsQuiet :
      (offer : Bool) (sid from : Text) (owned : List Element) {w : World Element}
      → IsQuiet w
      → IsQuiet (negotiate d env n offer sid from owned w).1
  unfolding negotiate
  negotiate-IsQuiet offer sid from owned {w} q =
      let r = decrypt (bare from) owned in
      map_or-IsQuiet r.1 _ (map_or-IsQuiet (contents_to_sdp r.0) _ q (λ sdp. rw (no_call sid q) q))
        (λ v.
          emitted-IsQuiet (call_verified sid v.fingerprint v.device_id v.trust)
            (map_or-IsQuiet (contents_to_sdp r.0) _ q (λ sdp. rw (no_call sid q) q)))

  pub admit-quiet :
      (room sid from : Text) {w : World Element}
      → IsQuiet w
      → admit d env n room sid from w ≡ (false, w)
  unfolding admit lookup
  admit-quiet room sid from q = rw (no_call sid q, no_conference room q) refl

  pub session_initiate-IsQuiet :
      (sid from : Text) (jingle : Element) {w : World Element}
      → IsQuiet w
      → IsQuiet (session_initiate d env n sid from jingle w).1
  unfolding session_initiate
  session_initiate-IsQuiet sid from jingle {w} q = elim (Option-cases (muji_room d env n jingle)) [
    | inl e ↦ rw e (negotiate-IsQuiet true sid from _ q)
    | inr (room, e) ↦ rw (e, admit-quiet room sid from q) q
  ]

  pub session_terminate-IsQuiet :
      (sid from : Text) {w : World Element}
      → IsQuiet w
      → IsQuiet (session_terminate d env n sid from w).1
  unfolding session_terminate
  session_terminate-IsQuiet sid from {w} q = rw (no_call sid q) (
      emit-IsQuiet sid (bare from) false (CallState.ended (codes "Call ended"))
        (log_call_end-IsQuiet sid (terminate_local-IsQuiet sid q)))

  pub content_accept-IsQuiet :
      (sid from : Text) (jingle : Element) {w : World Element}
      → IsQuiet w
      → IsQuiet (content_accept d env n sid from jingle w).1
  unfolding content_accept
  content_accept-IsQuiet sid from jingle q = rw (no_call sid q) q

  pub content_add-IsQuiet :
      (sid from : Text) (jingle : Element) {w : World Element}
      → IsQuiet w
      → IsQuiet (content_add d env n sid from jingle w).1
  unfolding content_add
  content_add-IsQuiet sid from jingle q = rw (no_call sid q) q

  pub transport_info-IsQuiet :
      (sid : Text) (jingle : Element) {w : World Element}
      → IsQuiet w
      → IsQuiet (transport_info d env n sid jingle w).1
  unfolding transport_info
  transport_info-IsQuiet sid jingle q =
      map_or-IsQuiet (get_child d (codes "content") ns_jingle jingle) _ q (λ content.
        map_or-IsQuiet (get_child d (codes "transport") ns_ice content) _ q
          (λ transport. rw (no_call sid q) q))

  pub handle_session-IsQuiet :
      (action sid from : Text) (jingle : Element) {w : World Element}
      → IsQuiet w
      → IsQuiet (handle_session d env n action sid from jingle w).1
  unfolding handle_session
  handle_session-IsQuiet action sid from jingle {w} q = ground (
    arith,
    session_initiate-IsQuiet sid from jingle q,
    negotiate-IsQuiet false sid from (contents_of d env n jingle) q,
    content_accept-IsQuiet sid from jingle q,
    content_add-IsQuiet sid from jingle q,
    transport_info-IsQuiet sid jingle q,
    session_terminate-IsQuiet sid from q,
  )

  pub handle_iq-IsQuiet :
      (iq : Element) {w : World Element} → IsQuiet w → IsQuiet (handle_iq d env n iq w).1
  unfolding handle_iq ack
  handle_iq-IsQuiet iq {w} q = elim (Option-cases (get_child d (codes "jingle") ns_jingle iq)) [
    | inl e ↦ rw (e, handle_iq) q
    | inr (jingle, e) ↦
        rw (e, handle_iq)
          (map_or-IsQuiet (attr d (codes "sid") jingle) _ (send-IsQuiet env _ q)
            (λ sid. handle_session-IsQuiet _ sid _ jingle (send-IsQuiet env _ q)))
  ]
