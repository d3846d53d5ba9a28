-- ===== src/Calls/Quiet/Jmi.antt =====
-- Jingle Message Initiation and the presences of group calls, as they reach a quiet client.
use monocles_chat_desktop.Base.{
  Bool, ◌&&◌, Option, Text, Bool-cases, Option-cases, inl, inr, arith, remove, codes, split_once,
  find, text_eq, is_some, eq_ignore_case,
}
use monocles_chat_desktop.Calls.Action.{JmiAction, jmi_action, is_answer}
use monocles_chat_desktop.Calls.Created.{engines_created-snoc}
use monocles_chat_desktop.Calls.Presence.{observe, observe_muji_presence, is_self_presence}
use monocles_chat_desktop.Calls.Signalling.{handle_action, handle_jmi, handle_message, reject}
use monocles_chat_desktop.Calls.Stanzas.{ns_jmi}
use monocles_chat_desktop.Calls.State.{MujiState, Env, World, CallState, bare, emitted, call_update}
use monocles_chat_desktop.Dom.{Dom, attr}
use monocles_chat_desktop.Calls.Quiet.{
  IsQuiet, ringing-IsQuiet, seen-IsQuiet, no_proposal, no_conference, emit-IsQuiet,
  log_call_end-IsQuiet, terminate_local-IsQuiet, sent-IsQuiet, update_invite-IsQuiet,
}

module _ (d : Dom) (env : Env) where
  open d use {Element, name, ns, children}

  pub handle_action-IsQuiet :
      (action : JmiAction) (sid from : Text) (video : Bool) {w : World Element}
      → IsQuiet w
      → IsQuiet (handle_action d env action sid from video w).1
  unfolding handle_action remove
  handle_action-IsQuiet JmiAction.propose sid from video {w} q = ground (
    arith,
    engines_created-snoc w.log (emitted (call_update sid (bare from) video CallState.incoming)),
  )
  handle_action-IsQuiet JmiAction.proceed sid from video {w} q = rw (no_proposal sid q) ground arith
  handle_action-IsQuiet JmiAction.reject sid from video {w} q =
      emit-IsQuiet sid (bare from) video (CallState.ended (codes "Call declined"))
        (log_call_end-IsQuiet sid (terminate_local-IsQuiet sid q))
  handle_action-IsQuiet JmiAction.accept sid from video {w} q = q
  handle_action-IsQuiet JmiAction.retract sid from video {w} q =
      emit-IsQuiet sid (bare from) video (CallState.ended (codes "Caller cancelled"))
        (log_call_end-IsQuiet sid (ringing-IsQuiet _ (terminate_local-IsQuiet sid q)))
  handle_action-IsQuiet JmiAction.finish sid from video {w} q =
      emit-IsQuiet sid (bare from) video (CallState.ended (codes "Caller cancelled"))
        (log_call_end-IsQuiet sid (ringing-IsQuiet _ (terminate_local-IsQuiet sid q)))

  pub handle_jmi-IsQuiet :
      (action : JmiAction) (sid from : Text) (video : Bool) {w : World Element}
      → IsQuiet w
      → IsQuiet (handle_jmi d env action sid from video w).1
  unfolding handle_jmi
  handle_jmi-IsQuiet action sid from video {w} q =
      elim (Bool-cases (eq_ignore_case (bare from) env.own && is_answer action)) [
        | inl e ↦ rw e (
            emit-IsQuiet sid (bare from) video (CallState.ended (codes "Handled on another device"))
              (log_call_end-IsQuiet sid (ringing-IsQuiet _ q)))
        | inr e ↦ rw e (handle_action-IsQuiet action sid from video q)
      ]

  pub handle_message-IsQuiet :
      (msg : Element) {w : World Element} → IsQuiet w → IsQuiet (handle_message d env msg w).1
  unfolding handle_message
  handle_message-IsQuiet msg {w} q =
      elim (Option-cases
        (find (λ c. text_eq (ns c) ns_jmi && is_some (jmi_action (name c))) (children msg))) [
          | inl e ↦ rw (e, handle_message) q
          | inr (e, h) ↦ elim (Option-cases (jmi_action (name e))) [
            | inl h' ↦ rw (h, h', handle_message) q
            | inr (action, h') ↦ elim (Option-cases (attr d (codes "id") e)) [
              | inl h'' ↦ rw (h, h', h'', handle_message) q
              | inr (sid, h'') ↦
                  rw (h, h', h'', handle_message) (handle_jmi-IsQuiet action sid _ _ q)
            ]
          ]
        ]

  pub observe-IsQuiet :
      (state : Option MujiState) (room occupant addr : Text) {w : World Element}
      → IsQuiet w
      → IsQuiet (observe d env state room occupant addr w).1
  unfolding observe
  observe-IsQuiet state room occupant addr {w} q =
      rw (no_conference room q) (update_invite-IsQuiet room occupant (seen-IsQuiet _ q))

  pub observe_muji_presence-IsQuiet :
      (pres : Element) {w : World Element}
      → IsQuiet w
      → IsQuiet (observe_muji_presence d env pres w).1
  unfolding observe_muji_presence
  observe_muji_presence-IsQuiet pres {w} q = elim (Option-cases (attr d (codes "from") pres)) [
    | inl e ↦ rw (e, observe_muji_presence) q
    | inr (from, e) ↦ elim (Option-cases (split_once b'/' from)) [
      | inl e' ↦ rw (e, e', observe_muji_presence) q
      | inr (p, e') ↦ elim (Bool-cases (is_self_presence d env pres)) [
        | inl s ↦ rw (e, e', s, observe_muji_presence) q
        | inr s ↦ rw (e, e', s, observe_muji_presence) (observe-IsQuiet _ p.0 from _ q)
      ]
    ]
  ]

  pub reject-IsQuiet :
      (caller_jid sid : Text) {w : World Element}
      → IsQuiet w
      → IsQuiet (reject d env caller_jid sid w).1
  unfolding reject
  reject-IsQuiet caller_jid sid {w} q =
      let q' = log_call_end-IsQuiet sid (ringing-IsQuiet (remove sid w.calls.incoming) q) in
      elim (Bool-cases env.writer_open) [
        | inl e ↦ rw (e, reject) (sent-IsQuiet _ (sent-IsQuiet _ q'))
        | inr e ↦ rw (e, reject) q'
      ]
