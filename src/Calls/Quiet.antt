-- ===== src/Calls/Quiet.antt =====
-- A client whose user has started nothing: what the network can make of it.
pub mod Jmi
pub mod Session
pub mod Reach
use monocles_chat_desktop.Base.{
  ℕ, ◌+◌, ◌≡◌, refl, ◌∙◌, ap, Bool, true, false, not, ◌&&◌, ◌||◌, List, [], ◌∷◌, ◌++◌, Option, none,
  some, Text, Bool-cases, Option-cases, inl, inr, arith, if◌then◌else◌, lookup, remove, map_or,
  codes, split_once, find, text_eq, is_some, any, unwrap_or, is_empty, text_lt, Map, eq_ignore_case,
}
use monocles_chat_desktop.Calls.Action.{JmiAction, jmi_action, is_answer}
use monocles_chat_desktop.Calls.Created.{engines_created, engines_created-snoc}
use monocles_chat_desktop.Calls.Presence.{
  observe, observe_muji_presence, update_invite, note_peer, is_self_presence, real_jid_of,
  any_participant, is_invited,
}
use monocles_chat_desktop.Calls.Session.{
  Negotiation, ns_ice, admit, content_accept, content_add, handle_iq, handle_session, muji_room,
  negotiate, contents_of, session_initiate, session_terminate, transport_info,
}
use monocles_chat_desktop.Calls.Signalling.{
  handle_action, handle_jmi, handle_message, hang_up, reject,
}
use monocles_chat_desktop.Calls.Stanzas.{ack, jmi, parse_muji_state, ns_jingle, ns_jmi}
use monocles_chat_desktop.Calls.Members.{resource}
use monocles_chat_desktop.Calls.State.{
  Calls, Event, CallMeta, MujiState, Effect, Env, World, M, emit, log_call_end, mark_answered,
  terminate_local, CallState, send, bare, MujiPeer, emitted, sent, logged, call_update,
  call_verified, registry, CallLog, skip, conference_invite, conference_invite_cancelled,
}
use monocles_chat_desktop.Dom.{Dom, attr, get_child}

-- No call is live or offered, no group call is joined, and no media engine was ever created.
pub record IsQuiet {E : Type 0} (w : World E) : Type 0 where
  pub no_calls : w.calls.active ≡ []
  pub no_proposals : w.calls.proposed ≡ []
  pub no_conferences : w.calls.conferences ≡ []
  pub no_engines : engines_created w.log ≡ 0

pub lookup-nil : {V : Type 0} (k : Text) → lookup {V = V} k [] ≡ none
unfolding lookup
lookup-nil k = refl

module _ {E : Type 0} where
  -- What a quiet client rings for, and whom it saw, are free.
  pub ringing-IsQuiet :
      (incoming : Map (Text × Bool)) {w : World E}
      → IsQuiet w
      → IsQuiet (record w { calls = record w.calls { incoming = incoming } })
  ringing-IsQuiet incoming q = record {
    no_calls = q.no_calls;
    no_proposals = q.no_proposals;
    no_conferences = q.no_conferences;
    no_engines = q.no_engines;
  }

  pub seen-IsQuiet :
      (seen : Map (Map MujiPeer)) {w : World E}
      → IsQuiet w
      → IsQuiet (record w { calls = record w.calls { muji_seen = seen } })
  seen-IsQuiet seen q = record {
    no_calls = q.no_calls;
    no_proposals = q.no_proposals;
    no_conferences = q.no_conferences;
    no_engines = q.no_engines;
  }

  pub no_call : (sid : Text) {w : World E} → IsQuiet w → lookup sid w.calls.active ≡ none
  no_call sid q = ap (lookup sid) q.no_calls ∙ lookup-nil sid

  pub no_proposal : (sid : Text) {w : World E} → IsQuiet w → lookup sid w.calls.proposed ≡ none
  no_proposal sid q = ap (lookup sid) q.no_proposals ∙ lookup-nil sid

  pub no_conference :
      (room : Text) {w : World E} → IsQuiet w → lookup room w.calls.conferences ≡ none
  no_conference room q = ap (lookup room) q.no_conferences ∙ lookup-nil room

  pub emit-IsQuiet :
      (sid peer : Text) (video : Bool) (state : CallState) {w : World E}
      → IsQuiet w
      → IsQuiet (emit sid peer video state w).1
  unfolding emit
  emit-IsQuiet sid peer video state {w} q =
      ground (arith, engines_created-snoc w.log (emitted (call_update sid peer video state)))

  pub log_call_end-IsQuiet : (sid : Text) {w : World E} → IsQuiet w → IsQuiet (log_call_end sid w).1
  unfolding log_call_end
  log_call_end-IsQuiet sid {w} q = elim (Option-cases (lookup sid w.calls.meta)) [
    | inl e ↦ ground arith
    | inr (m, e) ↦
        let row : CallLog = record {
          peer = m.peer;
          direction = if m.outgoing then codes "out" else codes "in";
          video = m.video;
          answered = m.answered;
          timestamp = m.ts;
        } in
        ground (arith, engines_created-snoc w.log (logged row))
  ]

  pub terminate_local-IsQuiet :
      (sid : Text) {w : World E} → IsQuiet w → IsQuiet (terminate_local sid w).1
  unfolding terminate_local lookup remove
  terminate_local-IsQuiet sid {w} q = ground arith

  pub sent-IsQuiet :
      (e : E) {w : World E} → IsQuiet w → IsQuiet (record w { log = w.log ++ sent e ∷ [] })
  sent-IsQuiet e {w} q = ground (arith, engines_created-snoc w.log (sent e))

  pub send-IsQuiet : (env : Env) (e : E) {w : World E} → IsQuiet w → IsQuiet (send env e w).1
  send-IsQuiet env e {w} q = elim (Bool-cases env.writer_open) [
    | inl h ↦ rw h (sent-IsQuiet e q)
    | inr h ↦ rw h q
  ]

  pub emitted-IsQuiet :
      (e : Event) {w : World E} → IsQuiet w → IsQuiet (record w { log = w.log ++ emitted e ∷ [] })
  emitted-IsQuiet e {w} q = ground (arith, engines_created-snoc w.log (emitted e))

  pub map_or-IsQuiet :
      {A : Type 0} (o : Option A) (f : A → M E (Unit {0})) {w : World E}
      → IsQuiet w
      → ((a : A) → IsQuiet (f a w).1)
      → IsQuiet (map_or o skip f w).1
  map_or-IsQuiet none f q h = q
  map_or-IsQuiet (some a) f q h = h a

  pub if-IsQuiet :
      {A : Type 0} (b : Bool) (m k : M E A) {w : World E}
      → IsQuiet (m w).1
      → IsQuiet (k w).1
      → IsQuiet ((if b then m else k) w).1
  if-IsQuiet true m k q q' = q
  if-IsQuiet false m k q q' = q'

  pub update_invite-IsQuiet :
      (room occupant : Text) {w : World E} → IsQuiet w → IsQuiet (update_invite room occupant w).1
  unfolding update_invite
  update_invite-IsQuiet room occupant {w} q = ground (
    arith,
    engines_created-snoc w.log (emitted (conference_invite room (resource occupant))),
    engines_created-snoc w.log (emitted (conference_invite_cancelled room)),
  )
