-- ===== src/Calls/Phase.antt =====
-- What Jingle Message Initiation promises of one call: a machine of three flags.
use monocles_chat_desktop.Base.{
  Bool, true, false, ◌&&◌, ◌||◌, ◌≡◌, refl, ◌∙◌, ap, List, [], ◌∷◌, none, Text, inl, inr, arith,
  Option-cases, Bool-cases, if◌then◌else◌, is_some, lookup, remove, lookup-insert, lookup-remove,
  text_eq, text_eq_iff, eq_ignore_case,
}
use monocles_chat_desktop.Calls.Action.{JmiAction, is_answer}
use monocles_chat_desktop.Calls.Signalling.{handle_action, handle_jmi}
use monocles_chat_desktop.Calls.State.{
  ActiveCall, CallState, Env, World, bare, emit, log_call_end, mark_answered, terminate_local,
}
use monocles_chat_desktop.Dom.{Dom}

-- The call is live, is offered by us, rings here.
pub record Phase : Type 0 where
  pub live : Bool
  pub offered : Bool
  pub ringing : Bool

abbrev pub phase : {E : Type 0} → Text → World E → Phase
phase k w = record {
  live = is_some (lookup k w.calls.active);
  offered = is_some (lookup k w.calls.proposed);
  ringing = is_some (lookup k w.calls.incoming);
}

-- A peer's action, where `can_start` says whether the media library can start an engine.
abbrev pub advance_peer : Bool → JmiAction → Phase → Phase
advance_peer can_start JmiAction.propose p = record p { ringing = true }
advance_peer can_start JmiAction.proceed p = record p {
  live = p.live || p.offered && can_start;
  offered = false;
}
advance_peer can_start JmiAction.reject p = record p { live = false }
advance_peer can_start JmiAction.accept p = p
advance_peer can_start _ p = record p { live = false; ringing = false }

-- An action, where `ours` says whether it comes from our own account.
abbrev pub advance : Bool → Bool → JmiAction → Phase → Phase
advance ours can_start action p =
    if ours && is_answer action
    then record p { ringing = false }
    else advance_peer can_start action p

-- One message, and what its handler read.
pub record Intent : Type 0 where
  pub env : Env
  pub action : JmiAction
  pub sid : Text
  pub from : Text
  pub video : Bool

abbrev pub run : (d : Dom) → List Intent → World d.Element → World d.Element
run d [] w = w
run d (i ∷ is) w = run d is (handle_jmi d i.env i.action i.sid i.from i.video w).1

-- The machine reads the messages of its own session.
abbrev pub replay : Text → List Intent → Phase → Phase
replay k [] p = p
replay k (i ∷ is) p = replay k is (
    if text_eq i.sid k
    then advance (eq_ignore_case (bare i.from) i.env.own) (i.env.engine_starts i.sid) i.action p
    else p)

module _ {E : Type 0} (k sid : Text) where
  log_call_end-phase : (w : World E) → phase k (log_call_end sid w).1 ≡ phase k w
  unfolding log_call_end
  log_call_end-phase w = ground arith

  mark_answered-phase : (w : World E) → phase k (mark_answered sid w).1 ≡ phase k w
  unfolding mark_answered
  mark_answered-phase w = ground arith

  emit-phase :
      (peer : Text) (video : Bool) (state : CallState) (w : World E)
      → phase k (emit sid peer video state w).1 ≡ phase k w
  unfolding emit
  emit-phase peer video state w = refl

  terminate_local-phase :
      (w : World E)
      → phase k (terminate_local sid w).1
        ≡ (if text_eq sid k then record (phase k w) { live = false } else phase k w)
  unfolding terminate_local
  terminate_local-phase w = ground (arith, lookup-remove sid k w.calls.active)

  silent-phase :
      (w : World E)
      → phase k (record w { calls = record w.calls { incoming = remove sid w.calls.incoming } })
        ≡ (if text_eq sid k then record (phase k w) { ringing = false } else phase k w)
  silent-phase w = ground (arith, lookup-remove sid k w.calls.incoming)

  -- The caller withdraws the call.
  withdrawn-phase :
      (w : World E)
      → let w₁ = (terminate_local sid w).1 in
        phase k
          (log_call_end sid
            (record w₁ { calls = record w₁.calls { incoming = remove sid w₁.calls.incoming } })).1
        ≡ (if text_eq sid k
            then record (phase k w) { live = false; ringing = false }
            else phase k w)
  withdrawn-phase w =
      let w₁ = (terminate_local sid w).1 in
      let w₂ : World E = record w₁ {
        calls = record w₁.calls { incoming = remove sid w₁.calls.incoming };
      } in
      log_call_end-phase w₂ ∙ ground (arith, terminate_local-phase w, silent-phase w₁)

module _ (d : Dom) (env : Env) (k : Text) where
  open d use {Element}

  handle_action-phase :
      (action : JmiAction) (sid from : Text) (video : Bool) (w : World Element)
      → phase k (handle_action d env action sid from video w).1 ≡ (
          if text_eq sid k
          then advance_peer (env.engine_starts sid) action (phase k w)
          else phase k w)
  unfolding handle_action
  handle_action-phase JmiAction.propose sid from video w =
      ground (arith, lookup-insert sid k (from, video) w.calls.incoming)
  handle_action-phase JmiAction.proceed sid from video w =
      elim (Option-cases (lookup sid w.calls.proposed)) [
        | inl e ↦ ground (arith, lookup-remove sid k w.calls.proposed, text_eq_iff sid k)
        | inr (offered, e) ↦
            let w₁ : World Element = record w {
              calls = record w.calls { proposed = remove sid w.calls.proposed };
            } in
            let w₂ = (mark_answered sid w₁).1 in
            let leg : ActiveCall Element = record {
              peer_full = from;
              remote_contents = [];
              video = offered;
              pending_video = [];
              peer_used_omemo = false;
              room = none;
            } in
            ground (
              arith,
              lookup-remove sid k w.calls.proposed,
              lookup-insert sid k leg w₂.calls.active,
              mark_answered-phase k sid w₁,
              text_eq_iff sid k,
            )
      ]
  handle_action-phase JmiAction.reject sid from video w =
      log_call_end-phase k sid (terminate_local sid w).1 ∙ terminate_local-phase k sid w
  handle_action-phase JmiAction.accept sid from video w = ground arith
  handle_action-phase JmiAction.retract sid from video w = withdrawn-phase k sid w
  handle_action-phase JmiAction.finish sid from video w = withdrawn-phase k sid w

  handle_jmi-phase :
      (action : JmiAction) (sid from : Text) (video : Bool) (w : World Element)
      → phase k (handle_jmi d env action sid from video w).1 ≡ (
          if text_eq sid k
          then advance
              (eq_ignore_case (bare from) env.own)
              (env.engine_starts sid)
              action
              (phase k w)
          else phase k w)
  unfolding handle_jmi
  handle_jmi-phase action sid from video w =
      let w₁ : World Element = record w {
        calls = record w.calls { incoming = remove sid w.calls.incoming };
      } in
      elim (Bool-cases (eq_ignore_case (bare from) env.own && is_answer action)) [
        | inl e ↦ rw e (log_call_end-phase k sid w₁ ∙ silent-phase k sid w)
        | inr e ↦ rw e (handle_action-phase action sid from video w)
      ]

-- The registry implements the machine: whatever messages of Jingle Message Initiation arrive in
-- whatever order, of whatever sessions and from whomever, what the registry says of one session
-- afterwards is what the machine of three flags computes from the messages of that session
-- alone, and from what the registry said of it before.
pub run-replay :
    (d : Dom) (k : Text) (is : List Intent) (w : World d.Element)
    → phase k (run d is w) ≡ replay k is (phase k w)
run-replay d k [] w = refl
run-replay d k (i ∷ is) w =
    run-replay d k is (handle_jmi d i.env i.action i.sid i.from i.video w).1
    ∙ ap (replay k is) (handle_jmi-phase d i.env k i.action i.sid i.from i.video w)
