-- ===== src/Calls/Consent.antt =====
-- When a message of Jingle Message Initiation starts a media engine.
use monocles_chat_desktop.Base.{
  Bool, false, ◌&&◌, ◌≡◌, ◌⊎◌, inl, inr, [], none, some, Text, lookup, lookup-insert, lookup-remove,
  text_eq_iff, arith, eq_ignore_case, Bool-cases, Option-cases,
}
use monocles_chat_desktop.Calls.Action.{JmiAction, is_answer}
use monocles_chat_desktop.Calls.Signalling.{handle_action, handle_jmi}
use monocles_chat_desktop.Calls.State.{ActiveCall, Env, World, bare}
use monocles_chat_desktop.Dom.{Dom}

module _ (d : Dom) (env : Env) where
  open d use {Element}

  -- Why `k` has an engine after an action.
  abbrev Started : World Element → JmiAction → Text → Text → ActiveCall Element → Type 0
  Started w action sid k a =
      (lookup k w.calls.active ≡ some a)
      ⊎ ((k ≡ sid)
          × (action ≡ JmiAction.proceed)
          × ((v : Bool) × (lookup sid w.calls.proposed ≡ some v) × (a.video ≡ v)))

  handle_action-active :
      (action : JmiAction) (sid from : Text) (video : Bool) (w : World Element) (k : Text)
      {a : ActiveCall Element}
      → lookup k (handle_action d env action sid from video w).1.calls.active ≡ some a
      → Started w action sid k a
  unfolding handle_action
  handle_action-active JmiAction.proceed sid from video w k {a} h =
      elim (Option-cases (lookup sid w.calls.proposed)) [
        | inl no_call ↦ inl (ground arith)
        | inr (offered, ours) ↦
            let call : ActiveCall Element = record {
              peer_full = from;
              remote_contents = [];
              video = offered;
              pending_video = [];
              peer_used_omemo = false;
              room = none;
            } in
            ground (arith, lookup-insert sid k call w.calls.active, text_eq_iff sid k)
      ]
  handle_action-active _ sid from video w k h = ground (arith, lookup-remove sid k w.calls.active)

  -- A session that is live after a message of Jingle Message Initiation was handled was live
  -- before, unchanged, or it is the session that the message names: we had proposed it, the
  -- message is a `proceed`, and the call has video just if we proposed video.
  pub handle_jmi-active :
      (action : JmiAction) (sid from : Text) (video : Bool) (w : World Element) (k : Text)
      {a : ActiveCall Element}
      → lookup k (handle_jmi d env action sid from video w).1.calls.active ≡ some a
      → (lookup k w.calls.active ≡ some a)
        ⊎ ((k ≡ sid)
            × (action ≡ JmiAction.proceed)
            × ((v : Bool) × (lookup sid w.calls.proposed ≡ some v) × (a.video ≡ v)))
  unfolding handle_jmi lookup
  handle_jmi-active action sid from video w k h =
      elim (Bool-cases (eq_ignore_case (bare from) env.own && is_answer action)) [
        | inl own ↦ inl (ground arith)
        | inr other ↦ handle_action-active action sid from video w k (rw (other, handle_jmi) at h)
      ]
