-- ===== src/Calls/Ending.antt =====
-- How a call ends: what the registry forgets, and what the call history gets.
use monocles_chat_desktop.Base.{
  ◌∷◌, ◌++◌, append_assoc, Bool, true, false, ◌≡◌, [], none, some, Text, lookup, lookup-remove,
  remove-remove, remove-absent, ap, ◌∙◌, lookup-remove_self, lookup-insert_self, text_eq, arith,
  if◌then◌else◌,
}
use monocles_chat_desktop.Calls.Action.{JmiAction}
use monocles_chat_desktop.Calls.Signalling.{handle_jmi, hang_up}
use monocles_chat_desktop.Calls.State.{
  ActiveCall, Env, World, caller, created, engine, emitted, call_update, connecting, bare,
  log_call_end,
}
use monocles_chat_desktop.Dom.{Dom}

-- Logging the end of a call a second time does nothing: a call is in the history once.
log_call_end_idem :
    {E : Type 0} (sid : Text) (w : World E)
    → (log_call_end sid (log_call_end sid w).1).1 ≡ (log_call_end sid w).1
unfolding log_call_end
log_call_end_idem sid w =
    ground (arith, remove-remove sid w.calls.meta, lookup-remove_self sid w.calls.meta)

module _ (d : Dom) (env : Env) where
  open d use {Element}

  -- After `hang_up` no map of the registry knows the session, and what they know of any other
  -- session is what it was.
  pub hang_up_forgets :
      (peer sid k : Text) (w : World Element)
      → let c = w.calls in
        let c' = (hang_up d env peer sid w).1.calls in
        (lookup k c'.active ≡ (if text_eq sid k then none else lookup k c.active))
        × (lookup k c'.proposed ≡ (if text_eq sid k then none else lookup k c.proposed))
        × (lookup k c'.incoming ≡ (if text_eq sid k then none else lookup k c.incoming))
        × (lookup k c'.meta ≡ (if text_eq sid k then none else lookup k c.meta))
  unfolding hang_up
  hang_up_forgets peer sid k w =
      let c = w.calls in
      (
        ground (arith, lookup-remove sid k c.active),
        ground (arith, lookup-remove sid k c.proposed),
        ground (arith, lookup-remove sid k c.incoming),
        ground (arith, lookup-remove sid k c.meta),
      )

  proceed_absent :
      (sid from : Text) (video : Bool) (w : World Element)
      → lookup sid w.calls.proposed ≡ none
      → (handle_jmi d env JmiAction.proceed sid from video w).1 ≡ w
  unfolding handle_jmi
  proceed_absent sid from video w h = ground (arith, remove-absent sid w.calls.proposed)

  proceed_consumes :
      (sid from : Text) (video : Bool) (w : World Element)
      → lookup sid (handle_jmi d env JmiAction.proceed sid from video w).1.calls.proposed ≡ none
  unfolding handle_jmi
  proceed_consumes sid from video w = ground (arith, lookup-remove_self sid w.calls.proposed)

  -- A `proceed` uses up the proposal: whoever sends a second one, nothing more happens.
  pub proceed_once :
      (sid from from' : Text) (video video' : Bool) (w : World Element)
      → let w' = (handle_jmi d env JmiAction.proceed sid from video w).1 in
        (handle_jmi d env JmiAction.proceed sid from' video' w').1 ≡ w'
  proceed_once sid from from' video video' w =
      proceed_absent sid from' video' _ (proceed_consumes sid from video w)

  reject_keeps :
      (sid from : Text) (video : Bool) (w : World Element)
      → (handle_jmi d env JmiAction.reject sid from video w).1.calls.proposed ≡ w.calls.proposed
  unfolding handle_jmi
  reject_keeps sid from video w = ground arith

  -- What a caller's `proceed` does: the session becomes live, the media engine is created for the
  -- caller, and the event goes out.
  abbrev pub Starts : Text → Text → Bool → World Element → World Element → Type 0
  Starts sid from offered w w' =
      (lookup sid w'.calls.active
        ≡ some (record {
          peer_full = from;
          remote_contents = [];
          video = offered;
          pending_video = [];
          peer_used_omemo = false;
          room = none;
        }))
      × (w'.log
          ≡ w.log
            ++ (engine sid (created caller offered false)
                ∷ emitted (call_update sid (bare from) offered connecting)
                ∷ []))

  proceed-Starts :
      (sid from : Text) (video offered : Bool) (w : World Element)
      → lookup sid w.calls.proposed ≡ some offered
      → env.engine_starts sid ≡ true
      → Starts sid from offered w (handle_jmi d env JmiAction.proceed sid from video w).1
  unfolding handle_jmi
  proceed-Starts sid from video offered w p s =
      let call : ActiveCall Element = record {
        peer_full = from;
        remote_contents = [];
        video = offered;
        pending_video = [];
        peer_used_omemo = false;
        room = none;
      } in
      (
        ground (arith, lookup-insert_self sid call w.calls.active),
        ground (
          arith,
          append_assoc w.log (engine sid (created caller offered false) ∷ [])
              (emitted (call_update sid (bare from) offered connecting) ∷ []),
        ),
      )

  -- A peer's `reject` does not withdraw our proposal: on a `proceed` for the same session that comes
  -- later, from any JID, the media engine is created for the caller, with the video that we offered,
  -- the event goes out that the call connects, and the session is live with that JID as the peer.
  pub proceed_after_reject :
      (sid from from' : Text) (video video' offered : Bool) (w : World Element)
      → lookup sid w.calls.proposed ≡ some offered
      → env.engine_starts sid ≡ true
      → let w' = (handle_jmi d env JmiAction.reject sid from video w).1 in
        Starts sid from' offered w' (handle_jmi d env JmiAction.proceed sid from' video' w').1
  proceed_after_reject sid from from' video video' offered w p s =
      proceed-Starts sid from' video' offered _
        (ap (lookup sid) (reject_keeps sid from video w) ∙ p) s
