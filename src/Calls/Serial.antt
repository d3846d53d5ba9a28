-- ===== src/Calls/Serial.antt =====
-- The legs of a group call are set up one at a time, and by one of the two sides.
use native.Mathlib.Nat.{le_trans}
use monocles_chat_desktop.Base.{
  ◌+◌, ◌≤◌, Bool, false, not, ◌≡◌, ◌≢◌, refl, ◌∙◌, sym, ap, List, [], ◌∷◌, inl, inr, Option, some,
  Text, text_lt_connex, codes, if◌then◌else◌, is_some, lookup, arith, Bool-cases, Option-cases,
}
use monocles_chat_desktop.Calls.Members.{
  emit_conference, ensure_member, register_member_session, has_connecting_leg, should_initiate,
}
use monocles_chat_desktop.Calls.Mesh.{
  Act, pass, wait, defer, initiate, decide_act, start_leg, perform, maybe_initiate, initiate_all,
}
use monocles_chat_desktop.Calls.State.{
  Calls, Conference, Role, caller, MujiPeer, engine, created, Env, World, for_each,
}
use monocles_chat_desktop.Calls.Signalling.{start_call}
use monocles_chat_desktop.Dom.{Dom}
use monocles_chat_desktop.Calls.Created.{
  engines_created, engines_created-snoc, budget, emit_conference_calls, emit_conference_created,
  apply_conf_state_calls, apply_conf_state_created, ensure_member-has_connecting_leg,
  register_member_session-has_connecting_leg,
}

-- Of two different occupants exactly one initiates the leg between them.
pub should_initiate_connex : (s t : Text) → s ≢ t → should_initiate s t ≡ not (should_initiate t s)
unfolding should_initiate
should_initiate_connex s t h = text_lt_connex t s (λ e. h (sym e))

module _ (d : Dom) (env : Env) where
  open d use {Element}

  pub start_call_created :
      (sid addr : Text) (role : Role) (video : Bool) (room : Option Text) (w : World Element)
      → let r = start_call d env sid addr role video room w in
        engines_created r.1.log ≡ engines_created w.log + (if r.0 then 1 else 0)
  unfolding start_call
  start_call_created sid addr role video room w =
      ground (arith, engines_created-snoc w.log (engine sid (created role video (is_some room))))

  pub start_call_conferences :
      (sid addr : Text) (role : Role) (video : Bool) (room : Option Text) (w : World Element)
      → (start_call d env sid addr role video room w).1.calls.conferences ≡ w.calls.conferences
  unfolding start_call
  start_call_conferences sid addr role video room w = ground arith

  pub register_member_session_log :
      (room peer addr sid : Text) (w : World Element)
      → (register_member_session env room peer addr sid w).1.log ≡ w.log
  unfolding register_member_session
  register_member_session_log room peer addr sid w = refl

  budget-start_leg :
      (room peer addr : Text) (video : Bool) (w : World Element) (conf : Conference)
      → lookup room w.calls.conferences ≡ some conf
      → budget room (start_leg d env room peer addr video w).1 ≤ engines_created w.log + 1
  budget-start_leg room peer addr video w conf h =
      let w₁ : World Element = record w { drawn = w.drawn + 1 } in
      let sid = env.new_id (codes "muji") w.drawn in
      let r = start_call d env sid addr caller video (some room) w₁ in
      let w₃ = (register_member_session env room peer addr sid r.1).1 in
      let count = start_call_created sid addr caller video (some room) w₁ in
      let here = start_call_conferences sid addr caller video (some room) w₁ in
      let leg =
        register_member_session-has_connecting_leg d env room peer addr sid r.1 conf
          (ap (lookup room) here ∙ h) in
      unfold start_leg in
      ground (
        arith,
        count,
        leg,
        register_member_session_log room peer addr sid r.1,
        apply_conf_state_calls room sid w₃,
        apply_conf_state_created room sid w₃,
      )

  decide_act-initiate :
      (c : Calls Element) (room peer : Text) {o : Text}
      → decide_act c room peer ≡ initiate o
      → ((conf : Conference) × (lookup room c.conferences ≡ some conf))
        × (has_connecting_leg c room ≡ false)
  unfolding decide_act
  decide_act-initiate c room peer h = elim (Option-cases (lookup room c.conferences)) [
    | inl absent ↦ absurd (ground arith)
    | inr here ↦ (here, ground arith)
  ]

  budget-emit_conference :
      (room : Text) (w : World Element) → budget room (emit_conference room w).1 ≡ budget room w
  budget-emit_conference room w = rw (emit_conference_created room w, emit_conference_calls room w)

  budget-ensure_member :
      (room peer addr : Text) (w : World Element)
      → budget room (ensure_member env room peer addr w).1 ≤ budget room w
  budget-ensure_member room peer addr w = elim (Bool-cases (has_connecting_leg w.calls room)) [
    | inl busy ↦
        rw (busy, ensure_member-has_connecting_leg d env room peer addr w busy)
          (unfold ensure_member in omega arith)
    | inr free ↦ rw free (unfold ensure_member in ground arith)
  ]

  budget-perform :
      (act : Act) (room peer addr : Text) (video : Bool) (w : World Element)
      → decide_act w.calls room peer ≡ act
      → budget room (perform d env act room peer addr video w).1 ≤ budget room w
  unfolding perform
  budget-perform pass room peer addr video w e = omega arith
  budget-perform defer room peer addr video w e = omega arith
  budget-perform wait room peer addr video w e =
      rw (budget-emit_conference room (ensure_member env room peer addr w).1)
        (budget-ensure_member room peer addr w)
  budget-perform (initiate o) room peer addr video w e =
      let ((conf, here), free) = decide_act-initiate w.calls room peer e in
      rw (budget-emit_conference room (start_leg d env room peer addr video w).1, free)
        (budget-start_leg room peer addr video w conf here)

  budget-maybe_initiate :
      (room peer addr : Text) (video : Bool) (w : World Element)
      → budget room (maybe_initiate d env room peer addr video w).1 ≤ budget room w
  unfolding maybe_initiate
  budget-maybe_initiate room peer addr video w =
      budget-perform (decide_act w.calls room peer) room peer addr video w refl

  budget-initiate_all :
      (peers : List (Text × MujiPeer)) (room : Text) (video : Bool) (w : World Element)
      → budget room (initiate_all d env room video peers w).1 ≤ budget room w
  unfolding initiate_all for_each
  budget-initiate_all [] room video w = omega arith
  budget-initiate_all (p ∷ peers) room video w =
      le_trans
        (budget-initiate_all peers room video
          (maybe_initiate d env room p.0 p.1.real_jid video w).1)
        (budget-maybe_initiate room p.0 p.1.real_jid video w)

  -- However many peers are ready, meshing with them creates at most one media engine, and none
  -- while a leg of the room is still negotiating.
  pub initiate_all_serial :
      (peers : List (Text × MujiPeer)) (room : Text) (video : Bool) (w : World Element)
      → engines_created (initiate_all d env room video peers w).1.log
        ≤ engines_created w.log + (if has_connecting_leg w.calls room then 0 else 1)
  initiate_all_serial peers room video w = omega (arith, budget-initiate_all peers room video w)
