-- ===== src/Calls/Progress.antt =====
-- The mesh of a group call goes on: when no leg negotiates, the next pending one is begun.
use monocles_chat_desktop.Base.{
  ◌+◌, Bool, true, false, not, ◌&&◌, ◌≡◌, refl, ◌∙◌, ap, List, [], ◌∷◌, inl, inr, some, Text, codes,
  find, is_some, lookup, arith, Bool-cases, Option-cases, clash, map_or,
}
use monocles_chat_desktop.Calls.Created.{
  engines_created, emit_conference_calls, emit_conference_created, apply_conf_state_calls,
  apply_conf_state_created, register_member_session-has_connecting_leg,
}
use monocles_chat_desktop.Calls.Members.{
  register_member_session, has_connecting_leg, should_initiate,
}
use monocles_chat_desktop.Calls.Mesh.{
  initiate, decide_act, has_session, next_peer, ready_peers, start_leg, perform, maybe_initiate,
  initiate_next_pending,
}
use monocles_chat_desktop.Calls.Serial.{
  start_call_created, start_call_conferences, register_member_session_log,
}
use monocles_chat_desktop.Calls.Signalling.{start_call}
use monocles_chat_desktop.Calls.State.{Calls, Conference, caller, MujiPeer, Env, World}
use monocles_chat_desktop.Dom.{Dom}

find-holds : {A : Type 0} (p : A → Bool) (l : List A) → map_or (find p l) true p ≡ true
find-holds p [] = refl
find-holds p (y ∷ l) = elim (Bool-cases (p y)) [ inl h ↦ rw h h | inr h ↦ rw h (find-holds p l) ]

module _ (d : Dom) (env : Env) where
  open d use {Element}

  -- One more engine exists, and a leg of the room negotiates.
  abbrev pub Begun : Text → World Element → World Element → Type 0
  Begun room w w' =
      (engines_created w'.log ≡ engines_created w.log + 1)
      × (has_connecting_leg w'.calls room ≡ true)

  start_leg-Begun :
      (room peer addr : Text) (video : Bool) (w : World Element) (conf : Conference)
      → lookup room w.calls.conferences ≡ some conf
      → env.engine_starts (env.new_id (codes "muji") w.drawn) ≡ true
      → Begun room w (start_leg d env room peer addr video w).1
  start_leg-Begun room peer addr video w conf h s =
      let w₁ : World Element = record w { drawn = w.drawn + 1 } in
      let sid = env.new_id (codes "muji") w.drawn in
      let r = start_call d env sid addr caller video (some room) w₁ in
      let w₃ = (register_member_session env room peer addr sid r.1).1 in
      let here = start_call_conferences d env sid addr caller video (some room) w₁ in
      let ok : r.0 ≡ true = unfold start_call in ground arith in
      unfold start_leg in
      ground (
        arith,
        ok,
        start_call_created d env sid addr caller video (some room) w₁,
        register_member_session-has_connecting_leg d env room peer addr sid r.1 conf
            (ap (lookup room) here ∙ h),
        register_member_session_log d env room peer addr sid r.1,
        apply_conf_state_calls room sid w₃,
        apply_conf_state_created room sid w₃,
      )

  maybe_initiate-Begun :
      (room peer addr : Text) (video : Bool) (w : World Element) (conf : Conference)
      → lookup room w.calls.conferences ≡ some conf
      → decide_act w.calls room peer ≡ initiate conf.our_occupant
      → env.engine_starts (env.new_id (codes "muji") w.drawn) ≡ true
      → Begun room w (maybe_initiate d env room peer addr video w).1
  unfolding maybe_initiate
  maybe_initiate-Begun room peer addr video w conf h a s =
      let w₁ = (start_leg d env room peer addr video w).1 in
      let (created, busy) = start_leg-Begun room peer addr video w conf h s in
      rw a (
        unfold perform in
        (
          emit_conference_created room w₁ ∙ created,
          ap (λ (c : Calls Element). has_connecting_leg c room) (emit_conference_calls room w₁)
              ∙ busy,
        ))

  decide_act-next :
      (c : Calls Element) (room : Text) (conf : Conference) {e : Text × MujiPeer}
      → lookup room c.conferences ≡ some conf
      → has_connecting_leg c room ≡ false
      → next_peer c room conf ≡ some e
      → decide_act c room e.0 ≡ initiate conf.our_occupant
  unfolding decide_act
  decide_act-next c room conf {e} h free n =
      let pending = λ (x : Text × MujiPeer).
        should_initiate conf.our_occupant x.0 && not (has_session x.0 conf) in
      let held : pending e ≡ true = rw n at (find-holds pending (ready_peers c room)) in
      ground arith

  -- When no leg of a group call that we are in negotiates, and a ready peer is left to whom we
  -- initiate and with whom we have no session, then `initiate_next_pending` creates one media
  -- engine and leaves a leg of the room negotiating, if the media library can create engines.
  pub initiate_next_pending_progress :
      (room : Text) (video : Bool) (w : World Element) (conf : Conference)
      → lookup room w.calls.conferences ≡ some conf
      → has_connecting_leg w.calls room ≡ false
      → is_some (next_peer w.calls room conf) ≡ true
      → env.engine_starts (env.new_id (codes "muji") w.drawn) ≡ true
      → let w' = (initiate_next_pending d env room video w).1 in
        (engines_created w'.log ≡ engines_created w.log + 1)
        × (has_connecting_leg w'.calls room ≡ true)
  unfolding initiate_next_pending
  initiate_next_pending_progress room video w conf h free n s =
      elim (Option-cases (next_peer w.calls room conf)) [
        | inl e ↦ clash (ap is_some e) n
        | inr (p, e) ↦
            let next = maybe_initiate d env room p.0 p.1.real_jid video w in
            let step : (initiate_next_pending d env room video w).1 ≡ next.1 = ground arith in
            rw step (
              maybe_initiate-Begun room p.0 p.1.real_jid video w conf h
                (decide_act-next w.calls room conf h free e) s)
      ]
