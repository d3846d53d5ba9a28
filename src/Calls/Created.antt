-- ===== src/Calls/Created.antt =====
-- What the operations on members do to the count of media engines and to the negotiating legs.
use monocles_chat_desktop.Base.{
  ℕ, ◌+◌, Bool, true, false, ◌≡◌, List, [], ◌∷◌, ◌++◌, map, inl, inr, none, some, Text, Map, any,
  if◌then◌else◌, lookup, insert, lookup-insert_self, arith, Option-cases,
}
use monocles_chat_desktop.Calls.Members.{
  values, participant, new_member, or_insert, registered, emit_conference, set_mute, set_camera,
  ensure_member, register_member_session, apply_conf_state_to_leg, negotiates, has_connecting_leg,
}
use monocles_chat_desktop.Calls.State.{
  Conference, Event, conference_update, Member, Effect, engine, emitted, created, set_mic_muted,
  set_video_enabled, Env, World,
}
use monocles_chat_desktop.Dom.{Dom}

-- How many media engines a log creates.
abbrev is_created : {E : Type 0} → Effect E → ℕ
is_created (engine sid (created role video shared)) = 1
is_created _ = 0

unfoldable pub engines_created : {E : Type 0} → List (Effect E) → ℕ
engines_created [] = 0
engines_created (e ∷ es) = is_created e + engines_created es

pub engines_created-snoc :
    {E : Type 0} (es : List (Effect E)) (e : Effect E)
    → engines_created (es ++ e ∷ []) ≡ engines_created es + is_created e
unfolding engines_created
engines_created-snoc [] e = omega arith
engines_created-snoc (x ∷ es) e = omega (arith, engines_created-snoc es e)

any-insert :
    (k : Text) (m : Member) (ms : Map Member)
    → negotiates m ≡ true
    → any negotiates (values (insert k m ms)) ≡ true
unfolding insert
any-insert k m [] h = ground arith
any-insert k m ((j, x) ∷ ms) h = ground (arith, any-insert k m ms h)

any-insert_absent :
    (k : Text) (m : Member) (ms : Map Member)
    → any negotiates (values ms) ≡ true
    → lookup k ms ≡ none
    → any negotiates (values (insert k m ms)) ≡ true
unfolding insert lookup
any-insert_absent k m [] h a = ground arith
any-insert_absent k m ((j, x) ∷ ms) h a = ground (arith, any-insert_absent k m ms)

-- What may still be created in the room, and what was.
abbrev pub budget : {E : Type 0} → Text → World E → ℕ
budget room w = engines_created w.log + (if has_connecting_leg w.calls room then 0 else 1)

emitted_created :
    {E : Type 0} (es : List (Effect E)) (v : Event)
    → engines_created (es ++ emitted v ∷ []) ≡ engines_created es
emitted_created es v = omega (arith, engines_created-snoc es (emitted v))

module _ {E : Type 0} where
  pub emit_conference_calls :
      (room : Text) (w : World E) → (emit_conference room w).1.calls ≡ w.calls
  unfolding emit_conference
  emit_conference_calls room w = ground arith

  pub emit_conference_created :
      (room : Text) (w : World E)
      → engines_created (emit_conference room w).1.log ≡ engines_created w.log
  unfolding emit_conference
  emit_conference_created room w = elim (Option-cases (lookup room w.calls.conferences)) [
    | inl e ↦ ground (arith, emitted_created w.log (conference_update room false false []))
    | inr (k, e) ↦
        let shown = map participant (values k.members) in
        ground (arith, emitted_created w.log (conference_update room true k.video shown))
  ]

  pub apply_conf_state_calls :
      (room sid : Text) (w : World E) → (apply_conf_state_to_leg room sid w).1.calls ≡ w.calls
  unfolding apply_conf_state_to_leg
  apply_conf_state_calls room sid w = ground arith

  set_mute_created :
      (sid : Text) (b : Bool) (w : World E)
      → engines_created (set_mute sid b w).1.log ≡ engines_created w.log
  unfolding set_mute
  set_mute_created sid b w =
      ground (arith, engines_created-snoc w.log (engine sid (set_mic_muted b)))

  set_camera_created :
      (sid : Text) (b : Bool) (w : World E)
      → engines_created (set_camera sid b w).1.log ≡ engines_created w.log
  unfolding set_camera
  set_camera_created sid b w =
      ground (arith, engines_created-snoc w.log (engine sid (set_video_enabled b)))

  pub apply_conf_state_created :
      (room sid : Text) (w : World E)
      → engines_created (apply_conf_state_to_leg room sid w).1.log ≡ engines_created w.log
  apply_conf_state_created room sid w =
      let muted = (set_mute sid true w).1 in
      unfold apply_conf_state_to_leg in
      ground (
        arith,
        set_mute_created sid true w,
        set_camera_created sid false w,
        set_camera_created sid false muted,
      )

module _ (d : Dom) (env : Env) where
  open d use {Element}

  pub ensure_member-has_connecting_leg :
      (room occupant addr : Text) (w : World Element)
      → has_connecting_leg w.calls room ≡ true
      → has_connecting_leg (ensure_member env room occupant addr w).1.calls room ≡ true
  unfolding ensure_member has_connecting_leg
  ensure_member-has_connecting_leg room occupant addr w h =
      elim (Option-cases (lookup room w.calls.conferences)) [
        | inl absent ↦ ground arith
        | inr (conf, here) ↦
            let m = new_member env occupant addr none in
            let conf' : Conference = record conf { members = or_insert occupant m conf.members } in
            ground (
              arith,
              lookup-insert_self room conf' w.calls.conferences,
              any-insert_absent occupant m conf.members,
            )
      ]

  pub register_member_session-has_connecting_leg :
      (room peer addr sid : Text) (w : World Element) (conf : Conference)
      → lookup room w.calls.conferences ≡ some conf
      → has_connecting_leg (register_member_session env room peer addr sid w).1.calls room ≡ true
  unfolding register_member_session has_connecting_leg
  register_member_session-has_connecting_leg room peer addr sid w conf h =
      let m = registered env peer addr sid (lookup peer conf.members) in
      let conf' : Conference = record conf { members = insert peer m conf.members } in
      ground
        (arith, lookup-insert_self room conf' w.calls.conferences, any-insert peer m conf.members)
