-- ===== src/Calls/Leaving.antt =====
-- Leaving a group call.
use monocles_chat_desktop.Base.{
  Bool, ◌≡◌, refl, ◌∙◌, ap, List, [], ◌∷◌, none, some, Text, any, text_eq, if◌then◌else◌, lookup,
  remove, lookup-remove, lookup-remove_self, arith,
}
use monocles_chat_desktop.Calls.Created.{emit_conference_calls}
use monocles_chat_desktop.Calls.Members.{values, terminate_leg}
use monocles_chat_desktop.Calls.Mesh.{sessions, leave_group_call}
use monocles_chat_desktop.Calls.State.{Conference, Env, World, for_each}
use monocles_chat_desktop.Calls.Stanzas.{send_muji_presence}
use monocles_chat_desktop.Dom.{Dom}

-- Whether the session is among these.
abbrev pub ends : Text → List (Text × Text) → Bool
ends k legs = any (λ s. text_eq s.0 k) legs

module _ (d : Dom) (env : Env) where
  open d use {Element}

  terminate_leg_calls :
      (sid addr : Text) (w : World Element)
      → (terminate_leg d env sid addr w).1.calls
        ≡ record w.calls { active = remove sid w.calls.active }
  unfolding terminate_leg
  terminate_leg_calls sid addr w = ground arith

  terminate_all_active :
      (legs : List (Text × Text)) (k : Text) (w : World Element)
      → lookup k (for_each legs (λ s. terminate_leg d env s.0 s.1) w).1.calls.active
        ≡ (if ends k legs then none else lookup k w.calls.active)
  unfolding for_each
  terminate_all_active [] k w = refl
  terminate_all_active (s ∷ legs) k w =
      let w' = (terminate_leg d env s.0 s.1 w).1 in
      ground (
        arith,
        terminate_all_active legs k w',
        ap (λ c. lookup k c.active) (terminate_leg_calls s.0 s.1 w),
        lookup-remove s.0 k w.calls.active,
      )

  terminate_all_rest :
      (legs : List (Text × Text)) (w : World Element)
      → let c = (for_each legs (λ s. terminate_leg d env s.0 s.1) w).1.calls in
        (c.conferences ≡ w.calls.conferences) × (c.muji_seen ≡ w.calls.muji_seen)
  unfolding for_each
  terminate_all_rest [] w = (refl, refl)
  terminate_all_rest (s ∷ legs) w =
      let w' = (terminate_leg d env s.0 s.1 w).1 in
      let rest = terminate_all_rest legs w' in
      let step = terminate_leg_calls s.0 s.1 w in
      (rest.0 ∙ ap (λ c. c.conferences) step, rest.1 ∙ ap (λ c. c.muji_seen) step)

  -- Leaving a group call ends the media session of every member and no other session, forgets the
  -- conference, and keeps what is known of the peers' presence for a later return.
  pub leave_group_call-ends :
      (caps : Element) (room k : Text) (w : World Element) (conf : Conference)
      → lookup room w.calls.conferences ≡ some conf
      → let c = (leave_group_call d env caps room w).1.calls in
        (lookup k c.active
          ≡ (if ends k (sessions (values conf.members)) then none else lookup k w.calls.active))
        × (lookup room c.conferences ≡ none)
        × (c.muji_seen ≡ w.calls.muji_seen)
  leave_group_call-ends caps room k w conf h =
      let w₁ : World Element = record w {
        calls = record w.calls { conferences = remove room w.calls.conferences };
      } in
      let w₂ = (send_muji_presence d env caps room conf.nick none w₁).1 in
      let quiet : w₂.calls ≡ w₁.calls = unfold send_muji_presence in ground arith in
      let legs = sessions (values conf.members) in
      let w₃ = (for_each legs (λ s. terminate_leg d env s.0 s.1) w₂).1 in
      let last : (leave_group_call d env caps room w).1.calls ≡ w₃.calls =
        unfold leave_group_call in rw (h, leave_group_call) (emit_conference_calls room w₃) in
      let rest = terminate_all_rest legs w₂ in
      (
        ap (λ c. lookup k c.active) last ∙ terminate_all_active legs k w₂ ∙ rw quiet,
        ap (λ c. lookup room c.conferences) last
            ∙ ap (lookup room) (rest.0 ∙ ap (λ c. c.conferences) quiet)
            ∙ lookup-remove_self room w.calls.conferences,
        ap (λ c. c.muji_seen) last ∙ rest.1 ∙ ap (λ c. c.muji_seen) quiet,
      )
