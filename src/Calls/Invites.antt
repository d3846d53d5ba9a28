-- ===== src/Calls/Invites.antt =====
-- The invitations to a group call that we are not in.
use monocles_chat_desktop.Base.{
  Bool, true, false, not, ◌≡◌, List, [], ◌∷◌, ◌++◌, Option, Text, any, keep, text_eq, text_eq_iff,
  if◌then◌else◌, append-nil, arith,
}
use monocles_chat_desktop.Calls.Members.{resource}
use monocles_chat_desktop.Calls.Presence.{
  note_peer, any_participant, is_invited, in_conference, update_invite, observe,
}
use monocles_chat_desktop.Calls.State.{
  MujiState, Env, World, Effect, emitted, conference_invite, conference_invite_cancelled,
}
use monocles_chat_desktop.Dom.{Dom}

any-keep :
    (room k : Text) (l : List Text)
    → any (text_eq k) (keep (λ r. not (text_eq room r)) l)
      ≡ (if text_eq room k then false else any (text_eq k) l)
any-keep room k [] = ground arith
any-keep room k (r ∷ l) =
    ground (arith, any-keep room k l, text_eq_iff room r, text_eq_iff k r, text_eq_iff room k)

-- What is sent to the user when a room's call begins or is over.
abbrev pub invite_effects : {E : Type 0} → Bool → Bool → Text → Text → List (Effect E)
invite_effects true false room occupant = emitted (conference_invite room (resource occupant)) ∷ []
invite_effects false true room occupant = emitted (conference_invite_cancelled room) ∷ []
invite_effects _ _ room occupant = []

module _ {E : Type 0} where
  update_invite-is_invited :
      (room occupant k : Text) (w : World E)
      → is_invited (update_invite room occupant w).1.calls k
        ≡ (if text_eq room k then any_participant w.calls room else is_invited w.calls k)
  unfolding update_invite
  update_invite-is_invited room occupant k w =
      ground (arith, any-keep room k w.calls.invited, text_eq_iff k room, text_eq_iff room k)

  update_invite_log :
      (room occupant : Text) (w : World E)
      → (update_invite room occupant w).1.log
        ≡ w.log
          ++ invite_effects (any_participant w.calls room) (is_invited w.calls room) room occupant
  unfolding update_invite
  update_invite_log room occupant w = ground (arith, append-nil w.log)

  update_invite-any_participant :
      (room occupant : Text) (w : World E)
      → any_participant (update_invite room occupant w).1.calls room ≡ any_participant w.calls room
  unfolding update_invite
  update_invite-any_participant room occupant w = ground arith

module _ (d : Dom) (env : Env) where
  open d use {Element}

  -- While we are not in a room's call, observing an occupant's presence leaves the room invited
  -- just if somebody takes part in its call, leaves every other room's invitation alone, and
  -- tells the user of the change and of nothing else.
  pub observe_invites :
      (state : Option MujiState) (room occupant addr k : Text) (w : World Element)
      → in_conference w.calls room ≡ false
      → let w' = (observe d env state room occupant addr w).1 in
        (is_invited w'.calls k
          ≡ (if text_eq room k then any_participant w'.calls room else is_invited w.calls k))
        × (w'.log
            ≡ w.log
              ++ invite_effects
                  (any_participant w'.calls room)
                  (is_invited w.calls room)
                  room
                  occupant)
  observe_invites state room occupant addr k w h =
      let w₁ : World Element = record w {
        calls = record w.calls { muji_seen = note_peer room occupant state addr w.calls.muji_seen };
      } in
      let step : (observe d env state room occupant addr w).1 ≡ (update_invite room occupant w₁).1 =
        unfold observe in rw (h, observe) in
      let same = update_invite-any_participant room occupant w₁ in
      rw (step, same)
        (update_invite-is_invited room occupant k w₁, update_invite_log room occupant w₁)
