-- ===== src/Calls/Video.antt =====
-- When a call turns to video.
use monocles_chat_desktop.Base.{
  Bool, true, false, not, ◌&&◌, ◌≡◌, ap, ◌∙◌, sym, ◌⊎◌, inl, inr, List, [], ◌++◌, Option, none,
  some, Text, if◌then◌else◌, lookup, insert, lookup-insert, lookup-insert_self, text_eq,
  text_eq_iff, is_empty, arith, Bool-cases, Option-cases,
}
use monocles_chat_desktop.Calls.State.{ActiveCall, Env, World, emit}
use monocles_chat_desktop.Calls.Upgrade.{accept_video_upgrade, apply_upgrade, decline_video_upgrade}
use monocles_chat_desktop.Dom.{Dom}

-- What accepting an upgrade makes of the call.
unfoldable upgraded :
    {E : Type 0}
    → (List E → Option Text)
    → (Text → Text → Bool)
    → Text
    → ActiveCall E
    → ActiveCall E
upgraded contents_to_sdp applies sid a =
    let full = a.remote_contents ++ a.pending_video in
    let taken = record a { pending_video = [] } in
    elim (contents_to_sdp full) [
      | none ↦ taken
      | some sdp ↦
          if applies sid sdp then record taken { remote_contents = full; video = true } else taken
    ]

-- Whether there is an upgrade to accept.
abbrev is_offered : {E : Type 0} → ActiveCall E → Bool
is_offered a = not a.video && not (is_empty a.pending_video)

module _ (d : Dom) (env : Env) (contents_to_sdp : List d.Element → Option Text)
    (applies : Text → Text → Bool) (sid : Text) where
  open d use {Element}

  abbrev accepted : World Element → World Element
  accepted w = (accept_video_upgrade d env contents_to_sdp applies sid w).1

  upgraded-pending :
      (a : ActiveCall Element) → is_offered (upgraded contents_to_sdp applies sid a) ≡ false
  unfolding upgraded
  upgraded-pending a = ground arith

  apply_upgrade-active :
      (a : ActiveCall Element) (w : World Element)
      → (apply_upgrade d env contents_to_sdp applies sid a w).1.calls.active
        ≡ insert sid (upgraded contents_to_sdp applies sid a) w.calls.active
  unfolding apply_upgrade upgraded emit
  apply_upgrade-active a w = ground arith

  accepted_absent : (w : World Element) → lookup sid w.calls.active ≡ none → accepted w ≡ w
  unfolding accept_video_upgrade
  accepted_absent w h = ground arith

  accepted_settled :
      (w : World Element) (a : ActiveCall Element)
      → lookup sid w.calls.active ≡ some a
      → is_offered a ≡ false
      → accepted w ≡ w
  unfolding accept_video_upgrade
  accepted_settled w a h settled = ground arith

  accepted_offered :
      (w : World Element) (a : ActiveCall Element)
      → lookup sid w.calls.active ≡ some a
      → is_offered a ≡ true
      → accepted w ≡ (apply_upgrade d env contents_to_sdp applies sid a w).1
  unfolding accept_video_upgrade
  accepted_offered w a h offered = ground arith

  accepted-active :
      (w : World Element) (a : ActiveCall Element)
      → lookup sid w.calls.active ≡ some a
      → is_offered a ≡ true
      → (accepted w).calls.active
        ≡ insert sid (upgraded contents_to_sdp applies sid a) w.calls.active
  accepted-active w a h offered =
      ap (λ v. v.calls.active) (accepted_offered w a h offered) ∙ apply_upgrade-active a w

  -- Once a request for video was answered, accepting it again does nothing, whatever the engine
  -- made of the offer.
  accept_video_upgrade_idem :
      (w : World Element)
      → let w' = (accept_video_upgrade d env contents_to_sdp applies sid w).1 in
        (accept_video_upgrade d env contents_to_sdp applies sid w').1 ≡ w'
  accept_video_upgrade_idem w = elim (Option-cases (lookup sid w.calls.active)) [
    | inl absent ↦ ap accepted (accepted_absent w absent)
    | inr (a, here) ↦ elim (Bool-cases (is_offered a)) [
      | inl offered ↦
          accepted_settled (accepted w) (upgraded contents_to_sdp applies sid a)
            (ap (lookup sid) (accepted-active w a here offered)
              ∙ lookup-insert_self sid (upgraded contents_to_sdp applies sid a) w.calls.active)
            (upgraded-pending a)
      | inr settled ↦ ap accepted (accepted_settled w a here settled)
    ]
  ]

  -- A call that is a video call after an upgrade was accepted was one before, or it is the call
  -- that the user accepted, and the peer had offered it video content.
  pub accept_video_upgrade-video :
      (k : Text) (w : World Element) {a' : ActiveCall Element}
      → lookup k (accept_video_upgrade d env contents_to_sdp applies sid w).1.calls.active ≡ some a'
      → a'.video ≡ true
      → (a : ActiveCall Element) × (lookup k w.calls.active ≡ some a)
        × ((a.video ≡ true) ⊎ ((k ≡ sid) × (is_empty a.pending_video ≡ false)))
  accept_video_upgrade-video k w {a'} h hv = elim (Option-cases (lookup sid w.calls.active)) [
    | inl absent ↦
        let same = sym (ap (λ v. lookup k v.calls.active) (accepted_absent w absent)) in
        (a', same ∙ h, inl hv)
    | inr (a, here) ↦ elim (Bool-cases (is_offered a)) [
      | inr settled ↦
          let same = sym (ap (λ v. lookup k v.calls.active) (accepted_settled w a here settled)) in
          (a', same ∙ h, inl hv)
      | inl offered ↦
          let new = upgraded contents_to_sdp applies sid a in
          let found =
            sym (lookup-insert sid k new w.calls.active)
            ∙ (sym (ap (lookup k) (accepted-active w a here offered)) ∙ h) in
          elim (Bool-cases (text_eq sid k)) [
            | inl e ↦
                let same = sym ((text_eq_iff sid k).0 e) in
                (a, rw same here, inr (same, ground arith))
            | inr e ↦ (a', rw e at found, inl hv)
          ]
    ]
  ]

  decline_absent :
      (initiator : Text) (w : World Element)
      → lookup sid w.calls.active ≡ none
      → (decline_video_upgrade d env initiator sid w).1 ≡ w
  unfolding decline_video_upgrade
  decline_absent initiator w h = ground arith

  decline-active :
      (initiator : Text) (w : World Element) (a : ActiveCall Element)
      → lookup sid w.calls.active ≡ some a
      → (decline_video_upgrade d env initiator sid w).1.calls.active
        ≡ insert sid (record a { pending_video = [] }) w.calls.active
  unfolding decline_video_upgrade
  decline-active initiator w a h = ground arith

  not_offered : (a : ActiveCall Element) → is_offered (record a { pending_video = [] }) ≡ false
  not_offered a = ground arith

  -- Once the user declined a request for video, accepting does nothing: no content is left to be
  -- applied.
  pub accept_video_upgrade-decline_video_upgrade :
      (initiator : Text) (w : World Element)
      → let w' = (decline_video_upgrade d env initiator sid w).1 in
        (accept_video_upgrade d env contents_to_sdp applies sid w').1 ≡ w'
  accept_video_upgrade-decline_video_upgrade initiator w =
      elim (Option-cases (lookup sid w.calls.active)) [
        | inl absent ↦
            let same = decline_absent initiator w absent in
            accepted_absent _ (ap (λ v. lookup sid v.calls.active) same ∙ absent)
        | inr (a, here) ↦
            accepted_settled _ (record a { pending_video = [] })
              (ap (lookup sid) (decline-active initiator w a here)
                ∙ lookup-insert_self sid (record a { pending_video = [] }) w.calls.active)
              (not_offered a)
      ]
