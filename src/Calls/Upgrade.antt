-- ===== src/Calls/Upgrade.antt =====
-- The upgrade of a live call to video. `contents_to_sdp` of jingle_sdp.rs is a parameter, and so
-- is whether the engine of a session can apply a remote description.
use monocles_chat_desktop.Base.{
  Bool, true, not, ◌&&◌, List, [], ◌++◌, Option, none, some, Text, codes, if◌then◌else◌, lookup,
  insert, is_empty,
}
use monocles_chat_desktop.Calls.State.{
  ActiveCall, CallState, Env, M, ◌>>=◌, ◌>>◌, gets, modify, effect, send, next_id, skip, engine,
  apply_video_offer, upgrade, bare, emit,
}
use monocles_chat_desktop.Calls.Stanzas.{jingle_iq}
use monocles_chat_desktop.Dom.{Dom}

module _ (d : Dom) (env : Env) where
  open d use {Element}

  unfoldable pub upgrade_to_video : Text → M Element (Unit {0})
  upgrade_to_video sid = do
    call ← gets (λ c. lookup sid c.active)
    elim call [ none ↦ skip | some a ↦ if a.video then skip else effect (engine sid upgrade) ]

  -- Put the record of a session back.
  abbrev store_call : Text → ActiveCall Element → M Element (Unit {0})
  store_call sid a = modify (λ c. record c { active = insert sid a c.active })

  -- The pending content is taken; the call is a video call once its engine applied the offer.
  unfoldable pub apply_upgrade :
      (List Element → Option Text)
      → (Text → Text → Bool)
      → Text
      → ActiveCall Element
      → M Element (Unit {0})
  apply_upgrade contents_to_sdp applies sid a =
      let full = a.remote_contents ++ a.pending_video in
      let taken : ActiveCall Element = record a { pending_video = [] } in
      elim (contents_to_sdp full) [
        | none ↦ store_call sid taken
        | some sdp ↦
            if applies sid sdp
            then (do
              store_call sid (record taken { remote_contents = full; video = true })
              effect (engine sid (apply_video_offer sdp))
              emit sid (bare a.peer_full) true CallState.active)
            else (do store_call sid taken; effect (engine sid (apply_video_offer sdp)))
      ]

  unfoldable pub accept_video_upgrade :
      (List Element → Option Text) → (Text → Text → Bool) → Text → M Element (Unit {0})
  accept_video_upgrade contents_to_sdp applies sid = do
    call ← gets (λ c. lookup sid c.active)
    elim call [
      | none ↦ skip
      | some a ↦
          if not a.video && not (is_empty a.pending_video)
          then apply_upgrade contents_to_sdp applies sid a
          else skip
    ]

  unfoldable pub decline_video_upgrade : Text → Text → M Element (Unit {0})
  decline_video_upgrade initiator sid = do
    call ← gets (λ c. lookup sid c.active)
    elim call [
      | none ↦ skip
      | some a ↦ (do
        store_call sid (record a { pending_video = [] })
        if is_empty a.pending_video then skip else (do
          id ← next_id env (codes "jingle")
          _ ←
              send env
                (jingle_iq d id a.peer_full sid initiator (codes "content-reject") a.pending_video)
          skip))
    ]
