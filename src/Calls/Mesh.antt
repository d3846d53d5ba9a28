-- ===== src/Calls/Mesh.antt =====
-- The mesh of a group call: one leg to each other participant, set up one at a time.
use monocles_chat_desktop.Base.{
  ◌-◌, Bool, true, false, not, ◌&&◌, ◌||◌, List, [], ◌∷◌, ◌++◌, Option, none, some, Text, codes,
  if◌then◌else◌, any, find, keep, ltb, text_eq, is_some, lookup, insert, remove, is_empty,
}
use monocles_chat_desktop.Calls.Members.{
  values, update, emit_conference, ensure_member, register_member_session, set_mute, set_camera,
  apply_conf_state_to_leg, set_member_state, is_connecting, is_ended, has_connecting_leg,
  terminate_leg, should_initiate,
}
use monocles_chat_desktop.Calls.Signalling.{start_call}
use monocles_chat_desktop.Calls.State.{
  Calls, Member, MujiPeer, MujiState, ready, Conference, active, ended, CallState,
  conference_invite_cancelled, caller, emitted, Env, M, ◌>>=◌, ◌>>◌, gets, modify, effect, next_id,
  skip, for_each, emit, mark_answered, log_call_end, bare,
}
use monocles_chat_desktop.Calls.Stanzas.{muji_payload, send_muji_presence}
use monocles_chat_desktop.Dom.{Dom}

-- The local `enum Act` of `maybe_initiate`.
pub data Act : Type 0 where
  pass wait defer : Act
  initiate : Text → Act

-- Whether a member of the conference has a session.
abbrev pub has_session : Text → Conference → Bool
has_session occupant conf = elim (lookup occupant conf.members) [
  | none ↦ false
  | some m ↦ is_some m.sid
]

unfoldable pub decide_act : {E : Type 0} → Calls E → Text → Text → Act
unfolding has_connecting_leg
decide_act c room peer = elim (lookup room c.conferences) [
  | none ↦ pass
  | some conf ↦
      if has_session peer conf
      then pass
      else if should_initiate conf.our_occupant peer
      then if has_connecting_leg c room then defer else initiate conf.our_occupant
      else wait
]

abbrev is_ready : MujiState → Bool
is_ready ready = true
is_ready _ = false

-- The peers that are ready, with the address of each.
unfoldable pub ready_peers : {E : Type 0} → Calls E → Text → List (Text × MujiPeer)
ready_peers c room = elim (lookup room c.muji_seen) [
  | none ↦ []
  | some seen ↦ keep (λ e. is_ready e.1.state) seen
]

abbrev pub next_peer : {E : Type 0} → Calls E → Text → Conference → Option (Text × MujiPeer)
next_peer c room conf =
    find (λ e. should_initiate conf.our_occupant e.0 && not (has_session e.0 conf))
      (ready_peers c room)

-- The sessions of the members, with their addresses.
unfoldable pub sessions : List Member → List (Text × Text)
sessions [] = []
sessions (m ∷ ms) = elim m.sid [ none ↦ sessions ms | some sid ↦ (sid, m.real_jid) ∷ sessions ms ]

module _ (d : Dom) (env : Env) where
  open d use {Element}

  unfoldable pub start_leg : Text → Text → Text → Bool → M Element (Unit {0})
  start_leg room peer addr video = do
    sid ← next_id env (codes "muji")
    started ← start_call d env sid addr caller video (some room)
    if started
        then (do register_member_session env room peer addr sid; apply_conf_state_to_leg room sid)
        else skip

  -- The second match of `maybe_initiate`.
  unfoldable pub perform : Act → Text → Text → Text → Bool → M Element (Unit {0})
  perform pass room peer addr video = skip
  perform defer room peer addr video = skip
  perform wait room peer addr video = do ensure_member env room peer addr; emit_conference room
  perform (initiate our_occupant) room peer addr video = do
    start_leg room peer addr video
    emit_conference room

  unfoldable pub maybe_initiate : Text → Text → Text → Bool → M Element (Unit {0})
  maybe_initiate room peer addr video = do
    act ← gets (λ c. decide_act c room peer)
    perform act room peer addr video

  unfoldable pub initiate_next_pending : Text → Bool → M Element (Unit {0})
  initiate_next_pending room video = do
    busy ← gets (λ c. has_connecting_leg c room)
    next ←
        gets (λ c. elim (lookup room c.conferences) [
          | none ↦ none
          | some conf ↦ next_peer c room conf
        ])
    if busy
        then skip
        else elim next [ none ↦ skip | some (occ, p) ↦ maybe_initiate room occ p.real_jid video ]

  -- Ended, or connecting for more than twelve seconds.
  abbrev is_stuck : Member → Bool
  is_stuck m =
      is_ended m.state || is_connecting m.state && ltb 12000 (env.clock - m.connecting_since)

  unfoldable pub drop_leg : Text → Text × Member → M Element (Unit {0})
  drop_leg room (occ, m) = do
    modify (update room λ k. record k { members = remove occ k.members })
    elim m.sid [ none ↦ skip | some sid ↦ terminate_leg d env sid m.real_jid ]

  unfoldable pub initiate_all : Text → Bool → List (Text × MujiPeer) → M Element (Unit {0})
  initiate_all room video peers = for_each peers (λ e. maybe_initiate room e.0 e.1.real_jid video)

  unfoldable pub remesh : Text → M Element (Unit {0})
  remesh room = do
    conf ← gets (λ c. lookup room c.conferences)
    elim conf [
      | none ↦ skip
      | some k ↦ (do
        let to_drop = keep (λ (e : Text × Member). is_stuck e.1) k.members
        for_each to_drop (drop_leg room)
        peers ← gets (λ c. ready_peers c room)
        initiate_all room k.video peers
        if is_empty to_drop then skip else emit_conference room)
    ]

  -- `caps` is the `<c/>` of caps.rs. The periodic `remesh` that the source spawns here is a step
  -- of its own.
  unfoldable pub place_group_call : Element → Text → Bool → M Element (Unit {0})
  place_group_call caps room video =
      if not (env.room_capable room) then skip else elim (env.room_nick room) [
        | none ↦ skip
        | some nick ↦ (do
          had_invite ← gets (λ c. any (text_eq room) c.invited)
          modify (λ c. record c {
            conferences =
                insert room
                  (record {
                    nick = nick;
                    our_occupant = room ++ b'/' ∷ nick;
                    video = video;
                    muted = false;
                    camera_enabled = true;
                    screen = false;
                    members = [];
                  })
                  c.conferences;
            invited = keep (λ r. not (text_eq room r)) c.invited;
          })
          if had_invite then effect (emitted (conference_invite_cancelled room)) else skip
          _ ←
              send_muji_presence d env caps room nick
                (some (muji_payload d false video env.own_device))
          _ ←
              send_muji_presence d env caps room nick
                (some (muji_payload d true video env.own_device))
          peers ← gets (λ c. ready_peers c room)
          initiate_all room video peers
          emit_conference room)
      ]

  unfoldable pub leave_group_call : Element → Text → M Element (Unit {0})
  leave_group_call caps room = do
    conf ← gets (λ c. lookup room c.conferences)
    modify (λ c. record c { conferences = remove room c.conferences })
    elim conf [
      | none ↦ skip
      | some k ↦ (do
        _ ← send_muji_presence d env caps room k.nick none
        for_each (sessions (values k.members)) (λ s. terminate_leg d env s.0 s.1))
    ]
    emit_conference room

  unfoldable pub set_group_mute : Text → Bool → M Element (Unit {0})
  set_group_mute room muted = do
    conf ← gets (λ c. lookup room c.conferences)
    modify (update room λ k. record k { muted = muted })
    elim conf [
      | none ↦ skip
      | some k ↦ for_each (sessions (values k.members)) (λ s. set_mute s.0 muted)
    ]

  unfoldable pub set_group_camera : Text → Bool → M Element (Unit {0})
  set_group_camera room enabled = do
    conf ← gets (λ c. lookup room c.conferences)
    modify (update room λ k. record k { camera_enabled = enabled })
    elim conf [
      | none ↦ skip
      | some k ↦ for_each (sessions (values k.members)) (λ s. set_camera s.0 enabled)
    ]

  -- The pump of `start_call` at `EngineEvent::Connected`.
  unfoldable pub engine_connected : Text → Text → Bool → Option Text → M Element (Unit {0})
  engine_connected sid peer_full video none = do
    mark_answered sid
    emit sid (bare peer_full) video CallState.active
  engine_connected sid peer_full video (some room) = do
    mark_answered sid
    set_member_state sid active
    emit_conference room
    initiate_next_pending room video

  -- The pump at `EngineEvent::Failed`.
  unfoldable pub engine_failed : Text → Text → Bool → Option Text → Text → M Element (Unit {0})
  engine_failed sid peer_full video none reason = do
    modify (λ c. record c { active = remove sid c.active })
    log_call_end sid
    emit sid (bare peer_full) video (CallState.ended reason)
  engine_failed sid peer_full video (some room) reason = do
    modify (λ c. record c { active = remove sid c.active })
    log_call_end sid
    set_member_state sid ended
    emit_conference room
    initiate_next_pending room video
