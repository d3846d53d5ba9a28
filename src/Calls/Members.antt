-- ===== src/Calls/Members.antt =====
-- The members of a group call and their legs, one media session to each other participant.
use monocles_chat_desktop.Base.{
  Bool, true, false, not, ◌&&◌, List, [], ◌∷◌, Option, none, some, Text, Map, codes, map,
  if◌then◌else◌, any, text_eq, text_lt, is_some, unwrap_or, lookup, insert, remove, rsplit_once,
}
use monocles_chat_desktop.Calls.State.{
  Calls, Member, Conference, MemberCallState, connecting, ended, as_str, ConfParticipant,
  conference_update, set_mic_muted, set_video_enabled, hang_up_engine, engine, emitted, Env, M,
  ◌>>=◌, ◌>>◌, gets, modify, effect, send, next_id, skip,
}
use monocles_chat_desktop.Calls.Stanzas.{terminate_iq}
use monocles_chat_desktop.Dom.{Dom}

-- `HashMap::values`.
abbrev pub values {ℓ} : {V : Type ℓ} → Map V → List V
values [] = []
values ((k, v) ∷ m) = v ∷ values m

-- `get_mut(room)` and a change of what is there.
unfoldable pub update : {E : Type 0} → Text → (Conference → Conference) → Calls E → Calls E
update room f c = elim (lookup room c.conferences) [
  | none ↦ c
  | some conf ↦ record c { conferences = insert room (f conf) c.conferences }
]

-- `rsplit('/').next()`: what stands behind the last slash.
unfoldable pub resource : Text → Text
unfolding rsplit_once
resource jid = elim (rsplit_once b'/' jid) [ none ↦ jid | some (_, r) ↦ r ]

unfoldable pub participant : Member → ConfParticipant
unfolding resource
participant m = record {
  jid = m.occupant_jid;
  name = resource m.occupant_jid;
  state = as_str m.state;
  sid = unwrap_or m.sid [];
}

unfoldable pub emit_conference : {E : Type 0} → Text → M E (Unit {0})
unfolding participant
emit_conference room = do
  conf ← gets (λ c. lookup room c.conferences)
  elim conf [
    | some k ↦
        effect (emitted (conference_update room true k.video (map participant (values k.members))))
    | none ↦ effect (emitted (conference_update room false false []))
  ]

abbrev pub new_member : Env → Text → Text → Option Text → Member
new_member env occupant real_jid sid = record {
  occupant_jid = occupant;
  real_jid = real_jid;
  sid = sid;
  state = connecting;
  connecting_since = env.clock;
}

-- `entry(occupant).or_insert_with(…)`.
abbrev pub or_insert : Text → Member → Map Member → Map Member
or_insert k m ms = if is_some (lookup k ms) then ms else insert k m ms

unfoldable pub ensure_member : {E : Type 0} → Env → Text → Text → Text → M E (Unit {0})
unfolding update
ensure_member env room occupant real_jid = modify (
    update room λ conf. record conf {
      members = or_insert occupant (new_member env occupant real_jid none) conf.members;
    })

-- The entry that `register_member_session` leaves: the occupant's JID is kept if it was there.
abbrev pub registered : Env → Text → Text → Text → Option Member → Member
registered env occupant real_jid sid none = new_member env occupant real_jid (some sid)
registered env occupant real_jid sid (some m) = record m {
  real_jid = real_jid;
  sid = some sid;
  state = connecting;
  connecting_since = env.clock;
}

unfoldable pub register_member_session :
    {E : Type 0} → Env → Text → Text → Text → Text → M E (Unit {0})
unfolding update
register_member_session env room occupant real_jid sid = modify (
    update room λ conf. record conf {
      members =
          insert occupant (registered env occupant real_jid sid (lookup occupant conf.members))
            conf.members;
    })

unfoldable pub set_mute : {E : Type 0} → Text → Bool → M E (Unit {0})
set_mute sid muted = do
  call ← gets (λ c. lookup sid c.active)
  if is_some call then effect (engine sid (set_mic_muted muted)) else skip

unfoldable pub set_camera : {E : Type 0} → Text → Bool → M E (Unit {0})
set_camera sid enabled = do
  call ← gets (λ c. lookup sid c.active)
  if is_some call then effect (engine sid (set_video_enabled enabled)) else skip

unfoldable pub apply_conf_state_to_leg : {E : Type 0} → Text → Text → M E (Unit {0})
unfolding set_mute set_camera
apply_conf_state_to_leg room sid = do
  conf ← gets (λ c. lookup room c.conferences)
  elim conf [
    | none ↦ skip
    | some k ↦ (do
      if k.muted then set_mute sid true else skip
      if not k.camera_enabled then set_camera sid false else skip)
  ]

-- The members of one conference with the first owner of the session changed; `none` if no
-- member owns it.
unfoldable pub set_in_members : Text → MemberCallState → Map Member → Option (Map Member)
set_in_members sid state [] = none
set_in_members sid state ((k, m) ∷ ms) =
    if text_eq (unwrap_or m.sid []) sid && is_some m.sid
    then some ((k, record m { state = state }) ∷ ms)
    else elim (set_in_members sid state ms) [ none ↦ none | some ms' ↦ some ((k, m) ∷ ms') ]

-- The first owner over all conferences.
unfoldable pub set_in_conferences : Text → MemberCallState → Map Conference → Map Conference
unfolding set_in_members
set_in_conferences sid state [] = []
set_in_conferences sid state ((room, conf) ∷ cs) = elim (set_in_members sid state conf.members) [
  | some ms ↦ (room, record conf { members = ms }) ∷ cs
  | none ↦ (room, conf) ∷ set_in_conferences sid state cs
]

unfoldable pub set_member_state : {E : Type 0} → Text → MemberCallState → M E (Unit {0})
unfolding set_in_conferences
set_member_state sid state =
    modify λ c. record c { conferences = set_in_conferences sid state c.conferences }

abbrev pub is_connecting : MemberCallState → Bool
is_connecting connecting = true
is_connecting _ = false

abbrev pub is_ended : MemberCallState → Bool
is_ended ended = true
is_ended _ = false

-- A leg that negotiates: it has a session and is not up.
abbrev pub negotiates : Member → Bool
negotiates m = is_some m.sid && is_connecting m.state

unfoldable pub has_connecting_leg : {E : Type 0} → Calls E → Text → Bool
has_connecting_leg c room = elim (lookup room c.conferences) [
  | none ↦ false
  | some conf ↦ any negotiates (values conf.members)
]

module _ (d : Dom) (env : Env) where
  open d use {Element}

  -- The end of one leg, as `remesh`, `remove_member` and `leave_group_call` write it.
  unfoldable pub terminate_leg : Text → Text → M Element (Unit {0})
  terminate_leg sid addr = do
    call ← gets (λ c. lookup sid c.active)
    modify (λ c. record c { active = remove sid c.active })
    elim call [
      | none ↦ skip
      | some _ ↦ (do
        id ← next_id env (codes "jingle")
        _ ← send env (terminate_iq d id addr sid)
        effect (engine sid hang_up_engine))
    ]

  unfoldable pub remove_member : Text → Text → M Element (Unit {0})
  unfolding terminate_leg update
  remove_member room occupant = do
    conf ← gets (λ c. lookup room c.conferences)
    modify (update room λ k. record k { members = remove occupant k.members })
    elim conf [
      | none ↦ skip
      | some k ↦ elim (lookup occupant k.members) [
        | none ↦ skip
        | some m ↦ elim m.sid [ none ↦ skip | some sid ↦ terminate_leg sid m.real_jid ]
      ]
    ]

-- `should_initiate`: the greater occupant JID calls.
unfoldable pub should_initiate : Text → Text → Bool
unfolding text_lt
should_initiate my_occupant_jid their_occupant_jid = text_lt their_occupant_jid my_occupant_jid
