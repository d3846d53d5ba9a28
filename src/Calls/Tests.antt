-- ===== src/Calls/Tests.antt =====
-- The handlers on concrete sessions and rooms.
use monocles_chat_desktop.Base.{
  ◌+◌, ◌≤◌, ◌≡◌, refl, Bool, true, false, List, [], ◌∷◌, ◌++◌, Option, none, some, Text, Map, codes,
  if◌then◌else◌, lookup, insert, text_eq, ◌⊎◌, eq_ignore_case, split,
}
use monocles_chat_desktop.Calls.Action.{JmiAction, jmi_action}
use monocles_chat_desktop.Calls.Consent.{handle_jmi-active}
use monocles_chat_desktop.Calls.Created.{engines_created}
use monocles_chat_desktop.Calls.Ending.{Starts, proceed_once, proceed_after_reject}
use monocles_chat_desktop.Calls.Invites.{invite_effects, observe_invites}
use monocles_chat_desktop.Calls.Members.{
  has_connecting_leg, should_initiate, emit_conference, register_member_session,
  apply_conf_state_to_leg,
}
use monocles_chat_desktop.Calls.Mesh.{
  decide_act, initiate_all, leave_group_call, maybe_initiate, perform, start_leg,
}
use monocles_chat_desktop.Calls.Presence.{any_participant, is_invited, observe}
use monocles_chat_desktop.Calls.Serial.{initiate_all_serial}
use monocles_chat_desktop.Calls.Signalling.{handle_jmi, hang_up, start_call}
use monocles_chat_desktop.Calls.State.{
  ActiveCall, CallMeta, Calls, Conference, Env, Member, MemberCallState, MujiPeer, World, for_each,
  ready, registry,
}
use monocles_chat_desktop.Calls.Upgrade.{accept_video_upgrade, apply_upgrade}
use monocles_chat_desktop.Calls.Video.{accept_video_upgrade-video}
use monocles_chat_desktop.Base.{is_empty}
use monocles_chat_desktop.Calls.State.{bare, emit}
use monocles_chat_desktop.Dom.{Tree, Trees, tree_dom}

abbrev pub env : Env
env = record {
  own = codes "me@home.org";
  writer_open = true;
  now = codes "2026-01-01T10:00:00Z";
  clock = 20000;
  new_id = λ prefix n. prefix ++ n ∷ [];
  engine_starts = λ sid. true;
  room_capable = λ room. true;
  room_nick = λ room. some (codes "me");
  own_device = some 7;
}

abbrev pub room : Text
room = codes "room@muc.org"

abbrev pub sid : Text
sid = codes "s1"

abbrev pub alice : Text
alice = codes "alice@home.org/phone"

abbrev pub mallory : Text
mallory = codes "mallory@evil.org/x"

abbrev meta : CallMeta
meta = record {
  peer = codes "alice@home.org";
  outgoing = true;
  video = true;
  answered = false;
  ts = codes "2026-01-01T09:59:00Z";
}

-- A call is offered to alice, with video.
abbrev offering : World Tree
offering = record {
  calls = record registry { proposed = (sid, true) ∷ []; meta = (sid, meta) ∷ [] };
  log = [];
  drawn = 0;
}

abbrev pub live : Option Text → ActiveCall Tree
live r = record {
  peer_full = alice;
  remote_contents = [];
  video = true;
  pending_video = [];
  peer_used_omemo = false;
  room = r;
}

abbrev member : Text → MemberCallState → Member
member s st = record {
  occupant_jid = codes "room@muc.org/alice";
  real_jid = alice;
  sid = some s;
  state = st;
  connecting_since = 0;
}

abbrev pub conference : Map Member → Conference
conference members = record {
  nick = codes "me";
  our_occupant = codes "room@muc.org/me";
  video = false;
  muted = false;
  camera_enabled = true;
  screen = false;
  members = members;
}

abbrev pub peer : Text → MujiPeer
peer addr = record { state = ready; real_jid = addr }

-- A group call with one leg, beside a call of two.
abbrev meshed : World Tree
meshed = record {
  calls = record registry {
    active = (sid, live (some room)) ∷ (codes "s2", live none) ∷ [];
    conferences =
        (room, conference ((codes "room@muc.org/alice", member sid MemberCallState.active) ∷ []))
        ∷ [];
  };
  log = [];
  drawn = 0;
}

-- A group call in which we are alone.
abbrev pub alone : World Tree
alone = record {
  calls = record registry { conferences = (room, conference []) ∷ [] };
  log = [];
  drawn = 0;
}

abbrev two_peers : List (Text × MujiPeer)
two_peers = (codes "room@muc.org/abe", peer alice) ∷ (codes "room@muc.org/bob", peer mallory) ∷ []

abbrev pub caps : Tree
caps = Tree.node (codes "c") (codes "caps") [] Trees.nil []

abbrev proceeded : World Tree
proceeded = (handle_jmi tree_dom env JmiAction.proceed sid alice false offering).1

-- An accepted offer starts the engine.
proceeded_active : lookup sid proceeded.calls.active ≡ some (live none)
unfolding handle_jmi lookup registry eq_ignore_case split insert
proceeded_active = refl

jmi_action_unknown : jmi_action (codes "ringing") ≡ none
unfolding jmi_action
jmi_action_unknown = refl

handle_jmi-active_example :
    (lookup sid offering.calls.active ≡ some (live none))
    ⊎ ((sid ≡ sid)
        × (JmiAction.proceed ≡ JmiAction.proceed)
        × ((v : Bool) × (lookup sid offering.calls.proposed ≡ some v) × (true ≡ v)))
handle_jmi-active_example =
    handle_jmi-active tree_dom env JmiAction.proceed sid alice false offering sid proceeded_active

-- Two peers are ready: one engine is created.
initiate_all_one : engines_created (initiate_all tree_dom env room false two_peers alone).1.log ≡ 1
unfolding initiate_all registry lookup engines_created for_each maybe_initiate perform decide_act
    should_initiate emit_conference insert start_call register_member_session
    apply_conf_state_to_leg start_leg text_eq
initiate_all_one = refl

initiate_all_serial_example :
    engines_created (initiate_all tree_dom env room false two_peers alone).1.log
    ≤ engines_created alone.log + (if has_connecting_leg alone.calls room then 0 else 1)
initiate_all_serial_example = initiate_all_serial tree_dom env two_peers room false alone

conference_of_room :
    lookup room meshed.calls.conferences
    ≡ some (conference ((codes "room@muc.org/alice", member sid MemberCallState.active) ∷ []))
unfolding lookup registry text_eq
conference_of_room = refl

abbrev left : Calls Tree
left = (leave_group_call tree_dom env caps room meshed).1.calls

abbrev seen : World Tree
seen = (observe tree_dom env (some ready) room (codes "room@muc.org/alice") alice offering).1

observe_invites_example :
    (is_invited seen.calls room ≡ (
      if text_eq room room
      then any_participant seen.calls room
      else is_invited offering.calls room))
    × (seen.log
        ≡ offering.log
          ++ invite_effects
              (any_participant seen.calls room)
              (is_invited offering.calls room)
              room
              (codes "room@muc.org/alice"))
unfolding registry lookup
observe_invites_example =
    observe_invites tree_dom env (some ready) room (codes "room@muc.org/alice") alice room offering
      refl

abbrev hung_up : Calls Tree
hung_up = (hang_up tree_dom env alice sid offering).1.calls

proceed_once_example :
    (handle_jmi tree_dom env JmiAction.proceed sid mallory false proceeded).1 ≡ proceeded
proceed_once_example = proceed_once tree_dom env sid alice mallory false false offering

offered : lookup sid offering.calls.proposed ≡ some true
unfolding lookup registry text_eq
offered = refl

abbrev declined : World Tree
declined = (handle_jmi tree_dom env JmiAction.reject sid alice false offering).1

proceed_after_reject_example :
    Starts tree_dom env sid mallory true declined
      (handle_jmi tree_dom env JmiAction.proceed sid mallory false declined).1
proceed_after_reject_example =
    proceed_after_reject tree_dom env sid alice mallory false false true offering offered refl

caps_is_not_muji : text_eq (tree_dom.name caps) (codes "muji") ≡ false
unfolding text_eq
caps_is_not_muji = refl

-- The peer of an audio call offers video.
abbrev asking : World Tree
asking = record {
  calls = record registry {
    active = (sid, record (live none) { video = false; pending_video = caps ∷ [] }) ∷ [];
  };
  log = [];
  drawn = 0;
}

-- Contents whose description is a fixed text, and an engine that applies everything.
abbrev sdp_of : List Tree → Option Text
sdp_of contents = some (codes "v=0")

abbrev takes_all : Text → Text → Bool
takes_all s sdp = true

abbrev granted : World Tree
granted = (accept_video_upgrade tree_dom env sdp_of takes_all sid asking).1

abbrev granted_call : ActiveCall Tree
granted_call = record (live none) { remote_contents = caps ∷ [] }

granted_active : lookup sid granted.calls.active ≡ some granted_call
unfolding accept_video_upgrade apply_upgrade emit lookup insert registry text_eq bare split
granted_active = refl

accept_video_upgrade-video_example :
    (a : ActiveCall Tree) × (lookup sid asking.calls.active ≡ some a)
    × ((a.video ≡ true) ⊎ ((sid ≡ sid) × (is_empty a.pending_video ≡ false)))
accept_video_upgrade-video_example =
    accept_video_upgrade-video tree_dom env sdp_of takes_all sid sid asking granted_active refl
