-- ===== src/Calls/SessionTests.antt =====
-- Jingle IQs and the mesh on concrete sessions and rooms.
use monocles_chat_desktop.Base.{
  List, ◌+◌, ◌≡◌, refl, true, false, [], ◌∷◌, none, some, Text, codes, is_some, unwrap_or, lookup,
  text_eq, split, insert,
}
use monocles_chat_desktop.Calls.Admission.{handle_iq_admits, session_terminate_sender}
use monocles_chat_desktop.Calls.Created.{engines_created}
use monocles_chat_desktop.Calls.Live.{is_live}
use monocles_chat_desktop.Calls.Members.{
  update, set_camera, set_mute, has_connecting_leg, should_initiate, apply_conf_state_to_leg,
  register_member_session,
}
use monocles_chat_desktop.Calls.Mesh.{initiate_next_pending, next_peer, ready_peers}
use monocles_chat_desktop.Calls.Action.{JmiAction}
use monocles_chat_desktop.Calls.Phase.{Intent, phase, run, replay, run-replay}
use monocles_chat_desktop.Calls.Progress.{initiate_next_pending_progress}
use monocles_chat_desktop.Calls.Quiet.Reach.{Reach, Reach-IsQuiet, message, iq, here, next}
use monocles_chat_desktop.Calls.Quiet.{IsQuiet}
use monocles_chat_desktop.Calls.Session.{
  negotiate, Negotiation, handle_iq, handle_session, muji_room, participant_of, admit, admit_leg,
  session_initiate,
}
use monocles_chat_desktop.Calls.Stanzas.{ns_jingle, ns_jmi, ns_muji, ack}
use monocles_chat_desktop.Calls.State.{World, bare, registry}
use monocles_chat_desktop.Calls.Signalling.{handle_message, start_call}
use monocles_chat_desktop.Calls.Tests.{env, room, sid, alice, mallory, conference, peer, alone}
use monocles_chat_desktop.Dom.{Tree, Trees, tree_dom, attr, get_child}

-- Sessions that take every offer and verify nobody.
abbrev open_negotiation : Negotiation Tree
open_negotiation = record {
  contents_to_sdp = λ cs. some (codes "v=0");
  candidate_to_sdp = λ c. some (codes "1 1 UDP");
  decrypt = λ from cs. (cs, none);
  applies = λ sid offer sdp. true;
}

abbrev fresh : World Tree
fresh = record { calls = registry; log = []; drawn = 0 }

fresh-IsQuiet : IsQuiet fresh
unfolding registry engines_created
fresh-IsQuiet = record {
  no_calls = refl;
  no_proposals = refl;
  no_conferences = refl;
  no_engines = refl;
}

-- `<iq from=…><jingle action=… sid='s1'><muji room=…/></jingle></iq>`.
abbrev jingle_of : Text → Tree
jingle_of action =
    Tree.node (codes "jingle") ns_jingle ((codes "action", action) ∷ (codes "sid", sid) ∷ [])
      (Trees.cons (Tree.node (codes "muji") ns_muji ((codes "room", room) ∷ []) Trees.nil [])
        Trees.nil)
      []

abbrev iq_of : Text → Text → Tree
iq_of from action =
    Tree.node (codes "iq") (codes "jabber:client") ((codes "from", from) ∷ [])
      (Trees.cons (jingle_of action) Trees.nil) []

abbrev ringing : Tree
ringing =
    Tree.node (codes "message") (codes "jabber:client") ((codes "from", mallory) ∷ [])
      (Trees.cons (Tree.node (codes "proceed") ns_jmi ((codes "id", sid) ∷ []) Trees.nil [])
        Trees.nil)
      []

abbrev pestered : World Tree
pestered =
    (handle_iq tree_dom env open_negotiation (iq_of mallory (codes "session-initiate"))
      (handle_message tree_dom env ringing fresh).1).1

pestering : Reach tree_dom fresh pestered
pestering =
    next (next here (message env ringing))
      (iq env open_negotiation (iq_of mallory (codes "session-initiate")))

Reach-IsQuiet_example : IsQuiet pestered
Reach-IsQuiet_example = Reach-IsQuiet pestering fresh-IsQuiet

-- Alice takes part in the room's call.
abbrev met : World Tree
met = record alone {
  calls = record alone.calls {
    muji_seen = (room, (codes "room@muc.org/abe", peer alice) ∷ []) ∷ [];
  };
}

abbrev begun : World Tree
begun = (handle_iq tree_dom env open_negotiation (iq_of alice (codes "session-initiate")) met).1

begun_live : is_live sid begun ≡ true
unfolding handle_iq lookup get_child attr handle_session session_initiate muji_room admit ack
    registry admit_leg participant_of split negotiate start_call apply_conf_state_to_leg
    register_member_session insert text_eq update set_camera set_mute bare
begun_live = refl

idle : is_live sid met ≡ false
unfolding registry lookup
idle = refl

handle_iq_admits_example :
    (jingle : Tree) × (r : Text) × (get_child tree_dom
        (codes "jingle")
        ns_jingle
        (iq_of alice (codes "session-initiate"))
      ≡ some jingle)
    × (attr tree_dom (codes "sid") jingle ≡ some sid)
    × (unwrap_or (attr tree_dom (codes "action") jingle) [] ≡ codes "session-initiate")
    × (muji_room tree_dom env open_negotiation jingle ≡ some r)
    × (is_some (lookup r met.calls.conferences) ≡ true)
    × (is_some (
          participant_of met.calls r
            (unwrap_or (attr tree_dom (codes "from") (iq_of alice (codes "session-initiate"))) []))
        ≡ true)
handle_iq_admits_example =
    handle_iq_admits tree_dom env open_negotiation sid (iq_of alice (codes "session-initiate")) met
      idle begun_live

session_terminate_sender_example :
    (is_live sid
        (handle_session tree_dom env open_negotiation
          (codes "session-terminate")
          sid
          mallory
          (jingle_of (codes "session-terminate"))
          begun).1
      ≡ false)
    × ((handle_session tree_dom env open_negotiation
          (codes "session-terminate")
          sid
          mallory
          (jingle_of (codes "session-terminate"))
          begun).1.calls
        ≡ (handle_session tree_dom env open_negotiation
            (codes "session-terminate")
            sid
            alice
            (jingle_of (codes "session-terminate"))
            begun).1.calls)
session_terminate_sender_example =
    session_terminate_sender tree_dom env open_negotiation sid mallory alice
      (jingle_of (codes "session-terminate")) begun

joined : lookup room met.calls.conferences ≡ some (conference [])
unfolding registry lookup text_eq
joined = refl

free : has_connecting_leg met.calls room ≡ false
unfolding registry has_connecting_leg lookup text_eq
free = refl

pending : is_some (next_peer met.calls room (conference [])) ≡ true
unfolding registry ready_peers lookup should_initiate text_eq
pending = refl

initiate_next_pending_progress_example :
    let w' = (initiate_next_pending tree_dom env room false met).1 in
    (engines_created w'.log ≡ engines_created met.log + 1)
    × (has_connecting_leg w'.calls room ≡ true)
initiate_next_pending_progress_example =
    initiate_next_pending_progress tree_dom env room false met (conference []) joined free pending
      refl

-- Eve is in the room and not in its call, and is taken for abe.
participant_of_eve :
    participant_of met.calls room (codes "room@muc.org/eve")
    ≡ some (codes "room@muc.org/abe", peer alice)
unfolding lookup text_eq bare split registry participant_of
participant_of_eve = refl

-- Alice answers a call that we never offered, and then calls.
abbrev messages : List Intent
messages =
    record { env = env; action = JmiAction.proceed; sid = sid; from = alice; video = false }
    ∷ record { env = env; action = JmiAction.propose; sid = sid; from = alice; video = true }
    ∷ []

run-replay_example : phase sid (run tree_dom messages fresh) ≡ replay sid messages (phase sid fresh)
run-replay_example = run-replay tree_dom sid messages fresh
