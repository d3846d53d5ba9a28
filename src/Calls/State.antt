-- ===== src/Calls/State.antt =====
-- The registry `Calls`, the effects of its handlers, and the monad in which they run.
use monocles_chat_desktop.Base.{
  ℕ, ◌+◌, Bool, true, false, List, [], ◌∷◌, ◌++◌, Option, none, some, Text, Map, codes, lookup,
  insert, remove, split, if◌then◌else◌,
}

pub data MemberCallState : Type 0 where
  connecting active ended : MemberCallState

-- `MemberCallState::as_str`.
abbrev pub as_str : MemberCallState → Text
as_str connecting = codes "connecting"
as_str active = codes "active"
as_str ended = codes "ended"

pub data MujiState : Type 0 where
  preparing ready : MujiState

-- A live media call. The engine itself is an object of the media library: what is done to it is
-- among the effects, under the session id.
pub record ActiveCall (E : Type 0) : Type 0 where
  pub peer_full : Text
  pub remote_contents : List E
  pub video : Bool
  pub pending_video : List E
  pub peer_used_omemo : Bool
  pub room : Option Text

pub record Member : Type 0 where
  pub occupant_jid : Text
  pub real_jid : Text
  pub sid : Option Text
  pub state : MemberCallState
  -- The instant, in milliseconds.
  pub connecting_since : ℕ

pub record MujiPeer : Type 0 where
  pub state : MujiState
  pub real_jid : Text

pub record Conference : Type 0 where
  pub nick : Text
  pub our_occupant : Text
  pub video : Bool
  pub muted : Bool
  pub camera_enabled : Bool
  -- Whether a screen share is kept alive.
  pub screen : Bool
  pub members : Map Member

pub record CallMeta : Type 0 where
  pub peer : Text
  pub outgoing : Bool
  pub video : Bool
  pub answered : Bool
  pub ts : Text

pub record Calls (E : Type 0) : Type 0 where
  pub active : Map (ActiveCall E)
  pub proposed : Map Bool
  pub incoming : Map (Text × Bool)
  pub meta : Map CallMeta
  pub conferences : Map Conference
  pub muji_seen : Map (Map MujiPeer)
  pub invited : List Text

unfoldable pub registry : {E : Type 0} → Calls E
registry = record {
  active = [];
  proposed = [];
  incoming = [];
  meta = [];
  conferences = [];
  muji_seen = [];
  invited = [];
}

-- `CallState` of event.rs.
pub data CallState : Type 0 where
  incoming outgoing connecting active : CallState
  ended : Text → CallState

pub record ConfParticipant : Type 0 where
  pub jid : Text
  pub name : Text
  pub state : Text
  pub sid : Text

-- The events of event.rs that the handlers send, without the account's id.
pub data Event : Type 0 where
  call_update : Text → Text → Bool → CallState → Event
  call_video_upgrade_request : Text → Text → Event
  call_verified : Text → Text → ℕ → ℕ → Event
  conference_update : Text → Bool → Bool → List ConfParticipant → Event
  conference_invite : Text → Text → Event
  conference_invite_cancelled : Text → Event

pub data Role : Type 0 where
  caller callee : Role

-- What is done to the media engine of a session. The flag of `created` is that of a group leg.
pub data EngineOp : Type 0 where
  created : Role → Bool → Bool → EngineOp
  set_mic_muted set_video_enabled : Bool → EngineOp
  apply_video_offer : Text → EngineOp
  upgrade hang_up_engine : EngineOp
  -- The flag is that of an offer.
  set_remote_description : Bool → Text → EngineOp
  add_remote_ice : Text → EngineOp

-- A row of the call history.
pub record CallLog : Type 0 where
  pub peer : Text
  pub direction : Text
  pub video : Bool
  pub answered : Bool
  pub timestamp : Text

pub data Effect (E : Type 0) : Type 0 where
  sent : E → Effect E
  emitted : Event → Effect E
  engine : Text → EngineOp → Effect E
  logged : CallLog → Effect E

-- The registry and what was done so far.
pub record World (E : Type 0) : Type 0 where
  pub calls : Calls E
  pub log : List (Effect E)
  -- How many fresh ids were drawn.
  pub drawn : ℕ

-- What the handlers read and do not own: the account's bare JID, whether the writer still takes
-- stanzas, the time in its two forms, the source of fresh ids, and whether the media library can
-- create an engine for a session.
pub record Env : Type 0 where
  pub own : Text
  pub writer_open : Bool
  pub now : Text
  pub clock : ℕ
  -- `new_id`: a fresh id with this prefix, by the number of ids drawn so far.
  pub new_id : Text → ℕ → Text
  pub engine_starts : Text → Bool
  -- What the store says of a room: whether it is private, and our nick there.
  pub room_capable : Text → Bool
  pub room_nick : Text → Option Text
  pub own_device : Option ℕ

abbrev pub M : Type 0 → Type 0 → Type 0
M E A = World E → A × World E

infixl 5 ◌>>=◌ ◌>>◌
abbrev pub ◌>>=◌ : {E A B : Type 0} → M E A → (A → M E B) → M E B
◌>>=◌ m f w = let (a, w') = m w in f a w'

abbrev pub ◌>>◌ : {E A B : Type 0} → M E A → M E B → M E B
◌>>◌ m k w = let (a, w') = m w in k w'

abbrev pub done : {E A : Type 0} → A → M E A
done a w = (a, w)

abbrev pub gets : {E A : Type 0} → (Calls E → A) → M E A
gets f w = (f w.calls, w)

abbrev pub modify : {E : Type 0} → (Calls E → Calls E) → M E (Unit {0})
modify f w = (tt, record w { calls = f w.calls })

abbrev pub effect : {E : Type 0} → Effect E → M E (Unit {0})
effect e w = (tt, record w { log = w.log ++ e ∷ [] })

-- `Writer::send`: whether the stanza was taken.
abbrev pub send : {E : Type 0} → Env → E → M E Bool
send env e w =
    if env.writer_open then (true, record w { log = w.log ++ sent e ∷ [] }) else (false, w)

abbrev pub next_id : {E : Type 0} → Env → Text → M E Text
next_id env prefix w = (env.new_id prefix w.drawn, record w { drawn = w.drawn + 1 })

-- A loop over a collection.
unfoldable pub for_each : {E A : Type 0} → List A → (A → M E (Unit {0})) → M E (Unit {0})
for_each [] f = done tt
for_each (a ∷ xs) f = do f a; for_each xs f

-- `a?; b`.
abbrev pub and_then : {E : Type 0} → M E Bool → M E Bool → M E Bool
and_then m k = m >>= λ b. if b then k else done false

abbrev pub skip : {E : Type 0} → M E (Unit {0})
skip = done tt

abbrev head_or : Text → List Text → Text
head_or t [] = t
head_or t (s ∷ _) = s

-- `bare`: what stands before the first slash.
unfoldable pub bare : Text → Text
bare jid = head_or jid (split b'/' jid)

unfoldable pub mark_answered : {E : Type 0} → Text → M E (Unit {0})
mark_answered sid = modify λ c. elim (lookup sid c.meta) [
  | none ↦ c
  | some m ↦ record c { meta = insert sid (record m { answered = true }) c.meta }
]

-- `log_call_end`: the row is written from the metadata, which goes with it.
unfoldable pub log_call_end : {E : Type 0} → Text → M E (Unit {0})
log_call_end sid = do
  meta ← gets (λ c. lookup sid c.meta)
  modify (λ c. record c { meta = remove sid c.meta })
  elim meta [
    | none ↦ skip
    | some m ↦ effect (
        logged (record {
          peer = m.peer;
          direction = if m.outgoing then codes "out" else codes "in";
          video = m.video;
          answered = m.answered;
          timestamp = m.ts;
        }))
  ]

-- `terminate_local`: tear down the engine of `sid`, if there is one.
unfoldable pub terminate_local : {E : Type 0} → Text → M E (Unit {0})
terminate_local sid = do
  call ← gets (λ c. lookup sid c.active)
  modify (λ c. record c { active = remove sid c.active })
  elim call [ none ↦ skip | some _ ↦ effect (engine sid hang_up_engine) ]

unfoldable pub emit : {E : Type 0} → Text → Text → Bool → CallState → M E (Unit {0})
emit sid peer video state = effect (emitted (call_update sid peer video state))
