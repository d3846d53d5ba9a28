-- ===== src/Calls/Quiet/Reach.antt =====
-- What reaches a quiet client, in any order: stanzas of anybody, and its user's refusals.
use monocles_chat_desktop.Base.{Text}
use monocles_chat_desktop.Calls.Presence.{observe_muji_presence}
use monocles_chat_desktop.Calls.Quiet.Jmi.{
  handle_message-IsQuiet, observe_muji_presence-IsQuiet, reject-IsQuiet,
}
use monocles_chat_desktop.Calls.Quiet.Session.{handle_iq-IsQuiet}
use monocles_chat_desktop.Calls.Quiet.{IsQuiet}
use monocles_chat_desktop.Calls.Session.{Negotiation, handle_iq}
use monocles_chat_desktop.Calls.Signalling.{handle_message, reject}
use monocles_chat_desktop.Calls.State.{Env, World}
use monocles_chat_desktop.Dom.{Dom}

-- One stanza, or one call that the user declines. Time, store, media engine and session keys may
-- change between the steps.
pub data Step (d : Dom) : World d.Element → World d.Element → Type 0 where
  message :
      {w : World d.Element} (env : Env) (e : d.Element) → Step d w (handle_message d env e w).1
  presence :
      {w : World d.Element} (env : Env) (e : d.Element)
      → Step d w (observe_muji_presence d env e w).1
  iq :
      {w : World d.Element} (env : Env) (n : Negotiation d.Element) (e : d.Element)
      → Step d w (handle_iq d env n e w).1
  declined :
      {w : World d.Element} (env : Env) (from sid : Text) → Step d w (reject d env from sid w).1

pub data Reach (d : Dom) (start : World d.Element) : World d.Element → Type 0 where
  here : Reach d start start
  next : {w w' : World d.Element} → Reach d start w → Step d w w' → Reach d start w'

module _ {d : Dom} where
  Step-IsQuiet : {w w' : World d.Element} → Step d w w' → IsQuiet w → IsQuiet w'
  Step-IsQuiet (message env e) q = handle_message-IsQuiet d env e q
  Step-IsQuiet (presence env e) q = observe_muji_presence-IsQuiet d env e q
  Step-IsQuiet (iq env n e) q = handle_iq-IsQuiet d env n e q
  Step-IsQuiet (declined env from sid) q = reject-IsQuiet d env from sid q

  -- While the user places and accepts no call and joins no group call, messages, Jingle IQs and
  -- presences of anybody, in whatever number and order, and the calls that the user declines
  -- leave the client quiet: no media engine was created, and no call is live.
  pub Reach-IsQuiet : {start w : World d.Element} → Reach d start w → IsQuiet start → IsQuiet w
  Reach-IsQuiet here q = q
  Reach-IsQuiet (next r s) q = Step-IsQuiet s (Reach-IsQuiet r q)
