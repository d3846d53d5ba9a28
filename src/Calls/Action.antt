-- ===== src/Calls/Action.antt =====
-- The actions of Jingle Message Initiation.
use monocles_chat_desktop.Base.{
  Bool, true, false, Option, none, some, Text, codes, text_eq, if◌then◌else◌,
}

-- The actions that `handle_message` looks for.
pub data JmiAction : Type 0 where
  propose proceed reject retract accept finish : JmiAction

unfoldable pub jmi_action : Text → Option JmiAction
unfolding text_eq
jmi_action s =
    if text_eq s (codes "propose")
    then some JmiAction.propose
    else if text_eq s (codes "proceed")
    then some JmiAction.proceed
    else if text_eq s (codes "reject")
    then some JmiAction.reject
    else if text_eq s (codes "retract")
    then some JmiAction.retract
    else if text_eq s (codes "accept")
    then some JmiAction.accept
    else if text_eq s (codes "finish")
    then some JmiAction.finish
    else none

-- `accept` and `reject` from our own account.
abbrev pub is_answer : JmiAction → Bool
is_answer JmiAction.accept = true
is_answer JmiAction.reject = true
is_answer _ = false
