-- ===== src/Messaging/Binding.antt =====
-- `check_sce_binding`, `sce_time_reference`, `strip_server_processed`, `direction_of` and
-- `delay_stamp`: what of an encrypted message is taken for true.
use monocles_chat_desktop.Base.{
  ℕ, ◌+◌, ◌-◌, ◌*◌, ◌/◌, Bool, false, not, ◌&&◌, ◌||◌, List, [], ◌∷◌, Option, none, some, Text,
  codes, if◌then◌else◌, any, keep, ltb, text_eq, eq_ignore_case, to_ascii_lowercase, map_or,
  unwrap_or,
}
use monocles_chat_desktop.Calls.State.{bare}
use monocles_chat_desktop.Dom.{Dom, attr}
use monocles_chat_desktop.Sce.Envelope.{Envelope}

-- The time: an instant is the number of nanoseconds since the first that a stamp can name. What
-- is not in the repository is how a stamp is read, and what the clock says, as an instant and as
-- the stamp of `rfc3339_now`.
pub record Clock : Type 0 where
  pub parse : Text → Option ℕ
  pub now : ℕ
  pub rfc3339_now : Text

-- The result, with the reasons in place of their texts.
pub data Verdict : Type 0 where
  accepted wrong_sender wrong_recipient no_time unparseable_time from_future replayed : Verdict

-- `(a - b).num_seconds()`, where that is not negative, and 0 otherwise.
abbrev pub seconds : ℕ → ℕ → ℕ
seconds a b = (a - b) / 1000000000

-- Seven days.
abbrev pub max_skew : ℕ
max_skew = 7 * 24 * 60 * 60

abbrev pub check_time : Clock → ℕ → Option Text → Verdict
check_time clock t stanza_ts =
    if ltb max_skew (seconds t clock.now)
    then from_future
    else (let reference = unwrap_or (map_or stanza_ts none clock.parse) clock.now in
        if ltb max_skew (seconds t reference + seconds reference t) then replayed else accepted)

abbrev pub check_stamp : Clock → Option Text → Option Text → Verdict
check_stamp clock none stanza_ts = no_time
check_stamp clock (some stamp) stanza_ts =
    map_or (clock.parse stamp) unparseable_time (λ t. check_time clock t stanza_ts)

unfoldable pub check_sce_binding : Clock → Envelope → Text → Option Text → Option Text → Verdict
unfolding eq_ignore_case
check_sce_binding clock env sender_bare expected_to stanza_ts =
    if not (eq_ignore_case env.from sender_bare)
    then wrong_sender
    else if map_or expected_to false (λ exp. not (eq_ignore_case env.to exp))
    then wrong_recipient
    else check_stamp clock env.time stanza_ts

abbrev pub ns_delay : Text
ns_delay = codes "urn:xmpp:delay"

abbrev pub ns_sid : Text
ns_sid = codes "urn:xmpp:sid:0"

-- The bare JID in lower case.
abbrev pub lower_bare : Text → Text
lower_bare jid = to_ascii_lowercase (bare jid)

module _ (d : Dom) where
  open d use {Element, build, name, ns, children}

  -- The stamp of a `<delay/>` that an intermediary set.
  unfoldable pub foreign_stamp : Option Text → Element → Option Text
  unfolding attr text_eq bare
  foreign_stamp sender e =
      if text_eq (name e) (codes "delay") && text_eq (ns e) ns_delay
      then map_or (attr d (codes "stamp") e) none (λ stamp.
        map_or (attr d (codes "from") e) none (λ f.
          if map_or sender false (λ s. text_eq (lower_bare f) (lower_bare s))
          then none
          else some stamp))
      else none

  -- The loop over the children.
  unfoldable pub first_stamp : Option Text → List Element → Text → Text
  unfolding foreign_stamp
  first_stamp sender [] default = default
  first_stamp sender (e ∷ es) default =
      let rest = first_stamp sender es default in unwrap_or (foreign_stamp sender e) rest

  abbrev pub is_groupchat : Element → Bool
  is_groupchat msg = map_or (attr d (codes "type") msg) false (λ t. text_eq t (codes "groupchat"))

  unfoldable pub sce_time_reference : Clock → Element → Bool → Text → Text
  unfolding first_stamp attr text_eq
  sce_time_reference clock msg live stored_ts =
      if not live || is_groupchat msg
      then stored_ts
      else first_stamp (attr d (codes "from") msg) (children msg) clock.rfc3339_now

  -- An element that the server must be able to read.
  unfoldable pub forbidden : Element → Bool
  unfolding text_eq
  forbidden e =
      text_eq (ns e) (codes "urn:xmpp:hints")
      || text_eq (ns e) ns_sid
        && (text_eq (name e) (codes "stanza-id") || text_eq (name e) (codes "origin-id"))
      || text_eq (ns e) (codes "http://jabber.org/protocol/address")
      || text_eq (ns e) (codes "urn:xmpp:eme:0") && text_eq (name e) (codes "encryption")

  unfoldable pub strip_server_processed : Element → Element
  unfolding forbidden
  strip_server_processed content =
      if not (any forbidden (children content))
      then content
      else build (name content) (ns content) [] (keep (λ c. not (forbidden c)) (children content))
          []
