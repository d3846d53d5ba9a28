-- ===== src/Messaging/Tests.antt =====
-- The helpers of messaging.rs on concrete messages.
use monocles_chat_desktop.Base.{
  ℕ, any, false, ◌+◌, ◌*◌, ◌<◌, ◌≡◌, ◌≢◌, refl, eq_ignore_case, true, not, List, [], ◌∷◌, Option,
  none, some, Text, codes, returned, panicked, keep, map_or, trim, is_empty, length, is_whitespace,
  lookup, lower, text_eq, split, arith, if◌then◌else◌, strip_prefix,
}
use monocles_chat_desktop.Calls.State.{bare}
use monocles_chat_desktop.Dom.{Tree, Trees, tree_dom, tree_laws, attr}
use monocles_chat_desktop.Messaging.Binding.{
  Clock, accepted, check_sce_binding, sce_time_reference, strip_server_processed, forbidden,
  ns_delay,
}
use monocles_chat_desktop.Messaging.Cut.{uncovered, strip_fallback_spans-uncovered}
use monocles_chat_desktop.Messaging.Fallback.{Span, collect, strip_fallback_spans, ns_fallback}
use monocles_chat_desktop.Messaging.Files.{
  Json, build_multi_file_body, build_multi_file_payloads, append_urls, ns_oob, ns_sfs,
}
use monocles_chat_desktop.Messaging.RoundTrip.{strip_fallback_spans-build}
use monocles_chat_desktop.Messaging.Mention.{
  mentions_nick, occurs, mentions_nick-occurs, mentions_nick-first_verdict, first_verdict,
}
use monocles_chat_desktop.Messaging.Replay.{Near, reference, IsExpected, check_sce_binding-replay}
use monocles_chat_desktop.Sce.Binding.{Same}
use monocles_chat_desktop.Messaging.Open.{Direction, open_envelope, open_envelope-safe}
use monocles_chat_desktop.Sce.Envelope.{Escaping, Envelope}
use monocles_chat_desktop.Sce.Reader.{Attribute, XmlEvent, from_xml}

abbrev oob : Text
oob = codes "jabber:x:oob"

-- `<fallback for=… ><body start=… end=…/></fallback>`.
abbrev fallback : Text → Text → Text → Tree
fallback for_ns start end =
    Tree.node (codes "fallback") ns_fallback ((codes "for", for_ns) ∷ [])
      (Trees.cons
        (Tree.node (codes "body") ns_fallback ((codes "start", start) ∷ (codes "end", end) ∷ [])
          Trees.nil [])
        Trees.nil)
      []

-- Two overlapping spans, and one of another namespace.
abbrev content : Tree
content =
    Tree.node (codes "message") (codes "jabber:client") []
      (Trees.cons (fallback oob (codes "6") (codes "9")) (
        Trees.cons (fallback oob (codes "4") (codes "7"))
          (Trees.cons (fallback (codes "other") (codes "0") (codes "2")) Trees.nil)))
      []

abbrev caption : Text
caption = codes "hey abcdez"

abbrev marks : List Span
marks = (6, 9) ∷ (4, 7) ∷ []

collected : collect tree_dom (oob ∷ []) (length caption) (tree_dom.children content) ≡ some marks
unfolding collect lookup
collected = refl

stripped : uncovered marks 0 caption ≡ codes "hey z"
stripped = refl

strip_fallback_spans-uncovered_example :
    strip_fallback_spans tree_dom content caption (oob ∷ [])
    ≡ returned (if is_empty marks then caption else trim (uncovered marks 0 caption))
strip_fallback_spans-uncovered_example =
    strip_fallback_spans-uncovered tree_dom content caption (oob ∷ []) marks collected

named : occurs (codes "ann") none (codes "annie, ann!") ≡ true
unfolding strip_prefix is_whitespace
named = refl

mentions_nick-occurs_example :
    mentions_nick (codes "annie, ann!") (codes "ann")
    ≡ returned (occurs (codes "ann") none (codes "annie, ann!"))
mentions_nick-occurs_example =
    mentions_nick-occurs (codes "annie, ann!") b'a' (codes "nn") (omega arith)

-- The nick is the letter U+00E9, inside of a word and then on its own.
mentions_nick-first_verdict_example :
    mentions_nick (b'x' ∷ 233 ∷ 32 ∷ 233 ∷ []) (233 ∷ [])
    ≡ first_verdict (233 ∷ []) none (b'x' ∷ 233 ∷ 32 ∷ 233 ∷ [])
mentions_nick-first_verdict_example =
    mentions_nick-first_verdict (b'x' ∷ 233 ∷ 32 ∷ 233 ∷ []) 233 [] (omega arith)

-- It is a panic.
first_verdict_panics : first_verdict (233 ∷ []) none (b'x' ∷ 233 ∷ 32 ∷ 233 ∷ []) ≡ panicked
unfolding is_whitespace strip_prefix
first_verdict_panics = refl

-- Stamps of one letter, which stand for seconds.
abbrev seconds_of : Text → Option ℕ
seconds_of [] = none
seconds_of (c ∷ cs) = some (c * 1000000000)

abbrev clock : Clock
clock = record { parse = seconds_of; now = 1000000 * 1000000000; rfc3339_now = 1000000 ∷ [] }

abbrev envelope : Text → Envelope
envelope stamp = record {
  content_inner = [];
  from = codes "Alice@x";
  to = codes "bob@y";
  time = some stamp;
}

fresh_accepted :
    check_sce_binding clock (envelope (999999 ∷ [])) (codes "alice@x") (some (codes "bob@y")) none
    ≡ accepted
unfolding check_sce_binding
fresh_accepted = refl

-- An old envelope, sent again with a delay of the sender's that fits it.
abbrev replay : Tree
replay =
    Tree.node (codes "message") (codes "jabber:client") ((codes "from", codes "alice@x/phone") ∷ [])
      (Trees.cons
        (Tree.node (codes "delay") ns_delay
          ((codes "from", codes "alice@x") ∷ (codes "stamp", 1000 ∷ []) ∷ []) Trees.nil [])
        Trees.nil)
      []

check_sce_binding-replay_example :
    check_sce_binding clock
      (envelope (1000 ∷ []))
      (codes "alice@x")
      (some (codes "bob@y"))
      (some (sce_time_reference tree_dom clock replay true (1000 ∷ [])))
    ≢ accepted
unfolding attr lookup text_eq eq_ignore_case lower bare split
check_sce_binding-replay_example =
    check_sce_binding-replay tree_dom clock (envelope (1000 ∷ [])) replay (codes "alice@x/phone")
      (codes "alice@x") (1000 ∷ []) (some (codes "bob@y")) (1000 * 1000000000)
      (1000000 * 1000000000) refl refl refl refl refl (omega arith)

abbrev smuggled : Tree
smuggled =
    Tree.node (codes "content") (codes "jabber:client") []
      (Trees.cons (Tree.node (codes "body") (codes "jabber:client") [] Trees.nil (codes "hi")) (
        Trees.cons (Tree.node (codes "stanza-id") (codes "urn:xmpp:sid:0") [] Trees.nil [])
          Trees.nil))
      []

-- A file is known by its URL.
abbrev urls_only : Json
urls_only = record {
  Value = Text;
  as_str = λ key url. if text_eq key (codes "url") then some url else none;
  as_i64 = λ key url. none;
}

abbrev shared : List Text
shared = codes "https://a/1.png" ∷ codes "https://a/2.png" ∷ []

abbrev sent_body : Text × List Span
sent_body = build_multi_file_body (some (codes "hi")) shared

abbrev body_element : Tree
body_element = Tree.node (codes "body") (codes "jabber:client") [] Trees.nil []

abbrev payloads : List Tree
payloads =
    body_element ∷ build_multi_file_payloads tree_dom urls_only shared sent_body.1 (codes "id")

abbrev sent_content : Tree
sent_content = tree_dom.build (codes "content") (codes "jabber:client") [] payloads []

strip_fallback_spans-build_example :
    strip_fallback_spans tree_dom sent_content sent_body.0 (ns_oob ∷ ns_sfs ∷ [])
    ≡ returned (trim (codes "hi"))
unfolding text_eq build_multi_file_body append_urls
strip_fallback_spans-build_example =
    strip_fallback_spans-build tree_dom tree_laws urls_only (some (codes "hi"))
      (codes "https://a/1.png") (codes "https://a/2.png" ∷ []) shared (codes "id") sent_content
      body_element
      (tree_laws.children-build (codes "content") (codes "jabber:client") [] payloads []) refl
      (omega arith)

-- An envelope with an empty content, and a parser that answers with the smuggling content.
abbrev identity : Escaping
identity = record { escape = λ s. s; unescape = λ s. some s }

abbrev value : Text → Text → Attribute
value key v = record { key = key; raw = v; normalized = some v }

abbrev opened_events : List XmlEvent
opened_events =
    XmlEvent.start (codes "envelope") []
    ∷ XmlEvent.empty (codes "content") []
    ∷ XmlEvent.empty (codes "time") (value (codes "stamp") (999999 ∷ []) ∷ [])
    ∷ XmlEvent.empty (codes "to") (value (codes "jid") (codes "bob@y") ∷ [])
    ∷ XmlEvent.empty (codes "from") (value (codes "jid") (codes "alice@x") ∷ [])
    ∷ XmlEvent.finish (codes "envelope")
    ∷ []

abbrev opened : Option Tree
opened =
    open_envelope tree_dom identity clock (λ s. some smuggled) replay true (1000 ∷ [])
      (codes "alice@x") (some (codes "bob@y")) opened_events

opened-some : opened ≡ some (strip_server_processed tree_dom smuggled)
unfolding open_envelope from_xml check_sce_binding sce_time_reference split
opened-some = refl

open_envelope-safe_example :
    (env : Envelope) × (raw : Tree) × (from_xml identity opened_events ≡ some env)
    × (Same env.from (codes "alice@x"))
    × (IsExpected (some (codes "bob@y")) env.to)
    × ((t : ℕ) × (map_or env.time none clock.parse ≡ some t)
        × (t < clock.now + 604801000000000)
        × Near t
            (reference clock (some (sce_time_reference tree_dom clock replay true (1000 ∷ [])))))
    × (some smuggled ≡ some raw)
    × (tree_dom.children (strip_server_processed tree_dom smuggled)
        ≡ keep (λ c. not (forbidden tree_dom c)) (tree_dom.children raw))
    × (any (forbidden tree_dom) (tree_dom.children (strip_server_processed tree_dom smuggled))
        ≡ false)
unfolding text_eq
open_envelope-safe_example =
    open_envelope-safe tree_dom identity clock (λ s. some smuggled) tree_laws replay true
      (1000 ∷ []) (codes "alice@x") (codes "chat") (codes "alice@x") (codes "bob@y")
      Direction.inward opened_events opened-some
