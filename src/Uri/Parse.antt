-- ===== src/Uri/Parse.antt =====
-- `parse` and `finish`.
use monocles_chat_desktop.Base.{
  ℕ, ◌≡◌, refl, not, ◌||◌, List, [], ◌∷◌, ◌++◌, Option, none, some, leb, if◌then◌else◌, Text, codes,
  text_eq, length, any, keep, is_empty, trim, split, split_once, contains, to_ascii_lowercase,
  lower, strip_prefix, starts_with, unwrap_or, Outcome, returned, ◌>>=◌, cons_first, drop,
}
use monocles_chat_desktop.Uri.Decimal.{pos, parse_i64}
use monocles_chat_desktop.Uri.Fingerprint.{
  FingerprintKind, omemo, omemo_pq, UriFingerprint, ParsedUri, omemo_param, omemo_pq_param,
  normalize_fingerprint,
}
use monocles_chat_desktop.Uri.Percent.{percent_decode}

abbrev pub max_uri_fingerprints : ℕ
max_uri_fingerprints = 64

-- The variables of the loop of `finish`.
pub record Scan : Type 0 where
  pub seen : List Text
  pub fingerprints : List UriFingerprint

-- `continue`, or the end of a round, against `break`.
pub data Control : Type 0 where
  next : Scan → Control
  stop : Scan → Control

-- The stack that a parameter names, and what follows the name.
unfoldable pub key_kind : Text → Option (FingerprintKind × Text)
unfolding strip_prefix
key_kind key = elim (strip_prefix omemo_pq_param key) [
  | some id ↦ some (omemo_pq, id)
  | none ↦ elim (strip_prefix omemo_param key) [ some id ↦ some (omemo, id) | none ↦ none ]
]

unfoldable pub scan_value : Scan → FingerprintKind → ℕ → Text → Control
scan_value s kind id value = elim (normalize_fingerprint value) [
  | none ↦ next s
  | some hex ↦
      let fps = s.fingerprints ++ record { kind = kind; device_id = pos id; hex = hex } ∷ [] in
      let s' = record s { fingerprints = fps } in
      if leb max_uri_fingerprints (length fps) then stop s' else next s'
]

unfoldable pub scan_key : Scan → Text → Text → Outcome Control
unfolding key_kind scan_value
scan_key s key value = elim (key_kind key) [
  | none ↦ returned (next s)
  | some (kind, suffix) ↦ elim (parse_i64 suffix) [
    | some (pos id) ↦ percent_decode value >>= λ v. returned (scan_value s kind id v)
    | _ ↦ returned (next s)
  ]
]

-- One round of the loop.
unfoldable pub scan_pair : Scan → Text → Outcome Control
unfolding scan_key
scan_pair s pair = elim (split_once b'=' pair) [
  | none ↦ returned (next s)
  | some (k, value) ↦ percent_decode k >>= λ decoded.
      (let key = to_ascii_lowercase decoded in
        if any (text_eq key) s.seen
        then returned (next s)
        else scan_key (record s { seen = s.seen ++ key ∷ [] }) key value)
]

unfoldable pub scan : Scan → List Text → Outcome (List UriFingerprint)
unfolding scan_pair
scan s [] = returned s.fingerprints
scan s (pair ∷ pairs) =
    scan_pair s pair >>= elim [ next s' ↦ scan s' pairs | stop s' ↦ returned s'.fingerprints ]

unfoldable pub finish : Text → Option Text → ℕ → Outcome (Option ParsedUri)
unfolding scan
finish jid_part query separator = percent_decode jid_part >>= λ decoded.
    (let jid = trim decoded in
      if is_empty jid || not (contains b'@' jid)
      then returned none
      else scan (record { seen = []; fingerprints = [] }) (split separator (unwrap_or query []))
        >>= λ fps. returned (some (record { jid = jid; fingerprints = fps })))

-- `split_once` at a text.
unfoldable pub split_once_text : Text → Text → Option (Text × Text)
split_once_text p [] = elim (strip_prefix p []) [ some rest ↦ some ([], rest) | none ↦ none ]
split_once_text p (c ∷ cs) = elim (strip_prefix p (c ∷ cs)) [
  | some rest ↦ some ([], rest)
  | none ↦ cons_first c (split_once_text p cs)
]

-- The segments behind `i`.
unfoldable pub finish_invite : List Text → Option Text → Outcome (Option ParsedUri)
unfolding finish
finish_invite [] query = returned none
finish_invite (first ∷ []) query = finish first query b'&'
finish_invite (first ∷ domain ∷ _) query =
    if not (contains b'@' first)
    then finish (first ++ b'@' ∷ domain) query b'&'
    else finish first query b'&'

unfoldable pub parse_segments : List Text → Option Text → Outcome (Option ParsedUri)
unfolding finish_invite
parse_segments [] query = returned none
parse_segments (s ∷ segments) query =
    if not (text_eq s (codes "i")) then returned none else finish_invite segments query

-- The path of an invite link, split at `?` first.
unfoldable pub parse_path : Text → Outcome (Option ParsedUri)
unfolding parse_segments
parse_path path = elim (split_once b'?' path) [
  | some (p, q) ↦ parse_segments (keep (λ s. not (is_empty s)) (split b'/' p)) (some q)
  | none ↦ parse_segments (keep (λ s. not (is_empty s)) (split b'/' path)) none
]

unfoldable pub parse_invite : Text → Outcome (Option ParsedUri)
unfolding parse_path split_once_text
parse_invite input = elim (split_once_text (codes "//") input) [
  | none ↦ returned none
  | some (_, after_scheme) ↦ elim (split_once b'/' after_scheme) [
    | none ↦ returned none
    | some (_, path) ↦ parse_path path
  ]
]

-- `xmpp:` is five ASCII characters, so the slice of the source drops five of them.
unfoldable pub parse_xmpp : Text → Outcome (Option ParsedUri)
unfolding finish
parse_xmpp rest = elim (split_once b'?' rest) [
  | some (jid, query) ↦ finish jid (some query) b';'
  | none ↦ finish rest none b';'
]

unfoldable pub parse_trimmed : Text → Outcome (Option ParsedUri)
unfolding parse_xmpp parse_invite
parse_trimmed input =
    if starts_with (codes "xmpp:") (to_ascii_lowercase input)
    then parse_xmpp (drop 5 input)
    else if starts_with (codes "https://") (to_ascii_lowercase input)
        || starts_with (codes "http://") (to_ascii_lowercase input)
    then parse_invite input
    else returned none

unfoldable pub parse : Text → Outcome (Option ParsedUri)
unfolding parse_trimmed
parse input = parse_trimmed (trim input)

pub parse_trimmed-xmpp : (s : Text) → parse_trimmed (codes "xmpp:" ++ s) ≡ parse_xmpp s
unfolding parse_trimmed lower strip_prefix
parse_trimmed-xmpp s = refl
