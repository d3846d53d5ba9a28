-- ===== src/Uri/Safety.antt =====
-- `parse` returns on every ASCII text.
use monocles_chat_desktop.Base.{
  ℕ, ◌≡◌, refl, true, List, [], ◌∷◌, ◌++◌, Option, none, some, Text, all, all-append, All, contains,
  trim, Outcome, returned, panicked, Option-cases, inl, inr, Returns, Returns-bind, Returns-if,
  if◌then◌else◌, ◌||◌, split_once, split, trim_start, drop, unwrap_or, to_ascii_lowercase, codes,
  text_eq, contains, not, starts_with,
}
use monocles_chat_desktop.Uri.Decimal.{pos, negsuc, parse_i64}
use monocles_chat_desktop.Uri.Percent.{percent_decode}
use monocles_chat_desktop.Uri.Utf8.{is_ascii}
use monocles_chat_desktop.Uri.Fingerprint.{ParsedUri}
use monocles_chat_desktop.Uri.Parse.{
  Scan, next, stop, key_kind, scan_key, scan_pair, scan, finish, finish_invite, parse_segments,
  parse_path, parse_invite, parse_xmpp, parse_trimmed, parse, split_once_text,
}
use monocles_chat_desktop.Uri.Ascii.{
  IsAscii, Some, percent_decode-Returns, all-trim_start, all-trim_end, all-drop, BothAscii,
  all-split_once, all-split, all-keep, all-split_once_text,
}

scan_key-Returns :
    (s : Scan) (key value : Text) → IsAscii value → Returns Some (scan_key s key value)
scan_key-Returns s key value h = elim (Option-cases (key_kind key)) [
  | inl bad ↦ unfold scan_key in rw (bad, Returns) tt
  | inr ((kind, suffix), ok) ↦ elim (Option-cases (parse_i64 suffix)) [
    | inl bad ↦ unfold scan_key in rw (ok, bad, Returns) tt
    | inr (negsuc n, num) ↦ unfold scan_key in rw (ok, num, Returns) tt
    | inr (pos n, num) ↦
        unfold scan_key in
        rw (ok, num, Returns)
          (Returns-bind Some Some (percent_decode value) _ (percent_decode-Returns value h)
            (λ a u. tt))
  ]
]

scan_pair-Returns : (s : Scan) (pair : Text) → IsAscii pair → Returns Some (scan_pair s pair)
scan_pair-Returns s pair h = elim (Option-cases (split_once b'=' pair)) [
  | inl bad ↦ unfold scan_pair in rw (bad, Returns) tt
  | inr ((k, value), ok) ↦
      let both : BothAscii (some (k, value)) = rw ok at (all-split_once b'=' pair h) in
      unfold scan_pair in
      rw (ok, Returns)
        (Returns-bind Some Some (percent_decode k) _ (percent_decode-Returns k both.0) (λ d u.
          Returns-if Some _ (returned (next s)) (scan_key _ (to_ascii_lowercase d) value) tt
            (scan_key-Returns _ (to_ascii_lowercase d) value both.1)))
]

scan-Returns : (pairs : List Text) (s : Scan) → All IsAscii pairs → Returns Some (scan s pairs)
unfolding scan
scan-Returns [] s h = tt
scan-Returns (pair ∷ pairs) s h =
    Returns-bind Some Some (scan_pair s pair) _ (scan_pair-Returns s pair h.0)
      (elim [ next s' ↦ λ u. scan-Returns pairs s' h.1 | stop s' ↦ λ u. tt ])

abbrev AsciiQuery : Option Text → Type 0
AsciiQuery none = Unit
AsciiQuery (some q) = IsAscii q

query-IsAscii : (query : Option Text) → AsciiQuery query → IsAscii (unwrap_or query [])
query-IsAscii none h = refl
query-IsAscii (some q) h = h

finish-Returns :
    (jid : Text) (query : Option Text) (sep : ℕ)
    → IsAscii jid
    → AsciiQuery query
    → Returns Some (finish jid query sep)
unfolding finish
finish-Returns jid query sep h q =
    Returns-bind Some Some (percent_decode jid) _ (percent_decode-Returns jid h) (λ d u.
      Returns-if Some _ (returned none) _ tt (
        Returns-bind Some Some (scan _ (split sep (unwrap_or query []))) _
          (scan-Returns _ _ (all-split sep (unwrap_or query []) (query-IsAscii query q)))
          (λ a v. tt)))

finish_invite-Returns :
    (segments : List Text) (query : Option Text)
    → All IsAscii segments
    → AsciiQuery query
    → Returns Some (finish_invite segments query)
unfolding finish_invite
finish_invite-Returns [] query h q = tt
finish_invite-Returns (first ∷ []) query h q = finish-Returns first query b'&' h.0 q
finish_invite-Returns (first ∷ domain ∷ more) query h q =
    Returns-if Some (not (contains b'@' first)) (finish (first ++ b'@' ∷ domain) query b'&')
      (finish first query b'&')
      (finish-Returns _ query b'&' (all-append is_ascii first (b'@' ∷ domain) h.0 (h.1).0) q)
      (finish-Returns first query b'&' h.0 q)

parse_segments-Returns :
    (segments : List Text) (query : Option Text)
    → All IsAscii segments
    → AsciiQuery query
    → Returns Some (parse_segments segments query)
unfolding parse_segments
parse_segments-Returns [] query h q = tt
parse_segments-Returns (s ∷ segments) query h q =
    Returns-if Some (not (text_eq s (codes "i"))) (returned none) (finish_invite segments query) tt
      (finish_invite-Returns segments query h.1 q)

parse_path-Returns : (path : Text) → IsAscii path → Returns Some (parse_path path)
unfolding parse_path
parse_path-Returns path h = elim (Option-cases (split_once b'?' path)) [
  | inl e ↦
      rw (e, Returns) (parse_segments-Returns _ none (all-keep _ _ (all-split b'/' path h)) tt)
  | inr ((p, q), e) ↦
      let both : BothAscii (some (p, q)) = rw e at (all-split_once b'?' path h) in
      rw (e, Returns)
        (parse_segments-Returns _ (some q) (all-keep _ _ (all-split b'/' p both.0)) both.1)
]

parse_invite-Returns : (input : Text) → IsAscii input → Returns Some (parse_invite input)
parse_invite-Returns input h = elim (Option-cases (split_once_text (codes "//") input)) [
  | inl e ↦ unfold parse_invite in rw (e, Returns) tt
  | inr ((scheme, rest), e) ↦
      let after : BothAscii (some (scheme, rest)) =
        rw e at (all-split_once_text (codes "//") input h) in
      elim (Option-cases (split_once b'/' rest)) [
        | inl n ↦ unfold parse_invite in rw (e, n, Returns) tt
        | inr ((host, path), n) ↦
            let both : BothAscii (some (host, path)) = rw n at (all-split_once b'/' rest after.1) in
            unfold parse_invite in rw (e, n, Returns) (parse_path-Returns path both.1)
      ]
]

parse_xmpp-Returns : (rest : Text) → IsAscii rest → Returns Some (parse_xmpp rest)
unfolding parse_xmpp
parse_xmpp-Returns rest h = elim (Option-cases (split_once b'?' rest)) [
  | inl e ↦ rw (e, Returns) (finish-Returns rest none b';' h tt)
  | inr ((jid, query), e) ↦
      let both : BothAscii (some (jid, query)) = rw e at (all-split_once b'?' rest h) in
      rw (e, Returns) (finish-Returns jid (some query) b';' both.0 both.1)
]

parse_trimmed-Returns : (t : Text) → IsAscii t → Returns Some (parse_trimmed t)
unfolding parse_trimmed
parse_trimmed-Returns t h =
    let low = to_ascii_lowercase t in
    let web = starts_with (codes "https://") low || starts_with (codes "http://") low in
    Returns-if Some (starts_with (codes "xmpp:") low) (parse_xmpp (drop 5 t))
      (if web then parse_invite t else returned none)
      (parse_xmpp-Returns (drop 5 t) (all-drop 5 t h))
      (Returns-if Some web (parse_invite t) (returned none) (parse_invite-Returns t h) tt)

-- `parse` returns on every ASCII text, whatever it holds: it does not panic.
pub parse-returned :
    (input : Text) → all is_ascii input ≡ true → (r : Option ParsedUri) × (parse input ≡ returned r)
parse-returned input h = result (parse input) returns
  where
    returns : Returns Some (parse input)
    returns =
        unfold parse in
        parse_trimmed-Returns (trim input)
          (unfold trim in all-trim_end (trim_start input) (all-trim_start input h))

    result :
        (m : Outcome (Option ParsedUri))
        → Returns Some m
        → (r : Option ParsedUri) × (m ≡ returned r)
    result (returned r) u = (r, refl)
    result panicked u = absurd u
