-- ===== src/Uri/Bounds.antt =====
-- What `parse` accepts.
use monocles_chat_desktop.Base.{
  ℕ, ◌≤◌, ◌<◌, ◌≡◌, true, List, [], ◌∷◌, ◌++◌, Option, none, some, Text, length, length-append, All,
  All-append, contains, trim, returned, ◌>>=◌, arith, Ensures, Ensures-bind, Ensures-bind_inv,
  Ensures-if, if◌then◌else◌, any, text_eq, to_ascii_lowercase, split_once, split, not, ◌||◌,
  is_empty, unwrap_or, codes, starts_with, drop, Bool-cases, Option-cases, inl, inr,
}
use monocles_chat_desktop.Uri.Decimal.{ℤ, pos, negsuc, parse_i64, i64_max}
use monocles_chat_desktop.Uri.Fingerprint.{
  FingerprintKind, UriFingerprint, ParsedUri, IsFingerprint, normalize_fingerprint,
  normalize_fingerprint-IsFingerprint,
}
use monocles_chat_desktop.Uri.Parse.{
  Scan, Control, next, stop, max_uri_fingerprints, key_kind, scan_value, scan_key, scan_pair, scan,
  finish, finish_invite, parse_segments, parse_path, parse_invite, parse_xmpp, parse_trimmed, parse,
  split_once_text,
}
use monocles_chat_desktop.Uri.Percent.{percent_decode}

-- A device id of an `i64` that is not negative.
abbrev pub IsDeviceId : ℤ → Type 0
IsDeviceId (pos n) = n ≤ i64_max
IsDeviceId (negsuc n) = ⊥

abbrev pub IsEntry : UriFingerprint → Type 0
IsEntry fp = IsFingerprint fp.hex × IsDeviceId fp.device_id

pub record IsAccepted (u : ParsedUri) : Type 0 where
  pub has_at : contains b'@' u.jid ≡ true
  pub bounded : length u.fingerprints ≤ max_uri_fingerprints
  pub entries : All IsEntry u.fingerprints

parse_i64-IsDeviceId : (s : Text) {n : ℕ} → parse_i64 s ≡ some (pos n) → n ≤ i64_max
unfolding parse_i64
parse_i64-IsDeviceId [] e = ground arith
parse_i64-IsDeviceId (c ∷ s) e = ground arith

abbrev Within : List UriFingerprint → Type 0
Within fps = (length fps < max_uri_fingerprints) × All IsEntry fps

abbrev Full : List UriFingerprint → Type 0
Full fps = (length fps ≤ max_uri_fingerprints) × All IsEntry fps

abbrev ControlInv : Control → Type 0
ControlInv (next s) = Within s.fingerprints
ControlInv (stop s) = Full s.fingerprints

abbrev Accepts : Option ParsedUri → Type 0
Accepts none = Unit
Accepts (some u) = IsAccepted u

scan_value-inv :
    (s : Scan) (kind : FingerprintKind) (id : ℕ) (value : Text)
    → Within s.fingerprints
    → id ≤ i64_max
    → ControlInv (scan_value s kind id value)
scan_value-inv s kind id value w h = elim (Option-cases (normalize_fingerprint value)) [
  | inl bad ↦ unfold scan_value in rw (bad, ControlInv) w
  | inr (hex, ok) ↦
      let f = normalize_fingerprint-IsFingerprint value ok in
      let fp : UriFingerprint = record { kind = kind; device_id = pos id; hex = hex } in
      let count = length-append s.fingerprints (fp ∷ []) in
      unfold scan_value in
      rw (ok, ControlInv)
        (ground (arith, All-append IsEntry s.fingerprints (fp ∷ []) w.1 ((f, h), tt)))
]

scan_key-inv :
    (s : Scan) (key value : Text)
    → Within s.fingerprints
    → Ensures ControlInv (scan_key s key value)
scan_key-inv s key value w = elim (Option-cases (key_kind key)) [
  | inl bad ↦ unfold scan_key in rw (bad, Ensures) w
  | inr ((kind, suffix), ok) ↦ elim (Option-cases (parse_i64 suffix)) [
    | inl bad ↦ unfold scan_key in rw (ok, bad, Ensures) w
    | inr (negsuc n, num) ↦ unfold scan_key in rw (ok, num, Ensures) w
    | inr (pos n, num) ↦
        unfold scan_key in
        rw (ok, num, Ensures)
          (Ensures-bind ControlInv (percent_decode value) (λ v. returned (scan_value s kind n v))
            (λ v. scan_value-inv s kind n v w (parse_i64-IsDeviceId suffix num)))
  ]
]

scan_pair-inv :
    (s : Scan) (pair : Text) → Within s.fingerprints → Ensures ControlInv (scan_pair s pair)
scan_pair-inv s pair w = elim (Option-cases (split_once b'=' pair)) [
  | inl bad ↦ unfold scan_pair in rw (bad, Ensures) w
  | inr ((k, value), ok) ↦
      unfold scan_pair in
      rw (ok, Ensures)
        (Ensures-bind ControlInv (percent_decode k) _ (λ d. rest (to_ascii_lowercase d) value))
]
  where
    rest :
        (key value : Text)
        → Ensures ControlInv (
            if any (text_eq key) s.seen
            then returned (next s)
            else scan_key (record s { seen = s.seen ++ key ∷ [] }) key value)
    rest key value = elim (Bool-cases (any (text_eq key) s.seen)) [
      | inl e ↦ rw (e, Ensures) w
      | inr e ↦ rw (e, Ensures) (scan_key-inv (record s { seen = s.seen ++ key ∷ [] }) key value w)
    ]

scan-Full : (pairs : List Text) (s : Scan) → Within s.fingerprints → Ensures Full (scan s pairs)
unfolding scan
scan-Full [] s w = (omega arith, w.1)
scan-Full (pair ∷ pairs) s w =
    Ensures-bind_inv ControlInv Full (scan_pair s pair) _ (scan_pair-inv s pair w)
      (elim [ next s' ↦ λ w'. scan-Full pairs s' w' | stop s' ↦ λ f. f ])

finish-Accepts :
    (jid : Text) (query : Option Text) (sep : ℕ) → Ensures Accepts (finish jid query sep)
unfolding finish
finish-Accepts jid query sep = Ensures-bind Accepts (percent_decode jid) _ (λ d. rest (trim d))
  where
    rest :
        (j : Text)
        → Ensures Accepts (
            if is_empty j || not (contains b'@' j)
            then returned none
            else scan (record { seen = []; fingerprints = [] }) (split sep (unwrap_or query []))
              >>= λ fps. returned (some (record { jid = j; fingerprints = fps })))
    rest j = elim (Bool-cases (is_empty j || not (contains b'@' j))) [
      | inl e ↦ rw (e, Ensures) tt
      | inr e ↦
          rw (e, Ensures)
            (Ensures-bind_inv Full Accepts (scan _ (split sep (unwrap_or query []))) _
              (scan-Full _ _ (omega arith, tt))
              (λ fps f. record { has_at = ground arith; bounded = f.0; entries = f.1 }))
    ]

finish_invite-Accepts :
    (segments : List Text) (query : Option Text) → Ensures Accepts (finish_invite segments query)
unfolding finish_invite
finish_invite-Accepts [] query = tt
finish_invite-Accepts (first ∷ []) query = finish-Accepts first query b'&'
finish_invite-Accepts (first ∷ domain ∷ more) query = elim (Bool-cases (contains b'@' first)) [
  | inl e ↦ rw (e, Ensures) (finish-Accepts first query b'&')
  | inr e ↦ rw (e, Ensures) (finish-Accepts (first ++ b'@' ∷ domain) query b'&')
]

parse_segments-Accepts :
    (segments : List Text) (query : Option Text) → Ensures Accepts (parse_segments segments query)
unfolding parse_segments
parse_segments-Accepts [] query = tt
parse_segments-Accepts (s ∷ segments) query = elim (Bool-cases (text_eq s (codes "i"))) [
  | inl e ↦ rw (e, Ensures) (finish_invite-Accepts segments query)
  | inr e ↦ rw (e, Ensures) tt
]

parse_path-Accepts : (path : Text) → Ensures Accepts (parse_path path)
unfolding parse_path
parse_path-Accepts path = elim (Option-cases (split_once b'?' path)) [
  | inl e ↦ rw (e, Ensures) (parse_segments-Accepts _ none)
  | inr ((p, q), e) ↦ rw (e, Ensures) (parse_segments-Accepts _ (some q))
]

parse_invite-Accepts : (input : Text) → Ensures Accepts (parse_invite input)
parse_invite-Accepts input = elim (Option-cases (split_once_text (codes "//") input)) [
  | inl e ↦ unfold parse_invite in rw (e, Ensures) tt
  | inr ((scheme, rest), e) ↦ elim (Option-cases (split_once b'/' rest)) [
    | inl n ↦ unfold parse_invite in rw (e, n, Ensures) tt
    | inr ((host, path), n) ↦ unfold parse_invite in rw (e, n, Ensures) (parse_path-Accepts path)
  ]
]

parse_xmpp-Accepts : (rest : Text) → Ensures Accepts (parse_xmpp rest)
unfolding parse_xmpp
parse_xmpp-Accepts rest = elim (Option-cases (split_once b'?' rest)) [
  | inl e ↦ rw (e, Ensures) (finish-Accepts rest none b';')
  | inr ((jid, query), e) ↦ rw (e, Ensures) (finish-Accepts jid (some query) b';')
]

parse_trimmed-Accepts : (t : Text) → Ensures Accepts (parse_trimmed t)
unfolding parse_trimmed
parse_trimmed-Accepts t =
    let low = to_ascii_lowercase t in
    let web = starts_with (codes "https://") low || starts_with (codes "http://") low in
    Ensures-if Accepts (starts_with (codes "xmpp:") low) (parse_xmpp (drop 5 t))
      (if web then parse_invite t else returned none) (parse_xmpp-Accepts (drop 5 t))
      (Ensures-if Accepts web (parse_invite t) (returned none) (parse_invite-Accepts t) tt)

-- Whatever text is scanned, a URI that `parse` accepts names a JID with an `@`, holds at most 64
-- fingerprints, and each of them is 64 lower-case hexadecimal digits under a device id from 0 to
-- the greatest `i64`.
pub parse-IsAccepted :
    (input : Text) {u : ParsedUri} → parse input ≡ returned (some u) → IsAccepted u
parse-IsAccepted input h = rw h at (accepts input)
  where
    accepts : (t : Text) → Ensures Accepts (parse t)
    accepts t = unfold parse in parse_trimmed-Accepts (trim t)
