-- ===== src/Sdp/Media.antt =====
-- `parse_media`, `media_to_content` and `sdp_to_contents`.
use monocles_chat_desktop.Base.{
  ℕ, suc, List, [], ◌∷◌, ◌++◌, Option, none, some, Text, Map, codes, if◌then◌else◌, find, keep, map,
  is_empty, map_or, or_else, unwrap_or, split, split_once, strip_prefix, text_eq, trim, trim_end,
  lookup,
}
use monocles_chat_desktop.Calls.Session.{ns_ice}
use monocles_chat_desktop.Calls.Stanzas.{ns_jingle, ns_rtp}
use monocles_chat_desktop.Dom.{Dom}
use monocles_chat_desktop.Sdp.Candidate.{candidate_to_jingle, optional}
use monocles_chat_desktop.Sdp.Words.{words}

abbrev pub ns_dtls : Text
ns_dtls = codes "urn:xmpp:jingle:apps:dtls:0"

abbrev pub ns_rtcp_fb : Text
ns_rtcp_fb = codes "urn:xmpp:jingle:apps:rtp:rtcp-fb:0"

abbrev pub ns_ssma : Text
ns_ssma = codes "urn:xmpp:jingle:apps:rtp:ssma:0"

-- One media section. The pairs of `rtpmap`, `fmtp` and `rtcp_fb` keep their order.
pub record Media : Type 0 where
  pub kind : Text
  pub mid : Text
  pub ufrag : Text
  pub pwd : Text
  pub fingerprint_hash : Text
  pub fingerprint : Text
  pub setup : Text
  pub rtpmap : List (Text × Text)
  pub fmtp : List (Text × Text)
  pub rtcp_fb : List (Text × Text)
  pub ssrc : Option Text
  pub cname : Option Text
  pub candidates : List Text

abbrev pub new_media : Text → Media
new_media kind = record {
  kind = kind;
  mid = [];
  ufrag = [];
  pwd = [];
  fingerprint_hash = [];
  fingerprint = [];
  setup = [];
  rtpmap = [];
  fmtp = [];
  rtcp_fb = [];
  ssrc = none;
  cname = none;
  candidates = [];
}

-- What an attribute that has two parts does, and one that has not.
abbrev pub with_parts : Text → Media → (Text → Text → Media) → Media
with_parts val m f = map_or (split_once 32 val) m (λ p. f p.0 p.1)

-- One attribute of a section, by the match of `parse_media`.
unfoldable pub attribute : Text → Text → Media → Media
unfolding text_eq split_once strip_prefix
attribute key val m =
    if text_eq key (codes "mid")
    then record m { mid = val }
    else if text_eq key (codes "ice-ufrag")
    then record m { ufrag = val }
    else if text_eq key (codes "ice-pwd")
    then record m { pwd = val }
    else if text_eq key (codes "setup")
    then record m { setup = val }
    else if text_eq key (codes "fingerprint")
    then with_parts val m (λ hash fp. record m { fingerprint_hash = hash; fingerprint = fp })
    else if text_eq key (codes "rtpmap")
    then with_parts val m (λ id rest. record m { rtpmap = m.rtpmap ++ (id, rest) ∷ [] })
    else if text_eq key (codes "fmtp")
    then with_parts val m (λ id rest. record m { fmtp = m.fmtp ++ (id, rest) ∷ [] })
    else if text_eq key (codes "rtcp-fb")
    then with_parts val m (λ id rest. record m { rtcp_fb = m.rtcp_fb ++ (id, rest) ∷ [] })
    else if text_eq key (codes "ssrc")
    then with_parts val m (λ id rest. record m {
      ssrc = or_else m.ssrc (some id);
      cname = or_else m.cname (strip_prefix (codes "cname:") rest);
    })
    else if text_eq key (codes "candidate")
    then record m { candidates = m.candidates ++ val ∷ [] }
    else m

abbrev pub first_word : List Text → Text
first_word [] = []
first_word (w ∷ _) = w

-- One line; the section that is open is the last of the list.
abbrev pub on_last : (Media → Media) → List Media → List Media
on_last f [] = []
on_last f (m ∷ []) = f m ∷ []
on_last f (m ∷ n ∷ ms) = m ∷ on_last f (n ∷ ms)

unfoldable pub line_onto : List Media → Text → List Media
unfolding attribute words strip_prefix split_once
line_onto out line =
    map_or (strip_prefix (codes "m=") line)
      (map_or (strip_prefix (codes "a=") line) out (λ attr.
        let p = unwrap_or (split_once b':' attr) (attr, []) in on_last (attribute p.0 p.1) out))
      (λ rest. out ++ new_media (first_word (words rest)) ∷ [])

abbrev pub lines_onto : List Media → List Text → List Media
lines_onto out [] = out
lines_onto out (line ∷ rest) = lines_onto (line_onto out (trim_end line)) rest

-- `str::lines`, whose `\r` the trimming takes; an empty piece behind the last `\n` does nothing.
unfoldable pub parse_media : Text → List Media
unfolding line_onto split trim_end
parse_media sdp = lines_onto [] (split 10 sdp)

abbrev pub mid_of : Media → Text
mid_of m = if is_empty m.mid then m.kind else m.mid

-- `if x.is_empty() { nothing } else { attr }`.
abbrev pub filled : Text → Text → Map Text
filled key value = if is_empty value then [] else (key, value) ∷ []

abbrev pub second : List Text → Option Text
second (_ ∷ s ∷ _) = some s
second _ = none

abbrev pub third : List Text → Option Text
third (_ ∷ _ ∷ s ∷ _) = some s
third _ = none

module _ (d : Dom) where
  open d use {Element, build}

  -- The `<parameter/>`s of `fmtp`.
  unfoldable pub parameters : List Text → List Element
  unfolding split_once trim
  parameters [] = []
  parameters (kv ∷ kvs) =
      let rest = parameters kvs in
      map_or (split_once b'=' (trim kv)) rest (λ p.
        build (codes "parameter") ns_rtp ((codes "name", p.0) ∷ (codes "value", p.1) ∷ []) [] []
        ∷ rest)

  abbrev pub feedback : Text × Text → Element
  feedback (_, fb) =
      let it = words fb in
      build (codes "rtcp-fb") ns_rtcp_fb
        ((codes "type", first_word it) ∷ optional (codes "subtype") (second it)) [] []

  unfoldable pub payload : Media → Text × Text → Element
  unfolding parameters words split lookup text_eq
  payload m (id, rtpmap) =
      let parts = split b'/' rtpmap in
      build (codes "payload-type") ns_rtp
        ((codes "id", id)
          ∷ (codes "name", first_word parts)
          ∷ (filled (codes "clockrate") (unwrap_or (second parts) [])
              ++ optional (codes "channels") (third parts)))
        (map_or (find (λ e. text_eq e.0 id) m.fmtp) [] (λ e. parameters (split b';' e.1))
          ++ map feedback (keep (λ e. text_eq e.0 id) m.rtcp_fb))
        []

  abbrev pub source_of : Media → List Element
  source_of m = map_or m.ssrc [] (λ ssrc. map_or m.cname [] (λ cname.
      build (codes "source") ns_ssma ((codes "ssrc", ssrc) ∷ [])
        (build (codes "parameter") ns_ssma
            ((codes "name", codes "cname") ∷ (codes "value", cname) ∷ []) [] []
          ∷ [])
        []
      ∷ []))

  abbrev pub fingerprint_of : Media → List Element
  fingerprint_of m =
      if is_empty m.fingerprint
      then []
      else build (codes "fingerprint") ns_dtls
          ((codes "hash", m.fingerprint_hash) ∷ filled (codes "setup") m.setup) [] m.fingerprint
        ∷ []

  module _ (to_lowercase : Text → Text) where
    -- The candidates that can be read; `new_id i` is the id that is drawn for the i-th.
    unfoldable pub candidates_of : (ℕ → Text) → ℕ → List Text → List Element
    unfolding candidate_to_jingle
    candidates_of new_id i [] = []
    candidates_of new_id i (cand ∷ cands) =
        let rest = candidates_of new_id (suc i) cands in
        map_or (candidate_to_jingle d to_lowercase (new_id i) cand) rest (λ c. c ∷ rest)

    unfoldable pub media_to_content : (ℕ → Text) → Media → Element
    unfolding payload candidates_of
    media_to_content new_id m =
        build (codes "content") ns_jingle
          ((codes "creator", codes "initiator")
            ∷ (codes "name", mid_of m)
            ∷ (codes "senders", codes "both")
            ∷ [])
          (build (codes "description") ns_rtp ((codes "media", m.kind) ∷ [])
              (map (payload m) m.rtpmap ++ (build (codes "rtcp-mux") ns_rtp [] [] [] ∷ source_of m))
              []
            ∷ build (codes "transport") ns_ice
                ((codes "ufrag", m.ufrag) ∷ (codes "pwd", m.pwd) ∷ [])
                (fingerprint_of m ++ candidates_of new_id 0 m.candidates) []
            ∷ [])
          []

    -- The sections, the first of which has the number `k`; each draws its own ids.
    abbrev contents_from : (ℕ → ℕ → Text) → ℕ → List Media → List Element
    contents_from new_id k [] = []
    contents_from new_id k (m ∷ ms) =
        media_to_content (new_id k) m ∷ contents_from new_id (suc k) ms

    unfoldable pub sdp_to_contents : (ℕ → ℕ → Text) → Text → List Element × List Text
    unfolding parse_media media_to_content
    sdp_to_contents new_id sdp =
        let media = parse_media sdp in (contents_from new_id 0 media, map mid_of media)
