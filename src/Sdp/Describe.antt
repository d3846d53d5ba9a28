-- ===== src/Sdp/Describe.antt =====
-- `contents_to_sdp`.
use monocles_chat_desktop.Base.{
  false, ◌&&◌, List, [], ◌∷◌, ◌++◌, Option, none, some, Text, codes, if◌then◌else◌, find, is_empty,
  keep, map, map_or, unwrap_or, text_eq,
}
use monocles_chat_desktop.Calls.Session.{ns_ice}
use monocles_chat_desktop.Calls.Stanzas.{ns_rtp}
use monocles_chat_desktop.Dom.{Dom, attr, get_child}
use monocles_chat_desktop.Sdp.Candidate.{candidate_to_sdp}
use monocles_chat_desktop.Sdp.Media.{ns_dtls, ns_ssma}
use monocles_chat_desktop.Sdp.Words.{join}

abbrev pub line : Text → Text
line s = s ++ 13 ∷ 10 ∷ []

abbrev pub concat : List Text → Text
concat [] = []
concat (s ∷ ss) = s ++ concat ss

-- The texts that are there.
abbrev pub present : List (Option Text) → List Text
present [] = []
present (none ∷ os) = present os
present (some s ∷ os) = s ∷ present os

module _ (d : Dom) where
  open d use {Element, name, children, text}

  abbrev pub attr_or : Text → Text → Element → Text
  attr_or key default e = unwrap_or (attr d key e) default

  abbrev pub children_named : Text → Element → List Element
  children_named n e = keep (λ c. text_eq (name c) n) (children e)

  -- The first transport that has credentials; all sections share it.
  unfoldable pub primary : List Element → Option Element
  unfolding attr get_child
  primary [] = none
  primary (c ∷ cs) =
      let rest = primary cs in
      map_or (get_child d (codes "transport") ns_ice c) rest
        (λ t. if is_empty (attr_or (codes "ufrag") [] t) then rest else some t)

  abbrev pub parameter : Element → Option Text
  parameter p =
      map_or (attr d (codes "name") p) none
        (λ k. map_or (attr d (codes "value") p) none (λ v. some (k ++ b'=' ∷ v)))

  abbrev pub feedback_line : Text → Element → Text
  feedback_line id fb = line (
      concat (
        codes "a=rtcp-fb:"
        ∷ id
        ∷ codes " "
        ∷ attr_or (codes "type") [] fb
        ∷ map_or (attr d (codes "subtype") fb) [] (λ sub. codes " " ++ sub)
        ∷ []))

  unfoldable pub payload_lines : Element → Text
  unfolding attr join text_eq
  payload_lines pt =
      let id = attr_or (codes "id") [] pt in
      let params = present (map parameter (children_named (codes "parameter") pt)) in
      concat (
        line (
          concat (
            codes "a=rtpmap:"
            ∷ id
            ∷ codes " "
            ∷ attr_or (codes "name") [] pt
            ∷ codes "/"
            ∷ attr_or (codes "clockrate") (codes "90000") pt
            ∷ map_or (attr d (codes "channels") pt) [] (λ ch. codes "/" ++ ch)
            ∷ []))
        ∷ (if is_empty params
            then []
            else line (concat (codes "a=fmtp:" ∷ id ∷ codes " " ∷ join (codes ";") params ∷ [])))
        ∷ map (feedback_line id) (children_named (codes "rtcp-fb") pt))

  unfoldable pub source_line : Element → Text
  unfolding attr get_child text_eq
  source_line desc = map_or (get_child d (codes "source") ns_ssma desc) [] (λ src.
      map_or (attr d (codes "ssrc") src) [] (λ ssrc.
        let named_cname = λ (p : Element).
          text_eq (name p) (codes "parameter")
          && map_or (attr d (codes "name") p) false (λ n. text_eq n (codes "cname")) in
        let cname =
          unwrap_or (map_or (find named_cname (children src)) none (attr d (codes "value")))
            (codes "mxc") in
        line (concat (codes "a=ssrc:" ∷ ssrc ∷ codes " cname:" ∷ cname ∷ []))))

  abbrev pub fingerprint_lines : Option Element → Text
  fingerprint_lines none = []
  fingerprint_lines (some fp) =
      line (
        concat (
          codes "a=fingerprint:"
          ∷ attr_or (codes "hash") (codes "sha-256") fp
          ∷ codes " "
          ∷ text fp
          ∷ []))
      ++ line (codes "a=setup:" ++ attr_or (codes "setup") (codes "active") fp)

  abbrev pub candidate_lines : Element → List Text
  candidate_lines transport =
      map (λ l. line (codes "a=candidate:" ++ l))
        (present (map (candidate_to_sdp d) (children_named (codes "candidate") transport)))

  -- One section, with the shared credentials.
  unfoldable pub section : Text → Text → Option Element → Element → Element → Element → Text
  unfolding attr candidate_to_sdp payload_lines source_line join text_eq
  section ufrag pwd fp content desc transport =
      let payloads = children_named (codes "payload-type") desc in
      concat (
        line (
          concat (
            codes "m="
            ∷ attr_or (codes "media") (codes "audio") desc
            ∷ codes " 9 UDP/TLS/RTP/SAVPF "
            ∷ join (codes " ") (present (map (attr d (codes "id")) payloads))
            ∷ []))
        ∷ line (codes "c=IN IP4 0.0.0.0")
        ∷ line (codes "a=rtcp-mux")
        ∷ line (codes "a=ice-ufrag:" ++ ufrag)
        ∷ line (codes "a=ice-pwd:" ++ pwd)
        ∷ line (codes "a=ice-options:trickle")
        ∷ fingerprint_lines fp
        ∷ line (codes "a=mid:" ++ attr_or (codes "name") (codes "0") content)
        ∷ line (codes "a=sendrecv")
        ∷ (map payload_lines payloads ++ (source_line desc ∷ candidate_lines transport)))

  abbrev section_of : Text → Text → Option Element → Element → Text
  section_of ufrag pwd fp content =
      map_or (get_child d (codes "description") ns_rtp content) [] (λ desc.
        map_or (get_child d (codes "transport") ns_ice content) []
          (λ transport. section ufrag pwd fp content desc transport))

  unfoldable pub contents_to_sdp : List Element → Option Text
  unfolding primary section attr get_child join
  contents_to_sdp contents =
      let mids = map (attr_or (codes "name") (codes "0")) contents in
      let shared = primary contents in
      let ufrag = map_or shared [] (attr_or (codes "ufrag") []) in
      let pwd = map_or shared [] (attr_or (codes "pwd") []) in
      let fp = map_or shared none (get_child d (codes "fingerprint") ns_dtls) in
      if is_empty contents
      then none
      else some (
          concat (
            line (codes "v=0")
            ∷ line (codes "o=- 8770656990916039506 2 IN IP4 127.0.0.1")
            ∷ line (codes "s=-")
            ∷ line (codes "t=0 0")
            ∷ line (codes "a=group:BUNDLE " ++ join (codes " ") mids)
            ∷ line (codes "a=msid-semantic: WMS")
            ∷ map (section_of ufrag pwd fp) contents))
