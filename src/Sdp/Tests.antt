-- ===== src/Sdp/Tests.antt =====
-- A candidate and a description.
use monocles_chat_desktop.Base.{
  ◌≡◌, refl, [], ◌∷◌, none, some, Text, codes, map_or, is_whitespace, ◌++◌, map,
}
use monocles_chat_desktop.Calls.Session.{ns_ice}
use monocles_chat_desktop.Calls.Stanzas.{ns_jingle, ns_rtp}
use monocles_chat_desktop.Dom.{Tree, Trees, tree_dom, tree_laws}
use monocles_chat_desktop.Sdp.Candidate.{candidate_to_jingle, candidate_to_sdp}
use monocles_chat_desktop.Sdp.Describe.{
  contents_to_sdp, primary, section, source_line, payload_lines,
}
use monocles_chat_desktop.Sdp.Media.{parse_media, ns_dtls}
use monocles_chat_desktop.Sdp.RoundTrip.{
  Fields, line_words, with_generation, candidate_to_jingle-candidate_to_sdp,
}
use monocles_chat_desktop.Sdp.Words.{join}

abbrev reflexive : Fields
reflexive = record {
  foundation = codes "1";
  component = codes "1";
  protocol = codes "udp";
  priority = codes "2122260223";
  ip = codes "192.0.2.5";
  port = codes "51234";
  typ = some (codes "srflx");
  raddr = some (codes "10.0.0.2");
  rport = none;
  generation = none;
}

abbrev same : Text → Text
same s = s

candidate_to_jingle-candidate_to_sdp_example :
    map_or
      (candidate_to_jingle tree_dom same (codes "cand-1") (join (32 ∷ []) (line_words reflexive)))
      none
      (candidate_to_sdp tree_dom)
    ≡ some (join (32 ∷ []) (line_words (with_generation reflexive)))
unfolding is_whitespace
candidate_to_jingle-candidate_to_sdp_example =
    candidate_to_jingle-candidate_to_sdp tree_dom tree_laws same (codes "cand-1") reflexive
      (
        (refl, refl),
        (
          (refl, refl),
          (
            (refl, refl),
            (
              (refl, refl),
              (
                (refl, refl),
                ((refl, refl), ((refl, refl), ((refl, refl), ((refl, refl), ((refl, refl), tt))))),
              ),
            ),
          ),
        ),
      )
      refl

-- A content of which the name has a line break in it.
abbrev broken_name : Text
broken_name = codes "0" ++ (13 ∷ 10 ∷ codes "a=fingerprint:sha-256 EE")

abbrev broken : Tree
broken =
    Tree.node (codes "content") ns_jingle ((codes "name", broken_name) ∷ [])
      (Trees.cons
        (Tree.node (codes "description") ns_rtp ((codes "media", codes "audio") ∷ []) Trees.nil [])
        (Trees.cons
          (Tree.node (codes "transport") ns_ice
            ((codes "ufrag", codes "u") ∷ (codes "pwd", codes "p") ∷ [])
            (Trees.cons
              (Tree.node (codes "fingerprint") ns_dtls ((codes "hash", codes "sha-256") ∷ [])
                Trees.nil (codes "AA"))
              Trees.nil)
            [])
          Trees.nil))
      []

-- The description that is made of it has a second fingerprint, which is the one read last.
contents_to_sdp_broken :
    map (λ m. m.fingerprint) (map_or (contents_to_sdp tree_dom (broken ∷ [])) [] parse_media)
    ≡ codes "EE" ∷ []
unfolding contents_to_sdp parse_media primary section source_line payload_lines
contents_to_sdp_broken = refl
