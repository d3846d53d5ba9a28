-- ===== src/Sdp/RoundTrip.antt =====
-- A candidate of the media engine on its way through Jingle.
use monocles_chat_desktop.Base.{
  ◌≡◌, refl, List, [], ◌∷◌, ◌++◌, Map, Option, none, some, Text, All, codes, lookup, insert, map_or,
  unwrap_or, text_eq,
}
use monocles_chat_desktop.Calls.Session.{ns_ice}
use monocles_chat_desktop.Dom.{Dom, DomLaws, attr}
use monocles_chat_desktop.Sdp.Candidate.{
  candidate_attrs, candidate_of, candidate_to_jingle, candidate_to_sdp, extra,
}
use monocles_chat_desktop.Sdp.Words.{join, IsWord, words-join}

-- The fields of an ICE candidate.
pub record Fields : Type 0 where
  pub foundation : Text
  pub component : Text
  pub protocol : Text
  pub priority : Text
  pub ip : Text
  pub port : Text
  pub typ : Option Text
  pub raddr : Option Text
  pub rport : Option Text
  pub generation : Option Text

abbrev pub pair : Text → Option Text → List Text
pair key value = map_or value [] (λ v. key ∷ v ∷ [])

abbrev pub optional_words : Fields → List Text
optional_words f =
    pair (codes "typ") f.typ
    ++ (pair (codes "raddr") f.raddr
        ++ (pair (codes "rport") f.rport ++ pair (codes "generation") f.generation))

-- The words of the candidate's line, as RFC 8839 orders them.
abbrev pub line_words : Fields → List Text
line_words f =
    f.foundation ∷ f.component ∷ f.protocol ∷ f.priority ∷ f.ip ∷ f.port ∷ optional_words f

-- The same candidate with its generation, which is 0 where none is given.
abbrev pub with_generation : Fields → Fields
with_generation f = record f { generation = some (unwrap_or f.generation (codes "0")) }

module _ (d : Dom) (l : DomLaws d) where
  attrs-candidate_of :
      (id a b c e f g : Text) (m : Map Text)
      → d.attrs (candidate_of d a b c e f g id m) ≡ candidate_attrs a b c e f g id m
  attrs-candidate_of id a b c e f g m =
      l.attrs-build (codes "candidate") ns_ice (candidate_attrs a b c e f g id m) [] []

  candidate_to_sdp-jingle_of :
      (id a b c e f g : Text) (typ raddr rport generation : Option Text)
      → let fields : Fields = record {
        foundation = a;
        component = b;
        protocol = c;
        priority = e;
        ip = f;
        port = g;
        typ = typ;
        raddr = raddr;
        rport = rport;
        generation = generation;
      } in
        candidate_to_sdp d (candidate_of d a b c e f g id (extra (optional_words fields) []))
        ≡ some (join (32 ∷ []) (line_words (with_generation fields)))
  unfolding candidate_to_sdp attr extra insert lookup text_eq join
  candidate_to_sdp-jingle_of id a b c e f g none none none none =
      rw (attrs-candidate_of id a b c e f g ([])) refl
  candidate_to_sdp-jingle_of id a b c e f g none none none (some n) =
      rw (attrs-candidate_of id a b c e f g ((codes "generation", n) ∷ [])) refl
  candidate_to_sdp-jingle_of id a b c e f g none none (some p) none =
      rw (attrs-candidate_of id a b c e f g ((codes "rport", p) ∷ [])) refl
  candidate_to_sdp-jingle_of id a b c e f g none none (some p) (some n) =
      rw (attrs-candidate_of id a b c e f g ((codes "rport", p) ∷ (codes "generation", n) ∷ []))
        refl
  candidate_to_sdp-jingle_of id a b c e f g none (some r) none none =
      rw (attrs-candidate_of id a b c e f g ((codes "raddr", r) ∷ [])) refl
  candidate_to_sdp-jingle_of id a b c e f g none (some r) none (some n) =
      rw (attrs-candidate_of id a b c e f g ((codes "raddr", r) ∷ (codes "generation", n) ∷ []))
        refl
  candidate_to_sdp-jingle_of id a b c e f g none (some r) (some p) none =
      rw (attrs-candidate_of id a b c e f g ((codes "raddr", r) ∷ (codes "rport", p) ∷ [])) refl
  candidate_to_sdp-jingle_of id a b c e f g none (some r) (some p) (some n) =
      rw
        (attrs-candidate_of id a b c e f g
          ((codes "raddr", r) ∷ (codes "rport", p) ∷ (codes "generation", n) ∷ []))
        refl
  candidate_to_sdp-jingle_of id a b c e f g (some t) none none none =
      rw (attrs-candidate_of id a b c e f g ((codes "typ", t) ∷ [])) refl
  candidate_to_sdp-jingle_of id a b c e f g (some t) none none (some n) =
      rw (attrs-candidate_of id a b c e f g ((codes "typ", t) ∷ (codes "generation", n) ∷ [])) refl
  candidate_to_sdp-jingle_of id a b c e f g (some t) none (some p) none =
      rw (attrs-candidate_of id a b c e f g ((codes "typ", t) ∷ (codes "rport", p) ∷ [])) refl
  candidate_to_sdp-jingle_of id a b c e f g (some t) none (some p) (some n) =
      rw
        (attrs-candidate_of id a b c e f g
          ((codes "typ", t) ∷ (codes "rport", p) ∷ (codes "generation", n) ∷ []))
        refl
  candidate_to_sdp-jingle_of id a b c e f g (some t) (some r) none none =
      rw (attrs-candidate_of id a b c e f g ((codes "typ", t) ∷ (codes "raddr", r) ∷ [])) refl
  candidate_to_sdp-jingle_of id a b c e f g (some t) (some r) none (some n) =
      rw
        (attrs-candidate_of id a b c e f g
          ((codes "typ", t) ∷ (codes "raddr", r) ∷ (codes "generation", n) ∷ []))
        refl
  candidate_to_sdp-jingle_of id a b c e f g (some t) (some r) (some p) none =
      rw
        (attrs-candidate_of id a b c e f g
          ((codes "typ", t) ∷ (codes "raddr", r) ∷ (codes "rport", p) ∷ []))
        refl
  candidate_to_sdp-jingle_of id a b c e f g (some t) (some r) (some p) (some n) =
      rw
        (attrs-candidate_of id a b c e f g (
          (codes "typ", t)
          ∷ (codes "raddr", r)
          ∷ (codes "rport", p)
          ∷ (codes "generation", n)
          ∷ []))
        refl

  -- A candidate line in the usual order, each field of which is one word and the protocol of which is
  -- in lower case, comes back from Jingle as it was if it has a generation, and else with
  -- `generation 0` at its end, whichever of the type, the related address and the related port it
  -- has.
  pub candidate_to_jingle-candidate_to_sdp :
      (to_lowercase : Text → Text) (id : Text) (f : Fields)
      → All IsWord (line_words f)
      → to_lowercase f.protocol ≡ f.protocol
      → map_or
          (candidate_to_jingle d to_lowercase id (join (32 ∷ []) (line_words f)))
          none
          (candidate_to_sdp d)
        ≡ some (join (32 ∷ []) (line_words (with_generation f)))
  unfolding candidate_to_jingle
  candidate_to_jingle-candidate_to_sdp to_lowercase id f h e =
      rw (words-join (line_words f) h, e)
        (candidate_to_sdp-jingle_of id f.foundation f.component f.protocol f.priority f.ip f.port
          f.typ f.raddr f.rport f.generation)
