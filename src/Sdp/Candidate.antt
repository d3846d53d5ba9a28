-- ===== src/Sdp/Candidate.antt =====
-- `candidate_to_jingle` and `candidate_to_sdp`.
use monocles_chat_desktop.Base.{
  List, [], ◌∷◌, ◌++◌, Option, none, some, Text, Map, codes, lookup, insert, map_or, unwrap_or,
}
use monocles_chat_desktop.Calls.Session.{ns_ice}
use monocles_chat_desktop.Dom.{Dom, attr}
use monocles_chat_desktop.Sdp.Words.{words}

-- The pairs behind the sixth word; of a key that occurs twice the later value counts.
unfoldable pub extra : List Text → Map Text → Map Text
unfolding insert
extra (k ∷ v ∷ rest) m = extra rest (insert k v m)
extra (k ∷ []) m = m
extra [] m = m

abbrev pub optional : Text → Option Text → Map Text
optional key value = map_or value [] (λ v. (key, v) ∷ [])

abbrev pub field : Text → Option Text → Text → Text
field label value rest = map_or value rest (λ v. label ++ (v ++ rest))

abbrev pub candidate_attrs : Text → Text → Text → Text → Text → Text → Text → Map Text → Map Text
candidate_attrs foundation component protocol priority ip port id more =
    (codes "foundation", foundation)
    ∷ (codes "component", component)
    ∷ (codes "protocol", protocol)
    ∷ (codes "priority", priority)
    ∷ (codes "ip", ip)
    ∷ (codes "port", port)
    ∷ (codes "id", id)
    ∷ (optional (codes "type") (lookup (codes "typ") more)
        ++ (optional (codes "rel-addr") (lookup (codes "raddr") more)
            ++ (optional (codes "rel-port") (lookup (codes "rport") more)
                ++ optional (codes "generation") (lookup (codes "generation") more))))

abbrev pub spaced : Text → Text → Text
spaced word rest = word ++ (32 ∷ rest)

infixl 5 ◌>>=◌
abbrev ◌>>=◌ : {A B : Type 0} → Option A → (A → Option B) → Option B
o >>= f = map_or o none f

module _ (d : Dom) where
  open d use {Element, build}

  abbrev pub candidate_of : Text → Text → Text → Text → Text → Text → Text → Map Text → Element
  candidate_of foundation component protocol priority ip port id more =
      build (codes "candidate") ns_ice
        (candidate_attrs foundation component protocol priority ip port id more) [] []

  -- The words of a value; `to_lowercase` is the standard library's, `id` is fresh.
  abbrev pub candidate_of_words : (Text → Text) → Text → List Text → Option Element
  candidate_of_words to_lowercase id (s0 ∷ s1 ∷ s2 ∷ s3 ∷ s4 ∷ s5 ∷ rest) =
      some (candidate_of s0 s1 (to_lowercase s2) s3 s4 s5 id (extra rest []))
  candidate_of_words to_lowercase id _ = none

  unfoldable pub candidate_to_jingle : (Text → Text) → Text → Text → Option Element
  unfolding words extra lookup
  candidate_to_jingle to_lowercase id value = candidate_of_words to_lowercase id (words value)

  -- The options behind the six fields.
  abbrev pub options : Element → Text
  options c = field (codes " typ ") (attr d (codes "type") c) (
      field (codes " raddr ") (attr d (codes "rel-addr") c) (
        field (codes " rport ") (attr d (codes "rel-port") c)
          (codes " generation " ++ unwrap_or (attr d (codes "generation") c) (codes "0"))))

  unfoldable pub candidate_to_sdp : Element → Option Text
  unfolding attr
  candidate_to_sdp c = do
    foundation ← attr d (codes "foundation") c
    component ← attr d (codes "component") c
    protocol ← attr d (codes "protocol") c
    priority ← attr d (codes "priority") c
    ip ← attr d (codes "ip") c
    port ← attr d (codes "port") c
    some (
        spaced foundation
          (spaced component (spaced protocol (spaced priority (spaced ip (port ++ options c))))))
