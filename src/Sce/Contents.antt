-- ===== src/Sce/Contents.antt =====
-- What `from_xml` makes of the content, and of the affixes beside it.
use monocles_chat_desktop.Base.{
  ℕ, ◌+◌, ◌-◌, ◌≡◌, ◌≢◌, refl, ap, ◌∙◌, true, false, List, [], ◌∷◌, ◌++◌, Option, none, some, Text,
  codes, append_assoc, append-nil, arith, text_eq, Bool-cases, inl, inr, ◌==◌,
}
use monocles_chat_desktop.Sce.Envelope.{Escaping, Envelope}
use monocles_chat_desktop.Sce.Reader.{
  Attribute, XmlEvent, start, empty, finish, text, general_ref, Loop, initial, reconstruct_start,
  reconstruct_empty, reconstruct_end, step, run, from_xml, affix, attr_str,
}

-- A well-formed piece of content: an element with a piece of content in it, and what follows.
pub data Forest : Type 0 where
  nil : Forest
  element : Text → List Attribute → Forest → Forest → Forest
  empty_element : Text → List Attribute → Forest → Forest
  characters : Text → Forest → Forest
  reference : Text → Forest → Forest

-- The events that the reader makes of it, with those that come behind it.
unfoldable pub events : Forest → List XmlEvent → List XmlEvent
events nil es = es
events (element name ats f g) es = start name ats ∷ events f (finish name ∷ events g es)
events (empty_element name ats g) es = empty name ats ∷ events g es
events (characters t g) es = text t ∷ events g es
events (reference name g) es = general_ref (some name) ∷ events g es

-- Its text.
unfoldable pub render : Escaping → Forest → Text
render x nil = []
render x (element name ats f g) =
    reconstruct_start x name ats ++ (render x f ++ (reconstruct_end name ++ render x g))
render x (empty_element name ats g) = reconstruct_empty x name ats ++ render x g
render x (characters t g) = t ++ render x g
render x (reference name g) = (b'&' ∷ (name ++ codes ";")) ++ render x g

-- The state of the loop inside of the content.
abbrev inside : Envelope → ℕ → Text → Loop
inside e d s = record {
  envelope = record e { content_inner = s };
  depth_in_content = d;
  in_content = true;
}

succ_positive : (d : ℕ) → (d + 1 == 0) ≡ false
succ_positive d = ground arith

succ_pred : (d : ℕ) → d + 1 - 1 ≡ d
succ_pred d = omega arith

append_pieces : (s a b c d : Text) → (((s ++ a) ++ b) ++ c) ++ d ≡ s ++ (a ++ (b ++ (c ++ d)))
append_pieces s a b c d =
    rw (append_assoc ((s ++ a) ++ b) c d, append_assoc (s ++ a) b (c ++ d))
      (append_assoc s a (b ++ (c ++ d)))

module _ (x : Escaping) (e : Envelope) where
  run-step :
      (l l' : Loop) (ev : XmlEvent) (es : List XmlEvent)
      → step x l ev ≡ some l'
      → run x l (ev ∷ es) ≡ run x l' es
  unfolding run
  run-step l l' ev es h = rw (h, run) refl

  step-start :
      (name : Text) (ats : List Attribute) (d : ℕ) (s : Text)
      → step x (inside e d s) (start name ats)
        ≡ some (inside e (d + 1) (s ++ reconstruct_start x name ats))
  unfolding step
  step-start name ats d s = elim (Bool-cases (text_eq name (codes "content"))) [
    | inl h ↦ rw h refl
    | inr h ↦ rw h refl
  ]

  step-finish :
      (name : Text) (d : ℕ) (s : Text)
      → step x (inside e (d + 1) s) (finish name) ≡ some (inside e d (s ++ reconstruct_end name))
  unfolding step
  step-finish name d s = elim (Bool-cases (text_eq name (codes "content"))) [
    | inl h ↦ rw (h, succ_positive d, succ_pred d) refl
    | inr h ↦ rw (h, succ_pred d) refl
  ]

  -- Whatever the elements of a piece of content are called, the loop appends its text and comes
  -- back to the depth that it had.
  run-events :
      (f : Forest) (d : ℕ) (s : Text) (es : List XmlEvent)
      → run x (inside e d s) (events f es) ≡ run x (inside e d (s ++ render x f)) es
  unfolding events render step
  run-events nil d s es = rw (append-nil s) refl
  run-events (element name ats f g) d s es =
      run-step _ _ (start name ats) (events f (finish name ∷ events g es)) (step-start name ats d s)
      ∙ (run-events f (d + 1) (s ++ reconstruct_start x name ats) (finish name ∷ events g es)
          ∙ (run-step _ _ (finish name) (events g es) (step-finish name d _)
              ∙ (run-events g d _ es
                  ∙ ap (λ t. run x (inside e d t) es)
                      (append_pieces s (reconstruct_start x name ats) (render x f)
                        (reconstruct_end name) (render x g)))))
  run-events (empty_element name ats g) d s es =
      run-step _ _ (empty name ats) (events g es) refl
      ∙ (run-events g d (s ++ reconstruct_empty x name ats) es
          ∙ ap (λ t. run x (inside e d t) es)
              (append_assoc s (reconstruct_empty x name ats) (render x g)))
  run-events (characters t g) d s es =
      run-step _ _ (text t) (events g es) refl
      ∙ (run-events g d (s ++ t) es
          ∙ ap (λ u. run x (inside e d u) es) (append_assoc s t (render x g)))
  run-events (reference name g) d s es =
      run-step _ _ (general_ref (some name)) (events g es) refl
      ∙ (run-events g d (s ++ (b'&' ∷ (name ++ codes ";"))) es
          ∙ ap (λ t. run x (inside e d t) es)
              (append_assoc s (b'&' ∷ (name ++ codes ";")) (render x g)))

-- Beside the content.
abbrev outside : Envelope → Loop
outside e = record { envelope = e; depth_in_content = 0; in_content = false }

run-content :
    (x : Escaping) (e : Envelope) (ats : List Attribute) (f : Forest) (es : List XmlEvent)
    → run x (outside e) (start (codes "content") ats ∷ events f (finish (codes "content") ∷ es))
      ≡ run x (outside (record e { content_inner = e.content_inner ++ render x f })) es
unfolding step text_eq
run-content x e ats f es =
    run-step x e _ (inside e 0 e.content_inner) (start (codes "content") ats) _ refl
    ∙ (run-events x e f 0 e.content_inner (finish (codes "content") ∷ es)
        ∙ run-step x e (inside e 0 (e.content_inner ++ render x f)) _ (finish (codes "content")) es
            refl)

-- An attribute whose value can be read.
abbrev pub attribute : Text → Text → Attribute
attribute k v = record { key = k; raw = v; normalized = some v }

abbrev pub time_events : Option Text → List XmlEvent
time_events none = []
time_events (some t) = empty (codes "time") (attribute (codes "stamp") t ∷ []) ∷ []

-- The events of an envelope, in the order in which `to_xml` writes its parts.
unfoldable pub document : Forest → Text → Text → Option Text → Text → List XmlEvent
document f from to time pad =
    start (codes "envelope") (attribute (codes "xmlns") (codes "urn:xmpp:sce:1") ∷ [])
    ∷ start (codes "content") []
    ∷ events f (
        finish (codes "content")
        ∷ (time_events time
            ++ (empty (codes "from") (attribute (codes "jid") from ∷ [])
                ∷ empty (codes "to") (attribute (codes "jid") to ∷ [])
                ∷ start (codes "rpad") []
                ∷ text pad
                ∷ finish (codes "rpad")
                ∷ finish (codes "envelope")
                ∷ [])))

-- What is read of an envelope whose content is any well-formed piece: the text of the content,
-- and the sender, the receiver and the time that stand beside it, whatever elements stand in the
-- content. The time, where there is one, is not empty.
pub from_xml-document :
    (x : Escaping) (f : Forest) (from to : Text) (time : Option Text) (pad : Text)
    → time ≢ some []
    → from_xml x (document f from to time pad)
      ≡ some (record { content_inner = render x f; from = from; to = to; time = time })
unfolding from_xml document run step affix attr_str text_eq
from_xml-document x f from to none pad h = run-content x initial.envelope [] f _ ∙ refl
from_xml-document x f from to (some []) pad h = elim (h refl) [ ]
from_xml-document x f from to (some (c ∷ t)) pad h = run-content x initial.envelope [] f _ ∙ refl
