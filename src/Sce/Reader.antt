-- ===== src/Sce/Reader.antt =====
-- `from_xml`: a loop over the events of the XML reader.
use monocles_chat_desktop.Base.{
  ℕ, ◌+◌, ◌-◌, Bool, true, false, not, ◌&&◌, List, [], ◌∷◌, ◌++◌, Option, none, some, Text, codes,
  if◌then◌else◌, find, text_eq, is_empty, ◌==◌,
}
use monocles_chat_desktop.Sce.Envelope.{Escaping, Envelope}

-- An attribute: its key, its value as it stands in the text, and its normalised value where the
-- entities in it can be resolved.
pub record Attribute : Type 0 where
  pub key : Text
  pub raw : Text
  pub normalized : Option Text

-- `quick_xml::events::Event`, with what the loop reads of each. `failed` is an error of the
-- reader; the end of the list is the end of the text.
pub data XmlEvent : Type 0 where
  start empty : Text → List Attribute → XmlEvent
  finish text : Text → XmlEvent
  general_ref : Option Text → XmlEvent
  other failed : XmlEvent

unfoldable pub attr_str : List Attribute → Text → Text
unfolding text_eq
attr_str ats k = elim (find (λ a. text_eq a.key k) ats) [
  | none ↦ []
  | some a ↦ elim a.normalized [ some v ↦ v | none ↦ a.raw ]
]

-- `replace('\'', "&apos;")`.
unfoldable pub escape_quotes : Text → Text
escape_quotes [] = []
escape_quotes (c ∷ cs) = (if c == 39 then codes "&apos;" else c ∷ []) ++ escape_quotes cs

unfoldable pub attr_value : Escaping → Attribute → Text
unfolding escape_quotes
attr_value x a = elim a.normalized [ some v ↦ x.escape v | none ↦ escape_quotes a.raw ]

unfoldable pub attrs_str : Escaping → List Attribute → Text
unfolding attr_value
attrs_str x [] = []
attrs_str x (a ∷ ats) = b' ' ∷ (a.key ++ (codes "='" ++ (attr_value x a ++ (39 ∷ attrs_str x ats))))

abbrev pub reconstruct_start : Escaping → Text → List Attribute → Text
reconstruct_start x name ats = b'<' ∷ (name ++ (attrs_str x ats ++ codes ">"))

abbrev pub reconstruct_empty : Escaping → Text → List Attribute → Text
reconstruct_empty x name ats = b'<' ∷ (name ++ (attrs_str x ats ++ codes "/>"))

abbrev pub reconstruct_end : Text → Text
reconstruct_end name = codes "</" ++ (name ++ codes ">")

-- The variables of the loop.
pub record Loop : Type 0 where
  pub envelope : Envelope
  pub depth_in_content : ℕ
  pub in_content : Bool

abbrev pub initial : Loop
initial = record {
  envelope = record { content_inner = []; from = []; to = []; time = none };
  depth_in_content = 0;
  in_content = false;
}

abbrev pub push_content : Text → Loop → Loop
push_content s l = record l {
  envelope = record l.envelope { content_inner = l.envelope.content_inner ++ s };
}

-- The affixes stand beside the content.
unfoldable pub affix : Text → List Attribute → Envelope → Envelope
unfolding text_eq attr_str
affix name ats e =
    if text_eq name (codes "from")
    then record e { from = attr_str ats (codes "jid") }
    else if text_eq name (codes "to")
    then record e { to = attr_str ats (codes "jid") }
    else if text_eq name (codes "time")
    then (let s = attr_str ats (codes "stamp") in
        if not (is_empty s) then record e { time = some s } else e)
    else e

-- One round; an error of the reader ends the loop.
unfoldable pub step : Escaping → Loop → XmlEvent → Option Loop
unfolding affix
step x l (start name ats) = some (
    if text_eq name (codes "content") && not l.in_content
    then record l { in_content = true }
    else if l.in_content
    then push_content (reconstruct_start x name ats)
        (record l { depth_in_content = l.depth_in_content + 1 })
    else l)
step x l (finish name) = some (
    if text_eq name (codes "content") && l.depth_in_content == 0
    then record l { in_content = false }
    else if l.in_content
    then push_content (reconstruct_end name)
        (record l { depth_in_content = l.depth_in_content - 1 })
    else l)
step x l (empty name ats) = some (
    if l.in_content
    then push_content (reconstruct_empty x name ats) l
    else record l { envelope = affix name ats l.envelope })
step x l (text t) = some (if l.in_content then push_content t l else l)
step x l (general_ref none) = some l
step x l (general_ref (some name)) =
    some (if l.in_content then push_content (b'&' ∷ (name ++ codes ";")) l else l)
step x l other = some l
step x l failed = none

unfoldable pub run : Escaping → Loop → List XmlEvent → Option Envelope
run x l [] = some l.envelope
run x l (e ∷ es) = elim (step x l e) [ none ↦ none | some l' ↦ run x l' es ]

-- `none` is `BundleParse`.
unfoldable pub from_xml : Escaping → List XmlEvent → Option Envelope
unfolding run step attrs_str
from_xml x events = run x initial events
