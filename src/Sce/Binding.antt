-- ===== src/Sce/Binding.antt =====
-- Which envelopes pass the binding check.
use monocles_chat_desktop.Base.{
  ◌≡◌, ◌≢◌, ◌↔◌, ap, sym, ◌∙◌, true, [], Option, some, Text, eq_ignore_case, text_eq_iff,
  to_ascii_lowercase, unwrap_or, arith,
}
use monocles_chat_desktop.Sce.Contents.{Forest, document, from_xml-document, render}
use monocles_chat_desktop.Sce.Envelope.{Envelope, Escaping, bound, verify_binding}
use monocles_chat_desktop.Sce.Reader.{from_xml}

pub eq_ignore_case_iff :
    (s t : Text) → (eq_ignore_case s t ≡ true) ↔ (to_ascii_lowercase s ≡ to_ascii_lowercase t)
unfolding eq_ignore_case
eq_ignore_case_iff s t = text_eq_iff (to_ascii_lowercase s) (to_ascii_lowercase t)

-- The texts are equal up to the case of ASCII letters.
abbrev pub Same : Text → Text → Type 0
Same s t = to_ascii_lowercase s ≡ to_ascii_lowercase t

verify_binding_bound :
    (e : Envelope) (to from : Text)
    → (verify_binding e to from ≡ bound) ↔ (Same e.to to × Same e.from from)
unfolding verify_binding
verify_binding_bound e to from =
    ground (arith, eq_ignore_case_iff e.to to, eq_ignore_case_iff e.from from)

-- An envelope that is read, with any well-formed content in it, passes the binding check exactly
-- if the receiver and the sender that stand beside its content are the expected ones, up to the
-- case of ASCII letters; what stands in the content has no say. The time, where there is one, is
-- not empty.
pub verify_binding-from_xml :
    (x : Escaping) (f : Forest) (from to me sender : Text) (time : Option Text) (pad : Text)
    {e : Envelope}
    → time ≢ some []
    → from_xml x (document f from to time pad) ≡ some e
    → (verify_binding e me sender ≡ bound) ↔ (Same to me × Same from sender)
verify_binding-from_xml x f from to me sender time pad {e} h read =
    let r : Envelope = record { content_inner = render x f; from = from; to = to; time = time } in
    let same : r ≡ e =
      ap (λ o. unwrap_or o r) (sym (from_xml-document x f from to time pad h) ∙ read) in
    rw (sym same) (verify_binding_bound r me sender)
