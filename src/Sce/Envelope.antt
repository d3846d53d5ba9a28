-- ===== src/Sce/Envelope.antt =====
-- `Envelope`, `to_xml`, `body` and `verify_binding`.
use monocles_chat_desktop.Base.{
  ℕ, zero, suc, ◌+◌, ◌-◌, ◌*◌, ◌/◌, ◌%◌, not, [], ◌∷◌, ◌++◌, Option, none, some, Text, codes,
  if◌then◌else◌, length, is_some, strip_prefix, split_once, map_or, eq_ignore_case,
}
use monocles_chat_desktop.Uri.Parse.{split_once_text}
use monocles_chat_desktop.Uri.Utf8.{as_bytes}

-- `quick_xml::escape`: `unescape` fails on an entity that it does not know.
pub record Escaping : Type 0 where
  pub escape : Text → Text
  pub unescape : Text → Option Text

pub record Envelope : Type 0 where
  pub content_inner : Text
  pub from : Text
  pub to : Text
  pub time : Option Text

abbrev pub ns_sce : Text
ns_sce = codes "urn:xmpp:sce:1"

abbrev pub pad_bucket : ℕ
pad_bucket = 256

-- The length of a text in bytes, `String::len`.
unfoldable pub byte_len : Text → ℕ
unfolding as_bytes
byte_len s = length (as_bytes s)

abbrev pub rpad_alphabet : Text
rpad_alphabet = codes "ABCDEFGHIJKLMNOPQRSTUVWXYZabcdefghijklmnopqrstuvwxyz0123456789+/"

abbrev pub char_at : Text → ℕ → ℕ
char_at [] i = 0
char_at (c ∷ cs) zero = c
char_at (c ∷ cs) (suc i) = char_at cs i

-- `random_pad_chars`: `rng i` is the random number that is drawn when `i` more are to come.
unfoldable pub random_pad_chars : (ℕ → ℕ) → ℕ → Text
random_pad_chars rng zero = []
random_pad_chars rng (suc n) = char_at rpad_alphabet (rng n % 64) ∷ random_pad_chars rng n

unfoldable pub xml_unescape : Escaping → Text → Text
xml_unescape x s = elim (x.unescape s) [ some v ↦ v | none ↦ s ]

unfoldable pub new : Escaping → Text → Text → Text → Option Text → Text → Envelope
new x body from to time extra_content = record {
  content_inner =
      codes "<body xmlns='jabber:client'>" ++ (x.escape body ++ (codes "</body>" ++ extra_content));
  from = from;
  to = to;
  time = time;
}

unfoldable pub with_content : Text → Text → Text → Option Text → Envelope
with_content content_inner from to time = record {
  content_inner = content_inner;
  from = from;
  to = to;
  time = time;
}

abbrev pub time_element : Escaping → Option Text → Text
time_element x none = []
time_element x (some t) = codes "<time stamp='" ++ (x.escape t ++ codes "'/>")

-- The text in front of the padding.
unfoldable pub unpadded_xml : Escaping → Envelope → Text
unpadded_xml x e =
    codes "<envelope xmlns='"
    ++ (ns_sce
        ++ (codes "'><content>"
            ++ (e.content_inner
                ++ (codes "</content>"
                    ++ (time_element x e.time
                        ++ (codes "<from jid='"
                            ++ (x.escape e.from
                                ++ (codes "'/><to jid='" ++ (x.escape e.to ++ codes "'/>")))))))))

-- The length with an empty `<rpad>`.
unfoldable pub unpadded_len : Escaping → Envelope → ℕ
unpadded_len x e = byte_len (unpadded_xml x e) + 13 + 11

unfoldable pub to_xml : Escaping → (ℕ → ℕ) → Envelope → Text
to_xml x rng e =
    let unpadded = unpadded_len x e in
    let target = (unpadded / pad_bucket + 1) * pad_bucket in
    unpadded_xml x e
    ++ (codes "<rpad>" ++ (random_pad_chars rng (target - unpadded) ++ codes "</rpad></envelope>"))

-- `s[s.find(p)?..]`.
unfoldable pub suffix_at : Text → Text → Option Text
suffix_at p [] = if is_some (strip_prefix p []) then some [] else none
suffix_at p (c ∷ cs) =
    let later = suffix_at p cs in if is_some (strip_prefix p (c ∷ cs)) then some (c ∷ cs) else later

unfoldable pub body : Escaping → Envelope → Option Text
body x e = map_or (suffix_at (codes "<body") e.content_inner) none (λ open_tag.
    map_or (split_once b'>' open_tag) none (λ tag.
      map_or (split_once_text (codes "</body>") tag.1) none
        (λ content. some (xml_unescape x content.0))))

-- The results of `verify_binding`: the errors are `BadSignature` with these messages.
pub data Binding : Type 0 where
  bound to_mismatch from_mismatch : Binding

unfoldable pub verify_binding : Envelope → Text → Text → Binding
unfolding eq_ignore_case
verify_binding e expected_to expected_from =
    if not (eq_ignore_case e.to expected_to)
    then to_mismatch
    else if not (eq_ignore_case e.from expected_from)
    then from_mismatch
    else bound
