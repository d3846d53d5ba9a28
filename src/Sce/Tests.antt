-- ===== src/Sce/Tests.antt =====
-- An envelope that is written and read.
use monocles_chat_desktop.Base.{◌+◌, ◌*◌, ◌/◌, ◌≡◌, ◌≢◌, refl, [], ◌∷◌, some, Text, codes, arith}
use monocles_chat_desktop.Base.{◌↔◌}
use monocles_chat_desktop.Sce.Binding.{Same, verify_binding-from_xml}
use monocles_chat_desktop.Sce.Contents.{events}
use monocles_chat_desktop.Sce.Envelope.{bound, verify_binding}
use monocles_chat_desktop.Sce.Reader.{affix}
use monocles_chat_desktop.Sce.Contents.{
  Forest, attribute, document, element, characters, empty_element, from_xml-document, nil, render,
}
use monocles_chat_desktop.Sce.Envelope.{
  Envelope, Escaping, byte_len, pad_bucket, to_xml, unpadded_len,
}
use monocles_chat_desktop.Sce.Padding.{byte_len-to_xml}
use monocles_chat_desktop.Sce.Reader.{from_xml}

-- Texts that need no escaping.
abbrev plain : Escaping
plain = record { escape = λ s. s; unescape = λ s. some s }

abbrev hello : Envelope
hello = record {
  content_inner = codes "<body xmlns='jabber:client'>hé</body>";
  from = codes "a@x";
  to = codes "b@y";
  time = some (codes "2026-01-01T10:00:00Z");
}

byte_len-to_xml_example :
    byte_len (to_xml plain (λ i. i) hello)
    ≡ (unpadded_len plain hello / pad_bucket + 1) * pad_bucket
byte_len-to_xml_example = byte_len-to_xml plain (λ i. i) hello

-- A `<to/>` and a nested `<content>` inside of the content.
abbrev nested : Forest
nested =
    element (codes "content") []
      (empty_element (codes "to") (attribute (codes "jid") (codes "eve@z") ∷ []) nil)
      (characters (codes "text") nil)

abbrev stamp : Text
stamp = codes "2026-01-01T10:00:00Z"

stamp_is_there : some stamp ≢ some []
stamp_is_there e = ground arith

from_xml-document_example :
    from_xml plain (document nested (codes "a@x") (codes "b@y") (some stamp) (codes "pad"))
    ≡ some (record {
      content_inner = render plain nested;
      from = codes "a@x";
      to = codes "b@y";
      time = some stamp;
    })
from_xml-document_example =
    from_xml-document plain nested (codes "a@x") (codes "b@y") (some stamp) (codes "pad")
      stamp_is_there

abbrev nested_envelope : Envelope
nested_envelope = record {
  content_inner = render plain nested;
  from = codes "a@x";
  to = codes "b@y";
  time = some stamp;
}

nested_read :
    from_xml plain (document nested (codes "a@x") (codes "b@y") (some stamp) (codes "pad"))
    ≡ some nested_envelope
unfolding from_xml document events render affix
nested_read = refl

verify_binding-from_xml_example :
    (verify_binding nested_envelope (codes "B@Y") (codes "a@x") ≡ bound)
    ↔ (Same (codes "b@y") (codes "B@Y") × Same (codes "a@x") (codes "a@x"))
verify_binding-from_xml_example =
    verify_binding-from_xml plain nested (codes "a@x") (codes "b@y") (codes "B@Y") (codes "a@x")
      (some stamp) (codes "pad") stamp_is_there nested_read
