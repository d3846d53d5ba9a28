-- ===== src/Sce/Body.antt =====
-- The body of an envelope that was made for it.
use monocles_chat_desktop.Base.{
  ◌≡◌, refl, false, [], ◌∷◌, ◌++◌, Option, some, Text, codes, contains, strip_prefix, split_once,
  arith,
}
use monocles_chat_desktop.Sce.Envelope.{Escaping, new, body, suffix_at, xml_unescape}
use monocles_chat_desktop.Uri.Parse.{split_once_text}

-- A text with no `<` in it ends where the closing tag begins.
split_once_text-close :
    (s rest : Text)
    → contains b'<' s ≡ false
    → split_once_text (codes "</body>") (s ++ (codes "</body>" ++ rest)) ≡ some (s, rest)
unfolding split_once_text strip_prefix contains
split_once_text-close [] rest h = refl
split_once_text-close (c ∷ s) rest h = ground (arith, split_once_text-close s rest)

-- An envelope that is made for a body gives that body back, whatever other content stands behind
-- it, where unescaping undoes escaping and an escaped text has no `<`.
pub body-new :
    (x : Escaping) (b from to extra_content : Text) (time : Option Text)
    → contains b'<' (x.escape b) ≡ false
    → x.unescape (x.escape b) ≡ some b
    → body x (new x b from to time extra_content) ≡ some b
unfolding body new suffix_at split_once strip_prefix xml_unescape
body-new x b from to extra_content time h e =
    rw (split_once_text-close (x.escape b) extra_content h, e, xml_unescape) refl
