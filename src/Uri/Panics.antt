-- ===== src/Uri/Panics.antt =====
-- Where `percent_decode` panics, and `parse` with it.
use monocles_chat_desktop.Base.{
  ℕ, ◌≤◌, ◌<◌, ◌≡◌, refl, ◌∙◌, ap, Option, Bool, true, not, ◌&&◌, [], ◌∷◌, ◌++◌, none, Text, codes,
  all, trim, panicked, ◌==◌, arith, split_once,
}
use monocles_chat_desktop.Uri.Parse.{finish, parse_xmpp, parse_trimmed-xmpp, parse}
use monocles_chat_desktop.Uri.Percent.{
  push, escape_at, decode_bytes, decode_bytes_plain, percent_decode,
}
use monocles_chat_desktop.Uri.Utf8.{is_ascii, utf8_char, as_bytes, Bytes}

-- ASCII characters other than `%`, and other than the `?` that ends the JID.
abbrev pub is_plain : ℕ → Bool
is_plain c = is_ascii c && (not (c == b'%') && not (c == b'?'))

decode_bytes_broken :
    (x c : ℕ) (rest : Bytes)
    → x < 128
    → 128 ≤ c
    → c < 0x110000
    → decode_bytes (b'%' ∷ x ∷ (utf8_char c ++ rest)) ≡ panicked
unfolding decode_bytes escape_at utf8_char
decode_bytes_broken x c rest hx lo hi = ground arith

decode_prefix :
    (pre : Text) (bs : Bytes)
    → all is_plain pre ≡ true
    → decode_bytes bs ≡ panicked
    → decode_bytes (pre ++ bs) ≡ panicked
decode_prefix [] bs h e = e
decode_prefix (p ∷ pre) bs h e =
    decode_bytes_plain p (pre ++ bs) (ground arith)
    ∙ ap (push p) (decode_prefix pre bs (ground arith) e)

as_bytes-prefix : (pre t : Text) → all is_plain pre ≡ true → as_bytes (pre ++ t) ≡ pre ++ as_bytes t
unfolding as_bytes
as_bytes-prefix [] t h = refl
as_bytes-prefix (p ∷ pre) t h = ground (arith, as_bytes-prefix pre t)

as_bytes_broken :
    (x c : ℕ) (rest : Text)
    → x < 128
    → as_bytes (b'%' ∷ x ∷ c ∷ rest) ≡ b'%' ∷ x ∷ (utf8_char c ++ as_bytes rest)
unfolding as_bytes
as_bytes_broken x c rest hx = ground arith

decode_bytes-panicked :
    (pre rest : Text) (x c : ℕ)
    → all is_plain pre ≡ true
    → x < 128
    → 128 ≤ c
    → c < 0x110000
    → decode_bytes (as_bytes (pre ++ b'%' ∷ x ∷ c ∷ rest)) ≡ panicked
decode_bytes-panicked pre rest x c h hx lo hi =
    rw (as_bytes-prefix pre (b'%' ∷ x ∷ c ∷ rest) h, as_bytes_broken x c rest hx)
      (decode_prefix pre _ h (decode_bytes_broken x c (as_bytes rest) hx lo hi))

percent_decode-panicked :
    (pre rest : Text) (x c : ℕ)
    → all is_plain pre ≡ true
    → x < 128
    → 128 ≤ c
    → c < 0x110000
    → percent_decode (pre ++ b'%' ∷ x ∷ c ∷ rest) ≡ panicked
percent_decode-panicked pre rest x c h hx lo hi =
    unfold percent_decode in rw (decode_bytes-panicked pre rest x c h hx lo hi)

finish-panicked :
    (jid : Text) (query : Option Text) (sep : ℕ)
    → percent_decode jid ≡ panicked
    → finish jid query sep ≡ panicked
finish-panicked jid query sep h = unfold finish in rw h

-- A code that is no link is scanned: `parse` panics on every text `xmpp:…` in whose JID part the
-- first `%` is followed by an ASCII character and then by one that is not ASCII, provided that the
-- text does not end in white space and the JID part is the whole rest of the text.
pub parse-panicked :
    (pre rest : Text) (x c : ℕ)
    → all is_plain pre ≡ true
    → x < 128
    → 128 ≤ c
    → c < 0x110000
    → split_once b'?' (pre ++ b'%' ∷ x ∷ c ∷ rest) ≡ none
    → trim (codes "xmpp:" ++ (pre ++ b'%' ∷ x ∷ c ∷ rest))
      ≡ codes "xmpp:" ++ (pre ++ b'%' ∷ x ∷ c ∷ rest)
    → parse (codes "xmpp:" ++ (pre ++ b'%' ∷ x ∷ c ∷ rest)) ≡ panicked
parse-panicked pre rest x c h hx lo hi whole trimmed =
    unfold parse in
    rw trimmed (
      parse_trimmed-xmpp _
      ∙ (unfold parse_xmpp in
          rw (whole, parse_xmpp)
            (finish-panicked _ none b';' (percent_decode-panicked pre rest x c h hx lo hi))))
