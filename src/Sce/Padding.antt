-- ===== src/Sce/Padding.antt =====
-- The length of a serialized envelope.
use monocles_chat_desktop.Base.{
  ℕ, zero, suc, ◌+◌, ◌-◌, ◌*◌, ◌/◌, ◌%◌, ◌≡◌, refl, ap, true, [], ◌∷◌, ◌++◌, Text, codes, all,
  length, length-append, append_assoc, arith,
}
use monocles_chat_desktop.Sce.Envelope.{
  Escaping, Envelope, byte_len, char_at, rpad_alphabet, random_pad_chars, unpadded_xml,
  unpadded_len, to_xml, pad_bucket,
}
use monocles_chat_desktop.Uri.Utf8.{as_bytes, utf8_char, is_ascii, as_bytes-ascii}

as_bytes-append : (s t : Text) → as_bytes (s ++ t) ≡ as_bytes s ++ as_bytes t
unfolding as_bytes
as_bytes-append [] t = refl
as_bytes-append (c ∷ s) t = rw (as_bytes-append s t, append_assoc (utf8_char c))

byte_len-append : (s t : Text) → byte_len (s ++ t) ≡ byte_len s + byte_len t
unfolding byte_len
byte_len-append s t = rw (as_bytes-append s t) (length-append (as_bytes s) (as_bytes t))

all-char_at : (s : Text) (i : ℕ) → all is_ascii s ≡ true → is_ascii (char_at s i) ≡ true
all-char_at [] i h = refl
all-char_at (c ∷ s) zero h = ground arith
all-char_at (c ∷ s) (suc i) h = all-char_at s i (ground arith)

random_pad_chars-ascii : (rng : ℕ → ℕ) (n : ℕ) → all is_ascii (random_pad_chars rng n) ≡ true
unfolding random_pad_chars
random_pad_chars-ascii rng zero = refl
random_pad_chars-ascii rng (suc n) =
    ground (arith, all-char_at rpad_alphabet (rng n % 64) refl, random_pad_chars-ascii rng n)

length-random_pad_chars : (rng : ℕ → ℕ) (n : ℕ) → length (random_pad_chars rng n) ≡ n
unfolding random_pad_chars
length-random_pad_chars rng zero = refl
length-random_pad_chars rng (suc n) = ap suc (length-random_pad_chars rng n)

byte_len-random_pad_chars : (rng : ℕ → ℕ) (n : ℕ) → byte_len (random_pad_chars rng n) ≡ n
unfolding byte_len
byte_len-random_pad_chars rng n =
    rw (as_bytes-ascii _ (random_pad_chars-ascii rng n)) (length-random_pad_chars rng n)

byte_len-open_tag : byte_len (codes "<rpad>") ≡ 6
unfolding byte_len
byte_len-open_tag = refl

byte_len-close_tags : byte_len (codes "</rpad></envelope>") ≡ 18
unfolding byte_len
byte_len-close_tags = refl

byte_len-padded :
    (s t : Text)
    → byte_len (s ++ (codes "<rpad>" ++ (t ++ codes "</rpad></envelope>")))
      ≡ byte_len s + (6 + (byte_len t + 18))
byte_len-padded s t =
    rw
      (
        byte_len-append s (codes "<rpad>" ++ (t ++ codes "</rpad></envelope>")),
        byte_len-append (codes "<rpad>") (t ++ codes "</rpad></envelope>"),
        byte_len-append t (codes "</rpad></envelope>"),
        byte_len-open_tag,
        byte_len-close_tags,
      )
      refl

next_boundary :
    (u m : ℕ) → u ≡ m + 13 + 11 → m + (6 + (((u / 256 + 1) * 256 - u) + 18)) ≡ (u / 256 + 1) * 256
next_boundary u m h = omega arith

-- The serialized envelope ends on the next boundary of 256 bytes behind its unpadded length,
-- whatever random characters are drawn.
pub byte_len-to_xml :
    (x : Escaping) (rng : ℕ → ℕ) (e : Envelope)
    → byte_len (to_xml x rng e) ≡ (unpadded_len x e / pad_bucket + 1) * pad_bucket
unfolding to_xml unpadded_len
byte_len-to_xml x rng e =
    rw (byte_len-padded, byte_len-random_pad_chars)
      (next_boundary (unpadded_len x e) (byte_len (unpadded_xml x e)) refl)
