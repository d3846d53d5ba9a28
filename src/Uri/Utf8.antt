-- ===== src/Uri/Utf8.antt =====
-- UTF-8, of Rust's standard library: `str::as_bytes` and `String::from_utf8_lossy`.
use monocles_chat_desktop.Base.{
  ℕ, ◌+◌, ◌-◌, ◌*◌, ◌/◌, ◌%◌, ◌≡◌, refl, Bool, true, List, [], ◌∷◌, ◌++◌, ltb, ◌==◌, if◌then◌else◌,
  all, Text, within, arith,
}

abbrev pub Bytes : Type 0
Bytes = List ℕ

unfoldable pub utf8_char : ℕ → Bytes
utf8_char c =
    if ltb c 0x80
    then c ∷ []
    else if ltb c 0x800
    then (0xC0 + c / 64) ∷ (0x80 + c % 64) ∷ []
    else if ltb c 0x10000
    then (0xE0 + c / 4096) ∷ (0x80 + c / 64 % 64) ∷ (0x80 + c % 64) ∷ []
    else (0xF0 + c / 262144) ∷ (0x80 + c / 4096 % 64) ∷ (0x80 + c / 64 % 64) ∷ (0x80 + c % 64) ∷ []

unfoldable pub as_bytes : Text → Bytes
unfolding utf8_char
as_bytes [] = []
as_bytes (c ∷ cs) = utf8_char c ++ as_bytes cs

-- The decoder waits for a first byte, or for `n` more bytes, the next from `lo` to `hi`.
pub data Decoder : Type 0 where
  start : Decoder
  need : ℕ → ℕ → ℕ → ℕ → Decoder

abbrev pub replacement : ℕ
replacement = 0xFFFD

unfoldable pub first_byte : ℕ → Text × Decoder
first_byte b =
    if ltb b 0x80
    then (b ∷ [], start)
    else if within 0xC2 0xDF b
    then ([], need 1 0x80 0xBF (b - 0xC0))
    else if b == 0xE0
    then ([], need 2 0xA0 0xBF 0)
    else if b == 0xED
    then ([], need 2 0x80 0x9F 13)
    else if within 0xE1 0xEF b
    then ([], need 2 0x80 0xBF (b - 0xE0))
    else if b == 0xF0
    then ([], need 3 0x90 0xBF 0)
    else if within 0xF1 0xF3 b
    then ([], need 3 0x80 0xBF (b - 0xF0))
    else if b == 0xF4
    then ([], need 3 0x80 0x8F 4)
    else (replacement ∷ [], start)

unfoldable pub next_byte : Decoder → ℕ → Text × Decoder
unfolding first_byte
next_byte start b = first_byte b
next_byte (need n lo hi acc) b =
    let value = acc * 64 + (b - 0x80) in
    if within lo hi b
    then if n == 1 then (value ∷ [], start) else ([], need (n - 1) 0x80 0xBF value)
    else (replacement ∷ (first_byte b).0, (first_byte b).1)

unfoldable pub decode_from : Decoder → Bytes → Text
unfolding next_byte
decode_from start [] = []
decode_from (need _ _ _ _) [] = replacement ∷ []
decode_from d (b ∷ bs) = let (out, d') = next_byte d b in out ++ decode_from d' bs

unfoldable pub from_utf8_lossy : Bytes → Text
unfolding decode_from
from_utf8_lossy = decode_from start

abbrev pub is_ascii : ℕ → Bool
is_ascii c = ltb c 0x80

pub as_bytes-ascii : (s : Text) → all is_ascii s ≡ true → as_bytes s ≡ s
unfolding as_bytes
as_bytes-ascii [] h = refl
as_bytes-ascii (c ∷ s) h = ground (arith, as_bytes-ascii s)

decode_from-ascii : (s : Text) → all is_ascii s ≡ true → decode_from start s ≡ s
unfolding decode_from
decode_from-ascii [] h = refl
decode_from-ascii (c ∷ s) h = ground (arith, decode_from-ascii s)

pub from_utf8_lossy-ascii : (s : Text) → all is_ascii s ≡ true → from_utf8_lossy s ≡ s
unfolding from_utf8_lossy
from_utf8_lossy-ascii = decode_from-ascii
