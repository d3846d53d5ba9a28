-- ===== src/Uri/Percent.antt =====
-- `percent_decode` and `encode_jid`.
use monocles_chat_desktop.Base.{
  ℕ, ◌+◌, ◌-◌, ◌*◌, ◌/◌, ◌%◌, ◌≡◌, refl, Bool, true, false, ◌&&◌, ◌||◌, [], ◌∷◌, ◌++◌, Option, none,
  some, ltb, leb, ◌==◌, if◌then◌else◌, Text, within, Outcome, returned, panicked, ◌>>=◌,
}
use monocles_chat_desktop.Uri.Utf8.{Bytes, utf8_char, as_bytes, from_utf8_lossy}

unfoldable pub hex_value : ℕ → Option ℕ
hex_value c =
    if within b'0' b'9' c
    then some (c - b'0')
    else if within b'a' b'f' c
    then some (c - b'a' + 10)
    else if within b'A' b'F' c
    then some (c - b'A' + 10)
    else none

-- `u8::from_str_radix(s, 16)` on a text of two bytes: a leading `+` is accepted.
unfoldable pub from_str_radix : ℕ → ℕ → Option ℕ
unfolding hex_value
from_str_radix h l = if h == b'+' then hex_value l else elim (hex_value h) [
  | none ↦ none
  | some a ↦ elim (hex_value l) [ none ↦ none | some b ↦ some (a * 16 + b) ]
]

-- `str::is_char_boundary` at the position where `rest` begins.
unfoldable pub is_char_boundary : Bytes → Bool
is_char_boundary [] = true
is_char_boundary (b ∷ _) = ltb b 0x80 || leb 0xC0 b

abbrev pub push : ℕ → Outcome Bytes → Outcome Bytes
push b m = m >>= λ bs. returned (b ∷ bs)

-- The slice of the two bytes behind a `%`, read as a number. It panics where one of its ends is
-- inside a character.
unfoldable pub escape_at : ℕ → ℕ → Bytes → Outcome (Option ℕ)
unfolding from_str_radix is_char_boundary
escape_at h l rest =
    if is_char_boundary (h ∷ l ∷ rest) && is_char_boundary rest
    then returned (from_str_radix h l)
    else panicked

-- The loop of `percent_decode`, on the bytes from index `i` on.
unfoldable pub decode_bytes : Bytes → Outcome Bytes
decode_bytes [] = returned []
decode_bytes (b ∷ []) = push b (decode_bytes [])
decode_bytes (b ∷ h ∷ []) = push b (decode_bytes (h ∷ []))
decode_bytes (b ∷ h ∷ l ∷ rest) = elim (b == b'%') [
  | false ↦ push b (decode_bytes (h ∷ l ∷ rest))
  | true ↦ escape_at h l rest >>= elim [
    | some byte ↦ push byte (decode_bytes rest)
    | none ↦ push b (decode_bytes (h ∷ l ∷ rest))
  ]
]

unfoldable pub percent_decode : Text → Outcome Text
unfolding decode_bytes escape_at as_bytes from_utf8_lossy
percent_decode value = decode_bytes (as_bytes value) >>= λ out. returned (from_utf8_lossy out)

-- An upper-case hexadecimal digit, as `{:02X}` writes it.
abbrev pub hex_digit : ℕ → ℕ
hex_digit n = if ltb n 10 then b'0' + n else b'A' + (n - 10)

unfoldable pub escape_bytes : Bytes → Text
escape_bytes [] = []
escape_bytes (b ∷ bs) = b'%' ∷ hex_digit (b / 16) ∷ hex_digit (b % 16) ∷ escape_bytes bs

abbrev pub must_escape : ℕ → Bool
must_escape c = c == b'?' || c == b';' || c == b'#' || c == b'%' || c == b' '

unfoldable pub encode_jid : Text → Text
unfolding escape_bytes utf8_char
encode_jid [] = []
encode_jid (c ∷ cs) =
    (if must_escape c then escape_bytes (utf8_char c) else c ∷ []) ++ encode_jid cs

-- A byte other than `%` is copied.
pub decode_bytes_plain :
    (b : ℕ) (rest : Bytes)
    → (b == b'%') ≡ false
    → decode_bytes (b ∷ rest) ≡ push b (decode_bytes rest)
unfolding decode_bytes
decode_bytes_plain b [] h = refl
decode_bytes_plain b (x ∷ []) h = refl
decode_bytes_plain b (x ∷ l ∷ rest) h = rw (h, decode_bytes)
