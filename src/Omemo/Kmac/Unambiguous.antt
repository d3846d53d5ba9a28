-- ===== src/Omemo/Kmac/Unambiguous.antt =====
-- What `kmac256` absorbs determines the key and the data.
use mathlib.Core.List.{append_cancel_right}
use monocles_chat_desktop.Base.{
  ℕ, zero, suc, ◌+◌, ◌-◌, ◌*◌, ◌<◌, ◌≡◌, refl, sym, ap, ◌∙◌, [], ◌∷◌, ◌++◌, none, some, unwrap_or,
  inl, inr, Option-cases, length, take, drop, append_assoc, arith,
}
use monocles_chat_desktop.Omemo.Bytes.{
  be_bytes, first_nonzero, value, capacity, value-be_bytes, length-be_bytes,
}
use monocles_chat_desktop.Omemo.Kmac.{
  left_encode, right_encode, encode_string, zeros, div_ceil, bytepad, kmac256_rate, absorbed,
}
use monocles_chat_desktop.Uri.Utf8.{Bytes}

-- Leading zeros do not count.
value-none : (bs : Bytes) → first_nonzero bs ≡ none → value 0 bs ≡ 0
value-none [] h = refl
value-none (b ∷ bs) h = ground (arith, value-none bs)

value-drop-none : (bs : Bytes) (n : ℕ) → first_nonzero bs ≡ none → value 0 (drop n bs) ≡ 0
value-drop-none bs zero h = value-none bs h
value-drop-none [] (suc n) h = refl
value-drop-none (b ∷ bs) (suc n) h = ground (arith, value-drop-none bs n)

value-drop-some :
    (bs : Bytes) (k : ℕ)
    → first_nonzero bs ≡ some k
    → (value 0 (drop k bs) ≡ value 0 bs) × (k < length bs)
value-drop-some [] k h = cc
value-drop-some (b ∷ bs) zero h = ground arith
value-drop-some (b ∷ bs) (suc k) h = ground (arith, value-drop-some bs k)

take-length_append : (xs ys : Bytes) → take (length xs) (xs ++ ys) ≡ xs
take-length_append [] ys = refl
take-length_append (x ∷ xs) ys = λ i. x ∷ take-length_append xs ys i

drop-length_append : (xs ys : Bytes) → drop (length xs) (xs ++ ys) ≡ ys
drop-length_append [] ys = refl
drop-length_append (x ∷ xs) ys = drop-length_append xs ys

length-drop : (n : ℕ) (xs : Bytes) → length (drop n xs) ≡ length xs - n
length-drop zero xs = omega arith
length-drop (suc n) [] = omega arith
length-drop (suc n) (x ∷ xs) = omega (arith, length-drop n xs)

-- What `left_encode` wrote, and the rest.
abbrev decode : Bytes → ℕ × Bytes
decode [] = (0, [])
decode (n ∷ bs) = (value 0 (take n bs), drop n bs)

abbrev first_of : Bytes → ℕ
first_of bytes = unwrap_or (first_nonzero bytes) 7

first_of_lem :
    (bytes : Bytes)
    → length bytes ≡ 8
    → (value 0 (drop (first_of bytes) bytes) ≡ value 0 bytes) × (first_of bytes < 8)
first_of_lem bytes e = elim (Option-cases (first_nonzero bytes)) [
  | inl h ↦ rw h (value-drop-none bytes 7 h ∙ sym (value-none bytes h), omega arith)
  | inr (k, h) ↦ rw h (ground (arith, value-drop-some bytes k h))
]

decode-left_encode :
    (v : ℕ) (rest : Bytes) → v < capacity 8 → decode (left_encode v ++ rest) ≡ (v, rest)
unfolding left_encode
decode-left_encode v rest h =
    let bytes = be_bytes 8 v in
    let (same, few) = first_of_lem bytes (length-be_bytes 8 v) in
    let xs = drop (first_of bytes) bytes in
    let size : 8 - first_of bytes ≡ length xs =
      omega (arith, length-be_bytes 8 v, length-drop (first_of bytes) bytes) in
    rw (size, take-length_append xs rest, drop-length_append xs rest, same)
      (ap (λ (n : ℕ). (n, rest)) (value-be_bytes 8 v h))

decode-encode_string :
    (s rest : Bytes)
    → length s * 8 < capacity 8
    → decode (encode_string s ++ rest) ≡ (length s * 8, s ++ rest)
unfolding encode_string
decode-encode_string s rest h =
    ap decode (append_assoc (left_encode (length s * 8)) s rest)
    ∙ decode-left_encode (length s * 8) (s ++ rest) h

-- Lists of one length that begin two equal ones are equal, and so is what follows.
pub split_same : (s t r r' : Bytes) → length s ≡ length t → s ++ r ≡ t ++ r' → (s ≡ t) × (r ≡ r')
split_same s t r r' same e = (
  sym (take-length_append s r)
      ∙ ap (take (length s)) e
      ∙ ap (λ (n : ℕ). take n (t ++ r')) same
      ∙ take-length_append t r',
  sym (drop-length_append s r)
      ∙ ap (drop (length s)) e
      ∙ ap (λ (n : ℕ). drop n (t ++ r')) same
      ∙ drop-length_append t r',
)

-- A string's end can be told from what follows.
pub encode_string-injective :
    (s t r r' : Bytes)
    → length s * 8 < capacity 8
    → length t * 8 < capacity 8
    → encode_string s ++ r ≡ encode_string t ++ r'
    → (s ≡ t) × (r ≡ r')
encode_string-injective s t r r' h h' e =
    let read : (length s * 8, s ++ r) ≡ (length t * 8, t ++ r') =
      sym (decode-encode_string s r h) ∙ ap decode e ∙ decode-encode_string t r' h' in
    split_same s t r r' (omega (arith, ap (λ (p : ℕ × Bytes). p.0) read))
      (ap (λ (p : ℕ × Bytes). p.1) read)

padding : Bytes → ℕ → Bytes
padding x w =
    zeros (div_ceil (length (left_encode w) + length x) w * w - length (left_encode w ++ x))

bytepad-append :
    (x : Bytes) (w : ℕ) (rest : Bytes)
    → bytepad x w ++ rest ≡ left_encode w ++ (x ++ (padding x w ++ rest))
unfolding bytepad padding
bytepad-append x w rest = simp append_assoc

-- For one length of the output, `kmac256` absorbs the same bytes only for the same key and the
-- same data.
pub absorbed-injective :
    (key key' input input' : Bytes) (len : ℕ)
    → length key * 8 < capacity 8
    → length key' * 8 < capacity 8
    → absorbed key input len ≡ absorbed key' input' len
    → (key ≡ key') × (input ≡ input')
absorbed-injective key key' input input' len h h' e =
    let tail = right_encode (len * 8) in
    let w = kmac256_rate in
    let pad = padding (encode_string key) w in
    let pad' = padding (encode_string key') w in
    let framed =
      sym (bytepad-append (encode_string key) w (input ++ tail))
      ∙ e
      ∙ bytepad-append (encode_string key') w (input' ++ tail) in
    let (_, inner) =
      split_same (left_encode w) (left_encode w) (encode_string key ++ (pad ++ (input ++ tail)))
        (encode_string key' ++ (pad' ++ (input' ++ tail))) refl framed in
    let (same, rest) =
      encode_string-injective key key' (pad ++ (input ++ tail)) (pad' ++ (input' ++ tail)) h h'
        inner in
    let (_, absorbed_input) =
      split_same pad pad' (input ++ tail) (input' ++ tail)
        (ap (λ k. length (padding (encode_string k) w)) same) rest in
    (same, append_cancel_right input input' tail absorbed_input)
