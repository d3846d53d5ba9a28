-- ===== src/Omemo/Bytes.antt =====
-- Numbers as bytes, big-endian, and the bytes of `|` and `^`.
use Prim.Native.Nat.{bit_or, bit_xor}
use monocles_chat_desktop.Base.{
  ℕ, zero, suc, ◌+◌, ◌*◌, ◌/◌, ◌%◌, ◌<◌, ◌≡◌, refl, Bool, true, false, not, ◌&&◌, [], ◌∷◌, ◌++◌,
  Option, none, some, ltb, ◌==◌, if◌then◌else◌, length, length-append, arith,
}
use monocles_chat_desktop.Uri.Utf8.{Bytes}

-- `to_be_bytes` of a number of so many bytes.
unfoldable pub be_bytes : ℕ → ℕ → Bytes
be_bytes zero v = []
be_bytes (suc n) v = be_bytes n (v / 256) ++ (v % 256 ∷ [])

-- The number that bytes stand for, after the digits read so far.
abbrev pub value : ℕ → Bytes → ℕ
value acc [] = acc
value acc (b ∷ bs) = value (acc * 256 + b) bs

-- 256 to the power of so many bytes.
abbrev pub capacity : ℕ → ℕ
capacity zero = 1
capacity (suc n) = 256 * capacity n

-- `iter().position(|&b| b != 0)`.
abbrev pub first_nonzero : Bytes → Option ℕ
first_nonzero [] = none
first_nonzero (b ∷ bs) =
    if not (b == 0)
    then some 0
    else (elim (first_nonzero bs) [ none ↦ none | some k ↦ some (suc k) ])

pub length-be_bytes : (n v : ℕ) → length (be_bytes n v) ≡ n
unfolding be_bytes
length-be_bytes zero v = refl
length-be_bytes (suc n) v =
    omega (arith, length-append (be_bytes n (v / 256)) (v % 256 ∷ []), length-be_bytes n (v / 256))

value-append : (acc : ℕ) (xs : Bytes) (b : ℕ) → value acc (xs ++ (b ∷ [])) ≡ value acc xs * 256 + b
value-append acc [] b = refl
value-append acc (x ∷ xs) b = value-append (acc * 256 + x) xs b

pub value-be_bytes : (n v : ℕ) → v < capacity n → value 0 (be_bytes n v) ≡ v
unfolding be_bytes
value-be_bytes zero v h = omega arith
value-be_bytes (suc n) v h =
    omega (arith, value-append 0 (be_bytes n (v / 256)) (v % 256), value-be_bytes n (v / 256))

abbrev agrees : Bool → Bool → Bool
agrees true b = b
agrees false b = not b

abbrev all_below : ℕ → (ℕ → Bool) → Bool
all_below zero p = true
all_below (suc n) p = p n && all_below n p

all_below-lt : (n : ℕ) (p : ℕ → Bool) (x : ℕ) → all_below n p ≡ true → x < n → p x ≡ true
all_below-lt zero p x h lt = absurd (omega arith)
all_below-lt (suc n) p x h lt = ground (arith, all_below-lt n p x)

-- What the comparison of digests relies on, at two bytes.
bits_hold : ℕ → ℕ → Bool
bits_hold a b =
    agrees (bit_xor a b == 0) (a == b)
    && ltb (bit_xor a b) 256
    && agrees (bit_or a b == 0) (a == 0 && b == 0)
    && ltb (bit_or a b) 256

bits_table : all_below 256 (λ a. all_below 256 (bits_hold a)) ≡ true
unfolding bits_hold
bits_table = refl

-- A byte is below 256.
abbrev pub IsBytes : Bytes → Type 0
IsBytes [] = Unit
IsBytes (b ∷ bs) = (b < 256) × IsBytes bs

bits_hold-lt : (a b : ℕ) → a < 256 → b < 256 → bits_hold a b ≡ true
bits_hold-lt a b h h' =
    all_below-lt 256 (bits_hold a) b
      (all_below-lt 256 (λ c. all_below 256 (bits_hold c)) a bits_table h) h'

pub bit_xor-zero : (a b : ℕ) → a < 256 → b < 256 → bit_xor a b ≡ 0 → a ≡ b
unfolding bits_hold
bit_xor-zero a b h h' e = ground (arith, bits_hold-lt a b)

pub bit_xor_self : (a : ℕ) → a < 256 → bit_xor a a ≡ 0
unfolding bits_hold
bit_xor_self a h = ground (arith, bits_hold-lt a a)

pub bit_xor-lt : (a b : ℕ) → a < 256 → b < 256 → bit_xor a b < 256
unfolding bits_hold
bit_xor-lt a b h h' = ground (arith, bits_hold-lt a b)

pub bit_or-lt : (a b : ℕ) → a < 256 → b < 256 → bit_or a b < 256
unfolding bits_hold
bit_or-lt a b h h' = ground (arith, bits_hold-lt a b)

pub bit_or-zero : (a b : ℕ) → a < 256 → b < 256 → bit_or a b ≡ 0 → (a ≡ 0) × (b ≡ 0)
unfolding bits_hold
bit_or-zero a b h h' e = ground (arith, bits_hold-lt a b)
