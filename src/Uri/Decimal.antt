-- ===== src/Uri/Decimal.antt =====
-- Rust's decimal text of an `i64`: `to_string` and `str::parse::<i64>`.
use monocles_chat_desktop.Base.{
  ℕ, zero, suc, ◌+◌, ◌-◌, ◌*◌, ◌/◌, ◌%◌, ◌<◌, ◌≡◌, refl, Bool, true, [], ◌∷◌, Option, none, some,
  ltb, leb, ◌==◌, if◌then◌else◌, Text, within, is_empty, all, arith,
}

-- `negsuc n` is -(n + 1).
pub data ℤ : Type 0 where
  pos : ℕ → ℤ
  negsuc : ℕ → ℤ

-- The digits of `n` in front of `acc`, with fuel.
unfoldable pub show_onto : ℕ → ℕ → Text → Text
show_onto zero n acc = acc
show_onto (suc fuel) n acc =
    let more = show_onto fuel (n / 10) ((b'0' + n % 10) ∷ acc) in
    if ltb n 10 then (b'0' + n) ∷ acc else more

unfoldable pub show_nat : ℕ → Text
unfolding show_onto
show_nat n = show_onto (suc n) n []

unfoldable pub to_string : ℤ → Text
unfolding show_nat
to_string (pos n) = show_nat n
to_string (negsuc n) = b'-' ∷ show_nat (suc n)

unfoldable pub digits : ℕ → Text → Option ℕ
digits acc [] = some acc
digits acc (c ∷ cs) =
    let rest = digits (acc * 10 + (c - b'0')) cs in if within b'0' b'9' c then rest else none

-- At least one digit, and a value of at most `limit`.
unfoldable pub magnitude : ℕ → Text → Option ℕ
unfolding digits
magnitude limit s =
    if is_empty s
    then none
    else elim (digits 0 s) [ none ↦ none | some n ↦ if leb n limit then some n else none ]

abbrev pub negated : ℕ → ℤ
negated zero = pos 0
negated (suc n) = negsuc n

abbrev pub i64_max : ℕ
i64_max = 9223372036854775807

unfoldable pub parse_i64 : Text → Option ℤ
unfolding magnitude
parse_i64 [] = none
parse_i64 (c ∷ cs) =
    if c == b'-'
    then elim (magnitude (i64_max + 1) cs) [ none ↦ none | some n ↦ some (negated n) ]
    else elim (magnitude i64_max (if c == b'+' then cs else c ∷ cs)) [
      | none ↦ none
      | some n ↦ some (pos n)
    ]

digits-show_onto :
    (fuel n : ℕ) (acc : Text) → n < fuel → digits 0 (show_onto fuel n acc) ≡ digits n acc
unfolding show_onto digits
digits-show_onto zero n acc h = elim h [ ]
digits-show_onto (suc fuel) n acc h =
    ground (arith, digits-show_onto fuel (n / 10) ((b'0' + n % 10) ∷ acc))

pub digits-show_nat : (n : ℕ) → digits 0 (show_nat n) ≡ some n
unfolding show_nat digits
digits-show_nat n = digits-show_onto (suc n) n [] (omega arith)

abbrev pub is_digit : ℕ → Bool
is_digit c = within b'0' b'9' c

all-show_onto :
    (fuel n : ℕ) (acc : Text) → all is_digit acc ≡ true → all is_digit (show_onto fuel n acc) ≡ true
unfolding show_onto
all-show_onto zero n acc h = h
all-show_onto (suc fuel) n acc h =
    ground (arith, all-show_onto fuel (n / 10) ((b'0' + n % 10) ∷ acc))

pub show_nat-digits : (n : ℕ) → all is_digit (show_nat n) ≡ true
unfolding show_nat
show_nat-digits n = all-show_onto (suc n) n [] refl

digit_cons-parse :
    (c : ℕ) (cs : Text) (n : ℕ)
    → is_digit c ≡ true
    → digits 0 (c ∷ cs) ≡ some n
    → leb n i64_max ≡ true
    → parse_i64 (c ∷ cs) ≡ some (pos n)
unfolding parse_i64
digit_cons-parse c cs n h d b = ground arith
