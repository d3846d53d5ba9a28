-- ===== src/Base/Texts.antt =====
-- Texts as lists of Unicode scalar values, with the operations of Rust's `str` that the program
-- calls. `codes` reads a literal.
use Prim.Native.Char.{code}
use Prim.Native.Nat.{ℕ, ◌+◌}
use Prim.Native.String.{String}
use mathlib.Core.Path.{◌≡◌, refl, ap}
use mathlib.Core.Logic.{◌↔◌, ◌≢◌}
use mathlib.Core.Bool.{Bool, true, false, not, ◌&&◌, ◌||◌}
use mathlib.Core.List.{List, [], ◌∷◌, map}
use mathlib.Core.Option.{Option, none, some}
use native.Mathlib.Omega.{arith}
use monocles_chat_desktop.Base.Bools.{ltb, leb, ◌==◌, if◌then◌else◌, is_some}
use monocles_chat_desktop.Base.Lists.{is_empty}

abbrev pub Text : Type 0
Text = List ℕ

abbrev pub codes : String → Text
codes String.[] = []
codes (String.◌∷◌ c s) = code c ∷ codes s

abbrev pub within : ℕ → ℕ → ℕ → Bool
within lo hi c = leb lo c && leb c hi

unfoldable pub text_eq : Text → Text → Bool
text_eq [] [] = true
text_eq (x ∷ xs) (y ∷ ys) = x == y && text_eq xs ys
text_eq _ _ = false

pub text_eq_iff : (s t : Text) → (text_eq s t ≡ true) ↔ (s ≡ t)
unfolding text_eq
text_eq_iff (x ∷ s) (y ∷ t) = ground (arith, text_eq_iff s t)
text_eq_iff _ _ = ground arith

pub text_eq_refl : (s : Text) → text_eq s s ≡ true
text_eq_refl s = (text_eq_iff s s).1 refl

-- `char::is_whitespace`: the Unicode property White_Space.
unfoldable pub is_whitespace : ℕ → Bool
is_whitespace c =
    within 9 13 c
    || c == 32
    || c == 0x85
    || c == 0xA0
    || c == 0x1680
    || within 0x2000 0x200A c
    || c == 0x2028
    || c == 0x2029
    || c == 0x202F
    || c == 0x205F
    || c == 0x3000

unfoldable pub trim_start : Text → Text
unfolding is_whitespace
trim_start [] = []
trim_start (c ∷ cs) = let rest = trim_start cs in if is_whitespace c then rest else c ∷ cs

unfoldable pub trim_end : Text → Text
unfolding is_whitespace
trim_end [] = []
trim_end (c ∷ cs) =
    let rest = trim_end cs in if is_whitespace c && is_empty rest then [] else c ∷ rest

-- `str::trim`.
unfoldable pub trim : Text → Text
unfolding trim_start trim_end
trim s = trim_end (trim_start s)

-- `char::to_ascii_lowercase`, and the same of a text.
unfoldable pub lower : ℕ → ℕ
lower c = if within b'A' b'Z' c then c + 32 else c

abbrev pub to_ascii_lowercase : Text → Text
to_ascii_lowercase = map lower

-- `str::eq_ignore_ascii_case`.
unfoldable pub eq_ignore_case : Text → Text → Bool
unfolding text_eq lower
eq_ignore_case s t = text_eq (to_ascii_lowercase s) (to_ascii_lowercase t)

-- `str::strip_prefix`: the prefix comes first.
unfoldable pub strip_prefix : Text → Text → Option Text
strip_prefix [] s = some s
strip_prefix (p ∷ ps) [] = none
strip_prefix (p ∷ ps) (c ∷ cs) = if p == c then strip_prefix ps cs else none

abbrev pub starts_with : Text → Text → Bool
starts_with p s = is_some (strip_prefix p s)

unfoldable pub contains : ℕ → Text → Bool
contains b [] = false
contains b (c ∷ cs) = c == b || contains b cs

abbrev pub cons_first : ℕ → Option (Text × Text) → Option (Text × Text)
cons_first c none = none
cons_first c (some (a, b)) = some (c ∷ a, b)

-- `str::split_once` at a character.
unfoldable pub split_once : ℕ → Text → Option (Text × Text)
split_once b [] = none
split_once b (c ∷ cs) =
    let rest = cons_first c (split_once b cs) in if c == b then some ([], cs) else rest

-- `str::rsplit_once` at a character: the last one splits.
unfoldable pub rsplit_once : ℕ → Text → Option (Text × Text)
rsplit_once b [] = none
rsplit_once b (c ∷ cs) = elim (rsplit_once b cs) [
  | some (x, y) ↦ some (c ∷ x, y)
  | none ↦ if c == b then some ([], cs) else none
]

abbrev pub cons_head : ℕ → List Text → List Text
cons_head c [] = (c ∷ []) ∷ []
cons_head c (x ∷ xs) = (c ∷ x) ∷ xs

-- `str::split` at a character; the result is never empty.
unfoldable pub split : ℕ → Text → List Text
split b [] = [] ∷ []
split b (c ∷ cs) = let rest = split b cs in if c == b then [] ∷ rest else cons_head c rest

-- `str < str`: lexicographic.
unfoldable pub text_lt : Text → Text → Bool
text_lt [] [] = false
text_lt [] (y ∷ ys) = true
text_lt (x ∷ xs) [] = false
text_lt (x ∷ xs) (y ∷ ys) = ltb x y || (x == y && text_lt xs ys)

-- The order is total on different texts, and never holds both ways.
pub text_lt_connex : (s t : Text) → s ≢ t → text_lt s t ≡ not (text_lt t s)
unfolding text_lt
text_lt_connex [] [] h = absurd (h refl)
text_lt_connex [] (y ∷ t) h = refl
text_lt_connex (x ∷ s) [] h = refl
text_lt_connex (x ∷ s) (y ∷ t) h =
    ground (arith, λ (n : s ≢ t). text_lt_connex s t n, λ (e : s ≡ t). ap (◌∷◌ x) e)
