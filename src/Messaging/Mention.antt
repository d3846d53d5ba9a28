-- ===== src/Messaging/Mention.antt =====
-- `mentions_nick`: whether a message of a room names us.
use monocles_chat_desktop.Base.{
  ℕ, zero, suc, ◌≤◌, ◌<◌, Bool, true, false, ◌&&◌, ◌||◌, ◌≡◌, refl, ◌∙◌, [], ◌∷◌, Option, none,
  some, Text, Outcome, returned, panicked, if◌then◌else◌, ltb, within, length, drop, is_empty,
  starts_with, strip_prefix, cons_first, is_whitespace, arith, Option-cases, Bool-cases, inl, inr,
}

-- `str::find` of a text: what stands before the first occurrence, and the rest from it on.
unfoldable pub find_text : Text → Text → Option (Text × Text)
unfolding strip_prefix
find_text pat [] = if starts_with pat [] then some ([], []) else none
find_text pat (c ∷ cs) =
    let rest = cons_first c (find_text pat cs) in
    if starts_with pat (c ∷ cs) then some ([], c ∷ cs) else rest

abbrev pub is_ascii_punctuation : ℕ → Bool
is_ascii_punctuation c = within 33 47 c || within 58 64 c || within 91 96 c || within 123 126 c

-- The last character of a text, or what stood in front of it.
abbrev pub last_or : Option ℕ → Text → Option ℕ
last_or before [] = before
last_or before (c ∷ cs) = last_or (some c) cs

abbrev pub before_ok : Option ℕ → Bool
before_ok none = true
before_ok (some c) = is_whitespace c

abbrev pub after_ok : Text → Bool
after_ok [] = true
after_ok (c ∷ cs) = is_whitespace c || is_ascii_punctuation c

-- `body[idx + 1..]`, at the byte behind the first one of a match: inside of a character, unless
-- that one is ASCII.
abbrev pub resume : (Option ℕ → Text → Outcome Bool) → Text → Outcome Bool
resume next [] = panicked
resume next (c ∷ cs) = if ltb c 128 then next (some c) cs else panicked

-- The loop from the rest of the body, with the character in front of it.
unfoldable pub search_nick : ℕ → Text → Option ℕ → Text → Outcome Bool
unfolding find_text is_whitespace
search_nick zero nick before rest = panicked
search_nick (suc fuel) nick before rest = elim (find_text nick rest) [
  | none ↦ returned false
  | some (pre, found) ↦
      if before_ok (last_or before pre) && after_ok (drop (length nick) found)
      then returned true
      else resume (search_nick fuel nick) found
]

unfoldable pub mentions_nick : Text → Text → Outcome Bool
unfolding search_nick
mentions_nick body nick =
    if is_empty nick then returned false else search_nick (suc (length body)) nick none body

-- The nick stands here, between boundaries.
abbrev pub hit : Text → Option ℕ → Text → Bool
hit nick before s = starts_with nick s && (before_ok before && after_ok (drop (length nick) s))

-- The nick stands somewhere, between boundaries.
abbrev pub occurs : Text → Option ℕ → Text → Bool
occurs nick before [] = hit nick before []
occurs nick before (c ∷ cs) = hit nick before (c ∷ cs) || occurs nick (some c) cs

-- What the search leaves: nothing, or the first place at which the nick stands.
abbrev Found : Text → Option ℕ → Text → Option (Text × Text) → Type 0
Found nick before s none = occurs nick before s ≡ false
Found nick before s (some (pre, found)) =
    (occurs nick before s ≡ occurs nick (last_or before pre) found)
    × (starts_with nick found ≡ true)
    × (length found ≤ length s)

Found-cons :
    (nick : Text) (before : Option ℕ) (c : ℕ) (cs : Text) (o : Option (Text × Text))
    → starts_with nick (c ∷ cs) ≡ false
    → Found nick (some c) cs o
    → Found nick before (c ∷ cs) (cons_first c o)
Found-cons nick before c cs none h f = ground arith
Found-cons nick before c cs (some (pre, found)) h f = (ground arith, f.1, omega (arith, f.2))

find_text-Found :
    (nick : Text) (before : Option ℕ) (s : Text) → Found nick before s (find_text nick s)
unfolding find_text
find_text-Found nick before [] = elim (Bool-cases (starts_with nick [])) [
  | inl e ↦ rw e (refl, e, omega arith)
  | inr e ↦ rw (e, find_text) ground arith
]
find_text-Found nick before (c ∷ cs) = elim (Bool-cases (starts_with nick (c ∷ cs))) [
  | inl e ↦ rw (e, find_text) (refl, e, omega arith)
  | inr e ↦
      rw (e, find_text)
        (Found-cons nick before c cs (find_text nick cs) e (find_text-Found nick (some c) cs))
]

-- One round of the loop, once the nick is found.
settle-occurs :
    (fuel n : ℕ) (ns : Text) (before : Option ℕ) (found : Text)
    → n < 128
    → starts_with (n ∷ ns) found ≡ true
    → ((c : ℕ) (cs : Text)
        → length cs < length found
        → search_nick fuel (n ∷ ns) (some c) cs ≡ returned (occurs (n ∷ ns) (some c) cs))
    → (if before_ok before && after_ok (drop (length (n ∷ ns)) found)
        then returned true
        else resume (search_nick fuel (n ∷ ns)) found)
      ≡ returned (occurs (n ∷ ns) before found)
unfolding strip_prefix
settle-occurs fuel n ns before [] a s next = ground arith
settle-occurs fuel n ns before (c ∷ cs) a s next = ground (arith, next c cs (omega arith))

search_nick-occurs :
    (fuel n : ℕ) (ns : Text) (before : Option ℕ) (rest : Text)
    → n < 128
    → length rest < fuel
    → search_nick fuel (n ∷ ns) before rest ≡ returned (occurs (n ∷ ns) before rest)
unfolding search_nick
search_nick-occurs zero n ns before rest a h = ground arith
search_nick-occurs (suc fuel) n ns before rest a h = elim (Option-cases (find_text (n ∷ ns) rest)) [
  | inl e ↦
      let f : occurs (n ∷ ns) before rest ≡ false =
        rw e at (find_text-Found (n ∷ ns) before rest) in
      rw (e, f, search_nick) refl
  | inr ((pre, found), e) ↦
      let f : Found (n ∷ ns) before rest (some (pre, found)) =
        rw e at (find_text-Found (n ∷ ns) before rest) in
      rw (e, f.0, search_nick)
        (settle-occurs fuel n ns (last_or before pre) found a f.1
          (λ c cs l. search_nick-occurs fuel n ns (some c) cs a (omega (arith, f.2))))
]

-- For a nick that begins with an ASCII character, `mentions_nick` ends without a panic, and says
-- whether the nick stands somewhere in the body with white space or nothing in front of it, and
-- white space, ASCII punctuation or nothing behind it.
pub mentions_nick-occurs :
    (body : Text) (n : ℕ) (ns : Text)
    → n < 128
    → mentions_nick body (n ∷ ns) ≡ returned (occurs (n ∷ ns) none body)
unfolding mentions_nick
mentions_nick-occurs body n ns a =
    search_nick-occurs (suc (length body)) n ns none body a (omega arith)

-- What becomes of the search for a nick that begins with a character of more than one byte: the
-- first place where the nick stands decides, as the search cannot go on behind it.
abbrev pub first_verdict : Text → Option ℕ → Text → Outcome Bool
first_verdict nick before [] = returned false
first_verdict nick before (c ∷ cs) =
    if starts_with nick (c ∷ cs)
    then (if hit nick before (c ∷ cs) then returned true else panicked)
    else first_verdict nick (some c) cs

-- One round of the search, from what is found.
abbrev settled : ℕ → Text → Option ℕ → Option (Text × Text) → Outcome Bool
settled fuel nick before none = returned false
settled fuel nick before (some (pre, found)) =
    if before_ok (last_or before pre) && after_ok (drop (length nick) found)
    then returned true
    else resume (search_nick fuel nick) found

settled-cons :
    (fuel : ℕ) (nick : Text) (before : Option ℕ) (c : ℕ) (o : Option (Text × Text))
    → settled fuel nick before (cons_first c o) ≡ settled fuel nick (some c) o
settled-cons fuel nick before c none = refl
settled-cons fuel nick before c (some (pre, found)) = refl

settled-first_verdict :
    (fuel n : ℕ) (ns : Text) (before : Option ℕ) (s : Text)
    → 128 ≤ n
    → settled fuel (n ∷ ns) before (find_text (n ∷ ns) s) ≡ first_verdict (n ∷ ns) before s
unfolding find_text strip_prefix
settled-first_verdict fuel n ns before [] a = refl
settled-first_verdict fuel n ns before (c ∷ cs) a =
    elim (Bool-cases (starts_with (n ∷ ns) (c ∷ cs))) [
      | inl e ↦ let wide : ltb c 128 ≡ false = ground arith in rw e (ground (arith, wide))
      | inr e ↦ rw e (
          settled-cons fuel (n ∷ ns) before c (find_text (n ∷ ns) cs)
          ∙ settled-first_verdict fuel n ns (some c) cs a)
    ]

-- For a nick that begins with a character of more than one byte, `mentions_nick` is decided at the
-- first place where the nick stands: it says yes if that is between boundaries, and panics if it is
-- not, whatever follows; and it says no if the nick stands nowhere.
pub mentions_nick-first_verdict :
    (body : Text) (n : ℕ) (ns : Text)
    → 128 ≤ n
    → mentions_nick body (n ∷ ns) ≡ first_verdict (n ∷ ns) none body
unfolding mentions_nick search_nick
mentions_nick-first_verdict body n ns a = settled-first_verdict (length body) n ns none body a
