-- ===== src/Uri/Ascii.antt =====
-- ASCII texts: `percent_decode` returns on them, and their pieces are ASCII.
use monocles_chat_desktop.Base.{
  ℕ, zero, suc, ◌≡◌, refl, Bool, true, List, [], ◌∷◌, Option, none, some, Text, all, All, Outcome,
  returned, arith, ◌==◌, Bool-cases, Option-cases, inl, inr, Returns, Returns-bind, split_once,
  split, trim_start, trim_end, drop, keep, strip_prefix, cons_first, cons_head,
}
use monocles_chat_desktop.Uri.Percent.{
  from_str_radix, escape_at, push, decode_bytes, percent_decode,
}
use monocles_chat_desktop.Uri.Utf8.{is_ascii, as_bytes-ascii}
use monocles_chat_desktop.Uri.Parse.{split_once_text}

abbrev pub IsAscii : Text → Type 0
IsAscii s = all is_ascii s ≡ true

-- Any result will do.
abbrev pub Some {ℓ} : {A : Type ℓ} → A → Type 0
Some a = Unit

escape_at-ascii :
    (h l : ℕ) (rest : Text)
    → IsAscii (h ∷ l ∷ rest)
    → escape_at h l rest ≡ returned (from_str_radix h l)
unfolding escape_at
escape_at-ascii h l [] a = ground arith
escape_at-ascii h l (c ∷ rest) a = ground arith

push-Returns : (b : ℕ) (m : Outcome Text) → Returns Some m → Returns Some (push b m)
push-Returns b m h = Returns-bind Some Some m _ h (λ a u. tt)

decode_bytes-Returns : (bs : Text) → IsAscii bs → Returns Some (decode_bytes bs)
unfolding decode_bytes
decode_bytes-Returns [] h = tt
decode_bytes-Returns (b ∷ []) h = tt
decode_bytes-Returns (b ∷ x ∷ []) h = tt
decode_bytes-Returns (b ∷ x ∷ l ∷ rest) h =
    let here = push-Returns b _ (decode_bytes-Returns (x ∷ l ∷ rest) (ground arith)) in
    let there = decode_bytes-Returns rest (ground arith) in
    let read = escape_at-ascii x l rest (ground arith) in
    elim (Bool-cases (b == b'%')) [
      | inr plain ↦ rw (plain, Returns) here
      | inl percent ↦ elim (Option-cases (from_str_radix x l)) [
        | inl junk ↦ rw (percent, read, junk, Returns) here
        | inr (byte, hex) ↦ rw (percent, read, hex, Returns) (push-Returns byte _ there)
      ]
    ]

pub percent_decode-Returns : (s : Text) → IsAscii s → Returns Some (percent_decode s)
percent_decode-Returns s h =
    unfold percent_decode in
    rw (as_bytes-ascii s h, Returns)
      (Returns-bind Some Some (decode_bytes s) _ (decode_bytes-Returns s h) (λ a u. tt))

-- The pieces of an ASCII text are ASCII.
pub all-trim_start : (s : Text) → IsAscii s → IsAscii (trim_start s)
unfolding trim_start
all-trim_start [] h = refl
all-trim_start (c ∷ s) h = ground (arith, all-trim_start s)

pub all-trim_end : (s : Text) → IsAscii s → IsAscii (trim_end s)
unfolding trim_end
all-trim_end [] h = refl
all-trim_end (c ∷ s) h = ground (arith, all-trim_end s)

pub all-drop : (n : ℕ) (s : Text) → IsAscii s → IsAscii (drop n s)
all-drop zero s h = h
all-drop (suc n) [] h = refl
all-drop (suc n) (c ∷ s) h = all-drop n s (ground arith)

abbrev pub BothAscii : Option (Text × Text) → Type 0
BothAscii none = Unit
BothAscii (some (a, b)) = IsAscii a × IsAscii b

cons_first-ascii :
    (c : ℕ) (o : Option (Text × Text))
    → is_ascii c ≡ true
    → BothAscii o
    → BothAscii (cons_first c o)
cons_first-ascii c none h o = tt
cons_first-ascii c (some (a, b)) h o = (ground arith, o.1)

pub all-split_once : (b : ℕ) (s : Text) → IsAscii s → BothAscii (split_once b s)
unfolding split_once
all-split_once b [] h = tt
all-split_once b (c ∷ s) h = elim (Bool-cases (c == b)) [
  | inl e ↦ rw (e, BothAscii) (refl, ground arith)
  | inr e ↦
      rw (e, BothAscii)
        (cons_first-ascii c (split_once b s) (ground arith) (all-split_once b s (ground arith)))
]

cons_head-IsAscii :
    (c : ℕ) (l : List Text) → is_ascii c ≡ true → All IsAscii l → All IsAscii (cons_head c l)
cons_head-IsAscii c [] h l = (ground arith, tt)
cons_head-IsAscii c (x ∷ xs) h l = (ground arith, l.1)

pub all-split : (b : ℕ) (s : Text) → IsAscii s → All IsAscii (split b s)
unfolding split
all-split b [] h = (refl, tt)
all-split b (c ∷ s) h = elim (Bool-cases (c == b)) [
  | inl e ↦ rw (e, All) (refl, all-split b s (ground arith))
  | inr e ↦
      rw (e, All) (cons_head-IsAscii c (split b s) (ground arith) (all-split b s (ground arith)))
]

pub all-keep : (p : Text → Bool) (l : List Text) → All IsAscii l → All IsAscii (keep p l)
all-keep p [] h = tt
all-keep p (s ∷ l) h = elim (Bool-cases (p s)) [
  | inl e ↦ rw (e, All) (h.0, all-keep p l h.1)
  | inr e ↦ rw (e, All) (all-keep p l h.1)
]

strip_prefix-IsAscii : (p s : Text) {r : Text} → IsAscii s → strip_prefix p s ≡ some r → IsAscii r
unfolding strip_prefix
strip_prefix-IsAscii [] s h e = ground arith
strip_prefix-IsAscii (x ∷ p) [] h e = cc
strip_prefix-IsAscii (x ∷ p) (c ∷ s) {r} h e =
    strip_prefix-IsAscii p s {r = r} (ground arith) (ground arith)

pub all-split_once_text : (p s : Text) → IsAscii s → BothAscii (split_once_text p s)
unfolding split_once_text
all-split_once_text p [] h = elim (Option-cases (strip_prefix p [])) [
  | inl e ↦ rw (e, BothAscii) tt
  | inr (r, e) ↦ rw (e, BothAscii) (refl, strip_prefix-IsAscii p [] h e)
]
all-split_once_text p (c ∷ s) h = elim (Option-cases (strip_prefix p (c ∷ s))) [
  | inr (r, e) ↦ rw (e, BothAscii) (refl, strip_prefix-IsAscii p (c ∷ s) h e)
  | inl e ↦
      rw (e, BothAscii)
        (cons_first-ascii c (split_once_text p s) (ground arith)
          (all-split_once_text p s (ground arith)))
]
