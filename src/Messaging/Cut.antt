-- ===== src/Messaging/Cut.antt =====
-- The removal of fallback spans against its specification.
use monocles_chat_desktop.Base.{
  ℕ, suc, zero, ◌+◌, ◌-◌, ◌≤◌, false, ◌&&◌, ◌≡◌, refl, ◌∙◌, ap, sym, List, [], ◌∷◌, ◌++◌, Option,
  none, some, inl, inr, Text, returned, if◌then◌else◌, All, leb, ltb, length, take, drop, arith,
  trim, is_empty, map_or, Bool-cases,
}
use monocles_chat_desktop.Dom.{Dom}
use monocles_chat_desktop.Messaging.Fallback.{
  Span, collect, is_fallback_for, marked, push_valid, sort, merge, drain, cut, strip_fallback_spans,
}
use monocles_chat_desktop.Messaging.Spans.{
  covers, IsValid, Apart, Ascending-sort, IsValid-sort, covers-sort, covers-merge, Apart-merge,
}

-- The characters that no span covers, the first of which has the index `i`.
abbrev pub uncovered : List Span → ℕ → Text → Text
uncovered spans i [] = []
uncovered spans i (c ∷ cs) =
    let rest = uncovered spans (suc i) cs in if covers spans i then rest else c ∷ rest

pub uncovered-ext :
    (r s : List Span)
    → ((i : ℕ) → covers r i ≡ covers s i)
    → (i : ℕ) (l : Text) → uncovered r i l ≡ uncovered s i l
uncovered-ext r s h i [] = refl
uncovered-ext r s h i (c ∷ cs) = ground (arith, h i, uncovered-ext r s h (suc i) cs)

covers-Apart : (top : ℕ) (m : List Span) (i : ℕ) → Apart top m → top ≤ i → covers m i ≡ false
covers-Apart top [] i a h = refl
covers-Apart top (s ∷ m) i a h = ground (arith, covers-Apart s.0 m i)

-- Behind all spans nothing is covered.
uncovered-behind :
    (top : ℕ) (m : List Span) (i : ℕ) (l : Text) → Apart top m → top ≤ i → uncovered m i l ≡ l
uncovered-behind top m i [] a h = refl
uncovered-behind top m i (c ∷ cs) a h =
    ground (arith, covers-Apart top m i a h, uncovered-behind top m (suc i) cs a)

drop-nil : (n : ℕ) → drop {A = ℕ} n [] ≡ []
drop-nil zero = refl
drop-nil (suc n) = refl

drop-minus :
    (b i c : ℕ) (cs : Text)
    → drop (b - i) (c ∷ cs) ≡ (if ltb i b then drop (b - suc i) cs else c ∷ cs)
drop-minus b i c cs = elim (Bool-cases (ltb i b)) [
  | inl h ↦ let e : b - i ≡ suc (b - suc i) = ground arith in rw (e, h) refl
  | inr h ↦ let e : b - i ≡ 0 = ground arith in rw (e, h) refl
]

drop-past : (b i : ℕ) (l : Text) → b ≤ i → drop (b - i) l ≡ l
drop-past b i l h = let e : b - i ≡ 0 = omega arith in rw e refl

-- From inside of the last span on.
uncovered-last :
    (a b : ℕ) (m : List Span) (i : ℕ) (l : Text)
    → Apart a m
    → a ≤ i
    → uncovered ((a, b) ∷ m) i l ≡ drop (b - i) l
uncovered-last a b m i [] h le = sym (drop-nil (b - i))
uncovered-last a b m i (c ∷ cs) h le = ground (
  arith,
  drop-minus b i c cs,
  drop-past b (suc i) cs,
  covers-Apart a m i h le,
  uncovered-last a b m (suc i) cs h,
)

-- Cutting the last span first leaves the indices of the others.
uncovered-cut :
    (a b : ℕ) (m : List Span) (k i : ℕ) (l : Text)
    → Apart a m
    → a ≤ b
    → k + i ≡ a
    → uncovered m i (take k l ++ drop (b - i) l) ≡ uncovered ((a, b) ∷ m) i l
uncovered-cut a b m zero i l h le e =
    uncovered-behind a m i (drop (b - i) l) h (omega arith)
    ∙ sym (uncovered-last a b m i l h (omega arith))
uncovered-cut a b m (suc k) i [] h le e = rw (drop-nil (b - i)) refl
uncovered-cut a b m (suc k) i (c ∷ cs) h le e =
    ground (arith, drop-minus b i c cs, uncovered-cut a b m k (suc i) cs h le)

Apart-weaken : (top top' : ℕ) (m : List Span) → top ≤ top' → Apart top m → Apart top' m
Apart-weaken top top' [] h a = tt
Apart-weaken top top' (s ∷ m) h a = ground arith

length-drain : (a b : ℕ) (l : Text) → a ≤ b → b ≤ length l → a ≤ length (take a l ++ drop b l)
length-drain zero b l h le = omega arith
length-drain (suc a) (suc b) (c ∷ l) h le = ground (arith, length-drain a b l)
length-drain (suc a) zero l h le = ground arith
length-drain (suc a) (suc b) [] h le = ground arith

sub_zero : (b : ℕ) → b - 0 ≡ b
sub_zero b = omega arith

cut-Apart : (m : List Span) (l : Text) → Apart (length l) m → cut m l ≡ returned (uncovered m 0 l)
unfolding cut
cut-Apart [] l h = ap returned (sym (uncovered-behind 0 [] 0 l tt (omega arith)))
cut-Apart ((a, b) ∷ m) l h =
    let rest = take a l ++ drop b l in
    let short = length-drain a b l h.0 h.1 in
    let drained : drain a b l ≡ returned rest = ground arith in
    rw drained (
      cut-Apart m rest (Apart-weaken a (length rest) m short h.2)
      ∙ ap returned (rw (sub_zero b) at (uncovered-cut a b m a 0 l h.2 h.0 (omega arith))))

-- All of the spans that were collected are valid.
abbrev AllValid : ℕ → Option (List Span) → Type 0
AllValid len none = Unit
AllValid len (some spans) = All (IsValid len) spans

push_valid-IsValid :
    (len : ℕ) (s : Span) (spans : List Span)
    → All (IsValid len) spans
    → All (IsValid len) (push_valid len s spans)
push_valid-IsValid len s spans h = elim (Bool-cases (leb s.0 s.1 && leb s.1 len)) [
  | inl e ↦ rw e (ground arith, h)
  | inr e ↦ rw e h
]

push-AllValid :
    {E : Type 0} (len : ℕ) (r : Option E) (rest : Option (List Span)) (f : E → Span)
    → AllValid len rest
    → AllValid len
        (map_or r none (λ range. map_or rest none (λ spans. some (push_valid len (f range) spans))))
push-AllValid len none rest f h = tt
push-AllValid len (some range) none f h = tt
push-AllValid len (some range) (some spans) f h = push_valid-IsValid len (f range) spans h

collect-AllValid :
    (d : Dom) (for_ns : List Text) (len : ℕ) (fbs : List d.Element)
    → AllValid len (collect d for_ns len fbs)
unfolding collect
collect-AllValid d for_ns len [] = tt
collect-AllValid d for_ns len (fb ∷ fbs) = elim (Bool-cases (is_fallback_for d for_ns fb)) [
  | inl e ↦
      rw (e, collect) (push-AllValid len _ _ (marked d len) (collect-AllValid d for_ns len fbs))
  | inr e ↦ rw (e, collect) (collect-AllValid d for_ns len fbs)
]

-- If each fallback of the namespaces marks a range, `strip_fallback_spans` never panics and
-- leaves, of a body of which something valid is marked, exactly the characters whose indices lie
-- in no marked span, without the white space around them; overlapping and repeated spans are
-- removed once. A body of which nothing valid is marked is left alone.
pub strip_fallback_spans-uncovered :
    (d : Dom) (content : d.Element) (body : Text) (for_ns : List Text) (spans : List Span)
    → collect d for_ns (length body) (d.children content) ≡ some spans
    → strip_fallback_spans d content body for_ns
      ≡ returned (if is_empty spans then body else trim (uncovered spans 0 body))
unfolding strip_fallback_spans
strip_fallback_spans-uncovered d content body for_ns spans e =
    let len = length body in
    let valid : All (IsValid len) spans =
      rw e at (collect-AllValid d for_ns len (d.children content)) in
    let sorted = Ascending-sort spans in
    let apart = Apart-merge len [] (sort spans) sorted (IsValid-sort len spans valid) tt in
    let same =
      uncovered-ext (merge [] (sort spans)) spans
        (λ i. covers-merge [] (sort spans) i sorted ∙ covers-sort spans i) 0 body in
    elim (Bool-cases (is_empty spans)) [
      | inl h ↦ rw (e, h) refl
      | inr h ↦ rw (e, h, cut-Apart (merge [] (sort spans)) body apart, same) refl
    ]
