-- ===== src/Messaging/Spans.antt =====
-- The spans after sorting and merging: what they cover, and how they lie.
use monocles_chat_desktop.Base.{
  ℕ, ◌≤◌, Bool, ◌&&◌, ◌||◌, ◌≡◌, refl, List, [], ◌∷◌, any, All, leb, ltb, arith,
}
use monocles_chat_desktop.Messaging.Fallback.{Span, insert_span, sort, merge_span, merge}

-- Whether a span contains the index.
abbrev pub covers : List Span → ℕ → Bool
covers spans i = any (λ s. leb s.0 i && ltb i s.1) spans

abbrev pub IsValid : ℕ → Span → Type 0
IsValid len s = (s.0 ≤ s.1) × (s.1 ≤ len)

-- The starts ascend, from `lo`.
abbrev pub Ascending : ℕ → List Span → Type 0
Ascending lo [] = Unit
Ascending lo (s ∷ ss) = (lo ≤ s.0) × Ascending s.0 ss

-- From the last: each span ends where the next begins, or before.
abbrev pub Apart : ℕ → List Span → Type 0
Apart top [] = Unit
Apart top (s ∷ m) = (s.0 ≤ s.1) × (s.1 ≤ top) × Apart s.0 m

Ascending-insert_span :
    (lo : ℕ) (s : Span) (ss : List Span)
    → lo ≤ s.0
    → Ascending lo ss
    → Ascending lo (insert_span s ss)
unfolding insert_span
Ascending-insert_span lo s [] h a = (h, tt)
Ascending-insert_span lo s (t ∷ ts) h a = ground (arith, Ascending-insert_span t.0 s ts)

pub Ascending-sort : (ss : List Span) → Ascending 0 (sort ss)
unfolding sort
Ascending-sort [] = tt
Ascending-sort (s ∷ ss) = Ascending-insert_span 0 s (sort ss) (omega arith) (Ascending-sort ss)

IsValid-insert_span :
    (len : ℕ) (s : Span) (ss : List Span)
    → IsValid len s
    → All (IsValid len) ss
    → All (IsValid len) (insert_span s ss)
unfolding insert_span
IsValid-insert_span len s [] h a = (h, tt)
IsValid-insert_span len s (t ∷ ts) h a = ground (arith, IsValid-insert_span len s ts)

pub IsValid-sort : (len : ℕ) (ss : List Span) → All (IsValid len) ss → All (IsValid len) (sort ss)
unfolding sort
IsValid-sort len [] h = tt
IsValid-sort len (s ∷ ss) h = IsValid-insert_span len s (sort ss) h.0 (IsValid-sort len ss h.1)

covers-insert_span :
    (s : Span) (ss : List Span) (i : ℕ) → covers (insert_span s ss) i ≡ covers (s ∷ ss) i
unfolding insert_span
covers-insert_span s [] i = refl
covers-insert_span s (t ∷ ts) i = ground (arith, covers-insert_span s ts i)

pub covers-sort : (ss : List Span) (i : ℕ) → covers (sort ss) i ≡ covers ss i
unfolding sort
covers-sort [] i = refl
covers-sort (s ∷ ss) i = ground (arith, covers-insert_span s (sort ss) i, covers-sort ss i)

-- Where the last of the merged spans starts.
abbrev pub last_start : List Span → ℕ
last_start [] = 0
last_start (s ∷ m) = s.0

covers-merge_span :
    (m : List Span) (s : Span) (i : ℕ)
    → last_start m ≤ s.0
    → covers (merge_span m s) i ≡ covers (s ∷ m) i
covers-merge_span [] s i h = refl
covers-merge_span (t ∷ m) s i h = ground arith

Apart-merge_span :
    (len : ℕ) (m : List Span) (s : Span)
    → last_start m ≤ s.0
    → IsValid len s
    → Apart len m
    → Apart len (merge_span m s)
Apart-merge_span len [] s h v a = ground arith
Apart-merge_span len (t ∷ m) s h v a = ground arith

last_start-merge_span :
    (m : List Span) (s : Span) → last_start m ≤ s.0 → last_start (merge_span m s) ≤ s.0
last_start-merge_span [] s h = omega arith
last_start-merge_span (t ∷ m) s h = ground arith

Ascending-weaken : (lo lo' : ℕ) (ss : List Span) → lo' ≤ lo → Ascending lo ss → Ascending lo' ss
Ascending-weaken lo lo' [] h a = tt
Ascending-weaken lo lo' (s ∷ ss) h a = ground arith

-- Merging changes nothing of what ascending spans cover.
pub covers-merge :
    (m ss : List Span) (i : ℕ)
    → Ascending (last_start m) ss
    → covers (merge m ss) i ≡ (covers m i || covers ss i)
unfolding merge
covers-merge m [] i a = ground arith
covers-merge m (s ∷ ss) i a =
    let later = last_start-merge_span m s a.0 in
    let a' = Ascending-weaken s.0 (last_start (merge_span m s)) ss later a.1 in
    ground (arith, covers-merge (merge_span m s) ss i a', covers-merge_span m s i a.0)

-- The merged spans lie apart.
pub Apart-merge :
    (len : ℕ) (m ss : List Span)
    → Ascending (last_start m) ss
    → All (IsValid len) ss
    → Apart len m
    → Apart len (merge m ss)
unfolding merge
Apart-merge len m [] a v h = h
Apart-merge len m (s ∷ ss) a v h =
    let later = last_start-merge_span m s a.0 in
    let a' = Ascending-weaken s.0 (last_start (merge_span m s)) ss later a.1 in
    Apart-merge len (merge_span m s) ss a' v.1 (Apart-merge_span len m s a.0 v.0 h)
