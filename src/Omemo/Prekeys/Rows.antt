-- ===== src/Omemo/Prekeys/Rows.antt =====
-- Rows of a table by their id, under the queries of crates/mxc-store/src/omemo.rs.
use mathlib.Core.Path.{subst}
use monocles_chat_desktop.Base.{
  ℕ, suc, ◌+◌, ◌≤◌, ◌<◌, ◌≡◌, ◌≢◌, ◌⊎◌, inl, inr, refl, sym, ap, ◌∙◌, Bool, true, false, List, [],
  ◌∷◌, Option, none, some, if◌then◌else◌, ◌==◌, ltb, keep, length, AnyOf, All, All-map, arith,
}
use monocles_chat_desktop.Base.Tables.{Table, nat_key, delete, upsert}
use monocles_chat_desktop.Omemo.Database.{place, by_id, max_id, newest}

AnyOf-place :
    {V : Type 0} (P : ℕ × V → Type 0) (p : ℕ × V) (t : Table ℕ V)
    → AnyOf P (place p t)
    → P p ⊎ AnyOf P t
unfolding place
AnyOf-place P (i, v) [] h = h
AnyOf-place P (i, v) ((j, w) ∷ t) h = placed (ltb j i) (AnyOf-place P (i, v) t) h
  where
    placed :
        (b : Bool)
        → (AnyOf P (place (i, v) t) → P (i, v) ⊎ AnyOf P t)
        → AnyOf P (if b then (j, w) ∷ place (i, v) t else (i, v) ∷ (j, w) ∷ t)
        → P (i, v) ⊎ AnyOf P ((j, w) ∷ t)
    placed true later (inl x) = inr (inl x)
    placed true later (inr m) = elim (later m) [ inl x ↦ inl x | inr m' ↦ inr (inr m') ]
    placed false later m = m

-- The order of the rows is no matter.
pub AnyOf-by_id : {V : Type 0} (P : ℕ × V → Type 0) (t : Table ℕ V) → AnyOf P (by_id t) → AnyOf P t
unfolding by_id
AnyOf-by_id P [] h = h
AnyOf-by_id P (p ∷ t) h = elim (AnyOf-place P p (by_id t) h) [
  | inl x ↦ inl x
  | inr m ↦ inr (AnyOf-by_id P t m)
]

pub AnyOf-keep :
    {A : Type 0} (P : A → Type 0) (q : A → Bool) (xs : List A)
    → AnyOf P (keep q xs)
    → AnyOf (λ x. (q x ≡ true) × P x) xs
AnyOf-keep P q [] h = h
AnyOf-keep P q (x ∷ xs) h = kept (q x) refl (AnyOf-keep P q xs) h
  where
    kept :
        (b : Bool)
        → q x ≡ b
        → (AnyOf P (keep q xs) → AnyOf (λ y. (q y ≡ true) × P y) xs)
        → AnyOf P (if b then x ∷ keep q xs else keep q xs)
        → AnyOf (λ y. (q y ≡ true) × P y) (x ∷ xs)
    kept true e later (inl y) = inl (e, y)
    kept true e later (inr m) = inr (later m)
    kept false e later m = inr (later m)

length-place : {V : Type 0} (p : ℕ × V) (t : Table ℕ V) → length (place p t) ≡ suc (length t)
unfolding place
length-place (i, v) [] = refl
length-place (i, v) ((j, w) ∷ t) = ground (arith, length-place (i, v) t)

pub length-by_id : {V : Type 0} (t : Table ℕ V) → length (by_id t) ≡ length t
unfolding by_id
length-by_id [] = refl
length-by_id (p ∷ t) = length-place p (by_id t) ∙ ap suc (length-by_id t)

-- All of the rows that are kept, and those that are not.
pub All-keep :
    {A : Type 0} (P : A → Type 0) (q : A → Bool) (xs : List A)
    → All P (keep q xs)
    → All (λ x. (q x ≡ false) ⊎ P x) xs
All-keep P q [] h = tt
All-keep P q (x ∷ xs) h = kept (q x) refl (All-keep P q xs) h
  where
    kept :
        (b : Bool)
        → q x ≡ b
        → (All P (keep q xs) → All (λ y. (q y ≡ false) ⊎ P y) xs)
        → All P (if b then x ∷ keep q xs else keep q xs)
        → All (λ y. (q y ≡ false) ⊎ P y) (x ∷ xs)
    kept true e later (h', hs) = (inr h', later hs)
    kept false e later hs = (inl e, later hs)

some_injective : {A : Type 0} {x y : A} → some x ≡ some y → x ≡ y
some_injective e = cc

-- The row with the higher id, the second if there is one.
abbrev higher : {V : Type 0} → ℕ × V → Option (ℕ × V) → ℕ × V
higher p none = p
higher p (some q) = if ltb p.0 q.0 then q else p

newest-cons : {V : Type 0} (p : ℕ × V) (t : Table ℕ V) → newest (p ∷ t) ≡ some (higher p (newest t))
unfolding newest
newest-cons {V} (i, v) t = pick (newest t)
  where
    pick :
        (o : Option (ℕ × V))
        → ◌≡◌ {A = Option (ℕ × V)}
            (elim o [
              | none ↦ some (i, v)
              | some (j, w) ↦ if ltb i j then some (j, w) else some (i, v)
            ])
            (some (higher (i, v) o))
    pick none = refl
    pick (some (j, w)) = ground arith

abbrev pub IsNewest : {V : Type 0} → Table ℕ V → ℕ × V → Type 0
IsNewest t p = AnyOf (λ r. r ≡ p) t × All (λ r. r.0 ≤ p.0) t

higher-IsNewest :
    {V : Type 0} (p q : ℕ × V) (t : Table ℕ V) → IsNewest t q → IsNewest (p ∷ t) (higher p (some q))
higher-IsNewest p q t (there, below) = pick (ltb p.0 q.0) refl
  where
    pick : (b : Bool) → ltb p.0 q.0 ≡ b → IsNewest (p ∷ t) (if b then q else p)
    pick true e = (inr there, (ground arith, below))
    pick false e =
        let le : q.0 ≤ p.0 = ground arith in
        (inl refl, (omega arith, All-map _ _ t (λ r h. omega (arith, h, le)) below))

-- What is taken as the newest row is a row, and no row has a higher id.
pub newest-IsNewest : {V : Type 0} (t : Table ℕ V) (p : ℕ × V) → newest t ≡ some p → IsNewest t p
unfolding newest
newest-IsNewest [] p h = absurd (none_refuted h)
  where
    none_refuted : {A : Type 0} {x : A} → none ≡ some x → ⊥
    none_refuted e = cc
newest-IsNewest (q ∷ []) p h =
    subst (IsNewest (q ∷ [])) (some_injective h) (inl refl, (omega arith, tt))
newest-IsNewest (q ∷ r ∷ t) p h =
    let next = newest-cons r t in
    let rest = newest-IsNewest (r ∷ t) (higher r (newest t)) next in
    subst (IsNewest (q ∷ r ∷ t)) (some_injective (sym (newest-cons q (r ∷ t)) ∙ h)) (
      subst (λ o. IsNewest (q ∷ r ∷ t) (higher q o)) (sym next)
        (higher-IsNewest q (higher r (newest t)) (r ∷ t) rest))

pub newest-none : {V : Type 0} (P : ℕ × V → Type 0) (t : Table ℕ V) → newest t ≡ none → All P t
unfolding newest
newest-none P [] h = tt
newest-none P (q ∷ t) h = absurd (some_refuted (sym h ∙ newest-cons q t))
  where
    some_refuted : {A : Type 0} {x : A} → none ≡ some x → ⊥
    some_refuted e = cc

pub AnyOf-map :
    {A : Type 0} (P Q : A → Type 0) (xs : List A) → ((a : A) → P a → Q a) → AnyOf P xs → AnyOf Q xs
AnyOf-map P Q [] f m = m
AnyOf-map P Q (x ∷ xs) f (inl p) = inl (f x p)
AnyOf-map P Q (x ∷ xs) f (inr m) = inr (AnyOf-map P Q xs f m)

-- From one that has `Q`, where all have `P`.
pub AnyOf-All :
    {A R : Type 0} (P Q : A → Type 0) (xs : List A)
    → All P xs
    → AnyOf Q xs
    → ((a : A) → P a → Q a → R)
    → R
AnyOf-All P Q [] hs m f = absurd m
AnyOf-All P Q (x ∷ xs) (h, hs) (inl q) f = f x h q
AnyOf-All P Q (x ∷ xs) (h, hs) (inr m) f = AnyOf-All P Q xs hs m f

pub All-both :
    {A : Type 0} (P Q : A → Type 0) (xs : List A) → All P xs → All Q xs → All (λ x. P x × Q x) xs
All-both P Q [] h h' = tt
All-both P Q (x ∷ xs) (h, hs) (h', hs') = ((h, h'), All-both P Q xs hs hs')

pub All-delete :
    {V : Type 0} (P : ℕ × V → Type 0) (k : ℕ) (t : Table ℕ V) → All P t → All P (delete k t)
unfolding delete
All-delete P k [] h = tt
All-delete P k ((j, v) ∷ t) (h, hs) = left (j == k) (All-delete P k t hs)
  where
    left : (b : Bool) → All P (delete k t) → All P (if b then delete k t else (j, v) ∷ delete k t)
    left true rest = rest
    left false rest = (h, rest)

-- A row that is deleted is gone.
pub delete_gone : {V : Type 0} (k : ℕ) (t : Table ℕ V) → All (λ r. r.0 ≢ k) (delete k t)
unfolding delete
delete_gone k [] = tt
delete_gone k ((j, v) ∷ t) = left (j == k) refl (delete_gone k t)
  where
    left :
        (b : Bool)
        → j == k ≡ b
        → All (λ r. r.0 ≢ k) (delete k t)
        → All (λ r. r.0 ≢ k) (if b then delete k t else (j, v) ∷ delete k t)
    left true e rest = rest
    left false e rest = (λ same. ground arith, rest)

pub All-upsert :
    {V : Type 0} (P : ℕ × V → Type 0) (k : ℕ) (v : V) (f : V → V) (t : Table ℕ V)
    → P (k, v)
    → ((i : ℕ) (w : V) → P (i, w) → P (i, f w))
    → All P t
    → All P (upsert k v f t)
unfolding upsert
All-upsert P k v f [] new old h = (new, tt)
All-upsert P k v f ((j, w) ∷ t) new old (h, hs) = put (j == k) (All-upsert P k v f t new old hs)
  where
    put :
        (b : Bool)
        → All P (upsert k v f t)
        → All P (if b then (j, f w) ∷ t else (j, w) ∷ upsert k v f t)
    put true rest = (old j w h, hs)
    put false rest = (h, rest)

pub length-upsert_le :
    {V : Type 0} (k : ℕ) (v : V) (f : V → V) (t : Table ℕ V) → length t ≤ length (upsert k v f t)
unfolding upsert
length-upsert_le k v f [] = omega arith
length-upsert_le k v f ((j, w) ∷ t) = put (j == k) (length-upsert_le k v f t)
  where
    put :
        (b : Bool)
        → length t ≤ length (upsert k v f t)
        → length ((j, w) ∷ t) ≤ length (if b then (j, f w) ∷ t else (j, w) ∷ upsert k v f t)
    put true le = omega arith
    put false le = omega arith

-- A row with an id above all others is a further one.
abbrev pub IsBelow : {V : Type 0} → ℕ → Table ℕ V → Type 0
IsBelow k = All (λ r. r.0 < k)

pub upsert_new :
    {V : Type 0} (k : ℕ) (v : V) (f : V → V) (t : Table ℕ V)
    → IsBelow k t
    → (length (upsert k v f t) ≡ suc (length t)) × IsBelow (k + 1) (upsert k v f t)
unfolding upsert
upsert_new k v f [] h = (refl, (omega arith, tt))
upsert_new k v f ((j, w) ∷ t) (h, hs) =
    let other : j == k ≡ false = ground arith in
    let (longer, below) = upsert_new k v f t hs in rw other (ap suc longer, (omega arith, below))

pub max_id-IsBelow : {V : Type 0} (t : Table ℕ V) → IsBelow (max_id t + 1) t
unfolding max_id
max_id-IsBelow [] = tt
max_id-IsBelow ((i, v) ∷ t) = pick (ltb (max_id t) i) refl (max_id-IsBelow t)
  where
    below : (b : Bool) → ltb (max_id t) i ≡ b → max_id t ≤ (if b then i else max_id t)
    below true e = ground arith
    below false e = omega arith

    here : (b : Bool) → ltb (max_id t) i ≡ b → i ≤ (if b then i else max_id t)
    here true e = omega arith
    here false e = ground arith

    pick :
        (b : Bool)
        → ltb (max_id t) i ≡ b
        → IsBelow (max_id t + 1) t
        → IsBelow ((if b then i else max_id t) + 1) ((i, v) ∷ t)
    pick b e rest =
        (omega (arith, here b e), All-map _ _ t (λ r h. omega (arith, h, below b e)) rest)
