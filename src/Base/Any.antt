-- ===== src/Base/Any.antt =====
-- Predicates of some and of all elements of a list.
use mathlib.Core.Path.{◌≡◌, subst}
use mathlib.Core.Logic.{◌⊎◌, inl, inr}
use mathlib.Core.List.{List, [], ◌∷◌}
use monocles_chat_desktop.Base.Lists.{All}

-- `P` of an element.
abbrev pub AnyOf {ℓ} : {A : Type ℓ} → (A → Type 0) → List A → Type 0
AnyOf P [] = ⊥
AnyOf P (x ∷ xs) = P x ⊎ AnyOf P xs

pub All-AnyOf :
    {A : Type 0} (P : A → Type 0) (c : A) (xs : List A) → All P xs → AnyOf (λ x. x ≡ c) xs → P c
All-AnyOf P c [] h m = absurd m
All-AnyOf P c (x ∷ xs) (h, hs) (inl e) = subst P e h
All-AnyOf P c (x ∷ xs) (h, hs) (inr m) = All-AnyOf P c xs hs m

pub All-later :
    {A B : Type 0} (R : B → A → Type 0) (b : B) (bs : List B) (xs : List A)
    → All (λ x. AnyOf (λ y. R y x) bs) xs
    → All (λ x. AnyOf (λ y. R y x) (b ∷ bs)) xs
All-later R b bs [] h = tt
All-later R b bs (x ∷ xs) (h, hs) = (inr h, All-later R b bs xs hs)

pub All-first :
    {A B : Type 0} (R : B → A → Type 0) (b : B) (bs : List B) (xs : List A)
    → All (R b) xs
    → All (λ x. AnyOf (λ y. R y x) (b ∷ bs)) xs
All-first R b bs [] h = tt
All-first R b bs (x ∷ xs) (h, hs) = (inl h, All-first R b bs xs hs)

pub All-map {ℓ κ} :
    {A : Type ℓ} (P Q : A → Type κ) (xs : List A) → ((a : A) → P a → Q a) → All P xs → All Q xs
All-map P Q [] f h = tt
All-map P Q (x ∷ xs) f (h, hs) = (f x h, All-map P Q xs f hs)
