-- ===== src/Base/Outcomes.antt =====
-- A computation that may panic: `panicked` stands for an unwinding Rust thread.
use mathlib.Core.Bool.{Bool, true, false}
use mathlib.Core.Path.{◌≡◌, refl}
use monocles_chat_desktop.Base.Bools.{if◌then◌else◌}

pub data Outcome {ℓ} (A : Type ℓ) : Type ℓ where
  returned : A → Outcome A
  panicked : Outcome A

infixl 5 ◌>>=◌
abbrev pub ◌>>=◌ {ℓ κ} : {A : Type ℓ} {B : Type κ} → Outcome A → (A → Outcome B) → Outcome B
returned a >>= f = f a
panicked >>= f = panicked

pub >>=-eq-returned {ℓ κ} :
    {A : Type ℓ} {B : Type κ} (m : Outcome A) (f : A → Outcome B) {b : B}
    → (m >>= f) ≡ returned b
    → (a : A) × (m ≡ returned a) × (f a ≡ returned b)
>>=-eq-returned (returned a) f h = (a, refl, h)
>>=-eq-returned panicked f h = cc

-- `P` of the result, if there is one.
abbrev pub Ensures {ℓ κ} : {A : Type ℓ} → (A → Type κ) → Outcome A → Type κ
Ensures P (returned a) = P a
Ensures P panicked = Unit

pub Ensures-bind {ℓ κ μ} :
    {A : Type ℓ} {B : Type κ} (P : B → Type μ) (m : Outcome A) (f : A → Outcome B)
    → ((a : A) → Ensures P (f a))
    → Ensures P (m >>= f)
Ensures-bind P (returned a) f h = h a
Ensures-bind P panicked f h = tt

pub Ensures-bind_inv {ℓ κ μ ν} :
    {A : Type ℓ} {B : Type κ} (Q : A → Type ν) (P : B → Type μ) (m : Outcome A) (f : A → Outcome B)
    → Ensures Q m
    → ((a : A) → Q a → Ensures P (f a))
    → Ensures P (m >>= f)
Ensures-bind_inv Q P (returned a) f q h = h a q
Ensures-bind_inv Q P panicked f q h = tt

-- There is a result, and `P` of it.
abbrev pub Returns {ℓ} : {A : Type ℓ} → (A → Type 0) → Outcome A → Type 0
Returns P (returned a) = P a
Returns P panicked = ⊥

pub Returns-bind {ℓ κ} :
    {A : Type ℓ} {B : Type κ} (Q : A → Type 0) (P : B → Type 0) (m : Outcome A) (f : A → Outcome B)
    → Returns Q m
    → ((a : A) → Q a → Returns P (f a))
    → Returns P (m >>= f)
Returns-bind Q P (returned a) f q h = h a q
Returns-bind Q P panicked f q h = absurd q

pub Ensures-if {ℓ κ} :
    {A : Type ℓ} (P : A → Type κ) (b : Bool) (x y : Outcome A)
    → Ensures P x
    → Ensures P y
    → Ensures P (if b then x else y)
Ensures-if P true x y hx hy = hx
Ensures-if P false x y hx hy = hy

pub Returns-if {ℓ} :
    {A : Type ℓ} (P : A → Type 0) (b : Bool) (x y : Outcome A)
    → Returns P x
    → Returns P y
    → Returns P (if b then x else y)
Returns-if P true x y hx hy = hx
Returns-if P false x y hx hy = hy
