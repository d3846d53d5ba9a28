-- ===== src/Omemo/Prekeys/Steps.antt =====
-- The steps of a computation on the store, from its success.
use monocles_chat_desktop.Base.{◌≡◌, refl, ap, Option, none, some}
use monocles_chat_desktop.Omemo.Database.{Database}
use monocles_chat_desktop.Omemo.Error.{Result, ok, err}
use monocles_chat_desktop.Omemo.Prekeys.{S, bind, done, gets, lift}

-- A success of two steps is one of each.
pub bind-ok :
    {A B : Type 0} (m : S A) (f : A → S B) (db : Database) {b : B} {after : Database}
    → bind m f db ≡ (ok b, after)
    → (a : A) × (between : Database) × (m db ≡ (ok a, between)) × (f a between ≡ (ok b, after))
unfolding bind
bind-ok {A} {B} m f db {b} {after} h = split (m db) h
  where
    split :
        (out : Result A × Database)
        → ◌≡◌ {A = Result B × Database}
            (elim out.0 [ ok a ↦ f a out.1 | err e ↦ (err e, out.1) ])
            (ok b, after)
        → (a : A) × (between : Database) × (out ≡ (ok a, between)) × (f a between ≡ (ok b, after))
    split (ok a, between) h' = (a, between, refl, h')
    split (err e, between) h' = cc

abbrev value_of : {A : Type 0} → Result A × Database → Option A
value_of (ok a, db) = some a
value_of (err e, db) = none

pub lift-ok :
    {A : Type 0} (o : Option A) (db : Database) {a : A} {after : Database}
    → lift o db ≡ (ok a, after)
    → (o ≡ some a) × (db ≡ after)
lift-ok none db h = absurd (none_refuted (ap value_of h))
  where
    none_refuted : {A : Type 0} {a : A} → none ≡ some a → ⊥
    none_refuted e = cc
lift-ok (some a) db h = (ap value_of h, ap (λ out. out.1) h)

pub done-ok :
    {A : Type 0} (a : A) (db : Database) {b : A} {after : Database}
    → done a db ≡ (ok b, after)
    → (a ≡ b) × (db ≡ after)
done-ok a db h = (some_injective (ap value_of h), ap (λ out. out.1) h)
  where
    some_injective : {A : Type 0} {x y : A} → some x ≡ some y → x ≡ y
    some_injective e = cc

pub gets-bind :
    {A B : Type 0} (f : Database → A) (k : A → S B) (db : Database) {b : B} {after : Database}
    → bind (gets f) k db ≡ (ok b, after)
    → k (f db) db ≡ (ok b, after)
unfolding bind
gets-bind f k db h = h

-- The steps in a proof: what a success of a step hands to the rest.
pub lift-bind :
    {A B P : Type 0} (o : Option A) (k : A → S B) (db : Database) {b : B} {after : Database}
    → bind (lift o) k db ≡ (ok b, after)
    → ((a : A) → o ≡ some a → k a db ≡ (ok b, after) → P)
    → P
unfolding bind
lift-bind none k db h rest = cc
lift-bind (some a) k db h rest = rest a refl h

pub step-bind :
    {A B P : Type 0} (m : S A) (k : A → S B) (db : Database) {b : B} {after : Database}
    → bind m k db ≡ (ok b, after)
    → ((a : A) (between : Database) → m db ≡ (ok a, between) → k a between ≡ (ok b, after) → P)
    → P
step-bind m k db h rest = let (a, between, e, h') = bind-ok m k db h in rest a between e h'
