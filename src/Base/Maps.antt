-- ===== src/Base/Maps.antt =====
-- A `HashMap<String, V>` as an association list, and its laws in `if` form.
use mathlib.Core.Path.{◌≡◌, refl}
use mathlib.Core.List.{List, [], ◌∷◌}
use mathlib.Core.Option.{Option, none, some}
use native.Mathlib.Omega.{arith}
use monocles_chat_desktop.Base.Bools.{if◌then◌else◌}
use monocles_chat_desktop.Base.Texts.{Text, text_eq, text_eq_iff, text_eq_refl}

abbrev pub Map {ℓ} : Type ℓ → Type ℓ
Map V = List (Text × V)

module _ {ℓ} {V : Type ℓ} where
  -- `HashMap::get`.
  unfoldable pub lookup : Text → Map V → Option V
  lookup k [] = none
  lookup k ((j, v) ∷ m) = if text_eq j k then some v else lookup k m

  -- `HashMap::remove`, the map part.
  unfoldable pub remove : Text → Map V → Map V
  remove k [] = []
  remove k ((j, v) ∷ m) = let rest = remove k m in if text_eq j k then rest else (j, v) ∷ rest

  -- `HashMap::insert`: an earlier value of the key is replaced, in its place.
  unfoldable pub insert : Text → V → Map V → Map V
  insert k v [] = (k, v) ∷ []
  insert k v ((j, w) ∷ m) = if text_eq j k then (k, v) ∷ m else (j, w) ∷ insert k v m

  pub lookup-insert :
      (k j : Text) (v : V) (m : Map V)
      → lookup j (insert k v m) ≡ (if text_eq k j then some v else lookup j m)
  unfolding lookup insert
  lookup-insert k j v [] = refl
  lookup-insert k j v ((i, w) ∷ m) =
      ground (arith, text_eq_iff k j, text_eq_iff i k, text_eq_iff i j, lookup-insert k j v m)

  pub lookup-remove :
      (k j : Text) (m : Map V) → lookup j (remove k m) ≡ (if text_eq k j then none else lookup j m)
  unfolding lookup remove
  lookup-remove k j [] = ground arith
  lookup-remove k j ((i, w) ∷ m) =
      ground (arith, text_eq_iff k j, text_eq_iff i k, text_eq_iff i j, lookup-remove k j m)

  pub remove-absent : (k : Text) (m : Map V) → lookup k m ≡ none → remove k m ≡ m
  unfolding lookup remove
  remove-absent k [] h = refl
  remove-absent k ((i, w) ∷ m) h = ground (arith, remove-absent k m)

  pub lookup-remove_self : (k : Text) (m : Map V) → lookup k (remove k m) ≡ none
  lookup-remove_self k m = rw (lookup-remove k k m, text_eq_refl k)

  pub remove-remove : (k : Text) (m : Map V) → remove k (remove k m) ≡ remove k m
  remove-remove k m = remove-absent k (remove k m) (lookup-remove_self k m)

  pub lookup-insert_self : (k : Text) (v : V) (m : Map V) → lookup k (insert k v m) ≡ some v
  lookup-insert_self k v m = rw (lookup-insert k k v m, text_eq_refl k)
