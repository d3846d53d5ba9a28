-- ===== src/Base/Tables.antt =====
-- Tables of a database whose rows have one key: an association list without a key twice.
use Prim.Native.Nat.{ℕ}
use mathlib.Core.Path.{◌≡◌, refl}
use mathlib.Core.Logic.{◌↔◌}
use mathlib.Core.Bool.{Bool, true, ◌&&◌}
use mathlib.Core.List.{List, [], ◌∷◌}
use mathlib.Core.Option.{Option, none, some}
use native.Mathlib.Omega.{arith}
use monocles_chat_desktop.Base.Bools.{◌==◌, ==_iff, if◌then◌else◌, map_or}
use monocles_chat_desktop.Base.Texts.{Text, text_eq, text_eq_iff}

-- A type of keys.
pub record Key (K : Type 0) : Type 0 where
  pub same : K → K → Bool
  pub same_iff : (a b : K) → (same a b ≡ true) ↔ (a ≡ b)

instance abbrev pub nat_key : Key ℕ
nat_key = record { same = ◌==◌; same_iff = ==_iff }

pub same_pair : {A B : Type 0} (k : Key A) (l : Key B) → A × B → A × B → Bool
same_pair k l a b = k.same a.0 b.0 && l.same a.1 b.1

pub same_pair_iff :
    {A B : Type 0} (k : Key A) (l : Key B) (a b : A × B) → (same_pair k l a b ≡ true) ↔ (a ≡ b)
unfolding same_pair
same_pair_iff k l (a, b) (c, d) = ground (arith, k.same_iff a c, l.same_iff b d)

abbrev pub text_key : Key Text
text_key = record { same = text_eq; same_iff = text_eq_iff }

instance unfoldable pub address_key : Key (Text × ℕ)
unfolding same_pair
address_key = record {
  same = same_pair text_key nat_key;
  same_iff = same_pair_iff text_key nat_key;
}

instance unfoldable pub texts_key : Key (Text × Text)
unfolding same_pair
texts_key = record {
  same = same_pair text_key text_key;
  same_iff = same_pair_iff text_key text_key;
}

abbrev pub Table : Type 0 → Type 0 → Type 0
Table K V = List (K × V)

abbrev pub map_option : {V : Type 0} → (V → V) → Option V → Option V
map_option f none = none
map_option f (some v) = some (f v)

pub same_refl : {K : Type 0} ⦃key : Key K⦄ (k : K) → key.same k k ≡ true
same_refl ⦃key⦄ k = (key.same_iff k k).1 refl

module _ {K V : Type 0} ⦃key : Key K⦄ where
  -- `SELECT … WHERE key = k`.
  unfoldable pub row : K → Table K V → Option V
  row k [] = none
  row k ((j, v) ∷ t) = if key.same j k then some v else row k t

  -- `DELETE … WHERE key = k`.
  unfoldable pub delete : K → Table K V → Table K V
  delete k [] = []
  delete k ((j, v) ∷ t) = let rest = delete k t in if key.same j k then rest else (j, v) ∷ rest

  -- `INSERT … ON CONFLICT DO UPDATE`: a new row, or a change of the old one.
  unfoldable pub upsert : K → V → (V → V) → Table K V → Table K V
  upsert k v f [] = (k, v) ∷ []
  upsert k v f ((j, w) ∷ t) = if key.same j k then (j, f w) ∷ t else (j, w) ∷ upsert k v f t

  -- `UPDATE … WHERE key = k`.
  unfoldable pub update : K → (V → V) → Table K V → Table K V
  update k f [] = []
  update k f ((j, w) ∷ t) = (j, if key.same j k then f w else w) ∷ update k f t

  pub row-upsert :
      (k j : K) (v : V) (f : V → V) (t : Table K V)
      → row j (upsert k v f t) ≡ (if key.same k j then some (map_or (row k t) v f) else row j t)
  unfolding row upsert
  row-upsert k j v f [] = ground arith
  row-upsert k j v f ((i, w) ∷ t) =
      ground (arith, key.same_iff k j, key.same_iff i k, key.same_iff i j, row-upsert k j v f t)

  pub row-delete :
      (k j : K) (t : Table K V) → row j (delete k t) ≡ (if key.same k j then none else row j t)
  unfolding row delete
  row-delete k j [] = ground arith
  row-delete k j ((i, w) ∷ t) =
      ground (arith, key.same_iff k j, key.same_iff i k, key.same_iff i j, row-delete k j t)

  pub row-update :
      (k j : K) (f : V → V) (t : Table K V)
      → row j (update k f t) ≡ (if key.same k j then map_option f (row j t) else row j t)
  unfolding row update
  row-update k j f [] = ground arith
  row-update k j f ((i, w) ∷ t) =
      ground (arith, key.same_iff k j, key.same_iff i k, key.same_iff i j, row-update k j f t)
