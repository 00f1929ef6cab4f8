-- ===== src/Prelude/IntMap.antt =====
-- `std::unordered_map<int, V>` as an association list: one entry for a key, in no promised order.
use mathlib.Core.Path.{◌≡◌, refl}
use mathlib.Core.Logic.{inl, inr}
use mathlib.Core.Bool.{Bool, true, false}
use mathlib.Core.Option.{Option, none, some}
use mathlib.Core.List.{List, [], ◌∷◌}
use native.Mathlib.Omega.{arith}
use astraea_open_source.Prelude.Tests.{if◌then◌else◌, Bool-cases}
use astraea_open_source.Prelude.Int.{ℤ, ◌==ℤ◌, ==ℤ_iff, ==ℤ_refl}

abbrev pub Map {ℓ} : Type ℓ → Type ℓ
Map V = List (ℤ × V)

module _ {ℓ} {V : Type ℓ} where
  unfoldable pub lookup : ℤ → Map V → Option V
  lookup k [] = none
  lookup k ((j, v) ∷ m) = if j ==ℤ k then some v else lookup k m

  unfoldable pub insert : ℤ → V → Map V → Map V
  insert k v [] = (k, v) ∷ []
  insert k v ((j, w) ∷ m) = if j ==ℤ k then (k, v) ∷ m else (j, w) ∷ insert k v m

  -- `erase`: every entry of the key goes, and there is one at most.
  unfoldable pub erase : ℤ → Map V → Map V
  erase k [] = []
  erase k ((j, w) ∷ m) = if j ==ℤ k then erase k m else (j, w) ∷ erase k m

  -- `find(key) != end()`
  abbrev pub contains : ℤ → Map V → Bool
  contains k m = elim (lookup k m) [ none ↦ false | some _ ↦ true ]

  pub lookup-insert :
      (k j : ℤ) (v : V) (m : Map V)
      → lookup j (insert k v m) ≡ (if k ==ℤ j then some v else lookup j m)
  unfolding lookup insert
  lookup-insert k j v [] = refl
  lookup-insert k j v ((i, w) ∷ m) =
      ground (arith, ==ℤ_iff k j, ==ℤ_iff i k, ==ℤ_iff i j, lookup-insert k j v m)

  pub lookup-erase :
      (k j : ℤ) (m : Map V) → lookup j (erase k m) ≡ (if k ==ℤ j then none else lookup j m)
  unfolding lookup erase
  lookup-erase k j [] = elim (Bool-cases (k ==ℤ j)) [ inl e ↦ rw e | inr e ↦ rw e ]
  lookup-erase k j ((i, w) ∷ m) =
      ground (arith, ==ℤ_iff k j, ==ℤ_iff i k, ==ℤ_iff i j, lookup-erase k j m)

  pub lookup-insert_self : (k : ℤ) (v : V) (m : Map V) → lookup k (insert k v m) ≡ some v
  lookup-insert_self k v m = rw (lookup-insert k k v m, ==ℤ_refl k)
