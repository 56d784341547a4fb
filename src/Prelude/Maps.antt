-- ===== src/Prelude/Maps.antt =====
-- A map (`HashMap`, `DashMap`) as an association list with one entry for each key.
use mathlib.Core.Path.{◌≡◌, refl, ap}
use mathlib.Core.Bool.{Bool}
use mathlib.Core.Logic.{inl, inr}
use mathlib.Core.List.{List, [], ◌∷◌}
use mathlib.Core.Option.{Option, none, some}
use native.Mathlib.Omega.{arith}
use xtp_rs.Prelude.Tests.{if◌then◌else◌, Bool-cases}
use xtp_rs.Prelude.Equality.{Eq}

module _ {K V : Type 0} ⦃e : Eq K⦄ where
  unfoldable pub map_get : List (K × V) → K → Option V
  map_get [] k = none
  map_get ((j, v) ∷ m) k = if e.beq j k then some v else map_get m k

  unfoldable pub map_remove : List (K × V) → K → List (K × V)
  map_remove [] k = []
  map_remove ((j, v) ∷ m) k = let rest = map_remove m k in if e.beq j k then rest else (j, v) ∷ rest

  unfoldable pub map_insert : List (K × V) → K → V → List (K × V)
  unfolding map_remove
  map_insert m k v = (k, v) ∷ map_remove m k

  unfoldable pub map_retain : (K → V → Bool) → List (K × V) → List (K × V)
  map_retain p [] = []
  map_retain p ((j, v) ∷ m) = let rest = map_retain p m in if p j v then (j, v) ∷ rest else rest

  pub map_get-remove :
      (m : List (K × V)) (k j : K)
      → map_get (map_remove m k) j ≡ (if e.beq k j then none else map_get m j)
  unfolding map_get map_remove
  map_get-remove [] k j = ground arith
  map_get-remove ((i, v) ∷ m) k j =
      ground (arith, map_get-remove m k j, e.beq_iff i k, e.beq_iff i j, e.beq_iff k j)

  pub map_get-insert :
      (m : List (K × V)) (k j : K) (v : V)
      → map_get (map_insert m k v) j ≡ (if e.beq k j then some v else map_get m j)
  unfolding map_insert map_get
  map_get-insert m k j v = ground (arith, map_get-remove m k j)

  -- Each key has one entry.
  abbrev pub UniqueKeys : List (K × V) → Type 0
  UniqueKeys [] = Unit {0}
  UniqueKeys ((j, v) ∷ m) = (map_get m j ≡ none) × UniqueKeys m

  pub map_remove-UniqueKeys :
      (m : List (K × V)) (k : K) → UniqueKeys m → UniqueKeys (map_remove m k)
  unfolding map_remove
  map_remove-UniqueKeys [] k u = tt
  map_remove-UniqueKeys ((j, v) ∷ m) k u =
      ground (arith, map_get-remove m k j, map_remove-UniqueKeys m k u.1)

  pub map_insert-UniqueKeys :
      (m : List (K × V)) (k : K) (v : V) → UniqueKeys m → UniqueKeys (map_insert m k v)
  unfolding map_insert
  map_insert-UniqueKeys m k v u =
      (ground (arith, map_get-remove m k k, (e.beq_iff k k).1 refl), map_remove-UniqueKeys m k u)

  abbrev pub keep_if : (K → V → Bool) → K → Option V → Option V
  keep_if p k none = none
  keep_if p k (some v) = if p k v then some v else none

  pub map_get-retain :
      (p : K → V → Bool) (m : List (K × V)) (k : K)
      → UniqueKeys m
      → map_get (map_retain p m) k ≡ keep_if p k (map_get m k)
  unfolding map_get map_retain
  map_get-retain p [] k u = refl
  map_get-retain p ((j, v) ∷ m) k u = elim (Bool-cases (e.beq j k)) [
    | inl t ↦
        let q = (e.beq_iff j k).0 t in
        ground (arith, map_get-retain p m k u.1, ap (λ x. map_get m x) q, ap (λ x. p x v) q)
    | inr f ↦ ground (arith, map_get-retain p m k u.1)
  ]

  pub map_retain-UniqueKeys :
      (p : K → V → Bool) (m : List (K × V)) → UniqueKeys m → UniqueKeys (map_retain p m)
  unfolding map_retain
  map_retain-UniqueKeys p [] u = tt
  map_retain-UniqueKeys p ((j, v) ∷ m) u =
      ground (arith, map_get-retain p m j u.1, map_retain-UniqueKeys p m u.1)
