-- ===== src/Prelude/MapSize.antt =====
-- The sizes of maps, and what is under a key seen as an option.
use Prim.Native.Nat.{suc, ◌≤◌, ◌<◌}
use mathlib.Core.Path.{◌≡◌, refl, ◌∙◌, sym, ap}
use mathlib.Core.Logic.{inl, inr, ◌≢◌, ◌⊎◌}
use mathlib.Core.Bool.{true, false}
use mathlib.Core.List.{List, [], ◌∷◌}
use mathlib.Core.Option.{Option, none, some}
use native.Mathlib.Omega.{arith}
use xtp_rs.Prelude.Tests.{Bool-cases}
use xtp_rs.Prelude.Lists.{length}
use xtp_rs.Prelude.Equality.{Eq}
use xtp_rs.Prelude.Maps.{
  UniqueKeys, map_get, map_remove, map_insert, map_get-remove, map_get-insert,
}

-- A predicate of what an option holds.
abbrev pub Each {ℓ κ} : {A : Type ℓ} → (A → Type κ) → Option A → Type κ
Each P none = Unit
Each P (some a) = P a

module _ {K : Type 0} ⦃e : Eq K⦄ where
  pub key-cases : (k j : K) → (k ≡ j) ⊎ (e.beq k j ≡ false)
  key-cases k j = elim (Bool-cases (e.beq k j)) [
    | inl t ↦ inl ((e.beq_iff k j).0 t)
    | inr f ↦ inr f
  ]

module _ {K V : Type 0} ⦃e : Eq K⦄ where
  pub length-map_remove_le : (m : List (K × V)) (k : K) → length (map_remove m k) ≤ length m
  unfolding map_remove
  length-map_remove_le [] k = ground arith
  length-map_remove_le ((j, v) ∷ m) k = ground (arith, length-map_remove_le m k)

  pub length-map_remove_lt :
      (m : List (K × V)) (k : K) → map_get m k ≢ none → length (map_remove m k) < length m
  unfolding map_remove map_get
  length-map_remove_lt [] k h = absurd (h refl)
  length-map_remove_lt ((j, v) ∷ m) k h = elim (Bool-cases (e.beq j k)) [
    | inl t ↦ ground (arith, length-map_remove_le m k)
    | inr f ↦
        let shorter : length (map_remove m k) < length m =
          length-map_remove_lt m k (λ q. h (ground (arith, f, q))) in
        ground (arith, shorter, f)
  ]

  pub length-map_insert_le :
      (m : List (K × V)) (k : K) (v : V) → length (map_insert m k v) ≤ suc (length m)
  unfolding map_insert
  length-map_insert_le m k v = ground (arith, length-map_remove_le m k)

  -- Removing a key that is absent changes nothing.
  pub map_remove-absent : (m : List (K × V)) (k : K) → map_get m k ≡ none → map_remove m k ≡ m
  unfolding map_remove map_get
  map_remove-absent [] k h = refl
  map_remove-absent ((j, v) ∷ m) k h = elim (Bool-cases (e.beq j k)) [
    | inl t ↦ ground (arith, h, t)
    | inr f ↦ ground (arith, f, map_remove-absent m k (ground (arith, h, f)))
  ]

  -- A key that is there once leaves once.
  pub length-map_remove :
      (m : List (K × V)) (k : K)
      → UniqueKeys m
      → map_get m k ≢ none
      → suc (length (map_remove m k)) ≡ length m
  unfolding map_remove map_get
  length-map_remove [] k u h = absurd (h refl)
  length-map_remove ((j, v) ∷ m) k u h = elim (key-cases j k) [
    | inl same ↦
        let gone : map_get m k ≡ none = ap (λ i. map_get m i) (sym same) ∙ u.0 in
        let t : e.beq j k ≡ true = (e.beq_iff j k).1 same in rw (t, map_remove-absent m k gone) refl
    | inr f ↦
        let shorter : suc (length (map_remove m k)) ≡ length m =
          length-map_remove m k u.1 (λ q. h (ground (arith, f, q))) in
        ground (arith, shorter, f)
  ]

  pub map_get-nil : (k : K) → map_get {V = V} [] k ≡ none
  unfolding map_get
  map_get-nil k = refl

  pub get_remove_same : (m : List (K × V)) (k : K) → map_get (map_remove m k) k ≡ none
  get_remove_same m k = rw (map_get-remove m k k, (e.beq_iff k k).1 refl) refl

  pub get_remove_other :
      (m : List (K × V)) (k j : K) → e.beq k j ≡ false → map_get (map_remove m k) j ≡ map_get m j
  get_remove_other m k j f = rw (map_get-remove m k j, f) refl

  pub get_insert_same : (m : List (K × V)) (k : K) (v : V) → map_get (map_insert m k v) k ≡ some v
  get_insert_same m k v = rw (map_get-insert m k k v, (e.beq_iff k k).1 refl) refl

  pub get_insert_other :
      (m : List (K × V)) (k j : K) (v : V)
      → e.beq k j ≡ false
      → map_get (map_insert m k v) j ≡ map_get m j
  get_insert_other m k j v f = rw (map_get-insert m k j v, f) refl

  -- What is left after a removal was there, under another key.
  pub get_remove_left :
      (m : List (K × V)) (k j : K) (v : V)
      → map_get (map_remove m k) j ≡ some v
      → (e.beq k j ≡ false) × (map_get m j ≡ some v)
  get_remove_left m k j v h = elim (Bool-cases (e.beq k j)) [
    | inl t ↦ ground (arith, t, h, map_get-remove m k j)
    | inr f ↦ (f, sym (get_remove_other m k j f) ∙ h)
  ]
