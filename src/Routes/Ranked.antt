-- ===== src/Routes/Ranked.antt =====
-- Tables that are sorted by a rank, highest first, and scanned for the first entry that serves: the
-- shape of `ClientCidrRoutes` (by prefix length) and of the suffixes of a `DomainRouteTable` (by
-- length) in src/state.rs.
use xtp_rs.Prelude.{
  Bool, List, Option, [], false, if◌then◌else◌, leb, list_eq, nat_eq, none, option_eq, some, true,
  ℕ, ◌∷◌,
}

abbrev pub or_else {ℓ} : {A : Type ℓ} → Option A → Option A → Option A
or_else (some a) b = some a
or_else none b = b

abbrev pub or_default {ℓ} : {A : Type ℓ} → A → Option A → A
or_default d (some a) = a
or_default d none = d

abbrev pub is_some {ℓ} : {A : Type ℓ} → Option A → Bool
is_some (some a) = true
is_some none = false

module _ {N T : Type 0} where
  -- sort_by_key(Reverse(rank)), a stable sort
  unfoldable pub insert_by_rank : (N → ℕ) → N × T → List (N × T) → List (N × T)
  insert_by_rank rank e [] = e ∷ []
  insert_by_rank rank e (x ∷ xs) =
      if leb (rank x.0) (rank e.0) then e ∷ x ∷ xs else x ∷ insert_by_rank rank e xs

  unfoldable pub sort_by_rank : (N → ℕ) → List (N × T) → List (N × T)
  unfolding insert_by_rank
  sort_by_rank rank [] = []
  sort_by_rank rank (e ∷ es) = insert_by_rank rank e (sort_by_rank rank es)

  -- iter().find(..).map(..)
  unfoldable pub find_entry : (N → Bool) → List (N × T) → Option T
  find_entry holds [] = none
  find_entry holds ((n, v) ∷ es) = if holds n then some v else find_entry holds es

  -- iter().filter(..).find_map(..)
  unfoldable pub find_map_entries :
      {R : Type 0} → (N → Bool) → (T → Option R) → List (N × T) → Option R
  find_map_entries holds f [] = none
  find_map_entries holds f ((n, v) ∷ es) =
      let rest = find_map_entries holds f es in if holds n then or_else (f v) rest else rest
