-- ===== src/Routes/Sorting.antt =====
-- `sort_by_key(Reverse(rank))` gives a table with the same entries, by falling rank.
use xtp_rs.Prelude.{
  Bool-cases, In, List, [], arith, inl, inr, leb, leb-false→lt, leb→le, ℕ, ◌<◌, ◌∷◌, ◌≡◌, ◌≤◌, ◌⊎◌,
}
use xtp_rs.Routes.Ranked.{insert_by_rank, sort_by_rank}

module _ {N T : Type 0} (rank : N → ℕ) where
  abbrev pub SortedByRank : List (N × T) → Type 0
  SortedByRank [] = Unit {0}
  SortedByRank (x ∷ xs) = ((y : N × T) → In y xs → rank y.0 ≤ rank x.0) × SortedByRank xs

  pub In-insert_by_rank :
      (e y : N × T) (xs : List (N × T)) → In y (insert_by_rank rank e xs) → (y ≡ e) ⊎ In y xs
  unfolding insert_by_rank
  In-insert_by_rank e y [] h = h
  In-insert_by_rank e y (x ∷ xs) h = elim (Bool-cases (leb (rank x.0) (rank e.0))) [
    | inl t ↦ rw t at h
    | inr f ↦ elim (rw f at h) [
      | inl p ↦ inr (inl p)
      | inr m ↦ elim (In-insert_by_rank e y xs m) [ inl p ↦ inl p | inr q ↦ inr (inr q) ]
    ]
  ]

  pub insert_by_rank-In :
      (e y : N × T) (xs : List (N × T)) → (y ≡ e) ⊎ In y xs → In y (insert_by_rank rank e xs)
  unfolding insert_by_rank
  insert_by_rank-In e y [] h = h
  insert_by_rank-In e y (x ∷ xs) h = elim (Bool-cases (leb (rank x.0) (rank e.0))) [
    | inl t ↦ rw t h
    | inr f ↦ rw f (elim h [
      | inl p ↦ inr (insert_by_rank-In e y xs (inl p))
      | inr (inl p) ↦ inl p
      | inr (inr m) ↦ inr (insert_by_rank-In e y xs (inr m))
    ])
  ]

  pub insert_by_rank-SortedByRank :
      (e : N × T) (xs : List (N × T)) → SortedByRank xs → SortedByRank (insert_by_rank rank e xs)
  unfolding insert_by_rank
  insert_by_rank-SortedByRank e [] s = (λ y m. absurd m, tt)
  insert_by_rank-SortedByRank e (x ∷ xs) s = elim (Bool-cases (leb (rank x.0) (rank e.0))) [
    | inl t ↦ rw t (λ y m. above y m (leb→le (rank x.0) (rank e.0) t), s)
    | inr f ↦ rw f (
      λ y m. below y (In-insert_by_rank e y xs m) (leb-false→lt (rank x.0) (rank e.0) f),
      insert_by_rank-SortedByRank e xs s.1,
    )
  ]
    where
      above : (y : N × T) → In y (x ∷ xs) → rank x.0 ≤ rank e.0 → rank y.0 ≤ rank e.0
      above y (inl p) le = rw p le
      above y (inr m) le = omega (arith, s.0 y m)

      below : (y : N × T) → (y ≡ e) ⊎ In y xs → rank e.0 < rank x.0 → rank y.0 ≤ rank x.0
      below y (inl p) lt = rw p (omega arith)
      below y (inr m) lt = s.0 y m

  pub sort_by_rank-SortedByRank : (es : List (N × T)) → SortedByRank (sort_by_rank rank es)
  unfolding sort_by_rank
  sort_by_rank-SortedByRank [] = tt
  sort_by_rank-SortedByRank (e ∷ es) =
      insert_by_rank-SortedByRank e (sort_by_rank rank es) (sort_by_rank-SortedByRank es)

  pub In-sort_by_rank : (y : N × T) (es : List (N × T)) → In y (sort_by_rank rank es) → In y es
  unfolding sort_by_rank
  In-sort_by_rank y [] h = h
  In-sort_by_rank y (e ∷ es) h = elim (In-insert_by_rank e y (sort_by_rank rank es) h) [
    | inl p ↦ inl p
    | inr m ↦ inr (In-sort_by_rank y es m)
  ]

  pub sort_by_rank-In : (y : N × T) (es : List (N × T)) → In y es → In y (sort_by_rank rank es)
  unfolding sort_by_rank
  sort_by_rank-In y [] h = h
  sort_by_rank-In y (e ∷ es) (inl p) = insert_by_rank-In e y (sort_by_rank rank es) (inl p)
  sort_by_rank-In y (e ∷ es) (inr m) =
      insert_by_rank-In e y (sort_by_rank rank es) (inr (sort_by_rank-In y es m))
