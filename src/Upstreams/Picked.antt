-- ===== src/Upstreams/Picked.antt =====
-- src/upstream.rs: which upstream a pick may give.
use xtp_rs.Prelude.{
  Bool-cases, In, List, Option, Text, [], arith, eq, false, get_elem?, get_elem?-lt, if_elim, inl,
  inr, is_empty, leb, length, list_eq, ltb, ltb-false→le, ltb→lt, nat_eq, none, not, option_eq,
  pair_eq, refl, set, some, suc, take, true, zero, ℕ, ◌*◌, ◌+◌, ◌-◌, ◌<◌, ◌==◌, ◌∷◌, ◌≡◌, ◌≢◌, ◌≤◌,
}
use xtp_rs.PickStats.{PickStats}
use xtp_rs.Upstreams.{Upstream}
use xtp_rs.Upstreams.Pick.{
  Draws, Pick, UpstreamSet, best_of, better, choose_at, counted, find_id, make_current, no_upstream,
  pick_panic, picked, record_in_stats, record_pick_stats, total_weight, uninitialized, weighted,
}

pub nonzero : (n : ℕ) → (n == 0) ≡ false → 0 < n
nonzero n h = ground arith

-- The random numbers are below their bounds.
pub record InRange (d : Draws) : Type 0 where
  pub index_lt : (n : ℕ) → 0 < n → d.index_below n < n
  pub weight_lt : (n : ℕ) → 0 < n → d.weight_below n < n

-- Counting a pick does not panic.
abbrev pub Counts : {F : Type 0} → UpstreamSet F → ℕ → Type 0
Counts set now = (id : Text) → record_in_stats set.pick_stats now id ≢ none

-- An upstream is picked, and `P` holds of it.
abbrev pub Picks : {F : Type 0} → (Upstream F → Type 0) → Pick F → Type 0
Picks P (picked u set) = P u
Picks P no_upstream = ⊥
Picks P pick_panic = ⊥

pub nonempty : {A : Type 0} (xs : List A) → not (is_empty xs) ≡ true → 0 < length xs
nonempty [] h = cc
nonempty (x ∷ xs) h = omega arith

pub In-get_elem? : {A : Type 0} (xs : List A) (i : ℕ) (x : A) → get_elem? xs i ≡ some x → In x xs
In-get_elem? [] i x h = cc
In-get_elem? (y ∷ ys) zero x h = inl (ground (arith, h))
In-get_elem? (y ∷ ys) (suc i) x h = inr (In-get_elem? ys i x h)

module _ {F : Type 0} where
  pub record_pick_stats-Picks :
      (P : Upstream F → Type 0) (set : UpstreamSet F) (now : ℕ) (u : Upstream F)
      → Counts set now
      → P u
      → Picks P (record_pick_stats set now u)
  record_pick_stats-Picks P set now u counts p =
      by_stats (record_in_stats set.pick_stats now u.id) (counts u.id)
    where
      by_stats : (o : Option (Option PickStats)) → o ≢ none → Picks P (counted set u o)
      by_stats none h = h refl
      by_stats (some stats) h = p

  pub choose_at-Picks :
      (P : Upstream F → Type 0) (set : UpstreamSet F) (group : Text) (now i : ℕ)
      (items : List (Upstream F))
      → Counts set now
      → ((u : Upstream F) → In u items → P u)
      → i < length items
      → Picks P (choose_at set group now (get_elem? items i))
  choose_at-Picks P set group now i items counts p h =
      let found = get_elem?-lt items i h in
      rw found.1 (
        record_pick_stats-Picks P (make_current set group found.0) now found.0 counts
          (p found.0 (In-get_elem? items i found.0 found.1)))

  pub uninitialized-In :
      (us : List (Upstream F)) (u : Upstream F) → In u (uninitialized us) → In u us
  unfolding uninitialized
  uninitialized-In [] u h = h
  uninitialized-In (v ∷ us) u h =
      if_elim (λ l. In u l → In u (v ∷ us)) v.tcp_score_initialized (uninitialized us)
        (v ∷ uninitialized us) (λ t m. inr (uninitialized-In us u m))
        (λ t m. elim m [ inl e ↦ inl e | inr r ↦ inr (uninitialized-In us u r) ]) h

  pub find_id-In :
      (us : List (Upstream F)) (id : Text) (u : Upstream F) → find_id us id ≡ some u → In u us
  unfolding find_id
  find_id-In [] id u h = cc
  find_id-In (v ∷ us) id u h = elim (Bool-cases (eq v.id id)) [
    | inl t ↦ inl (ground (arith, t, h))
    | inr f ↦ inr (find_id-In us id u (ground (arith, f, h)))
  ]

  module _ (eff : Upstream F → ℕ) where
    better-In :
        (u : Upstream F) (us : List (Upstream F)) (o : Option (Upstream F)) (best : Upstream F)
        → ((b : Upstream F) → o ≡ some b → In b us)
        → some (better eff u o) ≡ some best
        → In best (u ∷ us)
    better-In u us none best rest h = inl (ground (arith, h))
    better-In u us (some v) best rest h = elim (Bool-cases (leb (eff u) (eff v))) [
      | inl t ↦ inr (rest best (ground (arith, t, h)))
      | inr f ↦ inl (ground (arith, f, h))
    ]

    pub best_of-In :
        (us : List (Upstream F)) (best : Upstream F) → best_of eff us ≡ some best → In best us
    unfolding best_of
    best_of-In [] best h = cc
    best_of-In (u ∷ us) best h = better-In u us (best_of eff us) best (λ b q. best_of-In us b q) h

    -- A number below the sum of the weights falls into exactly one of the stretches that the weights
    -- lay out in order, and the item of that stretch is taken.
    pub weighted-interval :
        (us : List (Upstream F)) (r : ℕ)
        → r < total_weight eff us
        → (i : ℕ) × (u : Upstream F) × (get_elem? us i ≡ some u)
          × (weighted eff us r ≡ some u)
          × (total_weight eff (take i us) ≤ r)
          × (r < total_weight eff (take i us) + eff u * eff u)
    unfolding total_weight weighted
    weighted-interval [] r h = absurd (omega (arith, h))
    weighted-interval (u ∷ us) r h = elim (Bool-cases (ltb r (eff u * eff u))) [
      | inl t ↦ (0, u, refl, rw t refl, omega arith, omega (arith, ltb→lt r (eff u * eff u) t))
      | inr f ↦
          let big = ltb-false→le r (eff u * eff u) f in
          let rest = weighted-interval us (r - eff u * eff u) (omega (arith, h, big)) in
          (
            suc rest.0,
            rest.1,
            rest.2,
            rw f rest.3,
            omega (arith, rest.4, big),
            omega (arith, rest.5, big),
          )
    ]
