-- ===== src/PickStats/Window.antt =====
-- `PickStats::record_at` of src/upstream.rs: the buckets are in the order of their times, so that the
-- loop which drops expired buckets at the front leaves exactly those that reach into the window.
use xtp_rs.Prelude.{
  All, Bool, Bool-cases, List, Option-cases, [], arith, get_or, if◌then◌else◌, inl, inr, leb,
  length, ltb, min, not, refl, some, sym, true, ℕ, ◌*◌, ◌+◌, ◌-◌, ◌/◌, ◌<◌, ◌==◌, ◌||◌, ◌∷◌, ◌≡◌,
  ◌≤◌,
}
use xtp_rs.PickStats.{Bucket, PickStats, bump, bump_last, ensure_bucket, evict, sub_counts, u64_max}
use xtp_rs.PickStats.Totals.{Wide, column}

-- When the buckets start.
abbrev pub starts : List Bucket → List ℕ
starts [] = []
starts (b ∷ bs) = b.start_secs ∷ starts bs

-- Every bucket starts after the one before it.
abbrev pub Ordered : List ℕ → Type 0
Ordered [] = Unit {0}
Ordered (a ∷ []) = Unit {0}
Ordered (a ∷ b ∷ rest) = (a < b) × Ordered (b ∷ rest)

-- A bucket of `bucket_secs` seconds ends less than `window_secs` seconds before `now`, or later.
abbrev pub reaches : (bucket_secs window_secs now bucket_start : ℕ) → Bool
reaches bucket_secs window_secs now bucket_start =
    ltb now (bucket_start + bucket_secs + window_secs)

-- The picks of upstream `i` in the buckets that reach into the window.
abbrev pub in_window : (bucket_secs window_secs now i : ℕ) → List Bucket → ℕ
in_window bucket_secs window_secs now i [] = 0
in_window bucket_secs window_secs now i (b ∷ bs) =
    (if reaches bucket_secs window_secs now b.start_secs then get_or b.counts i 0 else 0)
    + in_window bucket_secs window_secs now i bs

Ordered-tail : (a : ℕ) (xs : List ℕ) → Ordered (a ∷ xs) → Ordered xs
Ordered-tail a [] h = tt
Ordered-tail a (b ∷ xs) h = h.1

-- The totals are the sums over the buckets, which have one number for each upstream and stand in the
-- order of their times.
pub record WellFormed (s : PickStats) : Type 0 where
  pub positive : 1 ≤ s.bucket_secs
  pub totals_wide : length s.totals ≡ length s.upstream_ids
  pub buckets_wide : Wide (length s.upstream_ids) s.buckets
  pub sums : (i : ℕ) → get_or s.totals i 0 ≡ column i s.buckets
  pub ordered : Ordered (starts s.buckets)

module _ (bucket_secs window_secs now : ℕ) where
  abbrev pub Reaching : List ℕ → Type 0
  Reaching xs = All (λ x. reaches bucket_secs window_secs now x ≡ true) xs

  -- What is after a bucket that reaches into the window does so too.
  Reaching-after :
      (a : ℕ) (xs : List ℕ)
      → Ordered (a ∷ xs)
      → reaches bucket_secs window_secs now a ≡ true
      → Reaching (a ∷ xs)
  Reaching-after a [] ordered h = (h, tt)
  Reaching-after a (b ∷ xs) ordered h =
      (h, Reaching-after b xs ordered.1 (ground (arith, h, ordered.0)))

  in_window-all :
      (i : ℕ) (bs : List Bucket)
      → Reaching (starts bs)
      → in_window bucket_secs window_secs now i bs ≡ column i bs
  in_window-all i [] h = refl
  in_window-all i (b ∷ bs) h = rw (h.0, in_window-all i bs h.1) refl

  -- The test of the source, with its saturating additions and subtractions, drops exactly the
  -- buckets that do not reach into the window.
  expired-reaches :
      (x : ℕ)
      → 1 ≤ bucket_secs
      → now < u64_max
      → leb (min (x + bucket_secs) u64_max) (now - window_secs)
        ≡ not (reaches bucket_secs window_secs now x)
  expired-reaches x positive early = ground (arith, positive, early)

  pub record Evicted (n : ℕ) (bs : List Bucket) (r : List Bucket × List ℕ) : Type 0 where
    pub ordered : Ordered (starts r.0)
    pub reaching : Reaching (starts r.0)
    pub left : (i : ℕ) → column i r.0 ≡ in_window bucket_secs window_secs now i bs

  pub evict-Evicted :
      (n : ℕ) (bs : List Bucket) (totals : List ℕ)
      → 1 ≤ bucket_secs
      → now < u64_max
      → Ordered (starts bs)
      → Evicted n bs (evict bucket_secs (now - window_secs) bs totals)
  evict-Evicted n [] totals positive early ordered = record {
    ordered = tt;
    reaching = tt;
    left = λ i. refl;
  }
  evict-Evicted n (b ∷ bs) totals positive early ordered =
      elim (Bool-cases (reaches bucket_secs window_secs now b.start_secs)) [
        | inl t ↦
            let all = Reaching-after b.start_secs (starts bs) ordered t in
            rw (expired-reaches b.start_secs positive early, t)
              (record {
                ordered = ordered;
                reaching = all;
                left = λ i. sym (in_window-all i (b ∷ bs) all);
              })
        | inr f ↦
            let rest =
              evict-Evicted n bs (sub_counts totals b.counts) positive early
                (Ordered-tail b.start_secs (starts bs) ordered) in
            rw (expired-reaches b.start_secs positive early, f)
              (record {
                ordered = rest.ordered;
                reaching = rest.reaching;
                left = λ i. rw f (omega (arith, rest.left i));
              })
      ]

  pub ensure_bucket-Reaching :
      (n bucket_start : ℕ) (bs : List Bucket)
      → reaches bucket_secs window_secs now bucket_start ≡ true
      → Reaching (starts bs)
      → Reaching (starts (ensure_bucket n bucket_start bs))
  ensure_bucket-Reaching n bucket_start [] h w = (h, tt)
  ensure_bucket-Reaching n bucket_start (b ∷ []) h w =
      elim (Bool-cases (ltb bucket_start b.start_secs || b.start_secs == bucket_start)) [
        | inl e ↦ rw e w
        | inr e ↦ rw e (w.0, (h, tt))
      ]
  ensure_bucket-Reaching n bucket_start (b ∷ c ∷ bs) h w =
      (w.0, ensure_bucket-Reaching n bucket_start (c ∷ bs) h w.1)

  -- The bucket of this instant reaches into the window.
  pub current-reaches :
      1 ≤ bucket_secs → reaches bucket_secs window_secs now (now / bucket_secs * bucket_secs) ≡ true
  current-reaches positive = ground (arith, positive)

pub ensure_bucket-Ordered :
    (n bucket_start : ℕ) (bs : List Bucket)
    → Ordered (starts bs)
    → Ordered (starts (ensure_bucket n bucket_start bs))
ensure_bucket-Ordered n bucket_start [] h = tt
ensure_bucket-Ordered n bucket_start (b ∷ []) h =
    elim (Bool-cases (ltb bucket_start b.start_secs || b.start_secs == bucket_start)) [
      | inl e ↦ rw e tt
      | inr e ↦ rw e (ground (arith, e), tt)
    ]
ensure_bucket-Ordered n bucket_start (b ∷ c ∷ []) h =
    elim (Bool-cases (ltb bucket_start c.start_secs || c.start_secs == bucket_start)) [
      | inl e ↦ rw e h
      | inr e ↦ rw e (h.0, (ground (arith, e), tt))
    ]
ensure_bucket-Ordered n bucket_start (b ∷ c ∷ d ∷ bs) h =
    (h.0, ensure_bucket-Ordered n bucket_start (c ∷ d ∷ bs) h.1)

-- Counting a pick leaves the times of the buckets alone.
pub bump_last-starts :
    (i : ℕ) (bs cs : List Bucket) → bump_last bs i ≡ some cs → starts cs ≡ starts bs
bump_last-starts i [] cs h = cc
bump_last-starts i (b ∷ []) cs h = elim (Option-cases (bump b.counts i)) [
  | inl e ↦ ground (arith, e, h)
  | inr (counts, e) ↦ ground (arith, e, h)
]
bump_last-starts i (b ∷ c ∷ bs) cs h = elim (Option-cases (bump_last (c ∷ bs) i)) [
  | inl e ↦ ground (arith, e, h)
  | inr (rest, e) ↦ ground (arith, e, h, bump_last-starts i (c ∷ bs) rest e)
]
