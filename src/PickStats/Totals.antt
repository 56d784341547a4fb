-- ===== src/PickStats/Totals.antt =====
-- The totals of `PickStats` (src/upstream.rs) are the sums over its buckets.
use xtp_rs.Prelude.{
  All, Bool-cases, List, [], ap, arith, get_or, if◌then◌else◌, inl, inr, leb, length,
  length-replicate, le→leb, ltb, min, refl, replicate, some, suc, true, zero, ℕ, ◌%◌, ◌+◌, ◌-◌, ◌<◌,
  ◌==◌, ◌^◌, ◌||◌, ◌∙◌, ◌∷◌, ◌≡◌, ◌≢◌, ◌≤◌,
}
use xtp_rs.PickStats.{
  Bucket, bump, bump_last, covers, ensure_bucket, evict, evict_asserts, sub_counts, u64_max,
}

-- The picks of one upstream in all buckets.
abbrev pub column : ℕ → List Bucket → ℕ
column i [] = 0
column i (b ∷ bs) = get_or b.counts i 0 + column i bs

abbrev pub Wide : ℕ → List Bucket → Type 0
Wide n bs = All (λ (b : Bucket). length b.counts ≡ n) bs

pub get_or-sub_counts :
    (ts cs : List ℕ) (i : ℕ) → get_or (sub_counts ts cs) i 0 ≡ get_or ts i 0 - get_or cs i 0
get_or-sub_counts [] cs i = omega arith
get_or-sub_counts (t ∷ ts) [] i = omega arith
get_or-sub_counts (t ∷ ts) (c ∷ cs) zero = refl
get_or-sub_counts (t ∷ ts) (c ∷ cs) (suc i) = get_or-sub_counts ts cs i

length-sub_counts : (ts cs : List ℕ) → length (sub_counts ts cs) ≡ length ts
length-sub_counts [] cs = refl
length-sub_counts (t ∷ ts) [] = refl
length-sub_counts (t ∷ ts) (c ∷ cs) = ap suc (length-sub_counts ts cs)

-- What holds of the buckets and the totals together.
pub record Kept (n : ℕ) (r : List Bucket × List ℕ) : Type 0 where
  pub wide : Wide n r.0
  pub totals_wide : length r.1 ≡ n
  pub sums : (i : ℕ) → get_or r.1 i 0 ≡ column i r.0

pub evict-Kept :
    (n bucket_secs cutoff : ℕ) (bs : List Bucket) (totals : List ℕ)
    → Kept n (bs, totals)
    → Kept n (evict bucket_secs cutoff bs totals)
evict-Kept n bucket_secs cutoff [] totals k = k
evict-Kept n bucket_secs cutoff (b ∷ bs) totals k =
    elim (Bool-cases (leb (min (b.start_secs + bucket_secs) u64_max) cutoff)) [
      | inr e ↦ rw e k
      | inl e ↦ rw e (
          evict-Kept n bucket_secs cutoff bs (sub_counts totals b.counts) (record {
            wide = k.wide.1;
            totals_wide = length-sub_counts totals b.counts ∙ k.totals_wide;
            sums = λ i. omega (arith, get_or-sub_counts totals b.counts i, k.sums i);
          }))
    ]

covers_lem :
    (totals counts : List ℕ)
    → ((i : ℕ) → get_or counts i 0 ≤ get_or totals i 0)
    → covers totals counts ≡ true
covers_lem [] counts h = refl
covers_lem (t ∷ totals) [] h = refl
covers_lem (t ∷ totals) (c ∷ counts) h =
    rw (le→leb c t (h zero), covers_lem totals counts (λ i. h (suc i))) refl

-- The totals cover every bucket that the loop drops.
pub evict_asserts_hold :
    (n bucket_secs cutoff : ℕ) (bs : List Bucket) (totals : List ℕ)
    → Kept n (bs, totals)
    → evict_asserts bucket_secs cutoff bs totals ≡ true
evict_asserts_hold n bucket_secs cutoff [] totals k = refl
evict_asserts_hold n bucket_secs cutoff (b ∷ bs) totals k =
    elim (Bool-cases (leb (min (b.start_secs + bucket_secs) u64_max) cutoff)) [
      | inr e ↦ rw e refl
      | inl e ↦
          let rest =
            evict_asserts_hold n bucket_secs cutoff bs (sub_counts totals b.counts) (record {
              wide = k.wide.1;
              totals_wide = length-sub_counts totals b.counts ∙ k.totals_wide;
              sums = λ i. omega (arith, get_or-sub_counts totals b.counts i, k.sums i);
            }) in
          rw (e, covers_lem totals b.counts (λ i. omega (arith, k.sums i)), rest) refl
    ]

pub get_or-replicate : (n i : ℕ) → get_or (replicate {A = ℕ} n 0) i 0 ≡ 0
get_or-replicate zero i = refl
get_or-replicate (suc n) zero = refl
get_or-replicate (suc n) (suc i) = get_or-replicate n i

abbrev fresh : ℕ → ℕ → Bucket
fresh n bucket_start = record { start_secs = bucket_start; counts = replicate n 0 }

pub column-ensure_bucket :
    (n bucket_start i : ℕ) (bs : List Bucket)
    → column i (ensure_bucket n bucket_start bs) ≡ column i bs
column-ensure_bucket n bucket_start i [] = omega (arith, get_or-replicate n i)
column-ensure_bucket n bucket_start i (b ∷ []) =
    elim (Bool-cases (ltb bucket_start b.start_secs || b.start_secs == bucket_start)) [
      | inl e ↦ rw e refl
      | inr e ↦ rw e (omega (arith, get_or-replicate n i))
    ]
column-ensure_bucket n bucket_start i (b ∷ c ∷ bs) =
    ap (λ k. get_or b.counts i 0 + k) (column-ensure_bucket n bucket_start i (c ∷ bs))

pub ensure_bucket-Wide :
    (n bucket_start : ℕ) (bs : List Bucket) → Wide n bs → Wide n (ensure_bucket n bucket_start bs)
ensure_bucket-Wide n bucket_start [] w = (length-replicate n 0, tt)
ensure_bucket-Wide n bucket_start (b ∷ []) w =
    elim (Bool-cases (ltb bucket_start b.start_secs || b.start_secs == bucket_start)) [
      | inl e ↦ rw e w
      | inr e ↦ rw e (w.0, (length-replicate n 0, tt))
    ]
ensure_bucket-Wide n bucket_start (b ∷ c ∷ bs) w =
    (w.0, ensure_bucket-Wide n bucket_start (c ∷ bs) w.1)

pub ensure_bucket-ne_nil :
    (n bucket_start : ℕ) (bs : List Bucket) → ensure_bucket n bucket_start bs ≢ []
ensure_bucket-ne_nil n bucket_start [] = λ h. cc
ensure_bucket-ne_nil n bucket_start (b ∷ []) =
    elim (Bool-cases (ltb bucket_start b.start_secs || b.start_secs == bucket_start)) [
      | inl e ↦ rw e (λ h. cc)
      | inr e ↦ rw e (λ h. cc)
    ]
ensure_bucket-ne_nil n bucket_start (b ∷ c ∷ bs) = λ h. cc

-- One more at one index.
abbrev pub plus_at : ℕ → ℕ → ℕ
plus_at i j = if i == j then 1 else 0

pub bump_lem :
    (xs : List ℕ) (i : ℕ)
    → i < length xs
    → get_or xs i 0 + 1 < 2 ^ 64
    → (ys : List ℕ) × (bump xs i ≡ some ys)
      × (length ys ≡ length xs)
      × ((j : ℕ) → get_or ys j 0 ≡ get_or xs j 0 + plus_at i j)
bump_lem [] i h k = absurd (omega arith)
bump_lem (c ∷ cs) zero h k = ((c + 1) % 2 ^ 64 ∷ cs, refl, refl, at_index)
  where
    at_index : (j : ℕ) → get_or ((c + 1) % 2 ^ 64 ∷ cs) j 0 ≡ get_or (c ∷ cs) j 0 + plus_at 0 j
    at_index zero = ground arith
    at_index (suc j) = ground arith
bump_lem (c ∷ cs) (suc i) h k =
    let r = bump_lem cs i (omega arith) k in (c ∷ r.0, rw r.1 refl, ap suc r.2, at_index r.0 r.3)
  where
    at_index :
        (ys : List ℕ)
        → ((j : ℕ) → get_or ys j 0 ≡ get_or cs j 0 + plus_at i j)
        → (j : ℕ) → get_or (c ∷ ys) j 0 ≡ get_or (c ∷ cs) j 0 + plus_at (suc i) j
    at_index ys g zero = ground arith
    at_index ys g (suc j) = ground (arith, g j)

pub bump_last_lem :
    (n i : ℕ) (bs : List Bucket)
    → bs ≢ []
    → Wide n bs
    → i < n
    → column i bs + 1 < 2 ^ 64
    → (cs : List Bucket) × (bump_last bs i ≡ some cs)
      × Wide n cs
      × ((j : ℕ) → column j cs ≡ column j bs + plus_at i j)
bump_last_lem n i [] ne w lt k = absurd (ne refl)
bump_last_lem n i (b ∷ []) ne w lt k =
    let r = bump_lem b.counts i (omega (arith, w.0)) (omega (arith, k)) in
    (record b { counts = r.0 } ∷ [], rw r.1 refl, (r.2 ∙ w.0, tt), λ j. omega (arith, r.3 j))
bump_last_lem n i (b ∷ c ∷ bs) ne w lt k =
    let r = bump_last_lem n i (c ∷ bs) (λ h. cc) w.1 lt (omega (arith, k)) in
    (b ∷ r.0, rw r.1 refl, (w.0, r.2), λ j. omega (arith, r.3 j))
