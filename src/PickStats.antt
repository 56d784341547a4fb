-- ===== src/PickStats.antt =====
-- `PickStats` of src/upstream.rs: how often each upstream was picked in a window of time, kept in
-- buckets with a running total. The front of the deque is the head of the list; `none` is a panic
-- (an index out of bounds, or a division by zero). The build is the release build, where an unknown id
-- is refused; a debug build panics on it (`debug_assert!` of `record_by_id`).
pub mod Totals
pub mod Window
pub mod Record
use xtp_rs.Prelude.{
  Bool, List, Option, Text, [], eq, false, if◌then◌else◌, leb, length, list_eq, ltb, max, min,
  nat_eq, none, option_eq, pair_eq, replicate, some, suc, true, zero, ℕ, ◌%◌, ◌&&◌, ◌*◌, ◌+◌, ◌-◌,
  ◌/◌, ◌==◌, ◌>>◌, ◌^◌, ◌||◌, ◌∷◌,
}
use xtp_rs.Routes.Ranked.{or_else}

abbrev pub u64_max : ℕ
u64_max = 2 ^ 64 - 1

pub record Bucket : Type 0 where
  pub start_secs : ℕ
  pub counts : List ℕ

pub record PickStats : Type 0 where
  pub window_secs : ℕ
  pub bucket_secs : ℕ
  pub upstream_ids : List Text
  pub buckets : List Bucket
  pub totals : List ℕ

abbrev pub new : ℕ → List Text → PickStats
new window_secs upstream_ids = record {
  window_secs = window_secs;
  bucket_secs = max (min 10 window_secs) 1;
  upstream_ids = upstream_ids;
  buckets = [];
  totals = replicate (length upstream_ids) 0;
}

-- The look-up in `indexes`, where a later entry of the same id has replaced an earlier one.
abbrev pub find_index : ℕ → List Text → Text → Option ℕ
find_index k [] id = none
find_index k (x ∷ xs) id = or_else (find_index (suc k) xs id) (if eq x id then some k else none)

-- The totals without an expired bucket, `saturating_sub` at each index.
abbrev pub sub_counts : List ℕ → List ℕ → List ℕ
sub_counts [] cs = []
sub_counts (t ∷ ts) [] = t ∷ ts
sub_counts (t ∷ ts) (c ∷ cs) = (t - c) ∷ sub_counts ts cs

-- The loop that drops the buckets before the window.
abbrev pub evict : ℕ → ℕ → List Bucket → List ℕ → List Bucket × List ℕ
evict bucket_secs cutoff [] totals = ([], totals)
evict bucket_secs cutoff (b ∷ bs) totals =
    let rest = evict bucket_secs cutoff bs (sub_counts totals b.counts) in
    if leb (min (b.start_secs + bucket_secs) u64_max) cutoff then rest else (b ∷ bs, totals)

-- debug_assert!(*total >= cnt), for each upstream.
abbrev pub covers : List ℕ → List ℕ → Bool
covers [] cs = true
covers (t ∷ ts) [] = true
covers (t ∷ ts) (c ∷ cs) = leb c t && covers ts cs

-- Whether the loop above passes all its debug assertions.
abbrev pub evict_asserts : ℕ → ℕ → List Bucket → List ℕ → Bool
evict_asserts bucket_secs cutoff [] totals = true
evict_asserts bucket_secs cutoff (b ∷ bs) totals =
    let rest = evict_asserts bucket_secs cutoff bs (sub_counts totals b.counts) in
    if leb (min (b.start_secs + bucket_secs) u64_max) cutoff
    then covers totals b.counts && rest
    else true

-- A new bucket is pushed unless the last one is the current one or, after the clock was set back,
-- a later one.
abbrev pub ensure_bucket : ℕ → ℕ → List Bucket → List Bucket
ensure_bucket n bucket_start [] = record { start_secs = bucket_start; counts = replicate n 0 } ∷ []
ensure_bucket n bucket_start (b ∷ []) =
    if ltb bucket_start b.start_secs || b.start_secs == bucket_start
    then b ∷ []
    else b ∷ record { start_secs = bucket_start; counts = replicate n 0 } ∷ []
ensure_bucket n bucket_start (b ∷ c ∷ bs) = b ∷ ensure_bucket n bucket_start (c ∷ bs)

infixl 5 ◌>>=◌
abbrev pub ◌>>=◌ : {A B : Type 0} → Option A → (A → Option B) → Option B
some a >>= f = f a
none >>= f = none

-- counts[i] += 1
abbrev pub bump : List ℕ → ℕ → Option (List ℕ)
bump [] i = none
bump (c ∷ cs) zero = some ((c + 1) % 2 ^ 64 ∷ cs)
bump (c ∷ cs) (suc i) = do cs' ← bump cs i; some (c ∷ cs')

-- back_mut()
abbrev pub bump_last : List Bucket → ℕ → Option (List Bucket)
bump_last [] i = none
bump_last (b ∷ []) i = do counts ← bump b.counts i; some (record b { counts = counts } ∷ [])
bump_last (b ∷ c ∷ bs) i = do bs' ← bump_last (c ∷ bs) i; some (b ∷ bs')

abbrev pub record_in : PickStats → ℕ → ℕ → List Bucket × List ℕ → Option PickStats
record_in s now i kept = do
  buckets ←
      bump_last (ensure_bucket (length s.upstream_ids) (now / s.bucket_secs * s.bucket_secs) kept.0)
        i
  totals ← bump kept.1 i
  some (record s { buckets = buckets; totals = totals })

unfoldable pub record_at : PickStats → ℕ → ℕ → Option PickStats
record_at s now i =
    if s.bucket_secs == 0
    then none
    else record_in s now i (evict s.bucket_secs (now - s.window_secs) s.buckets s.totals)

-- Whether the id was known, and the statistics after the pick.
unfoldable pub record_found : PickStats → ℕ → Option ℕ → Option (Bool × PickStats)
unfolding record_at
record_found s now none = some (false, s)
record_found s now (some i) = do s' ← record_at s now i; some (true, s')

unfoldable pub record_by_id : PickStats → ℕ → Text → Option (Bool × PickStats)
unfolding record_found
record_by_id s now id = record_found s now (find_index 0 s.upstream_ids id)
