-- ===== src/PickStats/Record.antt =====
-- A pick recorded by `PickStats` of src/upstream.rs.
use xtp_rs.Prelude.{
  Bool, Bool-cases, List, Option, Text, [], ap, arith, contains, eq, eq_iff, false, get_elem?,
  get_or, if◌then◌else◌, inl, inr, leb, length, length-replicate, list_eq, min, nat_eq, none,
  option_eq, pair_eq, refl, some, subst, suc, true, zero, ℕ, ◌*◌, ◌+◌, ◌-◌, ◌/◌, ◌<◌, ◌==◌, ◌^◌,
  ◌||◌, ◌∙◌, ◌∷◌, ◌≡◌, ◌≤◌,
}
use xtp_rs.PickStats.{
  Bucket, PickStats, bump, bump_last, ensure_bucket, evict, evict_asserts, find_index, new,
  record_at, record_by_id, record_found, sub_counts, u64_max,
}
use xtp_rs.PickStats.Totals.{
  Kept, bump_last_lem, bump_lem, column-ensure_bucket, ensure_bucket-Wide, ensure_bucket-ne_nil,
  evict-Kept, evict_asserts_hold, get_or-replicate, get_or-sub_counts, plus_at,
}
use xtp_rs.PickStats.Window.{
  Evicted, Reaching, WellFormed, bump_last-starts, current-reaches, ensure_bucket-Ordered,
  ensure_bucket-Reaching, evict-Evicted, in_window, starts,
}
use xtp_rs.Routes.Ranked.{or_else}

pub new-WellFormed : (window_secs : ℕ) (ids : List Text) → WellFormed (new window_secs ids)
new-WellFormed window_secs ids = record {
  positive = omega arith;
  totals_wide = length-replicate (length ids) 0;
  buckets_wide = tt;
  sums = λ i. get_or-replicate (length ids) i;
  ordered = tt;
}

-- Room for one more pick of every upstream below the largest u64.
abbrev pub HasRoom : PickStats → Type 0
HasRoom s = (i : ℕ) → get_or s.totals i 0 + 1 < 2 ^ 64

-- The statistics after a pick of upstream `i` at the instant `now`: well-formed, about the same
-- upstreams and the same window, without a bucket from before the window, and each upstream has the
-- picks of the buckets that reach into the window, and `i` one more.
pub record AfterPick (s : PickStats) (now i : ℕ) (next : PickStats) : Type 0 where
  pub well_formed : WellFormed next
  pub same_ids : next.upstream_ids ≡ s.upstream_ids
  pub same_window : (next.window_secs ≡ s.window_secs) × (next.bucket_secs ≡ s.bucket_secs)
  pub reaching : Reaching s.bucket_secs s.window_secs now (starts next.buckets)
  pub counted :
      (j : ℕ)
      → get_or next.totals j 0 ≡ in_window s.bucket_secs s.window_secs now j s.buckets + plus_at i j

-- A pick that was recorded, and the statistics after it; the debug assertions on the way hold.
pub record Recorded (s : PickStats) (now i : ℕ) : Type 0 where
  pub next : PickStats
  pub recorded : record_at s now i ≡ some next
  pub asserted : evict_asserts s.bucket_secs (now - s.window_secs) s.buckets s.totals ≡ true
  pub after : AfterPick s now i next

evict-le :
    (bucket_secs cutoff : ℕ) (bs : List Bucket) (totals : List ℕ) (i : ℕ)
    → get_or (evict bucket_secs cutoff bs totals).1 i 0 ≤ get_or totals i 0
evict-le bucket_secs cutoff [] totals i = omega arith
evict-le bucket_secs cutoff (b ∷ bs) totals i =
    elim (Bool-cases (leb (min (b.start_secs + bucket_secs) u64_max) cutoff)) [
      | inr e ↦ rw e (omega arith)
      | inl e ↦ rw e (
          omega (
            arith,
            evict-le bucket_secs cutoff bs (sub_counts totals b.counts) i,
            get_or-sub_counts totals b.counts i,
          ))
    ]

-- With well-formed statistics, an index in range, room for one more pick and an instant before the
-- last one of u64, recording does not panic, nor does it break a debug assertion. No bucket that ends
-- before the window is left, each upstream has the picks of the buckets that reach into the window,
-- the picked upstream and no other has one more, and the totals are again the sums over the buckets.
pub record_at-Recorded :
    (s : PickStats) (now i : ℕ)
    → WellFormed s
    → HasRoom s
    → now < u64_max
    → i < length s.upstream_ids
    → Recorded s now i
record_at-Recorded s now i wf has_room early lt =
    let n : ℕ = length s.upstream_ids in
    let cutoff = now - s.window_secs in
    let kept = evict s.bucket_secs cutoff s.buckets s.totals in
    let k : Kept n kept =
      evict-Kept n s.bucket_secs cutoff s.buckets s.totals
        (record { wide = wf.buckets_wide; totals_wide = wf.totals_wide; sums = wf.sums }) in
    let e : Evicted s.bucket_secs s.window_secs now n s.buckets kept =
      evict-Evicted s.bucket_secs s.window_secs now n s.buckets s.totals wf.positive early
        wf.ordered in
    let start = now / s.bucket_secs * s.bucket_secs in
    let grown = ensure_bucket n start kept.0 in
    let le = evict-le s.bucket_secs cutoff s.buckets s.totals i in
    let fits : get_or kept.1 i 0 + 1 < 2 ^ 64 = omega (arith, le, has_room i) in
    let bs =
      bump_last_lem n i grown (ensure_bucket-ne_nil n start kept.0)
        (ensure_bucket-Wide n start kept.0 k.wide) lt
        (omega (arith, column-ensure_bucket n start i kept.0, k.sums i, fits)) in
    let ts = bump_lem kept.1 i (omega (arith, k.totals_wide)) fits in
    let times : starts bs.0 ≡ starts grown = bump_last-starts i grown bs.0 bs.1 in
    record {
      next = record s { buckets = bs.0; totals = ts.0 };
      recorded = by_steps bs.0 ts.0 bs.1 ts.1 (not_zero s.bucket_secs wf.positive);
      asserted =
          evict_asserts_hold n s.bucket_secs cutoff s.buckets s.totals
            (record { wide = wf.buckets_wide; totals_wide = wf.totals_wide; sums = wf.sums });
      after = record {
        well_formed = record {
          positive = wf.positive;
          totals_wide = ts.2 ∙ k.totals_wide;
          buckets_wide = bs.2;
          sums =
              λ j. omega (arith, ts.3 j, bs.3 j, k.sums j, column-ensure_bucket n start j kept.0);
          ordered = rw times (ensure_bucket-Ordered n start kept.0 e.ordered);
        };
        same_ids = refl;
        same_window = (refl, refl);
        reaching = rw times (
            ensure_bucket-Reaching s.bucket_secs s.window_secs now n start kept.0
              (current-reaches s.bucket_secs s.window_secs now wf.positive) e.reaching);
        counted = λ j. omega (arith, ts.3 j, k.sums j, e.left j);
      };
    }
  where
    not_zero : (b : ℕ) → 1 ≤ b → (b == 0) ≡ false
    not_zero b h = ground arith

    by_steps :
        (bs : List Bucket) (ts : List ℕ)
        → bump_last
            (ensure_bucket
              (length s.upstream_ids)
              (now / s.bucket_secs * s.bucket_secs)
              (evict s.bucket_secs (now - s.window_secs) s.buckets s.totals).0)
            i
          ≡ some bs
        → bump (evict s.bucket_secs (now - s.window_secs) s.buckets s.totals).1 i ≡ some ts
        → (s.bucket_secs == 0) ≡ false
        → record_at s now i ≡ some (record s { buckets = bs; totals = ts })
    by_steps bs ts e f z = unfold record_at in rw (z, e, f) refl

-- What the look-up of an id has found: an index of it, or that it is unknown.
abbrev IndexOf : ℕ → List Text → Text → Option ℕ → Type 0
IndexOf k ids id (some i) = (k ≤ i) × (get_elem? ids (i - k) ≡ some id)
IndexOf k ids id none = contains ids id ≡ false

find_index_lem : (k : ℕ) (ids : List Text) (id : Text) → IndexOf k ids id (find_index k ids id)
find_index_lem k [] id = refl
find_index_lem k (x ∷ xs) id = by_rest (find_index (suc k) xs id) (find_index_lem (suc k) xs id)
  where
    further :
        (i : ℕ)
        → suc k ≤ i
        → get_elem? xs (i - suc k) ≡ some id
        → get_elem? (x ∷ xs) (i - k) ≡ some id
    further i le found = let next : i - k ≡ suc (i - suc k) = omega (arith, le) in rw next found

    by_rest :
        (o : Option ℕ)
        → IndexOf (suc k) xs id o
        → IndexOf k (x ∷ xs) id (or_else o (if eq x id then some k else none))
    by_rest (some i) h = (omega (arith, h.0), further i h.0 h.1)
    by_rest none h = elim (Bool-cases (eq x id)) [
      | inl e ↦
          let first : k - k ≡ 0 = omega arith in
          rw e (omega arith, rw first (ap some ((eq_iff x id).0 e)))
      | inr e ↦ rw e (ap (λ b. b || contains xs id) e ∙ h)
    ]

-- What recording by id gives: a known id is counted at an index of it, and an unknown one is refused
-- and changes nothing.
pub data RecordedById (s : PickStats) (now : ℕ) (id : Text)
    : Option (Bool × PickStats) → Type 0 where
  known :
      (i : ℕ) (next : PickStats)
      → get_elem? s.upstream_ids i ≡ some id
      → AfterPick s now i next
      → RecordedById s now id (some (true, next))
  unknown : contains s.upstream_ids id ≡ false → RecordedById s now id (some (false, s))

get_elem?-some-lt :
    (ids : List Text) (i : ℕ) (id : Text) → get_elem? ids i ≡ some id → i < length ids
get_elem?-some-lt [] i id h = cc
get_elem?-some-lt (x ∷ xs) zero id h = omega arith
get_elem?-some-lt (x ∷ xs) (suc i) id h = omega (arith, get_elem?-some-lt xs i id h)

record_found-RecordedById :
    (s : PickStats) (now : ℕ) (id : Text) (o : Option ℕ)
    → WellFormed s
    → HasRoom s
    → now < u64_max
    → IndexOf 0 s.upstream_ids id o
    → RecordedById s now id (record_found s now o)
unfolding record_found
record_found-RecordedById s now id none wf has_room early h = unknown h
record_found-RecordedById s now id (some i) wf has_room early h =
    let at : get_elem? s.upstream_ids i ≡ some id =
      let whole : i - 0 ≡ i = omega arith in
      subst (λ j. get_elem? s.upstream_ids j ≡ some id) whole h.1 in
    let r =
      record_at-Recorded s now i wf has_room early (get_elem?-some-lt s.upstream_ids i id at) in
    rw r.recorded (known i r.next at r.after)

-- Recording by id into well-formed statistics never panics where there is room for one more pick and
-- the instant is before the last one of u64. A known id is counted: no bucket that ends before the
-- window is left, each upstream has the picks of the buckets that reach into it, and one with the id
-- has one more. An unknown id is refused, and nothing changes.
pub record_by_id-RecordedById :
    (s : PickStats) (now : ℕ) (id : Text)
    → WellFormed s
    → HasRoom s
    → now < u64_max
    → RecordedById s now id (record_by_id s now id)
unfolding record_by_id
record_by_id-RecordedById s now id wf has_room early =
    record_found-RecordedById s now id (find_index 0 s.upstream_ids id) wf has_room early
      (find_index_lem 0 s.upstream_ids id)
