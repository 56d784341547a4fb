-- ===== src/Tests/Counting.antt =====
-- Pick statistics (src/upstream.rs).
use mathlib.Core.Option
use xtp_rs.Prelude.{Bool, List, Text, [], arith, get_or, refl, some, suc, text, zero, ℕ, ◌∷◌, ◌≡◌}
use xtp_rs.PickStats.{PickStats, new, record_by_id}
use xtp_rs.PickStats.Totals.{column}
use xtp_rs.PickStats.Window.{WellFormed}
use xtp_rs.PickStats.Record.{
  HasRoom, Recorded, RecordedById, record_at-Recorded, record_by_id-RecordedById,
}

abbrev ids : List Text
ids = text "a" ∷ text "b" ∷ []

abbrev stats : PickStats
stats = new 60 ids

record_test :
    Option.map (λ (r : Bool × PickStats). r.1.totals) (record_by_id stats 100 (text "b"))
    ≡ some (0 ∷ 1 ∷ [])
unfolding record_by_id
record_test = refl

-- At 100 the first bucket is before the window of 60 seconds, and the second is in it.
abbrev used : PickStats
used = record stats {
  buckets =
      record { start_secs = 20; counts = 2 ∷ 1 ∷ [] }
      ∷ record { start_secs = 50; counts = 0 ∷ 3 ∷ [] }
      ∷ [];
  totals = 2 ∷ 4 ∷ [];
}

used-WellFormed : WellFormed used
used-WellFormed = record {
  positive = omega arith;
  totals_wide = refl;
  buckets_wide = (refl, (refl, tt));
  sums = sums_of;
  ordered = (omega arith, tt);
}
  where
    sums_of : (i : ℕ) → get_or used.totals i 0 ≡ column i used.buckets
    sums_of zero = refl
    sums_of (suc zero) = refl
    sums_of (suc (suc i)) = refl

room : HasRoom used
room zero = ground arith
room (suc zero) = ground arith
room (suc (suc i)) = ground arith

used_test :
    Option.map (λ (r : Bool × PickStats). r.1.totals) (record_by_id used 100 (text "b"))
    ≡ some (0 ∷ 4 ∷ [])
unfolding record_by_id
used_test = refl

record_at-Recorded_example : Recorded used 100 1
record_at-Recorded_example =
    record_at-Recorded used 100 1 used-WellFormed room (ground arith) (omega arith)

record_by_id-RecordedById_example :
    RecordedById used 100 (text "b") (record_by_id used 100 (text "b"))
record_by_id-RecordedById_example =
    record_by_id-RecordedById used 100 (text "b") used-WellFormed room (ground arith)
