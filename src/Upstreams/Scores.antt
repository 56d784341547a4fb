-- ===== src/Upstreams/Scores.antt =====
-- src/upstream.rs: the scores of a link stay within their bounds.
use native.Mathlib.Nat.{mul-le-mul_right}
use xtp_rs.Prelude.{
  All, Bool, Each, List, Option, Text, [], arith, false, if_elim, if◌then◌else◌, leb, ltb, max, min,
  none, some, true, ℕ, ◌*◌, ◌+◌, ◌-◌, ◌/◌, ◌==◌, ◌||◌, ◌∷◌, ◌≤◌,
}
use xtp_rs.Upstreams.{
  Upstream, blend_throughput, combine, decay, mean, minimal_score, new_upstream, penalize,
  quic_score_effective_at, score_at, set_quic_stale_secs, set_quic_weight, update_downlink_score,
  update_link_score, update_uplink_score,
}

-- What may happen to an upstream.
pub data Update : Type 0 where
  weight_set stale_secs_set : ℕ → Update
  uplink_report downlink_report : Option ℕ → ℕ → Update
  throughput : ℕ → Update
  penalized : ℕ → Update

module _ {F : Type 0} where
  abbrev pub apply : Update → Upstream F → Upstream F
  apply (weight_set w) u = set_quic_weight w u
  apply (stale_secs_set secs) u = set_quic_stale_secs secs u
  apply (uplink_report raw now) u = update_uplink_score raw now u
  apply (downlink_report raw now) u = update_downlink_score raw now u
  apply (throughput raw) u = blend_throughput raw u
  apply (penalized now) u = penalize now u

  -- The latest update stands first.
  abbrev pub apply_all : List Update → Upstream F → Upstream F
  apply_all [] u = u
  apply_all (x ∷ xs) u = apply x (apply_all xs u)

-- `calc_throughput_score` gives at most 1000.
abbrev pub IsUpdate : Update → Type 0
IsUpdate (throughput raw) = raw ≤ 1000
IsUpdate (weight_set w) = Unit
IsUpdate (stale_secs_set secs) = Unit
IsUpdate (uplink_report raw now) = Unit
IsUpdate (downlink_report raw now) = Unit
IsUpdate (penalized now) = Unit

pub record IsUpstream {F : Type 0} (u : Upstream F) : Type 0 where
  pub tcp_small : u.tcp_score ≤ 1000
  pub uplink_small : u.quic_uplink_score ≤ 1000
  pub downlink_small : u.quic_downlink_score ≤ 1000
  pub weight_small : u.quic_weight ≤ 100
  pub stale_positive : 1 ≤ u.quic_stale_secs

blended :
    (raw : Option ℕ) (now score last : ℕ)
    → score ≤ 1000
    → (update_link_score raw now score last).0 ≤ 1000
blended none now score last h = h
blended (some raw) now score last h =
    if_elim (λ (x : ℕ × ℕ). x.0 ≤ 1000) (ltb (now - last) 5) (score, last)
      ((score * 3 + min raw 1000 * 7) / 10, now) (λ t. h) (λ t. omega arith)

module _ {F : Type 0} where
  apply-IsUpstream :
      (x : Update) (u : Upstream F) → IsUpdate x → IsUpstream u → IsUpstream (apply x u)
  apply-IsUpstream (weight_set w) u fine h = record {
    tcp_small = h.tcp_small;
    uplink_small = h.uplink_small;
    downlink_small = h.downlink_small;
    weight_small = omega arith;
    stale_positive = h.stale_positive;
  }
  apply-IsUpstream (stale_secs_set secs) u fine h = record {
    tcp_small = h.tcp_small;
    uplink_small = h.uplink_small;
    downlink_small = h.downlink_small;
    weight_small = h.weight_small;
    stale_positive = omega arith;
  }
  apply-IsUpstream (uplink_report raw now) u fine h = record {
    tcp_small = h.tcp_small;
    uplink_small =
        blended raw now u.quic_uplink_score u.quic_uplink_last_update_secs h.uplink_small;
    downlink_small = h.downlink_small;
    weight_small = h.weight_small;
    stale_positive = h.stale_positive;
  }
  apply-IsUpstream (downlink_report raw now) u fine h = record {
    tcp_small = h.tcp_small;
    uplink_small = h.uplink_small;
    downlink_small =
        blended raw now u.quic_downlink_score u.quic_downlink_last_update_secs h.downlink_small;
    weight_small = h.weight_small;
    stale_positive = h.stale_positive;
  }
  apply-IsUpstream (throughput raw) u fine h = record {
    tcp_small = omega (arith, h.tcp_small, fine);
    uplink_small = h.uplink_small;
    downlink_small = h.downlink_small;
    weight_small = h.weight_small;
    stale_positive = h.stale_positive;
  }
  apply-IsUpstream (penalized now) u fine h = record {
    tcp_small = omega arith;
    uplink_small = omega arith;
    downlink_small = omega arith;
    weight_small = h.weight_small;
    stale_positive = h.stale_positive;
  }

  apply_all-IsUpstream :
      (xs : List Update) (id : Text) (groups : List Text) (gain : F)
      → All IsUpdate xs
      → IsUpstream (apply_all xs (new_upstream id groups gain))
  apply_all-IsUpstream [] id groups gain fine = record {
    tcp_small = omega arith;
    uplink_small = omega arith;
    downlink_small = omega arith;
    weight_small = omega arith;
    stale_positive = omega arith;
  }
  apply_all-IsUpstream (x ∷ xs) id groups gain fine =
      apply-IsUpstream x (apply_all xs (new_upstream id groups gain)) fine.0
        (apply_all-IsUpstream xs id groups gain fine.1)

-- The weighted sum before the division, which the source computes in 32 bits.
combined_small :
    (tcp quic qw : ℕ) → tcp ≤ 1000 → quic ≤ 1000 → qw ≤ 100 → tcp * (100 - qw) + quic * qw ≤ 100000
combined_small tcp quic qw t q w =
    omega (arith, mul-le-mul_right (100 - qw) t, mul-le-mul_right qw q)

combine_small :
    (a b : Bool) (tcp quic qw : ℕ)
    → tcp ≤ 1000
    → quic ≤ 1000
    → qw ≤ 100
    → combine a b tcp quic qw ≤ 1000
combine_small true true tcp quic qw t q w = omega (arith, combined_small tcp quic qw t q w)
combine_small false true tcp quic qw t q w = q
combine_small true false tcp quic qw t q w = t
combine_small false false tcp quic qw t q w = omega arith

-- An optional score is small, and at least the minimal one.
abbrev IsDecayed : Option ℕ → Type 0
IsDecayed o = Each (λ s. (s ≤ 1000) × (minimal_score ≤ s)) o

mean_small :
    (a b : Option ℕ) → IsDecayed a → IsDecayed b → (mean a b ≤ 1000) × (minimal_score ≤ mean a b)
mean_small (some u) (some d) a b = (omega (arith, a, b), omega (arith, a, b))
mean_small (some u) none a b = a
mean_small none (some d) a b = b
mean_small none none a b = (omega arith, omega arith)

module _ {F : Type 0} (scale : ℕ → F → ℕ) (fade : ℕ → ℕ → ℕ → ℕ) where
  decay-IsDecayed :
      ((score left whole : ℕ) → left ≤ whole → fade score left whole ≤ score)
      → (u : Upstream F) (now score last : ℕ) → score ≤ 1000
      → IsDecayed (decay scale fade u now score last)
  decay-IsDecayed fades u now score last h =
      if_elim IsDecayed (last == 0) none
        (if leb u.quic_stale_secs (now - last)
          then some minimal_score
          else some
              (max (fade score (u.quic_stale_secs - (now - last)) u.quic_stale_secs) minimal_score))
        (λ t. tt)
        (λ t.
          if_elim IsDecayed (leb u.quic_stale_secs (now - last)) (some minimal_score)
            (some
              (max (fade score (u.quic_stale_secs - (now - last)) u.quic_stale_secs) minimal_score))
            (λ t. (omega arith, omega arith))
            (λ t.
              let faded =
                fades score (u.quic_stale_secs - (now - last)) u.quic_stale_secs (omega arith) in
              (omega (arith, faded, h), omega arith)))

  -- If fading with the time that is left never raises a score: after any history of settings, reports,
  -- throughput scores of at most 1000 and penalties, the combined score and its QUIC part are at most
  -- 1000, the QUIC part is at least 10, and the weighted sum before the division stays far below
  -- 2 ^ 32, with a weight that never exceeds 100.
  pub score_at-Bounded :
      ((score left whole : ℕ) → left ≤ whole → fade score left whole ≤ score)
      → (xs : List Update) (id : Text) (groups : List Text) (gain : F) (now : ℕ) → All IsUpdate xs
      → (score_at scale fade (apply_all xs (new_upstream id groups gain)) now ≤ 1000)
        × (minimal_score
            ≤ quic_score_effective_at scale fade (apply_all xs (new_upstream id groups gain)) now)
        × (quic_score_effective_at scale fade (apply_all xs (new_upstream id groups gain)) now
            ≤ 1000)
        × ((apply_all xs (new_upstream id groups gain)).quic_weight ≤ 100)
        × ((apply_all xs (new_upstream id groups gain)).tcp_score
                * (100 - (apply_all xs (new_upstream id groups gain)).quic_weight)
              + quic_score_effective_at scale fade (apply_all xs (new_upstream id groups gain)) now
                * (apply_all xs (new_upstream id groups gain)).quic_weight
            ≤ 100000)
  unfolding score_at
  score_at-Bounded fades xs id groups gain now fine =
      let u = apply_all xs (new_upstream id groups gain) in
      let h = apply_all-IsUpstream xs id groups gain fine in
      let quic =
        mean_small (decay scale fade u now u.quic_uplink_score u.quic_uplink_last_update_secs)
          (decay scale fade u now u.quic_downlink_score u.quic_downlink_last_update_secs)
          (decay-IsDecayed fades u now u.quic_uplink_score u.quic_uplink_last_update_secs
            h.uplink_small)
          (decay-IsDecayed fades u now u.quic_downlink_score u.quic_downlink_last_update_secs
            h.downlink_small) in
      (
        combine_small u.tcp_score_initialized
            (ltb 0 u.quic_uplink_last_update_secs || ltb 0 u.quic_downlink_last_update_secs)
            u.tcp_score (quic_score_effective_at scale fade u now) u.quic_weight h.tcp_small quic.0
            h.weight_small,
        quic.1,
        quic.0,
        h.weight_small,
        combined_small u.tcp_score (quic_score_effective_at scale fade u now) u.quic_weight
            h.tcp_small quic.0 h.weight_small,
      )
