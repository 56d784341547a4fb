-- ===== src/Upstreams.antt =====
-- `Upstream` of src/upstream.rs: the scores of a link, as the whole state that its atomics hold. What is
-- computed in `f64` is a parameter: `scale raw gain` is the product, clamped to 1 and 10000000, and
-- `fade score left whole` the score times the part of the time that is left. An update is one step
-- (no other thread wins the compare-and-exchange in between). Scores are below 2 ^ 32 by their
-- bounds.
pub mod Scores
pub mod Choices
pub mod Sticky
pub mod Picked
pub mod Pick
use xtp_rs.Prelude.{
  Bool, List, Option, Text, false, if◌then◌else◌, leb, ltb, max, min, none, some, true, ℕ, ◌*◌, ◌+◌,
  ◌-◌, ◌/◌, ◌==◌, ◌||◌,
}

abbrev pub default_score : ℕ
default_score = 75

abbrev pub default_quic_stale_secs : ℕ
default_quic_stale_secs = 180

abbrev pub minimal_score : ℕ
minimal_score = 10

pub record Upstream (F : Type 0) : Type 0 where
  pub id : Text
  pub groups : List Text
  pub gain : F
  pub tcp_score : ℕ
  pub tcp_score_initialized : Bool
  pub quic_uplink_score : ℕ
  pub quic_downlink_score : ℕ
  pub quic_uplink_last_update_secs : ℕ
  pub quic_downlink_last_update_secs : ℕ
  pub quic_weight : ℕ
  pub quic_stale_secs : ℕ

abbrev pub combine : Bool → Bool → ℕ → ℕ → ℕ → ℕ
combine true true tcp quic qw = (tcp * (100 - qw) + quic * qw) / 100
combine false true tcp quic qw = quic
combine true false tcp quic qw = tcp
combine false false tcp quic qw = default_score

abbrev pub mean : Option ℕ → Option ℕ → ℕ
mean (some u) (some d) = (u + d) / 2
mean (some u) none = u
mean none (some d) = d
mean none none = default_score

-- A score with the time of its last update, after a raw score was offered.
abbrev pub blend_link : ℕ → ℕ → ℕ → ℕ → ℕ × ℕ
blend_link raw now score last =
    if ltb (now - last) 5 then (score, last) else ((score * 3 + min raw 1000 * 7) / 10, now)

abbrev pub update_link_score : Option ℕ → ℕ → ℕ → ℕ → ℕ × ℕ
update_link_score none now score last = (score, last)
update_link_score (some raw) now score last = blend_link raw now score last

module _ {F : Type 0} where
  abbrev pub new_upstream : Text → List Text → F → Upstream F
  new_upstream id groups gain = record {
    id = id;
    groups = groups;
    gain = gain;
    tcp_score = default_score;
    tcp_score_initialized = false;
    quic_uplink_score = default_score;
    quic_downlink_score = default_score;
    quic_uplink_last_update_secs = 0;
    quic_downlink_last_update_secs = 0;
    quic_weight = 40;
    quic_stale_secs = default_quic_stale_secs;
  }

  abbrev pub set_quic_weight : ℕ → Upstream F → Upstream F
  set_quic_weight w u = record u { quic_weight = min w 100 }

  abbrev pub set_quic_stale_secs : ℕ → Upstream F → Upstream F
  set_quic_stale_secs secs u = record u { quic_stale_secs = max secs 1 }

  abbrev pub update_uplink_score : Option ℕ → ℕ → Upstream F → Upstream F
  update_uplink_score raw now u =
      let r = update_link_score raw now u.quic_uplink_score u.quic_uplink_last_update_secs in
      record u { quic_uplink_score = r.0; quic_uplink_last_update_secs = r.1 }

  abbrev pub update_downlink_score : Option ℕ → ℕ → Upstream F → Upstream F
  update_downlink_score raw now u =
      let r = update_link_score raw now u.quic_downlink_score u.quic_downlink_last_update_secs in
      record u { quic_downlink_score = r.0; quic_downlink_last_update_secs = r.1 }

  -- The absolute mode of `run_score_task`, with a score from `calc_throughput_score`.
  abbrev pub blend_throughput : ℕ → Upstream F → Upstream F
  blend_throughput raw u = record u {
    tcp_score = (u.tcp_score * 5 + raw * 5) / 10;
    tcp_score_initialized = true;
  }

  abbrev pub penalize : ℕ → Upstream F → Upstream F
  penalize now u = record u {
    tcp_score = default_score;
    tcp_score_initialized = true;
    quic_uplink_score = default_score;
    quic_downlink_score = default_score;
    quic_uplink_last_update_secs = now;
    quic_downlink_last_update_secs = now;
  }

  module _ (scale : ℕ → F → ℕ) (fade : ℕ → ℕ → ℕ → ℕ) where
    abbrev pub decay : Upstream F → ℕ → ℕ → ℕ → Option ℕ
    decay u now score last =
        if last == 0
        then none
        else if leb u.quic_stale_secs (now - last)
        then some minimal_score
        else some
            (max (fade score (u.quic_stale_secs - (now - last)) u.quic_stale_secs) minimal_score)

    abbrev pub quic_score_effective_at : Upstream F → ℕ → ℕ
    quic_score_effective_at u now =
        mean (decay u now u.quic_uplink_score u.quic_uplink_last_update_secs)
          (decay u now u.quic_downlink_score u.quic_downlink_last_update_secs)

    unfoldable pub score_at : Upstream F → ℕ → ℕ
    score_at u now =
        combine u.tcp_score_initialized
          (ltb 0 u.quic_uplink_last_update_secs || ltb 0 u.quic_downlink_last_update_secs)
          u.tcp_score (quic_score_effective_at u now) u.quic_weight

    unfoldable pub effective_score_at : Upstream F → ℕ → ℕ
    unfolding score_at
    effective_score_at u now = scale (score_at u now) u.gain
