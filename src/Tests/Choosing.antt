-- ===== src/Tests/Choosing.antt =====
-- Scores and picks (src/upstream.rs). A gain is a number that multiplies, and fading is exact.
use Prim.Native.String.{String}
use xtp_rs.Prelude.{
  In, List, [], ap, arith, contains, eq_iff, false, false≢true, get_elem?, inl, inr, list_eq,
  map_get, max, min, nat_eq, none, option_eq, pair_eq, refl, some, sym, take, text, true, ℕ, ◌*◌,
  ◌+◌, ◌-◌, ◌<◌, ◌∙◌, ◌∷◌, ◌≡◌, ◌≢◌, ◌≤◌, ◌⊎◌,
}
use xtp_rs.Upstreams.{Upstream, minimal_score, new_upstream, quic_score_effective_at, score_at}
use xtp_rs.Upstreams.Scores.{
  Update, apply_all, score_at-Bounded, throughput, uplink_report, weight_set,
}
use xtp_rs.Upstreams.Pick.{
  Draws, UpstreamSet, no_upstream, pick_excluding_many_from_group, pick_weighted, total_weight,
  weighted,
}
use xtp_rs.Upstreams.Picked.{InRange, Picks, weighted-interval}
use xtp_rs.Upstreams.Choices.{AllExcluded, pick_excluding_many_from_group-allowed}
use xtp_rs.Upstreams.Sticky.{KeepsCurrent, pick_weighted-sticky}

abbrev times : ℕ → ℕ → ℕ
times raw gain = min (max (raw * gain) 1) 10000000

-- A fading that forgets everything at once.
abbrev forgotten : ℕ → ℕ → ℕ → ℕ
forgotten score left whole = 0

abbrev updates : List Update
updates = uplink_report (some 900) 100 ∷ throughput 500 ∷ weight_set 250 ∷ []

abbrev tested : Upstream ℕ
tested = apply_all updates (new_upstream (text "a") [] 1)

score_at-Bounded_example :
    (score_at times forgotten tested 110 ≤ 1000)
    × (minimal_score ≤ quic_score_effective_at times forgotten tested 110)
    × (quic_score_effective_at times forgotten tested 110 ≤ 1000)
    × (tested.quic_weight ≤ 100)
    × (tested.tcp_score * (100 - tested.quic_weight)
          + quic_score_effective_at times forgotten tested 110 * tested.quic_weight
        ≤ 100000)
score_at-Bounded_example =
    score_at-Bounded times forgotten (λ score left whole h. omega arith) updates (text "a") [] 1 110
      (tt, (omega arith, (tt, tt)))

abbrev link : String → ℕ → Upstream ℕ
link name score = record (new_upstream (text name) (text "default" ∷ []) 1) {
  tcp_score = score;
  tcp_score_initialized = true;
}

abbrev by_tcp : Upstream ℕ → ℕ
by_tcp u = u.tcp_score

abbrev links : List (Upstream ℕ)
links = link "a" 3 ∷ link "b" 4 ∷ []

abbrev links_set : UpstreamSet ℕ
links_set = record {
  groups = (text "default", links) ∷ [];
  all_items = links;
  current = (text "default", some (text "a")) ∷ [];
  tolerance = 1;
  pick_stats = none;
}

abbrev zeros : Draws
zeros = record { explores = false; index_below = λ n. 0; weight_below = λ n. 0 }

zeros-InRange : InRange zeros
zeros-InRange = record { index_lt = λ n h. h; weight_lt = λ n h. h }

weighted-interval_example :
    (i : ℕ) × (u : Upstream ℕ) × (get_elem? links i ≡ some u)
    × (weighted by_tcp links 10 ≡ some u)
    × (total_weight by_tcp (take i links) ≤ 10)
    × (10 < total_weight by_tcp (take i links) + by_tcp u * by_tcp u)
unfolding total_weight
weighted-interval_example = weighted-interval by_tcp links 10 (omega arith)

found_default : map_get links_set.groups (text "default") ≡ some links
unfolding map_get
found_default = refl

pick_excluding_many_from_group-allowed_example :
    (AllExcluded by_tcp links (text "a" ∷ [])
      × (pick_excluding_many_from_group by_tcp links_set (text "default") (text "a" ∷ []) 5 zeros
          ≡ no_upstream))
    ⊎ Picks
        (λ u. In u links × (contains (text "a" ∷ []) u.id ≡ false))
        (pick_excluding_many_from_group by_tcp links_set (text "default") (text "a" ∷ []) 5 zeros)
pick_excluding_many_from_group-allowed_example =
    pick_excluding_many_from_group-allowed by_tcp links_set links (text "default") (text "a" ∷ []) 5
      zeros found_default zeros-InRange (λ id h. cc)

current_default : map_get links_set.current (text "default") ≡ some (some (text "a"))
unfolding map_get
current_default = refl

near : (w : Upstream ℕ) → In w links → by_tcp w ≤ 3 + 1
near w (inl e) = omega (arith, ap (λ u. by_tcp u) e)
near w (inr (inl e)) = omega (arith, ap (λ u. by_tcp u) e)
near w (inr (inr m)) = absurd m

only_a : (w : Upstream ℕ) → In w links → w.id ≡ text "a" → w ≡ link "a" 3
only_a w (inl e) same = e
only_a w (inr (inl e)) same = absurd (not_a (sym (ap (λ u. u.id) e) ∙ same))
  where
    not_a : text "b" ≢ text "a"
    not_a q = false≢true ((eq_iff (text "b") (text "a")).1 q)
only_a w (inr (inr m)) same = absurd m

pick_weighted-sticky_example :
    KeepsCurrent links_set
      (link "a" 3)
      (pick_weighted by_tcp links_set links (text "default") 5 zeros)
pick_weighted-sticky_example =
    pick_weighted-sticky by_tcp links_set (link "a" 3) (link "b" 4) [] (text "default") 5 zeros
      (link "a" 3) (omega arith) refl current_default (inl refl) only_a near (λ id h. cc)
