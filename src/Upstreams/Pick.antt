-- ===== src/Upstreams/Pick.antt =====
-- `UpstreamSet` of src/upstream.rs: the groups and the weighted pick. The scores of one pick are read
-- at one instant (`eff`). The random numbers of one pick are its argument. A score is at most
-- 10000000, so that the sum of the squares of any set of fewer than 184467 upstreams is below 2 ^ 64.
use mathlib.Core.List.{map}
use xtp_rs.Prelude.{
  Bool, List, Option, Text, [], contains, eq, get_elem?, if◌then◌else◌, is_empty, leb, length,
  list_eq, ltb, map_get, map_insert, nat_eq, none, not, option_eq, pair_eq, set, some, text, ℕ,
  ◌&&◌, ◌*◌, ◌++◌, ◌+◌, ◌-◌, ◌==◌, ◌∷◌,
}
use xtp_rs.PickStats
use xtp_rs.Upstreams.{Upstream, set_quic_stale_secs, set_quic_weight}
use xtp_rs.PickStats.{PickStats, new, record_by_id}

-- What `fastrand` answers: whether to explore, and numbers below a bound.
pub record Draws : Type 0 where
  pub explores : Bool
  pub index_below : ℕ → ℕ
  pub weight_below : ℕ → ℕ

module _ {F : Type 0} where
  -- `entry(group).or_default().push(up)` for each group of each upstream.
  abbrev pub or_nothing : Option (List (Upstream F)) → List (Upstream F)
  or_nothing none = []
  or_nothing (some us) = us

  unfoldable pub add_to_groups :
      Upstream F → List Text → List (Text × List (Upstream F)) → List (Text × List (Upstream F))
  add_to_groups u [] m = m
  add_to_groups u (g ∷ gs) m =
      add_to_groups u gs (map_insert m g (or_nothing (map_get m g) ++ u ∷ []))

  unfoldable pub group_all :
      List (Upstream F) → List (Text × List (Upstream F)) → List (Text × List (Upstream F))
  group_all [] m = m
  group_all (u ∷ us) m = group_all us (add_to_groups u u.groups m)

pub record UpstreamSet (F : Type 0) : Type 0 where
  pub groups : List (Text × List (Upstream F))
  pub all_items : List (Upstream F)
  pub current : List (Text × Option Text)
  pub tolerance : ℕ
  pub pick_stats : Option PickStats

-- A pick with the set after it; `pick_panic` is an index out of bounds.
pub data Pick (F : Type 0) : Type 0 where
  picked : Upstream F → UpstreamSet F → Pick F
  no_upstream pick_panic : Pick F

abbrev pub stats_after : Option (Bool × PickStats) → Option (Option PickStats)
stats_after none = none
stats_after (some r) = some (some r.1)

-- The statistics after `record_pick_stats`, if there are any; the outer `none` is a panic. The log
-- line of `maybe_log` is output only.
abbrev pub record_in_stats : Option PickStats → ℕ → Text → Option (Option PickStats)
record_in_stats none now id = some none
record_in_stats (some stats) now id = stats_after (record_by_id stats now id)

module _ {F : Type 0} where
  -- `none` where `UpstreamSet::new` fails, on an empty list.
  abbrev pub new_set : List (Upstream F) → ℕ → ℕ → ℕ → ℕ → Option (UpstreamSet F)
  new_set [] tolerance quic_weight quic_stale_secs window = none
  new_set (u ∷ us) tolerance quic_weight quic_stale_secs window =
      let items : List (Upstream F) =
        map (λ v. set_quic_stale_secs quic_stale_secs (set_quic_weight quic_weight v)) (u ∷ us) in
      some (record {
        groups = group_all items [];
        all_items = items;
        current = [];
        tolerance = tolerance;
        pick_stats =
            if ltb 0 window then some (PickStats.new window (map (λ v. v.id) items)) else none;
      })

  abbrev pub counted : UpstreamSet F → Upstream F → Option (Option PickStats) → Pick F
  counted set u none = pick_panic
  counted set u (some stats) = picked u (record set { pick_stats = stats })

  -- `record_pick_stats` and the answer, at the instant `now`.
  abbrev pub record_pick_stats : UpstreamSet F → ℕ → Upstream F → Pick F
  record_pick_stats set now u = counted set u (record_in_stats set.pick_stats now u.id)

  abbrev pub make_current : UpstreamSet F → Text → Upstream F → UpstreamSet F
  make_current set group u = record set { current = map_insert set.current group (some u.id) }

  abbrev pub choose : UpstreamSet F → Text → ℕ → Upstream F → Pick F
  choose set group now u = record_pick_stats (make_current set group u) now u

  abbrev pub choose_at : UpstreamSet F → Text → ℕ → Option (Upstream F) → Pick F
  choose_at set group now none = pick_panic
  choose_at set group now (some u) = choose set group now u

  unfoldable pub uninitialized : List (Upstream F) → List (Upstream F)
  uninitialized [] = []
  uninitialized (u ∷ us) =
      let rest = uninitialized us in if u.tcp_score_initialized then rest else u ∷ rest

  unfoldable pub find_id : List (Upstream F) → Text → Option (Upstream F)
  find_id [] id = none
  find_id (u ∷ us) id = if eq u.id id then some u else find_id us id

  abbrev pub sticky_of : List (Upstream F) → Option (Option Text) → Option (Upstream F)
  sticky_of items none = none
  sticky_of items (some none) = none
  sticky_of items (some (some id)) = find_id items id

  module _ (eff : Upstream F → ℕ) where
    -- `max_by_key`: the last of the items with the highest score.
    abbrev pub better : Upstream F → Option (Upstream F) → Upstream F
    better u none = u
    better u (some v) = if leb (eff u) (eff v) then v else u

    unfoldable pub best_of : List (Upstream F) → Option (Upstream F)
    best_of [] = none
    best_of (u ∷ us) = some (better u (best_of us))

    abbrev pub weight : Upstream F → ℕ
    weight u = eff u * eff u

    unfoldable pub total_weight : List (Upstream F) → ℕ
    total_weight [] = 0
    total_weight (u ∷ us) = weight u + total_weight us

    -- The first item whose weight the rest of the random number is below.
    unfoldable pub weighted : List (Upstream F) → ℕ → Option (Upstream F)
    weighted [] r = none
    weighted (u ∷ us) r = if ltb r (weight u) then some u else weighted us (r - weight u)

    abbrev pub or_first : List (Upstream F) → Option (Upstream F) → Option (Upstream F)
    or_first items (some u) = some u
    or_first items none = get_elem? items 0

    abbrev pub draw : List (Upstream F) → Draws → Option (Upstream F)
    draw items d =
        if total_weight items == 0
        then get_elem? items (d.index_below (length items))
        else or_first items (weighted items (d.weight_below (total_weight items)))

    abbrev pub keep_or_draw :
        UpstreamSet F
        → List (Upstream F)
        → Text
        → ℕ
        → Draws
        → Upstream F
        → Option (Upstream F)
        → Pick F
    keep_or_draw set items group now d best none = choose_at set group now (draw items d)
    keep_or_draw set items group now d best (some cur) =
        if not (eq best.id cur.id) && ltb (eff cur + set.tolerance) (eff best)
        then choose_at set group now (draw items d)
        else record_pick_stats set now cur

    abbrev pub pick_by_score :
        UpstreamSet F → List (Upstream F) → Text → ℕ → Draws → Option (Upstream F) → Pick F
    pick_by_score set items group now d none = no_upstream
    pick_by_score set items group now d (some best) =
        keep_or_draw set items group now d best
          (if ltb 0 set.tolerance then sticky_of items (map_get set.current group) else none)

    unfoldable pub pick_weighted : UpstreamSet F → List (Upstream F) → Text → ℕ → Draws → Pick F
    unfolding uninitialized best_of total_weight weighted
    pick_weighted set [] group now d = no_upstream
    pick_weighted set (u ∷ []) group now d = choose set group now u
    pick_weighted set (u ∷ v ∷ us) group now d =
        let uninit = uninitialized (u ∷ v ∷ us) in
        if not (is_empty uninit) && d.explores
        then choose_at set group now (get_elem? uninit (d.index_below (length uninit)))
        else pick_by_score set (u ∷ v ∷ us) group now d (best_of (u ∷ v ∷ us))

    abbrev pub pick_in : UpstreamSet F → Text → ℕ → Draws → Option (List (Upstream F)) → Pick F
    pick_in set group now d none = no_upstream
    pick_in set group now d (some items) = pick_weighted set items group now d

    unfoldable pub pick_from_group : UpstreamSet F → Text → ℕ → Draws → Pick F
    unfolding pick_weighted
    pick_from_group set group now d = pick_in set group now d (map_get set.groups group)

    unfoldable pub pick : UpstreamSet F → ℕ → Draws → Pick F
    unfolding pick_from_group
    pick set now d = pick_from_group set (text "default") now d

    unfoldable pub not_excluded : List (Upstream F) → List Text → List (Upstream F)
    not_excluded [] exclude = []
    not_excluded (u ∷ us) exclude =
        let rest = not_excluded us exclude in if contains exclude u.id then rest else u ∷ rest

    abbrev pub pick_candidates :
        UpstreamSet F → Text → List Text → ℕ → Draws → Option (List (Upstream F)) → Pick F
    pick_candidates set group exclude now d none = no_upstream
    pick_candidates set group exclude now d (some items) =
        let candidates = not_excluded items exclude in
        if is_empty candidates then no_upstream else pick_weighted set candidates group now d

    unfoldable pub pick_excluding_many_from_group :
        UpstreamSet F → Text → List Text → ℕ → Draws → Pick F
    unfolding pick_weighted not_excluded
    pick_excluding_many_from_group set group exclude now d =
        pick_candidates set group exclude now d (map_get set.groups group)
