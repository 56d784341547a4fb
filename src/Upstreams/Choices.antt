-- ===== src/Upstreams/Choices.antt =====
-- src/upstream.rs: a pick always gives an allowed upstream.
use xtp_rs.Prelude.{
  Bool-cases, Each, In, List, Option, Text, [], and-split, arith, contains, eq, false, false≢true,
  get_elem?, get_elem?-lt, if_elim, if◌then◌else◌, inl, inr, is_empty, length, list_eq, ltb,
  map_get, nat_eq, none, not, option_eq, pair_eq, refl, set, some, subst, sym, true, ℕ, ◌&&◌, ◌+◌,
  ◌<◌, ◌==◌, ◌∙◌, ◌∷◌, ◌≡◌, ◌≢◌, ◌⊎◌,
}
use xtp_rs.Upstreams.{Upstream}
use xtp_rs.Upstreams.Pick.{
  Draws, Pick, UpstreamSet, best_of, choose_at, draw, find_id, keep_or_draw, make_current,
  no_upstream, not_excluded, pick_by_score, pick_excluding_many_from_group, pick_panic,
  pick_weighted, picked, record_pick_stats, sticky_of, total_weight, uninitialized,
}
use xtp_rs.Upstreams.Picked.{
  Counts, In-get_elem?, InRange, Picks, choose_at-Picks, find_id-In, nonempty, nonzero,
  record_pick_stats-Picks, uninitialized-In, weighted-interval,
}

module _ {F : Type 0} where
  module _ (eff : Upstream F → ℕ) where
    pub best_of-some : (u : Upstream F) (us : List (Upstream F)) → best_of eff (u ∷ us) ≢ none
    unfolding best_of
    best_of-some u us q = cc

    draw-found :
        (us : List (Upstream F)) (d : Draws)
        → 0 < length us
        → InRange d
        → (u : Upstream F) × (draw eff us d ≡ some u) × In u us
    draw-found us d h range = elim (Bool-cases (total_weight eff us == 0)) [
      | inl t ↦
          let found = get_elem?-lt us (d.index_below (length us)) (range.index_lt (length us) h) in
          (found.0, rw t found.1, In-get_elem? us (d.index_below (length us)) found.0 found.1)
      | inr f ↦
          let w =
            weighted-interval eff us (d.weight_below (total_weight eff us))
              (range.weight_lt (total_weight eff us) (nonzero (total_weight eff us) f)) in
          (w.1, rw (f, w.3) refl, In-get_elem? us w.0 w.1 w.2)
    ]

    drawn-Picks :
        (set : UpstreamSet F) (items : List (Upstream F)) (group : Text) (now : ℕ) (d : Draws)
        → 0 < length items
        → InRange d
        → Counts set now
        → Picks (λ u. In u items) (choose_at set group now (draw eff items d))
    drawn-Picks set items group now d h range counts =
        let found = draw-found items d h range in
        rw found.1 (
          record_pick_stats-Picks (λ u. In u items) (make_current set group found.0) now found.0
            counts found.2)

    keep_or_draw-Picks :
        (set : UpstreamSet F) (items : List (Upstream F)) (group : Text) (now : ℕ) (d : Draws)
        (best : Upstream F) (o : Option (Upstream F))
        → 0 < length items
        → InRange d
        → Counts set now
        → Each (λ u. In u items) o
        → Picks (λ u. In u items) (keep_or_draw eff set items group now d best o)
    keep_or_draw-Picks set items group now d best none h range counts m =
        drawn-Picks set items group now d h range counts
    keep_or_draw-Picks set items group now d best (some cur) h range counts m =
        if_elim (Picks (λ u. In u items))
          (not (eq best.id cur.id) && ltb (eff cur + set.tolerance) (eff best))
          (choose_at set group now (draw eff items d)) (record_pick_stats set now cur)
          (λ t. drawn-Picks set items group now d h range counts)
          (λ f. record_pick_stats-Picks (λ u. In u items) set now cur counts m)

    sticky_of-In :
        (items : List (Upstream F)) (o : Option (Option Text))
        → Each (λ u. In u items) (sticky_of items o)
    sticky_of-In items none = tt
    sticky_of-In items (some none) = tt
    sticky_of-In items (some (some id)) =
        by_found (find_id items id) (λ u q. find_id-In items id u q)
      where
        by_found :
            (o : Option (Upstream F))
            → ((u : Upstream F) → o ≡ some u → In u items)
            → Each (λ u. In u items) o
        by_found none h = tt
        by_found (some u) h = h u refl

    pick_by_score-Picks :
        (set : UpstreamSet F) (items : List (Upstream F)) (group : Text) (now : ℕ) (d : Draws)
        (o : Option (Upstream F))
        → o ≢ none
        → 0 < length items
        → InRange d
        → Counts set now
        → Picks (λ u. In u items) (pick_by_score eff set items group now d o)
    pick_by_score-Picks set items group now d none some_best h range counts =
        absurd (some_best refl)
    pick_by_score-Picks set items group now d (some best) some_best h range counts =
        keep_or_draw-Picks set items group now d best
          (if ltb 0 set.tolerance then sticky_of items (map_get set.current group) else none) h
          range counts
          (if_elim (Each (λ u. In u items)) (ltb 0 set.tolerance)
            (sticky_of items (map_get set.current group)) none
            (λ t. sticky_of-In items (map_get set.current group)) (λ f. tt))

    -- From one or more candidates some candidate is picked.
    pub pick_weighted-Picks :
        (set : UpstreamSet F) (items : List (Upstream F)) (group : Text) (now : ℕ) (d : Draws)
        → 0 < length items
        → InRange d
        → Counts set now
        → Picks (λ u. In u items) (pick_weighted eff set items group now d)
    unfolding pick_weighted
    pick_weighted-Picks set [] group now d h range counts = absurd (omega (arith, h))
    pick_weighted-Picks set (u ∷ []) group now d h range counts =
        record_pick_stats-Picks (λ w. In w (u ∷ [])) (make_current set group u) now u counts
          (inl refl)
    pick_weighted-Picks set (u ∷ v ∷ us) group now d h range counts =
        let items = u ∷ v ∷ us in
        let uninit = uninitialized items in
        if_elim (Picks (λ w. In w items)) (not (is_empty uninit) && d.explores)
          (choose_at set group now (get_elem? uninit (d.index_below (length uninit))))
          (pick_by_score eff set items group now d (best_of eff items))
          (λ t.
            choose_at-Picks (λ w. In w items) set group now (d.index_below (length uninit)) uninit
              counts (λ w m. uninitialized-In items w m)
              (range.index_lt (length uninit)
                (nonempty uninit (and-split (not (is_empty uninit)) d.explores t).0)))
          (λ f.
            pick_by_score-Picks set items group now d (best_of eff items) (best_of-some u (v ∷ us))
              h range counts)

    not_excluded-In :
        (us : List (Upstream F)) (exclude : List Text) (u : Upstream F)
        → In u (not_excluded eff us exclude)
        → In u us × (contains exclude u.id ≡ false)
    unfolding not_excluded
    not_excluded-In [] exclude u h = absurd h
    not_excluded-In (v ∷ us) exclude u h =
        if_elim (λ l. In u l → In u (v ∷ us) × (contains exclude u.id ≡ false))
          (contains exclude v.id) (not_excluded eff us exclude) (v ∷ not_excluded eff us exclude)
          (λ t m. let r = not_excluded-In us exclude u m in (inr r.0, r.1))
          (λ f m. elim m [
            | inl e ↦ (inl e, subst (λ w. contains exclude w.id ≡ false) (sym e) f)
            | inr rest ↦ let r = not_excluded-In us exclude u rest in (inr r.0, r.1)
          ])
          h

    -- The converse: what is not excluded is left.
    not_excluded-left :
        (us : List (Upstream F)) (exclude : List Text) (u : Upstream F)
        → In u us
        → contains exclude u.id ≡ false
        → In u (not_excluded eff us exclude)
    unfolding not_excluded
    not_excluded-left [] exclude u m free = absurd m
    not_excluded-left (v ∷ us) exclude u m free =
        if_elim (λ l. In u l) (contains exclude v.id) (not_excluded eff us exclude)
          (v ∷ not_excluded eff us exclude)
          (λ t. elim m [
            | inl e ↦
                absurd (false≢true (sym free ∙ subst (λ w. contains exclude w.id ≡ true) (sym e) t))
            | inr rest ↦ not_excluded-left us exclude u rest free
          ])
          (λ f. elim m [
            | inl e ↦ inl e
            | inr rest ↦ inr (not_excluded-left us exclude u rest free)
          ])

    -- Every one of the upstreams is excluded.
    abbrev pub AllExcluded : List (Upstream F) → List Text → Type 0
    AllExcluded items exclude = (u : Upstream F) → In u items → contains exclude u.id ≡ true

    Picks-map :
        (P Q : Upstream F → Type 0) (r : Pick F)
        → ((u : Upstream F) → P u → Q u)
        → Picks P r
        → Picks Q r
    Picks-map P Q (picked u after) f p = f u p
    Picks-map P Q no_upstream f p = p
    Picks-map P Q pick_panic f p = p

    -- With random numbers below their bounds and statistics that count without a panic: if every
    -- upstream of the group is excluded, none is picked; otherwise one is, it is in the group, and it
    -- is not excluded. No index is ever out of bounds.
    pub pick_excluding_many_from_group-allowed :
        (set : UpstreamSet F) (items : List (Upstream F)) (group : Text) (exclude : List Text)
        (now : ℕ) (d : Draws)
        → map_get set.groups group ≡ some items
        → InRange d
        → Counts set now
        → (AllExcluded items exclude
            × (pick_excluding_many_from_group eff set group exclude now d ≡ no_upstream))
          ⊎ Picks
              (λ u. In u items × (contains exclude u.id ≡ false))
              (pick_excluding_many_from_group eff set group exclude now d)
    unfolding pick_excluding_many_from_group
    pick_excluding_many_from_group-allowed set items group exclude now d at range counts = rw at (
        by_candidates (not_excluded eff items exclude) (λ u m. not_excluded-In items exclude u m)
          (λ u m free. not_excluded-left items exclude u m free))
      where
        by_candidates :
            (us : List (Upstream F))
            → ((u : Upstream F) → In u us → In u items × (contains exclude u.id ≡ false))
            → ((u : Upstream F) → In u items → contains exclude u.id ≡ false → In u us)
            → (AllExcluded items exclude
                × ((if is_empty us then no_upstream else pick_weighted eff set us group now d)
                    ≡ no_upstream))
              ⊎ Picks
                  (λ u. In u items × (contains exclude u.id ≡ false))
                  (if is_empty us then no_upstream else pick_weighted eff set us group now d)
        by_candidates [] allowed complete = inl (
          (λ u m. elim (Bool-cases (contains exclude u.id)) [
            | inl t ↦ t
            | inr free ↦ absurd (complete u m free)
          ]),
          refl,
        )
        by_candidates (u ∷ us) allowed complete = inr (
            Picks-map (λ w. In w (u ∷ us)) (λ w. In w items × (contains exclude w.id ≡ false))
              (pick_weighted eff set (u ∷ us) group now d) allowed
              (pick_weighted-Picks set (u ∷ us) group now d (omega arith) range counts))
