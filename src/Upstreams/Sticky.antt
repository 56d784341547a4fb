-- ===== src/Upstreams/Sticky.antt =====
-- src/upstream.rs: a pick stays with the current upstream of the group while no other is better by
-- more than the tolerance.
use xtp_rs.Prelude.{
  Bool-cases, In, List, Option, Text, [], and-split, ap, eq, eq_iff, false, false≢true, get_elem?,
  if_elim, inl, inr, is_empty, length, le→ltb-false, list_eq, lt→ltb, map_get, nat_eq, none, not,
  option_eq, pair_eq, refl, set, some, sym, ℕ, ◌&&◌, ◌+◌, ◌<◌, ◌∙◌, ◌∷◌, ◌≡◌, ◌≢◌, ◌≤◌,
}
use xtp_rs.PickStats.{PickStats}
use xtp_rs.Upstreams.{Upstream}
use xtp_rs.Upstreams.Pick.{
  Draws, Pick, UpstreamSet, best_of, choose_at, counted, draw, find_id, no_upstream, pick_by_score,
  pick_panic, pick_weighted, picked, record_in_stats, record_pick_stats, sticky_of, uninitialized,
}
use xtp_rs.Upstreams.Picked.{Counts, best_of-In}
use xtp_rs.Upstreams.Choices.{best_of-some}

module _ {F : Type 0} where
  -- The item with the id, where no other item has the id.
  find_id_unique :
      (items : List (Upstream F)) (cur : Upstream F)
      → In cur items
      → ((w : Upstream F) → In w items → w.id ≡ cur.id → w ≡ cur)
      → find_id items cur.id ≡ some cur
  unfolding find_id
  find_id_unique [] cur m unique = absurd m
  find_id_unique (v ∷ us) cur m unique = elim (Bool-cases (eq v.id cur.id)) [
    | inl t ↦ rw t (ap some (unique v (inl refl) ((eq_iff v.id cur.id).0 t)))
    | inr f ↦ elim m [
      | inl e ↦ absurd (false≢true (sym f ∙ (eq_iff v.id cur.id).1 (ap (λ u. u.id) (sym e))))
      | inr rest ↦ rw f (find_id_unique us cur rest (λ w n same. unique w (inr n) same))
    ]
  ]

  -- `cur` is picked, and the current upstream of every group is what it was.
  abbrev pub KeepsCurrent : UpstreamSet F → Upstream F → Pick F → Type 0
  KeepsCurrent set cur (picked u after) = (u ≡ cur) × (after.current ≡ set.current)
  KeepsCurrent set cur no_upstream = ⊥
  KeepsCurrent set cur pick_panic = ⊥

  record_pick_stats-KeepsCurrent :
      (set : UpstreamSet F) (now : ℕ) (cur : Upstream F)
      → Counts set now
      → KeepsCurrent set cur (record_pick_stats set now cur)
  record_pick_stats-KeepsCurrent set now cur counts =
      by_stats (record_in_stats set.pick_stats now cur.id) (counts cur.id)
    where
      by_stats :
          (o : Option (Option PickStats)) → o ≢ none → KeepsCurrent set cur (counted set cur o)
      by_stats none h = h refl
      by_stats (some stats) h = (refl, refl)

  module _ (eff : Upstream F → ℕ) where
    kept :
        (set : UpstreamSet F) (items : List (Upstream F)) (group : Text) (now : ℕ) (d : Draws)
        (cur : Upstream F) (o : Option (Upstream F))
        → o ≢ none
        → 0 < set.tolerance
        → sticky_of items (map_get set.current group) ≡ some cur
        → ((b : Upstream F) → o ≡ some b → eff b ≤ eff cur + set.tolerance)
        → Counts set now
        → KeepsCurrent set cur (pick_by_score eff set items group now d o)
    kept set items group now d cur none some_best tol at near counts = absurd (some_best refl)
    kept set items group now d cur (some best) some_best tol at near counts =
        rw
          (
            lt→ltb 0 set.tolerance tol,
            at,
            le→ltb-false (eff cur + set.tolerance) (eff best) (near best refl),
          )
          (if_elim (KeepsCurrent set cur) (not (eq best.id cur.id) && false)
            (choose_at set group now (draw eff items d)) (record_pick_stats set now cur)
            (λ t. absurd (false≢true ((and-split (not (eq best.id cur.id)) false t).1)))
            (λ f. record_pick_stats-KeepsCurrent set now cur counts))

    -- With a tolerance, two or more candidates, no exploring, and the id of exactly one of them stored
    -- as the current one of the group: while no candidate's score is above its score by more than the
    -- tolerance, and where counting does not panic, it is picked again without a panic whatever the
    -- random numbers are, and the current upstream of every group stays what it was.
    pub pick_weighted-sticky :
        (set : UpstreamSet F) (u v : Upstream F) (us : List (Upstream F)) (group : Text) (now : ℕ)
        (d : Draws) (cur : Upstream F)
        → 0 < set.tolerance
        → d.explores ≡ false
        → map_get set.current group ≡ some (some cur.id)
        → In cur (u ∷ v ∷ us)
        → ((w : Upstream F) → In w (u ∷ v ∷ us) → w.id ≡ cur.id → w ≡ cur)
        → ((w : Upstream F) → In w (u ∷ v ∷ us) → eff w ≤ eff cur + set.tolerance)
        → Counts set now
        → KeepsCurrent set cur (pick_weighted eff set (u ∷ v ∷ us) group now d)
    unfolding pick_weighted
    pick_weighted-sticky set u v us group now d cur tol calm stored m unique near counts =
        let items = u ∷ v ∷ us in
        let uninit = uninitialized items in
        let at : sticky_of items (map_get set.current group) ≡ some cur =
          rw stored (find_id_unique items cur m unique) in
        if_elim (KeepsCurrent set cur) (not (is_empty uninit) && d.explores)
          (choose_at set group now (get_elem? uninit (d.index_below (length uninit))))
          (pick_by_score eff set items group now d (best_of eff items))
          (λ t. absurd (false≢true (sym calm ∙ (and-split (not (is_empty uninit)) d.explores t).1)))
          (λ f.
            kept set items group now d cur (best_of eff items) (best_of-some eff u (v ∷ us)) tol at
              (λ b q. near b (best_of-In eff items b q)) counts)
