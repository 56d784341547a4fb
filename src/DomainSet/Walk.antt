-- ===== src/DomainSet/Walk.antt =====
-- The walk over the labels of a domain (`DomainSet::matches_canonical` of src/state.rs).
use mathlib.Core.Option
use xtp_rs.Prelude.{
  Bool-cases, List, Option-cases, Text, [], ap, append_assoc, arith, contains, drop, get_elem?,
  get_elem?-split, inl, inr, length, length-append, length-drop, list_eq, nat_eq, option_eq, refl,
  set, some, suc, sym, take, true, zero, ℕ, ◌++◌, ◌<◌, ◌==◌, ◌↔◌, ◌∙◌, ◌∷◌, ◌≡◌, ◌⊎◌,
}
use xtp_rs.Domain.{dot}
use xtp_rs.Domain.Suffix.{Under}
use xtp_rs.DomainSet.{DomainSet, find, matches_canonical, walk_suffixes}

get_elem?-find : (b : ℕ) (d : Text) (pos : ℕ) → find b d ≡ some pos → get_elem? d pos ≡ some b
unfolding find
get_elem?-find b [] pos h = cc
get_elem?-find b (c ∷ cs) zero h = ground arith
get_elem?-find b (c ∷ cs) (suc pos) h = get_elem?-find b cs pos (ground arith)

find-before :
    (p s : Text)
    → (pos : ℕ) × (find dot (p ++ dot ∷ s) ≡ some pos) × Under (drop (suc pos) (p ++ dot ∷ s)) s
unfolding find
find-before [] s = (0, ground arith, inl refl)
find-before (c ∷ p) s = elim (Bool-cases (c == dot)) [
  | inl e ↦ (0, rw e, inr (p, refl))
  | inr e ↦ let r = find-before p s in (suc r.0, rw e (ap (Option.map suc) r.1), r.2)
]

Under-extend :
    (d s : Text) (pos : ℕ) → find dot d ≡ some pos → Under (drop (suc pos) d) s → Under d s
Under-extend d s pos h (inl e) = inr (
  take pos d,
  get_elem?-split d pos dot (get_elem?-find dot d pos h) ∙ ap (λ l. take pos d ++ dot ∷ l) e,
)
Under-extend d s pos h (inr (p, e)) = inr (
  take pos d ++ dot ∷ p,
  get_elem?-split d pos dot (get_elem?-find dot d pos h)
      ∙ ap (λ l. take pos d ++ dot ∷ l) e
      ∙ sym (append_assoc (take pos d) (dot ∷ p) (dot ∷ s)),
)

-- Some suffix of the set covers the domain.
abbrev pub Covered : List Text → Text → Type 0
Covered suffixes d = (s : Text) × (contains suffixes s ≡ true) × Under d s

walk_suffixes_sound :
    (fuel : ℕ) (ss : List Text) (d : Text) → walk_suffixes fuel ss d ≡ true → Covered ss d
unfolding walk_suffixes
walk_suffixes_sound zero ss d h = cc
walk_suffixes_sound (suc fuel) ss d h = elim (Bool-cases (contains ss d)) [
  | inl e ↦ (d, e, inl refl)
  | inr e ↦ elim (Option-cases (find dot d)) [
    | inl f ↦ absurd (ground arith)
    | inr (pos, f) ↦
        let r = walk_suffixes_sound fuel ss (drop (suc pos) d) (ground arith) in
        (r.0, r.1, Under-extend d r.0 pos f r.2)
  ]
]

walk_suffixes_complete :
    (fuel : ℕ) (ss : List Text) (d : Text)
    → length d < fuel
    → Covered ss d
    → walk_suffixes fuel ss d ≡ true
unfolding walk_suffixes
walk_suffixes_complete zero ss d lt c = absurd (omega arith)
walk_suffixes_complete (suc fuel) ss d lt (s, m, inl e) = rw e (ground arith)
walk_suffixes_complete (suc fuel) ss d lt (s, m, inr (p, e)) =
    let r = find-before p s in
    let next : find dot d ≡ some r.0 = rw e r.1 in
    let shorter : length (drop (suc r.0) d) < fuel =
      omega (arith, length-drop (suc r.0) d, ap length e, length-append p (dot ∷ s)) in
    let rest : walk_suffixes fuel ss (drop (suc r.0) d) ≡ true =
      walk_suffixes_complete fuel ss (drop (suc r.0) d) shorter (s, m, rw e r.2) in
    ground arith

-- A domain is in the compiled set exactly when it is one of the exact names, or one of the
-- suffixes covers it.
pub matches_canonical_iff :
    (set : DomainSet) (d : Text)
    → (matches_canonical set d ≡ true) ↔ (contains set.exact d ≡ true) ⊎ Covered set.suffixes d
unfolding matches_canonical
matches_canonical_iff set d = (sound, complete)
  where
    sound : matches_canonical set d ≡ true → (contains set.exact d ≡ true) ⊎ Covered set.suffixes d
    sound h = elim (Bool-cases (contains set.exact d)) [
      | inl e ↦ inl e
      | inr e ↦ inr (walk_suffixes_sound (suc (length d)) set.suffixes d (ground arith))
    ]

    complete :
        (contains set.exact d ≡ true) ⊎ Covered set.suffixes d → matches_canonical set d ≡ true
    complete (inl e) = rw e
    complete (inr c) =
        ground (arith, walk_suffixes_complete (suc (length d)) set.suffixes d (omega arith) c)
