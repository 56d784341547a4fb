-- ===== src/DomainSet/Compile.antt =====
-- `DomainSet::compile` of src/state.rs together with the look-up: which configured patterns a
-- domain meets.
use xtp_rs.Prelude.{
  ==_iff, Bool-cases, List, Text, [], ap, arith, contains, eq, eq_iff, false, inl, inr, is_empty,
  list_eq, nat_eq, option_eq, or-split, or_intro_right, refl, sym, true, ℕ, ◌==◌, ◌↔◌, ◌∷◌, ◌≡◌,
  ◌≢◌, ◌⊎◌,
}
use xtp_rs.Domain.{canonical_domain, dot}
use xtp_rs.Domain.Canonical.{starts_dot}
use xtp_rs.Domain.Suffix.{Under}
use xtp_rs.DomainSet.{
  DomainSet, add_exact, add_pattern, add_suffix, compile, compile_from, empty, matches_canonical,
}
use xtp_rs.DomainSet.Walk.{Covered, matches_canonical_iff}

-- The documented meaning of one configured pattern: `example.com` names that domain, and
-- `.example.com` that domain and those below it. A pattern of dots alone names nothing.
pub data PatternMatches (d raw : Text) : Type 0 where
  exactly :
      starts_dot raw ≡ false
      → canonical_domain raw ≢ []
      → d ≡ canonical_domain raw
      → PatternMatches d raw
  below :
      (rest : Text)
      → raw ≡ dot ∷ rest
      → canonical_domain rest ≢ []
      → Under d (canonical_domain rest)
      → PatternMatches d raw

abbrev InSet : DomainSet → Text → Type 0
InSet s d = (contains s.exact d ≡ true) ⊎ Covered s.suffixes d

is_empty-false {ℓ} : {A : Type ℓ} (xs : List A) → is_empty xs ≡ false → xs ≢ []
is_empty-false xs h e = ground arith

is_empty-true {ℓ} : {A : Type ℓ} (xs : List A) → is_empty xs ≡ true → xs ≡ []
is_empty-true [] h = refl
is_empty-true (x ∷ xs) h = cc

contains_cons :
    (x y : Text) (xs : List Text) → contains (x ∷ xs) y ≡ true → (x ≡ y) ⊎ (contains xs y ≡ true)
contains_cons x y xs h = elim (or-split (eq x y) (contains xs y) h) [
  | inl e ↦ inl ((eq_iff x y).0 e)
  | inr m ↦ inr m
]

Covered-cons : (t d : Text) (ss : List Text) → Covered (t ∷ ss) d → Under d t ⊎ Covered ss d
Covered-cons t d ss (s, m, u) = elim (contains_cons t s ss m) [
  | inl e ↦ inl (rw e u)
  | inr n ↦ inr (s, n, u)
]

Covered-there : (t d : Text) (ss : List Text) → Covered ss d → Covered (t ∷ ss) d
Covered-there t d ss (s, m, u) = (s, or_intro_right (eq t s) (contains ss s) m, u)

Covered-here : (t d : Text) (ss : List Text) → Under d t → Covered (t ∷ ss) d
Covered-here t d ss u = (t, ground (arith, (eq_iff t t).1 refl), u)

cons-ne-nil : (x : ℕ) (xs : Text) → (x ∷ xs) ≢ []
cons-ne-nil x xs e = cc

add_exact_sound :
    (norm : Text) (s : DomainSet) (d : Text)
    → InSet (add_exact norm s) d
    → InSet s d ⊎ ((norm ≢ []) × (d ≡ norm))
add_exact_sound [] s d h = inl h
add_exact_sound (x ∷ xs) s d (inr c) = inl (inr c)
add_exact_sound (x ∷ xs) s d (inl m) = elim (contains_cons (x ∷ xs) d s.exact m) [
  | inl e ↦ inr (cons-ne-nil x xs, sym e)
  | inr n ↦ inl (inl n)
]

add_suffix_sound :
    (norm : Text) (s : DomainSet) (d : Text)
    → InSet (add_suffix norm s) d
    → InSet s d ⊎ ((norm ≢ []) × Under d norm)
add_suffix_sound [] s d h = inl h
add_suffix_sound (x ∷ xs) s d (inl m) = inl (inl m)
add_suffix_sound (x ∷ xs) s d (inr c) = elim (Covered-cons (x ∷ xs) d s.suffixes c) [
  | inl u ↦ inr (cons-ne-nil x xs, u)
  | inr n ↦ inl (inr n)
]

add_exact-keeps : (norm : Text) (s : DomainSet) (d : Text) → InSet s d → InSet (add_exact norm s) d
add_exact-keeps [] s d h = h
add_exact-keeps (x ∷ xs) s d (inl m) = inl (or_intro_right (eq (x ∷ xs) d) (contains s.exact d) m)
add_exact-keeps (x ∷ xs) s d (inr c) = inr c

add_exact-adds :
    (norm : Text) (s : DomainSet) (d : Text) → norm ≢ [] → d ≡ norm → InSet (add_exact norm s) d
add_exact-adds [] s d ne e = absurd (ne refl)
add_exact-adds (x ∷ xs) s d ne e = inl (ground (arith, (eq_iff (x ∷ xs) d).1 (sym e)))

add_suffix-keeps :
    (norm : Text) (s : DomainSet) (d : Text) → InSet s d → InSet (add_suffix norm s) d
add_suffix-keeps [] s d h = h
add_suffix-keeps (x ∷ xs) s d (inl m) = inl m
add_suffix-keeps (x ∷ xs) s d (inr c) = inr (Covered-there (x ∷ xs) d s.suffixes c)

add_suffix-adds :
    (norm : Text) (s : DomainSet) (d : Text)
    → norm ≢ []
    → Under d norm
    → InSet (add_suffix norm s) d
add_suffix-adds [] s d ne u = absurd (ne refl)
add_suffix-adds (x ∷ xs) s d ne u = inr (Covered-here (x ∷ xs) d s.suffixes u)

canonical_domain-nil : canonical_domain [] ≡ []
unfolding canonical_domain
canonical_domain-nil = refl

add_pattern_sound :
    (s : DomainSet) (raw d : Text) → InSet (add_pattern s raw) d → InSet s d ⊎ PatternMatches d raw
unfolding add_pattern
add_pattern_sound s [] d h = inl (rw canonical_domain-nil at h)
add_pattern_sound s (c ∷ cs) d h = elim (Bool-cases (c == dot)) [
  | inl e ↦ elim (add_suffix_sound (canonical_domain cs) s d (rw e at h)) [
    | inl old ↦ inl old
    | inr (ne, u) ↦ inr (below cs (ap (λ x. x ∷ cs) ((==_iff c dot).0 e)) ne u)
  ]
  | inr e ↦ elim (add_exact_sound (canonical_domain (c ∷ cs)) s d (rw e at h)) [
    | inl old ↦ inl old
    | inr (ne, u) ↦ inr (exactly e ne u)
  ]
]

add_pattern-keeps : (s : DomainSet) (raw d : Text) → InSet s d → InSet (add_pattern s raw) d
unfolding add_pattern
add_pattern-keeps s [] d h = add_exact-keeps (canonical_domain []) s d h
add_pattern-keeps s (c ∷ cs) d h = elim (Bool-cases (c == dot)) [
  | inl e ↦ rw e (add_suffix-keeps (canonical_domain cs) s d h)
  | inr e ↦ rw e (add_exact-keeps (canonical_domain (c ∷ cs)) s d h)
]

add_pattern-adds :
    (s : DomainSet) (raw d : Text) → PatternMatches d raw → InSet (add_pattern s raw) d
unfolding add_pattern
add_pattern-adds s [] d (exactly e ne u) = absurd (ne canonical_domain-nil)
add_pattern-adds s (c ∷ cs) d (exactly e ne u) =
    rw e (add_exact-adds (canonical_domain (c ∷ cs)) s d ne u)
add_pattern-adds s raw d (below rest e ne u) =
    rw e (add_suffix-adds (canonical_domain rest) s d ne u)

compile_from_sound :
    (s : DomainSet) (raws : List Text) (d : Text)
    → InSet (compile_from s raws) d
    → InSet s d ⊎ ((raw : Text) × (contains raws raw ≡ true) × PatternMatches d raw)
unfolding compile_from
compile_from_sound s [] d h = inl h
compile_from_sound s (raw ∷ raws) d h = elim (compile_from_sound (add_pattern s raw) raws d h) [
  | inl old ↦ elim (add_pattern_sound s raw d old) [
    | inl older ↦ inl older
    | inr m ↦ inr (raw, ground (arith, (eq_iff raw raw).1 refl), m)
  ]
  | inr (r, m, p) ↦ inr (r, or_intro_right (eq raw r) (contains raws r) m, p)
]

compile_from-keeps :
    (s : DomainSet) (raws : List Text) (d : Text) → InSet s d → InSet (compile_from s raws) d
unfolding compile_from
compile_from-keeps s [] d h = h
compile_from-keeps s (raw ∷ raws) d h =
    compile_from-keeps (add_pattern s raw) raws d (add_pattern-keeps s raw d h)

compile_from-adds :
    (s : DomainSet) (raws : List Text) (d raw : Text)
    → contains raws raw ≡ true
    → PatternMatches d raw
    → InSet (compile_from s raws) d
unfolding compile_from
compile_from-adds s [] d raw m p = cc
compile_from-adds s (r ∷ raws) d raw m p = elim (contains_cons r raw raws m) [
  | inl e ↦ compile_from-keeps (add_pattern s r) raws d (add_pattern-adds s r d (rw e p))
  | inr n ↦ compile_from-adds (add_pattern s r) raws d raw n p
]

-- A domain is in the set compiled from the configuration exactly when some configured pattern
-- matches it.
pub compile-matches_iff :
    (raws : List Text) (d : Text)
    → (matches_canonical (compile raws) d ≡ true)
      ↔ ((raw : Text) × (contains raws raw ≡ true) × PatternMatches d raw)
unfolding compile
compile-matches_iff raws d = (sound, complete)
  where
    sound :
        matches_canonical (compile_from empty raws) d ≡ true
        → (raw : Text) × (contains raws raw ≡ true) × PatternMatches d raw
    sound h = elim (compile_from_sound empty raws d ((matches_canonical_iff _ d).0 h)) [
      | inl (inl m) ↦ absurd (ground arith)
      | inl (inr c) ↦ absurd (ground (arith, c.1))
      | inr found ↦ found
    ]

    complete :
        (raw : Text) × (contains raws raw ≡ true) × PatternMatches d raw
        → matches_canonical (compile_from empty raws) d ≡ true
    complete c = (matches_canonical_iff _ d).1 (compile_from-adds empty raws d c.0 c.1 c.2)
