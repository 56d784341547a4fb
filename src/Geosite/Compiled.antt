-- ===== src/Geosite/Compiled.antt =====
-- The compiled geosite index of src/state.rs against the rule-by-rule match of the same file.
use mathlib.Core.Option
use mathlib.Core.Path.{subst₂}
use xtp_rs.Prelude.{
  ==_iff, Bool, Bool-cases, List, Option, Text, [], any, ap, ap₂, arith, eq, eq_iff, false,
  false≢true, iff_of_Bool, if◌then◌else◌, inl, inr, is_empty, list_eq, nat_eq, none, option_eq,
  or-split, or_intro_right, refl, some, subst, sym, true, ◌&&◌, ◌++◌, ◌==◌, ◌||◌, ◌↔◌, ◌∙◌, ◌∷◌,
  ◌≡◌, ◌≢◌,
}
use xtp_rs.Domain.{canonical_domain, domain_matches_suffix, dot}
use xtp_rs.Domain.Suffix.{Under, domain_matches_suffix_iff}
use xtp_rs.Geosite.{
  CompiledGeositeTag, DomainRule, GeositeDomainType, add_as, add_rule, after_some_dot,
  compile_geosite, compile_rules, compiled_geosite_contains, domain, found_contains, from_i32, full,
  geosite_domain_match, get_tag, match_as, no_rules, plain, regex, some_plain, tag_contains,
  unknown,
}
use xtp_rs.Domain.Canonical.{canonical_domain-IsCanonical, canonical_domain_idem, ends_dot}

or_assoc : (a b c : Bool) → ((a || b) || c) ≡ (a || (b || c))
or_assoc true b c = refl
or_assoc false b c = refl

eq_comm : (a b : Text) → eq a b ≡ eq b a
eq_comm a b =
    iff_of_Bool (eq a b) (eq b a) (λ h. (eq_iff b a).1 (sym ((eq_iff a b).0 h)))
      (λ h. (eq_iff a b).1 (sym ((eq_iff b a).0 h)))

after_some_dot-cons :
    (v : Text) (ss : List Text) (n : Text)
    → after_some_dot (v ∷ ss) n ≡ (after_some_dot (v ∷ []) n || after_some_dot ss n)
unfolding after_some_dot
after_some_dot-cons v ss [] = refl
after_some_dot-cons v ss (c ∷ cs) = ground (arith, after_some_dot-cons v ss cs)

after_some_dot_sound :
    (v n : Text) → after_some_dot (v ∷ []) n ≡ true → (p : Text) × (n ≡ p ++ dot ∷ v)
unfolding after_some_dot
after_some_dot_sound v [] h = absurd (false≢true h)
after_some_dot_sound v (c ∷ cs) h = elim (Bool-cases (c == dot && (eq v cs || false))) [
  | inl e ↦ (
    [],
    ap₂ (λ x l. x ∷ l) ((==_iff c dot).0 (ground arith)) (sym ((eq_iff v cs).0 (ground arith))),
  )
  | inr e ↦ let (p, q) = after_some_dot_sound v cs (ground arith) in (c ∷ p, ap (λ l. c ∷ l) q)
]

after_some_dot_complete : (v p : Text) → after_some_dot (v ∷ []) (p ++ dot ∷ v) ≡ true
unfolding after_some_dot
after_some_dot_complete v [] = ground (arith, (eq_iff v v).1 refl)
after_some_dot_complete v (c ∷ p) = ground (arith, after_some_dot_complete v p)

ends_dot-append : (p : Text) → ends_dot (p ++ dot ∷ []) ≡ true
ends_dot-append [] = refl
ends_dot-append (c ∷ []) = refl
ends_dot-append (c ∷ d ∷ p) = ends_dot-append (d ∷ p)

canonical_domain-nil : canonical_domain [] ≡ []
unfolding canonical_domain
canonical_domain-nil = refl

module _ (n : Text) (canon : canonical_domain n ≡ n) where
  -- One suffix, looked up whole and after each dot, is the suffix match.
  suffix_test :
      (v : Text)
      → canonical_domain v ≡ v
      → (eq v n || after_some_dot (v ∷ []) n) ≡ domain_matches_suffix n v
  suffix_test v cv = iff_of_Bool _ _ to from
    where
      under : (domain_matches_suffix n v ≡ true) ↔ Under n v
      under =
          subst₂ (λ a b. (domain_matches_suffix n v ≡ true) ↔ Under a b) canon cv
            (domain_matches_suffix_iff n v)

      to : (eq v n || after_some_dot (v ∷ []) n) ≡ true → domain_matches_suffix n v ≡ true
      to h = elim (or-split (eq v n) (after_some_dot (v ∷ []) n) h) [
        | inl e ↦ under.1 (inl (sym ((eq_iff v n).0 e)))
        | inr a ↦ under.1 (inr (after_some_dot_sound v n a))
      ]

      from : domain_matches_suffix n v ≡ true → (eq v n || after_some_dot (v ∷ []) n) ≡ true
      from h = elim (under.0 h) [
        | inl e ↦ ground (arith, (eq_iff v n).1 (sym e))
        | inr (p, e) ↦ or_intro_right (eq v n) _ (rw e (after_some_dot_complete v p))
      ]

  add_as_lem :
      (k : GeositeDomainType) (v : Text) (t : CompiledGeositeTag)
      → canonical_domain v ≡ v
      → is_empty v ≡ false
      → tag_contains (add_as k v t) n ≡ (tag_contains t n || match_as k v n)
  unfolding tag_contains
  add_as_lem full v t cv ne = ground (arith, eq_comm v n)
  add_as_lem domain v t cv ne = ground (arith, suffix_test v cv, after_some_dot-cons v t.suffixes n)
  add_as_lem plain v t cv ne = unfold some_plain in ground arith
  add_as_lem regex v t cv ne = ground arith
  add_as_lem (unknown k) v t cv ne = ground arith

  module _ (ne : n ≢ []) where
    not-Under-nil : Under n [] → ⊥
    not-Under-nil (inl e) = ne e
    not-Under-nil (inr (p, e)) = false≢true (
        sym (subst (λ m. ends_dot m ≡ false) (canon ∙ e) (canonical_domain-IsCanonical n).no_end)
        ∙ ends_dot-append p)

    match_as-nil : (k : GeositeDomainType) → match_as k [] n ≡ false
    match_as-nil full = refl
    match_as-nil plain = refl
    match_as-nil regex = refl
    match_as-nil (unknown k) = refl
    match_as-nil domain = elim (Bool-cases (domain_matches_suffix n [])) [
      | inl e ↦ absurd (
          not-Under-nil
            (subst₂ Under canon canonical_domain-nil ((domain_matches_suffix_iff n []).0 e)))
      | inr e ↦ e
    ]

    add_value_lem :
        (k : GeositeDomainType) (v : Text) (t : CompiledGeositeTag)
        → canonical_domain v ≡ v
        → tag_contains (if is_empty v then t else add_as k v t) n
          ≡ (tag_contains t n || match_as k v n)
    add_value_lem k [] t cv = ground (arith, match_as-nil k)
    add_value_lem k (c ∷ cs) t cv = add_as_lem k (c ∷ cs) t cv refl

    add_rule_lem :
        (t : CompiledGeositeTag) (rule : DomainRule)
        → tag_contains (add_rule t rule) n ≡ (tag_contains t n || geosite_domain_match rule n)
    unfolding add_rule geosite_domain_match
    add_rule_lem t rule = rw canon (
        add_value_lem (from_i32 rule.kind) (canonical_domain rule.value) t
          (canonical_domain_idem rule.value))

    compile_rules_lem :
        (t : CompiledGeositeTag) (rules : List DomainRule)
        → tag_contains (compile_rules t rules) n
          ≡ (tag_contains t n || any (λ r. geosite_domain_match r n) rules)
    unfolding compile_rules
    compile_rules_lem t [] = ground arith
    compile_rules_lem t (rule ∷ rest) =
        compile_rules_lem (add_rule t rule) rest
        ∙ ap (λ b. b || any (λ r. geosite_domain_match r n) rest) (add_rule_lem t rule)
        ∙ or_assoc (tag_contains t n) (geosite_domain_match rule n) _

get_tag-compile :
    (index : List (Text × List DomainRule)) (tag : Text)
    → get_tag (compile_geosite index) tag ≡ Option.map (compile_rules no_rules) (get_tag index tag)
unfolding get_tag compile_geosite
get_tag-compile [] tag = refl
get_tag-compile ((t, rules) ∷ rest) tag = elim (Bool-cases (eq t tag)) [
  | inl e ↦ rw e
  | inr e ↦ rw e (get_tag-compile rest tag)
]

geosite_domain_match-canonical :
    (rule : DomainRule) (d : Text)
    → geosite_domain_match rule (canonical_domain d) ≡ geosite_domain_match rule d
unfolding geosite_domain_match
geosite_domain_match-canonical rule d = rw canonical_domain_idem

any-canonical :
    (rules : List DomainRule) (d : Text)
    → any (λ r. geosite_domain_match r (canonical_domain d)) rules
      ≡ any (λ r. geosite_domain_match r d) rules
any-canonical [] d = refl
any-canonical (rule ∷ rest) d =
    ap₂ ◌||◌ (geosite_domain_match-canonical rule d) (any-canonical rest d)

after_some_dot-nil : (n : Text) → after_some_dot [] n ≡ false
unfolding after_some_dot
after_some_dot-nil [] = refl
after_some_dot-nil (c ∷ cs) = ground (arith, after_some_dot-nil cs)

tag_contains-no_rules : (n : Text) → tag_contains no_rules n ≡ false
unfolding tag_contains some_plain
tag_contains-no_rules n = ground (arith, after_some_dot-nil n)

-- Some rule of the tag matches, by the rule-by-rule test.
abbrev pub some_rule_matches : Option (List DomainRule) → Text → Bool
some_rule_matches none d = false
some_rule_matches (some rules) d = any (λ r. geosite_domain_match r d) rules

found_contains-compile :
    (found : Option (List DomainRule)) (d : Text)
    → canonical_domain d ≢ []
    → found_contains (Option.map (compile_rules no_rules) found) (canonical_domain d)
      ≡ some_rule_matches found d
found_contains-compile none d ne = refl
found_contains-compile (some rules) d ne =
    compile_rules_lem (canonical_domain d) (canonical_domain_idem d) ne no_rules rules
    ∙ ap (λ b. b || any (λ r. geosite_domain_match r (canonical_domain d)) rules)
        (tag_contains-no_rules (canonical_domain d))
    ∙ any-canonical rules d

-- The compiled index answers as the rules do one by one, for every tag and every domain that is
-- more than dots.
pub compiled_geosite_contains_lem :
    (index : List (Text × List DomainRule)) (tag d : Text)
    → canonical_domain d ≢ []
    → compiled_geosite_contains (compile_geosite index) tag d
      ≡ some_rule_matches (get_tag index tag) d
unfolding compiled_geosite_contains
compiled_geosite_contains_lem index tag d ne =
    ap (λ o. found_contains o (canonical_domain d)) (get_tag-compile index tag)
    ∙ found_contains-compile (get_tag index tag) d ne
