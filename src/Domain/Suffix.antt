-- ===== src/Domain/Suffix.antt =====
-- What it is for a domain to stand under a suffix, and `domain_matches_suffix` of src/util.rs
-- against it.
use xtp_rs.Prelude.{
  ==_iff, Bool-cases, Option, Text, [], and-split, ap, append_assoc, arith, drop, drop-length, eq,
  eq_iff, get_elem?, get_elem?-append, get_elem?-split, inl, inr, leb, length, length-append,
  le→leb, list_eq, nat_eq, none, option_eq, refl, some, subst, suc, sym, take, take-append-drop,
  true, ℕ, ◌++◌, ◌-◌, ◌<◌, ◌==◌, ◌↔◌, ◌∙◌, ◌∷◌, ◌≡◌, ◌⊎◌,
}
use xtp_rs.Domain.{
  canonical_domain, domain_matches_suffix, dot, ends_with, is_dot, matches_normalized,
}

-- The domain is the suffix, or has it behind a label boundary.
abbrev pub Under : Text → Text → Type 0
Under d s = (d ≡ s) ⊎ ((p : Text) × (d ≡ p ++ dot ∷ s))

ends_with-split : (d s : Text) → ends_with d s ≡ true → d ≡ take (length d - length s) d ++ s
unfolding ends_with
ends_with-split d s h =
    let both = and-split (leb (length s) (length d)) (eq (drop (length d - length s) d) s) h in
    sym (take-append-drop (length d - length s) d)
    ∙ ap (λ l. take (length d - length s) d ++ l)
        ((eq_iff (drop (length d - length s) d) s).0 both.1)

ends_with-append : (p s : Text) → ends_with (p ++ s) s ≡ true
unfolding ends_with
ends_with-append p s =
    let e : length (p ++ s) - length s ≡ length p = omega (arith, length-append p s) in
    rw (e, drop-length p s, le→leb (length s) (length (p ++ s)) (omega (arith, length-append p s)))
      ((eq_iff s s).1 refl)

ends_with-under : (p s : Text) → ends_with (p ++ dot ∷ s) s ≡ true
ends_with-under p s =
    subst (λ l. ends_with l s ≡ true) (append_assoc p (dot ∷ []) s)
      (ends_with-append (p ++ dot ∷ []) s)

get_elem?-before :
    (p s : Text) → get_elem? (p ++ dot ∷ s) (length (p ++ dot ∷ s) - length s - 1) ≡ some dot
get_elem?-before p s = get_elem?-append p s dot (omega (arith, length-append p (dot ∷ s)))

is_dot-some : (o : Option ℕ) → is_dot o ≡ true → o ≡ some dot
is_dot-some none h = cc
is_dot-some (some c) h = ap some ((==_iff c dot).0 h)

-- The bytes of `d` up to its last `s`, without the byte before it.
before : Text → Text → Text
before d s = take (length d - length s - 1) d

split_before :
    (d s : Text)
    → length s < length d
    → ends_with d s ≡ true
    → get_elem? d (length d - length s - 1) ≡ some dot
    → d ≡ before d s ++ dot ∷ s
unfolding before ends_with
split_before d s lt e at =
    let i : ℕ = length d - length s - 1 in
    let next : suc i ≡ length d - length s = omega arith in
    let both = and-split (leb (length s) (length d)) (eq (drop (length d - length s) d) s) e in
    get_elem?-split d i dot at
    ∙ ap (λ l. take i d ++ dot ∷ l)
        (ap (λ k. drop k d) next ∙ (eq_iff (drop (length d - length s) d) s).0 both.1)

sound : (d s : Text) → matches_normalized d s ≡ true → Under d s
unfolding matches_normalized
sound d s h = elim (Bool-cases (length d == length s)) [
  | inl same ↦ inl ((eq_iff d s).0 (ground (arith, h)))
  | inr other ↦ inr (
    before d s,
    split_before d s (ground (arith, h)) (ground (arith, h)) (is_dot-some _ (ground (arith, h))),
  )
]

complete : (d s : Text) → Under d s → matches_normalized d s ≡ true
unfolding matches_normalized
complete d s (inl e) = rw e (ground (arith, (eq_iff s s).1 refl))
complete d s (inr (p, e)) =
    rw e (ground (arith, ends_with-under p s, length-append p (dot ∷ s), get_elem?-before p s))

-- Holds exactly when the canonical domain is the canonical suffix, or ends in a dot and the
-- canonical suffix.
pub domain_matches_suffix_iff :
    (domain suffix : Text)
    → (domain_matches_suffix domain suffix ≡ true)
      ↔ Under (canonical_domain domain) (canonical_domain suffix)
unfolding domain_matches_suffix
domain_matches_suffix_iff domain suffix = (
  sound (canonical_domain domain) (canonical_domain suffix),
  complete (canonical_domain domain) (canonical_domain suffix),
)
