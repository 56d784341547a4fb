-- ===== src/Domain/Canonical.antt =====
-- The canonical form of a domain (`canonical_domain` of src/util.rs): no dot at either end, no
-- upper-case letter, and a fixed point.
use xtp_rs.Prelude.{
  Bool, Text, [], ap₂, arith, false, if◌then◌else◌, is_empty, refl, ℕ, ◌&&◌, ◌==◌, ◌∙◌, ◌∷◌, ◌≡◌,
  ◌≢◌,
}
use xtp_rs.Domain.{canonical_domain, dot, lower, to_ascii_lowercase, trim_end_dots, trim_start_dots}

abbrev pub starts_dot : Text → Bool
starts_dot [] = false
starts_dot (c ∷ cs) = c == dot

abbrev pub ends_dot : Text → Bool
ends_dot [] = false
ends_dot (c ∷ []) = c == dot
ends_dot (c ∷ d ∷ cs) = ends_dot (d ∷ cs)

starts_dot-trim_start_dots : (s : Text) → starts_dot (trim_start_dots s) ≡ false
unfolding trim_start_dots
starts_dot-trim_start_dots [] = refl
starts_dot-trim_start_dots (c ∷ cs) = ground (arith, starts_dot-trim_start_dots cs)

pub trim_start_dots-eq_self : (s : Text) → starts_dot s ≡ false → trim_start_dots s ≡ s
unfolding trim_start_dots
trim_start_dots-eq_self [] h = refl
trim_start_dots-eq_self (c ∷ cs) h = rw h

ends_dot-cons : (c : ℕ) (s : Text) → s ≢ [] → ends_dot (c ∷ s) ≡ ends_dot s
ends_dot-cons c [] h = absurd (h refl)
ends_dot-cons c (d ∷ s) h = refl

ends_dot-trim_end_dots : (s : Text) → ends_dot (trim_end_dots s) ≡ false
unfolding trim_end_dots
ends_dot-trim_end_dots [] = refl
ends_dot-trim_end_dots (c ∷ cs) = ends (trim_end_dots cs) (ends_dot-trim_end_dots cs)
  where
    ends :
        (r : Text)
        → ends_dot r ≡ false
        → ends_dot (if c == dot && is_empty r then [] else c ∷ r) ≡ false
    ends [] h = ground arith
    ends (d ∷ r) h = ground arith

pub trim_end_dots-eq_self : (s : Text) → ends_dot s ≡ false → trim_end_dots s ≡ s
unfolding trim_end_dots
trim_end_dots-eq_self [] h = refl
trim_end_dots-eq_self (c ∷ []) h = ground arith
trim_end_dots-eq_self (c ∷ d ∷ cs) h = rw (trim_end_dots-eq_self (d ∷ cs) h) (ground arith)

starts_dot-trim_end_dots : (s : Text) → starts_dot s ≡ false → starts_dot (trim_end_dots s) ≡ false
unfolding trim_end_dots
starts_dot-trim_end_dots [] h = refl
starts_dot-trim_end_dots (c ∷ cs) h = ground arith

lower-eq_dot : (c : ℕ) → (lower c == dot) ≡ (c == dot)
unfolding lower
lower-eq_dot c = ground arith

lower-lower : (c : ℕ) → lower (lower c) ≡ lower c
unfolding lower
lower-lower c = ground arith

starts_dot-lower : (s : Text) → starts_dot (to_ascii_lowercase s) ≡ starts_dot s
unfolding to_ascii_lowercase
starts_dot-lower [] = refl
starts_dot-lower (c ∷ cs) = lower-eq_dot c

ends_dot-lower : (s : Text) → ends_dot (to_ascii_lowercase s) ≡ ends_dot s
unfolding to_ascii_lowercase
ends_dot-lower [] = refl
ends_dot-lower (c ∷ []) = lower-eq_dot c
ends_dot-lower (c ∷ d ∷ cs) = ends_dot-lower (d ∷ cs)

pub to_ascii_lowercase_idem :
    (s : Text) → to_ascii_lowercase (to_ascii_lowercase s) ≡ to_ascii_lowercase s
unfolding to_ascii_lowercase
to_ascii_lowercase_idem [] = refl
to_ascii_lowercase_idem (c ∷ cs) = ap₂ (λ a l. a ∷ l) (lower-lower c) (to_ascii_lowercase_idem cs)

-- What `canonical_domain` leaves as it is.
pub record IsCanonical (s : Text) : Type 0 where
  pub no_start : starts_dot s ≡ false
  pub no_end : ends_dot s ≡ false
  pub lowercase : to_ascii_lowercase s ≡ s

pub canonical_domain-IsCanonical : (d : Text) → IsCanonical (canonical_domain d)
unfolding canonical_domain
canonical_domain-IsCanonical d = record {
  no_start =
      starts_dot-lower (trim_end_dots (trim_start_dots d))
      ∙ starts_dot-trim_end_dots (trim_start_dots d) (starts_dot-trim_start_dots d);
  no_end =
      ends_dot-lower (trim_end_dots (trim_start_dots d))
      ∙ ends_dot-trim_end_dots (trim_start_dots d);
  lowercase = to_ascii_lowercase_idem (trim_end_dots (trim_start_dots d));
}

pub canonical_domain-eq_self : (s : Text) → IsCanonical s → canonical_domain s ≡ s
unfolding canonical_domain
canonical_domain-eq_self s c =
    rw (trim_start_dots-eq_self s c.no_start, trim_end_dots-eq_self s c.no_end) c.lowercase

-- Canonicalising twice is canonicalising once.
pub canonical_domain_idem : (d : Text) → canonical_domain (canonical_domain d) ≡ canonical_domain d
canonical_domain_idem d = canonical_domain-eq_self _ (canonical_domain-IsCanonical d)
