-- ===== src/Hostname/Canonical.antt =====
-- An accepted name in lower case is a canonical domain, and fits the length byte of SOCKS5.
use xtp_rs.Prelude.{
  Bool-cases, Text, [], ap, arith, cons_head, false, if◌then◌else◌, inl, inr, length, refl, split,
  subst, true, ◌==◌, ◌∙◌, ◌∷◌, ◌≡◌, ◌≤◌,
}
use xtp_rs.Domain.{dot, to_ascii_lowercase}
use xtp_rs.Domain.Canonical.{IsCanonical, ends_dot, starts_dot, to_ascii_lowercase_idem}
use xtp_rs.Hostname.{
  AllLabels, ends_with_byte, ends_with_byte-split, is_valid_sni_hostname, is_valid_sni_hostname_iff,
}

first_label-ne_nil : (s : Text) → AllLabels (split dot s) → starts_dot s ≡ false
first_label-ne_nil [] v = refl
first_label-ne_nil (c ∷ cs) v = elim (Bool-cases (c == dot)) [
  | inl e ↦ absurd (
      (subst AllLabels (ap (λ b. if b then [] ∷ split dot cs else cons_head c (split dot cs)) e)
          v).0.not_empty
        refl)
  | inr e ↦ e
]

ends_dot-eq : (s : Text) → ends_dot s ≡ ends_with_byte dot s
ends_dot-eq [] = refl
ends_dot-eq (c ∷ []) = refl
ends_dot-eq (c ∷ d ∷ cs) = ends_dot-eq (d ∷ cs)

-- What a sniffer hands on, an accepted name in lower case, is its own canonical form and 1 to 253
-- bytes long.
pub sniffed-IsCanonical :
    (name : Text)
    → is_valid_sni_hostname (to_ascii_lowercase name) ≡ true
    → IsCanonical (to_ascii_lowercase name)
      × (1 ≤ length (to_ascii_lowercase name))
      × (length (to_ascii_lowercase name) ≤ 253)
sniffed-IsCanonical name ok =
    let h = to_ascii_lowercase name in
    let v = (is_valid_sni_hostname_iff h).0 ok in
    (
      record {
        no_start = first_label-ne_nil h v.1;
        no_end = ends_dot-eq h ∙ ends_with_byte-false h v.1;
        lowercase = to_ascii_lowercase_idem name;
      },
      length-pos h v.1,
      v.0,
    )
  where
    ends_with_byte-false : (s : Text) → AllLabels (split dot s) → ends_with_byte dot s ≡ false
    ends_with_byte-false s v = elim (Bool-cases (ends_with_byte dot s)) [
      | inl e ↦ absurd (ends_with_byte-split s e v)
      | inr e ↦ e
    ]

    length-pos : (s : Text) → AllLabels (split dot s) → 1 ≤ length s
    length-pos [] v = absurd (v.0.not_empty refl)
    length-pos (c ∷ cs) v = omega arith
