-- ===== src/Direct/Rules.antt =====
-- The priorities of `should_direct` (src/state.rs), and when sniffing a domain cannot change its
-- answer (`need_geosite_sniff`).
use xtp_rs.Prelude.{
  Bool-cases, List, Option, Option-cases, Text, [], ap, arith, contains, drop, false, inl, inr,
  is_empty, length, list_eq, nat_eq, none, not, option_eq, pair_eq, refl, some, suc, true, zero, ℕ,
  ◌&&◌, ◌||◌, ◌∷◌, ◌≡◌,
}
use xtp_rs.Domain.{canonical_domain, dot}
use xtp_rs.DomainSet.{DomainSet, compile, find, matches_canonical, set_is_empty, walk_suffixes}
use xtp_rs.DomainSet.Compile.{PatternMatches, compile-matches_iff}
use xtp_rs.Geosite.{CompiledGeositeTag}
use xtp_rs.Routes.{IpAddr}
use xtp_rs.Direct.{
  DirectCache, DirectState, ProxyMode, bypass, domain_rules, forced_domain, geosite_rules, global,
  has_index, ip_eq, is_smart, need_geosite_sniff, should_direct, smart, some_tag,
}
use xtp_rs.Direct.Transparent.{by_mode, uncached}

module _ (s : DirectState) (smart_mode : s.proxy_mode ≡ smart) where
  -- In smart mode a domain that a pattern of `force_socks5_domains` matches is proxied, whatever the
  -- other rules and the cache say, and the cache stays as it is.
  pub force_socks5_domains-win :
      (patterns : List Text) (raw d : Text) (cache : DirectCache) (now : ℕ) (ip : IpAddr)
      → s.force_socks5_domains ≡ compile patterns
      → contains patterns raw ≡ true
      → PatternMatches (canonical_domain d) raw
      → should_direct s cache now ip (some d) ≡ (false, cache)
  force_socks5_domains-win patterns raw d cache now ip e m p =
      let hit : matches_canonical s.force_socks5_domains (canonical_domain d) ≡ true =
        rw e ((compile-matches_iff patterns (canonical_domain d)).1 (raw, m, p)) in
      unfold should_direct domain_rules forced_domain in ground arith

  -- In smart mode a domain that only `force_direct_domains` matches goes out directly, whatever the
  -- geosite rules, the address rules and the cache say, and the cache stays as it is.
  pub force_direct_domains-win :
      (socks5 direct : List Text) (raw d : Text) (cache : DirectCache) (now : ℕ) (ip : IpAddr)
      → s.force_socks5_domains ≡ compile socks5
      → s.force_direct_domains ≡ compile direct
      → ((other : Text)
          → contains socks5 other ≡ true
          → ¬ PatternMatches (canonical_domain d) other)
      → contains direct raw ≡ true
      → PatternMatches (canonical_domain d) raw
      → should_direct s cache now ip (some d) ≡ (true, cache)
  force_direct_domains-win socks5 direct raw d cache now ip e f unforced m p =
      let hit : matches_canonical s.force_direct_domains (canonical_domain d) ≡ true =
        rw f ((compile-matches_iff direct (canonical_domain d)).1 (raw, m, p)) in
      elim (Bool-cases (matches_canonical s.force_socks5_domains (canonical_domain d))) [
        | inl t ↦
            let found = (compile-matches_iff socks5 (canonical_domain d)).0 (rw e at t) in
            absurd (unforced found.0 found.1 found.2)
        | inr u ↦ unfold should_direct domain_rules forced_domain in ground arith
      ]

walk_suffixes-nil : (fuel : ℕ) (d : Text) → walk_suffixes fuel [] d ≡ false
unfolding walk_suffixes
walk_suffixes-nil zero d = refl
walk_suffixes-nil (suc fuel) d = elim (Option-cases (find dot d)) [
  | inl e ↦ ground arith
  | inr (pos, e) ↦ ground (arith, walk_suffixes-nil fuel (drop (suc pos) d))
]

empty_set-matches :
    (ds : DomainSet) (d : Text) → set_is_empty ds ≡ true → matches_canonical ds d ≡ false
unfolding set_is_empty matches_canonical
empty_set-matches ds d h =
    let e : ds.exact ≡ [] = ground arith in
    let f : ds.suffixes ≡ [] = ground arith in
    ground (
      arith,
      ap (λ (l : List Text). contains l d) e,
      ap (λ (l : List Text). walk_suffixes (suc (length d)) l d) f,
      walk_suffixes-nil (suc (length d)) d,
    )

some_tag-nil :
    (compiled : List (Text × CompiledGeositeTag)) (tags : List Text) (d : Text)
    → is_empty tags ≡ true
    → some_tag compiled tags d ≡ false
unfolding some_tag
some_tag-nil compiled [] d h = refl
some_tag-nil compiled (t ∷ ts) d h = cc

geosite_rules-nil :
    (s : DirectState) (compiled : List (Text × CompiledGeositeTag)) (d : Text)
    → is_empty s.proxy_geosite_tags ≡ true
    → is_empty s.direct_geosite_tags ≡ true
    → geosite_rules s (some compiled) d ≡ none
unfolding geosite_rules
geosite_rules-nil s compiled d h k = ground (
  arith,
  some_tag-nil compiled s.proxy_geosite_tags d h,
  some_tag-nil compiled s.direct_geosite_tags d k,
)

same_by_mode :
    (s : DirectState) (ip : IpAddr) (d : Text) (m : ProxyMode)
    → (is_smart m ≡ true → domain_rules s (some d) ≡ none)
    → by_mode m s ip (some d) ≡ by_mode m s ip none
same_by_mode s ip d global h = refl
same_by_mode s ip d bypass h = refl
same_by_mode s ip d smart h = rw (h refl) (unfold domain_rules in refl)

no_geosite_rules :
    (s : DirectState) (index : Option (List (Text × CompiledGeositeTag))) (d : Text)
    → (has_index index
        && (not (is_empty s.proxy_geosite_tags) || not (is_empty s.direct_geosite_tags)))
      ≡ false
    → geosite_rules s index d ≡ none
no_geosite_rules s none d h = unfold geosite_rules in refl
no_geosite_rules s (some compiled) d h =
    geosite_rules-nil s compiled d (ground arith) (ground arith)

-- Where the program decides that no domain has to be sniffed, every domain leaves the decision as
-- it is without one.
pub need_geosite_sniff_sound :
    (s : DirectState) (ip : IpAddr) (d : Text)
    → need_geosite_sniff s ≡ false
    → uncached s ip (some d) ≡ uncached s ip none
unfolding uncached
need_geosite_sniff_sound s ip d h = same_by_mode s ip d s.proxy_mode no_rules
  where
    no_rules : is_smart s.proxy_mode ≡ true → domain_rules s (some d) ≡ none
    no_rules m =
        let socks5 : set_is_empty s.force_socks5_domains ≡ true =
          unfold need_geosite_sniff in ground arith in
        let direct : set_is_empty s.force_direct_domains ≡ true =
          unfold need_geosite_sniff in ground arith in
        unfold domain_rules forced_domain in
        ground (
          arith,
          empty_set-matches s.force_socks5_domains (canonical_domain d) socks5,
          empty_set-matches s.force_direct_domains (canonical_domain d) direct,
          no_geosite_rules s s.compiled_geosite d (unfold need_geosite_sniff in ground arith),
        )
