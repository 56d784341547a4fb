-- ===== src/Tests/Names.antt =====
-- Domains, patterns and host names (src/util.rs, src/state.rs, src/sniff/mod.rs).
use xtp_rs.Prelude.{
  List, Text, [], contains, false, length, list_eq, nat_eq, option_eq, pair_eq, refl, split, text,
  true, ◌↔◌, ◌∷◌, ◌≡◌, ◌≢◌, ◌≤◌,
}
use xtp_rs.Domain.{canonical_domain, domain_matches_suffix, dot, to_ascii_lowercase}
use xtp_rs.Domain.Suffix.{Under, domain_matches_suffix_iff}
use xtp_rs.DomainSet.{compile, matches_canonical, walk_suffixes}
use xtp_rs.DomainSet.Compile.{PatternMatches, compile-matches_iff}
use xtp_rs.Geosite.{DomainRule, compile_geosite, compiled_geosite_contains, get_tag}
use xtp_rs.Geosite.Compiled.{compiled_geosite_contains_lem, some_rule_matches}
use xtp_rs.Hostname.{AllLabels, has_letter, is_valid_sni_hostname, is_valid_sni_hostname_iff}

abbrev www : Text
www = text "www.example.com"

abbrev example : Text
example = text "example.com"

abbrev patterns : List Text
patterns = text ".example.com" ∷ text "..." ∷ text "one.org" ∷ []

canonical_domain_test : canonical_domain (text "..WWW.Example.com.") ≡ www
unfolding canonical_domain
canonical_domain_test = refl

suffix_test : domain_matches_suffix (text "badexample.com") example ≡ false
unfolding domain_matches_suffix canonical_domain
suffix_test = refl

suffix_under_test : domain_matches_suffix www (text ".example.com") ≡ true
unfolding domain_matches_suffix canonical_domain
suffix_under_test = refl

compile_test : matches_canonical (compile patterns) www ≡ true
unfolding compile matches_canonical canonical_domain walk_suffixes
compile_test = refl

compile_exact_test : matches_canonical (compile patterns) (text "www.one.org") ≡ false
unfolding compile matches_canonical canonical_domain walk_suffixes
compile_exact_test = refl

domain_matches_suffix_iff_example :
    (domain_matches_suffix www example ≡ true)
    ↔ Under (canonical_domain www) (canonical_domain example)
domain_matches_suffix_iff_example = domain_matches_suffix_iff www example

compile-matches_iff_example :
    (matches_canonical (compile patterns) www ≡ true)
    ↔ ((raw : Text) × (contains patterns raw ≡ true) × PatternMatches www raw)
compile-matches_iff_example = compile-matches_iff patterns www

abbrev index : List (Text × List DomainRule)
index =
    (
      text "cn",
      record { kind = 2; value = text "Example.com" }
          ∷ record { kind = 3; value = text "one.org" }
          ∷ [],
    )
    ∷ []

ne_nil : canonical_domain www ≢ []
unfolding canonical_domain
ne_nil h = cc

compiled_geosite_contains_lem_example :
    compiled_geosite_contains (compile_geosite index) (text "cn") www
    ≡ some_rule_matches (get_tag index (text "cn")) www
compiled_geosite_contains_lem_example = compiled_geosite_contains_lem index (text "cn") www ne_nil

www_valid : is_valid_sni_hostname (to_ascii_lowercase (text "WWW.a-b.org")) ≡ true
unfolding is_valid_sni_hostname to_ascii_lowercase
www_valid = refl

dash_test : is_valid_sni_hostname (text "a.-b.org") ≡ false
unfolding is_valid_sni_hostname
dash_test = refl

digits_test : is_valid_sni_hostname (text "10.0.0.1") ≡ false
unfolding is_valid_sni_hostname
digits_test = refl

is_valid_sni_hostname_iff_example :
    (is_valid_sni_hostname www ≡ true)
    ↔ ((length www ≤ 253) × AllLabels (split dot www) × (has_letter (split dot www) ≡ true))
is_valid_sni_hostname_iff_example = is_valid_sni_hostname_iff www
