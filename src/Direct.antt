-- ===== src/Direct.antt =====
-- `AppState::should_direct` of src/state.rs: whether a connection goes out directly, by mode, by
-- domain rules and by address rules, with the cache of address decisions. The prefix tries (crate
-- `iptrie`) and the MMDB reader (crate `maxminddb`) are functions in the state. A call happens at
-- one instant, its argument `now`.
pub mod Transparent
pub mod Rules
use mathlib.Core.Option
use xtp_rs.Prelude.{
  Bool, Eq, List, Option, Text, [], any, arith, eq, false, if◌then◌else◌, is_empty, leb, length,
  list_eq, ltb, map, map_get, map_insert, map_remove, map_retain, nat_eq, none, not, option_eq,
  pair_eq, some, true, ℕ, ◌&&◌, ◌-◌, ◌/◌, ◌==◌, ◌^◌, ◌||◌, ◌↔◌, ◌∷◌, ◌≡◌,
}
use xtp_rs.Domain.{canonical_domain, to_ascii_lowercase}
use xtp_rs.DomainSet.{DomainSet, matches_canonical, set_is_empty}
use xtp_rs.Geosite.{CompiledGeositeTag, compiled_geosite_contains}
use xtp_rs.Routes.{IpAddr, ip4, ip6}

pub data ProxyMode : Type 0 where
  smart global bypass : ProxyMode

abbrev pub ip_beq : IpAddr → IpAddr → Bool
ip_beq (ip4 a) (ip4 b) = a == b
ip_beq (ip6 a) (ip6 b) = a == b
ip_beq (ip4 a) (ip6 b) = false
ip_beq (ip6 a) (ip4 b) = false

pub ip_beq_iff : (a b : IpAddr) → (ip_beq a b ≡ true) ↔ (a ≡ b)
ip_beq_iff (ip4 a) (ip4 b) = ground arith
ip_beq_iff (ip6 a) (ip6 b) = ground arith
ip_beq_iff (ip4 a) (ip6 b) = ground arith
ip_beq_iff (ip6 a) (ip4 b) = ground arith

instance abbrev pub ip_eq : Eq IpAddr
ip_eq = record { beq = ip_beq; beq_iff = ip_beq_iff }

abbrev pub DirectKey : Type 0
DirectKey = IpAddr × Option Text

-- A decision and the time when it was written.
abbrev pub DirectCache : Type 0
DirectCache = List (DirectKey × (Bool × ℕ))

-- The fields of `AppState` and `Config` that the decision reads. `country_code` is the ISO code
-- that the MMDB record of an address holds, if there is a reader, a record and a code.
pub record DirectState : Type 0 where
  pub proxy_mode : ProxyMode
  pub route_cache_ttl : ℕ
  pub route_cache_max : ℕ
  pub direct_local_ip : Bool
  pub force_socks5_domains : DomainSet
  pub force_direct_domains : DomainSet
  pub compiled_geosite : Option (List (Text × CompiledGeositeTag))
  pub proxy_geosite_tags : List Text
  pub direct_geosite_tags : List Text
  pub force_socks5_v4 : ℕ → Bool
  pub force_socks5_v6 : ℕ → Bool
  pub force_direct_v4 : ℕ → Bool
  pub force_direct_v6 : ℕ → Bool
  pub country_code : IpAddr → Option Text
  pub direct_countries : List Text

-- is_loopback, is_link_local, is_broadcast, is_unspecified
unfoldable pub is_must_direct_local_ipv4 : ℕ → Bool
is_must_direct_local_ipv4 ip =
    ip / 2 ^ 24 == 127 || ip / 2 ^ 16 == 0xa9fe || ip == 0xffff_ffff || ip == 0

-- is_loopback, is_unspecified, is_unicast_link_local (fe80::/10)
unfoldable pub is_must_direct_local_ipv6 : ℕ → Bool
is_must_direct_local_ipv6 ip = ip == 1 || ip == 0 || ip / 2 ^ 118 == 0x3fa

unfoldable pub is_must_direct_local_ip : IpAddr → Bool
unfolding is_must_direct_local_ipv4 is_must_direct_local_ipv6
is_must_direct_local_ip (ip4 ip) = is_must_direct_local_ipv4 ip
is_must_direct_local_ip (ip6 ip) = is_must_direct_local_ipv6 ip

abbrev pub eq_ignore_ascii_case : Text → Text → Bool
eq_ignore_ascii_case a b = eq (to_ascii_lowercase a) (to_ascii_lowercase b)

abbrev pub code_is_direct : List Text → Option Text → Bool
code_is_direct countries none = false
code_is_direct countries (some code) = any (λ c. eq_ignore_ascii_case c code) countries

unfoldable pub is_direct_country_ip : DirectState → IpAddr → Bool
is_direct_country_ip s ip = code_is_direct s.direct_countries (s.country_code ip)

-- The address rules: forced proxy, forced direct, local, country.
unfoldable pub ip_rules : DirectState → IpAddr → Bool
ip_rules s (ip4 ip) =
    if s.force_socks5_v4 ip
    then false
    else if s.force_direct_v4 ip
    then true
    else s.direct_local_ip && is_must_direct_local_ip (ip4 ip) || is_direct_country_ip s (ip4 ip)
ip_rules s (ip6 ip) =
    if s.force_socks5_v6 ip
    then false
    else if s.force_direct_v6 ip
    then true
    else s.direct_local_ip && is_must_direct_local_ip (ip6 ip) || is_direct_country_ip s (ip6 ip)

-- The domain rules, if one decides: forced proxy, forced direct, then the geosite tags.
unfoldable pub forced_domain : DirectState → Text → Option Bool
forced_domain s d =
    let canonical = canonical_domain d in
    if matches_canonical s.force_socks5_domains canonical
    then some false
    else if matches_canonical s.force_direct_domains canonical
    then some true
    else none

unfoldable pub some_tag : List (Text × CompiledGeositeTag) → List Text → Text → Bool
some_tag compiled [] d = false
some_tag compiled (tag ∷ tags) d =
    if compiled_geosite_contains compiled tag d then true else some_tag compiled tags d

unfoldable pub geosite_rules :
    DirectState → Option (List (Text × CompiledGeositeTag)) → Text → Option Bool
geosite_rules s none d = none
geosite_rules s (some compiled) d =
    if some_tag compiled s.proxy_geosite_tags d
    then some false
    else if some_tag compiled s.direct_geosite_tags d
    then some true
    else none

abbrev pub first_decision : Option Bool → Option Bool → Option Bool
first_decision (some b) other = some b
first_decision none other = other

unfoldable pub domain_rules : DirectState → Option Text → Option Bool
domain_rules s none = none
domain_rules s (some d) = first_decision (forced_domain s d) (geosite_rules s s.compiled_geosite d)

-- `direct_cache_insert_with_key`: a full cache first drops what has expired.
unfoldable pub direct_cache_insert :
    DirectState → DirectCache → ℕ → IpAddr → Option Text → Bool → DirectCache
direct_cache_insert s cache now ip normalized direct =
    let kept =
      (if leb s.route_cache_max (length cache)
        then map_retain (λ k v. ltb (now - v.1) s.route_cache_ttl) cache
        else cache) in
    map_insert kept (ip, normalized) (direct, now)

-- A cached decision that has not expired; one that has is removed.
abbrev pub use_cached :
    DirectState → DirectCache → ℕ → DirectKey → Option (Bool × ℕ) → Option Bool × DirectCache
use_cached s cache now key none = (none, cache)
use_cached s cache now key (some (b, at)) =
    if ltb (now - at) s.route_cache_ttl then (some b, cache) else (none, map_remove cache key)

abbrev pub finish :
    DirectState → ℕ → IpAddr → Option Text → Option Bool × DirectCache → Bool × DirectCache
finish s now ip normalized (some b, cache) = (b, cache)
finish s now ip normalized (none, cache) =
    (ip_rules s ip, direct_cache_insert s cache now ip normalized (ip_rules s ip))

-- The address part, with the cache if its time to live is not zero.
unfoldable pub decide_by_ip :
    DirectState → DirectCache → ℕ → IpAddr → Option Text → Bool × DirectCache
decide_by_ip s cache now ip name =
    if s.route_cache_ttl == 0
    then (ip_rules s ip, cache)
    else let key : DirectKey = (ip, Option.map canonical_domain name) in
      finish s now ip (Option.map canonical_domain name)
        (use_cached s cache now key (map_get cache key))

abbrev pub decide_smart :
    DirectState → DirectCache → ℕ → IpAddr → Option Text → Option Bool → Bool × DirectCache
decide_smart s cache now ip name (some b) = (b, cache)
decide_smart s cache now ip name none = decide_by_ip s cache now ip name

abbrev pub decide_in :
    ProxyMode → DirectState → DirectCache → ℕ → IpAddr → Option Text → Bool × DirectCache
decide_in global s cache now ip name = (false, cache)
decide_in bypass s cache now ip name = (true, cache)
decide_in smart s cache now ip name = decide_smart s cache now ip name (domain_rules s name)

unfoldable pub should_direct :
    DirectState → DirectCache → ℕ → IpAddr → Option Text → Bool × DirectCache
unfolding decide_by_ip direct_cache_insert ip_rules domain_rules
should_direct s cache now ip name = decide_in s.proxy_mode s cache now ip name

abbrev pub is_smart : ProxyMode → Bool
is_smart smart = true
is_smart global = false
is_smart bypass = false

abbrev pub has_index : Option (List (Text × CompiledGeositeTag)) → Bool
has_index (some compiled) = true
has_index none = false

-- Whether a domain has to be sniffed for `should_direct`.
unfoldable pub need_geosite_sniff : DirectState → Bool
need_geosite_sniff s =
    if not (set_is_empty s.force_direct_domains) || not (set_is_empty s.force_socks5_domains)
    then true
    else has_index s.compiled_geosite
      && (not (is_empty s.proxy_geosite_tags) || not (is_empty s.direct_geosite_tags))
      && is_smart s.proxy_mode
