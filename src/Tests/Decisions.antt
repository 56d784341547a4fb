-- ===== src/Tests/Decisions.antt =====
-- The decisions of src/state.rs: direct or proxied, and which upstream group.
use xtp_rs.Prelude.{
  Bool, List, Option, Text, [], arith, contains, eq, false, false≢true, if◌then◌else◌, inl, inr,
  is_empty, list_eq, ltb, map, map_get, map_insert, nat_eq, none, not, option_eq, pair_eq, refl,
  some, text, true, ℕ, ◌-◌, ◌/◌, ◌==◌, ◌^◌, ◌∷◌, ◌≡◌, ◌≢◌,
}
use xtp_rs.Domain.{canonical_domain, domain_matches_suffix}
use xtp_rs.DomainSet.{compile, matches_canonical, set_is_empty, walk_suffixes}
use xtp_rs.DomainSet.Compile.{PatternMatches, below, compile-matches_iff, exactly}
use xtp_rs.Routes.{
  AppRoutes, ClientCidrRoutes, DomainRouteTable, IpAddr, IpNet, IpNets, finalize, find_map_matching,
  insert, ip4, lookup_upstream_group, need_upstream_domain_sniff, new,
}
use xtp_rs.Routes.LongestPrefix.{CidrOutcome, find_map_matching_longest}
use xtp_rs.Routes.Build.{RouteConfig, build_routes}
use xtp_rs.Routes.Sniffing.{need_upstream_domain_sniff_sound}
use xtp_rs.Routes.Priority.{Chosen, finalize_all, lookup_upstream_group-Chosen}
use xtp_rs.Direct.{
  DirectState, decide_by_ip, direct_cache_insert, forced_domain, geosite_rules, ip_eq,
  need_geosite_sniff, should_direct, smart,
}
use xtp_rs.Direct.Transparent.{CacheSound, run_queries, should_direct_transparent, uncached}
use xtp_rs.Direct.Rules.{
  force_direct_domains-win, force_socks5_domains-win, need_geosite_sniff_sound,
}
use xtp_rs.UpstreamCache.{
  UpstreamCache, cache_upstream, get-cache_upstream, get_cached_upstream, upstream_key,
}

abbrev socks5_patterns : List Text
socks5_patterns = text ".blocked.org" ∷ []

abbrev direct_patterns : List Text
direct_patterns = text "home.org" ∷ []

abbrev state : DirectState
state = record {
  proxy_mode = smart;
  route_cache_ttl = 60;
  route_cache_max = 2;
  direct_local_ip = true;
  force_socks5_domains = compile socks5_patterns;
  force_direct_domains = compile direct_patterns;
  compiled_geosite = none;
  proxy_geosite_tags = [];
  direct_geosite_tags = [];
  force_socks5_v4 = λ ip. ip == 9;
  force_socks5_v6 = λ ip. false;
  force_direct_v4 = λ ip. ip == 8;
  force_direct_v6 = λ ip. false;
  country_code = λ ip. none;
  direct_countries = text "CN" ∷ [];
}

abbrev queries : List (ℕ × IpAddr × Option Text)
queries =
    (0, ip4 8, some (text "Example.com"))
    ∷ (10, ip4 8, some (text "example.com."))
    ∷ (100, ip4 9, none)
    ∷ (101, ip4 0x7f00_0001, some (text "www.blocked.org"))
    ∷ []

run_test : run_queries state [] queries ≡ true ∷ true ∷ false ∷ false ∷ []
unfolding run_queries should_direct compile matches_canonical canonical_domain walk_suffixes
    direct_cache_insert decide_by_ip forced_domain geosite_rules map_get map_insert
run_test = refl

should_direct_transparent_example :
    run_queries state [] queries
    ≡ map (λ (q : ℕ × IpAddr × Option Text). uncached state q.1 q.2) queries
should_direct_transparent_example = should_direct_transparent state queries

no_cache : CacheSound state []
no_cache = unfold map_get in record { unique = tt; decided = λ k b at h. absurd (none-ne-some h) }
  where
    none-ne-some : {x : Bool × ℕ} → none ≡ some x → ⊥
    none-ne-some h = cc

blocked : PatternMatches (canonical_domain (text "WWW.blocked.org")) (text ".blocked.org")
unfolding canonical_domain
blocked = below (text "blocked.org") refl (λ h. nonempty h) (inr (text "www", refl))
  where
    nonempty : text "blocked.org" ≢ []
    nonempty h = cc

force_socks5_domains-win_example :
    should_direct state [] 5 (ip4 8) (some (text "WWW.blocked.org")) ≡ (false, [])
force_socks5_domains-win_example =
    force_socks5_domains-win state refl socks5_patterns (text ".blocked.org")
      (text "WWW.blocked.org") [] 5 (ip4 8) refl refl blocked

home : PatternMatches (canonical_domain (text "Home.org")) (text "home.org")
unfolding canonical_domain
home = exactly refl (λ h. nonempty h) refl
  where
    nonempty : text "home.org" ≢ []
    nonempty h = cc

home_unforced :
    (other : Text)
    → contains socks5_patterns other ≡ true
    → ¬ PatternMatches (canonical_domain (text "Home.org")) other
unfolding compile matches_canonical canonical_domain walk_suffixes
home_unforced other m p =
    false≢true
      ((compile-matches_iff socks5_patterns (canonical_domain (text "Home.org"))).1 (other, m, p))

force_direct_domains-win_example :
    should_direct state [] 5 (ip4 9) (some (text "Home.org")) ≡ (true, [])
force_direct_domains-win_example =
    force_direct_domains-win state refl socks5_patterns direct_patterns (text "home.org")
      (text "Home.org") [] 5 (ip4 9) refl refl home_unforced refl home

abbrev no_patterns : DirectState
no_patterns = record state { force_socks5_domains = compile []; force_direct_domains = compile [] }

no_need : need_geosite_sniff no_patterns ≡ false
unfolding need_geosite_sniff compile set_is_empty
no_need = refl

need_geosite_sniff-sound_example :
    uncached no_patterns (ip4 8) (some (text "home.org")) ≡ uncached no_patterns (ip4 8) none
need_geosite_sniff-sound_example =
    need_geosite_sniff_sound no_patterns (ip4 8) (text "home.org") no_need

-- A network is its address and the length of its prefix.
abbrev nets : IpNets
nets = record {
  V4 = ℕ × ℕ;
  V6 = ℕ × ℕ;
  contains4 = λ net ip. ip / 2 ^ (32 - net.1) == net.0 / 2 ^ (32 - net.1);
  contains6 = λ net ip. ip / 2 ^ (128 - net.1) == net.0 / 2 ^ (128 - net.1);
  prefix_len4 = λ net. net.1;
  prefix_len6 = λ net. net.1;
}

abbrev lan : ClientCidrRoutes nets Text
lan = record {
  v4 = ((0x0a00_0000, 8), text "wide") ∷ ((0x0a00_0001, 32), text "one") ∷ [];
  v6 = [];
}

abbrev domains : ClientCidrRoutes nets DomainRouteTable
domains = record {
  v4 =
      ((0x0a00_0000, 8), record { exact = []; suffixes = (text "blocked.org", text "far") ∷ [] })
      ∷ [];
  v6 = [];
}

abbrev routes : AppRoutes nets
routes = record {
  client_routes = lan;
  client_domain_routes = domains;
  client_dst_ip_routes = new nets;
}

find_map_matching_longest_example :
    CidrOutcome nets lan
      (ip4 0x0a00_0001)
      some
      (find_map_matching nets (finalize nets lan) (ip4 0x0a00_0001) some)
find_map_matching_longest_example = find_map_matching_longest nets lan (ip4 0x0a00_0001) some

group_test :
    lookup_upstream_group nets
      (finalize_all nets routes)
      (ip4 0x0a00_0001)
      (ip4 8)
      (some (text "www.blocked.org"))
    ≡ text "far"
unfolding lookup_upstream_group finalize canonical_domain domain_matches_suffix
group_test = refl

lookup_upstream_group-Chosen_example :
    Chosen nets routes (ip4 0x0a00_0001) (ip4 8) (some (text "www.blocked.org")) (
      lookup_upstream_group nets
        (finalize_all nets routes)
        (ip4 0x0a00_0001)
        (ip4 8)
        (some (text "www.blocked.org")))
lookup_upstream_group-Chosen_example =
    lookup_upstream_group-Chosen nets routes (ip4 0x0a00_0001) (ip4 8)
      (some (text "www.blocked.org"))

-- A parser that knows one network.
abbrev parse_lan : Text → Option (IpNet nets)
parse_lan t = if eq t (text "10.0.0.0/8") then some (inl (0x0a00_0000, 8)) else none

abbrev clients_only : RouteConfig
clients_only = record {
  client_routes = (text "10.0.0.0/8", text "far") ∷ [];
  client_domain_routes = [];
  client_dst_ip_routes = [];
}

abbrev clients_only_routes : AppRoutes nets
clients_only_routes = record {
  client_routes = record { v4 = ((0x0a00_0000, 8), text "far") ∷ []; v6 = [] };
  client_domain_routes = record { v4 = []; v6 = [] };
  client_dst_ip_routes = record { v4 = []; v6 = [] };
}

clients_only_built : build_routes nets parse_lan clients_only ≡ some clients_only_routes
unfolding build_routes insert finalize
clients_only_built = refl

not_sniffed :
    need_upstream_domain_sniff nets clients_only_routes
      (not (is_empty clients_only.client_domain_routes))
      (ip4 0x0a00_0001)
    ≡ false
unfolding need_upstream_domain_sniff
not_sniffed = refl

need_upstream_domain_sniff-sound_example :
    lookup_upstream_group nets clients_only_routes
      (ip4 0x0a00_0001)
      (ip4 9)
      (some (text "www.blocked.org"))
    ≡ lookup_upstream_group nets clients_only_routes (ip4 0x0a00_0001) (ip4 9) none
need_upstream_domain_sniff-sound_example =
    need_upstream_domain_sniff_sound nets parse_lan clients_only clients_only_routes
      (ip4 0x0a00_0001) (ip4 9) (text "www.blocked.org") clients_only_built not_sniffed

-- With domain routes configured, a client in their network is sniffed, and another is not.
sniffed_test :
    (need_upstream_domain_sniff nets (finalize_all nets routes) true (ip4 0x0a00_0001) ≡ true)
    × (need_upstream_domain_sniff nets (finalize_all nets routes) true (ip4 8) ≡ false)
unfolding need_upstream_domain_sniff finalize
sniffed_test = (refl, refl)

abbrev upstreams : UpstreamCache ℕ
upstreams = record { ttl = 60; limit = 1; entries = [] }

get-cache_upstream_example :
    (get_cached_upstream
      (cache_upstream upstreams (ip4 1) (ip4 2) (some (text "a.org")) 7 10)
      (ip4 1)
      (ip4 2)
      (some (text "A.org."))
      30).0
    ≡ (if eq
          (upstream_key (ip4 1) (ip4 2) (some (text "a.org")))
          (upstream_key (ip4 1) (ip4 2) (some (text "A.org.")))
        then (if ltb (30 - 10) 60 then some 7 else none)
        else (get_cached_upstream upstreams (ip4 1) (ip4 2) (some (text "A.org.")) 30).0)
get-cache_upstream_example =
    get-cache_upstream upstreams (ip4 1) (ip4 2) (ip4 1) (ip4 2) (some (text "a.org"))
      (some (text "A.org.")) 7 10 30 tt (ground arith)
