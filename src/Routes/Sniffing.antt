-- ===== src/Routes/Sniffing.antt =====
-- When sniffing a domain cannot change the upstream group (`need_upstream_domain_sniff` of
-- src/state.rs), for the tables that `AppState::build` makes of a configuration.
use xtp_rs.Prelude.{
  Bool, List, Option, Option-cases, Text, [], arith, false, inl, inr, is_empty, list_eq, nat_eq,
  none, not, option_eq, pair_eq, refl, some, subst, ◌&&◌, ◌∷◌, ◌≡◌,
}
use xtp_rs.Routes.{
  AppRoutes, ClientCidrRoutes, DomainRouteTable, IpAddr, IpNet, IpNets, finalize, find_map_matching,
  ip4, ip6, lookup, lookup_domain, lookup_upstream_group, need_upstream_domain_sniff, new,
}
use xtp_rs.Routes.Build.{RouteConfig, build_domain_table, build_routes, build_table, insert_all}
use xtp_rs.Routes.Ranked.{find_entry, find_map_entries, is_some, sort_by_rank}

find_map_entries-none :
    {N T R : Type 0} (holds : N → Bool) (f : T → Option R) (es : List (N × T))
    → find_entry holds es ≡ none
    → find_map_entries holds f es ≡ none
unfolding find_entry find_map_entries
find_map_entries-none holds f [] h = refl
find_map_entries-none holds f ((n, v) ∷ es) h = ground (arith, find_map_entries-none holds f es)

module _ (nets : IpNets) where
  find_map_matching-none :
      {T R : Type 0} (r : ClientCidrRoutes nets T) (ip : IpAddr) (f : T → Option R)
      → lookup nets r ip ≡ none
      → find_map_matching nets r ip f ≡ none
  unfolding lookup find_map_matching
  find_map_matching-none r (ip4 ip) f h =
      find_map_entries-none (λ net. nets.contains4 net ip) f r.v4 h
  find_map_matching-none r (ip6 ip) f h =
      find_map_entries-none (λ net. nets.contains6 net ip) f r.v6 h

  missing-new :
      {T : Type 0} (client : IpAddr) → lookup nets {T = T} (finalize nets (new nets)) client ≡ none
  unfolding lookup finalize sort_by_rank find_entry
  missing-new (ip4 ip) = refl
  missing-new (ip6 ip) = refl

  module _ (parse_ip_or_cidr : Text → Option (IpNet nets)) where
    -- The domain tables are made of the entries of `client_domain_routes` and nothing else.
    build_routes-domains :
        (c : RouteConfig) (r : AppRoutes nets)
        → build_routes nets parse_ip_or_cidr c ≡ some r
        → build_table nets parse_ip_or_cidr build_domain_table c.client_domain_routes
          ≡ some r.client_domain_routes
    unfolding build_routes
    build_routes-domains c r h =
        elim (Option-cases (build_table nets parse_ip_or_cidr some c.client_routes)) [
          | inl e ↦ ground (arith, h, e)
          | inr (client, e) ↦
              elim (Option-cases
                (build_table nets parse_ip_or_cidr build_domain_table c.client_domain_routes)) [
                  | inl f ↦ ground (arith, h, e, f)
                  | inr (domains, f) ↦
                      elim (Option-cases (
                        build_table nets parse_ip_or_cidr (build_table nets parse_ip_or_cidr some)
                          c.client_dst_ip_routes)) [
                            | inl g ↦ ground (arith, h, e, f, g)
                            | inr (dsts, g) ↦ ground (arith, h, e, f, g)
                          ]
                ]
        ]

    -- Without entries of `client_domain_routes` no client has a domain table.
    missing-unconfigured :
        (entries : List (Text × List (Text × Text))) (t : ClientCidrRoutes nets DomainRouteTable)
        (client : IpAddr)
        → build_table nets parse_ip_or_cidr build_domain_table entries ≡ some t
        → (not (is_empty entries) && is_some (lookup nets t client)) ≡ false
        → lookup nets t client ≡ none
    unfolding build_table insert_all
    missing-unconfigured [] t client built h =
        let same : finalize nets (new nets) ≡ t = cc in
        subst (λ o. lookup nets o client ≡ none) same (missing-new client)
    missing-unconfigured (e ∷ entries) t client built h = ground (arith, h)

    -- For the tables built of any configuration, an empty one included: where the program decides
    -- that no domain has to be sniffed for the upstream, no domain would have changed the group.
    pub need_upstream_domain_sniff_sound :
        (c : RouteConfig) (r : AppRoutes nets) (client dst : IpAddr) (d : Text)
        → build_routes nets parse_ip_or_cidr c ≡ some r
        → need_upstream_domain_sniff nets r (not (is_empty c.client_domain_routes)) client ≡ false
        → lookup_upstream_group nets r client dst (some d)
          ≡ lookup_upstream_group nets r client dst none
    unfolding need_upstream_domain_sniff lookup_upstream_group
    need_upstream_domain_sniff_sound c r client dst d built h = ground (
      arith,
      find_map_matching-none r.client_domain_routes client (λ t. lookup_domain t d)
          (missing-unconfigured c.client_domain_routes r.client_domain_routes client
            (build_routes-domains c r built) h),
    )
