-- ===== src/Routes/Priority.antt =====
-- Which of the three tables decides in `lookup_upstream_group` of src/state.rs.
use xtp_rs.Prelude.{
  Option, Text, arith, list_eq, nat_eq, none, option_eq, pair_eq, refl, some, text, ◌≡◌,
}
use xtp_rs.Routes.{
  AppRoutes, IpAddr, IpNets, finalize, find_map_matching, lookup, lookup_domain,
  lookup_upstream_group,
}
use xtp_rs.Routes.LongestPrefix.{CidrOutcome, find_map_matching_longest, lookup_longest}
use xtp_rs.Routes.Ranked.{or_default, or_else}

module _ (nets : IpNets) where
  -- The tables as `AppState::build` leaves them, each finalized.
  abbrev pub finalize_all : AppRoutes nets → AppRoutes nets
  finalize_all r = record {
    client_routes = finalize nets r.client_routes;
    client_domain_routes = finalize nets r.client_domain_routes;
    client_dst_ip_routes = finalize nets r.client_dst_ip_routes;
  }

  module _ (r : AppRoutes nets) (client dst : IpAddr) (name : Option Text) where
    -- What the destination tables say, and what the domain tables say (nothing without a domain).
    abbrev pub DstSays : Option Text → Type 0
    DstSays = CidrOutcome nets r.client_dst_ip_routes client (λ t. lookup nets t dst)

    abbrev pub DomainSays : Option Text → Option Text → Type 0
    DomainSays none o = o ≡ none
    DomainSays (some d) o =
        CidrOutcome nets r.client_domain_routes client (λ t. lookup_domain t d) o

    abbrev pub ClientSays : Option Text → Type 0
    ClientSays = CidrOutcome nets r.client_routes client some

    -- The documented priority: destination, then domain, then client, then "default".
    pub data Chosen : Text → Type 0 where
      by_dst : {g : Text} → DstSays (some g) → Chosen g
      by_domain : {g : Text} → DstSays none → DomainSays name (some g) → Chosen g
      by_client : {g : Text} → DstSays none → DomainSays name none → ClientSays (some g) → Chosen g
      by_default :
          {g : Text}
          → DstSays none
          → DomainSays name none
          → ClientSays none
          → g ≡ text "default"
          → Chosen g

  module _ (r : AppRoutes nets) (client dst : IpAddr) where
    dst_found : Option Text
    dst_found =
        find_map_matching nets (finalize nets r.client_dst_ip_routes) client
          (λ t. lookup nets t dst)

    domain_found : Option Text → Option Text
    domain_found none = none
    domain_found (some d) =
        find_map_matching nets (finalize nets r.client_domain_routes) client
          (λ t. lookup_domain t d)

    client_found : Option Text
    client_found = lookup nets (finalize nets r.client_routes) client

    domain_found-DomainSays :
        (name : Option Text) → DomainSays r client dst name name (domain_found name)
    unfolding domain_found
    domain_found-DomainSays none = refl
    domain_found-DomainSays (some d) =
        find_map_matching_longest nets r.client_domain_routes client (λ t. lookup_domain t d)

    by_priority :
        (name o p q : Option Text)
        → DstSays r client dst name o
        → DomainSays r client dst name name p
        → ClientSays r client dst name q
        → Chosen r client dst name (or_default (text "default") (or_else o (or_else p q)))
    by_priority name (some g) p q d m c = by_dst d
    by_priority name none (some g) q d m c = by_domain d m
    by_priority name none none (some g) d m c = by_client d m c
    by_priority name none none none d m c = by_default d m c refl

    lookup_upstream_group-eq :
        (name : Option Text)
        → lookup_upstream_group nets (finalize_all r) client dst name
          ≡ or_default
              (text "default")
              (or_else dst_found (or_else (domain_found name) client_found))
    unfolding lookup_upstream_group dst_found domain_found client_found
    lookup_upstream_group-eq none = ground arith
    lookup_upstream_group-eq (some d) = ground arith

    -- The group comes from the first of the three tables that has one, each read by longest prefix,
    -- and is "default" if none has.
    pub lookup_upstream_group-Chosen :
        (name : Option Text)
        → Chosen r client dst name (lookup_upstream_group nets (finalize_all r) client dst name)
    lookup_upstream_group-Chosen name = rw (lookup_upstream_group-eq name) (
        by_priority name dst_found (domain_found name) client_found dst_says
          (domain_found-DomainSays name) client_says)
      where
        client_says : ClientSays r client dst name client_found
        client_says = unfold client_found in lookup_longest nets r.client_routes client

        dst_says : DstSays r client dst name dst_found
        dst_says =
            unfold dst_found in
            find_map_matching_longest nets r.client_dst_ip_routes client (λ t. lookup nets t dst)
