-- ===== src/Routes.antt =====
-- The routing tables of src/state.rs that pick an upstream group: `DomainRouteTable`,
-- `ClientCidrRoutes` and `AppState::lookup_upstream_group`. The networks are the `ipnet` crate's: a
-- parameter.
pub mod Ranked
pub mod Build
pub mod Sorting
pub mod LongestPrefix
pub mod Priority
pub mod Sniffing
use mathlib.Core.Option
use xtp_rs.Prelude.{
  Bool, List, Option, Text, [], inl, inr, list_eq, nat_eq, none, option_eq, some, text, ℕ, ◌&&◌,
  ◌++◌, ◌∷◌, ◌⊎◌,
}
use xtp_rs.Domain.{canonical_domain, domain_matches_suffix}
use xtp_rs.Geosite.{get_tag}
use xtp_rs.Routes.Ranked.{find_entry, find_map_entries, is_some, or_default, or_else, sort_by_rank}

-- An address is its number.
pub data IpAddr : Type 0 where
  ip4 ip6 : ℕ → IpAddr

-- `Ipv4Net` and `Ipv6Net`, with `contains` and `prefix_len`.
pub record IpNets : Type 1 where
  pub V4 : Type 0
  pub V6 : Type 0
  pub contains4 : V4 → ℕ → Bool
  pub contains6 : V6 → ℕ → Bool
  pub prefix_len4 : V4 → ℕ
  pub prefix_len6 : V6 → ℕ

pub record DomainRouteTable : Type 0 where
  pub exact : List (Text × Text)
  pub suffixes : List (Text × Text)

-- `DomainRouteTable::lookup`
unfoldable pub lookup_domain : DomainRouteTable → Text → Option Text
unfolding get_tag find_map_entries
lookup_domain t name =
    let d = canonical_domain name in
    or_else (get_tag t.exact d) (find_map_entries (domain_matches_suffix d) some t.suffixes)

module _ (nets : IpNets) where
  open nets use {V4, V6, contains4, contains6, prefix_len4, prefix_len6}

  abbrev pub IpNet : Type 0
  IpNet = V4 ⊎ V6

  pub record ClientCidrRoutes (T : Type 0) : Type 0 where
    pub v4 : List (V4 × T)
    pub v6 : List (V6 × T)

  module _ {T : Type 0} where
    abbrev pub new : ClientCidrRoutes T
    new = record { v4 = []; v6 = [] }

    -- Vec::push puts the entry at the end.
    unfoldable pub insert : ClientCidrRoutes T → IpNet → T → ClientCidrRoutes T
    insert r (inl net) value = record r { v4 = r.v4 ++ (net, value) ∷ [] }
    insert r (inr net) value = record r { v6 = r.v6 ++ (net, value) ∷ [] }

    unfoldable pub finalize : ClientCidrRoutes T → ClientCidrRoutes T
    unfolding sort_by_rank
    finalize r = record { v4 = sort_by_rank prefix_len4 r.v4; v6 = sort_by_rank prefix_len6 r.v6 }

    unfoldable pub find_map_matching :
        {R : Type 0} → ClientCidrRoutes T → IpAddr → (T → Option R) → Option R
    unfolding find_map_entries
    find_map_matching r (ip4 ip) f = find_map_entries (λ net. contains4 net ip) f r.v4
    find_map_matching r (ip6 ip) f = find_map_entries (λ net. contains6 net ip) f r.v6

    unfoldable pub lookup : ClientCidrRoutes T → IpAddr → Option T
    unfolding find_entry
    lookup r (ip4 ip) = find_entry (λ net. contains4 net ip) r.v4
    lookup r (ip6 ip) = find_entry (λ net. contains6 net ip) r.v6

  -- The three tables of `AppRuntime`.
  pub record AppRoutes : Type 0 where
    pub client_routes : ClientCidrRoutes Text
    pub client_domain_routes : ClientCidrRoutes DomainRouteTable
    pub client_dst_ip_routes : ClientCidrRoutes (ClientCidrRoutes Text)

  unfoldable pub lookup_upstream_group : AppRoutes → IpAddr → IpAddr → Option Text → Text
  unfolding lookup find_map_matching lookup_domain
  lookup_upstream_group r client_ip dst_ip name =
      elim (find_map_matching r.client_dst_ip_routes client_ip (λ t. lookup t dst_ip)) [
        | some group ↦ group
        | none ↦ elim name [
          | some d ↦ or_default (text "default") (
              or_else (find_map_matching r.client_domain_routes client_ip (λ t. lookup_domain t d))
                (lookup r.client_routes client_ip))
          | none ↦ or_default (text "default") (lookup r.client_routes client_ip)
        ]
      ]

  -- `need_upstream_domain_sniff`, where `configured` says that the configuration has such routes
  unfoldable pub need_upstream_domain_sniff : AppRoutes → Bool → IpAddr → Bool
  unfolding lookup
  need_upstream_domain_sniff r configured client_ip =
      configured && is_some (lookup r.client_domain_routes client_ip)
