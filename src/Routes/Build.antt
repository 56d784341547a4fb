-- ===== src/Routes/Build.antt =====
-- The construction of the routing tables in `AppState::build` of src/state.rs. The parser of
-- networks and addresses is a parameter, and a table of the configuration (a `HashMap`) is the list
-- of its entries in the order in which it is walked.
use xtp_rs.Prelude.{
  List, Option, Text, [], if◌then◌else◌, is_empty, length, none, some, ◌++◌, ◌==◌, ◌∷◌,
}
use xtp_rs.Domain.{canonical_domain, dot}
use xtp_rs.Routes.{
  AppRoutes, ClientCidrRoutes, DomainRouteTable, IpNet, IpNets, finalize, insert, new,
}
use xtp_rs.Routes.Ranked.{sort_by_rank}

infixl 5 ◌>>=◌
abbrev pub ◌>>=◌ : {A B : Type 0} → Option A → (A → Option B) → Option B
some a >>= f = f a
none >>= f = none

abbrev pub strip_dot : Text → Option Text
strip_dot [] = none
strip_dot (c ∷ cs) = if c == dot then some cs else none

-- One entry of `client_domain_routes`: an empty pattern is an error.
abbrev pub add_exact_route : Text → Text → DomainRouteTable → Option DomainRouteTable
add_exact_route norm group t =
    if is_empty norm then none else some (record t { exact = (norm, group) ∷ t.exact })

abbrev pub add_suffix_route : Text → Text → DomainRouteTable → Option DomainRouteTable
add_suffix_route norm group t =
    if is_empty norm then none else some (record t { suffixes = t.suffixes ++ (norm, group) ∷ [] })

abbrev pub add_domain_route : Text → Text → DomainRouteTable → Option DomainRouteTable
add_domain_route key group t = elim (strip_dot key) [
  | some stripped ↦ add_suffix_route (canonical_domain stripped) group t
  | none ↦ add_exact_route (canonical_domain key) group t
]

unfoldable pub add_domain_routes : List (Text × Text) → DomainRouteTable → Option DomainRouteTable
add_domain_routes [] t = some t
add_domain_routes ((key, group) ∷ rest) t = do
  t' ← add_domain_route key group t
  add_domain_routes rest t'

-- Longest suffix first.
abbrev pub sort_suffixes : DomainRouteTable → DomainRouteTable
sort_suffixes t = record t { suffixes = sort_by_rank length t.suffixes }

unfoldable pub build_domain_table : List (Text × Text) → Option DomainRouteTable
unfolding add_domain_routes sort_by_rank
build_domain_table domain_map = do
  t ← add_domain_routes domain_map (record { exact = []; suffixes = [] })
  some (sort_suffixes t)

-- The routing part of `Config`.
pub record RouteConfig : Type 0 where
  pub client_routes : List (Text × Text)
  pub client_domain_routes : List (Text × List (Text × Text))
  pub client_dst_ip_routes : List (Text × List (Text × Text))

module _ (nets : IpNets) (parse_ip_or_cidr : Text → Option (IpNet nets)) where
  unfoldable pub insert_all :
      {A T : Type 0}
      → (A → Option T)
      → List (Text × A)
      → ClientCidrRoutes nets T
      → Option (ClientCidrRoutes nets T)
  insert_all value [] r = some r
  insert_all value ((ip_str, a) ∷ rest) r = do
    net ← parse_ip_or_cidr ip_str
    v ← value a
    insert_all value rest (insert nets r net v)

  unfoldable pub build_table :
      {A T : Type 0} → (A → Option T) → List (Text × A) → Option (ClientCidrRoutes nets T)
  unfolding insert_all
  build_table value entries = do r ← insert_all value entries (new nets); some (finalize nets r)

  unfoldable pub build_routes : RouteConfig → Option (AppRoutes nets)
  unfolding build_table build_domain_table
  build_routes c = do
    client ← build_table some c.client_routes
    domains ← build_table build_domain_table c.client_domain_routes
    dsts ← build_table (build_table some) c.client_dst_ip_routes
    some (record {
      client_routes = client;
      client_domain_routes = domains;
      client_dst_ip_routes = dsts;
    })
