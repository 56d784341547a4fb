-- ===== src/UpstreamCache.antt =====
-- The cache of chosen upstreams of src/state.rs: `get_cached_upstream`, `cache_upstream` and
-- `remove_cached_upstream`. An upstream is named by a value of any type; each call happens at one
-- instant `now`.
use mathlib.Core.Option
use xtp_rs.Prelude.{
  Bool, Bool-cases, List, Option, Text, UniqueKeys, arith, eq, false, if◌then◌else◌, inl, inr,
  keep_if, leb, length, list_eq, ltb, map_get, map_get-insert, map_get-retain, map_insert,
  map_insert-UniqueKeys, map_remove, map_retain, map_retain-UniqueKeys, nat_eq, none, option_eq,
  pair_eq, refl, some, true, ℕ, ◌-◌, ◌==◌, ◌≡◌, ◌≤◌,
}
use xtp_rs.Domain.{canonical_domain}
use xtp_rs.Routes.{IpAddr}
use xtp_rs.Direct.{ip_eq}

abbrev pub UpstreamKey : Type 0
UpstreamKey = IpAddr × (IpAddr × Option Text)

abbrev pub upstream_key : IpAddr → IpAddr → Option Text → UpstreamKey
upstream_key client target name = (client, (target, Option.map canonical_domain name))

pub record UpstreamCache (U : Type 0) : Type 0 where
  pub ttl : ℕ
  pub limit : ℕ
  pub entries : List (UpstreamKey × (U × ℕ))

module _ {U : Type 0} where
  -- A fresh entry is returned, an expired one is removed.
  abbrev pub read_entry :
      UpstreamCache U → UpstreamKey → ℕ → Option (U × ℕ) → Option U × UpstreamCache U
  read_entry c key now none = (none, c)
  read_entry c key now (some (up, at)) =
      if ltb (now - at) c.ttl
      then (some up, c)
      else (none, record c { entries = map_remove c.entries key })

  unfoldable pub get_cached_upstream :
      UpstreamCache U → IpAddr → IpAddr → Option Text → ℕ → Option U × UpstreamCache U
  get_cached_upstream c client target name now =
      if c.ttl == 0
      then (none, c)
      else read_entry c (upstream_key client target name) now
          (map_get c.entries (upstream_key client target name))

  unfoldable pub cache_upstream :
      UpstreamCache U → IpAddr → IpAddr → Option Text → U → ℕ → UpstreamCache U
  cache_upstream c client target name up now =
      if c.ttl == 0
      then c
      else let kept =
          (if leb c.limit (length c.entries)
            then map_retain (λ k v. ltb (now - v.1) c.ttl) c.entries
            else c.entries) in
        record c { entries = map_insert kept (upstream_key client target name) (up, now) }

  unfoldable pub remove_cached_upstream :
      UpstreamCache U → IpAddr → IpAddr → Option Text → UpstreamCache U
  remove_cached_upstream c client target name = record c {
    entries = map_remove c.entries (upstream_key client target name);
  }

  -- What a reader sees under a key at an instant.
  abbrev visible : ℕ → ℕ → Option (U × ℕ) → Option U
  visible ttl now none = none
  visible ttl now (some (up, at)) = if ltb (now - at) ttl then some up else none

  view : UpstreamCache U → UpstreamKey → ℕ → Option U
  view c key now = if c.ttl == 0 then none else visible c.ttl now (map_get c.entries key)

  get-eq_view :
      (c : UpstreamCache U) (client target : IpAddr) (name : Option Text) (now : ℕ)
      → (get_cached_upstream c client target name now).0
        ≡ view c (upstream_key client target name) now
  unfolding get_cached_upstream view
  get-eq_view c client target name now = found (map_get c.entries (upstream_key client target name))
    where
      found :
          (o : Option (U × ℕ))
          → (if c.ttl == 0
              then (none, c)
              else read_entry c (upstream_key client target name) now o).0
            ≡ (if c.ttl == 0 then none else visible c.ttl now o)
      found none = ground arith
      found (some (up, at)) = ground arith

  -- An entry that has expired now stays expired.
  visible-retain :
      (ttl now later : ℕ) (key : UpstreamKey) (o : Option (U × ℕ))
      → now ≤ later
      → visible ttl later (keep_if (λ k v. ltb (now - v.1) ttl) key o) ≡ visible ttl later o
  visible-retain ttl now later key none h = refl
  visible-retain ttl now later key (some (up, at)) h = ground arith

  kept-visible :
      (c : UpstreamCache U) (key : UpstreamKey) (now later : ℕ) (full : Bool)
      → UniqueKeys c.entries
      → now ≤ later
      → visible c.ttl later (
          map_get
            (if full then map_retain (λ k v. ltb (now - v.1) c.ttl) c.entries else c.entries)
            key)
        ≡ visible c.ttl later (map_get c.entries key)
  kept-visible c key now later false u h = refl
  kept-visible c key now later true u h =
      rw (map_get-retain (λ k v. ltb (now - v.1) c.ttl) c.entries key u)
        (visible-retain c.ttl now later key (map_get c.entries key) h)

  view-cache :
      (c : UpstreamCache U) (client target : IpAddr) (name : Option Text) (up : U) (now later : ℕ)
      (key : UpstreamKey)
      → UniqueKeys c.entries
      → now ≤ later
      → view (cache_upstream c client target name up now) key later ≡ (
          if eq (upstream_key client target name) key
          then (if ltb (later - now) c.ttl then some up else none)
          else view c key later)
  unfolding view cache_upstream
  view-cache c client target name up now later key u h = elim (Bool-cases (c.ttl == 0)) [
    | inl z ↦ ground arith
    | inr nz ↦ ground (
      arith,
      kept-visible c key now later (leb c.limit (length c.entries)) u h,
      map_get-insert
          (if leb c.limit (length c.entries)
            then map_retain (λ k v. ltb (now - v.1) c.ttl) c.entries
            else c.entries)
          (upstream_key client target name) key (up, now),
    )
  ]

  -- After an upstream is cached, every later read gives it under its own client, target and
  -- canonical domain until its time is up, and what it would have given before under any other:
  -- dropping expired entries from a full cache is never seen.
  pub get-cache_upstream :
      (c : UpstreamCache U) (client target client' target' : IpAddr) (name name' : Option Text)
      (up : U) (now later : ℕ)
      → UniqueKeys c.entries
      → now ≤ later
      → (get_cached_upstream
          (cache_upstream c client target name up now)
          client'
          target'
          name'
          later).0
        ≡ (if eq (upstream_key client target name) (upstream_key client' target' name')
            then (if ltb (later - now) c.ttl then some up else none)
            else (get_cached_upstream c client' target' name' later).0)
  get-cache_upstream c client target client' target' name name' up now later u h =
      rw
        (
          get-eq_view (cache_upstream c client target name up now) client' target' name' later,
          get-eq_view c client' target' name' later,
        )
        (view-cache c client target name up now later (upstream_key client' target' name') u h)

  -- Caching, reading and removing keep one entry for each key.
  pub cache_upstream-UniqueKeys :
      (c : UpstreamCache U) (client target : IpAddr) (name : Option Text) (up : U) (now : ℕ)
      → UniqueKeys c.entries
      → UniqueKeys (cache_upstream c client target name up now).entries
  unfolding cache_upstream
  cache_upstream-UniqueKeys c client target name up now u = elim (Bool-cases (c.ttl == 0)) [
    | inl z ↦ rw z u
    | inr nz ↦ rw nz (
        map_insert-UniqueKeys _ (upstream_key client target name) (up, now)
          (kept (leb c.limit (length c.entries))))
  ]
    where
      kept :
          (full : Bool)
          → UniqueKeys
              (if full then map_retain (λ k v. ltb (now - v.1) c.ttl) c.entries else c.entries)
      kept true = map_retain-UniqueKeys (λ k v. ltb (now - v.1) c.ttl) c.entries u
      kept false = u
