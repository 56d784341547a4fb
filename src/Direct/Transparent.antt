-- ===== src/Direct/Transparent.antt =====
-- The cache of `should_direct` (src/state.rs) is transparent: it never changes an answer.
use mathlib.Core.Option
use xtp_rs.Prelude.{
  Bool, Bool-cases, List, Option, Text, UniqueKeys, [], ap, ap₂, arith, eq, eq_iff, false,
  if◌then◌else◌, inl, inr, keep_if, leb, length, list_eq, ltb, map, map_get, map_get-insert,
  map_get-remove, map_get-retain, map_insert, map_insert-UniqueKeys, map_remove,
  map_remove-UniqueKeys, map_retain, map_retain-UniqueKeys, nat_eq, none, option_eq, pair_eq, refl,
  some, sym, true, ℕ, ◌-◌, ◌==◌, ◌∙◌, ◌∷◌, ◌≡◌,
}
use xtp_rs.Routes.{IpAddr}
use xtp_rs.Direct.{
  DirectCache, DirectKey, DirectState, ProxyMode, bypass, decide_by_ip, decide_in, decide_smart,
  direct_cache_insert, domain_rules, finish, global, ip_eq, ip_rules, should_direct, smart,
  use_cached,
}
use xtp_rs.Domain.{canonical_domain}

abbrev pub by_rules : Option Bool → DirectState → IpAddr → Bool
by_rules (some b) s ip = b
by_rules none s ip = ip_rules s ip

abbrev pub by_mode : ProxyMode → DirectState → IpAddr → Option Text → Bool
by_mode global s ip name = false
by_mode bypass s ip name = true
by_mode smart s ip name = by_rules (domain_rules s name) s ip

-- The decision by the rules alone.
unfoldable pub uncached : DirectState → IpAddr → Option Text → Bool
uncached s ip name = by_mode s.proxy_mode s ip name

-- Every cached decision is that of the address rules.
pub record CacheSound (s : DirectState) (cache : DirectCache) : Type 0 where
  pub unique : UniqueKeys cache
  pub decided :
      (k : DirectKey) (b : Bool) (at : ℕ) → map_get cache k ≡ some (b, at) → b ≡ ip_rules s k.0

module _ (s : DirectState) where
  retain-CacheSound :
      (p : DirectKey → Bool × ℕ → Bool) (cache : DirectCache)
      → CacheSound s cache
      → CacheSound s (map_retain p cache)
  retain-CacheSound p cache c = record {
    unique = map_retain-UniqueKeys p cache c.unique;
    decided =
        λ k b at h. c.decided k b at (kept k b at (sym (map_get-retain p cache k c.unique) ∙ h));
  }
    where
      kept :
          (k : DirectKey) (b : Bool) (at : ℕ)
          → keep_if p k (map_get cache k) ≡ some (b, at)
          → map_get cache k ≡ some (b, at)
      kept k b at h = ground arith

  remove-CacheSound :
      (cache : DirectCache) (key : DirectKey)
      → CacheSound s cache
      → CacheSound s (map_remove cache key)
  remove-CacheSound cache key c = record {
    unique = map_remove-UniqueKeys cache key c.unique;
    decided = λ k b at h. c.decided k b at (still k b at (sym (map_get-remove cache key k) ∙ h));
  }
    where
      still :
          (k : DirectKey) (b : Bool) (at : ℕ)
          → (if eq key k then none else map_get cache k) ≡ some (b, at)
          → map_get cache k ≡ some (b, at)
      still k b at h = ground arith

  insert-CacheSound :
      (cache : DirectCache) (key : DirectKey) (now : ℕ)
      → CacheSound s cache
      → CacheSound s (map_insert cache key (ip_rules s key.0, now))
  insert-CacheSound cache key now c = record {
    unique = map_insert-UniqueKeys cache key (ip_rules s key.0, now) c.unique;
    decided =
        λ k b at h. found k b at (sym (map_get-insert cache key k (ip_rules s key.0, now)) ∙ h);
  }
    where
      found :
          (k : DirectKey) (b : Bool) (at : ℕ)
          → (if eq key k then some (ip_rules s key.0, now) else map_get cache k) ≡ some (b, at)
          → b ≡ ip_rules s k.0
      found k b at h = elim (Bool-cases (eq key k)) [
        | inl e ↦
            let q = (eq_iff key k).0 e in
            ground (arith, h, ap (λ (x : DirectKey). ip_rules s x.0) q)
        | inr n ↦ c.decided k b at (ground (arith, h))
      ]

  direct_cache_insert-CacheSound :
      (cache : DirectCache) (now : ℕ) (ip : IpAddr) (name : Option Text)
      → CacheSound s cache
      → CacheSound s (direct_cache_insert s cache now ip name (ip_rules s ip))
  unfolding direct_cache_insert
  direct_cache_insert-CacheSound cache now ip name c =
      insert-CacheSound _ (ip, name) now (kept (leb s.route_cache_max (length cache)))
    where
      fresh : DirectKey → Bool × ℕ → Bool
      fresh k v = ltb (now - v.1) s.route_cache_ttl

      kept : (full : Bool) → CacheSound s (if full then map_retain fresh cache else cache)
      kept true = retain-CacheSound fresh cache c
      kept false = c

  abbrev Answers : IpAddr → Option Text → Bool × DirectCache → Type 0
  Answers ip name r = (r.0 ≡ uncached s ip name) × CacheSound s r.1

  finish-lem :
      (cache : DirectCache) (now : ℕ) (ip : IpAddr) (name : Option Text) (found : Option (Bool × ℕ))
      → CacheSound s cache
      → map_get cache (ip, name) ≡ found
      → let r = finish s now ip name (use_cached s cache now (ip, name) found) in
        (r.0 ≡ ip_rules s ip) × CacheSound s r.1
  finish-lem cache now ip name none c h = (refl, direct_cache_insert-CacheSound cache now ip name c)
  finish-lem cache now ip name (some (b, at)) c h =
      elim (Bool-cases (ltb (now - at) s.route_cache_ttl)) [
        | inl t ↦ rw t (c.decided (ip, name) b at h, c)
        | inr f ↦ rw f (
          refl,
          direct_cache_insert-CacheSound (map_remove cache (ip, name)) now ip name
              (remove-CacheSound cache (ip, name) c),
        )
      ]

  decide_by_ip-lem :
      (cache : DirectCache) (now : ℕ) (ip : IpAddr) (name : Option Text)
      → CacheSound s cache
      → let r = decide_by_ip s cache now ip name in (r.0 ≡ ip_rules s ip) × CacheSound s r.1
  unfolding decide_by_ip
  decide_by_ip-lem cache now ip name c = elim (Bool-cases (s.route_cache_ttl == 0)) [
    | inl t ↦ rw t (refl, c)
    | inr f ↦ rw f (
        finish-lem cache now ip (Option.map canonical_domain name)
          (map_get cache (ip, Option.map canonical_domain name)) c refl)
  ]

  decide_smart-lem :
      (cache : DirectCache) (now : ℕ) (ip : IpAddr) (name : Option Text) (o : Option Bool)
      → CacheSound s cache
      → let r = decide_smart s cache now ip name o in (r.0 ≡ by_rules o s ip) × CacheSound s r.1
  decide_smart-lem cache now ip name (some b) c = (refl, c)
  decide_smart-lem cache now ip name none c = decide_by_ip-lem cache now ip name c

  decide_in-lem :
      (m : ProxyMode) (cache : DirectCache) (now : ℕ) (ip : IpAddr) (name : Option Text)
      → CacheSound s cache
      → let r = decide_in m s cache now ip name in (r.0 ≡ by_mode m s ip name) × CacheSound s r.1
  decide_in-lem global cache now ip name c = (refl, c)
  decide_in-lem bypass cache now ip name c = (refl, c)
  decide_in-lem smart cache now ip name c =
      decide_smart-lem cache now ip name (domain_rules s name) c

  -- A call gives the decision of the rules alone, whatever the time, and leaves a sound cache.
  pub should_direct-uncached :
      (cache : DirectCache) (now : ℕ) (ip : IpAddr) (name : Option Text)
      → CacheSound s cache
      → ((should_direct s cache now ip name).0 ≡ uncached s ip name)
        × CacheSound s (should_direct s cache now ip name).1
  unfolding uncached
  should_direct-uncached cache now ip name c =
      unfold should_direct in decide_in-lem s.proxy_mode cache now ip name c

  -- A run of calls, each at its own time, address and domain.
  unfoldable pub run_queries : DirectCache → List (ℕ × IpAddr × Option Text) → List Bool
  run_queries cache [] = []
  run_queries cache ((now, ip, name) ∷ rest) =
      let r = should_direct s cache now ip name in r.0 ∷ run_queries r.1 rest

  run_queries-lem :
      (cache : DirectCache) (queries : List (ℕ × IpAddr × Option Text))
      → CacheSound s cache
      → run_queries cache queries
        ≡ map (λ (q : ℕ × IpAddr × Option Text). uncached s q.1 q.2) queries
  unfolding run_queries
  run_queries-lem cache [] c = refl
  run_queries-lem cache ((now, ip, name) ∷ rest) c =
      let call = should_direct-uncached cache now ip name c in
      ap₂ (λ b l. b ∷ l) call.0 (run_queries-lem (should_direct s cache now ip name).1 rest call.1)

  -- From the empty cache, any sequence of calls at any times is answered as if there were no cache.
  pub should_direct_transparent :
      (queries : List (ℕ × IpAddr × Option Text))
      → run_queries [] queries ≡ map (λ (q : ℕ × IpAddr × Option Text). uncached s q.1 q.2) queries
  should_direct_transparent queries =
      run_queries-lem [] queries
        (unfold map_get in record { unique = tt; decided = λ k b at h. absurd (none-ne-some h) })
    where
      none-ne-some : {x : Bool × ℕ} → none ≡ some x → ⊥
      none-ne-some h = cc
