-- ===== src/Udp/Pending/Oldest.antt =====
-- `enforce_pending_udp_sniff_capacity` of src/udp/pending.rs: the oldest entries leave a map that is
-- too large, and no more of them than have to.
use xtp_rs.Prelude.{
  Bool-cases, UniqueKeys, arith, eq, eq_iff, inl, inr, length, length-map_remove, list_eq, map_get,
  map_get-remove, map_remove, map_remove-UniqueKeys, min, nat_eq, none, option_eq, pair_eq, some,
  subst, suc, sym, zero, ℕ, ◌+◌, ◌≡◌, ◌≤◌,
}
use xtp_rs.Direct.{ip_eq}
use xtp_rs.Udp.{UdpSessionKey, addr_eq, key_eq, kind_eq}
use xtp_rs.Udp.Pending.{
  PendingSniffMap, PendingUdpSniff, enforce_loop, enforce_pending_udp_sniff_capacity,
  udp_sniff_max_pending_sessions,
}
use xtp_rs.Udp.Pending.Capacity.{
  enforce_loop-cases, enforce_loop-keeps, oldest_entry-found, oldest_entry-get, oldest_entry-least,
}

module _ {S : Type 0} where
  -- A dropped entry of `m` is no younger than one that `m'` has kept.
  abbrev pub DropsOldest : PendingSniffMap S → PendingSniffMap S → Type 0
  DropsOldest m m' =
      (j k : UdpSessionKey) (p q : PendingUdpSniff S)
      → map_get m j ≡ some p
      → map_get m' j ≡ none
      → map_get m' k ≡ some q
      → p.deadline ≤ q.deadline

  -- What an entry of a map after removals was before them.
  abbrev pub Smaller : PendingSniffMap S → PendingSniffMap S → Type 0
  Smaller m m' =
      (k : UdpSessionKey) (q : PendingUdpSniff S) → map_get m' k ≡ some q → map_get m k ≡ some q

  pub map_remove-Smaller : (m : PendingSniffMap S) (k : UdpSessionKey) → Smaller m (map_remove m k)
  map_remove-Smaller m k j q h = elim (Bool-cases (eq k j)) [
    | inl t ↦ ground (arith, h, t, map_get-remove m k j)
    | inr f ↦ ground (arith, h, f, map_get-remove m k j)
  ]

  enforce_loop-Smaller : (n : ℕ) (m : PendingSniffMap S) → Smaller m (enforce_loop n m)
  enforce_loop-Smaller n m =
      enforce_loop-keeps (Smaller m) (λ m' j small k q h. small k q (map_remove-Smaller m' j k q h))
        n m (λ k q h. h)

  enforce_loop-DropsOldest :
      (n : ℕ) (m : PendingSniffMap S) → UniqueKeys m → DropsOldest m (enforce_loop n m)
  enforce_loop-DropsOldest zero m u j k p q at gone kept = unfold enforce_loop in cc
  enforce_loop-DropsOldest (suc n) m u j k p q at gone kept = elim (enforce_loop-cases n m) [
    | inl (stop, few) ↦ cc
    | inr (e, old, over, next) ↦
        let gone' : map_get (enforce_loop n (map_remove m e.0)) j ≡ none = rw (sym next) gone in
        let kept' : map_get (enforce_loop n (map_remove m e.0)) k ≡ some q = rw (sym next) kept in
        let before : map_get m k ≡ some q =
          map_remove-Smaller m e.0 k q (enforce_loop-Smaller n (map_remove m e.0) k q kept') in
        elim (Bool-cases (eq e.0 j)) [
          | inl t ↦
              let same : map_get m j ≡ some e.1 =
                subst (λ x. map_get m x ≡ some e.1) ((eq_iff e.0 j).0 t)
                  (oldest_entry-get m e u old) in
              let dropped : p ≡ e.1 = cc in rw dropped (oldest_entry-least m e k q old before)
          | inr f ↦
              enforce_loop-DropsOldest n (map_remove m e.0) (map_remove-UniqueKeys m e.0 u) j k p q
                (ground (arith, f, at, map_get-remove m e.0 j)) gone' kept'
        ]
  ]

  -- One entry leaves a round, until 4096 are left.
  enforce_loop-size :
      (n : ℕ) (m : PendingSniffMap S)
      → UniqueKeys m
      → length m ≤ n + udp_sniff_max_pending_sessions
      → length (enforce_loop n m) ≡ min (length m) udp_sniff_max_pending_sessions
  enforce_loop-size zero m u h = unfold enforce_loop in omega (arith, h)
  enforce_loop-size (suc n) m u h = elim (enforce_loop-cases n m) [
    | inl (stop, few) ↦ rw stop (omega (arith, few))
    | inr (e, old, over, next) ↦
        let shorter = length-map_remove m e.0 u (oldest_entry-found m e old) in
        let rest =
          enforce_loop-size n (map_remove m e.0) (map_remove-UniqueKeys m e.0 u)
            (omega (arith, shorter, h)) in
        rw next (omega (arith, rest, shorter, over))
  ]

  -- From a map with one entry for each key: of more than 4096 entries as many leave as are too many,
  -- and of fewer none; what leaves is no younger than anything that stays, and what stays is what it
  -- was, once for each key.
  pub enforce-DropsOldest :
      (m : PendingSniffMap S)
      → UniqueKeys m
      → UniqueKeys (enforce_pending_udp_sniff_capacity m)
        × DropsOldest m (enforce_pending_udp_sniff_capacity m)
        × Smaller m (enforce_pending_udp_sniff_capacity m)
        × (length (enforce_pending_udp_sniff_capacity m)
            ≡ min (length m) udp_sniff_max_pending_sessions)
  unfolding enforce_pending_udp_sniff_capacity
  enforce-DropsOldest m u = (
    enforce_loop-keeps UniqueKeys (λ m' k unique. map_remove-UniqueKeys m' k unique) (length m) m u,
    enforce_loop-DropsOldest (length m) m u,
    enforce_loop-Smaller (length m) m,
    enforce_loop-size (length m) m u (omega arith),
  )
