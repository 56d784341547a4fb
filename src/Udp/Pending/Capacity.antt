-- ===== src/Udp/Pending/Capacity.antt =====
-- `enforce_pending_udp_sniff_capacity` of src/udp/pending.rs: the loop ends within its fuel, with a map
-- that is small enough.
use xtp_rs.Prelude.{
  Bool-cases, Option-cases, UniqueKeys, [], arith, eq, eq_iff, inl, inr, leb, length,
  length-map_remove_lt, le→ltb-false, list_eq, ltb, ltb-false→le, ltb→lt, map_get, map_remove,
  nat_eq, none, option_eq, pair_eq, refl, some, subst, suc, zero, ℕ, ◌+◌, ◌<◌, ◌∷◌, ◌≡◌, ◌≢◌, ◌≤◌,
  ◌⊎◌,
}
use xtp_rs.Direct.{ip_eq}
use xtp_rs.Udp.{UdpSessionKey, addr_eq, key_eq, kind_eq}
use xtp_rs.Udp.Pending.{
  PendingSniffMap, PendingUdpSniff, enforce_loop, enforce_pending_udp_sniff_capacity, oldest_entry,
  udp_sniff_max_pending_sessions,
}

module _ {S : Type 0} where
  pub oldest_entry-found :
      (m : PendingSniffMap S) (e : UdpSessionKey × PendingUdpSniff S)
      → oldest_entry m ≡ some e
      → map_get m e.0 ≢ none
  unfolding oldest_entry map_get
  oldest_entry-found [] e h q = cc
  oldest_entry-found ((k, p) ∷ m) e h q = elim (Option-cases (oldest_entry m)) [
    | inl none_left ↦ ground (arith, none_left, h, q, (eq_iff k k).1 refl)
    | inr (f, found) ↦ elim (Bool-cases (leb p.deadline f.1.deadline)) [
      | inl t ↦ ground (arith, found, t, h, q, (eq_iff k k).1 refl)
      | inr t ↦ oldest_entry-found m f found (ground (arith, found, t, h, q))
    ]
  ]

  oldest_entry-some :
      (m : PendingSniffMap S)
      → 0 < length m
      → (e : UdpSessionKey × PendingUdpSniff S) × (oldest_entry m ≡ some e)
  unfolding oldest_entry
  oldest_entry-some [] h = absurd (omega arith)
  oldest_entry-some (f ∷ m) h = elim (Option-cases (oldest_entry m)) [
    | inl none_left ↦ (f, ground (arith, none_left))
    | inr (g, found) ↦ elim (Bool-cases (leb f.1.deadline g.1.deadline)) [
      | inl t ↦ (f, ground (arith, found, t))
      | inr t ↦ (g, ground (arith, found, t))
    ]
  ]

  pub oldest_entry-get :
      (m : PendingSniffMap S) (e : UdpSessionKey × PendingUdpSniff S)
      → UniqueKeys m
      → oldest_entry m ≡ some e
      → map_get m e.0 ≡ some e.1
  unfolding oldest_entry map_get
  oldest_entry-get [] e u h = cc
  oldest_entry-get ((k, p) ∷ m) e u h = elim (Option-cases (oldest_entry m)) [
    | inl none_left ↦ ground (arith, none_left, h, (eq_iff k k).1 refl)
    | inr (f, found) ↦ elim (Bool-cases (leb p.deadline f.1.deadline)) [
      | inl t ↦ ground (arith, found, t, h, (eq_iff k k).1 refl)
      | inr t ↦
          let same : f ≡ e = ground (arith, found, t, h) in
          let deep : map_get m f.0 ≡ some f.1 = oldest_entry-get m f u.1 found in
          subst (λ g. map_get ((k, p) ∷ m) g.0 ≡ some g.1) same
            (elim (Bool-cases (eq k f.0)) [
              | inl c ↦ absurd (
                  let e2 : k ≡ f.0 = (eq_iff k f.0).0 c in
                  let z : map_get m f.0 ≡ none = subst (λ x. map_get m x ≡ none) e2 u.0 in cc)
              | inr c ↦ ground (arith, c, deep)
            ])
    ]
  ]

  oldest_entry-absent :
      (m : PendingSniffMap S) (k : UdpSessionKey) (p : PendingUdpSniff S)
      → oldest_entry m ≡ none
      → map_get m k ≢ some p
  unfolding oldest_entry map_get
  oldest_entry-absent [] k p h q = cc
  oldest_entry-absent (f ∷ m) k p h q =
      let old = oldest_entry-some (f ∷ m) (omega arith) in ground (arith, old.1, h)

  -- The oldest entry has the least deadline of all.
  pub oldest_entry-least :
      (m : PendingSniffMap S) (e : UdpSessionKey × PendingUdpSniff S) (k : UdpSessionKey)
      (p : PendingUdpSniff S)
      → oldest_entry m ≡ some e
      → map_get m k ≡ some p
      → e.1.deadline ≤ p.deadline
  unfolding oldest_entry map_get
  oldest_entry-least [] e k p h g = cc
  oldest_entry-least ((j, q) ∷ m) e k p h g = elim (Option-cases (oldest_entry m)) [
    | inl none_left ↦ elim (Bool-cases (eq j k)) [
      | inl t ↦ ground (arith, none_left, t, h, g)
      | inr t ↦ absurd (oldest_entry-absent m k p none_left (ground (arith, t, g)))
    ]
    | inr (f, found) ↦ elim (Bool-cases (eq j k)) [
      | inl t ↦ ground (arith, found, t, h, g)
      | inr t ↦ ground (arith, found, t, h, oldest_entry-least m f k p found (ground (arith, t, g)))
    ]
  ]

  -- One round of the loop: it stops at a map that is small enough, or the oldest entry leaves.
  pub enforce_loop-cases :
      (n : ℕ) (m : PendingSniffMap S)
      → ((enforce_loop (suc n) m ≡ m) × (length m ≤ udp_sniff_max_pending_sessions))
        ⊎ ((e : UdpSessionKey × PendingUdpSniff S) × (oldest_entry m ≡ some e)
            × (udp_sniff_max_pending_sessions < length m)
            × (enforce_loop (suc n) m ≡ enforce_loop n (map_remove m e.0)))
  unfolding enforce_loop
  enforce_loop-cases n m = elim (Bool-cases (ltb udp_sniff_max_pending_sessions (length m))) [
    | inr few ↦ inl (rw few refl, ltb-false→le udp_sniff_max_pending_sessions (length m) few)
    | inl many ↦
        let old = oldest_entry-some m (ground (arith, many)) in
        inr (
          old.0,
          old.1,
          ltb→lt udp_sniff_max_pending_sessions (length m) many,
          rw (many, old.1) refl,
        )
  ]

  -- What holds of a map, and is kept when an entry leaves, holds in the end.
  pub enforce_loop-keeps :
      (P : PendingSniffMap S → Type 0)
      → ((m : PendingSniffMap S) (k : UdpSessionKey) → P m → P (map_remove m k))
      → (n : ℕ) (m : PendingSniffMap S) → P m
      → P (enforce_loop n m)
  enforce_loop-keeps P step zero m h = unfold enforce_loop in h
  enforce_loop-keeps P step (suc n) m h = elim (enforce_loop-cases n m) [
    | inl (stop, few) ↦ rw stop h
    | inr (e, old, over, next) ↦
        rw next (enforce_loop-keeps P step n (map_remove m e.0) (step m e.0 h))
  ]

  enforce_loop-length :
      (n : ℕ) (m : PendingSniffMap S)
      → length m ≤ n + udp_sniff_max_pending_sessions
      → length (enforce_loop n m) ≤ udp_sniff_max_pending_sessions
  enforce_loop-length zero m h = unfold enforce_loop in h
  enforce_loop-length (suc n) m h = elim (enforce_loop-cases n m) [
    | inl (stop, few) ↦ rw stop few
    | inr (e, old, over, next) ↦
        let shorter = length-map_remove_lt m e.0 (oldest_entry-found m e old) in
        rw next (enforce_loop-length n (map_remove m e.0) (omega arith))
  ]

  -- The loop ends within its fuel, and the map has at most 4096 entries then.
  pub enforce-length :
      (m : PendingSniffMap S)
      → length (enforce_pending_udp_sniff_capacity m) ≤ udp_sniff_max_pending_sessions
  unfolding enforce_pending_udp_sniff_capacity
  enforce-length m = enforce_loop-length (length m) m (omega arith)

  pub enforce-keeps :
      (P : PendingSniffMap S → Type 0)
      → ((m : PendingSniffMap S) (k : UdpSessionKey) → P m → P (map_remove m k))
      → (m : PendingSniffMap S) → P m
      → P (enforce_pending_udp_sniff_capacity m)
  unfolding enforce_pending_udp_sniff_capacity
  enforce-keeps P step m h = enforce_loop-keeps P step (length m) m h

  enforce_loop-small :
      (n : ℕ) (m : PendingSniffMap S)
      → length m ≤ udp_sniff_max_pending_sessions
      → enforce_loop n m ≡ m
  unfolding enforce_loop
  enforce_loop-small zero m h = refl
  enforce_loop-small (suc n) m h =
      rw (le→ltb-false udp_sniff_max_pending_sessions (length m) h) refl

  pub enforce-small :
      (m : PendingSniffMap S)
      → length m ≤ udp_sniff_max_pending_sessions
      → enforce_pending_udp_sniff_capacity m ≡ m
  unfolding enforce_pending_udp_sniff_capacity
  enforce-small m h = enforce_loop-small (length m) m h
