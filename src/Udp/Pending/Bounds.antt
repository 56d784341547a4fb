-- ===== src/Udp/Pending/Bounds.antt =====
-- src/udp/pending.rs: the bounds on what waits, and that every handler keeps them.
use xtp_rs.Prelude.{
  Bool, Bool-cases, Each, List, Option, Text, UniqueKeys, [], arith, eq, eq_iff, false,
  if◌then◌else◌, inl, inr, leb, leb-false→lt, leb→le, length, length-append, length-map_remove_le,
  list_eq, ltb, ltb-false→le, ltb→lt, map_get, map_get-insert, map_get-remove, map_insert,
  map_insert-UniqueKeys, map_remove, map_remove-UniqueKeys, nat_eq, none, option_eq, or-split,
  or_false-split, pair_eq, refl, some, subst, true, ℕ, ◌++◌, ◌+◌, ◌<◌, ◌||◌, ◌∷◌, ◌≡◌, ◌≤◌, ◌⊎◌,
}
use xtp_rs.Direct.{ip_eq}
use xtp_rs.Udp.{UdpSessionKey, addr_eq, key_eq, kind_eq}
use xtp_rs.Udp.Pending.{
  PendingReplayBuffer, PendingSniffMap, PendingUdpSniff, UdpSniffOutcome, after_feed, count_no_clue,
  enforce_pending_udp_sniff_capacity, failed, host_matched, needs_more, no_match, push_datagram,
  put_back, saturating_add, udp_sniff_max_cached_bytes, udp_sniff_max_cached_datagrams,
  udp_sniff_max_pending_sessions, udp_sniff_no_clue_limit,
}
use xtp_rs.Udp.Pending.Capacity.{enforce-keeps, enforce-length}

abbrev pub total : List Text → ℕ
total [] = 0
total (d ∷ ds) = length d + total ds

total-append : (xs ys : List Text) → total (xs ++ ys) ≡ total xs + total ys
total-append [] ys = omega arith
total-append (x ∷ xs) ys = omega (arith, total-append xs ys)

pub record IsReplay (r : PendingReplayBuffer) : Type 0 where
  pub some_datagram : 1 ≤ length r.datagrams
  pub few : length r.datagrams ≤ udp_sniff_max_cached_datagrams
  pub counted : r.cached_bytes ≡ total r.datagrams
  pub small : r.cached_bytes ≤ udp_sniff_max_cached_bytes

-- What `push_datagram` may give.
abbrev pub Pushed : PendingReplayBuffer → Text → Option PendingReplayBuffer → Type 0
Pushed r payload none =
    (udp_sniff_max_cached_datagrams ≤ length r.datagrams)
    ⊎ (udp_sniff_max_cached_bytes < total r.datagrams + length payload)
Pushed r payload (some r') =
    IsReplay r'
    × (r'.datagrams ≡ r.datagrams ++ payload ∷ [])
    × (length r.datagrams < udp_sniff_max_cached_datagrams)
    × (total r.datagrams + length payload ≤ udp_sniff_max_cached_bytes)

-- A datagram is refused exactly if it would be the ninth or bring the bytes above 64 KiB, and one
-- that is taken becomes the last of a buffer that keeps its bounds.
pub push_datagram-Pushed :
    (r : PendingReplayBuffer) (payload : Text)
    → IsReplay r
    → Pushed r payload (push_datagram r payload)
unfolding push_datagram
push_datagram-Pushed r payload h =
    elim (Bool-cases (
      leb udp_sniff_max_cached_datagrams (length r.datagrams)
      || ltb udp_sniff_max_cached_bytes (saturating_add r.cached_bytes (length payload)))) [
        | inl t ↦
            let next = saturating_add r.cached_bytes (length payload) in
            rw t
              (elim (or-split (leb udp_sniff_max_cached_datagrams (length r.datagrams))
                (ltb udp_sniff_max_cached_bytes next) t) [
                  | inl many ↦ inl (leb→le udp_sniff_max_cached_datagrams (length r.datagrams) many)
                  | inr big ↦
                      inr (omega (arith, ltb→lt udp_sniff_max_cached_bytes next big, h.counted))
                ])
        | inr f ↦
            let next = saturating_add r.cached_bytes (length payload) in
            let room =
              or_false-split (leb udp_sniff_max_cached_datagrams (length r.datagrams))
                (ltb udp_sniff_max_cached_bytes next) f in
            let fits = leb-false→lt udp_sniff_max_cached_datagrams (length r.datagrams) room.0 in
            let light = ltb-false→le udp_sniff_max_cached_bytes next room.1 in
            let one_more = length-append r.datagrams (payload ∷ []) in
            let sum = total-append r.datagrams (payload ∷ []) in
            rw f (
              record {
                some_datagram = omega (arith, one_more);
                few = omega (arith, one_more, fits);
                counted = omega (arith, sum, light, h.counted);
                small = light;
              },
              refl,
              fits,
              omega (arith, light, h.counted),
            )
      ]

pub record IsPending {S : Type 0} (key : UdpSessionKey) (p : PendingUdpSniff S) : Type 0 where
  pub keyed : p.spec.key ≡ key
  pub few_attempts : p.no_clue_attempts < udp_sniff_no_clue_limit
  pub replays : IsReplay p.replay

-- What holds of the map between two handlers.
pub record IsPendingMap {S : Type 0} (m : PendingSniffMap S) : Type 0 where
  pub unique : UniqueKeys m
  pub bounded : length m ≤ udp_sniff_max_pending_sessions
  pub entries : (key : UdpSessionKey) → Each (IsPending key) (map_get m key)

module _ {S : Type 0} where
  -- Every part of the invariant but the bound on the size.
  abbrev pub Sized : PendingSniffMap S → Type 0
  Sized m = UniqueKeys m × ((key : UdpSessionKey) → Each (IsPending key) (map_get m key))

  abbrev pub sized : {m : PendingSniffMap S} → IsPendingMap m → Sized m
  sized h = (h.unique, h.entries)

  pub map_remove-Sized :
      (m : PendingSniffMap S) (key : UdpSessionKey) → Sized m → Sized (map_remove m key)
  map_remove-Sized m key h = (
    map_remove-UniqueKeys m key h.0,
    λ j.
        rw (map_get-remove m key j)
          (elim (eq key j) as (λ b. Each (IsPending j) (if b then none else map_get m j)) [
            | true ↦ tt
            | false ↦ h.1 j
          ]),
  )

  pub map_remove-IsPendingMap :
      (m : PendingSniffMap S) (key : UdpSessionKey)
      → IsPendingMap m
      → IsPendingMap (map_remove m key)
  map_remove-IsPendingMap m key h = record {
    unique = (map_remove-Sized m key (sized h)).0;
    bounded = omega (arith, length-map_remove_le m key, h.bounded);
    entries = (map_remove-Sized m key (sized h)).1;
  }

  pub enforce-IsPendingMap :
      (m : PendingSniffMap S) → Sized m → IsPendingMap (enforce_pending_udp_sniff_capacity m)
  enforce-IsPendingMap m h =
      let kept = enforce-keeps Sized map_remove-Sized m h in
      record { unique = kept.0; bounded = enforce-length m; entries = kept.1 }

  map_insert-Sized :
      (m : PendingSniffMap S) (key : UdpSessionKey) (p : PendingUdpSniff S)
      → Sized m
      → IsPending key p
      → Sized (map_insert m key p)
  map_insert-Sized m key p h q = (
    map_insert-UniqueKeys m key p h.0,
    λ j. rw (map_get-insert m key j p) (elim (Bool-cases (eq key j)) [
      | inl t ↦ rw t (subst (λ k. IsPending k p) ((eq_iff key j).0 t) q)
      | inr f ↦ rw f (h.1 j)
    ]),
  )

  pub put_back-IsPendingMap :
      (m : PendingSniffMap S) (key : UdpSessionKey) (p : PendingUdpSniff S)
      → IsPendingMap m
      → IsPending key p
      → IsPendingMap (put_back m key p).1
  put_back-IsPendingMap m key p h q =
      enforce-IsPendingMap (map_insert m key p) (map_insert-Sized m key p (sized h) q)

  count_no_clue-IsPendingMap :
      (m : PendingSniffMap S) (key : UdpSessionKey) (b : Bool) (p : PendingUdpSniff S)
      → IsPendingMap m
      → (b ≡ false → IsPending key p)
      → IsPendingMap (count_no_clue m key (b, p)).1
  count_no_clue-IsPendingMap m key true p h q = h
  count_no_clue-IsPendingMap m key false p h q = put_back-IsPendingMap m key p h (q refl)

  pub after_feed-IsPendingMap :
      (m : PendingSniffMap S) (key : UdpSessionKey) (p : PendingUdpSniff S)
      (o : UdpSniffOutcome × S)
      → IsPendingMap m
      → IsPending key p
      → IsPendingMap (after_feed m key p o).1
  after_feed-IsPendingMap m key p (host_matched protocol host, s) h q = h
  after_feed-IsPendingMap m key p (needs_more protocol, s) h q =
      put_back-IsPendingMap m key (record p { sniffer = s }) h
        (record { keyed = q.keyed; few_attempts = q.few_attempts; replays = q.replays })
  after_feed-IsPendingMap m key p (no_match, s) h q =
      count_no_clue-IsPendingMap m key (leb udp_sniff_no_clue_limit (p.no_clue_attempts + 1))
        (record p { sniffer = s; no_clue_attempts = p.no_clue_attempts + 1 }) h
        (λ f. record {
          keyed = q.keyed;
          few_attempts = leb-false→lt udp_sniff_no_clue_limit (p.no_clue_attempts + 1) f;
          replays = q.replays;
        })
  after_feed-IsPendingMap m key p (failed protocol e, s) h q = h
