-- ===== src/Udp/Pending/Reaper.antt =====
-- `reap_pending_udp_sniff` of src/udp/pending.rs.
use mathlib.Core.List.{map}
use xtp_rs.Prelude.{
  Bool, Bool-cases, Each, List, Option, Text, UniqueKeys, [], ap, append-nil, append_assoc,
  append_left_nil, arith, contains, eq, eq_iff, false, if◌then◌else◌, inl, inr, keep_if, list_eq,
  map_get, map_get-remove, map_remove, nat_eq, none, not, option_eq, pair_eq, refl, some, subst,
  sym, ℕ, ◌++◌, ◌∙◌, ◌∷◌, ◌≡◌, ◌⊎◌,
}
use xtp_rs.Udp.{UdpSessionKey, addr_eq, key_eq, kind_eq}
use xtp_rs.Udp.Pending.{
  Handed, PendingSniffMap, PendingUdpSniff, expired, flush_pending_udp_sniff, forward_udp_payload,
}
use xtp_rs.Udp.Pending.Bounds.{IsPending, IsPendingMap, Sized, map_remove-Sized, sized}
use xtp_rs.Udp.Pending.Delivery.{
  Conserved, cached, payloads_of, payloads_of-append, payloads_of-map, waiting,
}
use xtp_rs.Udp.Pending.Invariant.{flush_found-map, flush_keys-IsPendingMap}
use xtp_rs.Udp.Pending.Handlers.{expired_keys, flush_found, flush_keys, reap_pending_udp_sniff}
use xtp_rs.Udp.Pending.Capacity.{enforce-small}

module _ {S : Type 0} where
  abbrev is_expired : ℕ → Option (PendingUdpSniff S) → Bool
  is_expired now none = false
  is_expired now (some p) = expired p now

  expired_keys-contains :
      (now : ℕ) (m : PendingSniffMap S) (k : UdpSessionKey)
      → UniqueKeys m
      → contains (expired_keys now m) k ≡ is_expired now (map_get m k)
  unfolding expired_keys map_get
  expired_keys-contains now [] k u = refl
  expired_keys-contains now ((j, p) ∷ m) k u =
      let rest = expired_keys-contains now m k u.1 in
      elim (Bool-cases (eq j k)) [
        | inl t ↦
            let gone : map_get m k ≡ none =
              subst (λ i. map_get m i ≡ none) ((eq_iff j k).0 t) u.0 in
            let none_left : contains (expired_keys now m) k ≡ false = rest ∙ (rw gone refl) in
            elim (Bool-cases (expired p now)) [
              | inl x ↦ ground (arith, t, x, none_left)
              | inr x ↦ ground (arith, t, x, none_left)
            ]
        | inr f ↦ elim (Bool-cases (expired p now)) [
          | inl x ↦ ground (arith, f, x, rest)
          | inr x ↦ ground (arith, f, x, rest)
        ]
      ]

  map_get-flush_keys :
      (keys : List UdpSessionKey) (m : PendingSniffMap S) (k : UdpSessionKey)
      → map_get (flush_keys keys m).1 k ≡ (if contains keys k then none else map_get m k)
  unfolding flush_keys
  map_get-flush_keys [] m k = refl
  map_get-flush_keys (key ∷ keys) m k =
      rw
        (
          flush_found-map (map_get m key) (flush_keys keys (map_remove m key)),
          map_get-flush_keys keys (map_remove m key) k,
          map_get-remove m key k,
        )
        (elim (Bool-cases (eq key k)) [
          | inl t ↦ elim (Bool-cases (contains keys k)) [
            | inl c ↦ rw (t, c) refl
            | inr c ↦ rw (t, c) refl
          ]
          | inr f ↦ rw f refl
        ])

  -- An entry under its own key adds its datagrams for that key.
  flush_found-payloads :
      (key k : UdpSessionKey) (o : Option (PendingUdpSniff S)) (r : List Handed × PendingSniffMap S)
      → Each (IsPending key) o
      → payloads_of k (flush_found o r).0 ≡ (if eq key k then cached o else []) ++ payloads_of k r.0
  unfolding flush_pending_udp_sniff
  flush_found-payloads key k none r q = elim (Bool-cases (eq key k)) [
    | inl t ↦ rw t refl
    | inr f ↦ rw f refl
  ]
  flush_found-payloads key k (some p) r q =
      rw
        (
          payloads_of-append k (map (forward_udp_payload p.spec) p.replay.datagrams) r.0,
          payloads_of-map k p.spec p.replay.datagrams,
          q.keyed,
        )
        refl

  flush_keys-conserves :
      (keys : List UdpSessionKey) (m : PendingSniffMap S) (k : UdpSessionKey)
      → Sized m
      → payloads_of k (flush_keys keys m).0 ++ waiting (flush_keys keys m).1 k ≡ waiting m k
  unfolding flush_keys
  flush_keys-conserves [] m k h = refl
  flush_keys-conserves (key ∷ keys) m k h =
      let r = flush_keys keys (map_remove m key) in
      let rest = flush_keys-conserves keys (map_remove m key) k (map_remove-Sized m key h) in
      rw
        (
          flush_found-map (map_get m key) r,
          flush_found-payloads key k (map_get m key) r (h.1 key),
          append_assoc (if eq key k then waiting m key else []) (payloads_of k r.0) (waiting r.1 k),
          rest,
          map_get-remove m key k,
        )
        (elim (Bool-cases (eq key k)) [
          | inl t ↦ rw (t, ap (λ j. waiting m j) ((eq_iff key k).0 t)) (append-nil (waiting m k))
          | inr f ↦ rw f refl
        ])

  keeps-expired :
      (now : ℕ) (k : UdpSessionKey) (o : Option (PendingUdpSniff S))
      → (if is_expired now o then none else o) ≡ keep_if (λ j p. not (expired p now)) k o
  keeps-expired now k none = refl
  keeps-expired now k (some p) = elim (Bool-cases (expired p now)) [
    | inl t ↦ rw t refl
    | inr f ↦ rw f refl
  ]

  settled :
      (now : ℕ) (k : UdpSessionKey) (o : Option (PendingUdpSniff S)) (ds : List Text)
      → ds ++ cached (if is_expired now o then none else o) ≡ cached o
      → (ds ≡ []) ⊎ ((if is_expired now o then none else o) ≡ none)
  settled now k o ds h = elim (Bool-cases (is_expired now o)) [
    | inl t ↦ inr (rw t refl)
    | inr f ↦ inl (
        append_left_nil ds (cached o)
          (subst (λ b. ds ++ cached (if b then none else o) ≡ cached o) f h))
  ]

  -- The reaper takes out exactly the entries whose deadline has passed and hands on all their
  -- datagrams, in order; of the others it hands on nothing.
  pub reap_pending_udp_sniff-Reaped :
      (now : ℕ) (m : PendingSniffMap S) (k : UdpSessionKey)
      → IsPendingMap m
      → (map_get (reap_pending_udp_sniff now m).1 k
          ≡ keep_if (λ j p. not (expired p now)) k (map_get m k))
        × Conserved m [] k (reap_pending_udp_sniff now m)
  unfolding reap_pending_udp_sniff
  reap_pending_udp_sniff-Reaped now m k h =
      let keys = expired_keys now m in
      let flushed = (flush_keys-IsPendingMap keys m h).bounded in
      let found : map_get (flush_keys keys m).1 k
          ≡ (if is_expired now (map_get m k) then none else map_get m k) =
        rw (map_get-flush_keys keys m k, expired_keys-contains now m k h.unique) refl in
      let kept = flush_keys-conserves keys m k (sized h) in
      let settles =
        settled now k (map_get m k) (payloads_of k (flush_keys keys m).0)
          (subst (λ o. payloads_of k (flush_keys keys m).0 ++ cached o ≡ waiting m k) found kept) in
      rw (enforce-small (flush_keys keys m).1 flushed) (
        found ∙ keeps-expired now k (map_get m k),
        (kept ∙ sym (append-nil (waiting m k)), rw found settles),
      )
