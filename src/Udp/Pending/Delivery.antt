-- ===== src/Udp/Pending/Delivery.antt =====
-- src/udp/pending.rs: what is handed on and what waits, key by key.
use mathlib.Core.List.{map}
use xtp_rs.Prelude.{
  Bool, Bool-cases, List, Option, Text, [], ap, append-nil, arith, eq, eq_iff, false, if◌then◌else◌,
  inl, inr, leb, length, length-map_insert_le, list_eq, map_get, map_get-insert, map_insert, nat_eq,
  none, option_eq, pair_eq, refl, some, subst, true, ◌++◌, ◌+◌, ◌<◌, ◌∷◌, ◌≡◌, ◌≤◌, ◌⊎◌,
}
use xtp_rs.Direct.{ip_eq}
use xtp_rs.Udp.{UdpSessionKey, UdpSessionSpec, addr_eq, key_eq, kind_eq}
use xtp_rs.Udp.Pending.{
  Handed, PendingSniffMap, PendingUdpSniff, UdpSniffOutcome, after_feed, count_no_clue, failed,
  flush_pending_udp_sniff, forward_udp_payload, forward_udp_payload_to_session, host_matched,
  needs_more, no_match, put_back, set_host, udp_sniff_max_pending_sessions, udp_sniff_no_clue_limit,
}
use xtp_rs.Udp.Pending.Capacity.{enforce-small}

abbrev pub handed_key : Handed → UdpSessionKey
handed_key (forward_udp_payload spec payload) = spec.key
handed_key (forward_udp_payload_to_session key payload) = key

abbrev pub handed_payload : Handed → Text
handed_payload (forward_udp_payload spec payload) = payload
handed_payload (forward_udp_payload_to_session key payload) = payload

-- The datagrams that are handed on for a key, in order.
abbrev pub payloads_of : UdpSessionKey → List Handed → List Text
payloads_of k [] = []
payloads_of k (h ∷ hs) =
    let rest = payloads_of k hs in if eq (handed_key h) k then handed_payload h ∷ rest else rest

pub payloads_of-append :
    (k : UdpSessionKey) (xs ys : List Handed)
    → payloads_of k (xs ++ ys) ≡ payloads_of k xs ++ payloads_of k ys
payloads_of-append k [] ys = refl
payloads_of-append k (x ∷ xs) ys = elim (Bool-cases (eq (handed_key x) k)) [
  | inl t ↦ rw t (ap (λ l. handed_payload x ∷ l) (payloads_of-append k xs ys))
  | inr f ↦ rw f (payloads_of-append k xs ys)
]

pub payloads_of-map :
    (k : UdpSessionKey) (spec : UdpSessionSpec) (ds : List Text)
    → payloads_of k (map (forward_udp_payload spec) ds) ≡ (if eq spec.key k then ds else [])
payloads_of-map k spec [] = elim (Bool-cases (eq spec.key k)) [
  | inl t ↦ rw t refl
  | inr f ↦ rw f refl
]
payloads_of-map k spec (d ∷ ds) = elim (Bool-cases (eq spec.key k)) [
  | inl t ↦ ground (arith, t, payloads_of-map k spec ds)
  | inr f ↦ ground (arith, f, payloads_of-map k spec ds)
]

module _ {S : Type 0} where
  abbrev pub cached : Option (PendingUdpSniff S) → List Text
  cached none = []
  cached (some p) = p.replay.datagrams

  -- The datagrams that wait under a key.
  abbrev pub waiting : PendingSniffMap S → UdpSessionKey → List Text
  waiting m k = cached (map_get m k)

  -- A handler that got the datagrams `ds` of `key` hands them on or keeps them, in order, leaves the
  -- other keys alone, and lets nothing wait under a key for which it hands something on.
  abbrev pub Delivered :
      UdpSessionKey → List Text → PendingSniffMap S → List Handed × PendingSniffMap S → Type 0
  Delivered key ds m r =
      (k : UdpSessionKey)
      → (payloads_of k r.0 ++ waiting r.1 k ≡ (if eq key k then ds else waiting m k))
        × ((payloads_of k r.0 ≡ []) ⊎ (map_get r.1 k ≡ none))

  -- Under `k`, what is handed on and then what still waits is what waited in `m`, followed by `ds`.
  abbrev pub Conserved :
      PendingSniffMap S → List Text → UdpSessionKey → List Handed × PendingSniffMap S → Type 0
  Conserved m ds k r =
      (payloads_of k r.0 ++ waiting r.1 k ≡ waiting m k ++ ds)
      × ((payloads_of k r.0 ≡ []) ⊎ (map_get r.1 k ≡ none))

  pub handed-Delivered :
      (key : UdpSessionKey) (ds : List Text) (m : PendingSniffMap S) (hs : List Handed)
      → map_get m key ≡ none
      → ((k : UdpSessionKey) → payloads_of k hs ≡ (if eq key k then ds else []))
      → Delivered key ds m (hs, m)
  handed-Delivered key ds m hs absent h k = elim (Bool-cases (eq key k)) [
    | inl t ↦
        let here : map_get m k ≡ none =
          subst (λ j. map_get m j ≡ none) ((eq_iff key k).0 t) absent in
        (rw (h k, t, here) (append-nil ds), inr here)
    | inr f ↦ (rw (h k, f) refl, inl (rw (h k, f) refl))
  ]

  pub flush-Delivered :
      (key : UdpSessionKey) (p : PendingUdpSniff S) (m : PendingSniffMap S)
      → map_get m key ≡ none
      → p.spec.key ≡ key
      → Delivered key p.replay.datagrams m (flush_pending_udp_sniff p, m)
  unfolding flush_pending_udp_sniff
  flush-Delivered key p m absent q =
      handed-Delivered key p.replay.datagrams m
        (map (forward_udp_payload p.spec) p.replay.datagrams) absent
        (λ k. rw (payloads_of-map k p.spec p.replay.datagrams, q) refl)

  pub put_back-Delivered :
      (m : PendingSniffMap S) (key : UdpSessionKey) (p : PendingUdpSniff S)
      → length m < udp_sniff_max_pending_sessions
      → Delivered key p.replay.datagrams m (put_back m key p)
  put_back-Delivered m key p room k =
      let fits : length (map_insert m key p) ≤ udp_sniff_max_pending_sessions =
        omega (arith, length-map_insert_le m key p, room) in
      let kept : waiting (map_insert m key p) k
          ≡ (if eq key k then p.replay.datagrams else waiting m k) =
        rw (map_get-insert m key k p)
          (elim (Bool-cases (eq key k)) [ inl t ↦ rw t refl | inr f ↦ rw f refl ]) in
      (rw (enforce-small (map_insert m key p) fits) kept, inl refl)

  count_no_clue-Delivered :
      (m : PendingSniffMap S) (key : UdpSessionKey) (b : Bool) (p : PendingUdpSniff S)
      → length m < udp_sniff_max_pending_sessions
      → map_get m key ≡ none
      → p.spec.key ≡ key
      → Delivered key p.replay.datagrams m (count_no_clue m key (b, p))
  count_no_clue-Delivered m key true p room absent q = flush-Delivered key p m absent q
  count_no_clue-Delivered m key false p room absent q = put_back-Delivered m key p room

  pub after_feed-Delivered :
      (m : PendingSniffMap S) (key : UdpSessionKey) (p : PendingUdpSniff S)
      (o : UdpSniffOutcome × S)
      → length m < udp_sniff_max_pending_sessions
      → map_get m key ≡ none
      → p.spec.key ≡ key
      → Delivered key p.replay.datagrams m (after_feed m key p o)
  after_feed-Delivered m key p (host_matched protocol host, s) room absent q =
      flush-Delivered key (record p { spec = set_host p.spec host; sniffer = s }) m absent q
  after_feed-Delivered m key p (needs_more protocol, s) room absent q =
      put_back-Delivered m key (record p { sniffer = s }) room
  after_feed-Delivered m key p (no_match, s) room absent q =
      count_no_clue-Delivered m key (leb udp_sniff_no_clue_limit (p.no_clue_attempts + 1))
        (record p { sniffer = s; no_clue_attempts = p.no_clue_attempts + 1 }) room absent q
  after_feed-Delivered m key p (failed protocol e, s) room absent q =
      flush-Delivered key (record p { sniffer = s }) m absent q
