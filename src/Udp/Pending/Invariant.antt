-- ===== src/Udp/Pending/Invariant.antt =====
-- src/udp/pending.rs: the handlers keep the invariant of the map.
use xtp_rs.Prelude.{
  Bool, Bool-cases, Each, List, Option, Text, [], arith, false, inl, inr, is_empty, length, list_eq,
  map_get, map_remove, nat_eq, none, option_eq, pair_eq, refl, some, true, ℕ, ◌∷◌, ◌≡◌, ◌≤◌,
}
use xtp_rs.Direct.{DirectCache, ip_eq}
use xtp_rs.Udp.{UdpSessionKey, UdpSessionSpec, addr_eq, key_eq, kind_eq}
use xtp_rs.Udp.Pending.{
  Handed, PendingReplayBuffer, PendingSniffMap, PendingState, PendingUdpSniff, QuicSniffMode,
  UdpSniffOutcome, best_effort, expired, failed, full, host_matched, needs_more, new_pending,
  no_match, push_datagram, sniff_none, udp_sniff_max_cached_bytes,
}
use xtp_rs.Udp.Pending.Bounds.{
  IsPending, IsPendingMap, Pushed, after_feed-IsPendingMap, enforce-IsPendingMap,
  map_remove-IsPendingMap, push_datagram-Pushed, put_back-IsPendingMap, sized,
}
use xtp_rs.Udp.Pending.Handlers.{
  else_forward, else_new, expired_keys, feed_entry, first_fed, first_needs_more, flush_found,
  flush_keys, handle_entry, handle_found, handle_new_udp_sniff, handle_pending_udp_sniff,
  handle_udp_client_payload, reap_pending_udp_sniff, target_ip_direct, try_sniffers,
}

module _ {S : Type 0} (feed : S → Text → UdpSniffOutcome × S) where
  feed_entry-IsPendingMap :
      (now : ℕ) (m : PendingSniffMap S) (spec : UdpSessionSpec) (payload : Text)
      (p : PendingUdpSniff S) (r : Option PendingReplayBuffer)
      → IsPendingMap m
      → IsPending spec.key p
      → Pushed p.replay payload r
      → IsPendingMap (feed_entry feed now m spec payload p r).1
  feed_entry-IsPendingMap now m spec payload p none h q d = h
  feed_entry-IsPendingMap now m spec payload p (some r) h q d =
      after_feed-IsPendingMap m spec.key (record p { replay = r }) (feed p.sniffer payload) h
        (record { keyed = q.keyed; few_attempts = q.few_attempts; replays = d.0 })

  handle_entry-IsPendingMap :
      (now : ℕ) (m : PendingSniffMap S) (spec : UdpSessionSpec) (payload : Text)
      (p : PendingUdpSniff S)
      → IsPendingMap m
      → IsPending spec.key p
      → IsPendingMap (handle_entry feed now m spec payload p).1
  handle_entry-IsPendingMap now m spec payload p h q = elim (Bool-cases (expired p now)) [
    | inl t ↦ rw t h
    | inr f ↦ rw f (
        feed_entry-IsPendingMap now m spec payload p (push_datagram p.replay payload) h q
          (push_datagram-Pushed p.replay payload q.replays))
  ]

  -- Of the map in an optional result.
  abbrev EachMap : Option (List Handed × PendingSniffMap S) → Type 0
  EachMap = Each (λ r. IsPendingMap r.1)

  handle_found-IsPendingMap :
      (now : ℕ) (m : PendingSniffMap S) (spec : UdpSessionSpec) (payload : Text)
      (o : Option (PendingUdpSniff S))
      → IsPendingMap m
      → Each (IsPending spec.key) o
      → EachMap (handle_found feed now m spec payload o)
  handle_found-IsPendingMap now m spec payload none h q = tt
  handle_found-IsPendingMap now m spec payload (some p) h q =
      handle_entry-IsPendingMap now (map_remove m spec.key) spec payload p
        (map_remove-IsPendingMap m spec.key h) q

  first_needs_more-IsPendingMap :
      (mode : QuicSniffMode) (timeout now : ℕ) (m : PendingSniffMap S) (spec : UdpSessionSpec)
      (payload : Text) (s : S)
      → IsPendingMap m
      → length payload ≤ udp_sniff_max_cached_bytes
      → IsPendingMap (first_needs_more feed mode timeout now m spec payload s).1
  first_needs_more-IsPendingMap full timeout now m spec payload s h small =
      put_back-IsPendingMap m spec.key (new_pending spec s payload timeout now) h (record {
        keyed = refl;
        few_attempts = omega arith;
        replays = record {
          some_datagram = omega arith;
          few = omega arith;
          counted = omega arith;
          small = small;
        };
      })
  first_needs_more-IsPendingMap best_effort timeout now m spec payload s h small = h
  first_needs_more-IsPendingMap sniff_none timeout now m spec payload s h small = h

  first_fed-IsPendingMap :
      (st : PendingState S) (now : ℕ) (m : PendingSniffMap S) (spec : UdpSessionSpec)
      (payload : Text) (o : UdpSniffOutcome × S) (later : Option (List Handed × PendingSniffMap S))
      → IsPendingMap m
      → length payload ≤ udp_sniff_max_cached_bytes
      → EachMap later
      → EachMap (first_fed feed st now m spec payload o later)
  first_fed-IsPendingMap st now m spec payload (host_matched protocol host, s) later h small l = h
  first_fed-IsPendingMap st now m spec payload (needs_more protocol, s) later h small l =
      first_needs_more-IsPendingMap st.quic_sniff_mode st.quic_sniff_pending_timeout now m spec
        payload s h small
  first_fed-IsPendingMap st now m spec payload (no_match, s) later h small l = l
  first_fed-IsPendingMap st now m spec payload (failed protocol e, s) later h small l = l

  try_sniffers-IsPendingMap :
      (st : PendingState S) (now : ℕ) (m : PendingSniffMap S) (spec : UdpSessionSpec)
      (payload : Text) (sniffers : List S)
      → IsPendingMap m
      → length payload ≤ udp_sniff_max_cached_bytes
      → EachMap (try_sniffers feed st now m spec payload sniffers)
  unfolding try_sniffers
  try_sniffers-IsPendingMap st now m spec payload [] h small = tt
  try_sniffers-IsPendingMap st now m spec payload (s ∷ rest) h small =
      first_fed-IsPendingMap st now m spec payload (feed s payload)
        (try_sniffers feed st now m spec payload rest) h small
        (try_sniffers-IsPendingMap st now m spec payload rest h small)

  else_forward-IsPendingMap :
      (m : PendingSniffMap S) (spec : UdpSessionSpec) (payload : Text)
      (o : Option (List Handed × PendingSniffMap S))
      → IsPendingMap m
      → EachMap o
      → IsPendingMap (else_forward feed m spec payload o).1
  else_forward-IsPendingMap m spec payload none h o = h
  else_forward-IsPendingMap m spec payload (some r) h o = o

  handle_new_udp_sniff-IsPendingMap :
      (st : PendingState S) (cache : DirectCache) (now : ℕ) (m : PendingSniffMap S)
      (spec : UdpSessionSpec) (payload : Text)
      → IsPendingMap m
      → length payload ≤ udp_sniff_max_cached_bytes
      → EachMap (handle_new_udp_sniff feed st cache now m spec payload).0
  unfolding handle_new_udp_sniff
  handle_new_udp_sniff-IsPendingMap st cache now m spec payload h small =
      elim (Bool-cases (is_empty st.udp_sniffers)) [
        | inl t ↦ rw t tt
        | inr f ↦ rw f (elim (Bool-cases (target_ip_direct feed st cache now spec spec.routing).0) [
          | inl d ↦ rw d tt
          | inr d ↦ rw d (try_sniffers-IsPendingMap st now m spec payload st.udp_sniffers h small)
        ])
      ]

  else_new-IsPendingMap :
      (st : PendingState S) (cache : DirectCache) (now : ℕ) (m : PendingSniffMap S)
      (spec : UdpSessionSpec) (payload : Text) (o : Option (List Handed × PendingSniffMap S))
      → IsPendingMap m
      → length payload ≤ udp_sniff_max_cached_bytes
      → EachMap o
      → IsPendingMap (else_new feed st cache now m spec payload o).0.1
  else_new-IsPendingMap st cache now m spec payload (some r) h small o = o
  else_new-IsPendingMap st cache now m spec payload none h small o =
      else_forward-IsPendingMap m spec payload
        (handle_new_udp_sniff feed st cache now m spec payload).0 h
        (handle_new_udp_sniff-IsPendingMap st cache now m spec payload h small)

  -- Whatever the engines answer, a handled datagram of at most 64 KiB leaves a map of at most 4096
  -- entries with one for each key, where each waits under the key of its own specification, with
  -- one failed attempt at most, and holds between one and eight datagrams of at most 64 KiB in all,
  -- counted right.
  pub handle_udp_client_payload-IsPendingMap :
      (st : PendingState S) (closed ready : Bool) (cache : DirectCache) (now : ℕ)
      (m : PendingSniffMap S) (spec : UdpSessionSpec) (payload : Text)
      → IsPendingMap m
      → length payload ≤ udp_sniff_max_cached_bytes
      → IsPendingMap (handle_udp_client_payload feed st closed ready cache now m spec payload).0.1
  unfolding handle_udp_client_payload handle_pending_udp_sniff
  handle_udp_client_payload-IsPendingMap st true ready cache now m spec payload h small = h
  handle_udp_client_payload-IsPendingMap st false true cache now m spec payload h small =
      map_remove-IsPendingMap m spec.key h
  handle_udp_client_payload-IsPendingMap st false false cache now m spec payload h small =
      else_new-IsPendingMap st cache now m spec payload
        (handle_found feed now m spec payload (map_get m spec.key)) h small
        (handle_found-IsPendingMap now m spec payload (map_get m spec.key) h (h.entries spec.key))

module _ {S : Type 0} where
  pub flush_found-map :
      (o : Option (PendingUdpSniff S)) (r : List Handed × PendingSniffMap S)
      → (flush_found o r).1 ≡ r.1
  flush_found-map none r = refl
  flush_found-map (some p) r = refl

  pub flush_keys-IsPendingMap :
      (keys : List UdpSessionKey) (m : PendingSniffMap S)
      → IsPendingMap m
      → IsPendingMap (flush_keys keys m).1
  unfolding flush_keys
  flush_keys-IsPendingMap [] m h = h
  flush_keys-IsPendingMap (key ∷ keys) m h =
      rw (flush_found-map (map_get m key) (flush_keys keys (map_remove m key)))
        (flush_keys-IsPendingMap keys (map_remove m key) (map_remove-IsPendingMap m key h))

  pub reap_pending_udp_sniff-IsPendingMap :
      (now : ℕ) (m : PendingSniffMap S)
      → IsPendingMap m
      → IsPendingMap (reap_pending_udp_sniff now m).1
  unfolding reap_pending_udp_sniff
  reap_pending_udp_sniff-IsPendingMap now m h =
      let flushed = flush_keys-IsPendingMap (expired_keys now m) m h in
      enforce-IsPendingMap (flush_keys (expired_keys now m) m).1 (sized flushed)
