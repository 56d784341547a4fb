-- ===== src/Udp/Pending/Conservation.antt =====
-- src/udp/pending.rs: the handlers hand on or keep every datagram, in order.
use mathlib.Core.List.{map}
use xtp_rs.Prelude.{
  Bool, Bool-cases, Each, List, Option, Text, [], ap, append-nil, arith, eq, eq_iff, false,
  if◌then◌else◌, inl, inr, is_empty, length, length-map_remove_le, list_eq, map_get, map_get-remove,
  map_remove, map_remove-absent, nat_eq, none, option_eq, pair_eq, refl, some, subst, sym, true, ℕ,
  ◌++◌, ◌<◌, ◌∙◌, ◌∷◌, ◌≡◌,
}
use xtp_rs.Direct.{DirectCache, ip_eq}
use xtp_rs.Udp.{UdpSessionKey, UdpSessionSpec, addr_eq, key_eq, kind_eq}
use xtp_rs.Udp.Pending.{
  Handed, PendingReplayBuffer, PendingSniffMap, PendingState, PendingUdpSniff, QuicSniffMode,
  UdpSniffOutcome, after_feed, best_effort, expired, failed, flush_pending_udp_sniff,
  forward_udp_payload, full, host_matched, needs_more, new_pending, no_match, push_datagram,
  set_host, sniff_none, udp_sniff_max_pending_sessions,
}
use xtp_rs.Udp.Pending.Bounds.{IsPending, IsPendingMap, Pushed, push_datagram-Pushed}
use xtp_rs.Udp.Pending.Delivery.{
  Conserved, Delivered, after_feed-Delivered, cached, handed-Delivered, payloads_of-append,
  payloads_of-map, put_back-Delivered, waiting,
}
use xtp_rs.Udp.Pending.Handlers.{
  else_forward, else_new, feed_entry, first_fed, first_needs_more, handle_entry, handle_found,
  handle_new_udp_sniff, handle_pending_udp_sniff, handle_udp_client_payload, target_ip_direct,
  try_sniffers,
}

module _ {S : Type 0} (feed : S → Text → UdpSniffOutcome × S) where
  -- The entry is given up, and the datagram follows it.
  flush_then-Delivered :
      (m : PendingSniffMap S) (spec : UdpSessionSpec) (payload : Text) (p : PendingUdpSniff S)
      → map_get m spec.key ≡ none
      → p.spec.key ≡ spec.key
      → Delivered spec.key
          (p.replay.datagrams ++ payload ∷ [])
          m
          (flush_pending_udp_sniff p ++ forward_udp_payload spec payload ∷ [], m)
  unfolding flush_pending_udp_sniff
  flush_then-Delivered m spec payload p absent q =
      handed-Delivered spec.key (p.replay.datagrams ++ payload ∷ []) m
        (map (forward_udp_payload p.spec) p.replay.datagrams
          ++ forward_udp_payload spec payload ∷ [])
        absent
        (λ k.
          rw
            (
              payloads_of-append k (map (forward_udp_payload p.spec) p.replay.datagrams)
                  (forward_udp_payload spec payload ∷ []),
              payloads_of-map k p.spec p.replay.datagrams,
              q,
            )
            (elim (Bool-cases (eq spec.key k)) [ inl t ↦ rw t refl | inr f ↦ rw f refl ]))

  feed_entry-Delivered :
      (now : ℕ) (m : PendingSniffMap S) (spec : UdpSessionSpec) (payload : Text)
      (p : PendingUdpSniff S) (r : Option PendingReplayBuffer)
      → length m < udp_sniff_max_pending_sessions
      → map_get m spec.key ≡ none
      → IsPending spec.key p
      → Pushed p.replay payload r
      → Delivered spec.key
          (p.replay.datagrams ++ payload ∷ [])
          m
          (feed_entry feed now m spec payload p r)
  feed_entry-Delivered now m spec payload p none room absent q d =
      flush_then-Delivered m spec payload p absent q.keyed
  feed_entry-Delivered now m spec payload p (some r) room absent q d =
      subst
        (λ ds.
          Delivered spec.key ds m
            (after_feed m spec.key (record p { replay = r }) (feed p.sniffer payload)))
        d.1
        (after_feed-Delivered m spec.key (record p { replay = r }) (feed p.sniffer payload) room
          absent q.keyed)

  handle_entry-Delivered :
      (now : ℕ) (m : PendingSniffMap S) (spec : UdpSessionSpec) (payload : Text)
      (p : PendingUdpSniff S)
      → length m < udp_sniff_max_pending_sessions
      → map_get m spec.key ≡ none
      → IsPending spec.key p
      → Delivered spec.key
          (p.replay.datagrams ++ payload ∷ [])
          m
          (handle_entry feed now m spec payload p)
  handle_entry-Delivered now m spec payload p room absent q = elim (Bool-cases (expired p now)) [
    | inl t ↦ rw t (flush_then-Delivered m spec payload p absent q.keyed)
    | inr f ↦ rw f (
        feed_entry-Delivered now m spec payload p (push_datagram p.replay payload) room absent q
          (push_datagram-Pushed p.replay payload q.replays))
  ]

  forward-Delivered :
      (m : PendingSniffMap S) (spec spec' : UdpSessionSpec) (payload : Text)
      → map_get m spec.key ≡ none
      → spec'.key ≡ spec.key
      → Delivered spec.key (payload ∷ []) m (forward_udp_payload spec' payload ∷ [], m)
  forward-Delivered m spec spec' payload absent q =
      handed-Delivered spec.key (payload ∷ []) m (forward_udp_payload spec' payload ∷ []) absent
        (λ k. rw q refl)

  first_needs_more-Delivered :
      (mode : QuicSniffMode) (timeout now : ℕ) (m : PendingSniffMap S) (spec : UdpSessionSpec)
      (payload : Text) (s : S)
      → length m < udp_sniff_max_pending_sessions
      → map_get m spec.key ≡ none
      → Delivered spec.key
          (payload ∷ [])
          m
          (first_needs_more feed mode timeout now m spec payload s)
  first_needs_more-Delivered full timeout now m spec payload s room absent =
      put_back-Delivered m spec.key (new_pending spec s payload timeout now) room
  first_needs_more-Delivered best_effort timeout now m spec payload s room absent =
      forward-Delivered m spec spec payload absent refl
  first_needs_more-Delivered sniff_none timeout now m spec payload s room absent =
      forward-Delivered m spec spec payload absent refl

  -- Of an optional result.
  abbrev EachDelivered :
      UdpSessionSpec → Text → PendingSniffMap S → Option (List Handed × PendingSniffMap S) → Type 0
  EachDelivered spec payload m = Each (Delivered spec.key (payload ∷ []) m)

  first_fed-Delivered :
      (st : PendingState S) (now : ℕ) (m : PendingSniffMap S) (spec : UdpSessionSpec)
      (payload : Text) (o : UdpSniffOutcome × S) (later : Option (List Handed × PendingSniffMap S))
      → length m < udp_sniff_max_pending_sessions
      → map_get m spec.key ≡ none
      → EachDelivered spec payload m later
      → EachDelivered spec payload m (first_fed feed st now m spec payload o later)
  first_fed-Delivered st now m spec payload (host_matched protocol host, s) later room absent l =
      forward-Delivered m spec (set_host spec host) payload absent refl
  first_fed-Delivered st now m spec payload (needs_more protocol, s) later room absent l =
      first_needs_more-Delivered st.quic_sniff_mode st.quic_sniff_pending_timeout now m spec payload
        s room absent
  first_fed-Delivered st now m spec payload (no_match, s) later room absent l = l
  first_fed-Delivered st now m spec payload (failed protocol e, s) later room absent l = l

  try_sniffers-Delivered :
      (st : PendingState S) (now : ℕ) (m : PendingSniffMap S) (spec : UdpSessionSpec)
      (payload : Text) (sniffers : List S)
      → length m < udp_sniff_max_pending_sessions
      → map_get m spec.key ≡ none
      → EachDelivered spec payload m (try_sniffers feed st now m spec payload sniffers)
  unfolding try_sniffers
  try_sniffers-Delivered st now m spec payload [] room absent = tt
  try_sniffers-Delivered st now m spec payload (s ∷ rest) room absent =
      first_fed-Delivered st now m spec payload (feed s payload)
        (try_sniffers feed st now m spec payload rest) room absent
        (try_sniffers-Delivered st now m spec payload rest room absent)

  else_forward-Delivered :
      (m : PendingSniffMap S) (spec : UdpSessionSpec) (payload : Text)
      (o : Option (List Handed × PendingSniffMap S))
      → map_get m spec.key ≡ none
      → EachDelivered spec payload m o
      → Delivered spec.key (payload ∷ []) m (else_forward feed m spec payload o)
  else_forward-Delivered m spec payload none absent o =
      forward-Delivered m spec spec payload absent refl
  else_forward-Delivered m spec payload (some r) absent o = o

  handle_new_udp_sniff-Delivered :
      (st : PendingState S) (cache : DirectCache) (now : ℕ) (m : PendingSniffMap S)
      (spec : UdpSessionSpec) (payload : Text)
      → length m < udp_sniff_max_pending_sessions
      → map_get m spec.key ≡ none
      → EachDelivered spec payload m (handle_new_udp_sniff feed st cache now m spec payload).0
  unfolding handle_new_udp_sniff
  handle_new_udp_sniff-Delivered st cache now m spec payload room absent =
      elim (Bool-cases (is_empty st.udp_sniffers)) [
        | inl t ↦ rw t tt
        | inr f ↦ rw f (elim (Bool-cases (target_ip_direct feed st cache now spec spec.routing).0) [
          | inl d ↦ rw d tt
          | inr d ↦ rw d (try_sniffers-Delivered st now m spec payload st.udp_sniffers room absent)
        ])
      ]

  -- The two ways of a datagram whose key has no ready session, by the entry of its key.
  by_entry-Delivered :
      (st : PendingState S) (cache : DirectCache) (now : ℕ) (m : PendingSniffMap S)
      (spec : UdpSessionSpec) (payload : Text) (o : Option (PendingUdpSniff S))
      → IsPendingMap m
      → length m < udp_sniff_max_pending_sessions
      → map_get m spec.key ≡ o
      → Each (IsPending spec.key) o
      → Delivered spec.key
          (cached o ++ payload ∷ [])
          m
          (else_new feed st cache now m spec payload (handle_found feed now m spec payload o)).0
  by_entry-Delivered st cache now m spec payload none h room at q =
      else_forward-Delivered m spec payload
        (handle_new_udp_sniff feed st cache now m spec payload).0 at
        (handle_new_udp_sniff-Delivered st cache now m spec payload room at)
  by_entry-Delivered st cache now m spec payload (some p) h room at q = λ k.
      let rest = map_remove m spec.key in
      let absent : map_get rest spec.key ≡ none =
        rw (map_get-remove m spec.key spec.key, (eq_iff spec.key spec.key).1 refl) refl in
      let kept =
        handle_entry-Delivered now rest spec payload p
          (omega (arith, length-map_remove_le m spec.key, room)) absent q k in
      let others : (if eq spec.key k then p.replay.datagrams ++ payload ∷ [] else waiting rest k)
          ≡ (if eq spec.key k then p.replay.datagrams ++ payload ∷ [] else waiting m k) =
        (elim (Bool-cases (eq spec.key k)) [
          | inl t ↦ rw t refl
          | inr f ↦ rw (map_get-remove m spec.key k, f) refl
        ]) in
      (kept.0 ∙ others, kept.1)

  -- As long as the runtime is open, fewer than 4096 entries wait and no entry waits under the key
  -- of the datagram if that key has a ready session: for every key, what is handed on and then
  -- what still waits is what waited before, followed by the datagram if it is one of that key.
  -- Nothing is lost, repeated or reordered, whatever the engines answer. And nothing waits under a
  -- key for which something was handed on.
  pub handle_udp_client_payload-conserves :
      (st : PendingState S) (ready : Bool) (cache : DirectCache) (now : ℕ) (m : PendingSniffMap S)
      (spec : UdpSessionSpec) (payload : Text) (k : UdpSessionKey)
      → IsPendingMap m
      → length m < udp_sniff_max_pending_sessions
      → (ready ≡ true → map_get m spec.key ≡ none)
      → Conserved m
          (if eq spec.key k then payload ∷ [] else [])
          k
          (handle_udp_client_payload feed st false ready cache now m spec payload).0
  unfolding handle_udp_client_payload handle_pending_udp_sniff
  handle_udp_client_payload-conserves st true cache now m spec payload k h room fresh =
      let absent = fresh refl in
      rw (map_remove-absent m spec.key absent) (elim (Bool-cases (eq spec.key k)) [
        | inl t ↦
            let here : map_get m k ≡ none =
              subst (λ j. map_get m j ≡ none) ((eq_iff spec.key k).0 t) absent in
            (rw (t, here) refl, inr here)
        | inr f ↦ (rw f (sym (append-nil (waiting m k))), inl (rw f refl))
      ])
  handle_udp_client_payload-conserves st false cache now m spec payload k h room fresh =
      let kept =
        by_entry-Delivered st cache now m spec payload (map_get m spec.key) h room refl
          (h.entries spec.key) k in
      let shared : (if eq spec.key k then waiting m spec.key ++ payload ∷ [] else waiting m k)
          ≡ waiting m k ++ (if eq spec.key k then payload ∷ [] else []) =
        (elim (Bool-cases (eq spec.key k)) [
          | inl t ↦ rw (t, ap (λ j. waiting m j) ((eq_iff spec.key k).0 t)) refl
          | inr f ↦ rw f (sym (append-nil (waiting m k)))
        ]) in
      (kept.0 ∙ shared, kept.1)
