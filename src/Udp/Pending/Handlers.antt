-- ===== src/Udp/Pending/Handlers.antt =====
-- The handlers of src/udp/pending.rs: a datagram of a client, the reaper.
use xtp_rs.Prelude.{
  Bool, List, Option, Text, [], false, if◌then◌else◌, is_empty, list_eq, map_get, map_remove,
  nat_eq, none, option_eq, pair_eq, some, ℕ, ◌++◌, ◌∷◌,
}
use xtp_rs.Direct.{DirectCache, ip_eq, should_direct}
use xtp_rs.Udp.{
  UdpRoutingMode, UdpSessionKey, UdpSessionSpec, addr_eq, auto, force_socks5, key_eq, kind_eq,
}
use xtp_rs.Udp.Pending.{
  Handed, PendingReplayBuffer, PendingSniffMap, PendingState, PendingUdpSniff, QuicSniffMode,
  UdpSniffOutcome, after_feed, best_effort, enforce_pending_udp_sniff_capacity, expired, failed,
  flush_pending_udp_sniff, forward_udp_payload, forward_udp_payload_to_session, full, host_matched,
  needs_more, new_pending, no_match, push_datagram, put_back, set_host, sniff_none,
}

module _ {S : Type 0} (feed : S → Text → UdpSniffOutcome × S) where
  -- What happens to the pending entry of the datagram's key.
  abbrev pub feed_entry :
      ℕ
      → PendingSniffMap S
      → UdpSessionSpec
      → Text
      → PendingUdpSniff S
      → Option PendingReplayBuffer
      → List Handed × PendingSniffMap S
  feed_entry now m spec payload p none =
      (flush_pending_udp_sniff p ++ forward_udp_payload spec payload ∷ [], m)
  feed_entry now m spec payload p (some replay) =
      after_feed m spec.key (record p { replay = replay }) (feed p.sniffer payload)

  abbrev pub handle_entry :
      ℕ
      → PendingSniffMap S
      → UdpSessionSpec
      → Text
      → PendingUdpSniff S
      → List Handed × PendingSniffMap S
  handle_entry now m spec payload p =
      if expired p now
      then (flush_pending_udp_sniff p ++ forward_udp_payload spec payload ∷ [], m)
      else feed_entry now m spec payload p (push_datagram p.replay payload)

  abbrev pub handle_found :
      ℕ
      → PendingSniffMap S
      → UdpSessionSpec
      → Text
      → Option (PendingUdpSniff S)
      → Option (List Handed × PendingSniffMap S)
  handle_found now m spec payload none = none
  handle_found now m spec payload (some p) =
      some (handle_entry now (map_remove m spec.key) spec payload p)

  -- `none` where the source returns false, with nothing changed.
  unfoldable pub handle_pending_udp_sniff :
      ℕ → PendingSniffMap S → UdpSessionSpec → Text → Option (List Handed × PendingSniffMap S)
  handle_pending_udp_sniff now m spec payload = handle_found now m spec payload (map_get m spec.key)

  abbrev pub first_needs_more :
      QuicSniffMode
      → ℕ
      → ℕ
      → PendingSniffMap S
      → UdpSessionSpec
      → Text
      → S
      → List Handed × PendingSniffMap S
  first_needs_more full timeout now m spec payload s =
      put_back m spec.key (new_pending spec s payload timeout now)
  first_needs_more best_effort timeout now m spec payload s =
      (forward_udp_payload spec payload ∷ [], m)
  first_needs_more sniff_none timeout now m spec payload s =
      (forward_udp_payload spec payload ∷ [], m)

  abbrev pub first_fed :
      PendingState S
      → ℕ
      → PendingSniffMap S
      → UdpSessionSpec
      → Text
      → UdpSniffOutcome × S
      → Option (List Handed × PendingSniffMap S)
      → Option (List Handed × PendingSniffMap S)
  first_fed st now m spec payload (host_matched protocol host, s) later =
      some (forward_udp_payload (set_host spec host) payload ∷ [], m)
  first_fed st now m spec payload (needs_more protocol, s) later =
      some (first_needs_more st.quic_sniff_mode st.quic_sniff_pending_timeout now m spec payload s)
  first_fed st now m spec payload (no_match, s) later = later
  first_fed st now m spec payload (failed protocol e, s) later = later

  -- The loop over the engines, each with a session of its own.
  unfoldable pub try_sniffers :
      PendingState S
      → ℕ
      → PendingSniffMap S
      → UdpSessionSpec
      → Text
      → List S
      → Option (List Handed × PendingSniffMap S)
  try_sniffers st now m spec payload [] = none
  try_sniffers st now m spec payload (s ∷ rest) =
      first_fed st now m spec payload (feed s payload) (try_sniffers st now m spec payload rest)

  -- Only `auto` routing asks `should_direct`, and only if there is an engine.
  abbrev pub target_ip_direct :
      PendingState S → DirectCache → ℕ → UdpSessionSpec → UdpRoutingMode → Bool × DirectCache
  target_ip_direct st cache now spec auto =
      should_direct st.direct cache now spec.key.target_addr.ip none
  target_ip_direct st cache now spec force_socks5 = (false, cache)

  unfoldable pub handle_new_udp_sniff :
      PendingState S
      → DirectCache
      → ℕ
      → PendingSniffMap S
      → UdpSessionSpec
      → Text
      → Option (List Handed × PendingSniffMap S) × DirectCache
  unfolding try_sniffers should_direct
  handle_new_udp_sniff st cache now m spec payload =
      if is_empty st.udp_sniffers
      then (none, cache)
      else let direct = target_ip_direct st cache now spec spec.routing in
        ((if direct.0 then none else try_sniffers st now m spec payload st.udp_sniffers), direct.1)

  abbrev pub else_forward :
      PendingSniffMap S
      → UdpSessionSpec
      → Text
      → Option (List Handed × PendingSniffMap S)
      → List Handed × PendingSniffMap S
  else_forward m spec payload (some r) = r
  else_forward m spec payload none = (forward_udp_payload spec payload ∷ [], m)

  abbrev pub else_new :
      PendingState S
      → DirectCache
      → ℕ
      → PendingSniffMap S
      → UdpSessionSpec
      → Text
      → Option (List Handed × PendingSniffMap S)
      → (List Handed × PendingSniffMap S) × DirectCache
  else_new st cache now m spec payload (some r) = (r, cache)
  else_new st cache now m spec payload none =
      let r = handle_new_udp_sniff st cache now m spec payload in
      (else_forward m spec payload r.0, r.1)

  -- `closed` and `ready` are what the runtime of the sessions says at the call: whether it shuts
  -- down, and whether the key has a ready session.
  unfoldable pub handle_udp_client_payload :
      PendingState S
      → Bool
      → Bool
      → DirectCache
      → ℕ
      → PendingSniffMap S
      → UdpSessionSpec
      → Text
      → (List Handed × PendingSniffMap S) × DirectCache
  unfolding handle_pending_udp_sniff handle_new_udp_sniff
  handle_udp_client_payload st closed ready cache now m spec payload =
      if closed
      then (([], m), cache)
      else if ready
      then ((forward_udp_payload_to_session spec.key payload ∷ [], map_remove m spec.key), cache)
      else else_new st cache now m spec payload (handle_pending_udp_sniff now m spec payload)

module _ {S : Type 0} where
  unfoldable pub expired_keys : ℕ → PendingSniffMap S → List UdpSessionKey
  expired_keys now [] = []
  expired_keys now ((key, p) ∷ m) =
      let rest = expired_keys now m in if expired p now then key ∷ rest else rest

  abbrev pub flush_found :
      Option (PendingUdpSniff S) → List Handed × PendingSniffMap S → List Handed × PendingSniffMap S
  flush_found none r = r
  flush_found (some p) r = (flush_pending_udp_sniff p ++ r.0, r.1)

  unfoldable pub flush_keys :
      List UdpSessionKey → PendingSniffMap S → List Handed × PendingSniffMap S
  flush_keys [] m = ([], m)
  flush_keys (key ∷ keys) m = flush_found (map_get m key) (flush_keys keys (map_remove m key))

  unfoldable pub reap_pending_udp_sniff : ℕ → PendingSniffMap S → List Handed × PendingSniffMap S
  unfolding expired_keys flush_keys enforce_pending_udp_sniff_capacity
  reap_pending_udp_sniff now m =
      let r = flush_keys (expired_keys now m) m in (r.0, enforce_pending_udp_sniff_capacity r.1)
