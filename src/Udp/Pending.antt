-- ===== src/Udp/Pending.antt =====
-- src/udp/pending.rs: the clients whose first datagrams wait until a server name is found. A
-- handler is one step: it takes the instant `now` and the map, and gives what it hands on to the
-- sessions, in order, with the map after it. The engines are a parameter.
pub mod Capacity
pub mod Oldest
pub mod Bounds
pub mod Invariant
pub mod Delivery
pub mod Conservation
pub mod Reaper
pub mod Runs
pub mod RunsConserve
pub mod Handlers
use mathlib.Core.List.{map}
use xtp_rs.Prelude.{
  Bool, List, Option, Text, [], false, if◌then◌else◌, leb, length, list_eq, ltb, map_insert,
  map_remove, min, nat_eq, none, option_eq, pair_eq, some, suc, true, zero, ℕ, ◌++◌, ◌+◌, ◌-◌, ◌^◌,
  ◌||◌, ◌∷◌,
}
use xtp_rs.Direct.{DirectState, ip_eq}
use xtp_rs.Sniff.Quic.Reassembly.{UdpSniffError}
use xtp_rs.Udp.{UdpSessionKey, UdpSessionSpec, addr_eq, key_eq, kind_eq}

abbrev pub udp_sniff_no_clue_limit : ℕ
udp_sniff_no_clue_limit = 2

abbrev pub udp_sniff_max_cached_datagrams : ℕ
udp_sniff_max_cached_datagrams = 8

abbrev pub udp_sniff_max_cached_bytes : ℕ
udp_sniff_max_cached_bytes = 65536

abbrev pub udp_sniff_max_pending_sessions : ℕ
udp_sniff_max_pending_sessions = 4096

pub data UdpSniffProtocol : Type 0 where
  quic_sni : UdpSniffProtocol

pub data UdpSniffOutcome : Type 0 where
  host_matched : UdpSniffProtocol → Text → UdpSniffOutcome
  no_match : UdpSniffOutcome
  needs_more : UdpSniffProtocol → UdpSniffOutcome
  failed : UdpSniffProtocol → UdpSniffError → UdpSniffOutcome

pub data QuicSniffMode : Type 0 where
  sniff_none best_effort full : QuicSniffMode

pub record PendingReplayBuffer : Type 0 where
  pub datagrams : List Text
  pub cached_bytes : ℕ

abbrev pub usize_max : ℕ
usize_max = 2 ^ 64 - 1

abbrev pub saturating_add : ℕ → ℕ → ℕ
saturating_add a b = min (a + b) usize_max

abbrev pub new_replay : Text → PendingReplayBuffer
new_replay first_payload = record {
  datagrams = first_payload ∷ [];
  cached_bytes = length first_payload;
}

-- `none` where the source returns false and changes nothing.
unfoldable pub push_datagram : PendingReplayBuffer → Text → Option PendingReplayBuffer
push_datagram r payload =
    let next_bytes = saturating_add r.cached_bytes (length payload) in
    if leb udp_sniff_max_cached_datagrams (length r.datagrams)
      || ltb udp_sniff_max_cached_bytes next_bytes
    then none
    else some (record { datagrams = r.datagrams ++ payload ∷ []; cached_bytes = next_bytes })

-- What a handler hands on: a datagram for the session of a specification, which is created if
-- there is none (`forward_udp_payload`), or for the ready session of a key.
pub data Handed : Type 0 where
  forward_udp_payload : UdpSessionSpec → Text → Handed
  forward_udp_payload_to_session : UdpSessionKey → Text → Handed

pub record PendingUdpSniff (S : Type 0) : Type 0 where
  pub deadline : ℕ
  pub no_clue_attempts : ℕ
  pub spec : UdpSessionSpec
  pub sniffer : S
  pub replay : PendingReplayBuffer

-- The fields of `AppState` and of its configuration that the handlers read.
pub record PendingState (S : Type 0) : Type 0 where
  pub direct : DirectState
  pub udp_sniffers : List S
  pub quic_sniff_mode : QuicSniffMode
  pub quic_sniff_pending_timeout : ℕ

abbrev pub set_host : UdpSessionSpec → Text → UdpSessionSpec
set_host spec host = record spec { sniffed_host = some host }

abbrev pub PendingSniffMap : Type 0 → Type 0
PendingSniffMap S = List (UdpSessionKey × PendingUdpSniff S)

module _ {S : Type 0} where
  abbrev pub new_pending : UdpSessionSpec → S → Text → ℕ → ℕ → PendingUdpSniff S
  new_pending spec sniffer first_payload pending_timeout now = record {
    deadline = now + pending_timeout;
    no_clue_attempts = 0;
    spec = spec;
    sniffer = sniffer;
    replay = new_replay first_payload;
  }

  abbrev pub expired : PendingUdpSniff S → ℕ → Bool
  expired p now = leb p.deadline now

  abbrev pub record_no_clue : PendingUdpSniff S → Bool × PendingUdpSniff S
  record_no_clue p = (
    leb udp_sniff_no_clue_limit (p.no_clue_attempts + 1),
    record p { no_clue_attempts = p.no_clue_attempts + 1 },
  )

  unfoldable pub flush_pending_udp_sniff : PendingUdpSniff S → List Handed
  flush_pending_udp_sniff p = map (forward_udp_payload p.spec) p.replay.datagrams

  -- `min_by_key`: the first entry with the least deadline, in the order of the map.
  abbrev pub older :
      UdpSessionKey × PendingUdpSniff S
      → Option (UdpSessionKey × PendingUdpSniff S)
      → Option (UdpSessionKey × PendingUdpSniff S)
  older e none = some e
  older e (some f) = if leb e.1.deadline f.1.deadline then some e else some f

  unfoldable pub oldest_entry : PendingSniffMap S → Option (UdpSessionKey × PendingUdpSniff S)
  oldest_entry [] = none
  oldest_entry (e ∷ m) = older e (oldest_entry m)

  abbrev pub drop_oldest :
      (PendingSniffMap S → PendingSniffMap S)
      → PendingSniffMap S
      → Option (UdpSessionKey × PendingUdpSniff S)
      → PendingSniffMap S
  drop_oldest rest m none = m
  drop_oldest rest m (some e) = rest (map_remove m e.0)

  -- The loop of `enforce_pending_udp_sniff_capacity`, which runs once for each entry too many.
  unfoldable pub enforce_loop : ℕ → PendingSniffMap S → PendingSniffMap S
  enforce_loop zero m = m
  enforce_loop (suc n) m =
      if ltb udp_sniff_max_pending_sessions (length m)
      then drop_oldest (λ rest. enforce_loop n rest) m (oldest_entry m)
      else m

  unfoldable pub enforce_pending_udp_sniff_capacity : PendingSniffMap S → PendingSniffMap S
  unfolding enforce_loop
  enforce_pending_udp_sniff_capacity m = enforce_loop (length m) m

  abbrev pub put_back :
      PendingSniffMap S → UdpSessionKey → PendingUdpSniff S → List Handed × PendingSniffMap S
  put_back m key p = ([], enforce_pending_udp_sniff_capacity (map_insert m key p))

  abbrev pub count_no_clue :
      PendingSniffMap S → UdpSessionKey → Bool × PendingUdpSniff S → List Handed × PendingSniffMap S
  count_no_clue m key (true, p) = (flush_pending_udp_sniff p, m)
  count_no_clue m key (false, p) = put_back m key p

  -- What an engine's answer does to the entry that was taken out of the map.
  abbrev pub after_feed :
      PendingSniffMap S
      → UdpSessionKey
      → PendingUdpSniff S
      → UdpSniffOutcome × S
      → List Handed × PendingSniffMap S
  after_feed m key p (host_matched protocol host, s) =
      (flush_pending_udp_sniff (record p { spec = set_host p.spec host; sniffer = s }), m)
  after_feed m key p (needs_more protocol, s) = put_back m key (record p { sniffer = s })
  after_feed m key p (no_match, s) = count_no_clue m key (record_no_clue (record p { sniffer = s }))
  after_feed m key p (failed protocol e, s) =
      (flush_pending_udp_sniff (record p { sniffer = s }), m)
