-- ===== src/Tests/Waiting.antt =====
-- Pending UDP clients (src/udp/pending.rs). The engine counts what it was fed and finds a name in
-- the second datagram.
use xtp_rs.Prelude.{
  Bool, List, Text, UniqueKeys, [], ap, arith, false, inl, keep_if, length, list_eq, map_get,
  map_insert, map_remove, min, nat_eq, none, not, option_eq, pair_eq, refl, subst, suc, text, true,
  zero, ℕ, ◌++◌, ◌-◌, ◌==◌, ◌∷◌, ◌≡◌, ◌≤◌,
}
use xtp_rs.Routes.{ip4}
use xtp_rs.Direct.{DirectCache, DirectState, global, ip_eq}
use xtp_rs.DomainSet.{empty}
use xtp_rs.Socks5.{SocketAddr}
use xtp_rs.Udp.{UdpSessionKey, UdpSessionSpec, addr_eq, for_tproxy, key_eq, kind_eq}
use xtp_rs.Udp.Pending.{
  Handed, PendingSniffMap, PendingState, UdpSniffOutcome, enforce_pending_udp_sniff_capacity,
  expired, flush_pending_udp_sniff, forward_udp_payload, full, host_matched, needs_more, new_replay,
  push_datagram, quic_sni, set_host, udp_sniff_max_pending_sessions,
}
use xtp_rs.Udp.Pending.Handlers.{handle_udp_client_payload, reap_pending_udp_sniff}
use xtp_rs.Udp.Pending.Oldest.{DropsOldest, Smaller, enforce-DropsOldest}
use xtp_rs.Udp.Pending.Bounds.{IsPendingMap, Pushed, push_datagram-Pushed}
use xtp_rs.Udp.Pending.Invariant.{handle_udp_client_payload-IsPendingMap}
use xtp_rs.Udp.Pending.Delivery.{Conserved, payloads_of, waiting}
use xtp_rs.Udp.Pending.Conservation.{handle_udp_client_payload-conserves}
use xtp_rs.Udp.Pending.Reaper.{reap_pending_udp_sniff-Reaped}
use xtp_rs.Udp.Pending.Runs.{Event, PendingSystem, Run, next, receive, start, step_receive}
use xtp_rs.Udp.Pending.RunsConserve.{IsSystem, Run-conserves, arrivals}

abbrev second_datagram : ℕ → Text → UdpSniffOutcome × ℕ
second_datagram zero payload = (needs_more quic_sni, 1)
second_datagram (suc n) payload = (host_matched quic_sni (text "a.org"), suc (suc n))

abbrev global_state : DirectState
global_state = record {
  proxy_mode = global;
  route_cache_ttl = 60;
  route_cache_max = 2;
  direct_local_ip = true;
  force_socks5_domains = empty;
  force_direct_domains = empty;
  compiled_geosite = none;
  proxy_geosite_tags = [];
  direct_geosite_tags = [];
  force_socks5_v4 = λ ip. false;
  force_socks5_v6 = λ ip. false;
  force_direct_v4 = λ ip. false;
  force_direct_v6 = λ ip. false;
  country_code = λ ip. none;
  direct_countries = [];
}

abbrev full_mode : PendingState ℕ
full_mode = record {
  direct = global_state;
  udp_sniffers = 0 ∷ [];
  quic_sniff_mode = full;
  quic_sniff_pending_timeout = 200;
}

abbrev client : SocketAddr
client = record { ip = ip4 1; port = 5000 }

abbrev spec : UdpSessionSpec
spec = for_tproxy client (record { ip = ip4 8; port = 443 })

abbrev nothing : PendingSniffMap ℕ
nothing = []

nothing-IsPendingMap : IsPendingMap nothing
unfolding map_get
nothing-IsPendingMap = record { unique = tt; bounded = omega arith; entries = λ key. tt }

-- The first datagram waits; the second brings the name, and both are handed on with it.
abbrev after_first : PendingSniffMap ℕ
after_first =
    (
      spec.key,
      record {
        deadline = 300;
        no_clue_attempts = 0;
        spec = spec;
        sniffer = 1;
        replay = new_replay (1 ∷ []);
      },
    )
    ∷ []

first_test :
    (handle_udp_client_payload second_datagram full_mode false false [] 100 nothing spec (1 ∷ [])).0
    ≡ ([], after_first)
unfolding handle_udp_client_payload map_get enforce_pending_udp_sniff_capacity map_insert
first_test = refl

second_test :
    (handle_udp_client_payload second_datagram full_mode false false [] 150 after_first spec
      (2 ∷ [])).0
    ≡ (
      forward_udp_payload (set_host spec (text "a.org")) (1 ∷ [])
          ∷ forward_udp_payload (set_host spec (text "a.org")) (2 ∷ [])
          ∷ [],
      [],
    )
unfolding handle_udp_client_payload map_get push_datagram flush_pending_udp_sniff map_remove
second_test = refl

after_first-IsPendingMap : IsPendingMap after_first
after_first-IsPendingMap =
    subst (λ r. IsPendingMap r.1) first_test
      (handle_udp_client_payload-IsPendingMap second_datagram full_mode false false [] 100 nothing
        spec (1 ∷ []) nothing-IsPendingMap (omega arith))

push_datagram-Pushed_example :
    Pushed (new_replay (1 ∷ [])) (2 ∷ []) (push_datagram (new_replay (1 ∷ [])) (2 ∷ []))
push_datagram-Pushed_example = push_datagram-Pushed (new_replay (1 ∷ [])) (2 ∷ []) (record {
  some_datagram = omega arith;
  few = omega arith;
  counted = omega arith;
  small = omega arith;
})

-- `n` clients, each with an earlier deadline than the ones after it.
crowd : ℕ → PendingSniffMap ℕ
crowd zero = []
crowd (suc n) =
    (
      (for_tproxy (record { ip = ip4 n; port = 5000 }) client).key,
      record {
        deadline = 9000 - n;
        no_clue_attempts = 0;
        spec = spec;
        sniffer = 1;
        replay = new_replay (1 ∷ []);
      },
    )
    ∷ crowd n

length-crowd : (n : ℕ) → length (crowd n) ≡ n
unfolding crowd
length-crowd zero = refl
length-crowd (suc n) = ap suc (length-crowd n)

crowd-absent :
    (n i : ℕ)
    → n ≤ i
    → map_get (crowd n) (for_tproxy (record { ip = ip4 i; port = 5000 }) client).key ≡ none
unfolding crowd map_get
crowd-absent zero i h = refl
crowd-absent (suc n) i h =
    let apart : (n == i) ≡ false = ground (arith, h) in
    rw apart (crowd-absent n i (omega (arith, h)))

crowd-UniqueKeys : (n : ℕ) → UniqueKeys (crowd n)
unfolding crowd
crowd-UniqueKeys zero = tt
crowd-UniqueKeys (suc n) = (crowd-absent n n (omega arith), crowd-UniqueKeys n)

-- From 5000 clients 904 leave.
enforce-DropsOldest_example :
    UniqueKeys (enforce_pending_udp_sniff_capacity (crowd 5000))
    × DropsOldest (crowd 5000) (enforce_pending_udp_sniff_capacity (crowd 5000))
    × Smaller (crowd 5000) (enforce_pending_udp_sniff_capacity (crowd 5000))
    × (length (enforce_pending_udp_sniff_capacity (crowd 5000))
        ≡ min (length (crowd 5000)) udp_sniff_max_pending_sessions)
enforce-DropsOldest_example = enforce-DropsOldest (crowd 5000) (crowd-UniqueKeys 5000)

crowd_left : length (enforce_pending_udp_sniff_capacity (crowd 5000)) ≡ 4096
crowd_left =
    omega (arith, (enforce-DropsOldest (crowd 5000) (crowd-UniqueKeys 5000)).3, length-crowd 5000)

handle_udp_client_payload-IsPendingMap_example :
    IsPendingMap
      (handle_udp_client_payload second_datagram full_mode false false [] 150 after_first spec
        (2 ∷ [])).0.1
handle_udp_client_payload-IsPendingMap_example =
    handle_udp_client_payload-IsPendingMap second_datagram full_mode false false [] 150 after_first
      spec (2 ∷ []) after_first-IsPendingMap (omega arith)

handle_udp_client_payload-conserves_example :
    Conserved after_first
      ((2 ∷ []) ∷ [])
      spec.key
      (handle_udp_client_payload second_datagram full_mode false false [] 150 after_first spec
        (2 ∷ [])).0
handle_udp_client_payload-conserves_example =
    handle_udp_client_payload-conserves second_datagram full_mode false [] 150 after_first spec
      (2 ∷ []) spec.key after_first-IsPendingMap (omega arith) (λ h. cc)

reap_pending_udp_sniff-Reaped_example :
    (map_get (reap_pending_udp_sniff 300 after_first).1 spec.key
      ≡ keep_if (λ j p. not (expired p 300)) spec.key (map_get after_first spec.key))
    × Conserved after_first [] spec.key (reap_pending_udp_sniff 300 after_first)
reap_pending_udp_sniff-Reaped_example =
    reap_pending_udp_sniff-Reaped 300 after_first spec.key after_first-IsPendingMap

abbrev no_session : UdpSessionKey → Bool
no_session k = false

abbrev waiting_system : PendingSystem ℕ
waiting_system = record { ready = no_session; direct_cache = []; pending = after_first }

waiting_system-IsSystem : IsSystem waiting_system
waiting_system-IsSystem = record { pending_map = after_first-IsPendingMap; apart = λ k h. cc }

abbrev second_receive : Event
second_receive = receive spec (2 ∷ [])

abbrev second_handled : (List Handed × PendingSniffMap ℕ) × DirectCache
second_handled =
    handle_udp_client_payload second_datagram full_mode false false [] 150 after_first spec (2 ∷ [])

abbrev after_second : PendingSystem ℕ
after_second = record {
  ready = no_session;
  direct_cache = second_handled.1;
  pending = second_handled.0.1;
}

abbrev second_run :
    Run second_datagram full_mode waiting_system
      (second_receive ∷ [])
      second_handled.0.0
      after_second
second_run = next start (step_receive waiting_system 150 spec (2 ∷ []) no_session (λ k h. inl h))

Run-conserves_example :
    IsSystem after_second
    × ((k : UdpSessionKey)
        → payloads_of k second_handled.0.0 ++ waiting after_second.pending k
          ≡ waiting after_first k ++ arrivals k (second_receive ∷ []))
Run-conserves_example =
    Run-conserves second_datagram full_mode second_run waiting_system-IsSystem (omega arith, tt)
      (tt, omega arith)
