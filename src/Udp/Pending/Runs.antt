-- ===== src/Udp/Pending/Runs.antt =====
-- src/udp/pending.rs beside the table of sessions of src/udp/mod.rs: datagrams, rounds of the reaper
-- and ends of sessions, in any order, each handler being one step.
use xtp_rs.Prelude.{
  Bool, List, Text, [], eq, false, if◌then◌else◌, list_eq, nat_eq, option_eq, pair_eq, true, ℕ,
  ◌++◌, ◌∷◌, ◌≡◌, ◌≢◌, ◌⊎◌,
}
use xtp_rs.Direct.{DirectCache, ip_eq}
use xtp_rs.Udp.{UdpSessionKey, UdpSessionSpec, addr_eq, key_eq, kind_eq}
use xtp_rs.Udp.Pending.{Handed, PendingSniffMap, PendingState, UdpSniffOutcome}
use xtp_rs.Udp.Pending.Delivery.{payloads_of}
use xtp_rs.Udp.Pending.Handlers.{handle_udp_client_payload, reap_pending_udp_sniff}

-- `ready` is whether `get_ready_udp_session` finds a session.
pub record PendingSystem (S : Type 0) : Type 0 where
  pub ready : UdpSessionKey → Bool
  pub direct_cache : DirectCache
  pub pending : PendingSniffMap S

-- A session becomes ready only for a key for which something is handed on.
abbrev pub ReadyFrom : (UdpSessionKey → Bool) → List Handed → (UdpSessionKey → Bool) → Type 0
ReadyFrom before handed after =
    (k : UdpSessionKey) → after k ≡ true → (before k ≡ true) ⊎ (payloads_of k handed ≢ [])

pub data Event : Type 0 where
  receive : UdpSessionSpec → Text → Event
  reap : Event
  sessions_end : Event

-- The datagram of a key in an event.
abbrev pub arrived : UdpSessionKey → Event → List Text
arrived k (receive spec payload) = if eq spec.key k then payload ∷ [] else []
arrived k reap = []
arrived k sessions_end = []

module _ {S : Type 0} (feed : S → Text → UdpSniffOutcome × S) (st : PendingState S) where
  pub data Step : PendingSystem S → Event → List Handed → PendingSystem S → Type 0 where
    step_receive :
        (s : PendingSystem S) (now : ℕ) (spec : UdpSessionSpec) (payload : Text)
        (after : UdpSessionKey → Bool)
        → ReadyFrom s.ready
            (handle_udp_client_payload feed st false
              (s.ready spec.key)
              s.direct_cache
              now
              s.pending
              spec
              payload).0.0
            after
        → Step s
            (receive spec payload)
            (handle_udp_client_payload feed st false
              (s.ready spec.key)
              s.direct_cache
              now
              s.pending
              spec
              payload).0.0
            (record {
              ready = after;
              direct_cache =
                  (handle_udp_client_payload feed st false
                    (s.ready spec.key)
                    s.direct_cache
                    now
                    s.pending
                    spec
                    payload).1;
              pending =
                  (handle_udp_client_payload feed st false
                    (s.ready spec.key)
                    s.direct_cache
                    now
                    s.pending
                    spec
                    payload).0.1;
            })
    step_reap :
        (s : PendingSystem S) (now : ℕ) (after : UdpSessionKey → Bool)
        → ReadyFrom s.ready (reap_pending_udp_sniff now s.pending).0 after
        → Step s reap (reap_pending_udp_sniff now s.pending).0 (record {
          ready = after;
          direct_cache = s.direct_cache;
          pending = (reap_pending_udp_sniff now s.pending).1;
        })
    step_end :
        (s : PendingSystem S) (after : UdpSessionKey → Bool)
        → ReadyFrom s.ready [] after
        → Step s sessions_end [] (record s { ready = after })

  pub data Run (s : PendingSystem S) : List Event → List Handed → PendingSystem S → Type 0 where
    start : Run s [] [] s
    next :
        {events : List Event} {handed hs : List Handed} {t u : PendingSystem S} {e : Event}
        → Run s events handed t
        → Step t e hs u
        → Run s (events ++ e ∷ []) (handed ++ hs) u
