-- ===== src/Udp/Pending/RunsConserve.antt =====
-- src/udp/pending.rs: every run keeps the invariant and every datagram.
use xtp_rs.Prelude.{
  All, All-append-split, Bool, Bool-cases, Each, List, Option, Text, [], ap, append-nil,
  append_assoc, arith, eq, eq_iff, false, if◌then◌else◌, inl, inr, length, list_eq, map_get,
  map_get-remove, nat_eq, none, option_eq, pair_eq, refl, some, subst, sym, true, ℕ, ◌++◌, ◌<◌, ◌∙◌,
  ◌∷◌, ◌≡◌, ◌≤◌, ◌⊎◌,
}
use xtp_rs.Direct.{DirectCache, ip_eq}
use xtp_rs.Udp.{UdpSessionKey, UdpSessionSpec, addr_eq, key_eq, kind_eq}
use xtp_rs.Udp.Pending.{
  Handed, PendingSniffMap, PendingState, PendingUdpSniff, UdpSniffOutcome,
  udp_sniff_max_cached_bytes, udp_sniff_max_pending_sessions,
}
use xtp_rs.Udp.Pending.Bounds.{IsPending, IsPendingMap}
use xtp_rs.Udp.Pending.Invariant.{
  handle_udp_client_payload-IsPendingMap, reap_pending_udp_sniff-IsPendingMap,
}
use xtp_rs.Udp.Pending.Reaper.{reap_pending_udp_sniff-Reaped}
use xtp_rs.Udp.Pending.Delivery.{Conserved, cached, payloads_of, payloads_of-append, waiting}
use xtp_rs.Udp.Pending.Conservation.{handle_udp_client_payload-conserves}
use xtp_rs.Udp.Pending.Handlers.{handle_udp_client_payload, reap_pending_udp_sniff}
use xtp_rs.Udp.Pending.Runs.{
  Event, PendingSystem, ReadyFrom, Run, Step, arrived, next, reap, receive, sessions_end, start,
  step_end, step_reap, step_receive,
}

-- No entry waits under a key with a ready session.
pub record IsSystem {S : Type 0} (s : PendingSystem S) : Type 0 where
  pub pending_map : IsPendingMap s.pending
  pub apart : (k : UdpSessionKey) → s.ready k ≡ true → map_get s.pending k ≡ none

abbrev pub Fits : Event → Type 0
Fits (receive spec payload) = length payload ≤ udp_sniff_max_cached_bytes
Fits reap = Unit
Fits sessions_end = Unit

abbrev pub arrivals : UdpSessionKey → List Event → List Text
arrivals k [] = []
arrivals k (e ∷ es) = arrived k e ++ arrivals k es

arrivals-append :
    (k : UdpSessionKey) (xs ys : List Event)
    → arrivals k (xs ++ ys) ≡ arrivals k xs ++ arrivals k ys
arrivals-append k [] ys = refl
arrivals-append k (x ∷ xs) ys =
    ap (λ l. arrived k x ++ l) (arrivals-append k xs ys)
    ∙ sym (append_assoc (arrived k x) (arrivals k xs) (arrivals k ys))

module _ {S : Type 0} where
  absent_of_empty :
      (k : UdpSessionKey) (o : Option (PendingUdpSniff S))
      → Each (IsPending k) o
      → cached o ≡ []
      → o ≡ none
  absent_of_empty k none h q = refl
  absent_of_empty k (some p) h q =
      absurd (omega (arith, h.replays.some_datagram, ap (λ l. length l) q))

  -- Where nothing waited, nothing arrived and nothing waits under a handed key, nothing waits.
  still_absent :
      (m : PendingSniffMap S) (r : List Handed × PendingSniffMap S) (k : UdpSessionKey)
      → IsPendingMap r.1
      → map_get m k ≡ none
      → Conserved m [] k r
      → map_get r.1 k ≡ none
  still_absent m r k h absent c = elim c.1 [
    | inr gone ↦ gone
    | inl quiet ↦
        let none_waits : waiting r.1 k ≡ [] =
          subst (λ l. l ++ waiting r.1 k ≡ []) quiet (c.0 ∙ rw absent refl) in
        absent_of_empty k (map_get r.1 k) (h.entries k) none_waits
  ]

  stay_apart :
      (before after : UdpSessionKey → Bool) (m : PendingSniffMap S)
      (r : List Handed × PendingSniffMap S) (k : UdpSessionKey)
      → IsPendingMap r.1
      → ReadyFrom before r.0 after
      → (before k ≡ true → map_get r.1 k ≡ none)
      → ((payloads_of k r.0 ≡ []) ⊎ (map_get r.1 k ≡ none))
      → after k ≡ true
      → map_get r.1 k ≡ none
  stay_apart before after m r k h from old settles now_ready = elim (from k now_ready) [
    | inl was ↦ old was
    | inr handed ↦ elim settles [ inl quiet ↦ absurd (handed quiet) | inr gone ↦ gone ]
  ]

module _ {S : Type 0} (feed : S → Text → UdpSniffOutcome × S) (st : PendingState S) where
  ready-removes :
      (cache : DirectCache) (now : ℕ) (m : PendingSniffMap S) (spec : UdpSessionSpec)
      (payload : Text) (ready : Bool)
      → ready ≡ true
      → map_get
          (handle_udp_client_payload feed st false ready cache now m spec payload).0.1
          spec.key
        ≡ none
  unfolding handle_udp_client_payload
  ready-removes cache now m spec payload true h =
      rw (map_get-remove m spec.key spec.key, (eq_iff spec.key spec.key).1 refl) refl
  ready-removes cache now m spec payload false h = cc

  Step-conserves :
      {s t : PendingSystem S} {e : Event} {handed : List Handed}
      → Step feed st s e handed t
      → IsSystem s
      → Fits e
      → length s.pending < udp_sniff_max_pending_sessions
      → IsSystem t × ((k : UdpSessionKey) → Conserved s.pending (arrived k e) k (handed, t.pending))
  Step-conserves (step_receive s now spec payload after from) h small room =
      let ready = s.ready spec.key in
      let r =
        (handle_udp_client_payload feed st false ready s.direct_cache now s.pending spec
          payload).0 in
      let kept =
        handle_udp_client_payload-IsPendingMap feed st false ready s.direct_cache now s.pending spec
          payload h.pending_map small in
      let c : (k : UdpSessionKey) → Conserved s.pending (arrived k (receive spec payload)) k r =
        λ k.
          handle_udp_client_payload-conserves feed st ready s.direct_cache now s.pending spec
            payload k h.pending_map room (h.apart spec.key) in
      (
        record {
          pending_map = kept;
          apart = λ k q.
              stay_apart s.ready after s.pending r k kept from
                (λ was. elim (Bool-cases (eq spec.key k)) [
                  | inl t ↦
                      let same = (eq_iff spec.key k).0 t in
                      subst (λ j. map_get r.1 j ≡ none) same
                        (ready-removes s.direct_cache now s.pending spec payload ready
                          (subst (λ j. s.ready j ≡ true) (sym same) was))
                  | inr f ↦ still_absent s.pending r k kept (h.apart k was) (
                      subst (λ b. Conserved s.pending (if b then payload ∷ [] else []) k r) f (c k))
                ])
                (c k).1 q;
        },
        c,
      )
  Step-conserves (step_reap s now after from) h small room =
      let r = reap_pending_udp_sniff now s.pending in
      let kept = reap_pending_udp_sniff-IsPendingMap now s.pending h.pending_map in
      let c : (k : UdpSessionKey) → Conserved s.pending [] k r =
        λ k. (reap_pending_udp_sniff-Reaped now s.pending k h.pending_map).1 in
      (
        record {
          pending_map = kept;
          apart = λ k q.
              stay_apart s.ready after s.pending r k kept from
                (λ was. still_absent s.pending r k kept (h.apart k was) (c k)) (c k).1 q;
        },
        c,
      )
  Step-conserves (step_end s after from) h small room = (
    record {
      pending_map = h.pending_map;
      apart = λ k q.
          stay_apart s.ready after s.pending ([], s.pending) k h.pending_map from (h.apart k)
            (inl refl) q;
    },
    λ k. (sym (append-nil (waiting s.pending k)), inl refl),
  )

  -- Every state that a run passes through, but the last, has room for one more entry.
  abbrev pub HasRoom :
      {s t : PendingSystem S} {events : List Event} {handed : List Handed}
      → Run feed st s events handed t
      → Type 0
  HasRoom start = Unit {0}
  HasRoom (next {t = t} run step) =
      HasRoom run × (length t.pending < udp_sniff_max_pending_sessions)

  -- In a run of the open runtime that starts with nothing waiting under a ready key, has no datagram
  -- above 64 KiB and never meets a full map: for every key, what was handed on in all and then what
  -- still waits is what waited at first, followed by every datagram that arrived for the key, in
  -- order; and still nothing waits under a ready key.
  pub Run-conserves :
      {s t : PendingSystem S} {events : List Event} {handed : List Handed}
      (run : Run feed st s events handed t)
      → IsSystem s
      → All Fits events
      → HasRoom run
      → IsSystem t
        × ((k : UdpSessionKey)
            → payloads_of k handed ++ waiting t.pending k
              ≡ waiting s.pending k ++ arrivals k events)
  Run-conserves {s = s} start h fits room = (h, λ k. sym (append-nil (waiting s.pending k)))
  Run-conserves {s = s}
        (next {events = es} {handed = done} {hs = hs} {t = t} {u = u} {e = e} run step) h fits
        room =
      let parts = All-append-split Fits es (e ∷ []) fits in
      let before = Run-conserves run h parts.0 room.0 in
      let last = Step-conserves step before.0 parts.1.0 room.1 in
      (
        last.0,
        λ k.
            let joined : payloads_of k (done ++ hs) ++ waiting u.pending k
                ≡ payloads_of k done ++ (payloads_of k hs ++ waiting u.pending k) =
              rw (payloads_of-append k done hs)
                (append_assoc (payloads_of k done) (payloads_of k hs) (waiting u.pending k)) in
            let moved : payloads_of k done ++ (payloads_of k hs ++ waiting u.pending k)
                ≡ waiting s.pending k ++ (arrivals k es ++ arrived k e) =
              rw ((last.1 k).0) (
                sym (append_assoc (payloads_of k done) (waiting t.pending k) (arrived k e))
                ∙ ap (λ l. l ++ arrived k e) (before.1 k)
                ∙ append_assoc (waiting s.pending k) (arrivals k es) (arrived k e)) in
            let all_arrived : arrivals k (es ++ e ∷ []) ≡ arrivals k es ++ arrived k e =
              rw (arrivals-append k es (e ∷ []))
                (ap (λ l. arrivals k es ++ l) (append-nil (arrived k e))) in
            joined ∙ moved ∙ ap (λ l. waiting s.pending k ++ l) (sym all_arrived),
      )
