-- ===== src/Udp/Sessions/Safety.antt =====
-- src/udp/mod.rs: what every interleaving guarantees of the table of sessions.
use xtp_rs.Prelude.{
  ==_refl, Bool, In, List, Option, Option-cases, [], ap, contains, false, false≢true, if_elim,
  if◌then◌else◌, inl, inr, list_eq, map_get, map_get-nil, nat_eq, none, option_eq, pair_eq, refl,
  some, sym, true, ℕ, ◌∙◌, ◌≡◌, ◌≢◌, ◌⊎◌,
}
use xtp_rs.Udp.{UdpSessionKey, addr_eq, key_eq, kind_eq}
use xtp_rs.Udp.Sessions.{
  Created, SessionResult, UdpRuntime, UdpSessionEntry, begin_at, begin_session, cancel, create_as,
  creating, creation_error, creation_failed, exited_before_registration, finish_session,
  get_ready_udp_session, is_cancelled, notify_waiters, put, ready, refused, register, remove,
  session, session_created, shutting_down, task_failed, wake,
}
use xtp_rs.Udp.Sessions.Steps.{
  Reach, Step, World, begin, clean, empty_world, finish, here, next, receive_ends, receive_leaves,
  seen, shutdown_clears, shutdown_closes,
}
use xtp_rs.Udp.Sessions.Invariant.{
  IsWorld, cancel-IsRuntime, contains-wake, none-some, ready-absent,
}
use xtp_rs.Udp.Sessions.Preserved.{begin_session-IsRuntime, finish_session-IsRuntime}
use xtp_rs.Udp.Sessions.Ending.{
  clear-IsRuntime, close-IsRuntime, leave_table-IsRuntime, remove_expired-IsRuntime,
  touch-IsRuntime,
}

Step-IsWorld : {w v : World} → Step w v → IsWorld w → IsWorld v
Step-IsWorld {w = w} (begin key fresh) h = begin_session-IsRuntime w.runtime key fresh h
Step-IsWorld {w = w} (finish key n created c) h =
    finish_session-IsRuntime w.runtime key n created h c
Step-IsWorld {w = w} (seen id now) h = touch-IsRuntime w.runtime id now h
Step-IsWorld {w = w} (clean now expired) h = remove_expired-IsRuntime now expired w.runtime h
Step-IsWorld {w = w} (receive_ends id) h = cancel-IsRuntime w.runtime id h
Step-IsWorld {w = w} (receive_leaves key id c) h = leave_table-IsRuntime w.runtime key id c h
Step-IsWorld {w = w} shutdown_closes h = close-IsRuntime w.runtime h
Step-IsWorld {w = w} (shutdown_clears closed) h = clear-IsRuntime w.runtime closed h

none-number : (n : ℕ) → none ≢ some n
none-number n q = cc

empty_world-IsWorld : (timeout : ℕ) → IsWorld (empty_world timeout)
empty_world-IsWorld timeout = record {
  owned = λ k n q. absurd (none-some (creating n) (sym (map_get-nil k) ∙ q));
  in_table = λ k n q. absurd (none-number n (sym (map_get-nil k) ∙ q));
  wakers = λ n q. absurd (false≢true q);
  held = λ k id m. absurd m;
  shut = λ q. absurd (false≢true q);
}

Reach-IsWorld : {v w : World} → Reach v w → IsWorld v → IsWorld w
Reach-IsWorld here h = h
Reach-IsWorld (next run step) h = Step-IsWorld step (Reach-IsWorld run h)

-- At any time, a session that a creator has come back with is registered under its key or
-- cancelled. Once the shutdown has cleared the table, it stays empty, every session is cancelled and
-- every request for a session is refused, however creators, receive loops and cleaners are
-- interleaved with it.
pub Reach-no_leak :
    (timeout : ℕ) (w : World)
    → Reach (empty_world timeout) w
    → ((k : UdpSessionKey) (id : ℕ)
        → In (k, id) w.made
        → (map_get w.runtime.sessions k ≡ some (ready id)) ⊎ (is_cancelled w.runtime id ≡ true))
      × (w.cleared ≡ true
          → (w.runtime.sessions ≡ [])
            × ((k : UdpSessionKey) (id : ℕ) → In (k, id) w.made → is_cancelled w.runtime id ≡ true)
            × ((k : UdpSessionKey) (fresh : ℕ) → (begin_session w.runtime k fresh).0 ≡ refused))
unfolding begin_session
Reach-no_leak timeout w run =
    let h = Reach-IsWorld run (empty_world-IsWorld timeout) in
    (
      h.held,
      λ c.
          let s = h.shut c in
          (
            s.0,
            λ k id m. elim (h.held k id m) [
              | inr gone ↦ gone
              | inl at ↦
                  absurd
                    (ready-absent id (sym (map_get-nil k) ∙ ap (λ m. map_get m k) (sym s.0) ∙ at))
            ],
            λ k fresh. rw s.1 refl,
          ),
    )

woken : (n : ℕ) (ws : List ℕ) → contains (wake n ws) n ≡ false
woken n ws = rw (contains-wake n n ws, ==_refl n) refl

-- Every finish wakes those who wait on its `Notify`.
finish_session-wakes :
    (r : UdpRuntime) (key : UdpSessionKey) (n : ℕ) (created : Created)
    → contains (finish_session r key n created).1.waiting_on n ≡ false
unfolding finish_session
finish_session-wakes r key n task_failed = woken n r.waiting_on
finish_session-wakes r key n creation_failed =
    if_elim (λ (x : SessionResult × UdpRuntime). contains x.1.waiting_on n ≡ false) r.closed
      (shutting_down, notify_waiters n (remove key r))
      (creation_error, notify_waiters n (remove key r)) (λ t. woken n r.waiting_on)
      (λ f. woken n r.waiting_on)
finish_session-wakes r key n (session_created id) =
    if_elim (λ (x : SessionResult × UdpRuntime). contains x.1.waiting_on n ≡ false) r.closed
      (shutting_down, cancel id (notify_waiters n (remove key r)))
      (register r key n (session_created id)) (λ t. woken n r.waiting_on)
      (λ f.
        if_elim (λ (x : SessionResult × UdpRuntime). contains x.1.waiting_on n ≡ false)
          (is_cancelled r id) (exited_before_registration, notify_waiters n (remove key r))
          (session id, notify_waiters n (put key (ready id) r)) (λ t. woken n r.waiting_on)
          (λ f. woken n r.waiting_on))

-- Whoever waits for a session waits for a creator that is still at work on that key and whose end, in
-- whatever way it comes, wakes the waiter: no wake-up is lost.
pub Reach-woken :
    (timeout : ℕ) (w : World) (n : ℕ)
    → Reach (empty_world timeout) w
    → contains w.runtime.waiting_on n ≡ true
    → (k : UdpSessionKey) × (map_get w.creators k ≡ some n)
      × ((created : Created)
          → contains (finish_session w.runtime k n created).1.waiting_on n ≡ false)
Reach-woken timeout w n run q =
    let h = Reach-IsWorld run (empty_world-IsWorld timeout) in
    let at = h.wakers n q in
    (at.0, h.owned at.0 n at.1, λ created. finish_session-wakes w.runtime at.0 n created)

only_create :
    (r : UdpRuntime) (key : UdpSessionKey) (fresh n : ℕ) (b : Bool) (o : Option UdpSessionEntry)
    → (if b then (refused, r) else begin_at r key fresh o).0 ≡ create_as n
    → (b ≡ false) × (o ≡ none)
only_create r key fresh n true o q = cc
only_create r key fresh n false (some (ready id)) q = cc
only_create r key fresh n false (some (creating m)) q = cc
only_create r key fresh n false none q = (refl, refl)

create_as-opened :
    (r : UdpRuntime) (key : UdpSessionKey) (fresh n : ℕ)
    → (begin_session r key fresh).0 ≡ create_as n
    → (r.closed ≡ false) × (map_get r.sessions key ≡ none)
unfolding begin_session
create_as-opened r key fresh n q = only_create r key fresh n r.closed (map_get r.sessions key) q

-- A caller is told to create a session only while the runtime is open, the key has no session, and
-- no other creator is at work on the key.
pub Reach-one_creator :
    (timeout : ℕ) (w : World) (key : UdpSessionKey) (fresh n : ℕ)
    → Reach (empty_world timeout) w
    → (begin_session w.runtime key fresh).0 ≡ create_as n
    → (w.runtime.closed ≡ false)
      × (get_ready_udp_session w.runtime key ≡ none)
      × (map_get w.creators key ≡ none)
unfolding get_ready_udp_session
Reach-one_creator timeout w key fresh n run q =
    let h = Reach-IsWorld run (empty_world-IsWorld timeout) in
    let opened = create_as-opened w.runtime key fresh n q in
    (
      opened.0,
      rw opened.1 refl,
      elim (Option-cases (map_get w.creators key)) [
        | inl free ↦ free
        | inr (m, busy) ↦ elim (h.in_table key m busy) [
          | inl present ↦ absurd (none-some (creating m) (sym opened.1 ∙ present))
          | inr over ↦ absurd (false≢true (sym opened.0 ∙ (h.shut over).1))
        ]
      ],
    )
