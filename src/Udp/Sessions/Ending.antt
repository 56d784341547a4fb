-- ===== src/Udp/Sessions/Ending.antt =====
-- src/udp/mod.rs: the cleaner, the receive loops and the shutdown keep the invariant of the table.
use xtp_rs.Prelude.{
  ==_iff, ==_refl, Bool, Bool-cases, List, Option, [], and-split, ap, arith, contains, eq,
  false≢true, if_elim, if◌then◌else◌, inl, inr, list_eq, map_get, map_get-nil, nat_eq, none,
  option_eq, or_intro_right, pair_eq, refl, some, subst, sym, true, ℕ, ◌==◌, ◌∙◌, ◌∷◌, ◌≡◌, ◌≢◌,
}
use xtp_rs.Udp.{UdpSessionKey, addr_eq, key_eq, kind_eq}
use xtp_rs.Udp.Sessions.{
  UdpRuntime, UdpSessionEntry, cancel, clear, close, creating, end_entries, end_entry, is_cancelled,
  is_expired, leave_table, notify_waiters, ready, remove, remove_expired, same_session,
  should_remove, touch,
}
use xtp_rs.Udp.Sessions.Steps.{KeyedIds}
use xtp_rs.Udp.Sessions.Invariant.{
  IsRuntime, cancel-IsRuntime, none-some, not_woken, remove_ready-IsRuntime,
}

pub same_session-ready :
    (id : ℕ) (o : Option UdpSessionEntry) → same_session id o ≡ true → o ≡ some (ready id)
same_session-ready id (some (ready current)) h = ap (λ x. some (ready x)) ((==_iff current id).0 h)
same_session-ready id (some (creating n)) h = cc
same_session-ready id none h = cc

pub should_remove-ready :
    (r : UdpRuntime) (now id : ℕ) (o : Option UdpSessionEntry)
    → should_remove r now id o ≡ true
    → (o ≡ some (ready id)) × (is_expired r now id ≡ true)
should_remove-ready r now id (some (ready current)) h =
    let both = and-split (current == id) (is_expired r now current) h in
    let same = (==_iff current id).0 both.0 in
    (ap (λ x. some (ready x)) same, subst (λ x. is_expired r now x ≡ true) same both.1)
should_remove-ready r now id (some (creating n)) h = absurd (false≢true h)
should_remove-ready r now id none h = absurd (false≢true h)

cancel_same : (r : UdpRuntime) (id : ℕ) → is_cancelled (cancel id r) id ≡ true
cancel_same r id = rw (==_refl id) refl

module _ {creators made : KeyedIds} {cleared : Bool} where
  pub remove_expired-IsRuntime :
      (now : ℕ) (expired : KeyedIds) (r : UdpRuntime)
      → IsRuntime r creators made cleared
      → IsRuntime (remove_expired now expired r) creators made cleared
  unfolding remove_expired
  remove_expired-IsRuntime now [] r h = h
  remove_expired-IsRuntime now ((key, id) ∷ rest) r h =
      remove_expired-IsRuntime now rest
        (if should_remove r now id (map_get r.sessions key) then cancel id (remove key r) else r)
        (if_elim (λ (x : UdpRuntime). IsRuntime x creators made cleared)
          (should_remove r now id (map_get r.sessions key)) (cancel id (remove key r)) r
          (λ t.
            remove_ready-IsRuntime (cancel id r) key id
              (should_remove-ready r now id (map_get r.sessions key) t).0 (cancel_same r id)
              (cancel-IsRuntime r id h))
          (λ f. h))

  pub leave_table-IsRuntime :
      (r : UdpRuntime) (key : UdpSessionKey) (id : ℕ)
      → is_cancelled r id ≡ true
      → IsRuntime r creators made cleared
      → IsRuntime (leave_table r key id) creators made cleared
  unfolding leave_table
  leave_table-IsRuntime r key id c h =
      if_elim (λ (x : UdpRuntime). IsRuntime x creators made cleared)
        (same_session id (map_get r.sessions key)) (remove key r) r
        (λ t.
          remove_ready-IsRuntime r key id (same_session-ready id (map_get r.sessions key) t) c h)
        (λ f. h)

  pub touch-IsRuntime :
      (r : UdpRuntime) (id now : ℕ)
      → IsRuntime r creators made cleared
      → IsRuntime (touch id now r) creators made cleared
  touch-IsRuntime r id now h = record {
    owned = h.owned;
    in_table = h.in_table;
    wakers = h.wakers;
    held = h.held;
    shut = h.shut;
  }

  pub close-IsRuntime :
      (r : UdpRuntime)
      → IsRuntime r creators made cleared
      → IsRuntime (close r) creators made cleared
  close-IsRuntime r h = record {
    owned = h.owned;
    in_table = h.in_table;
    wakers = h.wakers;
    held = h.held;
    shut = λ q. ((h.shut q).0, refl);
  }

end_entries-closed :
    (m : List (UdpSessionKey × UdpSessionEntry)) (r : UdpRuntime)
    → (end_entries m r).closed ≡ r.closed
unfolding end_entries
end_entries-closed [] r = refl
end_entries-closed ((key, ready id) ∷ m) r = end_entries-closed m (cancel id r)
end_entries-closed ((key, creating n) ∷ m) r = end_entries-closed m (notify_waiters n r)

-- Whoever waits afterwards waited before.
end_entries-waiting :
    (m : List (UdpSessionKey × UdpSessionEntry)) (r : UdpRuntime) (n : ℕ)
    → contains (end_entries m r).waiting_on n ≡ true
    → contains r.waiting_on n ≡ true
unfolding end_entries
end_entries-waiting [] r n h = h
end_entries-waiting ((key, ready id) ∷ m) r n h = end_entries-waiting m (cancel id r) n h
end_entries-waiting ((key, creating k) ∷ m) r n h =
    (not_woken k n r.waiting_on (end_entries-waiting m (notify_waiters k r) n h)).1

-- The waiters of every entry are woken.
end_entries-wakes :
    (m : List (UdpSessionKey × UdpSessionEntry)) (r : UdpRuntime) (k : UdpSessionKey) (n : ℕ)
    → map_get m k ≡ some (creating n)
    → contains (end_entries m r).waiting_on n ≢ true
unfolding end_entries map_get
end_entries-wakes [] r k n at h = cc
end_entries-wakes ((key, e) ∷ m) r k n at h = elim (Bool-cases (eq key k)) [
  | inr f ↦ end_entries-wakes m (end_entry e r) k n (ground (arith, f, at)) h
  | inl t ↦
      let entry : e ≡ creating n = ground (arith, t, at) in
      let later : contains (end_entries m (end_entry (creating n) r)).waiting_on n ≡ true =
        subst (λ x. contains (end_entries m (end_entry x r)).waiting_on n ≡ true) entry h in
      (not_woken n n r.waiting_on (end_entries-waiting m (notify_waiters n r) n later)).0 refl
]

end_entries-still :
    (m : List (UdpSessionKey × UdpSessionEntry)) (r : UdpRuntime) (id : ℕ)
    → is_cancelled r id ≡ true
    → is_cancelled (end_entries m r) id ≡ true
unfolding end_entries
end_entries-still [] r id h = h
end_entries-still ((key, ready j) ∷ m) r id h =
    end_entries-still m (cancel j r) id (or_intro_right (j == id) (is_cancelled r id) h)
end_entries-still ((key, creating n) ∷ m) r id h = end_entries-still m (notify_waiters n r) id h

end_entries-cancels :
    (m : List (UdpSessionKey × UdpSessionEntry)) (r : UdpRuntime) (k : UdpSessionKey) (id : ℕ)
    → map_get m k ≡ some (ready id)
    → is_cancelled (end_entries m r) id ≡ true
unfolding end_entries map_get
end_entries-cancels [] r k id at = cc
end_entries-cancels ((key, e) ∷ m) r k id at = elim (Bool-cases (eq key k)) [
  | inr f ↦ end_entries-cancels m (end_entry e r) k id (ground (arith, f, at))
  | inl t ↦
      let entry : e ≡ ready id = ground (arith, t, at) in
      subst (λ x. is_cancelled (end_entries m (end_entry x r)) id ≡ true) (sym entry)
        (end_entries-still m (cancel id r) id (cancel_same r id))
]

pub clear-IsRuntime :
    {creators made : KeyedIds} {cleared : Bool} (r : UdpRuntime)
    → r.closed ≡ true
    → IsRuntime r creators made cleared
    → IsRuntime (clear r) creators made true
unfolding clear
clear-IsRuntime r shut h = record {
  owned = λ k n q. absurd (none-some (creating n) (sym (map_get-nil k) ∙ q));
  in_table = λ k n q. inr refl;
  wakers = λ n q.
      let before = h.wakers n (end_entries-waiting r.sessions r n q) in
      absurd (end_entries-wakes r.sessions r before.0 n before.1 q);
  held = λ k id m. elim (h.held k id m) [
    | inl at ↦ inr (end_entries-cancels r.sessions r k id at)
    | inr c ↦ inr (end_entries-still r.sessions r id c)
  ];
  shut = λ q. (refl, end_entries-closed r.sessions r ∙ shut);
}
