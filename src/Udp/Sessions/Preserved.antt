-- ===== src/Udp/Sessions/Preserved.antt =====
-- src/udp/mod.rs: beginning and finishing the creation of a session keep the invariant of the table.
use xtp_rs.Prelude.{
  ==_iff, ==_refl, Bool, List, Option, [], ap, contains, eq, false, false≢true, get_insert_other,
  get_insert_same, get_remove_left, get_remove_other, if_elim, inl, inr, key-cases, list_eq,
  map_get, map_get-nil, map_insert, map_remove, map_remove-absent, nat_eq, none, option_eq,
  or-split, pair_eq, refl, some, subst, sym, true, ℕ, ◌==◌, ◌∙◌, ◌∷◌, ◌≡◌, ◌≢◌, ◌⊎◌,
}
use xtp_rs.Udp.{UdpSessionKey, addr_eq, key_eq, kind_eq}
use xtp_rs.Udp.Sessions.{
  Created, SessionResult, UdpRuntime, UdpSessionEntry, begin_at, begin_session, cancel, creating,
  creation_error, creation_failed, exited_before_registration, finish_session, is_cancelled,
  notify_waiters, put, ready, refused, register, remove, session, session_created, shutting_down,
  task_failed, wake,
}
use xtp_rs.Udp.Sessions.Invariant.{
  IsRuntime, cancel-IsRuntime, creating-injective, none-some, not_woken, ready-absent,
  ready-creating, some_injective,
}
use xtp_rs.Udp.Sessions.Steps.{KeyedIds, add_creator, add_made}

module _ {creators made : List (UdpSessionKey × ℕ)} {cleared : Bool} where
  -- The key of a creator has no ready session.
  creator-not_ready :
      (r : UdpRuntime) (key : UdpSessionKey) (n id : ℕ)
      → IsRuntime r creators made cleared
      → map_get creators key ≡ some n
      → map_get r.sessions key ≢ some (ready id)
  creator-not_ready r key n id h c at = elim (h.in_table key n c) [
    | inl present ↦ ready-creating id n (sym at ∙ present)
    | inr over ↦
        ready-absent id (sym (map_get-nil key) ∙ ap (λ m. map_get m key) (sym (h.shut over).0) ∙ at)
  ]

  -- Who waits after `n` was notified waits for another key.
  other_waker :
      (r : UdpRuntime) (key : UdpSessionKey) (n m : ℕ)
      → IsRuntime r creators made cleared
      → map_get creators key ≡ some n
      → contains (wake n r.waiting_on) m ≡ true
      → (k : UdpSessionKey) × (eq key k ≡ false) × (map_get r.sessions k ≡ some (creating m))
  other_waker r key n m h c q =
      let both = not_woken n m r.waiting_on q in
      let w = h.wakers m both.1 in
      elim (key-cases key w.0) [
        | inr other ↦ (w.0, other, w.1)
        | inl same ↦
            let own : map_get creators key ≡ some m =
              ap (λ k. map_get creators k) same ∙ h.owned w.0 m w.1 in
            absurd (both.0 (some_injective n m (sym c ∙ own)))
      ]

  finish_remove-IsRuntime :
      (r : UdpRuntime) (key : UdpSessionKey) (n : ℕ)
      → IsRuntime r creators made cleared
      → map_get creators key ≡ some n
      → IsRuntime (notify_waiters n (remove key r)) (map_remove creators key) made cleared
  finish_remove-IsRuntime r key n h c = record {
    owned = λ k m q.
        let left = get_remove_left r.sessions key k (creating m) q in
        get_remove_other creators key k left.0 ∙ h.owned k m left.1;
    in_table = λ k m q.
        let left = get_remove_left creators key k m q in
        elim (h.in_table k m left.1) [
          | inl present ↦ inl (get_remove_other r.sessions key k left.0 ∙ present)
          | inr over ↦ inr over
        ];
    wakers = λ m q.
        let w = other_waker r key n m h c q in (w.0, get_remove_other r.sessions key w.0 w.1 ∙ w.2);
    held = λ k j m. elim (h.held k j m) [
      | inr gone ↦ inr gone
      | inl present ↦ elim (key-cases key k) [
        | inr f ↦ inl (get_remove_other r.sessions key k f ∙ present)
        | inl same ↦
            absurd (creator-not_ready r key n j h c (ap (λ x. map_get r.sessions x) same ∙ present))
      ]
    ];
    shut = λ q.
        let old = h.shut q in
        (ap (λ m. map_remove m key) old.0 ∙ map_remove-absent [] key (map_get-nil key), old.1);
  }

  add_made-IsRuntime :
      (r : UdpRuntime) (key : UdpSessionKey) (id : ℕ)
      → (map_get r.sessions key ≡ some (ready id)) ⊎ (is_cancelled r id ≡ true)
      → IsRuntime r creators made cleared
      → IsRuntime r creators ((key, id) ∷ made) cleared
  add_made-IsRuntime r key id new h = record {
    owned = h.owned;
    in_table = h.in_table;
    wakers = h.wakers;
    held = λ k j m. elim m [
      | inr old ↦ h.held k j old
      | inl same ↦
          subst (λ x. (map_get r.sessions x.0 ≡ some (ready x.1)) ⊎ (is_cancelled r x.1 ≡ true))
            (sym same) new
    ];
    shut = h.shut;
  }

  -- An open table has not been cleared.
  not_cleared :
      (r : UdpRuntime) → IsRuntime r creators made cleared → r.closed ≡ false → cleared ≢ true
  not_cleared r h opened q = false≢true (sym opened ∙ (h.shut q).1)

  finish_put-IsRuntime :
      (r : UdpRuntime) (key : UdpSessionKey) (n id : ℕ)
      → IsRuntime r creators made cleared
      → map_get creators key ≡ some n
      → r.closed ≡ false
      → IsRuntime (notify_waiters n (put key (ready id) r)) (map_remove creators key) made cleared
  finish_put-IsRuntime r key n id h c opened = record {
    owned = λ k m q. elim (key-cases key k) [
      | inl same ↦ absurd (
          ready-creating id m (
            sym (get_insert_same r.sessions key (ready id))
            ∙ ap (λ x. map_get (map_insert r.sessions key (ready id)) x) same
            ∙ q))
      | inr f ↦
          get_remove_other creators key k f
          ∙ h.owned k m (sym (get_insert_other r.sessions key k (ready id) f) ∙ q)
    ];
    in_table = λ k m q.
        let left = get_remove_left creators key k m q in
        elim (h.in_table k m left.1) [
          | inl present ↦ inl (get_insert_other r.sessions key k (ready id) left.0 ∙ present)
          | inr over ↦ inr over
        ];
    wakers = λ m q.
        let w = other_waker r key n m h c q in
        (w.0, get_insert_other r.sessions key w.0 (ready id) w.1 ∙ w.2);
    held = λ k j m. elim (h.held k j m) [
      | inr gone ↦ inr gone
      | inl present ↦ elim (key-cases key k) [
        | inr f ↦ inl (get_insert_other r.sessions key k (ready id) f ∙ present)
        | inl same ↦
            absurd (creator-not_ready r key n j h c (ap (λ x. map_get r.sessions x) same ∙ present))
      ]
    ];
    shut = λ q. absurd (not_cleared r h opened q);
  }

  begin_at-IsRuntime :
      (r : UdpRuntime) (key : UdpSessionKey) (fresh : ℕ) (o : Option UdpSessionEntry)
      → IsRuntime r creators made cleared
      → r.closed ≡ false
      → map_get r.sessions key ≡ o
      → IsRuntime
          (begin_at r key fresh o).1
          (add_creator key (begin_at r key fresh o).0 creators)
          made
          cleared
  begin_at-IsRuntime r key fresh (some (ready id)) h opened at = h
  begin_at-IsRuntime r key fresh (some (creating n)) h opened at = record {
    owned = h.owned;
    in_table = h.in_table;
    wakers = λ m q. elim (or-split (n == m) (contains r.waiting_on m) q) [
      | inl new ↦ (key, at ∙ ap (λ i. some (creating i)) ((==_iff n m).0 new))
      | inr old ↦ h.wakers m old
    ];
    held = h.held;
    shut = h.shut;
  }
  begin_at-IsRuntime r key fresh none h opened at = record {
    owned = λ k m q. elim (key-cases key k) [
      | inl same ↦
          let one : some (creating fresh) ≡ some (creating m) =
            sym (get_insert_same r.sessions key (creating fresh))
            ∙ ap (λ x. map_get (map_insert r.sessions key (creating fresh)) x) same
            ∙ q in
          ap (λ x. map_get (map_insert creators key fresh) x) (sym same)
          ∙ get_insert_same creators key fresh
          ∙ ap some (creating-injective fresh m one)
      | inr f ↦
          get_insert_other creators key k fresh f
          ∙ h.owned k m (sym (get_insert_other r.sessions key k (creating fresh) f) ∙ q)
    ];
    in_table = λ k m q. elim (key-cases key k) [
      | inl same ↦
          let one : some fresh ≡ some m =
            sym (get_insert_same creators key fresh)
            ∙ ap (λ x. map_get (map_insert creators key fresh) x) same
            ∙ q in
          inl (
            ap (λ x. map_get (map_insert r.sessions key (creating fresh)) x) (sym same)
            ∙ get_insert_same r.sessions key (creating fresh)
            ∙ ap (λ i. some (creating i)) (some_injective fresh m one))
      | inr f ↦ elim (h.in_table k m (sym (get_insert_other creators key k fresh f) ∙ q)) [
        | inl present ↦ inl (get_insert_other r.sessions key k (creating fresh) f ∙ present)
        | inr over ↦ inr over
      ]
    ];
    wakers = λ m q. let w = h.wakers m q in (w.0, entry_stays w.0 (creating m) w.1);
    held = λ k j m. elim (h.held k j m) [
      | inr gone ↦ inr gone
      | inl present ↦ inl (entry_stays k (ready j) present)
    ];
    shut = λ q. absurd (not_cleared r h opened q);
  }
    where
      entry_stays :
          (k : UdpSessionKey) (e : UdpSessionEntry)
          → map_get r.sessions k ≡ some e
          → map_get (map_insert r.sessions key (creating fresh)) k ≡ some e
      entry_stays k e q = elim (key-cases key k) [
        | inr f ↦ get_insert_other r.sessions key k (creating fresh) f ∙ q
        | inl same ↦ absurd (none-some e (sym at ∙ ap (λ x. map_get r.sessions x) same ∙ q))
      ]

  pub begin_session-IsRuntime :
      (r : UdpRuntime) (key : UdpSessionKey) (fresh : ℕ)
      → IsRuntime r creators made cleared
      → IsRuntime
          (begin_session r key fresh).1
          (add_creator key (begin_session r key fresh).0 creators)
          made
          cleared
  unfolding begin_session
  begin_session-IsRuntime r key fresh h =
      if_elim (λ x. IsRuntime x.1 (add_creator key x.0 creators) made cleared) r.closed (refused, r)
        (begin_at r key fresh (map_get r.sessions key)) (λ t. h)
        (λ f. begin_at-IsRuntime r key fresh (map_get r.sessions key) h f refl)

module _ {creators made : KeyedIds} {cleared : Bool} where
  -- The creator of `key` comes back, in any of the ways it may.
  pub finish_session-IsRuntime :
      (r : UdpRuntime) (key : UdpSessionKey) (n : ℕ) (created : Created)
      → IsRuntime r creators made cleared
      → map_get creators key ≡ some n
      → IsRuntime
          (finish_session r key n created).1
          (map_remove creators key)
          (add_made key created made)
          cleared
  unfolding finish_session
  finish_session-IsRuntime r key n task_failed h c = finish_remove-IsRuntime r key n h c
  finish_session-IsRuntime r key n creation_failed h c =
      let removed = finish_remove-IsRuntime r key n h c in
      let gone = notify_waiters n (remove key r) in
      if_elim
        (λ (x : SessionResult × UdpRuntime). IsRuntime x.1 (map_remove creators key) made cleared)
        r.closed (shutting_down, gone) (creation_error, gone) (λ t. removed) (λ f. removed)
  finish_session-IsRuntime r key n (session_created id) h c =
      let removed = finish_remove-IsRuntime r key n h c in
      let gone = notify_waiters n (remove key r) in
      let P : SessionResult × UdpRuntime → Type 0 =
        λ x. IsRuntime x.1 (map_remove creators key) ((key, id) ∷ made) cleared in
      if_elim P r.closed (shutting_down, cancel id gone) (register r key n (session_created id))
        (λ t.
          add_made-IsRuntime (cancel id gone) key id (inr (rw (==_refl id) refl))
            (cancel-IsRuntime gone id removed))
        (λ f.
          if_elim P (is_cancelled r id) (exited_before_registration, gone)
            (session id, notify_waiters n (put key (ready id) r))
            (λ over. add_made-IsRuntime gone key id (inr over) removed)
            (λ alive.
              add_made-IsRuntime (notify_waiters n (put key (ready id) r)) key id
                (inl (get_insert_same r.sessions key (ready id)))
                (finish_put-IsRuntime r key n id h c f)))
