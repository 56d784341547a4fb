-- ===== src/Udp/Sessions/Expiry.antt =====
-- `cleanup_expired_sessions` of src/udp/mod.rs.
use xtp_rs.Prelude.{
  ==_iff, ==_refl, Bool, Bool-cases, List, Option, UniqueKeys, [], ap, arith, contains, eq, eq_iff,
  false, false≢true, get_remove_other, get_remove_same, if_elim, if◌then◌else◌, inl, inr, key-cases,
  list_eq, map_get, map_remove, nat_eq, none, option_eq, pair_eq, refl, some, subst, sym, true, ℕ,
  ◌&&◌, ◌==◌, ◌||◌, ◌∙◌, ◌∷◌, ◌≡◌,
}
use xtp_rs.Udp.{UdpSessionKey, addr_eq, key_eq, kind_eq}
use xtp_rs.Udp.Sessions.{
  UdpRuntime, UdpSessionEntry, cancel, cleanup_expired_sessions, creating, expired_in, is_expired,
  ready, remove, remove_expired, should_remove,
}
use xtp_rs.Udp.Sessions.Steps.{KeyedIds}
use xtp_rs.Udp.Sessions.Ending.{should_remove-ready}
use xtp_rs.Udp.Sessions.Invariant.{ready-creating, ready-injective}

-- What the second pass leaves under a key, when the first has selected `expired`.
abbrev pub left_of :
    UdpRuntime → ℕ → KeyedIds → UdpSessionKey → Option UdpSessionEntry → Option UdpSessionEntry
left_of r now expired k none = none
left_of r now expired k (some (creating n)) = some (creating n)
left_of r now expired k (some (ready id)) =
    if contains expired (k, id) && is_expired r now id then none else some (ready id)

pick :
    {A : Type 0} (a c x : Bool) (u v : A)
    → (a && x) ≡ false
    → (if c && x then u else v) ≡ (if (a || c) && x then u else v)
pick true c true u v h = absurd (false≢true (sym h))
pick true c false u v h = ground arith
pick false c x u v h = refl

-- A selected session that is not the one of the key, or is not expired, changes nothing.
left_of-other :
    (r : UdpRuntime) (now : ℕ) (rest : KeyedIds) (key k : UdpSessionKey) (id : ℕ)
    (o : Option UdpSessionEntry)
    → ((j : ℕ) → o ≡ some (ready j) → ((eq key k && (id == j)) && is_expired r now j) ≡ false)
    → left_of r now rest k o ≡ left_of r now ((key, id) ∷ rest) k o
left_of-other r now rest key k id none h = refl
left_of-other r now rest key k id (some (creating n)) h = refl
left_of-other r now rest key k id (some (ready j)) h =
    pick (eq key k && (id == j)) (contains rest (k, j)) (is_expired r now j) none (some (ready j))
      (h j refl)

left_of-removed :
    (r : UdpRuntime) (now : ℕ) (rest : KeyedIds) (key k : UdpSessionKey) (id : ℕ)
    → map_get r.sessions key ≡ some (ready id)
    → is_expired r now id ≡ true
    → left_of r now rest k (map_get (map_remove r.sessions key) k)
      ≡ left_of r now ((key, id) ∷ rest) k (map_get r.sessions k)
left_of-removed r now rest key k id at x = elim (key-cases key k) [
  | inl same ↦
      subst
        (λ j.
          left_of r now rest j (map_get (map_remove r.sessions key) j)
          ≡ left_of r now ((key, id) ∷ rest) j (map_get r.sessions j))
        same (rw (get_remove_same r.sessions key, at, (eq_iff key key).1 refl, ==_refl id, x) refl)
  | inr f ↦
      ap (λ o. left_of r now rest k o) (get_remove_other r.sessions key k f)
      ∙ left_of-other r now rest key k id (map_get r.sessions k) (λ j q. rw f refl)
]

not_removed :
    (r : UdpRuntime) (now id j : ℕ) (o : Option UdpSessionEntry)
    → o ≡ some (ready j)
    → should_remove r now id o ≡ false
    → ((id == j) && is_expired r now j) ≡ false
not_removed r now id j none q f = cc
not_removed r now id j (some (creating n)) q f = absurd (ready-creating j n (sym q))
not_removed r now id j (some (ready i)) q f =
    let same : i ≡ j = ready-injective i j q in
    let f' : ((j == id) && is_expired r now j) ≡ false =
      subst (λ a. ((a == id) && is_expired r now a) ≡ false) same f in
    elim (Bool-cases (id == j)) [
      | inl t ↦
          let back : (j == id) ≡ true = (==_iff j id).1 (sym ((==_iff id j).0 t)) in
          rw t (subst (λ b. (b && is_expired r now j) ≡ false) back f')
      | inr t ↦ rw t refl
    ]

left_of-kept :
    (r : UdpRuntime) (now : ℕ) (rest : KeyedIds) (key k : UdpSessionKey) (id : ℕ)
    → should_remove r now id (map_get r.sessions key) ≡ false
    → left_of r now rest k (map_get r.sessions k)
      ≡ left_of r now ((key, id) ∷ rest) k (map_get r.sessions k)
left_of-kept r now rest key k id f =
    left_of-other r now rest key k id (map_get r.sessions k) (λ j q. elim (key-cases key k) [
      | inr g ↦ rw g refl
      | inl same ↦ rw ((eq_iff key k).1 same) (
          not_removed r now id j (map_get r.sessions k) q
            (subst (λ i. should_remove r now id (map_get r.sessions i) ≡ false) same f))
    ])

map_get-remove_expired :
    (now : ℕ) (expired : KeyedIds) (r : UdpRuntime) (k : UdpSessionKey)
    → map_get (remove_expired now expired r).sessions k
      ≡ left_of r now expired k (map_get r.sessions k)
unfolding remove_expired
map_get-remove_expired now [] r k = nothing_left (map_get r.sessions k)
  where
    nothing_left : (o : Option UdpSessionEntry) → o ≡ left_of r now [] k o
    nothing_left none = refl
    nothing_left (some (creating n)) = refl
    nothing_left (some (ready id)) = refl
map_get-remove_expired now ((key, id) ∷ rest) r k =
    map_get-remove_expired now rest
      (if should_remove r now id (map_get r.sessions key) then cancel id (remove key r) else r) k
    ∙ if_elim
        (λ (x : UdpRuntime).
          left_of x now rest k (map_get x.sessions k)
          ≡ left_of r now ((key, id) ∷ rest) k (map_get r.sessions k))
        (should_remove r now id (map_get r.sessions key)) (cancel id (remove key r)) r
        (λ t.
          let found = should_remove-ready r now id (map_get r.sessions key) t in
          left_of-removed r now rest key k id found.0 found.1)
        (λ f. left_of-kept r now rest key k id f)

expired_in-absent :
    (r : UdpRuntime) (now : ℕ) (m : List (UdpSessionKey × UdpSessionEntry)) (k : UdpSessionKey)
    (id : ℕ)
    → map_get m k ≡ none
    → contains (expired_in r now m) (k, id) ≡ false
unfolding expired_in map_get
expired_in-absent r now [] k id gone = refl
expired_in-absent r now ((key, creating n) ∷ m) k id gone = elim (Bool-cases (eq key k)) [
  | inl t ↦ ground (arith, t, gone)
  | inr f ↦ expired_in-absent r now m k id (ground (arith, f, gone))
]
expired_in-absent r now ((key, ready i) ∷ m) k id gone = elim (Bool-cases (eq key k)) [
  | inl t ↦ ground (arith, t, gone)
  | inr f ↦
      let rest = expired_in-absent r now m k id (ground (arith, f, gone)) in
      if_elim (λ (l : KeyedIds). contains l (k, id) ≡ false) (is_expired r now i)
        ((key, i) ∷ expired_in r now m) (expired_in r now m) (λ x. rw f rest) (λ x. rest)
]

-- The first pass selects the expired sessions of the table.
contains-expired_in :
    (r : UdpRuntime) (now : ℕ) (m : List (UdpSessionKey × UdpSessionEntry)) (k : UdpSessionKey)
    (id : ℕ)
    → UniqueKeys m
    → map_get m k ≡ some (ready id)
    → contains (expired_in r now m) (k, id) ≡ is_expired r now id
unfolding expired_in map_get
contains-expired_in r now [] k id u at = cc
contains-expired_in r now ((key, creating n) ∷ m) k id u at = elim (Bool-cases (eq key k)) [
  | inl t ↦ absurd (ready-creating id n (sym (ground (arith, t, at))))
  | inr f ↦ contains-expired_in r now m k id u.1 (ground (arith, f, at))
]
contains-expired_in r now ((key, ready i) ∷ m) k id u at = elim (Bool-cases (eq key k)) [
  | inl t ↦
      let here : i ≡ id = ready-injective i id (ground (arith, t, at)) in
      let gone : map_get m k ≡ none = subst (λ j. map_get m j ≡ none) ((eq_iff key k).0 t) u.0 in
      if_elim (λ (l : KeyedIds). contains l (k, id) ≡ is_expired r now id) (is_expired r now i)
        ((key, i) ∷ expired_in r now m) (expired_in r now m)
        (λ x. rw (t, (==_iff i id).1 here) (sym (subst (λ j. is_expired r now j ≡ true) here x)))
        (λ x.
          expired_in-absent r now m k id gone
          ∙ sym (subst (λ j. is_expired r now j ≡ false) here x))
  | inr f ↦
      let rest = contains-expired_in r now m k id u.1 (ground (arith, f, at)) in
      if_elim (λ (l : KeyedIds). contains l (k, id) ≡ is_expired r now id) (is_expired r now i)
        ((key, i) ∷ expired_in r now m) (expired_in r now m) (λ x. rw f rest) (λ x. rest)
]

-- The cleaner's first pass may be long ago: whatever it has selected, a session that has been seen
-- within the time-out when the second pass runs keeps its place, and an entry that is still being
-- created keeps it too.
pub remove_expired-keeps :
    (now : ℕ) (expired : KeyedIds) (r : UdpRuntime) (k : UdpSessionKey) (e : UdpSessionEntry)
    → map_get r.sessions k ≡ some e
    → ((id : ℕ) → e ≡ ready id → is_expired r now id ≡ false)
    → map_get (remove_expired now expired r).sessions k ≡ some e
remove_expired-keeps now expired r k e at fresh =
    map_get-remove_expired now expired r k ∙ ap (λ o. left_of r now expired k o) at ∙ kept e fresh
  where
    kept :
        (e : UdpSessionEntry)
        → ((id : ℕ) → e ≡ ready id → is_expired r now id ≡ false)
        → left_of r now expired k (some e) ≡ some e
    kept (creating n) fresh = refl
    kept (ready id) fresh = never (contains expired (k, id)) (is_expired r now id) (fresh id refl)
      where
        never :
            (a b : Bool) → b ≡ false → (if a && b then none else some (ready id)) ≡ some (ready id)
        never a b h = ground arith

abbrev pub unexpired : UdpRuntime → ℕ → Option UdpSessionEntry → Option UdpSessionEntry
unexpired r now none = none
unexpired r now (some (creating n)) = some (creating n)
unexpired r now (some (ready id)) = if is_expired r now id then none else some (ready id)

-- With nothing in between its two passes, the cleaner removes exactly the ready sessions that have
-- not been seen for the time-out.
pub cleanup_expired_sessions-exact :
    (r : UdpRuntime) (now : ℕ) (k : UdpSessionKey)
    → UniqueKeys r.sessions
    → map_get (cleanup_expired_sessions now r).sessions k ≡ unexpired r now (map_get r.sessions k)
unfolding cleanup_expired_sessions
cleanup_expired_sessions-exact r now k u =
    map_get-remove_expired now (expired_in r now r.sessions) r k ∙ same (map_get r.sessions k) refl
  where
    both : (b : Bool) → b ≡ (b && b)
    both b = ground arith

    same :
        (o : Option UdpSessionEntry)
        → map_get r.sessions k ≡ o
        → left_of r now (expired_in r now r.sessions) k o ≡ unexpired r now o
    same none at = refl
    same (some (creating n)) at = refl
    same (some (ready id)) at =
        rw (contains-expired_in r now r.sessions k id u at)
          (ap (λ b. if b then none else some (ready id)) (sym (both (is_expired r now id))))
