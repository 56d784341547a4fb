-- ===== src/Udp/Sessions/Invariant.antt =====
-- src/udp/mod.rs: what holds of the table of sessions between any two locked sections.
use xtp_rs.Prelude.{
  ==_iff, Bool, Bool-cases, In, List, [], ap, arith, contains, false, false≢true, get_remove_left,
  get_remove_other, if◌then◌else◌, inl, inr, key-cases, list_eq, map_get, map_get-nil, map_remove,
  nat_eq, none, option_eq, or_intro_right, pair_eq, some, subst, sym, true, ℕ, ◌==◌, ◌∙◌, ◌∷◌, ◌≡◌,
  ◌≢◌, ◌⊎◌,
}
use xtp_rs.Udp.{UdpSessionKey, addr_eq, key_eq, kind_eq}
use xtp_rs.Udp.Sessions.{
  UdpRuntime, UdpSessionEntry, cancel, creating, is_cancelled, ready, remove, wake,
}
use xtp_rs.Udp.Sessions.Steps.{KeyedIds, World}

pub contains-wake :
    (n m : ℕ) (ws : List ℕ) → contains (wake n ws) m ≡ (if n == m then false else contains ws m)
unfolding wake
contains-wake n m [] = ground arith
contains-wake n m (w ∷ ws) = elim (Bool-cases (w == n)) [
  | inl t ↦ ground (arith, t, contains-wake n m ws)
  | inr f ↦ ground (arith, f, contains-wake n m ws)
]

pub none-some : (e : UdpSessionEntry) → none ≢ some e
none-some e q = cc

pub some_injective : (a b : ℕ) → some a ≡ some b → a ≡ b
some_injective a b q = cc

not_if : (n m : ℕ) (b : Bool) → (if n == m then false else b) ≡ true → (n ≢ m) × (b ≡ true)
not_if n m b q = elim (Bool-cases (n == m)) [
  | inl t ↦ absurd (false≢true (ground (arith, t, q)))
  | inr f ↦ (λ e. false≢true (sym f ∙ (==_iff n m).1 e), ground (arith, f, q))
]

-- Who still waits after `n` was notified waits on another `Notify`, and waited before.
pub not_woken :
    (n m : ℕ) (ws : List ℕ) → contains (wake n ws) m ≡ true → (n ≢ m) × (contains ws m ≡ true)
not_woken n m ws q = not_if n m (contains ws m) (sym (contains-wake n m ws) ∙ q)

pub ready-creating : (id n : ℕ) → some (ready id) ≢ some (creating n)
ready-creating id n q = cc

pub ready-injective : (a b : ℕ) → some (ready a) ≡ some (ready b) → a ≡ b
ready-injective a b q = cc

pub creating-injective : (a b : ℕ) → some (creating a) ≡ some (creating b) → a ≡ b
creating-injective a b q = cc

pub ready-absent : (id : ℕ) → none ≢ some (ready id)
ready-absent id q = cc

pub record IsRuntime (r : UdpRuntime) (creators made : KeyedIds) (cleared : Bool) : Type 0 where
  pub owned :
      (k : UdpSessionKey) (n : ℕ)
      → map_get r.sessions k ≡ some (creating n)
      → map_get creators k ≡ some n
  pub in_table :
      (k : UdpSessionKey) (n : ℕ)
      → map_get creators k ≡ some n
      → (map_get r.sessions k ≡ some (creating n)) ⊎ (cleared ≡ true)
  pub wakers :
      (n : ℕ)
      → contains r.waiting_on n ≡ true
      → (k : UdpSessionKey) × (map_get r.sessions k ≡ some (creating n))
  pub held :
      (k : UdpSessionKey) (id : ℕ)
      → In (k, id) made
      → (map_get r.sessions k ≡ some (ready id)) ⊎ (is_cancelled r id ≡ true)
  pub shut : cleared ≡ true → (r.sessions ≡ []) × (r.closed ≡ true)

abbrev pub IsWorld : World → Type 0
IsWorld w = IsRuntime w.runtime w.creators w.made w.cleared

module _ {creators made : List (UdpSessionKey × ℕ)} {cleared : Bool} where
  pub cancel-IsRuntime :
      (r : UdpRuntime) (id : ℕ)
      → IsRuntime r creators made cleared
      → IsRuntime (cancel id r) creators made cleared
  cancel-IsRuntime r id h = record {
    owned = h.owned;
    in_table = h.in_table;
    wakers = h.wakers;
    held = λ k j m. elim (h.held k j m) [
      | inl at ↦ inl at
      | inr c ↦ inr (or_intro_right (id == j) (is_cancelled r j) c)
    ];
    shut = h.shut;
  }

  -- A cancelled session may leave the table.
  pub remove_ready-IsRuntime :
      (r : UdpRuntime) (key : UdpSessionKey) (id : ℕ)
      → map_get r.sessions key ≡ some (ready id)
      → is_cancelled r id ≡ true
      → IsRuntime r creators made cleared
      → IsRuntime (remove key r) creators made cleared
  remove_ready-IsRuntime r key id at c h = record {
    owned = λ k n q. h.owned k n (get_remove_left r.sessions key k (creating n) q).1;
    in_table = λ k n q. elim (h.in_table k n q) [
      | inr over ↦ inr over
      | inl present ↦ inl (creating_stays k n present)
    ];
    wakers = λ n q. let w = h.wakers n q in (w.0, creating_stays w.0 n w.1);
    held = λ k j m. elim (h.held k j m) [
      | inr gone ↦ inr gone
      | inl present ↦ elim (key-cases key k) [
        | inr f ↦ inl (get_remove_other r.sessions key k f ∙ present)
        | inl same ↦
            let one : some (ready id) ≡ some (ready j) =
              sym at ∙ ap (λ x. map_get r.sessions x) same ∙ present in
            inr (subst (λ x. is_cancelled r x ≡ true) (ready-injective id j one) c)
      ]
    ];
    shut = λ q.
        let closed = h.shut q in
        absurd
          (ready-absent id (sym (map_get-nil key) ∙ ap (λ m. map_get m key) (sym closed.0) ∙ at));
  }
    where
      creating_stays :
          (k : UdpSessionKey) (n : ℕ)
          → map_get r.sessions k ≡ some (creating n)
          → map_get (map_remove r.sessions key) k ≡ some (creating n)
      creating_stays k n q = elim (key-cases key k) [
        | inr f ↦ get_remove_other r.sessions key k f ∙ q
        | inl same ↦ absurd (ready-creating id n (sym at ∙ ap (λ x. map_get r.sessions x) same ∙ q))
      ]
