-- ===== src/Routes/LongestPrefix.antt =====
-- Longest-prefix matching in `ClientCidrRoutes` of src/state.rs: what a look-up finds after
-- `finalize`.
use native.Mathlib.Nat.{lt_irrefl}
use xtp_rs.Prelude.{
  Bool, Bool-cases, In, List, Option, Option-cases, [], arith, false≢true, inl, inr, list_eq,
  nat_eq, none, option_eq, refl, some, subst, sym, true, ℕ, ◌<◌, ◌∙◌, ◌∷◌, ◌≡◌, ◌≤◌,
}
use xtp_rs.Routes.Sorting.{
  In-sort_by_rank, SortedByRank, sort_by_rank-In, sort_by_rank-SortedByRank,
}
use xtp_rs.Routes.Ranked.{find_entry, find_map_entries, sort_by_rank}
use xtp_rs.Routes.{ClientCidrRoutes, IpAddr, IpNets, finalize, find_map_matching, ip4, ip6, lookup}

module _ {N T R : Type 0} (rank : N → ℕ) (holds : N → Bool) (f : T → Option R) where
  -- `r` comes from an entry that applies, and every entry that applies with a higher rank has
  -- nothing to give.
  pub record Wins (es : List (N × T)) (r : R) : Type 0 where
    pub entry : N × T
    pub listed : In entry es
    pub applies : holds entry.0 ≡ true
    pub gives : f entry.1 ≡ some r
    pub highest : (e : N × T) → In e es → holds e.0 ≡ true → rank entry.0 < rank e.0 → f e.1 ≡ none

  -- No entry that applies has anything to give.
  abbrev pub NoneGives : List (N × T) → Type 0
  NoneGives es = (e : N × T) → In e es → holds e.0 ≡ true → f e.1 ≡ none

  Wins-skip :
      (n : N) (v : T) (es : List (N × T)) (r : R)
      → Wins es r
      → (holds n ≡ true → f v ≡ none)
      → Wins ((n, v) ∷ es) r
  Wins-skip n v es r w passed = record {
    entry = w.entry;
    listed = inr w.listed;
    applies = w.applies;
    gives = w.gives;
    highest = highest;
  }
    where
      highest :
          (e : N × T)
          → In e ((n, v) ∷ es)
          → holds e.0 ≡ true
          → rank w.entry.0 < rank e.0
          → f e.1 ≡ none
      highest e (inl p) a lt =
          subst (λ (x : N × T). holds x.0 ≡ true → f x.1 ≡ none) (sym p) passed a
      highest e (inr m) a lt = w.highest e m a lt

  Wins-first :
      (n : N) (v : T) (es : List (N × T)) (r : R)
      → ((y : N × T) → In y es → rank y.0 ≤ rank n)
      → holds n ≡ true
      → f v ≡ some r
      → Wins ((n, v) ∷ es) r
  Wins-first n v es r top t g = record {
    entry = (n, v);
    listed = inl refl;
    applies = t;
    gives = g;
    highest = highest;
  }
    where
      highest :
          (e : N × T) → In e ((n, v) ∷ es) → holds e.0 ≡ true → rank n < rank e.0 → f e.1 ≡ none
      highest e (inl p) a lt =
          absurd (lt_irrefl (rank n) (subst (λ (x : N × T). rank n < rank x.0) p lt))
      highest e (inr m) a lt = absurd (omega (arith, top e m))

  find_map_entries-Wins :
      (es : List (N × T)) (r : R)
      → SortedByRank rank es
      → find_map_entries holds f es ≡ some r
      → Wins es r
  unfolding find_map_entries
  find_map_entries-Wins [] r s h = cc
  find_map_entries-Wins ((n, v) ∷ es) r s h = elim (Bool-cases (holds n)) [
    | inl t ↦ elim (Option-cases (f v)) [
      | inl e ↦ Wins-skip n v es r (find_map_entries-Wins es r s.1 (ground (arith, h))) (λ _. e)
      | inr (r', e) ↦ Wins-first n v es r s.0 t (ground (arith, h))
    ]
    | inr u ↦
        Wins-skip n v es r (find_map_entries-Wins es r s.1 (ground (arith, h)))
          (λ t. absurd (false≢true (sym u ∙ t)))
  ]

  find_map_entries-NoneGives :
      (es : List (N × T)) → find_map_entries holds f es ≡ none → NoneGives es
  unfolding find_map_entries
  find_map_entries-NoneGives [] h e m a = absurd m
  find_map_entries-NoneGives ((n, v) ∷ es) h e (inl p) a =
      rw p (ground (arith, h, subst (λ (x : N × T). holds x.0 ≡ true) p a))
  find_map_entries-NoneGives ((n, v) ∷ es) h e (inr m) a =
      find_map_entries-NoneGives es (ground (arith, h)) e m a

  Wins-sort : (es : List (N × T)) (r : R) → Wins (sort_by_rank rank es) r → Wins es r
  Wins-sort es r w = record {
    entry = w.entry;
    listed = In-sort_by_rank rank w.entry es w.listed;
    applies = w.applies;
    gives = w.gives;
    highest = λ e m. w.highest e (sort_by_rank-In rank e es m);
  }

  -- What the scan of the sorted table gives, on both outcomes.
  abbrev pub Outcome : List (N × T) → Option R → Type 0
  Outcome es (some r) = Wins es r
  Outcome es none = NoneGives es

  pub find_map_entries-Outcome :
      (es : List (N × T)) → Outcome es (find_map_entries holds f (sort_by_rank rank es))
  find_map_entries-Outcome es = outcome (find_map_entries holds f (sort_by_rank rank es)) refl
    where
      outcome : (o : Option R) → find_map_entries holds f (sort_by_rank rank es) ≡ o → Outcome es o
      outcome (some r) e =
          Wins-sort es r
            (find_map_entries-Wins (sort_by_rank rank es) r (sort_by_rank-SortedByRank rank es) e)
      outcome none e =
          λ x m. find_map_entries-NoneGives (sort_by_rank rank es) e x (sort_by_rank-In rank x es m)

pub find_entry-eq_find_map :
    {N T : Type 0} (holds : N → Bool) (es : List (N × T))
    → find_entry holds es ≡ find_map_entries holds some es
unfolding find_entry find_map_entries
find_entry-eq_find_map holds [] = refl
find_entry-eq_find_map holds ((n, v) ∷ es) = ground (arith, find_entry-eq_find_map holds es)

module _ (nets : IpNets) {T R : Type 0} where
  open nets use {contains4, contains6, prefix_len4, prefix_len6}

  -- The networks of the client's family that hold its address, from the longest prefix on.
  abbrev pub CidrOutcome : ClientCidrRoutes nets T → IpAddr → (T → Option R) → Option R → Type 0
  CidrOutcome r (ip4 ip) f o = Outcome prefix_len4 (λ net. contains4 net ip) f r.v4 o
  CidrOutcome r (ip6 ip) f o = Outcome prefix_len6 (λ net. contains6 net ip) f r.v6 o

  -- After `finalize`, `find_map_matching` gives the result of the longest network that holds the
  -- address and has a result, and nothing only where no network that holds it has one.
  pub find_map_matching_longest :
      (r : ClientCidrRoutes nets T) (ip : IpAddr) (f : T → Option R)
      → CidrOutcome r ip f (find_map_matching nets (finalize nets r) ip f)
  unfolding find_map_matching finalize
  find_map_matching_longest r (ip4 ip) f =
      find_map_entries-Outcome prefix_len4 (λ net. contains4 net ip) f r.v4
  find_map_matching_longest r (ip6 ip) f =
      find_map_entries-Outcome prefix_len6 (λ net. contains6 net ip) f r.v6

pub lookup-eq_find_map :
    (nets : IpNets) {T : Type 0} (r : ClientCidrRoutes nets T) (ip : IpAddr)
    → lookup nets r ip ≡ find_map_matching nets r ip some
unfolding lookup find_map_matching
lookup-eq_find_map nets r (ip4 ip) = find_entry-eq_find_map (λ net. nets.contains4 net ip) r.v4
lookup-eq_find_map nets r (ip6 ip) = find_entry-eq_find_map (λ net. nets.contains6 net ip) r.v6

-- `lookup` gives the value of the longest network that holds the address, and nothing only where
-- no network holds it.
pub lookup_longest :
    (nets : IpNets) {T : Type 0} (r : ClientCidrRoutes nets T) (ip : IpAddr)
    → CidrOutcome nets r ip some (lookup nets (finalize nets r) ip)
lookup_longest nets r ip =
    rw (lookup-eq_find_map nets (finalize nets r) ip) (find_map_matching_longest nets r ip some)
