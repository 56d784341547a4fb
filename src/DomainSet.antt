-- ===== src/DomainSet.antt =====
-- `DomainSet` of src/state.rs: the compiled sets of `force_direct_domains` and
-- `force_socks5_domains`. A `HashSet` is the list of what was inserted; only membership and
-- emptiness are read.
pub mod Walk
pub mod Compile
use mathlib.Core.Option
use xtp_rs.Prelude.{
  Bool, List, Option, Text, [], contains, drop, false, if◌then◌else◌, is_empty, length, list_eq,
  map, nat_eq, none, option_eq, pair_eq, some, suc, true, zero, ℕ, ◌&&◌, ◌==◌, ◌∷◌,
}
use xtp_rs.Domain.{canonical_domain, dot}

pub record DomainSet : Type 0 where
  pub exact : List Text
  pub suffixes : List Text

abbrev pub empty : DomainSet
empty = record { exact = []; suffixes = [] }

-- One turn of the loop over `domains`: a leading dot makes a suffix pattern, and a pattern with
-- nothing but dots is skipped.
abbrev pub add_suffix : Text → DomainSet → DomainSet
add_suffix norm s = if is_empty norm then s else record s { suffixes = norm ∷ s.suffixes }

abbrev pub add_exact : Text → DomainSet → DomainSet
add_exact norm s = if is_empty norm then s else record s { exact = norm ∷ s.exact }

unfoldable pub add_pattern : DomainSet → Text → DomainSet
add_pattern s [] = add_exact (canonical_domain []) s
add_pattern s (c ∷ cs) =
    if c == dot then add_suffix (canonical_domain cs) s else add_exact (canonical_domain (c ∷ cs)) s

unfoldable pub compile_from : DomainSet → List Text → DomainSet
unfolding add_pattern
compile_from s [] = s
compile_from s (raw ∷ rest) = compile_from (add_pattern s raw) rest

unfoldable pub compile : List Text → DomainSet
unfolding compile_from
compile domains = compile_from empty domains

unfoldable pub set_is_empty : DomainSet → Bool
set_is_empty s = is_empty s.exact && is_empty s.suffixes

-- str::find of one byte
unfoldable pub find : ℕ → Text → Option ℕ
find b [] = none
find b (c ∷ cs) = if c == b then some 0 else Option.map suc (find b cs)

-- The loop that drops one label at a time. It takes at most one turn for each byte and one more.
unfoldable pub walk_suffixes : ℕ → List Text → Text → Bool
unfolding find
walk_suffixes zero suffixes candidate = false
walk_suffixes (suc fuel) suffixes candidate =
    let rest : Bool = (elim (find dot candidate) [
      | some pos ↦ walk_suffixes fuel suffixes (drop (suc pos) candidate)
      | none ↦ false
    ]) in
    if contains suffixes candidate then true else rest

unfoldable pub matches_canonical : DomainSet → Text → Bool
matches_canonical s domain =
    if contains s.exact domain then true else walk_suffixes (suc (length domain)) s.suffixes domain
