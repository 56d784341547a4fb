-- ===== src/Geosite.antt =====
-- The geosite index of src/state.rs: rules as they come from the file, the compiled tags, and the
-- two ways to match a domain. A rule's `type` is the 32-bit pattern of the `i32`.
pub mod Compiled
use mathlib.Core.Option
use xtp_rs.Prelude.{
  Bool, List, Option, Text, [], contains, eq, false, if◌then◌else◌, is_empty, list_eq, nat_eq, none,
  not, option_eq, some, true, ℕ, ◌&&◌, ◌==◌, ◌||◌, ◌∷◌,
}
use xtp_rs.Domain.{canonical_domain, domain_matches_suffix, dot}

pub record DomainRule : Type 0 where
  pub kind : ℕ
  pub value : Text

pub data GeositeDomainType : Type 0 where
  plain regex domain full : GeositeDomainType
  unknown : ℕ → GeositeDomainType

unfoldable pub from_i32 : ℕ → GeositeDomainType
from_i32 value =
    if value == 0
    then plain
    else if value == 1
    then regex
    else if value == 2
    then domain
    else if value == 3
    then full
    else unknown value

-- str::starts_with and str::contains of a text
abbrev pub is_prefix : Text → Text → Bool
is_prefix [] s = true
is_prefix (c ∷ cs) [] = false
is_prefix (c ∷ cs) (d ∷ ds) = c == d && is_prefix cs ds

unfoldable pub has_substring : Text → Text → Bool
has_substring [] part = is_prefix part []
has_substring (c ∷ cs) part = is_prefix part (c ∷ cs) || has_substring cs part

abbrev pub match_as : GeositeDomainType → Text → Text → Bool
match_as plain value name = not (is_empty value) && has_substring name value
match_as regex value name = false
match_as domain value name = domain_matches_suffix name value
match_as full value name = not (is_empty value) && eq name value
match_as (unknown t) value name = false

unfoldable pub geosite_domain_match : DomainRule → Text → Bool
geosite_domain_match rule name =
    match_as (from_i32 rule.kind) (canonical_domain rule.value) (canonical_domain name)

pub record CompiledGeositeTag : Type 0 where
  pub exact : List Text
  pub suffixes : List Text
  pub plains : List Text

abbrev pub no_rules : CompiledGeositeTag
no_rules = record { exact = []; suffixes = []; plains = [] }

-- A `Vec` of plain values is kept newest first: only whether one of them matches is read.
abbrev pub add_as : GeositeDomainType → Text → CompiledGeositeTag → CompiledGeositeTag
add_as full value t = record t { exact = value ∷ t.exact }
add_as domain value t = record t { suffixes = value ∷ t.suffixes }
add_as plain value t = record t { plains = value ∷ t.plains }
add_as regex value t = t
add_as (unknown k) value t = t

pub add_rule : CompiledGeositeTag → DomainRule → CompiledGeositeTag
add_rule t rule =
    let value = canonical_domain rule.value in
    if is_empty value then t else add_as (from_i32 rule.kind) value t

unfoldable pub compile_rules : CompiledGeositeTag → List DomainRule → CompiledGeositeTag
compile_rules t [] = t
compile_rules t (rule ∷ rest) = compile_rules (add_rule t rule) rest

-- The index by tag.
unfoldable pub compile_geosite : List (Text × List DomainRule) → List (Text × CompiledGeositeTag)
unfolding compile_rules add_rule from_i32
compile_geosite [] = []
compile_geosite ((tag, rules) ∷ rest) = (tag, compile_rules no_rules rules) ∷ compile_geosite rest

-- The loop over `char_indices`: what follows each dot.
pub after_some_dot : List Text → Text → Bool
after_some_dot suffixes [] = false
after_some_dot suffixes (c ∷ cs) =
    if c == dot && contains suffixes cs then true else after_some_dot suffixes cs

pub some_plain : List Text → Text → Bool
some_plain [] name = false
some_plain (p ∷ ps) name = if has_substring name p then true else some_plain ps name

unfoldable pub tag_contains : CompiledGeositeTag → Text → Bool
tag_contains ct name =
    if contains ct.exact name
    then true
    else if contains ct.suffixes name
    then true
    else if after_some_dot ct.suffixes name
    then true
    else some_plain ct.plains name

-- An unknown tag matches nothing.
abbrev pub found_contains : Option CompiledGeositeTag → Text → Bool
found_contains none name = false
found_contains (some ct) name = tag_contains ct name

-- HashMap::get
module _ {ℓ} {V : Type ℓ} where
  unfoldable pub get_tag : List (Text × V) → Text → Option V
  get_tag [] tag = none
  get_tag ((t, v) ∷ rest) tag = if eq t tag then some v else get_tag rest tag

unfoldable pub compiled_geosite_contains : List (Text × CompiledGeositeTag) → Text → Text → Bool
unfolding get_tag tag_contains after_some_dot some_plain has_substring
compiled_geosite_contains compiled tag name =
    found_contains (get_tag compiled tag) (canonical_domain name)
