-- ===== src/Domain.antt =====
-- Domain names: `canonical_domain` and `domain_matches_suffix` of src/util.rs. A `&str` is the list
-- of its UTF-8 bytes, which is what `len`, `as_bytes` and slicing count.
pub mod Canonical
pub mod Suffix
use xtp_rs.Prelude.{
  Bool, Option, Text, [], drop, eq, false, get_elem?, if◌then◌else◌, is_empty, leb, length, list_eq,
  ltb, map, nat_eq, none, option_eq, some, ℕ, ◌&&◌, ◌+◌, ◌-◌, ◌==◌, ◌∷◌,
}

abbrev pub dot : ℕ
dot = b'.'

-- trim_start_matches('.')
pub trim_start_dots : Text → Text
trim_start_dots [] = []
trim_start_dots (c ∷ cs) = if c == dot then trim_start_dots cs else c ∷ cs

-- trim_end_matches('.')
pub trim_end_dots : Text → Text
trim_end_dots [] = []
trim_end_dots (c ∷ cs) =
    let rest = trim_end_dots cs in if c == dot && is_empty rest then [] else c ∷ rest

-- u8::to_ascii_lowercase
unfoldable pub lower : ℕ → ℕ
lower c = if leb b'A' c && leb c b'Z' then c + 32 else c

unfoldable pub to_ascii_lowercase : Text → Text
unfolding lower
to_ascii_lowercase s = map lower s

unfoldable pub canonical_domain : Text → Text
unfolding trim_start_dots trim_end_dots to_ascii_lowercase
canonical_domain domain = to_ascii_lowercase (trim_end_dots (trim_start_dots domain))

-- str::ends_with
pub ends_with : Text → Text → Bool
ends_with d s = leb (length s) (length d) && eq (drop (length d - length s) d) s

-- The byte before the suffix is a dot.
abbrev pub is_dot : Option ℕ → Bool
is_dot (some c) = c == dot
is_dot none = false

-- The comparison of `domain_matches_suffix`, on the two canonical forms.
pub matches_normalized : Text → Text → Bool
matches_normalized d_norm s_norm =
    let d_len = length d_norm in
    let s_len = length s_norm in
    if ltb d_len s_len
    then false
    else if d_len == s_len
    then eq d_norm s_norm
    else if ends_with d_norm s_norm
    then is_dot (get_elem? d_norm (d_len - s_len - 1))
    else false

unfoldable pub domain_matches_suffix : Text → Text → Bool
unfolding matches_normalized ends_with
domain_matches_suffix domain suffix =
    matches_normalized (canonical_domain domain) (canonical_domain suffix)
