-- ===== src/Prelude/Utf8.antt =====
-- `std::str::from_utf8` as a test: well-formed UTF-8 by the states of a decoder, with no overlong
-- forms, no surrogates and nothing past U+10FFFF.
use Prim.Native.Nat.{ℕ}
use mathlib.Core.Bool.{Bool, true, false, ◌&&◌}
use mathlib.Core.List.{List, [], ◌∷◌}
use xtp_rs.Prelude.Tests.{if◌then◌else◌, leb, ◌==◌}

-- Between characters, or with one, two or three bytes to come; the others bound the next byte.
pub data Utf8State : Type 0 where
  between tail1 tail2 tail3 after_e0 after_ed after_f0 after_f4 broken : Utf8State

abbrev in_range : ℕ → ℕ → ℕ → Utf8State → Utf8State
in_range lo hi b next = if leb lo b && leb b hi then next else broken

abbrev first_byte : ℕ → Utf8State
first_byte b =
    if leb b 0x7f
    then between
    else if leb 0xc2 b && leb b 0xdf
    then tail1
    else if b == 0xe0
    then after_e0
    else if b == 0xed
    then after_ed
    else if leb 0xe1 b && leb b 0xef
    then tail2
    else if b == 0xf0
    then after_f0
    else if leb 0xf1 b && leb b 0xf3
    then tail3
    else if b == 0xf4
    then after_f4
    else broken

abbrev next_state : Utf8State → ℕ → Utf8State
next_state between b = first_byte b
next_state tail1 b = in_range 0x80 0xbf b between
next_state tail2 b = in_range 0x80 0xbf b tail1
next_state tail3 b = in_range 0x80 0xbf b tail2
next_state after_e0 b = in_range 0xa0 0xbf b tail1
next_state after_ed b = in_range 0x80 0x9f b tail1
next_state after_f0 b = in_range 0x90 0xbf b tail2
next_state after_f4 b = in_range 0x80 0x8f b tail2
next_state broken b = broken

abbrev is_between : Utf8State → Bool
is_between between = true
is_between _ = false

unfoldable pub utf8_from : Utf8State → List ℕ → Bool
utf8_from s [] = is_between s
utf8_from s (b ∷ bs) = utf8_from (next_state s b) bs

unfoldable pub valid_utf8 : List ℕ → Bool
unfolding utf8_from
valid_utf8 bytes = utf8_from between bytes
