-- ===== src/Prelude/Split.antt =====
-- Texts taken apart: prefixes, suffixes, splitting at a byte.
use Prim.Native.Nat.{ℕ}
use mathlib.Core.List.{List, [], ◌∷◌}
use xtp_rs.Prelude.Tests.{◌==◌, if◌then◌else◌}
use xtp_rs.Prelude.Equality.{Text}

-- str::split at one byte: at least one part, and one more for each separator.
abbrev pub cons_head : ℕ → List Text → List Text
cons_head c [] = (c ∷ []) ∷ []
cons_head c (p ∷ ps) = (c ∷ p) ∷ ps

abbrev pub split : ℕ → Text → List Text
split sep [] = [] ∷ []
split sep (c ∷ cs) = if c == sep then [] ∷ split sep cs else cons_head c (split sep cs)
