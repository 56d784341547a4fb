-- ===== src/Prelude/Outcomes.antt =====
-- What a fallible computation yields: no panic, and a property of its value where it has one.
use Prim.Native.Nat.{ℕ, ◌≤◌, ◌<◌}
use mathlib.Core.Path.{◌≡◌, refl}
use mathlib.Core.Bool.{Bool, true, false}
use mathlib.Core.List.{List}
use xtp_rs.Prelude.Tests.{if◌then◌else◌}
use xtp_rs.Prelude.Lists.{length}
use xtp_rs.Prelude.Buffers.{
  Res, err, fail_if, index, index-lt, ok, panic, slice, slice-ok, ◌>>=◌, ◌>>◌,
}

abbrev pub Yields : {E A : Type 0} → (A → Type 0) → Res E A → Type 0
Yields P (ok a) = P a
Yields P (err e) = Unit {0}
Yields P panic = ⊥

pub Yields-bind :
    {E A B : Type 0} (P : A → Type 0) (Q : B → Type 0) (m : Res E A) (f : A → Res E B)
    → Yields P m
    → ((a : A) → P a → Yields Q (f a))
    → Yields Q (m >>= f)
Yields-bind P Q (ok a) f h k = k a h
Yields-bind P Q (err e) f h k = tt
Yields-bind P Q panic f h k = h

pub Yields-fail_if :
    {E B : Type 0} (Q : B → Type 0) (b : Bool) (e : E) (k : Res E B)
    → (b ≡ false → Yields Q k)
    → Yields Q (fail_if b e >> k)
Yields-fail_if Q true e k h = tt
Yields-fail_if Q false e k h = h refl

abbrev pub Anything : {A : Type 0} → A → Type 0
Anything a = Unit {0}

module _ (E : Type 0) where
  pub Yields-index : (xs : List ℕ) (i : ℕ) → i < length xs → Yields {E = E} Anything (index xs i)
  Yields-index xs i h = let r = index-lt {E = E} xs i h in rw r.1 tt

  pub Yields-slice :
      (xs : List ℕ) (a e : ℕ) → a ≤ e → e ≤ length xs → Yields {E = E} Anything (slice xs a e)
  Yields-slice xs a e h k = rw (slice-ok {E = E} xs a e h k) tt

pub Yields-if :
    {E A : Type 0} (P : A → Type 0) (b : Bool) (x y : Res E A)
    → (b ≡ true → Yields P x)
    → (b ≡ false → Yields P y)
    → Yields P (if b then x else y)
Yields-if P true x y h k = h refl
Yields-if P false x y h k = k refl
