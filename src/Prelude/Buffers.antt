-- ===== src/Prelude/Buffers.antt =====
-- Fallible code over byte buffers: a result, an error, or a panic (an index or a slice out of
-- bounds), and big-endian numbers.
use Prim.Native.Nat.{ℕ, zero, suc, ◌+◌, ◌-◌, ◌*◌, ◌/◌, ◌%◌, ◌^◌, ◌≤◌, ◌<◌}
use mathlib.Core.Path.{◌≡◌, refl}
use mathlib.Core.Bool.{Bool, true, false, ◌&&◌}
use mathlib.Core.Logic.{◌≢◌}
use mathlib.Core.List.{List, [], ◌∷◌, ◌++◌}
use mathlib.Core.Option.{Option, none, some}
use native.Mathlib.Nat.{pow-suc}
use native.Mathlib.Omega.{arith}
use xtp_rs.Prelude.Tests.{if◌then◌else◌, leb}
use xtp_rs.Prelude.Lists.{length, take, drop, get_elem?, length-append, get_elem?-lt}

pub data Res (E A : Type 0) : Type 0 where
  ok : A → Res E A
  err : E → Res E A
  panic : Res E A

module _ {E : Type 0} where
  infixl 5 ◌>>=◌ ◌>>◌
  abbrev pub ◌>>=◌ : {A B : Type 0} → Res E A → (A → Res E B) → Res E B
  ok a >>= f = f a
  err e >>= f = err e
  panic >>= f = panic

  abbrev pub ◌>>◌ : {B : Type 0} → Res E (Unit {0}) → Res E B → Res E B
  m >> k = m >>= λ _. k

  -- if b { return Err(e) }
  abbrev pub fail_if : Bool → E → Res E (Unit {0})
  fail_if true e = err e
  fail_if false e = ok tt

  abbrev pub or_panic : {A : Type 0} → Option A → Res E A
  or_panic (some a) = ok a
  or_panic none = panic

  -- ok_or(e)?
  abbrev pub or_err : {A : Type 0} → Option A → E → Res E A
  or_err (some a) e = ok a
  or_err none e = err e

  -- b[i]
  abbrev pub index : List ℕ → ℕ → Res E ℕ
  index xs i = or_panic (get_elem? xs i)

  -- &b[a..e]
  abbrev pub slice : List ℕ → ℕ → ℕ → Res E (List ℕ)
  slice xs a e = if leb a e && leb e (length xs) then ok (take (e - a) (drop a xs)) else panic

  -- &b[a..]
  abbrev pub slice_from : List ℕ → ℕ → Res E (List ℕ)
  slice_from xs a = if leb a (length xs) then ok (drop a xs) else panic

  abbrev pub NoPanic : {A : Type 0} → Res E A → Type 0
  NoPanic r = r ≢ panic

  pub index-lt : (xs : List ℕ) (i : ℕ) → i < length xs → (b : ℕ) × (index xs i ≡ ok b)
  index-lt xs i h = let r = get_elem?-lt xs i h in (r.0, rw r.1)

  pub slice-ok :
      (xs : List ℕ) (a e : ℕ) → a ≤ e → e ≤ length xs → slice xs a e ≡ ok (take (e - a) (drop a xs))
  slice-ok xs a e h k = ground arith

  pub bind-NoPanic :
      {A B : Type 0} (m : Res E A) (f : A → Res E B)
      → NoPanic m
      → ((a : A) → m ≡ ok a → NoPanic (f a))
      → NoPanic (m >>= f)
  bind-NoPanic (ok a) f h k = k a refl
  bind-NoPanic (err e) f h k = λ p. cc
  bind-NoPanic panic f h k = λ p. h refl

-- u16::from_be_bytes and the like, most significant byte first.
unfoldable pub from_be : ℕ → List ℕ → ℕ
from_be acc [] = acc
from_be acc (b ∷ bs) = from_be (acc * 256 + b) bs

-- to_be_bytes of a number of `w` bytes.
unfoldable pub be_bytes : ℕ → ℕ → List ℕ
be_bytes zero n = []
be_bytes (suc w) n = be_bytes w (n / 256) ++ (n % 256) ∷ []

pub length-be_bytes : (w n : ℕ) → length (be_bytes w n) ≡ w
unfolding be_bytes
length-be_bytes zero n = refl
length-be_bytes (suc w) n =
    omega
      (arith, length-append (be_bytes w (n / 256)) ((n % 256) ∷ []), length-be_bytes w (n / 256))

from_be-snoc :
    (acc : ℕ) (xs : List ℕ) (b : ℕ) → from_be acc (xs ++ b ∷ []) ≡ from_be acc xs * 256 + b
unfolding from_be
from_be-snoc acc [] b = refl
from_be-snoc acc (x ∷ xs) b = from_be-snoc (acc * 256 + x) xs b

pub from_be-be_bytes : (w n : ℕ) → n < 256 ^ w → from_be 0 (be_bytes w n) ≡ n
unfolding be_bytes
from_be-be_bytes zero n h = unfold from_be in omega arith
from_be-be_bytes (suc w) n h = omega (
  arith,
  from_be-snoc 0 (be_bytes w (n / 256)) (n % 256),
  from_be-be_bytes w (n / 256) (below w n h),
)
  where
    below : (w n : ℕ) → n < 256 ^ suc w → n / 256 < 256 ^ w
    below w n h = omega (arith, pow-suc 256 w)
