-- ===== src/Prelude/Lists.antt =====
-- Lists measured and indexed by native numbers, under the library's names.
use Prim.Native.Nat.{ℕ, zero, suc, ◌+◌, ◌-◌, ◌≤◌, ◌<◌, min}
use mathlib.Core.Path.{◌≡◌, refl, ap, sym, subst}
use mathlib.Core.Logic.{◌⊎◌, inl, inr}
use mathlib.Core.Bool.{Bool, true, false, ◌&&◌, ◌||◌}
use mathlib.Core.List.{List, [], ◌∷◌, ◌++◌}
use mathlib.Core.Option.{Option, none, some}
use native.Mathlib.Omega.{arith}

module _ {ℓ} {A : Type ℓ} where
  abbrev pub length : List A → ℕ
  length [] = 0
  length (x ∷ xs) = suc (length xs)

  abbrev pub get_elem? : List A → ℕ → Option A
  get_elem? [] i = none
  get_elem? (x ∷ xs) zero = some x
  get_elem? (x ∷ xs) (suc i) = get_elem? xs i

  abbrev pub get_or : List A → ℕ → A → A
  get_or [] i d = d
  get_or (x ∷ xs) zero d = x
  get_or (x ∷ xs) (suc i) d = get_or xs i d

  -- A write out of bounds changes nothing.
  abbrev pub set : List A → ℕ → A → List A
  set [] i v = []
  set (x ∷ xs) zero v = v ∷ xs
  set (x ∷ xs) (suc i) v = x ∷ set xs i v

  abbrev pub take : ℕ → List A → List A
  take zero xs = []
  take (suc n) [] = []
  take (suc n) (x ∷ xs) = x ∷ take n xs

  abbrev pub drop : ℕ → List A → List A
  drop zero xs = xs
  drop (suc n) [] = []
  drop (suc n) (x ∷ xs) = drop n xs

  abbrev pub replicate : ℕ → A → List A
  replicate zero a = []
  replicate (suc n) a = a ∷ replicate n a

  -- iter().any and iter().all
  abbrev pub any : (A → Bool) → List A → Bool
  any p [] = false
  any p (x ∷ xs) = p x || any p xs

  abbrev pub all : (A → Bool) → List A → Bool
  all p [] = true
  all p (x ∷ xs) = p x && all p xs

  abbrev pub is_empty : List A → Bool
  is_empty [] = true
  is_empty (x ∷ xs) = false

module _ {ℓ} {A : Type ℓ} where
  pub length-append : (xs ys : List A) → length (xs ++ ys) ≡ length xs + length ys
  length-append [] ys = omega arith
  length-append (x ∷ xs) ys = omega (arith, length-append xs ys)

  pub append_left_nil : (xs ys : List A) → xs ++ ys ≡ ys → xs ≡ []
  append_left_nil [] ys h = refl
  append_left_nil (x ∷ xs) ys h = absurd (omega (arith, length-append xs ys, ap (λ l. length l) h))

  pub take-append-drop : (n : ℕ) (xs : List A) → take n xs ++ drop n xs ≡ xs
  take-append-drop zero xs = refl
  take-append-drop (suc n) [] = refl
  take-append-drop (suc n) (x ∷ xs) = ap (λ l. x ∷ l) (take-append-drop n xs)

  pub length-take : (n : ℕ) (xs : List A) → length (take n xs) ≡ min n (length xs)
  length-take zero xs = omega arith
  length-take (suc n) [] = omega arith
  length-take (suc n) (x ∷ xs) = omega (arith, length-take n xs)

  pub length-drop : (n : ℕ) (xs : List A) → length (drop n xs) ≡ length xs - n
  length-drop zero xs = omega arith
  length-drop (suc n) [] = omega arith
  length-drop (suc n) (x ∷ xs) = omega (arith, length-drop n xs)

  pub length-replicate : (n : ℕ) (a : A) → length (replicate n a) ≡ n
  length-replicate zero a = refl
  length-replicate (suc n) a = ap suc (length-replicate n a)

  -- A prefix of known length is what `take` gives, and the rest what `drop` gives.
  pub take-append : (xs ys : List A) {n : ℕ} → n ≡ length xs → take n (xs ++ ys) ≡ xs
  take-append [] ys {n = zero} e = refl
  take-append [] ys {n = suc n} e = absurd (omega arith)
  take-append (x ∷ xs) ys {n = zero} e = absurd (omega arith)
  take-append (x ∷ xs) ys {n = suc n} e = ap (λ l. x ∷ l) (take-append xs ys (omega arith))

  pub drop-append : (xs ys : List A) {n : ℕ} → n ≡ length xs → drop n (xs ++ ys) ≡ ys
  drop-append [] ys {n = zero} e = refl
  drop-append [] ys {n = suc n} e = absurd (omega arith)
  drop-append (x ∷ xs) ys {n = zero} e = absurd (omega arith)
  drop-append (x ∷ xs) ys {n = suc n} e = drop-append xs ys (omega arith)

  pub drop-length : (xs : List A) (ys : List A) → drop (length xs) (xs ++ ys) ≡ ys
  drop-length xs ys = drop-append xs ys refl

  -- What stands at `i` splits the list there.
  pub get_elem?-split :
      (xs : List A) (i : ℕ) (x : A)
      → get_elem? xs i ≡ some x
      → xs ≡ take i xs ++ x ∷ drop (suc i) xs
  get_elem?-split [] i x h = cc
  get_elem?-split (y ∷ ys) zero x h = ground arith
  get_elem?-split (y ∷ ys) (suc i) x h = ap (λ l. y ∷ l) (get_elem?-split ys i x h)

  pub get_elem?-append :
      (xs ys : List A) (x : A) {n : ℕ} → n ≡ length xs → get_elem? (xs ++ x ∷ ys) n ≡ some x
  get_elem?-append [] ys x {n = zero} e = refl
  get_elem?-append [] ys x {n = suc n} e = absurd (omega arith)
  get_elem?-append (z ∷ xs) ys x {n = zero} e = absurd (omega arith)
  get_elem?-append (z ∷ xs) ys x {n = suc n} e = get_elem?-append xs ys x (omega arith)

  pub get_elem?-lt : (xs : List A) (i : ℕ) → i < length xs → (x : A) × (get_elem? xs i ≡ some x)
  get_elem?-lt [] i h = elim h [ ]
  get_elem?-lt (x ∷ xs) zero h = (x, refl)
  get_elem?-lt (x ∷ xs) (suc i) h = get_elem?-lt xs i (omega arith)

  pub get_elem?-ge : (xs : List A) (i : ℕ) → length xs ≤ i → get_elem? xs i ≡ none
  get_elem?-ge [] i h = refl
  get_elem?-ge (x ∷ xs) zero h = absurd (omega arith)
  get_elem?-ge (x ∷ xs) (suc i) h = get_elem?-ge xs i (omega arith)

  pub drop-suc :
      (i : ℕ) (xs : List A) (x : A) → get_elem? xs i ≡ some x → drop i xs ≡ x ∷ drop (suc i) xs
  drop-suc i [] x h = cc
  drop-suc zero (y ∷ ys) x h = ground arith
  drop-suc (suc i) (y ∷ ys) x h = drop-suc i ys x h

-- Membership and universal quantification by recursion, which compute at concrete lists.
abbrev pub In : {A : Type 0} → A → List A → Type 0
In x [] = ⊥
In x (y ∷ ys) = (x ≡ y) ⊎ In x ys

abbrev pub All {ℓ κ} : {A : Type ℓ} → (A → Type κ) → List A → Type κ
All P [] = Unit
All P (x ∷ xs) = P x × All P xs

pub All-In {κ} : {A : Type 0} (P : A → Type κ) (xs : List A) (x : A) → All P xs → In x xs → P x
All-In P [] x h m = absurd m
All-In P (y ∷ ys) x h (inl e) = subst P (sym e) h.0
All-In P (y ∷ ys) x h (inr m) = All-In P ys x h.1 m

pub All-append-split {ℓ κ} :
    {A : Type ℓ} (P : A → Type κ) (xs ys : List A) → All P (xs ++ ys) → All P xs × All P ys
All-append-split P [] ys h = (tt, h)
All-append-split P (x ∷ xs) ys h =
    let rest = All-append-split P xs ys h.1 in ((h.0, rest.0), rest.1)
