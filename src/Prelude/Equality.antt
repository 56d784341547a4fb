-- ===== src/Prelude/Equality.antt =====
-- Equality tests: `PartialEq` as an instance argument, and the texts of the program as lists of
-- bytes.
use Prim.Native.Nat.{ℕ}
use Prim.Native.Char.{code}
use Prim.Native.String.{String}
use mathlib.Core.Path.{◌≡◌, refl, ap, ap₂}
use mathlib.Core.Logic.{◌↔◌}
use mathlib.Core.Bool.{Bool, true, false, ◌&&◌, ◌||◌}
use mathlib.Core.List.{List, [], ◌∷◌}
use mathlib.Core.Option.{Option, none, some}
use native.Mathlib.Omega.{arith}
use xtp_rs.Prelude.Tests.{◌==◌, ==_iff, and-split}

pub record Eq {ℓ} (A : Type ℓ) : Type ℓ where
  pub beq : A → A → Bool
  pub beq_iff : (a b : A) → (beq a b ≡ true) ↔ (a ≡ b)

abbrev pub eq {ℓ} : {A : Type ℓ} ⦃e : Eq A⦄ → A → A → Bool
eq ⦃e⦄ = e.beq

pub eq_iff {ℓ} : {A : Type ℓ} ⦃e : Eq A⦄ (a b : A) → (eq a b ≡ true) ↔ (a ≡ b)
eq_iff ⦃e⦄ a b = e.beq_iff a b

instance abbrev pub nat_eq : Eq ℕ
nat_eq = record { beq = ◌==◌; beq_iff = ==_iff }

abbrev pub list_beq {ℓ} : {A : Type ℓ} → (A → A → Bool) → List A → List A → Bool
list_beq f [] [] = true
list_beq f [] (y ∷ ys) = false
list_beq f (x ∷ xs) [] = false
list_beq f (x ∷ xs) (y ∷ ys) = f x y && list_beq f xs ys

module _ {ℓ} {A : Type ℓ} ⦃e : Eq A⦄ where
  list_beq_sound : (xs ys : List A) → list_beq e.beq xs ys ≡ true → xs ≡ ys
  list_beq_sound [] [] h = refl
  list_beq_sound [] (y ∷ ys) h = cc
  list_beq_sound (x ∷ xs) [] h = cc
  list_beq_sound (x ∷ xs) (y ∷ ys) h =
      let both = and-split (e.beq x y) (list_beq e.beq xs ys) h in
      ap₂ (λ a l. a ∷ l) ((e.beq_iff x y).0 both.0) (list_beq_sound xs ys both.1)

  list_beq_refl : (xs : List A) → list_beq e.beq xs xs ≡ true
  list_beq_refl [] = refl
  list_beq_refl (x ∷ xs) = ground (arith, (e.beq_iff x x).1 refl, list_beq_refl xs)

  pub list_beq_iff : (xs ys : List A) → (list_beq e.beq xs ys ≡ true) ↔ (xs ≡ ys)
  list_beq_iff xs ys = (list_beq_sound xs ys, λ p. rw p (list_beq_refl ys))

instance abbrev pub list_eq {ℓ} : {A : Type ℓ} ⦃e : Eq A⦄ → Eq (List A)
list_eq ⦃e⦄ = record { beq = list_beq e.beq; beq_iff = list_beq_iff }

abbrev pub option_beq {ℓ} : {A : Type ℓ} → (A → A → Bool) → Option A → Option A → Bool
option_beq f none none = true
option_beq f none (some y) = false
option_beq f (some x) none = false
option_beq f (some x) (some y) = f x y

pub option_beq_iff {ℓ} :
    {A : Type ℓ} ⦃e : Eq A⦄ (a b : Option A) → (option_beq e.beq a b ≡ true) ↔ (a ≡ b)
option_beq_iff ⦃e⦄ none none = (λ _. refl, λ _. refl)
option_beq_iff ⦃e⦄ none (some y) = (λ h. cc, λ h. cc)
option_beq_iff ⦃e⦄ (some x) none = (λ h. cc, λ h. cc)
option_beq_iff ⦃e⦄ (some x) (some y) =
    (λ h. ap some ((e.beq_iff x y).0 h), λ h. (e.beq_iff x y).1 (ground arith))

instance abbrev pub option_eq {ℓ} : {A : Type ℓ} ⦃e : Eq A⦄ → Eq (Option A)
option_eq ⦃e⦄ = record { beq = option_beq e.beq; beq_iff = option_beq_iff }

-- A text is the list of its UTF-8 bytes.
abbrev pub Text : Type 0
Text = List ℕ

-- The bytes of an ASCII literal.
abbrev pub text : String → Text
text String.[] = []
text (String.◌∷◌ c s) = code c ∷ text s

-- HashSet::contains
module _ {ℓ} {A : Type ℓ} ⦃e : Eq A⦄ where
  abbrev pub contains : List A → A → Bool
  contains [] a = false
  contains (x ∷ xs) a = e.beq x a || contains xs a

abbrev pub pair_beq : {A B : Type 0} → (A → A → Bool) → (B → B → Bool) → A × B → A × B → Bool
pair_beq f g a b = f a.0 b.0 && g a.1 b.1

pub pair_beq_iff :
    {A B : Type 0} ⦃d : Eq A⦄ ⦃e : Eq B⦄ (a b : A × B) → (pair_beq d.beq e.beq a b ≡ true) ↔ (a ≡ b)
pair_beq_iff ⦃d⦄ ⦃e⦄ (x, y) (z, w) = (
  λ h.
      let both = and-split (d.beq x z) (e.beq y w) h in
      λ i. ((d.beq_iff x z).0 both.0 i, (e.beq_iff y w).0 both.1 i),
  λ p. ground (arith, (d.beq_iff x z).1 (ap (λ t. t.0) p), (e.beq_iff y w).1 (ap (λ t. t.1) p)),
)

instance abbrev pub pair_eq : {A B : Type 0} ⦃d : Eq A⦄ ⦃e : Eq B⦄ → Eq (A × B)
pair_eq ⦃d⦄ ⦃e⦄ = record { beq = pair_beq d.beq e.beq; beq_iff = pair_beq_iff }
