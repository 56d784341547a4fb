-- ===== src/Sniff/Quic/Reassembly/Cells.antt =====
-- The cells of the two vectors of the reassembly of src/sniff/quic.rs, one index at a time.
use xtp_rs.Prelude.{
  Bool, List, [], ap, ap₂, arith, drop, false, false≢true, get_elem?, length, none, refl, replicate,
  some, suc, take, true, zero, ℕ, ◌++◌, ◌+◌, ◌<◌, ◌∷◌, ◌≡◌, ◌≤◌,
}
use xtp_rs.Sniff.Quic.Reassembly.{overwrite, run_of_true}

module _ {A : Type 0} where
  pub length-overwrite :
      (xs : List A) (o : ℕ) (ds : List A) → length (overwrite xs o ds) ≡ length xs
  length-overwrite [] o ds = refl
  length-overwrite (x ∷ xs) (suc o) ds = ap suc (length-overwrite xs o ds)
  length-overwrite (x ∷ xs) zero [] = refl
  length-overwrite (x ∷ xs) zero (d ∷ ds) = ap suc (length-overwrite xs zero ds)

  -- Outside the slice nothing changes.
  pub get-overwrite-before :
      (xs : List A) (o : ℕ) (ds : List A) (i : ℕ)
      → i < o
      → get_elem? (overwrite xs o ds) i ≡ get_elem? xs i
  get-overwrite-before [] o ds i h = refl
  get-overwrite-before (x ∷ xs) zero ds i h = absurd (omega arith)
  get-overwrite-before (x ∷ xs) (suc o) ds zero h = refl
  get-overwrite-before (x ∷ xs) (suc o) ds (suc i) h = get-overwrite-before xs o ds i (omega arith)

  pub get-overwrite-after :
      (xs : List A) (o : ℕ) (ds : List A) (i : ℕ)
      → o + length ds ≤ i
      → get_elem? (overwrite xs o ds) i ≡ get_elem? xs i
  get-overwrite-after [] o ds i h = refl
  get-overwrite-after (x ∷ xs) zero [] i h = refl
  get-overwrite-after (x ∷ xs) zero (d ∷ ds) zero h = absurd (omega arith)
  get-overwrite-after (x ∷ xs) zero (d ∷ ds) (suc i) h =
      get-overwrite-after xs zero ds i (omega arith)
  get-overwrite-after (x ∷ xs) (suc o) ds zero h = refl
  get-overwrite-after (x ∷ xs) (suc o) ds (suc i) h = get-overwrite-after xs o ds i (omega arith)

  -- Inside it stand the written values.
  pub get-overwrite-inside :
      (xs : List A) (o : ℕ) (ds : List A) (j : ℕ) {i : ℕ}
      → i ≡ o + j
      → o + length ds ≤ length xs
      → j < length ds
      → get_elem? (overwrite xs o ds) i ≡ get_elem? ds j
  get-overwrite-inside xs o [] j e h k = absurd (omega arith)
  get-overwrite-inside [] o (d ∷ ds) j e h k = absurd (omega arith)
  get-overwrite-inside (x ∷ xs) zero (d ∷ ds) zero {i = zero} e h k = refl
  get-overwrite-inside (x ∷ xs) zero (d ∷ ds) zero {i = suc i} e h k = absurd (omega arith)
  get-overwrite-inside (x ∷ xs) zero (d ∷ ds) (suc j) {i = zero} e h k = absurd (omega arith)
  get-overwrite-inside (x ∷ xs) zero (d ∷ ds) (suc j) {i = suc i} e h k =
      get-overwrite-inside xs zero ds j (omega arith) (omega arith) (omega arith)
  get-overwrite-inside (x ∷ xs) (suc o) (d ∷ ds) j {i = zero} e h k = absurd (omega arith)
  get-overwrite-inside (x ∷ xs) (suc o) (d ∷ ds) j {i = suc i} e h k =
      get-overwrite-inside xs o (d ∷ ds) j (omega arith) (omega arith) k

  pub get-append-left :
      (xs ys : List A) (i : ℕ) → i < length xs → get_elem? (xs ++ ys) i ≡ get_elem? xs i
  get-append-left [] ys i h = elim h [ ]
  get-append-left (x ∷ xs) ys zero h = refl
  get-append-left (x ∷ xs) ys (suc i) h = get-append-left xs ys i (omega arith)

  -- Two lists that agree below `n` have the same prefix.
  pub take-agree :
      (n : ℕ) (xs ys : List A)
      → n ≤ length xs
      → ((i : ℕ) → i < n → get_elem? xs i ≡ get_elem? ys i)
      → take n xs ≡ take n ys
  take-agree zero xs ys h k = refl
  take-agree (suc n) [] ys h k = absurd (omega arith)
  take-agree (suc n) (x ∷ xs) [] h k = absurd (some-ne-none (k 0 (omega arith)))
    where
      some-ne-none : some x ≡ none → ⊥
      some-ne-none q = cc
  take-agree (suc n) (x ∷ xs) (y ∷ ys) h k =
      let e : x ≡ y = some-inj (k 0 (omega arith)) in
      ap₂ (λ a l. a ∷ l) e (take-agree n xs ys (omega arith) (λ i lt. k (suc i) (omega arith)))
    where
      some-inj : some x ≡ some y → x ≡ y
      some-inj q = cc

pub get-replicate-true : (n i : ℕ) (b : Bool) → get_elem? (replicate n b) i ≡ some true → b ≡ true
get-replicate-true zero i b h = cc
get-replicate-true (suc n) zero b h = cc
get-replicate-true (suc n) (suc i) b h = get-replicate-true n i b h

pub get-append-false :
    (ps : List Bool) (n i : ℕ)
    → get_elem? (ps ++ replicate n false) i ≡ some true
    → get_elem? ps i ≡ some true
get-append-false [] n i h = absurd (false≢true (get-replicate-true n i false h))
get-append-false (p ∷ ps) n zero h = h
get-append-false (p ∷ ps) n (suc i) h = get-append-false ps n i h

pub get-replicate : (n i : ℕ) (b : Bool) → i < n → get_elem? (replicate n b) i ≡ some b
get-replicate zero i b h = absurd (omega arith)
get-replicate (suc n) zero b h = refl
get-replicate (suc n) (suc i) b h = get-replicate n i b (omega arith)

-- Below the run every cell is set.
pub get-run_of_true : (ps : List Bool) (i : ℕ) → i < run_of_true ps → get_elem? ps i ≡ some true
get-run_of_true [] i h = absurd (omega arith)
get-run_of_true (true ∷ ps) zero h = refl
get-run_of_true (true ∷ ps) (suc i) h = get-run_of_true ps i (omega arith)
get-run_of_true (false ∷ ps) i h = absurd (omega arith)

pub run_of_true-drop :
    (n : ℕ) (ps : List Bool)
    → ((i : ℕ) → i < n → get_elem? ps i ≡ some true)
    → n + run_of_true (drop n ps) ≡ run_of_true ps
run_of_true-drop zero ps h = omega arith
run_of_true-drop (suc n) [] h = absurd (none-ne-some (h 0 (omega arith)))
  where
    none-ne-some : none ≡ some true → ⊥
    none-ne-some q = cc
run_of_true-drop (suc n) (true ∷ ps) h =
    omega (arith, run_of_true-drop n ps (λ i lt. h (suc i) (omega arith)))
run_of_true-drop (suc n) (false ∷ ps) h = absurd (differ (h 0 (omega arith)))
  where
    differ : some false ≡ some true → ⊥
    differ q = cc

pub run_of_true-le : (ps : List Bool) → run_of_true ps ≤ length ps
run_of_true-le [] = omega arith
run_of_true-le (true ∷ ps) = omega (arith, run_of_true-le ps)
run_of_true-le (false ∷ ps) = omega arith
