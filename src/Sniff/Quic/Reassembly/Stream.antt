-- ===== src/Sniff/Quic/Reassembly/Stream.antt =====
-- The reassembly of src/sniff/quic.rs against the stream that its frames are cut from.
use xtp_rs.Prelude.{
  Bool, Bool-cases, List, [], ap, arith, false, get_elem?, if◌then◌else◌, inl, inr, length,
  length-append, length-replicate, ltb, ltb-false→le, ltb→lt, max, none, refl, replicate, some,
  subst, suc, sym, true, zero, ℕ, ◌+◌, ◌-◌, ◌<◌, ◌∙◌, ◌∷◌, ◌≡◌, ◌≤◌,
}
use xtp_rs.Sniff.Quic.Reassembly.{
  Reassembly, new, overwrite, reassembly_cap, resize, run_of_true, store,
}
use xtp_rs.Sniff.Quic.Reassembly.Cells.{
  get-append-left, get-append-false, get-overwrite-after, get-overwrite-before,
  get-overwrite-inside, get-replicate, get-run_of_true, length-overwrite, run_of_true-drop,
}

-- The bounds of the vectors, and the run of bytes that are there.
pub record WellFormed (r : Reassembly) : Type 0 where
  pub same_length : length r.present ≡ length r.buf
  pub capped : length r.buf ≤ reassembly_cap
  pub run : r.contiguous_len ≡ run_of_true r.present

-- Every byte that is there is the stream's.
abbrev pub Agrees : List ℕ → Reassembly → Type 0
Agrees stream r =
    (i : ℕ) → get_elem? r.present i ≡ some true → get_elem? r.buf i ≡ get_elem? stream i

-- A frame of the stream.
abbrev pub CutFrom : List ℕ → ℕ → List ℕ → Type 0
CutFrom stream offset data_bytes =
    (j : ℕ) → j < length data_bytes → get_elem? data_bytes j ≡ get_elem? stream (offset + j)

pub new-WellFormed : WellFormed new
new-WellFormed = record { same_length = refl; capped = omega arith; run = refl }

pub new-Agrees : (stream : List ℕ) → Agrees stream new
new-Agrees stream i h = absurd (none-ne-some h)
  where
    none-ne-some : none ≡ some true → ⊥
    none-ne-some q = cc

-- The vectors as they are before the frame is copied.
abbrev grown : {A : Type 0} → List A → Bool → ℕ → A → List A
grown xs grow end a = if grow then resize xs end a else xs

length-grown :
    {A : Type 0} (xs : List A) (end : ℕ) (a : A)
    → length (grown xs (ltb (length xs) end) end a) ≡ max (length xs) end
length-grown xs end a = elim (Bool-cases (ltb (length xs) end)) [
  | inl t ↦ rw t (
      omega (
        arith,
        length-append xs (replicate (end - length xs) a),
        length-replicate (end - length xs) a,
        ltb→lt (length xs) end t,
      ))
  | inr f ↦ rw f (omega (arith, ltb-false→le (length xs) end f))
]

get-grown_present :
    (ps : List Bool) (grow : Bool) (end i : ℕ)
    → get_elem? (grown ps grow end false) i ≡ some true
    → get_elem? ps i ≡ some true
get-grown_present ps true end i h = get-append-false ps (end - length ps) i h
get-grown_present ps false end i h = h

get-grown_left :
    {A : Type 0} (xs : List A) (grow : Bool) (end : ℕ) (a : A) (i : ℕ)
    → i < length xs
    → get_elem? (grown xs grow end a) i ≡ get_elem? xs i
get-grown_left xs true end a i h = get-append-left xs (replicate (end - length xs) a) i h
get-grown_left xs false end a i h = refl

pub some-lt : {A : Type 0} (xs : List A) (i : ℕ) (a : A) → get_elem? xs i ≡ some a → i < length xs
some-lt [] i a h = cc
some-lt (x ∷ xs) zero a h = omega arith
some-lt (x ∷ xs) (suc i) a h = omega (arith, some-lt xs i a h)

data Place (offset n i : ℕ) : Type 0 where
  before : i < offset → Place offset n i
  inside : (j : ℕ) → i ≡ offset + j → j < n → Place offset n i
  after : offset + n ≤ i → Place offset n i

place : (offset n i : ℕ) → Place offset n i
place offset n i = elim (Bool-cases (ltb i offset)) [
  | inl b ↦ before (ltb→lt i offset b)
  | inr b ↦ elim (Bool-cases (ltb i (offset + n))) [
    | inl c ↦
        let le = ltb-false→le i offset b in
        let lt = ltb→lt i (offset + n) c in inside (i - offset) (omega arith) (omega arith)
    | inr c ↦ after (ltb-false→le i (offset + n) c)
  ]
]

module _ (r : Reassembly) (offset : ℕ) (ds : List ℕ) (wf : WellFormed r) where
  abbrev end_of : ℕ
  end_of = offset + length ds

  abbrev ps' : List Bool
  ps' = grown r.present (ltb (length r.buf) end_of) end_of false

  abbrev bs' : List ℕ
  bs' = grown r.buf (ltb (length r.buf) end_of) end_of 0

  room_present : length ps' ≡ max (length r.buf) end_of
  room_present =
      subst (λ n. length (grown r.present (ltb n end_of) end_of false) ≡ max n end_of)
        wf.same_length (length-grown r.present end_of false)

  room_buf : length bs' ≡ max (length r.buf) end_of
  room_buf = length-grown r.buf end_of 0

  abbrev ones : List Bool
  ones = replicate (length ds) true

  length-ones : length ones ≡ length ds
  length-ones = length-replicate (length ds) true

  -- What was there stays there.
  pub store_keeps :
      (i : ℕ)
      → get_elem? r.present i ≡ some true
      → get_elem? (store r offset ds).present i ≡ some true
  store_keeps i h = by_place (place offset (length ds) i)
    where
      old : get_elem? ps' i ≡ some true
      old = get-grown_left r.present _ end_of false i (some-lt r.present i true h) ∙ h

      by_place : Place offset (length ds) i → get_elem? (overwrite ps' offset ones) i ≡ some true
      by_place (before lt) = get-overwrite-before ps' offset ones i lt ∙ old
      by_place (inside j e lt) =
          get-overwrite-inside ps' offset ones j e (omega (arith, room_present, length-ones))
            (omega (arith, length-ones))
          ∙ get-replicate (length ds) j true lt
      by_place (after le) = get-overwrite-after ps' offset ones i (omega (arith, length-ones)) ∙ old

  pub store-WellFormed : end_of ≤ reassembly_cap → WellFormed (store r offset ds)
  store-WellFormed fits = record {
    same_length =
        length-overwrite ps' offset ones
        ∙ room_present
        ∙ sym room_buf
        ∙ sym (length-overwrite bs' offset ds);
    capped = omega (arith, length-overwrite bs' offset ds, room_buf, wf.capped);
    run =
        run_of_true-drop r.contiguous_len (overwrite ps' offset ones)
          (λ i lt. store_keeps i (get-run_of_true r.present i (subst (λ n. i < n) wf.run lt)));
  }

  pub store-Agrees :
      (stream : List ℕ)
      → Agrees stream r
      → CutFrom stream offset ds
      → Agrees stream (store r offset ds)
  store-Agrees stream agrees cut i h = by_place (place offset (length ds) i)
    where
      same :
          get_elem? ps' i ≡ some true
          → get_elem? (overwrite bs' offset ds) i ≡ get_elem? bs' i
          → get_elem? (overwrite bs' offset ds) i ≡ get_elem? stream i
      same there e =
          let old = get-grown_present r.present _ end_of i there in
          let lt : i < length r.buf =
            subst (λ n. i < n) wf.same_length (some-lt r.present i true old) in
          e ∙ get-grown_left r.buf _ end_of 0 i lt ∙ agrees i old

      by_place :
          Place offset (length ds) i → get_elem? (overwrite bs' offset ds) i ≡ get_elem? stream i
      by_place (before lt) =
          same (sym (get-overwrite-before ps' offset ones i lt) ∙ h)
            (get-overwrite-before bs' offset ds i lt)
      by_place (inside j e lt) =
          get-overwrite-inside bs' offset ds j e (omega (arith, room_buf)) lt
          ∙ cut j lt
          ∙ ap (λ k. get_elem? stream k) (sym e)
      by_place (after le) =
          same (sym (get-overwrite-after ps' offset ones i (omega (arith, length-ones))) ∙ h)
            (get-overwrite-after bs' offset ds i le)

  -- The bytes of the frame are there.
  pub store_sets :
      (j : ℕ) → j < length ds → get_elem? (store r offset ds).present (offset + j) ≡ some true
  store_sets j lt =
      get-overwrite-inside ps' offset ones j refl (omega (arith, room_present, length-ones))
        (omega (arith, length-ones))
      ∙ get-replicate (length ds) j true lt
