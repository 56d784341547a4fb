-- ===== src/Hostname.antt =====
-- `is_valid_sni_hostname` of src/sniff/mod.rs, which every sniffed name passes.
pub mod Canonical
use xtp_rs.Prelude.{
  Bool, Bool-cases, List, Text, [], all, any, arith, false, if◌then◌else◌, inl, inr, is_empty, leb,
  length, le→ltb-false, ltb, not, refl, split, subst, true, ℕ, ◌&&◌, ◌==◌, ◌||◌, ◌↔◌, ◌∷◌, ◌≡◌, ◌≢◌,
  ◌≤◌,
}
use xtp_rs.Domain.{dot}

abbrev pub dash : ℕ
dash = b'-'

pub is_alpha : ℕ → Bool
is_alpha c = (leb b'a' c && leb c b'z') || (leb b'A' c && leb c b'Z')

pub is_alphanumeric : ℕ → Bool
unfolding is_alpha
is_alphanumeric c = is_alpha c || (leb b'0' c && leb c b'9')

pub is_label_byte : ℕ → Bool
unfolding is_alphanumeric
is_label_byte c = is_alphanumeric c || c == dash

abbrev pub starts_with : ℕ → Text → Bool
starts_with b [] = false
starts_with b (c ∷ cs) = c == b

abbrev pub ends_with_byte : ℕ → Text → Bool
ends_with_byte b [] = false
ends_with_byte b (c ∷ []) = c == b
ends_with_byte b (c ∷ d ∷ cs) = ends_with_byte b (d ∷ cs)

-- The tests of one turn of the loop over the labels that reject the name.
pub label_rejected : Text → Bool
label_rejected label =
    is_empty label
    || ltb 63 (length label)
    || starts_with dash label
    || ends_with_byte dash label
    || not (all is_label_byte label)

-- The loop, with the flag that it keeps.
pub check_labels : Bool → List Text → Bool
check_labels has_alpha [] = has_alpha
check_labels has_alpha (label ∷ labels) =
    let rest = check_labels (if any is_alpha label then true else has_alpha) labels in
    if label_rejected label then false else rest

unfoldable pub is_valid_sni_hostname : Text → Bool
unfolding check_labels label_rejected is_label_byte
is_valid_sni_hostname host =
    if is_empty host || ltb 253 (length host)
    then false
    else if ends_with_byte dot host
    then false
    else check_labels false (split dot host)

-- A label of letters, digits and dashes, 1 to 63 bytes long, with no dash at either end.
pub record IsLabel (l : Text) : Type 0 where
  pub not_empty : l ≢ []
  pub short : length l ≤ 63
  pub bytes : all is_label_byte l ≡ true
  pub no_dash_start : starts_with dash l ≡ false
  pub no_dash_end : ends_with_byte dash l ≡ false

abbrev pub AllLabels : List Text → Type 0
AllLabels [] = Unit {0}
AllLabels (l ∷ ls) = IsLabel l × AllLabels ls

label_rejected-false : (l : Text) → label_rejected l ≡ false → IsLabel l
unfolding label_rejected
label_rejected-false [] h = cc
label_rejected-false (c ∷ cs) h = ground arith

label_rejected-of_IsLabel : (l : Text) → IsLabel l → label_rejected l ≡ false
unfolding label_rejected
label_rejected-of_IsLabel [] v = absurd (v.not_empty refl)
label_rejected-of_IsLabel (c ∷ cs) v = ground arith

abbrev pub has_letter : List Text → Bool
has_letter ls = any (λ l. any is_alpha l) ls

check_labels_sound :
    (b : Bool) (ls : List Text)
    → check_labels b ls ≡ true
    → AllLabels ls × ((b || has_letter ls) ≡ true)
unfolding check_labels
check_labels_sound b [] h = (tt, ground arith)
check_labels_sound b (l ∷ ls) h =
    let ok : label_rejected l ≡ false = ground arith in
    let rest = check_labels_sound (if any is_alpha l then true else b) ls (ground arith) in
    ((label_rejected-false l ok, rest.0), ground (arith, rest.1))

check_labels_complete :
    (b : Bool) (ls : List Text)
    → AllLabels ls
    → (b || has_letter ls) ≡ true
    → check_labels b ls ≡ true
unfolding check_labels
check_labels_complete b [] v h = ground arith
check_labels_complete b (l ∷ ls) v h =
    rw (label_rejected-of_IsLabel l v.0)
      (check_labels_complete (if any is_alpha l then true else b) ls v.1 (ground arith))

abbrev last_label : List Text → Text
last_label [] = []
last_label (l ∷ []) = l
last_label (l ∷ m ∷ ls) = last_label (m ∷ ls)

-- After a dot at the end comes one more label, the empty one.
EmptyLast : List Text → Type 0
EmptyLast parts =
    (p : Text) × (q : Text) × (ps : List Text) × (parts ≡ p ∷ q ∷ ps) × (last_label (q ∷ ps) ≡ [])

split-EmptyLast : (s : Text) → ends_with_byte dot s ≡ true → EmptyLast (split dot s)
unfolding EmptyLast
split-EmptyLast [] h = cc
split-EmptyLast (c ∷ []) h = ([], [], [], rw h, refl)
split-EmptyLast (c ∷ d ∷ cs) h =
    let (p, q, ps, e, l) = split-EmptyLast (d ∷ cs) h in
    elim (Bool-cases (c == dot)) [
      | inl y ↦ ([], p, q ∷ ps, rw (y, e), l)
      | inr n ↦ (c ∷ p, q, ps, rw (n, e), l)
    ]

last_label-ne_nil : (l : Text) (ls : List Text) → AllLabels (l ∷ ls) → last_label (l ∷ ls) ≢ []
last_label-ne_nil l [] v = v.0.not_empty
last_label-ne_nil l (m ∷ ls) v = last_label-ne_nil m ls v.1

pub ends_with_byte-split : (s : Text) → ends_with_byte dot s ≡ true → AllLabels (split dot s) → ⊥
unfolding EmptyLast
ends_with_byte-split s h v =
    let (p, q, ps, e, l) = split-EmptyLast s h in last_label-ne_nil q ps (subst AllLabels e v).1 l

-- A name is accepted exactly when it has at most 253 bytes, its dot-separated labels are well
-- formed, and one of them has a letter.
pub is_valid_sni_hostname_iff :
    (host : Text)
    → (is_valid_sni_hostname host ≡ true)
      ↔ ((length host ≤ 253) × AllLabels (split dot host) × (has_letter (split dot host) ≡ true))
unfolding is_valid_sni_hostname
is_valid_sni_hostname_iff host = (sound host, complete host)
  where
    sound :
        (h : Text)
        → is_valid_sni_hostname h ≡ true
        → (length h ≤ 253) × AllLabels (split dot h) × (has_letter (split dot h) ≡ true)
    sound h ok =
        let labels = check_labels_sound false (split dot h) (ground (arith, ok)) in
        (ground (arith, ok), labels.0, labels.1)

    complete :
        (h : Text)
        → (length h ≤ 253) × AllLabels (split dot h) × (has_letter (split dot h) ≡ true)
        → is_valid_sni_hostname h ≡ true
    complete [] (short, labels, letter) = absurd (labels.0.not_empty refl)
    complete (c ∷ cs) (short, labels, letter) = elim (Bool-cases (ends_with_byte dot (c ∷ cs))) [
      | inl e ↦ absurd (ends_with_byte-split (c ∷ cs) e labels)
      | inr e ↦
          rw (e, le→ltb-false 253 (length (c ∷ cs)) short)
            (check_labels_complete false (split dot (c ∷ cs)) labels letter)
    ]
