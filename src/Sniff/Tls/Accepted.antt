-- ===== src/Sniff/Tls/Accepted.antt =====
-- The name that the ClientHello parser of src/sniff/tls_common.rs gives, whatever the bytes.
use xtp_rs.Prelude.{
  Anything, Bool-cases, List, Option, Text, Yields, Yields-bind, Yields-fail_if, Yields-if,
  Yields-index, Yields-slice, [], arith, index, inl, inr, leb, leb→le, length, ltb, ltb-false→le,
  none, not, ok, slice, some, suc, true, valid_utf8, zero, ℕ, ◌+◌, ◌<◌, ◌==◌, ◌||◌, ◌∷◌, ◌≡◌, ◌≤◌,
}
use xtp_rs.Domain.{to_ascii_lowercase}
use xtp_rs.Domain.Canonical.{IsCanonical}
use xtp_rs.Hostname.{is_valid_sni_hostname}
use xtp_rs.Hostname.Canonical.{sniffed-IsCanonical}
use xtp_rs.Sniff.Tls.{
  Found, TlsSniffError, be_u16, invalid_hostname, parse_error, read_extension, read_name,
  read_names, read_server_names,
}

-- A sniffed name passes the check of host names and is in lower case.
pub record IsSniffed (host : Text) : Type 0 where
  pub valid : is_valid_sni_hostname host ≡ true
  pub canonical : IsCanonical host

abbrev pub SniffedOrNone : Option Text → Type 0
SniffedOrNone none = Unit {0}
SniffedOrNone (some host) = IsSniffed host

abbrev pub FoundSniffed : Found → Type 0
FoundSniffed f = SniffedOrNone f.sni

pub Yields-be_u16 : (b : List ℕ) → Yields Anything (be_u16 b)
unfolding be_u16
Yields-be_u16 [] = tt
Yields-be_u16 (x ∷ []) = tt
Yields-be_u16 (x ∷ y ∷ b) = ground arith

Yields-read_name :
    (ext : List ℕ) (p name_len name_type : ℕ) (found : Option Text)
    → p + name_len ≤ length ext
    → SniffedOrNone found
    → Yields SniffedOrNone (read_name ext p name_len name_type found)
unfolding read_name
Yields-read_name ext p name_len name_type found room h = elim (Bool-cases (name_type == 0)) [
  | inr e ↦ rw e h
  | inl e ↦ rw e (
      Yields-bind Anything SniffedOrNone (slice ext p (p + name_len)) _
        (Yields-slice TlsSniffError ext p (p + name_len) (omega arith) room)
        (λ bytes l.
          Yields-fail_if SniffedOrNone (not (valid_utf8 bytes)) invalid_hostname _ (λ utf8.
            Yields-fail_if SniffedOrNone (not (is_valid_sni_hostname (to_ascii_lowercase bytes)))
              invalid_hostname _
              (λ checked.
                let v : is_valid_sni_hostname (to_ascii_lowercase bytes) ≡ true = ground arith in
                record { valid = v; canonical = (sniffed-IsCanonical bytes v).0 }))))
]

abbrev NamesRead : Option Text × ℕ → Type 0
NamesRead r = SniffedOrNone r.0

Yields-read_names :
    (fuel : ℕ) (ext : List ℕ) (p : ℕ) (found : Option Text)
    → length ext < p + fuel
    → p ≤ length ext
    → SniffedOrNone found
    → Yields NamesRead (read_names fuel ext p found)
unfolding read_names
Yields-read_names zero ext p found lt le h = absurd (omega arith)
Yields-read_names (suc fuel) ext p found lt le h =
    Yields-if NamesRead (leb (p + 3) (length ext)) _ (ok (found, p))
      (λ e.
        let room : p + 3 ≤ length ext = leb→le (p + 3) (length ext) e in
        Yields-bind Anything NamesRead (index ext p) _
          (Yields-index TlsSniffError ext p (omega arith))
          (λ name_type t.
            Yields-bind Anything NamesRead (slice ext (p + 1) (p + 3)) _
              (Yields-slice TlsSniffError ext (p + 1) (p + 3) (omega arith) room)
              (λ len_bytes l.
                Yields-bind Anything NamesRead (be_u16 len_bytes) _ (Yields-be_u16 len_bytes)
                  (λ name_len n.
                    Yields-fail_if NamesRead (ltb (length ext) (p + 3 + name_len)) parse_error _
                      (λ fits.
                        let inside : p + 3 + name_len ≤ length ext =
                          ltb-false→le (length ext) (p + 3 + name_len) fits in
                        Yields-bind SniffedOrNone NamesRead
                          (read_name ext (p + 3) name_len name_type found) _
                          (Yields-read_name ext (p + 3) name_len name_type found inside h)
                          (λ found' good.
                            Yields-read_names fuel ext (p + 3 + name_len) found' (omega arith)
                              inside good))))))
      (λ e. h)

Yields-read_server_names :
    (ext : List ℕ) (found : Option Text)
    → SniffedOrNone found
    → Yields SniffedOrNone (read_server_names ext found)
unfolding read_server_names
Yields-read_server_names ext found h =
    Yields-fail_if SniffedOrNone (ltb (length ext) 2) parse_error _ (λ long.
      let room : 2 ≤ length ext = ltb-false→le (length ext) 2 long in
      Yields-bind Anything SniffedOrNone (slice ext 0 2) _
        (Yields-slice TlsSniffError ext 0 2 (omega arith) room)
        (λ len_bytes l.
          Yields-bind Anything SniffedOrNone (be_u16 len_bytes) _ (Yields-be_u16 len_bytes)
            (λ list_len n.
              Yields-fail_if SniffedOrNone (not (list_len + 2 == length ext)) parse_error _
                (λ exact.
                  Yields-bind NamesRead SniffedOrNone (read_names (suc (length ext)) ext 2 found) _
                    (Yields-read_names (suc (length ext)) ext 2 found (omega arith) room h)
                    (λ r good.
                      Yields-fail_if SniffedOrNone (not (r.1 == length ext)) parse_error _
                        (λ ended. good))))))

pub Yields-read_extension :
    (body : List ℕ) (off ext_len ext_type : ℕ) (f : Found)
    → off + ext_len ≤ length body
    → FoundSniffed f
    → Yields FoundSniffed (read_extension body off ext_len ext_type f)
unfolding read_extension
Yields-read_extension body off ext_len ext_type f room h =
    elim (Bool-cases (ext_type == 0xfe0d || ext_type == 0xff07)) [
      | inl ech ↦ rw ech h
      | inr other ↦ elim (Bool-cases (ext_type == 0x0000)) [
        | inr e ↦ rw (other, e) h
        | inl e ↦
            rw (other, e)
              (Yields-bind Anything FoundSniffed (slice body off (off + ext_len)) _
                (Yields-slice TlsSniffError body off (off + ext_len) (omega arith) room)
                (λ ext l.
                  Yields-bind SniffedOrNone FoundSniffed (read_server_names ext f.sni) _
                    (Yields-read_server_names ext f.sni h) (λ sni good. good)))
      ]
    ]
