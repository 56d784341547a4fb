-- ===== src/Sniff/Tls/Result.antt =====
-- What `parse_sni_from_client_hello_body` of src/sniff/tls_common.rs gives, whatever the bytes.
use xtp_rs.Prelude.{
  Anything, List, Option, Text, Yields, Yields-bind, Yields-fail_if, Yields-if, Yields-slice, arith,
  eq, eq_iff, err, false, false≢true, if◌then◌else◌, leb, leb→le, length, list_eq, ltb,
  ltb-false→le, nat_eq, none, not, ok, option_eq, or_err, pair_eq, slice, some, suc, sym, zero, ℕ,
  ◌%◌, ◌&&◌, ◌+◌, ◌<◌, ◌==◌, ◌||◌, ◌∙◌, ◌≢◌, ◌≤◌,
}
use xtp_rs.Sniff.Tls.{
  Found, TlsSniffError, be_u16, choose_name, ech_outer_name, get_byte, get_range,
  is_filtered_ech_outer_name, parse_error, parse_sni_from_client_hello_body, read_all_extensions,
  read_extension, read_extensions, skip_cipher_suites, skip_compression_methods, skip_session_id,
  tls_no_sni,
}
use xtp_rs.Sniff.Tls.Accepted.{
  FoundSniffed, IsSniffed, SniffedOrNone, Yields-be_u16, Yields-read_extension,
}

abbrev ExtensionsRead : Found × ℕ → Type 0
ExtensionsRead r = FoundSniffed r.0

Yields-read_extensions :
    (fuel : ℕ) (body : List ℕ) (ext_end off : ℕ) (f : Found)
    → ext_end < off + fuel
    → off ≤ ext_end
    → ext_end ≤ length body
    → FoundSniffed f
    → Yields ExtensionsRead (read_extensions fuel body ext_end off f)
unfolding read_extensions
Yields-read_extensions zero body ext_end off f lt le within h = absurd (omega arith)
Yields-read_extensions (suc fuel) body ext_end off f lt le within h =
    Yields-if ExtensionsRead (leb (off + 4) ext_end) _ (ok (f, off))
      (λ e.
        let room : off + 4 ≤ ext_end = leb→le (off + 4) ext_end e in
        Yields-bind Anything ExtensionsRead (slice body off (off + 2)) _
          (Yields-slice TlsSniffError body off (off + 2) (omega arith) (omega arith))
          (λ type_bytes t.
            Yields-bind Anything ExtensionsRead (be_u16 type_bytes) _ (Yields-be_u16 type_bytes)
              (λ ext_type u.
                Yields-bind Anything ExtensionsRead (slice body (off + 2) (off + 4)) _
                  (Yields-slice TlsSniffError body (off + 2) (off + 4) (omega arith) (omega arith))
                  (λ len_bytes l.
                    Yields-bind Anything ExtensionsRead (be_u16 len_bytes) _
                      (Yields-be_u16 len_bytes)
                      (λ ext_len n.
                        Yields-fail_if ExtensionsRead (ltb ext_end (off + 4 + ext_len)) parse_error
                          _
                          (λ fits.
                            let inside : off + 4 + ext_len ≤ ext_end =
                              ltb-false→le ext_end (off + 4 + ext_len) fits in
                            Yields-bind FoundSniffed ExtensionsRead
                              (read_extension body (off + 4) ext_len ext_type f) _
                              (Yields-read_extension body (off + 4) ext_len ext_type f (omega arith)
                                h)
                              (λ f' good.
                                Yields-read_extensions fuel body ext_end (off + 4 + ext_len) f'
                                  (omega arith) inside within good)))))))
      (λ e. h)

-- An accepted name: checked, canonical, and not the public name of an encrypted one.
pub record IsAccepted (host : Text) : Type 0 where
  pub sniffed : IsSniffed host
  pub not_outer : host ≢ ech_outer_name

Yields-choose_name : (f : Found) → FoundSniffed f → Yields IsAccepted (choose_name f)
Yields-choose_name f h = by_name f.sni h
  where
    by_name :
        (o : Option Text)
        → SniffedOrNone o
        → Yields {E = TlsSniffError} IsAccepted (elim o [
          | some host ↦ if is_filtered_ech_outer_name host then err tls_no_sni else ok host
          | none ↦ err tls_no_sni
        ])
    by_name none v = tt
    by_name (some host) v =
        Yields-if IsAccepted (eq host ech_outer_name) (err tls_no_sni) (ok host) (λ e. tt)
          (λ e. record {
            sniffed = v;
            not_outer = λ q. false≢true (sym e ∙ (eq_iff host ech_outer_name).1 q);
          })

Yields-get_range :
    (xs : List ℕ) (a e : ℕ) → Yields (λ (ys : List ℕ). e ≤ length xs) (get_range xs a e)
Yields-get_range xs a e =
    Yields-if (λ (ys : List ℕ). e ≤ length xs) (leb a e && leb e (length xs)) _ (err parse_error)
      (λ h. ground (arith, h)) (λ h. tt)

Yields-read_all_extensions :
    (body : List ℕ) (off : ℕ) → Yields IsAccepted (read_all_extensions body off)
unfolding read_all_extensions
Yields-read_all_extensions body off =
    Yields-fail_if IsAccepted (off == length body) tls_no_sni _ (λ more.
      Yields-bind (λ (ys : List ℕ). off + 2 ≤ length body) IsAccepted (get_range body off (off + 2))
        _ (Yields-get_range body off (off + 2))
        (λ len_bytes room.
          Yields-bind Anything IsAccepted (be_u16 len_bytes) _ (Yields-be_u16 len_bytes) (λ len n.
            Yields-fail_if IsAccepted (ltb (length body) (off + 2 + len)) parse_error _ (λ fits.
              let within : off + 2 + len ≤ length body =
                ltb-false→le (length body) (off + 2 + len) fits in
              let start : Found = record { saw_ech = false; sni = none } in
              Yields-bind ExtensionsRead IsAccepted
                (read_extensions (suc (length body)) body (off + 2 + len) (off + 2) start) _
                (Yields-read_extensions (suc (length body)) body (off + 2 + len) (off + 2) start
                  (omega arith) (omega arith) within tt)
                (λ r good.
                  Yields-fail_if IsAccepted (not (r.1 == off + 2 + len)) parse_error _
                    (λ ended. Yields-choose_name r.0 good))))))

Yields-or_err :
    (o : Option ℕ) (e : TlsSniffError) → Yields {E = TlsSniffError} Anything (or_err o e)
Yields-or_err (some b) e = tt
Yields-or_err none e = tt

Yields-skip_session_id : (body : List ℕ) → Yields Anything (skip_session_id body)
unfolding skip_session_id
Yields-skip_session_id body =
    Yields-bind Anything Anything (get_byte body 34) _ (Yields-or_err _ parse_error) (λ len t.
      Yields-fail_if Anything (ltb (length body) (35 + len)) parse_error (ok (35 + len)) (λ h. tt))

Yields-skip_cipher_suites :
    (body : List ℕ) (off : ℕ) → Yields Anything (skip_cipher_suites body off)
unfolding skip_cipher_suites
Yields-skip_cipher_suites body off =
    Yields-bind (λ (ys : List ℕ). off + 2 ≤ length body) Anything (get_range body off (off + 2)) _
      (Yields-get_range body off (off + 2))
      (λ len_bytes t.
        Yields-bind Anything Anything (be_u16 len_bytes) _ (Yields-be_u16 len_bytes) (λ len n.
          Yields-fail_if Anything
            (len == 0 || not (len % 2 == 0) || ltb (length body) (off + 2 + len)) parse_error
            (ok (off + 2 + len)) (λ h. tt)))

Yields-skip_compression_methods :
    (body : List ℕ) (off : ℕ) → Yields Anything (skip_compression_methods body off)
unfolding skip_compression_methods
Yields-skip_compression_methods body off =
    Yields-bind Anything Anything (get_byte body off) _ (Yields-or_err _ parse_error) (λ len t.
      Yields-fail_if Anything (len == 0 || ltb (length body) (off + 1 + len)) parse_error
        (ok (off + 1 + len)) (λ h. tt))

-- Whatever the bytes, the parser does not panic and ends within its fuel, and a name that it gives
-- passes the host name check, is canonical, and is not the filtered outer name of an encrypted
-- ClientHello.
pub parse_sni_from_client_hello_body_lem :
    (body : List ℕ) → Yields IsAccepted (parse_sni_from_client_hello_body body)
unfolding parse_sni_from_client_hello_body
parse_sni_from_client_hello_body_lem body =
    Yields-fail_if IsAccepted (ltb (length body) (2 + 32 + 1)) parse_error _ (λ long.
      Yields-bind Anything IsAccepted (skip_session_id body) _ (Yields-skip_session_id body) (λ a t.
        Yields-bind Anything IsAccepted (skip_cipher_suites body a) _
          (Yields-skip_cipher_suites body a)
          (λ b u.
            Yields-bind Anything IsAccepted (skip_compression_methods body b) _
              (Yields-skip_compression_methods body b) (λ c v. Yields-read_all_extensions body c))))
