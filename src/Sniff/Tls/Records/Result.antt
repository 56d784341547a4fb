-- ===== src/Sniff/Tls/Records/Result.antt =====
-- What `sniff_tls_sni_from_prefix` of src/sniff/tls.rs gives, whatever the bytes.
use xtp_rs.Prelude.{
  Anything, Bool, List, Option, Text, Yields, Yields-bind, Yields-fail_if, Yields-if, Yields-index,
  Yields-slice, [], arith, err, false, if◌then◌else◌, index, is_empty, leb, leb→le, length, ltb,
  ltb-false→le, ltb→lt, none, not, ok, panic, slice, some, suc, true, zero, ℕ, ◌*◌, ◌++◌, ◌+◌, ◌-◌,
  ◌<◌, ◌==◌, ◌||◌, ◌∷◌, ◌≤◌,
}
use xtp_rs.Sniff.Tls.{
  TlsResult, TlsSniffError, be_u16, insufficient_prefix, invalid_hostname, parse_error, peek_empty,
  protocol_not_matched, tls_no_sni, too_large_client_hello,
}
use xtp_rs.Sniff.Tls.Accepted.{Yields-be_u16}
use xtp_rs.Sniff.Tls.Result.{IsAccepted, parse_sni_from_client_hello_body_lem}
use xtp_rs.Sniff.Tls.Records.{
  SniffAttempt, abort, attempt_of, be_u24, classify, find_needed, finish_record, matched, need_more,
  out_of_records, panicked, read_records, record_end_at, short_start, sniff_tls_sni_from_prefix,
}

pub Yields-be_u24 : (b : List ℕ) → Yields Anything (be_u24 b)
unfolding be_u24
Yields-be_u24 [] = tt
Yields-be_u24 (x ∷ []) = tt
Yields-be_u24 (x ∷ y ∷ []) = tt
Yields-be_u24 (x ∷ y ∷ z ∷ b) = ground arith

Yields-short_start : (buf : List ℕ) → 0 < length buf → Yields IsAccepted (short_start buf)
Yields-short_start [] h = absurd (omega arith)
Yields-short_start (x ∷ buf) h =
    Yields-fail_if IsAccepted (not (x == 0x16)) protocol_not_matched _
      (λ e. Yields-fail_if IsAccepted _ protocol_not_matched (err insufficient_prefix) (λ f. tt))

Yields-out_of_records : (saw : Bool) → Yields IsAccepted (out_of_records saw)
Yields-out_of_records true = tt
Yields-out_of_records false = tt

-- The length of a ClientHello counts its four bytes of header.
abbrev NeededFits : Option ℕ → Type 0
NeededFits none = Unit {0}
NeededFits (some total) = 4 ≤ total

Yields-find_needed :
    (max_size : ℕ) (handshake : List ℕ) (needed : Option ℕ)
    → NeededFits needed
    → Yields NeededFits (find_needed max_size handshake needed)
unfolding find_needed
Yields-find_needed max_size handshake (some total) h = h
Yields-find_needed max_size handshake none h =
    Yields-if NeededFits (leb 4 (length handshake)) _ (ok none)
      (λ e.
        let room : 4 ≤ length handshake = leb→le 4 (length handshake) e in
        Yields-bind Anything NeededFits (index handshake 0) _
          (Yields-index TlsSniffError handshake 0 (omega arith))
          (λ first t.
            Yields-fail_if NeededFits (not (first == 0x01)) protocol_not_matched _ (λ hello.
              Yields-bind Anything NeededFits (slice handshake 1 4) _
                (Yields-slice TlsSniffError handshake 1 4 (omega arith) room)
                (λ len_bytes l.
                  Yields-bind Anything NeededFits (be_u24 len_bytes) _ (Yields-be_u24 len_bytes)
                    (λ hs_len n.
                      Yields-fail_if NeededFits (ltb max_size (4 + hs_len)) too_large_client_hello
                        (ok (some (4 + hs_len))) (λ fits. omega arith))))))
      (λ e. tt)

Yields-finish_record :
    (needed : Option ℕ) (handshake : List ℕ) (more : TlsResult Text)
    → NeededFits needed
    → Yields IsAccepted more
    → Yields IsAccepted (finish_record needed handshake more)
unfolding finish_record
Yields-finish_record none handshake more h k = k
Yields-finish_record (some total) handshake more h k =
    Yields-if IsAccepted (leb total (length handshake)) _ more
      (λ e.
        Yields-bind Anything IsAccepted (slice handshake 4 total) _
          (Yields-slice TlsSniffError handshake 4 total h (leb→le total (length handshake) e))
          (λ body t. parse_sni_from_client_hello_body_lem body))
      (λ e. k)

-- A record ends past its header, and within what was read.
abbrev EndsIn : List ℕ → ℕ → ℕ → Type 0
EndsIn buf off record_end = (off + 5 ≤ record_end) × (record_end ≤ length buf)

Yields-record_end_at :
    (buf : List ℕ) (off : ℕ)
    → off + 5 ≤ length buf
    → Yields (EndsIn buf off) (record_end_at buf off)
unfolding record_end_at
Yields-record_end_at buf off room =
    Yields-bind Anything (EndsIn buf off) (index buf off) _
      (Yields-index TlsSniffError buf off (omega arith))
      (λ content_type t.
        Yields-fail_if (EndsIn buf off) (not (content_type == 22)) protocol_not_matched _
          (λ handshake.
            Yields-bind Anything (EndsIn buf off) (index buf (off + 1)) _
              (Yields-index TlsSniffError buf (off + 1) (omega arith))
              (λ version u.
                Yields-fail_if (EndsIn buf off) (not (version == 0x03)) protocol_not_matched _
                  (λ three.
                    Yields-bind Anything (EndsIn buf off) (slice buf (off + 3) (off + 5)) _
                      (Yields-slice TlsSniffError buf (off + 3) (off + 5) (omega arith) room)
                      (λ len_bytes l.
                        Yields-bind Anything (EndsIn buf off) (be_u16 len_bytes) _
                          (Yields-be_u16 len_bytes)
                          (λ len n.
                            Yields-fail_if (EndsIn buf off) (len == 0 || ltb (18 * 1024) len)
                              protocol_not_matched _
                              (λ sized.
                                Yields-fail_if (EndsIn buf off) (ltb (length buf) (off + 5 + len))
                                  insufficient_prefix (ok (off + 5 + len))
                                  (λ fits. (
                                    omega arith,
                                    ltb-false→le (length buf) (off + 5 + len) fits,
                                  )))))))))

Yields-read_records :
    (fuel max_size : ℕ) (buf : List ℕ) (off : ℕ) (handshake : List ℕ) (needed : Option ℕ)
    (saw : Bool)
    → length buf < off + fuel
    → off ≤ length buf
    → NeededFits needed
    → Yields IsAccepted (read_records fuel max_size buf off handshake needed saw)
unfolding read_records
Yields-read_records zero max_size buf off handshake needed saw lt le h = absurd (omega arith)
Yields-read_records (suc fuel) max_size buf off handshake needed saw lt le h =
    Yields-if IsAccepted (ltb off (length buf)) _ (out_of_records saw)
      (λ more.
        let inside : off < length buf = ltb→lt off (length buf) more in
        Yields-if IsAccepted (ltb (length buf - off) 5)
          (if off == 0 then short_start buf else out_of_records saw) _
          (λ short.
            Yields-if IsAccepted (off == 0) (short_start buf) (out_of_records saw)
              (λ z. Yields-short_start buf (omega arith)) (λ nz. Yields-out_of_records saw))
          (λ long.
            let room : off + 5 ≤ length buf =
              omega (arith, ltb-false→le (length buf - off) 5 long) in
            Yields-bind (EndsIn buf off) IsAccepted (record_end_at buf off) _
              (Yields-record_end_at buf off room)
              (λ e ends.
                Yields-bind Anything IsAccepted (slice buf (off + 5) e) _
                  (Yields-slice TlsSniffError buf (off + 5) e ends.0 ends.1)
                  (λ payload t.
                    Yields-bind NeededFits IsAccepted
                      (find_needed max_size (handshake ++ payload) needed) _
                      (Yields-find_needed max_size (handshake ++ payload) needed h)
                      (λ needed' fits. Yields-finish_record needed' (handshake ++ payload) _ fits (
                        Yields-read_records fuel max_size buf e (handshake ++ payload) needed' true
                          (omega (arith, ends.0)) ends.1 fits))))))
      (λ done. Yields-out_of_records saw)

-- An attempt whose name, if it has one, is accepted, and which is no panic.
abbrev pub GoodAttempt : SniffAttempt → Type 0
GoodAttempt (matched host) = IsAccepted host
GoodAttempt need_more = Unit {0}
GoodAttempt (abort e) = Unit {0}
GoodAttempt panicked = ⊥

-- Whatever the first bytes of a connection, the TLS sniffer does not panic and ends within its
-- fuel, and a name that it matches passes the host name check, is canonical and is not the
-- filtered outer name of an encrypted ClientHello.
pub classify_lem : (buf : List ℕ) (max_len : ℕ) → GoodAttempt (classify buf max_len)
unfolding classify
classify_lem buf max_len = attempt (sniff_tls_sni_from_prefix buf max_len) sniffed
  where
    sniffed : Yields IsAccepted (sniff_tls_sni_from_prefix buf max_len)
    sniffed =
        unfold sniff_tls_sni_from_prefix in
        Yields-fail_if IsAccepted (is_empty buf) peek_empty _ (λ some_bytes.
          Yields-read_records (suc (length buf)) max_len buf 0 [] none false (omega arith)
            (omega arith) tt)

    attempt : (r : TlsResult Text) → Yields IsAccepted r → GoodAttempt (attempt_of r)
    attempt (ok host) h = h
    attempt (err insufficient_prefix) h = tt
    attempt (err peek_empty) h = tt
    attempt (err protocol_not_matched) h = tt
    attempt (err tls_no_sni) h = tt
    attempt (err parse_error) h = tt
    attempt (err invalid_hostname) h = tt
    attempt (err too_large_client_hello) h = tt
    attempt panic h = h
