-- ===== src/Sniff/Tls/Records.antt =====
-- `sniff_tls_sni_from_prefix` of src/sniff/tls.rs: the handshake records at the start of a stream,
-- and the ClientHello that they hold. The loop runs on fuel, and gives `panic` when it is used up.
pub mod Result
use xtp_rs.Prelude.{
  Bool, List, Option, Text, [], err, fail_if, false, from_be, get_elem?, if◌then◌else◌, index,
  is_empty, leb, length, ltb, none, not, ok, panic, slice, some, suc, true, zero, ℕ, ◌&&◌, ◌*◌,
  ◌++◌, ◌+◌, ◌-◌, ◌==◌, ◌>>=◌, ◌>>◌, ◌||◌, ◌∷◌,
}
use xtp_rs.Sniff.Tls.{
  TlsResult, be_u16, insufficient_prefix, invalid_hostname, parse_error,
  parse_sni_from_client_hello_body, peek_empty, protocol_not_matched, tls_no_sni,
  too_large_client_hello,
}

unfoldable pub be_u24 : List ℕ → TlsResult ℕ
unfolding from_be
be_u24 b = do
  fail_if (ltb (length b) 3) parse_error
  b0 ← index b 0
  b1 ← index b 1
  b2 ← index b 2
  ok (from_be 0 (b0 ∷ b1 ∷ b2 ∷ []))

-- Fewer than five bytes at the very start.
abbrev pub short_start : List ℕ → TlsResult Text
short_start buf = do
  first ← index buf 0
  fail_if (not (first == 0x16)) protocol_not_matched
  fail_if (leb 2 (length buf) && not_version (get_elem? buf 1)) protocol_not_matched
  err insufficient_prefix
  where
    not_version : Option ℕ → Bool
    not_version (some v) = not (v == 0x03)
    not_version none = false

abbrev pub out_of_records : Bool → TlsResult Text
out_of_records saw_handshake_record =
    if saw_handshake_record then err insufficient_prefix else err protocol_not_matched

-- The total length of the ClientHello, once its first four bytes are there.
pub find_needed : ℕ → List ℕ → Option ℕ → TlsResult (Option ℕ)
unfolding be_u24
find_needed max_size handshake (some total) = ok (some total)
find_needed max_size handshake none =
    if leb 4 (length handshake)
    then (do
      first ← index handshake 0
      fail_if (not (first == 0x01)) protocol_not_matched
      len_bytes ← slice handshake 1 4
      hs_len ← be_u24 len_bytes
      fail_if (ltb max_size (4 + hs_len)) too_large_client_hello
      ok (some (4 + hs_len)))
    else ok none

-- The ClientHello if it is complete, and otherwise what the next records give.
pub finish_record : Option ℕ → List ℕ → TlsResult Text → TlsResult Text
unfolding parse_sni_from_client_hello_body
finish_record none handshake more = more
finish_record (some total) handshake more =
    if leb total (length handshake)
    then (do body ← slice handshake 4 total; parse_sni_from_client_hello_body body)
    else more

-- The header of the record at an offset: the end of its payload.
pub record_end_at : List ℕ → ℕ → TlsResult ℕ
unfolding be_u16
record_end_at buf off = do
  content_type ← index buf off
  fail_if (not (content_type == 22)) protocol_not_matched
  version_major ← index buf (off + 1)
  fail_if (not (version_major == 0x03)) protocol_not_matched
  len_bytes ← slice buf (off + 3) (off + 5)
  record_len ← be_u16 len_bytes
  fail_if (record_len == 0 || ltb (18 * 1024) record_len) protocol_not_matched
  fail_if (ltb (length buf) (off + 5 + record_len)) insufficient_prefix
  ok (off + 5 + record_len)

pub read_records : ℕ → ℕ → List ℕ → ℕ → List ℕ → Option ℕ → Bool → TlsResult Text
unfolding record_end_at find_needed finish_record
read_records zero max_size buf off handshake needed saw = panic
read_records (suc fuel) max_size buf off handshake needed saw =
    if ltb off (length buf)
    then (if ltb (length buf - off) 5
        then (if off == 0 then short_start buf else out_of_records saw)
        else (do
          record_end ← record_end_at buf off
          payload ← slice buf (off + 5) record_end
          needed' ← find_needed max_size (handshake ++ payload) needed
          finish_record needed' (handshake ++ payload)
              (read_records fuel max_size buf record_end (handshake ++ payload) needed' true)))
    else out_of_records saw

unfoldable pub sniff_tls_sni_from_prefix : List ℕ → ℕ → TlsResult Text
unfolding read_records
sniff_tls_sni_from_prefix buf max_client_hello_size = do
  fail_if (is_empty buf) peek_empty
  read_records (suc (length buf)) max_client_hello_size buf 0 [] none false

-- `classify`: what a prefix of the stream means for the sniffer.
pub data SniffError : Type 0 where
  peek_was_empty not_matched no_target not_parsed bad_hostname over_size : SniffError

pub data SniffAttempt : Type 0 where
  matched : Text → SniffAttempt
  need_more : SniffAttempt
  abort : SniffError → SniffAttempt
  panicked : SniffAttempt

abbrev pub attempt_of : TlsResult Text → SniffAttempt
attempt_of (ok host) = matched host
attempt_of (err insufficient_prefix) = need_more
attempt_of (err peek_empty) = abort peek_was_empty
attempt_of (err protocol_not_matched) = abort not_matched
attempt_of (err tls_no_sni) = abort no_target
attempt_of (err parse_error) = abort not_parsed
attempt_of (err invalid_hostname) = abort bad_hostname
attempt_of (err too_large_client_hello) = abort over_size
attempt_of panic = panicked

unfoldable pub classify : List ℕ → ℕ → SniffAttempt
unfolding sniff_tls_sni_from_prefix
classify buf max_len = attempt_of (sniff_tls_sni_from_prefix buf max_len)
