-- ===== src/Sniff/Quic/Hello.antt =====
-- The variable-length integers of src/sniff/quic.rs, and the ClientHello at the start of the CRYPTO
-- stream.
use xtp_rs.Prelude.{
  Anything, Bool-cases, List, Option, Res, Text, Yields, Yields-bind, Yields-fail_if, Yields-index,
  Yields-slice, arith, err, fail_if, from_be, get_elem?, if◌then◌else◌, index, inl, inr, length,
  list_eq, ltb, ltb-false→le, nat_eq, none, not, ok, option_eq, or_err, pair_eq, panic, refl, slice,
  some, ℕ, ◌%◌, ◌+◌, ◌/◌, ◌<◌, ◌==◌, ◌>>=◌, ◌>>◌, ◌^◌, ◌≡◌, ◌≤◌,
}
use xtp_rs.Sniff.Tls.{TlsResult, TlsSniffError, parse_sni_from_client_hello_body}
use xtp_rs.Sniff.Tls.Result.{IsAccepted, parse_sni_from_client_hello_body_lem}
use xtp_rs.Sniff.Tls.Records.{be_u24}
use xtp_rs.Sniff.Tls.Records.Result.{Yields-be_u24}
use xtp_rs.Sniff.Quic.Reassembly.{
  UdpSniffError, checked_add, insufficient_prefix, invalid_hostname, no_target, parse_error,
  protocol_not_matched, reassembly_cap, too_large,
}

-- first >> 6
abbrev pub varint_len : ℕ → ℕ
varint_len first =
    if first / 64 == 0 then 1 else if first / 64 == 1 then 2 else if first / 64 == 2 then 4 else 8

-- The number at an offset, and the offset behind it.
unfoldable pub quic_read_varint : List ℕ → ℕ → Res UdpSniffError (ℕ × ℕ)
unfolding from_be
quic_read_varint buf off = do
  first ← or_err (get_elem? buf off) insufficient_prefix
  fail_if (ltb (length buf) (off + varint_len first)) insufficient_prefix
  bytes ← slice buf (off + 1) (off + varint_len first)
  ok (from_be (first % 64) bytes, off + varint_len first)

-- impl From<TlsSniffError> for UdpSniffError
abbrev pub from_tls_error : TlsSniffError → UdpSniffError
from_tls_error TlsSniffError.peek_empty = insufficient_prefix
from_tls_error TlsSniffError.insufficient_prefix = insufficient_prefix
from_tls_error TlsSniffError.protocol_not_matched = protocol_not_matched
from_tls_error TlsSniffError.tls_no_sni = no_target
from_tls_error TlsSniffError.parse_error = parse_error
from_tls_error TlsSniffError.invalid_hostname = invalid_hostname
from_tls_error TlsSniffError.too_large_client_hello = too_large

abbrev pub map_err :
    {A : Type 0} → (TlsSniffError → UdpSniffError) → TlsResult A → Res UdpSniffError A
map_err f (ok a) = ok a
map_err f (err e) = err (f e)
map_err f panic = panic

unfoldable pub client_hello_from_crypto : List ℕ → Res UdpSniffError Text
unfolding be_u24 parse_sni_from_client_hello_body
client_hello_from_crypto crypto = do
  fail_if (ltb (length crypto) 4) insufficient_prefix
  first ← index crypto 0
  fail_if (not (first == 0x01)) protocol_not_matched
  len_bytes ← slice crypto 1 4
  hs_len ← map_err (λ e. parse_error) (be_u24 len_bytes)
  total ← or_err (checked_add 4 hs_len) too_large
  fail_if (ltb reassembly_cap total) too_large
  fail_if (ltb (length crypto) total) insufficient_prefix
  body ← slice crypto 4 total
  map_err from_tls_error (parse_sni_from_client_hello_body body)

Yields-map_err :
    {A : Type 0} (P : A → Type 0) (f : TlsSniffError → UdpSniffError) (r : TlsResult A)
    → Yields P r
    → Yields P (map_err f r)
Yields-map_err P f (ok a) h = h
Yields-map_err P f (err e) h = tt
Yields-map_err P f panic h = h

Yields-checked_add :
    (a b : ℕ) (e : UdpSniffError) → Yields (λ (c : ℕ). c ≡ a + b) (or_err (checked_add a b) e)
Yields-checked_add a b e = elim (Bool-cases (ltb (a + b) (2 ^ 64))) [
  | inl t ↦ rw t refl
  | inr f ↦ rw f tt
]

-- A number read ends past its start and within the buffer.
abbrev pub Advances : List ℕ → ℕ → ℕ × ℕ → Type 0
Advances buf off r = (off < r.1) × (r.1 ≤ length buf)

-- Reading a variable-length integer never panics, at any offset of any buffer; where it succeeds,
-- the offset moves on and stays within the buffer.
pub quic_read_varint-Advances :
    (buf : List ℕ) (off : ℕ) → Yields (Advances buf off) (quic_read_varint buf off)
unfolding quic_read_varint
quic_read_varint-Advances buf off = from_first (get_elem? buf off)
  where
    positive : (first : ℕ) → 1 ≤ varint_len first
    positive first = ground arith

    from_first :
        (o : Option ℕ)
        → Yields (Advances buf off) (
            or_err o insufficient_prefix >>= λ first.
            fail_if (ltb (length buf) (off + varint_len first)) insufficient_prefix
            >> (slice buf (off + 1) (off + varint_len first) >>= λ bytes.
                ok (from_be (first % 64) bytes, off + varint_len first)))
    from_first none = tt
    from_first (some first) =
        Yields-fail_if (Advances buf off) (ltb (length buf) (off + varint_len first))
          insufficient_prefix _
          (λ fits.
            let room : off + varint_len first ≤ length buf =
              ltb-false→le (length buf) (off + varint_len first) fits in
            Yields-bind Anything (Advances buf off) (slice buf (off + 1) (off + varint_len first)) _
              (Yields-slice UdpSniffError buf (off + 1) (off + varint_len first)
                (omega (arith, positive first)) room)
              (λ bytes t. (omega (arith, positive first), room)))

-- Whatever the CRYPTO bytes, reading their ClientHello never panics, and a name that it gives
-- passes the host name check, is canonical and is not the filtered outer name.
pub client_hello_from_crypto_lem :
    (crypto : List ℕ) → Yields IsAccepted (client_hello_from_crypto crypto)
unfolding client_hello_from_crypto
client_hello_from_crypto_lem crypto =
    Yields-fail_if IsAccepted (ltb (length crypto) 4) insufficient_prefix _ (λ long.
      let room : 4 ≤ length crypto = ltb-false→le (length crypto) 4 long in
      Yields-bind Anything IsAccepted (index crypto 0) _
        (Yields-index UdpSniffError crypto 0 (omega arith))
        (λ first t. Yields-fail_if IsAccepted (not (first == 0x01)) protocol_not_matched _ (λ hello.
          Yields-bind Anything IsAccepted (slice crypto 1 4) _
            (Yields-slice UdpSniffError crypto 1 4 (omega arith) room)
            (λ len_bytes l.
              Yields-bind Anything IsAccepted (map_err (λ e. parse_error) (be_u24 len_bytes)) _
                (Yields-map_err Anything (λ e. parse_error) (be_u24 len_bytes)
                  (Yields-be_u24 len_bytes))
                (λ hs_len n.
                  Yields-bind (λ (c : ℕ). c ≡ 4 + hs_len) IsAccepted
                    (or_err (checked_add 4 hs_len) too_large) _
                    (Yields-checked_add 4 hs_len too_large)
                    (λ total sum.
                      Yields-fail_if IsAccepted (ltb reassembly_cap total) too_large _ (λ small.
                        Yields-fail_if IsAccepted (ltb (length crypto) total) insufficient_prefix _
                          (λ there.
                            Yields-bind Anything IsAccepted (slice crypto 4 total) _
                              (Yields-slice UdpSniffError crypto 4 total (omega arith)
                                (ltb-false→le (length crypto) total there))
                              (λ body b.
                                Yields-map_err IsAccepted from_tls_error
                                  (parse_sni_from_client_hello_body body)
                                  (parse_sni_from_client_hello_body_lem body))))))))))
