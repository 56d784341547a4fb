-- ===== src/Sniff/Tls.antt =====
-- `parse_sni_from_client_hello_body` of src/sniff/tls_common.rs: the server name of a TLS
-- ClientHello. Both loops run on fuel, and `panic` is also what they give when it is used up.
pub mod Accepted
pub mod Result
pub mod Records
use xtp_rs.Prelude.{
  Bool, List, Option, Res, Text, [], drop, eq, err, fail_if, false, from_be, get_elem?,
  if◌then◌else◌, index, leb, length, list_eq, ltb, nat_eq, none, not, ok, option_eq, or_err,
  pair_eq, panic, slice, some, suc, take, text, true, valid_utf8, zero, ℕ, ◌%◌, ◌&&◌, ◌+◌, ◌-◌,
  ◌==◌, ◌>>=◌, ◌>>◌, ◌||◌, ◌∷◌,
}
use xtp_rs.Domain.{to_ascii_lowercase}
use xtp_rs.Hostname.{is_valid_sni_hostname}

pub data TlsSniffError : Type 0 where
  peek_empty insufficient_prefix protocol_not_matched tls_no_sni parse_error : TlsSniffError
  invalid_hostname too_large_client_hello : TlsSniffError

abbrev pub TlsResult : Type 0 → Type 0
TlsResult A = Res TlsSniffError A

pub be_u16 : List ℕ → TlsResult ℕ
unfolding from_be
be_u16 b = do
  fail_if (ltb (length b) 2) parse_error
  hi ← index b 0
  lo ← index b 1
  ok (from_be 0 (hi ∷ lo ∷ []))

-- body.get(a..e).ok_or(ParseError)?
abbrev pub get_range : List ℕ → ℕ → ℕ → TlsResult (List ℕ)
get_range xs a e =
    if leb a e && leb e (length xs) then ok (take (e - a) (drop a xs)) else err parse_error

-- body.get(i).ok_or(ParseError)?
abbrev pub get_byte : List ℕ → ℕ → TlsResult ℕ
get_byte xs i = or_err (get_elem? xs i) parse_error

abbrev pub ech_outer_name : Text
ech_outer_name = text "cloudflare-ech.com"

abbrev pub is_filtered_ech_outer_name : Text → Bool
is_filtered_ech_outer_name host = eq host ech_outer_name

-- A name of type 0 must be a host name; one of another type is passed over.
pub read_name : List ℕ → ℕ → ℕ → ℕ → Option Text → TlsResult (Option Text)
read_name ext p name_len name_type found =
    if name_type == 0
    then (do
      bytes ← slice ext p (p + name_len)
      fail_if (not (valid_utf8 bytes)) invalid_hostname
      fail_if (not (is_valid_sni_hostname (to_ascii_lowercase bytes))) invalid_hostname
      ok (some (to_ascii_lowercase bytes)))
    else ok found

-- The loop over the names of a server name extension.
pub read_names : ℕ → List ℕ → ℕ → Option Text → TlsResult (Option Text × ℕ)
unfolding be_u16 read_name
read_names zero ext p found = panic
read_names (suc fuel) ext p found =
    if leb (p + 3) (length ext)
    then (do
      name_type ← index ext p
      len_bytes ← slice ext (p + 1) (p + 3)
      name_len ← be_u16 len_bytes
      fail_if (ltb (length ext) (p + 3 + name_len)) parse_error
      found' ← read_name ext (p + 3) name_len name_type found
      read_names fuel ext (p + 3 + name_len) found')
    else ok (found, p)

pub read_server_names : List ℕ → Option Text → TlsResult (Option Text)
unfolding be_u16 read_names
read_server_names ext found = do
  fail_if (ltb (length ext) 2) parse_error
  len_bytes ← slice ext 0 2
  list_len ← be_u16 len_bytes
  fail_if (not (list_len + 2 == length ext)) parse_error
  r ← read_names (suc (length ext)) ext 2 found
  fail_if (not (r.1 == length ext)) parse_error
  ok r.0

pub record Found : Type 0 where
  pub saw_ech : Bool
  pub sni : Option Text

-- One extension, whose bytes are in the body.
pub read_extension : List ℕ → ℕ → ℕ → ℕ → Found → TlsResult Found
unfolding read_server_names
read_extension body off ext_len ext_type f =
    if ext_type == 0xfe0d || ext_type == 0xff07
    then ok (record f { saw_ech = true })
    else if ext_type == 0x0000
    then (do
      ext ← slice body off (off + ext_len)
      sni ← read_server_names ext f.sni
      ok (record f { sni = sni }))
    else ok f

-- The loop over the extensions.
pub read_extensions : ℕ → List ℕ → ℕ → ℕ → Found → TlsResult (Found × ℕ)
unfolding be_u16 read_extension
read_extensions zero body ext_end off f = panic
read_extensions (suc fuel) body ext_end off f =
    if leb (off + 4) ext_end
    then (do
      type_bytes ← slice body off (off + 2)
      ext_type ← be_u16 type_bytes
      len_bytes ← slice body (off + 2) (off + 4)
      ext_len ← be_u16 len_bytes
      fail_if (ltb ext_end (off + 4 + ext_len)) parse_error
      f' ← read_extension body (off + 4) ext_len ext_type f
      read_extensions fuel body ext_end (off + 4 + ext_len) f')
    else ok (f, off)

-- A name that only covers an encrypted one is ignored.
abbrev pub choose_name : Found → TlsResult Text
choose_name f = elim f.sni [
  | some host ↦ if is_filtered_ech_outer_name host then err tls_no_sni else ok host
  | none ↦ err tls_no_sni
]

-- What stands before the extensions; where it ends, the session id, the cipher suites and the
-- compression methods are passed over.
pub skip_session_id : List ℕ → TlsResult ℕ
skip_session_id body = do
  session_id_len ← get_byte body 34
  fail_if (ltb (length body) (35 + session_id_len)) parse_error
  ok (35 + session_id_len)

pub skip_cipher_suites : List ℕ → ℕ → TlsResult ℕ
unfolding be_u16
skip_cipher_suites body off = do
  len_bytes ← get_range body off (off + 2)
  len ← be_u16 len_bytes
  fail_if (len == 0 || not (len % 2 == 0) || ltb (length body) (off + 2 + len)) parse_error
  ok (off + 2 + len)

pub skip_compression_methods : List ℕ → ℕ → TlsResult ℕ
skip_compression_methods body off = do
  len ← get_byte body off
  fail_if (len == 0 || ltb (length body) (off + 1 + len)) parse_error
  ok (off + 1 + len)

pub read_all_extensions : List ℕ → ℕ → TlsResult Text
unfolding be_u16 read_extensions
read_all_extensions body off = do
  fail_if (off == length body) tls_no_sni
  len_bytes ← get_range body off (off + 2)
  extensions_len ← be_u16 len_bytes
  fail_if (ltb (length body) (off + 2 + extensions_len)) parse_error
  r ←
      read_extensions (suc (length body)) body (off + 2 + extensions_len) (off + 2)
        (record { saw_ech = false; sni = none })
  fail_if (not (r.1 == off + 2 + extensions_len)) parse_error
  choose_name r.0

unfoldable pub parse_sni_from_client_hello_body : List ℕ → TlsResult Text
unfolding skip_session_id skip_cipher_suites skip_compression_methods read_all_extensions
parse_sni_from_client_hello_body body = do
  fail_if (ltb (length body) (2 + 32 + 1)) parse_error
  after_session ← skip_session_id body
  after_suites ← skip_cipher_suites body after_session
  after_methods ← skip_compression_methods body after_suites
  read_all_extensions body after_methods
