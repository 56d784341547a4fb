-- ===== src/Sniff/Http.antt =====
-- src/sniff/http.rs: the host of an HTTP/1.x request, from the first bytes of a connection. A `str` is
-- its bytes; `str::trim` takes the characters with the property White_Space, by their UTF-8 bytes.
pub mod Result
use mathlib.Core.Option
use xtp_rs.Prelude.{
  Bool, List, Option, Res, Text, [], all, cons_head, eq, err, fail_if, false, if◌then◌else◌, index,
  is_empty, leb, length, list_eq, map, nat_eq, none, not, ok, option_eq, or_err, pair_eq, panic,
  slice, some, split, suc, text, true, valid_utf8, zero, ℕ, ◌&&◌, ◌+◌, ◌==◌, ◌>>=◌, ◌>>◌, ◌||◌, ◌∷◌,
}
use xtp_rs.Domain.{to_ascii_lowercase}
use xtp_rs.Direct.{eq_ignore_ascii_case, ip_eq}
use xtp_rs.Hostname.{is_valid_sni_hostname, starts_with}
use xtp_rs.Sniff.Tls.Records.{
  SniffAttempt, abort, bad_hostname, matched, need_more, no_target, not_matched, not_parsed,
  over_size, panicked, peek_was_empty,
}

pub data HttpSniffError : Type 0 where
  http_peek_empty http_insufficient_prefix http_protocol_not_matched : HttpSniffError
  http_no_host http_parse_error http_invalid_hostname too_large_header : HttpSniffError

abbrev pub HttpResult : Type 0 → Type 0
HttpResult A = Res HttpSniffError A

abbrev pub is_ascii_uppercase : ℕ → Bool
is_ascii_uppercase b = leb b'A' b && leb b b'Z'

abbrev pub is_ascii_digit : ℕ → Bool
is_ascii_digit b = leb b'0' b && leb b b'9'

abbrev pub is_prefix : Text → Text → Bool
is_prefix [] xs = true
is_prefix (p ∷ ps) [] = false
is_prefix (p ∷ ps) (x ∷ xs) = p == x && is_prefix ps xs

-- `windows(n).position(..)` for a pattern of n bytes.
unfoldable pub position : Text → List ℕ → Option ℕ
position pattern [] = none
position pattern (x ∷ xs) =
    let later = Option.map suc (position pattern xs) in
    if is_prefix pattern (x ∷ xs) then some 0 else later

abbrev pub crlf : Text
crlf = 13 ∷ 10 ∷ []

unfoldable pub find_http_header_end : List ℕ → Option ℕ
unfolding position
find_http_header_end buf = Option.map (λ p. p + 4) (position (13 ∷ 10 ∷ 13 ∷ 10 ∷ []) buf)

abbrev pub is_version : Text → Bool
is_version v = eq v (text "HTTP/1.0") || eq v (text "HTTP/1.1")

abbrev pub is_request_line : List Text → Bool
is_request_line (method ∷ target ∷ version ∷ []) =
    not (is_empty method)
    && all is_ascii_uppercase method
    && not (is_empty target)
    && is_version version
is_request_line (method ∷ target ∷ version ∷ more ∷ parts) = false
is_request_line (method ∷ target ∷ []) = false
is_request_line (method ∷ []) = false
is_request_line [] = false

unfoldable pub looks_like_http_1x_request_line : Text → Bool
looks_like_http_1x_request_line line = is_request_line (split b' ' line)

-- One character of white space off the front of a text.
abbrev pub is_wide_space : ℕ → ℕ → ℕ → Bool
is_wide_space a b c =
    (a == 0xe1 && b == 0x9a && c == 0x80)
    || (a == 0xe2
        && b == 0x80
        && ((leb 0x80 c && leb c 0x8a) || c == 0xa8 || c == 0xa9 || c == 0xaf))
    || (a == 0xe2 && b == 0x81 && c == 0x9f)
    || (a == 0xe3 && b == 0x80 && c == 0x80)

abbrev pub is_ascii_space : ℕ → Bool
is_ascii_space a = (leb 9 a && leb a 13) || a == 32

abbrev pub is_latin_space : ℕ → ℕ → Bool
is_latin_space a b = a == 0xc2 && (b == 0x85 || b == 0xa0)

abbrev pub strip_start : Text → Option Text
strip_start [] = none
strip_start (a ∷ []) = if is_ascii_space a then some [] else none
strip_start (a ∷ b ∷ []) =
    if is_ascii_space a then some (b ∷ []) else if is_latin_space a b then some [] else none
strip_start (a ∷ b ∷ c ∷ cs) =
    if is_ascii_space a
    then some (b ∷ c ∷ cs)
    else if is_latin_space a b
    then some (c ∷ cs)
    else if is_wide_space a b c
    then some cs
    else none

-- The same of a text that is written backwards.
abbrev pub strip_end : Text → Option Text
strip_end [] = none
strip_end (a ∷ []) = if is_ascii_space a then some [] else none
strip_end (a ∷ b ∷ []) =
    if is_ascii_space a then some (b ∷ []) else if is_latin_space b a then some [] else none
strip_end (a ∷ b ∷ c ∷ cs) =
    if is_ascii_space a
    then some (b ∷ c ∷ cs)
    else if is_latin_space b a
    then some (c ∷ cs)
    else if is_wide_space c b a
    then some cs
    else none

abbrev pub go_on : (Text → Text) → Text → Option Text → Text
go_on rest t none = t
go_on rest t (some s) = rest s

-- As often as it goes, which is at most once for each byte.
unfoldable pub strip_all : (Text → Option Text) → ℕ → Text → Text
strip_all strip zero t = t
strip_all strip (suc n) t = go_on (λ s. strip_all strip n s) t (strip t)

abbrev pub reverse_onto : Text → Text → Text
reverse_onto [] acc = acc
reverse_onto (c ∷ cs) acc = reverse_onto cs (c ∷ acc)

unfoldable pub trim : Text → Text
unfolding strip_all
trim t =
    let s = strip_all strip_start (length t) t in
    reverse_onto (strip_all strip_end (length s) (reverse_onto s [])) []

abbrev pub prepend : ℕ → Option (Text × Text) → Option (Text × Text)
prepend c none = none
prepend c (some r) = some (c ∷ r.0, r.1)

abbrev pub split_once : ℕ → Text → Option (Text × Text)
split_once sep [] = none
split_once sep (c ∷ cs) =
    let rest = split_once sep cs in if c == sep then some ([], cs) else prepend c rest

abbrev pub or_here : ℕ → ℕ → Text → Option (Text × Text) → Option (Text × Text)
or_here sep c cs (some r) = some (c ∷ r.0, r.1)
or_here sep c cs none = if c == sep then some ([], cs) else none

abbrev pub rsplit_once : ℕ → Text → Option (Text × Text)
rsplit_once sep [] = none
rsplit_once sep (c ∷ cs) = or_here sep c cs (rsplit_once sep cs)

-- The name before a port, if the value ends in one.
abbrev pub without_port : Text → Option (Text × Text) → Text
without_port value none = value
without_port value (some r) =
    if not (is_empty r.0) && not (is_empty r.1) && all is_ascii_digit r.1 then r.0 else value

abbrev pub checked_host : Text → HttpResult Text
checked_host host = if is_valid_sni_hostname host then ok host else err http_invalid_hostname

abbrev pub parse_trimmed : Text → HttpResult Text
parse_trimmed value = do
  fail_if (is_empty value) http_parse_error
  fail_if (starts_with b'[' value) http_invalid_hostname
  checked_host (to_ascii_lowercase (trim (without_port value (rsplit_once b':' value))))

unfoldable pub parse_http_host_header_value : Text → HttpResult Text
unfolding trim
parse_http_host_header_value value = parse_trimmed (trim value)

abbrev pub not_request_line : Text → Bool
not_request_line line = if valid_utf8 line then not (looks_like_http_1x_request_line line) else true

abbrev pub not_http_at : List ℕ → Option ℕ → HttpResult Bool
not_http_at buf none = ok false
not_http_at buf (some line_end) = slice buf 0 line_end >>= λ line. ok (not_request_line line)

unfoldable pub definitely_not_http_1x_prefix : List ℕ → HttpResult Bool
unfolding position
definitely_not_http_1x_prefix buf = not_http_at buf (position crlf buf)

-- The parts of a text between the line ends, and those of the text without its first byte.
abbrev pub split_crlf_both : Text → List Text × List Text
split_crlf_both [] = ([] ∷ [], [] ∷ [])
split_crlf_both (c ∷ cs) =
    let rest = split_crlf_both cs in
    ((if c == 13 && is_prefix (10 ∷ []) cs then [] ∷ rest.1 else cons_head c rest.0), rest.0)

abbrev pub split_crlf : Text → List Text
split_crlf t = (split_crlf_both t).0

unfoldable pub find_host : List Text → HttpResult Text
unfolding parse_http_host_header_value
find_host [] = err http_no_host
find_host (line ∷ lines) =
    let later = find_host lines in
    if is_empty line then err http_no_host else do
      nv ← or_err (split_once b':' line) http_parse_error
      if eq_ignore_ascii_case nv.0 (text "host") then parse_http_host_header_value nv.1 else later

abbrev pub read_lines : List Text → HttpResult Text
read_lines [] = err http_parse_error
read_lines (request_line ∷ lines) = do
  fail_if (not (looks_like_http_1x_request_line request_line)) http_protocol_not_matched
  find_host lines

abbrev pub read_header : List ℕ → ℕ → Option ℕ → HttpResult Text
read_header buf max_header_size none =
    if leb max_header_size (length buf) then err too_large_header else err http_insufficient_prefix
read_header buf max_header_size (some header_end) = do
  header ← slice buf 0 header_end
  fail_if (not (valid_utf8 header)) http_protocol_not_matched
  read_lines (split_crlf header)

unfoldable pub sniff_http_host_from_prefix : List ℕ → ℕ → HttpResult Text
unfolding find_http_header_end definitely_not_http_1x_prefix find_host
    looks_like_http_1x_request_line
sniff_http_host_from_prefix buf max_header_size = do
  fail_if (is_empty buf) http_peek_empty
  first ← index buf 0
  fail_if (not (is_ascii_uppercase first)) http_protocol_not_matched
  other ← definitely_not_http_1x_prefix buf
  fail_if other http_protocol_not_matched
  read_header buf max_header_size (find_http_header_end buf)

abbrev pub http_attempt_of : HttpResult Text → SniffAttempt
http_attempt_of (ok host) = matched host
http_attempt_of (err http_insufficient_prefix) = need_more
http_attempt_of (err http_peek_empty) = abort peek_was_empty
http_attempt_of (err http_protocol_not_matched) = abort not_matched
http_attempt_of (err http_no_host) = abort no_target
http_attempt_of (err http_parse_error) = abort not_parsed
http_attempt_of (err http_invalid_hostname) = abort bad_hostname
http_attempt_of (err too_large_header) = abort over_size
http_attempt_of panic = panicked

unfoldable pub http_classify : List ℕ → ℕ → SniffAttempt
unfolding sniff_http_host_from_prefix
http_classify buf max_len = http_attempt_of (sniff_http_host_from_prefix buf max_len)
