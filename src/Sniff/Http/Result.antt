-- ===== src/Sniff/Http/Result.antt =====
-- What `sniff_http_host_from_prefix` of src/sniff/http.rs gives, whatever the bytes.
use mathlib.Core.Option
use xtp_rs.Prelude.{
  Anything, Each, List, Option, Text, Yields, Yields-bind, Yields-fail_if, Yields-if, Yields-slice,
  [], and-split, arith, err, false≢true, if_elim, is_empty, leb, length, none, not, ok, or_err,
  panic, slice, some, suc, text, true, valid_utf8, ℕ, ◌+◌, ◌==◌, ◌∷◌, ◌≡◌, ◌≤◌,
}
use xtp_rs.Domain.{to_ascii_lowercase}
use xtp_rs.Direct.{eq_ignore_ascii_case}
use xtp_rs.Hostname.{is_valid_sni_hostname, starts_with}
use xtp_rs.Hostname.Canonical.{sniffed-IsCanonical}
use xtp_rs.Sniff.Tls.Records.{SniffAttempt, abort, matched, need_more, panicked}
use xtp_rs.Sniff.Tls.Accepted.{IsSniffed}
use xtp_rs.Sniff.Http.{
  HttpResult, HttpSniffError, checked_host, crlf, definitely_not_http_1x_prefix, find_host,
  find_http_header_end, http_attempt_of, http_classify, http_insufficient_prefix,
  http_invalid_hostname, http_no_host, http_parse_error, http_peek_empty, http_protocol_not_matched,
  is_ascii_uppercase, is_prefix, looks_like_http_1x_request_line, not_http_at,
  parse_http_host_header_value, position, read_header, read_lines, rsplit_once,
  sniff_http_host_from_prefix, split_crlf, split_once, too_large_header, trim, without_port,
}

is_prefix-length : (ps xs : Text) → is_prefix ps xs ≡ true → length ps ≤ length xs
is_prefix-length [] xs h = omega arith
is_prefix-length (p ∷ ps) [] h = absurd (false≢true h)
is_prefix-length (p ∷ ps) (x ∷ xs) h =
    omega (arith, is_prefix-length ps xs (and-split (p == x) (is_prefix ps xs) h).1)

-- A pattern that is found lies within the text.
position-Fits :
    (pattern : Text) (xs : List ℕ)
    → Each (λ i. i + length pattern ≤ length xs) (position pattern xs)
unfolding position
position-Fits pattern [] = tt
position-Fits pattern (x ∷ xs) =
    if_elim (Each (λ i. i + length pattern ≤ suc (length xs))) (is_prefix pattern (x ∷ xs)) (some 0)
      (Option.map suc (position pattern xs))
      (λ t. omega (arith, is_prefix-length pattern (x ∷ xs) t))
      (λ f. shifted (position pattern xs) (position-Fits pattern xs))
  where
    shifted :
        (o : Option ℕ)
        → Each (λ i. i + length pattern ≤ length xs) o
        → Each (λ i. i + length pattern ≤ suc (length xs)) (Option.map suc o)
    shifted none h = tt
    shifted (some i) h = omega (arith, h)

Yields-checked_host : (name : Text) → Yields IsSniffed (checked_host (to_ascii_lowercase name))
Yields-checked_host name =
    Yields-if IsSniffed (is_valid_sni_hostname (to_ascii_lowercase name))
      (ok (to_ascii_lowercase name)) (err http_invalid_hostname)
      (λ v. record { valid = v; canonical = (sniffed-IsCanonical name v).0 }) (λ v. tt)

Yields-parse_http_host_header_value :
    (value : Text) → Yields IsSniffed (parse_http_host_header_value value)
unfolding parse_http_host_header_value
Yields-parse_http_host_header_value value =
    Yields-fail_if IsSniffed (is_empty (trim value)) http_parse_error _ (λ e.
      Yields-fail_if IsSniffed (starts_with b'[' (trim value)) http_invalid_hostname _ (λ b.
        Yields-checked_host (trim (without_port (trim value) (rsplit_once b':' (trim value))))))

Yields-or_err : {A : Type 0} (o : Option A) (e : HttpSniffError) → Yields Anything (or_err o e)
Yields-or_err none e = tt
Yields-or_err (some a) e = tt

Yields-find_host : (lines : List Text) → Yields IsSniffed (find_host lines)
unfolding find_host
Yields-find_host [] = tt
Yields-find_host (line ∷ lines) =
    Yields-if IsSniffed (is_empty line) (err http_no_host) _ (λ e. tt)
      (λ e.
        Yields-bind Anything IsSniffed (or_err (split_once b':' line) http_parse_error) _
          (Yields-or_err (split_once b':' line) http_parse_error)
          (λ nv t.
            Yields-if IsSniffed (eq_ignore_ascii_case nv.0 (text "host"))
              (parse_http_host_header_value nv.1) (find_host lines)
              (λ same. Yields-parse_http_host_header_value nv.1) (λ other. Yields-find_host lines)))

Yields-read_lines : (lines : List Text) → Yields IsSniffed (read_lines lines)
Yields-read_lines [] = tt
Yields-read_lines (request_line ∷ lines) =
    Yields-fail_if IsSniffed (not (looks_like_http_1x_request_line request_line))
      http_protocol_not_matched (find_host lines) (λ e. Yields-find_host lines)

Yields-read_header :
    (buf : List ℕ) (max_size : ℕ) (o : Option ℕ)
    → Each (λ i. i ≤ length buf) o
    → Yields IsSniffed (read_header buf max_size o)
Yields-read_header buf max_size none h =
    Yields-if IsSniffed (leb max_size (length buf)) (err too_large_header)
      (err http_insufficient_prefix) (λ e. tt) (λ e. tt)
Yields-read_header buf max_size (some header_end) h =
    Yields-bind Anything IsSniffed (slice buf 0 header_end) _
      (Yields-slice HttpSniffError buf 0 header_end (omega arith) h)
      (λ header t.
        Yields-fail_if IsSniffed (not (valid_utf8 header)) http_protocol_not_matched
          (read_lines (split_crlf header)) (λ e. Yields-read_lines (split_crlf header)))

Yields-definitely_not : (buf : List ℕ) → Yields Anything (definitely_not_http_1x_prefix buf)
unfolding definitely_not_http_1x_prefix
Yields-definitely_not buf = at (position crlf buf) (position-Fits crlf buf)
  where
    at : (o : Option ℕ) → Each (λ i. i + 2 ≤ length buf) o → Yields Anything (not_http_at buf o)
    at none h = tt
    at (some line_end) h =
        Yields-bind Anything Anything (slice buf 0 line_end) _
          (Yields-slice HttpSniffError buf 0 line_end (omega arith) (omega (arith, h)))
          (λ line t. tt)

find_http_header_end-Fits : (buf : List ℕ) → Each (λ i. i ≤ length buf) (find_http_header_end buf)
unfolding find_http_header_end
find_http_header_end-Fits buf =
    ends (position (13 ∷ 10 ∷ 13 ∷ 10 ∷ []) buf) (position-Fits (13 ∷ 10 ∷ 13 ∷ 10 ∷ []) buf)
  where
    ends :
        (o : Option ℕ)
        → Each (λ i. i + 4 ≤ length buf) o
        → Each (λ i. i ≤ length buf) (Option.map (λ p. p + 4) o)
    ends none h = tt
    ends (some i) h = h

Yields-sniff_http :
    (buf : List ℕ) (max_size : ℕ) → Yields IsSniffed (sniff_http_host_from_prefix buf max_size)
unfolding sniff_http_host_from_prefix
Yields-sniff_http [] max_size = tt
Yields-sniff_http (b ∷ bs) max_size =
    Yields-fail_if IsSniffed (not (is_ascii_uppercase b)) http_protocol_not_matched _ (λ upper.
      Yields-bind Anything IsSniffed (definitely_not_http_1x_prefix (b ∷ bs)) _
        (Yields-definitely_not (b ∷ bs))
        (λ other t. Yields-fail_if IsSniffed other http_protocol_not_matched _ (λ http.
          Yields-read_header (b ∷ bs) max_size (find_http_header_end (b ∷ bs))
            (find_http_header_end-Fits (b ∷ bs)))))

-- An attempt whose name, if it has one, is valid and canonical, and which is no panic.
abbrev pub GoodHttpAttempt : SniffAttempt → Type 0
GoodHttpAttempt (matched host) = IsSniffed host
GoodHttpAttempt need_more = Unit {0}
GoodHttpAttempt (abort e) = Unit {0}
GoodHttpAttempt panicked = ⊥

-- Whatever the first bytes of a connection, the HTTP sniffer does not panic, and a host that it
-- matches passes the host name check and is canonical.
pub http_classify_lem : (buf : List ℕ) (max_len : ℕ) → GoodHttpAttempt (http_classify buf max_len)
unfolding http_classify
http_classify_lem buf max_len =
    attempt (sniff_http_host_from_prefix buf max_len) (Yields-sniff_http buf max_len)
  where
    attempt : (r : HttpResult Text) → Yields IsSniffed r → GoodHttpAttempt (http_attempt_of r)
    attempt (ok host) h = h
    attempt (err http_insufficient_prefix) h = tt
    attempt (err http_peek_empty) h = tt
    attempt (err http_protocol_not_matched) h = tt
    attempt (err http_no_host) h = tt
    attempt (err http_parse_error) h = tt
    attempt (err http_invalid_hostname) h = tt
    attempt (err too_large_header) h = tt
    attempt panic h = h
