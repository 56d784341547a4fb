-- ===== src/Tests/Requests.antt =====
-- The HTTP sniffer (src/sniff/http.rs).
use xtp_rs.Prelude.{List, refl, text, valid_utf8, ℕ, ◌++◌, ◌≡◌}
use xtp_rs.Domain.{to_ascii_lowercase}
use xtp_rs.Hostname.{is_valid_sni_hostname}
use xtp_rs.Sniff.Tls.Records.{abort, matched, need_more, not_matched}
use xtp_rs.Sniff.Http.{crlf, http_classify}
use xtp_rs.Sniff.Http.Result.{GoodHttpAttempt, http_classify_lem}

abbrev request : List ℕ
request = text "GET / HTTP/1.1" ++ crlf ++ text "Host:  A.org:80 " ++ crlf ++ crlf

host_test : http_classify request 4096 ≡ matched (text "a.org")
unfolding http_classify valid_utf8 to_ascii_lowercase is_valid_sni_hostname
host_test = refl

waits_test : http_classify (text "GET / HT") 4096 ≡ need_more
unfolding http_classify
waits_test = refl

other_test : http_classify (text "SSH-2.0-x" ++ crlf) 4096 ≡ abort not_matched
unfolding http_classify valid_utf8
other_test = refl

http_classify_lem_example : GoodHttpAttempt (http_classify request 4096)
http_classify_lem_example = http_classify_lem request 4096
