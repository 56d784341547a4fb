-- ===== src/Tests/Sniffing.antt =====
-- Sniffed ClientHellos and reassembled CRYPTO frames (src/sniff/).
use xtp_rs.Prelude.{
  All, List, Yields, [], arith, length, ok, refl, replicate, suc, take, text, valid_utf8, zero, ℕ,
  ◌++◌, ◌>>=◌, ◌∷◌, ◌≡◌,
}
use xtp_rs.Domain.{to_ascii_lowercase}
use xtp_rs.Hostname.{is_valid_sni_hostname}
use xtp_rs.Sniff.Tls.{parse_sni_from_client_hello_body}
use xtp_rs.Sniff.Tls.Records.{abort, classify, matched, need_more, over_size}
use xtp_rs.Sniff.Tls.Records.Result.{GoodAttempt, classify_lem}
use xtp_rs.Sniff.Quic.Hello.{
  Advances, client_hello_from_crypto, quic_read_varint, quic_read_varint-Advances,
}
use xtp_rs.Sniff.Quic.Reassembly.{contiguous, new, write}
use xtp_rs.Sniff.Quic.Reassembly.Stream.{CutFrom}
use xtp_rs.Sniff.Quic.Reassembly.Frames.{
  Frame, FrameOf, Reassembled, write_frames, write_frames-Reassembled,
}

abbrev server_name : List ℕ
server_name = 0 ∷ 0 ∷ 0 ∷ 9 ∷ 0 ∷ 7 ∷ 0 ∷ 0 ∷ 4 ∷ text "A.io"

abbrev hello_body : List ℕ
hello_body = replicate 34 0 ++ (0 ∷ 0 ∷ 2 ∷ 19 ∷ 1 ∷ 1 ∷ 0 ∷ 0 ∷ 13 ∷ server_name)

-- The ClientHello in two records.
abbrev hello : List ℕ
hello = 22 ∷ 3 ∷ 1 ∷ 0 ∷ 3 ∷ 1 ∷ 0 ∷ 0 ∷ 22 ∷ 3 ∷ 1 ∷ 0 ∷ 57 ∷ length hello_body ∷ hello_body

parse_test : parse_sni_from_client_hello_body hello_body ≡ ok (text "a.io")
unfolding parse_sni_from_client_hello_body valid_utf8 is_valid_sni_hostname to_ascii_lowercase
parse_test = refl

classify_test : classify hello 4096 ≡ matched (text "a.io")
unfolding classify valid_utf8 is_valid_sni_hostname to_ascii_lowercase
classify_test = refl

classify_prefix_test : classify (take 30 hello) 4096 ≡ need_more
unfolding classify valid_utf8 is_valid_sni_hostname to_ascii_lowercase
classify_prefix_test = refl

classify_size_test : classify hello 20 ≡ abort over_size
unfolding classify valid_utf8 is_valid_sni_hostname to_ascii_lowercase
classify_size_test = refl

classify_lem_example : GoodAttempt (classify hello 4096)
classify_lem_example = classify_lem hello 4096

abbrev stream : List ℕ
stream = 10 ∷ 11 ∷ 12 ∷ 13 ∷ 14 ∷ []

abbrev frames : List Frame
frames = (2, 12 ∷ 13 ∷ []) ∷ (0, 10 ∷ 11 ∷ 12 ∷ []) ∷ []

frames_fit : All (FrameOf stream) frames
frames_fit = ((omega arith, first), ((omega arith, second), tt))
  where
    first : CutFrom stream 2 (12 ∷ 13 ∷ [])
    first zero h = refl
    first (suc zero) h = refl
    first (suc (suc j)) h = absurd (omega arith)

    second : CutFrom stream 0 (10 ∷ 11 ∷ 12 ∷ [])
    second zero h = refl
    second (suc zero) h = refl
    second (suc (suc zero)) h = refl
    second (suc (suc (suc j))) h = absurd (omega arith)

write_frames-Reassembled_example : Reassembled stream frames
write_frames-Reassembled_example = write_frames-Reassembled stream frames frames_fit

contiguous_test : (write_frames new frames >>= contiguous) ≡ ok (10 ∷ 11 ∷ 12 ∷ 13 ∷ [])
unfolding write_frames contiguous write
contiguous_test = refl

abbrev varint_bytes : List ℕ
varint_bytes = 0x7b ∷ 0xbd ∷ []

varint_test : quic_read_varint varint_bytes 0 ≡ ok (15293, 2)
unfolding quic_read_varint
varint_test = refl

quic_read_varint-Advances_example :
    Yields (Advances varint_bytes 0) (quic_read_varint varint_bytes 0)
quic_read_varint-Advances_example = quic_read_varint-Advances varint_bytes 0

abbrev crypto : List ℕ
crypto = 1 ∷ 0 ∷ 0 ∷ length hello_body ∷ hello_body

crypto_test : client_hello_from_crypto crypto ≡ ok (text "a.io")
unfolding client_hello_from_crypto valid_utf8 is_valid_sni_hostname to_ascii_lowercase
crypto_test = refl
