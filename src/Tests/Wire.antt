-- ===== src/Tests/Wire.antt =====
-- SOCKS5 datagrams and handshakes (src/socks5.rs).
use xtp_rs.Prelude.{
  List, Text, [], arith, err, length, none, ok, refl, some, text, true, ℕ, ◌++◌, ◌∷◌, ◌≡◌, ◌≤◌,
}
use xtp_rs.Domain.{to_ascii_lowercase}
use xtp_rs.Hostname.{is_valid_sni_hostname}
use xtp_rs.Routes.{ip4, ip6}
use xtp_rs.Socks5.{
  SocketAddr, address_bytes, fragmented, no_auth_chosen, short_domain_address, to_domain, to_ip,
}
use xtp_rs.Socks5.Udp.{build_socks5_udp_packet, parse_socks5_udp_packet}
use xtp_rs.Socks5.Udp.RoundTrip.{TargetFits, build-sniffed, parse-build, pkt, source_of}
use xtp_rs.Socks5.Udp.NoPanic.{ReadsPayload, parse-ReadsPayload}
use xtp_rs.Socks5.Stream.{Conn}
use xtp_rs.Socks5.Handshake.{socks5_auth, socks5_connect}
use xtp_rs.Socks5.Handshake.Succeeds.{connect_reply, socks5_connect-succeeds}
use xtp_rs.Socks5.Handshake.Auth.{socks5_auth-no_downgrade}

abbrev server : SocketAddr
server = record { ip = ip4 0x0102_0304; port = 443 }

abbrev nobody : SocketAddr
nobody = record { ip = ip6 1; port = 53 }

abbrev datagram : List ℕ
datagram = 0 ∷ 0 ∷ 0 ∷ 1 ∷ 1 ∷ 2 ∷ 3 ∷ 4 ∷ 1 ∷ 187 ∷ 9 ∷ 8 ∷ 7 ∷ []

built : build_socks5_udp_packet (to_ip server) (9 ∷ 8 ∷ 7 ∷ []) ≡ ok datagram
unfolding build_socks5_udp_packet
built = refl

parse_test : parse_socks5_udp_packet datagram nobody ≡ ok (server, 9 ∷ 8 ∷ 7 ∷ [])
unfolding parse_socks5_udp_packet
parse_test = refl

fragment_test : parse_socks5_udp_packet (0 ∷ 0 ∷ 1 ∷ 1 ∷ []) nobody ≡ err fragmented
unfolding parse_socks5_udp_packet
fragment_test = refl

short_test :
    parse_socks5_udp_packet (0 ∷ 0 ∷ 0 ∷ 3 ∷ 200 ∷ 1 ∷ []) nobody ≡ err short_domain_address
unfolding parse_socks5_udp_packet
short_test = refl

server_fits : TargetFits (to_ip server)
server_fits = record { ip_fits = ground arith; port_fits = ground arith }

parse-build_example :
    parse_socks5_udp_packet datagram nobody ≡ ok (source_of (to_ip server) nobody, 9 ∷ 8 ∷ 7 ∷ [])
parse-build_example = parse-build (to_ip server) (9 ∷ 8 ∷ 7 ∷ []) nobody datagram server_fits built

parse-ReadsPayload_example : ReadsPayload datagram (parse_socks5_udp_packet datagram nobody)
parse-ReadsPayload_example = parse-ReadsPayload datagram nobody

abbrev sniffed : Text
sniffed = text "WWW.a-b.org"

sniffed_valid : is_valid_sni_hostname (to_ascii_lowercase sniffed) ≡ true
unfolding is_valid_sni_hostname to_ascii_lowercase
sniffed_valid = refl

build-sniffed_example :
    build_socks5_udp_packet (to_domain (to_ascii_lowercase sniffed) 443) (9 ∷ [])
    ≡ ok (pkt (to_ascii_lowercase sniffed) (9 ∷ []) 443)
build-sniffed_example = build-sniffed sniffed (9 ∷ []) 443 sniffed_valid

abbrev accepting : Conn
accepting = record { incoming = 5 ∷ 2 ∷ 1 ∷ 0 ∷ 77 ∷ []; sent = [] }

abbrev accepted : Conn
accepted = record {
  incoming = 77 ∷ [];
  sent = (5 ∷ 2 ∷ 0 ∷ 2 ∷ []) ++ (1 ∷ 2 ∷ text "me" ++ 2 ∷ text "pw");
}

accepts : socks5_auth (some (text "me", text "pw")) accepting ≡ (ok tt, accepted)
unfolding socks5_auth
accepts = refl

no_auth_test :
    (socks5_auth (some (text "me", text "pw")) (record { incoming = 5 ∷ 0 ∷ []; sent = [] })).0
    ≡ err no_auth_chosen
unfolding socks5_auth
no_auth_test = refl

socks5_auth-no_downgrade_example :
    (accepting.incoming ≡ 5 ∷ 2 ∷ 1 ∷ 0 ∷ accepted.incoming)
    × (accepted.sent
        ≡ ([] ++ (5 ∷ 2 ∷ 0 ∷ 2 ∷ []))
          ++ (0x01 ∷ length (text "me") ∷ text "me" ++ length (text "pw") ∷ text "pw"))
    × (1 ≤ length (text "me"))
    × (length (text "me") ≤ 255)
    × (1 ≤ length (text "pw"))
    × (length (text "pw") ≤ 255)
socks5_auth-no_downgrade_example =
    socks5_auth-no_downgrade (text "me") (text "pw") (5 ∷ 2 ∷ 1 ∷ 0 ∷ 77 ∷ []) [] accepted accepts

abbrev greeted : Conn
greeted = record { incoming = 77 ∷ []; sent = 5 ∷ 1 ∷ 0 ∷ [] }

greets : socks5_auth none (record { incoming = 5 ∷ 0 ∷ 77 ∷ []; sent = [] }) ≡ (ok tt, greeted)
unfolding socks5_auth
greets = refl

abbrev request : List ℕ
request = 1 ∷ 1 ∷ 2 ∷ 3 ∷ 4 ∷ 1 ∷ 187 ∷ []

encoded : address_bytes (to_ip server) ≡ ok request
unfolding address_bytes
encoded = refl

socks5_connect-succeeds_example :
    socks5_connect
      (to_ip server)
      none
      (record { incoming = 5 ∷ 0 ∷ (connect_reply (to_ip nobody) ++ 77 ∷ []); sent = [] })
    ≡ (ok tt, record { incoming = 77 ∷ []; sent = 5 ∷ 1 ∷ 0 ∷ 5 ∷ 1 ∷ 0 ∷ request })
socks5_connect-succeeds_example =
    socks5_connect-succeeds (to_ip server) (to_ip nobody) request (77 ∷ []) encoded
