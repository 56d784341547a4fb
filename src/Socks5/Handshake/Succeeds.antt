-- ===== src/Socks5/Handshake/Succeeds.antt =====
-- With a server that accepts, the handshakes of src/socks5.rs write exactly the protocol's bytes and
-- read exactly the server's replies: what follows on the stream is left for the relay.
use xtp_rs.Prelude.{
  List, Text, [], arith, be_bytes, drop-append, length, length-append, length-be_bytes, none, ok,
  take-append, ℕ, ◌++◌, ◌+◌, ◌∷◌, ◌≡◌,
}
use xtp_rs.Routes.{IpAddr, ip4, ip6}
use xtp_rs.Socks5.{Target, address_bytes, ip_address_bytes, to_domain, to_ip}
use xtp_rs.Socks5.Handshake.{skip_reply, socks5_auth, socks5_connect}

module _ (rest sent : List ℕ) where
  skip_reply-ip4 :
      (n port : ℕ)
      → skip_reply
          (record { incoming = 5 ∷ 0 ∷ 0 ∷ ip_address_bytes (ip4 n) port ++ rest; sent = sent })
        ≡ (ok tt, record { incoming = rest; sent = sent })
  unfolding skip_reply ip_address_bytes
  skip_reply-ip4 n port = ground arith

  skip_reply-ip6 :
      (n port : ℕ)
      → skip_reply
          (record { incoming = 5 ∷ 0 ∷ 0 ∷ ip_address_bytes (ip6 n) port ++ rest; sent = sent })
        ≡ (ok tt, record { incoming = rest; sent = sent })
  unfolding skip_reply ip_address_bytes
  skip_reply-ip6 n port = ground arith

  skip_reply-domain :
      (host : Text) (port : ℕ)
      → skip_reply (record {
        incoming = 5 ∷ 0 ∷ 0 ∷ 3 ∷ length host ∷ (host ++ be_bytes 2 port) ++ rest;
        sent = sent;
      })
        ≡ (ok tt, record { incoming = rest; sent = sent })
  unfolding skip_reply
  skip_reply-domain host port =
      let bound : List ℕ = host ++ be_bytes 2 port in
      let e : length host + 2 ≡ length bound =
        omega (arith, length-append host (be_bytes 2 port), length-be_bytes 2 port) in
      ground
        (arith, e, length-append bound rest, drop-append bound rest e, take-append bound rest e)

-- The reply to a connect request as a server encodes it, with any bound address.
abbrev pub connect_reply : Target → List ℕ
connect_reply (to_ip a) = 5 ∷ 0 ∷ 0 ∷ ip_address_bytes a.ip a.port
connect_reply (to_domain host port) = 5 ∷ 0 ∷ 0 ∷ 3 ∷ length host ∷ (host ++ be_bytes 2 port)

skip_reply-ip :
    (ip : IpAddr) (port : ℕ) (rest sent : List ℕ)
    → skip_reply (record { incoming = 5 ∷ 0 ∷ 0 ∷ ip_address_bytes ip port ++ rest; sent = sent })
      ≡ (ok tt, record { incoming = rest; sent = sent })
skip_reply-ip (ip4 n) port rest sent = skip_reply-ip4 rest sent n port
skip_reply-ip (ip6 n) port rest sent = skip_reply-ip6 rest sent n port

skip_reply-target :
    (bound : Target) (rest sent : List ℕ)
    → skip_reply (record { incoming = connect_reply bound ++ rest; sent = sent })
      ≡ (ok tt, record { incoming = rest; sent = sent })
skip_reply-target (to_ip a) rest sent = skip_reply-ip a.ip a.port rest sent
skip_reply-target (to_domain host p) rest sent = skip_reply-domain rest sent host p

greet :
    (incoming sent : List ℕ)
    → socks5_auth none (record { incoming = 5 ∷ 0 ∷ incoming; sent = sent })
      ≡ (ok tt, record { incoming = incoming; sent = sent ++ (5 ∷ 1 ∷ 0 ∷ []) })
unfolding socks5_auth
greet incoming sent = ground arith

-- Without credentials, against a server that accepts, a connect request for a target that can be
-- encoded succeeds: exactly the greeting and the request go out, and exactly the two replies are
-- taken from the stream, whatever address the server bound and whatever follows.
pub socks5_connect-succeeds :
    (target bound : Target) (request rest : List ℕ)
    → address_bytes target ≡ ok request
    → socks5_connect target none
        (record { incoming = 5 ∷ 0 ∷ (connect_reply bound ++ rest); sent = [] })
      ≡ (ok tt, record { incoming = rest; sent = 5 ∷ 1 ∷ 0 ∷ 5 ∷ 1 ∷ 0 ∷ request })
unfolding socks5_connect
socks5_connect-succeeds target bound request rest e =
    rw (greet (connect_reply bound ++ rest) [], e)
      (skip_reply-target bound rest (5 ∷ 1 ∷ 0 ∷ 5 ∷ 1 ∷ 0 ∷ request))
