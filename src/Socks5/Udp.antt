-- ===== src/Socks5/Udp.antt =====
-- The SOCKS5 UDP datagrams of src/socks5.rs: `build_socks5_udp_packet` and
-- `parse_socks5_udp_packet_with_fallback_src`.
pub mod RoundTrip
pub mod NoPanic
use xtp_rs.Prelude.{
  List, Res, [], err, fail_if, from_be, if◌then◌else◌, index, length, ltb, not, ok, slice,
  slice_from, ℕ, ◌++◌, ◌+◌, ◌==◌, ◌>>=◌, ◌>>◌, ◌||◌, ◌∷◌,
}
use xtp_rs.Routes.{ip4, ip6}
use xtp_rs.Socks5.{
  Error, SocketAddr, Target, address_bytes, fragmented, packet_too_short, reserved, short_domain,
  short_domain_address, short_ipv4, short_ipv6, unknown_atyp,
}

unfoldable pub build_socks5_udp_packet : Target → List ℕ → Res Error (List ℕ)
unfolding address_bytes
build_socks5_udp_packet target payload = do
  address ← address_bytes target
  ok (0x00 ∷ 0x00 ∷ 0x00 ∷ address ++ payload)

-- u16::from_be_bytes([pkt[off], pkt[off + 1]])
unfoldable pub read_port : List ℕ → ℕ → Res Error ℕ
unfolding from_be
read_port pkt off = do hi ← index pkt off; lo ← index pkt (off + 1); ok (from_be 0 (hi ∷ lo ∷ []))

unfoldable pub parse_ipv4 : List ℕ → Res Error (SocketAddr × ℕ)
unfolding read_port
parse_ipv4 pkt = do
  fail_if (ltb (length pkt) (4 + 4 + 2)) short_ipv4
  a ← index pkt 4
  b ← index pkt (4 + 1)
  c ← index pkt (4 + 2)
  d ← index pkt (4 + 3)
  port ← read_port pkt (4 + 4)
  ok (record { ip = ip4 (from_be 0 (a ∷ b ∷ c ∷ d ∷ [])); port = port }, 4 + 4 + 2)

unfoldable pub parse_ipv6 : List ℕ → Res Error (SocketAddr × ℕ)
unfolding read_port
parse_ipv6 pkt = do
  fail_if (ltb (length pkt) (4 + 16 + 2)) short_ipv6
  ip ← slice pkt 4 (4 + 16)
  port ← read_port pkt (4 + 16)
  ok (record { ip = ip6 (from_be 0 ip); port = port }, 4 + 16 + 2)

unfoldable pub parse_domain : List ℕ → SocketAddr → Res Error (SocketAddr × ℕ)
unfolding read_port
parse_domain pkt fallback_src = do
  fail_if (ltb (length pkt) (4 + 1)) short_domain
  name_len ← index pkt 4
  fail_if (ltb (length pkt) (5 + name_len + 2)) short_domain_address
  port ← read_port pkt (5 + name_len)
  ok (fallback_src, 5 + name_len + 2)

unfoldable pub parse_address : List ℕ → SocketAddr → ℕ → Res Error (SocketAddr × ℕ)
unfolding parse_ipv4 parse_ipv6 parse_domain
parse_address pkt fallback_src atyp =
    if atyp == 0x01
    then parse_ipv4 pkt
    else if atyp == 0x04
    then parse_ipv6 pkt
    else if atyp == 0x03
    then parse_domain pkt fallback_src
    else err (unknown_atyp atyp)

unfoldable pub parse_socks5_udp_packet : List ℕ → SocketAddr → Res Error (SocketAddr × List ℕ)
unfolding parse_address
parse_socks5_udp_packet pkt fallback_src = do
  fail_if (ltb (length pkt) 4) packet_too_short
  rsv0 ← index pkt 0
  rsv1 ← index pkt 1
  fail_if (not (rsv0 == 0x00) || not (rsv1 == 0x00)) reserved
  frag ← index pkt 2
  fail_if (not (frag == 0x00)) fragmented
  atyp ← index pkt 3
  found ← parse_address pkt fallback_src atyp
  payload ← slice_from pkt found.1
  ok (found.0, payload)
