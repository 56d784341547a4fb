-- ===== src/Socks5.antt =====
-- src/socks5.rs: the addresses, the UDP datagrams and the handshakes.
pub mod Udp
pub mod Stream
pub mod Handshake
use xtp_rs.Prelude.{
  List, Res, Text, be_bytes, err, if◌then◌else◌, is_empty, length, ltb, ok, ℕ, ◌++◌, ◌<◌, ◌^◌, ◌||◌,
  ◌∷◌,
}
use xtp_rs.Routes.{IpAddr, ip4, ip6}

-- The flow information and the scope of an IPv6 socket address are left out: a SOCKS5 message has no
-- place for them, and what is parsed has zero for both.
pub record SocketAddr : Type 0 where
  pub ip : IpAddr
  pub port : ℕ

-- `Socks5Target` and `Socks5UdpTarget`: an address, or a host name with a port.
pub data Target : Type 0 where
  to_ip : SocketAddr → Target
  to_domain : Text → ℕ → Target

-- Addresses and ports within their widths.
abbrev pub IpFits : IpAddr → Type 0
IpFits (ip4 n) = n < 256 ^ 4
IpFits (ip6 n) = n < 256 ^ 16

pub record AddrFits (a : SocketAddr) : Type 0 where
  pub ip_fits : IpFits a.ip
  pub port_fits : a.port < 256 ^ 2

pub data Error : Type 0 where
  domain_length packet_too_short reserved fragmented short_ipv4 short_domain short_domain_address :
      Error
  short_ipv6 credentials_length bad_version no_auth_chosen auth_failed no_auth_failed : Error
  short_read bad_utf8 unresolved : Error
  unknown_atyp bad_method reply_code bad_reserved : ℕ → Error

-- The address type byte, the address and the port of an IP target.
unfoldable pub ip_address_bytes : IpAddr → ℕ → List ℕ
unfolding be_bytes
ip_address_bytes (ip4 n) port = 0x01 ∷ be_bytes 4 n ++ be_bytes 2 port
ip_address_bytes (ip6 n) port = 0x04 ∷ be_bytes 16 n ++ be_bytes 2 port

-- The address type byte, the address and the port of a target; a name must have 1 to 255 bytes.
unfoldable pub address_bytes : Target → Res Error (List ℕ)
unfolding ip_address_bytes
address_bytes (to_ip a) = ok (ip_address_bytes a.ip a.port)
address_bytes (to_domain host port) =
    if is_empty host || ltb 255 (length host)
    then err domain_length
    else ok (0x03 ∷ length host ∷ host ++ be_bytes 2 port)
