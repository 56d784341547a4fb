-- ===== src/Udp.antt =====
-- src/udp/session.rs: the keys and the specifications of UDP sessions. A socket is named by a
-- number.
pub mod Pending
pub mod Sessions
pub mod FakeUdp
use xtp_rs.Prelude.{
  ==_iff, Bool, Eq, Option, Text, and-split, ap, arith, eq, eq_iff, false, list_eq, nat_eq, none,
  option_eq, pair_eq, refl, true, ℕ, ◌&&◌, ◌==◌, ◌↔◌, ◌≡◌,
}
use xtp_rs.Direct.{ip_eq}
use xtp_rs.Socks5.{SocketAddr}

pub data UdpSessionKind : Type 0 where
  tproxy : UdpSessionKind
  port_forward : SocketAddr → UdpSessionKind

pub record UdpSessionKey : Type 0 where
  pub kind : UdpSessionKind
  pub client_addr : SocketAddr
  pub target_addr : SocketAddr

pub data UdpReplyPath : Type 0 where
  reply_tproxy : UdpReplyPath
  reply_port_forward : ℕ → UdpReplyPath

pub data UdpRoutingMode : Type 0 where
  auto force_socks5 : UdpRoutingMode

pub record UdpSessionSpec : Type 0 where
  pub key : UdpSessionKey
  pub routing : UdpRoutingMode
  pub reply_path : UdpReplyPath
  pub sniffed_host : Option Text

abbrev pub for_tproxy : SocketAddr → SocketAddr → UdpSessionSpec
for_tproxy client_addr orig_dst = record {
  key = record { kind = tproxy; client_addr = client_addr; target_addr = orig_dst };
  routing = auto;
  reply_path = reply_tproxy;
  sniffed_host = none;
}

abbrev pub for_port_forward : SocketAddr → SocketAddr → SocketAddr → ℕ → UdpSessionSpec
for_port_forward listen_addr client_addr remote listen_sock = record {
  key = record { kind = port_forward listen_addr; client_addr = client_addr; target_addr = remote };
  routing = force_socks5;
  reply_path = reply_port_forward listen_sock;
  sniffed_host = none;
}

abbrev pub addr_beq : SocketAddr → SocketAddr → Bool
addr_beq a b = eq a.ip b.ip && a.port == b.port

pub addr_beq_iff : (a b : SocketAddr) → (addr_beq a b ≡ true) ↔ (a ≡ b)
addr_beq_iff a b = (
  λ h.
      let both = and-split (eq a.ip b.ip) (a.port == b.port) h in
      λ i. record { ip = (eq_iff a.ip b.ip).0 both.0 i; port = (==_iff a.port b.port).0 both.1 i },
  λ p. ground (
    arith,
    (eq_iff a.ip b.ip).1 (ap (λ x. x.ip) p),
    (==_iff a.port b.port).1 (ap (λ x. x.port) p),
  ),
)

instance abbrev pub addr_eq : Eq SocketAddr
addr_eq = record { beq = addr_beq; beq_iff = addr_beq_iff }

abbrev pub kind_beq : UdpSessionKind → UdpSessionKind → Bool
kind_beq tproxy tproxy = true
kind_beq tproxy (port_forward b) = false
kind_beq (port_forward a) tproxy = false
kind_beq (port_forward a) (port_forward b) = eq a b

pub kind_beq_iff : (a b : UdpSessionKind) → (kind_beq a b ≡ true) ↔ (a ≡ b)
kind_beq_iff tproxy tproxy = (λ h. refl, λ p. refl)
kind_beq_iff tproxy (port_forward b) = (λ h. cc, λ p. cc)
kind_beq_iff (port_forward a) tproxy = (λ h. cc, λ p. cc)
kind_beq_iff (port_forward a) (port_forward b) =
    (λ h. ap port_forward ((eq_iff a b).0 h), λ p. (eq_iff a b).1 (cc))

instance abbrev pub kind_eq : Eq UdpSessionKind
kind_eq = record { beq = kind_beq; beq_iff = kind_beq_iff }

abbrev pub key_beq : UdpSessionKey → UdpSessionKey → Bool
key_beq a b = eq a.kind b.kind && (eq a.client_addr b.client_addr && eq a.target_addr b.target_addr)

pub key_beq_iff : (a b : UdpSessionKey) → (key_beq a b ≡ true) ↔ (a ≡ b)
key_beq_iff a b = (
  λ h.
      let both =
        and-split (eq a.kind b.kind)
          (eq a.client_addr b.client_addr && eq a.target_addr b.target_addr) h in
      let rest =
        and-split (eq a.client_addr b.client_addr) (eq a.target_addr b.target_addr) both.1 in
      λ i. record {
        kind = (eq_iff a.kind b.kind).0 both.0 i;
        client_addr = (eq_iff a.client_addr b.client_addr).0 rest.0 i;
        target_addr = (eq_iff a.target_addr b.target_addr).0 rest.1 i;
      },
  λ p. ground (
    arith,
    (eq_iff a.kind b.kind).1 (ap (λ x. x.kind) p),
    (eq_iff a.client_addr b.client_addr).1 (ap (λ x. x.client_addr) p),
    (eq_iff a.target_addr b.target_addr).1 (ap (λ x. x.target_addr) p),
  ),
)

instance abbrev pub key_eq : Eq UdpSessionKey
key_eq = record { beq = key_beq; beq_iff = key_beq_iff }
