-- ===== src/Socks5/Udp/RoundTrip.antt =====
-- Parsing what was built, and reading any datagram without a panic (src/socks5.rs).
use xtp_rs.Prelude.{
  List, Text, [], ap, append_assoc, arith, be_bytes, drop, drop-append, from_be, from_be-be_bytes,
  get_elem?, length, length-append, length-be_bytes, ok, refl, some, subst, suc, sym, true, ℕ, ◌%◌,
  ◌++◌, ◌+◌, ◌/◌, ◌<◌, ◌^◌, ◌∙◌, ◌∷◌, ◌≡◌, ◌≤◌,
}
use xtp_rs.Routes.{IpAddr, ip4, ip6}
use xtp_rs.Socks5.{
  AddrFits, IpFits, SocketAddr, Target, address_bytes, ip_address_bytes, to_domain, to_ip,
}
use xtp_rs.Socks5.Udp.{build_socks5_udp_packet, parse_socks5_udp_packet, read_port}
use xtp_rs.Hostname.{is_valid_sni_hostname}
use xtp_rs.Domain.{to_ascii_lowercase}
use xtp_rs.Domain.Canonical.{IsCanonical}
use xtp_rs.Hostname.Canonical.{sniffed-IsCanonical}

-- The source that a built datagram names: its address, or the fallback for a host name.
abbrev pub source_of : Target → SocketAddr → SocketAddr
source_of (to_ip a) fallback = a
source_of (to_domain host port) fallback = fallback

abbrev pub TargetFits : Target → Type 0
TargetFits (to_ip a) = AddrFits a
TargetFits (to_domain host port) = port < 256 ^ 2

bytes2 : (n : ℕ) → n < 256 ^ 2 → from_be 0 (be_bytes 2 n) ≡ n
bytes2 n h = from_be-be_bytes 2 n h

round_trip_ip4 :
    (n port : ℕ) (payload : List ℕ) (fallback : SocketAddr)
    → n < 256 ^ 4
    → port < 256 ^ 2
    → parse_socks5_udp_packet
        (0 ∷ 0 ∷ 0 ∷ 0x01 ∷ (be_bytes 4 n ++ be_bytes 2 port) ++ payload)
        fallback
      ≡ ok (record { ip = ip4 n; port = port }, payload)
unfolding parse_socks5_udp_packet be_bytes
round_trip_ip4 n port payload fallback h k = ground (arith, from_be-be_bytes 4 n h, bytes2 port k)

round_trip_ip6 :
    (n port : ℕ) (payload : List ℕ) (fallback : SocketAddr)
    → n < 256 ^ 16
    → port < 256 ^ 2
    → parse_socks5_udp_packet
        (0 ∷ 0 ∷ 0 ∷ 0x04 ∷ (be_bytes 16 n ++ be_bytes 2 port) ++ payload)
        fallback
      ≡ ok (record { ip = ip6 n; port = port }, payload)
unfolding parse_socks5_udp_packet be_bytes
round_trip_ip6 n port payload fallback h k = ground (arith, from_be-be_bytes 16 n h, bytes2 port k)

-- A list cut after a known prefix.
get_elem?-after : (xs ys : List ℕ) (n : ℕ) → get_elem? (xs ++ ys) (length xs + n) ≡ get_elem? ys n
get_elem?-after [] ys n = let e : 0 + n ≡ n = omega arith in rw e
get_elem?-after (x ∷ xs) ys n =
    let e : suc (length xs) + n ≡ suc (length xs + n) = omega arith in
    rw e (get_elem?-after xs ys n)

module _ (host payload : List ℕ) (port : ℕ) where
  -- The datagram for a host name, byte by byte.
  pub pkt : List ℕ
  pkt = 0 ∷ 0 ∷ 0 ∷ 0x03 ∷ length host ∷ (host ++ be_bytes 2 port) ++ payload

  length-pkt : length pkt ≡ 7 + length host + length payload
  unfolding pkt
  length-pkt = omega (
    arith,
    length-append (host ++ be_bytes 2 port) payload,
    length-append host (be_bytes 2 port),
    length-be_bytes 2 port,
  )

  pkt-split : pkt ≡ (0 ∷ 0 ∷ 0 ∷ 0x03 ∷ length host ∷ host) ++ (be_bytes 2 port ++ payload)
  unfolding pkt
  pkt-split =
      ap (λ l. 0 ∷ 0 ∷ 0 ∷ 0x03 ∷ length host ∷ l) (append_assoc host (be_bytes 2 port) payload)

  head_bytes : List ℕ
  head_bytes = 0 ∷ 0 ∷ 0 ∷ 0x03 ∷ length host ∷ host

  get_elem?-pkt :
      (i : ℕ) → get_elem? pkt (5 + length host + i) ≡ get_elem? (be_bytes 2 port ++ payload) i
  get_elem?-pkt i =
      let e : 5 + length host + i ≡ length head_bytes + i = unfold head_bytes in omega arith in
      rw (pkt-split, e)
        (unfold head_bytes in
          get_elem?-after (0 ∷ 0 ∷ 0 ∷ 0x03 ∷ length host ∷ host) (be_bytes 2 port ++ payload) i)

  header :
      (get_elem? pkt 0 ≡ some 0)
      × (get_elem? pkt 1 ≡ some 0)
      × (get_elem? pkt 2 ≡ some 0)
      × (get_elem? pkt 3 ≡ some 3)
      × (get_elem? pkt 4 ≡ some (length host))
  unfolding pkt
  header = (refl, refl, refl, refl, refl)

  read_port-pkt : port < 256 ^ 2 → read_port pkt (5 + length host) ≡ ok port
  unfolding read_port
  read_port-pkt h =
      let hi : get_elem? pkt (5 + length host) ≡ some (port / 256 % 256) =
        let e : 5 + length host ≡ 5 + length host + 0 = omega arith in
        rw e (get_elem?-pkt 0 ∙ (unfold be_bytes in refl)) in
      let lo : get_elem? pkt (5 + length host + 1) ≡ some (port % 256) =
        get_elem?-pkt 1 ∙ (unfold be_bytes in refl) in
      ground (arith, hi, lo)

  drop-pkt : drop (5 + length host + 2) pkt ≡ payload
  drop-pkt =
      rw
        (pkt-split
          ∙ ap (λ l. (0 ∷ 0 ∷ 0 ∷ 0x03 ∷ length host ∷ l))
              (sym (append_assoc host (be_bytes 2 port) payload)))
        (drop-append (0 ∷ 0 ∷ 0 ∷ 0x03 ∷ length host ∷ host ++ be_bytes 2 port) payload
          (omega (arith, length-append host (be_bytes 2 port), length-be_bytes 2 port)))

  round_trip_domain :
      (fallback : SocketAddr)
      → port < 256 ^ 2
      → parse_socks5_udp_packet pkt fallback ≡ ok (fallback, payload)
  unfolding parse_socks5_udp_packet
  round_trip_domain fallback h = ground (arith, header, length-pkt, read_port-pkt h, drop-pkt)

parse_ip :
    (a : SocketAddr) (payload : List ℕ) (fallback : SocketAddr)
    → AddrFits a
    → parse_socks5_udp_packet (0 ∷ 0 ∷ 0 ∷ ip_address_bytes a.ip a.port ++ payload) fallback
      ≡ ok (a, payload)
parse_ip a payload fallback fits = by_ip a.ip fits.ip_fits
  where
    by_ip :
        (i : IpAddr)
        → IpFits i
        → parse_socks5_udp_packet (0 ∷ 0 ∷ 0 ∷ ip_address_bytes i a.port ++ payload) fallback
          ≡ ok (record { ip = i; port = a.port }, payload)
    by_ip (ip4 n) h =
        unfold ip_address_bytes in round_trip_ip4 n a.port payload fallback h fits.port_fits
    by_ip (ip6 n) h =
        unfold ip_address_bytes in round_trip_ip6 n a.port payload fallback h fits.port_fits

-- A datagram that was built is parsed to its own payload, with the target's address as the source,
-- or the fallback where the target is a host name.
pub parse-build :
    (target : Target) (payload : List ℕ) (fallback : SocketAddr) (built : List ℕ)
    → TargetFits target
    → build_socks5_udp_packet target payload ≡ ok built
    → parse_socks5_udp_packet built fallback ≡ ok (source_of target fallback, payload)
parse-build (to_ip a) payload fallback built fits h =
    let e : 0 ∷ 0 ∷ 0 ∷ ip_address_bytes a.ip a.port ++ payload ≡ built =
      unfold build_socks5_udp_packet address_bytes in ground arith in
    subst (λ l. parse_socks5_udp_packet l fallback ≡ ok (a, payload)) e
      (parse_ip a payload fallback fits)
parse-build (to_domain host port) payload fallback built fits h =
    let e : pkt host payload port ≡ built =
      unfold build_socks5_udp_packet address_bytes pkt in ground arith in
    subst (λ l. parse_socks5_udp_packet l fallback ≡ ok (fallback, payload)) e
      (round_trip_domain host payload port fallback fits)

-- A name that a sniffer hands on always fits a datagram.
pub build-sniffed :
    (name payload : List ℕ) (port : ℕ)
    → is_valid_sni_hostname (to_ascii_lowercase name) ≡ true
    → build_socks5_udp_packet (to_domain (to_ascii_lowercase name) port) payload
      ≡ ok (pkt (to_ascii_lowercase name) payload port)
build-sniffed name payload port valid = fits (to_ascii_lowercase name) found.1 found.2
  where
    found :
        IsCanonical (to_ascii_lowercase name)
        × (1 ≤ length (to_ascii_lowercase name))
        × (length (to_ascii_lowercase name) ≤ 253)
    found = sniffed-IsCanonical name valid

    fits :
        (host : Text)
        → 1 ≤ length host
        → length host ≤ 253
        → build_socks5_udp_packet (to_domain host port) payload ≡ ok (pkt host payload port)
    fits [] h k = elim h [ ]
    fits (c ∷ cs) h k = unfold build_socks5_udp_packet address_bytes pkt in ground arith
