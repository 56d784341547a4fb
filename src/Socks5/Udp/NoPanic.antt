-- ===== src/Socks5/Udp/NoPanic.antt =====
-- `parse_socks5_udp_packet_with_fallback_src` of src/socks5.rs reads any datagram without an index
-- or a slice out of bounds, and hands on what follows its header.
use xtp_rs.Prelude.{
  Bool-cases, List, Res, [], arith, drop, err, from_be, get_elem?, get_elem?-lt, inl, inr, length,
  le→leb, ltb, ltb-false→le, not, ok, panic, refl, slice_from, some, split, subst, ℕ, ◌+◌, ◌<◌,
  ◌==◌, ◌>>=◌, ◌||◌, ◌∷◌, ◌≡◌, ◌≤◌,
}
use xtp_rs.Socks5.{Error, SocketAddr}
use xtp_rs.Socks5.Udp.{
  parse_address, parse_domain, parse_ipv4, parse_ipv6, parse_socks5_udp_packet, read_port,
}

read_port-ok :
    (pkt : List ℕ) (off : ℕ) → off + 1 < length pkt → (p : ℕ) × (read_port pkt off ≡ ok p)
unfolding read_port
read_port-ok pkt off h =
    let hi = get_elem?-lt pkt off (omega arith) in
    let lo = get_elem?-lt pkt (off + 1) h in
    (from_be 0 (hi.0 ∷ lo.0 ∷ []), ground (arith, hi.1, lo.1))

-- The length of the header by RFC 1928: two reserved bytes, the fragment, the kind of the address in
-- byte 3, an address of 4 or 16 bytes or of a length byte and a name of that length, and a port.
pub data HeaderLength (pkt : List ℕ) : ℕ → Type 0 where
  of_ipv4 : get_elem? pkt 3 ≡ some 1 → HeaderLength pkt 10
  of_ipv6 : get_elem? pkt 3 ≡ some 4 → HeaderLength pkt 22
  of_domain :
      (n : ℕ) → get_elem? pkt 3 ≡ some 3 → get_elem? pkt 4 ≡ some n → HeaderLength pkt (7 + n)

-- An address was read inside the datagram, or the datagram was refused.
Within : List ℕ → Res Error (SocketAddr × ℕ) → Type 0
Within pkt (ok (a, off)) = (off ≤ length pkt) × HeaderLength pkt off
Within pkt (err e) = Unit {0}
Within pkt panic = ⊥

parse_ipv4-Within : (pkt : List ℕ) → get_elem? pkt 3 ≡ some 1 → Within pkt (parse_ipv4 pkt)
unfolding parse_ipv4 Within
parse_ipv4-Within pkt kind = elim (Bool-cases (ltb (length pkt) (4 + 4 + 2))) [
  | inl short ↦ rw short tt
  | inr long ↦
      let room : 10 ≤ length pkt = ltb-false→le (length pkt) 10 long in
      let a = get_elem?-lt pkt 4 (omega arith) in
      let b = get_elem?-lt pkt 5 (omega arith) in
      let c = get_elem?-lt pkt 6 (omega arith) in
      let d = get_elem?-lt pkt 7 (omega arith) in
      let p = read_port-ok pkt 8 (omega arith) in
      rw (long, a.1, b.1, c.1, d.1, p.1) (room, of_ipv4 kind)
]

parse_ipv6-Within : (pkt : List ℕ) → get_elem? pkt 3 ≡ some 4 → Within pkt (parse_ipv6 pkt)
unfolding parse_ipv6 Within
parse_ipv6-Within pkt kind = elim (Bool-cases (ltb (length pkt) (4 + 16 + 2))) [
  | inl short ↦ rw short tt
  | inr long ↦
      let room : 22 ≤ length pkt = ltb-false→le (length pkt) 22 long in
      let p = read_port-ok pkt 20 (omega arith) in
      rw (long, le→leb 20 (length pkt) (omega arith), p.1) (room, of_ipv6 kind)
]

parse_domain-Within :
    (pkt : List ℕ) (fallback : SocketAddr)
    → get_elem? pkt 3 ≡ some 3
    → Within pkt (parse_domain pkt fallback)
unfolding parse_domain Within
parse_domain-Within pkt fallback kind = elim (Bool-cases (ltb (length pkt) (4 + 1))) [
  | inl short ↦ rw short tt
  | inr long ↦
      let n = get_elem?-lt pkt 4 (ltb-false→le (length pkt) 5 long) in
      elim (Bool-cases (ltb (length pkt) (5 + n.0 + 2))) [
        | inl cut ↦ rw (long, n.1, cut) tt
        | inr fits ↦
            let room : 5 + n.0 + 2 ≤ length pkt = ltb-false→le (length pkt) (5 + n.0 + 2) fits in
            let p = read_port-ok pkt (5 + n.0) (omega arith) in
            rw (long, n.1, fits, p.1)
              (room, subst (λ k. HeaderLength pkt k) (omega arith) (of_domain n.0 kind n.1))
      ]
]

parse_address-Within :
    (pkt : List ℕ) (fallback : SocketAddr) (atyp : ℕ)
    → get_elem? pkt 3 ≡ some atyp
    → Within pkt (parse_address pkt fallback atyp)
unfolding parse_address
parse_address-Within pkt fallback atyp kind = elim (Bool-cases (atyp == 0x01)) [
  | inl v4 ↦ rw v4 (parse_ipv4-Within pkt (ground (arith, kind, v4)))
  | inr not_v4 ↦ elim (Bool-cases (atyp == 0x04)) [
    | inl v6 ↦ rw (not_v4, v6) (parse_ipv6-Within pkt (ground (arith, kind, v6)))
    | inr not_v6 ↦ elim (Bool-cases (atyp == 0x03)) [
      | inl name ↦
          rw (not_v4, not_v6, name) (parse_domain-Within pkt fallback (ground (arith, kind, name)))
      | inr other ↦ rw (not_v4, not_v6, other) (unfold Within in tt)
    ]
  ]
]

-- A parsed datagram: its payload is all that follows the header of that kind of address.
abbrev pub ReadsPayload : List ℕ → Res Error (SocketAddr × List ℕ) → Type 0
ReadsPayload pkt (ok (src, payload)) =
    (n : ℕ) × HeaderLength pkt n × (n ≤ length pkt) × (payload ≡ drop n pkt)
ReadsPayload pkt (err e) = Unit {0}
ReadsPayload pkt panic = ⊥

-- No datagram makes the parser panic, and of an accepted one all that follows its header is handed
-- on: 10 bytes go with an IPv4 address, 22 with an IPv6 address, and 7 and the length of the name
-- with a domain.
pub parse-ReadsPayload :
    (pkt : List ℕ) (fallback : SocketAddr) → ReadsPayload pkt (parse_socks5_udp_packet pkt fallback)
unfolding parse_socks5_udp_packet
parse-ReadsPayload pkt fallback = elim (Bool-cases (ltb (length pkt) 4)) [
  | inl short ↦ rw short tt
  | inr long ↦
      let room : 4 ≤ length pkt = ltb-false→le (length pkt) 4 long in
      let a = get_elem?-lt pkt 0 (omega arith) in
      let b = get_elem?-lt pkt 1 (omega arith) in
      let c = get_elem?-lt pkt 2 (omega arith) in
      let d = get_elem?-lt pkt 3 (omega arith) in
      elim (Bool-cases (not (a.0 == 0x00) || not (b.0 == 0x00))) [
        | inl bad ↦ rw (long, a.1, b.1, bad) tt
        | inr good ↦ elim (Bool-cases (not (c.0 == 0x00))) [
          | inl split ↦ rw (long, a.1, b.1, good, c.1, split) tt
          | inr whole ↦
              rw (long, a.1, b.1, good, c.1, whole, d.1)
                (rest-Reads (parse_address pkt fallback d.0)
                  (parse_address-Within pkt fallback d.0 d.1))
        ]
      ]
]
  where
    rest-Reads :
        (r : Res Error (SocketAddr × ℕ))
        → Within pkt r
        → ReadsPayload pkt
            (r >>= λ found. slice_from pkt found.1 >>= λ payload. ok (found.0, payload))
    rest-Reads (ok (a, off)) w =
        unfold Within in rw (le→leb off (length pkt) w.0) (off, w.1, w.0, refl)
    rest-Reads (err e) w = tt
    rest-Reads panic w = unfold Within in w
