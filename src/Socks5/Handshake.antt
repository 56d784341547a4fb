-- ===== src/Socks5/Handshake.antt =====
-- The handshakes of src/socks5.rs: `socks5_auth`, `socks5_connect` after its TCP connection, and the
-- control part of `socks5_udp_associate_for_client`. The resolver of a relay name is a parameter.
pub mod Succeeds
pub mod Auth
use xtp_rs.Prelude.{
  Bool, List, Option, Res, Text, [], drop, eq, from_be, if◌then◌else◌, index, is_empty, length,
  list_eq, ltb, nat_eq, none, not, option_eq, or_err, pair_eq, replicate, some, take, valid_utf8, ℕ,
  ◌++◌, ◌+◌, ◌==◌, ◌||◌, ◌∷◌,
}
use xtp_rs.Routes.{IpAddr, ip4, ip6}
use xtp_rs.Socks5.{
  Error, SocketAddr, Target, address_bytes, auth_failed, bad_method, bad_reserved, bad_utf8,
  bad_version, credentials_length, no_auth_chosen, no_auth_failed, reply_code, unknown_atyp,
  unresolved,
}
use xtp_rs.Socks5.Stream.{Session, bail, bail_if, lift, pure, read_exact, write_all, ◌>>=◌, ◌>>◌}

abbrev pub Credentials : Type 0
Credentials = Option (Text × Text)

-- The two bytes of a reply of fixed length 2.
abbrev pub byte : List ℕ → ℕ → Res Error ℕ
byte bytes i = index bytes i

-- The user name and password sub-negotiation.
unfoldable pub send_credentials : Text → Text → Session (Unit {0})
send_credentials user pass = do
  write_all (0x01 ∷ length user ∷ user ++ length pass ∷ pass)
  up_resp ← read_exact 2
  version ← lift (byte up_resp 0)
  status ← lift (byte up_resp 1)
  bail_if (not (version == 0x01) || not (status == 0x00)) auth_failed

abbrev pub credential_length_bad : Text → Bool
credential_length_bad t = is_empty t || ltb 255 (length t)

unfoldable pub follow_method : Text → Text → ℕ → Session (Unit {0})
follow_method user pass method =
    if method == 0x00
    then bail no_auth_chosen
    else if method == 0x02
    then send_credentials user pass
    else bail (bad_method method)

unfoldable pub socks5_auth : Credentials → Session (Unit {0})
unfolding send_credentials follow_method
socks5_auth (some (user, pass)) = do
  bail_if (credential_length_bad user || credential_length_bad pass) credentials_length
  write_all (0x05 ∷ 0x02 ∷ 0x00 ∷ 0x02 ∷ [])
  resp ← read_exact 2
  version ← lift (byte resp 0)
  bail_if (not (version == 0x05)) bad_version
  method ← lift (byte resp 1)
  follow_method user pass method
socks5_auth none = do
  write_all (0x05 ∷ 0x01 ∷ 0x00 ∷ [])
  buf ← read_exact 2
  bail_if (not (eq buf (0x05 ∷ 0x00 ∷ []))) no_auth_failed

-- The four bytes before the bound address of a reply; the address type comes back.
unfoldable pub read_reply_head : Session ℕ
read_reply_head = do
  resp ← read_exact 4
  version ← lift (byte resp 0)
  bail_if (not (version == 0x05)) bad_version
  reply ← lift (byte resp 1)
  bail_if (not (reply == 0x00)) (reply_code reply)
  rsv ← lift (byte resp 2)
  bail_if (not (rsv == 0x00)) (bad_reserved rsv)
  lift (byte resp 3)

-- The number of bytes of the bound address after its type.
unfoldable pub skip_length : ℕ → Session ℕ
skip_length atyp =
    if atyp == 0x01
    then pure (4 + 2)
    else if atyp == 0x04
    then pure (16 + 2)
    else if atyp == 0x03
    then (do l ← read_exact 1; n ← lift (byte l 0); pure (n + 2))
    else bail (unknown_atyp atyp)

-- The reply to a connect request, whose bound address is read and dropped.
unfoldable pub skip_reply : Session (Unit {0})
unfolding read_reply_head skip_length
skip_reply = do
  atyp ← read_reply_head
  skip_len ← skip_length atyp
  dummy ← read_exact skip_len
  pure tt

unfoldable pub socks5_connect : Target → Credentials → Session (Unit {0})
unfolding socks5_auth skip_reply address_bytes
socks5_connect target creds = do
  socks5_auth creds
  address ← lift (address_bytes target)
  write_all (0x05 ∷ 0x01 ∷ 0x00 ∷ address)
  skip_reply

-- The request to associate has the unspecified address of the server's family.
abbrev pub associate_request : IpAddr → List ℕ
associate_request (ip4 n) = 0x05 ∷ 0x03 ∷ 0x00 ∷ 0x01 ∷ replicate 6 0
associate_request (ip6 n) = 0x05 ∷ 0x03 ∷ 0x00 ∷ 0x04 ∷ replicate 18 0

abbrev pub is_unspecified : IpAddr → Bool
is_unspecified (ip4 n) = n == 0
is_unspecified (ip6 n) = n == 0

-- A relay at 0.0.0.0 or [::] stands for the server's own address.
unfoldable pub effective_relay : SocketAddr → SocketAddr → SocketAddr
effective_relay socks5_addr relay =
    if is_unspecified relay.ip then record { ip = socks5_addr.ip; port = relay.port } else relay

module _ (lookup_host : Text → ℕ → Option SocketAddr) where
  unfoldable pub read_relay_domain : Session SocketAddr
  unfolding from_be
  read_relay_domain = do
    l ← read_exact 1
    len ← lift (byte l 0)
    rest ← read_exact (len + 2)
    bail_if (not (valid_utf8 (take len rest))) bad_utf8
    hi ← lift (byte rest len)
    lo ← lift (byte rest (len + 1))
    lift (or_err (lookup_host (take len rest) (from_be 0 (hi ∷ lo ∷ []))) unresolved)

  unfoldable pub read_relay : ℕ → Session SocketAddr
  unfolding from_be read_relay_domain
  read_relay atyp =
      if atyp == 0x01
      then (do
        buf ← read_exact 6
        pure (record { ip = ip4 (from_be 0 (take 4 buf)); port = from_be 0 (drop 4 buf) }))
      else if atyp == 0x04
      then (do
        buf ← read_exact 18
        pure (record { ip = ip6 (from_be 0 (take 16 buf)); port = from_be 0 (drop 16 buf) }))
      else if atyp == 0x03
      then read_relay_domain
      else bail (unknown_atyp atyp)

  unfoldable pub socks5_udp_associate : SocketAddr → Credentials → Session SocketAddr
  unfolding socks5_auth read_reply_head read_relay effective_relay
  socks5_udp_associate socks5_addr creds = do
    socks5_auth creds
    write_all (associate_request socks5_addr.ip)
    atyp ← read_reply_head
    relay ← read_relay atyp
    pure (effective_relay socks5_addr relay)
