-- ===== src/Socks5/Handshake/Auth.antt =====
-- What `socks5_auth` of src/socks5.rs insists on before it lets a session go on.
use xtp_rs.Prelude.{
  List, [], ap₂, arith, false, is_empty, length, none, ok, some, ℕ, ◌++◌, ◌∷◌, ◌≡◌, ◌≤◌,
}
use xtp_rs.Socks5.Stream.{Conn}
use xtp_rs.Socks5.Handshake.{follow_method, send_credentials, socks5_auth}

-- The sub-negotiation ended well: the server said version 1 and status 0.
send_credentials-ok :
    (user pass incoming sent : List ℕ) (c : Conn)
    → send_credentials user pass (record { incoming = incoming; sent = sent }) ≡ (ok tt, c)
    → (incoming ≡ 1 ∷ 0 ∷ c.incoming)
      × (c.sent ≡ sent ++ (0x01 ∷ length user ∷ user ++ length pass ∷ pass))
unfolding send_credentials
send_credentials-ok user pass [] sent c h = ground arith
send_credentials-ok user pass (a ∷ []) sent c h = ground arith
send_credentials-ok user pass (a ∷ b ∷ rest) sent c h = ground arith

-- Without credentials the session goes on only after the server has chosen no authentication.
pub socks5_auth-none :
    (incoming sent : List ℕ) (c : Conn)
    → socks5_auth none (record { incoming = incoming; sent = sent }) ≡ (ok tt, c)
    → (incoming ≡ 5 ∷ 0 ∷ c.incoming) × (c.sent ≡ sent ++ (5 ∷ 1 ∷ 0 ∷ []))
unfolding socks5_auth
socks5_auth-none [] sent c h = ground arith
socks5_auth-none (a ∷ []) sent c h = ground arith
socks5_auth-none (a ∷ b ∷ rest) sent c h = ground arith

-- A session with credentials goes on only after the server has chosen the user name and password
-- method and has accepted them: no server can make the client go on without authentication. The
-- credentials that went out have 1 to 255 bytes each.
pub socks5_auth-no_downgrade :
    (user pass incoming sent : List ℕ) (c : Conn)
    → socks5_auth (some (user, pass)) (record { incoming = incoming; sent = sent }) ≡ (ok tt, c)
    → (incoming ≡ 5 ∷ 2 ∷ 1 ∷ 0 ∷ c.incoming)
      × (c.sent
          ≡ (sent ++ (5 ∷ 2 ∷ 0 ∷ 2 ∷ [])) ++ (0x01 ∷ length user ∷ user ++ length pass ∷ pass))
      × (1 ≤ length user)
      × (length user ≤ 255)
      × (1 ≤ length pass)
      × (length pass ≤ 255)
unfolding socks5_auth follow_method
socks5_auth-no_downgrade user pass [] sent c h = ground arith
socks5_auth-no_downgrade user pass (a ∷ []) sent c h = ground arith
socks5_auth-no_downgrade user pass (a ∷ b ∷ rest) sent c h =
    let start : List ℕ = sent ++ (5 ∷ 2 ∷ 0 ∷ 2 ∷ []) in
    let five : a ≡ 5 = ground arith in
    let two : b ≡ 2 = ground arith in
    let sub : send_credentials user pass (record { incoming = rest; sent = start }) ≡ (ok tt, c) =
      ground arith in
    let accepted = send_credentials-ok user pass rest start c sub in
    (
      ap₂ (λ x l. x ∷ l) five (ap₂ (λ x l. x ∷ l) two accepted.0),
      accepted.1,
      filled user (ground (arith, h)),
      ground (arith, h),
      filled pass (ground (arith, h)),
      ground (arith, h),
    )
  where
    filled : (xs : List ℕ) → is_empty xs ≡ false → 1 ≤ length xs
    filled [] h = cc
    filled (x ∷ xs) h = omega arith
