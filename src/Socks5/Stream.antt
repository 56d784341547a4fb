-- ===== src/Socks5/Stream.antt =====
-- The TCP stream to the SOCKS5 server, as the handshakes of src/socks5.rs use it: the bytes that the
-- server will send, and those that were written to it. `read_exact` fails where the server closes
-- before the bytes have come; a write does not fail.
use xtp_rs.Prelude.{
  Bool, List, Res, drop, err, false, if◌then◌else◌, leb, length, ok, panic, take, true, ℕ, ◌++◌,
}
use xtp_rs.Socks5.{Error, short_read}

pub record Conn : Type 0 where
  pub incoming : List ℕ
  pub sent : List ℕ

abbrev pub Session : Type 0 → Type 0
Session A = Conn → Res Error A × Conn

abbrev pub continue : {A B : Type 0} → Res Error A → (A → Session B) → Session B
continue (ok a) f c = f a c
continue (err e) f c = (err e, c)
continue panic f c = (panic, c)

infixl 5 ◌>>=◌ ◌>>◌
abbrev pub ◌>>=◌ : {A B : Type 0} → Session A → (A → Session B) → Session B
◌>>=◌ m f c = let (r, c') = m c in continue r f c'

abbrev pub ◌>>◌ : {B : Type 0} → Session (Unit {0}) → Session B → Session B
m >> k = m >>= λ _. k

abbrev pub pure : {A : Type 0} → A → Session A
pure a c = (ok a, c)

abbrev pub bail : {A : Type 0} → Error → Session A
bail e c = (err e, c)

abbrev pub lift : {A : Type 0} → Res Error A → Session A
lift r c = (r, c)

-- if b { bail!(e) }
abbrev pub bail_if : Bool → Error → Session (Unit {0})
bail_if true e = bail e
bail_if false e = pure tt

abbrev pub write_all : List ℕ → Session (Unit {0})
write_all bytes c = (ok tt, record c { sent = c.sent ++ bytes })

abbrev pub read_exact : ℕ → Session (List ℕ)
read_exact n c =
    if leb n (length c.incoming)
    then (ok (take n c.incoming), record c { incoming = drop n c.incoming })
    else (err short_read, c)
