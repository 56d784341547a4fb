-- ===== src/Udp/FakeUdp.antt =====
-- `FakeUdpManager` of src/udp/fake.rs: the sockets that answer under the address of a remote server. A
-- socket is named by a number; what runs between two accesses to the map is one function.
use xtp_rs.Prelude.{
  Bool, List, Option, UniqueKeys, [], false, get_insert_same, if◌then◌else◌, keep_if, list_eq, ltb,
  map_get, map_get-retain, map_insert, map_retain, nat_eq, none, option_eq, pair_eq, refl, some,
  true, ℕ, ◌-◌, ◌≡◌,
}
use xtp_rs.Direct.{ip_eq}
use xtp_rs.Socks5.{SocketAddr}
use xtp_rs.Udp.{addr_eq, key_eq, kind_eq}

-- The source address and the fwmark.
abbrev pub FakeUdpKey : Type 0
FakeUdpKey = SocketAddr × ℕ

pub record FakeUdpEntry : Type 0 where
  pub socket : ℕ
  pub last_used_secs : ℕ

pub record FakeUdpManager : Type 0 where
  pub sockets : List (FakeUdpKey × FakeUdpEntry)
  pub closed : Bool

pub data Lookup : Type 0 where
  manager_closed must_create : Lookup
  existing : ℕ → Lookup

abbrev pub use_entry :
    FakeUdpManager → FakeUdpKey → ℕ → Option FakeUdpEntry → Lookup × FakeUdpManager
use_entry m key now none = (must_create, m)
use_entry m key now (some e) = (
  existing e.socket,
  record m { sockets = map_insert m.sockets key (record e { last_used_secs = now }) },
)

-- The fast path of `get_or_create`.
unfoldable pub look_up : FakeUdpManager → FakeUdpKey → ℕ → Lookup × FakeUdpManager
look_up m key now =
    if m.closed then (manager_closed, m) else use_entry m key now (map_get m.sockets key)

abbrev pub or_insert : ℕ → Option FakeUdpEntry → ℕ
or_insert socket none = socket
or_insert socket (some e) = e.socket

-- The slow path, once a socket has been created.
unfoldable pub insert_created : FakeUdpManager → FakeUdpKey → ℕ → ℕ → Option ℕ × FakeUdpManager
insert_created m key now created =
    if m.closed
    then (none, m)
    else let socket = or_insert created (map_get m.sockets key) in
      (
        some socket,
        record m {
          sockets = map_insert m.sockets key (record { socket = socket; last_used_secs = now });
        },
      )

unfoldable pub cleanup_expired : FakeUdpManager → ℕ → ℕ → FakeUdpManager
cleanup_expired m timeout now = record m {
  sockets = map_retain (λ key e. ltb (now - e.last_used_secs) timeout) m.sockets;
}

abbrev pub close_manager : FakeUdpManager → FakeUdpManager
close_manager m = record m { closed = true; sockets = [] }

-- Two tasks that create a socket for one key at the same time go on with the same socket, whichever
-- of them comes first.
pub insert_created-agree :
    (m : FakeUdpManager) (key : FakeUdpKey) (now later a b : ℕ)
    → m.closed ≡ false
    → (insert_created (insert_created m key now a).1 key later b).0 ≡ (insert_created m key now a).0
unfolding insert_created
insert_created-agree m key now later a b opened =
    let socket = or_insert a (map_get m.sockets key) in
    let entry : FakeUdpEntry = record { socket = socket; last_used_secs = now } in
    rw (opened, get_insert_same m.sockets key entry) refl

-- The cleaner keeps exactly the sockets that were used within the time-out.
pub cleanup_expired-exact :
    (m : FakeUdpManager) (timeout now : ℕ) (key : FakeUdpKey)
    → UniqueKeys m.sockets
    → map_get (cleanup_expired m timeout now).sockets key
      ≡ keep_if (λ k e. ltb (now - e.last_used_secs) timeout) key (map_get m.sockets key)
unfolding cleanup_expired
cleanup_expired-exact m timeout now key u =
    map_get-retain (λ k e. ltb (now - e.last_used_secs) timeout) m.sockets key u
