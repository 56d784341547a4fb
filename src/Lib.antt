-- ===== src/Lib.antt =====
-- A verification library for xtp-rs, a transparent proxy that sends TCP and UDP connections
-- either directly or through a group of SOCKS5 upstreams. It models the decisions of
-- src/state.rs, the names they are about (src/util.rs, src/sniff/), the SOCKS5 client of
-- src/socks5.rs, the scores and picks of src/upstream.rs, the UDP clients and sessions of
-- src/udp/ and the relay timer of src/relay.rs.
--
-- A connection goes through the parts in this order. A sniffer may give a host name, which
-- passes `is_valid_sni_hostname`. `should_direct` decides between direct and proxied by mode, by
-- domain rules and by address rules. A proxied connection gets an upstream group from
-- `lookup_upstream_group`, and an upstream of it from the cache of chosen upstreams or by a
-- weighted pick. `socks5_connect` or `socks5_udp_associate_for_client` then asks that upstream,
-- and UDP payloads are wrapped and unwrapped by `build_socks5_udp_packet` and
-- `parse_socks5_udp_packet_with_fallback_src`. A UDP client whose first datagrams bring no name
-- yet waits, and what it sent is then handed on to its session; a TCP relay ends with its copy
-- or, once one side has ended, by the half-close timer.
--
-- `Prelude.antt`: Boolean tests, lists, equality, association lists, bytes and UTF-8, results
--   with panics.
-- `Domain.antt`: `canonical_domain`, `domain_matches_suffix` (src/util.rs). A text is its list
--   of bytes.
-- `DomainSet.antt`: `DomainSet` (src/state.rs): compiled patterns and the walk over labels.
-- `Hostname.antt`: `is_valid_sni_hostname` (src/sniff/mod.rs).
-- `Geosite.antt`: the compiled geosite index (src/state.rs).
-- `Routes.antt`: `DomainRouteTable`, `ClientCidrRoutes`, their construction in
--   `AppState::build`, and `lookup_upstream_group` (src/state.rs).
-- `Direct.antt`: `should_direct` with its cache, `need_geosite_sniff` (src/state.rs).
-- `UpstreamCache.antt`: `get_cached_upstream`, `cache_upstream`, `remove_cached_upstream`
--   (src/state.rs).
-- `Socks5.antt`: addresses, datagrams and handshakes (src/socks5.rs).
-- `Sniff.antt`: the HTTP sniffer (src/sniff/http.rs), the TLS sniffer (src/sniff/tls_common.rs,
--   src/sniff/tls.rs) and the reassembly of QUIC CRYPTO frames with the ClientHello in them
--   (src/sniff/quic.rs).
-- `Upstreams.antt`: the scores of upstreams and the picks from a group (src/upstream.rs).
-- `Udp.antt`: keys and specifications of UDP sessions (src/udp/session.rs); `Udp/Pending.antt`
--   the clients whose first datagrams wait for a server name (src/udp/pending.rs),
--   `Udp/Sessions.antt` the table of sessions (src/udp/mod.rs), and `Udp/FakeUdp.antt` the
--   sockets that answer as a server (src/udp/fake.rs).
-- `Relay.antt`: the half-close timer of a TCP relay (src/relay.rs).
-- `PickStats.antt`: the statistics of picked upstreams (`PickStats` of src/upstream.rs).
-- `Tests.antt`: runs on small inputs and the theorems applied at them.
--
-- Numbers are natural numbers; an address is its number, and a hypothesis bounds it where the
-- width matters. State is passed explicitly: a cache is an association list with unique keys,
-- and each call gets the instant at which it runs. Slicing and indexing out of range is the
-- result `panic`. The walk over the labels of a domain takes as fuel the length of the domain
-- and one more, which its theorem shows to be enough; the three loops of the TLS sniffer take
-- the length of their buffer and one more, and give `panic` when the fuel is used up, so that
-- their theorems show that it is not. All other loops are structural, or cut off one byte a turn
-- with the length as fuel.
--
-- Parameters stand for code of other packages: the networks of the `ipnet` crate (`IpNets`) and
-- their parser, the prefix tries and the MMDB reader (functions in `DirectState`), and the
-- resolver of a relay name. Hash maps and sets are lists of which only membership and look-ups
-- are read.
--
-- Interleavings: a handler of a pending client is one step, and `Run` of `Udp/Pending/Runs.antt`
-- puts such steps, rounds of the reaper and ends of sessions in any order; `Step` of
-- `Udp/Sessions/Steps.antt` has a step for each section under the lock of the table of sessions.
-- The loop that drops the oldest pending clients has the size of the map as fuel, which its
-- theorem shows to be enough. Random numbers of a pick and the instants are arguments;
-- arithmetic in `f64`, the sniffing engines, the copy and the timer of tokio are parameters.
--
-- The build is the release build. A debug build asserts besides that the totals of the pick
-- statistics cover an expired bucket (`evict_asserts`) and that a picked upstream is known; the
-- second is not modelled. The flow information and the scope of an IPv6 socket address are left
-- out.
--
-- Not modelled: sockets, tasks, logging, signals and the loops that only move bytes; the choice
-- of sniffers, the QUIC packets round the reassembly, the relative scores and the health checks
-- of upstreams and the checks of the configuration. A call of `should_direct` is one step: what
-- other threads do to the cache during a call is left out. So is what another datagram, or the
-- reaper, does to the map of pending clients during a handler.
mod Prelude
pub mod Domain
pub mod DomainSet
pub mod Hostname
pub mod Geosite
pub mod Routes
pub mod Direct
pub mod UpstreamCache
pub mod PickStats
pub mod Socks5
pub mod Sniff
pub mod Upstreams
pub mod Udp
pub mod Relay
pub mod Tests
