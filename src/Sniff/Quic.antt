-- ===== src/Sniff/Quic.antt =====
-- src/sniff/quic.rs: the server name in the Initial packets of a QUIC connection.
pub mod Reassembly
pub mod Hello
