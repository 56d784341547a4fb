-- ===== src/Sniff.antt =====
-- The sniffers of src/sniff/, which read a host name from the first bytes of a connection.
pub mod Tls
pub mod Quic
pub mod Http
