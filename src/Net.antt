-- ===== src/Net.antt =====
-- The host-testable network code of libraries/net.
pub mod Tcp
pub mod Firewall
