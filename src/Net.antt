-- ===== src/Net.antt =====
-- crates/rds-net: the transport.
pub mod AckProgress
