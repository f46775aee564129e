-- ===== src/Agent.antt =====
-- crates/rds-agent: the revocation policy (src/revocations.rs) and the authorization of a connection
-- (src/authz.rs).
pub mod Revocations
pub mod Authz
