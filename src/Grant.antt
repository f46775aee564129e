-- ===== src/Grant.antt =====
-- crates/rds-core/src/grant.rs: the capability grant, its payload and its errors.
-- A key, an id or a nonce is the number that its bytes spell, the highest first. The message inside
-- `GrantError::Malformed` is left out.
pub mod Scope
pub mod Verify
pub mod Verified
mod Tests
use remote_device_sync.Base.{ℕ, List, Option}

-- `ServiceKind` of crates/rds-core/src/lib.rs.
pub data ServiceKind : Type 0 where
  ping info tcp desktop sync audio sync_read sync_write desktop_view desktop_control : ServiceKind

pub data GrantError : Type 0 where
  malformed untrusted_issuer bad_signature wrong_subject wrong_audience tenant_mismatch : GrantError
  policy_revision_stale version invalid_interval invalid_revision invalid_renewal : GrantError
  not_yet_valid expired oversized : GrantError
  ttl_exceeded : ℕ → GrantError

pub record GrantConstraints : Type 0 where
  pub max_bps : Option ℕ
  pub tcp_ports : Option (List ℕ)
  pub displays : Option (List ℕ)
  pub sync_paths : Option (List (List ℕ))

pub record GrantPayload : Type 0 where
  pub version : ℕ
  pub revision : ℕ
  pub issuer : ℕ
  pub subject : ℕ
  pub audience : ℕ
  pub nonce : ℕ
  pub services : List ServiceKind
  pub not_before : ℕ
  pub expires_at : ℕ
  pub constraints : GrantConstraints
  pub tenant : Option (List ℕ)
  pub policy_revision : Option ℕ

-- The frozen layout of version 2.
pub record GrantConstraintsV2 : Type 0 where
  pub max_bps : Option ℕ
  pub tcp_ports : Option (List ℕ)
  pub displays : Option (List ℕ)

pub record GrantPayloadV2 : Type 0 where
  pub version : ℕ
  pub revision : ℕ
  pub issuer : ℕ
  pub subject : ℕ
  pub audience : ℕ
  pub nonce : ℕ
  pub services : List ServiceKind
  pub not_before : ℕ
  pub expires_at : ℕ
  pub constraints : GrantConstraintsV2

pub record Grant : Type 0 where
  pub payload : List ℕ
  pub signature : List ℕ

pub record VerifiedGrant : Type 0 where
  pub payload : GrantPayload
  pub id : ℕ

-- postcard: each function decodes a prefix of the bytes, and returns what is left of them.
pub record Wire : Type 0 where
  pub take_u16 : List ℕ → Option (ℕ × List ℕ)
  pub take_v2 : List ℕ → Option (GrantPayloadV2 × List ℕ)
  pub take_v3 : List ℕ → Option (GrantPayload × List ℕ)

abbrev pub skew_secs : ℕ
skew_secs = 30

abbrev pub grant_version : ℕ
grant_version = 3

abbrev pub grant_version_min : ℕ
grant_version_min = 2

abbrev pub max_payload_len : ℕ
max_payload_len = 4096

abbrev pub max_services : ℕ
max_services = 32

abbrev pub max_tcp_ports : ℕ
max_tcp_ports = 128

abbrev pub max_displays : ℕ
max_displays = 32

abbrev pub max_tenant_len : ℕ
max_tenant_len = 64

abbrev pub max_sync_paths : ℕ
max_sync_paths = 64

abbrev pub max_scope_path_len : ℕ
max_scope_path_len = 512
