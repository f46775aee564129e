-- ===== src/Discovery.antt =====
-- crates/rds-discovery: the signed directory. Durations are in nanoseconds, as in
-- `std::time::Duration`; wall seconds are `nanoseconds / 10 ^ 9`.
pub mod Clock
pub mod Wire
pub mod Authority
pub mod RecordWire
pub mod Records
pub mod Revocations
pub mod Registry
pub mod Policy
pub mod Admission
mod Tests
use remote_device_sync.Base.{ℕ, ◌*◌, ◌/◌, ◌^◌, ◌-◌}

-- The variants of `DiscoveryError` that the modelled code returns, without their messages.
pub data DiscoveryError : Type 0 where
  bad_signature expired stale not_found busy rate_limited : DiscoveryError
  invalid_record store configuration : DiscoveryError

-- `Duration::from_secs` and `Duration::as_secs`.
abbrev pub nanos : ℕ → ℕ
nanos secs = secs * 1000000000

abbrev pub as_secs : ℕ → ℕ
as_secs d = d / 1000000000

-- The largest `Duration`: u64::MAX seconds and 999,999,999 nanoseconds.
abbrev pub max_duration : ℕ
max_duration = 2 ^ 64 * 1000000000 - 1
