-- ===== src/Discovery/Clock.antt =====
-- crates/rds-discovery/src/clock.rs: a lease on signed data is held to the wall clock and to a
-- monotonic clock of the same boot.
pub mod Laws
use remote_device_sync.Base.{
  ℕ, ◌+◌, ◌-◌, ◌≤◌, ◌<◌, Bool, true, false, ◌&&◌, not, Option, some, none, ltb, leb, ◌==◌, min,
  if◌then◌else◌, checked_sub, Result, ok, err, ensure, ok_or, ◌>>=◌, ◌>>◌,
}
use remote_device_sync.Discovery.{
  DiscoveryError, expired, invalid_record, nanos, as_secs, max_duration,
}

pub record Reading : Type 0 where
  pub boot : ℕ
  pub wall : ℕ
  pub continuous : ℕ

pub record Lease : Type 0 where
  pub boot : ℕ
  pub issued_at : ℕ
  pub expires_at : ℕ
  pub accepted_wall : ℕ
  pub accepted_continuous : ℕ
  pub deadline : ℕ

-- `Duration::checked_add`.
abbrev pub checked_add_duration : ℕ → ℕ → Option ℕ
checked_add_duration a b = if leb (a + b) max_duration then some (a + b) else none

-- `Option::filter(|d| !d.is_zero())`.
abbrev pub nonzero : Option ℕ → Option ℕ
nonzero none = none
nonzero (some d) = if d == 0 then none else some d

unfoldable pub new : ℕ → ℕ → Reading → Result DiscoveryError Lease
new issued_at expires_at now = do
  ensure (leb issued_at (as_secs now.wall)) invalid_record
  remaining ← ok_or (nonzero (checked_sub (nanos expires_at) now.wall)) expired
  deadline ← ok_or (checked_add_duration now.continuous remaining) invalid_record
  ok (record {
    boot = now.boot;
    issued_at = issued_at;
    expires_at = expires_at;
    accepted_wall = now.wall;
    accepted_continuous = now.continuous;
    deadline = deadline;
  })

unfoldable pub valid_at : Lease → Reading → Bool
valid_at l now =
    now.boot == l.boot
    && leb l.accepted_wall now.wall
    && leb l.issued_at (as_secs now.wall)
    && ltb (as_secs now.wall) l.expires_at
    && leb l.accepted_continuous now.continuous
    && ltb now.continuous l.deadline

unfoldable pub remaining_at : Lease → Reading → ℕ
remaining_at l now =
    if not (valid_at l now)
    then 0
    else min (nanos l.expires_at - now.wall) (l.deadline - now.continuous)

abbrev pub option_eq : Option ℕ → Option ℕ → Bool
option_eq none none = true
option_eq (some a) (some b) = a == b
option_eq _ _ = false

unfoldable pub matches_interval : Lease → ℕ → ℕ → Bool
matches_interval l issued expires =
    l.issued_at == issued
    && l.expires_at == expires
    && leb issued (as_secs l.accepted_wall)
    && ltb (as_secs l.accepted_wall) expires
    && option_eq (checked_sub l.deadline l.accepted_continuous)
        (checked_sub (nanos expires) l.accepted_wall)
