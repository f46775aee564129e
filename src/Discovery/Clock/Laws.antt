-- ===== src/Discovery/Clock/Laws.antt =====
-- When a lease of crates/rds-discovery/src/clock.rs is valid, and how long it still runs.
use remote_device_sync.Base.{ℕ, ◌+◌, ◌-◌, ◌≤◌, ◌<◌, ◌≡◌, true, ok, arith}
use remote_device_sync.Discovery.{nanos, as_secs}
use remote_device_sync.Discovery.Clock.{
  Reading, Lease, new, valid_at, remaining_at, matches_interval,
}

-- What a new lease records. Its deadline lies as far ahead on the monotonic clock as the signed
-- expiry lies ahead on the wall clock.
pub record Fresh (issued expires : ℕ) (now : Reading) (l : Lease) : Type 0 where
  pub boot : l.boot ≡ now.boot
  pub issued_at : l.issued_at ≡ issued
  pub expires_at : l.expires_at ≡ expires
  pub accepted_wall : l.accepted_wall ≡ now.wall
  pub accepted_continuous : l.accepted_continuous ≡ now.continuous
  pub begun : issued ≤ as_secs now.wall
  pub running : now.wall < nanos expires
  pub deadline : l.deadline + now.wall ≡ now.continuous + nanos expires

pub new-Fresh :
    (issued expires : ℕ) (now : Reading) (l : Lease)
    → new issued expires now ≡ ok l
    → Fresh issued expires now l
unfolding new
new-Fresh issued expires now l h = ground arith

-- A new lease is valid at once, agrees with the signed interval, and runs to the signed expiry.
pub new-valid_at :
    (issued expires : ℕ) (now : Reading) (l : Lease)
    → new issued expires now ≡ ok l
    → (valid_at l now ≡ true)
      × (matches_interval l issued expires ≡ true)
      × (remaining_at l now ≡ nanos expires - now.wall)
unfolding valid_at matches_interval remaining_at
new-valid_at issued expires now l h =
    let f = new-Fresh issued expires now l h in (ground arith, ground arith, ground arith)

-- A lease is extended by neither clock: whatever the wall clock shows later, a lease is dead from
-- the moment the monotonic clock has advanced by the time that was left, and whatever the monotonic
-- clock shows, from the signed expiry on; at another boot it is dead at once.
pub new-bounded :
    (issued expires : ℕ) (now later : Reading) (l : Lease)
    → new issued expires now ≡ ok l
    → valid_at l later ≡ true
    → (later.boot ≡ now.boot)
      × (now.wall ≤ later.wall)
      × (now.continuous ≤ later.continuous)
      × (later.wall < nanos expires)
      × (later.continuous + now.wall < now.continuous + nanos expires)
unfolding valid_at
new-bounded issued expires now later l h v =
    let f = new-Fresh issued expires now l h in ground arith

-- A lease stays valid for as long as it says is left: at each later reading of the same boot at which
-- neither clock has advanced by the remaining time.
pub remaining_at-valid_at :
    (l : Lease) (now later : Reading)
    → later.boot ≡ now.boot
    → now.wall ≤ later.wall
    → now.continuous ≤ later.continuous
    → later.wall < now.wall + remaining_at l now
    → later.continuous < now.continuous + remaining_at l now
    → valid_at l later ≡ true
unfolding valid_at remaining_at
remaining_at-valid_at l now later b w c p q = ground arith
