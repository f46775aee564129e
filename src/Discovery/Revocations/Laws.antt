-- ===== src/Discovery/Revocations/Laws.antt =====
-- What a verified revocation snapshot (crates/rds-discovery/src/revocations.rs) establishes.
use remote_device_sync.Base.{
  ℕ, ◌-◌, ◌≤◌, ◌<◌, ◌≡◌, true, List, Option, some, ◌++◌, length, ok, arith,
}
use remote_device_sync.Crypto.{Crypto}
use remote_device_sync.Discovery.Authority
use remote_device_sync.Discovery.Authority.{verify_stamp, lifetime}
use remote_device_sync.Discovery.Revocations.{
  SignedRevocations, RevocationPayload, revocation_domain, verify, verify_at,
}

pub record IsIssued (crypto : Crypto) (snap : SignedRevocations) (key : ℕ) (p : RevocationPayload)
    : Type 0 where
  pub signed : crypto.verify_strict key (revocation_domain ++ snap.payload) snap.signature ≡ true
  pub authority : p.stamp.authority.key ≡ key
  pub few : length p.revoked ≤ 1024
  pub interval : p.issued_at < p.expires_at
  pub short : p.expires_at - p.issued_at ≤ 300

module _ (crypto : Crypto) (from_bytes : List ℕ → Option RevocationPayload) where
  pub verify-IsIssued :
      (snap : SignedRevocations) (key : ℕ) (p : RevocationPayload)
      → verify crypto from_bytes snap key ≡ ok p
      → (from_bytes snap.payload ≡ some p) × IsIssued crypto snap key p
  unfolding verify Authority.verify verify_stamp lifetime
  verify-IsIssued snap key p h = ground arith

  -- Verification at a time is verification, and a test of the time.
  pub verify_at-verify :
      (snap : SignedRevocations) (key now : ℕ) (p : RevocationPayload)
      → verify_at crypto from_bytes snap key now ≡ ok p
      → (verify crypto from_bytes snap key ≡ ok p) × (p.issued_at ≤ now) × (now < p.expires_at)
  unfolding verify_at lifetime
  verify_at-verify snap key now p h = ground arith
