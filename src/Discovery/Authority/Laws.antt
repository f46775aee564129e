-- ===== src/Discovery/Authority/Laws.antt =====
-- What a verified rotation (crates/rds-discovery/src/authority.rs) establishes, and chains of them.
use remote_device_sync.Base.{
  ℕ, ◌+◌, ◌-◌, ◌≤◌, ◌<◌, ◌≡◌, ◌≢◌, true, ◌++◌, List, Option, some, ok, arith,
}
use remote_device_sync.Crypto.{Crypto}
use remote_device_sync.Discovery.Authority.{
  Authority, lifetime, SignedRotation, RotationPayload, rotation_domain, verifying_key, verify,
  verify_at,
}

-- A step from one authority to the next that both keys have signed.
pub record IsTransition (crypto : Crypto) (r : SignedRotation) (current : Authority)
    (p : RotationPayload) : Type 0 where
  pub from : p.previous ≡ current
  pub epoch : p.next.epoch ≡ current.epoch + 1
  pub fresh_key : p.next.key ≢ current.key
  pub signed_by_previous :
      crypto.verify_strict current.key (rotation_domain ++ r.payload) r.previous_signature ≡ true
  pub signed_by_next :
      crypto.verify_strict p.next.key (rotation_domain ++ r.payload) r.next_signature ≡ true
  pub interval : p.issued_at < p.expires_at
  pub short : p.expires_at - p.issued_at ≤ 3600

module _ (crypto : Crypto) (from_bytes : List ℕ → Option RotationPayload) where
  -- A receipt that verifies at a time is decoded from its bytes, moves from the current authority
  -- to the next epoch under another key, carries the signatures of both keys, and is valid at that
  -- time and for at most an hour.
  pub verify_at-IsTransition :
      (r : SignedRotation) (current : Authority) (now : ℕ) (p : RotationPayload)
      → verify_at crypto from_bytes r current now ≡ ok p
      → (from_bytes r.payload ≡ some p)
        × IsTransition crypto r current p
        × (p.issued_at ≤ now)
        × (now < p.expires_at)
  unfolding verify_at verifying_key verify lifetime
  verify_at-IsTransition r current now p h = ground arith
