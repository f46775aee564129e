-- ===== src/Discovery/Revocations.antt =====
-- crates/rds-discovery/src/revocations.rs: how a signed snapshot of revoked grants is verified.
pub mod Laws
use remote_device_sync.Base.{
  ℕ, ◌*◌, not, List, [], ◌∷◌, ◌++◌, Option, ltb, length, Result, ok, ensure, ok_or, ◌>>=◌, ◌>>◌,
}
use remote_device_sync.Base.Text.{bytes}
use remote_device_sync.Crypto.{Crypto}
use remote_device_sync.Discovery.{DiscoveryError, invalid_record}
use remote_device_sync.Discovery.Authority
use remote_device_sync.Discovery.Authority.{SnapshotStamp, verify_stamp, lifetime}

-- A grant's hash is a number; the `BTreeSet` of them is a list.
pub record SignedRevocations : Type 0 where
  pub payload : List ℕ
  pub signature : List ℕ

pub record RevocationPayload : Type 0 where
  pub stamp : SnapshotStamp
  pub revoked : List ℕ
  pub issued_at : ℕ
  pub expires_at : ℕ

abbrev pub revocation_domain : List ℕ
revocation_domain = bytes "rds/revocations/v1" ++ (0 ∷ [])

abbrev pub max_revocation_ttl : ℕ
max_revocation_ttl = 300

abbrev pub max_revoked_grants : ℕ
max_revoked_grants = 1024

abbrev pub max_revocation_payload : ℕ
max_revocation_payload = 40 * 1024

module _ (crypto : Crypto) (from_bytes : List ℕ → Option RevocationPayload) where
  unfoldable pub verify : SignedRevocations → ℕ → Result DiscoveryError RevocationPayload
  verify snap key = do
    Authority.verify crypto revocation_domain snap.payload snap.signature key max_revocation_payload
    payload ← ok_or (from_bytes snap.payload) invalid_record
    verify_stamp payload.stamp key
    ensure (not (ltb max_revoked_grants (length payload.revoked))) invalid_record
    lifetime payload.issued_at payload.expires_at payload.issued_at max_revocation_ttl
    ok payload

  unfoldable pub verify_at : SignedRevocations → ℕ → ℕ → Result DiscoveryError RevocationPayload
  verify_at snap key now = do
    payload ← verify snap key
    lifetime payload.issued_at payload.expires_at now max_revocation_ttl
    ok payload
