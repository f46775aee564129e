-- ===== src/Discovery/Authority.antt =====
-- crates/rds-discovery/src/authority.rs: authorities, snapshot stamps, lifetimes and rotations.
pub mod Laws
use remote_device_sync.Base.{
  ℕ, suc, ◌+◌, ◌-◌, Bool, true, false, ◌||◌, ◌&&◌, not, List, [], ◌∷◌, ◌++◌, Option, none, some,
  ltb, leb, ◌==◌, if◌then◌else◌, length, checked_add, Result, ok, err, ensure, ok_or, ◌>>=◌, ◌>>◌,
}
use remote_device_sync.Base.Text.{bytes}
use remote_device_sync.Crypto.{Crypto}
use remote_device_sync.Discovery.{DiscoveryError, bad_signature, expired, stale, invalid_record}

pub record Authority : Type 0 where
  pub key : ℕ
  pub epoch : ℕ

pub record SnapshotStamp : Type 0 where
  pub authority : Authority
  pub revision : ℕ

abbrev pub authority_eq : Authority → Authority → Bool
authority_eq a b = a.key == b.key && a.epoch == b.epoch

-- `SnapshotStamp::newer_than`.
unfoldable pub newer_than : SnapshotStamp → SnapshotStamp → Result DiscoveryError (Unit {0})
newer_than stamp previous =
    if not (authority_eq stamp.authority previous.authority) || leb stamp.revision previous.revision
    then err stale
    else ok tt

unfoldable pub lifetime : ℕ → ℕ → ℕ → ℕ → Result DiscoveryError (Unit {0})
lifetime issued expires now max_ttl =
    if ltb now issued || leb expires issued || ltb max_ttl (expires - issued)
    then err invalid_record
    else if leb expires now
    then err expired
    else ok tt

-- `SnapshotStamp::verify`, against the bytes of a valid key.
unfoldable pub verify_stamp : SnapshotStamp → ℕ → Result DiscoveryError (Unit {0})
verify_stamp stamp key =
    if stamp.revision == 0 || stamp.authority.epoch == 0
    then err invalid_record
    else if not (stamp.authority.key == key)
    then err bad_signature
    else ok tt

pub record SignedRotation : Type 0 where
  pub payload : List ℕ
  pub previous_signature : List ℕ
  pub next_signature : List ℕ

pub record RotationPayload : Type 0 where
  pub previous : Authority
  pub next : Authority
  pub issued_at : ℕ
  pub expires_at : ℕ

abbrev pub rotation_domain : List ℕ
rotation_domain = bytes "rds/authority-rotation/v1" ++ (0 ∷ [])

abbrev pub max_rotation_ttl : ℕ
max_rotation_ttl = 3600

module _ (crypto : Crypto) where
  -- `Authority::verifying_key`.
  unfoldable pub verifying_key : Authority → Result DiscoveryError ℕ
  verifying_key a =
      if a.epoch == 0
      then err invalid_record
      else if crypto.key_valid a.key
      then ok a.key
      else err invalid_record

  -- `authority::verify`.
  unfoldable pub verify : List ℕ → List ℕ → List ℕ → ℕ → ℕ → Result DiscoveryError (Unit {0})
  verify domain payload signature key limit = do
    ensure (not (ltb limit (length payload))) invalid_record
    ensure (length signature == 64) invalid_record
    ensure (crypto.verify_strict key (domain ++ payload) signature) bad_signature

  -- The test of `verify_at` on a decoded transition.
  abbrev pub is_bad_transition : Authority → RotationPayload → Bool
  is_bad_transition current p =
      not (authority_eq p.previous current)
      || not (current.epoch + 1 == p.next.epoch && ltb current.epoch 18446744073709551615)
      || p.next.key == current.key

  -- `postcard::from_bytes` is a parameter: it ignores what follows the value.
  module _ (from_bytes : List ℕ → Option RotationPayload) where
    -- `SignedRotation::verify_at`.
    unfoldable pub verify_at :
        SignedRotation → Authority → ℕ → Result DiscoveryError RotationPayload
    verify_at r current now = do
      key ← verifying_key current
      verify rotation_domain r.payload r.previous_signature key 1024
      payload ← ok_or (from_bytes r.payload) invalid_record
      ensure (not (is_bad_transition current payload)) invalid_record
      next_key ← verifying_key payload.next
      verify rotation_domain r.payload r.next_signature next_key 1024
      lifetime payload.issued_at payload.expires_at now max_rotation_ttl
      ok payload

    -- `SignedRotation::verify_committed`.
    unfoldable pub verify_committed :
        SignedRotation → Authority → Result DiscoveryError RotationPayload
    verify_committed r current = do
      key ← verifying_key current
      verify rotation_domain r.payload r.previous_signature key 1024
      payload ← ok_or (from_bytes r.payload) invalid_record
      verify_at r current payload.issued_at
