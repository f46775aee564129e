-- ===== src/Discovery/Policy.antt =====
-- crates/rds-discovery/src/policy.rs: the state of the policy store, what it requires of a snapshot,
-- and its check of a state that it reads back. The decoders of postcard are parameters.
pub mod Store
use remote_device_sync.Base.{
  ℕ, ◌+◌, Bool, true, false, ◌||◌, ◌&&◌, not, List, [], ◌∷◌, ◌++◌, Option, none, some, leb, ltb,
  ◌==◌, if◌then◌else◌, length, bytes_eq, is_some_and, Result, ok, err, ensure, ok_or, ◌>>=◌, ◌>>◌,
}
use remote_device_sync.Base.ByteMap.{ByteMap, get, put, all_keys}
use remote_device_sync.Crypto.{Crypto}
use remote_device_sync.Discovery.{
  DiscoveryError, bad_signature, expired, stale, not_found, invalid_record, store, as_secs,
}
use remote_device_sync.Discovery.Authority
use remote_device_sync.Discovery.Authority.{
  Authority, SnapshotStamp, SignedRotation, RotationPayload, authority_eq, newer_than,
  verifying_key,
}
use remote_device_sync.Discovery.Clock.{Reading, Lease, new, valid_at, matches_interval}
use remote_device_sync.Discovery.Registry.{
  SignedNameBinding, NameBindingPayload, SignedRegistry, RegistryPayload, valid_name,
  check_lifetime, stamp_eq, verify_name, verify_committed, verify_registry,
}
use remote_device_sync.Discovery.Revocations
use remote_device_sync.Discovery.Revocations.{SignedRevocations, RevocationPayload}

pub record Decoders : Type 0 where
  pub crypto : Crypto
  pub rotation : List ℕ → Option RotationPayload
  pub revocation : List ℕ → Option RevocationPayload
  pub registry : List ℕ → Option RegistryPayload
  pub binding : List ℕ → Option NameBindingPayload

pub record Names : Type 0 where
  pub anchor : SignedNameBinding
  pub hashes : ByteMap ℕ

pub record State : Type 0 where
  pub format : ℕ
  pub bootstrap : Authority
  pub authority : Authority
  pub rotations : List SignedRotation
  pub wall_floor : ℕ
  pub registry : Option SignedRegistry
  pub revocations : Option SignedRevocations
  pub names : Option Names
  pub registry_lease : Option Lease
  pub revocations_lease : Option Lease
  pub names_lease : Option Lease

abbrev pub max_rotations : ℕ
max_rotations = 16

abbrev pub max_names : ℕ
max_names = 1024

-- The state of `PolicyStore::memory`.
abbrev pub initial : Authority → State
initial bootstrap = record {
  format = 1;
  bootstrap = bootstrap;
  authority = bootstrap;
  rotations = [];
  wall_floor = 0;
  registry = none;
  revocations = none;
  names = none;
  registry_lease = none;
  revocations_lease = none;
  names_lease = none;
}

unfoldable pub check_stamp : State → SnapshotStamp → Result DiscoveryError (Unit {0})
check_stamp st stamp = ensure (authority_eq stamp.authority st.authority) bad_signature

-- `rotations.contains(receipt)`.
abbrev pub rotation_eq : SignedRotation → SignedRotation → Bool
rotation_eq r s =
    bytes_eq r.payload s.payload
    && bytes_eq r.previous_signature s.previous_signature
    && bytes_eq r.next_signature s.next_signature

unfoldable pub contains_rotation : SignedRotation → List SignedRotation → Bool
contains_rotation r [] = false
contains_rotation r (s ∷ ss) = rotation_eq s r || contains_rotation r ss

abbrev pub is_valid_at : Option Lease → Reading → Bool
is_valid_at lease now = is_some_and lease (λ l. valid_at l now)

abbrev pub matches : Option Lease → ℕ → ℕ → Bool
matches lease issued expires = is_some_and lease (λ l. matches_interval l issued expires)

module _ (dec : Decoders) where
  -- The loop of `validate` over the receipts.
  unfoldable pub replay : List SignedRotation → Authority → Result DiscoveryError Authority
  replay [] authority = ok authority
  replay (r ∷ rs) authority = do
    transition ← Authority.verify_committed dec.crypto dec.rotation r authority
    replay rs transition.next

  unfoldable pub validate_chain : State → Authority → Result DiscoveryError ℕ
  validate_chain st bootstrap = do
    ensure
        (not (
          not (st.format == 1)
          || not (authority_eq st.bootstrap bootstrap)
          || ltb max_rotations (length st.rotations)))
        invalid_record
    authority ← replay st.rotations bootstrap
    ensure (authority_eq st.authority authority) invalid_record
    verifying_key dec.crypto authority

  unfoldable pub validate_registry :
      State → ℕ → Option SignedRegistry → Result DiscoveryError (Unit {0})
  validate_registry st key none = ok tt
  validate_registry st key (some snap) = do
    payload ← verify_registry dec.crypto dec.binding dec.registry snap key
    check_stamp st payload.stamp
    ensure (matches st.registry_lease payload.issued_at payload.expires_at) invalid_record

  unfoldable pub validate_revocations :
      State → ℕ → Option SignedRevocations → Result DiscoveryError (Unit {0})
  validate_revocations st key none = ok tt
  validate_revocations st key (some snap) = do
    payload ← Revocations.verify dec.crypto dec.revocation snap key
    check_stamp st payload.stamp
    ensure (matches st.revocations_lease payload.issued_at payload.expires_at) invalid_record

  -- Whether the anchor's own digest is the one that its name has.
  abbrev pub holds_anchor : Names → NameBindingPayload → Bool
  holds_anchor names payload =
      is_some_and (get payload.name names.hashes) (λ h. h == dec.crypto.hash names.anchor.payload)

  unfoldable pub validate_names : State → ℕ → Option Names → Result DiscoveryError (Unit {0})
  validate_names st key none = ok tt
  validate_names st key (some names) = do
    payload ← verify_committed dec.crypto dec.binding names.anchor key
    check_stamp st payload.stamp
    ensure (matches st.names_lease payload.issued_at payload.expires_at) invalid_record
    ensure
        (not (
          ltb max_names (length names.hashes)
          || not (all_keys valid_name names.hashes)
          || not (holds_anchor names payload)))
        invalid_record

  unfoldable pub validate : State → Authority → Result DiscoveryError (Unit {0})
  validate st bootstrap = do
    key ← validate_chain st bootstrap
    validate_registry st key st.registry
    validate_revocations st key st.revocations
    validate_names st key st.names

  -- Whether a snapshot replaces the one before: not when it is the same, and an error when it is
  -- not newer.
  unfoldable pub replaces_registry :
      ℕ → SignedRegistry → RegistryPayload → Option SignedRegistry → Result DiscoveryError Bool
  replaces_registry key snap payload none = ok true
  replaces_registry key snap payload (some previous) = do
    old ← verify_registry dec.crypto dec.binding dec.registry previous key
    if stamp_eq old.stamp payload.stamp && bytes_eq previous.payload snap.payload
        then ok false
        else (newer_than payload.stamp old.stamp >> ok true)

  unfoldable pub replaces_revocations :
      ℕ
      → SignedRevocations
      → RevocationPayload
      → Option SignedRevocations
      → Result DiscoveryError Bool
  replaces_revocations key snap payload none = ok true
  replaces_revocations key snap payload (some previous) = do
    old ← Revocations.verify dec.crypto dec.revocation previous key
    if stamp_eq old.stamp payload.stamp && bytes_eq previous.payload snap.payload
        then ok false
        else (newer_than payload.stamp old.stamp >> ok true)

  unfoldable pub add_name :
      List ℕ → SignedNameBinding → Names → State → Result DiscoveryError (Option State)
  add_name name snap names st = do
    ensure (not (leb max_names (length names.hashes))) invalid_record
    ok (
        some (record st {
          names = some (record {
            anchor = snap;
            hashes = put name (dec.crypto.hash snap.payload) names.hashes;
          });
        }))

  -- A name of the snapshot that the store already holds.
  unfoldable pub join_names :
      List ℕ
      → SignedNameBinding
      → NameBindingPayload
      → NameBindingPayload
      → Names
      → Reading
      → State
      → Result DiscoveryError (Option State)
  join_names name snap payload old names now st = do
    ensure (is_valid_at st.names_lease now) expired
    ensure
        (not (
          not (old.registry_digest == payload.registry_digest)
          || not (old.issued_at == payload.issued_at)
          || not (old.expires_at == payload.expires_at)))
        stale
    elim (get name names.hashes) [
      | some previous ↦ if previous == dec.crypto.hash snap.payload then ok none else err stale
      | none ↦ add_name name snap names st
    ]

  -- The state that `accept_name` commits, before the wall floor; nothing for a name it holds.
  unfoldable pub next_names :
      ℕ
      → List ℕ
      → SignedNameBinding
      → NameBindingPayload
      → Reading
      → State
      → Option Names
      → Result DiscoveryError (Option State)
  next_names key name snap payload now st none = do
    lease ← new payload.issued_at payload.expires_at now
    ok (
        some (record st {
          names_lease = some lease;
          names =
              some (record { anchor = snap; hashes = (name, dec.crypto.hash snap.payload) ∷ [] });
        }))
  next_names key name snap payload now st (some names) = do
    old ← verify_committed dec.crypto dec.binding names.anchor key
    if stamp_eq old.stamp payload.stamp then join_names name snap payload old names now st else (do
      newer_than payload.stamp old.stamp
      lease ← new payload.issued_at payload.expires_at now
      add_name name snap (record names { hashes = [] }) (record st { names_lease = some lease }))
