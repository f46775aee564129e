-- ===== src/Discovery/Registry.antt =====
-- crates/rds-discovery/src/registry.rs: how a signed registry of device names, and the proof of one
-- of its names, are verified. A name is the list of its bytes, an endpoint's key a number.
pub mod Laws
use remote_device_sync.Base.{
  ℕ, ◌*◌, Bool, ◌||◌, ◌&&◌, not, List, [], ◌∷◌, ◌++◌, Option, leb, ltb, ◌==◌, if◌then◌else◌, length,
  bytes_eq, Result, ok, err, ensure, ok_or, ◌>>=◌, ◌>>◌,
}
use remote_device_sync.Base.ByteMap.{ByteMap, get}
use remote_device_sync.Base.Text.{bytes}
use remote_device_sync.Crypto.{Crypto}
use remote_device_sync.Discovery.{DiscoveryError, invalid_record, bad_signature}
use remote_device_sync.Discovery.Authority
use remote_device_sync.Discovery.Authority.{SnapshotStamp, authority_eq, verify_stamp, lifetime}

pub record SignedNameBinding : Type 0 where
  pub payload : List ℕ
  pub signature : List ℕ

pub record NameBindingPayload : Type 0 where
  pub stamp : SnapshotStamp
  pub registry_digest : ℕ
  pub version : ℕ
  pub name : List ℕ
  pub key : ℕ
  pub issued_at : ℕ
  pub expires_at : ℕ

pub record SignedRegistry : Type 0 where
  pub payload : List ℕ
  pub signature : List ℕ
  pub bindings : ByteMap SignedNameBinding

pub record RegistryPayload : Type 0 where
  pub stamp : SnapshotStamp
  pub entries : ByteMap ℕ
  pub issued_at : ℕ
  pub expires_at : ℕ

abbrev pub name_domain : List ℕ
name_domain = bytes "rds/name-binding/v2" ++ (0 ∷ [])

abbrev pub registry_domain : List ℕ
registry_domain = bytes "rds/registry/v2" ++ (0 ∷ [])

abbrev pub max_binding_bytes : ℕ
max_binding_bytes = 256

abbrev pub max_registry_names : ℕ
max_registry_names = 256

abbrev pub max_name_ttl : ℕ
max_name_ttl = 24 * 60 * 60

-- `http::MAX_BODY`.
abbrev pub max_body : ℕ
max_body = 256 * 1024

-- A lower-case letter, a digit or a dash.
abbrev pub is_label_byte : ℕ → Bool
is_label_byte b = (leb 97 b && leb b 122) || (leb 48 b && leb b 57) || b == 45

unfoldable pub all_label_bytes : List ℕ → Bool
all_label_bytes [] = Bool.true
all_label_bytes (b ∷ bs) = is_label_byte b && all_label_bytes bs

unfoldable pub valid_name : List ℕ → Bool
valid_name name = not (length name == 0) && leb (length name) 63 && all_label_bytes name

unfoldable pub check_lifetime : ℕ → ℕ → ℕ → Result DiscoveryError (Unit {0})
check_lifetime issued expires now = lifetime issued expires now max_name_ttl

-- `SnapshotStamp` equality.
abbrev pub stamp_eq : SnapshotStamp → SnapshotStamp → Bool
stamp_eq a b = authority_eq a.authority b.authority && a.revision == b.revision

module _ (crypto : Crypto) (binding_from_bytes : List ℕ → Option NameBindingPayload) where
  -- `SignedNameBinding::verify`.
  unfoldable pub verify_name :
      SignedNameBinding → ℕ → List ℕ → ℕ → Result DiscoveryError NameBindingPayload
  verify_name proof key name now = do
    ensure (not (not (valid_name name) || ltb max_binding_bytes (length proof.payload)))
        invalid_record
    ensure (length proof.signature == 64) invalid_record
    ensure (crypto.verify_strict key (name_domain ++ proof.payload) proof.signature) bad_signature
    payload ← ok_or (binding_from_bytes proof.payload) invalid_record
    verify_stamp payload.stamp key
    ensure (not (not (payload.version == 2) || not (bytes_eq payload.name name))) invalid_record
    check_lifetime payload.issued_at payload.expires_at now
    ok payload

  -- `SignedNameBinding::verify_committed`.
  unfoldable pub verify_committed : SignedNameBinding → ℕ → Result DiscoveryError NameBindingPayload
  verify_committed proof key = do
    Authority.verify crypto name_domain proof.payload proof.signature key max_binding_bytes
    payload ← ok_or (binding_from_bytes proof.payload) invalid_record
    verify_name proof key payload.name payload.issued_at

  -- Whether a name's proof says something else than the registry.
  abbrev pub disagrees : NameBindingPayload → ℕ → RegistryPayload → ℕ → Bool
  disagrees binding endpoint payload digest =
      not (binding.key == endpoint)
      || not (stamp_eq binding.stamp payload.stamp)
      || not (binding.registry_digest == digest)
      || not (binding.issued_at == payload.issued_at)
      || not (binding.expires_at == payload.expires_at)

  -- The loop of `SignedRegistry::verify` over the entries.
  unfoldable pub check_proofs :
      ByteMap SignedNameBinding
      → ℕ
      → RegistryPayload
      → ℕ
      → ByteMap ℕ
      → Result DiscoveryError (Unit {0})
  check_proofs bindings key payload digest [] = ok tt
  check_proofs bindings key payload digest ((name, endpoint) ∷ entries) = do
    proof ← ok_or (get name bindings) invalid_record
    binding ← verify_name proof key name payload.issued_at
    ensure (not (disagrees binding endpoint payload digest)) invalid_record
    check_proofs bindings key payload digest entries

  module _ (from_bytes : List ℕ → Option RegistryPayload) where
    -- `SignedRegistry::verify`.
    unfoldable pub verify_registry : SignedRegistry → ℕ → Result DiscoveryError RegistryPayload
    verify_registry snap key = do
      ensure
          (not
            (ltb max_body (length snap.payload) || ltb max_registry_names (length snap.bindings)))
          invalid_record
      Authority.verify crypto registry_domain snap.payload snap.signature key max_body
      payload ← ok_or (from_bytes snap.payload) invalid_record
      verify_stamp payload.stamp key
      check_lifetime payload.issued_at payload.expires_at payload.issued_at
      ensure (length payload.entries == length snap.bindings) invalid_record
      check_proofs snap.bindings key payload (crypto.hash snap.payload) payload.entries
      ok payload
