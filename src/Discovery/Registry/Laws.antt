-- ===== src/Discovery/Registry/Laws.antt =====
-- What a verified registry and a verified name (crates/rds-discovery/src/registry.rs) establish.
use remote_device_sync.Base.{ℕ, ◌≤◌, ◌<◌, ◌≡◌, true, List, Option, some, ok, arith}
use remote_device_sync.Base.ByteMap.{bytes_eq_refl, bytes_eq_sound}
use remote_device_sync.Crypto.{Crypto}
use remote_device_sync.Discovery.Authority
use remote_device_sync.Discovery.Authority.{verify_stamp, lifetime}
use remote_device_sync.Discovery.Registry.{
  SignedNameBinding, NameBindingPayload, SignedRegistry, RegistryPayload, valid_name,
  check_lifetime, verify_name, verify_committed, verify_registry,
}

module _ (crypto : Crypto) (from_bytes : List ℕ → Option NameBindingPayload) where
  pub verify_name-name :
      (proof : SignedNameBinding) (key : ℕ) (name : List ℕ) (now : ℕ) (p : NameBindingPayload)
      → verify_name crypto from_bytes proof key name now ≡ ok p
      → (p.name ≡ name)
        × (valid_name name ≡ true)
        × (from_bytes proof.payload ≡ some p)
        × (p.stamp.authority.key ≡ key)
        × (p.issued_at ≤ now)
        × (now < p.expires_at)
  unfolding verify_name verify_stamp check_lifetime lifetime
  verify_name-name proof key name now p h = ground (arith, bytes_eq_sound p.name name)

  -- A name that verified once verifies when the store is opened again.
  pub verify_name-committed :
      (proof : SignedNameBinding) (key : ℕ) (name : List ℕ) (now : ℕ) (p : NameBindingPayload)
      → verify_name crypto from_bytes proof key name now ≡ ok p
      → verify_committed crypto from_bytes proof key ≡ ok p
  unfolding verify_name verify_committed Authority.verify check_lifetime lifetime
  verify_name-committed proof key name now p h =
      ground (arith, bytes_eq_sound p.name name, bytes_eq_refl name)

  pub verify_committed-payload :
      (proof : SignedNameBinding) (key : ℕ) (p : NameBindingPayload)
      → verify_committed crypto from_bytes proof key ≡ ok p
      → from_bytes proof.payload ≡ some p
  unfolding verify_committed verify_name check_lifetime
  verify_committed-payload proof key p h = ground arith

  module _ (registry_from_bytes : List ℕ → Option RegistryPayload) where
    pub verify_registry-payload :
        (snap : SignedRegistry) (key : ℕ) (p : RegistryPayload)
        → verify_registry crypto from_bytes registry_from_bytes snap key ≡ ok p
        → registry_from_bytes snap.payload ≡ some p
    unfolding verify_registry
    verify_registry-payload snap key p h = ground arith
