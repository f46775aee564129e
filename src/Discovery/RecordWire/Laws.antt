-- ===== src/Discovery/RecordWire/Laws.antt =====
-- What the verification of a signed record or deletion (crates/rds-discovery/src/record_wire.rs)
-- establishes.
use remote_device_sync.Base.{
  ◌+◌, ◌≤◌, ◌<◌, ◌≡◌, Bool, true, false, List, [], ◌∷◌, ◌++◌, some, length, any, bytes_eq, ok,
  arith,
}
use remote_device_sync.Discovery.Authority
use remote_device_sync.Discovery.Wire.{
  EndpointRecord, Payload, DeleteRequest, DeletePayload, Libraries,
}
use remote_device_sync.Discovery.RecordWire.{
  metadata, is_unusable, addr_eq, service_eq, check_each, is_bad_relay, validate, check_version,
  verify_record, verify_delete, record_domain, delete_domain,
}

-- Of each element: it is not bad, and no element before it is equal to it.
abbrev pub Distinct {ℓ} : {A : Type ℓ} → (A → A → Bool) → (A → Bool) → List A → List A → Type 0
Distinct eq bad seen [] = Unit
Distinct eq bad seen (x ∷ xs) =
    (bad x ≡ false) × (any (λ y. eq y x) seen ≡ false) × Distinct eq bad (seen ++ (x ∷ [])) xs

check_each-Distinct {ℓ} :
    {A : Type ℓ} (eq : A → A → Bool) (bad : A → Bool) (seen xs : List A)
    → check_each eq bad seen xs ≡ ok tt
    → Distinct eq bad seen xs
unfolding check_each
check_each-Distinct eq bad seen [] h = tt
check_each-Distinct eq bad seen (x ∷ xs) h =
    (ground arith, ground arith, check_each-Distinct eq bad (seen ++ (x ∷ [])) xs (ground arith))

-- A payload of the supported version whose collections are bounded, distinct and usable.
pub record IsUsable (lib : Libraries) (p : Payload) : Type 0 where
  pub version : p.version ≡ 1
  pub revised : 0 < p.revision
  pub interval : p.issued_at < p.expires_at
  pub short : p.expires_at ≤ p.issued_at + 3600
  pub addrs_bounded : length p.addrs ≤ 32
  pub relays_bounded : length p.relay_urls ≤ 8
  pub services_bounded : length p.services ≤ 6
  pub addrs : Distinct addr_eq is_unusable [] p.addrs
  pub relays : Distinct bytes_eq (is_bad_relay lib) [] p.relay_urls
  pub services : Distinct service_eq (λ s. false) [] p.services

module _ (lib : Libraries) where
  validate-IsUsable : (p : Payload) → validate lib p ≡ ok tt → IsUsable lib p
  validate-IsUsable p h = record {
    version = unfold validate metadata in ground arith;
    revised = unfold validate metadata in ground arith;
    interval = unfold validate metadata in ground arith;
    short = unfold validate metadata in ground arith;
    addrs_bounded = unfold validate in ground arith;
    relays_bounded = unfold validate in ground arith;
    services_bounded = unfold validate in ground arith;
    addrs = check_each-Distinct addr_eq is_unusable [] p.addrs (unfold validate in ground arith);
    relays =
        check_each-Distinct bytes_eq (is_bad_relay lib) [] p.relay_urls
          (unfold validate in ground arith);
    services =
        check_each-Distinct service_eq (λ s. false) [] p.services (unfold validate in ground arith);
  }

  -- A record that verifies carries a strict signature of its own key over its domain and bytes,
  -- is at most 8192 bytes long, and decodes whole to a payload of that key with a positive revision,
  -- a lifetime of at most an hour, and bounded lists of distinct usable addresses, relays and
  -- services.
  pub verify_record-IsUsable :
      (r : EndpointRecord) (p : Payload)
      → verify_record lib r ≡ ok p
      → (lib.crypto.verify_strict r.key (record_domain ++ r.payload) r.signature ≡ true)
        × (length r.payload ≤ 8192)
        × (lib.take_payload r.payload ≡ some (p, []))
        × (p.key ≡ r.key)
        × IsUsable lib p
  unfolding verify_record Authority.verify check_version
  verify_record-IsUsable r p h =
      (ground arith, ground arith, ground arith, ground arith, validate-IsUsable p (ground arith))

  -- A deletion that verifies carries a strict signature of its own key over its domain and bytes,
  -- and decodes whole to a payload of that key with a positive revision and a lifetime of at most
  -- five minutes.
  pub verify_delete-bounds :
      (r : DeleteRequest) (p : DeletePayload)
      → verify_delete lib r ≡ ok p
      → (lib.crypto.verify_strict r.key (delete_domain ++ r.payload) r.signature ≡ true)
        × (lib.take_delete r.payload ≡ some (p, []))
        × (p.key ≡ r.key)
        × (0 < p.revision)
        × (p.issued_at < p.expires_at)
        × (p.expires_at ≤ p.issued_at + 300)
  unfolding verify_delete Authority.verify check_version metadata
  verify_delete-bounds r p h = ground arith
