-- ===== src/Grant/Tests.antt =====
-- Runs of crates/rds-core/src/grant.rs on a small grant, with stand-ins for the libraries: every key
-- is valid, a signature counts if it has 64 bytes, and the first byte of a payload is its version.
use remote_device_sync.Base.{
  ℕ, zero, suc, ◌≡◌, refl, ◌↔◌, true, false, List, [], ◌∷◌, Option, none, some, Result, ok, length,
  any, All, ◌==◌, ℕ_discrete,
}
use remote_device_sync.Base.Text.{be_bytes}
use remote_device_sync.Crypto.{Crypto}
use remote_device_sync.Grant.{
  ServiceKind, sync, GrantPayload, Grant, VerifiedGrant, Wire, wrong_audience, expired,
}
use remote_device_sync.Grant.Scope.{
  check_scope_path, components, split, count_components, body_components,
}
use remote_device_sync.Grant.Scope.Confined.{IsPlain, is_normal, check_scope_path-confined}
use remote_device_sync.Grant.Verify.{
  signature_message, check_paths, check_all_paths, check_payload, take_payload, payload_id, decode,
  check_grant, verify,
}
use remote_device_sync.Grant.Verify.Admits.{
  Admits, WellFormed, verify-iff-Admits, decode-WellFormed,
}
use remote_device_sync.Grant.Verified.{
  ServiceKind-discrete, services-discrete, GrantConstraints-discrete, tenant-discrete,
  revision-discrete, GrantPayload-discrete, Component-discrete, permits_renewal, permits_service,
  permits_sync_read, permits_sync_write, permits_desktop_control, permits_port, permits_display,
  permits_sync_path, starts_with, path_eq,
}
use remote_device_sync.Grant.Verified.Renewal.{
  original, renewed, Extends, Renewed-Extends, Renewed-permits,
}
use remote_device_sync.Grant.Verified.Permits.{IsUnder, permits_sync_path-IsUnder}

abbrev zeros : ℕ → List ℕ
zeros zero = []
zeros (suc n) = 0 ∷ zeros n

-- "a/b" and "a/b/c".
abbrev scope : List ℕ
scope = 97 ∷ 47 ∷ 98 ∷ []

abbrev below : List ℕ
below = 97 ∷ 47 ∷ 98 ∷ 47 ∷ 99 ∷ []

abbrev payload : GrantPayload
payload = record {
  version = 3;
  revision = 1;
  issuer = 7;
  subject = 8;
  audience = 9;
  nonce = 5;
  services = sync ∷ [];
  not_before = 1000;
  expires_at = 1600;
  constraints = record {
    max_bps = none;
    tcp_ports = none;
    displays = none;
    sync_paths = some (scope ∷ []);
  };
  tenant = none;
  policy_revision = none;
}

abbrev later : GrantPayload
later = record payload { revision = 2; nonce = 5; not_before = 1100; expires_at = 1700 }

abbrev grant : Grant
grant = record { payload = 3 ∷ []; signature = zeros 64 }

abbrev crypto : Crypto
crypto = record {
  key_valid = λ k. true;
  key_weak = λ k. false;
  verify_strict = λ k m s. length s == 64;
  hash = λ m. length m;
}

abbrev first_byte : List ℕ → Option (ℕ × List ℕ)
first_byte [] = none
first_byte (b ∷ bs) = some (b, bs)

abbrev wire : Wire
wire = record { take_u16 = first_byte; take_v2 = λ b. none; take_v3 = λ b. some (payload, []) }

abbrev verified : VerifiedGrant
verified = record { payload = payload; id = 133 }

-- The renewal of `verified`.
abbrev next : VerifiedGrant
next = record verified { payload = later }

check_scope_path-confined_example :
    All IsPlain (components scope) × (any is_normal (components scope) ≡ true)
unfolding check_scope_path split count_components
check_scope_path-confined_example = check_scope_path-confined scope refl

decode-WellFormed_example : WellFormed grant payload
unfolding decode take_payload check_payload check_all_paths check_paths check_scope_path split
    count_components
decode-WellFormed_example = decode-WellFormed wire grant payload refl

verify-iff-Admits_example : (verify crypto wire (7 ∷ []) 8 9 600 1200 grant ≡ ok verified) ↔ (
    (decode wire grant ≡ ok payload)
    × (verified.id ≡ payload_id crypto payload)
    × Admits crypto (7 ∷ []) 8 9 600 1200 grant payload)
verify-iff-Admits_example = verify-iff-Admits crypto wire (7 ∷ []) 8 9 600 1200 grant verified

verify_run : verify crypto wire (7 ∷ []) 8 9 600 1200 grant ≡ ok verified
unfolding verify check_grant decode take_payload check_payload check_all_paths check_paths
    check_scope_path split count_components payload_id signature_message be_bytes
verify_run = refl

wrong_device : verify crypto wire (7 ∷ []) 8 10 600 1200 grant ≡ Result.err wrong_audience
unfolding verify check_grant decode take_payload check_payload check_all_paths check_paths
    check_scope_path split count_components payload_id signature_message be_bytes
wrong_device = refl

too_late : verify crypto wire (7 ∷ []) 8 9 600 1600 grant ≡ Result.err expired
unfolding verify check_grant decode take_payload check_payload check_all_paths check_paths
    check_scope_path split count_components payload_id signature_message be_bytes
too_late = refl

permits_sync_path-IsUnder_example : IsUnder (scope ∷ []) below
unfolding permits_sync_path components starts_with path_eq split body_components Component-discrete
    ℕ_discrete
permits_sync_path-IsUnder_example =
    permits_sync_path-IsUnder crypto wire (7 ∷ []) 8 9 600 1200 grant verified (scope ∷ []) below
      verify_run refl refl

accepted : permits_renewal verified next ≡ ok true
unfolding permits_renewal GrantPayload-discrete services-discrete GrantConstraints-discrete
    tenant-discrete revision-discrete ServiceKind-discrete ℕ_discrete
accepted = refl

Renewed-Extends_example : Extends verified next
Renewed-Extends_example = Renewed-Extends (renewed original true accepted)

Renewed-permits_example :
    ((s : ServiceKind) → permits_service s next ≡ permits_service s verified)
    × (permits_sync_read next ≡ permits_sync_read verified)
    × (permits_sync_write next ≡ permits_sync_write verified)
    × (permits_desktop_control next ≡ permits_desktop_control verified)
    × ((port : ℕ) → permits_port port next ≡ permits_port port verified)
    × ((display : ℕ) → permits_display display next ≡ permits_display display verified)
    × ((rel : List ℕ) → permits_sync_path rel next ≡ permits_sync_path rel verified)
Renewed-permits_example = Renewed-permits (renewed original true accepted)
