-- ===== src/Discovery/Policy/Store/Tests.antt =====
-- Runs of the policy store (crates/rds-discovery/src/policy.rs) with stand-ins for the libraries:
-- every key is valid, a signature counts if it has 64 bytes, the digest of a message is its length,
-- and each kind of payload decodes to one fixed value.
use remote_device_sync.Base.{
  ℕ, zero, suc, ◌≡◌, refl, inr, true, false, List, [], ◌∷◌, none, some, ok, err, length, ◌==◌,
  arith,
}
use remote_device_sync.Discovery.{DiscoveryError, store}
use remote_device_sync.Discovery.Authority
use remote_device_sync.Discovery.Authority.{
  Authority, SignedRotation, verify_stamp, lifetime, newer_than, verifying_key, verify_at,
}
use remote_device_sync.Discovery.Clock.{Reading, Lease, new, valid_at}
use remote_device_sync.Discovery.Registry.{
  SignedNameBinding, NameBindingPayload, all_label_bytes, valid_name, check_lifetime, verify_name,
}
use remote_device_sync.Discovery.Revocations
use remote_device_sync.Discovery.Revocations.{SignedRevocations, RevocationPayload}
use remote_device_sync.Discovery.Policy.{
  Decoders, State, initial, check_stamp, contains_rotation, replaces_revocations, next_names,
}
use remote_device_sync.Discovery.Policy.Store.{
  PolicyStore, Disk, opened, check_clock, persist, finish, commit, settle, open_at, File,
  plan_rotation, apply_rotation, plan_revocations, accept_revocations, with_floor, plan_name,
  accept_name, authority, is_healthy, revocations, name, check_name_lease,
}
use remote_device_sync.Discovery.Policy.Store.Commits.{
  Call, rotation, revocation, binding, perform, run,
}
use remote_device_sync.Discovery.Policy.Store.Frozen.{attempt, run-frozen}
use remote_device_sync.Discovery.Policy.Store
use remote_device_sync.Discovery.Policy.Store.Reopens.{run-open_at}
use remote_device_sync.Discovery.Policy.Store.Advances.{Advanced, run-Advanced}
use remote_device_sync.Discovery.Policy.Store.Serves.{IsServed, revocations-IsServed}

abbrev zeros : ℕ → List ℕ
zeros zero = []
zeros (suc n) = 0 ∷ zeros n

abbrev first : Authority
first = record { key = 11; epoch = 1 }

abbrev payload : RevocationPayload
payload = record {
  stamp = record { authority = first; revision = 3 };
  revoked = 8 ∷ 9 ∷ [];
  issued_at = 1000;
  expires_at = 1300;
}

abbrev alpha : List ℕ
alpha = 97 ∷ []

abbrev named : NameBindingPayload
named = record {
  stamp = record { authority = first; revision = 5 };
  registry_digest = 0;
  version = 2;
  name = alpha;
  key = 7;
  issued_at = 1000;
  expires_at = 1300;
}

abbrev decoders : Decoders
decoders = record {
  crypto = record {
    key_valid = λ k. true;
    key_weak = λ k. false;
    verify_strict = λ k m s. length s == 64;
    hash = λ m. length m;
  };
  rotation = λ b. some (record {
    previous = first;
    next = record { key = 12; epoch = 2 };
    issued_at = 1000;
    expires_at = 1300;
  });
  revocation = λ b. some payload;
  registry = λ b. none;
  binding = λ b. some named;
}

-- 1100 seconds of wall time.
abbrev now : Reading
now = record { boot = 1; wall = 1100000000000; continuous = 5000000000 }

abbrev working : Disk
working = record { read = ok true; write = ok tt }

abbrev full : Disk
full = record { read = ok true; write = err store }

abbrev revoked : SignedRevocations
revoked = record { payload = 1 ∷ []; signature = zeros 64 }

abbrev proof : SignedNameBinding
proof = record { payload = 2 ∷ []; signature = zeros 64 }

abbrev receipt : SignedRotation
receipt = record { payload = 1 ∷ []; previous_signature = zeros 64; next_signature = zeros 64 }

abbrev accept : List Call
accept = revocation revoked now (ok tt) working ∷ binding proof alpha now working ∷ []

abbrev calls : List Call
calls =
    revocation revoked now (ok tt) working
    ∷ binding proof alpha now working
    ∷ rotation receipt now working
    ∷ []

abbrev lease : Lease
lease = record {
  boot = 1;
  issued_at = 1000;
  expires_at = 1300;
  accepted_wall = 1100000000000;
  accepted_continuous = 5000000000;
  deadline = 205000000000;
}

-- The calls run to a state of the second authority.
calls_authority :
    (run decoders calls (opened first true)).state.authority ≡ record { key = 12; epoch = 2 }
unfolding run perform accept_revocations accept_name apply_rotation plan_revocations plan_name
    plan_rotation settle commit finish persist check_clock verifying_key Revocations.verify_at
    Revocations.verify Authority.verify verify_stamp lifetime check_stamp replaces_revocations new
    verify_name valid_name all_label_bytes check_lifetime next_names with_floor contains_rotation
    verify_at
calls_authority = refl

first_key : verifying_key decoders.crypto first ≡ ok 11
unfolding verifying_key
first_key = refl

calls_floor : (run decoders calls (opened first true)).state.wall_floor ≡ 1100
unfolding run perform accept_revocations accept_name apply_rotation plan_revocations plan_name
    plan_rotation settle commit finish persist check_clock verifying_key Revocations.verify_at
    Revocations.verify Authority.verify verify_stamp lifetime check_stamp replaces_revocations new
    verify_name valid_name all_label_bytes check_lifetime next_names with_floor contains_rotation
    verify_at
calls_floor = refl

accept_served :
    revocations decoders now (run decoders accept (opened first true))
    ≡ ok (some (revoked, payload, lease))
unfolding run perform accept_revocations accept_name plan_revocations plan_name settle commit finish
    persist check_clock verifying_key Revocations.verify_at Revocations.verify Authority.verify
    verify_stamp lifetime check_stamp replaces_revocations new verify_name valid_name
    all_label_bytes check_lifetime next_names with_floor revocations valid_at
accept_served = refl

-- The state that the first call tries to commit to a file that cannot be written.
abbrev lost : State
lost = record (initial first) {
  revocations = some revoked;
  wall_floor = 1100;
  revocations_lease = some lease;
}

attempt-lost :
    attempt decoders (revocation revoked now (ok tt) full) (opened first true) ≡ some (full, lost)
unfolding attempt plan_revocations check_clock verifying_key Revocations.verify_at
    Revocations.verify Authority.verify verify_stamp lifetime check_stamp replaces_revocations new
attempt-lost = refl

abbrev after_lost : PolicyStore
after_lost =
    run decoders (revocation revoked now (ok tt) full ∷ revocation revoked now (ok tt) working ∷ [])
      (opened first true)

abbrev file : File
file = record {
  read = ok (some (record { state = (run decoders calls (opened first true)).state; digest = 1 }));
  initialized = ok true;
  write = ok tt;
  seal = ok tt;
}

run-open_at_example :
    open_at decoders (λ st. ok 1) file first now
    ≡ ok (record {
      state = (run decoders calls (opened first true)).state;
      durable = true;
      failed = false;
    })
run-open_at_example =
    run-open_at decoders first 11 true calls now (λ st. ok 1) 1 file first_key
      (omega (arith, calls_floor)) refl refl refl

run-Advanced_example :
    Advanced decoders (opened first true).state (run decoders calls (opened first true)).state
run-Advanced_example = run-Advanced decoders calls (opened first true)

revocations-IsServed_example :
    IsServed decoders (run decoders accept (opened first true)) now revoked payload lease
revocations-IsServed_example =
    revocations-IsServed decoders first 11 true accept now revoked payload lease first_key
      accept_served

run-frozen_example :
    ((e : DiscoveryError) × ((perform decoders
          (revocation revoked now (ok tt) full)
          (opened first true)).1
        ≡ err e))
    × (is_healthy after_lost ≡ false)
    × (after_lost.state ≡ (opened first true).state)
    × (revocations decoders now after_lost ≡ err store)
    × (name decoders alpha now after_lost ≡ err store)
    × (check_name_lease decoders now after_lost ≡ err store)
    × (authority after_lost ≡ authority (opened first true))
    × (Store.bootstrap after_lost ≡ Store.bootstrap (opened first true))
run-frozen_example =
    run-frozen decoders (revocation revoked now (ok tt) full)
      (revocation revoked now (ok tt) working ∷ []) (opened first true) full lost now alpha refl
      attempt-lost (inr (inr (store, refl)))
