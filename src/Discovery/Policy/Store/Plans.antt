-- ===== src/Discovery/Policy/Store/Plans.antt =====
-- What each call of the policy store (crates/rds-discovery/src/policy.rs) has established when it
-- commits, and the state that it commits.
use remote_device_sync.Base.{
  ℕ, ◌≤◌, ◌<◌, length, ◌≡◌, Bool, true, List, [], ◌∷◌, ◌++◌, Option, none, some, Result, ok, arith,
}
use remote_device_sync.Discovery.{DiscoveryError, as_secs}
use remote_device_sync.Discovery.Authority.{
  SignedRotation, RotationPayload, verifying_key, verify_at,
}
use remote_device_sync.Discovery.Clock.{Reading, Lease, new}
use remote_device_sync.Discovery.Registry.{
  SignedNameBinding, NameBindingPayload, SignedRegistry, RegistryPayload, check_lifetime,
  verify_name, verify_registry,
}
use remote_device_sync.Discovery.Revocations
use remote_device_sync.Discovery.Revocations.{SignedRevocations, RevocationPayload}
use remote_device_sync.Discovery.Policy.{
  Decoders, State, check_stamp, replaces_registry, replaces_revocations, next_names,
}
use remote_device_sync.Discovery.Policy.Store.{
  PolicyStore, check_clock, plan_rotation, plan_revocations, plan_registry, plan_name, with_floor,
}

module _ (dec : Decoders) where
  pub record RevocationPlan (snap : SignedRevocations) (now : Reading) (s : PolicyStore)
      (next : State) : Type 0 where
    pub payload : RevocationPayload
    pub lease : Lease
    pub key : verifying_key dec.crypto s.state.authority ≡ ok s.state.authority.key
    pub verified :
        Revocations.verify_at dec.crypto dec.revocation snap s.state.authority.key
          (as_secs now.wall)
        ≡ ok payload
    pub stamp : check_stamp s.state payload.stamp ≡ ok tt
    pub fresh :
        replaces_revocations dec s.state.authority.key snap payload s.state.revocations ≡ ok true
    pub leased : new payload.issued_at payload.expires_at now ≡ ok lease
    pub floor : s.state.wall_floor ≤ as_secs now.wall
    pub next_eq : next ≡ record s.state {
      revocations = some snap;
      wall_floor = as_secs now.wall;
      revocations_lease = some lease;
    }

  pub plan_revocations-Plan :
      (snap : SignedRevocations) (now : Reading) (admit : Result DiscoveryError (Unit {0}))
      (s : PolicyStore) (b : Bool) (next : State)
      → plan_revocations dec snap now admit s ≡ ok (b, some next)
      → RevocationPlan snap now s next
  unfolding plan_revocations check_clock verifying_key
  plan_revocations-Plan snap now admit s b next h = ground arith

  pub record RegistryPlan (snap : SignedRegistry) (now : Reading) (s : PolicyStore) (next : State)
      : Type 0 where
    pub payload : RegistryPayload
    pub lease : Lease
    pub verified :
        verify_registry dec.crypto dec.binding dec.registry snap s.state.authority.key ≡ ok payload
    pub lifetime : check_lifetime payload.issued_at payload.expires_at (as_secs now.wall) ≡ ok tt
    pub stamp : check_stamp s.state payload.stamp ≡ ok tt
    pub fresh : replaces_registry dec s.state.authority.key snap payload s.state.registry ≡ ok true
    pub leased : new payload.issued_at payload.expires_at now ≡ ok lease
    pub floor : s.state.wall_floor ≤ as_secs now.wall
    pub next_eq : next ≡ record s.state {
      registry = some snap;
      wall_floor = as_secs now.wall;
      registry_lease = some lease;
    }

  pub plan_registry-Plan :
      (snap : SignedRegistry) (now : Reading) (admit : Result DiscoveryError (Unit {0}))
      (s : PolicyStore) (b : Bool) (next : State)
      → plan_registry dec snap now admit s ≡ ok (b, some next)
      → RegistryPlan snap now s next
  unfolding plan_registry check_clock verifying_key
  plan_registry-Plan snap now admit s b next h = ground arith

  pub record RotationPlan (receipt : SignedRotation) (now : Reading) (s : PolicyStore)
      (next : State) : Type 0 where
    pub transition : RotationPayload
    pub room : length s.state.rotations < 16
    pub verified :
        verify_at dec.crypto dec.rotation receipt s.state.authority (as_secs now.wall)
        ≡ ok transition
    pub floor : s.state.wall_floor ≤ as_secs now.wall
    pub next_eq : next ≡ record s.state {
      authority = transition.next;
      rotations = s.state.rotations ++ (receipt ∷ []);
      registry = none;
      revocations = none;
      names = none;
      registry_lease = none;
      revocations_lease = none;
      names_lease = none;
      wall_floor = as_secs now.wall;
    }

  pub plan_rotation-Plan :
      (receipt : SignedRotation) (now : Reading) (s : PolicyStore) (next : State)
      → plan_rotation dec receipt now s ≡ ok (tt, some next)
      → RotationPlan receipt now s next
  unfolding plan_rotation check_clock
  plan_rotation-Plan receipt now s next h = ground arith

  pub record NamePlan (snap : SignedNameBinding) (label : List ℕ) (now : Reading) (s : PolicyStore)
      (p : NameBindingPayload) (next : State) : Type 0 where
    pub state : State
    pub verified :
        verify_name dec.crypto dec.binding snap s.state.authority.key label (as_secs now.wall)
        ≡ ok p
    pub stamp : check_stamp s.state p.stamp ≡ ok tt
    pub named :
        next_names dec s.state.authority.key label snap p now s.state s.state.names
        ≡ ok (some state)
    pub floor : s.state.wall_floor ≤ as_secs now.wall
    pub next_eq : next ≡ record state { wall_floor = as_secs now.wall }

  NamePlan-cases :
      (snap : SignedNameBinding) (label : List ℕ) (now : Reading) (s : PolicyStore)
      (p : NameBindingPayload) (next : State) (found : Option State)
      → verify_name dec.crypto dec.binding snap s.state.authority.key label (as_secs now.wall)
        ≡ ok p
      → check_stamp s.state p.stamp ≡ ok tt
      → next_names dec s.state.authority.key label snap p now s.state s.state.names ≡ ok found
      → s.state.wall_floor ≤ as_secs now.wall
      → with_floor (as_secs now.wall) found ≡ some next
      → NamePlan snap label now s p next
  unfolding with_floor
  NamePlan-cases snap label now s p next none v c n f h = absurd (ground arith)
  NamePlan-cases snap label now s p next (some st) v c n f h = record {
    state = st;
    verified = v;
    stamp = c;
    named = n;
    floor = f;
    next_eq = ground arith;
  }

  plan_name-verify_name :
      (snap : SignedNameBinding) (label : List ℕ) (now : Reading) (s : PolicyStore)
      (p : NameBindingPayload) (next : State)
      → plan_name dec snap label now s ≡ ok (p, some next)
      → (verify_name dec.crypto dec.binding snap s.state.authority.key label (as_secs now.wall)
          ≡ ok p)
        × (check_stamp s.state p.stamp ≡ ok tt)
        × (s.state.wall_floor ≤ as_secs now.wall)
  unfolding plan_name check_clock verifying_key
  plan_name-verify_name snap label now s p next h = (ground arith, ground arith, ground arith)

  plan_name-next_names :
      (snap : SignedNameBinding) (label : List ℕ) (now : Reading) (s : PolicyStore)
      (p : NameBindingPayload) (next : State)
      → plan_name dec snap label now s ≡ ok (p, some next)
      → verify_name dec.crypto dec.binding snap s.state.authority.key label (as_secs now.wall)
        ≡ ok p
      → (found : Option State) × (next_names dec s.state.authority.key label snap p now s.state
            s.state.names
          ≡ ok found)
  unfolding plan_name check_clock verifying_key
  plan_name-next_names snap label now s p next h v = ground arith

  plan_name-with_floor :
      (found : Option State) (snap : SignedNameBinding) (label : List ℕ) (now : Reading)
      (s : PolicyStore) (p : NameBindingPayload) (next : State)
      → plan_name dec snap label now s ≡ ok (p, some next)
      → verify_name dec.crypto dec.binding snap s.state.authority.key label (as_secs now.wall)
        ≡ ok p
      → next_names dec s.state.authority.key label snap p now s.state s.state.names ≡ ok found
      → with_floor (as_secs now.wall) found ≡ some next
  unfolding plan_name check_clock verifying_key
  plan_name-with_floor found snap label now s p next h v n = ground arith

  pub plan_name-Plan :
      (snap : SignedNameBinding) (label : List ℕ) (now : Reading) (s : PolicyStore)
      (p : NameBindingPayload) (next : State)
      → plan_name dec snap label now s ≡ ok (p, some next)
      → NamePlan snap label now s p next
  plan_name-Plan snap label now s p next h =
      let (v, c, f) = plan_name-verify_name snap label now s p next h in
      let (found, n) = plan_name-next_names snap label now s p next h v in
      NamePlan-cases snap label now s p next found v c n f
        (plan_name-with_floor found snap label now s p next h v n)
