-- ===== src/Discovery/Policy/Store/Restores.antt =====
-- Each call of the policy store (crates/rds-discovery/src/policy.rs) commits a state that `validate`
-- accepts.
use remote_device_sync.Base.{
  ℕ, ◌≤◌, ◌≡◌, refl, true, List, [], ◌∷◌, ◌++◌, length, length-append, ok, >>=-eq-ok, arith,
}
use remote_device_sync.Discovery.{as_secs}
use remote_device_sync.Discovery.Authority
use remote_device_sync.Discovery.Authority.{
  Authority, SignedRotation, RotationPayload, authority_eq, lifetime, verifying_key, verify_at,
  verify_committed,
}
use remote_device_sync.Discovery.Clock.{Reading}
use remote_device_sync.Discovery.Clock.Laws.{new-valid_at}
use remote_device_sync.Discovery.Registry.{SignedNameBinding, NameBindingPayload, SignedRegistry}
use remote_device_sync.Discovery.Registry.Laws.{verify_name-name, verify_name-committed}
use remote_device_sync.Discovery.Revocations.{SignedRevocations}
use remote_device_sync.Discovery.Revocations.Laws.{verify_at-verify}
use remote_device_sync.Discovery.Policy.{
  Decoders, State, initial, check_stamp, replay, validate_chain, validate_registry,
  validate_revocations, validate_names, validate,
}
use remote_device_sync.Discovery.Policy.Store.{PolicyStore}
use remote_device_sync.Discovery.Policy.Store.Names.{IsProof, next_names-Named}
use remote_device_sync.Discovery.Policy.Store.Plans.{
  RotationPlan, RevocationPlan, RegistryPlan, NamePlan,
}

module _ (dec : Decoders) where
  -- The four parts of `validate` each pass.
  pub record Restorable (bootstrap : Authority) (st : State) : Type 0 where
    pub chain : validate_chain dec st bootstrap ≡ ok st.authority.key
    pub registry : validate_registry dec st st.authority.key st.registry ≡ ok tt
    pub revocations : validate_revocations dec st st.authority.key st.revocations ≡ ok tt
    pub names : validate_names dec st st.authority.key st.names ≡ ok tt

  pub Restorable-validate :
      (bootstrap : Authority) (st : State)
      → Restorable bootstrap st
      → validate dec st bootstrap ≡ ok tt
  unfolding validate
  Restorable-validate bootstrap st v = rw (v.chain, v.registry, v.revocations) v.names

  pub initial-Restorable :
      (bootstrap : Authority) (key : ℕ)
      → verifying_key dec.crypto bootstrap ≡ ok key
      → Restorable bootstrap (initial bootstrap)
  unfolding validate_chain replay validate_registry validate_revocations validate_names
      verifying_key
  initial-Restorable bootstrap key h = record {
    chain = ground arith;
    registry = refl;
    revocations = refl;
    names = refl;
  }

  verify_at-committed :
      (r : SignedRotation) (current : Authority) (now : ℕ) (p : RotationPayload)
      → verify_at dec.crypto dec.rotation r current now ≡ ok p
      → (verify_committed dec.crypto dec.rotation r current ≡ ok p)
        × (verifying_key dec.crypto p.next ≡ ok p.next.key)
  unfolding verify_at verify_committed Authority.verify verifying_key lifetime
  verify_at-committed r current now p h = ground arith

  replay-append :
      (rs : List SignedRotation) (r : SignedRotation) (start current : Authority)
      (p : RotationPayload)
      → replay dec rs start ≡ ok current
      → verify_committed dec.crypto dec.rotation r current ≡ ok p
      → replay dec (rs ++ (r ∷ [])) start ≡ ok p.next
  unfolding replay
  replay-append [] r start current p h v = ground arith
  replay-append (q ∷ rs) r start current p h v =
      let (t, e, h') =
        >>=-eq-ok (verify_committed dec.crypto dec.rotation q start) (λ t. replay dec rs t.next)
          h in
      rw e (replay-append rs r t.next current p h' v)

  -- The facts that the check of the chain establishes, and needs.
  record IsChained (bootstrap : Authority) (st : State) : Type 0 where
    format : st.format ≡ 1
    anchored : authority_eq st.bootstrap bootstrap ≡ true
    few : length st.rotations ≤ 16
    replayed : replay dec st.rotations bootstrap ≡ ok st.authority
    valid : verifying_key dec.crypto st.authority ≡ ok st.authority.key

  chain-IsChained :
      (bootstrap : Authority) (st : State)
      → validate_chain dec st bootstrap ≡ ok st.authority.key
      → IsChained bootstrap st
  unfolding validate_chain
  chain-IsChained bootstrap st h = ground arith

  IsChained-chain :
      (bootstrap : Authority) (st : State)
      → IsChained bootstrap st
      → validate_chain dec st bootstrap ≡ ok st.authority.key
  unfolding validate_chain
  IsChained-chain bootstrap st c = ground (arith, c.format, c.anchored, c.few, c.replayed, c.valid)

  pub rotation-Restorable :
      (bootstrap : Authority) (s : PolicyStore) (next : State) (receipt : SignedRotation)
      (now : Reading)
      → Restorable bootstrap s.state
      → RotationPlan dec receipt now s next
      → Restorable bootstrap next
  unfolding validate_registry validate_revocations validate_names
  rotation-Restorable bootstrap s next receipt now v plan =
      let c = chain-IsChained bootstrap s.state v.chain in
      let (done, valid) =
        verify_at-committed receipt s.state.authority (as_secs now.wall) plan.transition
          plan.verified in
      rw plan.next_eq (record {
        chain = IsChained-chain bootstrap _ (record {
          format = c.format;
          anchored = c.anchored;
          few = omega (arith, plan.room, length-append s.state.rotations (receipt ∷ []));
          replayed =
              replay-append s.state.rotations receipt bootstrap s.state.authority plan.transition
                c.replayed done;
          valid = valid;
        });
        registry = refl;
        revocations = refl;
        names = refl;
      })

  pub revocation-Restorable :
      (bootstrap : Authority) (s : PolicyStore) (next : State) (snap : SignedRevocations)
      (now : Reading)
      → Restorable bootstrap s.state
      → RevocationPlan dec snap now s next
      → Restorable bootstrap next
  unfolding validate_chain validate_registry validate_revocations validate_names check_stamp
  revocation-Restorable bootstrap s next snap now v plan =
      let (verified, _, _) =
        verify_at-verify dec.crypto dec.revocation snap s.state.authority.key (as_secs now.wall)
          plan.payload plan.verified in
      let (_, matched, _) =
        new-valid_at plan.payload.issued_at plan.payload.expires_at now plan.lease plan.leased in
      rw plan.next_eq (record {
        chain = v.chain;
        registry = v.registry;
        revocations = rw verified (rw plan.stamp (rw matched refl));
        names = v.names;
      })

  pub registry-Restorable :
      (bootstrap : Authority) (s : PolicyStore) (next : State) (snap : SignedRegistry)
      (now : Reading)
      → Restorable bootstrap s.state
      → RegistryPlan dec snap now s next
      → Restorable bootstrap next
  unfolding validate_chain validate_registry validate_revocations validate_names check_stamp
  registry-Restorable bootstrap s next snap now v plan =
      let (_, matched, _) =
        new-valid_at plan.payload.issued_at plan.payload.expires_at now plan.lease plan.leased in
      rw plan.next_eq (record {
        chain = v.chain;
        registry = rw plan.verified (rw plan.stamp (rw matched refl));
        revocations = v.revocations;
        names = v.names;
      })

  pub name-Restorable :
      (bootstrap : Authority) (s : PolicyStore) (next : State) (snap : SignedNameBinding)
      (label : List ℕ) (now : Reading) (p : NameBindingPayload)
      → Restorable bootstrap s.state
      → NamePlan dec snap label now s p next
      → Restorable bootstrap next
  unfolding validate_chain validate_registry validate_revocations validate_names check_stamp
  name-Restorable bootstrap s next snap label now p v plan =
      let key = s.state.authority.key in
      let (same, valid, _, _, _, _) =
        verify_name-name dec.crypto dec.binding snap key label (as_secs now.wall) p plan.verified in
      let proof : IsProof dec key label snap p s.state = record {
        committed =
            verify_name-committed dec.crypto dec.binding snap key label (as_secs now.wall) p
              plan.verified;
        name = same;
        valid = valid;
        stamp = plan.stamp;
      } in
      let named =
        next_names-Named dec key label snap p now s.state plan.state s.state.names proof v.names
          plan.named in
      rw plan.next_eq (
        rw named.next_eq (record {
          chain = v.chain;
          registry = v.registry;
          revocations = v.revocations;
          names = named.valid;
        }))
