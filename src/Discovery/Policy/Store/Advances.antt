-- ===== src/Discovery/Policy/Store/Advances.antt =====
-- The policy store (crates/rds-discovery/src/policy.rs) never goes back: neither in time, nor to an
-- earlier authority, nor, under one authority, to an earlier snapshot.
use remote_device_sync.Base.{◌≤◌, ◌<◌, ◌≡◌, refl, ◌∙◌, ◌⊎◌, inl, inr, List, [], ◌∷◌, Result, arith}
use remote_device_sync.Discovery.{DiscoveryError, as_secs}
use remote_device_sync.Discovery.Authority.Laws.{verify_at-IsTransition}
use remote_device_sync.Discovery.Registry.Laws.{verify_name-name, verify_registry-payload}
use remote_device_sync.Discovery.Revocations.Laws.{verify-IsIssued, verify_at-verify}
use remote_device_sync.Discovery.Policy.{Decoders, State}
use remote_device_sync.Discovery.Policy.Store.{PolicyStore}
use remote_device_sync.Discovery.Policy.Store.Revisions.{
  registry_revision, revocations_revision, names_revision, replaces_revocations-revision,
  replaces_registry-revision, next_names-revision,
}
use remote_device_sync.Discovery.Policy.Store.Commits.{
  Call, perform, run, Committed, by_rotation, by_revocation, by_registry, by_name, Outcome, kept,
  broken, moved, perform-Outcome,
}
use remote_device_sync.Discovery.Policy.Store.Plans.{
  plan_rotation-Plan, plan_revocations-Plan, plan_registry-Plan, plan_name-Plan,
}

module _ (dec : Decoders) where
  -- From one state to a later one.
  pub record Advanced (a b : State) : Type 0 where
    pub bootstrap : b.bootstrap ≡ a.bootstrap
    pub floor : a.wall_floor ≤ b.wall_floor
    pub streams :
        ((b.authority ≡ a.authority)
          × (registry_revision dec a.registry ≤ registry_revision dec b.registry)
          × (revocations_revision dec a.revocations ≤ revocations_revision dec b.revocations)
          × (names_revision dec a.names ≤ names_revision dec b.names))
        ⊎ (a.authority.epoch < b.authority.epoch)

  Advanced-refl : (a : State) → Advanced a a
  Advanced-refl a = record {
    bootstrap = refl;
    floor = omega arith;
    streams = inl (refl, omega arith, omega arith, omega arith);
  }

  Advanced-trans : (a b c : State) → Advanced a b → Advanced b c → Advanced a c
  Advanced-trans a b c p q = record {
    bootstrap = q.bootstrap ∙ p.bootstrap;
    floor = omega (arith, p.floor, q.floor);
    streams = ground (arith, p.streams, q.streams);
  }

  Committed-Advanced :
      (s : PolicyStore) (next : State) → Committed dec s next → Advanced s.state next
  Committed-Advanced s next (by_rotation receipt now h) =
      let plan = plan_rotation-Plan dec receipt now s next h in
      let (_, t, _, _) =
        verify_at-IsTransition dec.crypto dec.rotation receipt s.state.authority (as_secs now.wall)
          plan.transition plan.verified in
      rw plan.next_eq
        (record { bootstrap = refl; floor = plan.floor; streams = inr (omega (arith, t.epoch)) })
  Committed-Advanced s next (by_revocation snap now admit b h) =
      let plan = plan_revocations-Plan dec snap now admit s b next h in
      let key = s.state.authority.key in
      let (e, _, _) =
        verify_at-verify dec.crypto dec.revocation snap key (as_secs now.wall) plan.payload
          plan.verified in
      let (d, _) = verify-IsIssued dec.crypto dec.revocation snap key plan.payload e in
      rw plan.next_eq (record {
        bootstrap = refl;
        floor = plan.floor;
        streams = inl (
          refl,
          omega arith,
          replaces_revocations-revision dec key snap plan.payload s.state.revocations d plan.fresh,
          omega arith,
        );
      })
  Committed-Advanced s next (by_registry snap now admit b h) =
      let plan = plan_registry-Plan dec snap now admit s b next h in
      let key = s.state.authority.key in
      let d =
        verify_registry-payload dec.crypto dec.binding dec.registry snap key plan.payload
          plan.verified in
      rw plan.next_eq (record {
        bootstrap = refl;
        floor = plan.floor;
        streams = inl (
          refl,
          replaces_registry-revision dec key snap plan.payload s.state.registry d plan.fresh,
          omega arith,
          omega arith,
        );
      })
  Committed-Advanced s next (by_name snap label now p h) =
      let plan = plan_name-Plan dec snap label now s p next h in
      let key = s.state.authority.key in
      let (_, _, d, _, _, _) =
        verify_name-name dec.crypto dec.binding snap key label (as_secs now.wall) p plan.verified in
      let (n, r) =
        next_names-revision dec key label snap p now s.state plan.state s.state.names d
          plan.named in
      rw plan.next_eq (
        rw n (record {
          bootstrap = refl;
          floor = plan.floor;
          streams = inl (refl, omega arith, omega arith, r);
        }))

  Outcome-Advanced :
      (s s' : PolicyStore) (r : Result DiscoveryError (Unit {0}))
      → Outcome dec s s' r
      → Advanced s.state s'.state
  Outcome-Advanced s s' r (kept _) = Advanced-refl s.state
  Outcome-Advanced s s' r (broken e) = Advanced-refl s.state
  Outcome-Advanced s s' r (moved next c) = Committed-Advanced s next c

  -- Over any calls, with whatever answers of the file: the bootstrap authority stays, the wall floor
  -- never falls, and either the authority is the same and the revision of no stream has fallen (a
  -- stream without a snapshot counts as 0), or the authority is of a later epoch.
  pub run-Advanced : (cs : List Call) (s : PolicyStore) → Advanced s.state (run dec cs s).state
  unfolding run
  run-Advanced [] s = Advanced-refl s.state
  run-Advanced (c ∷ cs) s =
      Advanced-trans s.state (perform dec c s).0.state (run dec cs (perform dec c s).0).state
        (Outcome-Advanced s (perform dec c s).0 (perform dec c s).1 (perform-Outcome dec c s))
        (run-Advanced cs (perform dec c s).0)
