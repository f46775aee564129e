-- ===== src/Discovery/Policy/Store/Reopens.antt =====
-- What the policy store (crates/rds-discovery/src/policy.rs) commits, it accepts when it is opened
-- again.
use remote_device_sync.Base.{
  ℕ, ◌≤◌, ◌≡◌, refl, Bool, true, false, List, [], ◌∷◌, some, Result, ok, ==_refl, le→ltb,
}
use remote_device_sync.Discovery.{DiscoveryError, as_secs}
use remote_device_sync.Discovery.Authority.{Authority, verifying_key}
use remote_device_sync.Discovery.Clock.{Reading}
use remote_device_sync.Discovery.Policy.{Decoders, State, validate}
use remote_device_sync.Discovery.Policy.Store.Restores.{
  Restorable, Restorable-validate, initial-Restorable, rotation-Restorable, revocation-Restorable,
  registry-Restorable, name-Restorable,
}
use remote_device_sync.Discovery.Policy.Store.{
  PolicyStore, opened, File, load, memory, open_at, check_clock,
}
use remote_device_sync.Discovery.Policy.Store.Commits.{
  Call, perform, run, Committed, by_rotation, by_revocation, by_registry, by_name, Outcome, kept,
  broken, moved, perform-Outcome,
}
use remote_device_sync.Discovery.Policy.Store.Plans.{
  plan_rotation-Plan, plan_revocations-Plan, plan_registry-Plan, plan_name-Plan,
}

module _ (dec : Decoders) where
  Committed-Restorable :
      (bootstrap : Authority) (s : PolicyStore) (next : State)
      → Restorable dec bootstrap s.state
      → Committed dec s next
      → Restorable dec bootstrap next
  Committed-Restorable bootstrap s next v (by_rotation receipt now h) =
      rotation-Restorable dec bootstrap s next receipt now v
        (plan_rotation-Plan dec receipt now s next h)
  Committed-Restorable bootstrap s next v (by_revocation snap now admit b h) =
      revocation-Restorable dec bootstrap s next snap now v
        (plan_revocations-Plan dec snap now admit s b next h)
  Committed-Restorable bootstrap s next v (by_registry snap now admit b h) =
      registry-Restorable dec bootstrap s next snap now v
        (plan_registry-Plan dec snap now admit s b next h)
  Committed-Restorable bootstrap s next v (by_name snap label now p h) =
      name-Restorable dec bootstrap s next snap label now p v
        (plan_name-Plan dec snap label now s p next h)

  Outcome-Restorable :
      (bootstrap : Authority) (s s' : PolicyStore) (r : _)
      → Restorable dec bootstrap s.state
      → Outcome dec s s' r
      → Restorable dec bootstrap s'.state
  Outcome-Restorable bootstrap s s' r v (kept _) = v
  Outcome-Restorable bootstrap s s' r v (broken e) = v
  Outcome-Restorable bootstrap s s' r v (moved next c) = Committed-Restorable bootstrap s next v c

  run-Restorable :
      (bootstrap : Authority) (cs : List Call) (s : PolicyStore)
      → Restorable dec bootstrap s.state
      → Restorable dec bootstrap (run dec cs s).state
  unfolding run
  run-Restorable bootstrap [] s v = v
  run-Restorable bootstrap (c ∷ cs) s v = run-Restorable bootstrap cs (perform dec c s).0 (
      Outcome-Restorable bootstrap s (perform dec c s).0 (perform dec c s).1 v
        (perform-Outcome dec c s))

  open_at_lem :
      (bootstrap : Authority) (key : ℕ) (now : Reading) (digest : State → Result DiscoveryError ℕ)
      (d : ℕ) (file : File) (st : State)
      → verifying_key dec.crypto bootstrap ≡ ok key
      → validate dec st bootstrap ≡ ok tt
      → st.wall_floor ≤ as_secs now.wall
      → digest st ≡ ok d
      → file.read ≡ ok (some (record { state = st; digest = d }))
      → file.initialized ≡ ok true
      → open_at dec digest file bootstrap now
        ≡ ok (record { state = st; durable = true; failed = false })
  unfolding open_at load memory check_clock
  open_at_lem bootstrap key now digest d file st e v h q r i = rw e (
      rw r
        (rw q (rw (==_refl d) (rw v (rw (le→ltb (as_secs now.wall) st.wall_floor h) (rw i refl))))))

  pub opened-Restorable :
      (bootstrap : Authority) (key : ℕ) (durable : Bool) (cs : List Call)
      → verifying_key dec.crypto bootstrap ≡ ok key
      → Restorable dec bootstrap (run dec cs (opened bootstrap durable)).state
  opened-Restorable bootstrap key durable cs e =
      run-Restorable bootstrap cs (opened bootstrap durable)
        (initial-Restorable dec bootstrap key e)

  -- Whatever calls a new store has served, with whatever answers of the file: when the file holds the
  -- state that the store then has, with its digest, the store opens again under the same bootstrap
  -- authority at every time from the wall floor on, with that state and without the failure mark.
  pub run-open_at :
      (bootstrap : Authority) (key : ℕ) (durable : Bool) (cs : List Call) (now : Reading)
      (digest : State → Result DiscoveryError ℕ) (d : ℕ) (file : File)
      → verifying_key dec.crypto bootstrap ≡ ok key
      → (run dec cs (opened bootstrap durable)).state.wall_floor ≤ as_secs now.wall
      → digest (run dec cs (opened bootstrap durable)).state ≡ ok d
      → file.read
        ≡ ok (some (record { state = (run dec cs (opened bootstrap durable)).state; digest = d }))
      → file.initialized ≡ ok true
      → open_at dec digest file bootstrap now
        ≡ ok (record {
          state = (run dec cs (opened bootstrap durable)).state;
          durable = true;
          failed = false;
        })
  run-open_at bootstrap key durable cs now digest d file e h q r i =
      let v = opened-Restorable bootstrap key durable cs e in
      open_at_lem bootstrap key now digest d file (run dec cs (opened bootstrap durable)).state e
        (Restorable-validate dec bootstrap (run dec cs (opened bootstrap durable)).state v) h q r i
