-- ===== src/Discovery/Policy/Store/Frozen.antt =====
-- The policy store (crates/rds-discovery/src/policy.rs) after a commit whose outcome is uncertain.
use remote_device_sync.Base.{
  ℕ, ◌≡◌, refl, ap, ◌⊎◌, inl, inr, Bool, true, false, List, [], ◌∷◌, Option, none, some, Result, ok,
  err, arith,
}
use remote_device_sync.Discovery.{DiscoveryError, store, invalid_record}
use remote_device_sync.Discovery.Clock.{Reading}
use remote_device_sync.Discovery.Registry.{SignedRegistry}
use remote_device_sync.Discovery.Policy.{Decoders, State}
use remote_device_sync.Discovery.Policy.Store
use remote_device_sync.Discovery.Policy.Store.{
  PolicyStore, Disk, Plan, authority, is_healthy, check_clock, persist, finish, commit, settle,
  plan_rotation, plan_revocations, plan_registry, plan_name, is_superseded, apply_rotation,
  accept_revocations, accept_registry, accept_name, accept_unless, bootstrap_registry, revocations,
  name, check_name_lease,
}
use remote_device_sync.Discovery.Policy.Store.Commits.{
  Call, rotation, revocation, registry, binding, bootstrap, perform, run,
}

-- The file cannot be read, holds no state any more, or cannot be written.
abbrev pub Lost : Disk → Type 0
Lost disk =
    ((e : DiscoveryError) × (disk.read ≡ err e))
    ⊎ ((disk.read ≡ ok false) ⊎ ((e : DiscoveryError) × (disk.write ≡ err e)))

-- The commit that a plan asks for, with what the file answers then.
abbrev pub planned : {A : Type 0} → Disk → Plan A → Option (Disk × State)
planned disk (err e) = none
planned disk (ok (a, none)) = none
planned disk (ok (a, some next)) = some (disk, next)

persist-Lost : (disk : Disk) → Lost disk → (e : DiscoveryError) × (persist disk ≡ err e)
unfolding persist
persist-Lost disk (inl (e, h)) = (e, rw h refl)
persist-Lost disk (inr (inl h)) = (invalid_record, rw h refl)
persist-Lost disk (inr (inr (e, h))) = go disk.read refl
  where
    go :
        (r : Result DiscoveryError Bool)
        → disk.read ≡ r
        → (e : DiscoveryError) × (persist disk ≡ err e)
    go (err e') q = (e', rw q refl)
    go (ok true) q = (e, rw (q, h) refl)
    go (ok false) q = (invalid_record, rw q refl)

settle-Lost :
    {A : Type 0} (asked disk : Disk) (next : State) (s : PolicyStore) (plan : Plan A)
    → s.durable ≡ true
    → planned asked plan ≡ some (disk, next)
    → Lost disk
    → (e : DiscoveryError) × (settle asked s plan ≡ (record s { failed = true }, err e))
unfolding settle commit finish
settle-Lost asked disk next s (err e) d p l = absurd (cc)
settle-Lost asked disk next s (ok (a, none)) d p l = absurd (cc)
settle-Lost asked disk next s (ok (a, some n)) d p l =
    let same : disk ≡ asked = ground arith in
    let (e, h) = persist-Lost asked (rw same at l) in (e, rw (d, h) refl)

module _ (dec : Decoders) where
  abbrev pub planned_unless :
      SignedRegistry
      → Reading
      → Disk
      → PolicyStore
      → Result DiscoveryError Bool
      → Option (Disk × State)
  planned_unless snap now disk s (err e) = none
  planned_unless snap now disk s (ok true) = none
  planned_unless snap now disk s (ok false) = planned disk (plan_registry dec snap now (ok tt) s)

  -- The state that a call tries to commit, with what the file answers then.
  unfoldable pub attempt : Call → PolicyStore → Option (Disk × State)
  attempt (rotation receipt now disk) s = planned disk (plan_rotation dec receipt now s)
  attempt (revocation snap now admit disk) s = planned disk (plan_revocations dec snap now admit s)
  attempt (registry snap now admit disk) s = planned disk (plan_registry dec snap now admit s)
  attempt (binding snap label now disk) s = planned disk (plan_name dec snap label now s)
  attempt (bootstrap snap now disk) s = planned_unless snap now disk s (is_superseded dec snap s)

  accept_unless-Lost :
      (snap : SignedRegistry) (now : Reading) (asked disk : Disk) (next : State) (s : PolicyStore)
      (superseded : Result DiscoveryError Bool)
      → s.durable ≡ true
      → planned_unless snap now asked s superseded ≡ some (disk, next)
      → Lost disk
      → (e : DiscoveryError) × (accept_unless dec snap now asked s superseded
          ≡ (record s { failed = true }, err e))
  unfolding accept_unless accept_registry
  accept_unless-Lost snap now asked disk next s (err e) d p l = absurd (cc)
  accept_unless-Lost snap now asked disk next s (ok true) d p l = absurd (cc)
  accept_unless-Lost snap now asked disk next s (ok false) d p l =
      let (e, h) = settle-Lost asked disk next s (plan_registry dec snap now (ok tt) s) d p l in
      (e, rw h refl)

  -- A call whose commit is lost fails, and marks the store.
  perform-Lost :
      (c : Call) (s : PolicyStore) (disk : Disk) (next : State)
      → s.durable ≡ true
      → attempt c s ≡ some (disk, next)
      → Lost disk
      → (e : DiscoveryError) × (perform dec c s ≡ (record s { failed = true }, err e))
  unfolding attempt perform apply_rotation accept_revocations accept_registry accept_name
      bootstrap_registry
  perform-Lost (rotation receipt now asked) s disk next d p l =
      let (e, h) = settle-Lost asked disk next s (plan_rotation dec receipt now s) d p l in
      (e, rw h refl)
  perform-Lost (revocation snap now admit asked) s disk next d p l =
      let (e, h) = settle-Lost asked disk next s (plan_revocations dec snap now admit s) d p l in
      (e, rw h refl)
  perform-Lost (registry snap now admit asked) s disk next d p l =
      let (e, h) = settle-Lost asked disk next s (plan_registry dec snap now admit s) d p l in
      (e, rw h refl)
  perform-Lost (binding snap label now asked) s disk next d p l =
      let (e, h) = settle-Lost asked disk next s (plan_name dec snap label now s) d p l in
      (e, rw h refl)
  perform-Lost (bootstrap snap now asked) s disk next d p l =
      accept_unless-Lost snap now asked disk next s (is_superseded dec snap s) d p l

  settle-err :
      {A : Type 0} (disk : Disk) (s : PolicyStore) (plan : Plan A) (e : DiscoveryError)
      → plan ≡ err e
      → (settle disk s plan).0 ≡ s
  unfolding settle
  settle-err disk s plan e h = rw h refl

  accept_unless-frozen :
      (snap : SignedRegistry) (now : Reading) (disk : Disk) (s : PolicyStore)
      (superseded : Result DiscoveryError Bool)
      → s.failed ≡ true
      → (accept_unless dec snap now disk s superseded).0 ≡ s
  unfolding accept_unless accept_registry plan_registry check_clock
  accept_unless-frozen snap now disk s (err e) f = refl
  accept_unless-frozen snap now disk s (ok true) f = refl
  accept_unless-frozen snap now disk s (ok false) f =
      settle-err disk s (plan_registry dec snap now (ok tt) s) store (ground arith)

  perform-frozen : (c : Call) (s : PolicyStore) → s.failed ≡ true → (perform dec c s).0 ≡ s
  unfolding perform apply_rotation accept_revocations accept_registry accept_name bootstrap_registry
      plan_rotation plan_revocations plan_registry plan_name check_clock
  perform-frozen (rotation receipt now disk) s f =
      settle-err disk s (plan_rotation dec receipt now s) store (ground arith)
  perform-frozen (revocation snap now admit disk) s f =
      settle-err disk s (plan_revocations dec snap now admit s) store (ground arith)
  perform-frozen (registry snap now admit disk) s f =
      settle-err disk s (plan_registry dec snap now admit s) store (ground arith)
  perform-frozen (binding snap label now disk) s f =
      settle-err disk s (plan_name dec snap label now s) store (ground arith)
  perform-frozen (bootstrap snap now disk) s f =
      accept_unless-frozen snap now disk s (is_superseded dec snap s) f

  run-same : (cs : List Call) (s : PolicyStore) → s.failed ≡ true → run dec cs s ≡ s
  unfolding run
  run-same [] s f = refl
  run-same (c ∷ cs) s f = rw (perform-frozen c s f) (run-same cs s f)

  run-Lost :
      (c : Call) (cs : List Call) (s : PolicyStore) (e : DiscoveryError)
      → perform dec c s ≡ (record s { failed = true }, err e)
      → run dec (c ∷ cs) s ≡ record s { failed = true }
  unfolding run
  run-Lost c cs s e h = rw h (run-same cs (record s { failed = true }) refl)

  -- When a call on a durable store comes to commit a state and the file cannot be read, holds no state
  -- any more or cannot be written, then the call fails, and the store is marked as unhealthy and holds
  -- what it held before. No sequence of further calls changes it: the revocations, every name and the
  -- check of the name lease are refused at any time, and only the authority and the one that it was
  -- opened with are still told, as they were before the call.
  pub run-frozen :
      (c : Call) (cs : List Call) (s : PolicyStore) (disk : Disk) (next : State) (now : Reading)
      (label : List ℕ)
      → s.durable ≡ true
      → attempt c s ≡ some (disk, next)
      → Lost disk
      → let t = run dec (c ∷ cs) s in
        ((e : DiscoveryError) × ((perform dec c s).1 ≡ err e))
        × (is_healthy t ≡ false)
        × (t.state ≡ s.state)
        × (revocations dec now t ≡ err store)
        × (name dec label now t ≡ err store)
        × (check_name_lease dec now t ≡ err store)
        × (authority t ≡ authority s)
        × (Store.bootstrap t ≡ Store.bootstrap s)
  unfolding revocations name check_name_lease check_clock is_healthy authority Store.bootstrap
  run-frozen c cs s disk next now label d p l =
      let (e, h) = perform-Lost c s disk next d p l in
      rw (run-Lost c cs s e h) ((e, ap (λ r. r.1) h), refl, refl, refl, refl, refl, refl, refl)
