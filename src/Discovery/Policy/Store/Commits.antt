-- ===== src/Discovery/Policy/Store/Commits.antt =====
-- Calls of the policy store (crates/rds-discovery/src/policy.rs) in sequence: what a call can commit,
-- and what it does when it fails.
use remote_device_sync.Base.{
  ℕ, ◌≡◌, refl, Bool, true, false, List, [], ◌∷◌, none, some, if◌then◌else◌, Result, ok, err,
  map_ok, arith,
}
use remote_device_sync.Discovery.{DiscoveryError}
use remote_device_sync.Discovery.Authority.{SignedRotation}
use remote_device_sync.Discovery.Clock.{Reading}
use remote_device_sync.Discovery.Registry.{SignedNameBinding, NameBindingPayload, SignedRegistry}
use remote_device_sync.Discovery.Revocations.{SignedRevocations}
use remote_device_sync.Discovery.Policy.{Decoders, State}
use remote_device_sync.Discovery.Policy.Store.{
  PolicyStore, Disk, Plan, persist, commit, settle, plan_rotation, plan_revocations, plan_registry,
  plan_name, is_superseded, apply_rotation, accept_revocations, accept_registry, accept_name,
  accept_unless, bootstrap_registry, finish,
}

-- The calls that change the store, with what the file and `admit` answer.
pub data Call : Type 0 where
  rotation : SignedRotation → Reading → Disk → Call
  revocation : SignedRevocations → Reading → Result DiscoveryError (Unit {0}) → Disk → Call
  registry : SignedRegistry → Reading → Result DiscoveryError (Unit {0}) → Disk → Call
  binding : SignedNameBinding → List ℕ → Reading → Disk → Call
  bootstrap : SignedRegistry → Reading → Disk → Call

abbrev pub forget :
    {A : Type 0}
    → PolicyStore × Result DiscoveryError A
    → PolicyStore × Result DiscoveryError (Unit {0})
forget (s, r) = (s, map_ok (λ a. tt) r)

-- A plan whose answer does not matter.
abbrev pub forget_plan : {A : Type 0} → Plan A → Plan (Unit {0})
forget_plan (err e) = err e
forget_plan (ok (a, next)) = ok (tt, next)

module _ (dec : Decoders) where
  unfoldable pub perform : Call → PolicyStore → PolicyStore × Result DiscoveryError (Unit {0})
  perform (rotation receipt now disk) s = forget (apply_rotation dec receipt now disk s)
  perform (revocation snap now admit disk) s = forget (accept_revocations dec snap now admit disk s)
  perform (registry snap now admit disk) s = forget (accept_registry dec snap now admit disk s)
  perform (binding snap label now disk) s = forget (accept_name dec snap label now disk s)
  perform (bootstrap snap now disk) s = bootstrap_registry dec snap now disk s

  unfoldable pub run : List Call → PolicyStore → PolicyStore
  run [] s = s
  run (c ∷ cs) s = run cs ((perform c s).0)

  -- A state that some call commits.
  pub data Committed (s : PolicyStore) (next : State) : Type 0 where
    by_rotation :
        (receipt : SignedRotation) (now : Reading)
        → plan_rotation dec receipt now s ≡ ok (tt, some next)
        → Committed s next
    by_revocation :
        (snap : SignedRevocations) (now : Reading) (admit : Result DiscoveryError (Unit {0}))
        (b : Bool)
        → plan_revocations dec snap now admit s ≡ ok (b, some next)
        → Committed s next
    by_registry :
        (snap : SignedRegistry) (now : Reading) (admit : Result DiscoveryError (Unit {0}))
        (b : Bool)
        → plan_registry dec snap now admit s ≡ ok (b, some next)
        → Committed s next
    by_name :
        (snap : SignedNameBinding) (label : List ℕ) (now : Reading) (p : NameBindingPayload)
        → plan_name dec snap label now s ≡ ok (p, some next)
        → Committed s next

  -- What a call leaves: the same store, the same state marked as failed, or a committed state.
  pub data Outcome (s : PolicyStore) : PolicyStore → Result DiscoveryError (Unit {0}) → Type 0 where
    kept : (r : Result DiscoveryError (Unit {0})) → Outcome s s r
    broken : (e : DiscoveryError) → Outcome s (record s { failed = true }) (err e)
    moved : (next : State) → Committed s next → Outcome s (record s { state = next }) (ok tt)

  finish-Outcome :
      {A : Type 0} (a : A) (s : PolicyStore) (next : State) (r : Result DiscoveryError (Unit {0}))
      → Committed s next
      → Outcome s (finish next s r).0 (map_ok (λ a. tt) (map_ok (λ u. a) (finish next s r).1))
  unfolding finish
  finish-Outcome a s next (err e) c = broken e
  finish-Outcome a s next (ok u) c = moved next c

  settle-Outcome :
      {A : Type 0} (disk : Disk) (s : PolicyStore) (plan : Plan A)
      → ((a : A) (next : State) → plan ≡ ok (a, some next) → Committed s next)
      → Outcome s (settle disk s plan).0 (map_ok (λ a. tt) (settle disk s plan).1)
  unfolding settle commit
  settle-Outcome disk s (err e) c = kept (err e)
  settle-Outcome disk s (ok (a, none)) c = kept (ok tt)
  settle-Outcome disk s (ok (a, some next)) c =
      finish-Outcome a s next (if s.durable then persist disk else ok tt) (c a next refl)

  accept_unless-Outcome :
      (snap : SignedRegistry) (now : Reading) (disk : Disk) (s : PolicyStore)
      (superseded : Result DiscoveryError Bool)
      → Outcome s
          (accept_unless dec snap now disk s superseded).0
          (accept_unless dec snap now disk s superseded).1
  unfolding accept_unless accept_registry
  accept_unless-Outcome snap now disk s (err e) = kept (err e)
  accept_unless-Outcome snap now disk s (ok true) = kept (ok tt)
  accept_unless-Outcome snap now disk s (ok false) =
      settle-Outcome disk s (plan_registry dec snap now (ok tt) s)
        (λ a next. by_registry snap now (ok tt) a)

  pub perform-Outcome : (c : Call) (s : PolicyStore) → Outcome s (perform c s).0 (perform c s).1
  unfolding perform apply_rotation accept_revocations accept_registry accept_name bootstrap_registry
  perform-Outcome (rotation receipt now disk) s =
      settle-Outcome disk s (plan_rotation dec receipt now s) (λ a next. by_rotation receipt now)
  perform-Outcome (revocation snap now admit disk) s =
      settle-Outcome disk s (plan_revocations dec snap now admit s)
        (λ a next. by_revocation snap now admit a)
  perform-Outcome (registry snap now admit disk) s =
      settle-Outcome disk s (plan_registry dec snap now admit s)
        (λ a next. by_registry snap now admit a)
  perform-Outcome (binding snap label now disk) s =
      settle-Outcome disk s (plan_name dec snap label now s) (λ a next. by_name snap label now a)
  perform-Outcome (bootstrap snap now disk) s =
      accept_unless-Outcome snap now disk s (is_superseded dec snap s)

  error_keeps :
      (s s' : PolicyStore) (r : Result DiscoveryError (Unit {0})) (e : DiscoveryError)
      → Outcome s s' r
      → r ≡ err e
      → s'.state ≡ s.state
  error_keeps s s' r e (kept _) h = refl
  error_keeps s s' r e (broken e') h = refl
  error_keeps s s' r e (moved next c) h = absurd (ground arith)

  -- A call that answers with an error leaves the committed state as it was.
  pub perform-error :
      (c : Call) (s : PolicyStore) (e : DiscoveryError)
      → (perform c s).1 ≡ err e
      → (perform c s).0.state ≡ s.state
  perform-error c s e = error_keeps s (perform c s).0 (perform c s).1 e (perform-Outcome c s)
