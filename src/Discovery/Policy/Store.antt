-- ===== src/Discovery/Policy/Store.antt =====
-- crates/rds-discovery/src/policy.rs: the operations of the policy store. What the state file answers
-- during a commit, and what the caller's `admit` answers, are arguments. The metrics that the store
-- publishes are left out.
pub mod Commits
pub mod Frozen
pub mod Plans
pub mod Names
pub mod Restores
pub mod Reopens
pub mod Revisions
pub mod Advances
pub mod Serves
mod Tests
use remote_device_sync.Base.{
  ℕ, Bool, true, false, not, List, [], ◌∷◌, ◌++◌, Option, none, some, leb, ltb, ◌==◌, if◌then◌else◌,
  length, Result, ok, err, ensure, ok_or, map_ok, ◌>>=◌, ◌>>◌,
}
use remote_device_sync.Base.ByteMap.{get}
use remote_device_sync.Discovery.{
  DiscoveryError, expired, not_found, invalid_record, store, as_secs,
}
use remote_device_sync.Discovery.Authority.{Authority, SignedRotation, verifying_key, verify_at}
use remote_device_sync.Discovery.Clock.{Reading, Lease, new}
use remote_device_sync.Discovery.Registry.{
  SignedNameBinding, NameBindingPayload, SignedRegistry, check_lifetime, verify_name,
  verify_registry,
}
use remote_device_sync.Discovery.Revocations
use remote_device_sync.Discovery.Revocations.{SignedRevocations, RevocationPayload}
use remote_device_sync.Discovery.Policy.{
  Decoders, State, initial, check_stamp, contains_rotation, is_valid_at, max_rotations, validate,
  replaces_registry, replaces_revocations, next_names,
}

pub record PolicyStore : Type 0 where
  pub state : State
  pub durable : Bool
  pub failed : Bool

-- A store on which `memory` or `open` has succeeded for the first time.
abbrev pub opened : Authority → Bool → PolicyStore
opened bootstrap durable = record { state = initial bootstrap; durable = durable; failed = false }

-- What the file answers during a commit: whether it still holds a state, and the write.
pub record Disk : Type 0 where
  pub read : Result DiscoveryError Bool
  pub write : Result DiscoveryError (Unit {0})

-- A state with its digest, as the file holds it.
pub record Envelope : Type 0 where
  pub state : State
  pub digest : ℕ

-- What the file answers while it is opened: the decoded contents, whether it was ever written, and
-- the outcomes of writing and sealing.
pub record File : Type 0 where
  pub read : Result DiscoveryError (Option Envelope)
  pub initialized : Result DiscoveryError Bool
  pub write : Result DiscoveryError (Unit {0})
  pub seal : Result DiscoveryError (Unit {0})

unfoldable pub authority : PolicyStore → Authority
authority s = s.state.authority

unfoldable pub bootstrap : PolicyStore → Authority
bootstrap s = s.state.bootstrap

unfoldable pub is_healthy : PolicyStore → Bool
is_healthy s = not s.failed

unfoldable pub check_clock : PolicyStore → Reading → Result DiscoveryError (Unit {0})
check_clock s now =
    if s.failed
    then err store
    else if ltb (as_secs now.wall) s.state.wall_floor
    then err invalid_record
    else ok tt

unfoldable pub persist : Disk → Result DiscoveryError (Unit {0})
persist disk = do present ← disk.read; ensure present invalid_record; disk.write

unfoldable pub finish :
    State
    → PolicyStore
    → Result DiscoveryError (Unit {0})
    → PolicyStore × Result DiscoveryError (Unit {0})
finish next s (err e) = (record s { failed = true }, err e)
finish next s (ok u) = (record s { state = next }, ok tt)

unfoldable pub commit : Disk → State → PolicyStore → PolicyStore × Result DiscoveryError (Unit {0})
commit disk next s = finish next s (if s.durable then persist disk else ok tt)

-- An operation's answer, and the state that it commits first, if any.
abbrev pub Plan : Type 0 → Type 0
Plan A = Result DiscoveryError (A × Option State)

unfoldable pub settle :
    {A : Type 0} → Disk → PolicyStore → Plan A → PolicyStore × Result DiscoveryError A
settle disk s (err e) = (s, err e)
settle disk s (ok (a, none)) = (s, ok a)
settle disk s (ok (a, some next)) =
    let (s', done) = commit disk next s in (s', map_ok (λ u. a) done)

-- The wall floor of a state that `accept_name` commits.
unfoldable pub with_floor : ℕ → Option State → Option State
with_floor floor none = none
with_floor floor (some st) = some (record st { wall_floor = floor })

module _ (dec : Decoders) where
  -- `memory`.
  unfoldable pub memory : Authority → Result DiscoveryError PolicyStore
  memory bootstrap = do
    key ← verifying_key dec.crypto bootstrap
    ok (record { state = initial bootstrap; durable = false; failed = false })

  -- The match of `open` on what the file holds. The digest of a state is a parameter.
  unfoldable pub load :
      (State → Result DiscoveryError ℕ)
      → File
      → Authority
      → Reading
      → PolicyStore
      → Option Envelope
      → Result DiscoveryError PolicyStore
  load digest file bootstrap now fresh none = do
    initialized ← file.initialized
    ensure (not initialized) invalid_record
    file.write
    ok fresh
  load digest file bootstrap now fresh (some envelope) = do
    actual ← digest envelope.state
    ensure (actual == envelope.digest) invalid_record
    validate dec envelope.state bootstrap
    check_clock (record fresh { state = envelope.state }) now
    ok (record fresh { state = envelope.state })

  -- `open`.
  unfoldable pub open_at :
      (State → Result DiscoveryError ℕ)
      → File
      → Authority
      → Reading
      → Result DiscoveryError PolicyStore
  open_at digest file bootstrap now = do
    fresh ← memory bootstrap
    found ← file.read
    loaded ← load digest file bootstrap now fresh found
    initialized ← file.initialized
    if initialized then ok tt else file.seal
    ok (record loaded { durable = true })

  unfoldable pub plan_rotation : SignedRotation → Reading → PolicyStore → Plan (Unit {0})
  plan_rotation receipt now s = do
    check_clock s now
    if contains_rotation receipt s.state.rotations then ok (tt, none) else (do
      ensure (not (leb max_rotations (length s.state.rotations))) invalid_record
      transition ← verify_at dec.crypto dec.rotation receipt s.state.authority (as_secs now.wall)
      ok (
        tt,
        some (record s.state {
          authority = transition.next;
          rotations = s.state.rotations ++ (receipt ∷ []);
          registry = none;
          revocations = none;
          names = none;
          registry_lease = none;
          revocations_lease = none;
          names_lease = none;
          wall_floor = as_secs now.wall;
        }),
      ))

  unfoldable pub apply_rotation :
      SignedRotation → Reading → Disk → PolicyStore → PolicyStore × Result DiscoveryError (Unit {0})
  apply_rotation receipt now disk s = settle disk s (plan_rotation receipt now s)

  unfoldable pub plan_revocations :
      SignedRevocations → Reading → Result DiscoveryError (Unit {0}) → PolicyStore → Plan Bool
  plan_revocations snap now admit s = do
    check_clock s now
    key ← verifying_key dec.crypto s.state.authority
    payload ← Revocations.verify_at dec.crypto dec.revocation snap key (as_secs now.wall)
    check_stamp s.state payload.stamp
    fresh ← replaces_revocations dec key snap payload s.state.revocations
    if not fresh then ok (false, none) else (do
      lease ← new payload.issued_at payload.expires_at now
      admit
      ok (
        true,
        some (record s.state {
          revocations = some snap;
          wall_floor = as_secs now.wall;
          revocations_lease = some lease;
        }),
      ))

  unfoldable pub accept_revocations :
      SignedRevocations
      → Reading
      → Result DiscoveryError (Unit {0})
      → Disk
      → PolicyStore
      → PolicyStore × Result DiscoveryError Bool
  accept_revocations snap now admit disk s = settle disk s (plan_revocations snap now admit s)

  unfoldable pub plan_registry :
      SignedRegistry → Reading → Result DiscoveryError (Unit {0}) → PolicyStore → Plan Bool
  plan_registry snap now admit s = do
    check_clock s now
    key ← verifying_key dec.crypto s.state.authority
    payload ← verify_registry dec.crypto dec.binding dec.registry snap key
    check_lifetime payload.issued_at payload.expires_at (as_secs now.wall)
    check_stamp s.state payload.stamp
    fresh ← replaces_registry dec key snap payload s.state.registry
    if not fresh then ok (false, none) else (do
      lease ← new payload.issued_at payload.expires_at now
      admit
      ok (
        true,
        some (record s.state {
          registry = some snap;
          wall_floor = as_secs now.wall;
          registry_lease = some lease;
        }),
      ))

  unfoldable pub accept_registry :
      SignedRegistry
      → Reading
      → Result DiscoveryError (Unit {0})
      → Disk
      → PolicyStore
      → PolicyStore × Result DiscoveryError Bool
  accept_registry snap now admit disk s = settle disk s (plan_registry snap now admit s)

  unfoldable pub plan_name :
      SignedNameBinding → List ℕ → Reading → PolicyStore → Plan NameBindingPayload
  plan_name snap name now s = do
    check_clock s now
    key ← verifying_key dec.crypto s.state.authority
    payload ← verify_name dec.crypto dec.binding snap key name (as_secs now.wall)
    check_stamp s.state payload.stamp
    next ← next_names dec key name snap payload now s.state s.state.names
    ok (payload, with_floor (as_secs now.wall) next)

  unfoldable pub accept_name :
      SignedNameBinding
      → List ℕ
      → Reading
      → Disk
      → PolicyStore
      → PolicyStore × Result DiscoveryError NameBindingPayload
  accept_name snap name now disk s = settle disk s (plan_name snap name now s)

  unfoldable pub stored_is_newer : ℕ → ℕ → Option SignedRegistry → Result DiscoveryError Bool
  stored_is_newer key revision none = ok false
  stored_is_newer key revision (some previous) = do
    stored ← verify_registry dec.crypto dec.binding dec.registry previous key
    ok (ltb revision stored.stamp.revision)

  -- The lines of `bootstrap_registry` before it accepts: whether there is nothing left to do.
  unfoldable pub is_superseded : SignedRegistry → PolicyStore → Result DiscoveryError Bool
  is_superseded snap s = do
    key ← verifying_key dec.crypto s.state.authority
    incoming ← verify_registry dec.crypto dec.binding dec.registry snap key
    check_stamp s.state incoming.stamp
    stored_is_newer key incoming.stamp.revision s.state.registry

  -- The call of `accept_registry` in `bootstrap_registry`, made when the snapshot is not superseded.
  unfoldable pub accept_unless :
      SignedRegistry
      → Reading
      → Disk
      → PolicyStore
      → Result DiscoveryError Bool
      → PolicyStore × Result DiscoveryError (Unit {0})
  accept_unless snap now disk s (err e) = (s, err e)
  accept_unless snap now disk s (ok true) = (s, ok tt)
  accept_unless snap now disk s (ok false) =
      let (s', done) = accept_registry snap now (ok tt) disk s in (s', map_ok (λ b. tt) done)

  unfoldable pub bootstrap_registry :
      SignedRegistry → Reading → Disk → PolicyStore → PolicyStore × Result DiscoveryError (Unit {0})
  bootstrap_registry snap now disk s = accept_unless snap now disk s (is_superseded snap s)

  unfoldable pub revocations :
      Reading
      → PolicyStore
      → Result DiscoveryError (Option (SignedRevocations × RevocationPayload × Lease))
  revocations now s = do
    check_clock s now
    elim s.state.revocations [
      | none ↦ ok none
      | some snap ↦ do
        lease ← ok_or (running s.state.revocations_lease) expired
        key ← verifying_key dec.crypto s.state.authority
        payload ← Revocations.verify dec.crypto dec.revocation snap key
        ok (some (snap, payload, lease))
    ]
    where
      -- `filter(|l| l.valid_at(now))`.
      running : Option Lease → Option Lease
      running lease = if is_valid_at lease now then lease else none

  unfoldable pub name : List ℕ → Reading → PolicyStore → Result DiscoveryError SignedNameBinding
  name label now s = do
    check_clock s now
    snap ← ok_or s.state.registry not_found
    ensure (is_valid_at s.state.registry_lease now) expired
    ok_or (get label snap.bindings) not_found

  unfoldable pub check_name_lease : Reading → PolicyStore → Result DiscoveryError (Unit {0})
  check_name_lease now s = do
    check_clock s now
    ensure (is_valid_at s.state.names_lease now) expired
