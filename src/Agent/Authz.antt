-- ===== src/Agent/Authz.antt =====
-- crates/rds-agent/src/authz.rs: the authorization state of a connection, which its mutex makes one
-- value, and the set of grants in use, which the agent's connections share. A lease that is dropped
-- gives its reservation back (`GrantSlot::drop`), so every operation returns the set too. Readings of
-- the clock and `conn.is_closed()` are arguments. The watchdog task and the wake-up channels are left
-- out.
pub mod Exclusive
pub mod System
pub mod Access
mod Tests
use remote_device_sync.Base.{
  ℕ, Bool, true, false, ◌||◌, ◌&&◌, not, Option, none, some, ◌==◌, if◌then◌else◌, contains, is_some,
  is_some_and, Result, ok, err, ensure, ok_or,
}
use remote_device_sync.Base.Map.{Map, lookup, insert, remove}
use remote_device_sync.Grant.{VerifiedGrant}
use remote_device_sync.Grant.Verified
use remote_device_sync.Discovery.{as_secs}
use remote_device_sync.Discovery.Clock
use remote_device_sync.Discovery.Clock.{Reading, Lease}
use remote_device_sync.Agent.Revocations.{RevocationPolicy, fresh, revocations_permit}

-- The messages of the operations' errors.
pub data AuthzError : Type 0 where
  already_in_use expired lease_invalid not_required already_authorizing connection_closed :
      AuthzError
  interrupted policy_unavailable revoked destination_mismatch clock_unavailable : AuthzError
  requires_granted renewal_interrupted previous_expired invalid_renewal : AuthzError

pub record ActiveGrant : Type 0 where
  pub grant : VerifiedGrant
  pub validity : Lease

-- `GrantLease`, with the id that its slot reserves.
pub record GrantLease : Type 0 where
  pub current : ActiveGrant
  pub slot : ℕ

pub data State : Type 0 where
  open_state pending closed : State
  authorizing : Option GrantLease → State
  granted renewing : GrantLease → State

-- The set of grants in use, and a state.
pub record Shared : Type 0 where
  pub active : Map (Unit {0})
  pub state : State

-- `ActiveGrant::new`.
unfoldable pub new_active : VerifiedGrant → Reading → Result AuthzError ActiveGrant
new_active grant now =
    if not (Verified.live_at (as_secs now.wall) grant)
    then err expired
    else elim (Clock.new (as_secs now.wall) grant.payload.expires_at now) [
      | err e ↦ err lease_invalid
      | ok validity ↦ ok (record { grant = grant; validity = validity })
    ]

unfoldable pub live_at : Reading → ActiveGrant → Bool
live_at now a = Verified.live_at (as_secs now.wall) a.grant && Clock.valid_at a.validity now

abbrev pub live : Option Reading → ActiveGrant → Bool
live clock a = is_some_and clock (λ now. live_at now a)

-- The lease that a state owns.
abbrev pub held : State → Option GrantLease
held (authorizing l) = l
held (granted l) = some l
held (renewing l) = some l
held _ = none

-- The drop of a lease releases its slot.
abbrev pub drop : Option GrantLease → Map (Unit {0}) → Map (Unit {0})
drop none active = active
drop (some l) active = remove l.slot active

-- `std::mem::replace(state, State::Closed)` with the previous value dropped.
abbrev pub closing : Shared → Shared
closing s = record { active = drop (held s.state) s.active; state = closed }

abbrev pub begin : State → State × Result AuthzError (Unit {0})
begin pending = (authorizing none, ok tt)
begin open_state = (open_state, err not_required)
begin closed = (closed, err connection_closed)
begin s = (s, err already_authorizing)

-- The part of `install` from the claim of the slot on.
unfoldable pub reserve : VerifiedGrant → Reading → Shared → Shared × Result AuthzError (Unit {0})
reserve verified now s =
    if is_some (lookup verified.id s.active)
    then (s, err already_in_use)
    else elim (new_active verified now) [
      | err e ↦ (s, err e)
      | ok current ↦ (
        record {
          active = insert verified.id tt s.active;
          state = authorizing (some (record { current = current; slot = verified.id }));
        },
        ok tt,
      )
    ]

-- `Reading::now()`, which may fail, before the claim.
unfoldable pub read_and_reserve :
    Option Reading → VerifiedGrant → Shared → Shared × Result AuthzError (Unit {0})
read_and_reserve none verified s = (s, err clock_unavailable)
read_and_reserve (some now) verified s = reserve verified now s

abbrev pub is_installable : State → Bool
is_installable (authorizing none) = true
is_installable _ = false

unfoldable pub install :
    ℕ
    → Bool
    → RevocationPolicy
    → Option Reading
    → Option Reading
    → VerifiedGrant
    → Shared
    → Shared × Result AuthzError (Unit {0})
install audience is_closed policy checked clock verified s =
    if not (is_installable s.state) || is_closed
    then (s, err interrupted)
    else if not (fresh checked policy)
    then (s, err policy_unavailable)
    else if contains verified.id policy.ids
    then (s, err revoked)
    else if not (verified.payload.audience == audience)
    then (s, err destination_mismatch)
    else read_and_reserve clock verified s

unfoldable pub commit :
    Bool
    → RevocationPolicy
    → Option Reading
    → Option Reading
    → Shared
    → Shared × Result AuthzError (Unit {0})
commit is_closed policy clock checked s = elim s.state [
  | authorizing (some l) ↦
      if not is_closed
        && live clock l.current
        && revocations_permit checked l.current.grant.id policy
      then (record s { state = granted l }, ok tt)
      else (closing s, err interrupted)
  | _ ↦ (closing s, err interrupted)
]

unfoldable pub begin_renewal : State → State × Result AuthzError (Unit {0})
begin_renewal (granted l) = (renewing l, ok tt)
begin_renewal s = (s, err requires_granted)

-- `prepare_renewal` changes nothing: it returns the grant to commit.
unfoldable pub prepare_renewal :
    Option Reading → VerifiedGrant → State → Result AuthzError ActiveGrant
prepare_renewal clock next s = elim s [
  | renewing l ↦ elim clock [
    | none ↦ err clock_unavailable
    | some now ↦
        if not (live_at now l.current)
        then err previous_expired
        else elim (Verified.permits_renewal l.current.grant next) [
          | err e ↦ err invalid_renewal
          | ok advance ↦ if advance then new_active next now else ok l.current
        ]
  ]
  | _ ↦ err renewal_interrupted
]

-- `closed_later` is the second look at `conn.is_closed()`, after the watchdog has got the update.
unfoldable pub commit_renewal :
    ActiveGrant
    → Bool
    → Bool
    → RevocationPolicy
    → Option Reading
    → Option Reading
    → Option Reading
    → Shared
    → Shared × Result AuthzError (Unit {0})
commit_renewal next is_closed closed_later policy clock clock_next checked s = elim s.state [
  | renewing l ↦
      if not is_closed
        && live clock l.current
        && live clock_next next
        && revocations_permit checked next.grant.id policy
        && not closed_later
      then (record s { state = granted (record l { current = next }) }, ok tt)
      else (closing s, err renewal_interrupted)
  | _ ↦ (closing s, err renewal_interrupted)
]

pub data ScopeError : Type 0 where
  pending authorizing closed expired revoked policy_stale : ScopeError

abbrev pub scope_of :
    RevocationPolicy
    → Option Reading
    → Option Reading
    → GrantLease
    → Result ScopeError (Option VerifiedGrant)
scope_of policy clock checked l =
    if not (live clock l.current)
    then err ScopeError.expired
    else if not (fresh checked policy)
    then err policy_stale
    else if contains l.current.grant.id policy.ids
    then err ScopeError.revoked
    else ok (some l.current.grant)

unfoldable pub scope :
    RevocationPolicy
    → Option Reading
    → Option Reading
    → State
    → Result ScopeError (Option VerifiedGrant)
scope policy clock checked s = elim s [
  | State.open_state ↦ ok none
  | State.pending ↦ err ScopeError.pending
  | State.authorizing l ↦ err ScopeError.authorizing
  | State.closed ↦ err ScopeError.closed
  | granted l ↦ scope_of policy clock checked l
  | renewing l ↦ scope_of policy clock checked l
]
