-- ===== src/Agent/Authz/Access.antt =====
-- When `ConnAuthz::scope` (crates/rds-agent/src/authz.rs) answers.
use remote_device_sync.Base.{◌≡◌, refl, ◌⊎◌, inl, inr, true, Option, none, some, ok, arith}
use remote_device_sync.Grant.{VerifiedGrant}
use remote_device_sync.Discovery.Clock.{Reading}
use remote_device_sync.Agent.Revocations.{RevocationPolicy, revocations_permit}
use remote_device_sync.Agent.Authz.{
  GrantLease, State, open_state, pending, closed, authorizing, granted, renewing, live, scope_of,
  scope,
}

-- The services of a grant that is held, live at the reading, and permitted by a fresh policy.
pub record IsInForce (policy : RevocationPolicy) (clock checked : Option Reading) (s : State)
    (answer : Option VerifiedGrant) : Type 0 where
  pub lease : GrantLease
  pub holds : (s ≡ granted lease) ⊎ (s ≡ renewing lease)
  pub answers : answer ≡ some lease.current.grant
  pub is_live : live clock lease.current ≡ true
  pub permitted : revocations_permit checked lease.current.grant.id policy ≡ true

module _ (policy : RevocationPolicy) (clock checked : Option Reading) where
  scope_of-IsInForce :
      (l : GrantLease) (s : State) (answer : Option VerifiedGrant)
      → (s ≡ granted l) ⊎ (s ≡ renewing l)
      → scope_of policy clock checked l ≡ ok answer
      → IsInForce policy clock checked s answer
  unfolding revocations_permit
  scope_of-IsInForce l s answer e h = record {
    lease = l;
    holds = e;
    answers = ground (arith, h);
    is_live = ground (arith, h);
    permitted = ground (arith, h);
  }

  -- A connection gets a scope without a grant only if the agent requires none, and otherwise only for the
  -- grant that it holds, committed or under renewal, which is then live at the reading of the clock
  -- and permitted by a revocation policy that is fresh at its reading.
  pub scope-IsInForce :
      (s : State) (answer : Option VerifiedGrant)
      → scope policy clock checked s ≡ ok answer
      → ((s ≡ open_state) × (answer ≡ none)) ⊎ IsInForce policy clock checked s answer
  unfolding scope
  scope-IsInForce open_state answer h = inl (refl, ground (arith, h))
  scope-IsInForce pending answer h = absurd (cc)
  scope-IsInForce closed answer h = absurd (cc)
  scope-IsInForce (authorizing l) answer h = absurd (cc)
  scope-IsInForce (granted l) answer h = inr (scope_of-IsInForce l (granted l) answer (inl refl) h)
  scope-IsInForce (renewing l) answer h =
      inr (scope_of-IsInForce l (renewing l) answer (inr refl) h)
