-- ===== src/Agent/Authz/Tests.antt =====
-- Runs of the authorization of connections: two connections that present one grant.
use remote_device_sync.Base.{◌≡◌, ◌≤◌, refl, ◌⊎◌, true, false, List, [], ◌∷◌, none, some}
use remote_device_sync.Base.Map.{lookup, insert}
use remote_device_sync.Grant.{sync, VerifiedGrant}
use remote_device_sync.Grant.Verified
use remote_device_sync.Discovery.Clock
use remote_device_sync.Discovery.Clock.{Reading, Lease}
use remote_device_sync.Agent.Revocations.{RevocationPolicy, fresh, revocations_permit}
use remote_device_sync.Agent.Authz.{
  GrantLease, open_state, granted, new_active, live_at, reserve, read_and_reserve, install, commit,
  scope,
}
use remote_device_sync.Agent.Authz.Exclusive.{reserved, operate, begin_op, install_op, commit_op}
use remote_device_sync.Agent.Authz.System.{
  Step, connect, act, accept, perform, run, empty, owners, run-IsExclusive,
}
use remote_device_sync.Agent.Authz.Access.{IsInForce, scope-IsInForce}

abbrev now : Reading
now = record { boot = 1; wall = 1100000000000; continuous = 5000000000 }

abbrev policy : RevocationPolicy
policy = record { ids = 5 ∷ []; lease = none; revision = none; is_local = true; owner = none }

abbrev grant : VerifiedGrant
grant = record {
  payload = record {
    version = 3;
    revision = 1;
    issuer = 7;
    subject = 8;
    audience = 9;
    nonce = 5;
    services = sync ∷ [];
    not_before = 1000;
    expires_at = 1600;
    constraints = record { max_bps = none; tcp_ports = none; displays = none; sync_paths = none };
    tenant = none;
    policy_revision = none;
  };
  id = 77;
}

abbrev steps : List Step
steps =
    connect 1 true
    ∷ connect 2 true
    ∷ act 1 begin_op
    ∷ act 2 begin_op
    ∷ act 1 (install_op 9 false policy (some now) (some now) grant)
    ∷ act 2 (install_op 9 false policy (some now) (some now) grant)
    ∷ act 1 (commit_op false policy (some now) (some now))
    ∷ []

run-IsExclusive_example :
    (owners 77 (run steps empty).connections ≡ reserved 77 (run steps empty).active)
    × (owners 77 (run steps empty).connections ≤ 1)
run-IsExclusive_example = run-IsExclusive steps 77

-- The first connection owns the grant, the second was refused.
one_owner : owners 77 (run steps empty).connections ≡ 1
unfolding run accept perform operate install read_and_reserve reserve new_active live_at commit
    fresh revocations_permit lookup insert Verified.live_at Clock.new Clock.valid_at
one_owner = refl

abbrev lease : GrantLease
lease = record {
  current = record {
    grant = grant;
    validity = record {
      boot = 1;
      issued_at = 1100;
      expires_at = 1600;
      accepted_wall = 1100000000000;
      accepted_continuous = 5000000000;
      deadline = 505000000000;
    };
  };
  slot = 77;
}

scope-IsInForce_example :
    ((granted lease ≡ open_state) × (some grant ≡ none))
    ⊎ IsInForce policy (some now) (some now) (granted lease) (some grant)
unfolding scope live_at fresh Verified.live_at Clock.valid_at
scope-IsInForce_example =
    scope-IsInForce policy (some now) (some now) (granted lease) (some grant) refl
