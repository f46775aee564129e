-- ===== src/Discovery/Policy/Store/Serves.antt =====
-- What the policy store (crates/rds-discovery/src/policy.rs) hands out.
use remote_device_sync.Base.{ℕ, ◌≤◌, ◌<◌, ◌≡◌, sym, subst, Bool, true, false, List, some, ok, arith}
use remote_device_sync.Discovery.{as_secs}
use remote_device_sync.Discovery.Authority.{Authority, verifying_key}
use remote_device_sync.Discovery.Clock.{Reading, Lease, valid_at, matches_interval}
use remote_device_sync.Discovery.Revocations
use remote_device_sync.Discovery.Revocations.{SignedRevocations, RevocationPayload}
use remote_device_sync.Discovery.Revocations.Laws.{IsIssued, verify-IsIssued}
use remote_device_sync.Discovery.Policy.{
  Decoders, State, check_stamp, validate_revocations, matches,
}
use remote_device_sync.Discovery.Policy.Store.{PolicyStore, opened, check_clock, revocations}
use remote_device_sync.Discovery.Policy.Store.Commits.{Call, run}
use remote_device_sync.Discovery.Policy.Store.Reopens.{opened-Restorable}

module _ (dec : Decoders) where
  -- A snapshot of revocations that is served at a time.
  pub record IsServed (s : PolicyStore) (now : Reading) (snap : SignedRevocations)
      (payload : RevocationPayload) (lease : Lease) : Type 0 where
    pub healthy : s.failed ≡ false
    pub issued : IsIssued dec.crypto snap s.state.authority.key payload
    pub epoch : payload.stamp.authority ≡ s.state.authority
    pub leased : valid_at lease now ≡ true
    pub matched : matches_interval lease payload.issued_at payload.expires_at ≡ true
    pub begun : payload.issued_at ≤ as_secs now.wall
    pub running : as_secs now.wall < payload.expires_at

  revocations_lem :
      (s : PolicyStore) (now : Reading) (snap : SignedRevocations) (payload : RevocationPayload)
      (lease : Lease)
      → revocations dec now s ≡ ok (some (snap, payload, lease))
      → (s.failed ≡ false)
        × (s.state.revocations ≡ some snap)
        × (s.state.revocations_lease ≡ some lease)
        × (valid_at lease now ≡ true)
        × (Revocations.verify dec.crypto dec.revocation snap s.state.authority.key ≡ ok payload)
  unfolding revocations check_clock verifying_key
  revocations_lem s now snap payload lease h =
      (ground arith, ground arith, ground arith, ground arith, ground arith)

  validated_lem :
      (st : State) (key : ℕ) (snap : SignedRevocations) (payload : RevocationPayload)
      → Revocations.verify dec.crypto dec.revocation snap key ≡ ok payload
      → validate_revocations dec st key (some snap) ≡ ok tt
      → (payload.stamp.authority ≡ st.authority)
        × (matches st.revocations_lease payload.issued_at payload.expires_at ≡ true)
  unfolding validate_revocations check_stamp
  validated_lem st key snap payload e h = (ground arith, ground arith)

  running_lem :
      (lease : Lease) (now : Reading) (issued expires : ℕ)
      → valid_at lease now ≡ true
      → matches_interval lease issued expires ≡ true
      → (issued ≤ as_secs now.wall) × (as_secs now.wall < expires)
  unfolding matches_interval valid_at
  running_lem lease now issued expires t m = ground arith

  -- Whatever calls a new store has served: revocations that it hands out carry a valid signature of
  -- the authority then in force and name that authority with its epoch, list at most 1024 grants, run
  -- for at most 300 seconds around the present second, and come with the lease that was taken on their
  -- interval, which is valid now; and no commit has failed.
  pub revocations-IsServed :
      (bootstrap : Authority) (key : ℕ) (durable : Bool) (cs : List Call) (now : Reading)
      (snap : SignedRevocations) (payload : RevocationPayload) (lease : Lease)
      → verifying_key dec.crypto bootstrap ≡ ok key
      → revocations dec now (run dec cs (opened bootstrap durable))
        ≡ ok (some (snap, payload, lease))
      → IsServed (run dec cs (opened bootstrap durable)) now snap payload lease
  revocations-IsServed bootstrap key durable cs now snap payload lease e h =
      let s = run dec cs (opened bootstrap durable) in
      let v = opened-Restorable dec bootstrap key durable cs e in
      let (f, r, l, t, q) = revocations_lem s now snap payload lease h in
      let (_, i) = verify-IsIssued dec.crypto dec.revocation snap s.state.authority.key payload q in
      let (a, m) =
        validated_lem s.state s.state.authority.key snap payload q (rw (sym r) v.revocations) in
      let m' = subst (λ o. matches o payload.issued_at payload.expires_at ≡ true) l m in
      record {
        healthy = f;
        issued = i;
        epoch = a;
        leased = t;
        matched = m';
        begun = (running_lem lease now payload.issued_at payload.expires_at t m').0;
        running = (running_lem lease now payload.issued_at payload.expires_at t m').1;
      }
