-- ===== src/Discovery/Policy/Store/Revisions.antt =====
-- The revisions of the snapshots that the policy store (crates/rds-discovery/src/policy.rs) holds: none
-- is replaced by an older one.
use remote_device_sync.Base.{
  ℕ, ◌≤◌, ◌<◌, ◌≡◌, refl, true, inl, inr, List, [], Option, none, some, ok, >>=-eq-ok, arith,
}
use remote_device_sync.Base.ByteMap.{put}
use remote_device_sync.Discovery.Authority.{SnapshotStamp, newer_than}
use remote_device_sync.Discovery.Clock.{Reading}
use remote_device_sync.Discovery.Registry.{
  SignedNameBinding, NameBindingPayload, SignedRegistry, RegistryPayload, verify_committed,
  verify_registry,
}
use remote_device_sync.Discovery.Registry.Laws.{verify_committed-payload, verify_registry-payload}
use remote_device_sync.Discovery.Revocations
use remote_device_sync.Discovery.Revocations.{SignedRevocations, RevocationPayload}
use remote_device_sync.Discovery.Revocations.Laws.{verify-IsIssued}
use remote_device_sync.Discovery.Policy.{
  Decoders, Names, State, replaces_registry, replaces_revocations, add_name, next_names,
}
use remote_device_sync.Discovery.Policy.Store.Names.{next_names-cases, join_names_lem}

module _ (dec : Decoders) where
  -- The revision of a stream's snapshot, 0 where there is none.
  unfoldable pub revocations_revision : Option SignedRevocations → ℕ
  revocations_revision none = 0
  revocations_revision (some snap) = elim (dec.revocation snap.payload) [
    | none ↦ 0
    | some p ↦ p.stamp.revision
  ]

  unfoldable pub registry_revision : Option SignedRegistry → ℕ
  registry_revision none = 0
  registry_revision (some snap) = elim (dec.registry snap.payload) [
    | none ↦ 0
    | some p ↦ p.stamp.revision
  ]

  unfoldable pub names_revision : Option Names → ℕ
  names_revision none = 0
  names_revision (some names) = elim (dec.binding names.anchor.payload) [
    | none ↦ 0
    | some p ↦ p.stamp.revision
  ]

  newer_lem :
      (stamp previous : SnapshotStamp)
      → newer_than stamp previous ≡ ok tt
      → previous.revision < stamp.revision
  unfolding newer_than
  newer_lem stamp previous h = ground arith

  pub replaces_revocations-revision :
      (key : ℕ) (snap : SignedRevocations) (payload : RevocationPayload)
      (previous : Option SignedRevocations)
      → dec.revocation snap.payload ≡ some payload
      → replaces_revocations dec key snap payload previous ≡ ok true
      → revocations_revision previous ≤ revocations_revision (some snap)
  unfolding replaces_revocations revocations_revision newer_than
  replaces_revocations-revision key snap payload none d h = omega arith
  replaces_revocations-revision key snap payload (some previous) d h =
      let (old, e, h') =
        >>=-eq-ok (Revocations.verify dec.crypto dec.revocation previous key) _ h in
      let (q, _) = verify-IsIssued dec.crypto dec.revocation previous key old e in
      rw (d, revocations_revision) (rw (q, revocations_revision) (ground arith))

  pub replaces_registry-revision :
      (key : ℕ) (snap : SignedRegistry) (payload : RegistryPayload)
      (previous : Option SignedRegistry)
      → dec.registry snap.payload ≡ some payload
      → replaces_registry dec key snap payload previous ≡ ok true
      → registry_revision previous ≤ registry_revision (some snap)
  unfolding replaces_registry registry_revision newer_than
  replaces_registry-revision key snap payload none d h = omega arith
  replaces_registry-revision key snap payload (some previous) d h =
      let (old, e, h') =
        >>=-eq-ok (verify_registry dec.crypto dec.binding dec.registry previous key) _ h in
      let q = verify_registry-payload dec.crypto dec.binding dec.registry previous key old e in
      rw (d, registry_revision) (rw (q, registry_revision) (ground arith))

  names_revision_lem :
      (names : Names) (p : NameBindingPayload)
      → dec.binding names.anchor.payload ≡ some p
      → names_revision (some names) ≡ p.stamp.revision
  unfolding names_revision
  names_revision_lem names p d = rw (d, names_revision) refl

  add_name_lem :
      (label : List ℕ) (snap : SignedNameBinding) (p : NameBindingPayload) (names : Names)
      (st next : State)
      → dec.binding snap.payload ≡ some p
      → add_name dec label snap names st ≡ ok (some next)
      → (next ≡ record st { names = next.names }) × (names_revision next.names ≡ p.stamp.revision)
  unfolding add_name
  add_name_lem label snap p names st next d h =
      let added : Names = record {
        anchor = snap;
        hashes = put label (dec.crypto.hash snap.payload) names.hashes;
      } in
      let e : next.names ≡ some added = ground arith in
      (ground arith, rw e (names_revision_lem added p d))

  -- `accept_name` changes the names and their lease only, to a snapshot that is not older.
  pub next_names-revision :
      (key : ℕ) (label : List ℕ) (snap : SignedNameBinding) (p : NameBindingPayload) (now : Reading)
      (st next : State) (names : Option Names)
      → dec.binding snap.payload ≡ some p
      → next_names dec key label snap p now st names ≡ ok (some next)
      → (next ≡ record st { names = next.names; names_lease = next.names_lease })
        × (names_revision names ≤ names_revision next.names)
  unfolding next_names names_revision
  next_names-revision key label snap p now st next none d h = (ground arith, omega arith)
  next_names-revision key label snap p now st next (some names) d h =
      let (old, e, h') = >>=-eq-ok (verify_committed dec.crypto dec.binding names.anchor key) _ h in
      let q = verify_committed-payload dec.crypto dec.binding names.anchor key old e in
      let was = names_revision_lem names old q in
      elim (next_names-cases dec key label snap p old now st next names h e) [
        | inl (same, joined) ↦
            let (_, _, added) = join_names_lem dec label snap p old names now st next joined in
            let (n, r) = add_name_lem label snap p names st next d added in
            (ground (arith, n), ground (arith, same, r, was))
        | inr (newer, (lease, leased, added)) ↦
            let (n, r) =
              add_name_lem label snap p (record names { hashes = [] })
                (record st { names_lease = some lease }) next d added in
            (ground (arith, n), ground (arith, newer_lem p.stamp old.stamp newer, r, was))
      ]
