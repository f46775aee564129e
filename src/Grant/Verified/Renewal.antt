-- ===== src/Grant/Verified/Renewal.antt =====
-- `VerifiedGrant::permits_renewal` (crates/rds-core/src/grant.rs): what a chain of renewals keeps.
use remote_device_sync.Base.{
  ℕ, ◌≤◌, ◌<◌, ◌≡◌, refl, ◌⊎◌, inl, inr, Bool, true, false, List, ok, Bool-cases, ◌∙◌, ap, arith,
}
use remote_device_sync.Grant.{ServiceKind, GrantPayload, VerifiedGrant}
use remote_device_sync.Grant.Verified.{
  same, is_bad_renewal, permits_renewal, permits_service, permits_desktop_control,
  permits_desktop_view, permits_sync_read, permits_sync_write, permits_port, permits_display,
  permits_sync_path, permits, GrantPayload-discrete, services-discrete, GrantConstraints-discrete,
  tenant-discrete, revision-discrete,
}

-- A live authorization, replaced any number of times by grants that `permits_renewal` accepts.
pub data Renewed (v : VerifiedGrant) : VerifiedGrant → Type 0 where
  original : Renewed v v
  renewed :
      {w x : VerifiedGrant} → Renewed v w → (b : Bool) → permits_renewal w x ≡ ok b → Renewed v x

-- What does not change, and what only grows.
pub record Extends (v w : VerifiedGrant) : Type 0 where
  pub services : v.payload.services ≡ w.payload.services
  pub constraints : v.payload.constraints ≡ w.payload.constraints
  pub tenant : v.payload.tenant ≡ w.payload.tenant
  pub policy_revision : v.payload.policy_revision ≡ w.payload.policy_revision
  pub not_before : v.payload.not_before ≤ w.payload.not_before
  pub advances :
      (v.payload ≡ w.payload)
      ⊎ ((v.payload.revision < w.payload.revision) × (v.payload.expires_at < w.payload.expires_at))

same→eq {ℓ} : {A : Type ℓ} (dec : Discrete A) (a b : A) → same dec a b ≡ true → a ≡ b
same→eq dec a b h = ground arith

eq_of_payload : (v w : VerifiedGrant) → v.payload ≡ w.payload → Extends v w
eq_of_payload v w e = record {
  services = ap (λ (p : GrantPayload). p.services) e;
  constraints = ap (λ (p : GrantPayload). p.constraints) e;
  tenant = ap (λ (p : GrantPayload). p.tenant) e;
  policy_revision = ap (λ (p : GrantPayload). p.policy_revision) e;
  not_before = omega (arith, ap (λ (p : GrantPayload). p.not_before) e);
  advances = inl e;
}

good_renewal-Extends : (w x : VerifiedGrant) → is_bad_renewal w x ≡ false → Extends w x
good_renewal-Extends w x h = record {
  services = same→eq services-discrete _ _ (ground arith);
  constraints = same→eq GrantConstraints-discrete _ _ (ground arith);
  tenant = same→eq tenant-discrete _ _ (ground arith);
  policy_revision = same→eq revision-discrete _ _ (ground arith);
  not_before = ground arith;
  advances = inr (ground arith, ground arith);
}

permits_renewal-Extends :
    (w x : VerifiedGrant) (b : Bool) → permits_renewal w x ≡ ok b → Extends w x
unfolding permits_renewal
permits_renewal-Extends w x b h =
    go (Bool-cases (same GrantPayload-discrete w.payload x.payload))
      (Bool-cases (is_bad_renewal w x))
  where
    go :
        ((same GrantPayload-discrete w.payload x.payload ≡ true)
          ⊎ (same GrantPayload-discrete w.payload x.payload ≡ false))
        → ((is_bad_renewal w x ≡ true) ⊎ (is_bad_renewal w x ≡ false))
        → Extends w x
    go (inl e) _ = eq_of_payload w x (same→eq GrantPayload-discrete _ _ e)
    go (inr _) (inr f) = good_renewal-Extends w x f
    go (inr e) (inl f) = absurd (cc (rw (e, f) at h))

Extends-trans : (v w x : VerifiedGrant) → Extends v w → Extends w x → Extends v x
Extends-trans v w x a b = record {
  services = a.services ∙ b.services;
  constraints = a.constraints ∙ b.constraints;
  tenant = a.tenant ∙ b.tenant;
  policy_revision = a.policy_revision ∙ b.policy_revision;
  not_before = omega arith;
  advances = go a.advances b.advances;
}
  where
    abbrev_lt : VerifiedGrant → VerifiedGrant → Type 0
    abbrev_lt p q =
        (p.payload.revision < q.payload.revision) × (p.payload.expires_at < q.payload.expires_at)

    go :
        ((v.payload ≡ w.payload) ⊎ abbrev_lt v w)
        → ((w.payload ≡ x.payload) ⊎ abbrev_lt w x)
        → (v.payload ≡ x.payload) ⊎ abbrev_lt v x
    go (inl e) (inl f) = inl (e ∙ f)
    go (inl e) (inr f) = inr (ground arith)
    go (inr e) (inl f) = inr (ground arith)
    go (inr e) (inr f) = inr (ground arith)

-- Along any chain of accepted renewals the services, constraints, tenant and policy revision stay
-- what they were, the start never moves back, and either nothing has changed or both the revision
-- and the expiry have advanced.
pub Renewed-Extends : {v w : VerifiedGrant} → Renewed v w → Extends v w
Renewed-Extends {v} original = eq_of_payload v v refl
Renewed-Extends {v} (renewed {w = w} {x = x} r b h) =
    Extends-trans v w x (Renewed-Extends r) (permits_renewal-Extends w x b h)

permits_service-same :
    (v w : VerifiedGrant)
    → v.payload.services ≡ w.payload.services
    → (s : ServiceKind) → permits_service s w ≡ permits_service s v
unfolding permits_service permits permits_sync_read permits_sync_write permits_desktop_view
permits_service-same v w e ServiceKind.sync = rw e
permits_service-same v w e ServiceKind.desktop = rw e
permits_service-same v w e _ = rw e

-- A chain of accepted renewals answers every question of permission as the first grant does: the
-- services, reading, writing and controlling, each port, display and path.
pub Renewed-permits :
    {v w : VerifiedGrant}
    → Renewed v w
    → ((s : ServiceKind) → permits_service s w ≡ permits_service s v)
      × (permits_sync_read w ≡ permits_sync_read v)
      × (permits_sync_write w ≡ permits_sync_write v)
      × (permits_desktop_control w ≡ permits_desktop_control v)
      × ((port : ℕ) → permits_port port w ≡ permits_port port v)
      × ((display : ℕ) → permits_display display w ≡ permits_display display v)
      × ((rel : List ℕ) → permits_sync_path rel w ≡ permits_sync_path rel v)
unfolding permits_desktop_control permits_desktop_view permits_sync_read permits_sync_write
    permits_port permits_display permits_sync_path permits
Renewed-permits {v} {w} r =
    let e = Renewed-Extends r in
    (
      permits_service-same v w e.services,
      rw e.services,
      rw e.services,
      rw e.services,
      λ port. rw e.constraints,
      λ display. rw e.constraints,
      λ rel. rw e.constraints,
    )
