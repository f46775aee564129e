-- ===== src/Grant/Verified.antt =====
-- crates/rds-core/src/grant.rs, `VerifiedGrant`: what a verified grant permits, and its renewal.
pub mod Renewal
pub mod Permits
use remote_device_sync.Base.{
  ℕ, Bool, true, false, ◌||◌, ◌&&◌, not, List, [], ◌∷◌, Option, some, none, ltb, leb, ◌==◌,
  if◌then◌else◌, contains, any, is_none_or, saturating_add, Result, ok, err, ℕ_discrete,
}
use mathlib.Core.Bool.{decide}
use remote_device_sync.Grant.{
  ServiceKind, ping, info, tcp, desktop, sync, audio, sync_read, sync_write, desktop_view,
  desktop_control, GrantError, invalid_renewal, GrantConstraints, GrantPayload, VerifiedGrant,
  skew_secs,
}
use remote_device_sync.Grant.Scope.{Component, components}

unfoldable pub ServiceKind-discrete : Discrete ServiceKind
ServiceKind-discrete = hlevel

unfoldable pub services-discrete : Discrete (List ServiceKind)
services-discrete = hlevel ServiceKind-discrete

unfoldable pub GrantConstraints-discrete : Discrete GrantConstraints
GrantConstraints-discrete = hlevel ℕ_discrete

unfoldable pub tenant-discrete : Discrete (Option (List ℕ))
tenant-discrete = hlevel ℕ_discrete

unfoldable pub revision-discrete : Discrete (Option ℕ)
revision-discrete = hlevel ℕ_discrete

unfoldable pub GrantPayload-discrete : Discrete GrantPayload
GrantPayload-discrete = hlevel ℕ_discrete

unfoldable pub Component-discrete : Discrete Component
Component-discrete = hlevel ℕ_discrete

abbrev pub same {ℓ} : {A : Type ℓ} → Discrete A → A → A → Bool
same dec a b = elim (dec a b) [ yes e ↦ true | no e ↦ false ]

-- The `||` chain of `permits_renewal`: the renewal changes scope or does not advance.
abbrev pub is_bad_renewal : VerifiedGrant → VerifiedGrant → Bool
is_bad_renewal old next =
    not (old.id == next.id)
    || not (same services-discrete old.payload.services next.payload.services)
    || not (same GrantConstraints-discrete old.payload.constraints next.payload.constraints)
    || not (same tenant-discrete old.payload.tenant next.payload.tenant)
    || not (same revision-discrete old.payload.policy_revision next.payload.policy_revision)
    || leb next.payload.revision old.payload.revision
    || ltb next.payload.not_before old.payload.not_before
    || leb next.payload.expires_at old.payload.expires_at

unfoldable pub permits_renewal : VerifiedGrant → VerifiedGrant → Result GrantError Bool
permits_renewal old next =
    if same GrantPayload-discrete old.payload next.payload
    then ok false
    else if is_bad_renewal old next
    then err invalid_renewal
    else ok true

unfoldable pub permits : ServiceKind → VerifiedGrant → Bool
permits service v = any (λ s. same ServiceKind-discrete s service) v.payload.services

unfoldable pub permits_sync_read : VerifiedGrant → Bool
permits_sync_read v = permits sync v || permits sync_read v

unfoldable pub permits_sync_write : VerifiedGrant → Bool
permits_sync_write v = permits sync v || permits sync_write v

unfoldable pub permits_desktop_view : VerifiedGrant → Bool
permits_desktop_view v = permits desktop v || permits desktop_view v

unfoldable pub permits_desktop_control : VerifiedGrant → Bool
permits_desktop_control v =
    permits desktop v || (permits desktop_view v && permits desktop_control v)

unfoldable pub permits_service : ServiceKind → VerifiedGrant → Bool
permits_service sync v = permits_sync_read v || permits_sync_write v
permits_service desktop v = permits_desktop_view v
permits_service other v = permits other v

unfoldable pub permits_port : ℕ → VerifiedGrant → Bool
permits_port port v = is_none_or v.payload.constraints.tcp_ports (contains port)

unfoldable pub permits_display : ℕ → VerifiedGrant → Bool
permits_display display v = is_none_or v.payload.constraints.displays (contains display)

-- `Path::starts_with`: by whole components. Equal paths are one case of it.
unfoldable pub starts_with : List Component → List Component → Bool
starts_with rel [] = true
starts_with [] (s ∷ ss) = false
starts_with (r ∷ rs) (s ∷ ss) = same Component-discrete r s && starts_with rs ss

unfoldable pub path_eq : List Component → List Component → Bool
path_eq [] [] = true
path_eq (r ∷ rs) (s ∷ ss) = same Component-discrete r s && path_eq rs ss
path_eq _ _ = false

unfoldable pub permits_sync_path : List ℕ → VerifiedGrant → Bool
permits_sync_path rel v = is_none_or v.payload.constraints.sync_paths (
    any (λ scope.
      path_eq (components rel) (components scope)
      || starts_with (components rel) (components scope)))

unfoldable pub live_at : ℕ → VerifiedGrant → Bool
live_at now v =
    leb v.payload.not_before (saturating_add now skew_secs) && ltb now v.payload.expires_at
