-- ===== src/Grant/Verify.antt =====
-- crates/rds-core/src/grant.rs, `Grant::decode`, `Grant::id` and `Grant::verify`.
pub mod Admits
use remote_device_sync.Base.{
  ℕ, ◌-◌, Bool, true, false, ◌||◌, ◌&&◌, not, List, [], ◌∷◌, ◌++◌, Option, some, none, ltb, leb,
  ◌==◌, if◌then◌else◌, length, contains, any, is_some_and, saturating_add, Result, ok, err, ensure,
  ok_or, ◌>>=◌, ◌>>◌,
}
use remote_device_sync.Base.Text.{bytes, be_bytes}
use remote_device_sync.Crypto.{Crypto}
use remote_device_sync.Grant.{
  GrantError, malformed, untrusted_issuer, bad_signature, wrong_subject, wrong_audience, version,
  invalid_interval, invalid_revision, not_yet_valid, expired, oversized, ttl_exceeded,
  GrantConstraints, GrantPayload, GrantPayloadV2, Grant, VerifiedGrant, Wire, skew_secs,
  grant_version, grant_version_min, max_payload_len, max_services, max_tcp_ports, max_displays,
  max_tenant_len, max_sync_paths,
}
use remote_device_sync.Grant.Scope.{check_scope_path}

abbrev pub domain_v2 : List ℕ
domain_v2 = bytes "rds/capability-grant/v2" ++ (0 ∷ [])

abbrev pub domain_v3 : List ℕ
domain_v3 = bytes "rds/capability-grant/v3" ++ (0 ∷ [])

abbrev pub id_domain : List ℕ
id_domain = bytes "rds/grant-session/v2" ++ (0 ∷ [])

unfoldable pub signature_message : ℕ → List ℕ → List ℕ
signature_message v payload = (if v == grant_version_min then domain_v2 else domain_v3) ++ payload

-- `impl From<GrantPayloadV2> for GrantPayload`.
unfoldable pub from_v2 : GrantPayloadV2 → GrantPayload
from_v2 old = record {
  version = old.version;
  revision = old.revision;
  issuer = old.issuer;
  subject = old.subject;
  audience = old.audience;
  nonce = old.nonce;
  services = old.services;
  not_before = old.not_before;
  expires_at = old.expires_at;
  constraints = record {
    max_bps = old.constraints.max_bps;
    tcp_ports = old.constraints.tcp_ports;
    displays = old.constraints.displays;
    sync_paths = none;
  };
  tenant = none;
  policy_revision = none;
}

-- The test of `take_from_bytes` that follows each decoding: nothing may be left.
abbrev pub whole {ℓ} : {A : Type ℓ} → Option (A × List ℕ) → Option A
whole (some (a, [])) = some a
whole _ = none

-- The loop `for path in paths { check_scope_path(path)?; }`.
unfoldable pub check_paths : List (List ℕ) → Result GrantError (Unit {0})
check_paths [] = ok tt
check_paths (p ∷ ps) = let rest = check_paths ps in check_scope_path p >> rest

unfoldable pub check_all_paths : Option (List (List ℕ)) → Result GrantError (Unit {0})
unfolding check_paths
check_all_paths none = ok tt
check_all_paths (some ps) = check_paths ps

abbrev pub over {ℓ} : {A : Type ℓ} → Option (List A) → ℕ → Bool
over o n = is_some_and o (λ l. ltb n (length l))

abbrev pub is_oversized : GrantPayload → Bool
is_oversized p =
    ltb max_services (length p.services)
    || over p.constraints.tcp_ports max_tcp_ports
    || over p.constraints.displays max_displays
    || over p.constraints.sync_paths max_sync_paths
    || over p.tenant max_tenant_len

abbrev pub is_bad_tenant : List ℕ → Bool
is_bad_tenant [] = true
is_bad_tenant (b ∷ bs) = any (λ c. ltb c 0x21 || c == 0x7f) (b ∷ bs)

-- The checks of `decode` on the decoded payload.
unfoldable pub check_payload : GrantPayload → Result GrantError GrantPayload
check_payload p = do
  ensure (not (p.revision == 0)) invalid_revision
  ensure (ltb p.not_before p.expires_at) invalid_interval
  ensure (not (is_oversized p)) oversized
  ensure (not (is_some_and p.tenant is_bad_tenant)) malformed
  check_all_paths p.constraints.sync_paths
  ok p

module _ (crypto : Crypto) where
  -- `GrantPayload::id`.
  unfoldable pub payload_id : GrantPayload → ℕ
  payload_id p = crypto.hash (
      id_domain
      ++ (be_bytes 32 p.issuer
          ++ (be_bytes 32 p.subject ++ (be_bytes 32 p.audience ++ be_bytes 16 p.nonce))))

module _ (wire : Wire) where
  -- The `match version` of `decode`.
  unfoldable pub take_payload : ℕ → List ℕ → Result GrantError GrantPayload
  unfolding from_v2
  take_payload v payload =
      if v == grant_version_min
      then (do old ← ok_or (whole (wire.take_v2 payload)) malformed; ok (from_v2 old))
      else if v == grant_version
      then ok_or (whole (wire.take_v3 payload)) malformed
      else err version

  unfoldable pub decode : Grant → Result GrantError GrantPayload
  decode g = do
    ensure (not (ltb max_payload_len (length g.payload))) oversized
    (v, _) ← ok_or (wire.take_u16 g.payload) malformed
    payload ← take_payload v g.payload
    check_payload payload

module _ (crypto : Crypto) (wire : Wire) where
  -- `Grant::id`.
  unfoldable pub id : Grant → Result GrantError ℕ
  id g = do payload ← decode wire g; ok (payload_id crypto payload)

  -- The checks of `verify` after the decoding.
  unfoldable pub check_grant :
      List ℕ → ℕ → ℕ → ℕ → ℕ → Grant → GrantPayload → Result GrantError VerifiedGrant
  check_grant issuers subject audience max_ttl now g p = do
    ensure (contains p.issuer issuers) untrusted_issuer
    ensure (crypto.key_valid p.issuer) malformed
    ensure (length g.signature == 64) malformed
    ensure (crypto.verify_strict p.issuer (signature_message p.version g.payload) g.signature)
        bad_signature
    ensure (p.subject == subject) wrong_subject
    ensure (p.audience == audience) wrong_audience
    ensure (not (ltb (saturating_add now skew_secs) p.not_before)) not_yet_valid
    ensure (not (leb p.expires_at now)) expired
    let ttl = p.expires_at - p.not_before
    ensure (not (ltb max_ttl ttl)) (ttl_exceeded ttl)
    ok (record { payload = p; id = payload_id crypto p })

  unfoldable pub verify : List ℕ → ℕ → ℕ → ℕ → ℕ → Grant → Result GrantError VerifiedGrant
  verify issuers subject audience max_ttl now g = do
    p ← decode wire g
    check_grant issuers subject audience max_ttl now g p
