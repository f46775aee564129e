-- ===== src/Grant/Verify/Admits.antt =====
-- When `Grant::verify` (crates/rds-core/src/grant.rs) accepts, and what it has established then.
use remote_device_sync.Base.{
  ℕ, ◌+◌, ◌≤◌, ◌<◌, ◌≡◌, ◌↔◌, ◌&&◌, leb, true, false, List, [], ◌∷◌, some, length, contains, any,
  All, min, u64_max, Result, ok, ok_or, ◌>>=◌, subst, >>=-eq-ok, arith,
}
use remote_device_sync.Crypto.{Crypto}
use remote_device_sync.Grant.{GrantError, malformed, GrantPayload, Grant, VerifiedGrant, Wire}
use remote_device_sync.Grant.Scope.{check_scope_path, components}
use remote_device_sync.Grant.Scope.Confined.{IsPlain, is_normal, check_scope_path-confined}
use remote_device_sync.Grant.Verify.{
  signature_message, check_paths, check_all_paths, check_payload, take_payload, payload_id, decode,
  check_grant, verify, is_bad_tenant,
}
use remote_device_sync.Grant.Verified.{live_at}

-- What a payload must say for the peer, the device and the time at hand.
pub record Admits (crypto : Crypto) (issuers : List ℕ) (subject audience max_ttl now : ℕ)
    (g : Grant) (p : GrantPayload) : Type 0 where
  pub trusted : contains p.issuer issuers ≡ true
  pub key : crypto.key_valid p.issuer ≡ true
  pub sized : length g.signature ≡ 64
  pub signed :
      crypto.verify_strict p.issuer (signature_message p.version g.payload) g.signature ≡ true
  pub for_peer : p.subject ≡ subject
  pub for_device : p.audience ≡ audience
  pub begun : p.not_before ≤ min (now + 30) u64_max
  pub unexpired : now < p.expires_at
  pub short : p.expires_at ≤ p.not_before + max_ttl

module _ (crypto : Crypto) (wire : Wire) (issuers : List ℕ) (subject audience max_ttl now : ℕ)
    (g : Grant) where
  check_grant-Admits :
      (p : GrantPayload) (v : VerifiedGrant)
      → check_grant crypto wire issuers subject audience max_ttl now g p ≡ ok v
      → (v.payload ≡ p)
        × (v.id ≡ payload_id crypto p)
        × Admits crypto issuers subject audience max_ttl now g p
  unfolding check_grant
  check_grant-Admits p v h = ground arith

  Admits-check_grant :
      (p : GrantPayload)
      → Admits crypto issuers subject audience max_ttl now g p
      → check_grant crypto wire issuers subject audience max_ttl now g p
        ≡ ok (record { payload = p; id = payload_id crypto p })
  unfolding check_grant
  Admits-check_grant p a = ground arith

  -- `verify` accepts a grant exactly when its bytes decode to a payload that names a trusted issuer
  -- with a valid key and signature, this peer, this device, and a time that has begun (30 seconds
  -- of skew allowed), has not expired, and is no longer than the maximum. It returns that payload.
  pub verify-iff-Admits :
      (v : VerifiedGrant)
      → (verify crypto wire issuers subject audience max_ttl now g ≡ ok v) ↔ (
          (decode wire g ≡ ok v.payload)
          × (v.id ≡ payload_id crypto v.payload)
          × Admits crypto issuers subject audience max_ttl now g v.payload)
  unfolding verify
  verify-iff-Admits v = (forth, back)
    where
      forth :
          (decode wire g >>= check_grant crypto wire issuers subject audience max_ttl now g) ≡ ok v
          → (decode wire g ≡ ok v.payload)
            × (v.id ≡ payload_id crypto v.payload)
            × Admits crypto issuers subject audience max_ttl now g v.payload
      forth h =
          let (p, d, c) = >>=-eq-ok (decode wire g) _ h in
          let (e, i, a) = check_grant-Admits p v c in (rw e d, rw e i, rw e a)

      back :
          (decode wire g ≡ ok v.payload)
            × (v.id ≡ payload_id crypto v.payload)
            × Admits crypto issuers subject audience max_ttl now g v.payload
          → verify crypto wire issuers subject audience max_ttl now g ≡ ok v
      back (d, i, a) = rw (d, Admits-check_grant v.payload a, ← i)

-- What the decoding of a grant has checked of the payload itself.
pub record WellFormed (g : Grant) (p : GrantPayload) : Type 0 where
  pub payload_bounded : length g.payload ≤ 4096
  pub revised : 0 < p.revision
  pub interval : p.not_before < p.expires_at
  pub services_bounded : length p.services ≤ 32
  pub ports_bounded : (l : List ℕ) → p.constraints.tcp_ports ≡ some l → length l ≤ 128
  pub displays_bounded : (l : List ℕ) → p.constraints.displays ≡ some l → length l ≤ 32
  pub tenant_bounded : (l : List ℕ) → p.tenant ≡ some l → (0 < length l) × (length l ≤ 64)
  pub scopes_bounded :
      (l : List (List ℕ))
      → p.constraints.sync_paths ≡ some l
      → (length l ≤ 64)
        × All (λ path. All IsPlain (components path) × (any is_normal (components path) ≡ true)) l

check_paths-confined :
    (l : List (List ℕ))
    → check_paths l ≡ ok tt
    → All (λ path. All IsPlain (components path) × (any is_normal (components path) ≡ true)) l
unfolding check_paths
check_paths-confined [] h = tt
check_paths-confined (p ∷ ps) h =
    let (_, e, r) = >>=-eq-ok (check_scope_path p) (λ _. check_paths ps) h in
    (check_scope_path-confined p e, check_paths-confined ps r)

tenant_nonempty : (l : List ℕ) → is_bad_tenant l ≡ false → 0 < length l
tenant_nonempty [] h = cc
tenant_nonempty (b ∷ bs) h = omega arith

module _ (g : Grant) (p : GrantPayload) where
  check_payload-scopes :
      (l : List (List ℕ))
      → check_payload p ≡ ok p
      → p.constraints.sync_paths ≡ some l
      → (length l ≤ 64) × (check_paths l ≡ ok tt)
  unfolding check_payload check_all_paths
  check_payload-scopes l h e = ground arith

  check_payload-tenant :
      (l : List ℕ)
      → check_payload p ≡ ok p
      → p.tenant ≡ some l
      → (is_bad_tenant l ≡ false) × (length l ≤ 64)
  unfolding check_payload
  check_payload-tenant l h e = ground arith

  check_payload-WellFormed : length g.payload ≤ 4096 → check_payload p ≡ ok p → WellFormed g p
  check_payload-WellFormed b h = record {
    payload_bounded = b;
    revised = unfold check_payload in ground arith;
    interval = unfold check_payload in ground arith;
    services_bounded = unfold check_payload in ground arith;
    ports_bounded = λ l e. unfold check_payload in ground arith;
    displays_bounded = λ l e. unfold check_payload in ground arith;
    tenant_bounded = λ l e. let (n, m) = check_payload-tenant l h e in (tenant_nonempty l n, m);
    scopes_bounded =
        λ l e. let (n, c) = check_payload-scopes l h e in (n, check_paths-confined l c);
  }

check_payload-same : (p q : GrantPayload) → check_payload p ≡ ok q → p ≡ q
unfolding check_payload
check_payload-same p q h = ground arith

decode-check_payload :
    (wire : Wire) (g : Grant) (p : GrantPayload)
    → decode wire g ≡ ok p
    → (length g.payload ≤ 4096) × (check_payload p ≡ ok p)
unfolding decode
decode-check_payload wire g p h = (ground arith, checked (>>=-eq-ok version_of rest (ground arith)))
  where
    version_of : Result GrantError (ℕ × List ℕ)
    version_of = ok_or (wire.take_u16 g.payload) malformed

    rest : ℕ × List ℕ → Result GrantError GrantPayload
    rest v = take_payload wire v.0 g.payload >>= check_payload

    checked : (v : ℕ × List ℕ) × (version_of ≡ ok v) × (rest v ≡ ok p) → check_payload p ≡ ok p
    checked (v, _, e) =
        let (q, _, c) = >>=-eq-ok (take_payload wire v.0 g.payload) check_payload e in
        subst (λ t. check_payload t ≡ ok p) (check_payload-same q p c) c

-- A grant that decodes is at most 4096 bytes long, and its payload is bounded in every collection,
-- has a positive revision and a nonempty interval, a nonempty tenant if any, and `sync_paths`
-- entries that are relative paths with a named component and no `..`.
pub decode-WellFormed :
    (wire : Wire) (g : Grant) (p : GrantPayload) → decode wire g ≡ ok p → WellFormed g p
decode-WellFormed wire g p h =
    let (b, c) = decode-check_payload wire g p h in check_payload-WellFormed g p b c

-- A verified grant is live at the time of its verification, and is not live at any time `t` from its
-- signed start plus the agent's maximum lifetime on.
pub verify-live_at :
    (crypto : Crypto) (wire : Wire) (issuers : List ℕ) (subject audience max_ttl now t : ℕ)
    (g : Grant) (v : VerifiedGrant)
    → verify crypto wire issuers subject audience max_ttl now g ≡ ok v
    → (live_at now v ≡ true) × ((live_at t v && leb (v.payload.not_before + max_ttl) t) ≡ false)
unfolding live_at
verify-live_at crypto wire issuers subject audience max_ttl now t g v h =
    let (_, _, a) = (verify-iff-Admits crypto wire issuers subject audience max_ttl now g v).0 h in
    (ground arith, ground arith)
