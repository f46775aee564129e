-- ===== src/Grant/Verified/Permits.antt =====
-- What `permits_sync_path` and the directional capabilities (crates/rds-core/src/grant.rs) let
-- through, for a grant that `verify` has accepted.
use remote_device_sync.Base.{
  ℕ, zero, suc, ◌≡◌, refl, ◌⊎◌, inl, inr, Bool, true, false, ◌||◌, ◌&&◌, List, [], ◌∷◌, ◌++◌, some,
  any, All, get_elem?, ok, Bool-cases, subst, arith,
}
use mathlib.Core.Option.{some-injective}
use remote_device_sync.Crypto.{Crypto}
use remote_device_sync.Grant.{Grant, VerifiedGrant, Wire, ServiceKind, desktop, sync}
use remote_device_sync.Grant.Scope.{Component, components}
use remote_device_sync.Grant.Scope.Confined.{IsPlain, is_normal}
use remote_device_sync.Grant.Verify.{verify}
use remote_device_sync.Grant.Verify.Admits.{verify-iff-Admits, decode-WellFormed}
use remote_device_sync.Grant.Verified.{
  same, Component-discrete, starts_with, path_eq, permits_sync_path, permits, permits_service,
  permits_desktop_view, permits_desktop_control, permits_sync_read, permits_sync_write,
}

same→eq {ℓ} : {A : Type ℓ} (dec : Discrete A) (a b : A) → same dec a b ≡ true → a ≡ b
same→eq dec a b h = ground arith

and_parts : (a b : Bool) → (a && b) ≡ true → (a ≡ true) × (b ≡ true)
and_parts a b h = ground arith

starts_with-append :
    (rel scope : List Component)
    → starts_with rel scope ≡ true
    → (rest : List Component) × (rel ≡ scope ++ rest)
unfolding starts_with
starts_with-append rel [] h = (rel, refl)
starts_with-append [] (s ∷ ss) h = cc
starts_with-append (r ∷ rs) (s ∷ ss) h =
    let (e, t) = and_parts _ (starts_with rs ss) h in
    let (rest, f) = starts_with-append rs ss t in (rest, rw (same→eq Component-discrete r s e, f))

path_eq-starts_with :
    (rel scope : List Component) → path_eq rel scope ≡ true → starts_with rel scope ≡ true
unfolding path_eq starts_with
path_eq-starts_with [] [] h = refl
path_eq-starts_with (r ∷ rs) (s ∷ ss) h =
    let (e, t) = and_parts _ (path_eq rs ss) h in rw e (path_eq-starts_with rs ss t)
path_eq-starts_with [] (s ∷ ss) h = cc
path_eq-starts_with (r ∷ rs) [] h = cc

abbrev covers : List ℕ → List ℕ → Bool
covers rel scope =
    path_eq (components rel) (components scope) || starts_with (components rel) (components scope)

-- The first entry of a list that passes a test.
pub record Found {ℓ} {A : Type ℓ} (p : A → Bool) (xs : List A) : Type ℓ where
  pub index : ℕ
  pub value : A
  pub stands : get_elem? xs index ≡ some value
  pub passes : p value ≡ true

any-Found {ℓ} : {A : Type ℓ} (p : A → Bool) (xs : List A) → any p xs ≡ true → Found p xs
any-Found p [] h = absurd (ground arith)
any-Found {A} p (x ∷ xs) h = go (Bool-cases (p x)) (any-Found p xs)
  where
    later : Found p xs → Found p (x ∷ xs)
    later f = record { index = suc f.index; value = f.value; stands = f.stands; passes = f.passes }

    go : ((p x ≡ true) ⊎ (p x ≡ false)) → (any p xs ≡ true → Found p xs) → Found p (x ∷ xs)
    go (inl e) _ = record { index = 0; value = x; stands = refl; passes = e }
    go (inr e) ih = later (ih (rw e at h))

All-get_elem? {ℓ κ} :
    {A : Type ℓ} (P : A → Type κ) (xs : List A) (i : ℕ) (x : A)
    → All P xs
    → get_elem? xs i ≡ some x
    → P x
All-get_elem? P [] i x a h = cc
All-get_elem? P (y ∷ xs) zero x a h = subst P (some-injective y x h) a.0
All-get_elem? P (y ∷ xs) (suc i) x a h = All-get_elem? P xs i x a.1 h

-- The path lies under one of the scopes, which is itself a plain relative path with a name.
pub record IsUnder (scopes : List (List ℕ)) (rel : List ℕ) : Type 0 where
  pub index : ℕ
  pub scope : List ℕ
  pub rest : List Component
  pub listed : get_elem? scopes index ≡ some scope
  pub below : components rel ≡ components scope ++ rest
  pub plain : All IsPlain (components scope)
  pub named : any is_normal (components scope) ≡ true

covers-append :
    (rel scope : List ℕ)
    → covers rel scope ≡ true
    → (rest : List Component) × (components rel ≡ components scope ++ rest)
covers-append rel scope h = go (Bool-cases (path_eq (components rel) (components scope)))
  where
    go :
        ((path_eq (components rel) (components scope) ≡ true)
          ⊎ (path_eq (components rel) (components scope) ≡ false))
        → (rest : List Component) × (components rel ≡ components scope ++ rest)
    go (inl e) = starts_with-append _ _ (path_eq-starts_with _ _ e)
    go (inr e) = starts_with-append _ _ (rw e at h)

permits_sync_path-Found :
    (rel : List ℕ) (v : VerifiedGrant) (scopes : List (List ℕ))
    → v.payload.constraints.sync_paths ≡ some scopes
    → permits_sync_path rel v ≡ true
    → Found (covers rel) scopes
unfolding permits_sync_path
permits_sync_path-Found rel v scopes e h = any-Found (covers rel) scopes (rw e at h)

-- Where a verified grant lists `sync_paths`, each path that it permits has the components of a
-- listed scope in front, and that scope is relative, free of `..` and has a named component.
pub permits_sync_path-IsUnder :
    (crypto : Crypto) (wire : Wire) (issuers : List ℕ) (subject audience max_ttl now : ℕ)
    (g : Grant) (v : VerifiedGrant) (scopes : List (List ℕ)) (rel : List ℕ)
    → verify crypto wire issuers subject audience max_ttl now g ≡ ok v
    → v.payload.constraints.sync_paths ≡ some scopes
    → permits_sync_path rel v ≡ true
    → IsUnder scopes rel
permits_sync_path-IsUnder crypto wire issuers subject audience max_ttl now g v scopes rel h e p =
    let (d, _, _) = (verify-iff-Admits crypto wire issuers subject audience max_ttl now g v).0 h in
    let checked = (decode-WellFormed wire g v.payload d).scopes_bounded scopes e in
    let f = permits_sync_path-Found rel v scopes e p in
    let (rest, below) = covers-append rel f.value f.passes in
    let (plain, named) =
      All-get_elem?
        (λ path. All IsPlain (components path) × (any is_normal (components path) ≡ true)) scopes
        f.index f.value checked.1 f.stands in
    record {
      index = f.index;
      scope = f.value;
      rest = rest;
      listed = f.stands;
      below = below;
      plain = plain;
      named = named;
    }

-- Control of a desktop implies a view of it and so the opening of a desktop stream; a stream for
-- files is opened exactly for those who may read or write; and a grant without the broad `Sync` and
-- `Desktop` services reads, writes and views only by the narrow service that says so.
pub narrow_capabilities :
    (v : VerifiedGrant)
    → (permits_desktop_control v ≡ true → permits_service desktop v ≡ true)
      × (permits_service sync v ≡ (permits_sync_read v || permits_sync_write v))
      × (permits sync v ≡ false
          → (permits_sync_read v ≡ permits ServiceKind.sync_read v)
            × (permits_sync_write v ≡ permits ServiceKind.sync_write v))
      × (permits desktop v ≡ false
          → permits_desktop_control v ≡ true
          → (permits ServiceKind.desktop_view v ≡ true)
            × (permits ServiceKind.desktop_control v ≡ true))
unfolding permits_service permits_desktop_view permits_desktop_control permits_sync_read
    permits_sync_write
narrow_capabilities v =
    (λ h. ground arith, refl, λ h. (rw h, rw h), λ h k. (ground arith, ground arith))
