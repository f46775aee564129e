-- ===== src/Grant/Scope/Confined.antt =====
-- What `check_scope_path` (crates/rds-core/src/grant.rs) accepts stays below the sync root.
use remote_device_sync.Base.{
  ℕ, ◌+◌, ◌≤◌, ◌≡◌, refl, ◌≢◌, ◌⊎◌, inl, inr, Bool, true, false, ◌||◌, List, [], ◌∷◌, ◌++◌, ◌==◌,
  contains, get_or, All, any, Result, ok, err, Result-cases, Bool-cases, arith, ap, subst, sym, ◌∙◌,
  ==_iff,
}
use remote_device_sync.Grant.{GrantError}
use remote_device_sync.Grant.Scope.{
  is_slash, is_separator, push_head, split, Part, part, count_components, check_scope_path,
  Component, body_component, body_components, lead, components,
}

abbrev is_parent : List ℕ → Bool
is_parent w = elim (part w) [ Part.parent ↦ true | _ ↦ false ]

abbrev is_real : List ℕ → Bool
is_real w = elim (part w) [ Part.real ↦ true | _ ↦ false ]

abbrev NoParent : List (List ℕ) → Type 0
NoParent = All (λ w. is_parent w ≡ false)

-- The loop returns only when it met no `..`, and its count grows only on a real part.
count_components-NoParent :
    (ws : List (List ℕ)) (n m : ℕ)
    → count_components ws n ≡ ok m
    → NoParent ws × (n ≤ m) × ((n ≡ m) ⊎ (any is_real ws ≡ true))
unfolding count_components
count_components-NoParent [] n m h = (tt, ground arith, ground arith)
count_components-NoParent (w ∷ ws) n m h =
    ground (arith, count_components-NoParent ws n m, count_components-NoParent ws (n + 1) m)

real_of_backslash : (w : List ℕ) → contains b'\\' w ≡ true → part w ≡ Part.real
real_of_backslash [] h = cc
real_of_backslash (x ∷ []) h = ground arith
real_of_backslash (x ∷ y ∷ []) h = ground arith
real_of_backslash (x ∷ y ∷ z ∷ w) h = ground arith

-- How the split at both separators (left) and the split at `/` alone (right) go together.
abbrev Agree : List (List ℕ) → List (List ℕ) → Type 0
Agree [] ss = ⊥
Agree (b ∷ bs) [] = ⊥
Agree (b ∷ bs) (s ∷ ss) =
    ((b ≡ s) ⊎ (contains b'\\' s ≡ true))
    × (NoParent bs → NoParent ss)
    × (any is_real bs ≡ true → any is_real (s ∷ ss) ≡ true)

real_of_cons : (c : ℕ) (w : List ℕ) → is_real w ≡ true → is_real (c ∷ w) ≡ true
real_of_cons c [] h = cc
real_of_cons c (x ∷ []) h = ground arith
real_of_cons c (x ∷ y ∷ w) h = ground arith

or_left : (x y : Bool) → x ≡ true → (x || y) ≡ true
or_left true y h = refl
or_left false y h = cc

or_right : (x y : Bool) → y ≡ true → (x || y) ≡ true
or_right true y h = refl
or_right false y h = h

or_split : (x y : Bool) → (x || y) ≡ true → (x ≡ true) ⊎ (y ≡ true)
or_split true y h = inl refl
or_split false y h = inr h

not_parent_of_backslash : (w : List ℕ) → contains b'\\' w ≡ true → is_parent w ≡ false
not_parent_of_backslash w h = ground (arith, real_of_backslash w h)

real-true_of_backslash : (w : List ℕ) → contains b'\\' w ≡ true → is_real w ≡ true
real-true_of_backslash w h = ground (arith, real_of_backslash w h)

Agree-NoParent : (bs ss : List (List ℕ)) → Agree bs ss → NoParent bs → NoParent ss
Agree-NoParent [] ss a h = absurd a
Agree-NoParent (b ∷ bs) [] a h = absurd a
Agree-NoParent (b ∷ bs) (s ∷ ss) a h = (head a.0, a.1 h.1)
  where
    head : ((b ≡ s) ⊎ (contains b'\\' s ≡ true)) → is_parent s ≡ false
    head (inl e) = subst (λ t. is_parent t ≡ false) e h.0
    head (inr e) = not_parent_of_backslash s e

Agree-any_real :
    (bs ss : List (List ℕ)) → Agree bs ss → any is_real bs ≡ true → any is_real ss ≡ true
Agree-any_real [] ss a h = absurd a
Agree-any_real (b ∷ bs) [] a h = absurd a
Agree-any_real (b ∷ bs) (s ∷ ss) a h = go a.0 (or_split (is_real b) (any is_real bs) h)
  where
    go :
        ((b ≡ s) ⊎ (contains b'\\' s ≡ true))
        → ((is_real b ≡ true) ⊎ (any is_real bs ≡ true))
        → any is_real (s ∷ ss) ≡ true
    go _ (inr t) = a.2 t
    go (inl e) (inl r) = or_left _ _ (subst (λ t. is_real t ≡ true) e r)
    go (inr e) (inl r) = or_left _ _ (real-true_of_backslash s e)

Agree-push_head :
    (c : ℕ) (bs ss : List (List ℕ)) → Agree bs ss → Agree (push_head c bs) (push_head c ss)
Agree-push_head c [] ss a = absurd a
Agree-push_head c (b ∷ bs) [] a = absurd a
Agree-push_head c (b ∷ bs) (s ∷ ss) a =
    (head a.0, a.1, λ h. tail (or_split (is_real s) (any is_real ss) (a.2 h)))
  where
    head : ((b ≡ s) ⊎ (contains b'\\' s ≡ true)) → (c ∷ b ≡ c ∷ s) ⊎ (contains b'\\' (c ∷ s) ≡ true)
    head (inl e) = inl (ap (λ t. c ∷ t) e)
    head (inr e) = inr (or_right _ _ e)

    tail : ((is_real s ≡ true) ⊎ (any is_real ss ≡ true)) → any is_real ((c ∷ s) ∷ ss) ≡ true
    tail (inl r) = or_left _ _ (real_of_cons c s r)
    tail (inr r) = or_right _ _ r

-- A `\` ends a part on the left only.
Agree-backslash : (bs ss : List (List ℕ)) → Agree bs ss → Agree ([] ∷ bs) (push_head b'\\' ss)
Agree-backslash [] ss a = absurd a
Agree-backslash (b ∷ bs) [] a = absurd a
Agree-backslash (b ∷ bs) (s ∷ ss) a = (
  inr refl,
  λ h. a.1 h.1,
  λ h. or_left _ (any is_real ss) (real-true_of_backslash (b'\\' ∷ s) refl),
)

Agree-split : (cs : List ℕ) → Agree (split is_separator cs) (split is_slash cs)
unfolding split
Agree-split [] = (inl refl, λ h. h, λ h. h)
Agree-split (c ∷ cs) = elim (Bool-cases (is_slash c)) [
  | inl e ↦
      rw e (inl refl, Agree-NoParent _ _ (Agree-split cs), Agree-any_real _ _ (Agree-split cs))
  | inr e ↦ elim (Bool-cases (c == b'\\')) [
    | inl f ↦ rw (e, f, (==_iff c b'\\').0 f) (Agree-backslash _ _ (Agree-split cs))
    | inr f ↦ rw (e, f) (Agree-push_head c _ _ (Agree-split cs))
  ]
]

-- A component of a relative path that does not climb.
abbrev pub IsPlain : Component → Type 0
IsPlain Component.root_dir = ⊥
IsPlain Component.cur_dir = Unit
IsPlain Component.parent_dir = ⊥
IsPlain (Component.normal w) = Unit

abbrev pub is_normal : Component → Bool
is_normal (Component.normal w) = true
is_normal _ = false

body_components-IsPlain :
    (ws : List (List ℕ))
    → NoParent ws
    → All IsPlain (body_components ws) × (any is_real ws ≡ any is_normal (body_components ws))
unfolding body_components
body_components-IsPlain [] h = (tt, refl)
body_components-IsPlain (w ∷ ws) h = go (part w) refl (body_components-IsPlain ws h.1)
  where
    go :
        (k : Part)
        → part w ≡ k
        → All IsPlain (body_components ws) × (any is_real ws ≡ any is_normal (body_components ws))
        → All IsPlain (body_components (w ∷ ws))
          × (any is_real (w ∷ ws) ≡ any is_normal (body_components (w ∷ ws)))
    go Part.skip e ih = rw (e, body_component, is_real) ih
    go Part.parent e ih = absurd (cc (h.0))
    go Part.real e ih = rw (e, body_component, is_real) ((tt, ih.0), refl)

All-append {ℓ κ} :
    {A : Type ℓ} (P : A → Type κ) (xs ys : List A) → All P xs → All P ys → All P (xs ++ ys)
All-append P [] ys h k = k
All-append P (x ∷ xs) ys h k = (h.0, All-append P xs ys h.1 k)

any-append {ℓ} :
    {A : Type ℓ} (p : A → Bool) (xs ys : List A) → any p ys ≡ true → any p (xs ++ ys) ≡ true
any-append p [] ys h = h
any-append p (x ∷ xs) ys h = or_right _ _ (any-append p xs ys h)

lead-IsPlain :
    (path : List ℕ) (ws : List (List ℕ))
    → is_slash (get_or path 0 0) ≡ false
    → All IsPlain (lead path ws)
lead-IsPlain path [] h = tt
lead-IsPlain path (w ∷ ws) h = ground arith

record Checked (path : List ℕ) : Type 0 where
  relative : is_slash (get_or path 0 0) ≡ false
  counted : (n : ℕ) × (count_components (split is_separator path) 0 ≡ ok n) × (n ≢ 0)

check_scope_path-Checked : (path : List ℕ) → check_scope_path path ≡ ok tt → Checked path
unfolding check_scope_path
check_scope_path-Checked path h = record {
  relative = ground arith;
  counted = go (Result-cases counts);
}
  where
    counts : Result GrantError ℕ
    counts = count_components (split is_separator path) 0

    go :
        ((n : ℕ) × (counts ≡ ok n)) ⊎ ((e : GrantError) × (counts ≡ err e))
        → (n : ℕ) × (counts ≡ ok n) × (n ≢ 0)
    go (inl (n, e)) = (n, e, ground arith)
    go (inr (x, e)) = absurd (ground arith)

-- A `sync_paths` entry that the check accepts is, as a Unix path, relative and free of `..`, and it
-- has a component with a name.
pub check_scope_path-confined :
    (path : List ℕ)
    → check_scope_path path ≡ ok tt
    → All IsPlain (components path) × (any is_normal (components path) ≡ true)
unfolding components
check_scope_path-confined path h =
    let c = check_scope_path-Checked path h in
    let (n, e, ne) = c.counted in
    let (np, _, more) = count_components-NoParent (split is_separator path) 0 n e in
    let a = Agree-split path in
    let (plain, named) = body_components-IsPlain (split is_slash path) (Agree-NoParent _ _ a np) in
    (
      All-append IsPlain (lead path (split is_slash path)) _ (lead-IsPlain path _ c.relative) plain,
      any-append is_normal (lead path (split is_slash path)) _
          (sym named ∙ Agree-any_real _ _ a (nonzero n ne more)),
    )
  where
    nonzero :
        (n : ℕ)
        → n ≢ 0
        → ((0 ≡ n) ⊎ (any is_real (split is_separator path) ≡ true))
        → any is_real (split is_separator path) ≡ true
    nonzero n ne (inl z) = absurd (ne (sym z))
    nonzero n ne (inr r) = r
