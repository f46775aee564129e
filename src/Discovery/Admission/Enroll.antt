-- ===== src/Discovery/Admission/Enroll.antt =====
-- Which enrollments `Enrollment::new` (crates/rds-discovery/src/admission.rs) accepts, and whom they
-- allow.
use remote_device_sync.Base.{
  ℕ, ◌+◌, ◌≤◌, ◌<◌, ◌≡◌, refl, ◌⊎◌, inl, inr, Bool, true, false, ◌||◌, List, [], ◌∷◌, ◌==◌, length,
  All, contains, ok, err, Result-cases, arith, ◌∙◌,
}
use remote_device_sync.Crypto.{Crypto}
use remote_device_sync.Discovery.{DiscoveryError}
use remote_device_sync.Discovery.Admission.{Enrollment, allows, enroll, new_enrollment}

-- No key of the list stands in `seen` or earlier in the list.
abbrev pub AreFresh : List ℕ → List ℕ → Type 0
AreFresh seen [] = Unit
AreFresh seen (k ∷ ks) = (contains k seen ≡ false) × AreFresh (k ∷ seen) ks

or_shuffle : (a b c : Bool) → (b || (a || c)) ≡ ((a || b) || c)
or_shuffle true true c = refl
or_shuffle true false c = refl
or_shuffle false b c = refl

module _ (crypto : Crypto) where
  pub record Enrolled (index : ℕ) (seen ks out : List ℕ) : Type 0 where
    pub bounded : (ks ≡ []) ⊎ (index + length ks ≤ 4096)
    pub strong : All (λ k. (crypto.key_valid k ≡ true) × (crypto.key_weak k ≡ false)) ks
    pub distinct : AreFresh seen ks
    pub members : (k : ℕ) → contains k out ≡ (contains k ks || contains k seen)

  step-parts :
      (index k : ℕ) (ks seen out : List ℕ)
      → enroll crypto index seen (k ∷ ks) ≡ ok out
      → (index < 4096)
        × (crypto.key_valid k ≡ true)
        × (crypto.key_weak k ≡ false)
        × (contains k seen ≡ false)
        × (enroll crypto (index + 1) (k ∷ seen) ks ≡ ok out)
  unfolding enroll
  step-parts index k ks seen out h = ground arith

  enroll-Enrolled :
      (index : ℕ) (seen ks out : List ℕ)
      → enroll crypto index seen ks ≡ ok out
      → Enrolled index seen ks out
  unfolding enroll
  enroll-Enrolled index seen [] out h = record {
    bounded = inl refl;
    strong = tt;
    distinct = tt;
    members = λ k. ground arith;
  }
  enroll-Enrolled index seen (k ∷ ks) out h =
      let (i, v, w, c, r) = step-parts index k ks seen out h in
      let e = enroll-Enrolled (index + 1) (k ∷ seen) ks out r in
      record {
        bounded = inr (room e.bounded i);
        strong = ((v, w), e.strong);
        distinct = (c, e.distinct);
        members = λ j. e.members j ∙ or_shuffle (k == j) (contains j ks) (contains j seen);
      }
    where
      room :
          (ks ≡ []) ⊎ (index + 1 + length ks ≤ 4096) → index < 4096 → index + length (k ∷ ks) ≤ 4096
      room (inl e) i = rw e (omega arith)
      room (inr e) i = omega arith

  -- An enrollment is accepted only of at most 4096 keys, each valid and not weak and none twice; it
  -- then allows exactly those keys.
  pub new_enrollment-allows :
      (keys : List ℕ) (e : Enrollment)
      → new_enrollment crypto keys ≡ ok e
      → (length keys ≤ 4096)
        × All (λ k. (crypto.key_valid k ≡ true) × (crypto.key_weak k ≡ false)) keys
        × AreFresh [] keys
        × ((k : ℕ) → allows k e ≡ contains k keys)
  unfolding new_enrollment allows
  new_enrollment-allows keys e h = go (Result-cases (enroll crypto 0 [] keys))
    where
      or_false : (a : Bool) → (a || false) ≡ a
      or_false true = refl
      or_false false = refl

      small : (keys ≡ []) ⊎ (0 + length keys ≤ 4096) → length keys ≤ 4096
      small (inl p) = rw p (omega arith)
      small (inr p) = omega arith

      go :
          ((out : List ℕ) × (enroll crypto 0 [] keys ≡ ok out))
            ⊎ ((x : DiscoveryError) × (enroll crypto 0 [] keys ≡ err x))
          → (length keys ≤ 4096)
            × All (λ k. (crypto.key_valid k ≡ true) × (crypto.key_weak k ≡ false)) keys
            × AreFresh [] keys
            × ((k : ℕ) → (e.unrestricted || contains k e.keys) ≡ contains k keys)
      go (inr (x, p)) = absurd (ground arith)
      go (inl (out, p)) =
          let r = enroll-Enrolled 0 [] keys out p in
          let same : e ≡ record { keys = out; unrestricted = false } = ground arith in
          (
            small r.bounded,
            r.strong,
            r.distinct,
            λ k. rw same (r.members k ∙ or_false (contains k keys)),
          )
