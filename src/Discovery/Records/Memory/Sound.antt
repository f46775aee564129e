-- ===== src/Discovery/Records/Memory/Sound.antt =====
-- The invariant of the in-memory record store (crates/rds-discovery/src/records/memory.rs).
use remote_device_sync.Base.{
  ℕ, suc, ◌+◌, ◌≤◌, ◌<◌, ◌≡◌, refl, ◌⊎◌, inl, inr, true, false, [], ◌∷◌, Option, some, ◌==◌,
  is_some, is_some_and, b2n, if◌then◌else◌, length, ==_iff, ok, Bool-cases, arith, sym, ◌∙◌, subst,
}
use remote_device_sync.Base.Map.{
  Map, lookup, insert, IsSorted, lookup-insert, insert-IsSorted, length-insert, lookup-From,
  From-mono,
}
use remote_device_sync.Discovery.Wire.{Libraries}
use remote_device_sync.Discovery.Records.{Stored, live, verify}
use remote_device_sync.Discovery.Records.Memory.{Memory, put_back}

abbrev pub count_live : Map Stored → ℕ
count_live [] = 0
count_live ((k, s) ∷ m) = b2n (live s) + count_live m

count_live-insert :
    (k : ℕ) (t : Stored) (m : Map Stored)
    → IsSorted m
    → count_live (insert k t m) + b2n (is_some_and (lookup k m) live) ≡ count_live m + b2n (live t)
unfolding lookup insert
count_live-insert k t [] s = omega arith
count_live-insert k t ((j, w) ∷ m) s =
    ground (arith, count_live-insert k t m s.1, lookup-From k m, From-mono (suc k) (suc j) m)

count_live-lookup : (k : ℕ) (m : Map Stored) → b2n (is_some_and (lookup k m) live) ≤ count_live m
unfolding lookup
count_live-lookup k [] = omega arith
count_live-lookup k ((j, w) ∷ m) = ground (arith, count_live-lookup k m)

module _ (lib : Libraries) where
  -- A stored value verifies under its key, at this revision.
  pub record Verifies (key : ℕ) (s : Stored) : Type 0 where
    pub revision : ℕ
    pub verified : verify lib s key ≡ ok revision

  pub record IsSound (capacity : ℕ) (m : Memory) : Type 0 where
    pub sorted : IsSorted m.entries
    pub counted : m.live ≡ count_live m.entries
    pub bounded : length m.entries ≤ capacity
    pub verified : (k : ℕ) (s : Stored) → lookup k m.entries ≡ some s → Verifies k s

  -- No identity is forgotten, and the verified revision of none falls.
  pub record KeepsFloors (m n : Memory) : Type 0 where
    pub floors :
        (k : ℕ) (s : Stored) (rev : ℕ)
        → lookup k m.entries ≡ some s
        → verify lib s k ≡ ok rev
        → (t : Stored) × (rev' : ℕ) × (lookup k n.entries ≡ some t)
          × (verify lib t k ≡ ok rev')
          × (rev ≤ rev')

  pub KeepsFloors-refl : (m n : Memory) → m.entries ≡ n.entries → KeepsFloors m n
  KeepsFloors-refl m n e = record { floors = λ k s rev p v. (s, rev, rw (← e) p, v, omega arith) }

  pub KeepsFloors-trans : (m n o : Memory) → KeepsFloors m n → KeepsFloors n o → KeepsFloors m o
  KeepsFloors-trans m n o a b = record {
    floors = λ k s rev p v.
        let (t, r, q, w, l) = a.floors k s rev p v in
        let (u, r', q', w', l') = b.floors k t r q w in (u, r', q', w', omega arith);
  }

  -- A replacement that verifies, with a revision that is not below the old value's.
  pub record CanReplace (key : ℕ) (old : Option Stored) (t : Stored) : Type 0 where
    pub verifies : Verifies key t
    pub above :
        (s : Stored) (rev : ℕ) → old ≡ some s → verify lib s key ≡ ok rev → rev ≤ verifies.revision

  module _ (capacity key : ℕ) (t : Stored) (m : Memory)
      (c : CanReplace key (lookup key m.entries) t) where
    pub put_back-KeepsFloors : KeepsFloors m (put_back key t m)
    unfolding put_back
    put_back-KeepsFloors = record {
      floors = λ k s rev p v. at_key k s rev p v (Bool-cases (key == k));
    }
      where
        at_key :
            (k : ℕ) (s : Stored) (rev : ℕ)
            → lookup k m.entries ≡ some s
            → verify lib s k ≡ ok rev
            → ((key == k) ≡ true) ⊎ ((key == k) ≡ false)
            → (u : Stored) × (rev' : ℕ) × (lookup k (insert key t m.entries) ≡ some u)
              × (verify lib u k ≡ ok rev')
              × (rev ≤ rev')
        at_key k s rev p v (inr e) =
            (s, rev, lookup-insert k key t m.entries ∙ rw e p, v, omega arith)
        at_key k s rev p v (inl e) =
            let same : key ≡ k = (==_iff key k).0 e in
            (
              t,
              c.verifies.revision,
              lookup-insert k key t m.entries ∙ rw e refl,
              subst (λ x. verify lib t x ≡ ok c.verifies.revision) same c.verifies.verified,
              c.above s rev (subst (λ x. lookup x m.entries ≡ some s) (sym same) p)
                  (subst (λ x. verify lib s x ≡ ok rev) (sym same) v),
            )

    pub put_back-IsSound :
        IsSound capacity m
        → (is_some (lookup key m.entries) ≡ true) ⊎ (length m.entries < capacity)
        → IsSound capacity (put_back key t m)
    unfolding put_back
    put_back-IsSound h room = record {
      sorted = insert-IsSorted key t m.entries h.sorted;
      counted = omega (
        arith,
        h.counted,
        count_live-insert key t m.entries h.sorted,
        count_live-lookup key m.entries,
      );
      bounded = ground (arith, length-insert key t m.entries h.sorted, h.bounded);
      verified = λ k s p. at_key k s (lookup-insert k key t m.entries) p (Bool-cases (key == k));
    }
      where
        at_key :
            (k : ℕ) (s : Stored)
            → lookup k (insert key t m.entries) ≡ (if key == k then some t else lookup k m.entries)
            → lookup k (insert key t m.entries) ≡ some s
            → ((key == k) ≡ true) ⊎ ((key == k) ≡ false)
            → Verifies k s
        at_key k s q p (inr e) = h.verified k s (rw (← p, q, e))
        at_key k s q p (inl e) =
            let same : key ≡ k = (==_iff key k).0 e in
            let is_t : t ≡ s = ground arith in
            subst (λ x. Verifies x s) same (subst (λ x. Verifies key x) is_t c.verifies)
