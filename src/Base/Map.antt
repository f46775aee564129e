-- ===== src/Base/Map.antt =====
-- `BTreeMap` (and `HashMap`, whose order no caller reads) as an association list in ascending
-- order of keys. A key is a number: a sequence number, or a byte array read big-endian.
use Prim.Native.Nat.{ℕ, suc, ◌-◌, ◌≤◌, ◌<◌}
use mathlib.Core.Path.{◌≡◌, refl}
use mathlib.Core.Bool.{Bool, true}
use mathlib.Core.Option.{Option, none, some}
use mathlib.Core.List.{List, [], ◌∷◌}
use native.Mathlib.Omega.{arith}
use remote_device_sync.Base.Tests.{ltb, ◌==◌, if◌then◌else◌, is_some}
use remote_device_sync.Base.Lists.{length}

abbrev pub Map {ℓ} : Type ℓ → Type ℓ
Map V = List (ℕ × V)

module _ {ℓ} {V : Type ℓ} where
  unfoldable pub lookup : ℕ → Map V → Option V
  lookup k [] = none
  lookup k ((j, v) ∷ m) = if j == k then some v else lookup k m

  unfoldable pub insert : ℕ → V → Map V → Map V
  insert k v [] = (k, v) ∷ []
  insert k v ((j, w) ∷ m) =
      if k == j then (k, v) ∷ m else if ltb k j then (k, v) ∷ (j, w) ∷ m else (j, w) ∷ insert k v m

  unfoldable pub remove : ℕ → Map V → Map V
  remove k [] = []
  remove k ((j, w) ∷ m) = if j == k then m else (j, w) ∷ remove k m

  -- `retain` by the key and value.
  unfoldable pub retain : (ℕ → V → Bool) → Map V → Map V
  retain p [] = []
  retain p ((j, w) ∷ m) = let rest = retain p m in if p j w then (j, w) ∷ rest else rest

  -- `first_key_value`.
  abbrev pub first : Map V → Option (ℕ × V)
  first [] = none
  first (e ∷ m) = some e

  abbrev pub pop_first : Map V → Map V
  pop_first [] = []
  pop_first (e ∷ m) = m

  unfoldable pub pop_last : Map V → Map V
  pop_last [] = []
  pop_last (e ∷ []) = []
  pop_last (e ∷ f ∷ m) = e ∷ pop_last (f ∷ m)

  -- Every key is at least `k`.
  abbrev pub From : ℕ → Map V → Type 0
  From k [] = Unit
  From k ((j, w) ∷ m) = (k ≤ j) × From k m

  -- Keys ascend, none twice.
  abbrev pub IsSorted : Map V → Type 0
  IsSorted [] = Unit
  IsSorted ((j, w) ∷ m) = From (suc j) m × IsSorted m

  pub lookup-insert :
      (j k : ℕ) (v : V) (m : Map V)
      → lookup j (insert k v m) ≡ (if k == j then some v else lookup j m)
  unfolding lookup insert
  lookup-insert j k v [] = refl
  lookup-insert j k v ((i, w) ∷ m) = ground (arith, lookup-insert j k v m)

  pub From-mono : (a b : ℕ) (m : Map V) → a ≤ b → From b m → From a m
  From-mono a b [] h f = tt
  From-mono a b ((j, w) ∷ m) h f = (omega arith, From-mono a b m h f.1)

  pub lookup-From : (k : ℕ) (m : Map V) → From (suc k) m → lookup k m ≡ none
  unfolding lookup
  lookup-From k [] f = refl
  lookup-From k ((j, w) ∷ m) f = ground (arith, lookup-From k m f.1)

  pub From-lookup : (k j : ℕ) (v : V) (m : Map V) → From k m → lookup j m ≡ some v → k ≤ j
  unfolding lookup
  From-lookup k j v [] f h = cc
  From-lookup k j v ((i, w) ∷ m) f h = ground (arith, From-lookup k j v m f.1)

  pub From-insert : (a k : ℕ) (v : V) (m : Map V) → a ≤ k → From a m → From a (insert k v m)
  unfolding insert
  From-insert a k v [] h f = (h, tt)
  From-insert a k v ((j, w) ∷ m) h f = ground (arith, From-insert a k v m h f.1)

  pub insert-IsSorted : (k : ℕ) (v : V) (m : Map V) → IsSorted m → IsSorted (insert k v m)
  unfolding insert
  insert-IsSorted k v [] s = (tt, tt)
  insert-IsSorted k v ((j, w) ∷ m) s =
      ground
        (arith, insert-IsSorted k v m s.1, From-insert (suc j) k v m, From-mono (suc k) (suc j) m)

  pub From-remove : (a k : ℕ) (m : Map V) → From a m → From a (remove k m)
  unfolding remove
  From-remove a k [] f = tt
  From-remove a k ((j, w) ∷ m) f = ground (arith, From-remove a k m f.1)

  pub remove-IsSorted : (k : ℕ) (m : Map V) → IsSorted m → IsSorted (remove k m)
  unfolding remove
  remove-IsSorted k [] s = tt
  remove-IsSorted k ((j, w) ∷ m) s =
      ground (arith, remove-IsSorted k m s.1, From-remove (suc j) k m s.0)

  pub From-retain : (a : ℕ) (p : ℕ → V → Bool) (m : Map V) → From a m → From a (retain p m)
  unfolding retain
  From-retain a p [] f = tt
  From-retain a p ((j, w) ∷ m) f = ground (arith, From-retain a p m f.1)

  pub retain-IsSorted : (p : ℕ → V → Bool) (m : Map V) → IsSorted m → IsSorted (retain p m)
  unfolding retain
  retain-IsSorted p [] s = tt
  retain-IsSorted p ((j, w) ∷ m) s =
      ground (arith, retain-IsSorted p m s.1, From-retain (suc j) p m s.0)

  pub length-retain : (p : ℕ → V → Bool) (m : Map V) → length (retain p m) ≤ length m
  unfolding retain
  length-retain p [] = omega arith
  length-retain p ((j, w) ∷ m) = ground (arith, length-retain p m)

  pub length-insert :
      (k : ℕ) (v : V) (m : Map V)
      → IsSorted m
      → length (insert k v m) ≡ (if is_some (lookup k m) then length m else suc (length m))
  unfolding lookup insert
  length-insert k v [] s = refl
  length-insert k v ((j, w) ∷ m) s =
      ground (arith, length-insert k v m s.1, lookup-From k m, From-mono (suc k) (suc j) m)

  pub lookup-remove :
      (j k : ℕ) (m : Map V)
      → IsSorted m
      → lookup j (remove k m) ≡ (if k == j then none else lookup j m)
  unfolding lookup remove
  lookup-remove j k [] s = ground arith
  lookup-remove j k ((i, w) ∷ m) s = ground (arith, lookup-remove j k m s.1, lookup-From j m)

  pub length-remove :
      (k : ℕ) (m : Map V)
      → length (remove k m) ≡ (if is_some (lookup k m) then length m - 1 else length m)
  unfolding lookup remove
  length-remove k [] = refl
  length-remove k ((j, w) ∷ m) = ground (arith, length-remove k m, remove_lookup_pos k m)
    where
      remove_lookup_pos : (k : ℕ) (m : Map V) → is_some (lookup k m) ≡ true → 0 < length m
      remove_lookup_pos k [] h = absurd (ground arith)
      remove_lookup_pos k (e ∷ m) h = omega arith
