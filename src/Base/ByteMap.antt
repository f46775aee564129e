-- ===== src/Base/ByteMap.antt =====
-- `BTreeMap<String, V>` as an association list in ascending order of the keys' bytes.
use Prim.Native.Nat.{ℕ, suc, ◌≤◌}
use mathlib.Core.Path.{◌≡◌, refl}
use mathlib.Core.Bool.{Bool, true, false, ◌||◌, ◌&&◌}
use mathlib.Core.Option.{Option, none, some}
use mathlib.Core.List.{List, [], ◌∷◌}
use native.Mathlib.Omega.{arith}
use remote_device_sync.Base.Tests.{ltb, ◌==◌, if◌then◌else◌}
use remote_device_sync.Base.Lists.{length, bytes_eq}

abbrev pub ByteMap {ℓ} : Type ℓ → Type ℓ
ByteMap V = List (List ℕ × V)

-- The lexicographic order of `str`.
unfoldable pub bytes_ltb : List ℕ → List ℕ → Bool
bytes_ltb xs [] = false
bytes_ltb [] (y ∷ ys) = true
bytes_ltb (x ∷ xs) (y ∷ ys) = ltb x y || (x == y && bytes_ltb xs ys)

pub bytes_eq_refl : (xs : List ℕ) → bytes_eq xs xs ≡ true
bytes_eq_refl [] = refl
bytes_eq_refl (x ∷ xs) = ground (arith, bytes_eq_refl xs)

pub bytes_eq_sound : (xs ys : List ℕ) → bytes_eq xs ys ≡ true → xs ≡ ys
bytes_eq_sound [] [] h = refl
bytes_eq_sound [] (y ∷ ys) h = absurd (ground arith)
bytes_eq_sound (x ∷ xs) [] h = absurd (ground arith)
bytes_eq_sound (x ∷ xs) (y ∷ ys) h = ground (arith, bytes_eq_sound xs ys)

module _ {ℓ} {V : Type ℓ} where
  unfoldable pub get : List ℕ → ByteMap V → Option V
  get k [] = none
  get k ((j, v) ∷ m) = if bytes_eq j k then some v else get k m

  unfoldable pub put : List ℕ → V → ByteMap V → ByteMap V
  put k v [] = (k, v) ∷ []
  put k v ((j, w) ∷ m) =
      if bytes_eq k j
      then (k, v) ∷ m
      else if bytes_ltb k j
      then (k, v) ∷ (j, w) ∷ m
      else (j, w) ∷ put k v m

  -- Every key passes the test.
  unfoldable pub all_keys : (List ℕ → Bool) → ByteMap V → Bool
  all_keys p [] = true
  all_keys p ((j, w) ∷ m) = p j && all_keys p m

  pub get-put : (k : List ℕ) (v : V) (m : ByteMap V) → get k (put k v m) ≡ some v
  unfolding get put
  get-put k v [] = ground (arith, bytes_eq_refl k)
  get-put k v ((j, w) ∷ m) = ground (arith, get-put k v m, bytes_eq_refl k, bytes_eq_swap j k)
    where
      bytes_eq_swap : (j k : List ℕ) → bytes_eq j k ≡ true → bytes_eq k j ≡ true
      bytes_eq_swap j k h = ground (arith, bytes_eq_sound j k h, bytes_eq_refl k)

  pub length-put : (k : List ℕ) (v : V) (m : ByteMap V) → length (put k v m) ≤ suc (length m)
  unfolding put
  length-put k v [] = omega arith
  length-put k v ((j, w) ∷ m) = ground (arith, length-put k v m)

  pub all_keys-put :
      (p : List ℕ → Bool) (k : List ℕ) (v : V) (m : ByteMap V)
      → p k ≡ true
      → all_keys p m ≡ true
      → all_keys p (put k v m) ≡ true
  unfolding put all_keys
  all_keys-put p k v [] h a = ground arith
  all_keys-put p k v ((j, w) ∷ m) h a = ground (arith, all_keys-put p k v m h)
