-- ===== src/Desktop/MediaRepair/Gate.antt =====
-- The gate of the independent picture (crates/rds-desktop/src/media_repair.rs) has one owner.
use remote_device_sync.Base.{
  ℕ, suc, ◌+◌, ◌≤◌, ◌<◌, ◌≡◌, refl, Bool, true, false, ◌&&◌, not, none, some, ◌==◌, [], ◌∷◌, b2n,
  u64_max, arith,
}
use remote_device_sync.Base.Map.{Map, lookup, insert, remove, IsSorted, lookup-From, From-mono}
use remote_device_sync.Desktop.MediaRepair.{
  KeyPermit, MediaRepair, generation_of, is_key_pending, is_active, set_key_pending, next_epoch,
  release_key,
}

-- How many permits of an epoch are held.
abbrev pub owners : ℕ → Map KeyPermit → ℕ
owners g [] = 0
owners g ((j, p) ∷ m) = b2n (p.generation == g) + owners g m

-- No permit is of a later epoch.
abbrev pub Until : ℕ → Map KeyPermit → Type 0
Until g [] = Unit
Until g ((j, p) ∷ m) = (p.generation ≤ g) × Until g m

-- The gate is shut exactly while one permit of the current epoch is held.
pub record IsGated (r : MediaRepair) : Type 0 where
  pub owned : owners (generation_of r.state) r.permits ≡ b2n (is_key_pending r.state)
  pub sorted : IsSorted r.permits
  pub until : Until (generation_of r.state) r.permits
  pub word : r.state ≤ u64_max

pub owners-insert_new :
    (g k : ℕ) (p : KeyPermit) (m : Map KeyPermit)
    → lookup k m ≡ none
    → owners g (insert k p m) ≡ b2n (p.generation == g) + owners g m
unfolding lookup insert
owners-insert_new g k p [] e = refl
owners-insert_new g k p ((j, w) ∷ m) e = ground (arith, owners-insert_new g k p m)

pub owners-insert :
    (g k : ℕ) (p q : KeyPermit) (m : Map KeyPermit)
    → IsSorted m
    → lookup k m ≡ some q
    → p.generation ≡ q.generation
    → owners g (insert k p m) ≡ owners g m
unfolding lookup insert
owners-insert g k p q [] o e s = absurd (cc)
owners-insert g k p q ((j, w) ∷ m) o e s =
    ground (arith, owners-insert g k p q m o.1, lookup-From k m, From-mono (suc k) (suc j) m)

pub owners-remove :
    (g k : ℕ) (q : KeyPermit) (m : Map KeyPermit)
    → lookup k m ≡ some q
    → b2n (q.generation == g) + owners g (remove k m) ≡ owners g m
unfolding lookup remove
owners-remove g k q [] e = absurd (cc)
owners-remove g k q ((j, w) ∷ m) e = ground (arith, owners-remove g k q m)

pub Until-insert :
    (g k : ℕ) (p : KeyPermit) (m : Map KeyPermit)
    → p.generation ≤ g
    → Until g m
    → Until g (insert k p m)
unfolding insert
Until-insert g k p [] h f = (h, tt)
Until-insert g k p ((j, w) ∷ m) h f = ground (arith, Until-insert g k p m h f.1)

pub Until-remove : (g k : ℕ) (m : Map KeyPermit) → Until g m → Until g (remove k m)
unfolding remove
Until-remove g k [] f = tt
Until-remove g k ((j, w) ∷ m) f = ground (arith, Until-remove g k m f.1)

pub Until-lookup :
    (g k : ℕ) (p : KeyPermit) (m : Map KeyPermit)
    → Until g m
    → lookup k m ≡ some p
    → p.generation ≤ g
unfolding lookup
Until-lookup g k p [] f e = absurd (cc)
Until-lookup g k p ((j, w) ∷ m) f e = ground (arith, Until-lookup g k p m f.1)

pub Until-owners :
    (g g' : ℕ) (m : Map KeyPermit) → Until g m → g < g' → (owners g' m ≡ 0) × Until g' m
Until-owners g g' [] f h = (refl, tt)
Until-owners g g' ((j, w) ∷ m) f h = ground (arith, Until-owners g g' m f.1 h)

pub next_epoch_lem :
    (w w' : ℕ)
    → w ≤ u64_max
    → next_epoch w ≡ some w'
    → (generation_of w' ≡ generation_of w + 4)
      × (is_key_pending w' ≡ false)
      × (is_active w' ≡ true)
      × (w' ≤ u64_max)
unfolding next_epoch
next_epoch_lem w w' l h = ground arith

pub set_key_pending_lem :
    (w : ℕ)
    → is_key_pending w ≡ false
    → w ≤ u64_max
    → (generation_of (set_key_pending w) ≡ generation_of w)
      × (is_key_pending (set_key_pending w) ≡ true)
      × (set_key_pending w ≤ u64_max)
set_key_pending_lem w e l = ground arith

pub release_key_lem :
    (g w : ℕ) (c : Bool)
    → w ≤ u64_max
    → (generation_of (release_key g c w) ≡ generation_of w)
      × (is_key_pending (release_key g c w) ≡ (is_key_pending w && not (generation_of w == g)))
      × (release_key g c w ≤ w)
unfolding release_key
release_key_lem g w c l = ground arith
