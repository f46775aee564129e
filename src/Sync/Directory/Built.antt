-- ===== src/Sync/Directory/Built.antt =====
-- A manifest that is built from entries in any order (`from_entries` of
-- crates/rds-sync/src/directory.rs) passes `verify`.
use remote_device_sync.Base.{
  ℕ, suc, ◌≤◌, ◌≡◌, refl, ap, ◌∙◌, Bool, true, false, ◌&&◌, not, List, [], ◌∷◌, length, bytes_eq,
  All, ==_refl, le→ltb, Bool-cases, inl, inr, ok, arith,
}
use remote_device_sync.Base.ByteMap.{bytes_ltb}
use remote_device_sync.Sync.Directory.{
  DirectoryEntry, DirectoryManifest, Codec, count_bytes, validate_entries, is_ordered, insert_entry,
  sort, has_twins, digest_entries, validate_hierarchy, from_entries, verify,
}
use remote_device_sync.Sync.Wire.Metadata.{
  metadata, IsValid, count_bytes-metadata, metadata-count_bytes,
}

bytes_ltb_total :
    (x y : List ℕ) → bytes_ltb x y ≡ false → bytes_eq y x ≡ false → bytes_ltb y x ≡ true
unfolding bytes_ltb
bytes_ltb_total [] [] l e = absurd (ground arith)
bytes_ltb_total [] (b ∷ y) l e = absurd (ground arith)
bytes_ltb_total (a ∷ x) [] l e = refl
bytes_ltb_total (a ∷ x) (b ∷ y) l e = ground (arith, bytes_ltb_total x y)

bytes_ltb_asym : (x y : List ℕ) → bytes_ltb x y ≡ true → bytes_ltb y x ≡ false
unfolding bytes_ltb
bytes_ltb_asym x [] l = absurd (ground arith)
bytes_ltb_asym [] (b ∷ y) l = refl
bytes_ltb_asym (a ∷ x) (b ∷ y) l = ground (arith, bytes_ltb_asym x y)

-- No entry's path is above the next.
unfoldable is_weak : List DirectoryEntry → Bool
is_weak [] = true
is_weak (e ∷ []) = true
is_weak (e ∷ f ∷ es) = not (bytes_ltb f.path e.path) && is_weak (f ∷ es)

insert_entry-weak :
    (e : DirectoryEntry) (es : List DirectoryEntry)
    → is_weak es ≡ true
    → is_weak (insert_entry e es) ≡ true
unfolding is_weak insert_entry
insert_entry-weak e [] w = refl
insert_entry-weak e (f ∷ []) w = ground (arith, bytes_ltb_asym f.path e.path)
insert_entry-weak e (f ∷ g ∷ es) w =
    ground (arith, bytes_ltb_asym f.path e.path, insert_entry-weak e (g ∷ es))

sort-weak : (es : List DirectoryEntry) → is_weak (sort es) ≡ true
unfolding sort is_weak
sort-weak [] = refl
sort-weak (e ∷ es) = insert_entry-weak e (sort es) (sort-weak es)

weak-is_ordered :
    (es : List DirectoryEntry) → is_weak es ≡ true → has_twins es ≡ false → is_ordered es ≡ true
unfolding is_weak has_twins is_ordered
weak-is_ordered [] w t = refl
weak-is_ordered (e ∷ []) w t = refl
weak-is_ordered (e ∷ f ∷ es) w t =
    ground (arith, bytes_ltb_total f.path e.path, weak-is_ordered (f ∷ es))

length-insert_entry :
    (e : DirectoryEntry) (es : List DirectoryEntry) → length (insert_entry e es) ≡ suc (length es)
unfolding insert_entry
length-insert_entry e [] = refl
length-insert_entry e (f ∷ es) = ground (arith, length-insert_entry e es)

length-sort : (es : List DirectoryEntry) → length (sort es) ≡ length es
unfolding sort
length-sort [] = refl
length-sort (e ∷ es) = length-insert_entry e (sort es) ∙ ap suc (length-sort es)

metadata-insert_entry :
    (e : DirectoryEntry) (es : List DirectoryEntry)
    → metadata (insert_entry e es) ≡ metadata (e ∷ es)
unfolding insert_entry metadata
metadata-insert_entry e [] = refl
metadata-insert_entry e (f ∷ es) = ground (arith, metadata-insert_entry e es)

metadata-sort : (es : List DirectoryEntry) → metadata (sort es) ≡ metadata es
unfolding sort metadata
metadata-sort [] = refl
metadata-sort (e ∷ es) = omega (arith, metadata-insert_entry e (sort es), metadata-sort es)

insert_entry-IsValid :
    (e : DirectoryEntry) (es : List DirectoryEntry)
    → IsValid e
    → All IsValid es
    → All IsValid (insert_entry e es)
unfolding insert_entry
insert_entry-IsValid e [] v a = (v, tt)
insert_entry-IsValid e (f ∷ es) v a = elim (Bool-cases (bytes_ltb f.path e.path)) [
  | inl b ↦ rw b (a.0, insert_entry-IsValid e es v a.1)
  | inr b ↦ rw b (v, a)
]

sort-IsValid : (es : List DirectoryEntry) → All IsValid es → All IsValid (sort es)
unfolding sort
sort-IsValid [] a = tt
sort-IsValid (e ∷ es) a = insert_entry-IsValid e (sort es) a.0 (sort-IsValid es a.1)

count_bytes-sort :
    (es : List DirectoryEntry) (t : ℕ) → count_bytes 0 es ≡ ok t → count_bytes 0 (sort es) ≡ ok t
count_bytes-sort es t h =
    let (q, l, a) = count_bytes-metadata 0 es t (omega arith) h in
    let s = metadata-sort es in
    metadata-count_bytes 0 (sort es) (omega (arith, q, l, s)) (sort-IsValid es a)
    ∙ ap ok (omega (arith, q, s))

from_entries_lem :
    (codec : Codec) (es : List DirectoryEntry) (m : DirectoryManifest)
    → from_entries codec es ≡ ok m
    → (length es ≤ 1048576)
      × ((t : ℕ) × (count_bytes 0 es ≡ ok t))
      × (has_twins (sort es) ≡ false)
      × (validate_hierarchy (sort es) ≡ ok tt)
      × (digest_entries codec (sort es) ≡ ok m.root)
      × (m.entries ≡ sort es)
unfolding from_entries validate_entries
from_entries_lem codec es m h =
    (ground arith, ground arith, ground arith, ground arith, ground arith, ground arith)

-- Whatever the order of the entries: a manifest that `from_entries` gives passes `verify`, and it has
-- as many entries.
pub from_entries-verify :
    (codec : Codec) (es : List DirectoryEntry) (m : DirectoryManifest)
    → from_entries codec es ≡ ok m
    → (verify codec m ≡ ok tt) × (length m.entries ≡ length es)
unfolding verify validate_entries
from_entries-verify codec es m h =
    let (few, (t, counted), twins, hierarchy, root, e) = from_entries_lem codec es m h in
    let n = length-sort es in
    (
      rw e (
          rw (le→ltb 1048576 (length (sort es)) (omega (arith, n, few))) (
            rw (count_bytes-sort es t counted) (
              rw (weak-is_ordered (sort es) (sort-weak es) twins)
                (rw root (rw (==_refl m.root) hierarchy))))),
      ap length e ∙ n,
    )
