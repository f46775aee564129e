-- ===== src/Sync/Wire.antt =====
-- crates/rds-sync/src/directory/wire.rs: a directory snapshot is sent as a header and bounded parts,
-- and put together again.
pub mod Parts
pub mod Metadata
pub mod Ordered
pub mod Assembled
pub mod Accepted
use remote_device_sync.Base.{
  ℕ, zero, suc, ◌+◌, ◌-◌, ◌*◌, ◌^◌, Bool, true, false, ◌||◌, ◌&&◌, not, List, [], ◌∷◌, ◌++◌, Option,
  none, some, leb, ltb, ◌==◌, if◌then◌else◌, length, take, drop, saturating_add, Result, ok, err,
  ensure, ok_or, map_ok, ◌>>=◌, ◌>>◌,
}
use remote_device_sync.Base.ByteMap.{bytes_ltb}
use remote_device_sync.Sync.{SyncError, manifest}
use remote_device_sync.Sync.Directory.{
  DirectoryEntry, DirectoryManifest, Codec, max_directory_entries, max_directory_data_bytes,
  validate, count_bytes, verify,
}

abbrev pub directory_snapshot_version : ℕ
directory_snapshot_version = 1

abbrev pub max_directory_part_entries : ℕ
max_directory_part_entries = 32

abbrev pub max_directory_part_bytes : ℕ
max_directory_part_bytes = 48 * 1024

pub record DirectorySnapshotHeader : Type 0 where
  pub version : ℕ
  pub root : ℕ
  pub entry_count : ℕ
  pub metadata_bytes : ℕ

-- A `DirectorySnapshotPart` is its entries.
abbrev pub DirectorySnapshotPart : Type 0
DirectorySnapshotPart = List DirectoryEntry

pub record DirectorySnapshotAssembler : Type 0 where
  pub header : DirectorySnapshotHeader
  pub entries : List DirectoryEntry
  pub metadata_bytes : ℕ

-- `manifest_metadata_bytes`.
unfoldable pub manifest_metadata_bytes : List DirectoryEntry → Result SyncError ℕ
manifest_metadata_bytes es = count_bytes 0 es

abbrev pub last : List DirectoryEntry → Option DirectoryEntry
last [] = none
last (e ∷ []) = some e
last (e ∷ f ∷ es) = last (f ∷ es)

-- Whether an entry comes after the one before it, if there is one.
abbrev pub follows : Option DirectoryEntry → DirectoryEntry → Bool
follows none e = true
follows (some prior) e = bytes_ltb prior.path e.path

-- The loop of `validate_part`.
unfoldable pub check_order :
    Option DirectoryEntry → List DirectoryEntry → Result SyncError (Unit {0})
check_order prior [] = ok tt
check_order prior (e ∷ es) = do
  validate e
  ensure (follows prior e) manifest
  check_order (some e) es

module _ (codec : Codec) where
  -- `DirectorySnapshotHeader::from_manifest`.
  unfoldable pub from_manifest : DirectoryManifest → Result SyncError DirectorySnapshotHeader
  from_manifest m = do
    verify codec m
    metadata_bytes ← manifest_metadata_bytes m.entries
    ensure (ltb (length m.entries) (2 ^ 32)) manifest
    ensure (ltb metadata_bytes (2 ^ 64)) manifest
    ok (record {
      version = directory_snapshot_version;
      root = m.root;
      entry_count = length m.entries;
      metadata_bytes = metadata_bytes;
    })

  unfoldable pub validate_part :
      DirectorySnapshotPart → Option DirectoryEntry → Result SyncError (Unit {0})
  validate_part part previous = do
    ensure (not (length part == 0 || ltb max_directory_part_entries (length part))) manifest
    check_order previous part
    size ← ok_or (codec.sequence_size part) manifest
    ensure (not (ltb max_directory_part_bytes size)) manifest

  -- `DirectorySnapshotAssembler::new`.
  unfoldable pub new : DirectorySnapshotHeader → Result SyncError DirectorySnapshotAssembler
  new header = do
    ensure (header.version == directory_snapshot_version) manifest
    ensure
        (not (
          ltb max_directory_entries header.entry_count
          || ltb max_directory_data_bytes header.metadata_bytes))
        manifest
    ok (record { header = header; entries = []; metadata_bytes = 0 })

  unfoldable pub push_part :
      DirectorySnapshotPart
      → DirectorySnapshotAssembler
      → Result SyncError DirectorySnapshotAssembler
  push_part part a = do
    validate_part part (last a.entries)
    ensure (not (ltb a.header.entry_count (saturating_add (length a.entries) (length part))))
        manifest
    part_bytes ← manifest_metadata_bytes part
    ensure (not (ltb a.header.metadata_bytes (saturating_add a.metadata_bytes part_bytes))) manifest
    ok (record a {
      metadata_bytes = saturating_add a.metadata_bytes part_bytes;
      entries = a.entries ++ part;
    })

  -- `DirectorySnapshotAssembler::finish`.
  unfoldable pub finish : DirectorySnapshotAssembler → Result SyncError DirectoryManifest
  finish a = do
    ensure (length a.entries == a.header.entry_count && a.metadata_bytes == a.header.metadata_bytes)
        manifest
    let m : DirectoryManifest = record { root = a.header.root; entries = a.entries }
    verify codec m
    ok m

  -- The loop of `next` over at most so many entries: how many fit beside the bytes so far.
  unfoldable pub count_fitting : ℕ → ℕ → List DirectoryEntry → Result SyncError ℕ
  count_fitting zero bytes es = ok 0
  count_fitting (suc slots) bytes [] = ok 0
  count_fitting (suc slots) bytes (e ∷ es) = do
    size ← ok_or (codec.entry_size e) manifest
    let later = map_ok suc (count_fitting slots (bytes + size) es)
    if ltb max_directory_part_bytes (saturating_add bytes size) then ok 0 else later

  -- `DirectorySnapshotParts::next`: the part, or the error, and what remains.
  abbrev pub cut :
      List DirectoryEntry
      → Result SyncError ℕ
      → Result SyncError DirectorySnapshotPart × List DirectoryEntry
  cut remaining (err e) = (err e, [])
  cut remaining (ok zero) = (err manifest, [])
  cut remaining (ok (suc n)) = (ok (take (suc n) remaining), drop (suc n) remaining)

  unfoldable pub next :
      List DirectoryEntry → Option (Result SyncError DirectorySnapshotPart × List DirectoryEntry)
  next [] = none
  next (e ∷ es) = some (cut (e ∷ es) (count_fitting max_directory_part_entries 1 (e ∷ es)))

  abbrev pub prepend :
      DirectorySnapshotPart
      → Option (Result SyncError (List DirectorySnapshotPart))
      → Option (Result SyncError (List DirectorySnapshotPart))
  prepend part none = none
  prepend part (some rest) = some (map_ok (λ parts. part ∷ parts) rest)

  -- `collect` of the parts into a `Result`, on fuel; `none` is running out of it.
  unfoldable pub collect :
      ℕ → List DirectoryEntry → Option (Result SyncError (List DirectorySnapshotPart))
  collect zero remaining = none
  collect (suc fuel) remaining = elim (next remaining) [
    | none ↦ some (ok [])
    | some (err e, rest) ↦ some (err e)
    | some (ok part, rest) ↦ prepend part (collect fuel rest)
  ]

  -- `DirectoryManifest::snapshot_parts`: each part takes an entry at least.
  unfoldable pub snapshot_parts :
      DirectoryManifest → Option (Result SyncError (List DirectorySnapshotPart))
  snapshot_parts m = elim (verify codec m) [
    | err e ↦ some (err e)
    | ok u ↦ collect (suc (length m.entries)) m.entries
  ]

  -- A receiver that takes the parts in order.
  unfoldable pub push_parts :
      List DirectorySnapshotPart
      → DirectorySnapshotAssembler
      → Result SyncError DirectorySnapshotAssembler
  push_parts [] a = ok a
  push_parts (part ∷ parts) a = do b ← push_part part a; push_parts parts b

  unfoldable pub receive :
      DirectorySnapshotHeader → List DirectorySnapshotPart → Result SyncError DirectoryManifest
  receive header parts = do a ← new header; b ← push_parts parts a; finish b
