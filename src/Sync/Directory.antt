-- ===== src/Sync/Directory.antt =====
-- crates/rds-sync/src/directory.rs: entries of a directory snapshot, and manifests of them. blake3 and
-- postcard are parameters.
pub mod Built
use remote_device_sync.Base.{
  ℕ, zero, suc, ◌*◌, ◌/◌, ◌%◌, ◌^◌, Bool, true, false, ◌||◌, ◌&&◌, not, List, [], ◌∷◌, ◌++◌, Option,
  none, some, ltb, ◌==◌, if◌then◌else◌, length, contains, bytes_eq, is_some, is_none_or,
  saturating_add, Result, ok, ensure, ok_or, map_ok, ◌>>=◌, ◌>>◌,
}
use remote_device_sync.Base.ByteMap.{bytes_ltb}
use remote_device_sync.Grant.Scope.{split, is_slash}
use remote_device_sync.Sync.{SyncError, manifest}
use remote_device_sync.Sync.Paths.{check_rel_path, max_rel_path}

abbrev pub max_directory_entries : ℕ
max_directory_entries = 2 ^ 20

abbrev pub max_symlink_target_bytes : ℕ
max_symlink_target_bytes = 4096

abbrev pub max_directory_data_bytes : ℕ
max_directory_data_bytes = 64 * 1024 * 1024

abbrev pub max_directory_depth : ℕ
max_directory_depth = 64

pub data EntryKind : Type 0 where
  file directory symlink : EntryKind

pub record DirectoryEntry : Type 0 where
  pub path : List ℕ
  pub kind : EntryKind
  pub size : ℕ
  pub content : Option ℕ
  pub symlink_target : Option (List ℕ)

pub record DirectoryManifest : Type 0 where
  pub root : ℕ
  pub entries : List DirectoryEntry

-- What the code uses of postcard and blake3: an entry's encoding, its size, the size of a sequence of
-- entries, and the digest.
pub record Codec : Type 0 where
  pub encode : DirectoryEntry → Option (List ℕ)
  pub entry_size : DirectoryEntry → Option ℕ
  pub sequence_size : List DirectoryEntry → Option ℕ
  pub hash : List ℕ → ℕ

-- The arms of the `match self.kind` that refuse an entry.
unfoldable pub is_bad_kind : DirectoryEntry → Bool
is_bad_kind e = elim e.kind [
  | EntryKind.file ↦ not (is_some e.content) || is_some e.symlink_target
  | EntryKind.directory ↦ not (e.size == 0) || is_some e.content || is_some e.symlink_target
  | EntryKind.symlink ↦
      not (e.size == 0)
      || is_some e.content
      || is_none_or e.symlink_target
          (λ target. length target == 0 || ltb max_symlink_target_bytes (length target))
]

-- `DirectoryEntry::validate`.
unfoldable pub validate : DirectoryEntry → Result SyncError (Unit {0})
validate e = do
  ensure (not (length e.path == 0 || ltb max_rel_path (length e.path))) manifest
  normalized ← check_rel_path e.path
  ensure (not (not (bytes_eq normalized e.path) || contains b'\\' e.path)) manifest
  ensure (not (is_bad_kind e)) manifest

abbrev pub target_len : DirectoryEntry → ℕ
target_len e = elim e.symlink_target [ none ↦ 0 | some target ↦ length target ]

-- The loop that `validate_entries` and `manifest_metadata_bytes` run, from a running total.
unfoldable pub count_bytes : ℕ → List DirectoryEntry → Result SyncError ℕ
count_bytes total [] = ok total
count_bytes total (e ∷ es) = do
  validate e
  ensure
      (not (
        ltb max_directory_data_bytes
          (saturating_add (saturating_add total (length e.path)) (target_len e))))
      manifest
  count_bytes (saturating_add (saturating_add total (length e.path)) (target_len e)) es

unfoldable pub validate_entries : List DirectoryEntry → Result SyncError (Unit {0})
validate_entries es = do
  ensure (not (ltb max_directory_entries (length es))) manifest
  map_ok (λ total. tt) (count_bytes 0 es)

-- Each path is below the next: `windows(2)` finds no pair out of order.
unfoldable pub is_ordered : List DirectoryEntry → Bool
is_ordered [] = true
is_ordered (e ∷ []) = true
is_ordered (e ∷ f ∷ es) = bytes_ltb e.path f.path && is_ordered (f ∷ es)

-- `binary_search_by` over ordered paths.
unfoldable pub find : List ℕ → List DirectoryEntry → Option DirectoryEntry
find path [] = none
find path (e ∷ es) = if bytes_eq e.path path then some e else find path es

-- `rsplit_once('/')`, its first half.
unfoldable pub parent : List ℕ → Option (List ℕ)
parent [] = none
parent (b ∷ bs) = elim (parent bs) [
  | some p ↦ some (b ∷ p)
  | none ↦ if is_slash b then some [] else none
]

abbrev pub is_directory : EntryKind → Bool
is_directory EntryKind.directory = true
is_directory EntryKind.file = false
is_directory EntryKind.symlink = false

unfoldable pub check_parent : Option (List ℕ) → List DirectoryEntry → Result SyncError (Unit {0})
check_parent none all = ok tt
check_parent (some p) all = do
  found ← ok_or (find p all) manifest
  ensure (is_directory found.kind) manifest

-- The loop of `validate_hierarchy`; the parents are looked up among all entries.
unfoldable pub check_hierarchy :
    List DirectoryEntry → List DirectoryEntry → Result SyncError (Unit {0})
check_hierarchy all [] = ok tt
check_hierarchy all (e ∷ es) = do
  check_parent (parent e.path) all
  ensure (not (ltb max_directory_depth (length (split is_slash e.path)))) manifest
  check_hierarchy all es

unfoldable pub validate_hierarchy : List DirectoryEntry → Result SyncError (Unit {0})
validate_hierarchy es = check_hierarchy es es

-- `u64::to_le_bytes`, for any number of bytes.
unfoldable pub le_bytes : ℕ → ℕ → List ℕ
le_bytes zero n = []
le_bytes (suc k) n = n % 256 ∷ le_bytes k (n / 256)

-- `sort_by` of the paths' bytes, which is stable.
unfoldable pub insert_entry : DirectoryEntry → List DirectoryEntry → List DirectoryEntry
insert_entry e [] = e ∷ []
insert_entry e (f ∷ es) =
    let rest = insert_entry e es in if bytes_ltb f.path e.path then f ∷ rest else e ∷ f ∷ es

unfoldable pub sort : List DirectoryEntry → List DirectoryEntry
sort [] = []
sort (e ∷ es) = insert_entry e (sort es)

-- `windows(2)` finds a pair with one path.
unfoldable pub has_twins : List DirectoryEntry → Bool
has_twins [] = false
has_twins (e ∷ []) = false
has_twins (e ∷ f ∷ es) = bytes_eq e.path f.path || has_twins (f ∷ es)

module _ (codec : Codec) where
  -- What `digest_entries` feeds to the hasher.
  unfoldable pub digest_input : List DirectoryEntry → Result SyncError (List ℕ)
  digest_input [] = ok []
  digest_input (e ∷ es) = do
    bytes ← ok_or (codec.encode e) manifest
    rest ← digest_input es
    ok (le_bytes 8 (length bytes) ++ (bytes ++ rest))

  unfoldable pub digest_entries : List DirectoryEntry → Result SyncError ℕ
  digest_entries es = map_ok codec.hash (digest_input es)

  -- `DirectoryManifest::verify`.
  unfoldable pub verify : DirectoryManifest → Result SyncError (Unit {0})
  verify m = do
    validate_entries m.entries
    ensure (is_ordered m.entries) manifest
    root ← digest_entries m.entries
    ensure (root == m.root) manifest
    validate_hierarchy m.entries

  -- `DirectoryManifest::from_entries`.
  unfoldable pub from_entries : List DirectoryEntry → Result SyncError DirectoryManifest
  from_entries es = do
    ensure (not (ltb max_directory_entries (length es))) manifest
    validate_entries es
    ensure (not (has_twins (sort es))) manifest
    validate_hierarchy (sort es)
    root ← digest_entries (sort es)
    ok (record { root = root; entries = sort es })
