-- ===== src/Sync/Reconcile.antt =====
-- crates/rds-sync/src/directory/reconcile.rs: the operations of a reconcile plan, the check of a plan,
-- and its effect on the destination's entries. A `Revision` is a manifest's root.
pub mod Kept
use remote_device_sync.Base.{
  ℕ, ◌+◌, ◌*◌, Bool, true, false, ◌||◌, ◌&&◌, not, List, [], ◌∷◌, ◌++◌, Option, none, some, leb,
  ltb, ◌==◌, if◌then◌else◌, length, any, bytes_eq, is_some, is_some_and, saturating_add, Result, ok,
  err, ensure, ◌>>=◌, ◌>>◌,
}
use remote_device_sync.Base.ByteMap.{ByteMap, get, put, bytes_ltb}
use remote_device_sync.Grant.Scope.{split, is_slash}
use remote_device_sync.Sync.{SyncError, manifest}
use remote_device_sync.Sync.Directory.{
  EntryKind, DirectoryEntry, DirectoryManifest, Codec, max_directory_entries,
  max_directory_data_bytes, validate, target_len, is_directory, from_entries,
}
use remote_device_sync.Sync.Directory

pub data DeletePolicy : Type 0 where
  keep delete : DeletePolicy

pub record Tombstone : Type 0 where
  pub path : List ℕ
  pub previous : DirectoryEntry
  pub source_revision : ℕ

pub data ReconcileOperation : Type 0 where
  put_entry : DirectoryEntry → ReconcileOperation
  replace : DirectoryEntry → DirectoryEntry → ReconcileOperation
  move : DirectoryEntry → DirectoryEntry → ReconcileOperation
  delete_entry : Tombstone → ReconcileOperation

pub record ReconcilePlan : Type 0 where
  pub source_revision : ℕ
  pub expected_destination_revision : ℕ
  pub delete_policy : DeletePolicy
  pub operations : List ReconcileOperation

abbrev pub is_delete : DeletePolicy → Bool
is_delete DeletePolicy.keep = false
is_delete DeletePolicy.delete = true

abbrev pub kind_eq : EntryKind → EntryKind → Bool
kind_eq EntryKind.file EntryKind.file = true
kind_eq EntryKind.directory EntryKind.directory = true
kind_eq EntryKind.symlink EntryKind.symlink = true
kind_eq _ _ = false

abbrev pub content_eq : Option ℕ → Option ℕ → Bool
content_eq none none = true
content_eq (some a) (some b) = a == b
content_eq _ _ = false

abbrev pub target_eq : Option (List ℕ) → Option (List ℕ) → Bool
target_eq none none = true
target_eq (some a) (some b) = bytes_eq a b
target_eq _ _ = false

-- Equality of `identity()`.
unfoldable pub identity_eq : DirectoryEntry → DirectoryEntry → Bool
identity_eq e f =
    kind_eq e.kind f.kind
    && e.size == f.size
    && content_eq e.content f.content
    && target_eq e.symlink_target f.symlink_target

-- `DirectoryEntry` equality.
abbrev pub entry_eq : DirectoryEntry → DirectoryEntry → Bool
entry_eq e f = bytes_eq e.path f.path && identity_eq e f

-- `ReconcileOperation::path`.
unfoldable pub path_of : ReconcileOperation → List ℕ
path_of (ReconcileOperation.put_entry entry) = entry.path
path_of (ReconcileOperation.replace before after) = after.path
path_of (ReconcileOperation.move from to) = to.path
path_of (ReconcileOperation.delete_entry tombstone) = tombstone.path

-- `ReconcileOperation::validate`.
unfoldable pub validate_operation : ReconcileOperation → Result SyncError (Unit {0})
validate_operation (ReconcileOperation.put_entry entry) = validate entry
validate_operation (ReconcileOperation.replace before after) = do
  validate before
  validate after
  ensure (not (not (bytes_eq before.path after.path) || identity_eq before after)) manifest
  ensure (not (is_directory before.kind || is_directory after.kind)) manifest
validate_operation (ReconcileOperation.move from to) = do
  validate from
  validate to
  ensure (not (is_directory from.kind || is_directory to.kind)) manifest
  ensure (not (bytes_eq from.path to.path || not (identity_eq from to))) manifest
validate_operation (ReconcileOperation.delete_entry tombstone) = do
  validate tombstone.previous
  ensure (bytes_eq tombstone.previous.path tombstone.path) manifest

-- A set of paths holds a path.
unfoldable pub has : List ℕ → List (List ℕ) → Bool
has path paths = any (λ p. bytes_eq p path) paths

-- The `match operation` of `verify`: the entries that count, and the sources of moves.
unfoldable pub entries_of :
    DeletePolicy
    → ℕ
    → List (List ℕ)
    → ReconcileOperation
    → Result SyncError (List DirectoryEntry × List (List ℕ))
entries_of policy revision sources (ReconcileOperation.put_entry entry) = ok (entry ∷ [], sources)
entries_of policy revision sources (ReconcileOperation.replace before after) =
    ok (before ∷ after ∷ [], sources)
entries_of policy revision sources (ReconcileOperation.move from to) = do
  ensure (not (not (is_delete policy) || has from.path sources)) manifest
  ok (from ∷ to ∷ [], from.path ∷ sources)
entries_of policy revision sources (ReconcileOperation.delete_entry tombstone) = do
  ensure (not (not (is_delete policy) || not (tombstone.source_revision == revision))) manifest
  ok (tombstone.previous ∷ [], sources)

unfoldable pub count_data : ℕ → List DirectoryEntry → Result SyncError ℕ
count_data total [] = ok total
count_data total (e ∷ es) = do
  ensure
      (not (
        ltb (2 * max_directory_data_bytes)
          (saturating_add (saturating_add total (length e.path)) (target_len e))))
      manifest
  count_data (saturating_add (saturating_add total (length e.path)) (target_len e)) es

-- The loop of `verify`: the targets and the sources of moves.
unfoldable pub verify_operations :
    DeletePolicy
    → ℕ
    → List (List ℕ)
    → List (List ℕ)
    → ℕ
    → List ReconcileOperation
    → Result SyncError (List (List ℕ) × List (List ℕ))
verify_operations policy revision paths sources bytes [] = ok (paths, sources)
verify_operations policy revision paths sources bytes (o ∷ os) = do
  validate_operation o
  ensure (not (has (path_of o) paths)) manifest
  found ← entries_of policy revision sources o
  total ← count_data bytes (found.0)
  verify_operations policy revision (path_of o ∷ paths) (found.1) total os

abbrev pub rank : ReconcileOperation → ℕ
rank (ReconcileOperation.put_entry entry) = if is_directory entry.kind then 0 else 2
rank (ReconcileOperation.replace before after) = 3
rank (ReconcileOperation.move from to) = 1
rank (ReconcileOperation.delete_entry tombstone) =
    if is_directory tombstone.previous.kind then 5 else 4

abbrev pub depth : ReconcileOperation → ℕ
depth o = if leb 4 (rank o) then length (split is_slash (path_of o)) else 0

-- `operation_sort_key(a) > operation_sort_key(b)`: by rank, the deeper first, then by path.
unfoldable pub is_above : ReconcileOperation → ReconcileOperation → Bool
is_above a b =
    ltb (rank b) (rank a)
    || (rank a == rank b
        && (ltb (depth a) (depth b) || (depth a == depth b && bytes_ltb (path_of b) (path_of a))))

unfoldable pub is_canonical : List ReconcileOperation → Bool
is_canonical [] = true
is_canonical (o ∷ []) = true
is_canonical (o ∷ p ∷ os) = not (is_above o p) && is_canonical (p ∷ os)

-- `ReconcilePlan::verify`.
unfoldable pub verify_plan : ReconcilePlan → Result SyncError (Unit {0})
verify_plan plan = do
  ensure (not (ltb (max_directory_entries * 2) (length plan.operations))) manifest
  found ← verify_operations plan.delete_policy plan.source_revision [] [] 0 plan.operations
  ensure (not (any (λ path. has path (found.1)) (found.0))) manifest
  ensure (is_canonical plan.operations) manifest

unfoldable pub remove_path : List ℕ → ByteMap DirectoryEntry → ByteMap DirectoryEntry
remove_path path [] = []
remove_path path ((p, e) ∷ m) =
    let rest = remove_path path m in if bytes_eq p path then m else (p, e) ∷ rest

unfoldable pub require_previous :
    ByteMap DirectoryEntry → DirectoryEntry → Result SyncError (Unit {0})
require_previous entries previous =
    ensure (is_some_and (get previous.path entries) (λ e. entry_eq e previous)) manifest

-- One operation on the destination's entries.
unfoldable pub project_operation :
    ReconcileOperation → ByteMap DirectoryEntry → Result SyncError (ByteMap DirectoryEntry)
project_operation (ReconcileOperation.put_entry entry) entries = do
  ensure (not (is_some (get entry.path entries))) manifest
  ok (put entry.path entry entries)
project_operation (ReconcileOperation.replace before after) entries = do
  require_previous entries before
  ok (put after.path after entries)
project_operation (ReconcileOperation.move from to) entries = do
  require_previous entries from
  ensure (not (is_some (get to.path entries))) manifest
  ok (put to.path to (remove_path from.path entries))
project_operation (ReconcileOperation.delete_entry tombstone) entries = do
  require_previous entries tombstone.previous
  ok (remove_path tombstone.path entries)

unfoldable pub project_operations :
    List ReconcileOperation → ByteMap DirectoryEntry → Result SyncError (ByteMap DirectoryEntry)
project_operations [] entries = ok entries
project_operations (o ∷ os) entries = do
  next ← project_operation o entries
  project_operations os next

-- `collect` of the entries into a map.
unfoldable pub entry_map : List DirectoryEntry → ByteMap DirectoryEntry → ByteMap DirectoryEntry
entry_map [] m = m
entry_map (e ∷ es) m = entry_map es (put e.path e m)

-- `project_destination`, up to the manifest that it makes of the entries.
unfoldable pub project_entries :
    Codec → ReconcilePlan → DirectoryManifest → Result SyncError (ByteMap DirectoryEntry)
project_entries codec plan current = do
  verify_plan plan
  Directory.verify codec current
  ensure (current.root == plan.expected_destination_revision) manifest
  project_operations plan.operations (entry_map current.entries [])

abbrev pub values : ByteMap DirectoryEntry → List DirectoryEntry
values [] = []
values ((p, e) ∷ m) = e ∷ values m

-- `ReconcilePlan::project_destination`.
unfoldable pub project_destination :
    Codec → ReconcilePlan → DirectoryManifest → Result SyncError DirectoryManifest
project_destination codec plan current = do
  entries ← project_entries codec plan current
  from_entries codec (values entries)
