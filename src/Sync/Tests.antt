-- ===== src/Sync/Tests.antt =====
-- Runs of the directory snapshot (crates/rds-sync) with stand-ins for the libraries: each entry is
-- encoded as nothing but counts as 100 bytes, and the digest of a message is its length.
use remote_device_sync.Base.{
  is_some, true, ◌+◌, ◌*◌, ◌≤◌, ◌≡◌, refl, sym, List, [], ◌∷◌, ap, none, some, length, All, Result,
  ok, arith,
}
use remote_device_sync.Base.ByteMap.{bytes_ltb, get, put}
use remote_device_sync.Base.Text.{bytes}
use remote_device_sync.Grant.Scope.{split}
use remote_device_sync.Sync.{SyncError}
use remote_device_sync.Sync.Paths.{part, push_parts, check_rel_path}
use remote_device_sync.Sync.Directory.{
  EntryKind, DirectoryEntry, DirectoryManifest, Codec, is_bad_kind, validate, count_bytes,
  validate_entries, is_ordered, find, parent, check_parent, check_hierarchy, validate_hierarchy,
  le_bytes, digest_input, digest_entries, verify, sort, insert_entry, has_twins, from_entries,
}
use remote_device_sync.Sync.Directory.Built.{from_entries-verify}
use remote_device_sync.Sync.Reconcile.{
  DeletePolicy, ReconcileOperation, ReconcilePlan, identity_eq, path_of, validate_operation, has,
  entries_of, count_data, verify_operations, is_above, is_canonical, verify_plan, require_previous,
  project_operation, project_operations, entry_map, project_entries, project_destination,
}
use remote_device_sync.Sync.Reconcile.Kept.{project_destination-kept}
use remote_device_sync.Sync.Wire.{
  DirectorySnapshotHeader, DirectorySnapshotPart, manifest_metadata_bytes, from_manifest,
  count_fitting, next, collect, snapshot_parts, receive,
}
use remote_device_sync.Sync.Wire.Parts.{sizes, Sized, Cuts, snapshot_parts-Cuts}
use remote_device_sync.Sync.Wire.Assembled.{snapshot_parts-receive}
use remote_device_sync.Sync.Wire.Accepted.{IsConfined, receive-IsConfined}

abbrev codec : Codec
codec = record {
  encode = λ e. some [];
  entry_size = λ e. some 100;
  sequence_size = λ es. some (1 + 100 * length es);
  hash = λ b. length b;
}

sequence_size-sizes :
    (es : List DirectoryEntry)
    → length es ≤ 127
    → Sized codec es
    → codec.sequence_size es ≡ some (1 + sizes codec es)
unfolding sizes
sequence_size-sizes es l s = ap (λ n. some (1 + n)) (sym (sizes_lem es))
  where
    sizes_lem : (es : List DirectoryEntry) → sizes codec es ≡ 100 * length es
    sizes_lem [] = refl
    sizes_lem (e ∷ es) = omega (arith, sizes_lem es)

abbrev folder : DirectoryEntry
folder = record {
  path = bytes "d";
  kind = EntryKind.directory;
  size = 0;
  content = none;
  symlink_target = none;
}

abbrev document : DirectoryEntry
document = record {
  path = bytes "d/a";
  kind = EntryKind.file;
  size = 3;
  content = some 9;
  symlink_target = none;
}

-- Two entries, each with a length of eight bytes before it.
abbrev tree : DirectoryManifest
tree = record { root = 16; entries = folder ∷ document ∷ [] }

abbrev header : DirectorySnapshotHeader
header = record { version = 1; root = 16; entry_count = 2; metadata_bytes = 4 }

tree_verified : verify codec tree ≡ ok tt
unfolding verify validate_entries count_bytes validate check_rel_path split push_parts part
    is_bad_kind is_ordered bytes_ltb digest_entries digest_input le_bytes validate_hierarchy
    check_hierarchy parent check_parent find
tree_verified = refl

tree_header : from_manifest codec tree ≡ ok header
unfolding from_manifest manifest_metadata_bytes verify validate_entries count_bytes validate
    check_rel_path split push_parts part is_bad_kind is_ordered bytes_ltb digest_entries
    digest_input le_bytes validate_hierarchy check_hierarchy parent check_parent find
tree_header = refl

tree_parts : snapshot_parts codec tree ≡ some (ok ((folder ∷ document ∷ []) ∷ []))
unfolding snapshot_parts collect next count_fitting verify validate_entries count_bytes validate
    check_rel_path split push_parts part is_bad_kind is_ordered bytes_ltb digest_entries
    digest_input le_bytes validate_hierarchy check_hierarchy parent check_parent find
tree_parts = refl

snapshot_parts-Cuts_example :
    (r : Result SyncError (List DirectorySnapshotPart)) × (snapshot_parts codec tree ≡ some r)
    × Cuts codec tree.entries r
snapshot_parts-Cuts_example = snapshot_parts-Cuts codec tree tree_verified

snapshot_parts-receive_example : receive codec header ((folder ∷ document ∷ []) ∷ []) ≡ ok tree
snapshot_parts-receive_example =
    snapshot_parts-receive codec sequence_size-sizes tree header ((folder ∷ document ∷ []) ∷ [])
      tree_header tree_parts

tree_received : receive codec header ((folder ∷ document ∷ []) ∷ []) ≡ ok tree
tree_received =
    snapshot_parts-receive codec sequence_size-sizes tree header ((folder ∷ document ∷ []) ∷ [])
      tree_header tree_parts

receive-IsConfined_example :
    (verify codec tree ≡ ok tt)
    × (tree.root ≡ header.root)
    × (length tree.entries ≡ header.entry_count)
    × (length tree.entries ≤ 1048576)
    × All IsConfined tree.entries
receive-IsConfined_example =
    receive-IsConfined codec header ((folder ∷ document ∷ []) ∷ []) tree tree_received

abbrev note : DirectoryEntry
note = record {
  path = bytes "b";
  kind = EntryKind.file;
  size = 4;
  content = some 5;
  symlink_target = none;
}

-- A plan that adds a file to the tree and replaces another.
abbrev plan : ReconcilePlan
plan = record {
  source_revision = 7;
  expected_destination_revision = 16;
  delete_policy = DeletePolicy.keep;
  operations =
      ReconcileOperation.put_entry note
      ∷ ReconcileOperation.replace document (record document { content = some 8 })
      ∷ [];
}

abbrev mirrored : DirectoryManifest
mirrored = record { root = 24; entries = note ∷ folder ∷ record document { content = some 8 } ∷ [] }

plan_projected : project_destination codec plan tree ≡ ok mirrored
unfolding project_destination project_entries verify_plan verify_operations validate_operation
    path_of has entries_of count_data is_canonical is_above identity_eq require_previous
    project_operation project_operations entry_map get put from_entries sort insert_entry has_twins
    verify validate_entries count_bytes validate check_rel_path split push_parts part is_bad_kind
    is_ordered bytes_ltb digest_entries digest_input le_bytes validate_hierarchy check_hierarchy
    parent check_parent find
plan_projected = refl

project_destination-kept_example : is_some (find (bytes "d") mirrored.entries) ≡ true
unfolding find
project_destination-kept_example =
    project_destination-kept codec plan tree mirrored (bytes "d") refl plan_projected refl

tree_built : from_entries codec (document ∷ folder ∷ []) ≡ ok tree
unfolding from_entries sort insert_entry has_twins validate_entries count_bytes validate
    check_rel_path split push_parts part is_bad_kind bytes_ltb digest_entries digest_input le_bytes
    validate_hierarchy check_hierarchy parent check_parent find
tree_built = refl

from_entries-verify_example :
    (verify codec tree ≡ ok tt) × (length tree.entries ≡ length (document ∷ folder ∷ []))
from_entries-verify_example = from_entries-verify codec (document ∷ folder ∷ []) tree tree_built
