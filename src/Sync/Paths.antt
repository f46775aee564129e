-- ===== src/Sync/Paths.antt =====
-- crates/rds-sync/src/proto.rs, `check_rel_path`: the lexical check of a relative path, and its
-- normal form.
pub mod Confined
use remote_device_sync.Base.{
  ℕ, ◌+◌, Bool, true, false, ◌||◌, ◌&&◌, not, List, [], ◌∷◌, ◌++◌, leb, ltb, ◌==◌, if◌then◌else◌,
  length, contains, bytes_eq, get_or, map, Result, ok, err, ensure, ◌>>=◌, ◌>>◌,
}
use remote_device_sync.Base.Text.{bytes}
use remote_device_sync.Grant.Scope.{is_separator, split}
use remote_device_sync.Sync.{SyncError, manifest}

abbrev pub max_rel_path : ℕ
max_rel_path = 512

-- `journal::STATE_DIR`.
abbrev pub state_dir : List ℕ
state_dir = bytes ".rds-sync"

abbrev pub to_ascii_lowercase : ℕ → ℕ
to_ascii_lowercase b = if leb 65 b && leb b 90 then b + 32 else b

-- `str::eq_ignore_ascii_case`.
abbrev pub eq_ignore_ascii_case : List ℕ → List ℕ → Bool
eq_ignore_ascii_case a b = bytes_eq (map to_ascii_lowercase a) (map to_ascii_lowercase b)

pub data Part : Type 0 where
  skip traversal private plain : Part

-- The cases of the `match part`.
unfoldable pub part : List ℕ → Part
part w =
    if bytes_eq w [] || bytes_eq w (bytes ".")
    then Part.skip
    else if bytes_eq w (bytes "..")
    then Part.traversal
    else if eq_ignore_ascii_case w state_dir
    then Part.private
    else Part.plain

-- `PathBuf::push` of a part that holds no separator.
abbrev pub push : List ℕ → List ℕ → List ℕ
push [] w = w
push (b ∷ bs) w = (b ∷ bs) ++ (b'/' ∷ w)

-- The loop over the parts.
unfoldable pub push_parts : List ℕ → List (List ℕ) → Result SyncError (List ℕ)
push_parts out [] = ok out
push_parts out (w ∷ ws) = elim (part w) [
  | Part.skip ↦ push_parts out ws
  | Part.traversal ↦ err manifest
  | Part.private ↦ err manifest
  | Part.plain ↦ push_parts (push out w) ws
]

unfoldable pub check_rel_path : List ℕ → Result SyncError (List ℕ)
check_rel_path rel = do
  ensure (not (length rel == 0 || ltb max_rel_path (length rel))) manifest
  ensure (not (contains 0 rel)) manifest
  ensure (not (is_separator (get_or rel 0 0) || get_or rel 1 0 == b':' || get_or rel 0 0 == b'~'))
      manifest
  out ← push_parts [] (split is_separator rel)
  ensure (not (length out == 0)) manifest
  ok out
