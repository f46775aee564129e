-- ===== src/Grant/Scope.antt =====
-- crates/rds-core/src/grant.rs, `check_scope_path`: the lexical check of a `sync_paths` entry, and
-- the components of a Unix `std::path::Path`, by which `permits_sync_path` compares.
pub mod Confined
use remote_device_sync.Base.{
  ℕ, suc, ◌+◌, Bool, true, false, ◌||◌, not, List, [], ◌∷◌, ◌++◌, Option, ltb, ◌==◌, if◌then◌else◌,
  length, contains, bytes_eq, get_or, Result, ok, err, ensure, ◌>>=◌, ◌>>◌,
}
use remote_device_sync.Base.Text.{bytes}
use remote_device_sync.Grant.{GrantError, malformed, max_scope_path_len}

abbrev pub is_slash : ℕ → Bool
is_slash c = c == b'/'

abbrev pub is_separator : ℕ → Bool
is_separator c = c == b'/' || c == b'\\'

abbrev pub push_head : ℕ → List (List ℕ) → List (List ℕ)
push_head c [] = (c ∷ []) ∷ []
push_head c (w ∷ ws) = (c ∷ w) ∷ ws

-- `str::split`: the parts between separators, empty ones included.
unfoldable pub split : (ℕ → Bool) → List ℕ → List (List ℕ)
split p [] = [] ∷ []
split p (c ∷ cs) = let rest = split p cs in if p c then [] ∷ rest else push_head c rest

pub data Part : Type 0 where
  skip parent real : Part

-- The cases of the `match part`: `"" | "."`, `".."` and any other.
abbrev pub part : List ℕ → Part
part w =
    if bytes_eq w [] || bytes_eq w (bytes ".")
    then Part.skip
    else if bytes_eq w (bytes "..")
    then Part.parent
    else Part.real

-- The loop over the parts: how many real components it counts.
unfoldable pub count_components : List (List ℕ) → ℕ → Result GrantError ℕ
count_components [] n = ok n
count_components (w ∷ ws) n = elim (part w) [
  | Part.skip ↦ count_components ws n
  | Part.parent ↦ err malformed
  | Part.real ↦ count_components ws (n + 1)
]

unfoldable pub check_scope_path : List ℕ → Result GrantError (Unit {0})
check_scope_path path = do
  ensure (not (bytes_eq path [] || ltb max_scope_path_len (length path))) malformed
  ensure (not (contains 0 path)) malformed
  ensure (not (is_separator (get_or path 0 0) || get_or path 1 0 == b':')) malformed
  real_components ← count_components (split is_separator path) 0
  ensure (not (real_components == 0)) malformed

-- `std::path::Component` of a Unix path.
pub data Component : Type 0 where
  root_dir cur_dir parent_dir : Component
  normal : List ℕ → Component

abbrev pub body_component : List ℕ → List Component → List Component
body_component w rest = elim (part w) [
  | Part.skip ↦ rest
  | Part.parent ↦ Component.parent_dir ∷ rest
  | Part.real ↦ Component.normal w ∷ rest
]

unfoldable pub body_components : List (List ℕ) → List Component
body_components [] = []
body_components (w ∷ ws) = body_component w (body_components ws)

-- A leading `/` is the root, and a leading `.` part of a relative path is kept as `cur_dir`.
abbrev pub lead : List ℕ → List (List ℕ) → List Component
lead path [] = []
lead path (w ∷ ws) =
    if is_slash (get_or path 0 0)
    then Component.root_dir ∷ []
    else if bytes_eq w (bytes ".")
    then Component.cur_dir ∷ []
    else []

-- `Path::components`.
unfoldable pub components : List ℕ → List Component
components path = lead path (split is_slash path) ++ body_components (split is_slash path)
