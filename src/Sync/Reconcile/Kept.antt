-- ===== src/Sync/Reconcile/Kept.antt =====
-- Under `Keep`, a reconcile plan (crates/rds-sync/src/directory/reconcile.rs) removes nothing.
use remote_device_sync.Base.{
  ℕ, ◌≡◌, refl, sym, subst, true, ◌||◌, List, [], ◌∷◌, bytes_eq, is_some, All, ensure, not, ok,
  >>=-eq-ok, arith,
}
use remote_device_sync.Base.ByteMap.{ByteMap, get, put, get-put, bytes_eq_sound}
use remote_device_sync.Sync.{manifest}
use remote_device_sync.Sync.Directory.{
  DirectoryEntry, DirectoryManifest, Codec, find, insert_entry, sort, from_entries,
}
use remote_device_sync.Sync.Reconcile.{
  DeletePolicy, ReconcileOperation, ReconcilePlan, path_of, has, count_data, validate_operation,
  entries_of, verify_operations, verify_plan, project_operation, project_operations, entry_map,
  project_entries, values, project_destination,
}

-- Each entry stands under its path.
abbrev Keyed : ByteMap DirectoryEntry → Type 0
Keyed [] = Unit
Keyed ((p, e) ∷ m) = (e.path ≡ p) × Keyed m

put-Keyed : (e : DirectoryEntry) (m : ByteMap DirectoryEntry) → Keyed m → Keyed (put e.path e m)
unfolding put
put-Keyed e [] k = (refl, tt)
put-Keyed e ((p, f) ∷ m) k = ground (arith, put-Keyed e m k.1, k)

get-put-kept :
    (path k : List ℕ) (e : DirectoryEntry) (m : ByteMap DirectoryEntry)
    → is_some (get path m) ≡ true
    → is_some (get path (put k e m)) ≡ true
unfolding get put
get-put-kept path k e [] h = absurd (ground arith)
get-put-kept path k e ((p, f) ∷ m) h =
    ground (arith, get-put-kept path k e m, bytes_eq_sound k p, bytes_eq_sound p path)

get-put-new :
    (e : DirectoryEntry) (m : ByteMap DirectoryEntry) → is_some (get e.path (put e.path e m)) ≡ true
get-put-new e m = rw (get-put e.path e m) refl

-- A path among the entries is a key of the map.
entry_map-kept :
    (path : List ℕ) (es : List DirectoryEntry) (m : ByteMap DirectoryEntry)
    → (is_some (find path es) || is_some (get path m)) ≡ true
    → is_some (get path (entry_map es m)) ≡ true
unfolding find entry_map
entry_map-kept path [] m h = h
entry_map-kept path (e ∷ es) m h =
    entry_map-kept path es (put e.path e m)
      (ground (arith, get-put-kept path e.path e m, get-put-new e m, bytes_eq_sound e.path path))

entry_map-Keyed :
    (es : List DirectoryEntry) (m : ByteMap DirectoryEntry) → Keyed m → Keyed (entry_map es m)
unfolding entry_map
entry_map-Keyed [] m k = k
entry_map-Keyed (e ∷ es) m k = entry_map-Keyed es (put e.path e m) (put-Keyed e m k)

-- An operation that `Keep` admits.
abbrev IsKeeping : ReconcileOperation → Type 0
IsKeeping (ReconcileOperation.put_entry e) = Unit
IsKeeping (ReconcileOperation.replace b a) = Unit
IsKeeping (ReconcileOperation.move f t) = ⊥
IsKeeping (ReconcileOperation.delete_entry t) = ⊥

entries_of-IsKeeping :
    (revision : ℕ) (sources : List (List ℕ)) (o : ReconcileOperation)
    (r : List DirectoryEntry × List (List ℕ))
    → entries_of DeletePolicy.keep revision sources o ≡ ok r
    → IsKeeping o
unfolding entries_of
entries_of-IsKeeping revision sources (ReconcileOperation.put_entry e) r h = tt
entries_of-IsKeeping revision sources (ReconcileOperation.replace b a) r h = tt
entries_of-IsKeeping revision sources (ReconcileOperation.move f t) r h = ground arith
entries_of-IsKeeping revision sources (ReconcileOperation.delete_entry t) r h = ground arith

verify_operations-IsKeeping :
    (revision : ℕ) (paths sources : List (List ℕ)) (bytes : ℕ) (os : List ReconcileOperation)
    (r : List (List ℕ) × List (List ℕ))
    → verify_operations DeletePolicy.keep revision paths sources bytes os ≡ ok r
    → All IsKeeping os
unfolding verify_operations
verify_operations-IsKeeping revision paths sources bytes [] r h = tt
verify_operations-IsKeeping revision paths sources bytes (o ∷ os) r h =
    let (u, _, h1) = >>=-eq-ok (validate_operation o) _ h in
    let (u', _, h2) = >>=-eq-ok (ensure (not (has (path_of o) paths)) manifest) _ h1 in
    let (found, e, h3) = >>=-eq-ok (entries_of DeletePolicy.keep revision sources o) _ h2 in
    let (total, _, h4) = >>=-eq-ok (count_data bytes (found.0)) _ h3 in
    (
      entries_of-IsKeeping revision sources o found e,
      verify_operations-IsKeeping revision (path_of o ∷ paths) (found.1) total os r h4,
    )

-- What holds of the entries of the destination while operations are applied.
abbrev Holds : List ℕ → ByteMap DirectoryEntry → Type 0
Holds path m = (is_some (get path m) ≡ true) × Keyed m

put-Holds :
    (path : List ℕ) (e : DirectoryEntry) (m m' : ByteMap DirectoryEntry)
    → Holds path m
    → put e.path e m ≡ m'
    → Holds path m'
put-Holds path e m m' k q =
    subst (Holds path) q (get-put-kept path e.path e m k.0, put-Keyed e m k.1)

project_operation-Holds :
    (path : List ℕ) (o : ReconcileOperation) (m m' : ByteMap DirectoryEntry)
    → IsKeeping o
    → project_operation o m ≡ ok m'
    → Holds path m
    → Holds path m'
unfolding project_operation
project_operation-Holds path (ReconcileOperation.put_entry e) m m' i h k =
    put-Holds path e m m' k (ground arith)
project_operation-Holds path (ReconcileOperation.replace b a) m m' i h k =
    put-Holds path a m m' k (ground arith)
project_operation-Holds path (ReconcileOperation.move f t) m m' i h k = absurd i
project_operation-Holds path (ReconcileOperation.delete_entry t) m m' i h k = absurd i

project_operations-Holds :
    (path : List ℕ) (os : List ReconcileOperation) (m m' : ByteMap DirectoryEntry)
    → All IsKeeping os
    → project_operations os m ≡ ok m'
    → Holds path m
    → Holds path m'
unfolding project_operations
project_operations-Holds path [] m m' i h k = subst (Holds path) (ground arith) k
project_operations-Holds path (o ∷ os) m m' i h k =
    let (n, e, h') = >>=-eq-ok (project_operation o m) _ h in
    project_operations-Holds path os n m' i.1 h' (project_operation-Holds path o m n i.0 e k)

find-values :
    (path : List ℕ) (m : ByteMap DirectoryEntry)
    → Holds path m
    → is_some (find path (values m)) ≡ true
unfolding find get
find-values path [] k = absurd (ground arith)
find-values path ((p, e) ∷ m) k = rw (k.1.0) (ground (arith, find-values path m))

find-insert_entry :
    (path : List ℕ) (e : DirectoryEntry) (es : List DirectoryEntry)
    → (bytes_eq e.path path || is_some (find path es)) ≡ true
    → is_some (find path (insert_entry e es)) ≡ true
unfolding find insert_entry
find-insert_entry path e [] h = ground arith
find-insert_entry path e (f ∷ es) h = ground (arith, find-insert_entry path e es)

find-sort :
    (path : List ℕ) (es : List DirectoryEntry)
    → is_some (find path es) ≡ true
    → is_some (find path (sort es)) ≡ true
unfolding find sort
find-sort path [] h = h
find-sort path (e ∷ es) h = find-insert_entry path e (sort es) (ground (arith, find-sort path es))

module _ (codec : Codec) where
  project_entries_lem :
      (plan : ReconcilePlan) (current : DirectoryManifest) (m : ByteMap DirectoryEntry)
      → project_entries codec plan current ≡ ok m
      → ((r : List (List ℕ) × List (List ℕ)) × (verify_operations plan.delete_policy
              plan.source_revision [] [] 0 plan.operations
            ≡ ok r))
        × (project_operations plan.operations (entry_map current.entries []) ≡ ok m)
  unfolding project_entries verify_plan
  project_entries_lem plan current m h = (ground arith, ground arith)

  from_entries_lem :
      (es : List DirectoryEntry) (m : DirectoryManifest)
      → from_entries codec es ≡ ok m
      → m.entries ≡ sort es
  unfolding from_entries
  from_entries_lem es m h = ground arith

  -- Under `Keep`, the destination that a plan leads to still has every path that it had: a plan that
  -- is applied to the destination it was made for, with whatever operations a peer put into it, removes
  -- no path.
  pub project_destination-kept :
      (plan : ReconcilePlan) (current result : DirectoryManifest) (path : List ℕ)
      → plan.delete_policy ≡ DeletePolicy.keep
      → project_destination codec plan current ≡ ok result
      → is_some (find path current.entries) ≡ true
      → is_some (find path result.entries) ≡ true
  unfolding project_destination get
  project_destination-kept plan current result path k h f =
      let (m, e, h') = >>=-eq-ok (project_entries codec plan current) _ h in
      let ((r, v), p) = project_entries_lem plan current m e in
      let keeping =
        verify_operations-IsKeeping plan.source_revision [] [] 0 plan.operations r (rw (sym k) v) in
      let start : Holds path (entry_map current.entries []) = (
        entry_map-kept path current.entries [] (rw f refl),
        entry_map-Keyed current.entries [] tt,
      ) in
      let end =
        project_operations-Holds path plan.operations (entry_map current.entries []) m keeping p
          start in
      rw (from_entries_lem (values m) result h')
        (find-sort path (values m) (find-values path m end))
