-- ===== src/Sync/Wire/Accepted.antt =====
-- What a receiver accepts from its peer (crates/rds-sync/src/directory/wire.rs).
use remote_device_sync.Base.{
  ℕ, ◌≤◌, ◌≡◌, List, [], ◌∷◌, length, All, bytes_eq, true, ok, ap, ◌∙◌, subst, saturating_add,
  >>=-eq-ok, arith,
}
use remote_device_sync.Base.ByteMap.{bytes_eq_sound}
use remote_device_sync.Grant.Scope.{is_slash, split}
use remote_device_sync.Sync.Paths.{check_rel_path}
use remote_device_sync.Sync.Paths.Confined.{IsPlain, check_rel_path-IsPlain}
use remote_device_sync.Sync.Directory.{
  DirectoryEntry, DirectoryManifest, Codec, target_len, validate, count_bytes, validate_entries,
  verify,
}
use remote_device_sync.Sync.Wire.{
  DirectorySnapshotHeader, DirectorySnapshotPart, DirectorySnapshotAssembler, new, push_part,
  push_parts, finish, receive,
}

-- The entry's path consists of plain components.
abbrev pub IsConfined : DirectoryEntry → Type 0
IsConfined e = All IsPlain (split is_slash e.path)

validate_lem :
    (e : DirectoryEntry)
    → validate e ≡ ok tt
    → (n : List ℕ) × (check_rel_path e.path ≡ ok n) × (bytes_eq n e.path ≡ true)
unfolding validate
validate_lem e h = ground arith

validate-IsConfined : (e : DirectoryEntry) → validate e ≡ ok tt → IsConfined e
validate-IsConfined e h =
    let (n, c, q) = validate_lem e h in
    subst (λ path. All IsPlain (split is_slash path)) (bytes_eq_sound n e.path q)
      (check_rel_path-IsPlain e.path n c)

count_bytes_lem :
    (total : ℕ) (e : DirectoryEntry) (es : List DirectoryEntry) (t : ℕ)
    → count_bytes total (e ∷ es) ≡ ok t
    → (validate e ≡ ok tt)
      × (count_bytes (saturating_add (saturating_add total (length e.path)) (target_len e)) es
          ≡ ok t)
unfolding count_bytes
count_bytes_lem total e es t h = (ground arith, ground arith)

count_bytes-IsConfined :
    (total : ℕ) (es : List DirectoryEntry) (t : ℕ) → count_bytes total es ≡ ok t → All IsConfined es
count_bytes-IsConfined total [] t h = tt
count_bytes-IsConfined total (e ∷ es) t h =
    let (v, later) = count_bytes_lem total e es t h in
    (
      validate-IsConfined e v,
      count_bytes-IsConfined (saturating_add (saturating_add total (length e.path)) (target_len e))
          es t later,
    )

module _ (codec : Codec) where
  verify_lem :
      (m : DirectoryManifest)
      → verify codec m ≡ ok tt
      → (length m.entries ≤ 1048576) × ((t : ℕ) × (count_bytes 0 m.entries ≡ ok t))
  unfolding verify validate_entries
  verify_lem m v = (ground arith, ground arith)

  push_part-header :
      (part : DirectorySnapshotPart) (a b : DirectorySnapshotAssembler)
      → push_part codec part a ≡ ok b
      → b.header ≡ a.header
  unfolding push_part
  push_part-header part a b h = ground arith

  push_parts-header :
      (parts : List DirectorySnapshotPart) (a b : DirectorySnapshotAssembler)
      → push_parts codec parts a ≡ ok b
      → b.header ≡ a.header
  unfolding push_parts
  push_parts-header [] a b h = ground arith
  push_parts-header (part ∷ parts) a b h =
      let (c, e, h') = >>=-eq-ok (push_part codec part a) _ h in
      push_parts-header parts c b h' ∙ push_part-header part a c e

  new_lem :
      (header : DirectorySnapshotHeader) (a : DirectorySnapshotAssembler)
      → new codec header ≡ ok a
      → a.header ≡ header
  unfolding new
  new_lem header a h = ground arith

  finish_lem :
      (a : DirectorySnapshotAssembler) (m : DirectoryManifest)
      → finish codec a ≡ ok m
      → (verify codec m ≡ ok tt)
        × (m.root ≡ a.header.root)
        × (length m.entries ≡ a.header.entry_count)
  unfolding finish
  finish_lem a m h = (ground arith, ground arith, ground arith)

  -- Whatever header and parts a peer sends: a manifest that the receiver accepts has the announced
  -- root and number of entries, at most 2 ^ 20 of them, and passes `verify`; and the path of every
  -- entry, split at each `/`, has no part that is empty, `.`, `..` or the journal's directory in upper
  -- or lower case.
  pub receive-IsConfined :
      (header : DirectorySnapshotHeader) (parts : List DirectorySnapshotPart)
      (m : DirectoryManifest)
      → receive codec header parts ≡ ok m
      → (verify codec m ≡ ok tt)
        × (m.root ≡ header.root)
        × (length m.entries ≡ header.entry_count)
        × (length m.entries ≤ 1048576)
        × All IsConfined m.entries
  unfolding receive
  receive-IsConfined header parts m h =
      let (a, e, h1) = >>=-eq-ok (new codec header) _ h in
      let (b, e', h2) = >>=-eq-ok (push_parts codec parts a) _ h1 in
      let same = push_parts-header parts a b e' ∙ new_lem header a e in
      let (v, r, n) = finish_lem b m h2 in
      let (few, (t, counted)) = verify_lem m v in
      (
        v,
        r ∙ ap (λ x. x.root) same,
        n ∙ ap (λ x. x.entry_count) same,
        few,
        count_bytes-IsConfined 0 m.entries t counted,
      )
