-- ===== src/Sync/Wire/Assembled.antt =====
-- A snapshot that is cut into parts and put together again (crates/rds-sync/src/directory/wire.rs) is
-- the snapshot.
use remote_device_sync.Base.{
  ℕ, ◌+◌, ◌≤◌, ◌≡◌, refl, sym, ap, ◌∙◌, subst, true, List, [], ◌∷◌, ◌++◌, none, some, length,
  length-append, saturating_add, le→ltb, ==_refl, All, Result, ok, arith,
}
use remote_device_sync.Sync.{SyncError}
use remote_device_sync.Sync.Directory.{
  DirectoryEntry, DirectoryManifest, Codec, count_bytes, validate_entries, is_ordered, verify,
}
use remote_device_sync.Sync.Wire.{
  DirectorySnapshotHeader, DirectorySnapshotPart, DirectorySnapshotAssembler,
  manifest_metadata_bytes, last, from_manifest, validate_part, new, push_part, finish,
  snapshot_parts, push_parts, receive,
}
use remote_device_sync.Sync.Wire.Parts.{sizes, Sized, concat, IsPart, Cuts, snapshot_parts-Cuts}
use remote_device_sync.Sync.Wire.Metadata.{
  metadata, IsValid, count_bytes-metadata, metadata-count_bytes, metadata-append, All-append,
}
use remote_device_sync.Sync.Wire.Ordered.{
  last_or, ordered_after, last-last_or, is_ordered-ordered_after, ordered_after-append,
  ordered_after-check_order,
}

append_assoc : (xs ys zs : List DirectoryEntry) → (xs ++ ys) ++ zs ≡ xs ++ (ys ++ zs)
append_assoc [] ys zs = refl
append_assoc (x ∷ xs) ys zs = ap (λ l. x ∷ l) (append_assoc xs ys zs)

module _ (codec : Codec)
    (sequence_size-sizes : (es : List DirectoryEntry)
      → length es ≤ 127
      → Sized codec es
      → codec.sequence_size es ≡ some (1 + sizes codec es)) where
  -- The receiver has taken in the entries before these.
  record Took (m : DirectoryManifest) (parts : List DirectorySnapshotPart)
      (a : DirectorySnapshotAssembler) : Type 0 where
    entries : a.entries ++ concat parts ≡ m.entries
    metadata_bytes : a.metadata_bytes ≡ metadata a.entries
    version : a.header.version ≡ 1
    root : a.header.root ≡ m.root
    entry_count : a.header.entry_count ≡ length m.entries
    announced : a.header.metadata_bytes ≡ metadata m.entries

  -- What a manifest that verifies has.
  record IsSound (m : DirectoryManifest) : Type 0 where
    verified : verify codec m ≡ ok tt
    valid : All IsValid m.entries
    small : metadata m.entries ≤ 67108864
    few : length m.entries ≤ 1048576
    ordered : ordered_after none m.entries ≡ true

  validate_part-ok :
      (pre part post : List DirectoryEntry)
      → IsPart codec part
      → All IsValid part
      → ordered_after none (pre ++ (part ++ post)) ≡ true
      → validate_part codec part (last pre) ≡ ok tt
  unfolding validate_part
  validate_part-ok pre part post i v o =
      let (_, o') = ordered_after-append none pre (part ++ post) o in
      let (o'', _) = ordered_after-append (last_or none pre) part post o' in
      let c =
        ordered_after-check_order (last pre) part
          (subst (λ p. ordered_after p part ≡ true) (sym (last-last_or pre)) o'') v in
      let q = sequence_size-sizes part (omega (arith, i.few)) i.sized in
      ground (arith, c, q, i.some_entry, i.few, i.small)

  -- The numbers of a part within the whole.
  Took_lem :
      (m : DirectoryManifest) (part : DirectorySnapshotPart) (parts : List DirectorySnapshotPart)
      (a : DirectorySnapshotAssembler)
      → Took m (part ∷ parts) a
      → (metadata a.entries + metadata part + metadata (concat parts) ≡ metadata m.entries)
        × (length a.entries + length part + length (concat parts) ≡ length m.entries)
  Took_lem m part parts a k = (
    omega (
      arith,
      ap metadata k.entries,
      metadata-append a.entries (part ++ concat parts),
      metadata-append part (concat parts),
    ),
    omega (
      arith,
      ap length k.entries,
      length-append a.entries (part ++ concat parts),
      length-append part (concat parts),
    ),
  )

  push_part-Took :
      (m : DirectoryManifest) (part : DirectorySnapshotPart) (parts : List DirectorySnapshotPart)
      (a : DirectorySnapshotAssembler)
      → IsSound m
      → IsPart codec part
      → Took m (part ∷ parts) a
      → (b : DirectorySnapshotAssembler) × (push_part codec part a ≡ ok b) × Took m parts b
  unfolding push_part manifest_metadata_bytes
  push_part-Took m part parts a s i k =
      let (d, l) = Took_lem m part parts a k in
      let (_, v) =
        All-append a.entries (part ++ concat parts) (subst (All IsValid) (sym k.entries) s.valid) in
      let (vp, _) = All-append part (concat parts) v in
      let checked =
        validate_part-ok a.entries part (concat parts) i vp
          (subst (λ es. ordered_after none es ≡ true) (sym k.entries) s.ordered) in
      let counted : count_bytes 0 part ≡ ok (metadata part) =
        metadata-count_bytes 0 part (omega (arith, d, s.small)) vp ∙ ap ok (omega arith) in
      let n = saturating_add a.metadata_bytes (metadata part) in
      let total : n ≡ metadata (a.entries ++ part) =
        ground (arith, metadata-append a.entries part, k.metadata_bytes, d, s.small) in
      let room : saturating_add (length a.entries) (length part) ≤ a.header.entry_count =
        ground (arith, k.entry_count, l) in
      let within : n ≤ a.header.metadata_bytes =
        omega (arith, total, metadata-append a.entries part, d, k.announced) in
      let b : DirectorySnapshotAssembler = record a {
        metadata_bytes = n;
        entries = a.entries ++ part;
      } in
      (
        b,
        rw checked (
            rw (le→ltb a.header.entry_count (saturating_add (length a.entries) (length part)) room)
              (rw counted (rw (le→ltb a.header.metadata_bytes n within) refl))),
        record {
          entries = append_assoc a.entries part (concat parts) ∙ k.entries;
          metadata_bytes = total;
          version = k.version;
          root = k.root;
          entry_count = k.entry_count;
          announced = k.announced;
        },
      )

  push_parts-Took :
      (m : DirectoryManifest) (parts : List DirectorySnapshotPart) (a : DirectorySnapshotAssembler)
      → IsSound m
      → All (IsPart codec) parts
      → Took m parts a
      → (b : DirectorySnapshotAssembler) × (push_parts codec parts a ≡ ok b) × Took m [] b
  unfolding push_parts
  push_parts-Took m [] a s i k = (a, refl, k)
  push_parts-Took m (part ∷ parts) a s i k =
      let (b, e, k') = push_part-Took m part parts a s i.0 k in
      let (c, e', k'') = push_parts-Took m parts b s i.1 k' in (c, rw e e', k'')

  append_nil : (es : List DirectoryEntry) → es ++ [] ≡ es
  append_nil [] = refl
  append_nil (e ∷ es) = ap (λ l. e ∷ l) (append_nil es)

  finish-Took :
      (m : DirectoryManifest) (a : DirectorySnapshotAssembler)
      → IsSound m
      → Took m [] a
      → finish codec a ≡ ok m
  unfolding finish
  finish-Took m a s k =
      let e = sym (append_nil a.entries) ∙ k.entries in
      rw k.metadata_bytes (
        rw k.entry_count (
          rw k.announced (
            rw k.root (
              rw e (
                rw (==_refl (length m.entries))
                  (rw (==_refl (metadata m.entries)) (rw s.verified refl)))))))

  verify_lem :
      (m : DirectoryManifest)
      → verify codec m ≡ ok tt
      → (length m.entries ≤ 1048576)
        × (is_ordered m.entries ≡ true)
        × ((t : ℕ) × (count_bytes 0 m.entries ≡ ok t))
  unfolding verify validate_entries
  verify_lem m v = (ground arith, ground arith, ground arith)

  verify-IsSound : (m : DirectoryManifest) → verify codec m ≡ ok tt → IsSound m
  verify-IsSound m v =
      let (few, ordered, (t, counted)) = verify_lem m v in
      let (q, l, valid) = count_bytes-metadata 0 m.entries t (omega arith) counted in
      record {
        verified = v;
        valid = valid;
        small = omega (arith, q, l);
        few = few;
        ordered = sym (is_ordered-ordered_after m.entries) ∙ ordered;
      }

  from_manifest_lem :
      (m : DirectoryManifest) (header : DirectorySnapshotHeader)
      → from_manifest codec m ≡ ok header
      → (verify codec m ≡ ok tt)
        × (header.version ≡ 1)
        × (header.root ≡ m.root)
        × (header.entry_count ≡ length m.entries)
        × (count_bytes 0 m.entries ≡ ok header.metadata_bytes)
  unfolding from_manifest manifest_metadata_bytes
  from_manifest_lem m header h =
      (ground arith, ground arith, ground arith, ground arith, ground arith)

  some_lem : (r q : Result SyncError (List DirectorySnapshotPart)) → some r ≡ some q → r ≡ q
  some_lem r q h = ground arith

  new_lem :
      (header : DirectorySnapshotHeader)
      → header.version ≡ 1
      → header.entry_count ≤ 1048576
      → header.metadata_bytes ≤ 67108864
      → new codec header ≡ ok (record { header = header; entries = []; metadata_bytes = 0 })
  unfolding new
  new_lem header v c b = ground arith

  -- A manifest that verifies, with the header made from it and cut into parts, is put together again
  -- by a receiver that takes the parts in order, where a sequence of at most 127 entries is encoded
  -- as one byte and the entries.
  pub snapshot_parts-receive :
      (m : DirectoryManifest) (header : DirectorySnapshotHeader)
      (parts : List DirectorySnapshotPart)
      → from_manifest codec m ≡ ok header
      → snapshot_parts codec m ≡ some (ok parts)
      → receive codec header parts ≡ ok m
  unfolding receive metadata Cuts
  snapshot_parts-receive m header parts h p =
      let (v, version, root, count, bytes) = from_manifest_lem m header h in
      let s = verify-IsSound m v in
      let (q, _, _) = count_bytes-metadata 0 m.entries header.metadata_bytes (omega arith) bytes in
      let (r, e, cuts) = snapshot_parts-Cuts codec m v in
      let (all, whole) = subst (Cuts codec m.entries) (some_lem r (ok parts) (sym e ∙ p)) cuts in
      let a : DirectorySnapshotAssembler = record {
        header = header;
        entries = [];
        metadata_bytes = 0;
      } in
      let (b, pushed, k) = push_parts-Took m parts a s all (record {
        entries = whole;
        metadata_bytes = refl;
        version = version;
        root = root;
        entry_count = count;
        announced = omega (arith, q);
      }) in
      let started : new codec header ≡ ok a =
        new_lem header version (omega (arith, count, s.few)) (omega (arith, q, s.small)) in
      rw started (rw pushed (finish-Took m b s k))
