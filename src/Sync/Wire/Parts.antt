-- ===== src/Sync/Wire/Parts.antt =====
-- The parts that crates/rds-sync/src/directory/wire.rs cuts a snapshot into.
use remote_device_sync.Base.{
  ℕ, zero, suc, ◌+◌, ◌-◌, ◌≤◌, ◌<◌, ◌≡◌, refl, ap, ◌∙◌, sym, subst, ◌⊎◌, inl, inr, List, [], ◌∷◌,
  ◌++◌, none, some, Option-cases, length, take, drop, All, Result, ok, err, map_ok, arith,
}
use remote_device_sync.Sync.{SyncError, manifest}
use remote_device_sync.Sync.Directory.{DirectoryEntry, DirectoryManifest, Codec, verify}
use remote_device_sync.Sync.Wire.{
  DirectorySnapshotPart, count_fitting, cut, next, prepend, collect, snapshot_parts,
}

-- The bytes of a sequence: one for its length, and the entries'.
unfoldable pub sizes : Codec → List DirectoryEntry → ℕ
sizes codec [] = 0
sizes codec (e ∷ es) = elim (codec.entry_size e) [ none ↦ 0 | some n ↦ n ] + sizes codec es

-- Entries that all have a size.
abbrev pub Sized : Codec → List DirectoryEntry → Type 0
Sized codec = All (λ e. (n : ℕ) × (codec.entry_size e ≡ some n))

abbrev pub concat : List DirectorySnapshotPart → List DirectoryEntry
concat [] = []
concat (part ∷ parts) = part ++ concat parts

take-drop : (n : ℕ) (es : List DirectoryEntry) → take n es ++ drop n es ≡ es
take-drop zero es = refl
take-drop (suc n) [] = refl
take-drop (suc n) (e ∷ es) = ap (λ l. e ∷ l) (take-drop n es)

length-drop : (n : ℕ) (es : List DirectoryEntry) → length (drop n es) ≡ length es - n
length-drop zero es = omega arith
length-drop (suc n) [] = omega arith
length-drop (suc n) (e ∷ es) = omega (arith, length-drop n es)

length-take : (n : ℕ) (es : List DirectoryEntry) → n ≤ length es → length (take n es) ≡ n
length-take zero es h = refl
length-take (suc n) [] h = absurd (omega arith)
length-take (suc n) (e ∷ es) h = omega (arith, length-take n es (omega arith))

module _ (codec : Codec) where
  -- What fits is there, has sizes, and stays within the slots and the bytes.
  record Fits (slots bytes n : ℕ) (es : List DirectoryEntry) : Type 0 where
    few : n ≤ slots
    there : n ≤ length es
    sized : Sized codec (take n es)
    small : bytes + sizes codec (take n es) ≤ 49152

  Fits-zero : (slots bytes : ℕ) (es : List DirectoryEntry) → bytes ≤ 49152 → Fits slots bytes 0 es
  unfolding sizes
  Fits-zero slots bytes es b = record {
    few = omega arith;
    there = omega arith;
    sized = tt;
    small = omega arith;
  }

  -- Either nothing more fits, or this entry and what fits beside it.
  count_fitting-cases :
      (slots bytes : ℕ) (e : DirectoryEntry) (es : List DirectoryEntry) (n : ℕ)
      → count_fitting codec (suc slots) bytes (e ∷ es) ≡ ok n
      → (n ≡ 0)
        ⊎ ((size : ℕ) × (m : ℕ) × (codec.entry_size e ≡ some size)
            × (n ≡ suc m)
            × (bytes + size ≤ 49152)
            × (count_fitting codec slots (bytes + size) es ≡ ok m))
  unfolding count_fitting
  count_fitting-cases slots bytes e es n h = ground arith

  count_fitting-Fits :
      (slots bytes : ℕ) (es : List DirectoryEntry) (n : ℕ)
      → bytes ≤ 49152
      → count_fitting codec slots bytes es ≡ ok n
      → Fits slots bytes n es
  unfolding count_fitting sizes
  count_fitting-Fits zero bytes es n b h =
      subst (λ m. Fits zero bytes m es) (ground arith) (Fits-zero zero bytes es b)
  count_fitting-Fits (suc slots) bytes [] n b h =
      subst (λ m. Fits (suc slots) bytes m []) (ground arith) (Fits-zero (suc slots) bytes [] b)
  count_fitting-Fits (suc slots) bytes (e ∷ es) n b h =
      elim (count_fitting-cases slots bytes e es n h) [
        | inl z ↦
            subst (λ m. Fits (suc slots) bytes m (e ∷ es)) (sym z)
              (Fits-zero (suc slots) bytes (e ∷ es) b)
        | inr (size, m, q, s, l, later) ↦
            let f = count_fitting-Fits slots (bytes + size) es m l later in
            subst (λ k. Fits (suc slots) bytes k (e ∷ es)) (sym s)
              (record {
                few = omega (arith, f.few);
                there = omega (arith, f.there);
                sized = ((size, q), f.sized);
                small = rw q (omega (arith, f.small));
              })
      ]

  -- A part: no entry less than one, no more than 32, all with a size, and at most 48 KiB together.
  pub record IsPart (part : DirectorySnapshotPart) : Type 0 where
    pub some_entry : 0 < length part
    pub few : length part ≤ 32
    pub sized : Sized codec part
    pub small : 1 + sizes codec part ≤ 49152

  cut-IsPart :
      (es : List DirectoryEntry) (counted : Result SyncError ℕ) (part : DirectorySnapshotPart)
      → counted ≡ count_fitting codec 32 1 es
      → (cut codec es counted).0 ≡ ok part
      → IsPart part
        × (part ++ (cut codec es counted).1 ≡ es)
        × (length (cut codec es counted).1 < length es)
  cut-IsPart es (err e) part c h = absurd (ground arith)
  cut-IsPart es (ok zero) part c h = absurd (ground arith)
  cut-IsPart es (ok (suc n)) part c h =
      let f = count_fitting-Fits 32 1 es (suc n) (omega arith) (sym c) in
      let e : take (suc n) es ≡ part = ground arith in
      rw (sym e) (
        record {
          some_entry = omega (arith, length-take (suc n) es f.there);
          few = omega (arith, length-take (suc n) es f.there, f.few);
          sized = f.sized;
          small = f.small;
        },
        take-drop (suc n) es,
        omega (arith, length-drop (suc n) es, f.there),
      )

  -- An entry that no part can hold.
  abbrev pub Unfit : DirectoryEntry → Type 0
  Unfit e = (codec.entry_size e ≡ none) ⊎ ((n : ℕ) × (codec.entry_size e ≡ some n) × (49151 < n))

  abbrev pub HasUnfit : List DirectoryEntry → Type 0
  HasUnfit [] = ⊥
  HasUnfit (e ∷ es) = Unfit e ⊎ HasUnfit es

  count_fitting-HasUnfit :
      (slots bytes : ℕ) (es : List DirectoryEntry) (x : SyncError)
      → count_fitting codec slots bytes es ≡ err x
      → HasUnfit es
  unfolding count_fitting
  count_fitting-HasUnfit zero bytes es x h = absurd (ground arith)
  count_fitting-HasUnfit (suc slots) bytes [] x h = absurd (ground arith)
  count_fitting-HasUnfit (suc slots) bytes (e ∷ es) x h = elim (Option-cases (codec.entry_size e)) [
    | inl z ↦ inl (inl z)
    | inr (size, q) ↦ inr (count_fitting-HasUnfit slots (bytes + size) es x (ground arith))
  ]

  count_fitting-Unfit :
      (e : DirectoryEntry) (es : List DirectoryEntry)
      → count_fitting codec 32 1 (e ∷ es) ≡ ok 0
      → Unfit e
  unfolding count_fitting
  count_fitting-Unfit e es h = ground arith

  drop-HasUnfit : (n : ℕ) (es : List DirectoryEntry) → HasUnfit (drop n es) → HasUnfit es
  drop-HasUnfit zero es u = u
  drop-HasUnfit (suc n) [] u = u
  drop-HasUnfit (suc n) (e ∷ es) u = inr (drop-HasUnfit n es u)

  -- What the iterator has given of the entries: an error over one that no part can hold, or parts that
  -- are all of them in order.
  unfoldable pub Cuts : List DirectoryEntry → Result SyncError (List DirectorySnapshotPart) → Type 0
  Cuts es (err e) = HasUnfit es
  Cuts es (ok parts) = All IsPart parts × (concat parts ≡ es)

  prepend-Cuts :
      (n : ℕ) (part : DirectorySnapshotPart) (es : List DirectoryEntry)
      (r : Result SyncError (List DirectorySnapshotPart))
      → IsPart part
      → part ++ drop n es ≡ es
      → Cuts (drop n es) r
      → Cuts es (map_ok (λ parts. part ∷ parts) r)
  unfolding Cuts
  prepend-Cuts n part es (err e) i j c = drop-HasUnfit n es c
  prepend-Cuts n part es (ok parts) i j c = ((i, c.0), ap (λ l. part ++ l) c.1 ∙ j)

  -- What `collect` says on some fuel.
  abbrev Ends : ℕ → List DirectoryEntry → Type 0
  Ends fuel es =
      (r : Result SyncError (List DirectorySnapshotPart)) × (collect codec fuel es ≡ some r)
      × Cuts es r

  cut-Ends :
      (fuel : ℕ) (e : DirectoryEntry) (es : List DirectoryEntry) (counted : Result SyncError ℕ)
      → length (e ∷ es) < suc fuel
      → count_fitting codec 32 1 (e ∷ es) ≡ counted
      → ((rest : List DirectoryEntry) → length rest < fuel → Ends fuel rest)
      → Ends (suc fuel) (e ∷ es)
  unfolding collect next Cuts
  cut-Ends fuel e es (err x) l c later =
      (err x, rw (c, collect, next) refl, count_fitting-HasUnfit 32 1 (e ∷ es) x c)
  cut-Ends fuel e es (ok zero) l c later =
      (err manifest, rw (c, collect, next) refl, inl (count_fitting-Unfit e es c))
  cut-Ends fuel e es (ok (suc n)) l c later =
      let part = take (suc n) (e ∷ es) in
      let rest = drop (suc n) (e ∷ es) in
      let (i, j, k) = cut-IsPart (e ∷ es) (ok (suc n)) part (sym c) refl in
      let (r, q, cuts) = later rest (omega (arith, k)) in
      (
        map_ok (λ parts. part ∷ parts) r,
        rw (c, collect, next) (ap (prepend codec part) q),
        prepend-Cuts (suc n) part (e ∷ es) r i j cuts,
      )

  pub collect-Cuts : (fuel : ℕ) (es : List DirectoryEntry) → length es < fuel → Ends fuel es
  unfolding collect next Cuts
  collect-Cuts zero es h = absurd (omega arith)
  collect-Cuts (suc fuel) [] h = (ok [], refl, (tt, refl))
  collect-Cuts (suc fuel) (e ∷ es) h =
      cut-Ends fuel e es (count_fitting codec 32 1 (e ∷ es)) h refl (collect-Cuts fuel)

  -- The iterator over the entries of a manifest that verifies comes to an end: it gives an error, and
  -- then some entry cannot be encoded or is too large for any part, or it gives parts of 1 to 32
  -- entries that fit into 48 KiB, and together they are the entries in order.
  pub snapshot_parts-Cuts :
      (m : DirectoryManifest)
      → verify codec m ≡ ok tt
      → (r : Result SyncError (List DirectorySnapshotPart)) × (snapshot_parts codec m ≡ some r)
        × Cuts m.entries r
  unfolding snapshot_parts
  snapshot_parts-Cuts m v =
      rw (v, snapshot_parts) (collect-Cuts (suc (length m.entries)) m.entries (omega arith))
