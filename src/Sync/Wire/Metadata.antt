-- ===== src/Sync/Wire/Metadata.antt =====
-- The byte budget of a snapshot (`manifest_metadata_bytes` of
-- crates/rds-sync/src/directory/wire.rs) is a sum over the entries.
use remote_device_sync.Base.{
  ℕ, ◌+◌, ◌≤◌, ◌≡◌, sym, ap, ◌∙◌, subst, List, [], ◌∷◌, ◌++◌, length, saturating_add, le→ltb, All,
  ok, arith,
}
use remote_device_sync.Sync.Directory.{DirectoryEntry, validate, target_len, count_bytes}

-- The bytes of paths and targets.
unfoldable pub metadata : List DirectoryEntry → ℕ
metadata [] = 0
metadata (e ∷ es) = length e.path + target_len e + metadata es

abbrev pub IsValid : DirectoryEntry → Type 0
IsValid e = validate e ≡ ok tt

saturating_lem :
    (t a b : ℕ)
    → saturating_add (saturating_add t a) b ≤ 67108864
    → saturating_add (saturating_add t a) b ≡ t + a + b
saturating_lem t a b h = ground arith

-- One round of the loop.
count_bytes-step :
    (total : ℕ) (e : DirectoryEntry) (es : List DirectoryEntry) (t : ℕ)
    → count_bytes total (e ∷ es) ≡ ok t
    → IsValid e
      × (total + length e.path + target_len e ≤ 67108864)
      × (count_bytes (total + length e.path + target_len e) es ≡ ok t)
unfolding count_bytes
count_bytes-step total e es t h =
    let n = saturating_add (saturating_add total (length e.path)) (target_len e) in
    let b : n ≤ 67108864 = ground arith in
    let q : n ≡ total + length e.path + target_len e =
      saturating_lem total (length e.path) (target_len e) b in
    let later : count_bytes n es ≡ ok t = ground arith in
    (ground arith, omega (arith, b, q), rw (sym q) later)

pub count_bytes-metadata :
    (total : ℕ) (es : List DirectoryEntry) (t : ℕ)
    → total ≤ 67108864
    → count_bytes total es ≡ ok t
    → (t ≡ total + metadata es) × (t ≤ 67108864) × All IsValid es
unfolding count_bytes metadata
count_bytes-metadata total [] t b h = (ground arith, ground arith, tt)
count_bytes-metadata total (e ∷ es) t b h =
    let (v, b', h') = count_bytes-step total e es t h in
    let (q, l, vs) = count_bytes-metadata (total + length e.path + target_len e) es t b' h' in
    (omega (arith, q), l, (v, vs))

pub metadata-count_bytes :
    (total : ℕ) (es : List DirectoryEntry)
    → total + metadata es ≤ 67108864
    → All IsValid es
    → count_bytes total es ≡ ok (total + metadata es)
unfolding count_bytes metadata
metadata-count_bytes total [] b v = ground arith
metadata-count_bytes total (e ∷ es) b v =
    let n = saturating_add (saturating_add total (length e.path)) (target_len e) in
    let q : n ≡ total + length e.path + target_len e = ground arith in
    let later = metadata-count_bytes (total + length e.path + target_len e) es (omega arith) v.1 in
    rw v.0 (
      rw (le→ltb 67108864 n (omega (arith, q))) (
        subst (λ k. count_bytes k es ≡ ok (total + metadata (e ∷ es))) (sym q)
          (later ∙ ap ok (ground arith))))

pub metadata-append :
    (xs ys : List DirectoryEntry) → metadata (xs ++ ys) ≡ metadata xs + metadata ys
unfolding metadata
metadata-append [] ys = omega arith
metadata-append (x ∷ xs) ys = omega (arith, metadata-append xs ys)

pub All-append :
    (xs ys : List DirectoryEntry) → All IsValid (xs ++ ys) → All IsValid xs × All IsValid ys
All-append [] ys a = (tt, a)
All-append (x ∷ xs) ys a = let (p, q) = All-append xs ys a.1 in ((a.0, p), q)
