-- ===== src/Sync/Wire/Ordered.antt =====
-- The order of the paths in a snapshot, over the seams between parts
-- (crates/rds-sync/src/directory/wire.rs).
use remote_device_sync.Base.{
  ◌≡◌, refl, ap, Bool, true, ◌&&◌, List, [], ◌∷◌, ◌++◌, Option, none, some, All, ok, arith,
}
use remote_device_sync.Base.ByteMap.{bytes_ltb}
use remote_device_sync.Sync.Directory.{DirectoryEntry, is_ordered}
use remote_device_sync.Sync.Wire.{last, follows, check_order}
use remote_device_sync.Sync.Wire.Metadata.{IsValid}

-- The entry before what follows.
abbrev pub last_or : Option DirectoryEntry → List DirectoryEntry → Option DirectoryEntry
last_or p [] = p
last_or p (e ∷ es) = last_or (some e) es

unfoldable pub ordered_after : Option DirectoryEntry → List DirectoryEntry → Bool
ordered_after p [] = true
ordered_after p (e ∷ es) = follows p e && ordered_after (some e) es

last_or_lem : (e : DirectoryEntry) (es : List DirectoryEntry) → last (e ∷ es) ≡ last_or (some e) es
last_or_lem e [] = refl
last_or_lem e (f ∷ es) = last_or_lem f es

pub last-last_or : (es : List DirectoryEntry) → last es ≡ last_or none es
last-last_or [] = refl
last-last_or (e ∷ es) = last_or_lem e es

is_ordered_lem :
    (e : DirectoryEntry) (es : List DirectoryEntry)
    → is_ordered (e ∷ es) ≡ ordered_after (some e) es
unfolding is_ordered ordered_after
is_ordered_lem e [] = refl
is_ordered_lem e (f ∷ es) = ap (λ b. bytes_ltb e.path f.path && b) (is_ordered_lem f es)

pub is_ordered-ordered_after : (es : List DirectoryEntry) → is_ordered es ≡ ordered_after none es
unfolding is_ordered ordered_after
is_ordered-ordered_after [] = refl
is_ordered-ordered_after (e ∷ es) = is_ordered_lem e es

pub ordered_after-append :
    (p : Option DirectoryEntry) (xs ys : List DirectoryEntry)
    → ordered_after p (xs ++ ys) ≡ true
    → (ordered_after p xs ≡ true) × (ordered_after (last_or p xs) ys ≡ true)
unfolding ordered_after
ordered_after-append p [] ys h = (refl, h)
ordered_after-append p (x ∷ xs) ys h = ground (arith, ordered_after-append (some x) xs ys)

pub ordered_after-check_order :
    (p : Option DirectoryEntry) (es : List DirectoryEntry)
    → ordered_after p es ≡ true
    → All IsValid es
    → check_order p es ≡ ok tt
unfolding ordered_after check_order
ordered_after-check_order p [] o v = refl
ordered_after-check_order p (e ∷ es) o v =
    rw v.0 (ground (arith, ordered_after-check_order (some e) es))
