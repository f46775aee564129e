-- ===== src/Desktop/MediaRepair/Steps.antt =====
-- Every operation of `MediaRepair` (crates/rds-desktop/src/media_repair.rs) keeps the gate, in any order.
use remote_device_sync.Base.{
  ℕ, ◌≤◌, ◌≡◌, refl, ◌∙◌, ◌⊎◌, inl, inr, Bool, true, false, ◌&&◌, not, none, some, ◌==◌,
  if◌then◌else◌, List, [], ◌∷◌, is_some, arith, Bool-cases, Option-cases,
}
use remote_device_sync.Base.Map.{lookup, insert, remove, insert-IsSorted, remove-IsSorted}
use remote_device_sync.Desktop.MediaRepair.{
  KeyPermit, MediaRepair, generation_of, is_key_pending, is_active, new, next_epoch, request, key,
  confirm, check, release_key, release, take_idr, Operation, request_op, take_op, key_op,
  confirm_op, check_op, release_op, step,
}
use remote_device_sync.Desktop.MediaRepair.Gate.{
  IsGated, owners-insert_new, owners-insert, owners-remove, Until-insert, Until-remove,
  Until-lookup, Until-owners, next_epoch_lem, set_key_pending_lem, release_key_lem,
}

request-IsGated : (r : MediaRepair) → IsGated r → IsGated (request r).0
unfolding request
request-IsGated r v = go (Option-cases (next_epoch r.state)) (Bool-cases (is_active r.state))
  where
    go :
        (next_epoch r.state ≡ none) ⊎ ((w : ℕ) × (next_epoch r.state ≡ some w))
        → (is_active r.state ≡ true) ⊎ (is_active r.state ≡ false)
        → IsGated (request r).0
    go (inr (w, e)) _ =
        let n = next_epoch_lem r.state w v.word e in
        let u =
          Until-owners (generation_of r.state) (generation_of w) r.permits v.until
            (omega (arith, n.0)) in
        rw (e, request)
          (record { owned = rw (n.1) u.0; sorted = v.sorted; until = u.1; word = n.3 })
    go (inl e) (inl t) =
        rw (e, t, request)
          (record { owned = v.owned; sorted = v.sorted; until = v.until; word = v.word })
    go (inl e) (inr t) = rw (e, t, request) v

key-IsGated : (k g : ℕ) (r : MediaRepair) → IsGated r → IsGated (key k g r).0
unfolding key
key-IsGated k g r v = go (
    Bool-cases (
      generation_of r.state == g
      && not (is_key_pending r.state)
      && not (is_some (lookup k r.permits))))
  where
    go :
        ((generation_of r.state == g
              && not (is_key_pending r.state)
              && not (is_some (lookup k r.permits)))
            ≡ true)
          ⊎ ((generation_of r.state == g
                && not (is_key_pending r.state)
                && not (is_some (lookup k r.permits)))
              ≡ false)
        → IsGated (key k g r).0
    go (inr t) = rw (t, key) v
    go (inl t) =
        let same : generation_of r.state ≡ g = ground (arith, t) in
        let open_at : is_key_pending r.state ≡ false = ground (arith, t) in
        let free : lookup k r.permits ≡ none = ground (arith, t) in
        let p : KeyPermit = record { generation = g; confirmed = false; checked = false } in
        let s = set_key_pending_lem r.state open_at v.word in
        rw (t, key)
          (record {
            owned =
                rw (s.0, s.1)
                  (ground (
                    arith,
                    owners-insert_new (generation_of r.state) k p r.permits free,
                    v.owned,
                    same,
                    open_at,
                  ));
            sorted = insert-IsSorted k p r.permits v.sorted;
            until =
                rw (s.0) (
                  Until-insert (generation_of r.state) k p r.permits (omega (arith, same)) v.until);
            word = s.2;
          })

-- A permit replaced by one of the same epoch.
replace-IsGated :
    (k : ℕ) (i : Bool) (p q : KeyPermit) (r : MediaRepair)
    → lookup k r.permits ≡ some q
    → p.generation ≡ q.generation
    → IsGated r
    → IsGated (record r { idr = i; permits = insert k p r.permits })
replace-IsGated k i p q r e s v = record {
  owned = owners-insert (generation_of r.state) k p q r.permits v.sorted e s ∙ v.owned;
  sorted = insert-IsSorted k p r.permits v.sorted;
  until =
      Until-insert (generation_of r.state) k p r.permits
        (rw (s) (Until-lookup (generation_of r.state) k q r.permits v.until e)) v.until;
  word = v.word;
}

confirm-IsGated : (k : ℕ) (r : MediaRepair) → IsGated r → IsGated (confirm k r)
unfolding confirm
confirm-IsGated k r v = go (Option-cases (lookup k r.permits))
  where
    go :
        (lookup k r.permits ≡ none) ⊎ ((p : KeyPermit) × (lookup k r.permits ≡ some p))
        → IsGated (confirm k r)
    go (inl e) = rw (e, confirm) v
    go (inr (p, e)) =
        rw (e, confirm) (replace-IsGated k r.idr (record p { confirmed = true }) p r e refl v)

-- A permit of another epoch taken away.
old-IsGated :
    (k : ℕ) (q : KeyPermit) (r : MediaRepair)
    → lookup k r.permits ≡ some q
    → (generation_of r.state == q.generation) ≡ false
    → IsGated r
    → IsGated (record r { permits = remove k r.permits })
old-IsGated k q r e t v = record {
  owned = ground (arith, owners-remove (generation_of r.state) k q r.permits e, v.owned, t);
  sorted = remove-IsSorted k r.permits v.sorted;
  until = Until-remove (generation_of r.state) k r.permits v.until;
  word = v.word;
}

check-IsGated : (k : ℕ) (r : MediaRepair) → IsGated r → IsGated (check k r)
unfolding check
check-IsGated k r v = go (Option-cases (lookup k r.permits))
  where
    go :
        (lookup k r.permits ≡ none) ⊎ ((p : KeyPermit) × (lookup k r.permits ≡ some p))
        → IsGated (check k r)
    go (inl e) = rw (e, check) v
    go (inr (p, e)) = at (Bool-cases p.checked) (Bool-cases (generation_of r.state == p.generation))
      where
        at :
            ((p.checked ≡ true) ⊎ (p.checked ≡ false))
            → ((generation_of r.state == p.generation) ≡ true)
              ⊎ ((generation_of r.state == p.generation) ≡ false)
            → IsGated (check k r)
        at (inl c) _ = rw (e, check, c) v
        at (inr c) (inl t) =
            rw (e, check, c, t)
              (replace-IsGated k (if p.confirmed then r.idr else true) (record p { checked = true })
                p r e refl v)
        at (inr c) (inr t) = rw (e, check, c, t) (old-IsGated k p r e t v)

release-IsGated : (k : ℕ) (r : MediaRepair) → IsGated r → IsGated (release k r)
unfolding release
release-IsGated k r v = go (Option-cases (lookup k r.permits))
  where
    go :
        (lookup k r.permits ≡ none) ⊎ ((p : KeyPermit) × (lookup k r.permits ≡ some p))
        → IsGated (release k r)
    go (inl e) = rw (e, release) v
    go (inr (p, e)) = at (Bool-cases p.checked)
      where
        s :
            (generation_of (release_key p.generation p.confirmed r.state) ≡ generation_of r.state)
            × (is_key_pending (release_key p.generation p.confirmed r.state)
                ≡ (is_key_pending r.state && not (generation_of r.state == p.generation)))
            × (release_key p.generation p.confirmed r.state ≤ r.state)
        s = release_key_lem p.generation r.state p.confirmed v.word

        at : (p.checked ≡ true) ⊎ (p.checked ≡ false) → IsGated (release k r)
        at (inr c) = rw (e, release, c) v
        at (inl c) =
            rw (e, release, c)
              (record {
                owned =
                    rw (s.0, s.1)
                      (ground
                        (arith, owners-remove (generation_of r.state) k p r.permits e, v.owned));
                sorted = remove-IsSorted k r.permits v.sorted;
                until = rw (s.0) (Until-remove (generation_of r.state) k r.permits v.until);
                word = omega (arith, s.2, v.word);
              })

step-IsGated : (o : Operation) (r : MediaRepair) → IsGated r → IsGated (step o r)
unfolding step take_idr
step-IsGated request_op r v = request-IsGated r v
step-IsGated take_op r v = record {
  owned = v.owned;
  sorted = v.sorted;
  until = v.until;
  word = v.word;
}
step-IsGated (key_op k g) r v = key-IsGated k g r v
step-IsGated (confirm_op k) r v = confirm-IsGated k r v
step-IsGated (check_op k) r v = check-IsGated k r v
step-IsGated (release_op k) r v = release-IsGated k r v

unfoldable pub run : List Operation → MediaRepair → MediaRepair
run [] r = r
run (o ∷ os) r = run os (step o r)

from-IsGated : (os : List Operation) (r : MediaRepair) → IsGated r → IsGated (run os r)
unfolding run
from-IsGated [] r v = v
from-IsGated (o ∷ os) r v = from-IsGated os (step o r) (step-IsGated o r v)

-- However the atomic parts of requests, keys and drops interleave from the start, the pending bit is
-- set exactly while one permit of the current epoch is held, there is never a second one, and no
-- permit is of a later epoch.
pub run-IsGated : (os : List Operation) → IsGated (run os new)
run-IsGated os =
    from-IsGated os new (record { owned = refl; sorted = tt; until = tt; word = omega arith })

-- The operation that ends an active repair: the release of a confirmed picture of its epoch.
pub Ends : Operation → MediaRepair → Type 0
Ends (release_op k) r =
    (p : KeyPermit) × (lookup k r.permits ≡ some p)
    × (p.confirmed ≡ true)
    × (p.generation ≡ generation_of r.state)
Ends _ r = ⊥

release-Ends :
    (k : ℕ) (r : MediaRepair)
    → is_active r.state ≡ true
    → (is_active (release k r).state ≡ true) ⊎ Ends (release_op k) r
unfolding release release_key Ends
release-Ends k r a = go (Option-cases (lookup k r.permits))
  where
    go :
        (lookup k r.permits ≡ none) ⊎ ((p : KeyPermit) × (lookup k r.permits ≡ some p))
        → (is_active (release k r).state ≡ true) ⊎ Ends (release_op k) r
    go (inl e) = inl (ground (arith, e))
    go (inr (p, e)) =
        at (Bool-cases p.confirmed) (Bool-cases (generation_of r.state == p.generation))
      where
        at :
            ((p.confirmed ≡ true) ⊎ (p.confirmed ≡ false))
            → ((generation_of r.state == p.generation) ≡ true)
              ⊎ ((generation_of r.state == p.generation) ≡ false)
            → (is_active (release k r).state ≡ true) ⊎ Ends (release_op k) r
        at (inl c) (inl t) = inr (p, e, c, ground (arith, t))
        at (inl c) (inr t) = inl (ground (arith, e, c, t))
        at (inr c) _ = inl (ground (arith, e, c))

-- An active repair stays active at every operation but the release of a confirmed permit of its own
-- epoch.
pub step-Ends :
    (o : Operation) (r : MediaRepair)
    → is_active r.state ≡ true
    → (is_active (step o r).state ≡ true) ⊎ Ends o r
unfolding step request next_epoch key confirm check take_idr
step-Ends request_op r a = inl (ground arith)
step-Ends take_op r a = inl a
step-Ends (key_op k g) r a = inl (ground arith)
step-Ends (confirm_op k) r a = inl (ground arith)
step-Ends (check_op k) r a = inl (ground arith)
step-Ends (release_op k) r a = release-Ends k r a
