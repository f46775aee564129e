-- ===== src/Discovery/Admission/Budget.antt =====
-- What the mutation budgets (crates/rds-discovery/src/admission.rs) bound and protect.
use remote_device_sync.Base.{
  ℕ, ◌+◌, ◌-◌, ◌≤◌, ◌<◌, ◌≡◌, refl, ap, ◌⊎◌, inl, inr, Bool, true, false, [], ◌∷◌, Option, none,
  some, ltb, length, ok, err, Bool-cases, Option-cases, ==_refl, arith,
}
use remote_device_sync.Base.Map.{Map, lookup, insert, retain, lookup-insert}
use remote_device_sync.Discovery.{DiscoveryError}
use remote_device_sync.Discovery.Admission.{
  Limits, window_length, reset, take, Writer, State, evict, is_full, open_writer, is_spent, charge,
  take_shared, spend, record_at,
}

-- The writer that an identity has at this time: a new one, the one in the table or, when the minute of
-- that one is over, one that keeps only the time of its last mutation.
pub data Standing (key now : ℕ) (s : State) : Writer → Type 0 where
  absent :
      lookup key s.writers ≡ none
      → Standing key now s
          (record { window = record { start = now; used = 0 }; reserved = false; last = none })
  running :
      (w : Writer)
      → lookup key s.writers ≡ some w
      → now - w.window.start < 60000000000
      → Standing key now s w
  over :
      (w : Writer)
      → lookup key s.writers ≡ some w
      → 60000000000 ≤ now - w.window.start
      → Standing key now s
          (record { window = record { start = now; used = 0 }; reserved = false; last = w.last })

-- The table has the identity, or fewer than 4096 others in a minute that is not over.
abbrev pub HasRoom : ℕ → ℕ → State → Type 0
HasRoom key now s =
    ((w : Writer) × (lookup key s.writers ≡ some w))
    ⊎ (length (retain (λ k w. ltb (now - w.window.start) 60000000000) s.writers) < 4096)

-- The last mutation is the shortest interval back.
abbrev pub HasWaited : Limits → ℕ → Option ℕ → Type 0
HasWaited limits now none = Unit
HasWaited limits now (some last) = limits.put_min_interval ≤ now - last

lookup-retain-none :
    (p : ℕ → Writer → Bool) (k : ℕ) (m : Map Writer)
    → lookup k m ≡ none
    → lookup k (retain p m) ≡ none
unfolding lookup retain
lookup-retain-none p k [] h = refl
lookup-retain-none p k ((j, w) ∷ m) h = ground (arith, lookup-retain-none p k m)

module _ (key now : ℕ) (s : State) where
  evict-shared : ((evict key now s).burst ≡ s.burst) × ((evict key now s).admissions ≡ s.admissions)
  unfolding evict
  evict-shared = ground arith

  -- An eviction takes no writer from the identity that asks.
  lookup-evict : lookup key (evict key now s).writers ≡ lookup key s.writers
  unfolding evict
  lookup-evict =
      ground
        (arith, lookup-retain-none (λ k w. ltb (now - w.window.start) window_length) key s.writers)

  room_lem : HasRoom key now s → is_full key (evict key now s) ≡ false
  unfolding evict
  room_lem (inl (w, e)) = rw (lookup-evict, e) refl
  room_lem (inr l) = ground arith

  Standing-open_writer :
      (w : Writer) → Standing key now s w → open_writer key now (evict key now s) ≡ w
  unfolding open_writer reset
  Standing-open_writer w (absent e) = rw (lookup-evict, e) (ground arith)
  Standing-open_writer w (running v e l) = rw (lookup-evict, e) (ground arith)
  Standing-open_writer w (over v e l) = rw (lookup-evict, e) (ground arith)

  as_opened :
      (w : Writer)
      → Standing key now s w
      → (v : Writer) × Standing key now s v × (open_writer key now (evict key now s) ≡ v)
  as_opened w h = (w, h, Standing-open_writer w h)

  -- The identity's writer as the call opens it.
  standing_cases : (v : Writer) × Standing key now s v × (open_writer key now (evict key now s) ≡ v)
  standing_cases = elim (Option-cases (lookup key s.writers)) [
    | inl e ↦ as_opened _ (absent e)
    | inr (w, e) ↦ elim (lt_or_le (now - w.window.start) 60000000000) [
      | inl l ↦ as_opened w (running w e l)
      | inr l ↦ as_opened _ (over w e l)
    ]
  ]
    where
      lt_or_le : (m n : ℕ) → (m < n) ⊎ (n ≤ m)
      lt_or_le m n = ground arith

-- What the writer's own budget asks for.
waited_lem :
    (limits : Limits) (now : ℕ) (w : Writer)
    → HasWaited limits now w.last
    → w.window.used < limits.writer_per_minute
    → is_spent limits now w ≡ false
waited_lem limits now w h l = go (Option-cases w.last)
  where
    go : (w.last ≡ none) ⊎ ((last : ℕ) × (w.last ≡ some last)) → is_spent limits now w ≡ false
    go (inl e) = rw e (ground arith)
    go (inr (last, e)) =
        let h' : limits.put_min_interval ≤ now - last = rw e at h in rw e (ground arith)

spend-protected :
    (key : ℕ) (limits : Limits) (now : ℕ) (s : State) (w : Writer)
    → is_spent limits now w ≡ false
    → w.reserved ≡ false
    → spend key true limits now s w
      ≡ (record s { writers = insert key (charge now true w) (insert key w s.writers) }, ok tt)
unfolding spend
spend-protected key limits now s w p q = rw (p, q)

-- A refused attempt leaves the writer as it was opened, and takes nothing from the shared budgets.
spend-refused :
    (key : ℕ) (known : Bool) (limits : Limits) (now : ℕ) (s : State) (w : Writer)
    (x : DiscoveryError)
    → (spend key known limits now s w).1 ≡ err x
    → (lookup key (spend key known limits now s w).0.writers ≡ some w)
      × ((spend key known limits now s w).0.burst.used ≤ s.burst.used)
      × ((spend key known limits now s w).0.admissions.used ≤ s.admissions.used)
unfolding spend take_shared take
spend-refused key known limits now s w x h =
    let kept = lookup-insert key key w s.writers in
    (ground (arith, kept), ground arith, ground arith)

-- A known identity that has not used its protected mutation in its minute is admitted whatever the
-- shared budgets are, and spends neither of them, provided that the table has room for it, that its
-- last mutation is the shortest interval back and that its own count is below the limit. Afterwards
-- its count is one higher, its protected mutation is used, and the time of its last mutation is now.
pub record_at-protected :
    (key : ℕ) (limits : Limits) (now : ℕ) (s : State) (w : Writer)
    → HasRoom key now s
    → Standing key now s w
    → HasWaited limits now w.last
    → w.window.used < limits.writer_per_minute
    → w.reserved ≡ false
    → let (t, r) = record_at key true limits now s in
      (r ≡ ok tt)
      × (t.burst ≡ s.burst)
      × (t.admissions ≡ s.admissions)
      × (lookup key t.writers
          ≡ some (record {
            window = record { start = w.window.start; used = w.window.used + 1 };
            reserved = true;
            last = some now;
          }))
unfolding record_at
record_at-protected key limits now s w room standing waited few unused =
    let e =
      spend-protected key limits now (evict key now s) w (waited_lem limits now w waited few)
        unused in
    let (b, a) = evict-shared key now s in
    let stored =
      lookup-insert key key (charge now true w) (insert key w (evict key now s).writers) in
    rw (room_lem key now s room, Standing-open_writer key now s w standing, e)
      (refl, b, a, rw (stored, ==_refl key) (rw unused refl))

-- An identity that is refused is not debited: it is still absent from the table, or its writer is the
-- one that it has at this time without the call, with the same count, the same protected mutation and
-- the same time of the last mutation. Nothing is taken from the shared budgets either.
pub record_at-refused :
    (key : ℕ) (limits : Limits) (now : ℕ) (s : State) (known : Bool) (x : DiscoveryError)
    → (record_at key known limits now s).1 ≡ err x
    → let t = (record_at key known limits now s).0 in
      (((lookup key s.writers ≡ none) × (lookup key t.writers ≡ none))
        ⊎ ((w : Writer) × Standing key now s w × (lookup key t.writers ≡ some w)))
      × (t.burst.used ≤ s.burst.used)
      × (t.admissions.used ≤ s.admissions.used)
unfolding record_at
record_at-refused key limits now s known x h = go (Bool-cases (is_full key (evict key now s)))
  where
    go :
        ((is_full key (evict key now s) ≡ true) ⊎ (is_full key (evict key now s) ≡ false))
        → let t = (record_at key known limits now s).0 in
          (((lookup key s.writers ≡ none) × (lookup key t.writers ≡ none))
            ⊎ ((w : Writer) × Standing key now s w × (lookup key t.writers ≡ some w)))
          × (t.burst.used ≤ s.burst.used)
          × (t.admissions.used ≤ s.admissions.used)
    go (inl f) =
        let (b, a) = evict-shared key now s in
        let gone : lookup key (evict key now s).writers ≡ none = ground arith in
        rw f
          (inl (rw (lookup-evict key now s) at gone, gone), rw b (omega arith), rw a (omega arith))
    go (inr f) =
        let (w, standing, e) = standing_cases key now s in
        let (b, a) = evict-shared key now s in
        let (kept, c, d) =
          spend-refused key known limits now (evict key now s) w x (rw (f, e) at h) in
        rw (f, e)
          (
            inr (w, standing, kept),
            omega (arith, c, ap (λ v. v.used) b),
            omega (arith, d, ap (λ v. v.used) a),
          )
