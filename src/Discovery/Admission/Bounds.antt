-- ===== src/Discovery/Admission/Bounds.antt =====
-- No window of the limiter (crates/rds-discovery/src/admission.rs) is ever charged beyond its limit.
use remote_device_sync.Base.{
  ℕ, ◌-◌, ◌≤◌, ◌≡◌, refl, ◌⊎◌, inl, inr, Bool, true, false, ◌&&◌, not, [], ◌∷◌, none, some, ltb,
  if◌then◌else◌, length, Bool-cases, Option-cases, ==_refl, arith,
}
use remote_device_sync.Base.Map.{
  Map, lookup, insert, retain, IsSorted, lookup-insert, lookup-From, insert-IsSorted, length-insert,
  retain-IsSorted, length-retain,
}
use remote_device_sync.Discovery.Admission.{
  Limits, window_length, Window, take, Writer, State, evict, is_full, open_writer, is_spent,
  take_shared, charge, spend, record_at,
}

pub record IsBudgeted (limits : Limits) (s : State) : Type 0 where
  pub sorted : IsSorted s.writers
  pub bounded : length s.writers ≤ 4096
  pub burst : s.burst.used ≤ limits.put_per_minute
  pub admissions : s.admissions.used ≤ limits.admissions_per_minute
  pub writers :
      (k : ℕ) (w : Writer) → lookup k s.writers ≡ some w → w.window.used ≤ limits.writer_per_minute

-- What is left by `retain` was there before.
lookup-retain :
    (p : ℕ → Writer → Bool) (k : ℕ) (w : Writer) (m : Map Writer)
    → IsSorted m
    → lookup k (retain p m) ≡ some w
    → lookup k m ≡ some w
unfolding lookup retain
lookup-retain p k w [] s h = h
lookup-retain p k w ((j, v) ∷ m) s h =
    ground (arith, lookup-retain p k w m s.1, lookup-From j m s.0)

take-le : (w : Window) (now limit : ℕ) → w.used ≤ limit → (take w now limit).0.used ≤ limit
unfolding take
take-le w now limit h = ground arith

module _ (limits : Limits) where
  evict-IsBudgeted :
      (key now : ℕ) (s : State) → IsBudgeted limits s → IsBudgeted limits (evict key now s)
  unfolding evict
  evict-IsBudgeted key now s h = go (Bool-cases (is_full key s))
    where
      kept : ℕ → Writer → Bool
      kept k w = ltb (now - w.window.start) window_length

      go :
          ((is_full key s ≡ true) ⊎ (is_full key s ≡ false))
          → IsBudgeted limits
              (if is_full key s then record s { writers = retain kept s.writers } else s)
      go (inr e) = rw e h
      go (inl e) = rw e (record {
        sorted = retain-IsSorted kept s.writers h.sorted;
        bounded = omega (arith, h.bounded, length-retain kept s.writers);
        burst = h.burst;
        admissions = h.admissions;
        writers = λ k w p. h.writers k w (lookup-retain kept k w s.writers h.sorted p);
      })

  open_writer-le :
      (key now : ℕ) (s : State)
      → IsBudgeted limits s
      → (open_writer key now s).window.used ≤ limits.writer_per_minute
  unfolding open_writer
  open_writer-le key now s h = go (Option-cases (lookup key s.writers))
    where
      go :
          (lookup key s.writers ≡ none) ⊎ ((w : Writer) × (lookup key s.writers ≡ some w))
          → (open_writer key now s).window.used ≤ limits.writer_per_minute
      go (inl e) = ground arith
      go (inr (w, e)) = ground (arith, h.writers key w e)

  insert-IsBudgeted :
      (key : ℕ) (w : Writer) (s : State)
      → is_full key s ≡ false
      → w.window.used ≤ limits.writer_per_minute
      → IsBudgeted limits s
      → IsBudgeted limits (record s { writers = insert key w s.writers })
  insert-IsBudgeted key w s f l h = record {
    sorted = insert-IsSorted key w s.writers h.sorted;
    bounded = ground (arith, length-insert key w s.writers h.sorted, h.bounded);
    burst = h.burst;
    admissions = h.admissions;
    writers = λ k v p. ground (arith, lookup-insert k key w s.writers, h.writers k v);
  }

  take_shared-IsBudgeted :
      (reserved known : Bool) (now : ℕ) (s : State)
      → IsBudgeted limits s
      → IsBudgeted limits (take_shared reserved known limits now s).0
        × ((take_shared reserved known limits now s).0.writers ≡ s.writers)
  unfolding take_shared
  take_shared-IsBudgeted true known now s h = (h, refl)
  take_shared-IsBudgeted false true now s h = (
    record {
      sorted = h.sorted;
      bounded = h.bounded;
      admissions = h.admissions;
      writers = h.writers;
      burst = take-le s.burst now limits.put_per_minute h.burst;
    },
    refl,
  )
  take_shared-IsBudgeted false false now s h = (
    record {
      sorted = h.sorted;
      bounded = h.bounded;
      burst = h.burst;
      writers = h.writers;
      admissions = take-le s.admissions now limits.admissions_per_minute h.admissions;
    },
    refl,
  )

  spend-IsBudgeted :
      (key : ℕ) (known : Bool) (now : ℕ) (s : State) (w : Writer)
      → is_full key s ≡ false
      → w.window.used ≤ limits.writer_per_minute
      → IsBudgeted limits s
      → IsBudgeted limits (spend key known limits now s w).0
  unfolding spend
  spend-IsBudgeted key known now s w f l h =
      go (Bool-cases (is_spent limits now w)) (Bool-cases taken.1)
    where
      opened : State
      opened = record s { writers = insert key w s.writers }

      reserved : Bool
      reserved = known && not w.reserved

      taken : State × Bool
      taken = take_shared reserved known limits now opened

      placed : IsBudgeted limits opened
      placed = insert-IsBudgeted key w s f l h

      shared : IsBudgeted limits taken.0 × (taken.0.writers ≡ opened.writers)
      shared = take_shared-IsBudgeted reserved known now opened placed

      has_room : is_full key taken.0 ≡ false
      has_room = rw shared.1 (rw (lookup-insert key key w s.writers, ==_refl key))

      go :
          ((is_spent limits now w ≡ true) ⊎ (is_spent limits now w ≡ false))
          → ((taken.1 ≡ true) ⊎ (taken.1 ≡ false))
          → IsBudgeted limits (spend key known limits now s w).0
      go (inl e) _ = rw e placed
      go (inr e) (inr t) = rw (e, t) shared.0
      go (inr e) (inl t) =
          rw (e, t)
            (insert-IsBudgeted key (charge now reserved w) taken.0 has_room (ground arith) shared.0)

  -- With the limits fixed, no call charges a writer, the shared renewals or the admissions beyond
  -- its limit for one window, and the table never holds more than 4096 writers.
  pub record_at-IsBudgeted :
      (key : ℕ) (known : Bool) (now : ℕ) (s : State)
      → IsBudgeted limits s
      → IsBudgeted limits (record_at key known limits now s).0
  unfolding record_at
  record_at-IsBudgeted key known now s h = go (Bool-cases (is_full key (evict key now s)))
    where
      evicted : IsBudgeted limits (evict key now s)
      evicted = evict-IsBudgeted key now s h

      go :
          ((is_full key (evict key now s) ≡ true) ⊎ (is_full key (evict key now s) ≡ false))
          → IsBudgeted limits (record_at key known limits now s).0
      go (inl e) = rw e evicted
      go (inr e) = rw e (
          spend-IsBudgeted key known now (evict key now s) _ e
            (open_writer-le key now (evict key now s) evicted) evicted)
