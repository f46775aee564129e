-- ===== src/Audio/Jitter/Bounded.antt =====
-- The invariant of the jitter buffer (crates/rds-audio/src/lib.rs).
use remote_device_sync.Base.{
  ℕ, ◌≤◌, ◌<◌, ◌≡◌, refl, ◌⊎◌, inl, inr, Bool, true, false, [], ◌∷◌, Option, none, some, ltb, ◌==◌,
  length, is_some, is_some_and, u64_max, saturating_add, ok, Bool-cases, ==_iff, arith,
}
use remote_device_sync.Base.Map.{
  Map, lookup, insert, remove, retain, first, pop_first, From, IsSorted, insert-IsSorted,
  From-insert, length-insert,
}
use remote_device_sync.Audio.{AudioFormat, AudioPacket}
use remote_device_sync.Audio.Jitter.{JitterBuffer, new, store, admit}

-- Every packet is kept under its own sequence number, which is below `k`.
abbrev pub Below : ℕ → Map AudioPacket → Type 0
Below k [] = Unit
Below k ((j, w) ∷ m) = (j < k) × (w.seq ≡ j) × Below k m

pub Below-insert :
    (a k : ℕ) (v : AudioPacket) (m : Map AudioPacket)
    → k < a
    → v.seq ≡ k
    → Below a m
    → Below a (insert k v m)
unfolding insert
Below-insert a k v [] h e f = (h, e, tt)
Below-insert a k v ((j, w) ∷ m) h e f = ground (arith, Below-insert a k v m h e f.2)

pub Below-remove : (a k : ℕ) (m : Map AudioPacket) → Below a m → Below a (remove k m)
unfolding remove
Below-remove a k [] f = tt
Below-remove a k ((j, w) ∷ m) f = ground (arith, Below-remove a k m f.2)

pub Below-retain :
    (a : ℕ) (p : ℕ → AudioPacket → Bool) (m : Map AudioPacket) → Below a m → Below a (retain p m)
unfolding retain
Below-retain a p [] f = tt
Below-retain a p ((j, w) ∷ m) f = ground (arith, Below-retain a p m f.2)

-- Every retained packet is expected still.
abbrev pub Expected : Option ℕ → Map AudioPacket → Type 0
Expected none m = Unit
Expected (some next) m = From next m

abbrev pub IsNext : Option ℕ → Type 0
IsNext none = Unit
IsNext (some n) = n ≤ u64_max

pub record IsBounded (b : JitterBuffer) : Type 0 where
  pub sorted : IsSorted b.packets
  pub capped : b.capacity ≤ 64
  pub delayed : b.target_delay < b.capacity
  pub bounded : length b.packets ≤ b.capacity
  pub below : Below u64_max b.packets
  pub expected : Expected b.next_sequence b.packets
  pub next_below : IsNext b.next_sequence

-- A new buffer is within its bounds.
pub new-IsBounded :
    (f : AudioFormat) (capacity target_delay : ℕ) (b : JitterBuffer)
    → new f capacity target_delay ≡ ok b
    → IsBounded b
unfolding new
new-IsBounded f capacity target_delay b h = ground arith

Expected-insert :
    (next : Option ℕ) (p : AudioPacket) (m : Map AudioPacket)
    → is_some_and next (λ n. ltb p.seq n) ≡ false
    → Expected next m
    → Expected next (insert p.seq p m)
Expected-insert none p m h f = tt
Expected-insert (some n) p m h f = From-insert n p.seq p m (ground arith) f

store-IsBounded :
    (p : AudioPacket) (b : JitterBuffer)
    → IsBounded b
    → p.seq < u64_max
    → is_some_and b.next_sequence (λ n. ltb p.seq n) ≡ false
    → length b.packets < b.capacity
    → IsBounded (store p b)
store-IsBounded p b v lt late room = record {
  sorted = insert-IsSorted p.seq p b.packets v.sorted;
  capped = v.capped;
  delayed = v.delayed;
  bounded = ground (arith, length-insert p.seq p b.packets v.sorted);
  below = Below-insert u64_max p.seq p b.packets lt refl v.below;
  expected = Expected-insert b.next_sequence p b.packets late v.expected;
  next_below = v.next_below;
}

Expected-pop_first :
    (next : Option ℕ) (m : Map AudioPacket) → Expected next m → Expected next (pop_first m)
Expected-pop_first none m f = tt
Expected-pop_first (some n) [] f = tt
Expected-pop_first (some n) (e ∷ m) f = f.1

pop_first-IsBounded :
    (b : JitterBuffer) (k : ℕ)
    → IsBounded b
    → IsBounded (record b { overflow = k; packets = pop_first b.packets })
      × ((length b.packets ≡ b.capacity) → length (pop_first b.packets) < b.capacity)
pop_first-IsBounded b k v =
    go b.packets v.sorted v.bounded v.below
      (Expected-pop_first b.next_sequence b.packets v.expected)
  where
    go :
        (m : Map AudioPacket)
        → IsSorted m
        → length m ≤ b.capacity
        → Below u64_max m
        → Expected b.next_sequence (pop_first m)
        → IsBounded (record b { overflow = k; packets = pop_first m })
          × ((length m ≡ b.capacity) → length (pop_first m) < b.capacity)
    go [] s l u x = (
      record {
        sorted = tt;
        capped = v.capped;
        delayed = v.delayed;
        bounded = omega arith;
        below = tt;
        expected = x;
        next_below = v.next_below;
      },
      λ e. omega (arith, v.delayed),
    )
    go (e ∷ m) s l u x = (
      record {
        sorted = s.1;
        capped = v.capped;
        delayed = v.delayed;
        bounded = omega arith;
        below = u.2;
        expected = x;
        next_below = v.next_below;
      },
      λ q. omega arith,
    )

counted-IsBounded :
    (b : JitterBuffer) (d l o g : ℕ)
    → IsBounded b
    → IsBounded (record b { duplicates = d; late = l; overflow = o; gaps = g })
counted-IsBounded b d l o g v = record {
  sorted = v.sorted;
  capped = v.capped;
  delayed = v.delayed;
  bounded = v.bounded;
  below = v.below;
  expected = v.expected;
  next_below = v.next_below;
}

-- A packet of any sequence number but the reserved one, early, late, repeated or in a full buffer,
-- leaves the buffer within its bounds.
pub admit-IsBounded :
    (p : AudioPacket) (b : JitterBuffer) → p.seq < u64_max → IsBounded b → IsBounded (admit p b).0
unfolding admit
admit-IsBounded p b lt v =
    go (Bool-cases (is_some_and b.next_sequence (λ next. ltb p.seq next)))
      (Bool-cases (is_some (lookup p.seq b.packets))) (Bool-cases (length b.packets == b.capacity))
      (Bool-cases (is_some_and (first b.packets) (λ e. ltb p.seq e.0)))
  where
    go :
        ((is_some_and b.next_sequence (λ next. ltb p.seq next) ≡ true)
          ⊎ (is_some_and b.next_sequence (λ next. ltb p.seq next) ≡ false))
        → ((is_some (lookup p.seq b.packets) ≡ true) ⊎ (is_some (lookup p.seq b.packets) ≡ false))
        → (((length b.packets == b.capacity) ≡ true) ⊎ ((length b.packets == b.capacity) ≡ false))
        → ((is_some_and (first b.packets) (λ e. ltb p.seq e.0) ≡ true)
            ⊎ (is_some_and (first b.packets) (λ e. ltb p.seq e.0) ≡ false))
        → IsBounded (admit p b).0
    go (inl l) _ _ _ = rw l (counted-IsBounded b b.duplicates _ b.overflow b.gaps v)
    go (inr l) (inl d) _ _ = rw (l, d) (counted-IsBounded b _ b.late b.overflow b.gaps v)
    go (inr l) (inr d) (inr f) _ =
        rw (l, d, f) (store-IsBounded p b v lt l (ground (arith, v.bounded)))
    go (inr l) (inr d) (inl f) (inl o) =
        rw (l, d, f, o) (counted-IsBounded b b.duplicates b.late _ b.gaps v)
    go (inr l) (inr d) (inl f) (inr o) =
        let (w, room) = pop_first-IsBounded b (saturating_add b.overflow 1) v in
        rw (l, d, f, o)
          (store-IsBounded p
            (record b { overflow = saturating_add b.overflow 1; packets = pop_first b.packets }) w
            lt l (room ((==_iff (length b.packets) b.capacity).0 f)))
