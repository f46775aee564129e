-- ===== src/Audio/Jitter/Order.antt =====
-- What `JitterBuffer::pop` (crates/rds-audio/src/lib.rs) plays, and in which order.
use remote_device_sync.Base.{
  ℕ, suc, ◌+◌, ◌-◌, ◌≤◌, ◌<◌, ◌≡◌, refl, ◌⊎◌, inl, inr, true, false, [], ◌∷◌, Option, none, some,
  ltb, length, u64_max, Bool-cases, Option-cases, arith, ap, subst,
}
use remote_device_sync.Base.Map.{
  Map, lookup, remove, first, From, IsSorted, lookup-From, From-lookup, remove-IsSorted,
  length-remove, From-mono,
}
use remote_device_sync.Audio.{AudioPacket}
use remote_device_sync.Audio.Jitter.{
  PopOutcome, packet, gap, discontinuity, JitterBuffer, conceal, pop_next, pop,
}
use remote_device_sync.Audio.Jitter.Bounded.{IsBounded, Below, Below-remove}

lookup-Below :
    (a k : ℕ) (p : AudioPacket) (m : Map AudioPacket)
    → Below a m
    → lookup k m ≡ some p
    → (p.seq ≡ k) × (k < a)
unfolding lookup
lookup-Below a k p [] f h = absurd (cc)
lookup-Below a k p ((j, w) ∷ m) f h = ground (arith, lookup-Below a k p m f.2)

From-remove_self :
    (k : ℕ) (p : AudioPacket) (m : Map AudioPacket)
    → IsSorted m
    → From k m
    → lookup k m ≡ some p
    → From (suc k) (remove k m)
unfolding lookup remove
From-remove_self k p [] s f h = tt
From-remove_self k p ((j, w) ∷ m) s f h =
    ground (arith, lookup-From k m, From-mono (suc k) (suc j) m)

From-missing :
    (k : ℕ) (m : Map AudioPacket) → IsSorted m → From k m → lookup k m ≡ none → From (suc k) m
unfolding lookup
From-missing k [] s f h = tt
From-missing k ((j, w) ∷ m) s f h = ground (arith, From-mono (suc k) (suc j) m)

first-From :
    (j : ℕ) (w : AudioPacket) (m : Map AudioPacket)
    → IsSorted m
    → first m ≡ some (j, w)
    → From j m × (lookup j m ≡ some w)
unfolding lookup
first-From j w [] s h = absurd (cc)
first-From j w ((i, v) ∷ m) s h = ground (arith, From-mono i (suc i) m)

-- A packet is queued under this number, and none under a lower one.
abbrev pub Lowest : ℕ → Map AudioPacket → Type 0
Lowest k m = From k m × ((w : AudioPacket) × (lookup k m ≡ some w))

-- What one pop at the expected number `n` hands out, the number expected after it, and the queue that
-- it leaves.
abbrev pub Played :
    JitterBuffer → ℕ → PopOutcome → Option AudioPacket → ℕ → Map AudioPacket → Type 0
Played b n packet none n' left = ⊥
Played b n packet (some p) n' left =
    (p.seq ≡ n) × (lookup n b.packets ≡ some p) × (n' ≡ n + 1) × (left ≡ remove n b.packets)
Played b n (gap s) (some p) n' left = ⊥
Played b n (gap s) none n' left =
    (s ≡ n)
    × (lookup n b.packets ≡ none)
    × (n' ≡ n + 1)
    × (left ≡ b.packets)
    × (b.target_delay < length b.packets)
    × ((k : ℕ) × Lowest k b.packets × (k ≤ n + b.capacity))
Played b n (discontinuity from to) (some p) n' left = ⊥
Played b n (discontinuity from to) none n' left =
    (from ≡ n)
    × (lookup n b.packets ≡ none)
    × (to ≡ n')
    × (left ≡ b.packets)
    × (b.target_delay < length b.packets)
    × Lowest to b.packets
    × (n + b.capacity < to)

-- The buffer after a pop that handed something out.
pub record Advanced (b : JitterBuffer) (n : ℕ) (o : PopOutcome) (q : Option AudioPacket)
    (c : JitterBuffer) : Type 0 where
  pub next : ℕ
  pub expects : c.next_sequence ≡ some next
  pub ahead : n < next
  pub played : Played b n o q next c.packets
  pub bounded : IsBounded c

module _ (b : JitterBuffer) (n : ℕ) (v : IsBounded b) (at : b.next_sequence ≡ some n) where
  expected_floor : From n b.packets × (n ≤ u64_max)
  expected_floor = ground (arith, v.expected, v.next_below)

  packet-Advanced :
      (p : AudioPacket)
      → lookup n b.packets ≡ some p
      → Advanced b n packet
          (some p)
          (record b { packets = remove n b.packets; next_sequence = some (n + 1) })
  packet-Advanced p e =
      let (k, l) = lookup-Below u64_max n p b.packets v.below e in
      record {
        next = n + 1;
        expects = refl;
        ahead = omega arith;
        played = (k, e, refl, refl);
        bounded = record {
          sorted = remove-IsSorted n b.packets v.sorted;
          capped = v.capped;
          delayed = v.delayed;
          bounded = ground (arith, length-remove n b.packets, v.bounded);
          below = Below-remove u64_max n b.packets v.below;
          expected = ground (arith, From-remove_self n p b.packets v.sorted expected_floor.0 e);
          next_below = omega arith;
        };
      }

  conceal-Advanced :
      (available : ℕ) (w : AudioPacket) (o : PopOutcome) (q : Option AudioPacket)
      → lookup n b.packets ≡ none
      → first b.packets ≡ some (available, w)
      → b.target_delay < length b.packets
      → (conceal n available b).1 ≡ some (o, q)
      → Advanced b n o q (conceal n available b).0
  unfolding conceal
  conceal-Advanced available w o q e f d h = go (Bool-cases (ltb b.capacity (available - n)))
    where
      away : From (suc n) b.packets
      away = From-missing n b.packets v.sorted expected_floor.0 e

      there : From available b.packets × (lookup available b.packets ≡ some w)
      there = first-From available w b.packets v.sorted f

      reach : (n < available) × (available < u64_max)
      reach = (
        From-lookup (suc n) available w b.packets away there.1,
        (lookup-Below u64_max available w b.packets v.below there.1).1,
      )

      kept :
          (g k : ℕ)
          → From k b.packets
          → k ≤ u64_max
          → IsBounded (record b { next_sequence = some k; gaps = g })
      kept g k x l = record {
        sorted = v.sorted;
        capped = v.capped;
        delayed = v.delayed;
        bounded = v.bounded;
        below = v.below;
        expected = x;
        next_below = l;
      }

      go :
          ((ltb b.capacity (available - n) ≡ true) ⊎ (ltb b.capacity (available - n) ≡ false))
          → Advanced b n o q (conceal n available b).0
      go (inl t) =
          let s : (discontinuity n available ≡ o) × (none ≡ q) = ground (arith, h, t) in
          rw (t, ← s.0, ← s.1)
            (record {
              next = available;
              expects = refl;
              ahead = reach.0;
              played =
                  (refl, e, refl, refl, d, (there.0, (w, there.1)), ground (arith, reach.0, t));
              bounded = kept _ available there.0 (omega (arith, reach.1));
            })
      go (inr t) =
          let s : (gap n ≡ o) × (none ≡ q) = ground (arith, h, t) in
          rw (t, ← s.0, ← s.1)
            (record {
              next = n + 1;
              expects = refl;
              ahead = omega arith;
              played = (
                refl,
                e,
                refl,
                refl,
                d,
                (available, (there.0, (w, there.1)), ground (arith, reach.0, t)),
              );
              bounded = kept _ (n + 1) (ground (arith, away)) (omega (arith, reach.0, reach.1));
            })

  pub pop_next-Advanced :
      (o : PopOutcome) (q : Option AudioPacket)
      → (pop_next n b).1 ≡ some (o, q)
      → Advanced b n o q (pop_next n b).0
  unfolding pop_next
  pop_next-Advanced o q h =
      go (Option-cases (lookup n b.packets)) (Bool-cases (ltb b.target_delay (length b.packets)))
        (Option-cases (first b.packets))
    where
      go :
          (lookup n b.packets ≡ none) ⊎ ((p : AudioPacket) × (lookup n b.packets ≡ some p))
          → ((ltb b.target_delay (length b.packets) ≡ true)
              ⊎ (ltb b.target_delay (length b.packets) ≡ false))
          → (first b.packets ≡ none) ⊎ ((e : ℕ × AudioPacket) × (first b.packets ≡ some e))
          → Advanced b n o q (pop_next n b).0
      go (inr (p, e)) _ _ =
          let s : (packet ≡ o) × (some p ≡ q) = ground (arith, h, e) in
          rw (e, pop_next, ← s.0, ← s.1) (packet-Advanced p e)
      go (inl e) (inr t) _ = absurd (ground arith)
      go (inl e) (inl t) (inl f) = absurd (ground arith)
      go (inl e) (inl t) (inr ((a, w), f)) =
          rw (e, pop_next, t, f)
            (conceal-Advanced a w o q e f (ground arith) (rw (e, pop_next, t, f) at h))

-- Where a pop begins: at the expected number or, when none is expected yet, at the lowest one queued.
abbrev pub StartsAt : Option ℕ → Map AudioPacket → ℕ → Type 0
StartsAt (some m) packets n = m ≡ n
StartsAt none packets n = (w : AudioPacket) × (first packets ≡ some (n, w))

-- Whatever `pop` hands out is for the number `n` at which it begins: the expected one or, before any
-- is expected, the lowest queued. It is the packet queued under `n`, which leaves the queue; or, when
-- `n` is missing and more packets than the target delay are queued, a gap at `n` if the lowest queued
-- number is at most the capacity ahead, and otherwise a discontinuity from `n` to that lowest number,
-- and then the queue stays as it is. The number expected afterwards is higher than `n`: one higher, or
-- the end of the discontinuity. The buffer stays within its bounds.
pub pop-Advanced :
    (b : JitterBuffer) (o : PopOutcome) (q : Option AudioPacket)
    → IsBounded b
    → (pop b).1 ≡ some (o, q)
    → (n : ℕ) × StartsAt b.next_sequence b.packets n
      × Advanced (record b { next_sequence = some n }) n o q (pop b).0
unfolding pop
pop-Advanced b o q v h = go (Option-cases b.next_sequence) (Option-cases (first b.packets))
  where
    open_at :
        (n : ℕ) → From n b.packets → n ≤ u64_max → IsBounded (record b { next_sequence = some n })
    open_at n x l = record {
      sorted = v.sorted;
      capped = v.capped;
      delayed = v.delayed;
      bounded = v.bounded;
      below = v.below;
      expected = x;
      next_below = l;
    }

    go :
        (b.next_sequence ≡ none) ⊎ ((n : ℕ) × (b.next_sequence ≡ some n))
        → (first b.packets ≡ none) ⊎ ((e : ℕ × AudioPacket) × (first b.packets ≡ some e))
        → (n : ℕ) × StartsAt b.next_sequence b.packets n
          × Advanced (record b { next_sequence = some n }) n o q (pop b).0
    go (inr (n, e)) f =
        let c = record b { next_sequence = some n } in
        let same : b ≡ c = ap (λ s. record b { next_sequence = s }) e in
        let w : IsBounded c = subst IsBounded same v in
        let step : pop_next n b ≡ pop_next n c = ap (pop_next n) same in
        rw (e, pop) (n, refl, rw (step) (pop_next-Advanced c n w refl o q (rw (e, pop, step) at h)))
    go (inl e) (inl f) = absurd (ground arith)
    go (inl e) (inr ((n, w), f)) =
        let there = first-From n w b.packets v.sorted f in
        let c = record b { next_sequence = some n } in
        rw (e, f, pop)
          (
            n,
            (w, refl),
            pop_next-Advanced c n
                (open_at n there.0
                  (omega (arith, (lookup-Below u64_max n w b.packets v.below there.1).1)))
                refl o q (rw (e, f, pop) at h),
          )
