-- ===== src/Desktop/Order/Runs.antt =====
-- Sequences of pushes and pops of `Ordered` (crates/rds-desktop/src/order.rs), and a reference that
-- arrives at last.
use remote_device_sync.Base.{
  ℕ, ◌+◌, ◌≤◌, ◌<◌, ◌≡◌, subst, ◌⊎◌, inl, inr, true, false, ◌&&◌, ◌||◌, Option, none, some, ltb,
  ◌==◌, if◌then◌else◌, List, [], ◌∷◌, length, All, is_some_and, is_none_or, u64_max, arith,
  Bool-cases,
}
use remote_device_sync.Base.Map.{lookup, insert, lookup-insert, length-insert}
use remote_device_sync.Desktop.{FrameHeader}
use remote_device_sync.Desktop.Order.{Ordered, restart, limit_of, keep, push, pop}
use remote_device_sync.Desktop.Order.Shrink.{shrink-fits}
use remote_device_sync.Desktop.Order.Bounded.{IsBounded, push-IsBounded}
use remote_device_sync.Desktop.Order.Play.{Played, pop-Played}

-- A picture that arrives, or a request for the next one, each with its reading of the clock.
pub data Event (T : Type 0) : Type 0 where
  arrive : ℕ → FrameHeader → T → Event T
  play : ℕ → Event T

-- The numbers lie above the expected one, and ascend.
abbrev pub Ascends : Option ℕ → List ℕ → Type 0
Ascends next [] = Unit
Ascends none (k ∷ ks) = Ascends (some (k + 1)) ks
Ascends (some n) (k ∷ ks) = (n ≤ k) × Ascends (some (k + 1)) ks

Raises : Option ℕ → Option ℕ → Type 0
Raises none b = Unit
Raises (some n) none = ⊥
Raises (some n) (some m) = n ≤ m

Ascends-lower : (a b : Option ℕ) (ks : List ℕ) → Raises a b → Ascends b ks → Ascends a ks
unfolding Raises
Ascends-lower a b [] r f = tt
Ascends-lower none none (k ∷ ks) r f = f
Ascends-lower none (some m) (k ∷ ks) r f = f.1
Ascends-lower (some n) none (k ∷ ks) r f = absurd r
Ascends-lower (some n) (some m) (k ∷ ks) r f = (omega (arith, r, f.0), f.1)

module _ {T : Type 0} where
  -- A 64-bit number.
  abbrev pub IsWord : Event T → Type 0
  IsWord (arrive now h p) = h.seq ≤ u64_max
  IsWord (play now) = Unit

  abbrev pub played : Option (FrameHeader × T) → List ℕ → List ℕ
  played none ks = ks
  played (some f) ks = f.0.seq ∷ ks

  -- The numbers of the pictures played.
  unfoldable pub run : List (Event T) → Ordered T → List ℕ
  run [] o = []
  run (arrive now h p ∷ es) o = run es (push now h p o)
  run (play now ∷ es) o = played (pop now o).1 (run es (pop now o).0)

  restart-next : (h : FrameHeader) (o : Ordered T) → Raises o.next (restart h o).next
  unfolding Raises
  restart-next h o = go (Bool-cases (h.keyframe && is_none_or o.next (λ n. ltb n h.seq)))
    where
      same : (next : Option ℕ) → Raises next next
      same none = tt
      same (some n) = omega arith

      up :
          (next : Option ℕ)
          → (h.keyframe && is_none_or next (λ n. ltb n h.seq)) ≡ true
          → Raises next (some h.seq)
      up none t = tt
      up (some n) t = ground (arith, t)

      go :
          ((h.keyframe && is_none_or o.next (λ n. ltb n h.seq)) ≡ true)
            ⊎ ((h.keyframe && is_none_or o.next (λ n. ltb n h.seq)) ≡ false)
          → Raises o.next (restart h o).next
      go (inl t) = rw (t) (up o.next t)
      go (inr t) = rw (t) (same o.next)

  push-next :
      (now : ℕ) (h : FrameHeader) (p : T) (o : Ordered T) → Raises o.next (push now h p o).next
  unfolding push Raises
  push-next now h p o = go (Bool-cases (h.seq == u64_max || is_some_and o.next (λ n. ltb h.seq n)))
    where
      same : (next : Option ℕ) → Raises next next
      same none = tt
      same (some n) = omega arith

      go :
          ((h.seq == u64_max || is_some_and o.next (λ n. ltb h.seq n)) ≡ true)
            ⊎ ((h.seq == u64_max || is_some_and o.next (λ n. ltb h.seq n)) ≡ false)
          → Raises o.next (push now h p o).next
      go (inl t) = rw (t, push) (same o.next)
      go (inr t) = rw (t, push) (restart-next h o)

  -- Between two expiries, however pictures of 64-bit numbers arrive and are asked for, the pictures
  -- played have strictly ascending numbers, none below the expected one.
  pub run-Ascends :
      (es : List (Event T)) (o : Ordered T)
      → All IsWord es
      → IsBounded o
      → Ascends o.next (run es o)
  unfolding run
  run-Ascends [] o w v = tt
  run-Ascends (arrive now h p ∷ es) o w v =
      Ascends-lower o.next (push now h p o).next (run es (push now h p o)) (push-next now h p o)
        (run-Ascends es (push now h p o) w.1 (push-IsBounded now h p o w.0 v))
  run-Ascends (play now ∷ es) o w v =
      go (pop-Played now o v) (λ b. run-Ascends es (pop now o).0 w.1 b)
    where
      go :
          ((f : FrameHeader × T) × ((pop now o).1 ≡ some f) × Played o f (pop now o).0)
            ⊎ (((pop now o).1 ≡ none) × ((pop now o).0 ≡ o))
          → (IsBounded (pop now o).0 → Ascends (pop now o).0.next (run es (pop now o).0))
          → Ascends o.next (played (pop now o).1 (run es (pop now o).0))
      go (inl (f, e, q)) rest = rw (e, q.now_at) (omega arith, (rw (q.next_at) at rest q.bounded))
      go (inr (e, q)) rest =
          rw (e) (subst (λ x. Ascends x.next (run es (pop now o).0)) q (rest (rw (q) v)))

  push-expected :
      (now : ℕ) (h : FrameHeader) (p : T) (o : Ordered T)
      → h.seq < u64_max
      → o.next ≡ some h.seq
      → push now h p o ≡ keep now h p o
  unfolding push
  push-expected now h p o l e = ground (arith, l, e)

  room :
      (h : FrameHeader) (p : T) (o : Ordered T)
      → IsBounded o
      → o.next ≡ some h.seq
      → length (insert h.seq (h, p) o.frames) ≤ limit_of o.next (insert h.seq (h, p) o.frames)
  room h p o v e = rw (e) (rw (here) (at o.next e v.bounded))
    where
      here : lookup h.seq (insert h.seq (h, p) o.frames) ≡ some (h, p)
      here = ground (arith, lookup-insert h.seq h.seq (h, p) o.frames)

      at :
          (next : Option ℕ)
          → next ≡ some h.seq
          → length o.frames ≤ limit_of next o.frames
          → length (insert h.seq (h, p) o.frames) ≤ 4
      at next e b = ground (arith, length-insert h.seq (h, p) o.frames v.sorted, (rw (e) at b))

  -- When the expected picture arrives, every picture that waited for it is still there.
  pub push-completes :
      (now j : ℕ) (h : FrameHeader) (p : T) (o : Ordered T)
      → IsBounded o
      → h.seq < u64_max
      → o.next ≡ some h.seq
      → lookup j (push now h p o).frames ≡ (if h.seq == j then some (h, p) else lookup j o.frames)
  push-completes now j h p o v l e = rw (push-expected now h p o l e) (
      rw (shrink-fits _ _ (insert h.seq (h, p) o.frames) (room h p o v e))
        (lookup-insert j h.seq (h, p) o.frames))
