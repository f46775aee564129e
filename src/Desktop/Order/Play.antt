-- ===== src/Desktop/Order/Play.antt =====
-- What `Ordered::pop` (crates/rds-desktop/src/order.rs) plays, and in which order.
use remote_device_sync.Base.{
  ℕ, suc, ◌+◌, ◌≤◌, ◌<◌, ◌≡◌, refl, ◌⊎◌, inl, inr, Option, none, some, ◌==◌, if◌then◌else◌, [], ◌∷◌,
  length, u64_max, arith, Option-cases, sym, ap, ◌∙◌,
}
use remote_device_sync.Base.Map.{
  Map, lookup, remove, From, IsSorted, lookup-From, From-mono, remove-IsSorted, length-remove,
}
use remote_device_sync.Desktop.{FrameHeader}
use remote_device_sync.Desktop.Order.{Ordered, limit_of, pop}
use remote_device_sync.Desktop.Order.Shrink.{Keys, Keys-remove}
use remote_device_sync.Desktop.Order.Bounded.{Expected, IsBounded}

module _ {T : Type 0} where
  lookup-Keys :
      (k : ℕ) (w : FrameHeader × T) (m : Map (FrameHeader × T))
      → Keys m
      → lookup k m ≡ some w
      → (w.0.seq ≡ k) × (k < u64_max)
  unfolding lookup
  lookup-Keys k w [] f e = absurd (cc)
  lookup-Keys k w ((j, v) ∷ m) f e = ground (arith, lookup-Keys k w m f.2)

  From-remove_self :
      (k : ℕ) (w : FrameHeader × T) (m : Map (FrameHeader × T))
      → IsSorted m
      → From k m
      → lookup k m ≡ some w
      → From (suc k) (remove k m)
  unfolding lookup remove
  From-remove_self k w [] s f e = tt
  From-remove_self k w ((j, v) ∷ m) s f e =
      ground (arith, lookup-From k m, From-mono (suc k) (suc j) m)

  -- The state after a pop that plays the picture `f`.
  pub record Played (o : Ordered T) (f : FrameHeader × T) (o' : Ordered T) : Type 0 where
    pub now_at : o.next ≡ some (f.0.seq)
    pub queued : lookup f.0.seq o.frames ≡ some f
    pub next_at : o'.next ≡ some (f.0.seq + 1)
    pub bounded : IsBounded o'

  pop-idle : (now : ℕ) (o : Ordered T) → o.next ≡ none → pop now o ≡ (o, none)
  unfolding pop
  pop-idle now o e = ground (arith, e)

  pop-missing :
      (now n : ℕ) (o : Ordered T)
      → o.next ≡ some n
      → lookup n o.frames ≡ none
      → pop now o ≡ (o, none)
  unfolding pop
  pop-missing now n o e d = ground (arith, e, d)

  after : (now n : ℕ) (o : Ordered T) → Ordered T
  after now n o = record {
    next = some (n + 1);
    frames = remove n o.frames;
    blocked = if length (remove n o.frames) == 0 then none else some now;
  }

  pop-found :
      (now n : ℕ) (f : FrameHeader × T) (o : Ordered T)
      → n < u64_max
      → o.next ≡ some n
      → lookup n o.frames ≡ some f
      → pop now o ≡ (after now n o, some f)
  unfolding pop after
  pop-found now n f o l e d = ground (arith, e, d, l)

  after-Played :
      (now n : ℕ) (f : FrameHeader × T) (o : Ordered T)
      → IsBounded o
      → o.next ≡ some n
      → lookup n o.frames ≡ some f
      → Played o f (after now n o)
  unfolding after
  after-Played now n f o v e d = record {
    now_at = e ∙ ap some (sym k.0);
    queued = ap (λ i. lookup i o.frames) k.0 ∙ d;
    next_at = ap (λ i. some (i + 1)) (sym k.0);
    bounded = record {
      sorted = remove-IsSorted n o.frames v.sorted;
      keys = Keys-remove n o.frames v.keys;
      expected = ground (arith, From-remove_self n f o.frames v.sorted (at o.next e v.expected) d);
      bounded = omega (arith, length-remove n o.frames, room o.next e v.bounded);
    };
  }
    where
      k : (f.0.seq ≡ n) × (n < u64_max)
      k = lookup-Keys n f o.frames v.keys d

      at : (next : Option ℕ) → next ≡ some n → Expected next o.frames → From n o.frames
      at next e x = rw (e) at x

      room :
          (next : Option ℕ)
          → next ≡ some n
          → length o.frames ≤ limit_of next o.frames
          → length (remove n o.frames) ≤ 3
      room next e b = ground (arith, length-remove n o.frames, (rw (e, d) at b), d)

  -- `pop` plays the picture queued under the expected number, expects the number after it, and keeps
  -- the invariant; with the expected picture missing it changes nothing.
  pub pop-Played :
      (now : ℕ) (o : Ordered T)
      → IsBounded o
      → ((f : FrameHeader × T) × ((pop now o).1 ≡ some f) × Played o f (pop now o).0)
        ⊎ (((pop now o).1 ≡ none) × ((pop now o).0 ≡ o))
  pop-Played now o v = go (Option-cases o.next)
    where
      go :
          (o.next ≡ none) ⊎ ((n : ℕ) × (o.next ≡ some n))
          → ((f : FrameHeader × T) × ((pop now o).1 ≡ some f) × Played o f (pop now o).0)
            ⊎ (((pop now o).1 ≡ none) × ((pop now o).0 ≡ o))
      go (inl e) = rw (pop-idle now o e) (inr (refl, refl))
      go (inr (n, e)) = at (Option-cases (lookup n o.frames))
        where
          at :
              (lookup n o.frames ≡ none) ⊎ ((f : FrameHeader × T) × (lookup n o.frames ≡ some f))
              → ((f : FrameHeader × T) × ((pop now o).1 ≡ some f) × Played o f (pop now o).0)
                ⊎ (((pop now o).1 ≡ none) × ((pop now o).0 ≡ o))
          at (inl d) = rw (pop-missing now n o e d) (inr (refl, refl))
          at (inr (f, d)) =
              rw (pop-found now n f o (lookup-Keys n f o.frames v.keys d).1 e d)
                (inl (f, refl, after-Played now n f o v e d))
