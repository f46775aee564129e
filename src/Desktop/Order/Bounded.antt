-- ===== src/Desktop/Order/Bounded.antt =====
-- The invariant of the reordering of pictures (crates/rds-desktop/src/order.rs).
use remote_device_sync.Base.{
  ℕ, ◌≤◌, ◌<◌, ◌≡◌, ◌⊎◌, inl, inr, Bool, true, false, ◌&&◌, Option, none, some, ltb, leb, ◌==◌, [],
  ◌∷◌, length, is_some_and, is_none_or, u64_max, arith, Bool-cases, Option-cases,
}
use remote_device_sync.Base.Map.{
  Map, lookup, insert, retain, From, IsSorted, insert-IsSorted, From-insert, retain-IsSorted,
  length-retain,
}
use remote_device_sync.Desktop.{FrameHeader}
use remote_device_sync.Desktop.Order.{Ordered, default, shrink, restart, limit_of, keep, push}
use remote_device_sync.Desktop.Order.Shrink.{
  Keys, Keys-insert, Keys-retain, length-shrink, Keys-shrink, From-shrink, shrink-IsSorted,
  lookup-shrink,
}

module _ {T : Type 0} where
  abbrev pub Expected : Option ℕ → Map (FrameHeader × T) → Type 0
  Expected none m = Unit
  Expected (some n) m = From n m

  -- Ascending numbers from the expected one on, and at most three pictures besides the expected one.
  pub record IsBounded (o : Ordered T) : Type 0 where
    pub sorted : IsSorted o.frames
    pub keys : Keys o.frames
    pub expected : Expected o.next o.frames
    pub bounded : length o.frames ≤ limit_of o.next o.frames

  -- The bound computed before the eviction is the bound after it.
  limit_of-shrink :
      (next : Option ℕ) (m : Map (FrameHeader × T))
      → IsSorted m
      → Expected next m
      → length (shrink (length m) (limit_of next m) m)
        ≤ limit_of next (shrink (length m) (limit_of next m) m)
  limit_of-shrink none m s f = length-shrink (length m) 3 m (omega arith)
  limit_of-shrink (some n) m s f = go (Option-cases (lookup n m))
    where
      go :
          (lookup n m ≡ none) ⊎ ((w : FrameHeader × T) × (lookup n m ≡ some w))
          → length (shrink (length m) (limit_of (some n) m) m)
            ≤ limit_of (some n) (shrink (length m) (limit_of (some n) m) m)
      go (inl e) = rw (e) (omega (arith, length-shrink (length m) 3 m (omega arith)))
      go (inr (w, e)) = rw (e) (
          rw (lookup-shrink n (length m) 4 w m (omega arith) f s e)
            (length-shrink (length m) 4 m (omega arith)))

  default-IsBounded : IsBounded (default {T = T})
  default-IsBounded = record { sorted = tt; keys = tt; expected = tt; bounded = omega arith }

  From-retain_self : (a : ℕ) (m : Map (FrameHeader × T)) → From a (retain (λ seq f. leb a seq) m)
  unfolding retain
  From-retain_self a [] = tt
  From-retain_self a ((j, w) ∷ m) = ground (arith, From-retain_self a m)

  length-retain_drop :
      (n : ℕ) (w : FrameHeader × T) (p : ℕ → FrameHeader × T → Bool) (m : Map (FrameHeader × T))
      → lookup n m ≡ some w
      → p n w ≡ false
      → length (retain p m) < length m
  unfolding lookup retain
  length-retain_drop n w p [] e d = absurd (cc)
  length-retain_drop n w p ((j, v) ∷ m) e d =
      go (Bool-cases (j == n)) (λ x. length-retain_drop n w p m x d)
    where
      go :
          ((j == n) ≡ true) ⊎ ((j == n) ≡ false)
          → (lookup n m ≡ some w → length (retain p m) < length m)
          → length (retain p ((j, v) ∷ m)) < length ((j, v) ∷ m)
      go (inl t) next =
          let same : (j ≡ n) × (v ≡ w) = ground (arith, e, t) in
          rw (same.0, same.1, d, retain) (omega (arith, length-retain p m))
      go (inr t) next = ground (arith, next (rw (t, lookup) at e))

  -- A keyframe that starts a new chain drops the picture that was expected before it.
  dropped :
      (h : FrameHeader) (o : Ordered T)
      → IsBounded o
      → (h.keyframe && is_none_or o.next (λ n. ltb n h.seq)) ≡ true
      → length (retain (λ seq f. leb h.seq seq) o.frames) ≤ 3
  dropped h o v t = go o.next (v.bounded) (ground (arith, t))
    where
      go :
          (next : Option ℕ)
          → length o.frames ≤ limit_of next o.frames
          → is_none_or next (λ n. ltb n h.seq) ≡ true
          → length (retain (λ seq f. leb h.seq seq) o.frames) ≤ 3
      go none b k = omega (arith, length-retain (λ seq f. leb h.seq seq) o.frames, b)
      go (some n) b k = at (Option-cases (lookup n o.frames))
        where
          at :
              (lookup n o.frames ≡ none) ⊎ ((w : FrameHeader × T) × (lookup n o.frames ≡ some w))
              → length (retain (λ seq f. leb h.seq seq) o.frames) ≤ 3
          at (inl e) = omega (arith, length-retain (λ seq f. leb h.seq seq) o.frames, rw (e) at b)
          at (inr (w, e)) = omega (
            arith,
            length-retain_drop n w (λ seq f. leb h.seq seq) o.frames e (ground (arith, k)),
            rw (e) at b,
          )

  restart-IsBounded : (h : FrameHeader) (o : Ordered T) → IsBounded o → IsBounded (restart h o)
  restart-IsBounded h o v = go (Bool-cases (h.keyframe && is_none_or o.next (λ n. ltb n h.seq)))
    where
      go :
          ((h.keyframe && is_none_or o.next (λ n. ltb n h.seq)) ≡ true)
            ⊎ ((h.keyframe && is_none_or o.next (λ n. ltb n h.seq)) ≡ false)
          → IsBounded (restart h o)
      go (inl t) = rw (t) (record {
        sorted = retain-IsSorted _ o.frames v.sorted;
        keys = Keys-retain _ o.frames v.keys;
        expected = From-retain_self h.seq o.frames;
        bounded = omega (arith, dropped h o v t);
      })
      go (inr t) = rw (t) v

  keep-IsBounded :
      (now : ℕ) (h : FrameHeader) (p : T) (o : Ordered T)
      → h.seq < u64_max
      → Expected o.next ((h.seq, (h, p)) ∷ [])
      → IsBounded o
      → IsBounded (keep now h p o)
  keep-IsBounded now h p o l k v = record {
    sorted = shrink-IsSorted (length m) (limit_of o.next m) m s;
    keys = Keys-shrink (length m) (limit_of o.next m) m (Keys-insert h p o.frames l v.keys);
    expected = kept o.next (length m) (limit_of o.next m) (expected o.next k v.expected);
    bounded = limit_of-shrink o.next m s (expected o.next k v.expected);
  }
    where
      m : Map (FrameHeader × T)
      m = insert h.seq (h, p) o.frames

      s : IsSorted m
      s = insert-IsSorted h.seq (h, p) o.frames v.sorted

      expected :
          (next : Option ℕ)
          → Expected next ((h.seq, (h, p)) ∷ [])
          → Expected next o.frames
          → Expected next m
      expected none a b = tt
      expected (some n) a b = From-insert n h.seq (h, p) o.frames a.0 b

      kept : (next : Option ℕ) (r l : ℕ) → Expected next m → Expected next (shrink r l m)
      kept none r l a = tt
      kept (some n) r l a = From-shrink n r l m a

  restart-Expected :
      (h : FrameHeader) (o : Ordered T) (p : T)
      → is_some_and o.next (λ n. ltb h.seq n) ≡ false
      → Expected (restart h o).next ((h.seq, (h, p)) ∷ [])
  restart-Expected h o p f = go (Bool-cases (h.keyframe && is_none_or o.next (λ n. ltb n h.seq)))
    where
      open_at :
          (next : Option ℕ)
          → is_some_and next (λ n. ltb h.seq n) ≡ false
          → Expected next ((h.seq, (h, p)) ∷ [])
      open_at none f = tt
      open_at (some n) f = (ground (arith, f), tt)

      go :
          ((h.keyframe && is_none_or o.next (λ n. ltb n h.seq)) ≡ true)
            ⊎ ((h.keyframe && is_none_or o.next (λ n. ltb n h.seq)) ≡ false)
          → Expected (restart h o).next ((h.seq, (h, p)) ∷ [])
      go (inl t) = rw (t) (omega arith, tt)
      go (inr t) = rw (t) (open_at o.next f)

  -- `push` keeps the pictures in order, none below the expected one, and at most three besides it.
  pub push-IsBounded :
      (now : ℕ) (h : FrameHeader) (p : T) (o : Ordered T)
      → h.seq ≤ u64_max
      → IsBounded o
      → IsBounded (push now h p o)
  unfolding push
  push-IsBounded now h p o l v =
      go (Bool-cases (h.seq == u64_max)) (Bool-cases (is_some_and o.next (λ n. ltb h.seq n)))
    where
      go :
          ((h.seq == u64_max) ≡ true) ⊎ ((h.seq == u64_max) ≡ false)
          → (is_some_and o.next (λ n. ltb h.seq n) ≡ true)
            ⊎ (is_some_and o.next (λ n. ltb h.seq n) ≡ false)
          → IsBounded (push now h p o)
      go (inl t) _ = rw (t, push) v
      go (inr t) (inl f) = rw (t, f, push) v
      go (inr t) (inr f) =
          rw (t, f, push)
            (keep-IsBounded now h p (restart h o) (ground arith) (restart-Expected h o p f)
              (restart-IsBounded h o v))
