-- ===== src/Desktop/Order/Shrink.antt =====
-- What eviction (crates/rds-desktop/src/order.rs) and the other changes of the queue keep.
use remote_device_sync.Base.{
  ℕ, zero, suc, ◌+◌, ◌-◌, ◌≤◌, ◌<◌, ◌≡◌, refl, Bool, some, [], ◌∷◌, length, u64_max, arith,
}
use remote_device_sync.Base.Map.{
  Map, lookup, insert, remove, retain, pop_last, first, From, IsSorted, From-mono, lookup-From,
}
use remote_device_sync.Desktop.{FrameHeader}
use remote_device_sync.Desktop.Order.{shrink}

module _ {T : Type 0} where
  -- Every picture is kept under its own number, which is not the highest of 64 bits.
  abbrev pub Keys : Map (FrameHeader × T) → Type 0
  Keys [] = Unit
  Keys ((j, w) ∷ m) = (w.0.seq ≡ j) × (j < u64_max) × Keys m

  pub Keys-insert :
      (h : FrameHeader) (p : T) (m : Map (FrameHeader × T))
      → h.seq < u64_max
      → Keys m
      → Keys (insert h.seq (h, p) m)
  unfolding insert
  Keys-insert h p [] l f = (refl, l, tt)
  Keys-insert h p ((j, w) ∷ m) l f = ground (arith, Keys-insert h p m l f.2)

  pub Keys-remove : (k : ℕ) (m : Map (FrameHeader × T)) → Keys m → Keys (remove k m)
  unfolding remove
  Keys-remove k [] f = tt
  Keys-remove k ((j, w) ∷ m) f = ground (arith, Keys-remove k m f.2)

  pub Keys-retain :
      (p : ℕ → FrameHeader × T → Bool) (m : Map (FrameHeader × T)) → Keys m → Keys (retain p m)
  unfolding retain
  Keys-retain p [] f = tt
  Keys-retain p ((j, w) ∷ m) f = ground (arith, Keys-retain p m f.2)

  -- What `pop_last` keeps.
  pub Keys-pop_last : (m : Map (FrameHeader × T)) → Keys m → Keys (pop_last m)
  unfolding pop_last
  Keys-pop_last [] f = tt
  Keys-pop_last (e ∷ []) f = tt
  Keys-pop_last (e ∷ g ∷ m) f = (f.0, f.1, Keys-pop_last (g ∷ m) f.2)

  pub From-pop_last : (a : ℕ) (m : Map (FrameHeader × T)) → From a m → From a (pop_last m)
  unfolding pop_last
  From-pop_last a [] f = tt
  From-pop_last a (e ∷ []) f = tt
  From-pop_last a (e ∷ g ∷ m) f = (f.0, From-pop_last a (g ∷ m) f.1)

  pub pop_last-IsSorted : (m : Map (FrameHeader × T)) → IsSorted m → IsSorted (pop_last m)
  unfolding pop_last
  pop_last-IsSorted [] f = tt
  pop_last-IsSorted (e ∷ []) f = tt
  pop_last-IsSorted (e ∷ g ∷ m) f =
      (From-pop_last (suc e.0) (g ∷ m) f.0, pop_last-IsSorted (g ∷ m) f.1)

  pub length-pop_last : (m : Map (FrameHeader × T)) → length (pop_last m) ≡ length m - 1
  unfolding pop_last
  length-pop_last [] = refl
  length-pop_last (e ∷ []) = refl
  length-pop_last (e ∷ g ∷ m) = omega (arith, length-pop_last (g ∷ m))

  -- What `shrink` keeps, and how far it goes.
  pub length-shrink :
      (r l : ℕ) (m : Map (FrameHeader × T)) → length m ≤ r + l → length (shrink r l m) ≤ l
  unfolding shrink
  length-shrink zero l m h = omega (arith, h)
  length-shrink (suc r) l m h = ground (arith, length-shrink r l (pop_last m), length-pop_last m)

  pub Keys-shrink : (r l : ℕ) (m : Map (FrameHeader × T)) → Keys m → Keys (shrink r l m)
  unfolding shrink
  Keys-shrink zero l m f = f
  Keys-shrink (suc r) l m f = ground (arith, Keys-shrink r l (pop_last m), Keys-pop_last m f)

  pub From-shrink : (a r l : ℕ) (m : Map (FrameHeader × T)) → From a m → From a (shrink r l m)
  unfolding shrink
  From-shrink a zero l m f = f
  From-shrink a (suc r) l m f = ground (arith, From-shrink a r l (pop_last m), From-pop_last a m f)

  pub shrink-IsSorted : (r l : ℕ) (m : Map (FrameHeader × T)) → IsSorted m → IsSorted (shrink r l m)
  unfolding shrink
  shrink-IsSorted zero l m f = f
  shrink-IsSorted (suc r) l m f =
      ground (arith, shrink-IsSorted r l (pop_last m), pop_last-IsSorted m f)

  pub shrink-fits : (r l : ℕ) (m : Map (FrameHeader × T)) → length m ≤ l → shrink r l m ≡ m
  unfolding shrink
  shrink-fits zero l m h = refl
  shrink-fits (suc r) l m h = ground arith

  -- The lowest picture survives.
  pub first-shrink :
      (r l : ℕ) (e : ℕ × (FrameHeader × T)) (m : Map (FrameHeader × T))
      → 0 < l
      → first m ≡ some e
      → first (shrink r l m) ≡ some e
  unfolding shrink pop_last
  first-shrink zero l e m h f = f
  first-shrink (suc r) l e [] h f = absurd (cc)
  first-shrink (suc r) l e (a ∷ []) h f = ground arith
  first-shrink (suc r) l e (a ∷ b ∷ m) h f =
      ground (arith, first-shrink r l e (a ∷ pop_last (b ∷ m)) h f)

  pub lookup-first :
      (n : ℕ) (w : FrameHeader × T) (m : Map (FrameHeader × T))
      → From n m
      → IsSorted m
      → lookup n m ≡ some w
      → first m ≡ some (n, w)
  unfolding lookup
  lookup-first n w [] f s h = absurd (cc)
  lookup-first n w ((j, v) ∷ m) f s h = ground (arith, lookup-From n m, From-mono (suc n) (suc j) m)

  pub first-lookup :
      (n : ℕ) (w : FrameHeader × T) (m : Map (FrameHeader × T))
      → first m ≡ some (n, w)
      → lookup n m ≡ some w
  unfolding lookup
  first-lookup n w [] h = absurd (cc)
  first-lookup n w ((j, v) ∷ m) h = ground arith

  pub lookup-shrink :
      (n r l : ℕ) (w : FrameHeader × T) (m : Map (FrameHeader × T))
      → 0 < l
      → From n m
      → IsSorted m
      → lookup n m ≡ some w
      → lookup n (shrink r l m) ≡ some w
  lookup-shrink n r l w m h f s e =
      first-lookup n w (shrink r l m) (first-shrink r l (n, w) m h (lookup-first n w m f s e))
