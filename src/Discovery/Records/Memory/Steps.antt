-- ===== src/Discovery/Records/Memory/Steps.antt =====
-- Sequences of calls on the in-memory record store (crates/rds-discovery/src/records/memory.rs).
use remote_device_sync.Base.{
  ℕ, ◌+◌, ◌≡◌, refl, ◌⊎◌, inl, inr, Bool, List, [], ◌∷◌, Option, some, none, length, take, ◌==◌,
  if◌then◌else◌, Result, ok, err, Result-cases, Option-cases, arith,
}
use remote_device_sync.Base.Map.{lookup}
use remote_device_sync.Discovery.{DiscoveryError}
use remote_device_sync.Discovery.Clock.{Reading}
use remote_device_sync.Discovery.Wire.{Entry, Libraries}
use remote_device_sync.Discovery.Records.{Stored, Decision, retire, decide, observe}
use remote_device_sync.Discovery.Records.Decide.{retire-verify}
use remote_device_sync.Discovery.Records.Memory.{
  Memory, empty, put_back, apply, access_at, access_admitted, collect_keys, collect_at, keys_after,
  last, gc_batch,
}
use remote_device_sync.Discovery.Records.Memory.Sound.{Verifies, IsSound, CanReplace}
use remote_device_sync.Discovery.Records.Memory.Floor.{
  Keeps, old-CanReplace, put_back-Keeps, same_entries-Keeps, Keeps-trans, apply-Keeps,
}

-- A call: an access (a read, a publication or a deletion) with the clock's answer and the caller's
-- admission, or a collection.
pub data Call : Type 0 where
  access :
      ℕ
      → Option Entry
      → Result DiscoveryError Reading
      → (Bool → Result DiscoveryError (Unit {0}))
      → Call
  collect : Reading → Call

module _ (lib : Libraries) (capacity : ℕ) where
  unfoldable pub step : Call → Memory → Memory
  step (access key entry clock admit) m = (access_admitted lib capacity admit key entry clock m).0
  step (collect now) m = (collect_at lib now m).0

  unfoldable pub run : List Call → Memory → Memory
  run [] m = m
  run (c ∷ cs) m = run cs (step c m)

  observed-Keeps :
      (m : Memory) (w : ℕ)
      → IsSound lib capacity m
      → Keeps lib capacity m (record m { observed_wall = w })
  observed-Keeps m w h =
      same_entries-Keeps lib capacity m (record m { observed_wall = w }) h refl refl

  access_at-Keeps :
      (admit : Bool → Result DiscoveryError (Unit {0})) (key : ℕ) (entry : Option Entry)
      (now : Reading) (m : Memory)
      → IsSound lib capacity m
      → Keeps lib capacity m (access_at lib capacity admit key entry now m).0
  unfolding access_at
  access_at-Keeps admit key entry now m h =
      go (Result-cases (observe 0 m.observed_wall now))
        (Result-cases (decide lib (lookup key m.entries) entry key now))
    where
      go :
          ((w : ℕ) × (observe 0 m.observed_wall now ≡ ok w))
            ⊎ ((x : DiscoveryError) × (observe 0 m.observed_wall now ≡ err x))
          → ((d : Decision) × (decide lib (lookup key m.entries) entry key now ≡ ok d))
            ⊎ ((x : DiscoveryError) × (decide lib (lookup key m.entries) entry key now ≡ err x))
          → Keeps lib capacity m (access_at lib capacity admit key entry now m).0
      go (inr (x, e)) _ = rw (e, access_at) (same_entries-Keeps lib capacity m m h refl refl)
      go (inl (w, e)) (inr (x, f)) = rw (e, access_at, f) (observed-Keeps m w h)
      go (inl (w, e)) (inl (d, f)) =
          let n = record m { observed_wall = w } in
          let a = observed-Keeps m w h in
          rw (e, access_at, f)
            (Keeps-trans lib capacity m n (apply lib capacity admit key d n).0 a (
              apply-Keeps lib capacity admit key d n a.sound (λ t r.
                old-CanReplace lib key now entry (lookup key m.entries) d t (h.verified key) f r)))

  access_admitted-Keeps :
      (admit : Bool → Result DiscoveryError (Unit {0})) (key : ℕ) (entry : Option Entry)
      (clock : Result DiscoveryError Reading) (m : Memory)
      → IsSound lib capacity m
      → Keeps lib capacity m (access_admitted lib capacity admit key entry clock m).0
  unfolding access_admitted
  access_admitted-Keeps admit key entry (ok now) m h = access_at-Keeps admit key entry now m h
  access_admitted-Keeps admit key entry (err x) m h =
      same_entries-Keeps lib capacity m m h refl refl

  retire-CanReplace :
      (now : Reading) (k : ℕ) (s t : Stored)
      → Verifies lib k s
      → retire lib s k now ≡ ok (some t)
      → CanReplace lib k (some s) t
  retire-CanReplace now k s t v h = record {
    verifies = record {
      revision = v.revision;
      verified = retire-verify lib k now s t v.revision v.verified h;
    };
    above = λ s' rev p w. ground (arith, v.verified);
  }

  collect_keys-Keeps :
      (ks : List ℕ) (now : Reading) (n : ℕ) (m : Memory)
      → IsSound lib capacity m
      → Keeps lib capacity m (collect_keys lib ks now n m).0
  unfolding collect_keys
  collect_keys-Keeps [] now n m h = same_entries-Keeps lib capacity m m h refl refl
  collect_keys-Keeps (k ∷ ks) now n m h =
      go (Option-cases (lookup k m.entries)) (λ i x. collect_keys-Keeps ks now i x)
    where
      retired :
          ((i : ℕ) (x : Memory)
            → IsSound lib capacity x
            → Keeps lib capacity x (collect_keys lib ks now i x).0)
          → (s : Stored) → lookup k m.entries ≡ some s
          → ((r : Option Stored) × (retire lib s k now ≡ ok r))
            ⊎ ((x : DiscoveryError) × (retire lib s k now ≡ err x))
          → Keeps lib capacity m (collect_keys lib (k ∷ ks) now n m).0
      retired ih s e (inr (x, r)) =
          rw (e, collect_keys, r) (same_entries-Keeps lib capacity m m h refl refl)
      retired ih s e (inl (none, r)) = rw (e, collect_keys, r) (ih n m h)
      retired ih s e (inl (some t, r)) =
          let c : CanReplace lib k (lookup k m.entries) t =
            rw e (retire-CanReplace now k s t (h.verified k s e) r) in
          let a = put_back-Keeps lib capacity k t m c h (inl (rw e refl)) in
          rw (e, collect_keys, r)
            (Keeps-trans lib capacity m _ _ a (ih (n + 1) (put_back k t m) a.sound))

      go :
          (lookup k m.entries ≡ none) ⊎ ((s : Stored) × (lookup k m.entries ≡ some s))
          → ((i : ℕ) (x : Memory)
              → IsSound lib capacity x
              → Keeps lib capacity x (collect_keys lib ks now i x).0)
          → Keeps lib capacity m (collect_keys lib (k ∷ ks) now n m).0
      go (inl e) ih = rw (e, collect_keys) (ih n m h)
      go (inr (s, e)) ih = retired ih s e (Result-cases (retire lib s k now))

  collect_at-Keeps :
      (now : Reading) (m : Memory)
      → IsSound lib capacity m
      → Keeps lib capacity m (collect_at lib now m).0
  unfolding collect_at
  collect_at-Keeps now m h = go (Result-cases (observe 0 m.observed_wall now))
    where
      keys : List ℕ
      keys = take gc_batch (keys_after m.cursor m.entries)

      go :
          ((w : ℕ) × (observe 0 m.observed_wall now ≡ ok w))
            ⊎ ((x : DiscoveryError) × (observe 0 m.observed_wall now ≡ err x))
          → Keeps lib capacity m (collect_at lib now m).0
      go (inr (x, e)) = rw (e, collect_at) (same_entries-Keeps lib capacity m m h refl refl)
      go (inl (w, e)) =
          let n = record m {
            observed_wall = w;
            cursor = if length keys == gc_batch then last keys else none;
          } in
          let a = same_entries-Keeps lib capacity m n h refl refl in
          rw (e, collect_at)
            (Keeps-trans lib capacity m n _ a (collect_keys-Keeps keys now 0 n a.sound))

  step-Keeps : (c : Call) (m : Memory) → IsSound lib capacity m → Keeps lib capacity m (step c m)
  unfolding step
  step-Keeps (access key entry clock admit) m h = access_admitted-Keeps admit key entry clock m h
  step-Keeps (collect now) m h = collect_at-Keeps now m h

  -- A new store is sound.
  pub empty-IsSound : IsSound lib capacity empty
  empty-IsSound = record {
    sorted = tt;
    counted = refl;
    bounded = omega arith;
    verified = λ k s e. absurd (unfold lookup in cc);
  }

  -- From a sound store, any sequence of reads, publications, deletions and collections, at any clock
  -- readings and with any admission answers, keeps the store sound (keys in order, the live count exact, never more
  -- identities than the capacity, every stored value verifying under its key), forgets no identity
  -- and lowers the verified revision of none.
  pub run-Keeps :
      (cs : List Call) (m : Memory) → IsSound lib capacity m → Keeps lib capacity m (run cs m)
  unfolding run
  run-Keeps [] m h = same_entries-Keeps lib capacity m m h refl refl
  run-Keeps (c ∷ cs) m h =
      let a = step-Keeps c m h in
      Keeps-trans lib capacity m (step c m) (run cs (step c m)) a (run-Keeps cs (step c m) a.sound)
