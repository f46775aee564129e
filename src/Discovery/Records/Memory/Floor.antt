-- ===== src/Discovery/Records/Memory/Floor.antt =====
-- Each operation of the in-memory record store (crates/rds-discovery/src/records/memory.rs) keeps
-- its invariant and the revision floor of every identity.
use remote_device_sync.Base.{
  ℕ, ◌≤◌, ◌<◌, ◌≡◌, refl, ◌⊎◌, inl, inr, Bool, true, false, not, ◌&&◌, Option, some, none, leb,
  is_some, if◌then◌else◌, length, Result, ok, err, Result-cases, Option-cases, Bool-cases, arith,
  sym, ◌∙◌, subst,
}
use remote_device_sync.Base.Map.{lookup}
use remote_device_sync.Discovery.{DiscoveryError}
use mathlib.Core.Option.{some-injective}
use remote_device_sync.Discovery.Clock.{Reading}
use remote_device_sync.Discovery.Wire.{Entry, Libraries}
use remote_device_sync.Discovery.Records.{
  Stored, Decision, is_active, verify, decide, answer, flatten, or_else,
}
use remote_device_sync.Discovery.Records.Decide.{
  Outcome, accepted, repeated, no_lease, decide_put-Outcome,
}
use remote_device_sync.Discovery.Records.Floor.{Accepted-verify, decide-Advanced}
use remote_device_sync.Discovery.Records.Live.{retire-parts}
use remote_device_sync.Discovery.Records.Memory.{Memory, put_back, apply}
use remote_device_sync.Discovery.Records.Memory.Sound.{
  Verifies, IsSound, KeepsFloors, KeepsFloors-refl, KeepsFloors-trans, CanReplace,
  put_back-KeepsFloors, put_back-IsSound,
}

module _ (lib : Libraries) where
  -- What an operation does to a sound store.
  pub record Keeps (capacity : ℕ) (m n : Memory) : Type 0 where
    pub sound : IsSound lib capacity n
    pub floors : KeepsFloors lib m n

  pub old-CanReplace :
      (key : ℕ) (now : Reading) (incoming : Option Entry) (old : Option Stored) (d : Decision)
      (t : Stored)
      → ((s : Stored) → old ≡ some s → Verifies lib key s)
      → decide lib old incoming key now ≡ ok d
      → d.replacement ≡ some t
      → CanReplace lib key old t
  unfolding answer
  old-CanReplace key now incoming (some s) d t v h e =
      let o = v s refl in
      let a = decide-Advanced lib key now s o.revision o.verified incoming d t h e in
      record {
        verifies = record { revision = a.revision; verified = a.verified };
        above = λ s' rev p w. same_floor s' rev (some-injective s s' p) w o.verified a.floor;
      }
    where
      same_floor :
          (s' : Stored) (rev : ℕ)
          → s ≡ s'
          → verify lib s' key ≡ ok rev
          → {o r : ℕ} → verify lib s key ≡ ok o
          → o ≤ r
          → rev ≤ r
      same_floor s' rev p w q l = ground arith
  old-CanReplace key now none none d t v h e =
      let (r, p, q) = retire-parts lib key now none none d h in absurd (ground arith)
  old-CanReplace key now (some entry) none d t v h e =
      let (r, p, q) = retire-parts lib key now none (some entry) d h in
      go r (decide_put-Outcome lib key (flatten r) (or_else (flatten r) none) entry now d q)
        (ground arith)
    where
      go :
          (r : Option (Option Stored))
          → Outcome lib key (flatten r) (or_else (flatten r) none) entry now d
          → flatten r ≡ none
          → CanReplace lib key none t
      go r (accepted a) n =
          let same = sym a.stored ∙ e in
          record {
            verifies = record {
              revision = a.of_entry.revision;
              verified =
                  subst (λ x. verify lib x key ≡ ok a.of_entry.revision) (some-injective _ t same)
                    (Accepted-verify lib key now _ entry d a);
            };
            above = λ s rev x w. absurd (cc);
          }
      go r (repeated a k) n = absurd (ground arith)
      go r (no_lease x a k) n = absurd (ground arith)

  pub put_back-Keeps :
      (capacity key : ℕ) (t : Stored) (m : Memory)
      → CanReplace lib key (lookup key m.entries) t
      → IsSound lib capacity m
      → (is_some (lookup key m.entries) ≡ true) ⊎ (length m.entries < capacity)
      → Keeps capacity m (put_back key t m)
  put_back-Keeps capacity key t m c h room = record {
    sound = put_back-IsSound lib capacity key t m c h room;
    floors = put_back-KeepsFloors lib capacity key t m c;
  }

  pub same_entries-Keeps :
      (capacity : ℕ) (m n : Memory)
      → IsSound lib capacity m
      → m.entries ≡ n.entries
      → m.live ≡ n.live
      → Keeps capacity m n
  same_entries-Keeps capacity m n h e l = record {
    sound = record {
      sorted = rw (← e) h.sorted;
      counted = rw (← e, ← l) h.counted;
      bounded = rw (← e) h.bounded;
      verified = rw (← e) h.verified;
    };
    floors = KeepsFloors-refl lib m n e;
  }

  pub Keeps-trans :
      (capacity : ℕ) (m n o : Memory) → Keeps capacity m n → Keeps capacity n o → Keeps capacity m o
  Keeps-trans capacity m n o a b = record {
    sound = b.sound;
    floors = KeepsFloors-trans lib m n o a.floors b.floors;
  }

  module _ (capacity : ℕ) (admit : Bool → Result DiscoveryError (Unit {0})) where
    pub apply-Keeps :
        (key : ℕ) (d : Decision) (m : Memory)
        → IsSound lib capacity m
        → ((t : Stored) → d.replacement ≡ some t → CanReplace lib key (lookup key m.entries) t)
        → Keeps capacity m (apply lib capacity admit key d m).0
    unfolding apply
    apply-Keeps key d m h c = go (Option-cases d.replacement)
      where
        unchanged : Keeps capacity m m
        unchanged = same_entries-Keeps capacity m m h refl refl

        full : Bool
        full = not (is_some (lookup key m.entries)) && leb capacity (length m.entries)

        admitted : Stored → Result DiscoveryError (Unit {0})
        admitted t = if is_active t then admit (is_some (lookup key m.entries)) else ok tt

        room :
            full ≡ false → (is_some (lookup key m.entries) ≡ true) ⊎ (length m.entries < capacity)
        room e = ground arith

        placed :
            (t : Stored)
            → d.replacement ≡ some t
            → (full ≡ true) ⊎ (full ≡ false)
            → ((u : Unit {0}) × (admitted t ≡ ok u)) ⊎ ((x : DiscoveryError) × (admitted t ≡ err x))
            → Keeps capacity m (apply lib capacity admit key d m).0
        placed t e (inl f) _ = rw (e, f) unchanged
        placed t e (inr f) (inr (x, a)) = rw (e, f, a) unchanged
        placed t e (inr f) (inl (u, a)) =
            rw (e, f, a) (put_back-Keeps capacity key t m (c t e) h (room f))

        go :
            (d.replacement ≡ none) ⊎ ((t : Stored) × (d.replacement ≡ some t))
            → Keeps capacity m (apply lib capacity admit key d m).0
        go (inl e) = rw e unchanged
        go (inr (t, e)) = placed t e (Bool-cases full) (Result-cases (admitted t))
