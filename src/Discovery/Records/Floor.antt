-- ===== src/Discovery/Records/Floor.antt =====
-- Replay protection of the record store (crates/rds-discovery/src/records/entry.rs): the revision
-- floor of an identity never falls, and only a live lease is read or acknowledged.
use remote_device_sync.Base.{
  ℕ, ◌≤◌, ◌<◌, ◌≡◌, refl, ◌⊎◌, inl, inr, true, Option, some, none, ok, err, Result-cases, arith,
  sym, ◌∙◌,
}
use remote_device_sync.Discovery.{DiscoveryError}
use remote_device_sync.Discovery.Clock.{Reading}
use remote_device_sync.Discovery.Clock.Laws.{new-valid_at}
use remote_device_sync.Discovery.Wire.{Entry, Libraries}
use remote_device_sync.Discovery.Records.{
  Stored, active, Decision, flatten, or_else, verify, retire, answer, decide, is_active,
}
use remote_device_sync.Discovery.Records.Decide.{
  retire-verify, retire-inactive, Accepted, Outcome, accepted, repeated, no_lease,
  decide_put-Outcome,
}

module _ (lib : Libraries) (key : ℕ) (now : Reading) where
  -- The stored value after retirement.
  abbrev current_of : Option (Option Stored) → Option Stored → Option Stored
  current_of r old = or_else (flatten r) old

  pub Accepted-verify :
      (cur : Option Stored) (e : Entry) (d : Decision) (a : Accepted lib key cur e now d)
      → verify lib (active e a.lease) key ≡ ok a.of_entry.revision
  unfolding verify
  Accepted-verify cur e d a =
      let (_, m, _) = new-valid_at a.of_entry.issued a.of_entry.expires now a.lease a.fresh in
      rw a.entry_details (rw m)

  -- What `decide` did to a stored value of a verified revision.
  pub record Advanced (s : Stored) (rev : ℕ) (incoming : Option Entry) (t : Stored) : Type 0 where
    pub revision : ℕ
    pub verified : verify lib t key ≡ ok revision
    pub floor : rev ≤ revision
    pub grows : is_active t ≡ true → rev < revision

  module _ (s : Stored) (rev : ℕ) (v : verify lib s key ≡ ok rev) where
    retired-Advanced :
        (incoming : Option Entry) (r : Option Stored) (t : Stored)
        → retire lib s key now ≡ ok r
        → r ≡ some t
        → Advanced s rev incoming t
    retired-Advanced incoming r t h e = record {
      revision = rev;
      verified = retire-verify lib key now s t rev v (rw e at h);
      floor = omega arith;
      grows =
          λ a. let (n, _) = retire-inactive lib key now s (some t) (rw e at h) in absurd (cc (n));
    }

    -- The value that `decide` compares with has the old revision.
    current-verify :
        (r : Option Stored)
        → retire lib s key now ≡ ok r
        → (c : Stored) × (or_else r (some s) ≡ some c) × (verify lib c key ≡ ok rev)
    current-verify none h = (s, refl, v)
    current-verify (some t) h = (t, refl, retire-verify lib key now s t rev v h)

    Accepted-Advanced :
        (r : Option Stored) (e : Entry) (d : Decision) (t : Stored)
        → retire lib s key now ≡ ok r
        → Accepted lib key (or_else r (some s)) e now d
        → d.replacement ≡ some t
        → Advanced s rev (some e) t
    Accepted-Advanced r e d t h a m =
        let (c, p, q) = current-verify r h in
        let old : a.previous ≡ some rev = ground (arith, a.verified, p, q) in
        let same : t ≡ active e a.lease = ground (arith, a.stored) in
        record {
          revision = a.of_entry.revision;
          verified = rw same (Accepted-verify _ e d a);
          floor = omega (arith, a.higher rev old);
          grows = λ _. a.higher rev old;
        }

    put-Advanced :
        (r : Option Stored) (e : Entry) (d : Decision) (t : Stored)
        → retire lib s key now ≡ ok r
        → Outcome lib key r (or_else r (some s)) e now d
        → d.replacement ≡ some t
        → Advanced s rev (some e) t
    put-Advanced r e d t h (accepted a) m = Accepted-Advanced r e d t h a m
    put-Advanced r e d t h (repeated a k) m = retired-Advanced (some e) r t h (sym k ∙ m)
    put-Advanced r e d t h (no_lease x a k) m = retired-Advanced (some e) r t h (sym k ∙ m)

    decide-parts :
        (incoming : Option Entry) (d : Decision)
        → decide lib (some s) incoming key now ≡ ok d
        → (r : Option Stored) × (retire lib s key now ≡ ok r)
          × (answer lib (some s) incoming key now (some r) ≡ ok d)
    unfolding decide
    decide-parts incoming d h = go (Result-cases (retire lib s key now))
      where
        go :
            ((r : Option Stored) × (retire lib s key now ≡ ok r))
              ⊎ ((x : DiscoveryError) × (retire lib s key now ≡ err x))
            → (r : Option Stored) × (retire lib s key now ≡ ok r)
              × (answer lib (some s) incoming key now (some r) ≡ ok d)
        go (inl (r, e)) = (r, e, ground arith)
        go (inr (x, e)) = absurd (ground arith)

    -- Whatever is asked of a stored identity, by a read, a record or a deletion, what replaces the
    -- stored value verifies with a revision that is not below the old one, and above it if what
    -- replaces it is an active entry.
    pub decide-Advanced :
        (incoming : Option Entry) (d : Decision) (t : Stored)
        → decide lib (some s) incoming key now ≡ ok d
        → d.replacement ≡ some t
        → Advanced s rev incoming t
    unfolding answer
    decide-Advanced none d t h m =
        let (r, p, q) = decide-parts none d h in retired-Advanced none r t p (ground (arith, q, m))
    decide-Advanced (some e) d t h m =
        let (r, p, q) = decide-parts (some e) d h in
        put-Advanced r e d t p (decide_put-Outcome lib key r (or_else r (some s)) e now d q) m
