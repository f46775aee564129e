-- ===== src/Discovery/Records/Acknowledge.antt =====
-- What a successful publication or deletion means in the record store
-- (crates/rds-discovery/src/records/entry.rs): a new lease, or the exact retry of a live one.
use remote_device_sync.Base.{
  ℕ, ◌≡◌, refl, ◌⊎◌, inl, inr, true, Option, some, none, ok, err, Result-cases, arith, ap, ◌∙◌,
}
use remote_device_sync.Discovery.{DiscoveryError}
use remote_device_sync.Discovery.Clock
use remote_device_sync.Discovery.Clock.{Reading, Lease}
use remote_device_sync.Discovery.Clock.Laws.{new-valid_at}
use remote_device_sync.Discovery.Wire.{Entry, Libraries}
use remote_device_sync.Discovery.Records.{
  Stored, active, retired, Details, Decision, traverse, flatten, or_else, details, entry_digest,
  digest, retire, repeat, answer, decide,
}
use remote_device_sync.Discovery.Records.Decide.{
  Outcome, accepted, repeated, no_lease, decide_put-Outcome,
}
use remote_device_sync.Discovery.Records.Live.{retire-parts, current-valid}

module _ (lib : Libraries) where
  -- An entry that is acknowledged without being stored is, by its digest, the active one at hand.
  record IsRetry (current : Option Stored) (entry : Entry) (revision : ℕ) (previous : Option ℕ)
      : Type 0 where
    held : Entry
    lease : Lease
    content : ℕ
    stands : current ≡ some (active held lease)
    same_revision : previous ≡ some revision
    digest_of_held : entry_digest lib held ≡ ok content
    digest_of_entry : entry_digest lib entry ≡ ok content

  repeat-IsRetry :
      (current : Option Stored) (entry : Entry) (revision : ℕ) (previous : Option ℕ)
      → repeat lib current entry revision previous ≡ ok (ok none)
      → IsRetry current entry revision previous
  unfolding repeat digest
  repeat-IsRetry none entry revision previous h = absurd (cc)
  repeat-IsRetry (some (retired r x y)) entry revision previous h =
      absurd (go (Result-cases (entry_digest lib entry)))
    where
      go :
          ((a : ℕ) × (entry_digest lib entry ≡ ok a))
            ⊎ ((b : DiscoveryError) × (entry_digest lib entry ≡ err b))
          → ⊥
      go (inl (a, p)) = ground arith
      go (inr (b, p)) = ground arith
  repeat-IsRetry (some (active e l)) entry revision previous h =
      go (Result-cases (entry_digest lib e)) (Result-cases (entry_digest lib entry))
    where
      go :
          ((a : ℕ) × (entry_digest lib e ≡ ok a))
            ⊎ ((b : DiscoveryError) × (entry_digest lib e ≡ err b))
          → ((a : ℕ) × (entry_digest lib entry ≡ ok a))
            ⊎ ((b : DiscoveryError) × (entry_digest lib entry ≡ err b))
          → IsRetry (some (active e l)) entry revision previous
      go (inl (a, p)) (inl (b, q)) = record {
        held = e;
        lease = l;
        content = a;
        stands = refl;
        same_revision = ground arith;
        digest_of_held = p;
        digest_of_entry = ground arith;
      }
      go (inl (a, p)) (inr (b, q)) = absurd (ground arith)
      go (inr (a, p)) _ = absurd (ground arith)

  -- The operation was stored under a lease that is valid now and ends with the signed interval.
  pub record IsStored (key : ℕ) (entry : Entry) (now : Reading) (d : Decision) : Type 0 where
    pub of_entry : Details
    pub lease : Lease
    pub signed : details lib entry key ≡ ok of_entry
    pub stored : d.replacement ≡ some (active entry lease)
    pub valid : Clock.valid_at lease now ≡ true
    pub matching : Clock.matches_interval lease of_entry.issued of_entry.expires ≡ true

  -- The operation was stored before: the same bytes by digest, under a lease that is still valid.
  pub record IsHeld (key : ℕ) (old : Option Stored) (entry : Entry) (now : Reading) : Type 0 where
    pub held : Entry
    pub lease : Lease
    pub content : ℕ
    pub stands : old ≡ some (active held lease)
    pub valid : Clock.valid_at lease now ≡ true
    pub digest_of_held : entry_digest lib held ≡ ok content
    pub digest_of_entry : entry_digest lib entry ≡ ok content

  module _ (key : ℕ) (now : Reading) (old : Option Stored) (entry : Entry) (d : Decision) where
    outcome :
        (r : Option (Option Stored))
        → traverse (λ s. retire lib s key now) old ≡ ok r
        → d.result ≡ ok none
        → Outcome lib key (flatten r) (or_else (flatten r) old) entry now d
        → IsStored key entry now d ⊎ IsHeld key old entry now
    outcome r p a (accepted x) =
        let (v, m, _) = new-valid_at x.of_entry.issued x.of_entry.expires now x.lease x.fresh in
        inl (record {
          of_entry = x.of_entry;
          lease = x.lease;
          signed = x.entry_details;
          stored = x.stored;
          valid = v;
          matching = m;
        })
    outcome r p a (repeated x k) =
        let t = repeat-IsRetry _ entry x.of_entry.revision x.previous (x.compared ∙ ap ok a) in
        let (o, v, _) = current-valid lib key now old r t.held t.lease p t.stands in
        inr (record {
          held = t.held;
          lease = t.lease;
          content = t.content;
          stands = o;
          valid = v;
          digest_of_held = t.digest_of_held;
          digest_of_entry = t.digest_of_entry;
        })
    outcome r p a (no_lease x e k) = absurd (cc)

    -- A publication or deletion that succeeds either is stored under a new lease, which is valid now
    -- and agrees with the signed interval, or repeats, by its digest, an entry that is stored under
    -- a lease still valid.
    pub decide-acknowledged :
        decide lib old (some entry) key now ≡ ok d
        → d.result ≡ ok none
        → IsStored key entry now d ⊎ IsHeld key old entry now
    unfolding answer
    decide-acknowledged h a =
        let (r, p, q) = retire-parts lib key now old (some entry) d h in
        outcome r p a
          (decide_put-Outcome lib key (flatten r) (or_else (flatten r) old) entry now d q)
