-- ===== src/Discovery/Records/Decide.antt =====
-- What `decide` (crates/rds-discovery/src/records/entry.rs) does to the stored value of an identity.
use remote_device_sync.Base.{
  ℕ, ◌<◌, ◌≡◌, refl, ◌⊎◌, inl, inr, true, false, ltb, Bool-cases, is_some_and, Option, some, none,
  ok, err, >>=-eq-ok, Result-cases, arith,
}
use remote_device_sync.Discovery.{DiscoveryError}
use remote_device_sync.Discovery.Clock
use remote_device_sync.Discovery.Clock.{Reading, Lease}
use remote_device_sync.Discovery.RecordWire.{verify_record, verify_delete, metadata, validate}
use remote_device_sync.Discovery.Wire.{Entry, published, deleted, Libraries}
use remote_device_sync.Discovery.Records.{
  Stored, active, retired, Details, Decision, traverse, details, entry_digest, verify, retire,
  repeat, choose, compare, with_details, decide_put, is_deleted, is_active,
}

module _ (lib : Libraries) (key : ℕ) where
  details-key :
      (e : Entry) (d : Details)
      → details lib e key ≡ ok d
      → (lib.crypto.key_valid key ≡ true) × (0 < d.revision)
  unfolding details verify_record verify_delete metadata validate
  details-key (published r) d h = ground arith
  details-key (deleted r) d h = ground arith

  -- A stored value that verifies belongs to a valid key and has a positive revision.
  verify-key :
      (s : Stored) (rev : ℕ)
      → verify lib s key ≡ ok rev
      → (lib.crypto.key_valid key ≡ true) × (0 < rev)
  unfolding verify
  verify-key (retired r d x) rev h = ground arith
  verify-key (active e l) rev h = go (Result-cases (details lib e key))
    where
      go :
          ((d : Details) × (details lib e key ≡ ok d))
            ⊎ ((x : DiscoveryError) × (details lib e key ≡ err x))
          → (lib.crypto.key_valid key ≡ true) × (0 < rev)
      go (inl (d, q)) = ground (arith, details-key e d q)
      go (inr (x, q)) = absurd (ground arith)

  -- What retirement makes of an active value.
  pub record Retired (now : Reading) (e : Entry) (l : Lease) (t : Stored) : Type 0 where
    pub revision : ℕ
    pub digest_of : ℕ
    pub lapsed : Clock.valid_at l now ≡ false
    pub verified : verify lib (active e l) key ≡ ok revision
    pub digested : entry_digest lib e ≡ ok digest_of
    pub value : t ≡ retired revision digest_of (is_deleted e)

  pub retire-Retired :
      (now : Reading) (e : Entry) (l : Lease) (t : Stored)
      → retire lib (active e l) key now ≡ ok (some t)
      → Retired now e l t
  unfolding retire
  retire-Retired now e l t h =
      go (Result-cases (verify lib (active e l) key)) (Result-cases (entry_digest lib e))
    where
      go :
          ((r : ℕ) × (verify lib (active e l) key ≡ ok r))
            ⊎ ((x : DiscoveryError) × (verify lib (active e l) key ≡ err x))
          → ((d : ℕ) × (entry_digest lib e ≡ ok d))
            ⊎ ((x : DiscoveryError) × (entry_digest lib e ≡ err x))
          → Retired now e l t
      go (inl (r, p)) (inl (d, q)) = record {
        revision = r;
        digest_of = d;
        lapsed = ground arith;
        verified = p;
        digested = q;
        value = ground arith;
      }
      go (inr (x, p)) _ = absurd (ground arith)
      go (inl (r, p)) (inr (x, q)) = absurd (ground arith)

  -- Retirement keeps the revision floor.
  pub retire-verify :
      (now : Reading) (s t : Stored) (rev : ℕ)
      → verify lib s key ≡ ok rev
      → retire lib s key now ≡ ok (some t)
      → verify lib t key ≡ ok rev
  retire-verify now (retired r d x) t rev v h = absurd (unfold retire in cc)
  retire-verify now (active e l) t rev v h =
      let r = retire-Retired now e l t h in
      let k = verify-key (active e l) rev v in
      rw r.value (unfold verify in ground (arith, r.verified, v, k))

  retire-none :
      (now : Reading) (e : Entry) (l : Lease)
      → retire lib (active e l) key now ≡ ok none
      → Clock.valid_at l now ≡ true
  unfolding retire
  retire-none now e l h =
      go (Result-cases (verify lib (active e l) key)) (Result-cases (entry_digest lib e))
    where
      go :
          ((r : ℕ) × (verify lib (active e l) key ≡ ok r))
            ⊎ ((x : DiscoveryError) × (verify lib (active e l) key ≡ err x))
          → ((d : ℕ) × (entry_digest lib e ≡ ok d))
            ⊎ ((x : DiscoveryError) × (entry_digest lib e ≡ err x))
          → Clock.valid_at l now ≡ true
      go (inl (r, p)) (inl (d, q)) = ground arith
      go (inl (r, p)) (inr (x, q)) = ground arith
      go (inr (x, p)) _ = ground arith

  -- What retirement produces is no longer active, and what it retires was active under a lease that
  -- is not valid; a value that it leaves alone is retired already or still valid.
  pub retire-inactive :
      (now : Reading) (s : Stored) (r : Option Stored)
      → retire lib s key now ≡ ok r
      → (is_some_and r is_active ≡ false)
        × (r ≡ none → (e : Entry) (l : Lease) → s ≡ active e l → Clock.valid_at l now ≡ true)
  unfolding retire
  retire-inactive now (retired x d y) r h = (ground arith, λ n e l q. absurd (cc))
  retire-inactive now (active e l) none h =
      (refl, λ n e' l' q. ground (arith, retire-none now e l h))
  retire-inactive now (active e l) (some t) h =
      let r = retire-Retired now e l t h in (rw r.value, λ n. absurd (cc))

  -- The incoming entry is stored: it verifies, its lease is new, and its revision is higher than the
  -- verified revision of what was stored.
  pub record Accepted (current : Option Stored) (entry : Entry) (now : Reading) (d : Decision)
      : Type 0 where
    pub of_entry : Details
    pub lease : Lease
    pub previous : Option ℕ
    pub entry_details : details lib entry key ≡ ok of_entry
    pub fresh : Clock.new of_entry.issued of_entry.expires now ≡ ok lease
    pub verified : traverse (λ s. verify lib s key) current ≡ ok previous
    pub higher : (p : ℕ) → previous ≡ some p → p < of_entry.revision
    pub stored : d.replacement ≡ some (active entry lease)
    pub answer : d.result ≡ ok none

  choose-outcome :
      (retired_now current : Option Stored) (entry : Entry) (rev : ℕ) (l : Lease)
      (previous : Option ℕ) (d : Decision)
      → choose lib retired_now current entry rev l previous ≡ ok d
      → (((p : ℕ) → previous ≡ some p → p < rev)
          × (d.replacement ≡ some (active entry l))
          × (d.result ≡ ok none))
        ⊎ ((d.replacement ≡ retired_now) × (repeat lib current entry rev previous ≡ ok d.result))
  unfolding choose
  choose-outcome retired_now current entry rev l none d h =
      inl (λ p e. absurd (cc), ground arith, ground arith)
  choose-outcome retired_now current entry rev l (some q) d h =
      go (Bool-cases (ltb q rev)) (Result-cases (repeat lib current entry rev (some q)))
    where
      go :
          ((ltb q rev ≡ true) ⊎ (ltb q rev ≡ false))
          → ((r : _) × (repeat lib current entry rev (some q) ≡ ok r))
            ⊎ ((x : DiscoveryError) × (repeat lib current entry rev (some q) ≡ err x))
          → (((p : ℕ) → some q ≡ some p → p < rev)
              × (d.replacement ≡ some (active entry l))
              × (d.result ≡ ok none))
            ⊎ ((d.replacement ≡ retired_now)
                × (repeat lib current entry rev (some q) ≡ ok d.result))
      go (inl e) _ = inl (λ p f. ground arith, ground arith, ground arith)
      go (inr e) (inl (r, f)) = inr (ground arith, ground arith)
      go (inr e) (inr (x, f)) = absurd (ground arith)

  -- The incoming entry is not stored: what `decide` answers then.
  pub record Repeated (current : Option Stored) (entry : Entry) (d : Decision) : Type 0 where
    pub of_entry : Details
    pub previous : Option ℕ
    pub entry_details : details lib entry key ≡ ok of_entry
    pub verified : traverse (λ s. verify lib s key) current ≡ ok previous
    pub compared : repeat lib current entry of_entry.revision previous ≡ ok d.result

  -- `decide` on an incoming entry: it is stored, or it is compared, or it gets no lease. In the last
  -- two cases the retirement of the old value is all that changes.
  pub data Outcome (retired_now current : Option Stored) (entry : Entry) (now : Reading)
      (d : Decision) : Type 0 where
    accepted : Accepted current entry now d → Outcome retired_now current entry now d
    repeated :
        Repeated current entry d
        → d.replacement ≡ retired_now
        → Outcome retired_now current entry now d
    no_lease :
        (x : DiscoveryError)
        → d.result ≡ err x
        → d.replacement ≡ retired_now
        → Outcome retired_now current entry now d

  module _ (retired_now current : Option Stored) (entry : Entry) (now : Reading)
      (d : Decision) where
    compare-Outcome :
        (dd : Details) (l : Lease)
        → details lib entry key ≡ ok dd
        → Clock.new dd.issued dd.expires now ≡ ok l
        → compare lib retired_now current entry dd.revision key l ≡ ok d
        → Outcome retired_now current entry now d
    unfolding compare
    compare-Outcome dd l p q h =
        let (previous, v, c) =
          >>=-eq-ok (traverse (λ s. verify lib s key) current)
            (choose lib retired_now current entry dd.revision l) h in
        elim (choose-outcome retired_now current entry dd.revision l previous d c) [
          | inl (a, b, e) ↦ accepted (record {
            of_entry = dd;
            lease = l;
            previous = previous;
            entry_details = p;
            fresh = q;
            verified = v;
            higher = a;
            stored = b;
            answer = e;
          })
          | inr (a, b) ↦
              repeated
                (record {
                  of_entry = dd;
                  previous = previous;
                  entry_details = p;
                  verified = v;
                  compared = b;
                })
                a
        ]

    with_details-Outcome :
        (dd : Details)
        → details lib entry key ≡ ok dd
        → with_details lib retired_now current entry key now dd ≡ ok d
        → Outcome retired_now current entry now d
    unfolding with_details
    with_details-Outcome dd p h = go (Result-cases (Clock.new dd.issued dd.expires now))
      where
        go :
            ((l : Lease) × (Clock.new dd.issued dd.expires now ≡ ok l))
              ⊎ ((x : DiscoveryError) × (Clock.new dd.issued dd.expires now ≡ err x))
            → Outcome retired_now current entry now d
        go (inl (l, q)) = compare-Outcome dd l p q (ground arith)
        go (inr (x, q)) = no_lease x (ground arith) (ground arith)

    pub decide_put-Outcome :
        decide_put lib retired_now current entry key now ≡ ok d
        → Outcome retired_now current entry now d
    unfolding decide_put
    decide_put-Outcome h =
        let (dd, p, q) =
          >>=-eq-ok (details lib entry key) (with_details lib retired_now current entry key now)
            h in
        with_details-Outcome dd p q
