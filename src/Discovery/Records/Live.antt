-- ===== src/Discovery/Records/Live.antt =====
-- What the record store (crates/rds-discovery/src/records/entry.rs) reads and acknowledges: only a
-- value whose lease is valid at that moment.
use remote_device_sync.Base.{
  ℕ, ◌≡◌, refl, ◌⊎◌, inl, inr, true, false, Option, some, none, ok, err, ok_or, ◌>>=◌, >>=-eq-ok,
  Result-cases, Option-cases, arith, ap, ◌∙◌,
}
use remote_device_sync.Discovery.{DiscoveryError}
use remote_device_sync.Discovery.Clock
use remote_device_sync.Discovery.Clock.{Reading, Lease}
use remote_device_sync.Discovery.Wire.{EndpointRecord, Entry, published, deleted, Libraries}
use remote_device_sync.Discovery.Records.{
  Stored, active, retired, Decision, traverse, flatten, or_else, retire, answer, decide, read,
}
use remote_device_sync.Discovery.Records.Decide.{retire-inactive}

module _ (lib : Libraries) (key : ℕ) (now : Reading) where
  pub retire-parts :
      (old : Option Stored) (incoming : Option Entry) (d : Decision)
      → decide lib old incoming key now ≡ ok d
      → (r : Option (Option Stored)) × (traverse (λ s. retire lib s key now) old ≡ ok r)
        × (answer lib old incoming key now r ≡ ok d)
  unfolding decide
  retire-parts old incoming d h =
      >>=-eq-ok (traverse (λ s. retire lib s key now) old) (answer lib old incoming key now) h

  -- An active value that is current after retirement is the stored one, and its lease is valid.
  pub current-valid :
      (old : Option Stored) (r : Option (Option Stored)) (e : Entry) (l : Lease)
      → traverse (λ s. retire lib s key now) old ≡ ok r
      → or_else (flatten r) old ≡ some (active e l)
      → (old ≡ some (active e l)) × (Clock.valid_at l now ≡ true) × (flatten r ≡ none)
  current-valid none r e l h c = absurd (ground arith)
  current-valid (some s) r e l h c = go (Result-cases (retire lib s key now))
    where
      go :
          ((q : Option Stored) × (retire lib s key now ≡ ok q))
            ⊎ ((x : DiscoveryError) × (retire lib s key now ≡ err x))
          → (some s ≡ some (active e l)) × (Clock.valid_at l now ≡ true) × (flatten r ≡ none)
      go (inr (x, p)) = absurd (ground arith)
      go (inl (some t, p)) =
          let (n, _) = retire-inactive lib key now s (some t) p in absurd (ground (arith, n))
      go (inl (none, p)) =
          let (_, v) = retire-inactive lib key now s none p in
          let same : s ≡ active e l = ground arith in (ap some same, v refl e l same, ground arith)

  read-record :
      (s : Stored) (rec : EndpointRecord)
      → read s ≡ ok (some rec)
      → (l : Lease) × (s ≡ active (published rec) l)
  read-record (active (published r) l) rec h = (l, ground arith)
  read-record (active (deleted r) l) rec h = absurd (cc)
  read-record (retired x y true) rec h = absurd (cc)
  read-record (retired x y false) rec h = absurd (cc)

  -- A read that returns a record returns the stored one, under a lease valid at that moment, and
  -- decides on no replacement of what is stored.
  pub decide-read :
      (old : Option Stored) (d : Decision) (rec : EndpointRecord)
      → decide lib old none key now ≡ ok d
      → d.result ≡ ok (some rec)
      → ((l : Lease) × (old ≡ some (active (published rec) l)) × (Clock.valid_at l now ≡ true))
        × (d.replacement ≡ none)
  unfolding answer
  decide-read old d rec h a =
      let (r, p, q) = retire-parts old none d h in
      go r p (Option-cases (or_else (flatten r) old)) (ground (arith, q, a)) (ground (arith, q))
    where
      go :
          (r : Option (Option Stored))
          → traverse (λ s. retire lib s key now) old ≡ ok r
          → (or_else (flatten r) old ≡ none) ⊎ ((c : Stored) × (or_else (flatten r) old ≡ some c))
          → (ok_or (or_else (flatten r) old) DiscoveryError.not_found >>= read) ≡ ok (some rec)
          → d.replacement ≡ flatten r
          → ((l : Lease) × (old ≡ some (active (published rec) l)) × (Clock.valid_at l now ≡ true))
            × (d.replacement ≡ none)
      go r p (inl e) b u = absurd (ground arith)
      go r p (inr (c, e)) b u =
          let (l, f) = read-record c rec (ground arith) in
          let (o, v, n) = current-valid old r (published rec) l p (ground arith) in
          ((l, o, v), u ∙ n)
