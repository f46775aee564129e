-- ===== src/Discovery/Records.antt =====
-- crates/rds-discovery/src/records/entry.rs: the stored value of an identity, and the decision that
-- every access to a record store makes under its lock.
pub mod Decide
pub mod Floor
pub mod Live
pub mod Acknowledge
pub mod Memory
use remote_device_sync.Base.{
  ℕ, Bool, true, false, ◌||◌, ◌&&◌, not, List, Option, none, some, ltb, ◌==◌, if◌then◌else◌,
  is_none_or, is_some_and, Result, ok, err, ensure, ok_or, map_ok, ◌>>=◌, ◌>>◌,
}
use remote_device_sync.Discovery.{DiscoveryError, bad_signature, expired, stale, not_found, store}
use remote_device_sync.Discovery.Clock
use remote_device_sync.Discovery.Clock.{Reading, Lease}
use remote_device_sync.Discovery.RecordWire.{verify_record, verify_delete}
use remote_device_sync.Discovery.Wire.{EndpointRecord, Entry, published, deleted, Libraries}

pub data Stored : Type 0 where
  active : Entry → Lease → Stored
  retired : ℕ → ℕ → Bool → Stored

-- The revision and the signed interval of an entry.
pub record Details : Type 0 where
  pub revision : ℕ
  pub issued : ℕ
  pub expires : ℕ

-- `Stored::live` and `Stored::accepted_wall`.
abbrev pub live : Stored → Bool
live (active (published r) l) = true
live _ = false

unfoldable pub accepted_wall : Stored → ℕ
accepted_wall (active e l) = l.accepted_wall
accepted_wall (retired revision digest d) = 0

abbrev pub is_deleted : Entry → Bool
is_deleted (published r) = false
is_deleted (deleted d) = true

abbrev pub is_active : Stored → Bool
is_active (active e l) = true
is_active (retired revision digest d) = false

-- `Stored::read`.
abbrev pub read : Stored → Result DiscoveryError (Option EndpointRecord)
read (active (published r) l) = ok (some r)
read (active (deleted d) l) = err not_found
read (retired revision digest true) = err not_found
read (retired revision digest false) = err expired

pub record Decision : Type 0 where
  pub replacement : Option Stored
  pub result : Result DiscoveryError (Option EndpointRecord)

-- `Option::map(f).transpose()`.
abbrev pub traverse :
    {A B : Type 0} → (A → Result DiscoveryError B) → Option A → Result DiscoveryError (Option B)
traverse f none = ok none
traverse f (some a) = map_ok some (f a)

-- `Option::flatten` and `Option::or`.
abbrev pub flatten : {A : Type 0} → Option (Option A) → Option A
flatten none = none
flatten (some o) = o

abbrev pub or_else : {A : Type 0} → Option A → Option A → Option A
or_else none o = o
or_else (some a) o = some a

module _ (lib : Libraries) where
  -- `Entry::details`.
  unfoldable pub details : Entry → ℕ → Result DiscoveryError Details
  details (published r) key = do
    p ← verify_record lib r
    ensure (p.key == key) bad_signature
    ok (record { revision = p.revision; issued = p.issued_at; expires = p.expires_at })
  details (deleted r) key = do
    p ← verify_delete lib r
    ensure (p.key == key) bad_signature
    ok (record { revision = p.revision; issued = p.issued_at; expires = p.expires_at })

  -- `Entry::digest`.
  unfoldable pub entry_digest : Entry → Result DiscoveryError ℕ
  entry_digest e = map_ok lib.crypto.hash (ok_or (lib.encode_entry e) store)

  -- `Stored::verify`: the revision.
  unfoldable pub verify : Stored → ℕ → Result DiscoveryError ℕ
  verify (active e l) key = do
    d ← details e key
    ensure (Clock.matches_interval l d.issued d.expires) store
    ok d.revision
  verify (retired revision digest d) key = do
    ensure (lib.crypto.key_valid key) bad_signature
    ensure (not (revision == 0)) store
    ok revision

  -- `Stored::digest`.
  unfoldable pub digest : Stored → Result DiscoveryError ℕ
  digest (active e l) = entry_digest e
  digest (retired revision d is_del) = ok d

  -- `Stored::retire`.
  unfoldable pub retire : Stored → ℕ → Reading → Result DiscoveryError (Option Stored)
  retire (retired revision d is_del) key now = ok none
  retire (active e l) key now = if Clock.valid_at l now then ok none else (do
    revision ← verify (active e l) key
    d ← entry_digest e
    ok (some (retired revision d (is_deleted e))))

  -- The part of `decide` for an incoming entry that is no higher revision.
  unfoldable pub repeat :
      Option Stored
      → Entry
      → ℕ
      → Option ℕ
      → Result DiscoveryError (Result DiscoveryError (Option EndpointRecord))
  repeat none entry revision previous = ok (err stale)
  repeat (some current) entry revision previous =
      if not (is_some_and previous (λ p. p == revision)) then ok (err stale) else (do
        d ← digest current
        e ← entry_digest entry
        ok (if d == e then (if is_active current then ok none else err expired) else err stale))

  -- The part of `decide` that compares the incoming revision with the previous one.
  unfoldable pub choose :
      Option Stored → Option Stored → Entry → ℕ → Lease → Option ℕ → Result DiscoveryError Decision
  choose retired_now current entry revision l previous =
      if is_none_or previous (λ p. ltb p revision)
      then ok (record { replacement = some (active entry l); result = ok none })
      else map_ok (λ r. record { replacement = retired_now; result = r })
          (repeat current entry revision previous)

  -- The part of `decide` after the incoming entry has got a lease.
  unfoldable pub compare :
      Option Stored → Option Stored → Entry → ℕ → ℕ → Lease → Result DiscoveryError Decision
  compare retired_now current entry revision key l =
      traverse (λ s. verify s key) current >>= choose retired_now current entry revision l

  -- An entry that gets no lease is refused, and the retirement stands.
  unfoldable pub with_details :
      Option Stored → Option Stored → Entry → ℕ → Reading → Details → Result DiscoveryError Decision
  with_details retired_now current entry key now d = elim (Clock.new d.issued d.expires now) [
    | ok l ↦ compare retired_now current entry d.revision key l
    | err e ↦ ok (record { replacement = retired_now; result = err e })
  ]

  -- The part of `decide` for an incoming entry. `current` is the stored value after retirement.
  unfoldable pub decide_put :
      Option Stored → Option Stored → Entry → ℕ → Reading → Result DiscoveryError Decision
  decide_put retired_now current entry key now =
      details entry key >>= with_details retired_now current entry key now

  -- `decide` after the retirement of the stored value.
  unfoldable pub answer :
      Option Stored
      → Option Entry
      → ℕ
      → Reading
      → Option (Option Stored)
      → Result DiscoveryError Decision
  answer old none key now r =
      let current = or_else (flatten r) old in
      ok (record { replacement = flatten r; result = ok_or current not_found >>= read })
  answer old (some entry) key now r = decide_put (flatten r) (or_else (flatten r) old) entry key now

  -- `decide`.
  unfoldable pub decide :
      Option Stored → Option Entry → ℕ → Reading → Result DiscoveryError Decision
  decide old incoming key now = traverse (λ s. retire s key now) old >>= answer old incoming key now

-- `observe`: the wall clock never goes back. The observed time is the state.
unfoldable pub observe : ℕ → ℕ → Reading → Result DiscoveryError ℕ
observe floor observed now =
    if ltb now.wall floor || ltb now.wall observed then err store else ok now.wall
