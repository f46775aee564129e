-- ===== src/Discovery/Records/Memory.antt =====
-- crates/rds-discovery/src/records/memory.rs: the in-memory record store. The mutex makes each call
-- one step on `Memory`; the published metrics snapshot is left out. The clock's answer and the
-- caller's `admit` are arguments.
pub mod Sound
pub mod Floor
pub mod Steps
use remote_device_sync.Base.{
  ℕ, zero, suc, ◌+◌, ◌-◌, Bool, true, false, ◌&&◌, not, List, [], ◌∷◌, Option, none, some, ltb, leb,
  ◌==◌, if◌then◌else◌, length, take, is_some, is_some_and, b2n, Result, ok, err,
}
use remote_device_sync.Base.Map.{Map, lookup, insert}
use remote_device_sync.Discovery.{DiscoveryError, store, configuration}
use remote_device_sync.Discovery.Clock.{Reading}
use remote_device_sync.Discovery.Wire.{EndpointRecord, Entry, Libraries}
use remote_device_sync.Discovery.Records.{
  Stored, Decision, live, is_active, retire, decide, observe,
}

-- The operations are sealed behind this record of the store's state.
pub record Memory : Type 0 where
  pub entries : Map Stored
  pub observed_wall : ℕ
  pub live : ℕ
  pub cursor : Option ℕ

abbrev pub max_identities : ℕ
max_identities = 4096

abbrev pub gc_batch : ℕ
gc_batch = 64

abbrev pub empty : Memory
empty = record { entries = []; observed_wall = 0; live = 0; cursor = none }

-- `MemoryStore::with_capacity`: the capacity that the store is given.
unfoldable pub with_capacity : ℕ → Result DiscoveryError ℕ
with_capacity identities =
    if identities == 0
    then err configuration
    else if ltb max_identities identities
    then err configuration
    else ok identities

-- The lines that put a replacement in its place and keep the count of live records. The count is
-- a u64.
unfoldable pub put_back : ℕ → Stored → Memory → Memory
put_back key replacement m = record m {
  live = m.live - b2n (is_some_and (lookup key m.entries) live) + b2n (live replacement);
  entries = insert key replacement m.entries;
}

-- The keys above the cursor, in ascending order.
unfoldable pub keys_after : Option ℕ → Map Stored → List ℕ
keys_after cursor [] = []
keys_after cursor ((k, s) ∷ m) =
    let rest = keys_after cursor m in
    elim cursor [ none ↦ k ∷ rest | some c ↦ if ltb c k then k ∷ rest else rest ]

abbrev pub last : List ℕ → Option ℕ
last [] = none
last (k ∷ []) = some k
last (k ∷ j ∷ ks) = last (j ∷ ks)

module _ (lib : Libraries) where
  module _ (capacity : ℕ) (admit : Bool → Result DiscoveryError (Unit {0})) where
    -- What a decision changes: the body of `if let Some(replacement)`.
    unfoldable pub apply :
        ℕ → Decision → Memory → Memory × Result DiscoveryError (Option EndpointRecord)
    apply key d m = elim d.replacement [
      | none ↦ (m, d.result)
      | some t ↦
          let known = is_some (lookup key m.entries) in
          if not known && leb capacity (length m.entries)
          then (m, err store)
          else elim (if is_active t then admit known else ok tt) [
            | err e ↦ (m, err e)
            | ok u ↦ (put_back key t m, d.result)
          ]
    ]

    unfoldable pub access_at :
        ℕ → Option Entry → Reading → Memory → Memory × Result DiscoveryError (Option EndpointRecord)
    access_at key entry now m = elim (observe 0 m.observed_wall now) [
      | err e ↦ (m, err e)
      | ok wall ↦
          let m' = record m { observed_wall = wall } in
          elim (decide lib (lookup key m.entries) entry key now) [
            | err e ↦ (m', err e)
            | ok d ↦ apply key d m'
          ]
    ]

    -- `access_admitted`: a clock that cannot be read changes nothing.
    unfoldable pub access_admitted :
        ℕ
        → Option Entry
        → Result DiscoveryError Reading
        → Memory
        → Memory × Result DiscoveryError (Option EndpointRecord)
    access_admitted key entry clock m = elim clock [
      | err e ↦ (m, err e)
      | ok now ↦ access_at key entry now m
    ]

  -- The loop of `collect_at` over one batch of keys.
  unfoldable pub collect_keys : List ℕ → Reading → ℕ → Memory → Memory × Result DiscoveryError ℕ
  collect_keys [] now n m = (m, ok n)
  collect_keys (k ∷ ks) now n m = elim (lookup k m.entries) [
    | none ↦ collect_keys ks now n m
    | some s ↦ elim (retire lib s k now) [
      | err e ↦ (m, err e)
      | ok none ↦ collect_keys ks now n m
      | ok (some t) ↦ collect_keys ks now (n + 1) (put_back k t m)
    ]
  ]

  unfoldable pub collect_at : Reading → Memory → Memory × Result DiscoveryError ℕ
  collect_at now m = elim (observe 0 m.observed_wall now) [
    | err e ↦ (m, err e)
    | ok wall ↦
        let keys = take gc_batch (keys_after m.cursor m.entries) in
        let next = if length keys == gc_batch then last keys else none in
        collect_keys keys now 0 (record m { observed_wall = wall; cursor = next })
  ]
