-- ===== src/Desktop/MediaRepair.antt =====
-- crates/rds-desktop/src/media_repair.rs: the epoch of the media repair and the gate of its
-- independent picture, in one word. `state & ACTIVE != 0` is the lowest bit, `state & KEY_PENDING != 0`
-- the next, `state & !FLAGS` the word less its two lowest bits. One atomic update is one operation; a
-- permit's drop is two, `check` (the load and the `idr` flag) and `release` (`release_key`), so that
-- other operations can stand between. The permits held are kept under numbers; `idr` is the one flag
-- of the session. The wake-up of the writer is left out.
pub mod Gate
pub mod Steps
use remote_device_sync.Base.{
  ℕ, ◌+◌, ◌-◌, ◌/◌, ◌%◌, ◌^◌, Bool, true, false, ◌&&◌, not, Option, none, some, ◌==◌, if◌then◌else◌,
  [], is_some, checked_add,
}
use remote_device_sync.Base.Map.{Map, lookup, insert, remove}

-- `KeyPermit`; `checked` tells that its drop is under way.
pub record KeyPermit : Type 0 where
  pub generation : ℕ
  pub confirmed : Bool
  pub checked : Bool

pub record MediaRepair : Type 0 where
  pub state : ℕ
  pub requests : ℕ
  pub coalesced : ℕ
  pub idr : Bool
  pub permits : Map KeyPermit

pub data Request : Type 0 where
  accepted coalesced exhausted : Request

abbrev pub generation_of : ℕ → ℕ
generation_of w = w - w % 4

abbrev pub is_key_pending : ℕ → Bool
is_key_pending w = w / 2 % 2 == 1

abbrev pub is_active : ℕ → Bool
is_active w = w % 2 == 1

-- `w | ACTIVE`, `w | KEY_PENDING`, and the same bits cleared.
abbrev pub set_active : ℕ → ℕ
set_active w = if is_active w then w else w + 1

abbrev pub set_key_pending : ℕ → ℕ
set_key_pending w = if is_key_pending w then w else w + 2

abbrev pub clear_active : ℕ → ℕ
clear_active w = if is_active w then w - 1 else w

abbrev pub clear_key_pending : ℕ → ℕ
clear_key_pending w = if is_key_pending w then w - 2 else w

-- `MediaRepair::new`.
abbrev pub new : MediaRepair
new = record { state = 0; requests = 0; coalesced = 0; idr = false; permits = [] }

-- The update that `request` tries.
unfoldable pub next_epoch : ℕ → Option ℕ
next_epoch w = if is_active w then none else elim (checked_add (generation_of w) 4) [
  | none ↦ none
  | some epoch ↦ some (set_active epoch)
]

unfoldable pub request : MediaRepair → MediaRepair × Request
request r = elim (next_epoch r.state) [
  | some w ↦ (record r { state = w; requests = (r.requests + 1) % 2 ^ 64 }, accepted)
  | none ↦
      if is_active r.state
      then (record r { coalesced = (r.coalesced + 1) % 2 ^ 64 }, Request.coalesced)
      else (r, exhausted)
]

-- `key`; the permit is kept under the number `k`, which is free.
unfoldable pub key : ℕ → ℕ → MediaRepair → MediaRepair × Bool
key k generation r =
    if generation_of r.state == generation
      && not (is_key_pending r.state)
      && not (is_some (lookup k r.permits))
    then (
      record r {
        state = set_key_pending r.state;
        permits =
            insert k (record { generation = generation; confirmed = false; checked = false })
              r.permits;
      },
      true,
    )
    else (r, false)

-- The holder marks the picture as confirmed.
unfoldable pub confirm : ℕ → MediaRepair → MediaRepair
confirm k r = elim (lookup k r.permits) [
  | none ↦ r
  | some p ↦ record r { permits = insert k (record p { confirmed = true }) r.permits }
]

-- The first part of the drop: a permit of another epoch goes at once.
unfoldable pub check : ℕ → MediaRepair → MediaRepair
check k r = elim (lookup k r.permits) [
  | none ↦ r
  | some p ↦
      if p.checked
      then r
      else if generation_of r.state == p.generation
      then record r {
        idr = if p.confirmed then r.idr else true;
        permits = insert k (record p { checked = true }) r.permits;
      }
      else record r { permits = remove k r.permits }
]

-- The update of `release_key`.
unfoldable pub release_key : ℕ → Bool → ℕ → ℕ
release_key generation confirmed w =
    if generation_of w == generation
    then (let cleared = clear_key_pending w in if confirmed then clear_active cleared else cleared)
    else w

-- The second part of the drop.
unfoldable pub release : ℕ → MediaRepair → MediaRepair
release k r = elim (lookup k r.permits) [
  | none ↦ r
  | some p ↦
      if p.checked
      then record r {
        state = release_key p.generation p.confirmed r.state;
        permits = remove k r.permits;
      }
      else r
]

-- The producer takes the flag.
unfoldable pub take_idr : MediaRepair → MediaRepair
take_idr r = record r { idr = false }

pub data Operation : Type 0 where
  request_op take_op : Operation
  key_op : ℕ → ℕ → Operation
  confirm_op check_op release_op : ℕ → Operation

unfoldable pub step : Operation → MediaRepair → MediaRepair
step request_op r = (request r).0
step take_op r = take_idr r
step (key_op k g) r = (key k g r).0
step (confirm_op k) r = confirm k r
step (check_op k) r = check k r
step (release_op k) r = release k r
