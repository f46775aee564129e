-- ===== src/Desktop/Order.antt =====
-- crates/rds-desktop/src/order.rs, `Ordered`: pictures put back in order of their numbers. A reading
-- of `Instant::now()` is the argument `now`, in nanoseconds; `blocked` is the reading kept.
pub mod Shrink
pub mod Bounded
pub mod Play
pub mod Runs
use remote_device_sync.Base.{
  ℕ, zero, suc, ◌+◌, ◌-◌, Bool, true, false, ◌&&◌, ◌||◌, Option, none, some, ltb, leb, ◌==◌,
  if◌then◌else◌, [], length, is_some, is_some_and, is_none_or, b2n, u64_max, checked_add,
}
use remote_device_sync.Base.Map.{Map, lookup, insert, remove, retain, pop_last}
use remote_device_sync.Desktop.{FrameHeader}

pub record Ordered (T : Type 0) : Type 0 where
  pub next : Option ℕ
  pub frames : Map (FrameHeader × T)
  pub blocked : Option ℕ

module _ {T : Type 0} where
  -- `Ordered::default`.
  abbrev pub default : Ordered T
  default = record { next = none; frames = []; blocked = none }

  -- `while self.frames.len() > limit { self.frames.pop_last(); }`.
  unfoldable pub shrink : ℕ → ℕ → Map (FrameHeader × T) → Map (FrameHeader × T)
  shrink zero limit m = m
  shrink (suc rounds) limit m =
      let rest = shrink rounds limit (pop_last m) in if ltb limit (length m) then rest else m

  -- A keyframe ahead of the expected number starts a new chain.
  abbrev pub restart : FrameHeader → Ordered T → Ordered T
  restart header o =
      if header.keyframe && is_none_or o.next (λ next. ltb next header.seq)
      then record {
        next = some header.seq;
        frames = retain (λ seq f. leb header.seq seq) o.frames;
        blocked = none;
      }
      else o

  abbrev pub limit_of : Option ℕ → Map (FrameHeader × T) → ℕ
  limit_of next m = 3 + b2n (is_some_and next (λ n. is_some (lookup n m)))

  -- The part of `push` after the two tests of the header.
  abbrev pub keep : ℕ → FrameHeader → T → Ordered T → Ordered T
  keep now header payload o =
      let m = insert header.seq (header, payload) o.frames in
      record {
        next = o.next;
        frames = shrink (length m) (limit_of o.next m) m;
        blocked = if is_some o.blocked then o.blocked else some now;
      }

  unfoldable pub push : ℕ → FrameHeader → T → Ordered T → Ordered T
  push now header payload o =
      if header.seq == u64_max || is_some_and o.next (λ next. ltb header.seq next)
      then o
      else keep now header payload (restart header o)

  unfoldable pub pop : ℕ → Ordered T → Ordered T × Option (FrameHeader × T)
  pop now o = elim o.next [
    | none ↦ (o, none)
    | some next ↦ elim (lookup next o.frames) [
      | none ↦ (o, none)
      | some frame ↦
          let rest = remove next o.frames in
          (
            record {
              next = checked_add next 1;
              frames = rest;
              blocked = if length rest == 0 then none else some now;
            },
            some frame,
          )
    ]
  ]

  unfoldable pub expire : ℕ → ℕ → Ordered T → Ordered T × Bool
  expire now timeout o =
      if is_some_and o.blocked (λ at. leb timeout (now - at)) then (default, true) else (o, false)
