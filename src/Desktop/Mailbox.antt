-- ===== src/Desktop/Mailbox.antt =====
-- crates/rds-desktop/src/mailbox.rs: the bounded queue in which the newest item wins. The lock makes
-- each block one step; `usize` counts senders and wraps around.
pub mod Log
pub mod Wake
mod Tests
use remote_device_sync.Base.{
  ℕ, ◌+◌, ◌-◌, ◌%◌, ◌^◌, List, [], ◌∷◌, ◌++◌, Option, none, some, leb, if◌then◌else◌, length, max,
}

pub record Queue {ℓ} (A : Type ℓ) : Type ℓ where
  pub items : List A
  pub capacity : ℕ
  pub senders : ℕ

module _ {ℓ} {A : Type ℓ} where
  -- `channel`: a queue with one sender.
  unfoldable pub channel : ℕ → Queue A
  channel capacity = record { items = []; capacity = max capacity 1; senders = 1 }

  -- `Sender::clone`: `fetch_add`.
  unfoldable pub clone : Queue A → Queue A
  clone q = record q { senders = (q.senders + 1) % 2 ^ 64 }

  -- The count of `Sender::drop`: `fetch_sub`.
  unfoldable pub leave : Queue A → Queue A
  leave q = record q { senders = (q.senders + (2 ^ 64 - 1)) % 2 ^ 64 }

  -- `VecDeque::pop_front`.
  abbrev pub front : List A → Option A
  front [] = none
  front (x ∷ xs) = some x

  abbrev pub rest : List A → List A
  rest [] = []
  rest (x ∷ xs) = xs

  -- `try_recv`, and the pops of `recv`.
  unfoldable pub try_recv : Queue A → Queue A × Option A
  try_recv q = (record q { items = rest q.items }, front q.items)

  -- The locked block of `send`, with the evicted item.
  unfoldable pub send : A → Queue A → Queue A × Option A
  send x q =
      if leb q.capacity (length q.items)
      then (record q { items = rest q.items ++ (x ∷ []) }, front q.items)
      else (record q { items = q.items ++ (x ∷ []) }, none)
