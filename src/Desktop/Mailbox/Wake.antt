-- ===== src/Desktop/Mailbox/Wake.antt =====
-- `recv` of crates/rds-desktop/src/mailbox.rs beside senders in other threads: each locked block, each
-- access of the counter and each call of tokio's `Notify` is one step, in any order.
pub mod Quiet
use remote_device_sync.Base.{
  ℕ, suc, ◌+◌, ◌<◌, ◌^◌, ◌≡◌, ◌≢◌, Bool, true, false, List, [], ◌∷◌, Option, none, some,
}
use remote_device_sync.Desktop.Mailbox.{Queue, channel, clone, leave, front, try_recv, send}

-- What the queue uses of `tokio::sync::Notify` with one waiting task: `notify_one`, and whether the
-- future of `notified` is ready when it is polled. A notification is kept until a poll takes it.
pub record Notify : Type 1 where
  pub Permits : Type 0
  pub fresh : Permits
  pub notify_one : Permits → Permits
  pub poll : Permits → Permits × Bool
  pub notify_one-poll : (n : Permits) → (poll (notify_one n)).1 ≡ true

-- Where the receiver stands in the loop of `recv`: before the first pop or not in `recv`, after a pop
-- that found nothing, after it has read that no sender is left, at the await, and out of the loop.
pub data Place (A : Type 0) : Type 0 where
  begun popped closing waiting : Place A
  returned : Option A → Place A

module _ (notify : Notify) (A : Type 0) where
  -- The shared state, the receiver's place, and how many senders stand between the change that they
  -- have made and their call of `notify_one`.
  pub record System : Type 0 where
    pub queue : Queue A
    pub permits : notify.Permits
    pub place : Place A
    pub pending : ℕ

  abbrev pub start : ℕ → System
  start capacity = record {
    queue = channel capacity;
    permits = notify.fresh;
    place = begun;
    pending = 0;
  }

  -- One step of some thread. A sender acts through a handle, so the count is not 0; fewer than
  -- 2 ^ 64 handles fit in memory.
  pub data Step (s : System) : System → Type 0 where
    sends :
        (x : A)
        → s.queue.senders ≢ 0
        → Step s (record s { queue = (send x s.queue).0; pending = suc s.pending })
    clones :
        s.queue.senders ≢ 0
        → s.queue.senders + 1 < 2 ^ 64
        → Step s (record s { queue = clone s.queue })
    leaves :
        s.queue.senders ≢ 0 → Step s (record s { queue = leave s.queue; pending = suc s.pending })
    notifies :
        (n : ℕ)
        → s.pending ≡ suc n
        → Step s (record s { permits = notify.notify_one s.permits; pending = n })
    calls : (o : Option A) → s.place ≡ returned o → Step s (record s { place = begun })
    -- `try_recv` between two calls of `recv`.
    tries : s.place ≡ begun → Step s (record s { queue = (try_recv s.queue).0 })
    takes :
        (x : A)
        → s.place ≡ begun
        → (try_recv s.queue).1 ≡ some x
        → Step s (record s { queue = (try_recv s.queue).0; place = returned (some x) })
    misses :
        s.place ≡ begun
        → (try_recv s.queue).1 ≡ none
        → Step s (record s { queue = (try_recv s.queue).0; place = popped })
    finds_closed : s.place ≡ popped → s.queue.senders ≡ 0 → Step s (record s { place = closing })
    drains :
        s.place ≡ closing
        → Step s (record s { queue = (try_recv s.queue).0; place = returned (try_recv s.queue).1 })
    awaits : s.place ≡ popped → s.queue.senders ≢ 0 → Step s (record s { place = waiting })
    -- The future of `recv` is dropped at the await.
    cancels : s.place ≡ waiting → Step s (record s { place = begun })
    wakes :
        s.place ≡ waiting
        → (notify.poll s.permits).1 ≡ true
        → Step s (record s { permits = (notify.poll s.permits).0; place = begun })
    sleeps :
        s.place ≡ waiting
        → (notify.poll s.permits).1 ≡ false
        → Step s (record s { permits = (notify.poll s.permits).0 })

  pub data Reachable (capacity : ℕ) : System → Type 0 where
    at_start : Reachable capacity (start capacity)
    after : (s t : System) → Reachable capacity s → Step s t → Reachable capacity t
