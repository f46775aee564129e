-- ===== src/Desktop/Mailbox/Tests.antt =====
-- Runs of the queue of crates/rds-desktop/src/mailbox.rs, with one flag for tokio's `Notify`.
use remote_device_sync.Base.{
  ℕ, ◌≡◌, ◌≢◌, refl, Bool, true, false, List, [], ◌∷◌, none, some, max, arith,
}
use remote_device_sync.Desktop.Mailbox.{channel, leave, try_recv, send}
use remote_device_sync.Desktop.Mailbox.Log.{
  Op, put, take, step, outputs, log_outputs, outputs-log_outputs,
}
use remote_device_sync.Desktop.Mailbox.Wake.{Notify, waiting, returned, System, Step, Reachable}
use remote_device_sync.Desktop.Mailbox.Wake.Quiet.{Reachable-quiet, Reachable-ended}

-- Three sends into a queue of two, and three receives: the first item is evicted.
abbrev ops : List (Op ℕ)
ops = put 1 ∷ put 2 ∷ put 3 ∷ take ∷ take ∷ take ∷ []

ops_evict : outputs ops (channel 2) ≡ none ∷ none ∷ some 1 ∷ some 2 ∷ some 3 ∷ none ∷ []
unfolding outputs step send try_recv channel
ops_evict = refl

outputs-log_outputs_example :
    outputs ops (channel 2) ≡ log_outputs (max 2 1) ops (record { sent = []; gone = 0 })
outputs-log_outputs_example = outputs-log_outputs 2 ops

abbrev flag : Notify
flag = record {
  Permits = Bool;
  fresh = false;
  notify_one = λ n. true;
  poll = λ n. (false, n);
  notify_one-poll = λ n. refl;
}

-- A send that notifies, a receive, and a receiver that comes back and waits.
abbrev idle : System flag ℕ
idle = record { queue = channel 2; permits = false; place = waiting; pending = 0 }

idle_reached : Reachable flag ℕ 2 idle
unfolding channel send try_recv
idle_reached =
    Reachable.after _ _
      (Reachable.after _ _
        (Reachable.after _ _
          (Reachable.after _ _
            (Reachable.after _ _
              (Reachable.after _ _
                (Reachable.after _ _
                  (Reachable.after _ _
                    (Reachable.after _ _ Reachable.at_start (Step.sends 5 (omega arith)))
                    (Step.notifies 0 refl))
                  (Step.takes 5 refl refl))
                (Step.calls (some 5) refl))
              (Step.misses refl refl))
            (Step.awaits refl (omega arith)))
          (Step.wakes refl refl))
        (Step.misses refl refl))
      (Step.awaits refl (omega arith))

Reachable-quiet_example : (idle.queue.items ≡ []) × (idle.queue.senders ≢ 0)
Reachable-quiet_example = Reachable-quiet flag ℕ 2 idle idle_reached refl refl refl

-- The only sender leaves, and then the receiver reads the end.
abbrev over : System flag ℕ
over = record { queue = leave (channel 2); permits = true; place = returned none; pending = 0 }

over_reached : Reachable flag ℕ 2 over
unfolding channel leave try_recv
over_reached =
    Reachable.after _ _
      (Reachable.after _ _
        (Reachable.after _ _
          (Reachable.after _ _ (Reachable.after _ _ Reachable.at_start (Step.leaves (omega arith)))
            (Step.notifies 0 refl))
          (Step.misses refl refl))
        (Step.finds_closed refl refl))
      (Step.drains refl)

Reachable-ended_example : (over.queue.items ≡ []) × (over.queue.senders ≡ 0)
Reachable-ended_example = Reachable-ended flag ℕ 2 over over_reached refl
