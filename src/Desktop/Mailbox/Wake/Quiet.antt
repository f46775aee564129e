-- ===== src/Desktop/Mailbox/Wake/Quiet.antt =====
-- The receiver of crates/rds-desktop/src/mailbox.rs does not sleep over an item or over the end.
use remote_device_sync.Base.{
  ℕ, ◌+◌, ◌<◌, ◌%◌, ◌^◌, ◌≡◌, ◌≢◌, refl, ◌⊎◌, inl, inr, true, false, List, [], ◌∷◌, none, arith,
}
use remote_device_sync.Desktop.Mailbox.{clone, front, rest, try_recv}
use remote_device_sync.Desktop.Mailbox.Wake.{
  Notify, begun, popped, closing, waiting, returned, System, Step, Reachable,
}

module _ (notify : Notify) (A : Type 0) where
  -- Someone is about to notify, or the next poll is ready.
  abbrev IsAlert : System notify A → Type 0
  IsAlert s = (0 < s.pending) ⊎ ((notify.poll s.permits).1 ≡ true)

  -- What each place of the receiver says about the queue.
  record IsAwake (s : System notify A) : Type 0 where
    popped : s.place ≡ popped → (s.queue.items ≡ []) ⊎ IsAlert s
    closing : s.place ≡ closing → s.queue.senders ≡ 0
    waiting : s.place ≡ waiting → ((s.queue.items ≡ []) × (s.queue.senders ≢ 0)) ⊎ IsAlert s
    ended : s.place ≡ returned none → (s.queue.items ≡ []) × (s.queue.senders ≡ 0)

  -- A receiver outside the loop has nothing to show.
  begun-IsAwake : (s : System notify A) → s.place ≡ begun → IsAwake s
  begun-IsAwake s b = record {
    popped = λ p. absurd (ground arith);
    closing = λ p. absurd (ground arith);
    waiting = λ p. absurd (ground arith);
    ended = λ p. absurd (ground arith);
  }

  front_lem : (xs : List A) → front xs ≡ none → rest xs ≡ []
  front_lem [] h = refl
  front_lem (x ∷ xs) h = absurd (ground arith)

  clone_lem : (n : ℕ) → n + 1 < 2 ^ 64 → (n + 1) % 2 ^ 64 ≢ 0
  clone_lem n b z = absurd (omega arith)

  Step-IsAwake : (s t : System notify A) → IsAwake s → Step notify A s t → IsAwake t
  unfolding clone try_recv
  Step-IsAwake s t v (Step.sends x m) = record {
    popped = λ p. inr (inl (omega arith));
    closing = λ p. absurd (m (v.closing p));
    waiting = λ p. inr (inl (omega arith));
    ended = λ p. absurd (m (v.ended p).1);
  }
  Step-IsAwake s t v (Step.clones m b) = record {
    popped = λ p. v.popped p;
    closing = λ p. absurd (m (v.closing p));
    waiting = λ p. elim (v.waiting p) [
      | inl (i, _) ↦ inl (i, λ z. clone_lem s.queue.senders b z)
      | inr a ↦ inr a
    ];
    ended = λ p. absurd (m (v.ended p).1);
  }
  Step-IsAwake s t v (Step.leaves m) = record {
    popped = λ p. inr (inl (omega arith));
    closing = λ p. absurd (m (v.closing p));
    waiting = λ p. inr (inl (omega arith));
    ended = λ p. absurd (m (v.ended p).1);
  }
  Step-IsAwake s t v (Step.notifies n e) = record {
    popped = λ p. inr (inr (notify.notify_one-poll s.permits));
    closing = v.closing;
    waiting = λ p. inr (inr (notify.notify_one-poll s.permits));
    ended = v.ended;
  }
  Step-IsAwake s t v (Step.calls o e) = begun-IsAwake t refl
  Step-IsAwake s t v (Step.tries p) = begun-IsAwake t p
  Step-IsAwake s t v (Step.takes x b e) = record {
    popped = λ p. absurd (ground arith);
    closing = λ p. absurd (ground arith);
    waiting = λ p. absurd (ground arith);
    ended = λ p. absurd (ground arith);
  }
  Step-IsAwake s t v (Step.misses b e) = record {
    popped = λ p. inl (front_lem s.queue.items e);
    closing = λ p. absurd (ground arith);
    waiting = λ p. absurd (ground arith);
    ended = λ p. absurd (ground arith);
  }
  Step-IsAwake s t v (Step.finds_closed p z) = record {
    popped = λ p. absurd (ground arith);
    closing = λ p. z;
    waiting = λ p. absurd (ground arith);
    ended = λ p. absurd (ground arith);
  }
  Step-IsAwake s t v (Step.drains p) = record {
    popped = λ p. absurd (ground arith);
    closing = λ p. absurd (ground arith);
    waiting = λ p. absurd (ground arith);
    ended = λ e. (front_lem s.queue.items (ground arith), v.closing p);
  }
  Step-IsAwake s t v (Step.awaits p m) = record {
    popped = λ q. absurd (ground arith);
    closing = λ q. absurd (ground arith);
    waiting = λ q. elim (v.popped p) [ inl i ↦ inl (i, m) | inr a ↦ inr a ];
    ended = λ q. absurd (ground arith);
  }
  Step-IsAwake s t v (Step.cancels p) = begun-IsAwake t refl
  Step-IsAwake s t v (Step.wakes p w) = begun-IsAwake t refl
  Step-IsAwake s t v (Step.sleeps p w) = record {
    popped = λ q. absurd (ground arith);
    closing = v.closing;
    waiting = λ q. elim (v.waiting p) [
      | inl i ↦ inl i
      | inr (inl a) ↦ inr (inl a)
      | inr (inr r) ↦ absurd (ground arith)
    ];
    ended = v.ended;
  }

  Reachable-IsAwake :
      (capacity : ℕ) (s : System notify A) → Reachable notify A capacity s → IsAwake s
  Reachable-IsAwake capacity s Reachable.at_start = begun-IsAwake s refl
  Reachable-IsAwake capacity s (Reachable.after r _ h t) =
      Step-IsAwake r s (Reachable-IsAwake capacity r h) t

  -- In every order of the threads' steps: a receiver that waits while no thread is about to notify and
  -- no notification is left to take has nothing to take and still has a sender. So it does not sleep
  -- over an item, nor over the last sender's leaving.
  pub Reachable-quiet :
      (capacity : ℕ) (s : System notify A)
      → Reachable notify A capacity s
      → s.place ≡ waiting
      → s.pending ≡ 0
      → (notify.poll s.permits).1 ≡ false
      → (s.queue.items ≡ []) × (s.queue.senders ≢ 0)
  Reachable-quiet capacity s h w z f = elim ((Reachable-IsAwake capacity s h).waiting w) [
    | inl i ↦ i
    | inr (inl a) ↦ absurd (omega arith)
    | inr (inr r) ↦ absurd (ground arith)
  ]

  -- In every order of the threads' steps: a `recv` that has returned nothing has left nothing behind,
  -- and no sender is left.
  pub Reachable-ended :
      (capacity : ℕ) (s : System notify A)
      → Reachable notify A capacity s
      → s.place ≡ returned none
      → (s.queue.items ≡ []) × (s.queue.senders ≡ 0)
  Reachable-ended capacity s h e = (Reachable-IsAwake capacity s h).ended e
