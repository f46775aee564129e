-- ===== src/Net/AckProgress/Stalled.antt =====
-- When a path counts as stalled (crates/rds-net/src/ack_progress.rs).
use remote_device_sync.Base.{
  ℕ, ◌+◌, ◌≤◌, ◌<◌, ◌≡◌, ◌⊎◌, inl, inr, true, List, [], ◌∷◌, none, some, All, arith,
}
use remote_device_sync.Net.AckProgress.{
  sent, ack, end_acks, stall_budget, stalled, Tracked, prepare, on_packet_sent, on_ack, on_end_acks,
  clone_box,
}

-- What the controller is told, with the time. The other callbacks only prepare it; a copy goes on in
-- its place after a migration.
pub data Event : Type 0 where
  packet_sent acked acks_ended : ℕ → ℕ → Event
  other cloned : ℕ → Event

abbrev pub time : Event → ℕ
time (Event.packet_sent t n) = t
time (Event.acked t n) = t
time (Event.acks_ended t n) = t
time (Event.other t) = t
time (Event.cloned t) = t

unfoldable pub step : Event → Tracked → Tracked
step (Event.packet_sent t bytes) = on_packet_sent t bytes
step (Event.acked t bytes) = on_ack t bytes
step (Event.acks_ended t in_flight) = on_end_acks t in_flight
step (Event.other t) = prepare
step (Event.cloned t) = clone_box

unfoldable pub run : List Event → Tracked → Tracked
run [] s = s
run (e ∷ es) s = run es (step e s)

-- The times never go back.
abbrev pub IsAscending : ℕ → List Event → Type 0
IsAscending t [] = Unit
IsAscending t (e ∷ es) = (t ≤ time e) × IsAscending (time e) es

-- An acknowledgement of bytes lies a whole budget back.
abbrev pub IsOld : ℕ → ℕ → Event → Type 0
IsOld now rtt (Event.acked t bytes) = (bytes ≡ 0) ⊎ (t + stall_budget rtt ≤ now)
IsOld now rtt (Event.packet_sent t bytes) = Unit
IsOld now rtt (Event.acks_ended t in_flight) = Unit
IsOld now rtt (Event.other t) = Unit
IsOld now rtt (Event.cloned t) = Unit

-- Outstanding work counts from a time not before this one.
abbrev Late : ℕ → Tracked → Type 0
Late t s =
    (s.progress.pending_since ≡ none) ⊎ ((p : ℕ) × (s.progress.pending_since ≡ some p) × (t ≤ p))

step-Late : (t : ℕ) (e : Event) (s : Tracked) → t ≤ time e → Late t s → Late t (step e s)
unfolding step on_packet_sent on_ack on_end_acks clone_box prepare sent ack end_acks
step-Late t (Event.packet_sent u n) s h l = ground arith
step-Late t (Event.acked u n) s h l = ground arith
step-Late t (Event.acks_ended u n) s h l = ground arith
step-Late t (Event.other u) s h l = ground arith
step-Late t (Event.cloned u) s h l = l

IsAscending-mono : (t u : ℕ) (es : List Event) → t ≤ u → IsAscending u es → IsAscending t es
IsAscending-mono t u [] h a = tt
IsAscending-mono t u (e ∷ es) h a = (omega (arith, h, a.0), a.1)

run-Late : (t : ℕ) (es : List Event) (s : Tracked) → IsAscending t es → Late t s → Late t (run es s)
unfolding run
run-Late t [] s a l = l
run-Late t (e ∷ es) s a l =
    run-Late t es (step e s) (IsAscending-mono t (time e) es a.0 a.1) (step-Late t e s a.0 l)

acked-Late : (t bytes : ℕ) (s : Tracked) → 0 < bytes → Late t (step (Event.acked t bytes) s)
unfolding step on_ack ack
acked-Late t bytes s h = ground arith

stalled-Late :
    (t now rtt : ℕ) (s : Tracked)
    → stalled s.progress now rtt ≡ true
    → Late t s
    → t + stall_budget rtt ≤ now
unfolding stalled
stalled-Late t now rtt s h l = ground arith

zero_or_pos : (n : ℕ) → (n ≡ 0) ⊎ (0 < n)
zero_or_pos n = ground arith

acked-IsOld :
    (t bytes now rtt : ℕ) (es : List Event) (s : Tracked)
    → IsAscending t es
    → stalled (run es (step (Event.acked t bytes) s)).progress now rtt ≡ true
    → (bytes ≡ 0) ⊎ (0 < bytes)
    → (bytes ≡ 0) ⊎ (t + stall_budget rtt ≤ now)
acked-IsOld t bytes now rtt es s a h (inl z) = inl z
acked-IsOld t bytes now rtt es s a h (inr b) = inr (
    stalled-Late t now rtt (run es (step (Event.acked t bytes) s)) h
      (run-Late t es (step (Event.acked t bytes) s) a (acked-Late t bytes s b)))

-- Over any callbacks in the order of time: a path counts as stalled at a time only if every
-- acknowledgement of bytes lies back at least the budget, which is the longer of four round trips (cut
-- off at the longest `Duration`) and half a second.
pub run-IsOld :
    (t now rtt : ℕ) (es : List Event) (s : Tracked)
    → IsAscending t es
    → stalled (run es s).progress now rtt ≡ true
    → All (IsOld now rtt) es
unfolding run
run-IsOld t now rtt [] s a h = tt
run-IsOld t now rtt (Event.acked u n ∷ es) s a h = (
  acked-IsOld u n now rtt es s a.1 h (zero_or_pos n),
  run-IsOld u now rtt es (step (Event.acked u n) s) a.1 h,
)
run-IsOld t now rtt (Event.packet_sent u n ∷ es) s a h =
    (tt, run-IsOld u now rtt es (step (Event.packet_sent u n) s) a.1 h)
run-IsOld t now rtt (Event.acks_ended u n ∷ es) s a h =
    (tt, run-IsOld u now rtt es (step (Event.acks_ended u n) s) a.1 h)
run-IsOld t now rtt (Event.other u ∷ es) s a h =
    (tt, run-IsOld u now rtt es (step (Event.other u) s) a.1 h)
run-IsOld t now rtt (Event.cloned u ∷ es) s a h =
    (tt, run-IsOld u now rtt es (step (Event.cloned u) s) a.1 h)
