-- ===== src/Net/AckProgress.antt =====
-- crates/rds-net/src/ack_progress.rs: what the acknowledgements of a path tell about it. An `Instant`
-- is a number of nanoseconds. The congestion controller that each call goes on to is left out.
pub mod Stalled
mod Tests
use remote_device_sync.Base.{
  ℕ, ◌-◌, ◌*◌, Bool, true, false, ◌&&◌, not, Option, none, some, ltb, leb, ◌==◌, if◌then◌else◌,
  is_some, is_some_and, is_none_or, max, min,
}
use remote_device_sync.Discovery.{max_duration}

pub record Progress : Type 0 where
  pub pending_since : Option ℕ
  pub confirmed_at : Option ℕ

-- `Default`.
abbrev pub fresh : Progress
fresh = record { pending_since = none; confirmed_at = none }

unfoldable pub sent : ℕ → ℕ → Progress → Progress
sent now bytes p =
    if ltb 0 bytes && not (is_some p.pending_since)
    then record p { pending_since = some now }
    else p

unfoldable pub ack : ℕ → ℕ → Progress → Progress
ack now bytes p =
    if ltb 0 bytes
    then record {
      confirmed_at = some now;
      pending_since = if is_some p.pending_since then some now else p.pending_since;
    }
    else p

unfoldable pub end_acks : ℕ → ℕ → Progress → Progress
end_acks now in_flight p =
    if in_flight == 0
    then record p { pending_since = none }
    else if not (is_some p.pending_since)
    then record p { pending_since = some now }
    else p

-- `Duration::saturating_mul`.
abbrev pub times : ℕ → ℕ → ℕ
times d n = min (d * n) max_duration

unfoldable pub confirmed : Progress → ℕ → ℕ → Bool
confirmed p now rtt =
    is_some_and p.confirmed_at (λ at. ltb (now - at) (max (times rtt 8) 2000000000))

unfoldable pub needs_probe : Progress → ℕ → Bool
needs_probe p now = is_none_or p.confirmed_at (λ at. leb 1000000000 (now - at))

-- The budget of `stalled`.
abbrev pub stall_budget : ℕ → ℕ
stall_budget rtt = max (times rtt 4) 500000000

unfoldable pub stalled : Progress → ℕ → ℕ → Bool
stalled p now rtt = is_some_and p.pending_since (λ since. leb (stall_budget rtt) (now - since))

pub record Observation : Type 0 where
  pub progress : Progress
  pub now : ℕ

-- `Observation::can_replace`.
unfoldable pub can_replace : Observation → Observation → ℕ → Bool
can_replace o failed rtt = elim failed.progress.pending_since [
  | none ↦ false
  | some pending_since ↦
      is_some_and o.progress.confirmed_at (λ confirmed_at. ltb pending_since confirmed_at)
      && confirmed o.progress o.now rtt
      && not (stalled o.progress o.now rtt)
]

pub record Tracked : Type 0 where
  pub progress : Progress
  pub reset_on_mutation : Bool

-- `Factory::build`.
abbrev pub build : Tracked
build = record { progress = fresh; reset_on_mutation = false }

unfoldable pub prepare : Tracked → Tracked
prepare t =
    if t.reset_on_mutation then record { progress = fresh; reset_on_mutation = false } else t

unfoldable pub on_packet_sent : ℕ → ℕ → Tracked → Tracked
on_packet_sent now bytes t =
    let t' = prepare t in record t' { progress = sent now bytes t'.progress }

unfoldable pub on_ack : ℕ → ℕ → Tracked → Tracked
on_ack now bytes t = let t' = prepare t in record t' { progress = ack now bytes t'.progress }

unfoldable pub on_end_acks : ℕ → ℕ → Tracked → Tracked
on_end_acks now in_flight t =
    let t' = prepare t in record t' { progress = end_acks now in_flight t'.progress }

-- The copy that `clone_box` makes.
unfoldable pub clone_box : Tracked → Tracked
clone_box t = record { progress = t.progress; reset_on_mutation = true }
