-- ===== src/Audio/Jitter.antt =====
-- crates/rds-audio/src/lib.rs, `JitterBuffer`: a bounded reorder buffer of audio packets. The sums
-- and differences that the source leaves unchecked are written `+` and `-`.
pub mod Bounded
pub mod Order
use remote_device_sync.Base.{
  ℕ, ◌+◌, ◌-◌, Bool, true, false, ◌||◌, not, Option, none, some, ltb, leb, ◌==◌, if◌then◌else◌, [],
  length, is_some, is_some_and, u64_max, saturating_add, Result, ok, err, ensure, ◌>>=◌, ◌>>◌,
}
use remote_device_sync.Base.Map.{Map, lookup, insert, remove, retain, first, pop_first}
use remote_device_sync.Audio.{
  AudioError, invalid_frame, AudioFormat, AudioPacket, Opus, validate, frame_samples_for, ms20,
}

pub data PushOutcome : Type 0 where
  accepted duplicate late dropped_overflow : PushOutcome

pub data PopOutcome : Type 0 where
  packet : PopOutcome
  gap : ℕ → PopOutcome
  discontinuity : ℕ → ℕ → PopOutcome

pub record JitterBuffer : Type 0 where
  pub format : AudioFormat
  pub frame_samples : ℕ
  pub capacity : ℕ
  pub target_delay : ℕ
  pub next_sequence : Option ℕ
  pub packets : Map AudioPacket
  pub accepted : ℕ
  pub duplicates : ℕ
  pub late : ℕ
  pub overflow : ℕ
  pub gaps : ℕ

abbrev pub max_jitter_packets : ℕ
max_jitter_packets = 64

-- `JitterBuffer::new`.
unfoldable pub new : AudioFormat → ℕ → ℕ → Result AudioError JitterBuffer
new format capacity target_delay = do
  frame_samples ← frame_samples_for ms20 format
  ensure (not (capacity == 0 || ltb max_jitter_packets capacity || leb capacity target_delay))
      invalid_frame
  ok (record {
    format = format;
    frame_samples = frame_samples;
    capacity = capacity;
    target_delay = target_delay;
    next_sequence = none;
    packets = [];
    accepted = 0;
    duplicates = 0;
    late = 0;
    overflow = 0;
    gaps = 0;
  })

abbrev pub store : AudioPacket → JitterBuffer → JitterBuffer
store p b = record b { packets = insert p.seq p b.packets; accepted = saturating_add b.accepted 1 }

-- The branch of `push` for a full buffer: an older packet than all is dropped, otherwise the oldest.
abbrev pub push_full : AudioPacket → JitterBuffer → JitterBuffer × PushOutcome
push_full p b =
    let b' = record b { overflow = saturating_add b.overflow 1 } in
    if is_some_and (first b.packets) (λ e. ltb p.seq e.0)
    then (b', dropped_overflow)
    else (store p (record b' { packets = pop_first b.packets }), dropped_overflow)

-- `push` of a valid packet.
unfoldable pub admit : AudioPacket → JitterBuffer → JitterBuffer × PushOutcome
admit p b =
    if is_some_and b.next_sequence (λ next. ltb p.seq next)
    then (record b { late = saturating_add b.late 1 }, PushOutcome.late)
    else if is_some (lookup p.seq b.packets)
    then (record b { duplicates = saturating_add b.duplicates 1 }, duplicate)
    else if length b.packets == b.capacity
    then push_full p b
    else (store p b, PushOutcome.accepted)

unfoldable pub push :
    Opus → AudioPacket → JitterBuffer → JitterBuffer × Result AudioError PushOutcome
push opus p b = elim (validate opus p b.format b.frame_samples) [
  | err e ↦ (b, err e)
  | ok u ↦ let (b', o) = admit p b in (b', ok o)
]

abbrev pub Popped : Type 0
Popped = JitterBuffer × Option (PopOutcome × Option AudioPacket)

-- The branch of `pop` for a missing packet with too many successors queued.
unfoldable pub conceal : ℕ → ℕ → JitterBuffer → Popped
conceal next available b =
    let missing = available - next in
    if ltb b.capacity missing
    then (
      record b { next_sequence = some available; gaps = saturating_add b.gaps missing },
      some (discontinuity next available, none),
    )
    else (
      record b { next_sequence = some (next + 1); gaps = saturating_add b.gaps 1 },
      some (gap next, none),
    )

-- `pop` from an expected sequence number on.
unfoldable pub pop_next : ℕ → JitterBuffer → Popped
unfolding conceal
pop_next next b = elim (lookup next b.packets) [
  | some p ↦ (
    record b { packets = remove next b.packets; next_sequence = some (next + 1) },
    some (packet, some p),
  )
  | none ↦
      if ltb b.target_delay (length b.packets)
      then elim (first b.packets) [ none ↦ (b, none) | some e ↦ conceal next e.0 b ]
      else (b, none)
]

unfoldable pub pop : JitterBuffer → Popped
pop b = elim b.next_sequence [
  | some next ↦ pop_next next b
  | none ↦ elim (first b.packets) [
    | none ↦ (b, none)
    | some e ↦ pop_next e.0 (record b { next_sequence = some e.0 })
  ]
]

unfoldable pub start_at : ℕ → JitterBuffer → JitterBuffer × Result AudioError (Unit {0})
start_at sequence b =
    if is_some b.next_sequence
    then (b, err invalid_frame)
    else if sequence == u64_max
    then (b, err invalid_frame)
    else (let kept = retain (λ seq p. leb sequence seq) b.packets in
        (
          record b {
            packets = kept;
            late = saturating_add b.late (length b.packets - length kept);
            next_sequence = some sequence;
          },
          ok tt,
        ))
