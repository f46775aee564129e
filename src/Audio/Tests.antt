-- ===== src/Audio/Tests.antt =====
-- Runs of crates/rds-audio/src/lib.rs with stand-ins for libopus: every payload is one frame of 960
-- samples.
use remote_device_sync.Base.{
  ℕ, ◌*◌, ◌/◌, ◌≤◌, ◌<◌, ◌≡◌, ◌≢◌, refl, [], ◌∷◌, none, some, ok, length, u64_max, arith,
}
use remote_device_sync.Base.Map.{lookup, insert}
use remote_device_sync.Audio.{
  AudioFormat, AudioPacket, AudioFrame, Opus, samples, validate_format, validate, from_wire,
  to_wire,
}
use remote_device_sync.Audio.Packet.{from_wire-to_wire, to_wire-from_wire}
use remote_device_sync.Audio.Jitter.{JitterBuffer, admit, pop, pop_next, conceal, gap}
use remote_device_sync.Audio.Jitter.Bounded.{IsBounded, admit-IsBounded}
use remote_device_sync.Audio.Jitter.Order.{StartsAt, Advanced, pop-Advanced}

abbrev opus : Opus
opus = record { frames = λ b. some 1; nb_samples = λ b rate. some 960 }

abbrev format : AudioFormat
format = record { sample_rate = 48000; channels = 2 }

abbrev frame : AudioFrame
frame = record { seq = 3; capture_ts_ms = 20; samples = 960; payload = 1 ∷ 2 ∷ [] }

abbrev third : AudioPacket
third = record { seq = 3; timestamp_us = 20000; samples = 960; payload = 1 ∷ 2 ∷ [] }

from_wire-to_wire_example :
    (to_wire third ≡ frame)
    × (third.seq ≢ u64_max)
    × (third.timestamp_us ≤ u64_max)
    × (0 < length third.payload)
    × (length third.payload ≤ 1276)
    × (opus.frames third.payload ≡ some 1)
    × (opus.nb_samples third.payload format.sample_rate ≡ some 960)
    × (third.samples ≡ 960)
unfolding from_wire validate validate_format samples
from_wire-to_wire_example = from_wire-to_wire opus frame format 960 third refl

abbrev late_stamp : AudioPacket
late_stamp = record third { timestamp_us = 20999 }

to_wire-from_wire_example :
    from_wire opus (to_wire late_stamp) format 960
    ≡ ok (record late_stamp { timestamp_us = 20999 / 1000 * 1000 })
unfolding validate validate_format samples
to_wire-from_wire_example = to_wire-from_wire opus late_stamp format 960 refl (omega arith)

-- The number 2 is expected, 4 is queued.
abbrev waiting : JitterBuffer
waiting = record {
  format = format;
  frame_samples = 960;
  capacity = 4;
  target_delay = 1;
  next_sequence = some 2;
  packets = (4, record third { seq = 4 }) ∷ [];
  accepted = 1;
  duplicates = 0;
  late = 0;
  overflow = 0;
  gaps = 0;
}

waiting-IsBounded : IsBounded waiting
waiting-IsBounded = record {
  sorted = (tt, tt);
  capped = omega arith;
  delayed = omega arith;
  bounded = omega arith;
  below = (omega arith, refl, tt);
  expected = (omega arith, tt);
  next_below = omega arith;
}

admit-IsBounded_example : IsBounded (admit third waiting).0
admit-IsBounded_example = admit-IsBounded third waiting (omega arith) waiting-IsBounded

abbrev both : JitterBuffer
both = (admit third waiting).0

both-IsBounded : IsBounded both
both-IsBounded = admit-IsBounded third waiting (omega arith) waiting-IsBounded

pop-Advanced_example :
    (n : ℕ) × StartsAt both.next_sequence both.packets n
    × Advanced (record both { next_sequence = some n }) n (gap 2) none (pop both).0
unfolding admit pop pop_next conceal lookup insert
pop-Advanced_example = pop-Advanced both (gap 2) none both-IsBounded refl
