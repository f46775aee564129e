-- ===== src/Audio/Packet.antt =====
-- What a validated packet of crates/rds-audio/src/lib.rs satisfies, and its wire form.
use remote_device_sync.Base.{ℕ, ◌*◌, ◌/◌, ◌≤◌, ◌<◌, ◌≡◌, ◌≢◌, some, length, u64_max, ok, arith}
use remote_device_sync.Audio.{
  AudioFormat, AudioPacket, AudioFrame, Opus, validate, from_wire, to_wire,
}

-- A packet that comes off the wire keeps every field of the frame, so writing it again gives the same
-- frame; its sequence number is not the reserved one, its payload has 1 to 1276 bytes and holds one
-- Opus frame of the negotiated length.
pub from_wire-to_wire :
    (opus : Opus) (frame : AudioFrame) (format : AudioFormat) (n : ℕ) (p : AudioPacket)
    → from_wire opus frame format n ≡ ok p
    → (to_wire p ≡ frame)
      × (p.seq ≢ u64_max)
      × (p.timestamp_us ≤ u64_max)
      × (0 < length p.payload)
      × (length p.payload ≤ 1276)
      × (opus.frames p.payload ≡ some 1)
      × (opus.nb_samples p.payload format.sample_rate ≡ some n)
      × (p.samples ≡ n)
unfolding from_wire to_wire validate
from_wire-to_wire opus frame format n p h = ground arith

-- A valid packet survives the wire up to its timestamp, which is cut to a whole millisecond.
pub to_wire-from_wire :
    (opus : Opus) (p : AudioPacket) (format : AudioFormat) (n : ℕ)
    → validate opus p format n ≡ ok tt
    → p.timestamp_us ≤ u64_max
    → from_wire opus (to_wire p) format n
      ≡ ok (record p { timestamp_us = p.timestamp_us / 1000 * 1000 })
unfolding from_wire to_wire validate
to_wire-from_wire opus p format n h t = ground arith
