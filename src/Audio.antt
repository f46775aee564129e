-- ===== src/Audio.antt =====
-- crates/rds-audio/src/lib.rs: audio formats, packets and their validation. The messages of
-- `AudioError` are left out. The jitter buffer is in the child module.
pub mod Packet
pub mod Jitter
mod Tests
use remote_device_sync.Base.{
  ℕ, ◌+◌, ◌*◌, ◌/◌, ◌≤◌, Bool, true, false, ◌||◌, not, List, [], ◌∷◌, Option, none, some, ltb, leb,
  ◌==◌, if◌then◌else◌, length, any, u64_max, Result, ok, err, ensure, ok_or, ◌>>=◌, ◌>>◌,
}

pub data AudioError : Type 0 where
  invalid_format invalid_frame invalid_packet codec : AudioError

pub data FrameDuration : Type 0 where
  ms2_5 ms5 ms10 ms20 ms40 ms60 : FrameDuration

unfoldable pub duration_micros : FrameDuration → ℕ
duration_micros ms2_5 = 2500
duration_micros ms5 = 5000
duration_micros ms10 = 10000
duration_micros ms20 = 20000
duration_micros ms40 = 40000
duration_micros ms60 = 60000

unfoldable pub samples : FrameDuration → ℕ → ℕ
unfolding duration_micros
samples d sample_rate = sample_rate * duration_micros d / 1000000

pub record AudioFormat : Type 0 where
  pub sample_rate : ℕ
  pub channels : ℕ

-- `AudioFormat::validate`.
unfoldable pub validate_format : AudioFormat → Result AudioError (Unit {0})
validate_format f =
    if not (
      f.sample_rate == 8000
      || f.sample_rate == 12000
      || f.sample_rate == 16000
      || f.sample_rate == 24000
      || f.sample_rate == 48000)
    then err invalid_format
    else if not (f.channels == 1 || f.channels == 2)
    then err invalid_format
    else ok tt

-- `AudioFormat::frame_samples_for`.
unfoldable pub frame_samples_for : FrameDuration → AudioFormat → Result AudioError ℕ
unfolding validate_format
frame_samples_for d f = do validate_format f; ok (samples d f.sample_rate)

-- `AudioFormat::frame_samples`.
unfoldable pub frame_samples : ℕ → AudioFormat → Result AudioError ℕ
unfolding frame_samples_for
frame_samples duration_ms f =
    if duration_ms == 5
    then frame_samples_for ms5 f
    else if duration_ms == 10
    then frame_samples_for ms10 f
    else if duration_ms == 20
    then frame_samples_for ms20 f
    else if duration_ms == 40
    then frame_samples_for ms40 f
    else if duration_ms == 60
    then frame_samples_for ms60 f
    else err invalid_frame

pub record AudioPacket : Type 0 where
  pub seq : ℕ
  pub timestamp_us : ℕ
  pub samples : ℕ
  pub payload : List ℕ

-- `rds_core::AudioFrame`.
pub record AudioFrame : Type 0 where
  pub seq : ℕ
  pub capture_ts_ms : ℕ
  pub samples : ℕ
  pub payload : List ℕ

-- The `opus` crate: the number of frames in a packet, if it parses, and its sample count.
pub record Opus : Type 0 where
  pub frames : List ℕ → Option ℕ
  pub nb_samples : List ℕ → ℕ → Option ℕ

abbrev pub max_opus_packet_bytes : ℕ
max_opus_packet_bytes = 1276

abbrev pub all_durations : List FrameDuration
all_durations = ms2_5 ∷ ms5 ∷ ms10 ∷ ms20 ∷ ms40 ∷ ms60 ∷ []

module _ (opus : Opus) where
  -- `AudioPacket::validate`.
  unfoldable pub validate : AudioPacket → AudioFormat → ℕ → Result AudioError (Unit {0})
  validate p format frame_samples = do
    validate_format format
    ensure (not (p.seq == u64_max)) invalid_packet
    ensure (any (λ d. samples d format.sample_rate == frame_samples) all_durations) invalid_frame
    ensure (p.samples == frame_samples) invalid_frame
    ensure (not (length p.payload == 0)) invalid_packet
    ensure (leb (length p.payload) max_opus_packet_bytes) invalid_packet
    frames ← ok_or (opus.frames p.payload) invalid_packet
    ensure (frames == 1) invalid_packet
    n ← ok_or (opus.nb_samples p.payload format.sample_rate) invalid_packet
    ensure (n == frame_samples) invalid_frame

  -- `AudioPacket::from_wire`.
  unfoldable pub from_wire : AudioFrame → AudioFormat → ℕ → Result AudioError AudioPacket
  from_wire frame format frame_samples = do
    ensure (leb (frame.capture_ts_ms * 1000) u64_max) invalid_packet
    let packet : AudioPacket = record {
      seq = frame.seq;
      timestamp_us = frame.capture_ts_ms * 1000;
      samples = frame.samples;
      payload = frame.payload;
    }
    validate packet format frame_samples
    ok packet

-- `AudioPacket::to_wire`.
unfoldable pub to_wire : AudioPacket → AudioFrame
to_wire p = record {
  seq = p.seq;
  capture_ts_ms = p.timestamp_us / 1000;
  samples = p.samples;
  payload = p.payload;
}
