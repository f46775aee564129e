-- ===== src/Desktop.antt =====
-- crates/rds-desktop: the receiver's reordering of pictures (src/order.rs), the repair epochs of the
-- sender (src/media_repair.rs) and the bounded queue between tasks (src/mailbox.rs).
pub mod Mailbox
pub mod Order
pub mod MediaRepair
mod Tests
use remote_device_sync.Base.{ℕ, Bool}

-- `Codec` and `FrameHeader` of crates/rds-core/src/lib.rs.
pub data Codec : Type 0 where
  h264 : Codec

pub record FrameHeader : Type 0 where
  pub seq : ℕ
  pub capture_ts_ms : ℕ
  pub encode_done_ts_ms : ℕ
  pub send_ts_ms : ℕ
  pub keyframe : Bool
  pub codec : Codec
  pub width : ℕ
  pub height : ℕ
