-- ===== src/Sync.antt =====
-- crates/rds-sync: file synchronization. A path is the list of its bytes.
pub mod Paths
pub mod Directory
pub mod Wire
pub mod Reconcile
mod Tests

-- `SyncError`, without the messages.
pub data SyncError : Type 0 where
  io manifest : SyncError
