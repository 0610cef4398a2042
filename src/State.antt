-- ===== src/State.antt =====
-- internal/state: the snapshot of the device, its history, and who is told of changes.
pub mod Snapshot
pub mod Pending
pub mod Subscriber
pub mod Store
pub mod Waiting
