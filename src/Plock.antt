-- ===== src/Plock.antt =====
-- group/dlm_controld/plock.c: posix locks of a cluster file system, replicated or owned.
pub mod Types
pub mod Wire
pub mod Range
pub mod Locks
pub mod Grant
pub mod Resource
pub mod Messages
pub mod Sync
pub mod Device
pub mod Names
pub mod Purge
pub mod Checkpoint
pub mod Replica
mod Examples
