-- ===== src/Proc/Garbage.antt =====
-- BasicGarbageMgr of pkg/proc/delete_handler.go.
pub mod Mgr
pub mod Paths
pub mod Batch
pub mod Handlers
pub mod Rounds
pub mod Safety
pub mod Select
pub mod Live
pub mod Prefix
pub mod Tracked
pub mod Done
pub mod Restore
pub mod Everywhere
pub mod Bucket
mod Tests
