-- ===== src/Storage.antt =====
-- pkg/storage: the names of objects, the settings of a request, and the storages.
pub mod Names
pub mod Settings
pub mod S3
pub mod File
pub mod Sessions
mod Tests
