-- ===== src/Message.antt =====
-- pkg/message: the wire format.
pub mod Cstring
pub mod Settings
pub mod Kind
pub mod Frame
pub mod Put
pub mod List
pub mod Delete2
pub mod PutV2
pub mod PutV3
pub mod ListV2
pub mod Cat
pub mod CatV2
pub mod Delete
pub mod Untrashify
pub mod Copy
pub mod CopyV2
pub mod Gool
pub mod Patch
pub mod Error
pub mod CopyData
pub mod ObjectMeta
pub mod Obsolete
pub mod PutComplete
pub mod CopyComplete
pub mod CopyDone
mod Tests
