-- ===== src/Proc.antt =====
-- pkg/proc: what the server does with a request.
pub mod Conn
pub mod Effect
pub mod Garbage
pub mod Copy
pub mod List
pub mod Put
pub mod Obsolete
pub mod Reply
pub mod Cat
pub mod Deletion
