-- ===== src/Yio.antt =====
-- pkg/proc/yio: the streams between clients and the external storage.
pub mod RetryReader
pub mod Writer
pub mod RestartReader
