-- ===== src/Proc/Cat/Tests.antt =====
-- An object sent over the retrying reader.
