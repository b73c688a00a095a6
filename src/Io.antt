-- ===== src/Io.antt =====
-- pkg/io: the reader of packets.
pub mod Packet
