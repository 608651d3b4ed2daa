-- ===== src/Net.antt =====
-- kernel/net: the buffer of received packets.
pub mod Ring
