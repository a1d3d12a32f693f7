-- ===== src/FastPath.antt =====
-- The user-plane fast path of the 5G simulator, 5g-simulator/src/upf_fastpath.
pub mod Ring
pub mod Packet
pub mod Rules
pub mod Pool
pub mod Stats
pub mod Path
mod Tests
