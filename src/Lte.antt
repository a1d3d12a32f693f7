-- ===== src/Lte.antt =====
-- The 4G simulator, 4g-simulator/src: the messages between the nodes, and the nodes.
pub mod Tag
pub mod MessageType
pub mod Tlv
pub mod Profiles
pub mod Pcrf
pub mod Pgw
pub mod Sgw
pub mod Hss
pub mod Enb
pub mod Mobility
pub mod Session
pub mod Mme
mod Tests
