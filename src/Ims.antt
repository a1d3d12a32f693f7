-- ===== src/Ims.antt =====
-- The IMS simulator, ims-simulator/src: the proxy and the server of calls, and the UEs' messages.
pub mod Sip
pub mod Fields
pub mod Hss
pub mod Scscf
pub mod Pcscf
pub mod Ue
pub mod Core
mod Tests
