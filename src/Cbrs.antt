-- ===== src/Cbrs.antt =====
-- The CBRS simulator: CBSD agent, domain proxy and SAS stub (cbrs-domain-proxy/src).
pub mod Wire
pub mod Doubles
pub mod SpectrumState
pub mod Registry
pub mod Sas
pub mod Proxy
pub mod Agent
pub mod System
mod Tests
