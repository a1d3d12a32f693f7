-- ===== src/Lte/Session.antt =====
-- Session set-up along the chain of MME, S-GW, P-GW and PCRF.
pub mod Policy
pub mod Chain
pub mod Denied
pub mod Authentication
pub mod Setup
pub mod Attach
pub mod Registration
