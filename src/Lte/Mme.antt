-- ===== src/Lte/Mme.antt =====
-- The MME of the 4G simulator, 4g-simulator/src/mme.
pub mod Context
pub mod Store
pub mod Node
pub mod Attach
pub mod Mobility
