-- ===== src/FastPath/Packet.antt =====
-- packet.h: the descriptor that travels through the pipeline.
use g_5g_ims_simulators.Prelude.{ℕ, Bool}

pub data Direction : Type 0 where
  ul dl : Direction

pub record Packet : Type 0 where
  pub teid : ℕ  -- uint32
  pub ue_ip : ℕ  -- uint32
  pub dscp : ℕ  -- uint8
  pub payload_len : ℕ  -- uint16
  pub arrival_ns : ℕ  -- uint64
  pub qfi : ℕ  -- uint8
  pub pdr_id : ℕ  -- uint32
  pub far_id : ℕ  -- uint32
  pub classified : Bool
  pub dropped : Bool
  pub seq : ℕ  -- uint32
  pub dir : Direction
