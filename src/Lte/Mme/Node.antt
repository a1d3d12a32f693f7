-- ===== src/Lte/Mme/Node.antt =====
-- mme_node.h: the state of the MME.
use g_5g_ims_simulators.Prelude.{ℕ, List, []}
use g_5g_ims_simulators.Lte.Mme.Context.{AuthVectors}
use g_5g_ims_simulators.Lte.Mme.Store.{UeContextStore, no_contexts}

pub record MmeNode : Type 0 where
  pub ue_store : UeContextStore
  pub pending_auth : List (ℕ × AuthVectors)
  pub next_seq : ℕ

abbrev pub started : MmeNode
started = record { ue_store = no_contexts; pending_auth = []; next_seq = 1 }
