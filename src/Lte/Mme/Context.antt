-- ===== src/Lte/Mme/Context.antt =====
-- ue_context.h: what the MME keeps of a UE. The start time of the attach, and the profile that is
-- kept for its address only, are left out.
use g_5g_ims_simulators.Prelude.{ℕ, Option, none, some, List, [], ◌∷◌, ◌==◌, if◌then◌else◌}

pub data EmmState : Type 0 where
  deregistered registered_initiated auth_pending session_pending registered deregistered_initiated :
      EmmState

-- Arrays of 16, 16, 8 and 32 bytes.
pub record AuthVectors : Type 0 where
  pub rand : List ℕ
  pub autn : List ℕ
  pub xres : List ℕ
  pub kasme : List ℕ

-- The address is a text in the source, here its four numbers.
pub record Bearer : Type 0 where
  pub ebi : ℕ
  pub qci : ℕ
  pub sgw_s11_teid : ℕ
  pub sgw_s1u_teid : ℕ
  pub pgw_s5_teid : ℕ
  pub enb_s1u_teid : ℕ
  pub ue_ip : List ℕ

pub record UeContext : Type 0 where
  pub imsi : ℕ
  pub mme_ue_s1ap_id : ℕ
  pub enb_ue_s1ap_id : ℕ
  pub emm_state : EmmState
  pub auth : AuthVectors
  pub bearers : List Bearer
  pub tai_mcc : ℕ
  pub tai_mnc : ℕ
  pub tai_tac : ℕ

-- `defaultBearer()`
unfoldable pub default_bearer : List Bearer → Option Bearer
default_bearer [] = none
default_bearer (b ∷ bs) = if b.ebi == 5 then some b else default_bearer bs

-- `if (auto* b = defaultBearer()) b->enb_s1u_teid = teid;`
unfoldable pub set_enb_teid : ℕ → List Bearer → List Bearer
set_enb_teid teid [] = []
set_enb_teid teid (b ∷ bs) =
    if b.ebi == 5 then record b { enb_s1u_teid = teid } ∷ bs else b ∷ set_enb_teid teid bs
