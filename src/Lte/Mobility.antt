-- ===== src/Lte/Mobility.antt =====
-- What the handlers of tracking area updates and handover at the MME and at the eNB share.
pub mod Handover
use g_5g_ims_simulators.Prelude.{ℕ, List, [], ◌∷◌}
use g_5g_ims_simulators.Lte.Tag
use g_5g_ims_simulators.Lte.Tlv.{Ie, ie_u32, Case, case_u8, case_u32, case_u64}

-- The local variables that the handlers parse into; each handler has some of them.
pub record UeFields : Type 0 where
  pub mme_id : ℕ
  pub enb_id : ℕ
  pub imsi : ℕ
  pub tau_type : ℕ
  pub new_teid : ℕ
  pub pdcp_ul : ℕ
  pub pdcp_dl : ℕ

abbrev pub fields_default : UeFields
fields_default = record {
  mme_id = 0;
  enb_id = 0;
  imsi = 0;
  tau_type = 0;
  new_teid = 0;
  pdcp_ul = 0;
  pdcp_dl = 0;
}

abbrev pub case_mme_id : Case UeFields
case_mme_id = case_u32 Tag.mme_ue_s1ap_id (λ s v. record s { mme_id = v })

abbrev pub case_enb_id : Case UeFields
case_enb_id = case_u32 Tag.enb_ue_s1ap_id (λ s v. record s { enb_id = v })

abbrev pub case_imsi : Case UeFields
case_imsi = case_u64 Tag.tau_imsi (λ s v. record s { imsi = v })

abbrev pub case_tau_type : Case UeFields
case_tau_type = case_u8 Tag.tau_update_type (λ s v. record s { tau_type = v })

abbrev pub case_new_teid : Case UeFields
case_new_teid = case_u32 Tag.ho_enb_teid_new (λ s v. record s { new_teid = v })

abbrev pub case_enb_teid : Case UeFields
case_enb_teid = case_u32 Tag.icsr_enb_teid (λ s v. record s { new_teid = v })

abbrev pub case_pdcp_ul : Case UeFields
case_pdcp_ul = case_u32 Tag.ho_pdcp_sn_ul (λ s v. record s { pdcp_ul = v })

abbrev pub case_pdcp_dl : Case UeFields
case_pdcp_dl = case_u32 Tag.ho_pdcp_sn_dl (λ s v. record s { pdcp_dl = v })

abbrev pub id_cases : List (Case UeFields)
id_cases = case_mme_id ∷ case_enb_id ∷ []

abbrev pub tau_cases : List (Case UeFields)
tau_cases = case_mme_id ∷ case_enb_id ∷ case_imsi ∷ case_tau_type ∷ []

abbrev pub required_cases : List (Case UeFields)
required_cases = case_mme_id ∷ case_enb_id ∷ case_imsi ∷ []

abbrev pub teid_cases : List (Case UeFields)
teid_cases = case_mme_id ∷ case_enb_id ∷ case_new_teid ∷ []

abbrev pub pdcp_cases : List (Case UeFields)
pdcp_cases = case_mme_id ∷ case_enb_id ∷ case_pdcp_ul ∷ case_pdcp_dl ∷ []

abbrev pub setup_cases : List (Case UeFields)
setup_cases = case_mme_id ∷ case_enb_teid ∷ []

-- The two identifiers, and then more.
abbrev pub with_ids : ℕ → ℕ → List Ie → List Ie
with_ids mme_id enb_id ies =
    ie_u32 Tag.mme_ue_s1ap_id mme_id ∷ ie_u32 Tag.enb_ue_s1ap_id enb_id ∷ ies
