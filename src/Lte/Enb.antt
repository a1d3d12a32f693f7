-- ===== src/Lte/Enb.antt =====
-- enb_node.cpp: the eNB and the UE behind it, in the attach procedure. What is sent to the MME is
-- returned. The pause between two messages is left out.
pub mod Mobility
use g_5g_ims_simulators.Prelude.{
  ℕ, ◌+◌, bit_xor, ◌&&◌, List, [], ◌∷◌, map, take, length, leb, ◌==◌, if◌then◌else◌,
}
use g_5g_ims_simulators.Lte.Tag
use g_5g_ims_simulators.Lte.MessageType
use g_5g_ims_simulators.Lte.Tlv.{
  Ie, ie_u8, ie_u16, ie_u32, ie_u64, ie_bytes, udp_payload, new_reader, Case, case_u8, case_u32,
  case_bytes, parse, Outcome, ok, ◌>>=◌,
}
use g_5g_ims_simulators.Lte.Pcrf.{next}

pub record EnbNode : Type 0 where
  pub next_enb_teid : ℕ  -- atomic uint32
  pub next_seq : ℕ

abbrev pub base_imsi : ℕ
base_imsi = 404100000000000

abbrev pub initial_ue_ies : ℕ → List Ie
initial_ue_ies ue_index =
    ie_u32 Tag.enb_ue_s1ap_id ue_index
    ∷ ie_u8 Tag.rrc_cause 3
    ∷ ie_u16 Tag.tai_mcc 404
    ∷ ie_u16 Tag.tai_mnc 10
    ∷ ie_u16 Tag.tai_tac 1
    ∷ ie_u32 Tag.eutran_cgi 1
    ∷ ie_u8 Tag.nas_proto_disc 0x07
    ∷ ie_u8 Tag.nas_sec_hdr 0x00
    ∷ ie_u8 Tag.nas_msg_type 0x41
    ∷ ie_u8 Tag.nas_attach_type 1
    ∷ ie_u8 Tag.nas_ksi 7
    ∷ ie_u8 Tag.nas_id_type 1
    ∷ ie_u64 Tag.nas_imsi (base_imsi + ue_index)
    ∷ ie_u8 Tag.nas_ue_cap 0xE0
    ∷ []

-- `sendInitialUEMessage` on a connection that is up.
unfoldable pub send_initial_ue_message : EnbNode → ℕ → EnbNode × List ℕ
send_initial_ue_message s ue_index = (
  record s { next_seq = next s.next_seq },
  udp_payload MessageType.s1ap_initial_ue_msg s.next_seq (initial_ue_ies ue_index),
)

pub record DlNas : Type 0 where
  pub mme_id : ℕ
  pub enb_id : ℕ
  pub nas_type : ℕ
  pub rand_b : List ℕ
  pub autn_b : List ℕ

abbrev pub dl_nas_default : DlNas
dl_nas_default = record { mme_id = 0; enb_id = 0; nas_type = 0; rand_b = []; autn_b = [] }

abbrev pub dl_nas_cases : List (Case DlNas)
dl_nas_cases =
    case_u32 Tag.mme_ue_s1ap_id (λ s v. record s { mme_id = v })
    ∷ case_u32 Tag.enb_ue_s1ap_id (λ s v. record s { enb_id = v })
    ∷ case_u8 Tag.nas_msg_type (λ s v. record s { nas_type = v })
    ∷ case_bytes Tag.nas_rand (λ s v. record s { rand_b = v })
    ∷ case_bytes Tag.nas_autn (λ s v. record s { autn_b = v })
    ∷ []

-- An uplink NAS message without further elements.
abbrev pub ul_nas_ies : ℕ → ℕ → ℕ → List Ie
ul_nas_ies mme_id enb_id nas_type =
    ie_u32 Tag.mme_ue_s1ap_id mme_id
    ∷ ie_u32 Tag.enb_ue_s1ap_id enb_id
    ∷ ie_u8 Tag.nas_msg_type nas_type
    ∷ []

abbrev pub auth_response_ies : ℕ → ℕ → List ℕ → List Ie
auth_response_ies mme_id enb_id res =
    ie_u32 Tag.mme_ue_s1ap_id mme_id
    ∷ ie_u32 Tag.enb_ue_s1ap_id enb_id
    ∷ ie_u8 Tag.nas_msg_type 0x53
    ∷ ie_bytes Tag.nas_res res
    ∷ []

-- `res[i]=rand_b[i]^0x55` for eight bytes
abbrev pub ue_res : List ℕ → List ℕ
ue_res rand_b = map (λ b. bit_xor b 0x55) (take 8 rand_b)

unfoldable pub handle_dl_nas : EnbNode → List ℕ → Outcome (EnbNode × List (List ℕ))
handle_dl_nas s payload = do
  f ← parse dl_nas_cases dl_nas_default (new_reader payload).rest
  let sent = record s { next_seq = next s.next_seq }
  if f.nas_type == 0x5D
      then ok (
        sent,
        udp_payload MessageType.s1ap_ul_nas_transport s.next_seq (ul_nas_ies f.mme_id f.enb_id 0x5E)
            ∷ [],
      )
      else if (f.nas_type == 0x52) && leb 8 (length f.rand_b)
      then ok (
        sent,
        udp_payload MessageType.s1ap_ul_nas_transport s.next_seq
              (auth_response_ies f.mme_id f.enb_id (ue_res f.rand_b))
            ∷ [],
      )
      else ok (s, [])

pub record Icsr : Type 0 where
  pub mme_id : ℕ
  pub enb_id : ℕ
  pub sgw_teid : ℕ
  pub nas_type : ℕ
  pub ue_ip_bytes : List ℕ

abbrev pub icsr_default : Icsr
icsr_default = record { mme_id = 0; enb_id = 0; sgw_teid = 0; nas_type = 0; ue_ip_bytes = [] }

abbrev pub icsr_cases : List (Case Icsr)
icsr_cases =
    case_u32 Tag.mme_ue_s1ap_id (λ s v. record s { mme_id = v })
    ∷ case_u32 Tag.enb_ue_s1ap_id (λ s v. record s { enb_id = v })
    ∷ case_u32 Tag.icsr_sgw_teid (λ s v. record s { sgw_teid = v })
    ∷ case_u8 Tag.nas_msg_type (λ s v. record s { nas_type = v })
    ∷ case_bytes Tag.nas_ue_ip (λ s v. record s { ue_ip_bytes = v })
    ∷ []

abbrev pub icsr_response_ies : ℕ → ℕ → ℕ → List Ie
icsr_response_ies mme_id enb_id enb_teid =
    ie_u32 Tag.mme_ue_s1ap_id mme_id
    ∷ ie_u32 Tag.enb_ue_s1ap_id enb_id
    ∷ ie_u32 Tag.icsr_enb_teid enb_teid
    ∷ []

-- `handleICSR`: the response with a new tunnel identifier, then the Attach Complete of the UE.
unfoldable pub handle_icsr : EnbNode → List ℕ → Outcome (EnbNode × List (List ℕ))
handle_icsr s payload = do
  f ← parse icsr_cases icsr_default (new_reader payload).rest
  ok (
    record s { next_enb_teid = next s.next_enb_teid; next_seq = next (next s.next_seq) },
    udp_payload MessageType.s1ap_initial_context_setup_rsp s.next_seq
          (icsr_response_ies f.mme_id f.enb_id s.next_enb_teid)
        ∷ udp_payload MessageType.s1ap_ul_nas_transport (next s.next_seq)
            (ul_nas_ies f.mme_id f.enb_id 0x46)
        ∷ [],
  )
