-- ===== src/Lte/Sgw.antt =====
-- sgw_node.cpp: sessions and bearers for the MME, on the P-GW's answers. `P` is the state behind
-- the S5 interface, and `ask` what it makes of a datagram: an answer, or none within the timeout.
use g_5g_ims_simulators.Prelude.{
  ℕ, not, ◌||◌, Option, none, some, List, [], ◌∷◌, length, take, ltb, ◌==◌, if◌then◌else◌,
}
use g_5g_ims_simulators.Lte.Tag
use g_5g_ims_simulators.Lte.MessageType
use g_5g_ims_simulators.Lte.Tlv.{
  Ie, ie_u8, ie_u32, ie_u64, ie_bytes, udp_payload, new_reader, Case, case_u8, case_u32, case_u64,
  case_bytes, parse, Outcome, ok, ◌>>=◌,
}
use g_5g_ims_simulators.Lte.Pcrf.{next}

pub record SgwNode : Type 0 where
  pub next_teid : ℕ  -- atomic uint32
  pub next_seq : ℕ

-- What `handleCreateSessionReq` parses the MME's request into.
pub record CreateSession : Type 0 where
  pub imsi : ℕ
  pub apn : List ℕ
  pub qci : ℕ
  pub ebi : ℕ
  pub ambr_ul : ℕ
  pub ambr_dl : ℕ

abbrev pub create_default : CreateSession
create_default = record {
  imsi = 0;
  apn = [];
  qci = 9;
  ebi = 5;
  ambr_ul = 50000000;
  ambr_dl = 100000000;
}

abbrev pub create_cases : List (Case CreateSession)
create_cases =
    case_u64 Tag.gtp_imsi (λ s v. record s { imsi = v })
    ∷ case_bytes Tag.gtp_apn (λ s v. record s { apn = v })
    ∷ case_u8 Tag.gtp_ebi (λ s v. record s { ebi = v })
    ∷ case_u8 Tag.gtp_qci (λ s v. record s { qci = v })
    ∷ case_u32 Tag.gtp_ambr_ul (λ s v. record s { ambr_ul = v })
    ∷ case_u32 Tag.gtp_ambr_dl (λ s v. record s { ambr_dl = v })
    ∷ []

-- The request to the P-GW.
abbrev pub forward_ies : CreateSession → ℕ → List Ie
forward_ies f sgw_s11_teid =
    ie_u64 Tag.gtp_imsi f.imsi
    ∷ ie_bytes Tag.gtp_apn f.apn
    ∷ ie_u8 Tag.gtp_ebi f.ebi
    ∷ ie_u8 Tag.gtp_qci f.qci
    ∷ ie_u32 Tag.gtp_sender_teid sgw_s11_teid
    ∷ ie_u32 Tag.gtp_ambr_ul f.ambr_ul
    ∷ ie_u32 Tag.gtp_ambr_dl f.ambr_dl
    ∷ []

pub record Created : Type 0 where
  pub cause : ℕ
  pub ue_ip_bytes : List ℕ

abbrev pub created_default : Created
created_default = record { cause = 0; ue_ip_bytes = [] }

abbrev pub created_cases : List (Case Created)
created_cases =
    case_u8 Tag.gtp_cause (λ s v. record s { cause = v })
    ∷ case_bytes Tag.gtp_ue_ip (λ s v. record s { ue_ip_bytes = v })
    ∷ []

-- The answer to the MME.
abbrev pub created_ies : ℕ → ℕ → ℕ → List ℕ → List Ie
created_ies sgw_s11_teid sgw_s1u_teid imsi ue_ip_bytes =
    ie_u8 Tag.gtp_cause 16
    ∷ ie_u32 Tag.gtp_sender_teid sgw_s11_teid
    ∷ ie_u32 Tag.gtp_bearer_teid sgw_s1u_teid
    ∷ ie_u64 Tag.gtp_imsi imsi
    ∷ ie_bytes Tag.gtp_ue_ip (take 4 ue_ip_bytes)
    ∷ []

-- `handleCreateSessionReq` behind the P-GW's answer: what is sent to the MME, if anything.
unfoldable pub answer_create_session :
    SgwNode → ℕ → ℕ → ℕ → Option (List ℕ) → Outcome (SgwNode × Option (List ℕ))
answer_create_session s s11 s1u imsi none = ok (s, none)
answer_create_session s s11 s1u imsi (some pgw_resp) = do
  f ← parse created_cases created_default (new_reader pgw_resp).rest
  if not (f.cause == 16) || ltb (length f.ue_ip_bytes) 4
      then ok (s, none)
      else ok (
        record s { next_seq = next s.next_seq },
        some (
            udp_payload MessageType.gtp_create_session_rsp s.next_seq
              (created_ies s11 s1u imsi f.ue_ip_bytes)),
      )

pub record ModifyBearer : Type 0 where
  pub enb_teid : ℕ
  pub imsi : ℕ

abbrev pub modify_default : ModifyBearer
modify_default = record { enb_teid = 0; imsi = 0 }

abbrev pub modify_cases : List (Case ModifyBearer)
modify_cases =
    case_u32 Tag.gtp_enb_teid (λ s v. record s { enb_teid = v })
    ∷ case_u64 Tag.gtp_imsi (λ s v. record s { imsi = v })
    ∷ []

-- `handleModifyBearerReq`: the fields are only logged.
unfoldable pub handle_modify_bearer : SgwNode → List ℕ → Outcome (SgwNode × List ℕ)
handle_modify_bearer s payload = do
  f ← parse modify_cases modify_default (new_reader payload).rest
  ok (
    record s { next_seq = next s.next_seq },
    udp_payload MessageType.gtp_modify_bearer_rsp s.next_seq (ie_u8 Tag.gtp_cause 16 ∷ []),
  )

module _ {P : Type 0} (ask : P → List ℕ → Outcome (P × Option (List ℕ))) where
  unfoldable pub handle_create_session :
      P → SgwNode → List ℕ → Outcome (P × SgwNode × Option (List ℕ))
  unfolding answer_create_session
  handle_create_session p s payload = do
    f ← parse create_cases create_default (new_reader payload).rest
    let s11 = s.next_teid
    let s1u = next s11
    let s1 = record s { next_teid = next s1u; next_seq = next s.next_seq }
    (p', pgw_resp) ←
        ask p (udp_payload MessageType.gtp_create_session_req s.next_seq (forward_ies f s11))
    (s2, answer) ← answer_create_session s1 s11 s1u f.imsi pgw_resp
    ok (p', s2, answer)

  -- One round of `receiveLoop` with a datagram.
  unfoldable pub receive : P × SgwNode → List ℕ → Outcome ((P × SgwNode) × Option (List ℕ))
  unfolding handle_create_session handle_modify_bearer
  receive (p, s) payload =
      let msg_type = (new_reader payload).msg_type in
      if ltb (length payload) 8
      then ok ((p, s), none)
      else if msg_type == MessageType.gtp_create_session_req
      then (handle_create_session p s payload >>= λ (p', s', answer). ok ((p', s'), answer))
      else if msg_type == MessageType.gtp_modify_bearer_req
      then (handle_modify_bearer s payload >>= λ (s', answer). ok ((p, s'), some answer))
      else ok ((p, s), none)
