-- ===== src/Lte/Pgw.antt =====
-- pgw_node.cpp: sessions for the S-GW, after the PCRF's approval. The nodes are threads of one
-- process, so that a read past the end in one of them ends all. `P` is the state behind the
-- connection to the PCRF, and `ask` what it makes of a message: an answer, or none in time.
use g_5g_ims_simulators.Prelude.{
  ℕ, ◌/◌, ◌%◌, ◌^◌, Bool, true, false, Option, none, some, List, [], ◌∷◌, length, ltb, ◌==◌,
  if◌then◌else◌,
}
use g_5g_ims_simulators.Lte.Tag
use g_5g_ims_simulators.Lte.MessageType
use g_5g_ims_simulators.Lte.Tlv.{
  Ie, ie_u8, ie_u32, ie_u64, ie_bytes, udp_payload, new_reader, Case, case_u8, case_u64, case_bytes,
  parse, Outcome, ok, ◌>>=◌,
}
use g_5g_ims_simulators.Lte.Profiles.{or_internet}
use g_5g_ims_simulators.Lte.Pcrf.{next}

pub record PgwNode : Type 0 where
  pub pcrf_connected : Bool
  pub next_teid : ℕ  -- atomic uint32
  pub next_ip : ℕ  -- atomic uint32
  pub next_seq : ℕ

-- What `handleCreateSessionReq` parses into.
pub record CreateSession : Type 0 where
  pub imsi : ℕ
  pub apn : List ℕ
  pub qci : ℕ
  pub ebi : ℕ

abbrev pub create_default : CreateSession
create_default = record { imsi = 0; apn = []; qci = 9; ebi = 5 }

abbrev pub create_cases : List (Case CreateSession)
create_cases =
    case_u64 Tag.gtp_imsi (λ s v. record s { imsi = v })
    ∷ case_bytes Tag.gtp_apn (λ s v. record s { apn = v })
    ∷ case_u8 Tag.gtp_ebi (λ s v. record s { ebi = v })
    ∷ case_u8 Tag.gtp_qci (λ s v. record s { qci = v })
    ∷ []

abbrev pub ccr_ies : ℕ → List ℕ → ℕ → List Ie
ccr_ies imsi apn qci = ie_u64 Tag.gx_imsi imsi ∷ ie_bytes Tag.gx_apn apn ∷ ie_u8 Tag.gx_qci qci ∷ []

pub record Cca : Type 0 where
  pub rule_name : List ℕ
  pub result : ℕ

abbrev pub cca_default : Cca
cca_default = record { rule_name = []; result = 0 }

abbrev pub cca_cases : List (Case Cca)
cca_cases =
    case_u8 Tag.gx_result_code (λ s v. record s { result = v })
    ∷ case_bytes Tag.gx_rule_name (λ s v. record s { rule_name = v })
    ∷ []

-- The end of `sendCCRandWaitCCA`: whether the PCRF has approved.
unfoldable pub approved : Option (List ℕ) → Outcome Bool
approved none = ok false
approved (some payload) =
    if (new_reader payload).msg_type == MessageType.dia_gx_cca_i
    then (parse cca_cases cca_default (new_reader payload).rest >>= λ f. ok (f.result == 1))
    else ok false

module _ {P : Type 0} (ask : P → List ℕ → Outcome (P × Option (List ℕ))) where
  unfoldable pub send_ccr : P → PgwNode → ℕ → List ℕ → ℕ → Outcome (P × PgwNode × Bool)
  unfolding approved
  send_ccr p s imsi apn qci =
      ask p (udp_payload MessageType.dia_gx_ccr_i s.next_seq (ccr_ies imsi apn qci))
      >>= λ (p', answer).
          approved answer >>= λ b. ok (p', record s { next_seq = next s.next_seq }, b)

-- `allocateIP` and the reading of its text: the address, and its four bytes, highest first.
abbrev pub ip_bytes : ℕ → List ℕ
ip_bytes raw = raw / 2 ^ 24 % 2 ^ 8 ∷ raw / 2 ^ 16 % 2 ^ 8 ∷ raw / 2 ^ 8 % 2 ^ 8 ∷ raw % 2 ^ 8 ∷ []

unfoldable pub allocate_ip : PgwNode → List ℕ × PgwNode
allocate_ip s = (ip_bytes s.next_ip, record s { next_ip = next s.next_ip })

abbrev pub accept_ies : ℕ → List ℕ → ℕ → List Ie
accept_ies teid ip ebi =
    ie_u8 Tag.gtp_cause 16
    ∷ ie_u32 Tag.gtp_sender_teid teid
    ∷ ie_bytes Tag.gtp_ue_ip ip
    ∷ ie_u8 Tag.gtp_ebi ebi
    ∷ []

abbrev pub reject_ies : List Ie
reject_ies = ie_u8 Tag.gtp_cause 64 ∷ []

-- `handleCreateSessionReq` behind the PCRF's answer.
unfoldable pub answer_create_session : PgwNode → CreateSession → Bool → PgwNode × List ℕ
unfolding allocate_ip
answer_create_session s f granted =
    let (ip, s1) = allocate_ip s in
    let s2 = record s1 { next_teid = next s1.next_teid; next_seq = next s1.next_seq } in
    if granted
    then (
      s2,
      udp_payload MessageType.gtp_create_session_rsp s.next_seq (accept_ies s.next_teid ip f.ebi),
    )
    else (
      record s { next_seq = next s.next_seq },
      udp_payload MessageType.gtp_create_session_rsp s.next_seq reject_ies,
    )

module _ {P : Type 0} (ask : P → List ℕ → Outcome (P × Option (List ℕ))) where
  unfoldable pub handle_create_session : P → PgwNode → List ℕ → Outcome (P × PgwNode × List ℕ)
  unfolding send_ccr answer_create_session
  handle_create_session p s payload = do
    f ← parse create_cases create_default (new_reader payload).rest
    (p', s', granted) ←
        if s.pcrf_connected
        then send_ccr ask p s f.imsi (or_internet f.apn) f.qci
        else ok (p, s, true)
    let (s2, answer) = answer_create_session s' f granted
    ok (p', s2, answer)

  -- One round of `receiveLoop` with a datagram.
  unfoldable pub receive : P × PgwNode → List ℕ → Outcome ((P × PgwNode) × Option (List ℕ))
  unfolding handle_create_session
  receive (p, s) payload =
      if ltb (length payload) 8
      then ok ((p, s), none)
      else if (new_reader payload).msg_type == MessageType.gtp_create_session_req
      then (handle_create_session p s payload >>= λ (p', s', answer). ok ((p', s'), some answer))
      else ok ((p, s), none)
