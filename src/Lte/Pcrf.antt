-- ===== src/Lte/Pcrf.antt =====
-- pcrf_node.cpp: policy requests of the P-GW.
use g_5g_ims_simulators.Prelude.{
  ℕ, ◌+◌, ◌%◌, ◌^◌, Option, none, some, List, [], ◌∷◌, length, ltb, ◌==◌, if◌then◌else◌,
}
use g_5g_ims_simulators.Lte.Tag
use g_5g_ims_simulators.Lte.MessageType
use g_5g_ims_simulators.Lte.Tlv.{
  Ie, ie_u8, ie_u32, ie_u64, ie_bytes, udp_payload, new_reader, Case, case_u8, case_u64, case_bytes,
  parse, Outcome, ok, ◌>>=◌,
}
use g_5g_ims_simulators.Lte.Profiles.{SubscriberProfile, get, or_internet}

pub record PcrfNode : Type 0 where
  pub next_seq : ℕ

-- The variables that `handleCCR` parses into.
pub record Ccr : Type 0 where
  pub imsi : ℕ
  pub apn : List ℕ
  pub qci : ℕ

abbrev pub ccr_default : Ccr
ccr_default = record { imsi = 0; apn = []; qci = 9 }

abbrev pub ccr_cases : List (Case Ccr)
ccr_cases =
    case_u64 Tag.gx_imsi (λ s v. record s { imsi = v })
    ∷ case_bytes Tag.gx_apn (λ s v. record s { apn = v })
    ∷ case_u8 Tag.gx_qci (λ s v. record s { qci = v })
    ∷ []

-- The answer for a subscriber and a profile.
abbrev pub cca_ies : ℕ → SubscriberProfile → List Ie
cca_ies imsi profile =
    ie_u8 Tag.gx_result_code 1
    ∷ ie_u64 Tag.gx_imsi imsi
    ∷ ie_bytes Tag.gx_apn profile.apn
    ∷ ie_u8 Tag.gx_qci profile.qci
    ∷ ie_u32 Tag.gx_max_ul_bps profile.max_ul_bps
    ∷ ie_u32 Tag.gx_max_dl_bps profile.max_dl_bps
    ∷ ie_bytes Tag.gx_rule_name profile.charging_rule
    ∷ []

abbrev pub next : ℕ → ℕ
next c = (c + 1) % 2 ^ 32

-- `handleCCR`, with the answer that it sends.
unfoldable pub handle_ccr : PcrfNode → List ℕ → Outcome (PcrfNode × List ℕ)
handle_ccr s payload = do
  f ← parse ccr_cases ccr_default (new_reader payload).rest
  let profile = get (or_internet f.apn)
  ok (
    record s { next_seq = next s.next_seq },
    udp_payload MessageType.dia_gx_cca_i s.next_seq (cca_ies f.imsi profile),
  )

-- One round of `receiveLoop` with a payload: what it sends, if anything.
unfoldable pub receive : PcrfNode → List ℕ → Outcome (PcrfNode × Option (List ℕ))
unfolding handle_ccr
receive s payload =
    if ltb (length payload) 8
    then ok (s, none)
    else if (new_reader payload).msg_type == MessageType.dia_gx_ccr_i
    then (handle_ccr s payload >>= λ (s', answer). ok (s', some answer))
    else ok (s, none)
