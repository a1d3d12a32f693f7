-- ===== src/Lte/Session/Policy.antt =====
-- The PCRF's answers to the P-GW's requests.
use g_5g_ims_simulators.Prelude.{ℕ, ◌^◌, ◌<◌, ◌≡◌, refl, some, List, arith, length}
use g_5g_ims_simulators.Lte.MessageType
use g_5g_ims_simulators.Lte.Tlv.{udp_payload, ok}
use g_5g_ims_simulators.Lte.Tlv.Loop.{apply_ie, apply_ies}
use g_5g_ims_simulators.Lte.Tlv.Messages.{msg_type-payload, parse-payload, payload-size}
use g_5g_ims_simulators.Lte.Profiles.{get, or_internet}
use g_5g_ims_simulators.Lte.Pcrf.{
  PcrfNode, handle_ccr, ccr_cases, ccr_default, cca_ies, next, receive,
}
use g_5g_ims_simulators.Lte.Pgw.{ccr_ies}

-- A request with the P-GW's elements is answered with the profile of the access point, the one for
-- the internet if the access point is empty or unknown, for the subscriber that was asked about.
pub pcrf_answers :
    (s : PcrfNode) (seq imsi : ℕ) (apn : List ℕ) (qci : ℕ)
    → seq < 2 ^ 32
    → imsi < 2 ^ 64
    → length apn < 2 ^ 16
    → qci < 2 ^ 8
    → receive s (udp_payload MessageType.dia_gx_ccr_i seq (ccr_ies imsi apn qci))
      ≡ ok (
        record s { next_seq = next s.next_seq },
        some (
            udp_payload MessageType.dia_gx_cca_i s.next_seq (cca_ies imsi (get (or_internet apn)))),
      )
unfolding receive handle_ccr
pcrf_answers s seq imsi apn qci hs hi ha hq = rw (
  payload-size MessageType.dia_gx_ccr_i seq (ccr_ies imsi apn qci),
  msg_type-payload MessageType.dia_gx_ccr_i seq (ccr_ies imsi apn qci) (omega arith) hs,
  parse-payload MessageType.dia_gx_ccr_i seq (ccr_ies imsi apn qci) (omega arith) hs ccr_cases
      ccr_default (record { imsi = imsi; apn = apn; qci = qci }) (ground arith)
      (unfold apply_ies apply_ie in refl),
)
