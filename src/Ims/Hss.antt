-- ===== src/Ims/Hss.antt =====
-- ims/ims_hss.cpp: the answer to the S-CSCF's Server-Assignment-Request.
use g_5g_ims_simulators.Prelude.{ℕ, Option, none, some, List, [], ◌∷◌, ◌==◌, if◌then◌else◌}
use g_5g_ims_simulators.Prelude.Texts.{codes}
use g_5g_ims_simulators.Lte.Tlv.{
  Ie, ie_bytes, udp_payload, new_reader, Case, case_bytes, parse, Outcome, ok, ◌>>=◌,
}
use g_5g_ims_simulators.Lte.Pcrf.{next}
use g_5g_ims_simulators.Ims.Sip.{
  dia_cx_sar, dia_cx_saa, tag_cx_impu, tag_cx_impi, tag_cx_scscf_name,
}

pub record ImsHssNode : Type 0 where
  pub next_seq : ℕ

pub record Sar : Type 0 where
  pub impu : List ℕ
  pub impi : List ℕ

abbrev pub sar_default : Sar
sar_default = record { impu = []; impi = [] }

abbrev pub sar_cases : List (Case Sar)
sar_cases =
    case_bytes tag_cx_impu (λ f v. record f { impu = v })
    ∷ case_bytes tag_cx_impi (λ f v. record f { impi = v })
    ∷ []

abbrev pub profile : List ℕ
profile = codes "MMTEL-VoLTE; iFC=[REGISTER->MTAS,INVITE->MTAS]; MSISDN=+919000000001"

abbrev pub saa_ies : List Ie
saa_ies = ie_bytes tag_cx_scscf_name profile ∷ []

-- `handleSAR`, with the answer that it sends.
unfoldable pub handle_sar : ImsHssNode → List ℕ → Outcome (ImsHssNode × List ℕ)
handle_sar s payload = do
  f ← parse sar_cases sar_default (new_reader payload).rest
  ok (record s { next_seq = next s.next_seq }, udp_payload dia_cx_saa s.next_seq saa_ies)

-- One round of `receiveLoop` with a payload.
unfoldable pub receive : ImsHssNode → List ℕ → Outcome (ImsHssNode × Option (List ℕ))
unfolding handle_sar
receive s payload =
    if (new_reader payload).msg_type == dia_cx_sar
    then (handle_sar s payload >>= λ (s', answer). ok (s', some answer))
    else ok (s, none)
