-- ===== src/Lte/Tests.antt =====
-- The 4G nodes at concrete inputs.
use g_5g_ims_simulators.Prelude.{
  ℕ, ◌+◌, ◌*◌, ◌≡◌, refl, true, false, Option, none, some, List, [], ◌∷◌, ◌++◌, arith, ◌⊎◌,
}
use g_5g_ims_simulators.Prelude.Tables
use g_5g_ims_simulators.Lte.Tag
use g_5g_ims_simulators.Lte.MessageType
use g_5g_ims_simulators.Lte.Tlv.{
  Ie, ie_u32, ie_u8, ie_u16, ie_u64, ie_data, th, pu16, pu32, udp_payload, frame, recv_frame,
  new_reader, parse, Outcome, ok, out_of_bounds,
}
use g_5g_ims_simulators.Lte.Tlv.RoundTrip.{ies_data, recv-frame}
use g_5g_ims_simulators.Lte.Tlv.Loop.{apply_ie, apply_ies, parse_ends}
use g_5g_ims_simulators.Lte.Tlv.Messages.{
  parse-append, parse_skips-unknown, parse-payload, msg_type-payload, payload-size, length-payload,
}
use g_5g_ims_simulators.Lte.Tlv.Truncated.{truncated_u64}
use g_5g_ims_simulators.Lte.Profiles.{same_text, get, internet, ims, or_internet}
use g_5g_ims_simulators.Lte.Pcrf.{PcrfNode, ccr_cases, ccr_default, cca_ies, next, Ccr}
use g_5g_ims_simulators.Lte.Pcrf
use g_5g_ims_simulators.Lte.Pgw.{PgwNode, ccr_ies, ip_bytes, approved}
use g_5g_ims_simulators.Lte.Pgw
use g_5g_ims_simulators.Lte.Sgw.{SgwNode, created_ies}
use g_5g_ims_simulators.Lte.Sgw
use g_5g_ims_simulators.Lte.Hss.{HssNode}
use g_5g_ims_simulators.Lte.Enb.{EnbNode, ul_nas_ies, auth_response_ies, initial_ue_ies}
use g_5g_ims_simulators.Lte.Mme.Context.{registered, auth_pending, UeContext}
use g_5g_ims_simulators.Lte.Mme.Store.{UeContextStore, no_contexts, insert, find}
use g_5g_ims_simulators.Lte.Mme.Store.Map.{
  IsValid, no_contexts-IsValid, insert-IsValid, find-insert,
}
use g_5g_ims_simulators.Lte.Mme.Node.{MmeNode, started}
use g_5g_ims_simulators.Lte.Mme.Attach.{
  initial_cases, initial_default, no_vectors, create_request_ies, handle_initial_ue_msg,
  auth_arrived, handle_ul_nas_transport, UlNas, ul_nas_cases, ul_nas_default, res_matches,
}
use g_5g_ims_simulators.Lte.Mme.Attach.Moves.{Moved, ul_nas_moves}
use g_5g_ims_simulators.Lte.Mme.Attach.Auth.{forged_response, unauthenticated_complete}
use g_5g_ims_simulators.Lte.Enb.{Icsr, icsr_cases, icsr_default, handle_icsr}
use g_5g_ims_simulators.Lte.Enb.Mobility.{handle_ho_request, handle_mme_status_xfer}
use g_5g_ims_simulators.Lte.Mobility.{with_ids}
use g_5g_ims_simulators.Lte.Mobility.Handover.{HandedOver, hands_over, other_tunnel}
use g_5g_ims_simulators.Lte.Session.Policy.{pcrf_answers}
use g_5g_ims_simulators.Lte.Session.Chain.{session_granted, pgw_after, sgw_after, Wide}
use g_5g_ims_simulators.Lte.Session.Denied.{session_denied}
use g_5g_ims_simulators.Lte.Session.Authentication.{Challenged, authenticates}
use g_5g_ims_simulators.Lte.Session.Setup.{Up}
use g_5g_ims_simulators.Lte.Session.Registration.{Registers, registers, first_fields}

abbrev draw : ℕ → ℕ → ℕ
draw seed i = seed + 77 * i

abbrev pcrf : PcrfNode
pcrf = record { next_seq = 1 }

abbrev pgw : PgwNode
pgw = record { pcrf_connected = true; next_teid = 2000; next_ip = 0x0A000001; next_seq = 1 }

abbrev sgw : SgwNode
sgw = record { next_teid = 1000; next_seq = 1 }

abbrev hss : HssNode
hss = record { next_seq = 1 }

abbrev enb : EnbNode
enb = record { next_enb_teid = 100; next_seq = 1 }

all-Up : Up ((pcrf, pgw), sgw)
all-Up = record {
  pcrf_seq = omega arith;
  pgw_seq = omega arith;
  pgw_teid = omega arith;
  sgw_seq = omega arith;
  sgw_teid = omega arith;
  connected = refl;
}

registers_example : Registers draw ((pcrf, pgw), sgw) started hss enb 1
registers_example =
    registers draw ((pcrf, pgw), sgw) started hss enb 1 no_contexts-IsValid (omega arith)
      (omega arith) (omega arith) (omega arith) (omega arith) (omega arith) all-Up

abbrev first_message : List ℕ
first_message = udp_payload MessageType.s1ap_initial_ue_msg 1 (initial_ue_ies 1)

first_parsed :
    parse initial_cases initial_default (new_reader first_message).rest ≡ ok (first_fields 1)
first_parsed =
    parse-payload MessageType.s1ap_initial_ue_msg 1 (initial_ue_ies 1) (omega arith) (omega arith)
      initial_cases initial_default (first_fields 1) (ground arith)
      (unfold apply_ies apply_ie in refl)

authenticates_example : Challenged draw started hss enb first_message (first_fields 1)
authenticates_example =
    authenticates draw started hss enb first_message (first_fields 1) no_contexts-IsValid
      (omega arith) (omega arith) (omega arith) (omega arith) first_parsed
      (record {
        enb_id_fits = omega arith;
        imsi_fits = omega arith;
        mcc_fits = omega arith;
        mnc_fits = omega arith;
      })

abbrev request : List ℕ
request = udp_payload MessageType.gtp_create_session_req 1 (create_request_ies 404100000000001)

abbrev fields : Sgw.CreateSession
fields = record {
  imsi = 404100000000001;
  apn = internet;
  qci = 9;
  ebi = 5;
  ambr_ul = 50000000;
  ambr_dl = 100000000;
}

request_parsed : parse Sgw.create_cases Sgw.create_default (new_reader request).rest ≡ ok fields
request_parsed =
    parse-payload MessageType.gtp_create_session_req 1 (create_request_ies 404100000000001)
      (omega arith) (omega arith) Sgw.create_cases Sgw.create_default fields (ground arith)
      (unfold apply_ies apply_ie in refl)

fields-Wide : Wide fields
fields-Wide = record {
  imsi_fits = omega arith;
  apn_fits = omega arith;
  qci_fits = omega arith;
  ebi_fits = omega arith;
  ul_fits = omega arith;
  dl_fits = omega arith;
}

session_granted_example :
    Sgw.receive (Pgw.receive Pcrf.receive) ((pcrf, pgw), sgw) request
    ≡ ok (
      ((record { next_seq = 2 }, pgw_after pgw), sgw_after sgw),
      some (
          udp_payload MessageType.gtp_create_session_rsp 2
            (created_ies 1000 1001 404100000000001 (10 ∷ 0 ∷ 0 ∷ 1 ∷ []))),
    )
session_granted_example =
    session_granted pcrf pgw sgw request fields (omega arith) (omega arith) (omega arith)
      (omega arith) (omega arith) refl
      (payload-size MessageType.gtp_create_session_req 1 (create_request_ies 404100000000001))
      (msg_type-payload MessageType.gtp_create_session_req 1 (create_request_ies 404100000000001)
        (omega arith) (omega arith))
      request_parsed fields-Wide

abbrev silent : PcrfNode → List ℕ → Outcome (PcrfNode × Option (List ℕ))
silent c message = ok (c, none)

session_denied_example :
    Sgw.receive (Pgw.receive silent) ((pcrf, pgw), sgw) request
    ≡ ok
        (((pcrf, record pgw { next_seq = 3 }), record sgw { next_teid = 1002; next_seq = 2 }), none)
session_denied_example =
    session_denied silent pcrf pcrf pgw sgw request fields none (omega arith) (omega arith)
      (omega arith) refl
      (payload-size MessageType.gtp_create_session_req 1 (create_request_ies 404100000000001))
      (msg_type-payload MessageType.gtp_create_session_req 1 (create_request_ies 404100000000001)
        (omega arith) (omega arith))
      request_parsed fields-Wide refl (unfold approved in refl)

pcrf_answers_example :
    Pcrf.receive pcrf (udp_payload MessageType.dia_gx_ccr_i 7 (ccr_ies 5 ims 1))
    ≡ ok (
      record { next_seq = 2 },
      some (udp_payload MessageType.dia_gx_cca_i 1 (cca_ies 5 (get (or_internet ims)))),
    )
pcrf_answers_example =
    pcrf_answers pcrf 7 5 ims 1 (omega arith) (omega arith) (omega arith) (omega arith)

parse_ends_example :
    ((s : Ccr) × (parse ccr_cases ccr_default (1 ∷ 4 ∷ 9 ∷ 0 ∷ 65 ∷ []) ≡ ok s))
    ⊎ (parse ccr_cases ccr_default (1 ∷ 4 ∷ 9 ∷ 0 ∷ 65 ∷ []) ≡ out_of_bounds)
parse_ends_example = parse_ends ccr_cases ccr_default (1 ∷ 4 ∷ 9 ∷ 0 ∷ 65 ∷ [])

abbrev some_ies : List Ie
some_ies = ie_u64 Tag.gx_imsi 5 ∷ ie_u8 Tag.gx_qci 1 ∷ []

abbrev some_fields : Ccr
some_fields = record { imsi = 5; apn = []; qci = 1 }

parse-append_example :
    parse ccr_cases ccr_default (ies_data some_ies ++ (1 ∷ 4 ∷ []))
    ≡ parse ccr_cases some_fields (1 ∷ 4 ∷ [])
parse-append_example =
    parse-append ccr_cases some_ies ccr_default some_fields (1 ∷ 4 ∷ []) (ground arith)
      (unfold apply_ies apply_ie in refl)

parse_skips-unknown_example :
    parse ccr_cases ccr_default
      (ies_data some_ies ++ (ie_data (ie_u16 Tag.tai_tac 1) ++ ies_data some_ies))
    ≡ parse ccr_cases ccr_default (ies_data some_ies ++ ies_data some_ies)
parse_skips-unknown_example =
    parse_skips-unknown ccr_cases some_ies (ie_u16 Tag.tai_tac 1) ccr_default some_fields
      (ies_data some_ies) (ground arith) (ground arith) (unfold apply_ies apply_ie in refl)
      (ground arith)

truncated_u64_example :
    parse ccr_cases ccr_default (ies_data some_ies ++ (th Tag.gx_imsi 2 ++ (9 ∷ 9 ∷ [])))
    ≡ out_of_bounds
truncated_u64_example =
    truncated_u64 _ Tag.gx_imsi 2 (λ s v. record s { imsi = v }) some_ies ccr_default some_fields
      (9 ∷ 9 ∷ []) (omega arith) (ground arith) (unfold apply_ies apply_ie in refl) (omega arith)

recv-frame_example :
    recv_frame (frame MessageType.dia_air 1 some_ies ++ (7 ∷ []))
    ≡ some (udp_payload MessageType.dia_air 1 some_ies, 7 ∷ [])
recv-frame_example = recv-frame MessageType.dia_air 1 some_ies (7 ∷ []) (
    rw (length-payload MessageType.dia_air 1 some_ies) (unfold ie_data th pu16 pu32 in omega arith))

abbrev a_context : UeContext
a_context = record {
  imsi = 5;
  mme_ue_s1ap_id = 0;
  enb_ue_s1ap_id = 1;
  emm_state = auth_pending;
  auth = no_vectors;
  bearers = [];
  tai_mcc = 404;
  tai_mnc = 10;
  tai_tac = 1;
}

abbrev one_context : UeContextStore
one_context = (insert no_contexts a_context).1

one_context-IsValid : IsValid one_context
one_context-IsValid = insert-IsValid no_contexts no_contexts-IsValid a_context

find-insert_example : find one_context 1 ≡ some (record a_context { mme_ue_s1ap_id = 1 })
find-insert_example = find-insert no_contexts no_contexts-IsValid a_context 1

abbrev registered_now : UeContext → UeContext
registered_now c = record c { emm_state = registered }

abbrev one_ue : MmeNode
one_ue = record { ue_store = one_context; pending_auth = []; next_seq = 3 }

abbrev forgery : List Ie
forgery = auth_response_ies 1 1 (1 ∷ 1 ∷ 1 ∷ 1 ∷ 1 ∷ 1 ∷ 1 ∷ 1 ∷ [])

abbrev forged : UlNas
forged = record {
  mme_id = 1;
  enb_id = 1;
  nas_type = 0x53;
  res = 1 ∷ 1 ∷ 1 ∷ 1 ∷ 1 ∷ 1 ∷ 1 ∷ 1 ∷ [];
}

abbrev closed : ℕ → List ℕ → Outcome (ℕ × Option (List ℕ))
closed p message = ok (p, none)

ul_nas_moves_example :
    (c : UeContext) × (find one_ue.ue_store 1 ≡ some c)
    × Moved forged 1 (record a_context { mme_ue_s1ap_id = 1 }) c
ul_nas_moves_example =
    ul_nas_moves closed 0 one_ue (udp_payload MessageType.s1ap_ul_nas_transport 9 forgery) forged
      (0, one_ue, []) 1 (record a_context { mme_ue_s1ap_id = 1 }) one_context-IsValid
      (parse-payload MessageType.s1ap_ul_nas_transport 9 forgery (omega arith) (omega arith)
        ul_nas_cases ul_nas_default forged (ground arith) (unfold apply_ies apply_ie in refl))
      forgery_ignored (find-insert no_contexts no_contexts-IsValid a_context 1)
  where
    forgery_ignored :
        handle_ul_nas_transport closed 0 one_ue
          (udp_payload MessageType.s1ap_ul_nas_transport 9 forgery)
        ≡ ok (0, one_ue, [])
    forgery_ignored =
        forged_response closed 0 one_ue (udp_payload MessageType.s1ap_ul_nas_transport 9 forgery)
          forged (record a_context { mme_ue_s1ap_id = 1 })
          (parse-payload MessageType.s1ap_ul_nas_transport 9 forgery (omega arith) (omega arith)
            ul_nas_cases ul_nas_default forged (ground arith) (unfold apply_ies apply_ie in refl))
          refl (find-insert no_contexts no_contexts-IsValid a_context 1)
          (unfold res_matches same_text in refl)

abbrev complete : List ℕ
complete = udp_payload MessageType.s1ap_ul_nas_transport 2 (ul_nas_ies 1 1 0x46)

abbrev complete_fields : UlNas
complete_fields = record { mme_id = 1; enb_id = 1; nas_type = 0x46; res = [] }

unauthenticated_complete_example :
    (m1 : MmeNode) × (m2 : MmeNode) × (m3 : MmeNode) × (air : List ℕ) × (challenge : List ℕ)
    × (ctx : UeContext) × (handle_initial_ue_msg started first_message
        ≡ ok (first_fields 1, 1, m1, air))
    × (auth_arrived
          (record m1 { pending_auth = (404100000000001, no_vectors) ∷ [] })
          (first_fields 1)
          1
          false
        ≡ some (m2, challenge ∷ []))
    × (handle_ul_nas_transport closed 0 m2 complete ≡ ok (0, m3, []))
    × (find m3.ue_store 1 ≡ some ctx)
    × (ctx.emm_state ≡ registered)
    × (ctx.imsi ≡ 404100000000001)
    × (ctx.bearers ≡ [])
unauthenticated_complete_example =
    unauthenticated_complete closed 0 started first_message complete (first_fields 1)
      complete_fields ((404100000000001, no_vectors) ∷ []) no_vectors no_contexts-IsValid
      first_parsed (unfold Tables.find in refl)
      (parse-payload MessageType.s1ap_ul_nas_transport 2 (ul_nas_ies 1 1 0x46) (omega arith)
        (omega arith) ul_nas_cases ul_nas_default complete_fields (ground arith)
        (unfold apply_ies apply_ie in refl))
      refl refl

abbrev with_session : UeContext
with_session = record a_context {
  bearers =
      record {
        ebi = 5;
        qci = 9;
        sgw_s11_teid = 1;
        sgw_s1u_teid = 2;
        pgw_s5_teid = 0;
        enb_s1u_teid = 7;
        ue_ip = 10 ∷ 0 ∷ 0 ∷ 1 ∷ [];
      }
      ∷ [];
}

abbrev in_session : MmeNode
in_session = record {
  ue_store = (insert no_contexts with_session).1;
  pending_auth = [];
  next_seq = 3;
}

hands_over_example :
    HandedOver closed 0 0 in_session enb 1 1 100 (record with_session { mme_ue_s1ap_id = 1 })
hands_over_example =
    hands_over closed 0 0 in_session enb 1 1 (record with_session { mme_ue_s1ap_id = 1 }) none
      (insert-IsValid no_contexts no_contexts-IsValid with_session) (omega arith) (omega arith)
      (omega arith) (omega arith) (omega arith) (omega arith)
      (find-insert no_contexts no_contexts-IsValid with_session 1) refl

abbrev other_setup : List Ie
other_setup = ie_u32 Tag.mme_ue_s1ap_id 2 ∷ ie_u32 Tag.enb_ue_s1ap_id 2 ∷ []

abbrev other_fields : Icsr
other_fields = record icsr_default { mme_id = 2; enb_id = 2 }

other_tunnel_example :
    (e2 : EnbNode) × (e3 : EnbNode) × (e4 : EnbNode) × (sent : List (List ℕ)) × (handle_ho_request
        enb
        (udp_payload MessageType.s1ap_handover_request 5 (with_ids 1 1 (ie_u8 Tag.ho_type 0 ∷ [])))
      ≡ ok (
        e2,
        udp_payload MessageType.s1ap_handover_request_ack 1
            (with_ids 1 1 (ie_u32 Tag.ho_enb_teid_new 100 ∷ [])),
      ))
    × (handle_icsr e2 (udp_payload MessageType.s1ap_initial_context_setup_req 6 other_setup)
        ≡ ok (e3, sent))
    × (handle_mme_status_xfer e3 (
          udp_payload MessageType.s1ap_mme_status_transfer 7
            (with_ids 1 1 (ie_u32 Tag.ho_pdcp_sn_ul 42 ∷ ie_u32 Tag.ho_pdcp_sn_dl 37 ∷ [])))
        ≡ ok (
          e4,
          udp_payload MessageType.s1ap_handover_notify e3.next_seq
              (with_ids 1 1 (ie_u32 Tag.ho_enb_teid_new 101 ∷ [])),
        ))
other_tunnel_example =
    other_tunnel enb 5 7 1 1 42 37
      (udp_payload MessageType.s1ap_initial_context_setup_req 6 other_setup) other_fields
      (omega arith) (omega arith) (omega arith) (omega arith) (omega arith) (omega arith)
      (omega arith)
      (parse-payload MessageType.s1ap_initial_context_setup_req 6 other_setup (omega arith)
        (omega arith) icsr_cases icsr_default other_fields (ground arith)
        (unfold apply_ies apply_ie in refl))
