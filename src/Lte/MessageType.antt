-- ===== src/Lte/MessageType.antt =====
-- The message types of message_types.h, of 16 bits.
use g_5g_ims_simulators.Prelude.{ℕ}

abbrev pub s1ap_initial_ue_msg : ℕ
s1ap_initial_ue_msg = 0x0001

abbrev pub s1ap_dl_nas_transport : ℕ
s1ap_dl_nas_transport = 0x0002

abbrev pub s1ap_ul_nas_transport : ℕ
s1ap_ul_nas_transport = 0x0003

abbrev pub s1ap_initial_context_setup_req : ℕ
s1ap_initial_context_setup_req = 0x0004

abbrev pub s1ap_initial_context_setup_rsp : ℕ
s1ap_initial_context_setup_rsp = 0x0005

abbrev pub s1ap_tau_request : ℕ
s1ap_tau_request = 0x0006

abbrev pub s1ap_tau_accept : ℕ
s1ap_tau_accept = 0x0007

abbrev pub s1ap_handover_required : ℕ
s1ap_handover_required = 0x0010

abbrev pub s1ap_handover_request : ℕ
s1ap_handover_request = 0x0011

abbrev pub s1ap_handover_request_ack : ℕ
s1ap_handover_request_ack = 0x0012

abbrev pub s1ap_handover_command : ℕ
s1ap_handover_command = 0x0013

abbrev pub s1ap_enb_status_transfer : ℕ
s1ap_enb_status_transfer = 0x0014

abbrev pub s1ap_mme_status_transfer : ℕ
s1ap_mme_status_transfer = 0x0015

abbrev pub s1ap_handover_notify : ℕ
s1ap_handover_notify = 0x0016

abbrev pub s1ap_ue_context_release_cmd : ℕ
s1ap_ue_context_release_cmd = 0x0017

abbrev pub s1ap_ue_context_release_cmpl : ℕ
s1ap_ue_context_release_cmpl = 0x0018

abbrev pub dia_air : ℕ
dia_air = 0x0101

abbrev pub dia_aia : ℕ
dia_aia = 0x0102

abbrev pub gtp_create_session_req : ℕ
gtp_create_session_req = 0x0201

abbrev pub gtp_create_session_rsp : ℕ
gtp_create_session_rsp = 0x0202

abbrev pub gtp_modify_bearer_req : ℕ
gtp_modify_bearer_req = 0x0203

abbrev pub gtp_modify_bearer_rsp : ℕ
gtp_modify_bearer_rsp = 0x0204

abbrev pub dia_gx_ccr_i : ℕ
dia_gx_ccr_i = 0x0401

abbrev pub dia_gx_cca_i : ℕ
dia_gx_cca_i = 0x0402
