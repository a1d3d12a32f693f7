-- ===== src/Lte/Tag.antt =====
-- The tags of tlv.h, of 16 bits.
use g_5g_ims_simulators.Prelude.{ℕ}

abbrev pub enb_ue_s1ap_id : ℕ
enb_ue_s1ap_id = 0x0010

abbrev pub mme_ue_s1ap_id : ℕ
mme_ue_s1ap_id = 0x0011

abbrev pub rrc_cause : ℕ
rrc_cause = 0x0012

abbrev pub tai_mcc : ℕ
tai_mcc = 0x0013

abbrev pub tai_mnc : ℕ
tai_mnc = 0x0014

abbrev pub tai_tac : ℕ
tai_tac = 0x0015

abbrev pub eutran_cgi : ℕ
eutran_cgi = 0x0016

abbrev pub icsr_ambr_ul : ℕ
icsr_ambr_ul = 0x0050

abbrev pub icsr_ambr_dl : ℕ
icsr_ambr_dl = 0x0051

abbrev pub icsr_sgw_s1u_ip : ℕ
icsr_sgw_s1u_ip = 0x0052

abbrev pub icsr_sgw_teid : ℕ
icsr_sgw_teid = 0x0053

abbrev pub icsr_enb_teid : ℕ
icsr_enb_teid = 0x0054

abbrev pub nas_proto_disc : ℕ
nas_proto_disc = 0x0100

abbrev pub nas_sec_hdr : ℕ
nas_sec_hdr = 0x0101

abbrev pub nas_msg_type : ℕ
nas_msg_type = 0x0102

abbrev pub nas_attach_type : ℕ
nas_attach_type = 0x0103

abbrev pub nas_ksi : ℕ
nas_ksi = 0x0104

abbrev pub nas_id_type : ℕ
nas_id_type = 0x0105

abbrev pub nas_imsi : ℕ
nas_imsi = 0x0106

abbrev pub nas_ue_cap : ℕ
nas_ue_cap = 0x0107

abbrev pub nas_rand : ℕ
nas_rand = 0x0108

abbrev pub nas_autn : ℕ
nas_autn = 0x0109

abbrev pub nas_res : ℕ
nas_res = 0x010A

abbrev pub nas_ebi : ℕ
nas_ebi = 0x010B

abbrev pub nas_ue_ip : ℕ
nas_ue_ip = 0x010C

abbrev pub dia_imsi : ℕ
dia_imsi = 0x0200

abbrev pub dia_plmn : ℕ
dia_plmn = 0x0201

abbrev pub dia_rand : ℕ
dia_rand = 0x0202

abbrev pub dia_autn : ℕ
dia_autn = 0x0203

abbrev pub dia_xres : ℕ
dia_xres = 0x0204

abbrev pub dia_kasme : ℕ
dia_kasme = 0x0205

abbrev pub gtp_imsi : ℕ
gtp_imsi = 0x0300

abbrev pub gtp_cause : ℕ
gtp_cause = 0x0301

abbrev pub gtp_apn : ℕ
gtp_apn = 0x0302

abbrev pub gtp_pdn_type : ℕ
gtp_pdn_type = 0x0303

abbrev pub gtp_ebi : ℕ
gtp_ebi = 0x0304

abbrev pub gtp_qci : ℕ
gtp_qci = 0x0305

abbrev pub gtp_sender_teid : ℕ
gtp_sender_teid = 0x0306

abbrev pub gtp_bearer_teid : ℕ
gtp_bearer_teid = 0x0307

abbrev pub gtp_ue_ip : ℕ
gtp_ue_ip = 0x0308

abbrev pub gtp_enb_teid : ℕ
gtp_enb_teid = 0x0309

abbrev pub gtp_ambr_ul : ℕ
gtp_ambr_ul = 0x030A

abbrev pub gtp_ambr_dl : ℕ
gtp_ambr_dl = 0x030B

abbrev pub gx_imsi : ℕ
gx_imsi = 0x0400

abbrev pub gx_apn : ℕ
gx_apn = 0x0401

abbrev pub gx_qci : ℕ
gx_qci = 0x0402

abbrev pub gx_rule_name : ℕ
gx_rule_name = 0x0403

abbrev pub gx_max_ul_bps : ℕ
gx_max_ul_bps = 0x0404

abbrev pub gx_max_dl_bps : ℕ
gx_max_dl_bps = 0x0405

abbrev pub gx_result_code : ℕ
gx_result_code = 0x0406

abbrev pub tau_update_type : ℕ
tau_update_type = 0x0500

abbrev pub tau_imsi : ℕ
tau_imsi = 0x0501

abbrev pub ho_type : ℕ
ho_type = 0x0600

abbrev pub ho_cause : ℕ
ho_cause = 0x0601

abbrev pub ho_target_tac : ℕ
ho_target_tac = 0x0602

abbrev pub ho_target_cell : ℕ
ho_target_cell = 0x0603

abbrev pub ho_src_container : ℕ
ho_src_container = 0x0604

abbrev pub ho_tgt_container : ℕ
ho_tgt_container = 0x0605

abbrev pub ho_enb_teid_new : ℕ
ho_enb_teid_new = 0x0606

abbrev pub ho_pdcp_sn_ul : ℕ
ho_pdcp_sn_ul = 0x0607

abbrev pub ho_pdcp_sn_dl : ℕ
ho_pdcp_sn_dl = 0x0608
