-- ===== src/Lte/Enb/Mobility.antt =====
-- enb_node.cpp: tracking area updates and S1 handover, with what is sent to the MME.
use g_5g_ims_simulators.Prelude.{ℕ, ◌+◌, ◌-◌, ◌%◌, ◌^◌, List, [], ◌∷◌}
use g_5g_ims_simulators.Lte.Tag
use g_5g_ims_simulators.Lte.MessageType
use g_5g_ims_simulators.Lte.Tlv.{
  Ie, ie_u8, ie_u32, ie_u64, udp_payload, new_reader, parse, Outcome, ok, ◌>>=◌,
}
use g_5g_ims_simulators.Lte.Pcrf.{next}
use g_5g_ims_simulators.Lte.Mobility.{fields_default, id_cases, pdcp_cases, with_ids}
use g_5g_ims_simulators.Lte.Enb.{EnbNode, base_imsi}

abbrev pub to_mme : EnbNode → ℕ → List Ie → EnbNode × List ℕ
to_mme s msg_type ies =
    (record s { next_seq = next s.next_seq }, udp_payload msg_type s.next_seq ies)

unfoldable pub send_tau_request : EnbNode → ℕ → ℕ → ℕ → EnbNode × List ℕ
send_tau_request s mme_id enb_id imsi =
    to_mme s MessageType.s1ap_tau_request
      (with_ids mme_id enb_id (ie_u64 Tag.tau_imsi imsi ∷ ie_u8 Tag.tau_update_type 0 ∷ []))

-- The accept is only logged.
unfoldable pub handle_tau_accept : EnbNode → List ℕ → Outcome EnbNode
handle_tau_accept s payload = parse id_cases fields_default (new_reader payload).rest >>= λ f. ok s

unfoldable pub send_handover_required : EnbNode → ℕ → ℕ → EnbNode × List ℕ
send_handover_required s mme_id enb_id = to_mme s MessageType.s1ap_handover_required (
    with_ids mme_id enb_id
      (ie_u64 Tag.tau_imsi (base_imsi + mme_id) ∷ ie_u8 Tag.ho_type 0 ∷ ie_u8 Tag.ho_cause 0 ∷ []))

-- At the target: the new tunnel is the next of the counter.
unfoldable pub handle_ho_request : EnbNode → List ℕ → Outcome (EnbNode × List ℕ)
handle_ho_request s payload = do
  f ← parse id_cases fields_default (new_reader payload).rest
  ok (
      to_mme (record s { next_enb_teid = next s.next_enb_teid })
        MessageType.s1ap_handover_request_ack
        (with_ids f.mme_id f.enb_id (ie_u32 Tag.ho_enb_teid_new s.next_enb_teid ∷ [])))

unfoldable pub handle_ho_command : EnbNode → List ℕ → Outcome (EnbNode × List ℕ)
handle_ho_command s payload = do
  f ← parse id_cases fields_default (new_reader payload).rest
  ok (
      to_mme s MessageType.s1ap_enb_status_transfer (
        with_ids f.mme_id f.enb_id
          (ie_u32 Tag.ho_pdcp_sn_ul 42 ∷ ie_u32 Tag.ho_pdcp_sn_dl 37 ∷ [])))

-- `next_enb_teid_.load() - 1`, whichever UE that tunnel was given to.
abbrev pub last_teid : EnbNode → ℕ
last_teid s = (s.next_enb_teid + 2 ^ 32 - 1) % 2 ^ 32

unfoldable pub handle_mme_status_xfer : EnbNode → List ℕ → Outcome (EnbNode × List ℕ)
handle_mme_status_xfer s payload = do
  f ← parse pdcp_cases fields_default (new_reader payload).rest
  ok (
      to_mme s MessageType.s1ap_handover_notify
        (with_ids f.mme_id f.enb_id (ie_u32 Tag.ho_enb_teid_new (last_teid s) ∷ [])))

unfoldable pub handle_ue_ctx_rel_cmd : EnbNode → List ℕ → Outcome (EnbNode × List ℕ)
handle_ue_ctx_rel_cmd s payload = do
  f ← parse id_cases fields_default (new_reader payload).rest
  ok (to_mme s MessageType.s1ap_ue_context_release_cmpl (with_ids f.mme_id f.enb_id []))
