-- ===== src/Lte/Mme/Mobility.antt =====
-- mme_node.cpp: context setup responses, tracking area updates and S1 handover.
use g_5g_ims_simulators.Prelude.{ℕ, Option, none, some, List, [], ◌∷◌, ◌==◌, if◌then◌else◌}
use g_5g_ims_simulators.Lte.Tag
use g_5g_ims_simulators.Lte.MessageType
use g_5g_ims_simulators.Lte.Tlv.{
  Ie, ie_u8, ie_u32, ie_u64, udp_payload, new_reader, parse, Outcome, ok, ◌>>=◌,
}
use g_5g_ims_simulators.Lte.Pcrf.{next}
use g_5g_ims_simulators.Lte.Mobility.{
  fields_default, id_cases, tau_cases, required_cases, teid_cases, pdcp_cases, setup_cases,
  with_ids,
}
use g_5g_ims_simulators.Lte.Mme.Context.{UeContext, default_bearer, set_enb_teid}
use g_5g_ims_simulators.Lte.Mme.Store.{find, modify}
use g_5g_ims_simulators.Lte.Mme.Node.{MmeNode}

-- `MessageWriter w(type, next_seq_++); …; enb_conn_.sendFrame(w.frame());`
abbrev pub reply : MmeNode → ℕ → List Ie → Outcome (MmeNode × List ℕ)
reply s msg_type ies =
    ok (record s { next_seq = next s.next_seq }, udp_payload msg_type s.next_seq ies)

unfoldable pub handle_tau_request : MmeNode → List ℕ → Outcome (MmeNode × List ℕ)
handle_tau_request s payload = do
  f ← parse tau_cases fields_default (new_reader payload).rest
  reply s MessageType.s1ap_tau_accept
      (with_ids f.mme_id f.enb_id (ie_u8 Tag.tau_update_type 0 ∷ []))

unfoldable pub handle_handover_required : MmeNode → List ℕ → Outcome (MmeNode × List ℕ)
handle_handover_required s payload = do
  f ← parse required_cases fields_default (new_reader payload).rest
  reply s MessageType.s1ap_handover_request (with_ids f.mme_id f.enb_id (ie_u8 Tag.ho_type 0 ∷ []))

-- `if (ctx) { auto* b = ctx->defaultBearer(); if (b) b->enb_s1u_teid = teid; }`
abbrev pub put_teid : MmeNode → ℕ → ℕ → MmeNode
put_teid s mme_id teid = record s {
  ue_store = modify s.ue_store mme_id (λ c. record c { bearers = set_enb_teid teid c.bearers });
}

unfoldable pub handle_handover_request_ack : MmeNode → List ℕ → Outcome (MmeNode × List ℕ)
handle_handover_request_ack s payload = do
  f ← parse teid_cases fields_default (new_reader payload).rest
  reply (put_teid s f.mme_id f.new_teid) MessageType.s1ap_handover_command
      (with_ids f.mme_id f.enb_id [])

unfoldable pub handle_enb_status_transfer : MmeNode → List ℕ → Outcome (MmeNode × List ℕ)
handle_enb_status_transfer s payload = do
  f ← parse pdcp_cases fields_default (new_reader payload).rest
  reply s MessageType.s1ap_mme_status_transfer (
      with_ids f.mme_id f.enb_id
        (ie_u32 Tag.ho_pdcp_sn_ul f.pdcp_ul ∷ ie_u32 Tag.ho_pdcp_sn_dl f.pdcp_dl ∷ []))

unfoldable pub handle_ue_context_rel_cmpl : MmeNode → List ℕ → Outcome MmeNode
handle_ue_context_rel_cmpl s payload =
    parse id_cases fields_default (new_reader payload).rest >>= λ f. ok s

-- `ctx ? ctx->imsi : 0`
unfoldable pub imsi_of : Option UeContext → ℕ
imsi_of none = 0
imsi_of (some ctx) = ctx.imsi

-- The tunnel that the path is switched to.
unfoldable pub bearer_teid : Option UeContext → ℕ
bearer_teid none = 200
bearer_teid (some ctx) = elim (default_bearer ctx.bearers) [ none ↦ 200 | some b ↦ b.enb_s1u_teid ]

unfoldable pub final_teid : ℕ → Option UeContext → ℕ
final_teid new_teid ctx = if new_teid == 0 then bearer_teid ctx else new_teid

abbrev pub modify_bearer_ies : ℕ → ℕ → List Ie
modify_bearer_ies enb_teid imsi = ie_u32 Tag.gtp_enb_teid enb_teid ∷ ie_u64 Tag.gtp_imsi imsi ∷ []

module _ {S : Type 0} (ask : S → List ℕ → Outcome (S × Option (List ℕ))) where
  -- `sendModifyBearer`, and the same at the end of `handleICSetupResponse`. The answer, or that
  -- there is none in time, is only logged.
  unfoldable pub send_modify_bearer : S → MmeNode → ℕ → ℕ → Outcome (S × MmeNode)
  send_modify_bearer p s mme_id new_enb_teid = do
    (p', resp) ← ask p (
        udp_payload MessageType.gtp_modify_bearer_req s.next_seq
          (modify_bearer_ies new_enb_teid (imsi_of (find s.ue_store mme_id))))
    ok (p', record s { next_seq = next s.next_seq })

  unfoldable pub handle_ic_setup_response : S → MmeNode → List ℕ → Outcome (S × MmeNode)
  handle_ic_setup_response p s payload = do
    f ← parse setup_cases fields_default (new_reader payload).rest
    send_modify_bearer p (put_teid s f.mme_id f.new_teid) f.mme_id f.new_teid

  unfoldable pub handle_handover_notify : S → MmeNode → List ℕ → Outcome (S × MmeNode × List ℕ)
  handle_handover_notify p s payload = do
    f ← parse teid_cases fields_default (new_reader payload).rest
    (p', s') ← send_modify_bearer p s f.mme_id (final_teid f.new_teid (find s.ue_store f.mme_id))
    ok (
      p',
      record s' { next_seq = next s'.next_seq },
      udp_payload MessageType.s1ap_ue_context_release_cmd s'.next_seq
          (with_ids f.mme_id f.enb_id (ie_u8 Tag.ho_cause 0 ∷ [])),
    )
