-- ===== src/Lte/Mobility/Handover.antt =====
-- An S1 handover between the eNB, the MME and the S-GW.
use g_5g_ims_simulators.Prelude.{
  ℕ, ◌+◌, ◌-◌, ◌%◌, ◌^◌, ◌<◌, ◌≡◌, ◌≢◌, refl, ◌∙◌, Option, some, List, [], ◌∷◌, arith, ==_refl,
  ==_false,
}
use g_5g_ims_simulators.Lte.Tag
use g_5g_ims_simulators.Lte.MessageType
use g_5g_ims_simulators.Lte.Tlv.{ie_u8, ie_u32, ie_u64, udp_payload, new_reader, parse, Outcome, ok}
use g_5g_ims_simulators.Lte.Tlv.Loop.{apply_ie, apply_ies}
use g_5g_ims_simulators.Lte.Tlv.Messages.{parse-payload}
use g_5g_ims_simulators.Lte.Pcrf.{next}
use g_5g_ims_simulators.Lte.Mobility.{
  fields_default, id_cases, required_cases, teid_cases, pdcp_cases, with_ids,
}
use g_5g_ims_simulators.Lte.Enb.{
  EnbNode, base_imsi, Icsr, icsr_cases, icsr_default, icsr_response_ies, ul_nas_ies, handle_icsr,
}
use g_5g_ims_simulators.Lte.Enb.Mobility.{
  send_handover_required, handle_ho_request, handle_ho_command, handle_mme_status_xfer,
  handle_ue_ctx_rel_cmd,
}
use g_5g_ims_simulators.Lte.Mme.Context.{UeContext, set_enb_teid}
use g_5g_ims_simulators.Lte.Mme.Store.{find, modify}
use g_5g_ims_simulators.Lte.Mme.Store.Map.{IsValid, find-modify}
use g_5g_ims_simulators.Lte.Mme.Node.{MmeNode}
use g_5g_ims_simulators.Lte.Mme.Mobility.{
  handle_handover_required, handle_handover_request_ack, handle_enb_status_transfer,
  handle_handover_notify, handle_ue_context_rel_cmpl, send_modify_bearer, final_teid, imsi_of,
  modify_bearer_ies,
}

module _ {S : Type 0} (ask : S → List ℕ → Outcome (S × Option (List ℕ))) where
  -- The messages of a handover of the UE `id` to the tunnel `teid`, and what they leave.
  pub record HandedOver (p p' : S) (m : MmeNode) (e : EnbNode) (id enb_id teid : ℕ)
      (ctx : UeContext) : Type 0 where
    pub m1 : MmeNode
    pub m2 : MmeNode
    pub m3 : MmeNode
    pub m4 : MmeNode
    pub e2 : EnbNode
    pub e3 : EnbNode
    pub e4 : EnbNode
    pub e5 : EnbNode
    pub request : List ℕ
    pub ack : List ℕ
    pub command : List ℕ
    pub status : List ℕ
    pub forwarded : List ℕ
    pub notify : List ℕ
    pub release : List ℕ
    pub complete : List ℕ
    pub required :
        handle_handover_required m (send_handover_required e id enb_id).1 ≡ ok (m1, request)
    pub prepared : handle_ho_request (send_handover_required e id enb_id).0 request ≡ ok (e2, ack)
    pub commanded : handle_handover_request_ack m1 ack ≡ ok (m2, command)
    pub moved : handle_ho_command e2 command ≡ ok (e3, status)
    pub transferred : handle_enb_status_transfer m2 status ≡ ok (m3, forwarded)
    pub arrived : handle_mme_status_xfer e3 forwarded ≡ ok (e4, notify)
    pub switched : handle_handover_notify ask p m3 notify ≡ ok (p', m4, release)
    pub released : handle_ue_ctx_rel_cmd e4 release ≡ ok (e5, complete)
    pub finished : handle_ue_context_rel_cmpl m4 complete ≡ ok m4
    pub new_path :
        find m4.ue_store id ≡ some (record ctx { bearers = set_enb_teid teid ctx.bearers })
    pub others : (j : ℕ) → id ≢ j → find m4.ue_store j ≡ find m.ue_store j

  -- A handover of a UE that the MME has a context of, with no other call of the eNB in between: the
  -- S-GW is asked to switch the path to the eNB's new tunnel, for the UE's identity, the MME's
  -- context has the same tunnel at its default bearer, and no other context changes. The counters
  -- are below their wrap-around, and the new tunnel is not 0.
  pub hands_over :
      (p p' : S) (m : MmeNode) (e : EnbNode) (id enb_id : ℕ) (ctx : UeContext)
      (resp : Option (List ℕ))
      → IsValid m.ue_store
      → m.next_seq < 2 ^ 32
      → e.next_seq < 2 ^ 32
      → 0 < e.next_enb_teid
      → e.next_enb_teid < 2 ^ 32
      → id < 2 ^ 32
      → enb_id < 2 ^ 32
      → find m.ue_store id ≡ some ctx
      → ask p (
          udp_payload MessageType.gtp_modify_bearer_req
            (next (next (next m.next_seq)))
            (modify_bearer_ies e.next_enb_teid ctx.imsi))
        ≡ ok (p', resp)
      → HandedOver p p' m e id enb_id e.next_enb_teid ctx
  unfolding send_handover_required handle_handover_required handle_ho_request
      handle_handover_request_ack handle_ho_command handle_enb_status_transfer
      handle_mme_status_xfer handle_handover_notify send_modify_bearer handle_ue_ctx_rel_cmd
      handle_ue_context_rel_cmpl final_teid imsi_of set_enb_teid
  hands_over p p' m e id enb_id ctx resp v hm he pos ht hid henb here asked =
      let t = e.next_enb_teid in
      let ids = record fields_default { mme_id = id; enb_id = enb_id } in
      let put = λ (c : UeContext). record c { bearers = set_enb_teid t c.bearers } in
      let store = modify m.ue_store id put in
      let now : find store id ≡ some (put ctx) =
        find-modify m.ue_store v id id put ctx here ∙ rw (==_refl id) in
      let last : (next t + 2 ^ 32 - 1) % 2 ^ 32 ≡ t = omega arith in
      let s1 = next m.next_seq in
      let s2 = next s1 in
      let s3 = next s2 in
      let s4 = next s3 in
      let q1 = next e.next_seq in
      let q2 = next q1 in
      let q3 = next q2 in
      let q4 = next q3 in
      record {
        m1 = record m { next_seq = s1 };
        m2 = record m { next_seq = s2; ue_store = store };
        m3 = record m { next_seq = s3; ue_store = store };
        m4 = record m { next_seq = next s4; ue_store = store };
        e2 = record { next_enb_teid = next t; next_seq = q2 };
        e3 = record { next_enb_teid = next t; next_seq = q3 };
        e4 = record { next_enb_teid = next t; next_seq = q4 };
        e5 = record { next_enb_teid = next t; next_seq = next q4 };
        request =
            udp_payload MessageType.s1ap_handover_request m.next_seq
              (with_ids id enb_id (ie_u8 Tag.ho_type 0 ∷ []));
        ack =
            udp_payload MessageType.s1ap_handover_request_ack q1
              (with_ids id enb_id (ie_u32 Tag.ho_enb_teid_new t ∷ []));
        command = udp_payload MessageType.s1ap_handover_command s1 (with_ids id enb_id []);
        status =
            udp_payload MessageType.s1ap_enb_status_transfer q2
              (with_ids id enb_id (ie_u32 Tag.ho_pdcp_sn_ul 42 ∷ ie_u32 Tag.ho_pdcp_sn_dl 37 ∷ []));
        forwarded =
            udp_payload MessageType.s1ap_mme_status_transfer s2
              (with_ids id enb_id (ie_u32 Tag.ho_pdcp_sn_ul 42 ∷ ie_u32 Tag.ho_pdcp_sn_dl 37 ∷ []));
        notify =
            udp_payload MessageType.s1ap_handover_notify q3
              (with_ids id enb_id (ie_u32 Tag.ho_enb_teid_new t ∷ []));
        release =
            udp_payload MessageType.s1ap_ue_context_release_cmd s4
              (with_ids id enb_id (ie_u8 Tag.ho_cause 0 ∷ []));
        complete = udp_payload MessageType.s1ap_ue_context_release_cmpl q4 (with_ids id enb_id []);
        required = rw (
            parse-payload MessageType.s1ap_handover_required e.next_seq
              (with_ids id enb_id (
                ie_u64 Tag.tau_imsi (base_imsi + id)
                ∷ ie_u8 Tag.ho_type 0
                ∷ ie_u8 Tag.ho_cause 0
                ∷ []))
              (omega arith) he required_cases fields_default (record ids { imsi = base_imsi + id })
              (ground arith) (unfold apply_ies apply_ie in refl));
        prepared = rw (
            parse-payload MessageType.s1ap_handover_request m.next_seq
              (with_ids id enb_id (ie_u8 Tag.ho_type 0 ∷ [])) (omega arith) hm id_cases
              fields_default ids (ground arith) (unfold apply_ies apply_ie in refl));
        commanded = rw (
            parse-payload MessageType.s1ap_handover_request_ack q1
              (with_ids id enb_id (ie_u32 Tag.ho_enb_teid_new t ∷ [])) (omega arith) (omega arith)
              teid_cases fields_default (record ids { new_teid = t }) (ground arith)
              (unfold apply_ies apply_ie in refl));
        moved = rw (
            parse-payload MessageType.s1ap_handover_command s1 (with_ids id enb_id []) (omega arith)
              (omega arith) id_cases fields_default ids (ground arith)
              (unfold apply_ies apply_ie in refl));
        transferred = rw (
            parse-payload MessageType.s1ap_enb_status_transfer q2
              (with_ids id enb_id (ie_u32 Tag.ho_pdcp_sn_ul 42 ∷ ie_u32 Tag.ho_pdcp_sn_dl 37 ∷ []))
              (omega arith) (omega arith) pdcp_cases fields_default
              (record ids { pdcp_ul = 42; pdcp_dl = 37 }) (ground arith)
              (unfold apply_ies apply_ie in refl));
        arrived = rw (
          parse-payload MessageType.s1ap_mme_status_transfer s2
              (with_ids id enb_id (ie_u32 Tag.ho_pdcp_sn_ul 42 ∷ ie_u32 Tag.ho_pdcp_sn_dl 37 ∷ []))
              (omega arith) (omega arith) pdcp_cases fields_default
              (record ids { pdcp_ul = 42; pdcp_dl = 37 }) (ground arith)
              (unfold apply_ies apply_ie in refl),
          last,
        );
        switched = rw (
          parse-payload MessageType.s1ap_handover_notify q3
              (with_ids id enb_id (ie_u32 Tag.ho_enb_teid_new t ∷ [])) (omega arith) (omega arith)
              teid_cases fields_default (record ids { new_teid = t }) (ground arith)
              (unfold apply_ies apply_ie in refl),
          final_teid,
          now,
          ==_false t 0 (λ z. absurd (omega arith)),
          asked,
        );
        released = rw (
            parse-payload MessageType.s1ap_ue_context_release_cmd s4
              (with_ids id enb_id (ie_u8 Tag.ho_cause 0 ∷ [])) (omega arith) (omega arith) id_cases
              fields_default ids (ground arith) (unfold apply_ies apply_ie in refl));
        finished = rw (
            parse-payload MessageType.s1ap_ue_context_release_cmpl q4 (with_ids id enb_id [])
              (omega arith) (omega arith) id_cases fields_default ids (ground arith)
              (unfold apply_ies apply_ie in refl));
        new_path = now;
        others = λ j ne. find-modify m.ue_store v id j put ctx here ∙ rw (==_false id j ne);
      }

-- When the eNB sets up a context of another UE between its acknowledgement of a handover and the
-- UE's arrival, the notification names the tunnel of that other UE, not the one it acknowledged.
pub other_tunnel :
    (e : EnbNode) (req_seq fwd_seq id enb_id ul dl : ℕ) (setup : List ℕ) (g : Icsr)
    → req_seq < 2 ^ 32
    → fwd_seq < 2 ^ 32
    → e.next_enb_teid + 1 < 2 ^ 32
    → id < 2 ^ 32
    → enb_id < 2 ^ 32
    → ul < 2 ^ 32
    → dl < 2 ^ 32
    → parse icsr_cases icsr_default (new_reader setup).rest ≡ ok g
    → (e2 : EnbNode) × (e3 : EnbNode) × (e4 : EnbNode) × (sent : List (List ℕ)) × (handle_ho_request
          e
          (udp_payload MessageType.s1ap_handover_request req_seq
            (with_ids id enb_id (ie_u8 Tag.ho_type 0 ∷ [])))
        ≡ ok (
          e2,
          udp_payload MessageType.s1ap_handover_request_ack e.next_seq
              (with_ids id enb_id (ie_u32 Tag.ho_enb_teid_new e.next_enb_teid ∷ [])),
        ))
      × (handle_icsr e2 setup ≡ ok (e3, sent))
      × (handle_mme_status_xfer e3 (
            udp_payload MessageType.s1ap_mme_status_transfer fwd_seq
              (with_ids id enb_id (ie_u32 Tag.ho_pdcp_sn_ul ul ∷ ie_u32 Tag.ho_pdcp_sn_dl dl ∷ [])))
          ≡ ok (
            e4,
            udp_payload MessageType.s1ap_handover_notify e3.next_seq
                (with_ids id enb_id (ie_u32 Tag.ho_enb_teid_new (e.next_enb_teid + 1) ∷ [])),
          ))
unfolding handle_ho_request handle_icsr handle_mme_status_xfer
other_tunnel e req_seq fwd_seq id enb_id ul dl setup g hr hf ht hid henb hul hdl parsed =
    let ids = record fields_default { mme_id = id; enb_id = enb_id } in
    let last : (next (next e.next_enb_teid) + 2 ^ 32 - 1) % 2 ^ 32 ≡ e.next_enb_teid + 1 =
      omega arith in
    (
      record { next_enb_teid = next e.next_enb_teid; next_seq = next e.next_seq },
      record {
        next_enb_teid = next (next e.next_enb_teid);
        next_seq = next (next (next e.next_seq));
      },
      record {
        next_enb_teid = next (next e.next_enb_teid);
        next_seq = next (next (next (next e.next_seq)));
      },
      udp_payload MessageType.s1ap_initial_context_setup_rsp (next e.next_seq)
            (icsr_response_ies g.mme_id g.enb_id (next e.next_enb_teid))
          ∷ udp_payload MessageType.s1ap_ul_nas_transport (next (next e.next_seq))
              (ul_nas_ies g.mme_id g.enb_id 0x46)
          ∷ [],
      rw (
          parse-payload MessageType.s1ap_handover_request req_seq
            (with_ids id enb_id (ie_u8 Tag.ho_type 0 ∷ [])) (omega arith) hr id_cases fields_default
            ids (ground arith) (unfold apply_ies apply_ie in refl)),
      rw parsed,
      rw (
        parse-payload MessageType.s1ap_mme_status_transfer fwd_seq
            (with_ids id enb_id (ie_u32 Tag.ho_pdcp_sn_ul ul ∷ ie_u32 Tag.ho_pdcp_sn_dl dl ∷ []))
            (omega arith) hf pdcp_cases fields_default (record ids { pdcp_ul = ul; pdcp_dl = dl })
            (ground arith) (unfold apply_ies apply_ie in refl),
        last,
      ),
    )
