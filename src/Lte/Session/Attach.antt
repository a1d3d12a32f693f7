-- ===== src/Lte/Session/Attach.antt =====
-- From the UE's response to its registration.
use g_5g_ims_simulators.Prelude.{
  ℕ, ◌^◌, ◌<◌, ◌≡◌, ◌≢◌, refl, ap, ◌∙◌, true, some, List, [], ◌∷◌, arith, ◌==◌, ==_refl, ==_false,
  if◌then◌else◌,
}
use g_5g_ims_simulators.Lte.MessageType
use g_5g_ims_simulators.Lte.Tlv.{udp_payload, new_reader, parse, ok}
use g_5g_ims_simulators.Lte.Tlv.Loop.{apply_ie, apply_ies}
use g_5g_ims_simulators.Lte.Tlv.Messages.{parse-payload}
use g_5g_ims_simulators.Lte.Pcrf.{next}
use g_5g_ims_simulators.Lte.Pgw.{ip_bytes}
use g_5g_ims_simulators.Lte.Enb.{
  EnbNode, handle_icsr, icsr_cases, icsr_default, icsr_response_ies, ul_nas_ies, handle_dl_nas,
  dl_nas_cases, dl_nas_default,
}
use g_5g_ims_simulators.Lte.Mobility.{fields_default, setup_cases}
use g_5g_ims_simulators.Lte.Mme.Mobility.{handle_ic_setup_response, send_modify_bearer, imsi_of}
use g_5g_ims_simulators.Lte.Mme.Context.{session_pending, registered, UeContext, set_enb_teid}
use g_5g_ims_simulators.Lte.Mme.Store.{UeContextStore, find, modify}
use g_5g_ims_simulators.Lte.Mme.Store.Map.{IsValid, find-modify, modify-IsValid}
use g_5g_ims_simulators.Lte.Mme.Node.{MmeNode}
use g_5g_ims_simulators.Lte.Mme.Attach.{
  context_setup_ies, security_mode_ies, auth_response, handle_ul_nas_transport, ul_nas_cases,
  ul_nas_default, res_matches,
}
use g_5g_ims_simulators.Lte.Session.Setup.{
  Core, core, Up, core_after, bearer_of, with_bearer, auth-success, bearer_modified, modified,
}

-- The changes to the context of a UE whose response passes, at its eNB's answer and at its Attach
-- Complete.
abbrev pub attached : Core → UeContext → UeContext
attached k c = with_bearer k (record c { emm_state = session_pending })

with_tunnel : ℕ → UeContext → UeContext
with_tunnel teid c = record c { bearers = set_enb_teid teid c.bearers }

abbrev pub completed : Core → ℕ → UeContext → UeContext
completed k teid c = record c {
  emm_state = registered;
  bearers = record (bearer_of k) { enb_s1u_teid = teid } ∷ [];
}

-- The messages between the MME, the eNB and the nodes behind S11, from the UE's response to its
-- authentication on, every message that is sent handled by the node it is sent to: the Security
-- Mode command and its answer, the set-up of the context and its answer, the bearer modified at the
-- S-GW, and the Attach Complete.
pub record Attached (k : Core) (m : MmeNode) (e : EnbNode) (response : List ℕ) (id : ℕ)
    (ctx : UeContext) : Type 0 where
  pub k2 : Core
  pub m1 : MmeNode
  pub m2 : MmeNode
  pub m3 : MmeNode
  pub e1 : EnbNode
  pub e2 : EnbNode
  pub security_mode : List ℕ
  pub context_setup : List ℕ
  pub security_complete : List ℕ
  pub setup_response : List ℕ
  pub complete : List ℕ
  pub answered :
      handle_ul_nas_transport core k m response
      ≡ ok (core_after k, m1, security_mode ∷ context_setup ∷ [])
  pub in_session : find m1.ue_store id ≡ some (attached k ctx)
  pub secured : handle_dl_nas e security_mode ≡ ok (e1, security_complete ∷ [])
  pub set_up : handle_icsr e1 context_setup ≡ ok (e2, setup_response ∷ complete ∷ [])
  pub noted :
      handle_ul_nas_transport core (core_after k) m1 security_complete ≡ ok (core_after k, m1, [])
  pub path_known : handle_ic_setup_response core (core_after k) m1 setup_response ≡ ok (k2, m2)
  pub asked_sgw : k2.1 ≡ record (core_after k).1 { next_seq = next (core_after k).1.next_seq }
  pub finished : handle_ul_nas_transport core k2 m2 complete ≡ ok (k2, m3, [])
  pub is_registered : find m3.ue_store id ≡ some (completed k e.next_enb_teid ctx)
  pub others : (j : ℕ) → id ≢ j → find m3.ue_store j ≡ find m.ue_store j

module _ (k : Core) (m : MmeNode) (e : EnbNode) (id : ℕ) (ctx : UeContext) (v : IsValid m.ue_store)
    (here : find m.ue_store id ≡ some ctx) where
  pending : UeContext → UeContext
  pending c = record c { emm_state = session_pending }

  register : UeContext → UeContext
  register c = record c { emm_state = registered }

  store1 : UeContextStore
  store1 = modify m.ue_store id pending

  store2 : UeContextStore
  store2 = modify store1 id (with_bearer k)

  store3 : UeContextStore
  store3 = modify store2 id (with_tunnel e.next_enb_teid)

  store4 : UeContextStore
  store4 = modify store3 id register

  ctx2 : UeContext
  ctx2 = with_bearer k (pending ctx)

  ctx3 : UeContext
  ctx3 = with_tunnel e.next_enb_teid ctx2

  find1 : (j : ℕ) → find store1 j ≡ (if id == j then some (pending ctx) else find m.ue_store j)
  unfolding store1
  find1 j = find-modify m.ue_store v id j pending ctx here

  valid1 : IsValid store1
  unfolding store1
  valid1 = modify-IsValid m.ue_store v id pending

  here1 : find store1 id ≡ some (pending ctx)
  here1 = find1 id ∙ rw (==_refl id)

  find2 : (j : ℕ) → find store2 j ≡ (if id == j then some ctx2 else find store1 j)
  unfolding store2 ctx2
  find2 j = find-modify store1 valid1 id j (with_bearer k) (pending ctx) here1

  valid2 : IsValid store2
  unfolding store2
  valid2 = modify-IsValid store1 valid1 id (with_bearer k)

  here2 : find store2 id ≡ some ctx2
  here2 = find2 id ∙ rw (==_refl id)

  find3 : (j : ℕ) → find store3 j ≡ (if id == j then some ctx3 else find store2 j)
  unfolding store3 ctx3
  find3 j = find-modify store2 valid2 id j (with_tunnel e.next_enb_teid) ctx2 here2

  valid3 : IsValid store3
  unfolding store3
  valid3 = modify-IsValid store2 valid2 id (with_tunnel e.next_enb_teid)

  here3 : find store3 id ≡ some ctx3
  here3 = find3 id ∙ rw (==_refl id)

  find4 : (j : ℕ) → find store4 j ≡ (if id == j then some (register ctx3) else find store3 j)
  unfolding store4
  find4 j = find-modify store3 valid3 id j register ctx3 here3

  others4 : (j : ℕ) → id ≢ j → find store4 j ≡ find m.ue_store j
  others4 j ne =
      find4 j
      ∙ rw (==_false id j ne) (
          find3 j
          ∙ rw (==_false id j ne)
              (find2 j ∙ rw (==_false id j ne) (find1 j ∙ rw (==_false id j ne))))

  registered_lem : ctx.bearers ≡ [] → register ctx3 ≡ completed k e.next_enb_teid ctx
  unfolding register ctx3 ctx2 pending with_tunnel set_enb_teid
  registered_lem none_yet = rw none_yet

  -- On a context that the MME has and that has no bearer yet, a response that passes the test leads
  -- to the registration of the UE: the Security Mode command is answered, the chain grants a
  -- session, the eNB answers the set-up with its tunnel, the S-GW is told of it, the UE's Attach
  -- Complete comes in, and then the context is registered with one bearer, which has the S-GW's
  -- tunnels, the eNB's tunnel and the P-GW's address. All other contexts stay as they were.
  pub attaches :
      (response res : List ℕ) (enb_id : ℕ)
      → Up k
      → m.next_seq < 2 ^ 32
      → e.next_seq < 2 ^ 32
      → e.next_enb_teid < 2 ^ 32
      → id < 2 ^ 32
      → ctx.imsi < 2 ^ 64
      → ctx.enb_ue_s1ap_id < 2 ^ 32
      → ctx.bearers ≡ []
      → parse ul_nas_cases ul_nas_default (new_reader response).rest
        ≡ ok (record { mme_id = id; enb_id = enb_id; nas_type = 0x53; res = res })
      → res_matches res ctx.auth ≡ true
      → Attached k m e response id ctx
  unfolding store1 store2 store3 store4 ctx2 ctx3 pending register with_tunnel
      handle_ul_nas_transport auth_response
  attaches response res enb_id up hm he het hid hi henb none_yet parsed matches =
      let smc = security_mode_ies id ctx.enb_ue_s1ap_id in
      let icsr = context_setup_ies id ctx.enb_ue_s1ap_id (bearer_of k) in
      let secure = ul_nas_ies id ctx.enb_ue_s1ap_id 0x5E in
      let tunnel = icsr_response_ies id ctx.enb_ue_s1ap_id e.next_enb_teid in
      let last = ul_nas_ies id ctx.enb_ue_s1ap_id 0x46 in
      let q1 = next e.next_seq in
      let q2 = next q1 in
      let s3 = next (next (next m.next_seq)) in
      record {
        k2 = bearer_modified (core_after k);
        m1 = record m { ue_store = store2; next_seq = s3 };
        m2 = record m { ue_store = store3; next_seq = next s3 };
        m3 = record m { ue_store = store4; next_seq = next s3 };
        e1 = record e { next_seq = q1 };
        e2 = record e { next_enb_teid = next e.next_enb_teid; next_seq = next q2 };
        security_mode = udp_payload MessageType.s1ap_dl_nas_transport m.next_seq smc;
        context_setup =
            udp_payload MessageType.s1ap_initial_context_setup_req (next (next m.next_seq)) icsr;
        security_complete = udp_payload MessageType.s1ap_ul_nas_transport e.next_seq secure;
        setup_response = udp_payload MessageType.s1ap_initial_context_setup_rsp q1 tunnel;
        complete = udp_payload MessageType.s1ap_ul_nas_transport q2 last;
        answered = rw (
          parsed,
          here,
          matches,
          auth-success k (record m { next_seq = next m.next_seq; ue_store = store1 }) id
              (pending ctx) up valid1 (omega arith) here1 hi none_yet,
        );
        in_session = here2;
        secured =
            unfold handle_dl_nas in
            rw (
              parse-payload MessageType.s1ap_dl_nas_transport m.next_seq smc (omega arith) hm
                dl_nas_cases dl_nas_default
                (record {
                  mme_id = id;
                  enb_id = ctx.enb_ue_s1ap_id;
                  nas_type = 0x5D;
                  rand_b = [];
                  autn_b = [];
                })
                (ground arith) (unfold apply_ies apply_ie in refl));
        set_up =
            unfold handle_icsr in
            rw (
              parse-payload MessageType.s1ap_initial_context_setup_req (next (next m.next_seq)) icsr
                (omega arith) (omega arith) icsr_cases icsr_default
                (record {
                  mme_id = id;
                  enb_id = ctx.enb_ue_s1ap_id;
                  sgw_teid = next k.1.next_teid;
                  nas_type = 0x42;
                  ue_ip_bytes = ip_bytes k.0.1.next_ip;
                })
                (ground arith) (unfold apply_ies apply_ie in refl));
        noted = rw (
            parse-payload MessageType.s1ap_ul_nas_transport e.next_seq secure (omega arith) he
              ul_nas_cases ul_nas_default
              (record { mme_id = id; enb_id = ctx.enb_ue_s1ap_id; nas_type = 0x5E; res = [] })
              (ground arith) (unfold apply_ies apply_ie in refl));
        path_known =
            unfold handle_ic_setup_response send_modify_bearer imsi_of in
            rw (
              parse-payload MessageType.s1ap_initial_context_setup_rsp q1 tunnel (omega arith)
                  (omega arith) setup_cases fields_default
                  (record fields_default { mme_id = id; new_teid = e.next_enb_teid }) (ground arith)
                  (unfold apply_ies apply_ie in refl),
              here3,
              modified (core_after k) s3 e.next_enb_teid ctx.imsi (omega arith) het hi,
            );
        asked_sgw = refl;
        finished = rw (
            parse-payload MessageType.s1ap_ul_nas_transport q2 last (omega arith) (omega arith)
              ul_nas_cases ul_nas_default
              (record { mme_id = id; enb_id = ctx.enb_ue_s1ap_id; nas_type = 0x46; res = [] })
              (ground arith) (unfold apply_ies apply_ie in refl));
        is_registered = find4 id ∙ rw (==_refl id) (ap some (registered_lem none_yet));
        others = others4;
      }
