-- ===== src/Lte/Mme/Attach/Auth.antt =====
-- Which uplink messages move a context on.
use g_5g_ims_simulators.Prelude.{ℕ, ◌≡◌, refl, ◌∙◌, false, Option, some, List, [], ◌∷◌, ==_refl}
use g_5g_ims_simulators.Prelude.Tables
use g_5g_ims_simulators.Lte.MessageType
use g_5g_ims_simulators.Lte.Pcrf.{next}
use g_5g_ims_simulators.Lte.Tlv.{udp_payload, new_reader, parse, Outcome, ok}
use g_5g_ims_simulators.Lte.Mme.Context.{registered, auth_pending, AuthVectors, UeContext}
use g_5g_ims_simulators.Lte.Mme.Store.{insert, find, modify}
use g_5g_ims_simulators.Lte.Mme.Store.Map.{
  IsValid, insert-id, find-insert, find-modify, insert-IsValid, modify-IsValid,
}
use g_5g_ims_simulators.Lte.Mme.Node.{MmeNode}
use g_5g_ims_simulators.Lte.Mme.Attach.{
  InitialUe, initial_cases, initial_default, new_context, handle_initial_ue_msg, air_ies,
  auth_arrived, auth_request_ies, handle_ul_nas_transport, auth_response, UlNas, ul_nas_cases,
  ul_nas_default, res_matches,
}

module _ {S : Type 0} (ask : S → List ℕ → Outcome (S × Option (List ℕ))) (p : S) (m : MmeNode) where
  -- An Auth Response for a context whose vectors it does not match is ignored: no context changes,
  -- nothing is sent, and the S-GW is not asked, whatever the S-GW would do.
  pub forged_response :
      (payload : List ℕ) (f : UlNas) (ctx : UeContext)
      → parse ul_nas_cases ul_nas_default (new_reader payload).rest ≡ ok f
      → f.nas_type ≡ 0x53
      → find m.ue_store f.mme_id ≡ some ctx
      → res_matches f.res ctx.auth ≡ false
      → handle_ul_nas_transport ask p m payload ≡ ok (p, m, [])
  unfolding handle_ul_nas_transport auth_response
  forged_response payload f ctx parsed t here wrong = rw (parsed, t, here, wrong)

  -- An Attach Complete with the identifier of a UE that has been challenged, and has not answered,
  -- registers it: no response was checked, and there is no bearer.
  pub unauthenticated_complete :
      (initial complete : List ℕ) (i : InitialUe) (f : UlNas) (arrived : List (ℕ × AuthVectors))
      (av : AuthVectors)
      → IsValid m.ue_store
      → parse initial_cases initial_default (new_reader initial).rest ≡ ok i
      → Tables.find i.imsi arrived ≡ some av
      → parse ul_nas_cases ul_nas_default (new_reader complete).rest ≡ ok f
      → f.nas_type ≡ 0x46
      → f.mme_id ≡ m.ue_store.next_id
      → (m1 : MmeNode) × (m2 : MmeNode) × (m3 : MmeNode) × (air : List ℕ) × (request : List ℕ)
        × (ctx : UeContext) × (handle_initial_ue_msg m initial
            ≡ ok (i, m.ue_store.next_id, m1, air))
        × (auth_arrived (record m1 { pending_auth = arrived }) i m.ue_store.next_id false
            ≡ some (m2, request ∷ []))
        × (handle_ul_nas_transport ask p m2 complete ≡ ok (p, m3, []))
        × (find m3.ue_store f.mme_id ≡ some ctx)
        × (ctx.emm_state ≡ registered)
        × (ctx.imsi ≡ i.imsi)
        × (ctx.bearers ≡ [])
  unfolding handle_initial_ue_msg auth_arrived handle_ul_nas_transport
  unauthenticated_complete initial complete i f arrived av v parsed_i got parsed_f t same =
      let id = m.ue_store.next_id in
      let store1 = (insert m.ue_store (new_context i)).1 in
      let fresh = record (new_context i) { mme_ue_s1ap_id = id } in
      let v1 = insert-IsValid m.ue_store v (new_context i) in
      let challenge = λ (c : UeContext). record c { auth = av; emm_state = auth_pending } in
      let register = λ (c : UeContext). record c { emm_state = registered } in
      let here : find store1 id ≡ some fresh =
        find-insert m.ue_store v (new_context i) id ∙ rw ==_refl in
      let store2 = modify store1 id challenge in
      let here2 : find store2 f.mme_id ≡ some (challenge fresh) =
        find-modify store1 v1 id f.mme_id challenge fresh here ∙ rw (same, ==_refl) in
      (
        record m { ue_store = store1; next_seq = next m.next_seq },
        record {
          ue_store = store2;
          next_seq = next (next m.next_seq);
          pending_auth = Tables.erase i.imsi arrived;
        },
        record {
          ue_store = modify store2 f.mme_id register;
          next_seq = next (next m.next_seq);
          pending_auth = Tables.erase i.imsi arrived;
        },
        udp_payload MessageType.dia_air m.next_seq (air_ies i),
        udp_payload MessageType.s1ap_dl_nas_transport (next m.next_seq)
            (auth_request_ies id i.enb_id av),
        register (challenge fresh),
        rw (parsed_i, insert-id),
        rw (auth_arrived, got),
        rw (parsed_f, t),
        find-modify store2 (modify-IsValid store1 v1 id challenge) f.mme_id f.mme_id register
              (challenge fresh) here2
            ∙ rw ==_refl,
        refl,
        refl,
        refl,
      )
