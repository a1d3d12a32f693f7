-- ===== src/Lte/Session/Authentication.antt =====
-- The authentication of a UE, from the Initial UE Message to the UE's response.
use g_5g_ims_simulators.Prelude.{
  ℕ, ◌+◌, ◌*◌, ◌^◌, ◌<◌, ◌≡◌, ◌≢◌, refl, ◌∙◌, true, false, some, List, [], ◌∷◌, arith, ==_refl,
  ==_false,
}
use g_5g_ims_simulators.Prelude.Tables
use g_5g_ims_simulators.Lte.MessageType
use g_5g_ims_simulators.Lte.Tlv.{udp_payload, new_reader, parse, ok}
use g_5g_ims_simulators.Lte.Tlv.Loop.{apply_ie, apply_ies}
use g_5g_ims_simulators.Lte.Tlv.Messages.{msg_type-payload, parse-payload, payload-size}
use g_5g_ims_simulators.Lte.Profiles.{same_text}
use g_5g_ims_simulators.Lte.Pcrf.{next}
use g_5g_ims_simulators.Lte.Hss.{
  HssNode, generate_auth_vectors, rand_bytes, seed_of, aia_ies, air_cases, air_default,
}
use g_5g_ims_simulators.Lte.Hss
use g_5g_ims_simulators.Lte.Enb.{
  EnbNode, dl_nas_cases, dl_nas_default, auth_response_ies, ue_res, handle_dl_nas,
}
use g_5g_ims_simulators.Lte.Mme.Context.{auth_pending, UeContext}
use g_5g_ims_simulators.Lte.Mme.Store.{insert, find, modify}
use g_5g_ims_simulators.Lte.Mme.Store.Map.{
  IsValid, insert-id, find-insert, find-modify, insert-IsValid, modify-IsValid,
}
use g_5g_ims_simulators.Lte.Mme.Node.{MmeNode}
use g_5g_ims_simulators.Lte.Mme.Attach.{
  InitialUe, initial_cases, initial_default, new_context, air_ies, handle_initial_ue_msg,
  hss_receive, aia_cases, aia_default, auth_arrived, auth_request_ies, ul_nas_cases, ul_nas_default,
  res_matches,
}

-- The fields have the widths of their types.
pub record Narrow (f : InitialUe) : Type 0 where
  pub enb_id_fits : f.enb_id < 2 ^ 32
  pub imsi_fits : f.imsi < 2 ^ 64
  pub mcc_fits : f.mcc < 2 ^ 16
  pub mnc_fits : f.mnc < 2 ^ 16

module _ (draw : ℕ → ℕ → ℕ) where
  hss-answers :
      (h : HssNode) (seq : ℕ) (f : InitialUe)
      → seq < 2 ^ 32
      → Narrow f
      → Hss.receive draw h (udp_payload MessageType.dia_air seq (air_ies f))
        ≡ ok (
          record h { next_seq = next h.next_seq },
          some (
              udp_payload MessageType.dia_aia h.next_seq
                (aia_ies draw f.imsi (generate_auth_vectors draw f.imsi))),
        )
  unfolding Hss.receive Hss.handle_air
  hss-answers h seq f hs n = rw (
    msg_type-payload MessageType.dia_air seq (air_ies f) (omega arith) hs,
    parse-payload MessageType.dia_air seq (air_ies f) (omega arith) hs air_cases air_default
        (record { imsi = f.imsi; plmn = f.mcc * 2 ^ 16 + f.mnc })
        (ground (arith, n.imsi_fits, n.mcc_fits, n.mnc_fits)) (unfold apply_ies apply_ie in refl),
  )

  mme-stores :
      (m : MmeNode) (seq imsi : ℕ)
      → seq < 2 ^ 32
      → imsi < 2 ^ 64
      → hss_receive m (
          udp_payload MessageType.dia_aia seq (aia_ies draw imsi (generate_auth_vectors draw imsi)))
        ≡ ok (record m {
          pending_auth = Tables.insert imsi (generate_auth_vectors draw imsi) m.pending_auth;
        })
  unfolding hss_receive generate_auth_vectors rand_bytes
  mme-stores m seq imsi hs hi =
      let ies = aia_ies draw imsi (generate_auth_vectors draw imsi) in
      rw (
        payload-size MessageType.dia_aia seq ies,
        msg_type-payload MessageType.dia_aia seq ies (omega arith) hs,
        parse-payload MessageType.dia_aia seq ies (omega arith) hs aia_cases aia_default
            (record { imsi = imsi; av = generate_auth_vectors draw imsi }) (ground arith)
            (unfold apply_ies apply_ie in refl),
      )

  enb-responds :
      (e : EnbNode) (seq mme_id enb_id imsi : ℕ)
      → seq < 2 ^ 32
      → mme_id < 2 ^ 32
      → enb_id < 2 ^ 32
      → let av = generate_auth_vectors draw imsi in
        handle_dl_nas e
          (udp_payload MessageType.s1ap_dl_nas_transport seq (auth_request_ies mme_id enb_id av))
        ≡ ok (
          record e { next_seq = next e.next_seq },
          udp_payload MessageType.s1ap_ul_nas_transport e.next_seq
                (auth_response_ies mme_id enb_id (ue_res av.rand))
              ∷ [],
        )
  unfolding handle_dl_nas generate_auth_vectors rand_bytes
  enb-responds e seq mme_id enb_id imsi hs hm he =
      let av = generate_auth_vectors draw imsi in
      rw (
        parse-payload MessageType.s1ap_dl_nas_transport seq (auth_request_ies mme_id enb_id av)
          (omega arith) hs dl_nas_cases dl_nas_default
          (record {
            mme_id = mme_id;
            enb_id = enb_id;
            nas_type = 0x52;
            rand_b = av.rand;
            autn_b = av.autn;
          })
          (ground arith) (unfold apply_ies apply_ie in refl))

  same_text_refl : (xs : List ℕ) → same_text xs xs ≡ true
  unfolding same_text
  same_text_refl [] = refl
  same_text_refl (x ∷ xs) = rw (==_refl x) (same_text_refl xs)

  -- The UE's answer to its own challenge passes the MME's test.
  genuine :
      (imsi : ℕ)
      → let av = generate_auth_vectors draw imsi in res_matches (ue_res av.rand) av ≡ true
  unfolding res_matches generate_auth_vectors rand_bytes
  genuine imsi = same_text_refl (ue_res (generate_auth_vectors draw imsi).rand)

  -- The messages of an authentication, and what the MME has at its end: a context of its own for
  -- the subscriber that waits for a response, and a response that passes the test.
  pub record Challenged (m : MmeNode) (h : HssNode) (e : EnbNode) (payload : List ℕ) (f : InitialUe)
      : Type 0 where
    pub m1 : MmeNode
    pub m2 : MmeNode
    pub m3 : MmeNode
    pub h1 : HssNode
    pub e1 : EnbNode
    pub air : List ℕ
    pub aia : List ℕ
    pub request : List ℕ
    pub response : List ℕ
    pub ctx : UeContext
    pub res : List ℕ
    pub began : handle_initial_ue_msg m payload ≡ ok (f, m.ue_store.next_id, m1, air)
    pub answered : Hss.receive draw h air ≡ ok (h1, some aia)
    pub stored : hss_receive m1 aia ≡ ok m2
    pub resumed : auth_arrived m2 f m.ue_store.next_id false ≡ some (m3, request ∷ [])
    pub responded : handle_dl_nas e request ≡ ok (e1, response ∷ [])
    pub parsed :
        parse ul_nas_cases ul_nas_default (new_reader response).rest
        ≡ ok (record { mme_id = m.ue_store.next_id; enb_id = f.enb_id; nas_type = 0x53; res = res })
    pub found : find m3.ue_store m.ue_store.next_id ≡ some ctx
    pub same_ue : ctx.imsi ≡ f.imsi
    pub pending : ctx.emm_state ≡ auth_pending
    pub same_enb : ctx.enb_ue_s1ap_id ≡ f.enb_id
    pub no_bearer : ctx.bearers ≡ []
    pub matches : res_matches res ctx.auth ≡ true
    pub mme_seq : m3.next_seq < 2 ^ 32
    pub enb_seq : e1.next_seq < 2 ^ 32
    pub enb_teid : e1.next_enb_teid ≡ e.next_enb_teid
    pub kept : IsValid m3.ue_store
    pub others : (j : ℕ) → m.ue_store.next_id ≢ j → find m3.ue_store j ≡ find m.ue_store j

  -- An Initial UE Message that the MME parses into fields of the right widths starts an
  -- authentication that goes through, if the chaos mode drops nothing: the HSS answers, the MME
  -- sends the challenge, and the UE's response to it passes the MME's test, on a new context
  -- with the subscriber's identity. All other contexts stay as they were.
  pub authenticates :
      (m : MmeNode) (h : HssNode) (e : EnbNode) (payload : List ℕ) (f : InitialUe)
      → IsValid m.ue_store
      → m.next_seq < 2 ^ 32
      → h.next_seq < 2 ^ 32
      → e.next_seq < 2 ^ 32
      → m.ue_store.next_id < 2 ^ 32
      → parse initial_cases initial_default (new_reader payload).rest ≡ ok f
      → Narrow f
      → Challenged m h e payload f
  unfolding handle_initial_ue_msg auth_arrived
  authenticates m h e payload f v hm hh he hid parsed n =
      let id = m.ue_store.next_id in
      let av = generate_auth_vectors draw f.imsi in
      let store1 = (insert m.ue_store (new_context f)).1 in
      let challenge = λ (c : UeContext). record c { auth = av; emm_state = auth_pending } in
      let here : find store1 id ≡ some (record (new_context f) { mme_ue_s1ap_id = id }) =
        find-insert m.ue_store v (new_context f) id ∙ rw (==_refl id) in
      let v1 = insert-IsValid m.ue_store v (new_context f) in
      record {
        m1 = record m { ue_store = store1; next_seq = next m.next_seq };
        m2 = record m {
          ue_store = store1;
          next_seq = next m.next_seq;
          pending_auth = Tables.insert f.imsi av m.pending_auth;
        };
        m3 = record {
          ue_store = modify store1 id challenge;
          next_seq = next (next m.next_seq);
          pending_auth = Tables.erase f.imsi (Tables.insert f.imsi av m.pending_auth);
        };
        h1 = record h { next_seq = next h.next_seq };
        e1 = record e { next_seq = next e.next_seq };
        air = udp_payload MessageType.dia_air m.next_seq (air_ies f);
        aia = udp_payload MessageType.dia_aia h.next_seq (aia_ies draw f.imsi av);
        request =
            udp_payload MessageType.s1ap_dl_nas_transport (next m.next_seq)
              (auth_request_ies id f.enb_id av);
        response =
            udp_payload MessageType.s1ap_ul_nas_transport e.next_seq
              (auth_response_ies id f.enb_id (ue_res av.rand));
        ctx = challenge (record (new_context f) { mme_ue_s1ap_id = id });
        res = ue_res av.rand;
        began = rw (parsed, insert-id);
        answered = hss-answers h m.next_seq f hm n;
        stored = mme-stores _ h.next_seq f.imsi hh n.imsi_fits;
        resumed = rw (auth_arrived, Tables.find-insert_self f.imsi av m.pending_auth);
        responded =
            enb-responds e (next m.next_seq) id f.enb_id f.imsi (omega arith) hid n.enb_id_fits;
        parsed = response_parsed id f.enb_id f.imsi e.next_seq he hid n.enb_id_fits;
        found =
            find-modify store1 v1 id id challenge (record (new_context f) { mme_ue_s1ap_id = id })
              here
            ∙ rw (==_refl id);
        same_ue = refl;
        pending = refl;
        same_enb = refl;
        no_bearer = refl;
        mme_seq = omega arith;
        enb_seq = omega arith;
        enb_teid = refl;
        matches = genuine f.imsi;
        kept = modify-IsValid store1 v1 id challenge;
        others = λ j ne.
            find-modify store1 v1 id j challenge (record (new_context f) { mme_ue_s1ap_id = id })
              here
            ∙ rw (==_false id j ne)
                (find-insert m.ue_store v (new_context f) j ∙ rw (==_false id j ne));
      }
    where
      response_parsed :
          (id enb_id imsi seq : ℕ)
          → seq < 2 ^ 32
          → id < 2 ^ 32
          → enb_id < 2 ^ 32
          → let res = ue_res (generate_auth_vectors draw imsi).rand in
            parse ul_nas_cases ul_nas_default
              (new_reader (
                udp_payload MessageType.s1ap_ul_nas_transport seq
                  (auth_response_ies id enb_id res))).rest
            ≡ ok (record { mme_id = id; enb_id = enb_id; nas_type = 0x53; res = res })
      response_parsed id enb_id imsi seq hs hi he =
          unfold generate_auth_vectors rand_bytes in
          parse-payload MessageType.s1ap_ul_nas_transport seq
            (auth_response_ies id enb_id (ue_res (generate_auth_vectors draw imsi).rand))
            (omega arith) hs ul_nas_cases ul_nas_default _ (ground arith)
            (unfold apply_ies apply_ie in refl)
