-- ===== src/Lte/Session/Registration.antt =====
-- The whole attach procedure, from the eNB's first message to the registered context.
use g_5g_ims_simulators.Prelude.{ℕ, ◌+◌, ◌^◌, ◌<◌, ◌≡◌, refl, arith}
use g_5g_ims_simulators.Lte.MessageType
use g_5g_ims_simulators.Lte.Tlv.{udp_payload}
use g_5g_ims_simulators.Lte.Tlv.Loop.{apply_ie, apply_ies}
use g_5g_ims_simulators.Lte.Tlv.Messages.{parse-payload}
use g_5g_ims_simulators.Lte.Pcrf.{next}
use g_5g_ims_simulators.Lte.Hss.{HssNode}
use g_5g_ims_simulators.Lte.Enb.{EnbNode, base_imsi, initial_ue_ies, send_initial_ue_message}
use g_5g_ims_simulators.Lte.Mme.Store.Map.{IsValid}
use g_5g_ims_simulators.Lte.Mme.Node.{MmeNode}
use g_5g_ims_simulators.Lte.Mme.Attach.{InitialUe, initial_cases, initial_default}
use g_5g_ims_simulators.Lte.Session.Authentication.{Challenged, authenticates}
use g_5g_ims_simulators.Lte.Session.Setup.{Core, Up}
use g_5g_ims_simulators.Lte.Session.Attach.{Attached, attaches}

-- The fields of the eNB's first message for the UE of that index.
abbrev pub first_fields : ℕ → InitialUe
first_fields ue_index = record {
  enb_id = ue_index;
  imsi = base_imsi + ue_index;
  mcc = 404;
  mnc = 10;
  tac = 1;
}

-- The eNB after the first message, and the message.
abbrev pub first_enb : EnbNode → ℕ → EnbNode
first_enb e ue_index = record e { next_seq = next e.next_seq }

module _ (draw : ℕ → ℕ → ℕ) (k : Core) (m : MmeNode) (h : HssNode) (e : EnbNode)
    (ue_index : ℕ) where
  -- The first message, then the authentication, then the session and the registration.
  pub record Registers : Type 0 where
    pub sent : send_initial_ue_message e ue_index ≡ (
      first_enb e ue_index,
      udp_payload MessageType.s1ap_initial_ue_msg e.next_seq (initial_ue_ies ue_index),
    )
    pub challenged :
        Challenged draw m h
          (first_enb e ue_index)
          (udp_payload MessageType.s1ap_initial_ue_msg e.next_seq (initial_ue_ies ue_index))
          (first_fields ue_index)
    pub attached :
        Attached k challenged.m3 challenged.e1 challenged.response m.ue_store.next_id challenged.ctx

  -- With all nodes up and their counters below the wrap-around, and no drop in the chaos mode, every
  -- UE of the eNB gets through the attach procedure: the exchange of messages between eNB, MME, HSS,
  -- S-GW, P-GW and PCRF, in which each message that is sent is handled by the node it is sent to, the
  -- Security Mode command, the answer to the context setup and the Modify Bearer request among them,
  -- ends with a registered context of its own that has one bearer with the S-GW's tunnels, the eNB's
  -- tunnel and the P-GW's address.
  pub registers :
      IsValid m.ue_store
      → m.next_seq < 2 ^ 32
      → h.next_seq < 2 ^ 32
      → e.next_seq < 2 ^ 32
      → e.next_enb_teid < 2 ^ 32
      → m.ue_store.next_id < 2 ^ 32
      → ue_index < 2 ^ 32
      → Up k
      → Registers
  unfolding send_initial_ue_message
  registers v hm hh he het hid hue up =
      let payload =
        udp_payload MessageType.s1ap_initial_ue_msg e.next_seq (initial_ue_ies ue_index) in
      let read =
        parse-payload MessageType.s1ap_initial_ue_msg e.next_seq (initial_ue_ies ue_index)
          (omega arith) he initial_cases initial_default (first_fields ue_index) (ground arith)
          (unfold apply_ies apply_ie in refl) in
      let c =
        authenticates draw m h (first_enb e ue_index) payload (first_fields ue_index) v hm hh
          (omega arith) hid read
          (record {
            enb_id_fits = hue;
            imsi_fits = omega arith;
            mcc_fits = omega arith;
            mnc_fits = omega arith;
          }) in
      record {
        sent = refl;
        challenged = c;
        attached =
            attaches k c.m3 c.e1 m.ue_store.next_id c.ctx c.kept c.found c.response c.res ue_index
              up c.mme_seq c.enb_seq (omega (arith, c.enb_teid)) hid (omega (arith, c.same_ue))
              (omega (arith, c.same_enb)) c.no_bearer c.parsed c.matches;
      }
