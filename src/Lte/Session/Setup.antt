-- ===== src/Lte/Session/Setup.antt =====
-- What the MME gets from the nodes behind S11 when it sets up a session and modifies its bearer.
use g_5g_ims_simulators.Prelude.{
  ℕ, ◌^◌, ◌<◌, ◌≡◌, refl, true, Option, some, List, [], ◌∷◌, ◌++◌, arith, ==_refl,
}
use g_5g_ims_simulators.Lte.MessageType
use g_5g_ims_simulators.Lte.Tag
use g_5g_ims_simulators.Lte.Tlv.{ie_u8, udp_payload, Outcome, ok}
use g_5g_ims_simulators.Lte.Tlv.Loop.{apply_ie, apply_ies}
use g_5g_ims_simulators.Lte.Tlv.Messages.{msg_type-payload, parse-payload, payload-size}
use g_5g_ims_simulators.Lte.Profiles.{internet}
use g_5g_ims_simulators.Lte.Pcrf.{PcrfNode, next}
use g_5g_ims_simulators.Lte.Pcrf
use g_5g_ims_simulators.Lte.Pgw.{PgwNode, ip_bytes}
use g_5g_ims_simulators.Lte.Pgw
use g_5g_ims_simulators.Lte.Sgw.{SgwNode, created_ies}
use g_5g_ims_simulators.Lte.Sgw
use g_5g_ims_simulators.Lte.Mme.Mobility.{modify_bearer_ies}
use g_5g_ims_simulators.Lte.Mme.Context.{Bearer, UeContext, default_bearer}
use g_5g_ims_simulators.Lte.Mme.Store.{find, modify}
use g_5g_ims_simulators.Lte.Mme.Store.Map.{IsValid, find-modify}
use g_5g_ims_simulators.Lte.Mme.Node.{MmeNode}
use g_5g_ims_simulators.Lte.Mme.Attach.{
  create_request_ies, created_cases, created_default, session_answered, send_create_session,
  handle_auth_success, setup_context, context_setup_ies,
}
use g_5g_ims_simulators.Lte.Session.Chain.{session_granted, pgw_after, sgw_after}

-- The nodes behind S11, and what they make of a datagram.
abbrev pub Core : Type 0
Core = (PcrfNode × PgwNode) × SgwNode

abbrev pub core : Core → List ℕ → Outcome (Core × Option (List ℕ))
core = Sgw.receive (Pgw.receive Pcrf.receive)

-- The counters are below their wrap-around, and the P-GW has its PCRF.
pub record Up (k : Core) : Type 0 where
  pub pcrf_seq : k.0.0.next_seq < 2 ^ 32
  pub pgw_seq : k.0.1.next_seq < 2 ^ 32
  pub pgw_teid : k.0.1.next_teid < 2 ^ 32
  pub sgw_seq : k.1.next_seq < 2 ^ 32
  pub sgw_teid : k.1.next_teid < 2 ^ 32
  pub connected : k.0.1.pcrf_connected ≡ true

abbrev pub core_after : Core → Core
core_after k = ((record k.0.0 { next_seq = next k.0.0.next_seq }, pgw_after k.0.1), sgw_after k.1)

-- The bearer that the chain gives.
abbrev pub bearer_of : Core → Bearer
bearer_of k = record {
  ebi = 5;
  qci = 9;
  sgw_s11_teid = k.1.next_teid;
  sgw_s1u_teid = next k.1.next_teid;
  pgw_s5_teid = 0;
  enb_s1u_teid = 0;
  ue_ip = ip_bytes k.0.1.next_ip;
}

session-created :
    (k : Core) (m : MmeNode) (mme_id imsi : ℕ)
    → Up k
    → m.next_seq < 2 ^ 32
    → imsi < 2 ^ 64
    → send_create_session core k m mme_id imsi
      ≡ ok (
        core_after k,
        record m {
          next_seq = next m.next_seq;
          ue_store =
              modify m.ue_store mme_id
                (λ c. record c { bearers = c.bearers ++ (bearer_of k ∷ []) });
        },
        true,
      )
unfolding send_create_session session_answered
session-created k m mme_id imsi up hm hi =
    let ies = create_request_ies imsi in
    let rsp = created_ies k.1.next_teid (next k.1.next_teid) imsi (ip_bytes k.0.1.next_ip) in
    rw (
      session_granted k.0.0 k.0.1 k.1
          (udp_payload MessageType.gtp_create_session_req m.next_seq ies)
          (record {
            imsi = imsi;
            apn = internet;
            qci = 9;
            ebi = 5;
            ambr_ul = 50000000;
            ambr_dl = 100000000;
          })
          up.pcrf_seq up.pgw_seq up.sgw_seq up.sgw_teid up.pgw_teid up.connected
          (payload-size MessageType.gtp_create_session_req m.next_seq ies)
          (msg_type-payload MessageType.gtp_create_session_req m.next_seq ies (omega arith) hm)
          (parse-payload MessageType.gtp_create_session_req m.next_seq ies (omega arith) hm
            Sgw.create_cases Sgw.create_default _ (ground arith)
            (unfold apply_ies apply_ie in refl))
          (record {
            imsi_fits = hi;
            apn_fits = omega arith;
            qci_fits = omega arith;
            ebi_fits = omega arith;
            ul_fits = omega arith;
            dl_fits = omega arith;
          }),
      parse-payload MessageType.gtp_create_session_rsp (next k.1.next_seq) rsp (omega arith)
          (omega arith) created_cases created_default
          (record {
            cause = 16;
            sgw_s11 = k.1.next_teid;
            sgw_s1u = next k.1.next_teid;
            imsi2 = imsi;
            ue_ip_bytes = ip_bytes k.0.1.next_ip;
          })
          (ground (arith, up.sgw_teid)) (unfold apply_ies apply_ie in refl),
    )

-- The change that `sendCreateSession` makes to the context.
abbrev pub with_bearer : Core → UeContext → UeContext
with_bearer k c = record c { bearers = c.bearers ++ (bearer_of k ∷ []) }

first_bearer :
    (k : Core) (bs : List Bearer)
    → bs ≡ []
    → default_bearer (bs ++ (bearer_of k ∷ [])) ≡ some (bearer_of k)
unfolding default_bearer
first_bearer k bs e = rw e

pub auth-success :
    (k : Core) (m : MmeNode) (id : ℕ) (ctx : UeContext)
    → Up k
    → IsValid m.ue_store
    → m.next_seq < 2 ^ 32
    → find m.ue_store id ≡ some ctx
    → ctx.imsi < 2 ^ 64
    → ctx.bearers ≡ []
    → handle_auth_success core k m id
      ≡ ok (
        core_after k,
        record m {
          next_seq = next (next m.next_seq);
          ue_store = modify m.ue_store id (with_bearer k);
        },
        udp_payload MessageType.s1ap_initial_context_setup_req
              (next m.next_seq)
              (context_setup_ies id ctx.enb_ue_s1ap_id (bearer_of k))
            ∷ [],
      )
unfolding handle_auth_success setup_context
auth-success k m id ctx up v hm here hi none_yet = rw (
  handle_auth_success,
  here,
  session-created k m id ctx.imsi up hm hi,
  find-modify m.ue_store v id id (with_bearer k) ctx here,
  ==_refl id,
  setup_context,
  first_bearer k ctx.bearers none_yet,
)

-- The S-GW answers a request to modify a bearer, and nothing else changes behind S11.
abbrev pub bearer_modified : Core → Core
bearer_modified k = (k.0, record k.1 { next_seq = next k.1.next_seq })

pub modified :
    (k : Core) (seq teid imsi : ℕ)
    → seq < 2 ^ 32
    → teid < 2 ^ 32
    → imsi < 2 ^ 64
    → core k (udp_payload MessageType.gtp_modify_bearer_req seq (modify_bearer_ies teid imsi))
      ≡ ok (
        bearer_modified k,
        some (
            udp_payload MessageType.gtp_modify_bearer_rsp k.1.next_seq
              (ie_u8 Tag.gtp_cause 16 ∷ [])),
      )
unfolding Sgw.receive Sgw.handle_modify_bearer
modified k seq teid imsi hs ht hi =
    let ies = modify_bearer_ies teid imsi in
    rw (
      payload-size MessageType.gtp_modify_bearer_req seq ies,
      msg_type-payload MessageType.gtp_modify_bearer_req seq ies (omega arith) hs,
      parse-payload MessageType.gtp_modify_bearer_req seq ies (omega arith) hs Sgw.modify_cases
          Sgw.modify_default (record { enb_teid = teid; imsi = imsi }) (ground arith)
          (unfold apply_ies apply_ie in refl),
    )
