-- ===== src/Lte/Mme/Attach.antt =====
-- mme_node.cpp: the attach procedure. What is sent to the eNB and to the HSS is returned. `S` is the
-- state behind the S11 interface, and `ask` what it makes of a datagram: an answer, or none in time.
pub mod Auth
pub mod Kept
pub mod Moves
use g_5g_ims_simulators.Prelude.{
  ℕ, suc, ◌+◌, ◌*◌, ◌%◌, ◌^◌, Bool, true, false, not, ◌||◌, ◌&&◌, Option, none, some, List, [], ◌∷◌,
  ◌++◌, length, take, leb, ltb, ◌==◌, if◌then◌else◌, replicate,
}
use g_5g_ims_simulators.Prelude.Tables
use g_5g_ims_simulators.Lte.Tag
use g_5g_ims_simulators.Lte.MessageType
use g_5g_ims_simulators.Lte.Tlv.{
  Ie, ie_u8, ie_u32, ie_u64, ie_bytes, udp_payload, new_reader, Case, case_u8, case_u16, case_u32,
  case_u64, case_bytes, parse, Outcome, ok, ◌>>=◌,
}
use g_5g_ims_simulators.Lte.Profiles.{internet, same_text}
use g_5g_ims_simulators.Lte.Pcrf.{next}
use g_5g_ims_simulators.Lte.Mme.Context.{
  EmmState, registered_initiated, auth_pending, session_pending, registered, AuthVectors, Bearer,
  UeContext, default_bearer,
}
use g_5g_ims_simulators.Lte.Mme.Store.{UeContextStore, insert, find, modify}
use g_5g_ims_simulators.Lte.Mme.Node.{MmeNode}

-- Zeroed vectors.
abbrev pub no_vectors : AuthVectors
no_vectors = record {
  rand = replicate 16 0;
  autn = replicate 16 0;
  xres = replicate 8 0;
  kasme = replicate 32 0;
}

-- What `hssReceiveLoop` parses an answer into: a value of the wrong length is ignored.
pub record Aia : Type 0 where
  pub imsi : ℕ
  pub av : AuthVectors

abbrev pub aia_default : Aia
aia_default = record { imsi = 0; av = no_vectors }

abbrev pub aia_cases : List (Case Aia)
aia_cases =
    case_u64 Tag.dia_imsi (λ s v. record s { imsi = v })
    ∷ case_bytes Tag.dia_rand
        (λ s b. if length b == 16 then record s { av = record s.av { rand = b } } else s)
    ∷ case_bytes Tag.dia_autn
        (λ s b. if length b == 16 then record s { av = record s.av { autn = b } } else s)
    ∷ case_bytes Tag.dia_xres
        (λ s b. if length b == 8 then record s { av = record s.av { xres = b } } else s)
    ∷ case_bytes Tag.dia_kasme
        (λ s b. if length b == 32 then record s { av = record s.av { kasme = b } } else s)
    ∷ []

-- One round of `hssReceiveLoop` with a payload.
unfoldable pub hss_receive : MmeNode → List ℕ → Outcome MmeNode
hss_receive s payload =
    if ltb (length payload) 8
    then ok s
    else if (new_reader payload).msg_type == MessageType.dia_aia
    then (parse aia_cases aia_default (new_reader payload).rest >>= λ f.
        ok (record s { pending_auth = Tables.insert f.imsi f.av s.pending_auth }))
    else ok s

pub record InitialUe : Type 0 where
  pub enb_id : ℕ
  pub imsi : ℕ
  pub mcc : ℕ
  pub mnc : ℕ
  pub tac : ℕ

abbrev pub initial_default : InitialUe
initial_default = record { enb_id = 0; imsi = 0; mcc = 0; mnc = 0; tac = 0 }

abbrev pub initial_cases : List (Case InitialUe)
initial_cases =
    case_u32 Tag.enb_ue_s1ap_id (λ s v. record s { enb_id = v })
    ∷ case_u16 Tag.tai_mcc (λ s v. record s { mcc = v })
    ∷ case_u16 Tag.tai_mnc (λ s v. record s { mnc = v })
    ∷ case_u16 Tag.tai_tac (λ s v. record s { tac = v })
    ∷ case_u64 Tag.nas_imsi (λ s v. record s { imsi = v })
    -- Read as one byte, and only logged.
    ∷ case_u8 Tag.nas_ksi (λ s v. s)
    ∷ []

abbrev pub new_context : InitialUe → UeContext
new_context f = record {
  imsi = f.imsi;
  mme_ue_s1ap_id = 0;
  enb_ue_s1ap_id = f.enb_id;
  emm_state = registered_initiated;
  auth = no_vectors;
  bearers = [];
  tai_mcc = f.mcc;
  tai_mnc = f.mnc;
  tai_tac = f.tac;
}

abbrev pub air_ies : InitialUe → List Ie
air_ies f = ie_u64 Tag.dia_imsi f.imsi ∷ ie_u32 Tag.dia_plmn (f.mcc * 2 ^ 16 + f.mnc) ∷ []

-- `handleInitialUEMsg` up to its wait: the fields, the new context's identifier, and the request
-- to the HSS.
unfoldable pub handle_initial_ue_msg : MmeNode → List ℕ → Outcome (InitialUe × ℕ × MmeNode × List ℕ)
handle_initial_ue_msg s payload = do
  f ← parse initial_cases initial_default (new_reader payload).rest
  let (mme_id, store) = insert s.ue_store (new_context f)
  ok (
    f,
    mme_id,
    record s { ue_store = store; next_seq = next s.next_seq },
    udp_payload MessageType.dia_air s.next_seq (air_ies f),
  )

abbrev pub auth_request_ies : ℕ → ℕ → AuthVectors → List Ie
auth_request_ies mme_id enb_id av =
    ie_u32 Tag.mme_ue_s1ap_id mme_id
    ∷ ie_u32 Tag.enb_ue_s1ap_id enb_id
    ∷ ie_u8 Tag.nas_msg_type 0x52
    ∷ ie_bytes Tag.nas_rand av.rand
    ∷ ie_bytes Tag.nas_autn av.autn
    ∷ []

-- The rest of `handleInitialUEMsg`, once the vectors have arrived; `none` is that it waits on.
-- `rolled` is what `Chaos::rollDrop` returns.
unfoldable pub auth_arrived : MmeNode → InitialUe → ℕ → Bool → Option (MmeNode × List (List ℕ))
auth_arrived s f mme_id rolled = elim (Tables.find f.imsi s.pending_auth) [
  | none ↦ none
  | some av ↦
      let s1 = record s {
        pending_auth = Tables.erase f.imsi s.pending_auth;
        ue_store = modify s.ue_store mme_id (λ c. record c { auth = av; emm_state = auth_pending });
      } in
      if rolled
      then some (s1, [])
      else some (
        record s1 { next_seq = next s.next_seq },
        udp_payload MessageType.s1ap_dl_nas_transport s.next_seq
              (auth_request_ies mme_id f.enb_id av)
            ∷ [],
      )
]

abbrev pub create_request_ies : ℕ → List Ie
create_request_ies imsi =
    ie_u64 Tag.gtp_imsi imsi
    ∷ ie_bytes Tag.gtp_apn internet
    ∷ ie_u8 Tag.gtp_ebi 5
    ∷ ie_u8 Tag.gtp_qci 9
    ∷ ie_u32 Tag.gtp_ambr_ul 50000000
    ∷ ie_u32 Tag.gtp_ambr_dl 100000000
    ∷ []

pub record Created : Type 0 where
  pub cause : ℕ
  pub sgw_s11 : ℕ
  pub sgw_s1u : ℕ
  pub imsi2 : ℕ
  pub ue_ip_bytes : List ℕ

abbrev pub created_default : Created
created_default = record { cause = 0; sgw_s11 = 0; sgw_s1u = 0; imsi2 = 0; ue_ip_bytes = [] }

abbrev pub created_cases : List (Case Created)
created_cases =
    case_u8 Tag.gtp_cause (λ s v. record s { cause = v })
    ∷ case_u32 Tag.gtp_sender_teid (λ s v. record s { sgw_s11 = v })
    ∷ case_u32 Tag.gtp_bearer_teid (λ s v. record s { sgw_s1u = v })
    ∷ case_u64 Tag.gtp_imsi (λ s v. record s { imsi2 = v })
    ∷ case_bytes Tag.gtp_ue_ip (λ s v. record s { ue_ip_bytes = v })
    ∷ []

abbrev pub new_bearer : Created → Bearer
new_bearer f = record {
  ebi = 5;
  qci = 9;
  sgw_s11_teid = f.sgw_s11;
  sgw_s1u_teid = f.sgw_s1u;
  pgw_s5_teid = 0;
  enb_s1u_teid = 0;
  ue_ip = take 4 f.ue_ip_bytes;
}

-- The end of `sendCreateSession`: whether there is a session.
unfoldable pub session_answered : MmeNode → ℕ → Option (List ℕ) → Outcome (MmeNode × Bool)
session_answered s mme_id none = ok (s, false)
session_answered s mme_id (some resp) = do
  f ← parse created_cases created_default (new_reader resp).rest
  if not (f.cause == 16) || ltb (length f.ue_ip_bytes) 4
      then ok (s, false)
      else ok (
        record s {
          ue_store =
              modify s.ue_store mme_id
                (λ c. record c { bearers = c.bearers ++ (new_bearer f ∷ []) });
        },
        true,
      )

abbrev pub context_setup_ies : ℕ → ℕ → Bearer → List Ie
context_setup_ies mme_id enb_id b =
    ie_u32 Tag.mme_ue_s1ap_id mme_id
    ∷ ie_u32 Tag.enb_ue_s1ap_id enb_id
    ∷ ie_u32 Tag.icsr_ambr_ul 50000000
    ∷ ie_u32 Tag.icsr_ambr_dl 100000000
    ∷ ie_bytes Tag.icsr_sgw_s1u_ip (127 ∷ 0 ∷ 0 ∷ 1 ∷ [])
    ∷ ie_u32 Tag.icsr_sgw_teid b.sgw_s1u_teid
    ∷ ie_u8 Tag.nas_ebi b.ebi
    ∷ ie_u8 Tag.nas_msg_type 0x42
    ∷ ie_bytes Tag.nas_ue_ip b.ue_ip
    ∷ []

-- The end of `handleAuthSuccess`, on the context as `sendCreateSession` left it.
unfoldable pub setup_context : MmeNode → ℕ → Option UeContext → MmeNode × List (List ℕ)
setup_context s mme_id none = (s, [])
setup_context s mme_id (some ctx) = elim (default_bearer ctx.bearers) [
  | none ↦ (s, [])
  | some b ↦ (
    record s { next_seq = next s.next_seq },
    udp_payload MessageType.s1ap_initial_context_setup_req s.next_seq
          (context_setup_ies mme_id ctx.enb_ue_s1ap_id b)
        ∷ [],
  )
]

abbrev pub security_mode_ies : ℕ → ℕ → List Ie
security_mode_ies mme_id enb_id =
    ie_u32 Tag.mme_ue_s1ap_id mme_id
    ∷ ie_u32 Tag.enb_ue_s1ap_id enb_id
    ∷ ie_u8 Tag.nas_msg_type 0x5D
    ∷ []

-- `res.size()>=8 && memcmp(res.data(), ctx->auth.xres, 8)==0`
unfoldable pub res_matches : List ℕ → AuthVectors → Bool
res_matches res av = leb 8 (length res) && same_text (take 8 res) av.xres

pub record UlNas : Type 0 where
  pub mme_id : ℕ
  pub enb_id : ℕ
  pub nas_type : ℕ
  pub res : List ℕ

abbrev pub ul_nas_default : UlNas
ul_nas_default = record { mme_id = 0; enb_id = 0; nas_type = 0; res = [] }

abbrev pub ul_nas_cases : List (Case UlNas)
ul_nas_cases =
    case_u32 Tag.mme_ue_s1ap_id (λ s v. record s { mme_id = v })
    ∷ case_u32 Tag.enb_ue_s1ap_id (λ s v. record s { enb_id = v })
    ∷ case_u8 Tag.nas_msg_type (λ s v. record s { nas_type = v })
    ∷ case_bytes Tag.nas_res (λ s v. record s { res = v })
    ∷ []

module _ {S : Type 0} (ask : S → List ℕ → Outcome (S × Option (List ℕ))) where
  unfoldable pub send_create_session : S → MmeNode → ℕ → ℕ → Outcome (S × MmeNode × Bool)
  unfolding session_answered
  send_create_session p s mme_id imsi = do
    (p', resp) ←
        ask p (udp_payload MessageType.gtp_create_session_req s.next_seq (create_request_ies imsi))
    (s', created) ← session_answered (record s { next_seq = next s.next_seq }) mme_id resp
    ok (p', s', created)

  unfoldable pub handle_auth_success : S → MmeNode → ℕ → Outcome (S × MmeNode × List (List ℕ))
  unfolding send_create_session setup_context
  handle_auth_success p s mme_id = elim (find s.ue_store mme_id) [
    | none ↦ ok (p, s, [])
    | some ctx ↦ send_create_session p s mme_id ctx.imsi >>= λ (p', s', created).
        let (s2, sent) = setup_context s' mme_id (find s'.ue_store mme_id) in
        if created then ok (p', s2, sent) else ok (p', s', [])
  ]

  -- The branch of `handleULNasTransport` for an Auth Response, on the context found.
  unfoldable pub auth_response :
      S → MmeNode → UlNas → Option UeContext → Outcome (S × MmeNode × List (List ℕ))
  auth_response p s f none = ok (p, s, [])
  auth_response p s f (some ctx) =
      let smc =
        udp_payload MessageType.s1ap_dl_nas_transport s.next_seq
          (security_mode_ies f.mme_id ctx.enb_ue_s1ap_id) in
      let s1 = record s {
        next_seq = next s.next_seq;
        ue_store = modify s.ue_store f.mme_id (λ c. record c { emm_state = session_pending });
      } in
      if res_matches f.res ctx.auth
      then (handle_auth_success p s1 f.mme_id >>= λ (p', s', sent). ok (p', s', smc ∷ sent))
      else ok (p, s, [])

  unfoldable pub handle_ul_nas_transport :
      S → MmeNode → List ℕ → Outcome (S × MmeNode × List (List ℕ))
  handle_ul_nas_transport p s payload = do
    f ← parse ul_nas_cases ul_nas_default (new_reader payload).rest
    if f.nas_type == 0x53
        then auth_response p s f (find s.ue_store f.mme_id)
        else if f.nas_type == 0x46
        then ok (
          p,
          record s {
            ue_store = modify s.ue_store f.mme_id (λ c. record c { emm_state = registered });
          },
          [],
        )
        else ok (p, s, [])
