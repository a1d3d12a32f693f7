-- ===== src/Ims/Scscf.antt =====
-- ims/scscf_node.cpp, ims/scscf_node.h and ims/mtas_state.h: the registrar and the state of calls.
-- What a handler sends to the P-CSCF is the list of the payloads, in their order. Text of SIP for
-- the packet captures is not part of it.
pub mod Keyed
use g_5g_ims_simulators.Prelude.{
  ℕ, Bool, true, false, ◌||◌, ◌&&◌, Option, none, some, List, [], ◌∷◌, ◌++◌, ◌==◌, if◌then◌else◌,
}
use g_5g_ims_simulators.Prelude.Texts
use g_5g_ims_simulators.Prelude.Texts.{codes, same_text}
use g_5g_ims_simulators.Lte.Tlv.{
  Ie, ie_bytes, udp_payload, new_reader, Case, case_bytes, parse, Outcome, ok, ◌>>=◌,
}
use g_5g_ims_simulators.Lte.Pcrf.{next}
use g_5g_ims_simulators.Cbrs.Proxy.{is_empty}
use g_5g_ims_simulators.Ims.Sip.{
  sip_register, sip_invite, sip_ack, sip_bye, sip_cancel, sip_100_trying, sip_183_progress,
  sip_200_ok, dia_cx_sar, tag_from, tag_to, tag_contact, tag_call_id, tag_impu, tag_impi, tag_sdp,
  tag_reason, tag_cx_impu, tag_cx_impi, tag_cx_scscf_name, first_str, contains, member, without,
}
use g_5g_ims_simulators.Ims.Fields.{
  Fields, no_fields, from_case, to_case, call_id_case, sdp_case, reason_case, impu_case, impi_case,
  contact_case,
}

pub record ImsSubscriber : Type 0 where
  pub impu : List ℕ
  pub impi : List ℕ
  pub contact : List ℕ
  pub scscf_name : List ℕ
  pub registered : Bool

pub record CallState : Type 0 where
  pub caller_impu : List ℕ
  pub callee_impu : List ℕ
  pub call_id : List ℕ
  pub on_hold : Bool
  pub in_conference : Bool

pub record ScscfNode : Type 0 where
  pub registry : List (List ℕ × ImsSubscriber)
  pub calls : List (List ℕ × CallState)
  pub next_seq : ℕ

-- `MtasState::isBarred` and `setBarred` on the set of barred identities.
abbrev pub is_barred : List ℕ → List (List ℕ) → Bool
is_barred impu barred = member impu barred

unfoldable pub set_barred : List ℕ → Bool → List (List ℕ) → List (List ℕ)
unfolding member without
set_barred impu b barred =
    if b then (if is_barred impu barred then barred else impu ∷ barred) else without impu barred

abbrev pub response_ies : List ℕ → List ℕ → List ℕ → List ℕ → List ℕ → List Ie
response_ies call_id from to reason sdp =
    (ie_bytes tag_call_id call_id
      ∷ ie_bytes tag_from from
      ∷ ie_bytes tag_to to
      ∷ ie_bytes tag_reason reason
      ∷ [])
    ++ (if is_empty sdp then [] else ie_bytes tag_sdp sdp ∷ [])

-- `sendSipResponse`
unfoldable pub send_sip_response :
    ScscfNode → ℕ → List ℕ → List ℕ → List ℕ → List ℕ → List ℕ → ScscfNode × List ℕ
send_sip_response s type call_id from to reason sdp = (
  record s { next_seq = next s.next_seq },
  udp_payload type s.next_seq (response_ies call_id from to reason sdp),
)

-- `sendCxSAR`
unfoldable pub send_cx_sar : ScscfNode → List ℕ → List ℕ → ScscfNode × List ℕ
send_cx_sar s impu impi = (
  record s { next_seq = next s.next_seq },
  udp_payload dia_cx_sar s.next_seq (ie_bytes tag_cx_impu impu ∷ ie_bytes tag_cx_impi impi ∷ []),
)

-- `waitCxSAA`: the profile, none after a timeout.
unfoldable pub wait_cx_saa : Option (List ℕ) → Outcome (Option (List ℕ))
wait_cx_saa none = ok none
wait_cx_saa (some payload) = do
  profile ← parse (case_bytes tag_cx_scscf_name (λ f v. v) ∷ []) [] (new_reader payload).rest
  ok (some profile)

-- The branches of `handleReInvite`, on the call that `handleInvite` has found: hold, conference,
-- switching the video, and resuming.
unfoldable pub hold : ScscfNode → List ℕ → List ℕ → CallState → ScscfNode × List (List ℕ)
unfolding send_sip_response
hold s payload call_id cs =
    let s1 = record s { calls = Texts.insert call_id (record cs { on_hold = true }) s.calls } in
    let (s2, held) =
      send_sip_response s1 sip_200_ok call_id cs.caller_impu cs.callee_impu (codes "re-INVITE-HOLD")
        [] in
    (s2, payload ∷ held ∷ [])

abbrev pub conference_ies : List ℕ → List ℕ → List ℕ → List Ie
conference_ies caller callee call_id =
    ie_bytes tag_from caller
    ∷ ie_bytes tag_to callee
    ∷ ie_bytes tag_call_id (call_id ++ codes "-conf")
    ∷ ie_bytes tag_sdp (codes "audio:50000/AMR-WB/16000;conf;a=sendrecv")
    ∷ []

unfoldable pub conference : ScscfNode → List ℕ → List ℕ → CallState → ScscfNode × List (List ℕ)
unfolding send_sip_response
conference s to_impu call_id cs =
    let s1 = record s {
      calls = Texts.insert call_id (record cs { in_conference = true }) s.calls;
    } in
    let invite =
      udp_payload sip_invite s1.next_seq (conference_ies cs.caller_impu to_impu call_id) in
    let s2 = if is_empty to_impu then s1 else record s1 { next_seq = next s1.next_seq } in
    let (s3, joined) =
      send_sip_response s2 sip_200_ok call_id cs.caller_impu cs.callee_impu (codes "CONFERENCE")
        [] in
    (s3, if is_empty to_impu then joined ∷ [] else invite ∷ joined ∷ [])

unfoldable pub switch_video :
    ScscfNode → List ℕ → List ℕ → CallState → List ℕ → ScscfNode × List (List ℕ)
unfolding send_sip_response contains
switch_video s payload call_id cs sdp =
    let reason =
      if contains (codes "port=0") sdp then codes "VIDEO-REMOVE" else codes "VIDEO-ADD" in
    let (s1, switched) =
      send_sip_response s sip_200_ok call_id cs.caller_impu cs.callee_impu reason [] in
    (s1, payload ∷ switched ∷ [])

unfoldable pub resume : ScscfNode → List ℕ → List ℕ → CallState → ScscfNode × List (List ℕ)
unfolding send_sip_response
resume s payload call_id cs =
    let s1 = record s { calls = Texts.insert call_id (record cs { on_hold = false }) s.calls } in
    let (s2, resumed) =
      send_sip_response s1 sip_200_ok call_id cs.caller_impu cs.callee_impu
        (codes "re-INVITE-RESUME") [] in
    (s2, payload ∷ resumed ∷ [])

-- `handleReInvite`
unfoldable pub handle_re_invite :
    ScscfNode → List ℕ → List ℕ → CallState → List ℕ → Outcome (ScscfNode × List (List ℕ))
unfolding hold conference switch_video resume contains first_str
handle_re_invite s payload call_id cs sdp = do
  to_impu ← first_str tag_to (new_reader payload).rest
  ok (
      if contains (codes "inactive") sdp || contains (codes "sendonly") sdp
      then hold s payload call_id cs
      else if contains (codes "conf") sdp
      then conference s to_impu call_id cs
      else if contains (codes "video") sdp && contains (codes "H264") sdp
      then switch_video s payload call_id cs sdp
      else resume s payload call_id cs)

abbrev pub invite_cases : List (Case Fields)
invite_cases = from_case ∷ to_case ∷ call_id_case ∷ sdp_case ∷ []

-- `handleInvite` behind its loop, with the barred identities that `invokeMtas` looks at.
unfoldable pub invited :
    List (List ℕ) → ScscfNode → List ℕ → Fields → Outcome (ScscfNode × List (List ℕ))
unfolding send_sip_response handle_re_invite
invited barred s payload f =
    let (s1, trying) =
      send_sip_response s sip_100_trying f.call_id f.from f.to (codes "INVITE") [] in
    let (s2, declined) =
      send_sip_response s1 sip_200_ok f.call_id f.from f.to (codes "BARRED") [] in
    let call : CallState = record {
      caller_impu = f.from;
      callee_impu = f.to;
      call_id = f.call_id;
      on_hold = false;
      in_conference = false;
    } in
    let s3 = record s1 { calls = Texts.insert f.call_id call s1.calls } in
    let (s4, progress) =
      send_sip_response s3 sip_183_progress f.call_id f.from f.to (codes "INVITE") [] in
    elim (Texts.find f.call_id s.calls) [
      | some cs ↦ handle_re_invite s payload f.call_id cs f.sdp
      | none ↦
          if is_barred f.to barred
          then ok (s2, trying ∷ declined ∷ [])
          else ok (s4, trying ∷ payload ∷ progress ∷ [])
    ]

-- `handleInvite`
unfoldable pub handle_invite :
    List (List ℕ) → ScscfNode → List ℕ → Outcome (ScscfNode × List (List ℕ))
unfolding invited
handle_invite barred s payload =
    parse invite_cases no_fields (new_reader payload).rest >>= λ f. invited barred s payload f

-- `handleAck`
unfoldable pub handle_ack : ScscfNode → List ℕ → Outcome (ScscfNode × List (List ℕ))
unfolding first_str
handle_ack s payload = do
  call_id ← first_str tag_call_id (new_reader payload).rest
  ok (s, elim (Texts.find call_id s.calls) [ none ↦ [] | some cs ↦ payload ∷ [] ])

abbrev pub ok_cases : List (Case Fields)
ok_cases = call_id_case ∷ reason_case ∷ sdp_case ∷ []

-- `handle200Ok`
unfoldable pub handle_200_ok : ScscfNode → List ℕ → Outcome (ScscfNode × List (List ℕ))
handle_200_ok s payload = do
  f ← parse ok_cases no_fields (new_reader payload).rest
  ok (s, payload ∷ [])

abbrev pub bye_cases : List (Case Fields)
bye_cases = call_id_case ∷ from_case ∷ []

-- `handleBye`
unfoldable pub handle_bye : ScscfNode → List ℕ → Outcome (ScscfNode × List (List ℕ))
unfolding send_sip_response
handle_bye s payload = do
  f ← parse bye_cases no_fields (new_reader payload).rest
  (let s1 = record s { calls = Texts.erase f.call_id s.calls } in
      let (s2, done) = send_sip_response s1 sip_200_ok f.call_id f.from [] (codes "BYE") [] in
      ok (s2, done ∷ payload ∷ []))

abbrev pub update_cases : List (Case Fields)
update_cases = from_case ∷ call_id_case ∷ sdp_case ∷ []

-- `handleUpdate`
unfoldable pub handle_update : ScscfNode → List ℕ → Outcome (ScscfNode × List (List ℕ))
unfolding send_sip_response
handle_update s payload = do
  f ← parse update_cases no_fields (new_reader payload).rest
  (let (s1, done) = send_sip_response s sip_200_ok f.call_id f.from [] (codes "UPDATE") [] in
      ok (
        s1,
        elim (Texts.find f.call_id s.calls) [ none ↦ done ∷ [] | some cs ↦ payload ∷ done ∷ [] ],
      ))

abbrev pub register_cases : List (Case Fields)
register_cases = impu_case ∷ impi_case ∷ contact_case ∷ []

module _ {S : Type 0} (ask : S → List ℕ → Outcome (S × Option (List ℕ)))
    (barred : List (List ℕ)) where
  -- `handleRegister`, which waits in its middle for the HSS.
  unfoldable pub handle_register : S → ScscfNode → List ℕ → Outcome (S × ScscfNode × List (List ℕ))
  unfolding send_sip_response send_cx_sar wait_cx_saa
  handle_register p s payload = do
    f ← parse register_cases no_fields (new_reader payload).rest
    (let (s1, sar) = send_cx_sar s f.impu f.impi in
        let sub : ImsSubscriber = record {
          impu = f.impu;
          impi = f.impi;
          contact = f.contact;
          scscf_name = [];
          registered = true;
        } in
        let s2 = record s1 { registry = Texts.insert f.impu sub s1.registry } in
        let (s3, done) =
          send_sip_response s2 sip_200_ok (codes "reg-" ++ f.impu) f.impu f.impu (codes "REGISTER")
            [] in
        ask p sar >>= λ (p', answer). wait_cx_saa answer >>= λ profile. ok (p', s3, done ∷ []))

  -- One round of `receiveLoop` with a payload. An unknown type is an exception that the round
  -- catches.
  unfoldable pub receive : S → ScscfNode → List ℕ → Outcome (S × ScscfNode × List (List ℕ))
  unfolding handle_register handle_invite handle_ack handle_200_ok handle_bye handle_update
  receive p s payload =
      let type = (new_reader payload).msg_type in
      if type == sip_register
      then handle_register p s payload
      else if type == sip_invite
      then (handle_invite barred s payload >>= λ (s', out). ok (p, s', out))
      else if type == sip_ack
      then (handle_ack s payload >>= λ (s', out). ok (p, s', out))
      else if type == sip_200_ok
      then (handle_200_ok s payload >>= λ (s', out). ok (p, s', out))
      else if type == sip_bye
      then (handle_bye s payload >>= λ (s', out). ok (p, s', out))
      else if type == sip_cancel
      then (handle_update s payload >>= λ (s', out). ok (p, s', out))
      else ok (p, s, [])
