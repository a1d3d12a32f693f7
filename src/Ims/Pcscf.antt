-- ===== src/Ims/Pcscf.antt =====
-- ims/pcscf_node.cpp and ims/pcscf_node.h: the proxy between the UEs and the S-CSCF. A session is its
-- number, in the order of the connections. What a handler sends to UEs is a list of the sessions and
-- payloads, in their order.
use g_5g_ims_simulators.Prelude.{
  ℕ, Bool, true, false, ◌||◌, none, some, List, [], ◌∷◌, ◌++◌, ◌==◌, if◌then◌else◌,
}
use g_5g_ims_simulators.Prelude.Texts
use g_5g_ims_simulators.Prelude.Texts.{codes, same_text}
use g_5g_ims_simulators.Lte.Tlv.{
  Ie, ie_bytes, udp_payload, new_reader, Case, parse, Outcome, ok, ◌>>=◌,
}
use g_5g_ims_simulators.Lte.Pcrf.{next}
use g_5g_ims_simulators.Cbrs.Proxy.{is_empty, or_empty}
use g_5g_ims_simulators.Ims.Sip.{
  sip_register, sip_invite, sip_ack, sip_bye, sip_100_trying, sip_180_ringing, sip_183_progress,
  sip_200_ok, tag_from, tag_to, tag_call_id, tag_reason, member, without,
}
use g_5g_ims_simulators.Ims.Fields.{
  Fields, no_fields, from_case, to_case, impu_case, impi_case, contact_case, call_id_case, sdp_case,
  reason_case,
}

pub record UeSession : Type 0 where
  pub impu : List ℕ
  pub ip : List ℕ
  pub registered : Bool

abbrev pub new_session : UeSession
new_session = record { impu = []; ip = []; registered = false }

pub record PcscfNode : Type 0 where
  pub sessions : ℕ → UeSession
  pub ue_by_impu : List (List ℕ × ℕ)
  pub call_to_caller : List (List ℕ × List ℕ)
  pub call_to_callee : List (List ℕ × List ℕ)
  pub call_invite_delivered : List (List ℕ)
  pub next_seq : ℕ

abbrev pub first_pcscf : PcscfNode
first_pcscf = record {
  sessions = λ i. new_session;
  ue_by_impu = [];
  call_to_caller = [];
  call_to_callee = [];
  call_invite_delivered = [];
  next_seq = 1;
}

-- A write through the pointer to a session.
abbrev pub set_session : ℕ → (UeSession → UeSession) → (ℕ → UeSession) → ℕ → UeSession
set_session i f sessions j = if j == i then f (sessions i) else sessions j

abbrev pub ue_cases : List (Case Fields)
ue_cases = from_case ∷ to_case ∷ impu_case ∷ impi_case ∷ contact_case ∷ call_id_case ∷ sdp_case ∷ []

abbrev pub forget : List ℕ → PcscfNode → PcscfNode
forget call_id s = record s {
  call_to_caller = Texts.erase call_id s.call_to_caller;
  call_to_callee = Texts.erase call_id s.call_to_callee;
  call_invite_delivered = without call_id s.call_invite_delivered;
}

-- `handleFromUe`: the state in which the payload is sent to the S-CSCF, the payload, and what the
-- handler still does behind the send, which other threads can come before: only a BYE's case does
-- anything there, it erases the call's routing.
unfoldable pub handle_from_ue :
    PcscfNode → ℕ → List ℕ → Outcome (PcscfNode × List ℕ × (PcscfNode → PcscfNode))
handle_from_ue s i payload = do
  f ← parse ue_cases no_fields (new_reader payload).rest
  (let type = (new_reader payload).msg_type in
      let caller = if is_empty f.from then (s.sessions i).impu else f.from in
      ok (
        if type == sip_register
            then record s {
              sessions =
                  set_session i (λ ses. record ses { impu = f.impu; ip = f.contact }) s.sessions;
              ue_by_impu = Texts.insert f.impu i s.ue_by_impu;
            }
            else if type == sip_invite
            then record s {
              call_to_caller = Texts.insert f.call_id caller s.call_to_caller;
              call_to_callee = Texts.insert f.call_id f.to s.call_to_callee;
            }
            else s,
        payload,
        (if type == sip_bye then forget f.call_id else (λ p. p)),
      ))

-- `sendToUe`: an identity that is not registered gets nothing.
unfoldable pub send_to_ue : PcscfNode → List ℕ → List ℕ → List (ℕ × List ℕ)
send_to_ue s impu payload = elim (Texts.find impu s.ue_by_impu) [
  | none ↦ []
  | some i ↦ (i, payload) ∷ []
]

-- `if (!target.empty()) sendToUe(target, payload);`
unfoldable pub send_if_any : PcscfNode → List ℕ → List ℕ → List (ℕ × List ℕ)
unfolding send_to_ue
send_if_any s target payload = if is_empty target then [] else send_to_ue s target payload

abbrev pub ringing_ies : Fields → List Ie
ringing_ies f =
    ie_bytes tag_call_id f.call_id
    ∷ ie_bytes tag_from f.from
    ∷ ie_bytes tag_to f.to
    ∷ ie_bytes tag_reason (codes "INVITE")
    ∷ []

-- `if (m.find(k) == m.end() && !v.empty()) m[k] = v;`
abbrev pub note_if_new : List ℕ → List ℕ → List (List ℕ × List ℕ) → List (List ℕ × List ℕ)
note_if_new k v m = elim (Texts.find k m) [
  | none ↦ if is_empty v then m else Texts.insert k v m
  | some w ↦ m
]

-- The case of an INVITE: a new one makes the caller's phone ring back.
unfoldable pub deliver_invite : PcscfNode → Fields → List ℕ → PcscfNode × List (ℕ × List ℕ)
unfolding member send_to_ue
deliver_invite s f payload =
    let s1 = record s {
      call_invite_delivered = f.call_id ∷ s.call_invite_delivered;
      call_to_caller = note_if_new f.call_id f.from s.call_to_caller;
      call_to_callee = note_if_new f.call_id f.to s.call_to_callee;
      next_seq = next s.next_seq;
    } in
    let ringing = udp_payload sip_180_ringing s.next_seq (ringing_ies f) in
    if member f.call_id s.call_invite_delivered
    then (s, send_to_ue s f.to payload)
    else (s1, send_to_ue s f.to payload ++ send_to_ue s f.from ringing)

-- The caller as the responses find it, by the call or by their own field.
abbrev pub caller_of : PcscfNode → Fields → List ℕ
caller_of s f =
    let caller = or_empty (Texts.find f.call_id s.call_to_caller) in
    if is_empty caller then f.from else caller

abbrev pub callee_of : PcscfNode → Fields → List ℕ
callee_of s f = or_empty (Texts.find f.call_id s.call_to_callee)

-- The answers to a re-INVITE that go to both sides.
abbrev pub is_change : List ℕ → Bool
is_change reason =
    same_text reason (codes "re-INVITE-HOLD")
    || (same_text reason (codes "re-INVITE-RESUME")
        || (same_text reason (codes "VIDEO-ADD") || same_text reason (codes "VIDEO-REMOVE")))

abbrev pub mark_registered : PcscfNode → List ℕ → PcscfNode
mark_registered s target = elim (Texts.find target s.ue_by_impu) [
  | none ↦ s
  | some i ↦ record s {
    sessions = set_session i (λ ses. record ses { registered = true }) s.sessions;
  }
]

-- The case of a 200 OK.
unfoldable pub deliver_ok : PcscfNode → Fields → List ℕ → PcscfNode × List (ℕ × List ℕ)
unfolding send_if_any
deliver_ok s f payload =
    let registering = if is_empty f.from then f.to else f.from in
    let copies = if is_change f.reason then send_if_any s (callee_of s f) payload else [] in
    if same_text f.reason (codes "REGISTER")
    then (mark_registered s registering, send_if_any s registering payload)
    else (s, copies ++ send_if_any s (caller_of s f) payload)

abbrev pub scscf_cases : List (Case Fields)
scscf_cases = to_case ∷ from_case ∷ call_id_case ∷ reason_case ∷ sdp_case ∷ []

-- The switch of `handleFromScscf`.
unfoldable pub route : PcscfNode → ℕ → Fields → List ℕ → PcscfNode × List (ℕ × List ℕ)
unfolding deliver_invite deliver_ok send_if_any
route s type f payload =
    let callee = if is_empty (callee_of s f) then f.to else callee_of s f in
    let caller = or_empty (Texts.find f.call_id s.call_to_caller) in
    let target = if is_empty caller then (if is_empty f.from then f.to else f.from) else caller in
    if type == sip_invite
    then deliver_invite s f payload
    else if type == sip_100_trying || (type == sip_183_progress || type == sip_180_ringing)
    then (s, send_if_any s (caller_of s f) payload)
    else if type == sip_200_ok
    then deliver_ok s f payload
    else if type == sip_ack
    then (s, send_if_any s callee payload)
    else (s, send_if_any s target payload)

-- `handleFromScscf`
unfoldable pub handle_from_scscf : PcscfNode → List ℕ → Outcome (PcscfNode × List (ℕ × List ℕ))
unfolding route
handle_from_scscf s payload = do
  f ← parse scscf_cases no_fields (new_reader payload).rest
  ok (route s (new_reader payload).msg_type f payload)
