-- ===== src/Ims/Core/Messages.antt =====
-- What the nodes read in each other's messages, and where the P-CSCF sends the S-CSCF's responses.
use g_5g_ims_simulators.Prelude.{
  ℕ, ◌^◌, ◌<◌, ◌≡◌, ◌≢◌, refl, arith, false, some, List, [], ◌∷◌, length,
}
use g_5g_ims_simulators.Prelude.Texts
use g_5g_ims_simulators.Prelude.Texts.{codes, same_text}
use g_5g_ims_simulators.Lte.Tlv.{udp_payload, ok}
use g_5g_ims_simulators.Lte.Tlv.Loop.{apply_ie, apply_ies}
use g_5g_ims_simulators.Lte.Tlv.Messages.{msg_type-payload, parse-payload}
use g_5g_ims_simulators.Cbrs.Proxy.{is_empty}
use g_5g_ims_simulators.Ims.Scscf.{response_ies}
use g_5g_ims_simulators.Ims.Fields.{Fields, no_fields}
use g_5g_ims_simulators.Ims.Pcscf.{
  PcscfNode, handle_from_scscf, scscf_cases, route, caller_of, send_to_ue, send_if_any,
}

pub is_empty-false : (x : List ℕ) → x ≢ [] → is_empty x ≡ false
is_empty-false [] h = absurd (h refl)
is_empty-false (c ∷ x) h = refl

abbrev pub response_fields : List ℕ → List ℕ → List ℕ → List ℕ → Fields
response_fields call_id from to reason = record no_fields {
  call_id = call_id;
  from = from;
  to = to;
  reason = reason;
}

pub route_response :
    (p : PcscfNode) (type seq : ℕ) (call_id from to reason : List ℕ)
    → type < 2 ^ 16
    → seq < 2 ^ 32
    → length call_id < 2 ^ 16
    → length from < 2 ^ 16
    → length to < 2 ^ 16
    → length reason < 2 ^ 16
    → let payload = udp_payload type seq (response_ies call_id from to reason []) in
      handle_from_scscf p payload
      ≡ ok (route p type (response_fields call_id from to reason) payload)
unfolding handle_from_scscf
route_response p type seq call_id from to reason ht hs hc hf hto hr = rw (
  msg_type-payload type seq (response_ies call_id from to reason []) ht hs,
  parse-payload type seq (response_ies call_id from to reason []) ht hs scscf_cases no_fields
      (response_fields call_id from to reason) (omega arith) (unfold apply_ies apply_ie in refl),
)

-- The fields of a UE's INVITE.
abbrev pub invite_fields : List ℕ → List ℕ → List ℕ → List ℕ → Fields
invite_fields from to call_id sdp = record no_fields {
  from = from;
  to = to;
  call_id = call_id;
  sdp = sdp;
}

pub send_to_known :
    (p : PcscfNode) (impu payload : List ℕ) (i : ℕ)
    → impu ≢ []
    → Texts.find impu p.ue_by_impu ≡ some i
    → send_if_any p impu payload ≡ (i, payload) ∷ []
unfolding send_if_any send_to_ue
send_to_known p impu payload i ne e = rw (is_empty-false impu ne, send_to_ue, e)

pub caller_of_call :
    (p : PcscfNode) (f : Fields) (from : List ℕ)
    → from ≢ []
    → Texts.find f.call_id p.call_to_caller ≡ some from
    → caller_of p f ≡ from
caller_of_call p f from ne e = rw (e, is_empty-false from ne)
