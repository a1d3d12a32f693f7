-- ===== src/Ims/Core/Invite.antt =====
-- What each node makes of a UE's INVITE.
use g_5g_ims_simulators.Prelude.{
  ℕ, ◌^◌, ◌<◌, ◌≡◌, ◌≢◌, refl, arith, true, false, none, List, [], ◌∷◌, length,
}
use g_5g_ims_simulators.Prelude.Texts
use g_5g_ims_simulators.Prelude.Texts.{codes, same_text}
use g_5g_ims_simulators.Lte.Tlv.{udp_payload, new_reader, ok}
use g_5g_ims_simulators.Lte.Tlv.Loop.{apply_ie, apply_ies}
use g_5g_ims_simulators.Lte.Tlv.Messages.{msg_type-payload, parse-payload}
use g_5g_ims_simulators.Lte.Pcrf.{next}
use g_5g_ims_simulators.Ims.Sip.{sip_invite, sip_100_trying, sip_183_progress, sip_200_ok, member}
use g_5g_ims_simulators.Ims.Scscf.{
  ScscfNode, CallState, response_ies, handle_invite, invited, invite_cases,
}
use g_5g_ims_simulators.Ims.Fields.{no_fields}
use g_5g_ims_simulators.Ims.Scscf
use g_5g_ims_simulators.Ims.Hss
use g_5g_ims_simulators.Ims.Pcscf.{
  PcscfNode, handle_from_ue, handle_from_scscf, ue_cases, scscf_cases, route, deliver_invite,
}
use g_5g_ims_simulators.Ims.Ue.{invite_ies}
use g_5g_ims_simulators.Ims.Core.Messages.{invite_fields, is_empty-false}

abbrev pub invite : ℕ → List ℕ → List ℕ → List ℕ → List ℕ → List ℕ
invite seq from to call_id sdp = udp_payload sip_invite seq (invite_ies from to call_id sdp)

-- The P-CSCF after it has forwarded the INVITE.
abbrev pub noted : List ℕ → List ℕ → List ℕ → PcscfNode → PcscfNode
noted from to call_id p = record p {
  call_to_caller = Texts.insert call_id from p.call_to_caller;
  call_to_callee = Texts.insert call_id to p.call_to_callee;
}

abbrev pub new_call : List ℕ → List ℕ → List ℕ → CallState
new_call from to call_id = record {
  caller_impu = from;
  callee_impu = to;
  call_id = call_id;
  on_hold = false;
  in_conference = false;
}

-- A response of the S-CSCF to the INVITE.
abbrev pub response : List ℕ → List ℕ → List ℕ → ℕ → ℕ → List ℕ → List ℕ
response from to call_id type n reason = udp_payload type n (response_ies call_id from to reason [])

module _ (seq : ℕ) (from to call_id sdp : List ℕ) (hs : seq < 2 ^ 32) (hf : length from < 2 ^ 16)
    (ht : length to < 2 ^ 16) (hc : length call_id < 2 ^ 16) (hd : length sdp < 2 ^ 16) where
  pub type_of_invite : (new_reader (invite seq from to call_id sdp)).msg_type ≡ sip_invite
  type_of_invite = msg_type-payload sip_invite seq (invite_ies from to call_id sdp) (omega arith) hs

  pub pcscf_forwards :
      (p : PcscfNode) (i : ℕ)
      → from ≢ []
      → handle_from_ue p i (invite seq from to call_id sdp)
        ≡ ok (noted from to call_id p, invite seq from to call_id sdp, λ q. q)
  unfolding handle_from_ue
  pcscf_forwards p i ne = rw (
    type_of_invite,
    parse-payload sip_invite seq (invite_ies from to call_id sdp) (omega arith) hs ue_cases
        no_fields (invite_fields from to call_id sdp) (omega arith)
        (unfold apply_ies apply_ie in refl),
    is_empty-false from ne,
  )

  invited-new :
      (barred : List (List ℕ)) (s : ScscfNode)
      → Texts.find call_id s.calls ≡ none
      → member to barred ≡ false
      → invited barred s (invite seq from to call_id sdp) (invite_fields from to call_id sdp)
        ≡ ok (
          record s {
            calls = Texts.insert call_id (new_call from to call_id) s.calls;
            next_seq = next (next s.next_seq);
          },
          response from to call_id sip_100_trying s.next_seq (codes "INVITE")
              ∷ (invite seq from to call_id sdp)
              ∷ response from to call_id sip_183_progress (next s.next_seq) (codes "INVITE")
              ∷ [],
        )
  unfolding invited Scscf.send_sip_response
  invited-new barred s fresh free = rw (fresh, free, invited)

  pub scscf_calls :
      (barred : List (List ℕ)) (h : Hss.ImsHssNode) (s : ScscfNode)
      → Texts.find call_id s.calls ≡ none
      → member to barred ≡ false
      → Scscf.receive Hss.receive barred h s (invite seq from to call_id sdp)
        ≡ ok (
          h,
          record s {
            calls = Texts.insert call_id (new_call from to call_id) s.calls;
            next_seq = next (next s.next_seq);
          },
          response from to call_id sip_100_trying s.next_seq (codes "INVITE")
              ∷ (invite seq from to call_id sdp)
              ∷ response from to call_id sip_183_progress (next s.next_seq) (codes "INVITE")
              ∷ [],
        )
  unfolding Scscf.receive handle_invite
  scscf_calls barred h s fresh free =
      rw
        (
          type_of_invite,
          parse-payload sip_invite seq (invite_ies from to call_id sdp) (omega arith) hs
              invite_cases no_fields (invite_fields from to call_id sdp) (omega arith)
              (unfold apply_ies apply_ie in refl),
        )
        (rw (invited-new barred s fresh free))

  invited-barred :
      (barred : List (List ℕ)) (s : ScscfNode)
      → Texts.find call_id s.calls ≡ none
      → member to barred ≡ true
      → invited barred s (invite seq from to call_id sdp) (invite_fields from to call_id sdp)
        ≡ ok (
          record s { next_seq = next (next s.next_seq) },
          response from to call_id sip_100_trying s.next_seq (codes "INVITE")
              ∷ response from to call_id sip_200_ok (next s.next_seq) (codes "BARRED")
              ∷ [],
        )
  unfolding invited Scscf.send_sip_response
  invited-barred barred s fresh free = rw (fresh, free, invited)

  pub scscf_declines :
      (barred : List (List ℕ)) (h : Hss.ImsHssNode) (s : ScscfNode)
      → Texts.find call_id s.calls ≡ none
      → member to barred ≡ true
      → Scscf.receive Hss.receive barred h s (invite seq from to call_id sdp)
        ≡ ok (
          h,
          record s { next_seq = next (next s.next_seq) },
          response from to call_id sip_100_trying s.next_seq (codes "INVITE")
              ∷ response from to call_id sip_200_ok (next s.next_seq) (codes "BARRED")
              ∷ [],
        )
  unfolding Scscf.receive handle_invite
  scscf_declines barred h s fresh free =
      rw
        (
          type_of_invite,
          parse-payload sip_invite seq (invite_ies from to call_id sdp) (omega arith) hs
              invite_cases no_fields (invite_fields from to call_id sdp) (omega arith)
              (unfold apply_ies apply_ie in refl),
        )
        (rw (invited-barred barred s fresh free))

  pub pcscf_routes :
      (p : PcscfNode)
      → handle_from_scscf p (invite seq from to call_id sdp)
        ≡ ok (deliver_invite p (invite_fields from to call_id sdp) (invite seq from to call_id sdp))
  unfolding handle_from_scscf route
  pcscf_routes p = rw (
    type_of_invite,
    parse-payload sip_invite seq (invite_ies from to call_id sdp) (omega arith) hs scscf_cases
        no_fields (invite_fields from to call_id sdp) (omega arith)
        (unfold apply_ies apply_ie in refl),
  )
