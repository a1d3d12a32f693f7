-- ===== src/Ims/Core/Answer.antt =====
-- The 200 OK of a callee, and the whole way to a connected call.
use g_5g_ims_simulators.Prelude.{
  ℕ, ◌^◌, ◌<◌, ◌≡◌, ◌≢◌, refl, arith, false, none, some, List, [], ◌∷◌, length,
}
use g_5g_ims_simulators.Prelude.Texts
use g_5g_ims_simulators.Prelude.Texts.{codes, same_text}
use g_5g_ims_simulators.Lte.Tlv.{udp_payload, new_reader, ok}
use g_5g_ims_simulators.Lte.Tlv.Loop.{apply_ie, apply_ies}
use g_5g_ims_simulators.Lte.Tlv.Messages.{msg_type-payload, parse-payload}
use g_5g_ims_simulators.Lte.Pcrf.{next}
use g_5g_ims_simulators.Ims.Sip.{sip_100_trying, sip_183_progress, sip_200_ok, member}
use g_5g_ims_simulators.Ims.Scscf.{ScscfNode, handle_200_ok, ok_cases}
use g_5g_ims_simulators.Ims.Fields.{Fields, no_fields}
use g_5g_ims_simulators.Ims.Scscf
use g_5g_ims_simulators.Ims.Hss
use g_5g_ims_simulators.Ims.Pcscf.{
  PcscfNode, handle_from_ue, handle_from_scscf, ue_cases, scscf_cases, route, deliver_ok,
}
use g_5g_ims_simulators.Ims.Ue.{accept_ies}
use g_5g_ims_simulators.Ims.Core.{Core, round}
use g_5g_ims_simulators.Ims.Core.Messages.{send_to_known, caller_of_call}
use g_5g_ims_simulators.Ims.Core.Invite.{invite, new_call, response}
use g_5g_ims_simulators.Ims.Core.Calls.{
  whole_round, deliver_next, deliver_end, ringing, called, found, call_rings,
}

-- A UE's answer that it accepts the call.
abbrev pub accept : ℕ → List ℕ → List ℕ → List ℕ
accept n call_id sdp = udp_payload sip_200_ok n (accept_ies call_id sdp)

module _ (n : ℕ) (call_id sdp : List ℕ) (hn : n < 2 ^ 32) (hc : length call_id < 2 ^ 16)
    (hd : length sdp < 2 ^ 16) where
  type_of_accept : (new_reader (accept n call_id sdp)).msg_type ≡ sip_200_ok
  type_of_accept = msg_type-payload sip_200_ok n (accept_ies call_id sdp) (omega arith) hn

  accept_fields : Fields
  accept_fields = record no_fields { call_id = call_id; reason = codes "INVITE"; sdp = sdp }

  pcscf_forwards_accept :
      (p : PcscfNode) (k : ℕ)
      → handle_from_ue p k (accept n call_id sdp) ≡ ok (p, accept n call_id sdp, λ q. q)
  unfolding handle_from_ue
  pcscf_forwards_accept p k = rw (
    type_of_accept,
    parse-payload sip_200_ok n (accept_ies call_id sdp) (omega arith) hn ue_cases no_fields
        (record no_fields { call_id = call_id; sdp = sdp }) (omega arith)
        (unfold apply_ies apply_ie in refl),
  )

  scscf_forwards_accept :
      (barred : List (List ℕ)) (h : Hss.ImsHssNode) (s : ScscfNode)
      → Scscf.receive Hss.receive barred h s (accept n call_id sdp)
        ≡ ok (h, s, accept n call_id sdp ∷ [])
  unfolding Scscf.receive handle_200_ok
  scscf_forwards_accept barred h s = rw (
    type_of_accept,
    parse-payload sip_200_ok n (accept_ies call_id sdp) (omega arith) hn ok_cases no_fields
        (record no_fields { call_id = call_id; reason = codes "INVITE"; sdp = sdp }) (omega arith)
        (unfold apply_ies apply_ie in refl),
  )

  accept_arrives :
      (p : PcscfNode) (from : List ℕ) (i : ℕ)
      → from ≢ []
      → Texts.find from p.ue_by_impu ≡ some i
      → Texts.find call_id p.call_to_caller ≡ some from
      → handle_from_scscf p (accept n call_id sdp) ≡ ok (p, (i, accept n call_id sdp) ∷ [])
  unfolding handle_from_scscf route deliver_ok same_text
  accept_arrives p from i ne known caller =
      rw
        (
          type_of_accept,
          parse-payload sip_200_ok n (accept_ies call_id sdp) (omega arith) hn scscf_cases no_fields
              (record no_fields { call_id = call_id; reason = codes "INVITE"; sdp = sdp })
              (omega arith) (unfold apply_ies apply_ie in refl),
        )
        (rw
          (caller_of_call p
            (record no_fields { call_id = call_id; reason = codes "INVITE"; sdp = sdp }) from ne
            caller)
          (rw (send_to_known p from (accept n call_id sdp) i ne known)))

  -- The answer of any session to a call that the P-CSCF knows goes to the caller.
  pub accept_heard :
      (after : ℕ) (c : Core) (k : ℕ) (from : List ℕ) (i : ℕ)
      → from ≢ []
      → Texts.find from c.pcscf.ue_by_impu ≡ some i
      → Texts.find call_id c.pcscf.call_to_caller ≡ some from
      → round after c k (accept n call_id sdp) ≡ ok (c, (i, accept n call_id sdp) ∷ [])
  accept_heard after c k from i ne known caller =
      whole_round after c k (accept n call_id sdp) (accept n call_id sdp) c.pcscf c.pcscf c.hss
        c.scscf (accept n call_id sdp ∷ []) _ (pcscf_forwards_accept c.pcscf k)
        (scscf_forwards_accept c.barred c.hss c.scscf)
        (deliver_next c.pcscf c.pcscf c.pcscf _ [] _ _
          (accept_arrives c.pcscf from i ne known caller) (deliver_end c.pcscf))

-- A UE with a session calls another, under a call's identifier that is new, and nobody bars the
-- callee: the callee's session gets the INVITE; the caller's gets 100 Trying, 180 Ringing and 183
-- Session Progress, in this order; the S-CSCF has the call; and the 200 OK with which the callee
-- then accepts goes to the caller.
pub call_connects :
    (after : ℕ) (c : Core) (i j seq n : ℕ) (from to call_id sdp answer : List ℕ)
    → seq < 2 ^ 32
    → n < 2 ^ 32
    → c.scscf.next_seq < 2 ^ 32
    → length from < 2 ^ 16
    → length to < 2 ^ 16
    → length call_id < 2 ^ 16
    → length sdp < 2 ^ 16
    → length answer < 2 ^ 16
    → from ≢ []
    → Texts.find from c.pcscf.ue_by_impu ≡ some i
    → Texts.find to c.pcscf.ue_by_impu ≡ some j
    → Texts.find call_id c.scscf.calls ≡ none
    → member call_id c.pcscf.call_invite_delivered ≡ false
    → member to c.barred ≡ false
    → (c' : Core) × (round after c i (invite seq from to call_id sdp)
        ≡ ok (
          c',
          (i, response from to call_id sip_100_trying c.scscf.next_seq (codes "INVITE"))
              ∷ (j, invite seq from to call_id sdp)
              ∷ (i, ringing c from to call_id)
              ∷ (
                i,
                response from to call_id sip_183_progress (next c.scscf.next_seq) (codes "INVITE"),
              )
              ∷ [],
        ))
      × (Texts.find call_id c'.scscf.calls ≡ some (new_call from to call_id))
      × (round after c' j (accept n call_id answer) ≡ ok (c', (i, accept n call_id answer) ∷ []))
call_connects after c i j seq n from to call_id sdp answer hs hn hq hf ht hc hd ha ne known known_to
      fresh new free =
    (
      called c from to call_id,
      call_rings after c i j seq from to call_id sdp hs hf ht hc hd ne known fresh hq known_to new
          free,
      found call_id (new_call from to call_id) c.scscf.calls,
      accept_heard n call_id answer hn hc ha after (called c from to call_id) j from i ne known
          (found call_id from c.pcscf.call_to_caller),
    )
