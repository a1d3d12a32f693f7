-- ===== src/Ims/Core/Bye.antt =====
-- A BYE as a UE sends it.
use g_5g_ims_simulators.Prelude.{
  ℕ, ◌^◌, ◌<◌, ◌≡◌, refl, arith, zero, suc, ◌≢◌, none, some, take, List, [], ◌∷◌, length,
}
use g_5g_ims_simulators.Prelude.Texts
use g_5g_ims_simulators.Prelude.Texts.{codes, same_text, same_text_refl, find-erase}
use g_5g_ims_simulators.Lte.Tlv.{udp_payload, new_reader, ok}
use g_5g_ims_simulators.Lte.Tlv.Loop.{apply_ie, apply_ies}
use g_5g_ims_simulators.Lte.Tlv.Messages.{msg_type-payload, parse-payload}
use g_5g_ims_simulators.Lte.Pcrf.{next}
use g_5g_ims_simulators.Ims.Sip.{sip_bye, sip_200_ok}
use g_5g_ims_simulators.Ims.Scscf.{ScscfNode, handle_bye, bye_cases, response_ies}
use g_5g_ims_simulators.Ims.Fields.{no_fields}
use g_5g_ims_simulators.Ims.Scscf
use g_5g_ims_simulators.Ims.Hss
use g_5g_ims_simulators.Ims.Pcscf.{
  PcscfNode, handle_from_ue, handle_from_scscf, ue_cases, scscf_cases, route, deliver_ok,
  send_if_any, forget,
}
use g_5g_ims_simulators.Ims.Ue.{bye_ies}
use g_5g_ims_simulators.Ims.Core.{Core, round, deliver_all, deliver_around}
use g_5g_ims_simulators.Ims.Core.Messages.{
  route_response, send_to_known, caller_of_call, is_empty-false, response_fields,
}

gone : {V : Type 0} (k : List ℕ) (m : List (List ℕ × V)) → Texts.find k (Texts.erase k m) ≡ none
gone k m = rw (find-erase k k m, same_text_refl k)

abbrev pub bye : ℕ → List ℕ → List ℕ
bye n call_id = udp_payload sip_bye n (bye_ies call_id)

-- The S-CSCF's answer to a BYE.
abbrev pub bye_ok : List ℕ → ℕ → List ℕ
bye_ok call_id m = udp_payload sip_200_ok m (response_ies call_id [] [] (codes "BYE") [])

module _ (n : ℕ) (call_id : List ℕ) (hn : n < 2 ^ 32) (hc : length call_id < 2 ^ 16) where
  type_of_bye : (new_reader (bye n call_id)).msg_type ≡ sip_bye
  type_of_bye = msg_type-payload sip_bye n (bye_ies call_id) (omega arith) hn

  pcscf_sends :
      (p : PcscfNode) (k : ℕ)
      → handle_from_ue p k (bye n call_id) ≡ ok (p, bye n call_id, forget call_id)
  unfolding handle_from_ue
  pcscf_sends p k = rw (
    type_of_bye,
    parse-payload sip_bye n (bye_ies call_id) (omega arith) hn ue_cases no_fields
        (record no_fields { call_id = call_id }) (omega arith) (unfold apply_ies apply_ie in refl),
  )

  scscf_ends :
      (barred : List (List ℕ)) (h : Hss.ImsHssNode) (s : ScscfNode)
      → Scscf.receive Hss.receive barred h s (bye n call_id)
        ≡ ok (
          h,
          record s { calls = Texts.erase call_id s.calls; next_seq = next s.next_seq },
          udp_payload sip_200_ok s.next_seq (response_ies call_id [] [] (codes "BYE") [])
              ∷ bye n call_id
              ∷ [],
        )
  unfolding Scscf.receive handle_bye Scscf.send_sip_response
  scscf_ends barred h s = rw (
    type_of_bye,
    parse-payload sip_bye n (bye_ies call_id) (omega arith) hn bye_cases no_fields
        (record no_fields { call_id = call_id }) (omega arith) (unfold apply_ies apply_ie in refl),
  )

  ok_lost :
      (p : PcscfNode) (m : ℕ)
      → m < 2 ^ 32
      → handle_from_scscf
          (forget call_id p)
          (udp_payload sip_200_ok m (response_ies call_id [] [] (codes "BYE") []))
        ≡ ok (forget call_id p, [])
  unfolding route deliver_ok same_text send_if_any
  ok_lost p m hm =
      rw
        (route_response (forget call_id p) sip_200_ok m call_id [] [] (codes "BYE") (omega arith) hm
          hc (omega arith) (omega arith) (omega arith))
        (rw (gone call_id p.call_to_caller))

  bye_lost :
      (p : PcscfNode)
      → handle_from_scscf (forget call_id p) (bye n call_id) ≡ ok (forget call_id p, [])
  unfolding handle_from_scscf route send_if_any
  bye_lost p =
      rw
        (
          type_of_bye,
          parse-payload sip_bye n (bye_ies call_id) (omega arith) hn scscf_cases no_fields
              (record no_fields { call_id = call_id }) (omega arith)
              (unfold apply_ies apply_ie in refl),
        )
        (rw (gone call_id p.call_to_caller))

  module _ (p : PcscfNode) (from : List ℕ) (i : ℕ) (ne : from ≢ [])
      (known : Texts.find from p.ue_by_impu ≡ some i)
      (caller : Texts.find call_id p.call_to_caller ≡ some from) where
    ok_heard :
        (m : ℕ)
        → m < 2 ^ 32
        → handle_from_scscf p (bye_ok call_id m) ≡ ok (p, (i, bye_ok call_id m) ∷ [])
    unfolding route deliver_ok same_text
    ok_heard m hm =
        rw
          (route_response p sip_200_ok m call_id [] [] (codes "BYE") (omega arith) hm hc
            (omega arith) (omega arith) (omega arith))
          (rw (caller_of_call p (response_fields call_id [] [] (codes "BYE")) from ne caller)
            (rw (send_to_known p from (bye_ok call_id m) i ne known)))

    bye_heard : handle_from_scscf p (bye n call_id) ≡ ok (p, (i, bye n call_id) ∷ [])
    unfolding handle_from_scscf route
    bye_heard =
        rw
          (
            type_of_bye,
            parse-payload sip_bye n (bye_ies call_id) (omega arith) hn scscf_cases no_fields
                (record no_fields { call_id = call_id }) (omega arith)
                (unfold apply_ies apply_ie in refl),
          )
          (rw (caller, is_empty-false from ne)
            (rw (send_to_known p from (bye n call_id) i ne known)))

    -- Whenever the routing is erased, the replies before that go to the caller and the others to nobody.
    replies_heard :
        (after m : ℕ)
        → m < 2 ^ 32
        → deliver_around (forget call_id) after p (bye_ok call_id m ∷ bye n call_id ∷ [])
          ≡ ok (forget call_id p, take after ((i, bye_ok call_id m) ∷ (i, bye n call_id) ∷ []))
    unfolding deliver_around deliver_all
    replies_heard zero m hm = rw (ok_lost p m hm) (rw (bye_lost p))
    replies_heard (suc zero) m hm = rw (ok_heard m hm) (rw (bye_lost p))
    replies_heard (suc (suc zero)) m hm = rw (ok_heard m hm) (rw bye_heard)
    replies_heard (suc (suc (suc after))) m hm = rw (ok_heard m hm) (rw bye_heard)

  -- A BYE of any session of a call that the P-CSCF knows, its only element the call's identifier:
  -- both nodes forget the call, and whenever the P-CSCF erases the routing, nobody but the caller
  -- gets anything. With the erasure first nobody does, behind the first reply the caller gets the
  -- 200 OK, and behind both it gets the BYE too, were it the caller that sent it or not.
  pub bye_only_to_caller :
      (after : ℕ) (c : Core) (k : ℕ) (from : List ℕ) (i : ℕ)
      → from ≢ []
      → Texts.find from c.pcscf.ue_by_impu ≡ some i
      → Texts.find call_id c.pcscf.call_to_caller ≡ some from
      → c.scscf.next_seq < 2 ^ 32
      → (c' : Core) × (round after c k (bye n call_id)
          ≡ ok (c', take after ((i, bye_ok call_id c.scscf.next_seq) ∷ (i, bye n call_id) ∷ [])))
        × (Texts.find call_id c'.pcscf.call_to_caller ≡ none)
        × (Texts.find call_id c'.pcscf.call_to_callee ≡ none)
        × (Texts.find call_id c'.scscf.calls ≡ none)
  unfolding round
  bye_only_to_caller after c k from i ne known caller hs = (
    record c {
      pcscf = forget call_id c.pcscf;
      scscf = record (c.scscf) {
        calls = Texts.erase call_id c.scscf.calls;
        next_seq = next c.scscf.next_seq;
      };
    },
    rw (pcscf_sends c.pcscf k) (
        rw (scscf_ends c.barred c.hss c.scscf)
          (rw (replies_heard c.pcscf from i ne known caller after c.scscf.next_seq hs))),
    gone call_id c.pcscf.call_to_caller,
    gone call_id c.pcscf.call_to_callee,
    gone call_id c.scscf.calls,
  )
