-- ===== src/Ims/Core/Calls.antt =====
-- A call between two UEs, from the INVITE on.
use g_5g_ims_simulators.Prelude.{
  ℕ, zero, suc, ◌^◌, ◌<◌, ◌≡◌, ◌≢◌, refl, arith, true, false, none, some, List, [], ◌∷◌, ◌++◌,
  length,
}
use g_5g_ims_simulators.Prelude.Texts
use g_5g_ims_simulators.Prelude.Texts.{codes, same_text, same_text_refl, find-insert, find-erase}
use g_5g_ims_simulators.Lte.Tlv.{udp_payload, ok, ◌>>=◌}
use g_5g_ims_simulators.Lte.Pcrf.{next}
use g_5g_ims_simulators.Ims.Sip.{
  sip_100_trying, sip_180_ringing, sip_183_progress, sip_200_ok, member,
}
use g_5g_ims_simulators.Ims.Scscf.{CallState, response_ies}
use g_5g_ims_simulators.Ims.Fields.{no_fields}
use g_5g_ims_simulators.Ims.Scscf
use g_5g_ims_simulators.Ims.Hss
use g_5g_ims_simulators.Ims.Pcscf.{
  PcscfNode, handle_from_ue, handle_from_scscf, route, deliver_invite, deliver_ok, send_to_ue,
  note_if_new, ringing_ies,
}
use g_5g_ims_simulators.Ims.Core.{Core, round, deliver_all, deliver_around}
use g_5g_ims_simulators.Ims.Core.Messages.{
  response_fields, route_response, send_to_known, caller_of_call,
}
use g_5g_ims_simulators.Ims.Core.Invite.{
  invite, noted, new_call, response, pcscf_forwards, scscf_calls, scscf_declines, pcscf_routes,
}

pub found :
    {V : Type 0} (k : List ℕ) (v : V) (m : List (List ℕ × V))
    → Texts.find k (Texts.insert k v m) ≡ some v
found k v m = rw (find-insert k k v m, same_text_refl k)

note_known :
    (k v w : List ℕ) (m : List (List ℕ × List ℕ)) → Texts.find k m ≡ some w → note_if_new k v m ≡ m
note_known k v w m e = rw (e, note_if_new)

to_one :
    (p : PcscfNode) (impu payload : List ℕ) (i : ℕ)
    → Texts.find impu p.ue_by_impu ≡ some i
    → send_to_ue p impu payload ≡ (i, payload) ∷ []
unfolding send_to_ue
to_one p impu payload i e = rw (e, send_to_ue)

-- A response in the course of the call goes to the caller.
module _ (p : PcscfNode) (from to call_id : List ℕ) (i : ℕ) (ne : from ≢ [])
    (known : Texts.find from p.ue_by_impu ≡ some i)
    (caller : Texts.find call_id p.call_to_caller ≡ some from) (hf : length from < 2 ^ 16)
    (ht : length to < 2 ^ 16) (hc : length call_id < 2 ^ 16) where
  trying_arrives :
      (n : ℕ)
      → n < 2 ^ 32
      → let payload =
          udp_payload sip_100_trying n (response_ies call_id from to (codes "INVITE") []) in
        handle_from_scscf p payload ≡ ok (p, (i, payload) ∷ [])
  unfolding route
  trying_arrives n hn =
      rw
        (route_response p sip_100_trying n call_id from to (codes "INVITE") (omega arith) hn hc hf
          ht (omega arith))
        (rw (caller_of_call p (response_fields call_id from to (codes "INVITE")) from ne caller) (
          rw (
            send_to_known p from
              (udp_payload sip_100_trying n (response_ies call_id from to (codes "INVITE") [])) i ne
              known)))

  progress_arrives :
      (n : ℕ)
      → n < 2 ^ 32
      → let payload =
          udp_payload sip_183_progress n (response_ies call_id from to (codes "INVITE") []) in
        handle_from_scscf p payload ≡ ok (p, (i, payload) ∷ [])
  unfolding route
  progress_arrives n hn =
      rw
        (route_response p sip_183_progress n call_id from to (codes "INVITE") (omega arith) hn hc hf
          ht (omega arith))
        (rw (caller_of_call p (response_fields call_id from to (codes "INVITE")) from ne caller) (
          rw (
            send_to_known p from
              (udp_payload sip_183_progress n (response_ies call_id from to (codes "INVITE") [])) i
              ne known)))

  refusal_arrives :
      (n : ℕ)
      → n < 2 ^ 32
      → let payload = udp_payload sip_200_ok n (response_ies call_id from to (codes "BARRED") []) in
        handle_from_scscf p payload ≡ ok (p, (i, payload) ∷ [])
  unfolding route deliver_ok same_text
  refusal_arrives n hn =
      rw
        (route_response p sip_200_ok n call_id from to (codes "BARRED") (omega arith) hn hc hf ht
          (omega arith))
        (rw (caller_of_call p (response_fields call_id from to (codes "BARRED")) from ne caller) (
          rw (
            send_to_known p from
              (udp_payload sip_200_ok n (response_ies call_id from to (codes "BARRED") [])) i ne
              known)))

pub deliver_next :
    (p p1 p2 : PcscfNode) (x : List ℕ) (xs : List (List ℕ)) (out rest : List (ℕ × List ℕ))
    → handle_from_scscf p x ≡ ok (p1, out)
    → deliver_all p1 xs ≡ ok (p2, rest)
    → deliver_all p (x ∷ xs) ≡ ok (p2, out ++ rest)
unfolding deliver_all
deliver_next p p1 p2 x xs out rest e e' = rw e (rw e')

pub deliver_end : (p : PcscfNode) → deliver_all p [] ≡ ok (p, [])
unfolding deliver_all
deliver_end p = refl

-- With nothing left to do, it does not matter when.
around_nothing :
    (after : ℕ) (p : PcscfNode) (xs : List (List ℕ))
    → deliver_around (λ q. q) after p xs ≡ deliver_all p xs
unfolding deliver_around deliver_all
around_nothing zero p xs = refl
around_nothing (suc after) p [] = refl
around_nothing (suc after) p (x ∷ xs) = λ i. handle_from_scscf p x >>= λ (p', out).
    around_nothing after p' xs i >>= λ (p'', more). ok (p'', out ++ more)

pub whole_round :
    (after : ℕ) (c : Core) (i : ℕ) (payload sent : List ℕ) (p p' : PcscfNode) (h : Hss.ImsHssNode)
    (s : Scscf.ScscfNode) (back : List (List ℕ)) (out : List (ℕ × List ℕ))
    → handle_from_ue c.pcscf i payload ≡ ok (p, sent, λ q. q)
    → Scscf.receive Hss.receive c.barred c.hss c.scscf sent ≡ ok (h, s, back)
    → deliver_all p back ≡ ok (p', out)
    → round after c i payload ≡ ok (record c { pcscf = p'; scscf = s; hss = h }, out)
unfolding round
whole_round after c i payload sent p p' h s back out e1 e2 e3 =
    rw e1 (rw e2 (rw (around_nothing after p back) (rw e3)))

-- The 180 Ringing that the P-CSCF makes.
abbrev pub ringing : Core → List ℕ → List ℕ → List ℕ → List ℕ
ringing c from to call_id =
    udp_payload sip_180_ringing c.pcscf.next_seq
      (ringing_ies (record no_fields { from = from; to = to; call_id = call_id }))

-- The P-CSCF after an INVITE that it has not seen before.
abbrev pub rung : List ℕ → List ℕ → List ℕ → PcscfNode → PcscfNode
rung from to call_id p =
    let p1 = noted from to call_id p in
    record p1 {
      call_invite_delivered = call_id ∷ p1.call_invite_delivered;
      next_seq = next p1.next_seq;
    }

-- The nodes after a call to a callee that is not barred.
abbrev pub called : Core → List ℕ → List ℕ → List ℕ → Core
called c from to call_id = record c {
  pcscf = rung from to call_id c.pcscf;
  scscf = record (c.scscf) {
    calls = Texts.insert call_id (new_call from to call_id) c.scscf.calls;
    next_seq = next (next c.scscf.next_seq);
  };
}

module _ (after : ℕ) (c : Core) (i j seq : ℕ) (from to call_id sdp : List ℕ) (hs : seq < 2 ^ 32)
    (hf : length from < 2 ^ 16) (ht : length to < 2 ^ 16) (hc : length call_id < 2 ^ 16)
    (hd : length sdp < 2 ^ 16) (ne : from ≢ [])
    (known : Texts.find from c.pcscf.ue_by_impu ≡ some i)
    (fresh : Texts.find call_id c.scscf.calls ≡ none) (hn : c.scscf.next_seq < 2 ^ 32) where
  invite_arrives :
      Texts.find to c.pcscf.ue_by_impu ≡ some j
      → member call_id c.pcscf.call_invite_delivered ≡ false
      → handle_from_scscf (noted from to call_id c.pcscf) (invite seq from to call_id sdp)
        ≡ ok (
          rung from to call_id c.pcscf,
          (j, invite seq from to call_id sdp) ∷ (i, ringing c from to call_id) ∷ [],
        )
  unfolding deliver_invite
  invite_arrives known_to new =
      rw (pcscf_routes seq from to call_id sdp hs hf ht hc hd (noted from to call_id c.pcscf)) (
        rw
          (
            new,
            note_known call_id from from (Texts.insert call_id from c.pcscf.call_to_caller)
                (found call_id from c.pcscf.call_to_caller),
            note_known call_id to to (Texts.insert call_id to c.pcscf.call_to_callee)
                (found call_id to c.pcscf.call_to_callee),
          )
          (rw
            (to_one (noted from to call_id c.pcscf) to (invite seq from to call_id sdp) j known_to)
            (rw (to_one (noted from to call_id c.pcscf) from (ringing c from to call_id) i known))))

  -- The callee's session gets the INVITE, the caller's the three answers.
  pub call_rings :
      Texts.find to c.pcscf.ue_by_impu ≡ some j
      → member call_id c.pcscf.call_invite_delivered ≡ false
      → member to c.barred ≡ false
      → round after c i (invite seq from to call_id sdp)
        ≡ ok (
          called c from to call_id,
          (i, response from to call_id sip_100_trying c.scscf.next_seq (codes "INVITE"))
              ∷ (j, invite seq from to call_id sdp)
              ∷ (i, ringing c from to call_id)
              ∷ (
                i,
                response from to call_id sip_183_progress (next c.scscf.next_seq) (codes "INVITE"),
              )
              ∷ [],
        )
  call_rings known_to new free =
      let p = noted from to call_id c.pcscf in
      let r = rung from to call_id c.pcscf in
      let caller = found call_id from c.pcscf.call_to_caller in
      whole_round after c i (invite seq from to call_id sdp) (invite seq from to call_id sdp) p r
        c.hss (called c from to call_id).scscf _ _
        (pcscf_forwards seq from to call_id sdp hs hf ht hc hd c.pcscf i ne)
        (scscf_calls seq from to call_id sdp hs hf ht hc hd c.barred c.hss c.scscf fresh free)
        (deliver_next p p r _ _ _ _
          (trying_arrives p from to call_id i ne known caller hf ht hc c.scscf.next_seq hn)
          (deliver_next p r r _ _ _ _ (invite_arrives known_to new) (
            deliver_next r r r _ _ _ _
              (progress_arrives r from to call_id i ne known caller hf ht hc (next c.scscf.next_seq)
                (omega arith))
              (deliver_end r))))

  -- A barred callee: the caller's session gets 100 Trying and a 200 OK with the reason BARRED, the
  -- callee's nothing; the S-CSCF has no call, but the P-CSCF keeps the caller and the callee of it.
  pub barred_call :
      member to c.barred ≡ true
      → (c' : Core) × (round after c i (invite seq from to call_id sdp)
          ≡ ok (
            c',
            (i, response from to call_id sip_100_trying c.scscf.next_seq (codes "INVITE"))
                ∷ (i, response from to call_id sip_200_ok (next c.scscf.next_seq) (codes "BARRED"))
                ∷ [],
          ))
        × (c'.scscf.calls ≡ c.scscf.calls)
        × (Texts.find call_id c'.pcscf.call_to_caller ≡ some from)
        × (Texts.find call_id c'.pcscf.call_to_callee ≡ some to)
  barred_call bars = (
    record c {
      pcscf = noted from to call_id c.pcscf;
      scscf = record (c.scscf) { next_seq = next (next c.scscf.next_seq) };
    },
    (let p = noted from to call_id c.pcscf in
        let caller = found call_id from c.pcscf.call_to_caller in
        whole_round after c i (invite seq from to call_id sdp) (invite seq from to call_id sdp) p p
          c.hss (record (c.scscf) { next_seq = next (next c.scscf.next_seq) }) _ _
          (pcscf_forwards seq from to call_id sdp hs hf ht hc hd c.pcscf i ne)
          (scscf_declines seq from to call_id sdp hs hf ht hc hd c.barred c.hss c.scscf fresh bars)
          (deliver_next p p p _ _ _ _
            (trying_arrives p from to call_id i ne known caller hf ht hc c.scscf.next_seq hn)
            (deliver_next p p p _ _ _ _
              (refusal_arrives p from to call_id i ne known caller hf ht hc (next c.scscf.next_seq)
                (omega arith))
              (deliver_end p)))),
    refl,
    found call_id from c.pcscf.call_to_caller,
    found call_id to c.pcscf.call_to_callee,
  )
