-- ===== src/Ims/Core/Register.antt =====
-- The registration of a UE through P-CSCF, S-CSCF and HSS.
use g_5g_ims_simulators.Prelude.{
  ℕ, ◌^◌, ◌<◌, ◌+◌, ◌≡◌, ◌≢◌, refl, arith, true, some, List, [], ◌∷◌, ◌++◌, length, length-append,
  ==_false,
}
use g_5g_ims_simulators.Prelude.Texts
use g_5g_ims_simulators.Prelude.Texts.{codes, same_text}
use g_5g_ims_simulators.Lte.Tlv.{ie_bytes, udp_payload, new_reader, ok, case_bytes}
use g_5g_ims_simulators.Lte.Tlv.Loop.{apply_ie, apply_ies}
use g_5g_ims_simulators.Lte.Tlv.Messages.{msg_type-payload, parse-payload}
use g_5g_ims_simulators.Lte.Pcrf.{next}
use g_5g_ims_simulators.Ims.Sip.{
  sip_register, sip_200_ok, dia_cx_sar, dia_cx_saa, tag_cx_impu, tag_cx_impi, tag_cx_scscf_name,
}
use g_5g_ims_simulators.Ims.Scscf.{
  ScscfNode, ImsSubscriber, handle_register, wait_cx_saa, register_cases, response_ies,
}
use g_5g_ims_simulators.Ims.Fields.{no_fields}
use g_5g_ims_simulators.Ims.Scscf
use g_5g_ims_simulators.Ims.Hss
use g_5g_ims_simulators.Ims.Hss.{ImsHssNode, handle_sar, saa_ies, sar_cases, sar_default, profile}
use g_5g_ims_simulators.Ims.Pcscf.{
  PcscfNode, handle_from_ue, handle_from_scscf, ue_cases, route, deliver_ok, set_session,
  mark_registered,
}
use g_5g_ims_simulators.Ims.Ue.{register_ies}
use g_5g_ims_simulators.Ims.Core.{Core, round}
use g_5g_ims_simulators.Ims.Core.Messages.{route_response, send_to_known, is_empty-false}
use g_5g_ims_simulators.Ims.Core.Calls.{whole_round, deliver_next, deliver_end, found}

abbrev pub register : ℕ → List ℕ → List ℕ → List ℕ → List ℕ
register n impu impi contact = udp_payload sip_register n (register_ies impu impi contact)

abbrev pub subscriber : List ℕ → List ℕ → List ℕ → ImsSubscriber
subscriber impu impi contact = record {
  impu = impu;
  impi = impi;
  contact = contact;
  scscf_name = [];
  registered = true;
}

abbrev pub registered_ok : ℕ → List ℕ → List ℕ
registered_ok n impu =
    udp_payload sip_200_ok n (response_ies (codes "reg-" ++ impu) impu impu (codes "REGISTER") [])

hss_answers :
    (h : ImsHssNode) (m : ℕ) (impu impi : List ℕ)
    → m < 2 ^ 32
    → length impu < 2 ^ 16
    → length impi < 2 ^ 16
    → Hss.receive h
        (udp_payload dia_cx_sar m (ie_bytes tag_cx_impu impu ∷ ie_bytes tag_cx_impi impi ∷ []))
      ≡ ok (
        record h { next_seq = next h.next_seq },
        some (udp_payload dia_cx_saa h.next_seq saa_ies),
      )
unfolding Hss.receive handle_sar
hss_answers h m impu impi hm hu hi = rw (
  msg_type-payload dia_cx_sar m (ie_bytes tag_cx_impu impu ∷ ie_bytes tag_cx_impi impi ∷ [])
      (omega arith) hm,
  parse-payload dia_cx_sar m (ie_bytes tag_cx_impu impu ∷ ie_bytes tag_cx_impi impi ∷ [])
      (omega arith) hm sar_cases sar_default (record { impu = impu; impi = impi }) (omega arith)
      (unfold apply_ies apply_ie in refl),
)

profile_read :
    (m : ℕ) → m < 2 ^ 32 → wait_cx_saa (some (udp_payload dia_cx_saa m saa_ies)) ≡ ok (some profile)
unfolding wait_cx_saa
profile_read m hm = rw (
    parse-payload dia_cx_saa m saa_ies (omega arith) hm
      (case_bytes tag_cx_scscf_name (λ (f v : List ℕ). v) ∷ []) [] profile (omega arith)
      (unfold apply_ies apply_ie in refl))

module _ (n : ℕ) (impu impi contact : List ℕ) (hn : n < 2 ^ 32) (hu : length impu + 4 < 2 ^ 16)
    (hi : length impi < 2 ^ 16) (hc : length contact < 2 ^ 16) where
  type_of_register : (new_reader (register n impu impi contact)).msg_type ≡ sip_register
  type_of_register =
      msg_type-payload sip_register n (register_ies impu impi contact) (omega arith) hn

  -- The P-CSCF after it has forwarded the REGISTER of session `i`.
  abbrev registering : PcscfNode → ℕ → PcscfNode
  registering p i = record p {
    sessions = set_session i (λ ses. record ses { impu = impu; ip = contact }) p.sessions;
    ue_by_impu = Texts.insert impu i p.ue_by_impu;
  }

  pcscf_forwards_register :
      (p : PcscfNode) (i : ℕ)
      → handle_from_ue p i (register n impu impi contact)
        ≡ ok (registering p i, register n impu impi contact, λ q. q)
  unfolding handle_from_ue
  pcscf_forwards_register p i = rw (
    type_of_register,
    parse-payload sip_register n (register_ies impu impi contact) (omega arith) hn ue_cases
        no_fields (record no_fields { from = impu; impu = impu; impi = impi; contact = contact })
        (omega arith) (unfold apply_ies apply_ie in refl),
  )

  scscf_registers :
      (barred : List (List ℕ)) (h : ImsHssNode) (s : ScscfNode)
      → s.next_seq < 2 ^ 32
      → h.next_seq < 2 ^ 32
      → Scscf.receive Hss.receive barred h s (register n impu impi contact)
        ≡ ok (
          record h { next_seq = next h.next_seq },
          record s {
            registry = Texts.insert impu (subscriber impu impi contact) s.registry;
            next_seq = next (next s.next_seq);
          },
          registered_ok (next s.next_seq) impu ∷ [],
        )
  unfolding Scscf.receive handle_register Scscf.send_sip_response Scscf.send_cx_sar
  scscf_registers barred h s hs hh =
      rw
        (
          type_of_register,
          parse-payload sip_register n (register_ies impu impi contact) (omega arith) hn
              register_cases no_fields
              (record no_fields { impu = impu; impi = impi; contact = contact }) (omega arith)
              (unfold apply_ies apply_ie in refl),
        )
        (rw (hss_answers h s.next_seq impu impi hs (omega arith) hi)
          (rw (profile_read h.next_seq hh)))

  -- The P-CSCF after the 200 OK.
  abbrev pub online : PcscfNode → ℕ → PcscfNode
  online p i = record (registering p i) {
    sessions = set_session i (λ ses. record ses { registered = true }) (registering p i).sessions;
  }

  marked : (p : PcscfNode) (i : ℕ) → mark_registered (registering p i) impu ≡ online p i
  marked p i = rw (found impu i p.ue_by_impu, mark_registered)

  ok_arrives :
      (p : PcscfNode) (i m : ℕ)
      → m < 2 ^ 32
      → impu ≢ []
      → handle_from_scscf (registering p i) (registered_ok m impu)
        ≡ ok (online p i, (i, registered_ok m impu) ∷ [])
  unfolding route deliver_ok same_text
  ok_arrives p i m hm ne =
      rw
        (route_response (registering p i) sip_200_ok m (codes "reg-" ++ impu) impu impu
          (codes "REGISTER") (omega arith) hm (omega (arith, length-append (codes "reg-") impu))
          (omega arith) (omega arith) (omega arith))
        (rw (is_empty-false impu ne) (
          rw (
            marked p i,
            send_to_known (registering p i) impu (registered_ok m impu) i ne
                (found impu i p.ue_by_impu),
          )))

  session_online :
      (p : PcscfNode) (i : ℕ)
      → (online p i).sessions i ≡ record { impu = impu; ip = contact; registered = true }
  session_online p i = ground arith

  -- A UE's REGISTER with an identity goes through the P-CSCF, the S-CSCF and the HSS: its session gets
  -- the 200 OK and nothing else is sent to a UE; the session is the one of the identity and is marked
  -- registered, with the contact; the S-CSCF has the subscriber; and no other session changes.
  pub registers_ue :
      (after : ℕ) (c : Core) (i : ℕ)
      → impu ≢ []
      → c.scscf.next_seq < 2 ^ 32
      → c.hss.next_seq < 2 ^ 32
      → (c' : Core) × (round after c i (register n impu impi contact)
          ≡ ok (c', (i, registered_ok (next c.scscf.next_seq) impu) ∷ []))
        × (Texts.find impu c'.pcscf.ue_by_impu ≡ some i)
        × (c'.pcscf.sessions i ≡ record { impu = impu; ip = contact; registered = true })
        × ((j : ℕ) → j ≢ i → c'.pcscf.sessions j ≡ c.pcscf.sessions j)
        × (Texts.find impu c'.scscf.registry ≡ some (subscriber impu impi contact))
  registers_ue after c i ne hs hh = (
    record c {
      pcscf = online c.pcscf i;
      scscf = record (c.scscf) {
        registry = Texts.insert impu (subscriber impu impi contact) c.scscf.registry;
        next_seq = next (next c.scscf.next_seq);
      };
      hss = record { next_seq = next c.hss.next_seq };
    },
    whole_round after c i (register n impu impi contact) (register n impu impi contact)
        (registering c.pcscf i) (online c.pcscf i) (record { next_seq = next c.hss.next_seq })
        (record (c.scscf) {
          registry = Texts.insert impu (subscriber impu impi contact) c.scscf.registry;
          next_seq = next (next c.scscf.next_seq);
        })
        _ _ (pcscf_forwards_register c.pcscf i) (scscf_registers c.barred c.hss c.scscf hs hh)
        (deliver_next (registering c.pcscf i) (online c.pcscf i) (online c.pcscf i) _ [] _ _
          (ok_arrives c.pcscf i (next c.scscf.next_seq) (omega arith) ne)
          (deliver_end (online c.pcscf i))),
    found impu i c.pcscf.ue_by_impu,
    session_online c.pcscf i,
    (λ j h. rw (==_false j i h)),
    found impu (subscriber impu impi contact) c.scscf.registry,
  )
