-- ===== src/Lte/Session/Denied.antt =====
-- A session that the PCRF does not approve.
use g_5g_ims_simulators.Prelude.{
  ℕ, ◌^◌, ◌<◌, ◌≡◌, refl, true, false, Option, none, some, List, [], arith, length, ltb,
}
use g_5g_ims_simulators.Lte.MessageType
use g_5g_ims_simulators.Lte.Tlv.{udp_payload, new_reader, parse, Outcome, ok}
use g_5g_ims_simulators.Lte.Tlv.Loop.{apply_ie, apply_ies}
use g_5g_ims_simulators.Lte.Tlv.Messages.{msg_type-payload, parse-payload, payload-size}
use g_5g_ims_simulators.Lte.Profiles.{or_internet}
use g_5g_ims_simulators.Lte.Pcrf.{next}
use g_5g_ims_simulators.Lte.Pgw.{PgwNode, ccr_ies, reject_ies, approved, send_ccr}
use g_5g_ims_simulators.Lte.Pgw
use g_5g_ims_simulators.Lte.Sgw.{SgwNode, forward_ies}
use g_5g_ims_simulators.Lte.Sgw
use g_5g_ims_simulators.Lte.Session.Chain.{Wide}

module _ {P : Type 0} (ask : P → List ℕ → Outcome (P × Option (List ℕ))) where
  -- What the P-GW makes of the S-GW's request.
  pgw-rejects :
      (c c' : P) (s : PgwNode) (seq s11 : ℕ) (f : Sgw.CreateSession) (answer : Option (List ℕ))
      → seq < 2 ^ 32
      → s11 < 2 ^ 32
      → s.pcrf_connected ≡ true
      → Wide f
      → ask c (
          udp_payload MessageType.dia_gx_ccr_i s.next_seq
            (ccr_ies f.imsi (or_internet f.apn) f.qci))
        ≡ ok (c', answer)
      → approved answer ≡ ok false
      → Pgw.receive ask
          (c, s)
          (udp_payload MessageType.gtp_create_session_req seq (forward_ies f s11))
        ≡ ok (
          (c', record s { next_seq = next (next s.next_seq) }),
          some (udp_payload MessageType.gtp_create_session_rsp (next s.next_seq) reject_ies),
        )
  unfolding Pgw.receive Pgw.handle_create_session Pgw.answer_create_session Pgw.allocate_ip
  pgw-rejects c c' s seq s11 f answer hq h11 up w asked refused = rw (
    payload-size MessageType.gtp_create_session_req seq (forward_ies f s11),
    msg_type-payload MessageType.gtp_create_session_req seq (forward_ies f s11) (omega arith) hq,
    parse-payload MessageType.gtp_create_session_req seq (forward_ies f s11) (omega arith) hq
        Pgw.create_cases Pgw.create_default
        (record { imsi = f.imsi; apn = f.apn; qci = f.qci; ebi = f.ebi })
        (ground (arith, w.imsi_fits, w.apn_fits, w.qci_fits, w.ebi_fits, w.ul_fits, w.dl_fits))
        (unfold apply_ies apply_ie in refl),
    asked,
    refused,
    up,
  )

  -- If the PCRF does not answer the P-GW's request in time, or its answer is not an approval, the
  -- P-GW allocates nothing and refuses, and the S-GW then sends no answer at all on S11, though
  -- two of its tunnel identifiers are used up.
  pub session_denied :
      (c c' : P) (p : PgwNode) (s : SgwNode) (payload : List ℕ) (f : Sgw.CreateSession)
      (answer : Option (List ℕ))
      → p.next_seq < 2 ^ 32
      → s.next_seq < 2 ^ 32
      → s.next_teid < 2 ^ 32
      → p.pcrf_connected ≡ true
      → ltb (length payload) 8 ≡ false
      → (new_reader payload).msg_type ≡ MessageType.gtp_create_session_req
      → parse Sgw.create_cases Sgw.create_default (new_reader payload).rest ≡ ok f
      → Wide f
      → ask c (
          udp_payload MessageType.dia_gx_ccr_i p.next_seq
            (ccr_ies f.imsi (or_internet f.apn) f.qci))
        ≡ ok (c', answer)
      → approved answer ≡ ok false
      → Sgw.receive (Pgw.receive ask) ((c, p), s) payload
        ≡ ok (
          (
            (c', record p { next_seq = next (next p.next_seq) }),
            record s { next_teid = next (next s.next_teid); next_seq = next s.next_seq },
          ),
          none,
        )
  unfolding Sgw.receive Sgw.handle_create_session Sgw.answer_create_session
  session_denied c c' p s payload f answer hp hs ht up long type parsed w asked refused = rw (
    long,
    type,
    parsed,
    pgw-rejects c c' p s.next_seq s.next_teid f answer hs ht up w asked refused,
    parse-payload MessageType.gtp_create_session_rsp (next p.next_seq) reject_ies (omega arith)
        (omega arith) Sgw.created_cases Sgw.created_default
        (record { cause = 64; ue_ip_bytes = [] }) (ground arith)
        (unfold apply_ies apply_ie in refl),
  )
