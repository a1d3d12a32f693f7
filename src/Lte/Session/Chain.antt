-- ===== src/Lte/Session/Chain.antt =====
-- A session set-up through S-GW, P-GW and PCRF.
use g_5g_ims_simulators.Prelude.{
  ℕ, ◌^◌, ◌<◌, ◌≡◌, refl, true, false, some, List, [], ◌∷◌, arith, length, ltb,
}
use g_5g_ims_simulators.Lte.MessageType
use g_5g_ims_simulators.Lte.Tlv.{udp_payload, new_reader, parse, ok}
use g_5g_ims_simulators.Lte.Tlv.Loop.{apply_ie, apply_ies}
use g_5g_ims_simulators.Lte.Tlv.Messages.{msg_type-payload, parse-payload, payload-size}
use g_5g_ims_simulators.Lte.Profiles.{get, or_internet}
use g_5g_ims_simulators.Lte.Pcrf.{PcrfNode, cca_ies, next}
use g_5g_ims_simulators.Lte.Pcrf
use g_5g_ims_simulators.Lte.Pgw.{
  PgwNode, ccr_ies, ip_bytes, accept_ies, reject_ies, approved, send_ccr, cca_cases, cca_default,
}
use g_5g_ims_simulators.Lte.Pgw
use g_5g_ims_simulators.Lte.Sgw.{SgwNode, forward_ies, created_ies}
use g_5g_ims_simulators.Lte.Sgw
use g_5g_ims_simulators.Lte.Session.Policy.{pcrf_answers}

-- The fields have the widths of their types.
pub record Wide (f : Sgw.CreateSession) : Type 0 where
  pub imsi_fits : f.imsi < 2 ^ 64
  pub apn_fits : length f.apn < 2 ^ 16
  pub qci_fits : f.qci < 2 ^ 8
  pub ebi_fits : f.ebi < 2 ^ 8
  pub ul_fits : f.ambr_ul < 2 ^ 32
  pub dl_fits : f.ambr_dl < 2 ^ 32

next-fits : (c : ℕ) → next c < 2 ^ 32
next-fits c = omega arith

or_internet-fits : (apn : List ℕ) → length apn < 2 ^ 16 → length (or_internet apn) < 2 ^ 16
unfolding or_internet
or_internet-fits [] h = omega arith
or_internet-fits (b ∷ apn) h = h

profile-fits :
    (apn : List ℕ)
    → (length (get apn).apn < 2 ^ 16)
      × ((get apn).qci < 2 ^ 8)
      × ((get apn).max_ul_bps < 2 ^ 32)
      × ((get apn).max_dl_bps < 2 ^ 32)
      × (length (get apn).charging_rule < 2 ^ 16)
unfolding get
profile-fits apn = ground arith

-- The PCRF approves every request.
cca-approved :
    (seq imsi : ℕ) (apn : List ℕ)
    → seq < 2 ^ 32
    → imsi < 2 ^ 64
    → approved (some (udp_payload MessageType.dia_gx_cca_i seq (cca_ies imsi (get apn)))) ≡ ok true
unfolding approved
cca-approved seq imsi apn hs hi =
    let (a, q, u, d, r) = profile-fits apn in
    rw (
      msg_type-payload MessageType.dia_gx_cca_i seq (cca_ies imsi (get apn)) (omega arith) hs,
      parse-payload MessageType.dia_gx_cca_i seq (cca_ies imsi (get apn)) (omega arith) hs cca_cases
          cca_default (record { result = 1; rule_name = (get apn).charging_rule }) (ground arith)
          (unfold apply_ies apply_ie in refl),
    )

-- The P-GW's state after a session.
abbrev pub pgw_after : PgwNode → PgwNode
pgw_after s = record s {
  next_teid = next s.next_teid;
  next_ip = next s.next_ip;
  next_seq = next (next s.next_seq);
}

-- What the P-GW, with its PCRF behind it, makes of the S-GW's request.
pgw-accepts :
    (c : PcrfNode) (s : PgwNode) (seq s11 : ℕ) (f : Sgw.CreateSession)
    → c.next_seq < 2 ^ 32
    → s.next_seq < 2 ^ 32
    → seq < 2 ^ 32
    → s11 < 2 ^ 32
    → s.pcrf_connected ≡ true
    → Wide f
    → Pgw.receive Pcrf.receive
        (c, s)
        (udp_payload MessageType.gtp_create_session_req seq (forward_ies f s11))
      ≡ ok (
        (record c { next_seq = next c.next_seq }, pgw_after s),
        some (
            udp_payload MessageType.gtp_create_session_rsp
              (next s.next_seq)
              (accept_ies s.next_teid (ip_bytes s.next_ip) f.ebi)),
      )
unfolding Pgw.receive Pgw.handle_create_session Pgw.answer_create_session Pgw.allocate_ip
pgw-accepts c s seq s11 f hc hs hq h11 up w = rw (
  payload-size MessageType.gtp_create_session_req seq (forward_ies f s11),
  msg_type-payload MessageType.gtp_create_session_req seq (forward_ies f s11) (omega arith) hq,
  parse-payload MessageType.gtp_create_session_req seq (forward_ies f s11) (omega arith) hq
      Pgw.create_cases Pgw.create_default
      (record { imsi = f.imsi; apn = f.apn; qci = f.qci; ebi = f.ebi })
      (ground (arith, w.imsi_fits, w.apn_fits, w.qci_fits, w.ebi_fits, w.ul_fits, w.dl_fits))
      (unfold apply_ies apply_ie in refl),
  pcrf_answers c s.next_seq f.imsi (or_internet f.apn) f.qci hs w.imsi_fits
      (or_internet-fits f.apn w.apn_fits) w.qci_fits,
  cca-approved c.next_seq f.imsi (or_internet (or_internet f.apn)) hc w.imsi_fits,
  up,
)

-- The S-GW's state after a session.
abbrev pub sgw_after : SgwNode → SgwNode
sgw_after s = record s { next_teid = next (next s.next_teid); next_seq = next (next s.next_seq) }

sgw-answers :
    (s : SgwNode) (seq teid ip ebi s11 s1u imsi : ℕ)
    → seq < 2 ^ 32
    → teid < 2 ^ 32
    → ebi < 2 ^ 8
    → Sgw.answer_create_session s s11 s1u imsi (
        some
          (udp_payload MessageType.gtp_create_session_rsp seq (accept_ies teid (ip_bytes ip) ebi)))
      ≡ ok (
        record s { next_seq = next s.next_seq },
        some (
            udp_payload MessageType.gtp_create_session_rsp s.next_seq
              (created_ies s11 s1u imsi (ip_bytes ip))),
      )
unfolding Sgw.answer_create_session
sgw-answers s seq teid ip ebi s11 s1u imsi hs ht he = rw (
    parse-payload MessageType.gtp_create_session_rsp seq (accept_ies teid (ip_bytes ip) ebi)
      (omega arith) hs Sgw.created_cases Sgw.created_default
      (record { cause = 16; ue_ip_bytes = ip_bytes ip }) (ground arith)
      (unfold apply_ies apply_ie in refl))

-- A request for a session, as the S-GW parses it, that comes in on S11: the S-GW, the P-GW and the
-- PCRF behind it grant it. The answer accepts it with the S-GW's next two tunnel identifiers, the
-- subscriber that was asked for and the P-GW's next address, and every counter has moved on.
pub session_granted :
    (c : PcrfNode) (p : PgwNode) (s : SgwNode) (payload : List ℕ) (f : Sgw.CreateSession)
    → c.next_seq < 2 ^ 32
    → p.next_seq < 2 ^ 32
    → s.next_seq < 2 ^ 32
    → s.next_teid < 2 ^ 32
    → p.next_teid < 2 ^ 32
    → p.pcrf_connected ≡ true
    → ltb (length payload) 8 ≡ false
    → (new_reader payload).msg_type ≡ MessageType.gtp_create_session_req
    → parse Sgw.create_cases Sgw.create_default (new_reader payload).rest ≡ ok f
    → Wide f
    → Sgw.receive (Pgw.receive Pcrf.receive) ((c, p), s) payload
      ≡ ok (
        ((record c { next_seq = next c.next_seq }, pgw_after p), sgw_after s),
        some (
            udp_payload MessageType.gtp_create_session_rsp
              (next s.next_seq)
              (created_ies s.next_teid (next s.next_teid) f.imsi (ip_bytes p.next_ip))),
      )
unfolding Sgw.receive Sgw.handle_create_session
session_granted c p s payload f hc hp hs ht hpt up long type parsed w = rw (
  long,
  type,
  parsed,
  pgw-accepts c p s.next_seq s.next_teid f hc hp hs ht up w,
  sgw-answers (record s { next_teid = next (next s.next_teid); next_seq = next s.next_seq })
      (next p.next_seq) p.next_teid p.next_ip f.ebi s.next_teid (next s.next_teid) f.imsi
      (next-fits p.next_seq) hpt w.ebi_fits,
)
