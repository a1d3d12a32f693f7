-- ===== src/Ims/Tests.antt =====
-- The IMS simulator at concrete inputs.
use g_5g_ims_simulators.Prelude.{ℕ, ◌≡◌, ◌≢◌, refl, arith, true, take, none, some, List, [], ◌∷◌}
use g_5g_ims_simulators.Prelude.Texts
use g_5g_ims_simulators.Prelude.Texts.{codes, same_text}
use g_5g_ims_simulators.Lte.Tlv.{ok}
use g_5g_ims_simulators.Lte.Pcrf.{next}
use g_5g_ims_simulators.Ims.Sip.{sip_100_trying, sip_183_progress, sip_200_ok, member}
use g_5g_ims_simulators.Ims.Hss
use g_5g_ims_simulators.Ims.Scscf
use g_5g_ims_simulators.Ims.Scscf.Keyed.{IsKeyed, Ends, receive-IsKeyed}
use g_5g_ims_simulators.Ims.Pcscf.{first_pcscf}
use g_5g_ims_simulators.Ims.Core.{Core, round}
use g_5g_ims_simulators.Ims.Core.Invite.{invite, new_call, response}
use g_5g_ims_simulators.Ims.Core.Calls.{ringing, barred_call}
use g_5g_ims_simulators.Ims.Core.Answer.{accept, call_connects}
use g_5g_ims_simulators.Ims.Core.Bye.{bye, bye_ok, bye_only_to_caller}
use g_5g_ims_simulators.Ims.Core.Register.{register, registered_ok, subscriber, registers_ue}

abbrev ue_a : List ℕ
ue_a = codes "sip:a"

abbrev ue_b : List ℕ
ue_b = codes "sip:b"

abbrev first_call : List ℕ
first_call = codes "call-1"

abbrev offer : List ℕ
offer = codes "audio"

abbrev first_core : Core
first_core = record {
  pcscf = first_pcscf;
  scscf = record { registry = []; calls = []; next_seq = 1 };
  hss = record { next_seq = 1 };
  barred = [];
}

abbrev two_ues : Core
two_ues = record first_core {
  pcscf = record first_pcscf { ue_by_impu = (ue_a, 0) ∷ (ue_b, 1) ∷ [] };
}

abbrev barred_ue : Core
barred_ue = record two_ues { barred = ue_b ∷ [] }

named : codes "sip:a" ≢ []
named e = cc

registers_ue_example :
    (c' : Core) × (round 0 first_core 0 (register 1 ue_a ue_a offer)
      ≡ ok (c', (0, registered_ok (next 1) ue_a) ∷ []))
    × (Texts.find ue_a c'.pcscf.ue_by_impu ≡ some 0)
    × (c'.pcscf.sessions 0 ≡ record { impu = ue_a; ip = offer; registered = true })
    × ((j : ℕ) → j ≢ 0 → c'.pcscf.sessions j ≡ first_core.pcscf.sessions j)
    × (Texts.find ue_a c'.scscf.registry ≡ some (subscriber ue_a ue_a offer))
registers_ue_example =
    registers_ue 1 ue_a ue_a offer (omega arith) (omega arith) (omega arith) (omega arith) 0
      first_core 0 named (omega arith) (omega arith)

call_connects_example :
    (c' : Core) × (round 1 two_ues 0 (invite 1 ue_a ue_b first_call offer)
      ≡ ok (
        c',
        (0, response ue_a ue_b first_call sip_100_trying 1 (codes "INVITE"))
            ∷ (1, invite 1 ue_a ue_b first_call offer)
            ∷ (0, ringing two_ues ue_a ue_b first_call)
            ∷ (0, response ue_a ue_b first_call sip_183_progress (next 1) (codes "INVITE"))
            ∷ [],
      ))
    × (Texts.find first_call c'.scscf.calls ≡ some (new_call ue_a ue_b first_call))
    × (round 1 c' 1 (accept 2 first_call offer) ≡ ok (c', (0, accept 2 first_call offer) ∷ []))
unfolding Texts.find same_text member
call_connects_example =
    call_connects 1 two_ues 0 1 1 2 ue_a ue_b first_call offer offer (omega arith) (omega arith)
      (omega arith) (omega arith) (omega arith) (omega arith) (omega arith) (omega arith) named refl
      refl refl refl refl

barred_call_example :
    (c' : Core) × (round 2 barred_ue 0 (invite 1 ue_a ue_b first_call offer)
      ≡ ok (
        c',
        (0, response ue_a ue_b first_call sip_100_trying 1 (codes "INVITE"))
            ∷ (0, response ue_a ue_b first_call sip_200_ok (next 1) (codes "BARRED"))
            ∷ [],
      ))
    × (c'.scscf.calls ≡ [])
    × (Texts.find first_call c'.pcscf.call_to_caller ≡ some ue_a)
    × (Texts.find first_call c'.pcscf.call_to_callee ≡ some ue_b)
unfolding Texts.find same_text member
barred_call_example =
    barred_call 2 barred_ue 0 1 1 ue_a ue_b first_call offer (omega arith) (omega arith)
      (omega arith) (omega arith) (omega arith) named refl refl (omega arith) refl

abbrev in_call : Core
in_call = record two_ues {
  pcscf = record first_pcscf {
    ue_by_impu = (ue_a, 0) ∷ (ue_b, 1) ∷ [];
    call_to_caller = (first_call, ue_a) ∷ [];
    call_to_callee = (first_call, ue_b) ∷ [];
  };
}

bye_only_to_caller_example :
    (c' : Core) × (round 1 in_call 0 (bye 3 first_call)
      ≡ ok (c', take 1 ((0, bye_ok first_call 1) ∷ (0, bye 3 first_call) ∷ [])))
    × (Texts.find first_call c'.pcscf.call_to_caller ≡ none)
    × (Texts.find first_call c'.pcscf.call_to_callee ≡ none)
    × (Texts.find first_call c'.scscf.calls ≡ none)
unfolding Texts.find same_text
bye_only_to_caller_example =
    bye_only_to_caller 3 first_call (omega arith) (omega arith) 1 in_call 0 ue_a 0 named refl refl
      (omega arith)

no_subscribers : IsKeyed first_core.scscf
unfolding Texts.find
no_subscribers = (λ k cs e. cc, λ k sub e. cc)

receive-IsKeyed_example :
    Ends
      (λ r. IsKeyed r.1)
      (Scscf.receive Hss.receive [] first_core.hss first_core.scscf
        (invite 1 ue_a ue_b first_call offer))
receive-IsKeyed_example =
    receive-IsKeyed Hss.receive [] first_core.hss first_core.scscf
      (invite 1 ue_a ue_b first_call offer) no_subscribers
