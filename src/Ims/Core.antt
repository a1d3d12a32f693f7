-- ===== src/Ims/Core.antt =====
-- The P-CSCF, the S-CSCF and the HSS together: what a UE's message brings about, when nothing else
-- comes in between. The P-CSCF handles the UEs' messages in one thread and the S-CSCF's in another:
-- `after` counts the replies that are handled before the UE's thread is done with the message.
pub mod Messages
pub mod Invite
pub mod Calls
pub mod Answer
pub mod Bye
pub mod Register
use g_5g_ims_simulators.Prelude.{ℕ, zero, suc, Option, List, [], ◌∷◌, ◌++◌}
use g_5g_ims_simulators.Lte.Tlv.{Outcome, ok, ◌>>=◌}
use g_5g_ims_simulators.Ims.Hss
use g_5g_ims_simulators.Ims.Hss.{ImsHssNode}
use g_5g_ims_simulators.Ims.Scscf
use g_5g_ims_simulators.Ims.Scscf.{ScscfNode}
use g_5g_ims_simulators.Ims.Pcscf.{PcscfNode, handle_from_ue, handle_from_scscf}

pub record Core : Type 0 where
  pub pcscf : PcscfNode
  pub scscf : ScscfNode
  pub hss : ImsHssNode
  -- The identities that the MTAS bars.
  pub barred : List (List ℕ)

-- The P-CSCF reads one payload after the other: what the UEs' sessions get.
unfoldable pub deliver_all : PcscfNode → List (List ℕ) → Outcome (PcscfNode × List (ℕ × List ℕ))
deliver_all p [] = ok (p, [])
deliver_all p (payload ∷ payloads) = handle_from_scscf p payload >>= λ (p', out).
    deliver_all p' payloads >>= λ (p'', rest). ok (p'', out ++ rest)

-- The same, where what the UE's thread has left to do comes behind that many of the payloads.
unfoldable pub deliver_around :
    (PcscfNode → PcscfNode)
    → ℕ
    → PcscfNode
    → List (List ℕ)
    → Outcome (PcscfNode × List (ℕ × List ℕ))
unfolding deliver_all
deliver_around rest zero p payloads = deliver_all (rest p) payloads
deliver_around rest (suc after) p [] = ok (rest p, [])
deliver_around rest (suc after) p (payload ∷ payloads) =
    handle_from_scscf p payload >>= λ (p', out).
    deliver_around rest after p' payloads >>= λ (p'', more). ok (p'', out ++ more)

-- A payload of session `i`, through the P-CSCF, the S-CSCF and the P-CSCF.
unfoldable pub round : ℕ → Core → ℕ → List ℕ → Outcome (Core × List (ℕ × List ℕ))
unfolding deliver_around
round after c i payload = do
  (p, sent, rest) ← handle_from_ue c.pcscf i payload
  (h, s, back) ← Scscf.receive Hss.receive c.barred c.hss c.scscf sent
  (p', out) ← deliver_around rest after p back
  ok (record c { pcscf = p'; scscf = s; hss = h }, out)
