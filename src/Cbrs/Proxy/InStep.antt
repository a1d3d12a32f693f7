-- ===== src/Cbrs/Proxy/InStep.antt =====
-- A round of the proxy with nothing left in the stream of the stub.
use g_5g_ims_simulators.Prelude.{
  ℕ, ◌≤◌, ◌≡◌, ap, inl, inr, Bool, Option-cases, Option, some, List, length,
}
use g_5g_ims_simulators.Prelude.Texts.{codes}
use g_5g_ims_simulators.Cbrs.Doubles.{Doubles}
use g_5g_ims_simulators.Cbrs.Wire
use g_5g_ims_simulators.Cbrs.Sas.{Sas}
use g_5g_ims_simulators.Cbrs.Sas.Answers.{answer_to}
use g_5g_ims_simulators.Cbrs.Sas.Stream.{Stub, in_step, serve, Fits, serve-in_step}
use g_5g_ims_simulators.Cbrs.Proxy.{Thread, or_empty, info_of, rejection, update, handle_message}

module _ (d : Doubles) where
  pub handle_message-in_step :
      (o : Option Sas) (t : Thread d.Double) (req : List ℕ)
      → length req ≤ 65536
      → ((s : Sas) → o ≡ some s → Fits d s req)
      → handle_message d (serve d) (in_step o) t req ≡ (
        in_step (handle_message d (answer_to d) o t req).0,
        (handle_message d (answer_to d) o t req).1,
        (handle_message d (answer_to d) o t req).2,
        (handle_message d (answer_to d) o t req).3,
      )
  unfolding handle_message
  handle_message-in_step o t req h fits =
      elim (Option-cases (rejection (Wire.get req (codes "type")) (info_of d t).state)) [
        | inl e ↦ rw (e, handle_message) (ap finish (serve-in_step d o req h fits))
        | inr (err, e) ↦ rw (e, handle_message)
      ]
    where
      finish : Stub × Option (List ℕ) → Stub × Thread d.Double × List ℕ × Bool
      finish (c, resp) =
          (c, (update d t req (or_empty resp)).0, or_empty resp, (update d t req (or_empty resp)).1)
