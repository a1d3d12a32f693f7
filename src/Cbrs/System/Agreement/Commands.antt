-- ===== src/Cbrs/System/Agreement/Commands.antt =====
-- The commands of the agent: what the thread and the agent make of the same response.
use g_5g_ims_simulators.Prelude.{
  ℕ, ◌^◌, ◌<◌, ◌≡◌, refl, ◌⊎◌, inl, inr, Bool, Option-cases, Option, none, some, List, [], length,
  if◌then◌else◌,
}
use g_5g_ims_simulators.Prelude.Texts.{codes}
use g_5g_ims_simulators.Cbrs.Doubles.{Doubles}
use g_5g_ims_simulators.Cbrs.Wire
use g_5g_ims_simulators.Cbrs.Wire.{deliver, make_frame, recv_frame}
use g_5g_ims_simulators.Cbrs.Wire.Frames.{deliver_inv}
use g_5g_ims_simulators.Cbrs.Sas.{Sas}
use g_5g_ims_simulators.Cbrs.Sas.Answers.{
  answer_to, answer_to-Answers, Answers, nothing, made, Made,
}
use g_5g_ims_simulators.Cbrs.Proxy.{Thread, info_of, update, handle_message, rejection, or_empty}
use g_5g_ims_simulators.Cbrs.Agent.{Command, Agent, answered}
use g_5g_ims_simulators.Cbrs.System.{
  always_in_step, up, closed, World, thread, Counts, exchange, answer_arrives,
}
use g_5g_ims_simulators.Cbrs.System.Agreement.{GoodLink, Good}

module _ (d : Doubles) (w : World d (always_in_step d)) (a : Agent d) (id : List ℕ) (cmd : Command)
    (req : List ℕ) where
  -- What the agent must make of a response that reaches it.
  abbrev pub Reaches : Option Sas → Thread d.Double × Bool → List ℕ → Type 0
  Reaches o' (t', open_yet) resp =
      Counts o'
      → GoodLink d o' t'.registry w.others (
          if open_yet
          then up (answered d a cmd resp) t'.my_cbsd_id
          else closed (answered d a cmd resp))

  arrives-Good :
      (o' : Option Sas) (t' : Thread d.Double) (reply : List ℕ) (open_yet : Bool)
      → (deliver reply ≡ some reply → Reaches o' (t', open_yet) reply)
      → (deliver reply ≡ some reply) ⊎ (deliver reply ≡ none)
      → Counts
          (answer_arrives d (always_in_step d) (record w { sas = o' }) a cmd t' reply open_yet).sas
      → Good d (answer_arrives d (always_in_step d) (record w { sas = o' }) a cmd t' reply open_yet)
  unfolding answer_arrives
  arrives-Good o' t' reply open_yet h (inl e) = rw (e, answer_arrives) (h e)
  arrives-Good o' t' reply open_yet h (inr e) = rw (e, answer_arrives) (λ c. tt)

  module _ (short : length req < 2 ^ 32)
      (passed : rejection
          (Wire.get req (codes "type"))
          (info_of d (thread d (always_in_step d) w id)).state
        ≡ none) where
    the_thread : Thread d.Double
    the_thread = thread d (always_in_step d) w id

    after_sas : Option Sas
    after_sas = (answer_to d w.sas req).0

    the_response : List ℕ
    the_response = or_empty (answer_to d w.sas req).1

    round : handle_message d (answer_to d) w.sas (thread d (always_in_step d) w id) req ≡ (
      after_sas,
      (update d the_thread req the_response).0,
      the_response,
      (update d the_thread req the_response).1,
    )
    unfolding handle_message after_sas the_response the_thread
    round = rw (passed, handle_message)

    reaches :
        ((s s' : Sas) (resp : List ℕ)
          → w.sas ≡ some s
          → Made d s req s' resp
          → Reaches (some s') (update d (thread d (always_in_step d) w id) req resp) resp)
        → Answers d w.sas req after_sas the_response
        → (deliver the_response ≡ some the_response
            → Reaches after_sas (update d the_thread req the_response) the_response)
          × ((deliver the_response ≡ some the_response) ⊎ (deliver the_response ≡ none))
    unfolding the_thread deliver
    reaches h (nothing e g) = rw e ((λ z. absurd (empty_lost z)), inr no_text)
      where
        no_text : deliver [] ≡ none
        no_text = refl

        empty_lost : deliver [] ≡ some [] → ⊥
        empty_lost z = cc no_text
    reaches h (made s s' p q l m) = (λ z. rw q (h s s' the_response p m), inl l)

    -- A request that passes the guard: only the stub's own response reaches the agent.
    pub exchange-Good :
        ((s s' : Sas) (resp : List ℕ)
          → w.sas ≡ some s
          → Made d s req s' resp
          → Reaches (some s') (update d (thread d (always_in_step d) w id) req resp) resp)
        → Counts (exchange d (always_in_step d) w a id cmd req).sas
        → Good d (exchange d (always_in_step d) w a id cmd req)
    unfolding exchange
    exchange-Good h = elim (Option-cases (deliver req)) [
      | inl lost ↦ rw (lost, exchange) (λ c. tt)
      | inr (r, there) ↦
          let (same, fits) = deliver_inv req r short there in
          let (f, g) =
            reaches h (unfold after_sas the_response in answer_to-Answers d w.sas req fits) in
          rw (there, exchange)
            (rw (same, round)
              (arrives-Good after_sas (update d the_thread req the_response).0 the_response
                (update d the_thread req the_response).1 f g))
    ]
