-- ===== src/Cbrs/System/Simulation.antt =====
-- While the responses fit into frames, the stub behind its stream does what the stub does that is
-- always in step.
use g_5g_ims_simulators.Prelude.{
  ℕ, ◌^◌, ◌≤◌, ◌<◌, ◌≡◌, refl, sym, ◌∙◌, ap, subst, inl, inr, Bool, not, ◌&&◌, Bool-cases,
  Option-cases, Option, none, some, List, length, arith, if◌then◌else◌,
}
use g_5g_ims_simulators.Cbrs.Doubles.{Doubles}
use g_5g_ims_simulators.Cbrs.Wire.{deliver}
use g_5g_ims_simulators.Cbrs.Wire.Frames.{deliver_inv}
use g_5g_ims_simulators.Cbrs.SpectrumState.{
  is_unregistered, is_registered, is_granted, is_authorized,
}
use g_5g_ims_simulators.Cbrs.Registry.{CbsdRegistry}
use g_5g_ims_simulators.Cbrs.Sas.{Sas}
use g_5g_ims_simulators.Cbrs.Sas.Answers.{answer_to}
use g_5g_ims_simulators.Cbrs.Sas.Responses.{length-int_string}
use g_5g_ims_simulators.Cbrs.Sas.Stream.{Stub, in_step, serve, Fits, small-Fits, registration-Fits}
use g_5g_ims_simulators.Cbrs.Proxy.{Thread, is_empty, handle_message}
use g_5g_ims_simulators.Cbrs.Proxy.InStep.{handle_message-in_step}
use g_5g_ims_simulators.Cbrs.Agent.{Command, Agent, CbsdConfig, request, registration_request}
use g_5g_ims_simulators.Cbrs.System.{
  on_stream, always_in_step, Link, up, closed, gone, World, thread, forwards, answer_arrives,
  exchange, run_command,
}
use g_5g_ims_simulators.Cbrs.System.Requests.{
  type_of_registration_request, length-grant_request, length-heartbeat_request,
  length-relinquishment_request, length-deregistration_request,
}
use g_5g_ims_simulators.Cbrs.System.Agreement.{Known, fresh, known, IsGrantId, GoodLink}

none_sent : {x : List ℕ} → none ≡ some x → ⊥
none_sent e = cc

one_sent : {x y : List ℕ} → some x ≡ some y → x ≡ y
one_sent e = cc

-- The same world with the stub behind its stream.
abbrev pub lift : (d : Doubles) → World d (always_in_step d) → World d (on_stream d)
lift d w = record { sas = in_step w.sas; registry = w.registry; link = w.link; others = w.others }

-- Each response to that request fits.
abbrev pub AllFit : Doubles → List ℕ → Type 0
AllFit d req = (s : Sas) → Fits d s req

module _ (d : Doubles) where
  module _ (w : World d (always_in_step d)) (a : Agent d) (cmd : Command) where
    arrives-lift :
        (o : Option Sas) (t : Thread d.Double) (reply : List ℕ) (open_yet : Bool)
        → answer_arrives d
            (on_stream d)
            (record (lift d w) { sas = in_step o })
            a
            cmd
            t
            reply
            open_yet
          ≡ lift d
              (answer_arrives d (always_in_step d) (record w { sas = o }) a cmd t reply open_yet)
    unfolding answer_arrives
    arrives-lift o t reply open_yet = elim (Option-cases (deliver reply)) [
      | inl e ↦ rw (e, answer_arrives)
      | inr (resp, e) ↦ rw (e, answer_arrives)
    ]

    pub exchange-lift :
        (id req : List ℕ)
        → length req < 2 ^ 32
        → AllFit d req
        → exchange d (on_stream d) (lift d w) a id cmd req
          ≡ lift d (exchange d (always_in_step d) w a id cmd req)
    unfolding exchange
    exchange-lift id req short fits = elim (Option-cases (deliver req)) [
      | inl e ↦ rw (e, exchange)
      | inr (r, e) ↦ rw (e, exchange) (received r e)
    ]
      where
        finish : List ℕ → Stub × Thread d.Double × List ℕ × Bool → World d (on_stream d)
        finish r (c, t, reply, open_yet) =
            if c.stuck && forwards d (on_stream d) (thread d (on_stream d) (lift d w) id) r
            then record (lift d w) { sas = c; link = gone }
            else answer_arrives d (on_stream d) (record (lift d w) { sas = c }) a cmd t reply
                open_yet

        received :
            (r : List ℕ)
            → deliver req ≡ some r
            → finish r
                (handle_message d (serve d) (in_step w.sas) (thread d (always_in_step d) w id) r)
              ≡ lift d (
                  let (o, t, reply, open_yet) =
                    handle_message d (answer_to d) w.sas (thread d (always_in_step d) w id) r in
                  answer_arrives d (always_in_step d) (record w { sas = o }) a cmd t reply open_yet)
        received r e =
            let hm = handle_message d (answer_to d) w.sas (thread d (always_in_step d) w id) r in
            let (same, h) = deliver_inv req r short e in
            ap (finish r) (
              handle_message-in_step d w.sas (thread d (always_in_step d) w id) r
                (subst (λ (x : List ℕ). length x ≤ 65536) (sym same) h)
                (λ s p. subst (Fits d s) (sym same) (fits s)))
            ∙ arrives-lift hm.0 hm.1 hm.2 hm.3

  -- The identifiers that the agent has are short.
  abbrev pub ShortIds : Agent d → Type 0
  ShortIds a = (length a.cbsd_id ≤ 30) × (length a.grant_id ≤ 20)

  abbrev pub ShortLink : Link d → Type 0
  ShortLink (up a id) = ShortIds a
  ShortLink (closed a) = Unit
  ShortLink gone = Unit

  length_grant_id : (g : List ℕ) → IsGrantId g → length g ≤ 20
  length_grant_id g (inl e) = rw e (omega arith)
  length_grant_id g (inr (m, e)) = rw e (omega (arith, length-int_string m))

  Known-ShortIds :
      (o : Option Sas) (r : CbsdRegistry d.Double) (a : Agent d) (id : List ℕ)
      → Known d o r a id
      → ShortIds a
  Known-ShortIds o r a id (fresh e1 e2 e3 e4) = (rw e2 (omega arith), rw e4 (omega arith))
  Known-ShortIds o r a id (known n i b e1 e2 e3 e4 e5 e6 e7) =
      (rw (e2 ∙ e1) (omega (arith, length-int_string n)), length_grant_id a.grant_id e7)

  pub GoodLink-ShortLink :
      (o : Option Sas) (r : CbsdRegistry d.Double) (xs : List (List ℕ)) (l : Link d)
      → GoodLink d o r xs l
      → ShortLink l
  GoodLink-ShortLink o r xs gone g = tt
  GoodLink-ShortLink o r xs (closed a) g = tt
  GoodLink-ShortLink o r xs (up a id) g = Known-ShortIds o r a id g.0

  -- What the agent sends is short, or registers it.
  module _ (cfg : CbsdConfig d) (long : length (registration_request d cfg) < 2 ^ 32) where
    abbrev Sent : List ℕ → Type 0
    Sent req = (length req < 2 ^ 32) × AllFit d req

    small : (req : List ℕ) → length req ≤ 32000 → Sent req
    small req h = (omega arith, λ s. small-Fits d s req h)

    sent :
        (a : Agent d) (cmd : Command) (req : List ℕ)
        → ShortIds a
        → request d cfg a cmd ≡ some req
        → Sent req
    unfolding request
    sent a Command.register req k e = elim (Bool-cases (not (is_unregistered a.state))) [
      | inl n ↦ absurd (none_sent (rw (n, request) at e))
      | inr n ↦ subst Sent (one_sent (rw (n, request) at e)) (
        long,
        λ s.
            registration-Fits d s (registration_request d cfg) (type_of_registration_request d cfg),
      )
    ]
    sent a Command.grant req k e = elim (Bool-cases (not (is_registered a.state))) [
      | inl n ↦ absurd (none_sent (rw (n, request) at e))
      | inr n ↦
          subst Sent (one_sent (rw (n, request) at e))
            (small _ (omega (arith, length-grant_request d cfg a.cbsd_id, k.0)))
    ]
    sent a Command.heartbeat req k e =
        elim (Bool-cases (not (is_granted a.state) && not (is_authorized a.state))) [
          | inl n ↦ absurd (none_sent (rw (n, request) at e))
          | inr n ↦
              subst Sent (one_sent (rw (n, request) at e))
                (small _ (omega (arith, length-heartbeat_request d a, k.0, k.1)))
        ]
    sent a Command.relinquish req k e = elim (Bool-cases (is_empty a.grant_id)) [
      | inl n ↦ absurd (none_sent (rw (n, request) at e))
      | inr n ↦
          subst Sent (one_sent (rw (n, request) at e))
            (small _ (omega (arith, length-relinquishment_request d a, k.0, k.1)))
    ]
    sent a Command.deregister req k e = elim (Bool-cases (is_empty a.cbsd_id)) [
      | inl n ↦ absurd (none_sent (rw (n, request) at e))
      | inr n ↦
          subst Sent (one_sent (rw (n, request) at e))
            (small _ (omega (arith, length-deregistration_request d a, k.0)))
    ]

    pub run_command-lift :
        (w : World d (always_in_step d)) (l : Link d) (cmd : Command)
        → ShortLink l
        → run_command d (on_stream d) cfg (lift d w) l cmd
          ≡ lift d (run_command d (always_in_step d) cfg w l cmd)
    unfolding run_command
    run_command-lift w gone cmd g = refl
    run_command-lift w (closed a) cmd g = elim (Option-cases (request d cfg a cmd)) [
      | inl n ↦ rw (n, run_command)
      | inr (req, n) ↦ rw (n, run_command)
    ]
    run_command-lift w (up a id) cmd g = elim (Option-cases (request d cfg a cmd)) [
      | inl n ↦ rw (n, run_command)
      | inr (req, n) ↦
          let (short, fits) = sent a cmd req g n in
          rw (n, run_command) (exchange-lift w a cmd id req short fits)
    ]
