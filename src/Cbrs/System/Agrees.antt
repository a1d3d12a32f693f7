-- ===== src/Cbrs/System/Agrees.antt =====
-- Runs of the whole with the stub behind its stream: the stream stays in step, and the agent and the
-- proxy agree.
use g_5g_ims_simulators.Prelude.{
  ℕ, ◌^◌, ◌<◌, ◌≡◌, refl, sym, ◌∙◌, ap, subst, Bool, Option, List, [], ◌++◌, ◌∷◌, length, arith,
  if◌then◌else◌,
}
use g_5g_ims_simulators.Cbrs.Doubles.{Doubles}
use g_5g_ims_simulators.Cbrs.Registry.{CbsdRegistry}
use g_5g_ims_simulators.Cbrs.Sas.{Sas}
use g_5g_ims_simulators.Cbrs.Sas.Answers.{answer_to}
use g_5g_ims_simulators.Cbrs.Sas.Stream.{Stub, in_step, small-Fits}
use g_5g_ims_simulators.Cbrs.Proxy.{Thread, handle_message, disconnected}
use g_5g_ims_simulators.Cbrs.Agent.{CbsdConfig, started, registration_request}
use g_5g_ims_simulators.Cbrs.System.{
  on_stream, always_in_step, up, World, thread, Counts, run_command, Step, command, joins, sends,
  leaves, Reach, here, next,
}
use g_5g_ims_simulators.Cbrs.System.Agreement.{fresh, Good}
use g_5g_ims_simulators.Cbrs.System.Simulation.{lift, run_command-lift, GoodLink-ShortLink}
use g_5g_ims_simulators.Cbrs.Proxy.InStep.{handle_message-in_step}
use g_5g_ims_simulators.Cbrs.System.Runs.{LinkAgrees, Good-LinkAgrees, Reach-Good}

module _ (d : Doubles) (cfg : CbsdConfig d)
    (long : length (registration_request d cfg) < 2 ^ 32) where
  Step-lift :
      (w : World d (always_in_step d)) (u : World d (on_stream d))
      → Good d w
      → Step d (on_stream d) cfg (lift d w) u
      → (v : World d (always_in_step d)) × Step d (always_in_step d) cfg w v × (u ≡ lift d v)
  Step-lift w u g (command cmd e) = (
    run_command d (always_in_step d) cfg w w.link cmd,
    command cmd refl,
    e
        ∙ run_command-lift d cfg long w w.link cmd
            (GoodLink-ShortLink d w.sas w.registry w.others w.link g),
  )
  Step-lift w u g (joins e) = (record w { others = [] ∷ w.others }, joins refl, e)
  Step-lift w u g (sends before after id req o h e) =
      let hm = handle_message d (answer_to d) w.sas (thread d (always_in_step d) w id) req in
      (
        record w {
          sas = hm.0;
          registry = hm.1.registry;
          others = before ++ (if hm.3 then hm.1.my_cbsd_id ∷ after else after);
        },
        sends before after id req o h refl,
        e
            ∙ ap (finish before after) (
                handle_message-in_step d w.sas (thread d (always_in_step d) w id) req (omega arith)
                  (λ s p. small-Fits d s req h)),
      )
    where
      finish :
          List (List ℕ)
          → List (List ℕ)
          → Stub × Thread d.Double × List ℕ × Bool
          → World d (on_stream d)
      finish before after (c, t, reply, open_yet) = record (lift d w) {
        sas = c;
        registry = t.registry;
        others = before ++ (if open_yet then t.my_cbsd_id ∷ after else after);
      }
  Step-lift w u g (leaves before after id o e) = (
    record w {
      registry = (disconnected d (thread d (always_in_step d) w id)).registry;
      others = before ++ after;
    },
    leaves before after id o refl,
    e,
  )

  Reach-lift :
      (w : World d (always_in_step d)) (u : World d (on_stream d))
      → Counts w.sas
      → Good d w
      → Reach d (on_stream d) cfg (lift d w) u
      → (v : World d (always_in_step d)) × Reach d (always_in_step d) cfg w v × (u ≡ lift d v)
  Reach-lift w u c g here = (w, here, refl)
  Reach-lift w u c g (next {u = x} r st k) =
      let (y, r0, ex) = Reach-lift w x c g r in
      let (cy, gy) = Reach-Good d cfg long w y r0 c g in
      let (v, st0, ev) =
        Step-lift y u gy
          (subst (λ (z : World d (on_stream d)). Step d (on_stream d) cfg z u) ex st) in
      (v, next r0 st0 (subst (λ (z : World d (on_stream d)). Counts (z.sas).sas) ev k), ev)

-- From an agent that has just connected to a proxy without other clients, the stub, if it still
-- answers, in step with the proxy, and the registry in any state, after any run of the agent's
-- commands and of other clients that join, send what they like in up to 32000 bytes and leave, as
-- long as the stub has counted at most 2 ^ 31 CBSDs: while the connection is up, the agent and the
-- proxy hold the same identifier, state and grant; once the proxy has closed it, the agent is
-- unregistered; and between two messages nothing is left in the stream and nobody waits for ever.
pub agrees :
    (d : Doubles) (cfg : CbsdConfig d) (sas : Option Sas) (registry : CbsdRegistry d.Double)
    (u : World d (on_stream d))
    → length (registration_request d cfg) < 2 ^ 32
    → Counts sas
    → Reach d
        (on_stream d)
        cfg
        (record { sas = in_step sas; registry = registry; link = up (started d) []; others = [] })
        u
    → LinkAgrees d u.registry u.link × (u.sas ≡ in_step (u.sas).sas)
agrees d cfg sas registry u long c r =
    let w : World d (always_in_step d) = record {
      sas = sas;
      registry = registry;
      link = up (started d) [];
      others = [];
    } in
    let (v, r0, e) = Reach-lift d cfg long w u c (fresh refl refl refl refl, tt) r in
    let (cv, gv) = Reach-Good d cfg long w v r0 c (fresh refl refl refl refl, tt) in
    (
      subst (λ (x : World d (on_stream d)). LinkAgrees d x.registry x.link) (sym e)
          (Good-LinkAgrees d cfg v v.link gv),
      subst (λ (x : World d (on_stream d)). x.sas ≡ in_step (x.sas).sas) (sym e) refl,
    )
