-- ===== src/Cbrs/System/Runs.antt =====
-- Runs of the whole, with a stub that is always in step: commands of the agent between whatever
-- other clients of the proxy do.
use g_5g_ims_simulators.Prelude.{
  ℕ, arith, ◌^◌, ◌<◌, ◌≡◌, refl, sym, ◌∙◌, ap, subst, ◌⊎◌, inl, inr, true, false, not, ◌&&◌,
  Bool-cases, Option-cases, List, [], length, All,
}
use g_5g_ims_simulators.Cbrs.Doubles.{Doubles}
use g_5g_ims_simulators.Cbrs.SpectrumState.{
  SpectrumState, unregistered, registered, granted, authorized, is_unregistered, is_registered,
  is_granted, is_authorized,
}
use g_5g_ims_simulators.Cbrs.Registry.{CbsdInfo, CbsdRegistry}
use g_5g_ims_simulators.Cbrs.Sas.Answers.{answer_to}
use g_5g_ims_simulators.Cbrs.Proxy.{handle_message, info_of, is_empty}
use g_5g_ims_simulators.Cbrs.Agent.{
  Command, Agent, CbsdConfig, request, registration_request, grant_request, heartbeat_request,
  relinquishment_request, deregistration_request,
}
use g_5g_ims_simulators.Cbrs.System.{
  always_in_step, Link, up, closed, gone, World, thread, Counts, exchange, run_command, Step,
  command, joins, sends, leaves, Reach, here, next,
}
use g_5g_ims_simulators.Cbrs.System.Frame.{handle_message-Framed}
use g_5g_ims_simulators.Cbrs.System.Agreement.{
  Stranger, Known, fresh, known, GoodLink, Good, sends-Good, joins-Good, leaves-Good,
}
use g_5g_ims_simulators.Cbrs.System.Agreement.Steps.{
  info_of_known, register-Good, grant-Good, heartbeat-Good, relinquish-Good, deregister-Good,
}

is_unregistered_eq : (s : SpectrumState) → not (is_unregistered s) ≡ false → s ≡ unregistered
is_unregistered_eq unregistered h = refl
is_unregistered_eq registered h = cc
is_unregistered_eq granted h = cc
is_unregistered_eq authorized h = cc

is_registered_eq : (s : SpectrumState) → not (is_registered s) ≡ false → s ≡ registered
is_registered_eq unregistered h = cc
is_registered_eq registered h = refl
is_registered_eq granted h = cc
is_registered_eq authorized h = cc

may_beat :
    (s : SpectrumState)
    → (not (is_granted s) && not (is_authorized s)) ≡ false
    → (s ≡ granted) ⊎ (s ≡ authorized)
may_beat unregistered h = cc
may_beat registered h = cc
may_beat granted h = inl refl
may_beat authorized h = inr refl

module _ (d : Doubles) (cfg : CbsdConfig d)
    (short : length (registration_request d cfg) < 2 ^ 32) where
  -- An exchange of the agent, by what the proxy knows of it.
  module _ (w : World d (always_in_step d)) (a : Agent d) (id : List ℕ) (c : Counts w.sas)
      (l : w.link ≡ up a id) where
    grant-Known :
        Known d w.sas w.registry a id
        → All (Stranger w.sas id) w.others
        → a.state ≡ registered
        → Counts
            (exchange d (always_in_step d) w a id Command.grant (grant_request d cfg a.cbsd_id)).sas
        → Good d
            (exchange d (always_in_step d) w a id Command.grant (grant_request d cfg a.cbsd_id))
    grant-Known (fresh e1 e2 e3 e4) xs st = absurd (clash (sym e3 ∙ st))
      where
        clash : unregistered ≡ registered → ⊥
        clash z = cc
    grant-Known (known n i b e1 e2 e3 e4 e5 e6 e7) xs st =
        subst
          (λ (x : List ℕ).
            Counts (exchange d (always_in_step d) w a id Command.grant (grant_request d cfg x)).sas
            → Good d (exchange d (always_in_step d) w a id Command.grant (grant_request d cfg x)))
          (sym e2) (grant-Good d cfg w a id c xs n i b e1 e2 e3 e4 e5 e6 e7 st)

    heartbeat-Known :
        Known d w.sas w.registry a id
        → All (Stranger w.sas id) w.others
        → (a.state ≡ granted) ⊎ (a.state ≡ authorized)
        → Counts
            (exchange d (always_in_step d) w a id Command.heartbeat (heartbeat_request d a)).sas
        → Good d (exchange d (always_in_step d) w a id Command.heartbeat (heartbeat_request d a))
    heartbeat-Known (fresh e1 e2 e3 e4) xs st = absurd (clash a.state e3 st)
      where
        clash : (s : SpectrumState) → s ≡ unregistered → (s ≡ granted) ⊎ (s ≡ authorized) → ⊥
        clash s z (inl y) = cc
        clash s z (inr y) = cc
    heartbeat-Known (known n i b e1 e2 e3 e4 e5 e6 e7) xs st =
        heartbeat-Good d cfg w a id c xs n i b e1 e2 e3 e4 e5 e6 e7 st

    relinquish-Known :
        Known d w.sas w.registry a id
        → All (Stranger w.sas id) w.others
        → is_empty a.grant_id ≡ false
        → Counts
            (exchange d
              (always_in_step d)
              w
              a
              id
              Command.relinquish
              (relinquishment_request d a)).sas
        → Good d
            (exchange d (always_in_step d) w a id Command.relinquish (relinquishment_request d a))
    relinquish-Known (fresh e1 e2 e3 e4) xs ne = absurd (clash (rw e4 at ne))
      where
        clash : true ≡ false → ⊥
        clash z = cc
    relinquish-Known (known n i b e1 e2 e3 e4 e5 e6 e7) xs ne =
        relinquish-Good d cfg w a id c xs n i b e1 e2 e3 e4 e5 e6 e7

    deregister-Known :
        Known d w.sas w.registry a id
        → All (Stranger w.sas id) w.others
        → is_empty a.cbsd_id ≡ false
        → Counts
            (exchange d
              (always_in_step d)
              w
              a
              id
              Command.deregister
              (deregistration_request d a)).sas
        → Good d
            (exchange d (always_in_step d) w a id Command.deregister (deregistration_request d a))
    deregister-Known (fresh e1 e2 e3 e4) xs ne = absurd (clash (rw e2 at ne))
      where
        clash : true ≡ false → ⊥
        clash z = cc
    deregister-Known (known n i b e1 e2 e3 e4 e5 e6 e7) xs ne =
        deregister-Good d cfg w a id c xs n i b e1 e2 e3 e4 e5 e6 e7

    -- A refused command changes nothing.
    refused-Good : GoodLink d w.sas w.registry w.others (up a id) → Good d w
    refused-Good g = rw l g

    command-Good :
        (cmd : Command)
        → GoodLink d w.sas w.registry w.others (up a id)
        → Counts (run_command d (always_in_step d) cfg w (up a id) cmd).sas
        → Good d (run_command d (always_in_step d) cfg w (up a id) cmd)
    unfolding run_command request
    command-Good Command.register g = elim (Bool-cases (not (is_unregistered a.state))) [
      | inl e ↦ rw (e, run_command) (λ k. refused-Good g)
      | inr e ↦
          rw (e, run_command)
            (register-Good d cfg w a id c g.1 g.0 short (is_unregistered_eq a.state e))
    ]
    command-Good Command.grant g = elim (Bool-cases (not (is_registered a.state))) [
      | inl e ↦ rw (e, run_command) (λ k. refused-Good g)
      | inr e ↦ rw (e, run_command) (grant-Known g.0 g.1 (is_registered_eq a.state e))
    ]
    command-Good Command.heartbeat g =
        elim (Bool-cases (not (is_granted a.state) && not (is_authorized a.state))) [
          | inl e ↦ rw (e, run_command) (λ k. refused-Good g)
          | inr e ↦ rw (e, run_command) (heartbeat-Known g.0 g.1 (may_beat a.state e))
        ]
    command-Good Command.relinquish g = elim (Bool-cases (is_empty a.grant_id)) [
      | inl e ↦ rw (e, run_command) (λ k. refused-Good g)
      | inr e ↦ rw (e, run_command) (relinquish-Known g.0 g.1 e)
    ]
    command-Good Command.deregister g = elim (Bool-cases (is_empty a.cbsd_id)) [
      | inl e ↦ rw (e, run_command) (λ k. refused-Good g)
      | inr e ↦ rw (e, run_command) (deregister-Known g.0 g.1 e)
    ]

  run_command-Good :
      (w : World d (always_in_step d)) (l : Link d) (cmd : Command)
      → w.link ≡ l
      → Counts w.sas
      → GoodLink d w.sas w.registry w.others l
      → Counts (run_command d (always_in_step d) cfg w l cmd).sas
      → Good d (run_command d (always_in_step d) cfg w l cmd)
  unfolding run_command
  run_command-Good w gone cmd e c g k = rw e tt
  run_command-Good w (closed a) cmd e c g k = elim (Option-cases (request d cfg a cmd)) [
    | inl n ↦ rw (n, run_command) (rw e g)
    | inr (req, n) ↦ rw (n, run_command) tt
  ]
  run_command-Good w (up a id) cmd e c g k = command-Good w a id c e cmd g k

  Step-Good :
      (w u : World d (always_in_step d))
      → Step d (always_in_step d) cfg w u
      → Counts w.sas
      → Counts u.sas
      → Good d w
      → Good d u
  Step-Good w u (command cmd e) c k g = rw e (run_command-Good w w.link cmd refl c g (rw e at k))
  Step-Good w u (joins e) c k g = rw e (joins-Good d w.sas w.registry w.link w.others g)
  Step-Good w u (sends before after id req o h e) c k g =
      let (f, grows) =
        handle_message-Framed d (thread d (always_in_step d) w id) w.sas req (omega arith) in
      rw e (
        sends-Good d w.sas
          (handle_message d (answer_to d) w.sas (thread d (always_in_step d) w id) req).0 w.registry
          w.link before after id
          (handle_message d (answer_to d) w.sas (thread d (always_in_step d) w id) req).1
          (handle_message d (answer_to d) w.sas (thread d (always_in_step d) w id) req).3 c
          (rw e at k) grows f
          (subst (λ (xs : List (List ℕ)). GoodLink d w.sas w.registry xs w.link) o g))
  Step-Good w u (leaves before after id o e) c k g = rw e (
      leaves-Good d w.sas w.registry w.link before after id c
        (subst (λ (xs : List (List ℕ)). GoodLink d w.sas w.registry xs w.link) o g))

  pub Reach-Good :
      (w u : World d (always_in_step d))
      → Reach d (always_in_step d) cfg w u
      → Counts w.sas
      → Good d w
      → Counts u.sas × Good d u
  Reach-Good w u here c g = (c, g)
  Reach-Good w u (next {u = v} r st k) c g =
      let (cv, gv) = Reach-Good w v r c g in (k, Step-Good v u st cv k gv)

-- What agent and thread hold of each other.
pub record Agree (d : Doubles) (r : CbsdRegistry d.Double) (a : Agent d) (id : List ℕ)
    : Type 0 where
  pub same_id : a.cbsd_id ≡ id
  pub same_state : (info_of d (record { registry = r; my_cbsd_id = id })).state ≡ a.state
  pub same_grant : (info_of d (record { registry = r; my_cbsd_id = id })).grant_id ≡ a.grant_id

-- The other way than by an open connection: closed, with the agent unregistered, or ended.
abbrev pub LinkAgrees : (d : Doubles) → CbsdRegistry d.Double → Link d → Type 0
LinkAgrees d r (up a id) = Agree d r a id
LinkAgrees d r (closed a) = (a.state ≡ unregistered) × (a.cbsd_id ≡ [])
LinkAgrees d r gone = Unit

Known-Agree :
    (d : Doubles) (cfg : CbsdConfig d) (w : World d (always_in_step d)) (a : Agent d) (id : List ℕ)
    → Known d w.sas w.registry a id
    → Agree d w.registry a id
unfolding info_of
Known-Agree d cfg w a id (fresh e1 e2 e3 e4) = record {
  same_id = e2 ∙ sym e1;
  same_state = rw e1 (sym e3);
  same_grant = rw e1 (sym e4);
}
Known-Agree d cfg w a id (known n i b e1 e2 e3 e4 e5 e6 e7) = record {
  same_id = e2;
  same_state = ap (λ (x : CbsdInfo d.Double). x.state) (info_of_known d cfg w a id n i e1 e3) ∙ e4;
  same_grant =
      ap (λ (x : CbsdInfo d.Double). x.grant_id) (info_of_known d cfg w a id n i e1 e3) ∙ e6;
}

pub Good-LinkAgrees :
    (d : Doubles) (cfg : CbsdConfig d) (w : World d (always_in_step d)) (l : Link d)
    → GoodLink d w.sas w.registry w.others l
    → LinkAgrees d w.registry l
Good-LinkAgrees d cfg w gone g = tt
Good-LinkAgrees d cfg w (closed a) g = g
Good-LinkAgrees d cfg w (up a id) g = Known-Agree d cfg w a id g.0
