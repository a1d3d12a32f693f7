-- ===== src/Cbrs/System/Transmits.antt =====
-- The commands of an agent from its connection until it transmits.
use g_5g_ims_simulators.Prelude.{
  ℕ, ◌+◌, ◌%◌, ◌^◌, ◌≤◌, ◌≡◌, refl, sym, ◌∙◌, ap, arith, subst, some, List, [], length,
}
use g_5g_ims_simulators.Cbrs.Doubles.{Doubles}
use g_5g_ims_simulators.Cbrs.SpectrumState.{registered, granted, authorized}
use g_5g_ims_simulators.Cbrs.Registry.{CbsdRegistry, upsert}
use g_5g_ims_simulators.Cbrs.Sas.{Sas, make_cbsd_id}
use g_5g_ims_simulators.Cbrs.Proxy.{new_info}
use g_5g_ims_simulators.Cbrs.Agent.{
  Command, Agent, CbsdConfig, started, registration_request, eirp_limit,
}
use g_5g_ims_simulators.Cbrs.System.{
  SasSide, on_stream, always_in_step, Link, up, World, run_command,
}
use g_5g_ims_simulators.Cbrs.System.Simulation.{lift, run_command-lift, ShortLink}
use g_5g_ims_simulators.Cbrs.Sas.Stream.{in_step}
use g_5g_ims_simulators.Cbrs.Sas.Responses.{length-int_string}
use g_5g_ims_simulators.Cbrs.System.Responses.{cbsd_id_of}
use g_5g_ims_simulators.Cbrs.System.Agreement.{grant_id_of}
use g_5g_ims_simulators.Cbrs.System.Frame.{upsert_self}
use g_5g_ims_simulators.Cbrs.System.Progress.{Holds, register_step}
use g_5g_ims_simulators.Cbrs.System.Granted.{grant_step, heartbeat_step}

-- The agent's commands one after the other.
abbrev pub run :
    (d : Doubles) (side : SasSide) → CbsdConfig d → World d side → Command → World d side
run d side cfg w cmd = run_command d side cfg w w.link cmd

module _ (d : Doubles) (cfg : CbsdConfig d) (s : Sas) (registry : CbsdRegistry d.Double)
    (others : List (List ℕ)) (f b e : d.Double) (few : s.cbsd_counter ≤ 50000)
    (few_grants : s.grant_counter ≤ 50000) (fits : length (registration_request d cfg) ≤ 65536)
    (pf : d.stod (d.flt cfg.desired_freq_mhz) ≡ some f)
    (pb : d.stod (d.flt cfg.desired_bw_mhz) ≡ some b)
    (pe : d.stod (eirp_limit d cfg) ≡ some e) where
  abbrev InStep : Type 0
  InStep = World d (always_in_step d)

  abbrev step : InStep → Command → InStep
  step = run d (always_in_step d) cfg

  abbrev w : InStep
  w = record { sas = some s; registry = registry; link = up (started d) []; others = others }

  abbrev s1 : Sas
  s1 = record s { cbsd_counter = (s.cbsd_counter + 1) % 2 ^ 32 }

  abbrev s2 : Sas
  s2 = record s1 { grant_counter = (s.grant_counter + 1) % 2 ^ 32 }

  abbrev a1 : Agent d
  a1 = record (started d) { cbsd_id = make_cbsd_id s; state = registered }

  abbrev w1 : InStep
  w1 = record w {
    sas = some s1;
    registry = upsert (new_info d (make_cbsd_id s) (registration_request d cfg)) registry;
    link = up a1 (make_cbsd_id s);
  }

  after_register : step w Command.register ≡ w1
  after_register = register_step d cfg w (started d) s refl few fits refl

  after_grant :
      Holds d
        (always_in_step d)
        (step w1 Command.grant)
        (some s2)
        (cbsd_id_of s.cbsd_counter)
        (grant_id_of s.grant_counter)
        granted
  after_grant =
      let info = new_info d (make_cbsd_id s) (registration_request d cfg) in
      grant_step d cfg w1 a1 s1 refl s.cbsd_counter few info refl (upsert_self info registry) f b e
        few_grants pf pb pe refl refl

  after_heartbeat :
      Holds d
        (always_in_step d)
        (step (step w1 Command.grant) Command.heartbeat)
        (some s2)
        (cbsd_id_of s.cbsd_counter)
        (grant_id_of s.grant_counter)
        authorized
  after_heartbeat =
      let h = after_grant in
      let w2 : InStep = step w1 Command.grant in
      subst
        (λ (l : Link d).
          Holds d (always_in_step d) (run_command d (always_in_step d) cfg w2 l Command.heartbeat)
            (some s2) (cbsd_id_of s.cbsd_counter) (grant_id_of s.grant_counter) authorized)
        (sym h.link)
        (heartbeat_step d cfg w2 h.agent s2 h.sas s.cbsd_counter few h.info h.agent_id h.entry
          s.grant_counter few_grants h.agent_grant h.info_grant h.agent_state h.info_state)

  -- The same three commands with the stub behind its stream.
  abbrev on : World d (on_stream d) → Command → World d (on_stream d)
  on = run d (on_stream d) cfg

  registered_on : on (lift d w) Command.register ≡ lift d w1
  registered_on =
      run_command-lift d cfg (omega arith) w w.link Command.register (omega arith, omega arith)
      ∙ ap (lift d) after_register

  granted_on : on (lift d w1) Command.grant ≡ lift d (step w1 Command.grant)
  granted_on =
      run_command-lift d cfg (omega arith) w1 w1.link Command.grant
        (omega (arith, length-int_string s.cbsd_counter), omega arith)

  short_link : ShortLink d (step w1 Command.grant).link
  short_link =
      let h = after_grant in
      subst (ShortLink d) (sym h.link) (
        rw h.agent_id (omega (arith, length-int_string s.cbsd_counter)),
        rw h.agent_grant (omega (arith, length-int_string s.grant_counter)),
      )

  heard_on :
      on (lift d (step w1 Command.grant)) Command.heartbeat
      ≡ lift d (step (step w1 Command.grant) Command.heartbeat)
  heard_on =
      run_command-lift d cfg (omega arith) (step w1 Command.grant) (step w1 Command.grant).link
        Command.heartbeat short_link

  -- With short counters, a configuration that fits a frame and numbers that std::stod reads back,
  -- and nothing left in the stub's stream, an agent that has just connected is transmitting after
  -- REGISTER, GRANT and HEARTBEAT: it and the proxy's entry for the identifier that the stub has
  -- made are AUTHORIZED under the same grant, and nothing is left in the stream, whatever was in the
  -- registry and whoever else is connected.
  pub transmits :
      Holds d
        (on_stream d)
        (on
          (on
            (on
              (record {
                sas = in_step (some s);
                registry = registry;
                link = up (started d) [];
                others = others;
              })
              Command.register)
            Command.grant)
          Command.heartbeat)
        (in_step (
          some (record {
            cbsd_counter = (s.cbsd_counter + 1) % 2 ^ 32;
            grant_counter = (s.grant_counter + 1) % 2 ^ 32;
          })))
        (cbsd_id_of s.cbsd_counter)
        (grant_id_of s.grant_counter)
        authorized
  transmits =
      let h = after_heartbeat in
      rw (registered_on, granted_on, heard_on)
        (record {
          agent = h.agent;
          info = h.info;
          sas = ap in_step h.sas;
          link = h.link;
          entry = h.entry;
          agent_id = h.agent_id;
          agent_state = h.agent_state;
          agent_grant = h.agent_grant;
          info_state = h.info_state;
          info_grant = h.info_grant;
        })
