-- ===== src/Cbrs/System/Granted.antt =====
-- The commands GRANT and HEARTBEAT of an agent whose identifier the proxy knows.
use g_5g_ims_simulators.Prelude.{
  ℕ, ◌+◌, ◌%◌, ◌^◌, ◌≤◌, ◌≡◌, ◌≢◌, refl, ◌∙◌, ap, inl, inr, some, List, [], ◌∷◌, length, arith, All,
  Bool-cases,
}
use g_5g_ims_simulators.Prelude.Texts.{codes, same_text}
use g_5g_ims_simulators.Cbrs.Doubles.{Doubles}
use g_5g_ims_simulators.Cbrs.Wire.Frames.{deliver_short}
use g_5g_ims_simulators.Cbrs.SpectrumState.{registered, granted, authorized}
use g_5g_ims_simulators.Cbrs.Registry.{CbsdInfo, get, set_grant, set_state}
use g_5g_ims_simulators.Cbrs.Sas.{
  Sas, make_grant_id, handle_request, grant_response, heartbeat_response, number_or, capped, grant,
}
use g_5g_ims_simulators.Cbrs.Sas.Answers.{length-grant_response, type_of_grant}
use g_5g_ims_simulators.Cbrs.Sas.Responses.{length-heartbeat_response, type_of_heartbeat}
use g_5g_ims_simulators.Cbrs.Proxy.{info_of, rejection, update}
use g_5g_ims_simulators.Cbrs.Agent.{
  Command, Agent, CbsdConfig, request, answered, grant_request, heartbeat_request, eirp_limit,
}
use g_5g_ims_simulators.Cbrs.System.{always_in_step, up, World, thread, exchange, run_command}
use g_5g_ims_simulators.Cbrs.System.Requests
use g_5g_ims_simulators.Cbrs.System.Responses.{
  cbsd_id_of, cbsd_id_of-IsPlain, grant_response-code, grant_response-grant_id, grant_id-IsPlain,
  heartbeat_response-code,
}
use g_5g_ims_simulators.Cbrs.Wire.Fields.{IsPlain}
use g_5g_ims_simulators.Cbrs.System.Agreement.{grant_id_of}
use g_5g_ims_simulators.Cbrs.System.Frame.{change_self}
use g_5g_ims_simulators.Cbrs.System.Progress.{
  after_exchange, exchange_made, length-small_int_string, Holds,
}

module _ (d : Doubles) (cfg : CbsdConfig d) (w : World d (always_in_step d)) (a : Agent d) (s : Sas)
    (p : w.sas ≡ some s) where
  module _ (n : ℕ) (few_ids : n ≤ 50000) (i : CbsdInfo d.Double) (same : a.cbsd_id ≡ cbsd_id_of n)
      (there : get (cbsd_id_of n) w.registry ≡ some i) where
    state_read : (info_of d (thread d (always_in_step d) w (cbsd_id_of n))).state ≡ i.state
    unfolding info_of
    state_read = rw there

    grant_made :
        (f b e : d.Double)
        → d.stod (d.flt cfg.desired_freq_mhz) ≡ some f
        → d.stod (d.flt cfg.desired_bw_mhz) ≡ some b
        → d.stod (eirp_limit d cfg) ≡ some e
        → handle_request d s (grant_request d cfg (cbsd_id_of n))
          ≡ some (
            record s { grant_counter = (s.grant_counter + 1) % 2 ^ 32 },
            grant_response d
                (cbsd_id_of n)
                (make_grant_id s)
                f
                (capped d b (d.of_nat 20))
                (capped d e (d.of_nat 30)),
          )
    unfolding handle_request same_text grant
    grant_made f b e pf pb pe =
        let plain = cbsd_id_of-IsPlain n in
        rw (
          Requests.type_of_grant_request d cfg (cbsd_id_of n),
          Requests.grant_request-frequency d cfg (cbsd_id_of n) plain,
          Requests.grant_request-bandwidth d cfg (cbsd_id_of n) plain,
          Requests.grant_request-eirp d cfg (cbsd_id_of n) plain,
          Requests.grant_request-cbsd_id d cfg (cbsd_id_of n) plain,
          number (d.flt cfg.desired_freq_mhz) (d.of_nat 3555) f (d.flt-ne-nil cfg.desired_freq_mhz)
              pf,
          number (d.flt cfg.desired_bw_mhz) (d.of_nat 10) b (d.flt-ne-nil cfg.desired_bw_mhz) pb,
          number (eirp_limit d cfg) (d.of_nat 30) e eirp_text pe,
        )
      where
        number :
            (x : List ℕ) (v u : d.Double) → x ≢ [] → d.stod x ≡ some u → number_or d x v ≡ some u
        number [] v u ne e = absurd (ne refl)
        number (c ∷ x) v u ne e = unfold number_or in e

        eirp_text : eirp_limit d cfg ≢ []
        eirp_text = elim (Bool-cases (same_text cfg.category (codes "A"))) [
          | inl t ↦ rw t (λ z. cc)
          | inr t ↦ rw t (λ z. cc)
        ]

    pub grant_step :
        (f b e : d.Double)
        → s.grant_counter ≤ 50000
        → d.stod (d.flt cfg.desired_freq_mhz) ≡ some f
        → d.stod (d.flt cfg.desired_bw_mhz) ≡ some b
        → d.stod (eirp_limit d cfg) ≡ some e
        → a.state ≡ registered
        → i.state ≡ registered
        → Holds d
            (always_in_step d)
            (run_command d (always_in_step d) cfg w (up a (cbsd_id_of n)) Command.grant)
            (some (record s { grant_counter = (s.grant_counter + 1) % 2 ^ 32 }))
            (cbsd_id_of n)
            (make_grant_id s)
            granted
    unfolding run_command
    grant_step f b e few pf pb pe st sti = rw (requested, run_command) (rw exchanged read)
      where
        req : List ℕ
        req = grant_request d cfg (cbsd_id_of n)

        resp : List ℕ
        resp =
            grant_response d (cbsd_id_of n) (make_grant_id s) f (capped d b (d.of_nat 20))
              (capped d e (d.of_nat 30))

        requested : request d cfg a Command.grant ≡ some (grant_request d cfg (cbsd_id_of n))
        requested = unfold request in rw st (ap (λ (x : List ℕ). some (grant_request d cfg x)) same)

        exchanged :
            exchange d (always_in_step d) w a (cbsd_id_of n) Command.grant req
            ≡ after_exchange d w a
                (cbsd_id_of n)
                Command.grant
                req
                (record s { grant_counter = (s.grant_counter + 1) % 2 ^ 32 })
                resp
        exchanged =
            exchange_made d w a (cbsd_id_of n) Command.grant req s
              (record s { grant_counter = (s.grant_counter + 1) % 2 ^ 32 }) resp p
              (rw (Requests.type_of_grant_request d cfg (cbsd_id_of n), state_read, sti)
                (unfold rejection same_text in refl))
              (deliver_short req (omega arith) (
                omega (
                  arith,
                  Requests.length-grant_request d cfg (cbsd_id_of n),
                  length-small_int_string n few_ids,
                )))
              (grant_made f b e pf pb pe)
              (deliver_short resp (omega arith) (
                omega (
                  arith,
                  length-grant_response d (cbsd_id_of n) (make_grant_id s) f
                      (capped d b (d.of_nat 20)) (capped d e (d.of_nat 30)),
                  length-small_int_string n few_ids,
                  length-small_int_string s.grant_counter few,
                )))

        read :
            Holds d
              (always_in_step d)
              (after_exchange d w a
                (cbsd_id_of n)
                Command.grant
                req
                (record s { grant_counter = (s.grant_counter + 1) % 2 ^ 32 })
                resp)
              (some (record s { grant_counter = (s.grant_counter + 1) % 2 ^ 32 }))
              (cbsd_id_of n)
              (make_grant_id s)
              granted
        read =
            unfold update answered same_text set_grant in
            rw
              (
                type_of_grant d (cbsd_id_of n) (make_grant_id s) f (capped d b (d.of_nat 20))
                    (capped d e (d.of_nat 30)),
                grant_response-code d (cbsd_id_of n) (make_grant_id s) (cbsd_id_of-IsPlain n)
                    (grant_id-IsPlain s.grant_counter) f (capped d b (d.of_nat 20))
                    (capped d e (d.of_nat 30)),
                grant_response-grant_id d (cbsd_id_of n) (make_grant_id s) (cbsd_id_of-IsPlain n)
                    (grant_id-IsPlain s.grant_counter) f (capped d b (d.of_nat 20))
                    (capped d e (d.of_nat 30)),
              )
              (record {
                agent = _;
                info = _;
                sas = refl;
                link = refl;
                entry = change_self _ (cbsd_id_of n) w.registry i there;
                agent_id = same;
                agent_state = refl;
                agent_grant = refl;
                info_state = refl;
                info_grant = refl;
              })

    pub heartbeat_step :
        (m : ℕ)
        → m ≤ 50000
        → a.grant_id ≡ grant_id_of m
        → i.grant_id ≡ grant_id_of m
        → a.state ≡ granted
        → i.state ≡ granted
        → Holds d
            (always_in_step d)
            (run_command d (always_in_step d) cfg w (up a (cbsd_id_of n)) Command.heartbeat)
            (some s)
            (cbsd_id_of n)
            (grant_id_of m)
            authorized
    unfolding run_command
    heartbeat_step m few g gi st sti = rw (requested, run_command) (rw exchanged read)
      where
        req : List ℕ
        req = heartbeat_request d a

        resp : List ℕ
        resp = heartbeat_response (cbsd_id_of n) (grant_id_of m)

        requested : request d cfg a Command.heartbeat ≡ some (heartbeat_request d a)
        requested = unfold request in rw st

        IsPlain-id : All IsPlain a.cbsd_id
        IsPlain-id = rw same (cbsd_id_of-IsPlain n)

        plain_grant : All IsPlain a.grant_id
        plain_grant = rw g (grant_id-IsPlain m)

        id_short : length a.cbsd_id ≤ 30020
        id_short =
            omega (arith, ap (λ (x : List ℕ). length x) same, length-small_int_string n few_ids)

        grant_short : length a.grant_id ≤ 30020
        grant_short = omega (arith, ap (λ (x : List ℕ). length x) g, length-small_int_string m few)

        answer :
            handle_request d s (heartbeat_request d a)
            ≡ some (s, heartbeat_response (cbsd_id_of n) (grant_id_of m))
        answer =
            unfold handle_request same_text in
            rw (
              Requests.type_of_heartbeat_request d a,
              Requests.heartbeat_request-cbsd_id d a IsPlain-id plain_grant ∙ same,
              Requests.heartbeat_request-grant_id d a IsPlain-id plain_grant ∙ g,
            )

        exchanged :
            exchange d (always_in_step d) w a (cbsd_id_of n) Command.heartbeat req
            ≡ after_exchange d w a (cbsd_id_of n) Command.heartbeat req s resp
        exchanged =
            exchange_made d w a (cbsd_id_of n) Command.heartbeat req s s resp p
              (rw (Requests.type_of_heartbeat_request d a, state_read, sti)
                (unfold rejection same_text in refl))
              (deliver_short req (omega arith)
                (omega (arith, Requests.length-heartbeat_request d a, id_short, grant_short)))
              answer
              (deliver_short resp (omega arith) (
                omega (
                  arith,
                  length-heartbeat_response (cbsd_id_of n) (grant_id_of m),
                  length-small_int_string n few_ids,
                  length-small_int_string m few,
                )))

        read :
            Holds d
              (always_in_step d)
              (after_exchange d w a (cbsd_id_of n) Command.heartbeat req s resp)
              (some s)
              (cbsd_id_of n)
              (grant_id_of m)
              authorized
        read =
            unfold update answered same_text set_state in
            rw
              (
                type_of_heartbeat (cbsd_id_of n) (grant_id_of m),
                heartbeat_response-code (cbsd_id_of n) (grant_id_of m) (cbsd_id_of-IsPlain n)
                    (grant_id-IsPlain m),
              )
              (record {
                agent = _;
                info = _;
                sas = refl;
                link = refl;
                entry = change_self _ (cbsd_id_of n) w.registry i there;
                agent_id = same;
                agent_state = refl;
                agent_grant = g;
                info_state = refl;
                info_grant = gi;
              })
