-- ===== src/Cbrs/System/Progress.antt =====
-- Exchanges that go through: registration, grant and heartbeat.
use g_5g_ims_simulators.Prelude.{
  ℕ, ◌+◌, ◌%◌, ◌^◌, ◌≤◌, ◌≡◌, refl, ◌∙◌, true, none, some, List, [], length, arith, if◌then◌else◌,
  ltb,
}
use g_5g_ims_simulators.Prelude.Texts.{codes, same_text}
use g_5g_ims_simulators.Prelude.Decimal.{length-to_string}
use g_5g_ims_simulators.Cbrs.Doubles.{Doubles}
use g_5g_ims_simulators.Cbrs.Wire
use g_5g_ims_simulators.Cbrs.Wire.{deliver}
use g_5g_ims_simulators.Cbrs.Wire.Frames.{deliver_short}
use g_5g_ims_simulators.Cbrs.SpectrumState.{SpectrumState, unregistered, registered}
use g_5g_ims_simulators.Cbrs.Registry.{CbsdInfo, get, upsert}
use g_5g_ims_simulators.Cbrs.Sas.{
  Sas, make_cbsd_id, handle_request, registration_response, int_string,
}
use g_5g_ims_simulators.Cbrs.Sas.Answers.{answer_to}
use g_5g_ims_simulators.Cbrs.Sas.Responses.{type_of_registration, length-registration_response}
use g_5g_ims_simulators.Cbrs.Proxy.{info_of, rejection, handle_message, update, new_info}
use g_5g_ims_simulators.Cbrs.Agent.{
  Command, Agent, CbsdConfig, request, answered, registration_request,
}
use g_5g_ims_simulators.Cbrs.System.{
  SasSide, always_in_step, up, closed, World, thread, exchange, answer_arrives, run_command,
}
use g_5g_ims_simulators.Cbrs.System.Requests
use g_5g_ims_simulators.Cbrs.System.Responses.{
  cbsd_id_of-IsPlain, registration_response-cbsd_id, registration_response-code,
}

pub answer_made :
    (d : Doubles) (s s' : Sas) (req resp : List ℕ)
    → deliver req ≡ some req
    → handle_request d s req ≡ some (s', resp)
    → deliver resp ≡ some resp
    → answer_to d (some s) req ≡ (some s', some resp)
unfolding answer_to
answer_made d s s' req resp e m f = rw (e, m, answer_to) (rw f)

module _ (d : Doubles) (w : World d (always_in_step d)) (a : Agent d) (id : List ℕ) (cmd : Command)
    (req : List ℕ) where
  -- The world after the agent has the response.
  abbrev pub after_exchange : Sas → List ℕ → World d (always_in_step d)
  after_exchange s' resp =
      let (t', open_yet) = update d (thread d (always_in_step d) w id) req resp in
      record w {
        sas = some s';
        registry = t'.registry;
        link =
            if open_yet
            then up (answered d a cmd resp) t'.my_cbsd_id
            else closed (answered d a cmd resp);
      }

  -- An exchange that nothing is lost of.
  pub exchange_made :
      (s s' : Sas) (resp : List ℕ)
      → w.sas ≡ some s
      → rejection (Wire.get req (codes "type")) (info_of d (thread d (always_in_step d) w id)).state
        ≡ none
      → deliver req ≡ some req
      → handle_request d s req ≡ some (s', resp)
      → deliver resp ≡ some resp
      → exchange d (always_in_step d) w a id cmd req ≡ after_exchange s' resp
  unfolding exchange
  exchange_made s s' resp p passed e m f = rw (e, exchange) (rw round (rw (f, answer_arrives)))
    where
      round : handle_message d (answer_to d) w.sas (thread d (always_in_step d) w id) req ≡ (
        some s',
        (update d (thread d (always_in_step d) w id) req resp).0,
        resp,
        (update d (thread d (always_in_step d) w id) req resp).1,
      )
      round =
          unfold handle_message in
          rw (passed, handle_message) (rw (p, answer_made d s s' req resp e m f))

pub length-small_int_string : (n : ℕ) → n ≤ 50000 → length (int_string n) ≤ 30000
unfolding int_string
length-small_int_string n h = rw (small, below) (omega (arith, length-to_string n))
  where
    small : n % 2 ^ 32 ≡ n
    small = omega arith

    below : ltb n (2 ^ 31) ≡ true
    below = ground arith

-- The agent has this state and grant at the proxy, and both know it.
pub record Holds (d : Doubles) (side : SasSide) (w' : World d side) (conn : side.Conn)
    (id g : List ℕ) (st : SpectrumState) : Type 0 where
  pub agent : Agent d
  pub info : CbsdInfo d.Double
  pub sas : w'.sas ≡ conn
  pub link : w'.link ≡ up agent id
  pub entry : get id w'.registry ≡ some info
  pub agent_id : agent.cbsd_id ≡ id
  pub agent_state : agent.state ≡ st
  pub agent_grant : agent.grant_id ≡ g
  pub info_state : info.state ≡ st
  pub info_grant : info.grant_id ≡ g

module _ (d : Doubles) (cfg : CbsdConfig d) (w : World d (always_in_step d)) (a : Agent d) (s : Sas)
    (p : w.sas ≡ some s) where
  pub register_step :
      s.cbsd_counter ≤ 50000
      → length (registration_request d cfg) ≤ 65536
      → a.state ≡ unregistered
      → run_command d (always_in_step d) cfg w (up a []) Command.register ≡ record w {
        sas = some (record s { cbsd_counter = (s.cbsd_counter + 1) % 2 ^ 32 });
        registry = upsert (new_info d (make_cbsd_id s) (registration_request d cfg)) w.registry;
        link = up (record a { cbsd_id = make_cbsd_id s; state = registered }) (make_cbsd_id s);
      }
  unfolding run_command request
  register_step few fits st = rw (st, run_command) (exchanged ∙ read)
    where
      req : List ℕ
      req = registration_request d cfg

      resp : List ℕ
      resp = registration_response (make_cbsd_id s)

      exchanged :
          exchange d (always_in_step d) w a [] Command.register req
          ≡ after_exchange d w a [] Command.register req
              (record s { cbsd_counter = (s.cbsd_counter + 1) % 2 ^ 32 })
              resp
      exchanged =
          exchange_made d w a [] Command.register req s
            (record s { cbsd_counter = (s.cbsd_counter + 1) % 2 ^ 32 }) resp p
            (rw (Requests.type_of_registration_request d cfg) (unfold rejection same_text in refl))
            (deliver_short req (omega arith) fits)
            (unfold handle_request same_text in rw (Requests.type_of_registration_request d cfg))
            (deliver_short resp (omega arith) (
              omega (
                arith,
                length-registration_response (make_cbsd_id s),
                length-small_int_string s.cbsd_counter few,
              )))

      read :
          after_exchange d w a [] Command.register req
            (record s { cbsd_counter = (s.cbsd_counter + 1) % 2 ^ 32 })
            resp
          ≡ record w {
            sas = some (record s { cbsd_counter = (s.cbsd_counter + 1) % 2 ^ 32 });
            registry = upsert (new_info d (make_cbsd_id s) (registration_request d cfg)) w.registry;
            link = up (record a { cbsd_id = make_cbsd_id s; state = registered }) (make_cbsd_id s);
          }
      read =
          unfold update answered same_text in
          rw (
            type_of_registration (make_cbsd_id s),
            registration_response-code (make_cbsd_id s) (cbsd_id_of-IsPlain s.cbsd_counter),
            registration_response-cbsd_id (make_cbsd_id s) (cbsd_id_of-IsPlain s.cbsd_counter),
          )
