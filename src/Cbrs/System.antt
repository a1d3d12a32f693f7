-- ===== src/Cbrs/System.antt =====
-- An agent, its thread at the domain proxy, the SAS stub, and other clients of the proxy: what a
-- command of the agent and a message of another client do to the whole.
pub mod Requests
pub mod Responses
pub mod Frame
pub mod Agreement
pub mod Faults
pub mod Progress
pub mod Granted
pub mod Transmits
pub mod Runs
pub mod Stale
pub mod Simulation
pub mod Agrees
pub mod OutOfStep
use g_5g_ims_simulators.Prelude.{
  ℕ, ◌≤◌, ◌^◌, ◌≡◌, Bool, true, false, Option, none, some, List, [], ◌∷◌, ◌++◌, length,
  if◌then◌else◌, ◌&&◌,
}
use g_5g_ims_simulators.Prelude.Texts.{codes}
use g_5g_ims_simulators.Cbrs.Doubles.{Doubles}
use g_5g_ims_simulators.Cbrs.Wire.{deliver, get}
use g_5g_ims_simulators.Cbrs.Registry.{CbsdRegistry}
use g_5g_ims_simulators.Cbrs.Sas.{Sas}
use g_5g_ims_simulators.Cbrs.Sas.Answers.{answer_to}
use g_5g_ims_simulators.Cbrs.Sas.Stream.{Stub, serve}
use g_5g_ims_simulators.Cbrs.Proxy.{Thread, info_of, rejection, handle_message, disconnected}
use g_5g_ims_simulators.Cbrs.Agent.{Command, CbsdConfig, Agent, request, answered}

-- Fewer registrations than an `int` counts.
abbrev pub Counts : Option Sas → Type 0
Counts none = Unit
Counts (some s) = s.cbsd_counter ≤ 2 ^ 31

-- What is behind the proxy: a connection to the SAS and what it makes of a request, whether whoever
-- uses it waits for ever, and the SAS's counters.
pub record SasSide : Type 1 where
  pub Conn : Type 0
  pub ask : Conn → List ℕ → Conn × Option (List ℕ)
  pub stuck : Conn → Bool
  pub sas : Conn → Option Sas

-- The stub behind its stream of bytes.
abbrev pub on_stream : Doubles → SasSide
on_stream d = record {
  Conn = Stub;
  ask = serve d;
  stuck = λ (c : Stub). c.stuck;
  sas = λ (c : Stub). c.sas;
}

-- The stub when nothing is left in the stream between two requests.
abbrev pub always_in_step : Doubles → SasSide
always_in_step d = record { Conn = Option Sas; ask = answer_to d; stuck = λ o. false; sas = λ o. o }

module _ (d : Doubles) where
  -- The connection of the agent: open, with the agent and the identifier that its thread holds;
  -- closed by the proxy; or the agent has left its loop, or its thread waits for ever.
  pub data Link : Type 0 where
    up : Agent d → List ℕ → Link
    closed : Agent d → Link
    gone : Link

module _ (d : Doubles) (side : SasSide) where
  pub record World : Type 0 where
    pub sas : side.Conn
    pub registry : CbsdRegistry d.Double
    pub link : Link d
    -- The identifiers that the other threads of the proxy hold.
    pub others : List (List ℕ)

  abbrev pub thread : World → List ℕ → Thread d.Double
  thread w id = record { registry = w.registry; my_cbsd_id = id }

  -- The thread has answered; the agent reads the answer, or leaves its loop, which ends the thread.
  unfoldable pub answer_arrives :
      World → Agent d → Command → Thread d.Double → List ℕ → Bool → World
  unfolding disconnected
  answer_arrives w a cmd t reply open_yet = elim (deliver reply) [
    | some resp ↦ record w {
      registry = t.registry;
      link =
          if open_yet
          then up (answered d a cmd resp) t.my_cbsd_id
          else closed (answered d a cmd resp);
    }
    | none ↦ record w {
      registry = if open_yet then (disconnected d t).registry else t.registry;
      link = gone;
    }
  ]

  -- The thread asks the SAS.
  abbrev pub forwards : Thread d.Double → List ℕ → Bool
  forwards t req = elim (rejection (get req (codes "type")) (info_of d t).state) [
    | none ↦ true
    | some err ↦ false
  ]

  -- `sendMsg(conn, req); if (!recvMsg(conn, resp)) break;` and what follows, with the thread's round.
  unfoldable pub exchange : World → Agent d → List ℕ → Command → List ℕ → World
  unfolding disconnected answer_arrives
  exchange w a id cmd req = elim (deliver req) [
    | none ↦ record w { registry = (disconnected d (thread w id)).registry; link = gone }
    | some received ↦
        let (s, t, reply, open_yet) = handle_message d side.ask w.sas (thread w id) received in
        if side.stuck s && forwards (thread w id) received
        then record w { sas = s; link = gone }
        else answer_arrives (record w { sas = s }) a cmd t reply open_yet
  ]

  -- A command of the agent.
  unfoldable pub run_command : CbsdConfig d → World → Link d → Command → World
  run_command cfg w gone cmd = w
  run_command cfg w (closed a) cmd = elim (request d cfg a cmd) [
    | none ↦ w
    | some req ↦ record w { link = gone }
  ]
  run_command cfg w (up a id) cmd = elim (request d cfg a cmd) [
    | none ↦ w
    | some req ↦ exchange w a id cmd req
  ]

  -- What can happen next. Other clients send what they like in up to
  -- 32000 bytes, so that the responses fit into a frame. One whose thread waits for ever stays.
  pub data Step (cfg : CbsdConfig d) (w u : World) : Type 0 where
    command : (cmd : Command) → u ≡ run_command cfg w w.link cmd → Step cfg w u
    joins : u ≡ record w { others = [] ∷ w.others } → Step cfg w u
    sends :
        (before after : List (List ℕ)) (id req : List ℕ)
        → w.others ≡ before ++ (id ∷ after)
        → length req ≤ 32000
        → (let (s, t, reply, open_yet) = handle_message d side.ask w.sas (thread w id) req in
            u ≡ record w {
              sas = s;
              registry = t.registry;
              others = before ++ (if open_yet then t.my_cbsd_id ∷ after else after);
            })
        → Step cfg w u
    leaves :
        (before after : List (List ℕ)) (id : List ℕ)
        → w.others ≡ before ++ (id ∷ after)
        → u ≡ record w {
          registry = (disconnected d (thread w id)).registry;
          others = before ++ after;
        }
        → Step cfg w u

  pub data Reach (cfg : CbsdConfig d) (w : World) : World → Type 0 where
    here : Reach cfg w w
    next : {u v : World} → Reach cfg w u → Step cfg u v → Counts (side.sas v.sas) → Reach cfg w v
