-- ===== src/Cbrs/Tests.antt =====
-- The CBRS simulator at concrete inputs. There is one number here: it prints as 3555, and every text
-- that starts with a digit is read as it.
use g_5g_ims_simulators.Prelude.{
  ℕ, ◌≡◌, ◌≢◌, refl, sym, ap, zero, suc, All, replicate, length-replicate, ◌∙◌, true, false, ◌&&◌,
  Option, none, some, List, [], ◌∷◌, arith, leb, if◌then◌else◌,
}
use g_5g_ims_simulators.Prelude.Texts
use g_5g_ims_simulators.Prelude.Texts.{codes, same_text, same_text_refl}
use g_5g_ims_simulators.Cbrs.Doubles.{Doubles}
use g_5g_ims_simulators.Cbrs.Wire
use g_5g_ims_simulators.Cbrs.Wire.{str, obj, deliver, after, strip, token, to_quote, to_end}
use g_5g_ims_simulators.Cbrs.Wire.Objects.{
  Value, text, number, flat, object, first, or_empty, value_entries, get-obj,
}
use g_5g_ims_simulators.Cbrs.SpectrumState.{registered, authorized}
use g_5g_ims_simulators.Cbrs.Registry.{CbsdInfo, get, upsert}
use g_5g_ims_simulators.Cbrs.Sas.{first_sas}
use g_5g_ims_simulators.Cbrs.Sas.Stream.{in_step, serve}
use g_5g_ims_simulators.Cbrs.Proxy.{
  Thread, new_info, info_of, handle_message, disconnected, rejection,
}
use g_5g_ims_simulators.Cbrs.Proxy.Lifecycle.{Fate, lifecycle}
use g_5g_ims_simulators.Cbrs.Agent.{Command, CbsdConfig, started, registration_request}
use g_5g_ims_simulators.Cbrs.System.{
  on_stream, always_in_step, up, World, run_command, command, here, next,
}
use g_5g_ims_simulators.Cbrs.System.Simulation.{lift, run_command-lift}
use g_5g_ims_simulators.Cbrs.System.Agrees.{agrees}
use g_5g_ims_simulators.Cbrs.System.Responses.{cbsd_id_of}
use g_5g_ims_simulators.Cbrs.System.Requests.{type_of_registration_request}
use g_5g_ims_simulators.Cbrs.System.Agreement.{grant_id_of}
use g_5g_ims_simulators.Cbrs.System.Progress.{Holds, register_step}
use g_5g_ims_simulators.Cbrs.System.Transmits.{run, transmits}
use g_5g_ims_simulators.Cbrs.System.Runs.{LinkAgrees}
use g_5g_ims_simulators.Cbrs.System.Faults.{one_bad_number}
use g_5g_ims_simulators.Cbrs.Wire.Fields.{IsPlain}
use g_5g_ims_simulators.Cbrs.System.OutOfStep.{deregister, body_left, out_of_step}
use g_5g_ims_simulators.Cbrs.System.Stale.{stale_entry}

abbrev read_number : List ℕ → Option (Unit {0})
read_number [] = none
read_number (c ∷ s) = if leb b'0' c && leb c b'9' then some tt else none

prints : codes "3555" ≢ []
prints e = cc

abbrev one_number : Doubles
one_number = record {
  Double = Unit {0};
  of_nat = λ n. tt;
  stod = read_number;
  flt = λ v. codes "3555";
  exceeds = λ v w. false;
  int_text = λ v. codes "30";
  flt-IsPlain = λ v. omega arith;
  int_text-IsPlain = λ v. omega arith;
  flt_short = λ v. omega arith;
  int_text_short = λ v. omega arith;
  flt-ne-nil = λ v. prints;
}

abbrev config : CbsdConfig one_number
config = record {
  fcc_id = codes "FCC-DEVICE-001";
  call_sign = codes "KA1ABC";
  category = codes "A";
  latitude = tt;
  longitude = tt;
  height_meters = tt;
  antenna_gain_dbi = tt;
  desired_freq_mhz = tt;
  desired_bw_mhz = tt;
}

abbrev some_fields : List (List ℕ × Value)
some_fields =
    (codes "type", flat (text (codes "GrantResponse")))
    ∷ (codes "maxEirp", flat (number (codes "30")))
    ∷ (codes "response", object ((codes "responseCode", number (codes "0")) ∷ []))
    ∷ []

get-obj_example :
    Wire.get (obj (value_entries some_fields)) (codes "responseCode")
    ≡ or_empty (first (codes "responseCode") some_fields)
unfolding same_text
get-obj_example =
    get-obj (codes "responseCode") some_fields (ground arith) (omega arith) (tt, (tt, (refl, tt)))

abbrev unregistered_thread : Thread (Unit {0})
unregistered_thread = record { registry = []; my_cbsd_id = [] }

abbrev first_request : List ℕ
first_request = registration_request one_number config

lifecycle_example :
    let (c, t', reply, open_yet) =
      handle_message one_number
        (serve one_number)
        (in_step (some first_sas))
        unregistered_thread
        first_request in
    Fate
      (Wire.get first_request (codes "type"))
      (get (cbsd_id_of 1) [])
      (get (cbsd_id_of 1) t'.registry)
    × (c ≡ in_step c.sas)
lifecycle_example =
    lifecycle one_number (some first_sas) unregistered_thread first_request (cbsd_id_of 1)
      (omega arith)

abbrev fresh_world : World one_number (always_in_step one_number)
fresh_world = record {
  sas = some first_sas;
  registry = [];
  link = up (started one_number) [];
  others = [];
}

abbrev registered_world : World one_number (on_stream one_number)
registered_world = record {
  sas = in_step (some (record { cbsd_counter = 2; grant_counter = 1 }));
  registry = upsert (new_info one_number (cbsd_id_of 1) first_request) [];
  link =
      up (record (started one_number) { cbsd_id = cbsd_id_of 1; state = registered })
        (cbsd_id_of 1);
  others = [];
}

first_command :
    run_command one_number
      (on_stream one_number)
      config
      (lift one_number fresh_world)
      fresh_world.link
      Command.register
    ≡ registered_world
first_command =
    run_command-lift one_number config (omega arith) fresh_world fresh_world.link Command.register
      (omega arith, omega arith)
    ∙ ap (lift one_number) (
        register_step one_number config fresh_world (started one_number) first_sas refl
          (omega arith) (omega arith) refl)

agrees_example :
    LinkAgrees one_number registered_world.registry registered_world.link
    × (registered_world.sas ≡ in_step (registered_world.sas).sas)
agrees_example =
    agrees one_number config (some first_sas) [] registered_world (omega arith) (omega arith)
      (next here (command Command.register (sym first_command)) (omega arith))

transmits_example :
    Holds one_number
      (on_stream one_number)
      (run one_number
        (on_stream one_number)
        config
        (run one_number
          (on_stream one_number)
          config
          (run one_number
            (on_stream one_number)
            config
            (lift one_number fresh_world)
            Command.register)
          Command.grant)
        Command.heartbeat)
      (in_step (some (record { cbsd_counter = 2; grant_counter = 2 })))
      (cbsd_id_of 1)
      (grant_id_of 1)
      authorized
transmits_example =
    transmits one_number config first_sas [] [] tt tt tt (omega arith) (omega arith) (omega arith)
      refl refl (unfold same_text in refl)

abbrev registered_thread : Thread (Unit {0})
registered_thread = record {
  registry = (cbsd_id_of 1, new_info one_number (cbsd_id_of 1) first_request) ∷ [];
  my_cbsd_id = cbsd_id_of 1;
}

thread_state : (info_of one_number registered_thread).state ≡ registered
unfolding info_of get Texts.find same_text
thread_state = rw (same_text_refl (cbsd_id_of 1))

abbrev bad_request : List ℕ
bad_request = obj (
    (codes "type", str (codes "GrantRequest"))
    ∷ (codes "operationFrequencyMHz", str (codes "any"))
    ∷ [])

frequency_read : Wire.get bad_request (codes "operationFrequencyMHz") ≡ codes "any"
unfolding Wire.get after strip token to_quote
frequency_read = refl

one_bad_number_example :
    (handle_message one_number
        (serve one_number)
        (in_step (some first_sas))
        registered_thread
        bad_request
      ≡ (in_step none, registered_thread, [], true))
    × (handle_message one_number (serve one_number) (in_step none) unregistered_thread first_request
        ≡ (in_step none, unregistered_thread, [], true))
one_bad_number_example =
    one_bad_number one_number first_sas registered_thread unregistered_thread bad_request
      first_request (omega arith) (unfold Wire.get after strip token to_quote in refl) thread_state
      (rw frequency_read (λ z. cc)) (rw frequency_read)
      (rw (type_of_registration_request one_number config) (unfold rejection same_text in refl))

stale_entry_example :
    let (s1, t1, reply1, open1) =
      handle_message one_number
        (serve one_number)
        (in_step (some first_sas))
        unregistered_thread
        first_request in
    let (s2, t2, reply2, open2) =
      handle_message one_number (serve one_number) s1 t1 first_request in
    (i : CbsdInfo (Unit {0})) × (get (cbsd_id_of 1) (disconnected one_number t2).registry ≡ some i)
    × (i.state ≡ registered)
    × (t2.my_cbsd_id ≢ cbsd_id_of 1)
    × (get t2.my_cbsd_id (disconnected one_number t2).registry ≡ none)
stale_entry_example =
    stale_entry one_number first_request (omega arith) (omega arith)
      (type_of_registration_request one_number config) first_sas unregistered_thread (omega arith)

replicate-IsPlain : (n : ℕ) → All IsPlain (replicate n b'x')
replicate-IsPlain zero = tt
replicate-IsPlain (suc n) = ((omega arith, omega arith, omega arith), replicate-IsPlain n)

out_of_step_example :
    (serve one_number (in_step (some first_sas)) (deregister (replicate 65480 b'x'))
      ≡ (body_left first_sas (replicate 65480 b'x'), none))
    × ((req : List ℕ)
        → (serve one_number (body_left first_sas (replicate 65480 b'x')) req).1 ≡ none)
out_of_step_example =
    out_of_step one_number first_sas (replicate 65480 b'x') (replicate-IsPlain 65480)
      (omega (arith, length-replicate {A = ℕ} 65480 b'x'))
      (omega (arith, length-replicate {A = ℕ} 65480 b'x'))
