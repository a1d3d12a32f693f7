-- ===== src/Cbrs/System/Stale.antt =====
-- A CBSD that registers twice over one connection.
use g_5g_ims_simulators.Prelude.{
  ℕ, ◌+◌, ◌%◌, ◌^◌, ◌<◌, ◌≤◌, ◌≡◌, ◌≢◌, refl, ◌∙◌, ap, Bool, Option, true, none, some, List, length,
  arith,
}
use g_5g_ims_simulators.Prelude.Texts
use g_5g_ims_simulators.Prelude.Texts.{codes, same_text, same_text_refl}
use g_5g_ims_simulators.Cbrs.Doubles.{Doubles}
use g_5g_ims_simulators.Cbrs.Wire
use g_5g_ims_simulators.Cbrs.Wire.Frames.{deliver_short}
use g_5g_ims_simulators.Cbrs.SpectrumState.{registered}
use g_5g_ims_simulators.Cbrs.Registry.{CbsdInfo, CbsdRegistry, get, upsert, remove}
use g_5g_ims_simulators.Cbrs.Sas.{Sas, make_cbsd_id, handle_request, registration_response}
use g_5g_ims_simulators.Cbrs.Sas.Answers.{answer_to}
use g_5g_ims_simulators.Cbrs.Sas.Stream.{in_step, serve, registration-Fits}
use g_5g_ims_simulators.Cbrs.Proxy.InStep.{handle_message-in_step}
use g_5g_ims_simulators.Cbrs.Sas.Responses.{type_of_registration, length-registration_response}
use g_5g_ims_simulators.Cbrs.Proxy.{
  Thread, info_of, rejection, handle_message, update, new_info, disconnected,
}
use g_5g_ims_simulators.Cbrs.System.Responses.{
  cbsd_id_of, cbsd_id_of-IsPlain, cbsd_id_of_injective, registration_response-cbsd_id,
  registration_response-code,
}
use g_5g_ims_simulators.Cbrs.System.Frame.{upsert_self, upsert_ne, remove_ne}
use g_5g_ims_simulators.Cbrs.System.Progress.{answer_made, length-small_int_string}

module _ (d : Doubles) (req : List ℕ) (some_text : 0 < length req) (fits : length req ≤ 65536)
    (type : Wire.get req (codes "type") ≡ codes "RegistrationRequest") where
  register_round :
      (s : Sas) (t : Thread d.Double)
      → s.cbsd_counter ≤ 50000
      → handle_message d (answer_to d) (some s) t req ≡ (
        some (record s { cbsd_counter = (s.cbsd_counter + 1) % 2 ^ 32 }),
        record {
          registry = upsert (new_info d (make_cbsd_id s) req) t.registry;
          my_cbsd_id = make_cbsd_id s;
        },
        registration_response (make_cbsd_id s),
        true,
      )
  unfolding handle_message update same_text
  register_round s t few =
      rw (passes, handle_message)
        (rw served (
          rw (
            type_of_registration (make_cbsd_id s),
            registration_response-code (make_cbsd_id s) (cbsd_id_of-IsPlain s.cbsd_counter),
            registration_response-cbsd_id (make_cbsd_id s) (cbsd_id_of-IsPlain s.cbsd_counter),
          )))
    where
      passes : rejection (Wire.get req (codes "type")) (info_of d t).state ≡ none
      passes = rw type (unfold rejection same_text in refl)

      served : answer_to d (some s) req ≡ (
        some (record s { cbsd_counter = (s.cbsd_counter + 1) % 2 ^ 32 }),
        some (registration_response (make_cbsd_id s)),
      )
      served =
          answer_made d s (record s { cbsd_counter = (s.cbsd_counter + 1) % 2 ^ 32 }) req
            (registration_response (make_cbsd_id s)) (deliver_short req some_text fits)
            (unfold handle_request same_text in rw type)
            (deliver_short (registration_response (make_cbsd_id s)) (omega arith) (
              omega (
                arith,
                length-registration_response (make_cbsd_id s),
                length-small_int_string s.cbsd_counter few,
              )))

  -- The same with the stub behind its stream.
  register_round_on :
      (s : Sas) (t : Thread d.Double)
      → s.cbsd_counter ≤ 50000
      → handle_message d (serve d) (in_step (some s)) t req ≡ (
        in_step (some (record s { cbsd_counter = (s.cbsd_counter + 1) % 2 ^ 32 })),
        record {
          registry = upsert (new_info d (make_cbsd_id s) req) t.registry;
          my_cbsd_id = make_cbsd_id s;
        },
        registration_response (make_cbsd_id s),
        true,
      )
  register_round_on s t few =
      handle_message-in_step d (some s) t req fits (λ s' p. registration-Fits d s' req type)
      ∙ ap (λ (x : Option Sas × Thread d.Double × List ℕ × Bool). (in_step x.0, x.1, x.2, x.3))
          (register_round s t few)

  -- A client that sends a RegistrationRequest twice and leaves, with nothing left in the stub's stream: the entry of its second identifier
  -- is removed, and the one of its first stays in the registry, REGISTERED, though no thread holds
  -- that identifier.
  pub stale_entry :
      (s : Sas) (t : Thread d.Double)
      → s.cbsd_counter < 50000
      → let (s1, t1, reply1, open1) = handle_message d (serve d) (in_step (some s)) t req in
        let (s2, t2, reply2, open2) = handle_message d (serve d) s1 t1 req in
        (i : CbsdInfo d.Double) × (get (cbsd_id_of s.cbsd_counter) (disconnected d t2).registry
          ≡ some i)
        × (i.state ≡ registered)
        × (t2.my_cbsd_id ≢ cbsd_id_of s.cbsd_counter)
        × (get t2.my_cbsd_id (disconnected d t2).registry ≡ none)
  unfolding disconnected
  stale_entry s t few =
      let s1 : Sas = record s { cbsd_counter = (s.cbsd_counter + 1) % 2 ^ 32 } in
      let t1 : Thread d.Double = record {
        registry = upsert (new_info d (make_cbsd_id s) req) t.registry;
        my_cbsd_id = make_cbsd_id s;
      } in
      rw (register_round_on s t (omega arith), register_round_on s1 t1 (omega arith))
        (
          new_info d (make_cbsd_id s) req,
          remove_ne (make_cbsd_id s1) (make_cbsd_id s) _ differ
              ∙ upsert_ne (new_info d (make_cbsd_id s1) req) (make_cbsd_id s) t1.registry differ
              ∙ upsert_self (new_info d (make_cbsd_id s) req) t.registry,
          refl,
          differ,
          gone_entry (make_cbsd_id s1) _,
        )
    where
      differ : cbsd_id_of ((s.cbsd_counter + 1) % 2 ^ 32) ≢ cbsd_id_of s.cbsd_counter
      differ z = absurd (
          omega (
            arith,
            cbsd_id_of_injective ((s.cbsd_counter + 1) % 2 ^ 32) s.cbsd_counter (omega arith)
                (omega arith) z,
          ))

      gone_entry : (id : List ℕ) (r : CbsdRegistry d.Double) → get id (remove id r) ≡ none
      gone_entry id r = unfold get remove in rw (Texts.find-erase id id r, same_text_refl id)
