-- ===== src/Cbrs/System/Frame.antt =====
-- What the message of one client leaves alone.
use g_5g_ims_simulators.Prelude.{
  ℕ, ◌+◌, ◌%◌, ◌^◌, ◌≤◌, ◌≡◌, ◌≢◌, refl, ◌∙◌, ap, ◌⊎◌, inl, inr, Bool, true, false, Bool-cases,
  Option-cases, Option, none, some, List, [], length, if◌then◌else◌,
}
use g_5g_ims_simulators.Prelude.Texts
use g_5g_ims_simulators.Prelude.Texts.{
  codes, same_text, same_text_eq, same_text-false, same_text_refl,
}
use g_5g_ims_simulators.Cbrs.Doubles.{Doubles}
use g_5g_ims_simulators.Cbrs.Wire
use g_5g_ims_simulators.Cbrs.Registry.{
  CbsdInfo, CbsdRegistry, upsert, get, change, set_state, set_grant, clear_grant, remove,
}
use g_5g_ims_simulators.Cbrs.Sas.{Sas, make_cbsd_id, make_grant_id, registration_response}
use g_5g_ims_simulators.Cbrs.Sas.Answers.{
  answer_to, answer_to-Answers, Answers, nothing, made, Made, error, registration, granting,
  heartbeat, relinquishment, deregistration, Grows, Made-Grows, type_of_grant,
}
use g_5g_ims_simulators.Cbrs.Sas.Responses.{
  type_of_error, type_of_registration, type_of_heartbeat, type_of_relinquishment,
  type_of_deregistration, type_of_nothing,
}
use g_5g_ims_simulators.Cbrs.Proxy.{
  Thread, is_success, info_of, update, handle_message, rejection, or_empty, new_info,
}
use g_5g_ims_simulators.Cbrs.System.Responses.{
  cbsd_id_of, cbsd_id_of-IsPlain, registration_response-cbsd_id, registration_response-code,
}

-- The identifier of the thread stays, or is the one that the stub has just made.
abbrev pub NextId : Option Sas → Option Sas → List ℕ → List ℕ → Type 0
NextId o o' id id' =
    (id' ≡ id)
    ⊎ ((s : Sas) × (o ≡ some s)
        × (o' ≡ some (record s { cbsd_counter = (s.cbsd_counter + 1) % 2 ^ 32 }))
        × (id' ≡ cbsd_id_of s.cbsd_counter))

module _ {D : Type 0} where
  pub change_ne :
      (f : CbsdInfo D → CbsdInfo D) (id j : List ℕ) (store : CbsdRegistry D)
      → id ≢ j
      → get j (change f id store) ≡ get j store
  unfolding change get
  change_ne f id j store h = elim (Option-cases (Texts.find id store)) [
    | inl e ↦ rw (e, change)
    | inr (i, e) ↦ rw (e, change) (rw (Texts.find-insert id j (f i) store, same_text-false id j h))
  ]

  pub change_self :
      (f : CbsdInfo D → CbsdInfo D) (id : List ℕ) (store : CbsdRegistry D) (i : CbsdInfo D)
      → get id store ≡ some i
      → get id (change f id store) ≡ some (f i)
  unfolding change get
  change_self f id store i e =
      rw (e, change) (rw (Texts.find-insert id id (f i) store, same_text_refl id))

  pub upsert_ne :
      (i : CbsdInfo D) (j : List ℕ) (store : CbsdRegistry D)
      → i.cbsd_id ≢ j
      → get j (upsert i store) ≡ get j store
  unfolding upsert get
  upsert_ne i j store h = rw (Texts.find-insert i.cbsd_id j i store, same_text-false i.cbsd_id j h)

  pub upsert_self :
      (i : CbsdInfo D) (store : CbsdRegistry D) → get i.cbsd_id (upsert i store) ≡ some i
  unfolding upsert get
  upsert_self i store = rw (Texts.find-insert i.cbsd_id i.cbsd_id i store, same_text_refl i.cbsd_id)

  pub remove_ne :
      (id j : List ℕ) (store : CbsdRegistry D) → id ≢ j → get j (remove id store) ≡ get j store
  unfolding remove get
  remove_ne id j store h = rw (Texts.find-erase id j store, same_text-false id j h)

pub Grows-same : (o : Option Sas) → Grows o o
Grows-same none = tt
Grows-same (some s) = inl refl

-- What the thread's round may do to the rest: nothing to the entries of other identifiers.
module _ (d : Doubles) (t : Thread d.Double) where
  abbrev pub Framed : Option Sas → Option Sas → Thread d.Double → Type 0
  Framed o o' t' =
      NextId o o' t.my_cbsd_id t'.my_cbsd_id
      × ((j : List ℕ) → t.my_cbsd_id ≢ j → t'.my_cbsd_id ≢ j → get j t'.registry ≡ get j t.registry)

  Framed-same : (o o' : Option Sas) → Framed o o' t
  Framed-same o o' = (inl refl, λ j m n. refl)

  Framed-change :
      (o o' : Option Sas) (b : Bool) (f : CbsdInfo d.Double → CbsdInfo d.Double)
      → Framed o o' (if b then record t { registry = change f t.my_cbsd_id t.registry } else t)
  Framed-change o o' true f = (inl refl, λ j m n. change_ne f t.my_cbsd_id j t.registry m)
  Framed-change o o' false f = (inl refl, λ j m n. refl)

  module _ (req resp : List ℕ) where
    abbrev good : Bool
    good = is_success (Wire.get resp (codes "responseCode"))

    -- The fields of a response that the stub has made.
    typed :
        (k : List ℕ) {x : List ℕ}
        → resp ≡ x
        → Wire.get x (codes "type") ≡ k
        → Wire.get resp (codes "type") ≡ k
    typed k r e = ap (λ (x : List ℕ). Wire.get x (codes "type")) r ∙ e

    registration-Framed :
        (s s' : Sas)
        → s' ≡ record s { cbsd_counter = (s.cbsd_counter + 1) % 2 ^ 32 }
        → resp ≡ registration_response (make_cbsd_id s)
        → Framed (some s) (some s') (update d t req resp).0
    unfolding update same_text
    registration-Framed s s' e r =
        rw
          (
            typed (codes "RegistrationResponse") r (type_of_registration (make_cbsd_id s)),
            ap (λ (x : List ℕ). Wire.get x (codes "responseCode")) r
                ∙ registration_response-code (make_cbsd_id s) (cbsd_id_of-IsPlain s.cbsd_counter),
            ap (λ (x : List ℕ). Wire.get x (codes "cbsdId")) r
                ∙ registration_response-cbsd_id (make_cbsd_id s)
                    (cbsd_id_of-IsPlain s.cbsd_counter),
          )
          (
            inr (s, refl, ap some e, refl),
            λ j m n. upsert_ne (new_info d (make_cbsd_id s) req) j t.registry n,
          )

    Made-Framed :
        (s s' : Sas) → Made d s req s' resp → Framed (some s) (some s') (update d t req resp).0
    unfolding update same_text set_grant set_state clear_grant
    Made-Framed s s' (error u e r) =
        rw (typed (codes "ErrorResponse") r type_of_error) (Framed-same (some s) (some s'))
    Made-Framed s s' (registration q e r) = registration-Framed s s' e r
    Made-Framed s s' (granting freq bw eirp q e r) =
        rw
          (typed (codes "GrantResponse") r
            (type_of_grant d (Wire.get req (codes "cbsdId")) (make_grant_id s) freq bw eirp))
          (elim (Bool-cases good) [
            | inl b ↦ rw b (Framed-change (some s) (some s') true _)
            | inr b ↦ rw b (Framed-same (some s) (some s'))
          ])
    Made-Framed s s' (heartbeat q e r) =
        rw
          (typed (codes "HeartbeatResponse") r
            (type_of_heartbeat (Wire.get req (codes "cbsdId")) (Wire.get req (codes "grantId"))))
          (elim (Bool-cases good) [
            | inl b ↦ rw b (Framed-change (some s) (some s') true _)
            | inr b ↦ rw b (Framed-same (some s) (some s'))
          ])
    Made-Framed s s' (relinquishment q e r) =
        rw
          (typed (codes "RelinquishmentResponse") r (
            type_of_relinquishment (Wire.get req (codes "cbsdId"))
              (Wire.get req (codes "grantId"))))
          (elim (Bool-cases good) [
            | inl b ↦ rw b (Framed-change (some s) (some s') true _)
            | inr b ↦ rw b (Framed-same (some s) (some s'))
          ])
    Made-Framed s s' (deregistration q e r) =
        rw
          (typed (codes "DeregistrationResponse") r
            (type_of_deregistration (Wire.get req (codes "cbsdId"))))
          ((inl refl, λ j m n. remove_ne t.my_cbsd_id j t.registry m))

    answer-Framed :
        (o o' : Option Sas)
        → Answers d o req o' resp
        → Framed o o' (update d t req resp).0 × Grows o o'
    unfolding update same_text
    answer-Framed o o' (nothing e g) = (rw (typed [] e type_of_nothing) (Framed-same o o'), g)
    answer-Framed o o' (made s s' p q l m) =
        rw (p, q) (Made-Framed s s' m, Made-Grows d s req s' resp m)

  -- A round of a thread, whatever the client sent.
  pub handle_message-Framed :
      (o : Option Sas) (req : List ℕ)
      → length req ≤ 65536
      → let (o', t', reply, open_yet) = handle_message d (answer_to d) o t req in
        Framed o o' t' × Grows o o'
  unfolding handle_message
  handle_message-Framed o req h =
      elim (Option-cases (rejection (Wire.get req (codes "type")) (info_of d t).state)) [
        | inl e ↦
            rw (e, handle_message)
              (answer-Framed req (or_empty (answer_to d o req).1) o (answer_to d o req).0
                (answer_to-Answers d o req h))
        | inr (err, e) ↦ rw (e, handle_message) (Framed-same o o, Grows-same o)
      ]
