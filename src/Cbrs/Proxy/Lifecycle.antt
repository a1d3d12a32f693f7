-- ===== src/Cbrs/Proxy/Lifecycle.antt =====
-- The states of a CBSD at the proxy, with the SAS stub behind it.
use g_5g_ims_simulators.Prelude.{
  ℕ, ◌≤◌, ◌≡◌, refl, subst, arith, Bool, sym, ◌∙◌, ◌⊎◌, inl, inr, true, false, Bool-cases,
  Option-cases, Option, none, some, List, [], length, if◌then◌else◌,
}
use g_5g_ims_simulators.Prelude.Texts
use g_5g_ims_simulators.Prelude.Texts.{codes, same_text, same_text_eq, same_text_refl}
use g_5g_ims_simulators.Cbrs.Doubles.{Doubles}
use g_5g_ims_simulators.Cbrs.Wire
use g_5g_ims_simulators.Cbrs.SpectrumState.{
  SpectrumState, unregistered, registered, granted, authorized,
}
use g_5g_ims_simulators.Cbrs.Registry.{
  CbsdInfo, CbsdRegistry, upsert, get, change, set_state, set_grant, clear_grant, remove,
}
use g_5g_ims_simulators.Cbrs.Sas.{Sas, make_cbsd_id, make_grant_id}
use g_5g_ims_simulators.Cbrs.Sas.Answers.{
  answer_to, answer_to-Answers, Answers, nothing, made, Made, error, registration, granting,
  heartbeat, relinquishment, deregistration, type_of_grant,
}
use g_5g_ims_simulators.Cbrs.Sas.Stream.{Stub, in_step, serve, small-Fits}
use g_5g_ims_simulators.Cbrs.Proxy.InStep.{handle_message-in_step}
use g_5g_ims_simulators.Cbrs.Sas.Responses.{
  type_of_error, type_of_registration, type_of_heartbeat, type_of_relinquishment,
  type_of_deregistration, type_of_nothing,
}
use g_5g_ims_simulators.Cbrs.Proxy.{
  Thread, is_success, info_of, new_info, update, handle_message, rejection, is_empty, or_empty,
}

-- How a request of that type may move the state of the thread's CBSD.
abbrev pub Moves : List ℕ → SpectrumState → SpectrumState → Type 0
Moves type s s' =
    (s' ≡ s)
    ⊎ ((type ≡ codes "RegistrationRequest") × (s' ≡ registered))
    ⊎ ((type ≡ codes "GrantRequest") × (s ≡ registered) × (s' ≡ granted))
    ⊎ ((type ≡ codes "HeartbeatRequest") × ((s ≡ granted) ⊎ (s ≡ authorized)) × (s' ≡ authorized))
    ⊎ ((type ≡ codes "RelinquishmentRequest") × (s' ≡ registered))

-- What may become of an entry of the registry.
abbrev pub Fate : {D : Type 0} → List ℕ → Option (CbsdInfo D) → Option (CbsdInfo D) → Type 0
Fate type none none = Unit
Fate type none (some i') = (type ≡ codes "RegistrationRequest") × (i'.state ≡ registered)
Fate type (some i) none = type ≡ codes "DeregistrationRequest"
Fate type (some i) (some i') = Moves type i.state i'.state

Fate-same : {D : Type 0} (type : List ℕ) (o : Option (CbsdInfo D)) → Fate type o o
Fate-same type none = tt
Fate-same type (some i) = inl refl

module _ {D : Type 0} where
  get-change :
      (f : CbsdInfo D → CbsdInfo D) (id j : List ℕ) (store : CbsdRegistry D)
      → get j (change f id store) ≡ elim (get id store) as (λ x. Option (CbsdInfo D)) [
        | none ↦ get j store
        | some i ↦ if same_text id j then some (f i) else get j store
      ]
  unfolding change get
  get-change f id j store = elim (Option-cases (Texts.find id store)) [
    | inl e ↦ rw (e, change) refl
    | inr (i, e) ↦ rw (e, change) (Texts.find-insert id j (f i) store)
  ]

  -- A change through the iterator is seen at its identifier only.
  Fate-change :
      (f : CbsdInfo D → CbsdInfo D) (type id j : List ℕ) (store : CbsdRegistry D)
      → ((i : CbsdInfo D) → get id store ≡ some i → Moves type i.state (f i).state)
      → Fate type (get j store) (get j (change f id store))
  Fate-change f type id j store h = elim (Option-cases (get id store)) [
    | inl e ↦ rw (get-change f id j store, e) (Fate-same type (get j store))
    | inr (i, e) ↦ rw (get-change f id j store, e) (at_entry i e (Bool-cases (same_text id j)))
  ]
    where
      at_entry :
          (i : CbsdInfo D)
          → get id store ≡ some i
          → (same_text id j ≡ true) ⊎ (same_text id j ≡ false)
          → Fate type (get j store) (if same_text id j then some (f i) else get j store)
      at_entry i e (inl same) = rw (same, sym (same_text_eq id j same), e) (h i e)
      at_entry i e (inr other) = rw other (Fate-same type (get j store))

grant_allowed : (s : SpectrumState) → rejection (codes "GrantRequest") s ≡ none → s ≡ registered
unfolding rejection same_text
grant_allowed unregistered h = cc
grant_allowed registered h = refl
grant_allowed granted h = cc
grant_allowed authorized h = cc

heartbeat_allowed :
    (s : SpectrumState)
    → rejection (codes "HeartbeatRequest") s ≡ none
    → (s ≡ granted) ⊎ (s ≡ authorized)
unfolding rejection same_text
heartbeat_allowed unregistered h = cc
heartbeat_allowed registered h = cc
heartbeat_allowed granted h = inl refl
heartbeat_allowed authorized h = inr refl

heartbeat_from :
    (s r : SpectrumState)
    → (r ≡ s) ⊎ (r ≡ unregistered)
    → (r ≡ granted) ⊎ (r ≡ authorized)
    → (s ≡ granted) ⊎ (s ≡ authorized)
heartbeat_from s r (inl w) (inl g) = inl (sym w ∙ g)
heartbeat_from s r (inl w) (inr g) = inr (sym w ∙ g)
heartbeat_from s r (inr w) (inl g) = cc
heartbeat_from s r (inr w) (inr g) = cc

grant_from : (s r : SpectrumState) → (r ≡ s) ⊎ (r ≡ unregistered) → r ≡ registered → s ≡ registered
grant_from s r (inl w) g = sym w ∙ g
grant_from s r (inr w) g = cc

module _ (d : Doubles) (t : Thread d.Double) where
  -- A state other than UNREGISTERED is that of the entry.
  state_of_entry :
      (i : CbsdInfo d.Double)
      → get t.my_cbsd_id t.registry ≡ some i
      → ((info_of d t).state ≡ i.state) ⊎ ((info_of d t).state ≡ unregistered)
  unfolding info_of
  state_of_entry i e = elim (Bool-cases (is_empty t.my_cbsd_id)) [
    | inl z ↦ inr (rw z)
    | inr z ↦ inl (rw (z, e))
  ]

  module _ (req resp : List ℕ) (j : List ℕ) (type : List ℕ) where
    NextFate : Type 0
    NextFate = Fate type (get j t.registry) (get j (update d t req resp).0.registry)

    nothing-Fate : Wire.get resp (codes "type") ≡ [] → NextFate
    unfolding NextFate update same_text
    nothing-Fate e = rw e (Fate-same type (get j t.registry))

    error-Fate : Wire.get resp (codes "type") ≡ codes "ErrorResponse" → NextFate
    unfolding NextFate update same_text
    error-Fate e = rw e (Fate-same type (get j t.registry))

    heartbeat-Fate :
        type ≡ codes "HeartbeatRequest"
        → rejection type (info_of d t).state ≡ none
        → Wire.get resp (codes "type") ≡ codes "HeartbeatResponse"
        → NextFate
    unfolding NextFate update same_text set_state
    heartbeat-Fate q passed e =
        elim (Bool-cases (is_success (Wire.get resp (codes "responseCode")))) [
          | inl good ↦
              rw (e, good)
                (Fate-change (λ i. record i { state = authorized }) type t.my_cbsd_id j t.registry
                  moves)
          | inr bad ↦ rw (e, bad) (Fate-same type (get j t.registry))
        ]
      where
        moves :
            (i : CbsdInfo d.Double)
            → get t.my_cbsd_id t.registry ≡ some i
            → Moves type i.state authorized
        moves i w = inr (
            inr (
              inr (
                inl (
                  q,
                  heartbeat_from i.state (info_of d t).state (state_of_entry i w)
                      (heartbeat_allowed (info_of d t).state (rw q at passed)),
                  refl,
                ))))

    grant-Fate :
        type ≡ codes "GrantRequest"
        → rejection type (info_of d t).state ≡ none
        → Wire.get resp (codes "type") ≡ codes "GrantResponse"
        → NextFate
    unfolding NextFate update same_text set_grant
    grant-Fate q passed e = elim (Bool-cases (is_success (Wire.get resp (codes "responseCode")))) [
      | inl good ↦ rw (e, good) (Fate-change _ type t.my_cbsd_id j t.registry moves)
      | inr bad ↦ rw (e, bad) (Fate-same type (get j t.registry))
    ]
      where
        moves :
            (i : CbsdInfo d.Double)
            → get t.my_cbsd_id t.registry ≡ some i
            → Moves type i.state granted
        moves i w = inr (
            inr (
              inl (
                q,
                grant_from i.state (info_of d t).state (state_of_entry i w)
                    (grant_allowed (info_of d t).state (rw q at passed)),
                refl,
              )))

    relinquishment-Fate :
        type ≡ codes "RelinquishmentRequest"
        → Wire.get resp (codes "type") ≡ codes "RelinquishmentResponse"
        → NextFate
    unfolding NextFate update same_text clear_grant
    relinquishment-Fate q e =
        elim (Bool-cases (is_success (Wire.get resp (codes "responseCode")))) [
          | inl good ↦
              rw (e, good)
                (Fate-change _ type t.my_cbsd_id j t.registry
                  (λ i w. inr (inr (inr (inr (q, refl))))))
          | inr bad ↦ rw (e, bad) (Fate-same type (get j t.registry))
        ]

    registration-Fate :
        type ≡ codes "RegistrationRequest"
        → Wire.get resp (codes "type") ≡ codes "RegistrationResponse"
        → NextFate
    unfolding NextFate update same_text upsert get
    registration-Fate q e = elim (Bool-cases (is_success (Wire.get resp (codes "responseCode")))) [
      | inl good ↦
          rw (e, good, Texts.find-insert new_id j (new_info d new_id req) t.registry)
            (at_entry (Bool-cases (same_text new_id j)) (get j t.registry))
      | inr bad ↦ rw (e, bad) (Fate-same type (get j t.registry))
    ]
      where
        new_id : List ℕ
        new_id = Wire.get resp (codes "cbsdId")

        at_entry :
            (same_text new_id j ≡ true) ⊎ (same_text new_id j ≡ false)
            → (o : Option (CbsdInfo d.Double))
            → Fate type o (if same_text new_id j then some (new_info d new_id req) else o)
        at_entry (inl same) none = rw same (q, refl)
        at_entry (inl same) (some i) = rw same (inr (inl (q, refl)))
        at_entry (inr other) o = rw other (Fate-same type o)

    deregistration-Fate :
        type ≡ codes "DeregistrationRequest"
        → Wire.get resp (codes "type") ≡ codes "DeregistrationResponse"
        → NextFate
    unfolding NextFate update same_text remove get
    deregistration-Fate q e =
        rw (e, Texts.find-erase t.my_cbsd_id j t.registry)
          (at_entry (Bool-cases (same_text t.my_cbsd_id j)) (get j t.registry))
      where
        at_entry :
            (same_text t.my_cbsd_id j ≡ true) ⊎ (same_text t.my_cbsd_id j ≡ false)
            → (o : Option (CbsdInfo d.Double))
            → Fate type o (if same_text t.my_cbsd_id j then none else o)
        at_entry (inl same) none = rw same tt
        at_entry (inl same) (some i) = rw same q
        at_entry (inr other) o = rw other (Fate-same type o)

  made-Fate :
      (s s' : Sas) (req resp j : List ℕ)
      → rejection (Wire.get req (codes "type")) (info_of d t).state ≡ none
      → Made d s req s' resp
      → NextFate req resp j (Wire.get req (codes "type"))
  made-Fate s s' req resp j passed (error u e r) =
      error-Fate req resp j (Wire.get req (codes "type")) (rw r type_of_error)
  made-Fate s s' req resp j passed (registration q e r) =
      registration-Fate req resp j (Wire.get req (codes "type")) q
        (rw r (type_of_registration (make_cbsd_id s)))
  made-Fate s s' req resp j passed (granting freq bw eirp q e r) =
      grant-Fate req resp j (Wire.get req (codes "type")) q passed
        (rw r (type_of_grant d (Wire.get req (codes "cbsdId")) (make_grant_id s) freq bw eirp))
  made-Fate s s' req resp j passed (heartbeat q e r) =
      heartbeat-Fate req resp j (Wire.get req (codes "type")) q passed
        (rw r (type_of_heartbeat (Wire.get req (codes "cbsdId")) (Wire.get req (codes "grantId"))))
  made-Fate s s' req resp j passed (relinquishment q e r) =
      relinquishment-Fate req resp j (Wire.get req (codes "type")) q (
        rw r
          (type_of_relinquishment (Wire.get req (codes "cbsdId")) (Wire.get req (codes "grantId"))))
  made-Fate s s' req resp j passed (deregistration q e r) =
      deregistration-Fate req resp j (Wire.get req (codes "type")) q
        (rw r (type_of_deregistration (Wire.get req (codes "cbsdId"))))

  answer-Fate :
      (o o' : Option Sas) (req resp j : List ℕ)
      → rejection (Wire.get req (codes "type")) (info_of d t).state ≡ none
      → Answers d o req o' resp
      → NextFate req resp j (Wire.get req (codes "type"))
  answer-Fate o o' req resp j passed (nothing e g) =
      nothing-Fate req resp j (Wire.get req (codes "type")) (rw e type_of_nothing)
  answer-Fate o o' req resp j passed (made s s' p q l m) = made-Fate s s' req resp j passed m

lifecycle_in_step :
    (d : Doubles) (s : Option Sas) (t : Thread d.Double) (req j : List ℕ)
    → length req ≤ 65536
    → Fate
        (Wire.get req (codes "type"))
        (get j t.registry)
        (get j (handle_message d (answer_to d) s t req).1.registry)
unfolding handle_message
lifecycle_in_step d s t req j h =
    elim (Option-cases (rejection (Wire.get req (codes "type")) (info_of d t).state)) [
      | inl e ↦
          rw (e, handle_message)
            (unfold NextFate in
              answer-Fate d t s (answer_to d s req).0 req (or_empty (answer_to d s req).1) j e
                (answer_to-Answers d s req h))
      | inr (err, e) ↦
          rw (e, handle_message) (Fate-same (Wire.get req (codes "type")) (get j t.registry))
    ]

-- Whatever a CBSD sends in up to 32000 bytes, in whatever state the stub and the registry are, with
-- nothing left in the stream of the stub: an entry that was there keeps its state, or moves by the
-- message's type, to GRANTED only from REGISTERED by a GrantRequest, to AUTHORIZED only from
-- GRANTED or AUTHORIZED by a HeartbeatRequest, to REGISTERED by a RegistrationRequest or a
-- RelinquishmentRequest; or a DeregistrationRequest has taken it away. A new entry is REGISTERED,
-- after a RegistrationRequest. And nothing is left in the stream then either.
pub lifecycle :
    (d : Doubles) (s : Option Sas) (t : Thread d.Double) (req j : List ℕ)
    → length req ≤ 32000
    → let (c, t', reply, open_yet) = handle_message d (serve d) (in_step s) t req in
      Fate (Wire.get req (codes "type")) (get j t.registry) (get j t'.registry)
      × (c ≡ in_step c.sas)
lifecycle d s t req j h =
    subst
      (λ (x : Stub × Thread d.Double × List ℕ × Bool).
        Fate (Wire.get req (codes "type")) (get j t.registry) (get j x.1.registry)
        × (x.0 ≡ in_step (x.0).sas))
      (sym (handle_message-in_step d s t req (omega arith) (λ s p. small-Fits d s req h)))
      (lifecycle_in_step d s t req j (omega arith), refl)
