-- ===== src/Cbrs/Sas/Answers.antt =====
-- sas/sas_stub.cpp behind its connection: which response belongs to which request.
use g_5g_ims_simulators.Prelude.{
  ℕ, ◌+◌, ◌%◌, ◌^◌, ◌<◌, ◌≤◌, ◌≡◌, refl, length, arith, ap, ◌⊎◌, inl, inr, false, Bool-cases,
  Option-cases, Option, none, some, List, [], ◌∷◌,
}
use g_5g_ims_simulators.Prelude.Texts.{codes, same_text, same_text_eq}
use g_5g_ims_simulators.Cbrs.Doubles.{Doubles}
use g_5g_ims_simulators.Cbrs.Wire.{str, get, after, strip, token, to_quote, deliver}
use g_5g_ims_simulators.Cbrs.Wire.Frames.{deliver_cases}
use g_5g_ims_simulators.Cbrs.Wire.Lengths.{length-obj, length-str, length-get}
use g_5g_ims_simulators.Cbrs.Proxy.{or_empty}
use g_5g_ims_simulators.Cbrs.Sas.{
  Sas, success_response, handle_request, grant, registration_response, grant_response,
  heartbeat_response, relinquishment_response, deregistration_response, error_response,
  make_cbsd_id, make_grant_id, number_or, capped,
}
use g_5g_ims_simulators.Cbrs.Sas.Responses.{
  length-registration_response, length-heartbeat_response, length-relinquishment_response,
  length-deregistration_response, length-int_string,
}

-- The stub, when each of its answers is the next thing in the stream: a response that does not fit
-- is lost and nothing is left of it. None is a stub that answers no more.
unfoldable pub answer_to : Doubles → Option Sas → List ℕ → Option Sas × Option (List ℕ)
unfolding deliver
answer_to d none req = (none, none)
answer_to d (some s) req = elim (deliver req) [
  | none ↦ (none, none)
  | some received ↦ elim (handle_request d s received) [
    | none ↦ (none, none)
    | some (s', resp) ↦ (some s', deliver resp)
  ]
]

abbrev pub IsUnknown : List ℕ → Type 0
IsUnknown type =
    (same_text type (codes "RegistrationRequest") ≡ false)
    × (same_text type (codes "GrantRequest") ≡ false)
    × (same_text type (codes "HeartbeatRequest") ≡ false)
    × (same_text type (codes "RelinquishmentRequest") ≡ false)
    × (same_text type (codes "DeregistrationRequest") ≡ false)

-- What the stub makes of a request: the response of the request's type.
pub data Made (d : Doubles) (s : Sas) (req : List ℕ) (s' : Sas) (resp : List ℕ) : Type 0 where
  error : IsUnknown (get req (codes "type")) → s' ≡ s → resp ≡ error_response → Made d s req s' resp
  registration :
      get req (codes "type") ≡ codes "RegistrationRequest"
      → s' ≡ record s { cbsd_counter = (s.cbsd_counter + 1) % 2 ^ 32 }
      → resp ≡ registration_response (make_cbsd_id s)
      → Made d s req s' resp
  granting :
      (freq bw eirp : d.Double)
      → get req (codes "type") ≡ codes "GrantRequest"
      → s' ≡ record s { grant_counter = (s.grant_counter + 1) % 2 ^ 32 }
      → resp ≡ grant_response d (get req (codes "cbsdId")) (make_grant_id s) freq bw eirp
      → Made d s req s' resp
  heartbeat :
      get req (codes "type") ≡ codes "HeartbeatRequest"
      → s' ≡ s
      → resp ≡ heartbeat_response (get req (codes "cbsdId")) (get req (codes "grantId"))
      → Made d s req s' resp
  relinquishment :
      get req (codes "type") ≡ codes "RelinquishmentRequest"
      → s' ≡ s
      → resp ≡ relinquishment_response (get req (codes "cbsdId")) (get req (codes "grantId"))
      → Made d s req s' resp
  deregistration :
      get req (codes "type") ≡ codes "DeregistrationRequest"
      → s' ≡ s
      → resp ≡ deregistration_response (get req (codes "cbsdId"))
      → Made d s req s' resp

-- How the counter of CBSDs moves.
abbrev pub Grows : Option Sas → Option Sas → Type 0
Grows o none = Unit
Grows none (some s') = ⊥
Grows (some s) (some s') =
    (s'.cbsd_counter ≡ s.cbsd_counter) ⊎ (s'.cbsd_counter ≡ (s.cbsd_counter + 1) % 2 ^ 32)

-- What the proxy has after a request to the stub: no response, or the stub's.
pub data Answers (d : Doubles) (o : Option Sas) (req : List ℕ) (o' : Option Sas) (resp : List ℕ)
    : Type 0 where
  nothing : resp ≡ [] → Grows o o' → Answers d o req o' resp
  made :
      (s s' : Sas)
      → o ≡ some s
      → o' ≡ some s'
      → deliver resp ≡ some resp
      → Made d s req s' resp
      → Answers d o req o' resp

abbrev pub Answered : Doubles → Sas → List ℕ → Option (Sas × List ℕ) → Type 0
Answered d s req none = Unit
Answered d s req (some (s', resp)) = (length resp < 2 ^ 32) × Made d s req s' resp

pub Made-Grows :
    (d : Doubles) (s : Sas) (req : List ℕ) (s' : Sas) (resp : List ℕ)
    → Made d s req s' resp
    → Grows (some s) (some s')
Made-Grows d s req s' resp (error u e r) = inl (ap (λ (x : Sas). x.cbsd_counter) e)
Made-Grows d s req s' resp (registration t e r) = inr (ap (λ (x : Sas). x.cbsd_counter) e)
Made-Grows d s req s' resp (granting freq bw eirp t e r) = inl (ap (λ (x : Sas). x.cbsd_counter) e)
Made-Grows d s req s' resp (heartbeat t e r) = inl (ap (λ (x : Sas). x.cbsd_counter) e)
Made-Grows d s req s' resp (relinquishment t e r) = inl (ap (λ (x : Sas). x.cbsd_counter) e)
Made-Grows d s req s' resp (deregistration t e r) = inl (ap (λ (x : Sas). x.cbsd_counter) e)

module _ (d : Doubles) where
  pub type_of_grant :
      (id grant_id : List ℕ) (freq bw eirp : d.Double)
      → get (grant_response d id grant_id freq bw eirp) (codes "type") ≡ codes "GrantResponse"
  unfolding get after strip token to_quote
  type_of_grant id grant_id freq bw eirp = refl

  pub length-grant_response :
      (id grant_id : List ℕ) (freq bw eirp : d.Double)
      → length (grant_response d id grant_id freq bw eirp) ≤ length id + length grant_id + 500
  length-grant_response id grant_id freq bw eirp = omega (
    arith,
    length-obj (
        (codes "type", str (codes "GrantResponse"))
        ∷ (codes "cbsdId", str id)
        ∷ (codes "grantId", str grant_id)
        ∷ (codes "channelType", str (codes "GAA"))
        ∷ (codes "operationFrequencyMHz", d.flt freq)
        ∷ (codes "operationBandwidthMHz", d.flt bw)
        ∷ (codes "maxEirp", d.int_text eirp)
        ∷ (codes "grantExpireTime", codes "3600")
        ∷ (codes "heartbeatInterval", codes "120")
        ∷ (codes "response", success_response)
        ∷ []),
    length-str id,
    length-str grant_id,
    d.flt_short freq,
    d.flt_short bw,
    d.int_text_short eirp,
  )

  grant-Answered :
      (s : Sas) (req : List ℕ)
      → length req ≤ 65536
      → get req (codes "type") ≡ codes "GrantRequest"
      → Answered d s req (grant d s req)
  unfolding grant
  grant-Answered s req h e =
      elim (Option-cases (number_or d (get req (codes "operationFrequencyMHz")) (d.of_nat 3555))) [
        | inl n ↦ rw n tt
        | inr (freq, f) ↦
            elim (Option-cases
              (number_or d (get req (codes "operationBandwidthMHz")) (d.of_nat 10))) [
                | inl n ↦ rw (f, n) tt
                | inr (bw, b) ↦
                    elim (Option-cases (number_or d (get req (codes "maxEirp")) (d.of_nat 30))) [
                      | inl n ↦ rw (f, b, n) tt
                      | inr (eirp, p) ↦
                          rw (f, b, p)
                            (
                              omega (
                                arith,
                                length-grant_response (get req (codes "cbsdId")) (make_grant_id s)
                                    freq (capped d bw (d.of_nat 20)) (capped d eirp (d.of_nat 30)),
                                length-get req (codes "cbsdId"),
                                length-int_string s.grant_counter,
                              ),
                              granting freq (capped d bw (d.of_nat 20))
                                  (capped d eirp (d.of_nat 30)) e refl refl,
                            )
                    ]
              ]
      ]

  pub handle_request-Answered :
      (s : Sas) (req : List ℕ) → length req ≤ 65536 → Answered d s req (handle_request d s req)
  unfolding handle_request
  handle_request-Answered s req h =
      elim (Bool-cases (same_text type (codes "RegistrationRequest"))) [
        | inl e ↦ rw e (
          omega (
            arith,
            length-registration_response (make_cbsd_id s),
            length-int_string s.cbsd_counter,
          ),
          registration (same_text_eq type _ e) refl refl,
        )
        | inr n1 ↦ elim (Bool-cases (same_text type (codes "GrantRequest"))) [
          | inl e ↦ rw (n1, e) (grant-Answered s req h (same_text_eq type _ e))
          | inr n2 ↦ elim (Bool-cases (same_text type (codes "HeartbeatRequest"))) [
            | inl e ↦
                rw (n1, n2, e)
                  (
                    omega (
                      arith,
                      length-heartbeat_response id grant_id,
                      length-get req (codes "cbsdId"),
                      length-get req (codes "grantId"),
                    ),
                    heartbeat (same_text_eq type _ e) refl refl,
                  )
            | inr n3 ↦ elim (Bool-cases (same_text type (codes "RelinquishmentRequest"))) [
              | inl e ↦
                  rw (n1, n2, n3, e)
                    (
                      omega (
                        arith,
                        length-relinquishment_response id grant_id,
                        length-get req (codes "cbsdId"),
                        length-get req (codes "grantId"),
                      ),
                      relinquishment (same_text_eq type _ e) refl refl,
                    )
              | inr n4 ↦ elim (Bool-cases (same_text type (codes "DeregistrationRequest"))) [
                | inl e ↦
                    rw (n1, n2, n3, n4, e)
                      (
                        omega (
                          arith,
                          length-deregistration_response id,
                          length-get req (codes "cbsdId"),
                        ),
                        deregistration (same_text_eq type _ e) refl refl,
                      )
                | inr n5 ↦
                    rw (n1, n2, n3, n4, n5) (omega arith, error (n1, n2, n3, n4, n5) refl refl)
              ]
            ]
          ]
        ]
      ]
    where
      type : List ℕ
      type = get req (codes "type")

      id : List ℕ
      id = get req (codes "cbsdId")

      grant_id : List ℕ
      grant_id = get req (codes "grantId")

  -- Whatever becomes of a request at the stub, the response that the proxy has then is the stub's
  -- to this request, or is empty.
  pub answer_to-Answers :
      (o : Option Sas) (req : List ℕ)
      → length req ≤ 65536
      → let (o', resp) = answer_to d o req in Answers d o req o' (or_empty resp)
  unfolding answer_to
  answer_to-Answers none req h = nothing refl tt
  answer_to-Answers (some s) req h = elim (deliver_cases req (omega arith)) [
    | inr lost ↦ rw (lost, answer_to) (nothing refl tt)
    | inl there ↦
        rw (there, answer_to) (received (handle_request d s req) (handle_request-Answered s req h))
  ]
    where
      received :
          (o : Option (Sas × List ℕ))
          → Answered d s req o
          → let (o', resp) = elim o as (λ x. Option Sas × Option (List ℕ)) [
            | none ↦ (none, none)
            | some (s', resp) ↦ (some s', deliver resp)
          ] in
            Answers d (some s) req o' (or_empty resp)
      received none a = nothing refl tt
      received (some (s', resp)) a = elim (deliver_cases resp a.0) [
        | inl e ↦ rw e (made s s' refl refl e a.1)
        | inr e ↦ rw e (nothing refl (Made-Grows d s req s' resp a.1))
      ]
