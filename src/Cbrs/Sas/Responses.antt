-- ===== src/Cbrs/Sas/Responses.antt =====
-- The types and the lengths of the SAS stub's responses.
use g_5g_ims_simulators.Prelude.{
  ℕ, ◌+◌, ◌-◌, ◌%◌, ◌^◌, ◌≤◌, ◌≡◌, refl, length, ltb, arith, inl, inr, Bool-cases, List, [], ◌∷◌,
}
use g_5g_ims_simulators.Prelude.Texts.{codes}
use g_5g_ims_simulators.Prelude.Decimal.{length-to_string_word}
use g_5g_ims_simulators.Cbrs.Wire.{str, obj, get, after, strip, token, to_quote}
use g_5g_ims_simulators.Cbrs.Wire.Lengths.{length-obj, length-str}
use g_5g_ims_simulators.Cbrs.Sas.{
  int_string, success_response, registration_response, heartbeat_response, relinquishment_response,
  deregistration_response, error_response,
}

pub type_of_error : get error_response (codes "type") ≡ codes "ErrorResponse"
unfolding get after strip token to_quote
type_of_error = refl

pub type_of_registration :
    (id : List ℕ) → get (registration_response id) (codes "type") ≡ codes "RegistrationResponse"
unfolding get after strip token to_quote
type_of_registration id = refl

pub type_of_heartbeat :
    (id grant_id : List ℕ)
    → get (heartbeat_response id grant_id) (codes "type") ≡ codes "HeartbeatResponse"
unfolding get after strip token to_quote
type_of_heartbeat id grant_id = refl

pub type_of_relinquishment :
    (id grant_id : List ℕ)
    → get (relinquishment_response id grant_id) (codes "type") ≡ codes "RelinquishmentResponse"
unfolding get after strip token to_quote
type_of_relinquishment id grant_id = refl

pub type_of_deregistration :
    (id : List ℕ) → get (deregistration_response id) (codes "type") ≡ codes "DeregistrationResponse"
unfolding get after strip token to_quote
type_of_deregistration id = refl

pub type_of_nothing : get [] (codes "type") ≡ []
unfolding get after strip
type_of_nothing = refl

pub length-registration_response :
    (id : List ℕ) → length (registration_response id) ≤ length id + 200
length-registration_response id = omega (
  arith,
  length-obj (
      (codes "type", str (codes "RegistrationResponse"))
      ∷ (codes "cbsdId", str id)
      ∷ (
        codes "response",
        obj (
            (codes "responseCode", codes "0")
            ∷ (codes "responseMessage", str (codes "SUCCESS"))
            ∷ []),
      )
      ∷ []),
  length-str id,
)

pub length-heartbeat_response :
    (id grant_id : List ℕ)
    → length (heartbeat_response id grant_id) ≤ length id + length grant_id + 300
length-heartbeat_response id grant_id = omega (
  arith,
  length-obj (
      (codes "type", str (codes "HeartbeatResponse"))
      ∷ (codes "cbsdId", str id)
      ∷ (codes "grantId", str grant_id)
      ∷ (codes "transmitExpireTime", codes "3600")
      ∷ (codes "heartbeatInterval", codes "120")
      ∷ (codes "response", success_response)
      ∷ []),
  length-str id,
  length-str grant_id,
)

pub length-relinquishment_response :
    (id grant_id : List ℕ)
    → length (relinquishment_response id grant_id) ≤ length id + length grant_id + 300
length-relinquishment_response id grant_id = omega (
  arith,
  length-obj (
      (codes "type", str (codes "RelinquishmentResponse"))
      ∷ (codes "cbsdId", str id)
      ∷ (codes "grantId", str grant_id)
      ∷ (codes "response", success_response)
      ∷ []),
  length-str id,
  length-str grant_id,
)

pub length-deregistration_response :
    (id : List ℕ) → length (deregistration_response id) ≤ length id + 300
length-deregistration_response id = omega (
  arith,
  length-obj (
      (codes "type", str (codes "DeregistrationResponse"))
      ∷ (codes "cbsdId", str id)
      ∷ (codes "response", success_response)
      ∷ []),
  length-str id,
)

pub length-int_string : (n : ℕ) → length (int_string n) ≤ 11
unfolding int_string
length-int_string n = elim (Bool-cases (ltb (n % 2 ^ 32) (2 ^ 31))) [
  | inl e ↦ rw e (omega (arith, length-to_string_word (n % 2 ^ 32) (omega arith)))
  | inr e ↦ rw e (omega (arith, length-to_string_word (2 ^ 32 - n % 2 ^ 32) (omega arith)))
]
