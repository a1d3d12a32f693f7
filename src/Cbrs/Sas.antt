-- ===== src/Cbrs/Sas.antt =====
-- sas/sas_stub.cpp: how the SAS answers a request.
pub mod Responses
pub mod Answers
pub mod Inversion
pub mod Stream
use g_5g_ims_simulators.Prelude.{
  ℕ, ◌+◌, ◌-◌, ◌%◌, ◌^◌, ◌<◌, Bool, true, false, Option, none, some, List, [], ◌∷◌, ◌++◌, ltb,
  if◌then◌else◌, ◌>>=◌,
}
use g_5g_ims_simulators.Prelude.Decimal.{to_string}
use g_5g_ims_simulators.Prelude.Texts.{codes, same_text}
use g_5g_ims_simulators.Cbrs.Doubles.{Doubles}
use g_5g_ims_simulators.Cbrs.Wire.{str, obj, get}

-- The counters are `int`s: bit patterns of 32 bits.
pub record Sas : Type 0 where
  pub cbsd_counter : ℕ
  pub grant_counter : ℕ

abbrev pub first_sas : Sas
first_sas = record { cbsd_counter = 1; grant_counter = 1 }

-- `std::to_string` of an `int`.
unfoldable pub int_string : ℕ → List ℕ
int_string n =
    let bits = n % 2 ^ 32 in
    if ltb bits (2 ^ 31) then to_string bits else b'-' ∷ to_string (2 ^ 32 - bits)

abbrev pub make_cbsd_id : Sas → List ℕ
make_cbsd_id s = codes "CBSD-SAS-" ++ int_string s.cbsd_counter

abbrev pub make_grant_id : Sas → List ℕ
make_grant_id s = codes "GRANT-" ++ int_string s.grant_counter

abbrev pub success_response : List ℕ
success_response = obj ((codes "responseCode", codes "0") ∷ [])

abbrev pub registration_response : List ℕ → List ℕ
registration_response id = obj (
    (codes "type", str (codes "RegistrationResponse"))
    ∷ (codes "cbsdId", str id)
    ∷ (
      codes "response",
      obj (
          (codes "responseCode", codes "0")
          ∷ (codes "responseMessage", str (codes "SUCCESS"))
          ∷ []),
    )
    ∷ [])

abbrev pub heartbeat_response : List ℕ → List ℕ → List ℕ
heartbeat_response id grant_id = obj (
    (codes "type", str (codes "HeartbeatResponse"))
    ∷ (codes "cbsdId", str id)
    ∷ (codes "grantId", str grant_id)
    ∷ (codes "transmitExpireTime", codes "3600")
    ∷ (codes "heartbeatInterval", codes "120")
    ∷ (codes "response", success_response)
    ∷ [])

abbrev pub relinquishment_response : List ℕ → List ℕ → List ℕ
relinquishment_response id grant_id = obj (
    (codes "type", str (codes "RelinquishmentResponse"))
    ∷ (codes "cbsdId", str id)
    ∷ (codes "grantId", str grant_id)
    ∷ (codes "response", success_response)
    ∷ [])

abbrev pub deregistration_response : List ℕ → List ℕ
deregistration_response id = obj (
    (codes "type", str (codes "DeregistrationResponse"))
    ∷ (codes "cbsdId", str id)
    ∷ (codes "response", success_response)
    ∷ [])

abbrev pub error_response : List ℕ
error_response = obj (
    (codes "type", str (codes "ErrorResponse"))
    ∷ (
      codes "response",
      obj (
          (codes "responseCode", codes "103")
          ∷ (codes "responseMessage", str (codes "INVALID_VALUE"))
          ∷ []),
    )
    ∷ [])

module _ (d : Doubles) where
  open d use {Double, of_nat, stod, flt, exceeds, int_text}

  abbrev pub grant_response : List ℕ → List ℕ → Double → Double → Double → List ℕ
  grant_response id grant_id freq bw eirp = obj (
      (codes "type", str (codes "GrantResponse"))
      ∷ (codes "cbsdId", str id)
      ∷ (codes "grantId", str grant_id)
      ∷ (codes "channelType", str (codes "GAA"))
      ∷ (codes "operationFrequencyMHz", flt freq)
      ∷ (codes "operationBandwidthMHz", flt bw)
      ∷ (codes "maxEirp", int_text eirp)
      ∷ (codes "grantExpireTime", codes "3600")
      ∷ (codes "heartbeatInterval", codes "120")
      ∷ (codes "response", success_response)
      ∷ [])

  -- `s.empty() ? fallback : std::stod(s)`
  unfoldable pub number_or : List ℕ → Double → Option Double
  number_or [] fallback = some fallback
  number_or (c ∷ s) fallback = stod (c ∷ s)

  unfoldable pub capped : Double → Double → Double
  capped v cap = if exceeds v cap then cap else v

  -- The branch for a GrantRequest; none is an exception that nothing catches.
  unfoldable pub grant : Sas → List ℕ → Option (Sas × List ℕ)
  unfolding number_or capped
  grant s req = do
    freq ← number_or (get req (codes "operationFrequencyMHz")) (of_nat 3555)
    bw ← number_or (get req (codes "operationBandwidthMHz")) (of_nat 10)
    eirp ← number_or (get req (codes "maxEirp")) (of_nat 30)
    some (
      record s { grant_counter = (s.grant_counter + 1) % 2 ^ 32 },
      grant_response (get req (codes "cbsdId")) (make_grant_id s) freq (capped bw (of_nat 20))
          (capped eirp (of_nat 30)),
    )

  -- One round of `handleDpConnection`, from the request to the response.
  unfoldable pub handle_request : Sas → List ℕ → Option (Sas × List ℕ)
  unfolding grant
  handle_request s req =
      let type = get req (codes "type") in
      let id = get req (codes "cbsdId") in
      let grant_id = get req (codes "grantId") in
      if same_text type (codes "RegistrationRequest")
      then some (
        record s { cbsd_counter = (s.cbsd_counter + 1) % 2 ^ 32 },
        registration_response (make_cbsd_id s),
      )
      else if same_text type (codes "GrantRequest")
      then grant s req
      else if same_text type (codes "HeartbeatRequest")
      then some (s, heartbeat_response id grant_id)
      else if same_text type (codes "RelinquishmentRequest")
      then some (s, relinquishment_response id grant_id)
      else if same_text type (codes "DeregistrationRequest")
      then some (s, deregistration_response id)
      else some (s, error_response)
