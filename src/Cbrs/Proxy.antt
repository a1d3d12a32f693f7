-- ===== src/Cbrs/Proxy.antt =====
-- proxy/domain_proxy.cpp: the thread of one CBSD. `S` is the SAS behind the proxy and `ask` what it
-- makes of a request that reaches it: an answer, or none when the connection gives none.
pub mod Lifecycle
pub mod InStep
use g_5g_ims_simulators.Prelude.{
  ℕ, Bool, true, false, not, ◌&&◌, ◌||◌, Option, none, some, List, [], ◌∷◌, if◌then◌else◌,
}
use g_5g_ims_simulators.Prelude.Texts.{codes, same_text}
use g_5g_ims_simulators.Cbrs.Doubles.{Doubles}
use g_5g_ims_simulators.Cbrs.Wire
use g_5g_ims_simulators.Cbrs.Wire.{str, obj}
use g_5g_ims_simulators.Cbrs.SpectrumState.{
  SpectrumState, unregistered, registered, authorized, is_registered, is_granted, is_authorized,
}
use g_5g_ims_simulators.Cbrs.Registry.{
  CbsdInfo, CbsdRegistry, upsert, get, set_state, set_grant, clear_grant, remove,
}

abbrev pub is_empty : List ℕ → Bool
is_empty [] = true
is_empty (c ∷ s) = false

abbrev pub grant_rejected : List ℕ
grant_rejected = obj (
    (codes "type", str (codes "GrantResponse"))
    ∷ (
      codes "response",
      obj (
          (codes "responseCode", codes "103")
          ∷ (codes "responseMessage", str (codes "Must be REGISTERED first"))
          ∷ []),
    )
    ∷ [])

abbrev pub heartbeat_rejected : List ℕ
heartbeat_rejected = obj (
    (codes "type", str (codes "HeartbeatResponse"))
    ∷ (
      codes "response",
      obj (
          (codes "responseCode", codes "400")
          ∷ (codes "responseMessage", str (codes "TERMINATED_GRANT"))
          ∷ []),
    )
    ∷ [])

-- The guard: the answer to a request that is not forwarded.
unfoldable pub rejection : List ℕ → SpectrumState → Option (List ℕ)
rejection type state =
    if same_text type (codes "GrantRequest") && not (is_registered state)
    then some grant_rejected
    else if same_text type (codes "HeartbeatRequest")
        && (not (is_granted state) && not (is_authorized state))
    then some heartbeat_rejected
    else none

-- `rc == "0" || rc.empty()`
abbrev pub is_success : List ℕ → Bool
is_success rc = same_text rc (codes "0") || is_empty rc

-- What `recvMsg` leaves in the text it is given.
abbrev pub or_empty : Option (List ℕ) → List ℕ
or_empty none = []
or_empty (some text) = text

-- The registry, which all threads share, and the identifier of this thread's CBSD.
pub record Thread (Double : Type 0) : Type 0 where
  pub registry : CbsdRegistry Double
  pub my_cbsd_id : List ℕ

module _ (d : Doubles) where
  open d use {Double, of_nat, stod}

  abbrev pub no_info : CbsdInfo Double
  no_info = record {
    cbsd_id = [];
    fcc_id = [];
    call_sign = [];
    category = [];
    latitude = of_nat 0;
    longitude = of_nat 0;
    height_meters = of_nat 0;
    antenna_gain_dbi = of_nat 0;
    state = unregistered;
    grant_id = [];
    grant_freq_mhz = of_nat 0;
    grant_bw_mhz = of_nat 0;
    max_eirp = of_nat 0;
  }

  abbrev pub or_no_info : Option (CbsdInfo Double) → CbsdInfo Double
  or_no_info none = no_info
  or_no_info (some info) = info

  -- `info`, as the thread reads it before a request.
  unfoldable pub info_of : Thread Double → CbsdInfo Double
  info_of t = if is_empty t.my_cbsd_id then no_info else or_no_info (get t.my_cbsd_id t.registry)

  -- `try { v = std::stod(s); } catch (...) {}`
  abbrev pub stod_or : Double → List ℕ → Double
  stod_or v s = elim (stod s) [ none ↦ v | some w ↦ w ]

  abbrev pub new_info : List ℕ → List ℕ → CbsdInfo Double
  new_info id req = record no_info {
    cbsd_id = id;
    fcc_id = Wire.get req (codes "fccId");
    call_sign = Wire.get req (codes "callSign");
    category = Wire.get req (codes "cbsdCategory");
    state = registered;
  }

  -- The update of the state after the SAS's response; the last component is whether the thread
  -- goes on.
  unfoldable pub update : Thread Double → List ℕ → List ℕ → Thread Double × Bool
  update t req resp =
      let type = Wire.get resp (codes "type") in
      let success = is_success (Wire.get resp (codes "responseCode")) in
      if same_text type (codes "RegistrationResponse") && success
      then (let id = Wire.get resp (codes "cbsdId") in
          (record { registry = upsert (new_info id req) t.registry; my_cbsd_id = id }, true))
      else if same_text type (codes "GrantResponse") && success
      then (
        record t {
          registry =
              set_grant t.my_cbsd_id (Wire.get resp (codes "grantId"))
                (stod_or (of_nat 0) (Wire.get resp (codes "operationFrequencyMHz")))
                (stod_or (of_nat 0) (Wire.get resp (codes "operationBandwidthMHz")))
                (stod_or (of_nat 0) (Wire.get resp (codes "maxEirp"))) t.registry;
        },
        true,
      )
      else if same_text type (codes "HeartbeatResponse") && success
      then (record t { registry = set_state t.my_cbsd_id authorized t.registry }, true)
      else if same_text type (codes "RelinquishmentResponse") && success
      then (record t { registry = clear_grant t.my_cbsd_id t.registry }, true)
      else if same_text type (codes "DeregistrationResponse")
      then (record t { registry = remove t.my_cbsd_id t.registry }, false)
      else (t, true)

  -- What the thread does when the CBSD is gone.
  unfoldable pub disconnected : Thread Double → Thread Double
  disconnected t =
      if is_empty t.my_cbsd_id then t else record t { registry = remove t.my_cbsd_id t.registry }

  module _ {S : Type 0} (ask : S → List ℕ → S × Option (List ℕ)) where
    -- `forwardToSas`: with no answer the response is empty.
    unfoldable pub forward_to_sas : S → List ℕ → S × List ℕ
    forward_to_sas p req = let (p', resp) = ask p req in (p', or_empty resp)

    -- The rest of a round of `handleCbsd` for a request that passes the guard.
    unfoldable pub forwarded : S → Thread Double → List ℕ → S × Thread Double × List ℕ × Bool
    unfolding forward_to_sas update
    forwarded p t req =
        let (p', resp) = forward_to_sas p req in
        let (t', open_yet) = update t req resp in (p', t', resp, open_yet)

    -- A round of `handleCbsd` on a request: the SAS, the thread, what is sent to the CBSD, and
    -- whether the thread goes on.
    unfoldable pub handle_message : S → Thread Double → List ℕ → S × Thread Double × List ℕ × Bool
    unfolding rejection forwarded
    handle_message p t req = elim (rejection (Wire.get req (codes "type")) (info_of t).state) [
      | some err ↦ (p, t, err, true)
      | none ↦ forwarded p t req
    ]
