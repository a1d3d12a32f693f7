-- ===== src/Cbrs/Agent.antt =====
-- cbsd/cbsd_agent.cpp: the commands of the agent. A command makes a request, or is refused; the
-- answer to the request then moves the agent.
use g_5g_ims_simulators.Prelude.{
  ℕ, not, ◌&&◌, ◌||◌, Option, none, some, List, [], ◌∷◌, if◌then◌else◌,
}
use g_5g_ims_simulators.Prelude.Texts.{codes, same_text}
use g_5g_ims_simulators.Cbrs.Doubles.{Doubles}
use g_5g_ims_simulators.Cbrs.Wire
use g_5g_ims_simulators.Cbrs.Wire.{str, obj}
use g_5g_ims_simulators.Cbrs.SpectrumState.{
  SpectrumState, unregistered, registered, granted, authorized, is_unregistered, is_registered,
  is_granted, is_authorized,
}
use g_5g_ims_simulators.Cbrs.Proxy.{is_empty}

-- The commands that send something.
pub data Command : Type 0 where
  register : Command
  grant : Command
  heartbeat : Command
  relinquish : Command
  deregister : Command

module _ (d : Doubles) where
  open d use {Double, of_nat, stod, flt}

  pub record CbsdConfig : Type 0 where
    pub fcc_id : List ℕ
    pub call_sign : List ℕ
    pub category : List ℕ
    pub latitude : Double
    pub longitude : Double
    pub height_meters : Double
    pub antenna_gain_dbi : Double
    pub desired_freq_mhz : Double
    pub desired_bw_mhz : Double

  -- The variables of `main`.
  pub record Agent : Type 0 where
    pub state : SpectrumState
    pub cbsd_id : List ℕ
    pub grant_id : List ℕ
    pub grant_freq : Double
    pub grant_bw : Double
    pub max_eirp : Double

  abbrev pub started : Agent
  started = record {
    state = unregistered;
    cbsd_id = [];
    grant_id = [];
    grant_freq = of_nat 0;
    grant_bw = of_nat 0;
    max_eirp = of_nat 0;
  }

  abbrev pub registration_request : CbsdConfig → List ℕ
  registration_request cfg = obj (
      (codes "type", str (codes "RegistrationRequest"))
      ∷ (codes "fccId", str cfg.fcc_id)
      ∷ (codes "callSign", str cfg.call_sign)
      ∷ (codes "cbsdCategory", str cfg.category)
      ∷ (codes "radioTechnology", str (codes "NR"))
      ∷ (codes "latitude", flt cfg.latitude)
      ∷ (codes "longitude", flt cfg.longitude)
      ∷ (codes "height", flt cfg.height_meters)
      ∷ (codes "heightType", str (codes "AGL"))
      ∷ (codes "antennaGain", flt cfg.antenna_gain_dbi)
      ∷ (codes "measCapability", str (codes "RECEIVED_POWER_WITH_GRANT"))
      ∷ [])

  -- `num(cfg.category == "A" ? 30 : 47)`
  abbrev pub eirp_limit : CbsdConfig → List ℕ
  eirp_limit cfg = if same_text cfg.category (codes "A") then codes "30" else codes "47"

  abbrev pub grant_request : CbsdConfig → List ℕ → List ℕ
  grant_request cfg id = obj (
      (codes "type", str (codes "GrantRequest"))
      ∷ (codes "cbsdId", str id)
      ∷ (codes "operationFrequencyMHz", flt cfg.desired_freq_mhz)
      ∷ (codes "operationBandwidthMHz", flt cfg.desired_bw_mhz)
      ∷ (codes "maxEirp", eirp_limit cfg)
      ∷ [])

  abbrev pub op_state : SpectrumState → List ℕ
  op_state s = if is_authorized s then codes "AUTHORIZED" else codes "GRANTED"

  abbrev pub heartbeat_request : Agent → List ℕ
  heartbeat_request a = obj (
      (codes "type", str (codes "HeartbeatRequest"))
      ∷ (codes "cbsdId", str a.cbsd_id)
      ∷ (codes "grantId", str a.grant_id)
      ∷ (codes "operationState", str (op_state a.state))
      ∷ [])

  abbrev pub relinquishment_request : Agent → List ℕ
  relinquishment_request a = obj (
      (codes "type", str (codes "RelinquishmentRequest"))
      ∷ (codes "cbsdId", str a.cbsd_id)
      ∷ (codes "grantId", str a.grant_id)
      ∷ [])

  abbrev pub deregistration_request : Agent → List ℕ
  deregistration_request a =
      obj
        ((codes "type", str (codes "DeregistrationRequest")) ∷ (codes "cbsdId", str a.cbsd_id) ∷ [])

  -- What a command sends; none when the agent's own guard refuses it.
  unfoldable pub request : CbsdConfig → Agent → Command → Option (List ℕ)
  request cfg a register =
      if not (is_unregistered a.state) then none else some (registration_request cfg)
  request cfg a grant =
      if not (is_registered a.state) then none else some (grant_request cfg a.cbsd_id)
  request cfg a heartbeat =
      if not (is_granted a.state) && not (is_authorized a.state)
      then none
      else some (heartbeat_request a)
  request cfg a relinquish = if is_empty a.grant_id then none else some (relinquishment_request a)
  request cfg a deregister = if is_empty a.cbsd_id then none else some (deregistration_request a)

  -- `try { v = std::stod(s); } catch (...) {}`
  abbrev stod_or : Double → List ℕ → Double
  stod_or v s = elim (stod s) [ none ↦ v | some w ↦ w ]

  -- What the answer to a command makes of the agent.
  unfoldable pub answered : Agent → Command → List ℕ → Agent
  answered a register resp =
      let id = Wire.get resp (codes "cbsdId") in
      if same_text (Wire.get resp (codes "responseCode")) (codes "0") || not (is_empty id)
      then record a { cbsd_id = id; state = registered }
      else record a { cbsd_id = id }
  answered a grant resp =
      let id = Wire.get resp (codes "grantId") in
      let a1 = record a {
        grant_id = id;
        grant_freq = stod_or a.grant_freq (Wire.get resp (codes "operationFrequencyMHz"));
        grant_bw = stod_or a.grant_bw (Wire.get resp (codes "operationBandwidthMHz"));
        max_eirp = stod_or a.max_eirp (Wire.get resp (codes "maxEirp"));
      } in
      if same_text (Wire.get resp (codes "responseCode")) (codes "0") || not (is_empty id)
      then record a1 { state = granted }
      else a1
  answered a heartbeat resp = record a { state = authorized }
  answered a relinquish resp = record a {
    grant_id = [];
    grant_freq = of_nat 0;
    grant_bw = of_nat 0;
    max_eirp = of_nat 0;
    state = registered;
  }
  answered a deregister resp = record a { cbsd_id = []; grant_id = []; state = unregistered }
