-- ===== src/Cbrs/System/Requests.antt =====
-- The agent's requests: their types, the fields that the stub reads, and their lengths.
use g_5g_ims_simulators.Prelude.{
  ℕ, ◌+◌, ◌≤◌, ◌≡◌, refl, inl, inr, Bool-cases, List, [], ◌∷◌, arith, length, All,
}
use g_5g_ims_simulators.Prelude.Texts.{codes, same_text}
use g_5g_ims_simulators.Cbrs.Doubles.{Doubles}
use g_5g_ims_simulators.Cbrs.Wire.{str, get, after, strip, token, to_quote}
use g_5g_ims_simulators.Cbrs.Wire.Fields.{IsPlain, IsName}
use g_5g_ims_simulators.Cbrs.Wire.Lengths.{length-obj, length-str}
use g_5g_ims_simulators.Cbrs.Wire.Objects.{
  Value, text, number, flat, IsClean, first, or_empty, get-obj,
}
use g_5g_ims_simulators.Cbrs.SpectrumState.{
  SpectrumState, unregistered, registered, granted, authorized,
}
use g_5g_ims_simulators.Cbrs.Agent.{
  Agent, CbsdConfig, registration_request, grant_request, heartbeat_request, relinquishment_request,
  deregistration_request, eirp_limit, op_state,
}

module _ (d : Doubles) where
  pub type_of_registration_request :
      (cfg : CbsdConfig d)
      → get (registration_request d cfg) (codes "type") ≡ codes "RegistrationRequest"
  unfolding get after strip token to_quote
  type_of_registration_request cfg = refl

  pub type_of_grant_request :
      (cfg : CbsdConfig d) (id : List ℕ)
      → get (grant_request d cfg id) (codes "type") ≡ codes "GrantRequest"
  unfolding get after strip token to_quote
  type_of_grant_request cfg id = refl

  pub type_of_heartbeat_request :
      (a : Agent d) → get (heartbeat_request d a) (codes "type") ≡ codes "HeartbeatRequest"
  unfolding get after strip token to_quote
  type_of_heartbeat_request a = refl

  pub type_of_relinquishment_request :
      (a : Agent d)
      → get (relinquishment_request d a) (codes "type") ≡ codes "RelinquishmentRequest"
  unfolding get after strip token to_quote
  type_of_relinquishment_request a = refl

  pub type_of_deregistration_request :
      (a : Agent d)
      → get (deregistration_request d a) (codes "type") ≡ codes "DeregistrationRequest"
  unfolding get after strip token to_quote
  type_of_deregistration_request a = refl

  eirp_limit-IsPlain : (cfg : CbsdConfig d) → All IsPlain (eirp_limit d cfg)
  eirp_limit-IsPlain cfg = elim (Bool-cases (same_text cfg.category (codes "A"))) [
    | inl e ↦ rw e (omega arith)
    | inr e ↦ rw e (omega arith)
  ]

  op_state-IsPlain : (s : SpectrumState) → All IsPlain (op_state d s)
  op_state-IsPlain unregistered = omega arith
  op_state-IsPlain registered = omega arith
  op_state-IsPlain granted = omega arith
  op_state-IsPlain authorized = omega arith

  module _ (cfg : CbsdConfig d) (id : List ℕ) (p : All IsPlain id) where
    grant_fields : List (List ℕ × Value)
    grant_fields =
        (codes "type", flat (text (codes "GrantRequest")))
        ∷ (codes "cbsdId", flat (text id))
        ∷ (codes "operationFrequencyMHz", flat (number (d.flt cfg.desired_freq_mhz)))
        ∷ (codes "operationBandwidthMHz", flat (number (d.flt cfg.desired_bw_mhz)))
        ∷ (codes "maxEirp", flat (number (eirp_limit d cfg)))
        ∷ []

    grant_fields-IsClean : All IsClean grant_fields
    unfolding grant_fields
    grant_fields-IsClean = (
      omega arith,
      (
        (omega arith, p),
        (
          (omega arith, d.flt-IsPlain cfg.desired_freq_mhz),
          (
            (omega arith, d.flt-IsPlain cfg.desired_bw_mhz),
            ((omega arith, eirp_limit-IsPlain cfg), tt),
          ),
        ),
      ),
    )

    grant_field :
        (k : List ℕ) → IsName k → get (grant_request d cfg id) k ≡ or_empty (first k grant_fields)
    unfolding grant_fields
    grant_field k named =
        get-obj k grant_fields named grant_fields-IsClean (tt, (tt, (tt, (tt, (tt, tt)))))

    pub grant_request-cbsd_id : get (grant_request d cfg id) (codes "cbsdId") ≡ id
    unfolding same_text grant_fields
    grant_request-cbsd_id = grant_field (codes "cbsdId") (ground arith)

    pub grant_request-frequency :
        get (grant_request d cfg id) (codes "operationFrequencyMHz") ≡ d.flt cfg.desired_freq_mhz
    unfolding same_text grant_fields
    grant_request-frequency = grant_field (codes "operationFrequencyMHz") (ground arith)

    pub grant_request-bandwidth :
        get (grant_request d cfg id) (codes "operationBandwidthMHz") ≡ d.flt cfg.desired_bw_mhz
    unfolding same_text grant_fields
    grant_request-bandwidth = grant_field (codes "operationBandwidthMHz") (ground arith)

    pub grant_request-eirp : get (grant_request d cfg id) (codes "maxEirp") ≡ eirp_limit d cfg
    unfolding same_text grant_fields
    grant_request-eirp = grant_field (codes "maxEirp") (ground arith)

  module _ (a : Agent d) (p : All IsPlain a.cbsd_id) (q : All IsPlain a.grant_id) where
    pub heartbeat_request-cbsd_id : get (heartbeat_request d a) (codes "cbsdId") ≡ a.cbsd_id
    unfolding same_text
    heartbeat_request-cbsd_id =
        get-obj (codes "cbsdId")
          ((codes "type", flat (text (codes "HeartbeatRequest")))
            ∷ (codes "cbsdId", flat (text a.cbsd_id))
            ∷ (codes "grantId", flat (text a.grant_id))
            ∷ (codes "operationState", flat (text (op_state d a.state)))
            ∷ [])
          (ground arith)
          (
            omega arith,
            ((omega arith, p), ((omega arith, q), ((omega arith, op_state-IsPlain a.state), tt))),
          )
          (tt, (tt, (tt, (tt, tt))))

    pub heartbeat_request-grant_id : get (heartbeat_request d a) (codes "grantId") ≡ a.grant_id
    unfolding same_text
    heartbeat_request-grant_id =
        get-obj (codes "grantId")
          ((codes "type", flat (text (codes "HeartbeatRequest")))
            ∷ (codes "cbsdId", flat (text a.cbsd_id))
            ∷ (codes "grantId", flat (text a.grant_id))
            ∷ (codes "operationState", flat (text (op_state d a.state)))
            ∷ [])
          (ground arith)
          (
            omega arith,
            ((omega arith, p), ((omega arith, q), ((omega arith, op_state-IsPlain a.state), tt))),
          )
          (tt, (tt, (tt, (tt, tt))))

    pub relinquishment_request-cbsd_id :
        get (relinquishment_request d a) (codes "cbsdId") ≡ a.cbsd_id
    unfolding same_text
    relinquishment_request-cbsd_id =
        get-obj (codes "cbsdId")
          ((codes "type", flat (text (codes "RelinquishmentRequest")))
            ∷ (codes "cbsdId", flat (text a.cbsd_id))
            ∷ (codes "grantId", flat (text a.grant_id))
            ∷ [])
          (ground arith) (omega arith, ((omega arith, p), ((omega arith, q), tt)))
          (tt, (tt, (tt, tt)))

    pub relinquishment_request-grant_id :
        get (relinquishment_request d a) (codes "grantId") ≡ a.grant_id
    unfolding same_text
    relinquishment_request-grant_id =
        get-obj (codes "grantId")
          ((codes "type", flat (text (codes "RelinquishmentRequest")))
            ∷ (codes "cbsdId", flat (text a.cbsd_id))
            ∷ (codes "grantId", flat (text a.grant_id))
            ∷ [])
          (ground arith) (omega arith, ((omega arith, p), ((omega arith, q), tt)))
          (tt, (tt, (tt, tt)))

  length-eirp_limit : (cfg : CbsdConfig d) → length (eirp_limit d cfg) ≤ 2
  length-eirp_limit cfg = elim (Bool-cases (same_text cfg.category (codes "A"))) [
    | inl e ↦ rw e (omega arith)
    | inr e ↦ rw e (omega arith)
  ]

  length-op_state : (s : SpectrumState) → length (op_state d s) ≤ 10
  length-op_state unregistered = omega arith
  length-op_state registered = omega arith
  length-op_state granted = omega arith
  length-op_state authorized = omega arith

  pub length-grant_request :
      (cfg : CbsdConfig d) (id : List ℕ) → length (grant_request d cfg id) ≤ length id + 300
  length-grant_request cfg id = omega (
    arith,
    length-obj (
        (codes "type", str (codes "GrantRequest"))
        ∷ (codes "cbsdId", str id)
        ∷ (codes "operationFrequencyMHz", d.flt cfg.desired_freq_mhz)
        ∷ (codes "operationBandwidthMHz", d.flt cfg.desired_bw_mhz)
        ∷ (codes "maxEirp", eirp_limit d cfg)
        ∷ []),
    length-str id,
    d.flt_short cfg.desired_freq_mhz,
    d.flt_short cfg.desired_bw_mhz,
    length-eirp_limit cfg,
  )

  pub length-heartbeat_request :
      (a : Agent d) → length (heartbeat_request d a) ≤ length a.cbsd_id + length a.grant_id + 200
  length-heartbeat_request a = omega (
    arith,
    length-obj (
        (codes "type", str (codes "HeartbeatRequest"))
        ∷ (codes "cbsdId", str a.cbsd_id)
        ∷ (codes "grantId", str a.grant_id)
        ∷ (codes "operationState", str (op_state d a.state))
        ∷ []),
    length-str a.cbsd_id,
    length-str a.grant_id,
    length-str (op_state d a.state),
    length-op_state a.state,
  )

  pub length-relinquishment_request :
      (a : Agent d)
      → length (relinquishment_request d a) ≤ length a.cbsd_id + length a.grant_id + 200
  length-relinquishment_request a = omega (
    arith,
    length-obj (
        (codes "type", str (codes "RelinquishmentRequest"))
        ∷ (codes "cbsdId", str a.cbsd_id)
        ∷ (codes "grantId", str a.grant_id)
        ∷ []),
    length-str a.cbsd_id,
    length-str a.grant_id,
  )

  pub length-deregistration_request :
      (a : Agent d) → length (deregistration_request d a) ≤ length a.cbsd_id + 200
  length-deregistration_request a = omega (
    arith,
    length-obj (
        (codes "type", str (codes "DeregistrationRequest")) ∷ (codes "cbsdId", str a.cbsd_id) ∷ []),
    length-str a.cbsd_id,
  )
