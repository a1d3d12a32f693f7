-- ===== src/Cbrs/Sas/Inversion.antt =====
-- What the stub made of a request whose type is known.
use g_5g_ims_simulators.Prelude.{ℕ, ◌+◌, ◌%◌, ◌^◌, ◌≡◌, refl, sym, ◌∙◌, true, false, List}
use g_5g_ims_simulators.Prelude.Texts.{codes, same_text, same_text_refl}
use g_5g_ims_simulators.Cbrs.Doubles.{Doubles}
use g_5g_ims_simulators.Cbrs.Wire.{get}
use g_5g_ims_simulators.Cbrs.Sas.{
  Sas, make_cbsd_id, make_grant_id, registration_response, grant_response, heartbeat_response,
  relinquishment_response, deregistration_response,
}
use g_5g_ims_simulators.Cbrs.Sas.Answers.{
  Made, error, registration, granting, heartbeat, relinquishment, deregistration,
}

-- A request has one type.
two_types : (x a b : List ℕ) → x ≡ a → x ≡ b → same_text a b ≡ false → ⊥
two_types x a b p q n = clash (rw (sym p ∙ q, same_text_refl b) at n)
  where
    clash : true ≡ false → ⊥
    clash z = cc

known_type : (x a : List ℕ) → same_text x a ≡ false → x ≡ a → ⊥
known_type x a n p = clash (rw (p, same_text_refl a) at n)
  where
    clash : true ≡ false → ⊥
    clash z = cc

module _ (d : Doubles) (s : Sas) (req : List ℕ) (s' : Sas) (resp : List ℕ) where
  pub Made-registration :
      get req (codes "type") ≡ codes "RegistrationRequest"
      → Made d s req s' resp
      → (s' ≡ record s { cbsd_counter = (s.cbsd_counter + 1) % 2 ^ 32 })
        × (resp ≡ registration_response (make_cbsd_id s))
  unfolding same_text
  Made-registration t (error u e r) =
      absurd (known_type (get req (codes "type")) (codes "RegistrationRequest") u.0 t)
  Made-registration t (registration q e r) = (e, r)
  Made-registration t (granting freq bw eirp q e r) = absurd (
      two_types (get req (codes "type")) (codes "RegistrationRequest") (codes "GrantRequest") t q
        refl)
  Made-registration t (heartbeat q e r) = absurd (
      two_types (get req (codes "type")) (codes "RegistrationRequest") (codes "HeartbeatRequest") t
        q refl)
  Made-registration t (relinquishment q e r) = absurd (
      two_types (get req (codes "type")) (codes "RegistrationRequest")
        (codes "RelinquishmentRequest") t q refl)
  Made-registration t (deregistration q e r) = absurd (
      two_types (get req (codes "type")) (codes "RegistrationRequest")
        (codes "DeregistrationRequest") t q refl)

  pub Made-granting :
      get req (codes "type") ≡ codes "GrantRequest"
      → Made d s req s' resp
      → (freq : d.Double) × (bw : d.Double) × (eirp : d.Double) × (s'
          ≡ record s { grant_counter = (s.grant_counter + 1) % 2 ^ 32 })
        × (resp ≡ grant_response d (get req (codes "cbsdId")) (make_grant_id s) freq bw eirp)
  unfolding same_text
  Made-granting t (error u e r) =
      absurd (known_type (get req (codes "type")) (codes "GrantRequest") u.1 t)
  Made-granting t (registration q e r) = absurd (
      two_types (get req (codes "type")) (codes "GrantRequest") (codes "RegistrationRequest") t q
        refl)
  Made-granting t (granting freq bw eirp q e r) = (freq, bw, eirp, e, r)
  Made-granting t (heartbeat q e r) = absurd (
      two_types (get req (codes "type")) (codes "GrantRequest") (codes "HeartbeatRequest") t q refl)
  Made-granting t (relinquishment q e r) = absurd (
      two_types (get req (codes "type")) (codes "GrantRequest") (codes "RelinquishmentRequest") t q
        refl)
  Made-granting t (deregistration q e r) = absurd (
      two_types (get req (codes "type")) (codes "GrantRequest") (codes "DeregistrationRequest") t q
        refl)

  pub Made-heartbeat :
      get req (codes "type") ≡ codes "HeartbeatRequest"
      → Made d s req s' resp
      → (s' ≡ s)
        × (resp ≡ heartbeat_response (get req (codes "cbsdId")) (get req (codes "grantId")))
  unfolding same_text
  Made-heartbeat t (error u e r) =
      absurd (known_type (get req (codes "type")) (codes "HeartbeatRequest") u.2 t)
  Made-heartbeat t (registration q e r) = absurd (
      two_types (get req (codes "type")) (codes "HeartbeatRequest") (codes "RegistrationRequest") t
        q refl)
  Made-heartbeat t (granting freq bw eirp q e r) = absurd (
      two_types (get req (codes "type")) (codes "HeartbeatRequest") (codes "GrantRequest") t q refl)
  Made-heartbeat t (heartbeat q e r) = (e, r)
  Made-heartbeat t (relinquishment q e r) = absurd (
      two_types (get req (codes "type")) (codes "HeartbeatRequest") (codes "RelinquishmentRequest")
        t q refl)
  Made-heartbeat t (deregistration q e r) = absurd (
      two_types (get req (codes "type")) (codes "HeartbeatRequest") (codes "DeregistrationRequest")
        t q refl)

  pub Made-relinquishment :
      get req (codes "type") ≡ codes "RelinquishmentRequest"
      → Made d s req s' resp
      → (s' ≡ s)
        × (resp ≡ relinquishment_response (get req (codes "cbsdId")) (get req (codes "grantId")))
  unfolding same_text
  Made-relinquishment t (error u e r) =
      absurd (known_type (get req (codes "type")) (codes "RelinquishmentRequest") u.3 t)
  Made-relinquishment t (registration q e r) = absurd (
      two_types (get req (codes "type")) (codes "RelinquishmentRequest")
        (codes "RegistrationRequest") t q refl)
  Made-relinquishment t (granting freq bw eirp q e r) = absurd (
      two_types (get req (codes "type")) (codes "RelinquishmentRequest") (codes "GrantRequest") t q
        refl)
  Made-relinquishment t (heartbeat q e r) = absurd (
      two_types (get req (codes "type")) (codes "RelinquishmentRequest") (codes "HeartbeatRequest")
        t q refl)
  Made-relinquishment t (relinquishment q e r) = (e, r)
  Made-relinquishment t (deregistration q e r) = absurd (
      two_types (get req (codes "type")) (codes "RelinquishmentRequest")
        (codes "DeregistrationRequest") t q refl)

  pub Made-deregistration :
      get req (codes "type") ≡ codes "DeregistrationRequest"
      → Made d s req s' resp
      → (s' ≡ s) × (resp ≡ deregistration_response (get req (codes "cbsdId")))
  unfolding same_text
  Made-deregistration t (error u e r) =
      absurd (known_type (get req (codes "type")) (codes "DeregistrationRequest") u.4 t)
  Made-deregistration t (registration q e r) = absurd (
      two_types (get req (codes "type")) (codes "DeregistrationRequest")
        (codes "RegistrationRequest") t q refl)
  Made-deregistration t (granting freq bw eirp q e r) = absurd (
      two_types (get req (codes "type")) (codes "DeregistrationRequest") (codes "GrantRequest") t q
        refl)
  Made-deregistration t (heartbeat q e r) = absurd (
      two_types (get req (codes "type")) (codes "DeregistrationRequest") (codes "HeartbeatRequest")
        t q refl)
  Made-deregistration t (relinquishment q e r) = absurd (
      two_types (get req (codes "type")) (codes "DeregistrationRequest")
        (codes "RelinquishmentRequest") t q refl)
  Made-deregistration t (deregistration q e r) = (e, r)
