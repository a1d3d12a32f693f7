-- ===== src/Cbrs/System/Agreement/Steps.antt =====
-- Each command of the agent keeps agent and proxy in the same state.
use g_5g_ims_simulators.Prelude.{
  ℕ, ◌+◌, ◌%◌, ◌^◌, ◌<◌, ◌≤◌, ◌≡◌, ◌≢◌, refl, sym, ◌∙◌, ap, ap₂, subst, ◌⊎◌, inl, inr, false,
  Option, none, some, List, [], ◌∷◌, length, arith, All, if◌then◌else◌,
}
use g_5g_ims_simulators.Prelude.Texts.{codes, same_text}
use g_5g_ims_simulators.Cbrs.Doubles.{Doubles}
use g_5g_ims_simulators.Cbrs.Wire
use g_5g_ims_simulators.Cbrs.Wire.{deliver, make_frame, recv_frame}
use g_5g_ims_simulators.Cbrs.SpectrumState.{unregistered, registered, granted, authorized}
use g_5g_ims_simulators.Cbrs.Registry.{CbsdInfo, get, set_state, set_grant, clear_grant}
use g_5g_ims_simulators.Cbrs.Sas.{
  Sas, make_cbsd_id, make_grant_id, registration_response, grant_response, heartbeat_response,
  relinquishment_response,
}
use g_5g_ims_simulators.Cbrs.Sas.Answers.{type_of_grant}
use g_5g_ims_simulators.Cbrs.Sas.Responses.{
  type_of_registration, type_of_heartbeat, type_of_relinquishment, type_of_deregistration,
}
use g_5g_ims_simulators.Cbrs.Proxy.{info_of, update, rejection, new_info, is_empty}
use g_5g_ims_simulators.Cbrs.Agent.{
  Command, Agent, CbsdConfig, answered, registration_request, grant_request, heartbeat_request,
  relinquishment_request, deregistration_request,
}
use g_5g_ims_simulators.Cbrs.System.{always_in_step, up, closed, World, thread, Counts, exchange}
use g_5g_ims_simulators.Cbrs.System.Responses.{cbsd_id_of, cbsd_id_of-IsPlain}
use g_5g_ims_simulators.Cbrs.System.Frame.{change_self, upsert_self}
use g_5g_ims_simulators.Cbrs.System.Agreement.{
  Below, Stranger, Strangers-Grow, Known, fresh, known, GoodLink, Good, IsGrantId,
}
use g_5g_ims_simulators.Cbrs.Wire.Fields.{IsPlain}
use g_5g_ims_simulators.Cbrs.Sas.Responses.{length-int_string}
use g_5g_ims_simulators.Cbrs.System.Responses.{
  cbsd_id_of_injective, registration_response-cbsd_id, registration_response-code,
  grant_response-code, grant_response-grant_id, heartbeat_response-code,
  relinquishment_response-code, grant_id-IsPlain,
}
use g_5g_ims_simulators.Cbrs.System.Requests
use g_5g_ims_simulators.Cbrs.Sas.Inversion.{
  Made-registration, Made-granting, Made-heartbeat, Made-relinquishment, Made-deregistration,
}
use g_5g_ims_simulators.Cbrs.System.Agreement.Commands.{exchange-Good}

field :
    (resp : List ℕ) (k v : List ℕ) {x : List ℕ} → resp ≡ x → Wire.get x k ≡ v → Wire.get resp k ≡ v
field resp k v r e = ap (λ (x : List ℕ). Wire.get x k) r ∙ e

Strangers-new :
    (o : Option Sas) (s : Sas) (id : List ℕ) (xs : List (List ℕ))
    → o ≡ some s
    → s.cbsd_counter < 2 ^ 31
    → All (Stranger o id) xs
    → All
        (Stranger
          (some (record s { cbsd_counter = (s.cbsd_counter + 1) % 2 ^ 32 }))
          (cbsd_id_of s.cbsd_counter))
        xs
Strangers-new o s id [] e c p = tt
Strangers-new o s id (x ∷ xs) e c p = (one p.0, Strangers-new o s id xs e c p.1)
  where
    one :
        Stranger o id x
        → Stranger
            (some (record s { cbsd_counter = (s.cbsd_counter + 1) % 2 ^ 32 }))
            (cbsd_id_of s.cbsd_counter)
            x
    one (inl z) = inl z
    one (inr (m, b, z, ne)) =
        let b' = subst (Below m) e b in
        inr (
          m,
          omega arith,
          z,
          λ y.
              absurd
                (omega (arith, cbsd_id_of_injective m s.cbsd_counter (omega arith) c (sym z ∙ y))),
        )

module _ (d : Doubles) (cfg : CbsdConfig d) (w : World d (always_in_step d)) (a : Agent d)
    (id : List ℕ) where
  -- What the thread reads of a CBSD that it knows.
  pub info_of_known :
      (n : ℕ) (i : CbsdInfo d.Double)
      → id ≡ cbsd_id_of n
      → get id w.registry ≡ some i
      → info_of d (thread d (always_in_step d) w id) ≡ i
  unfolding info_of
  info_of_known n i e there = rw (there, not_empty)
    where
      not_empty : is_empty id ≡ false
      not_empty = rw e

  -- What the thread and the agent are to be after a response.
  After : Command → List ℕ → Option Sas → List ℕ → Type 0
  After cmd req o' resp =
      let (t', open_yet) = update d (thread d (always_in_step d) w id) req resp in
      Counts o'
      → GoodLink d o' t'.registry w.others (
          if open_yet
          then up (answered d a cmd resp) t'.my_cbsd_id
          else closed (answered d a cmd resp))

  length_id : (n : ℕ) → id ≡ cbsd_id_of n → length id ≤ 2 ^ 30 + 20
  length_id n e = omega (arith, ap (λ (x : List ℕ). length x) e, length-int_string n)

  IsPlain-id : (n : ℕ) → id ≡ cbsd_id_of n → All IsPlain id
  IsPlain-id n e = rw e (cbsd_id_of-IsPlain n)

  module _ (c : Counts w.sas) (xs : All (Stranger w.sas id) w.others) where
    registered_now :
        (s s' : Sas) (resp : List ℕ)
        → id ≡ []
        → a.grant_id ≡ []
        → w.sas ≡ some s
        → s' ≡ record s { cbsd_counter = (s.cbsd_counter + 1) % 2 ^ 32 }
        → resp ≡ registration_response (make_cbsd_id s)
        → After Command.register (registration_request d cfg) (some s') resp
    unfolding After update answered same_text
    registered_now s s' resp e1 e4 p e r =
        let new_id = make_cbsd_id s in
        let plain = cbsd_id_of-IsPlain s.cbsd_counter in
        rw
          (
            e,
            field resp (codes "type") (codes "RegistrationResponse") r
                (type_of_registration new_id),
            field resp (codes "responseCode") (codes "0") r
                (registration_response-code new_id plain),
            field resp (codes "cbsdId") new_id r (registration_response-cbsd_id new_id plain),
          )
          (λ c'. (
            known s.cbsd_counter (new_info d new_id (registration_request d cfg))
                (below c' (subst Counts p c)) refl refl
                (upsert_self (new_info d new_id (registration_request d cfg)) w.registry) refl
                (λ z. cc) (sym e4) (inl e4),
            Strangers-new w.sas s id w.others p (below c' (subst Counts p c)).0 xs,
          ))
      where
        below :
            (s.cbsd_counter + 1) % 2 ^ 32 ≤ 2 ^ 31
            → s.cbsd_counter ≤ 2 ^ 31
            → Below s.cbsd_counter
                (some (record s { cbsd_counter = (s.cbsd_counter + 1) % 2 ^ 32 }))
        below c' k = omega arith

    pub register-Good :
        Known d w.sas w.registry a id
        → length (registration_request d cfg) < 2 ^ 32
        → a.state ≡ unregistered
        → Counts
            (exchange d (always_in_step d) w a id Command.register (registration_request d cfg)).sas
        → Good d
            (exchange d (always_in_step d) w a id Command.register (registration_request d cfg))
    unfolding After
    register-Good (known n i b e1 e2 e3 e4 e5 e6 e7) short st = absurd (e5 st)
    register-Good (fresh e1 e2 e3 e4) short st =
        exchange-Good d w a id Command.register (registration_request d cfg) short passes
          (λ s s' resp p m.
            let (e, r) =
              Made-registration d s (registration_request d cfg) s' resp
                (Requests.type_of_registration_request d cfg) m in
            registered_now s s' resp e1 e4 p e r)
      where
        passes :
            rejection
              (Wire.get (registration_request d cfg) (codes "type"))
              (info_of d (thread d (always_in_step d) w id)).state
            ≡ none
        passes =
            rw (Requests.type_of_registration_request d cfg) (unfold rejection same_text in refl)

    module _ (n : ℕ) (i : CbsdInfo d.Double) (b : Below n w.sas) (e1 : id ≡ cbsd_id_of n)
        (e2 : a.cbsd_id ≡ id) (e3 : get id w.registry ≡ some i) (e4 : i.state ≡ a.state)
        (e5 : a.state ≢ unregistered) (e6 : i.grant_id ≡ a.grant_id)
        (e7 : IsGrantId a.grant_id) where
      IsPlain-grant_id : All IsPlain a.grant_id
      IsPlain-grant_id = of e7
        where
          of : IsGrantId a.grant_id → All IsPlain a.grant_id
          of (inl z) = rw z tt
          of (inr (m, z)) = rw z (grant_id-IsPlain m)

      length_grant_id : length a.grant_id ≤ 2 ^ 30 + 20
      length_grant_id = of e7
        where
          of : IsGrantId a.grant_id → length a.grant_id ≤ 2 ^ 30 + 20
          of (inl z) = omega (arith, ap (λ (x : List ℕ). length x) z)
          of (inr (m, z)) = omega (arith, ap (λ (x : List ℕ). length x) z, length-int_string m)

      -- The state that the guard reads is the agent's.
      state_here : (info_of d (thread d (always_in_step d) w id)).state ≡ a.state
      state_here = ap (λ (x : CbsdInfo d.Double). x.state) (info_of_known n i e1 e3) ∙ e4

      granted_now :
          (s s' : Sas) (resp : List ℕ) (freq bw eirp : d.Double)
          → w.sas ≡ some s
          → s' ≡ record s { grant_counter = (s.grant_counter + 1) % 2 ^ 32 }
          → resp ≡ grant_response d id (make_grant_id s) freq bw eirp
          → After Command.grant (grant_request d cfg id) (some s') resp
      unfolding After update answered same_text set_grant
      granted_now s s' resp freq bw eirp p e r =
          let g = make_grant_id s in
          let q = grant_id-IsPlain s.grant_counter in
          rw
            (
              e,
              field resp (codes "type") (codes "GrantResponse") r
                  (type_of_grant d id g freq bw eirp),
              field resp (codes "responseCode") (codes "0") r
                  (grant_response-code d id g (IsPlain-id n e1) q freq bw eirp),
              field resp (codes "grantId") g r
                  (grant_response-grant_id d id g (IsPlain-id n e1) q freq bw eirp),
            )
            (λ c'. (
              known n _ (subst (Below n) p b) e1 e2 (change_self _ id w.registry i e3) refl
                  (λ z. cc) refl (inr (s.grant_counter, refl)),
              Strangers-Grow w.sas
                  (some (record s { grant_counter = (s.grant_counter + 1) % 2 ^ 32 })) id w.others c
                  c' (rw p (inl refl)) xs,
            ))

      pub grant-Good :
          a.state ≡ registered
          → Counts (exchange d (always_in_step d) w a id Command.grant (grant_request d cfg id)).sas
          → Good d (exchange d (always_in_step d) w a id Command.grant (grant_request d cfg id))
      unfolding After
      grant-Good st =
          exchange-Good d w a id Command.grant (grant_request d cfg id)
            (omega (arith, Requests.length-grant_request d cfg id, length_id n e1)) passes
            (λ s s' resp p m.
              let (freq, bw, eirp, e, r) =
                Made-granting d s (grant_request d cfg id) s' resp
                  (Requests.type_of_grant_request d cfg id) m in
              granted_now s s' resp freq bw eirp p e (
                r
                ∙ ap (λ (x : List ℕ). grant_response d x (make_grant_id s) freq bw eirp)
                    (Requests.grant_request-cbsd_id d cfg id (IsPlain-id n e1))))
        where
          passes :
              rejection
                (Wire.get (grant_request d cfg id) (codes "type"))
                (info_of d (thread d (always_in_step d) w id)).state
              ≡ none
          passes =
              rw (Requests.type_of_grant_request d cfg id, state_here, st)
                (unfold rejection same_text in refl)

      authorized_now :
          (s : Sas) (resp : List ℕ)
          → w.sas ≡ some s
          → resp ≡ heartbeat_response id a.grant_id
          → After Command.heartbeat (heartbeat_request d a) (some s) resp
      unfolding After update answered same_text set_state
      authorized_now s resp p r =
          rw
            (
              field resp (codes "type") (codes "HeartbeatResponse") r
                  (type_of_heartbeat id a.grant_id),
              field resp (codes "responseCode") (codes "0") r
                  (heartbeat_response-code id a.grant_id (IsPlain-id n e1) IsPlain-grant_id),
            )
            (λ c'. (
              known n _ (subst (Below n) p b) e1 e2 (change_self _ id w.registry i e3) refl
                  (λ z. cc) e6 e7,
              Strangers-Grow w.sas (some s) id w.others c c' (rw p (inl refl)) xs,
            ))

      pub heartbeat-Good :
          (a.state ≡ granted) ⊎ (a.state ≡ authorized)
          → Counts
              (exchange d (always_in_step d) w a id Command.heartbeat (heartbeat_request d a)).sas
          → Good d (exchange d (always_in_step d) w a id Command.heartbeat (heartbeat_request d a))
      unfolding After
      heartbeat-Good st =
          exchange-Good d w a id Command.heartbeat (heartbeat_request d a)
            (omega (
              arith,
              Requests.length-heartbeat_request d a,
              length_grant_id,
              length_id n e1,
              ap (λ (x : List ℕ). length x) e2,
            ))
            (passes st)
            (λ s s' resp p m.
              let (e, r) =
                Made-heartbeat d s (heartbeat_request d a) s' resp
                  (Requests.type_of_heartbeat_request d a) m in
              rw e (
                authorized_now s resp p (
                  r
                  ∙ ap₂ heartbeat_response
                      (Requests.heartbeat_request-cbsd_id d a plain_cbsd_id IsPlain-grant_id ∙ e2)
                      (Requests.heartbeat_request-grant_id d a plain_cbsd_id IsPlain-grant_id))))
        where
          plain_cbsd_id : All IsPlain a.cbsd_id
          plain_cbsd_id = rw e2 (IsPlain-id n e1)

          passes :
              (a.state ≡ granted) ⊎ (a.state ≡ authorized)
              → rejection
                  (Wire.get (heartbeat_request d a) (codes "type"))
                  (info_of d (thread d (always_in_step d) w id)).state
                ≡ none
          passes (inl z) =
              rw (Requests.type_of_heartbeat_request d a, state_here, z)
                (unfold rejection same_text in refl)
          passes (inr z) =
              rw (Requests.type_of_heartbeat_request d a, state_here, z)
                (unfold rejection same_text in refl)

      relinquished_now :
          (s : Sas) (resp : List ℕ)
          → w.sas ≡ some s
          → resp ≡ relinquishment_response id a.grant_id
          → After Command.relinquish (relinquishment_request d a) (some s) resp
      unfolding After update answered same_text clear_grant
      relinquished_now s resp p r =
          rw
            (
              field resp (codes "type") (codes "RelinquishmentResponse") r
                  (type_of_relinquishment id a.grant_id),
              field resp (codes "responseCode") (codes "0") r
                  (relinquishment_response-code id a.grant_id (IsPlain-id n e1) IsPlain-grant_id),
            )
            (λ c'. (
              known n _ (subst (Below n) p b) e1 e2 (change_self _ id w.registry i e3) refl
                  (λ z. cc) refl (inl refl),
              Strangers-Grow w.sas (some s) id w.others c c' (rw p (inl refl)) xs,
            ))

      pub relinquish-Good :
          Counts
            (exchange d
              (always_in_step d)
              w
              a
              id
              Command.relinquish
              (relinquishment_request d a)).sas
          → Good d
              (exchange d (always_in_step d) w a id Command.relinquish (relinquishment_request d a))
      unfolding After
      relinquish-Good =
          exchange-Good d w a id Command.relinquish (relinquishment_request d a)
            (omega (
              arith,
              Requests.length-relinquishment_request d a,
              length_grant_id,
              length_id n e1,
              ap (λ (x : List ℕ). length x) e2,
            ))
            passes
            (λ s s' resp p m.
              let (e, r) =
                Made-relinquishment d s (relinquishment_request d a) s' resp
                  (Requests.type_of_relinquishment_request d a) m in
              rw e (
                relinquished_now s resp p (
                  r
                  ∙ ap₂ relinquishment_response
                      (Requests.relinquishment_request-cbsd_id d a plain_cbsd_id IsPlain-grant_id
                        ∙ e2)
                      (Requests.relinquishment_request-grant_id d a plain_cbsd_id
                        IsPlain-grant_id))))
        where
          plain_cbsd_id : All IsPlain a.cbsd_id
          plain_cbsd_id = rw e2 (IsPlain-id n e1)

          passes :
              rejection
                (Wire.get (relinquishment_request d a) (codes "type"))
                (info_of d (thread d (always_in_step d) w id)).state
              ≡ none
          passes =
              rw (Requests.type_of_relinquishment_request d a) (unfold rejection same_text in refl)

      pub deregister-Good :
          Counts
            (exchange d
              (always_in_step d)
              w
              a
              id
              Command.deregister
              (deregistration_request d a)).sas
          → Good d
              (exchange d (always_in_step d) w a id Command.deregister (deregistration_request d a))
      unfolding update same_text answered
      deregister-Good =
          exchange-Good d w a id Command.deregister (deregistration_request d a)
            (omega (
              arith,
              Requests.length-deregistration_request d a,
              length_id n e1,
              ap (λ (x : List ℕ). length x) e2,
            ))
            passes
            (λ s s' resp p m.
              let (e, r) =
                Made-deregistration d s (deregistration_request d a) s' resp
                  (Requests.type_of_deregistration_request d a) m in
              rw
                (field resp (codes "type") (codes "DeregistrationResponse") r
                  (type_of_deregistration (Wire.get (deregistration_request d a) (codes "cbsdId"))))
                (λ c'. (refl, refl)))
        where
          passes :
              rejection
                (Wire.get (deregistration_request d a) (codes "type"))
                (info_of d (thread d (always_in_step d) w id)).state
              ≡ none
          passes =
              rw (Requests.type_of_deregistration_request d a) (unfold rejection same_text in refl)
