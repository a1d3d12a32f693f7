-- ===== src/Ims/Scscf/Keyed.antt =====
-- ims/scscf_node.cpp: the keys of the registry and of the calls.
use g_5g_ims_simulators.Prelude.{
  ℕ, ◌≡◌, subst, refl, Bool, true, false, Bool-cases, inl, inr, Option, none, some, Option-cases,
  List, [], ◌∷◌, ◌==◌, if◌then◌else◌,
}
use g_5g_ims_simulators.Prelude.Texts
use g_5g_ims_simulators.Prelude.Texts.{same_text, same_text_eq, find-insert, find-erase}
use g_5g_ims_simulators.Lte.Tlv.{Outcome, ok, out_of_bounds, out_of_fuel, ◌>>=◌, new_reader, parse}
use g_5g_ims_simulators.Ims.Sip.{
  first_str, tag_to, tag_call_id, sip_register, sip_invite, sip_ack, sip_200_ok, sip_bye,
  sip_cancel,
}
use g_5g_ims_simulators.Ims.Scscf
use g_5g_ims_simulators.Ims.Fields.{Fields, no_fields}

abbrev pub KeyedCalls : List (List ℕ × Scscf.CallState) → Type 0
KeyedCalls calls =
    (k : List ℕ) (cs : Scscf.CallState) → Texts.find k calls ≡ some cs → cs.call_id ≡ k

abbrev pub KeyedRegistry : List (List ℕ × Scscf.ImsSubscriber) → Type 0
KeyedRegistry registry =
    (k : List ℕ) (sub : Scscf.ImsSubscriber)
    → Texts.find k registry ≡ some sub
    → (sub.impu ≡ k) × (sub.registered ≡ true)

-- A call is found under its own identifier, and a subscriber under its own identity, registered.
abbrev pub IsKeyed : Scscf.ScscfNode → Type 0
IsKeyed s = KeyedCalls s.calls × KeyedRegistry s.registry

-- What holds of the result, if there is one.
abbrev pub Ends {ℓ} : {X : Type 0} → (X → Type ℓ) → Outcome X → Type ℓ
Ends P (ok x) = P x
Ends P out_of_bounds = Unit
Ends P out_of_fuel = Unit

Ends-bind :
    {X Y : Type 0} (P : Y → Type 0) (o : Outcome X) (f : X → Outcome Y)
    → ((x : X) → Ends P (f x))
    → Ends P (o >>= f)
Ends-bind P (ok x) f h = h x
Ends-bind P out_of_bounds f h = tt
Ends-bind P out_of_fuel f h = tt

some_eq : {V : Type 0} (x y : V) → some x ≡ some y → x ≡ y
some_eq x y e = cc

inserted :
    {V : Type 0} (Q : List ℕ → V → Type 0) (k : List ℕ) (v : V) (m : List (List ℕ × V))
    → Q k v
    → ((j : List ℕ) (w : V) → Texts.find j m ≡ some w → Q j w)
    → (j : List ℕ) (w : V) → Texts.find j (Texts.insert k v m) ≡ some w
    → Q j w
inserted Q k v m q h j w e = elim (Bool-cases (same_text k j)) [
  | inl t ↦
      subst (λ x. Q j x) (some_eq v w (rw (find-insert k j v m, t) at e))
        (subst (λ x. Q x v) (same_text_eq k j t) q)
  | inr f ↦ h j w (rw (find-insert k j v m, f) at e)
]

KeyedCalls-erase :
    (k : List ℕ) (m : List (List ℕ × Scscf.CallState)) → KeyedCalls m → KeyedCalls (Texts.erase k m)
KeyedCalls-erase k m h j w e = elim (Bool-cases (same_text k j)) [
  | inl t ↦ absurd (no (rw (find-erase k j m, t) at e))
  | inr f ↦ h j w (rw (find-erase k j m, f) at e)
]
  where
    no : none ≡ some w → ⊥
    no z = cc

KeyedCalls-insert :
    (k : List ℕ) (cs : Scscf.CallState) (m : List (List ℕ × Scscf.CallState))
    → cs.call_id ≡ k
    → KeyedCalls m
    → KeyedCalls (Texts.insert k cs m)
KeyedCalls-insert k cs m e h = inserted (λ j w. w.call_id ≡ j) k cs m e h

abbrev Kept : Outcome (Scscf.ScscfNode × List (List ℕ)) → Type 0
Kept o = Ends (λ r. IsKeyed r.0) o

module _ (s : Scscf.ScscfNode) (h : IsKeyed s) (payload : List ℕ) where
  hold-IsKeyed :
      (call_id : List ℕ) (cs : Scscf.CallState)
      → cs.call_id ≡ call_id
      → IsKeyed (Scscf.hold s payload call_id cs).0
  unfolding Scscf.hold Scscf.send_sip_response
  hold-IsKeyed call_id cs e =
      (KeyedCalls-insert call_id (record cs { on_hold = true }) s.calls e h.0, h.1)

  resume-IsKeyed :
      (call_id : List ℕ) (cs : Scscf.CallState)
      → cs.call_id ≡ call_id
      → IsKeyed (Scscf.resume s payload call_id cs).0
  unfolding Scscf.resume Scscf.send_sip_response
  resume-IsKeyed call_id cs e =
      (KeyedCalls-insert call_id (record cs { on_hold = false }) s.calls e h.0, h.1)

  conference-IsKeyed :
      (to_impu call_id : List ℕ) (cs : Scscf.CallState)
      → cs.call_id ≡ call_id
      → IsKeyed (Scscf.conference s to_impu call_id cs).0
  unfolding Scscf.conference Scscf.send_sip_response
  conference-IsKeyed [] call_id cs e =
      (KeyedCalls-insert call_id (record cs { in_conference = true }) s.calls e h.0, h.1)
  conference-IsKeyed (c ∷ x) call_id cs e =
      (KeyedCalls-insert call_id (record cs { in_conference = true }) s.calls e h.0, h.1)

  switch_video-IsKeyed :
      (call_id : List ℕ) (cs : Scscf.CallState) (sdp : List ℕ)
      → IsKeyed (Scscf.switch_video s payload call_id cs sdp).0
  unfolding Scscf.switch_video Scscf.send_sip_response
  switch_video-IsKeyed call_id cs sdp = h

  one_of : {X : Type 0} (P : X → Type 0) (b : Bool) (x y : X) → P x → P y → P (if b then x else y)
  one_of P true x y p q = p
  one_of P false x y p q = q

  re_invite-Kept :
      (call_id : List ℕ) (cs : Scscf.CallState) (sdp : List ℕ)
      → cs.call_id ≡ call_id
      → Kept (Scscf.handle_re_invite s payload call_id cs sdp)
  unfolding Scscf.handle_re_invite
  re_invite-Kept call_id cs sdp e =
      Ends-bind (λ r. IsKeyed r.0) (first_str tag_to (new_reader payload).rest) _
        (λ to_impu.
          one_of {X = Scscf.ScscfNode × List (List ℕ)} (λ r. IsKeyed r.0) _ _ _
            (hold-IsKeyed call_id cs e)
            (one_of {X = Scscf.ScscfNode × List (List ℕ)} (λ r. IsKeyed r.0) _ _ _
              (conference-IsKeyed to_impu call_id cs e)
              (one_of {X = Scscf.ScscfNode × List (List ℕ)} (λ r. IsKeyed r.0) _ _ _
                (switch_video-IsKeyed call_id cs sdp) (resume-IsKeyed call_id cs e))))

  invited-Kept : (barred : List (List ℕ)) (f : Fields) → Kept (Scscf.invited barred s payload f)
  unfolding Scscf.invited Scscf.send_sip_response
  invited-Kept barred f = elim (Option-cases (Texts.find f.call_id s.calls)) [
    | inl e ↦
        rw (e, Scscf.invited)
          (elim (Bool-cases (Scscf.is_barred f.to barred)) [
            | inl b ↦ rw b h
            | inr b ↦ rw b (
              KeyedCalls-insert f.call_id
                  (record {
                    caller_impu = f.from;
                    callee_impu = f.to;
                    call_id = f.call_id;
                    on_hold = false;
                    in_conference = false;
                  })
                  s.calls refl h.0,
              h.1,
            )
          ])
    | inr (cs, e) ↦ rw (e, Scscf.invited) (re_invite-Kept f.call_id cs f.sdp (h.0 f.call_id cs e))
  ]

  invite-Kept : (barred : List (List ℕ)) → Kept (Scscf.handle_invite barred s payload)
  unfolding Scscf.handle_invite
  invite-Kept barred =
      Ends-bind (λ r. IsKeyed r.0) (parse Scscf.invite_cases no_fields (new_reader payload).rest) _
        (λ f. invited-Kept barred f)

  ack-Kept : Kept (Scscf.handle_ack s payload)
  unfolding Scscf.handle_ack
  ack-Kept =
      Ends-bind (λ r. IsKeyed r.0) (first_str tag_call_id (new_reader payload).rest) _ (λ f. h)

  ok-Kept : Kept (Scscf.handle_200_ok s payload)
  unfolding Scscf.handle_200_ok
  ok-Kept =
      Ends-bind (λ r. IsKeyed r.0) (parse Scscf.ok_cases no_fields (new_reader payload).rest) _
        (λ f. h)

  bye-Kept : Kept (Scscf.handle_bye s payload)
  unfolding Scscf.handle_bye Scscf.send_sip_response
  bye-Kept =
      Ends-bind (λ r. IsKeyed r.0) (parse Scscf.bye_cases no_fields (new_reader payload).rest) _
        (λ f. (KeyedCalls-erase f.call_id s.calls h.0, h.1))

  update-Kept : Kept (Scscf.handle_update s payload)
  unfolding Scscf.handle_update Scscf.send_sip_response
  update-Kept =
      Ends-bind (λ r. IsKeyed r.0) (parse Scscf.update_cases no_fields (new_reader payload).rest) _
        (λ f. h)

module _ {S : Type 0} (ask : S → List ℕ → Outcome (S × Option (List ℕ)))
    (barred : List (List ℕ)) where
  register-Kept :
      (p : S) (s : Scscf.ScscfNode) (payload : List ℕ)
      → IsKeyed s
      → Ends (λ r. IsKeyed r.1) (Scscf.handle_register ask barred p s payload)
  unfolding Scscf.handle_register Scscf.send_sip_response Scscf.send_cx_sar
  register-Kept p s payload h =
      Ends-bind (λ (r : S × Scscf.ScscfNode × List (List ℕ)). IsKeyed r.1)
        (parse Scscf.register_cases no_fields (new_reader payload).rest) _
        (λ f.
          Ends-bind (λ (r : S × Scscf.ScscfNode × List (List ℕ)). IsKeyed r.1)
            (ask p (Scscf.send_cx_sar s f.impu f.impi).1) _
            (λ (p', answer).
              Ends-bind (λ (r : S × Scscf.ScscfNode × List (List ℕ)). IsKeyed r.1)
                (Scscf.wait_cx_saa answer) _
                (λ profile. (
                  h.0,
                  inserted (λ k sub. (sub.impu ≡ k) × (sub.registered ≡ true)) f.impu
                      (record {
                        impu = f.impu;
                        impi = f.impi;
                        contact = f.contact;
                        scscf_name = [];
                        registered = true;
                      })
                      s.registry (refl, refl) h.1,
                ))))

  with_sas :
      (p : S) (o : Outcome (Scscf.ScscfNode × List (List ℕ)))
      → Kept o
      → Ends
          (λ (r : S × Scscf.ScscfNode × List (List ℕ)). IsKeyed r.1)
          (o >>= λ (s', out). ok (p, s', out))
  with_sas p (ok r) h = h
  with_sas p out_of_bounds h = tt
  with_sas p out_of_fuel h = tt

  -- Whatever arrives at the S-CSCF, whoever answers as the HSS: if every call is found under its own
  -- identifier, and every subscriber under its own identity and registered, it is so in the state that
  -- the round ends with.
  pub receive-IsKeyed :
      (p : S) (s : Scscf.ScscfNode) (payload : List ℕ)
      → IsKeyed s
      → Ends (λ r. IsKeyed r.1) (Scscf.receive ask barred p s payload)
  unfolding Scscf.receive
  receive-IsKeyed p s payload h =
      let type = (new_reader payload).msg_type in
      elim (Bool-cases (type == sip_register)) [
        | inl e ↦ rw e (register-Kept p s payload h)
        | inr e ↦ rw e (elim (Bool-cases (type == sip_invite)) [
          | inl e ↦ rw e (with_sas p _ (invite-Kept s h payload barred))
          | inr e ↦ rw e (elim (Bool-cases (type == sip_ack)) [
            | inl e ↦ rw e (with_sas p _ (ack-Kept s h payload))
            | inr e ↦ rw e (elim (Bool-cases (type == sip_200_ok)) [
              | inl e ↦ rw e (with_sas p _ (ok-Kept s h payload))
              | inr e ↦ rw e (elim (Bool-cases (type == sip_bye)) [
                | inl e ↦ rw e (with_sas p _ (bye-Kept s h payload))
                | inr e ↦ rw e (elim (Bool-cases (type == sip_cancel)) [
                  | inl e ↦ rw e (with_sas p _ (update-Kept s h payload))
                  | inr e ↦ rw e (h)
                ])
              ])
            ])
          ])
        ])
      ]
