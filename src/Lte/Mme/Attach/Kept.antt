-- ===== src/Lte/Mme/Attach/Kept.antt =====
-- mme_node.cpp: the contexts under the part of the attach procedure that speaks to the S-GW.
use g_5g_ims_simulators.Prelude.{
  ℕ, ◌+◌, ◌%◌, ◌^◌, ◌≡◌, ◌≢◌, refl, ◌⊎◌, inl, inr, not, ◌||◌, Bool-cases, Option-cases, Option,
  none, some, List, [], ◌∷◌, ◌++◌, ltb, length, ◌==◌,
}
use g_5g_ims_simulators.Lte.Tlv.{new_reader, parse, Outcome, ok, out_of_bounds, out_of_fuel, ◌>>=◌}
use g_5g_ims_simulators.Lte.Mme.Context.{UeContext, Bearer, default_bearer}
use g_5g_ims_simulators.Lte.Mme.Store.{find, modify}
use g_5g_ims_simulators.Lte.Mme.Store.Map.{IsValid, modify-cases, modify-IsValid}
use g_5g_ims_simulators.Lte.Mme.Node.{MmeNode}
use g_5g_ims_simulators.Lte.Mme.Attach.{
  session_answered, send_create_session, setup_context, handle_auth_success, created_cases,
  created_default, new_bearer,
}

-- If it ends with a result, the result has the property.
abbrev pub Ends : {R : Type 0} → (R → Type 0) → Outcome R → Type 0
Ends P (ok r) = P r
Ends P out_of_bounds = Unit
Ends P out_of_fuel = Unit

pub Ends-bind :
    {R Q : Type 0} (A : R → Type 0) (B : Q → Type 0) (o : Outcome R) (f : R → Outcome Q)
    → Ends A o
    → ((r : R) → A r → Ends B (f r))
    → Ends B (o >>= f)
Ends-bind A B (ok r) f a g = g r a
Ends-bind A B out_of_bounds f a g = tt
Ends-bind A B out_of_fuel f a g = tt

Ends-any : {R : Type 0} (o : Outcome R) → Ends (λ r. Unit {0}) o
Ends-any (ok r) = tt
Ends-any out_of_bounds = tt
Ends-any out_of_fuel = tt

-- Every context is still there, with its identity, its vectors and its state.
pub record Kept (m m' : MmeNode) : Type 0 where
  pub valid : IsValid m'.ue_store
  pub still :
      (j : ℕ) (c : UeContext)
      → find m.ue_store j ≡ some c
      → (c' : UeContext) × (find m'.ue_store j ≡ some c')
        × (c'.imsi ≡ c.imsi)
        × (c'.auth ≡ c.auth)
        × (c'.emm_state ≡ c.emm_state)

pub kept : (m m' : MmeNode) → IsValid m.ue_store → m'.ue_store ≡ m.ue_store → Kept m m'
kept m m' v e = record { valid = rw e v; still = λ j c here. (c, rw e here, refl, refl, refl) }

session_answered-Kept :
    (m : MmeNode) (id : ℕ) (resp : Option (List ℕ))
    → IsValid m.ue_store
    → Ends (λ r. Kept m r.0) (session_answered m id resp)
unfolding session_answered
session_answered-Kept m id none v = kept m m v refl
session_answered-Kept m id (some resp) v =
    Ends-bind (λ f. Unit {0}) (λ r. Kept m r.0)
      (parse created_cases created_default (new_reader resp).rest) _
      (Ends-any (parse created_cases created_default (new_reader resp).rest))
      (λ f u. elim (Bool-cases (not (f.cause == 16) || ltb (length f.ue_ip_bytes) 4)) [
        | inl e ↦ rw e (kept m m v refl)
        | inr e ↦ rw e (record {
          valid = modify-IsValid m.ue_store v id _;
          still = λ j c here. with_bearer j c (new_bearer f) (
              modify-cases m.ue_store v id j
                (λ d. record d { bearers = d.bearers ++ (new_bearer f ∷ []) }) c here);
        })
      ])
  where
    with_bearer :
        (j : ℕ) (c : UeContext) (b : Bearer)
        → let g = λ (d : UeContext). record d { bearers = d.bearers ++ (b ∷ []) } in
          ((id ≡ j) × (find (modify m.ue_store id g) j ≡ some (g c)))
            ⊎ ((id ≢ j) × (find (modify m.ue_store id g) j ≡ some c))
          → (c' : UeContext) × (find (modify m.ue_store id g) j ≡ some c')
            × (c'.imsi ≡ c.imsi)
            × (c'.auth ≡ c.auth)
            × (c'.emm_state ≡ c.emm_state)
    with_bearer j c b (inl (same, e)) = (_, e, refl, refl, refl)
    with_bearer j c b (inr (ne, e)) = (c, e, refl, refl, refl)

setup_context-store :
    (m : MmeNode) (id : ℕ) (o : Option UeContext) → (setup_context m id o).0.ue_store ≡ m.ue_store
unfolding setup_context
setup_context-store m id none = refl
setup_context-store m id (some ctx) = elim (Option-cases (default_bearer ctx.bearers)) [
  | inl e ↦ rw (setup_context, e)
  | inr (b, e) ↦ rw (setup_context, e)
]

same_store : (m m' m'' : MmeNode) → Kept m m' → m''.ue_store ≡ m'.ue_store → Kept m m''
same_store m m' m'' k e = record {
  valid = rw e k.valid;
  still = λ j c here. rw e (k.still j c here);
}

module _ {S : Type 0} (ask : S → List ℕ → Outcome (S × Option (List ℕ))) where
  send_create_session-Kept :
      (p : S) (m : MmeNode) (id imsi : ℕ)
      → IsValid m.ue_store
      → Ends (λ r. Kept m r.1) (send_create_session ask p m id imsi)
  unfolding send_create_session
  send_create_session-Kept p m id imsi v =
      Ends-bind (λ r. Unit {0}) _ _ _ (Ends-any (ask p _))
        (λ r u.
          Ends-bind (λ q. Kept (record m { next_seq = (m.next_seq + 1) % 2 ^ 32 }) q.0) _ _ _
            (session_answered-Kept (record m { next_seq = (m.next_seq + 1) % 2 ^ 32 }) id r.1 v)
            (λ q k. record { valid = k.valid; still = k.still }))

  pub handle_auth_success-Kept :
      (p : S) (m : MmeNode) (id : ℕ)
      → IsValid m.ue_store
      → Ends (λ r. Kept m r.1) (handle_auth_success ask p m id)
  unfolding handle_auth_success
  handle_auth_success-Kept p m id v = elim (Option-cases (find m.ue_store id)) [
    | inl e ↦ rw (handle_auth_success, e) (kept m m v refl)
    | inr (ctx, e) ↦
        rw (handle_auth_success, e)
          (Ends-bind (λ r. Kept m r.1) (λ r. Kept m r.1) (send_create_session ask p m id ctx.imsi) _
            (send_create_session-Kept p m id ctx.imsi v)
            (λ r k. elim (Bool-cases r.2) [
              | inl t ↦
                  rw t (same_store m r.1 _ k (setup_context-store r.1 id (find r.1.ue_store id)))
              | inr t ↦ rw t k
            ]))
  ]
