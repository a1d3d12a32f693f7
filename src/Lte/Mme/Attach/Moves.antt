-- ===== src/Lte/Mme/Attach/Moves.antt =====
-- mme_node.cpp: the contexts under handleULNasTransport.
use g_5g_ims_simulators.Prelude.{
  ℕ, ◌+◌, ◌%◌, ◌^◌, ◌≡◌, ◌≢◌, refl, sym, subst, ◌∙◌, ap, ◌⊎◌, inl, inr, true, Bool-cases, Option,
  none, some, List, ◌==◌, ==_iff,
}
use g_5g_ims_simulators.Lte.Tlv.{new_reader, parse, Outcome, ok}
use g_5g_ims_simulators.Lte.Mme.Context.{registered, session_pending, UeContext}
use g_5g_ims_simulators.Lte.Mme.Store.{find, modify}
use g_5g_ims_simulators.Lte.Mme.Store.Map.{IsValid, modify-cases, modify-IsValid}
use g_5g_ims_simulators.Lte.Mme.Node.{MmeNode}
use g_5g_ims_simulators.Lte.Mme.Attach.{
  handle_auth_success, handle_ul_nas_transport, auth_response, UlNas, ul_nas_cases, ul_nas_default,
  res_matches,
}
use g_5g_ims_simulators.Lte.Mme.Attach.Kept.{Ends, Ends-bind, Kept, kept, handle_auth_success-Kept}

-- How one message may move the context of identifier `j`.
pub record Moved (f : UlNas) (j : ℕ) (c c' : UeContext) : Type 0 where
  pub same_imsi : c'.imsi ≡ c.imsi
  pub same_auth : c'.auth ≡ c.auth
  pub state :
      (c'.emm_state ≡ c.emm_state)
      ⊎ ((f.mme_id ≡ j)
          × (f.nas_type ≡ 0x53)
          × (res_matches f.res c.auth ≡ true)
          × (c'.emm_state ≡ session_pending))
      ⊎ ((f.mme_id ≡ j) × (f.nas_type ≡ 0x46) × (c'.emm_state ≡ registered))

AllMoved : UlNas → MmeNode → MmeNode → Type 0
AllMoved f m m' =
    (j : ℕ) (c : UeContext)
    → find m.ue_store j ≡ some c
    → (c' : UeContext) × (find m'.ue_store j ≡ some c') × Moved f j c c'

Kept-AllMoved : (f : UlNas) (m m' : MmeNode) → Kept m m' → AllMoved f m m'
unfolding AllMoved
Kept-AllMoved f m m' k j c here =
    let (c', e, i, a, t) = k.still j c here in
    (c', e, record { same_imsi = i; same_auth = a; state = inl t })

module _ (f : UlNas) (m : MmeNode) (ctx : UeContext) (v : IsValid m.ue_store)
    (there : find m.ue_store f.mme_id ≡ some ctx) where
  -- The step to a pending session, and then anything that keeps the contexts.
  pending-AllMoved :
      (m1 m' : MmeNode)
      → f.nas_type ≡ 0x53
      → res_matches f.res ctx.auth ≡ true
      → m1.ue_store ≡ modify m.ue_store f.mme_id (λ c. record c { emm_state = session_pending })
      → Kept m1 m'
      → AllMoved f m m'
  unfolding AllMoved
  pending-AllMoved m1 m' t good e k j c here =
      by_case (
        modify-cases m.ue_store v f.mme_id j (λ d. record d { emm_state = session_pending }) c here)
    where
      same_context : f.mme_id ≡ j → ctx ≡ c
      same_context z = some_inj (sym there ∙ ap (find m.ue_store) z ∙ here)
        where
          some_inj : some ctx ≡ some c → ctx ≡ c
          some_inj w = cc

      by_case :
          let g = λ (d : UeContext). record d { emm_state = session_pending } in
          ((f.mme_id ≡ j) × (find (modify m.ue_store f.mme_id g) j ≡ some (g c)))
            ⊎ ((f.mme_id ≢ j) × (find (modify m.ue_store f.mme_id g) j ≡ some c))
          → (c' : UeContext) × (find m'.ue_store j ≡ some c') × Moved f j c c'
      by_case (inl (same, w)) =
          let (c', e', i, a, st) =
            k.still j (record c { emm_state = session_pending }) (ap (λ u. find u j) e ∙ w) in
          (
            c',
            e',
            record {
              same_imsi = i;
              same_auth = a;
              state = inr (
                  inl (
                    same,
                    t,
                    ap (λ (d : UeContext). res_matches f.res d.auth) (sym (same_context same))
                        ∙ good,
                    st,
                  ));
            },
          )
      by_case (inr (ne, w)) =
          let (c', e', i, a, st) = k.still j c (ap (λ u. find u j) e ∙ w) in
          (c', e', record { same_imsi = i; same_auth = a; state = inl st })

module _ {S : Type 0} (ask : S → List ℕ → Outcome (S × Option (List ℕ))) where
  auth_response-AllMoved :
      (p : S) (m : MmeNode) (f : UlNas) (o : Option UeContext)
      → IsValid m.ue_store
      → f.nas_type ≡ 0x53
      → find m.ue_store f.mme_id ≡ o
      → Ends (λ r. AllMoved f m r.1) (auth_response ask p m f o)
  unfolding auth_response
  auth_response-AllMoved p m f none v t there = Kept-AllMoved f m m (kept m m v refl)
  auth_response-AllMoved p m f (some ctx) v t there =
      elim (Bool-cases (res_matches f.res ctx.auth)) [
        | inl good ↦
            let m1 = record m {
              next_seq = (m.next_seq + 1) % 2 ^ 32;
              ue_store = modify m.ue_store f.mme_id (λ c. record c { emm_state = session_pending });
            } in
            rw good (
              Ends-bind (λ r. Kept m1 r.1) (λ r. AllMoved f m r.1)
                (handle_auth_success ask p m1 f.mme_id) _
                (handle_auth_success-Kept ask p m1 f.mme_id
                  (modify-IsValid m.ue_store v f.mme_id _))
                (λ r k. pending-AllMoved f m ctx v there m1 r.1 t good refl k))
        | inr bad ↦ rw bad (Kept-AllMoved f m m (kept m m v refl))
      ]

  complete-AllMoved :
      (m : MmeNode) (f : UlNas)
      → IsValid m.ue_store
      → f.nas_type ≡ 0x46
      → AllMoved f m (record m {
        ue_store = modify m.ue_store f.mme_id (λ c. record c { emm_state = registered });
      })
  unfolding AllMoved
  complete-AllMoved m f v t j c here =
      by_case
        (modify-cases m.ue_store v f.mme_id j (λ d. record d { emm_state = registered }) c here)
    where
      by_case :
          let g = λ (d : UeContext). record d { emm_state = registered } in
          ((f.mme_id ≡ j) × (find (modify m.ue_store f.mme_id g) j ≡ some (g c)))
            ⊎ ((f.mme_id ≢ j) × (find (modify m.ue_store f.mme_id g) j ≡ some c))
          → (c' : UeContext) × (find (modify m.ue_store f.mme_id g) j ≡ some c') × Moved f j c c'
      by_case (inl (same, w)) =
          (_, w, record { same_imsi = refl; same_auth = refl; state = inr (inr (same, t, refl)) })
      by_case (inr (ne, w)) =
          (c, w, record { same_imsi = refl; same_auth = refl; state = inl refl })

  ul_nas-AllMoved :
      (p : S) (m : MmeNode) (payload : List ℕ) (f : UlNas)
      → IsValid m.ue_store
      → parse ul_nas_cases ul_nas_default (new_reader payload).rest ≡ ok f
      → Ends (λ r. AllMoved f m r.1) (handle_ul_nas_transport ask p m payload)
  unfolding handle_ul_nas_transport
  ul_nas-AllMoved p m payload f v parsed = elim (Bool-cases (f.nas_type == 0x53)) [
    | inl e ↦
        rw (parsed, e)
          (auth_response-AllMoved p m f (find m.ue_store f.mme_id) v ((==_iff f.nas_type 0x53).0 e)
            refl)
    | inr ne ↦ elim (Bool-cases (f.nas_type == 0x46)) [
      | inl e ↦ rw (parsed, ne, e) (complete-AllMoved m f v ((==_iff f.nas_type 0x46).0 e))
      | inr nc ↦ rw (parsed, ne, nc) (Kept-AllMoved f m m (kept m m v refl))
    ]
  ]

  -- Whatever uplink NAS message with well-formed elements the MME handles, and whatever the S-GW
  -- does, each context the MME had is still there if the handler returns, with the same subscriber
  -- and the same vectors. Its state is what it was, or the message names it and either is an Auth
  -- Response whose RES matches its vectors (then the session is pending) or is an Attach Complete
  -- (then it is registered).
  pub ul_nas_moves :
      (p : S) (m : MmeNode) (payload : List ℕ) (f : UlNas) (r : S × MmeNode × List (List ℕ)) (j : ℕ)
      (c : UeContext)
      → IsValid m.ue_store
      → parse ul_nas_cases ul_nas_default (new_reader payload).rest ≡ ok f
      → handle_ul_nas_transport ask p m payload ≡ ok r
      → find m.ue_store j ≡ some c
      → (c' : UeContext) × (find r.1.ue_store j ≡ some c') × Moved f j c c'
  unfolding AllMoved
  ul_nas_moves p m payload f r j c v parsed ends here =
      subst (Ends (λ q. AllMoved f m q.1)) ends (ul_nas-AllMoved p m payload f v parsed) j c here
