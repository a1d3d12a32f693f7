-- ===== src/Cbrs/System/Agreement.antt =====
-- Agent and proxy hold the same state: the invariant, and that other clients keep it.
pub mod Commands
pub mod Steps
use g_5g_ims_simulators.Prelude.{
  ℕ, ◌+◌, ◌%◌, ◌^◌, ◌<◌, ◌≤◌, ◌≡◌, ◌≢◌, refl, sym, ◌∙◌, ap, subst, ◌⊎◌, inl, inr, Bool, true, false,
  Bool-cases, Option, none, some, List, [], ◌∷◌, ◌++◌, length, arith, All, All-append,
  if◌then◌else◌,
}
use g_5g_ims_simulators.Prelude.Texts.{codes}
use g_5g_ims_simulators.Cbrs.Doubles.{Doubles}
use g_5g_ims_simulators.Cbrs.SpectrumState.{SpectrumState, unregistered}
use g_5g_ims_simulators.Cbrs.Registry.{CbsdInfo, CbsdRegistry, get, remove}
use g_5g_ims_simulators.Cbrs.Sas.{Sas, int_string}
use g_5g_ims_simulators.Cbrs.Sas.Answers.{answer_to, Grows}
use g_5g_ims_simulators.Cbrs.Proxy.{Thread, handle_message, disconnected, is_empty}
use g_5g_ims_simulators.Cbrs.Agent.{Agent}
use g_5g_ims_simulators.Cbrs.System.{always_in_step, Link, up, closed, gone, World, thread, Counts}
use g_5g_ims_simulators.Cbrs.System.Responses.{cbsd_id_of, cbsd_id_of_injective}
use g_5g_ims_simulators.Cbrs.System.Frame.{
  Framed, NextId, handle_message-Framed, Grows-same, remove_ne,
}

abbrev pub grant_id_of : ℕ → List ℕ
grant_id_of n = codes "GRANT-" ++ int_string n

-- The stub has made this identifier, and makes it no more.
abbrev pub Below : ℕ → Option Sas → Type 0
Below n none = n < 2 ^ 31
Below n (some s) = (n < 2 ^ 31) × (n < s.cbsd_counter)

abbrev pub IsGrantId : List ℕ → Type 0
IsGrantId g = (g ≡ []) ⊎ ((m : ℕ) × (g ≡ grant_id_of m))

-- The identifier of another thread.
abbrev pub Stranger : Option Sas → List ℕ → List ℕ → Type 0
Stranger o id x = (x ≡ []) ⊎ ((m : ℕ) × Below m o × (x ≡ cbsd_id_of m) × (x ≢ id))

-- The agent and what the proxy holds for it: nothing yet, or an entry with the same state.
pub data Known (d : Doubles) (o : Option Sas) (r : CbsdRegistry d.Double) (a : Agent d)
    (id : List ℕ) : Type 0 where
  fresh : id ≡ [] → a.cbsd_id ≡ [] → a.state ≡ unregistered → a.grant_id ≡ [] → Known d o r a id
  known :
      (n : ℕ) (i : CbsdInfo d.Double)
      → Below n o
      → id ≡ cbsd_id_of n
      → a.cbsd_id ≡ id
      → get id r ≡ some i
      → i.state ≡ a.state
      → a.state ≢ unregistered
      → i.grant_id ≡ a.grant_id
      → IsGrantId a.grant_id
      → Known d o r a id

module _ (d : Doubles) where
  abbrev pub GoodLink : Option Sas → CbsdRegistry d.Double → List (List ℕ) → Link d → Type 0
  GoodLink o r xs gone = Unit
  GoodLink o r xs (closed a) = (a.state ≡ unregistered) × (a.cbsd_id ≡ [])
  GoodLink o r xs (up a id) = Known d o r a id × All (Stranger o id) xs

  abbrev pub Good : World d (always_in_step d) → Type 0
  Good w = GoodLink w.sas w.registry w.others w.link

Below-Grows :
    (n : ℕ) (o o' : Option Sas) → Counts o → Counts o' → Grows o o' → Below n o → Below n o'
Below-Grows n none none c c' g b = b
Below-Grows n none (some s') c c' g b = absurd g
Below-Grows n (some s) none c c' g b = b.0
Below-Grows n (some s) (some s') c c' (inl g) b = omega arith
Below-Grows n (some s) (some s') c c' (inr g) b = omega arith

pub Stranger-Grows :
    (o o' : Option Sas) (id x : List ℕ)
    → Counts o
    → Counts o'
    → Grows o o'
    → Stranger o id x
    → Stranger o' id x
Stranger-Grows o o' id x c c' g (inl e) = inl e
Stranger-Grows o o' id x c c' g (inr (m, b, e, n)) = inr (m, Below-Grows m o o' c c' g b, e, n)

pub Strangers-Grow :
    (o o' : Option Sas) (id : List ℕ) (xs : List (List ℕ))
    → Counts o
    → Counts o'
    → Grows o o'
    → All (Stranger o id) xs
    → All (Stranger o' id) xs
Strangers-Grow o o' id [] c c' g p = tt
Strangers-Grow o o' id (x ∷ xs) c c' g p =
    (Stranger-Grows o o' id x c c' g p.0, Strangers-Grow o o' id xs c c' g p.1)

nil-ne-cbsd_id_of : (n : ℕ) → [] ≢ cbsd_id_of n
nil-ne-cbsd_id_of n e = cc

-- A stranger is not the agent's own.
Stranger-ne : (o : Option Sas) (n : ℕ) (x : List ℕ) → Stranger o (cbsd_id_of n) x → x ≢ cbsd_id_of n
Stranger-ne o n x (inl e) z = nil-ne-cbsd_id_of n (sym e ∙ z)
Stranger-ne o n x (inr (m, b, e, ne)) z = ne z

-- Another thread's next identifier is not the agent's either.
NextId-ne :
    (o o' : Option Sas) (n : ℕ) (x x' : List ℕ)
    → Counts o
    → Counts o'
    → Below n o
    → NextId o o' x x'
    → x ≢ cbsd_id_of n
    → x' ≢ cbsd_id_of n
NextId-ne o o' n x x' c c' b (inl e) ne z = ne (sym e ∙ z)
NextId-ne o o' n x x' c c' b (inr (s, p, q, e)) ne z =
    clash (subst Counts p c) (subst Counts q c') (subst (Below n) p b)
  where
    clash :
        Counts (some s)
        → Counts (some (record s { cbsd_counter = (s.cbsd_counter + 1) % 2 ^ 32 }))
        → Below n (some s)
        → ⊥
    clash k k' b' = absurd (
        omega
          (arith, cbsd_id_of_injective s.cbsd_counter n (omega arith) (omega arith) (sym e ∙ z)))

Stranger-NextId :
    (o o' : Option Sas) (id x x' : List ℕ)
    → Counts o
    → Counts o'
    → Grows o o'
    → NextId o o' x x'
    → (x' ≢ [] → x' ≢ id)
    → Stranger o id x
    → Stranger o' id x'
Stranger-NextId o o' id x x' c c' g (inl e) ne p = rw e (Stranger-Grows o o' id x c c' g p)
Stranger-NextId o o' id x x' c c' g (inr (s, p, q, e)) ne st =
    inr (s.cbsd_counter, below, e, ne (λ z. nil-ne-cbsd_id_of s.cbsd_counter (sym z ∙ e)))
  where
    below : Below s.cbsd_counter o'
    below = rw q (made (subst Counts p c) (subst Counts q c'))
      where
        made :
            Counts (some s)
            → Counts (some (record s { cbsd_counter = (s.cbsd_counter + 1) % 2 ^ 32 }))
            → (s.cbsd_counter < 2 ^ 31) × (s.cbsd_counter < (s.cbsd_counter + 1) % 2 ^ 32)
        made k k' = omega arith

-- A Known agent stays known when its own entry stays.
Known-frame :
    (d : Doubles) (o o' : Option Sas) (r r' : CbsdRegistry d.Double) (a : Agent d) (id : List ℕ)
    → Counts o
    → Counts o'
    → Grows o o'
    → ((n : ℕ) → Below n o → id ≡ cbsd_id_of n → get id r' ≡ get id r)
    → Known d o r a id
    → Known d o' r' a id
Known-frame d o o' r r' a id c c' g same (fresh e1 e2 e3 e4) = fresh e1 e2 e3 e4
Known-frame d o o' r r' a id c c' g same (known n i b e1 e2 e3 e4 e5 e6 e7) =
    known n i (Below-Grows n o o' c c' g b) e1 e2 (same n b e1 ∙ e3) e4 e5 e6 e7

-- The identifier of a stranger's thread after its round is no more the agent's than before.
Stranger-stays :
    (d : Doubles) (o o' : Option Sas) (r : CbsdRegistry d.Double) (a : Agent d) (id x x' : List ℕ)
    → Counts o
    → Counts o'
    → NextId o o' x x'
    → Stranger o id x
    → Known d o r a id
    → x' ≢ []
    → x' ≢ id
Stranger-stays d o o' r a id x x' c c' nx st (fresh e1 e2 e3 e4) ne z = ne (z ∙ e1)
Stranger-stays d o o' r a id x x' c c' nx st (known n i b e1 e2 e3 e4 e5 e6 e7) ne z =
    NextId-ne o o' n x x' c c' b nx
      (Stranger-ne o n x (subst (λ (y : List ℕ). Stranger o y x) e1 st)) (z ∙ e1)

All-middle :
    {A : Type 0} (P : A → Type 0) (before after : List A) (x : A)
    → All P (before ++ (x ∷ after))
    → All P before × P x × All P after
All-middle P [] after x p = (tt, p.0, p.1)
All-middle P (y ∷ before) after x p =
    let (q, px, r) = All-middle P before after x p.1 in ((p.0, q), px, r)

module _ (d : Doubles) where
  -- The round of another thread.
  pub sends-Good :
      (o o' : Option Sas) (r : CbsdRegistry d.Double) (l : Link d) (before after : List (List ℕ))
      (x : List ℕ) (t' : Thread d.Double) (open_yet : Bool)
      → Counts o
      → Counts o'
      → Grows o o'
      → Framed d (record { registry = r; my_cbsd_id = x }) o o' t'
      → GoodLink d o r (before ++ (x ∷ after)) l
      → GoodLink d o' t'.registry (before ++ (if open_yet then t'.my_cbsd_id ∷ after else after)) l
  sends-Good o o' r gone before after x t' open_yet c c' g f p = tt
  sends-Good o o' r (closed a) before after x t' open_yet c c' g f p = p
  sends-Good o o' r (up a id) before after x t' open_yet c c' g f p =
      let (pb, px, pa) = All-middle (Stranger o id) before after x p.1 in
      let here =
        Stranger-NextId o o' id x t'.my_cbsd_id c c' g f.0
          (Stranger-stays d o o' r a id x t'.my_cbsd_id c c' f.0 px p.0) px in
      (
        Known-frame d o o' r t'.registry a id c c' g
            (λ n b e.
              f.1 id (λ z. Stranger-ne o n x (subst (λ (y : List ℕ). Stranger o y x) e px) (z ∙ e))
                (λ z.
                  NextId-ne o o' n x t'.my_cbsd_id c c' b f.0
                    (Stranger-ne o n x (subst (λ (y : List ℕ). Stranger o y x) e px)) (z ∙ e)))
            p.0,
        All-append (Stranger o' id) before _ (Strangers-Grow o o' id before c c' g pb)
            (rest open_yet here (Strangers-Grow o o' id after c c' g pa)),
      )
    where
      rest :
          (b : Bool)
          → Stranger o' id t'.my_cbsd_id
          → All (Stranger o' id) after
          → All (Stranger o' id) (if b then t'.my_cbsd_id ∷ after else after)
      rest true h q = (h, q)
      rest false h q = q

  pub joins-Good :
      (o : Option Sas) (r : CbsdRegistry d.Double) (l : Link d) (xs : List (List ℕ))
      → GoodLink d o r xs l
      → GoodLink d o r ([] ∷ xs) l
  joins-Good o r gone xs p = tt
  joins-Good o r (closed a) xs p = p
  joins-Good o r (up a id) xs p = (p.0, (inl refl, p.1))

  disconnected_ne :
      (r : CbsdRegistry d.Double) (x j : List ℕ)
      → x ≢ j
      → get j (disconnected d (record { registry = r; my_cbsd_id = x })).registry ≡ get j r
  unfolding disconnected
  disconnected_ne r x j ne = elim (Bool-cases (is_empty x)) [
    | inl e ↦ rw e
    | inr e ↦ rw e (remove_ne x j r ne)
  ]

  pub leaves-Good :
      (o : Option Sas) (r : CbsdRegistry d.Double) (l : Link d) (before after : List (List ℕ))
      (x : List ℕ)
      → Counts o
      → GoodLink d o r (before ++ (x ∷ after)) l
      → GoodLink d o
          (disconnected d (record { registry = r; my_cbsd_id = x })).registry
          (before ++ after)
          l
  leaves-Good o r gone before after x c p = tt
  leaves-Good o r (closed a) before after x c p = p
  leaves-Good o r (up a id) before after x c p =
      let (pb, px, pa) = All-middle (Stranger o id) before after x p.1 in
      (
        Known-frame d o o r _ a id c c (Grows-same o)
            (λ n b e.
              disconnected_ne r x id
                (λ z. Stranger-ne o n x (subst (λ (y : List ℕ). Stranger o y x) e px) (z ∙ e)))
            p.0,
        All-append (Stranger o id) before after pb pa,
      )
