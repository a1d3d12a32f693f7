-- ===== src/FastPath/Ring/Burst.antt =====
-- `pop_burst`, `size`, `empty` and `capacity` on a ring that holds a queue, and whole histories of calls.
use g_5g_ims_simulators.Prelude.{
  ℕ, zero, suc, ◌+◌, ◌%◌, ◌^◌, ◌≤◌, ◌<◌, ◌≡◌, refl, sym, ◌∙◌, ap, ap₂, subst, Bool, true, ◌↔◌,
  ==_iff, List, [], ◌∷◌, arith, ltb, lt→ltb, if◌then◌else◌, length, get_or, take, drop,
}
use native.Mathlib.Nat.{mod-eq_of_lt, add-zero, mod-add-mod}
use g_5g_ims_simulators.FastPath.Ring.{
  Ring, wrap, next, distance, size_t, push, pop, pop_burst, read_slots, size, empty,
}
use g_5g_ims_simulators.FastPath.Ring.Window.{
  next-eq-mod, wrap-eq-mod, distance-eq, pow-le, window, steps_shift,
}
use g_5g_ims_simulators.FastPath.Ring.Refine.{
  Holds, queue_push, queue_pop, push_refines, pop_refines, drop_oldest, tail-ne-head,
}

module _ {ℓ} {A : Type ℓ} where
  -- The number of items that `pop_burst` takes.
  abbrev pub burst_count : List A → ℕ → ℕ
  burst_count q limit = if ltb (length q) limit then length q else limit

  pub burst_count-le : (q : List A) (limit : ℕ) → burst_count q limit ≤ length q
  burst_count-le q limit = ground arith

module _ {ℓ} {A : Type ℓ} (k : ℕ) (d : A) where
  read_slots-window :
      (buf : List A) (t i c : ℕ)
      → t + i + c < 2 ^ 64
      → read_slots (2 ^ k) buf d t i c ≡ window (2 ^ k) d buf ((t + i) % 2 ^ k) c
  unfolding read_slots
  read_slots-window buf t i zero h = refl
  read_slots-window buf t i (suc c) h =
      ap₂ ◌∷◌
        (ap (λ (j : ℕ). get_or buf j d)
          (wrap-eq-mod k _
            ∙ ap (λ (x : ℕ). x % 2 ^ k) {x = size_t (t + i)} {y = t + i} (omega arith)))
        (read_slots-window buf t (i + 1) c (omega arith)
          ∙ ap (λ (j : ℕ). window (2 ^ k) d buf j c)
              (ap (λ (x : ℕ). x % 2 ^ k) {x = t + (i + 1)} {y = t + i + 1} (omega arith)
                ∙ sym (mod-add-mod (t + i) (2 ^ k) 1)))

  -- The first `m` cells hold the `m` oldest items, and `m` steps of the tail drop them.
  pub drop_many :
      (m : ℕ) (r : Ring A) (q : List A)
      → Holds k d r q
      → m ≤ length q
      → (window (2 ^ k) d r.buf r.tail m ≡ take m q)
        × Holds k d (record r { tail = (r.tail + m) % 2 ^ k }) (drop m q)
  drop_many zero r q h le =
      (refl, move (sym (ap (λ (x : ℕ). x % 2 ^ k) (add-zero r.tail) ∙ mod-eq_of_lt h.tail_in)) h)
    where
      move : {t : ℕ} → r.tail ≡ t → Holds k d r q → Holds k d (record r { tail = t }) q
      move e = subst (λ (t : ℕ). Holds k d (record r { tail = t }) q) e
  drop_many (suc m) r [] h le = absurd (omega arith)
  drop_many (suc m) r (x ∷ q) h le =
      let rest =
        drop_many m (record r { tail = next (2 ^ k) r.tail }) q (drop_oldest k d r x q h).1
          (omega arith) in
      (
        ap₂ ◌∷◌ (drop_oldest k d r x q h).0
            (ap (λ (t : ℕ). window (2 ^ k) d r.buf t m) (sym step) ∙ rest.0),
        subst (λ (t : ℕ). Holds k d (record r { tail = t }) (drop m q))
            (ap (λ (t : ℕ). (t + m) % 2 ^ k) step ∙ steps_shift (2 ^ k) r.tail m) rest.1,
      )
    where
      step : next (2 ^ k) r.tail ≡ (r.tail + 1) % 2 ^ k
      step = next-eq-mod k r.tail h.fits h.tail_in

  pub distance-Holds :
      (r : Ring A) (q : List A) → Holds k d r q → distance (2 ^ k) r.head r.tail ≡ length q
  distance-Holds r q h =
      ap (λ (x : ℕ). distance (2 ^ k) x r.tail) h.head_at
      ∙ distance-eq k r.tail (length q) h.fits h.tail_in h.room

  pub size-Holds : (r : Ring A) (q : List A) → Holds k d r q → size (2 ^ k) r ≡ length q
  unfolding size
  size-Holds r q h = distance-Holds r q h

  -- What `pop_burst` does once it knows the count.
  pub burst_by :
      (r : Ring A) (q : List A) (m : ℕ)
      → Holds k d r q
      → m ≤ length q
      → let s = (if ltb 0 m then record r { tail = wrap (2 ^ k) (size_t (r.tail + m)) } else r) in
        (read_slots (2 ^ k) r.buf d r.tail 0 m ≡ take m q) × Holds k d s (drop m q)
  unfolding read_slots
  burst_by r q zero h le = (refl, h)
  burst_by r q (suc m) h le = rw (lt→ltb 0 (suc m) (omega arith)) (
    read_slots-window r.buf r.tail 0 (suc m) (omega (arith, small))
        ∙ ap (λ (t : ℕ). window (2 ^ k) d r.buf t (suc m))
            (ap (λ (x : ℕ). x % 2 ^ k) (add-zero r.tail) ∙ mod-eq_of_lt h.tail_in)
        ∙ (drop_many (suc m) r q h le).0,
    subst (λ (t : ℕ). Holds k d (record r { tail = t }) (drop (suc m) q))
        (sym (wrap-eq-mod k (size_t (r.tail + suc m)) ∙ ap (λ (x : ℕ). x % 2 ^ k) small))
        (drop_many (suc m) r q h le).1,
  )
    where
      small : size_t (r.tail + suc m) ≡ r.tail + suc m
      small = omega (arith, pow-le k h.fits, h.tail_in, h.room)

  -- One burst takes the oldest items, as many as are there and at most `limit`, in order.
  pub pop_burst_refines :
      (r : Ring A) (q : List A) (limit : ℕ)
      → Holds k d r q
      → ((pop_burst (2 ^ k) r d limit).0 ≡ take (burst_count q limit) q)
        × Holds k d (pop_burst (2 ^ k) r d limit).1 (drop (burst_count q limit) q)
  unfolding pop_burst size
  pop_burst_refines r q limit h =
      rw (size-Holds r q h) (
        split (burst_count q limit) (burst_by r q (burst_count q limit) h (burst_count-le q limit)))
    where
      split :
          (m : ℕ)
          → (let s =
                (if ltb 0 m then record r { tail = wrap (2 ^ k) (size_t (r.tail + m)) } else r) in
              (read_slots (2 ^ k) r.buf d r.tail 0 m ≡ take m q) × Holds k d s (drop m q))
          → let out = read_slots (2 ^ k) r.buf d r.tail 0 m in
            let res =
              if◌then◌else◌ {A = List A × Ring A}
                (ltb 0 m)
                (out, record r { tail = wrap (2 ^ k) (size_t (r.tail + m)) })
                (out, r) in
            (res.0 ≡ take m q) × Holds k d res.1 (drop m q)
      split zero p = p
      split (suc m) p =
          rw (lt→ltb 0 (suc m) (omega arith)) (rw (lt→ltb 0 (suc m) (omega arith)) at p)

  pub empty-Holds : (r : Ring A) (q : List A) → Holds k d r q → (empty r ≡ true) ↔ (q ≡ [])
  unfolding empty
  empty-Holds r [] h = (
    (λ e. refl),
    (λ e.
        (==_iff r.head r.tail).1
          (h.head_at ∙ ap (λ (x : ℕ). x % 2 ^ k) (add-zero r.tail) ∙ mod-eq_of_lt h.tail_in)),
  )
  empty-Holds r (x ∷ q) h = (
    (λ e.
        absurd
          (tail-ne-head k d r (x ∷ q) h (λ z. omega arith) (sym ((==_iff r.head r.tail).0 e)))),
    (λ e. cc),
  )

-- A client's calls in order, with what each returns.
pub data Call {ℓ} (A : Type ℓ) : Type ℓ where
  pushes : A → Call A
  pops : A → Call A
  bursts : ℕ → Call A

pub data Reply {ℓ} (A : Type ℓ) : Type ℓ where
  pushed : Bool → Reply A
  popped : Bool → A → Reply A
  burst : List A → Reply A

module _ {ℓ} {A : Type ℓ} (k : ℕ) (d : A) where
  pub run : Ring A → List (Call A) → List (Reply A)
  run r [] = []
  run r (pushes x ∷ cs) = let (b, r') = push (2 ^ k) r x in pushed b ∷ run r' cs
  run r (pops out ∷ cs) = let (b, x, r') = pop (2 ^ k) r out in popped b x ∷ run r' cs
  run r (bursts m ∷ cs) = let (xs, r') = pop_burst (2 ^ k) r d m in burst xs ∷ run r' cs

  pub queue_run : List A → List (Call A) → List (Reply A)
  queue_run q [] = []
  queue_run q (pushes x ∷ cs) = let (b, q') = queue_push (2 ^ k) q x in pushed b ∷ queue_run q' cs
  queue_run q (pops out ∷ cs) = let (b, x, q') = queue_pop q out in popped b x ∷ queue_run q' cs
  queue_run q (bursts m ∷ cs) =
      burst (take (burst_count q m) q) ∷ queue_run (drop (burst_count q m) q) cs

  -- On a ring of 2 ^ k cells that holds a queue, every history of calls gets the replies of the
  -- queue of at most 2 ^ k - 1 items: the items come out in the order in which they went in.
  pub run_refines :
      (r : Ring A) (q : List A) (cs : List (Call A)) → Holds k d r q → run r cs ≡ queue_run q cs
  unfolding run queue_run
  run_refines r q [] h = refl
  run_refines r q (pushes x ∷ cs) h =
      let p = push_refines k d r q x h in
      ap₂ (λ b rs. pushed b ∷ rs) p.0
        (run_refines (push (2 ^ k) r x).1 (queue_push (2 ^ k) q x).1 cs p.1)
  run_refines r q (pops out ∷ cs) h =
      let (b, x, held) = pop_refines k d r q out h in
      ap₂ (λ f rs. f ∷ rs) (ap₂ popped b x)
        (run_refines (pop (2 ^ k) r out).2 (queue_pop q out).2 cs held)
  run_refines r q (bursts m ∷ cs) h =
      let p = pop_burst_refines k d r q m h in
      ap₂ (λ xs rs. burst xs ∷ rs) p.0
        (run_refines (pop_burst (2 ^ k) r d m).1 (drop (burst_count q m) q) cs p.1)
