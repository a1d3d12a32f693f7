-- ===== src/FastPath/Ring/Refine.antt =====
-- `SPSCRing` as a queue of at most N - 1 items, oldest first.
use g_5g_ims_simulators.Prelude.{
  ℕ, zero, suc, ◌+◌, ◌-◌, ◌%◌, ◌^◌, ◌≤◌, ◌<◌, ◌≡◌, refl, sym, ◌∙◌, ap, Bool, true, false, ◌⊎◌, inl,
  inr, ◌≢◌, ==_iff, ==_false, List, [], ◌∷◌, ◌++◌, arith, ◌==◌, if◌then◌else◌, length, get_or, set,
  length-set, length-append, length-replicate,
}
use native.Mathlib.Decide.{dec_lt}
use native.Mathlib.Nat.{
  one-le-pow, zero-mod, add-mod_right, mod-eq_of_lt, mod-lt, mod-add-mod, add-zero,
}
use g_5g_ims_simulators.FastPath.Ring.{Ring, next, init, push, pop}
use g_5g_ims_simulators.FastPath.Ring.Window.{
  next-eq-mod, window, window_push, steps_shift, steps-ne,
}

module _ {ℓ} {A : Type ℓ} where
  -- The bounded queue that a client of the ring thinks of.
  pub queue_push : ℕ → List A → A → Bool × List A
  queue_push n q x = if length q == n - 1 then (false, q) else (true, q ++ (x ∷ []))

  pub queue_pop : List A → A → Bool × A × List A
  queue_pop [] out = (false, out, [])
  queue_pop (x ∷ q) out = (true, x, q)

  cons_head : {x y : A} {xs ys : List A} → (x ∷ xs) ≡ (y ∷ ys) → x ≡ y
  cons_head e = cc

  cons_tail : {x y : A} {xs ys : List A} → (x ∷ xs) ≡ (y ∷ ys) → xs ≡ ys
  cons_tail e = cc

  -- In range the default of a read does not matter.
  get_or-any : (xs : List A) (i : ℕ) (d e : A) → i < length xs → get_or xs i d ≡ get_or xs i e
  get_or-any [] i d e h = absurd (omega arith)
  get_or-any (x ∷ xs) zero d e h = refl
  get_or-any (x ∷ xs) (suc i) d e h = get_or-any xs i d e (omega arith)

-- The ring of 2 ^ k cells holds the queue `q`.
pub record Holds {ℓ} {A : Type ℓ} (k : ℕ) (d : A) (r : Ring A) (q : List A) : Type ℓ where
  pub fits : k ≤ 63
  pub cells : length r.buf ≡ 2 ^ k
  pub tail_in : r.tail < 2 ^ k
  pub room : length q < 2 ^ k
  pub head_at : r.head ≡ (r.tail + length q) % 2 ^ k
  pub items : window (2 ^ k) d r.buf r.tail (length q) ≡ q

module _ {ℓ} {A : Type ℓ} (k : ℕ) (d : A) where
  pub init-Holds : k ≤ 63 → Holds k d (init (2 ^ k) d) []
  unfolding init
  init-Holds h = record {
    fits = h;
    cells = length-replicate (2 ^ k) d;
    tail_in = omega (arith, one-le-pow k 2);
    room = omega (arith, one-le-pow k 2);
    head_at = sym (zero-mod (2 ^ k));
    items = refl;
  }

  module _ (r : Ring A) (q : List A) (h : Holds k d r q) where
    head_in : r.head < 2 ^ k
    head_in = rw h.head_at (mod-lt (r.tail + length q) (omega (arith, h.tail_in)))

    next_head : next (2 ^ k) r.head ≡ (r.tail + suc (length q)) % 2 ^ k
    next_head =
        next-eq-mod k r.head h.fits head_in
        ∙ ap (λ (x : ℕ). (x + 1) % 2 ^ k) h.head_at
        ∙ mod-add-mod (r.tail + length q) (2 ^ k) 1
        ∙ ap (λ (x : ℕ). x % 2 ^ k) {x = r.tail + length q + 1} {y = r.tail + suc (length q)}
            (omega arith)

    -- One cell is always left free, so that the cursors meet behind N - 1 items and not before.
    pub next_head-full : suc (length q) ≡ 2 ^ k → next (2 ^ k) r.head ≡ r.tail
    next_head-full e =
        next_head
        ∙ ap (λ (x : ℕ). (r.tail + x) % 2 ^ k) e
        ∙ add-mod_right r.tail (2 ^ k)
        ∙ mod-eq_of_lt h.tail_in

    pub next_head-room : suc (length q) < 2 ^ k → next (2 ^ k) r.head ≢ r.tail
    next_head-room lt e = steps-ne (2 ^ k) r.tail (length q) h.tail_in lt (sym next_head ∙ e)

    -- What a write behind the last item and a step of the head make of the ring.
    pub extend-Holds :
        (x : A)
        → suc (length q) < 2 ^ k
        → Holds k d
            (record r { head = next (2 ^ k) r.head; buf = set r.buf r.head x })
            (q ++ (x ∷ []))
    extend-Holds x lt = record {
      fits = h.fits;
      cells = length-set r.buf r.head x ∙ h.cells;
      tail_in = h.tail_in;
      room = omega (arith, length-append q (x ∷ []));
      head_at = next_head ∙ ap (λ (c : ℕ). (r.tail + c) % 2 ^ k) (sym grown);
      items =
          ap (window (2 ^ k) d (set r.buf r.head x) r.tail) grown
          ∙ ap (λ (i : ℕ). window (2 ^ k) d (set r.buf i x) r.tail (suc (length q))) h.head_at
          ∙ window_push (2 ^ k) d r.buf r.tail (length q) x h.tail_in h.room
              (omega (arith, h.cells))
          ∙ ap (λ xs. xs ++ (x ∷ [])) h.items;
    }
      where
        grown : length (q ++ (x ∷ [])) ≡ suc (length q)
        grown = omega (arith, length-append q (x ∷ []))

    pub tail-ne-head : length q ≢ 0 → r.tail ≢ r.head
    tail-ne-head ne e = pos (length q) refl
      where
        pos : (c : ℕ) → length q ≡ c → ⊥
        pos zero z = ne z
        pos (suc c) z =
            steps-ne-last (rw z at h.room)
              (sym (ap (λ (i : ℕ). (r.tail + i) % 2 ^ k) z) ∙ sym h.head_at ∙ sym e)
          where
            steps-ne-last : suc c < 2 ^ k → (r.tail + suc c) % 2 ^ k ≢ r.tail
            steps-ne-last lt = steps-ne (2 ^ k) r.tail c h.tail_in lt

  -- The oldest item is in the cell at the tail, and a step of the tail drops it.
  pub drop_oldest :
      (r : Ring A) (x : A) (q : List A)
      → Holds k d r (x ∷ q)
      → (get_or r.buf r.tail d ≡ x) × Holds k d (record r { tail = next (2 ^ k) r.tail }) q
  drop_oldest r x q h = (
    cons_head h.items,
    record {
      fits = h.fits;
      cells = h.cells;
      tail_in = rw step (mod-lt (r.tail + 1) (omega (arith, h.room)));
      room = omega (arith, h.room);
      head_at =
          h.head_at
          ∙ sym (steps_shift (2 ^ k) r.tail (length q))
          ∙ ap (λ (t : ℕ). (t + length q) % 2 ^ k) (sym step);
      items = ap (λ (t : ℕ). window (2 ^ k) d r.buf t (length q)) step ∙ cons_tail h.items;
    },
  )
    where
      step : next (2 ^ k) r.tail ≡ (r.tail + 1) % 2 ^ k
      step = next-eq-mod k r.tail h.fits h.tail_in

  pub push_refines :
      (r : Ring A) (q : List A) (x : A)
      → Holds k d r q
      → ((push (2 ^ k) r x).0 ≡ (queue_push (2 ^ k) q x).0)
        × Holds k d (push (2 ^ k) r x).1 (queue_push (2 ^ k) q x).1
  unfolding push queue_push
  push_refines r q x h = elim (dec_lt (suc (length q)) (2 ^ k)) [
    | yes lt ↦
        rw (==_false _ _ (next_head-room r q h lt), ==_false (length q) (2 ^ k - 1) (omega arith))
          (refl, extend-Holds r q h x lt)
    | no full ↦
        rw
          (
            (==_iff _ _).1 (next_head-full r q h (omega (arith, h.room))),
            (==_iff (length q) (2 ^ k - 1)).1 (omega (arith, h.room)),
          )
          (refl, h)
  ]

  -- With a cell to spare `push` succeeds.
  pub push_room :
      (r : Ring A) (q : List A) (x : A)
      → Holds k d r q
      → suc (length q) < 2 ^ k
      → ((push (2 ^ k) r x).0 ≡ true) × Holds k d (push (2 ^ k) r x).1 (q ++ (x ∷ []))
  unfolding push
  push_room r q x h lt = rw (==_false _ _ (next_head-room r q h lt)) (refl, extend-Holds r q h x lt)

  -- `push` either queues the item or changes nothing that the ring holds.
  pub push_outcome :
      (r : Ring A) (q : List A) (x : A)
      → Holds k d r q
      → (((push (2 ^ k) r x).0 ≡ true) × Holds k d (push (2 ^ k) r x).1 (q ++ (x ∷ [])))
        ⊎ (((push (2 ^ k) r x).0 ≡ false) × Holds k d (push (2 ^ k) r x).1 q)
  unfolding queue_push
  push_outcome r q x h = by_full (length q == 2 ^ k - 1) (push_refines r q x h)
    where
      by_full :
          (b : Bool)
          → let s = if◌then◌else◌ {A = Bool × List A} b (false, q) (true, q ++ (x ∷ [])) in
            ((push (2 ^ k) r x).0 ≡ s.0) × Holds k d (push (2 ^ k) r x).1 s.1
            → (((push (2 ^ k) r x).0 ≡ true) × Holds k d (push (2 ^ k) r x).1 (q ++ (x ∷ [])))
              ⊎ (((push (2 ^ k) r x).0 ≡ false) × Holds k d (push (2 ^ k) r x).1 q)
      by_full true p = inr p
      by_full false p = inl p

  pub pop_refines :
      (r : Ring A) (q : List A) (out : A)
      → Holds k d r q
      → ((pop (2 ^ k) r out).0 ≡ (queue_pop q out).0)
        × ((pop (2 ^ k) r out).1 ≡ (queue_pop q out).1)
        × Holds k d (pop (2 ^ k) r out).2 (queue_pop q out).2
  unfolding pop queue_pop
  pop_refines r [] out h =
      rw
        ((==_iff r.tail r.head).1
          (sym (h.head_at ∙ ap (λ (x : ℕ). x % 2 ^ k) (add-zero r.tail) ∙ mod-eq_of_lt h.tail_in)))
        (refl, refl, h)
  pop_refines r (x ∷ q) out h =
      rw (==_false r.tail r.head (tail-ne-head r (x ∷ q) h (λ e. omega arith))) (
        refl,
        get_or-any r.buf r.tail out d (omega (arith, h.cells, h.tail_in)) ∙ (drop_oldest r x q h).0,
        (drop_oldest r x q h).1,
      )
