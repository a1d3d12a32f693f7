-- ===== src/FastPath/Ring/Spsc/Fifo.antt =====
-- Whatever the schedule, the consumer gets the producer's items in order, none lost, none twice.
use g_5g_ims_simulators.Prelude.{
  ℕ, zero, suc, ◌+◌, ◌%◌, ◌^◌, ◌≤◌, ◌<◌, ◌≡◌, refl, sym, ◌∙◌, ap, subst, Bool, true, false,
  Bool-cases, inl, inr, ==_iff, List, [], ◌∷◌, ◌++◌, arith, ltb, ltb→lt, ◌==◌, if◌then◌else◌,
  length, get_or, set, take, drop, append-nil, append_assoc, length-append, length-set, length-drop,
  take-append-drop,
}
use native.Mathlib.Decide.{dec_lt}
use g_5g_ims_simulators.FastPath.Ring.{Ring, wrap, next, size_t}
use g_5g_ims_simulators.FastPath.Ring.Window.{wrap-eq-mod, pow-le, window, window-set}
use g_5g_ims_simulators.FastPath.Ring.Refine.{
  Holds, init-Holds, drop_oldest, next_head-full, extend-Holds,
}
use g_5g_ims_simulators.FastPath.Ring.Burst.{distance-Holds, burst_by, drop_many, burst_count-le}
use g_5g_ims_simulators.FastPath.Ring.Spsc.{
  Producer, writing, publishing, Consumer, copying, Spsc, Move, produce, consume, producer_step,
  consumer_step, advance, interleave, started,
}

module _ {ℓ} {A : Type ℓ} where
  take-append_le : (m : ℕ) (q : List A) (ys : List A) → m ≤ length q → take m (q ++ ys) ≡ take m q
  take-append_le zero q ys h = refl
  take-append_le (suc m) [] ys h = absurd (omega arith)
  take-append_le (suc m) (x ∷ q) ys h = ap (◌∷◌ x) (take-append_le m q ys (omega arith))

  set_twice : (xs : List A) (i : ℕ) (v : A) → set (set xs i v) i v ≡ set xs i v
  set_twice [] i v = refl
  set_twice (x ∷ xs) zero v = refl
  set_twice (x ∷ xs) (suc i) v = ap (◌∷◌ x) (set_twice xs i v)

  -- The item at index `m`, split off.
  split_at :
      (m : ℕ) (q : List A)
      → m < length q
      → (x : A) × (rest : List A) × (drop m q ≡ x ∷ rest) × (take (suc m) q ≡ take m q ++ (x ∷ []))
  split_at m [] h = absurd (omega arith)
  split_at zero (x ∷ q) h = (x, q, refl, refl)
  split_at (suc m) (y ∷ q) h =
      let (x, rest, e, t) = split_at m q (omega arith) in (x, rest, e, ap (◌∷◌ y) t)

module _ {A : Type 0} (k : ℕ) (d : A) where
  -- What holds at each point of `push`; `q` is what the ring holds.
  abbrev ProducerOk : Ring A → List A → Producer A → Type 0
  ProducerOk r q Producer.idle = Unit {0}
  ProducerOk r q (writing h next_h val) =
      (h ≡ r.head) × (next_h ≡ next (2 ^ k) r.head) × (suc (length q) < 2 ^ k)
  ProducerOk r q (publishing next_h val) =
      (next_h ≡ next (2 ^ k) r.head) × (suc (length q) < 2 ^ k) × (set r.buf r.head val ≡ r.buf)

  -- What holds at each point of `pop_burst`.
  abbrev ConsumerOk : List A → Consumer A → Type 0
  ConsumerOk q Consumer.idle = Unit {0}
  ConsumerOk q (copying count i out) = (count ≤ length q) × (i ≤ count) × (out ≡ take i q)

  pub record Inv (s : Spsc A) (q : List A) : Type 0 where
    pub held : Holds k d s.ring q
    pub producing : ProducerOk s.ring q s.producer
    pub consuming : ConsumerOk q s.consumer
    pub history : s.pushed ≡ s.popped ++ q

  -- The cell at the head is outside of what the ring holds.
  write-Holds :
      (r : Ring A) (q : List A) (v : A)
      → Holds k d r q
      → Holds k d (record r { buf = set r.buf r.head v }) q
  write-Holds r q v h = record {
    fits = h.fits;
    cells = length-set r.buf r.head v ∙ h.cells;
    tail_in = h.tail_in;
    room = h.room;
    head_at = h.head_at;
    items =
        ap (λ (i : ℕ). window (2 ^ k) d (set r.buf i v) r.tail (length q)) h.head_at
        ∙ window-set (2 ^ k) d r.buf r.tail (length q) v h.tail_in h.room
        ∙ h.items;
  }

  -- Until the producer publishes, the producer's promises outlive the consumer's progress.
  ProducerOk-fewer :
      (r : Ring A) (q q' : List A) (t : ℕ) (p : Producer A)
      → length q' ≤ length q
      → ProducerOk r q p
      → ProducerOk (record r { tail = t }) q' p
  ProducerOk-fewer r q q' t Producer.idle le ok = ok
  ProducerOk-fewer r q q' t (writing h next_h val) le ok = (ok.0, ok.1, omega (arith, ok.2))
  ProducerOk-fewer r q q' t (publishing next_h val) le ok = (ok.0, omega (arith, ok.1), ok.2)

  ProducerOk-released :
      (r : Ring A) (q q' : List A) (t : ℕ) (b : Bool) (p : Producer A)
      → length q' ≤ length q
      → ProducerOk r q p
      → ProducerOk (if b then record r { tail = t } else r) q' p
  ProducerOk-released r q q' t true p le ok = ProducerOk-fewer r q q' t p le ok
  ProducerOk-released r q q' t false p le ok = ProducerOk-fewer r q q' r.tail p le ok

  ConsumerOk-more : (q ys : List A) (c : Consumer A) → ConsumerOk q c → ConsumerOk (q ++ ys) c
  ConsumerOk-more q ys Consumer.idle ok = ok
  ConsumerOk-more q ys (copying count i out) ok = (
    omega (arith, length-append q ys, ok.0),
    ok.1,
    ok.2 ∙ sym (take-append_le i q ys (omega (arith, ok.0, ok.1))),
  )

  -- The result of a producer's step: the ring holds what it held, and behind it the new items.
  producer_step-ok :
      (r : Ring A) (p : Producer A) (v : A) (q : List A)
      → Holds k d r q
      → ProducerOk r q p
      → let (r', p', new) = producer_step (2 ^ k) d r p v in
        Holds k d r' (q ++ new) × ProducerOk r' (q ++ new) p'
  unfolding producer_step
  producer_step-ok r Producer.idle v q h ok = elim (Bool-cases (next (2 ^ k) r.head == r.tail)) [
    | inl full ↦ rw (full, append-nil) (h, tt)
    | inr room ↦ rw (room, append-nil) (h, (refl, refl, space room))
  ]
    where
      space : (next (2 ^ k) r.head == r.tail) ≡ false → suc (length q) < 2 ^ k
      space room = elim (dec_lt (suc (length q)) (2 ^ k)) [
        | yes lt ↦ lt
        | no ge ↦
            absurd
              (false-ne room ((==_iff _ _).1 (next_head-full k d r q h (omega (arith, h.room)))))
      ]
        where
          false-ne : {b : Bool} → b ≡ false → b ≡ true → ⊥
          false-ne e f = cc
  producer_step-ok r (writing i next_h val) v q h (at, e, lt) =
      rw (append-nil, at) (write-Holds r q val h, (e, lt, set_twice r.buf r.head val))
  producer_step-ok r (publishing next_h val) v q h (e, lt, written) = (
    subst (λ (b : List A). Holds k d (record r { head = next_h; buf = b }) (q ++ (val ∷ [])))
        written
        (subst
          (λ (i : ℕ).
            Holds k d (record r { head = i; buf = set r.buf r.head val }) (q ++ (val ∷ [])))
          (sym e) (extend-Holds k d r q h val lt)),
    tt,
  )

  -- The cell that the loop copies holds the item that is next.
  copied :
      (r : Ring A) (q : List A) (i : ℕ)
      → Holds k d r q
      → i < length q
      → take i q ++ (get_or r.buf (wrap (2 ^ k) (size_t (r.tail + i))) d ∷ []) ≡ take (i + 1) q
  copied r q i h lt =
      let (x, rest, e, grown) = split_at i q lt in
      let front = (drop_many k d i r q h (omega arith)).1 in
      ap (λ y. take i q ++ (y ∷ []))
        (ap (λ (j : ℕ). get_or r.buf j d) index
          ∙ (drop_oldest k d _ x rest (
              subst (λ (xs : List A). Holds k d (record r { tail = (r.tail + i) % 2 ^ k }) xs) e
                front)).0)
      ∙ sym grown
      ∙ ap (λ (m : ℕ). take m q) {x = suc i} {y = i + 1} (omega arith)
    where
      index : wrap (2 ^ k) (size_t (r.tail + i)) ≡ (r.tail + i) % 2 ^ k
      index =
          wrap-eq-mod k (size_t (r.tail + i))
          ∙ ap (λ (x : ℕ). x % 2 ^ k) {x = size_t (r.tail + i)} {y = r.tail + i}
              (omega (arith, pow-le k h.fits, h.tail_in, h.room))

  -- The result of a consumer's step: what it releases was the front of the ring.
  record Consumed (r : Ring A) (q : List A) (res : Ring A × Consumer A × List A) : Type 0 where
    left : List A
    holds : Holds k d res.0 left
    consumes : ConsumerOk left res.1
    front : q ≡ res.2 ++ left
    produces : (p : Producer A) → ProducerOk r q p → ProducerOk res.0 left p

  consumer_step-ok :
      (r : Ring A) (c : Consumer A) (limit : ℕ) (q : List A)
      → Holds k d r q
      → ConsumerOk q c
      → Consumed r q (consumer_step (2 ^ k) d r c limit)
  unfolding consumer_step
  consumer_step-ok r Consumer.idle limit q h ok = record {
    left = q;
    holds = h;
    consumes = rw (distance-Holds k d r q h) (burst_count-le q limit, omega arith, refl);
    front = refl;
    produces = λ p is. is;
  }
  consumer_step-ok r (copying count i out) limit q h (fits, le, e) =
      elim (Bool-cases (ltb i count)) [
        | inl more ↦ rw more (record {
          left = q;
          holds = h;
          consumes = (
            fits,
            omega (arith, ltb→lt i count more),
            ap (λ xs. xs ++ (get_or r.buf (wrap (2 ^ k) (size_t (r.tail + i))) d ∷ [])) e
                ∙ copied r q i h (omega (arith, ltb→lt i count more)),
          );
          front = refl;
          produces = λ p is. is;
        })
        | inr done ↦ rw done (record {
          left = drop count q;
          holds = (burst_by k d r q count h fits).1;
          consumes = tt;
          front =
              sym (take-append-drop count q)
              ∙ ap (λ xs. xs ++ drop count q)
                  (ap (λ (m : ℕ). take m q) {x = count} {y = i} (ground arith) ∙ sym e);
          produces = λ p is.
              ProducerOk-released r q (drop count q) (wrap (2 ^ k) (size_t (r.tail + count)))
                (ltb 0 count) p (omega (arith, length-drop count q)) is;
        })
      ]

  -- Some queue explains the state: it is what has been pushed and not yet released.
  pub advance-Inv :
      (s : Spsc A) (m : Move A) (q : List A)
      → Inv s q
      → (q' : List A) × Inv (advance (2 ^ k) d s m) q'
  unfolding advance
  advance-Inv s (produce v) q inv =
      let ok = producer_step-ok s.ring s.producer v q inv.held inv.producing in
      let new = (producer_step (2 ^ k) d s.ring s.producer v).2 in
      (
        q ++ new,
        record {
          held = ok.0;
          producing = ok.1;
          consuming = ConsumerOk-more q new s.consumer inv.consuming;
          history = ap (λ xs. xs ++ new) inv.history ∙ append_assoc s.popped q new;
        },
      )
  advance-Inv s (consume limit) q inv =
      let ok = consumer_step-ok s.ring s.consumer limit q inv.held inv.consuming in
      let done = (consumer_step (2 ^ k) d s.ring s.consumer limit).2 in
      (
        ok.left,
        record {
          held = ok.holds;
          producing = ok.produces s.producer inv.producing;
          consuming = ok.consumes;
          history =
              inv.history
              ∙ ap (λ xs. s.popped ++ xs) ok.front
              ∙ sym (append_assoc s.popped done ok.left);
        },
      )

  interleave-Inv :
      (s : Spsc A) (ms : List (Move A)) (q : List A)
      → Inv s q
      → (q' : List A) × Inv (interleave (2 ^ k) d s ms) q'
  unfolding interleave
  interleave-Inv s [] q inv = (q, inv)
  interleave-Inv s (m ∷ ms) q inv =
      let (q', inv') = advance-Inv s m q inv in interleave-Inv (advance (2 ^ k) d s m) ms q' inv'

  -- From an empty ring of 2 ^ k cells (k ≤ 63), after any interleaving of the two threads' steps,
  -- what the producer has published is what the consumer has released, in the same order, followed
  -- by what the ring still holds: fewer than 2 ^ k items, the queue that `Holds` reads off the cells.
  pub interleave-fifo :
      (ms : List (Move A))
      → k ≤ 63
      → let s = interleave (2 ^ k) d (started (2 ^ k) d) ms in
        (q : List A) × Holds k d s.ring q × (s.pushed ≡ s.popped ++ q) × (length q < 2 ^ k)
  unfolding started
  interleave-fifo ms h =
      let (q, inv) = interleave-Inv (started (2 ^ k) d) ms [] start in
      (q, inv.held, inv.history, inv.held.room)
    where
      start : Inv (started (2 ^ k) d) []
      start = record { held = init-Holds k d h; producing = tt; consuming = tt; history = refl }
