-- ===== src/FastPath/Ring/Spsc.antt =====
-- `push` and `pop_burst` of ring_buffer.h under concurrency: one producer thread and one consumer
-- thread, whose atomic loads and stores, cell writes and cell reads interleave in any order.
-- Acquire and release make each cursor's store and the other side's load one point of a single
-- order, so the interleavings of these steps are what the two threads can do.
pub mod Fifo
use g_5g_ims_simulators.Prelude.{
  ℕ, zero, ◌+◌, Bool, true, false, List, [], ◌∷◌, ◌++◌, ltb, ◌==◌, if◌then◌else◌, get_or, set,
}
use g_5g_ims_simulators.FastPath.Ring.{Ring, init, next, distance, wrap, size_t}

-- Where `push` stands: before it, past the test for a full ring, past the write of the cell.
pub data Producer {ℓ} (A : Type ℓ) : Type ℓ where
  idle : Producer A
  writing : ℕ → ℕ → A → Producer A
  publishing : ℕ → A → Producer A

-- Where `pop_burst` stands: before it, or in its loop with the count, the index and `out[0..i)`.
pub data Consumer {ℓ} (A : Type ℓ) : Type ℓ where
  idle : Consumer A
  copying : ℕ → ℕ → List A → Consumer A

-- `pushed` lists what has been made visible to the consumer, `popped` what it has released.
pub record Spsc {ℓ} (A : Type ℓ) : Type ℓ where
  pub ring : Ring A
  pub producer : Producer A
  pub consumer : Consumer A
  pub pushed : List A
  pub popped : List A

-- A schedule says which thread moves. An idle producer begins a `push` of the item, an idle
-- consumer a `pop_burst` with the limit; otherwise the thread goes on with its call.
pub data Move {ℓ} (A : Type ℓ) : Type ℓ where
  produce : A → Move A
  consume : ℕ → Move A

module _ {ℓ} {A : Type ℓ} (n : ℕ) (d : A) where
  pub producer_step : Ring A → Producer A → A → Ring A × Producer A × List A
  producer_step r idle val =
      if next n r.head == r.tail
      then (r, Producer.idle, [])
      else (r, writing r.head (next n r.head) val, [])
  producer_step r (writing h next_h val) _ =
      (record r { buf = set r.buf h val }, publishing next_h val, [])
  producer_step r (publishing next_h val) _ = (record r { head = next_h }, Producer.idle, val ∷ [])

  pub consumer_step : Ring A → Consumer A → ℕ → Ring A × Consumer A × List A
  consumer_step r idle limit =
      let avail = distance n r.head r.tail in
      (r, copying (if ltb avail limit then avail else limit) 0 [], [])
  consumer_step r (copying count i out) _ =
      if ltb i count
      then (
        r,
        copying count (i + 1) (out ++ (get_or r.buf (wrap n (size_t (r.tail + i))) d ∷ [])),
        [],
      )
      else (
        if ltb 0 count then record r { tail = wrap n (size_t (r.tail + count)) } else r,
        Consumer.idle,
        out,
      )

  pub advance : Spsc A → Move A → Spsc A
  unfolding producer_step consumer_step
  advance s (produce val) =
      let (r, p, new) = producer_step s.ring s.producer val in
      record s { ring = r; producer = p; pushed = s.pushed ++ new }
  advance s (consume limit) =
      let (r, c, done) = consumer_step s.ring s.consumer limit in
      record s { ring = r; consumer = c; popped = s.popped ++ done }

  pub interleave : Spsc A → List (Move A) → Spsc A
  interleave s [] = s
  interleave s (m ∷ ms) = interleave (advance s m) ms

  pub started : Spsc A
  started = record {
    ring = init n d;
    producer = Producer.idle;
    consumer = Consumer.idle;
    pushed = [];
    popped = [];
  }
