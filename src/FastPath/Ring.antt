-- ===== src/FastPath/Ring.antt =====
-- ring_buffer.h: `SPSCRing<T, N>`. `n` is the template argument N, and `size_t` has 64 bits.
pub mod Window
pub mod Refine
pub mod Burst
pub mod Spsc
use g_5g_ims_simulators.Prelude.{
  ℕ, zero, suc, ◌+◌, ◌-◌, ◌%◌, ◌^◌, bit_and, Bool, true, false, List, [], ◌∷◌, ltb, ◌==◌,
  if◌then◌else◌, get_or, set, replicate,
}

pub record Ring {ℓ} (A : Type ℓ) : Type ℓ where
  pub head : ℕ
  pub tail : ℕ
  pub buf : List A

abbrev pub size_t : ℕ → ℕ
size_t x = x % 2 ^ 64

-- `x & (N - 1)`
pub wrap : ℕ → ℕ → ℕ
wrap n x = bit_and x (n - 1)

-- `(h + 1) & (N - 1)`
pub next : ℕ → ℕ → ℕ
unfolding wrap
next n h = wrap n (size_t (h + 1))

-- `(h - t) & (N - 1)`: the difference wraps before the mask is applied.
pub distance : ℕ → ℕ → ℕ → ℕ
unfolding wrap
distance n h t = wrap n (size_t (2 ^ 64 + h - t))

pub capacity : ℕ → ℕ
capacity n = n - 1

module _ {ℓ} {A : Type ℓ} where
  -- The constructor. The array is not initialised: `garbage` is what its cells hold.
  pub init : ℕ → A → Ring A
  init n garbage = record { head = 0; tail = 0; buf = replicate n garbage }

  pub push : ℕ → Ring A → A → Bool × Ring A
  unfolding next
  push n r val =
      let next_h = next n r.head in
      if next_h == r.tail
      then (false, r)
      else (true, record r { head = next_h; buf = set r.buf r.head val })

  -- `out` is the reference parameter: it keeps its value if the ring is empty.
  pub pop : ℕ → Ring A → A → Bool × A × Ring A
  unfolding next
  pop n r out =
      if r.tail == r.head
      then (false, out, r)
      else (true, get_or r.buf r.tail out, record r { tail = next n r.tail })

  -- The copying loop of `pop_burst`: `count` cells from `tail + i` on. `d` stands for a read out
  -- of the array, which does not happen on a ring that holds a queue.
  pub read_slots : ℕ → List A → A → ℕ → ℕ → ℕ → List A
  unfolding wrap
  read_slots n buf d t i zero = []
  read_slots n buf d t i (suc count) =
      get_or buf (wrap n (size_t (t + i))) d ∷ read_slots n buf d t (i + 1) count

  -- The list is what `out[0..n)` receives; its length is the value returned.
  pub pop_burst : ℕ → Ring A → A → ℕ → List A × Ring A
  unfolding distance read_slots wrap
  pop_burst n r d limit =
      let avail = distance n r.head r.tail in
      let count = if ltb avail limit then avail else limit in
      let out = read_slots n r.buf d r.tail 0 count in
      if ltb 0 count then (out, record r { tail = wrap n (size_t (r.tail + count)) }) else (out, r)

  pub size : ℕ → Ring A → ℕ
  unfolding distance
  size n r = distance n r.head r.tail

  pub empty : Ring A → Bool
  empty r = r.head == r.tail
