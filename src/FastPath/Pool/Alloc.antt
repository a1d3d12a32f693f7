-- ===== src/FastPath/Pool/Alloc.antt =====
-- Which buffers `alloc` hands out.
use g_5g_ims_simulators.Prelude.{
  ℕ, zero, suc, ◌+◌, ◌^◌, ◌≤◌, ◌<◌, ◌≡◌, refl, ap, ap₂, ◌∙◌, true, Option, some, List, [], ◌∷◌,
  arith, leb, if◌then◌else◌, length, length-replicate,
}
use g_5g_ims_simulators.FastPath.Pool.{new_pool, Mbuf, MbufPool, update, mark, alloc}

pub length-update : (ms : List Mbuf) (i : ℕ) (f : Mbuf → Mbuf) → length (update ms i f) ≡ length ms
unfolding update
length-update [] i f = refl
length-update (m ∷ ms) zero f = refl
length-update (m ∷ ms) (suc i) f = ap suc (length-update ms i f)

-- The number of buffers handed out until the pool starts over.
pub record IsValid (n : ℕ) (p : MbufPool) : Type 0 where
  pub sized : length p.mbufs ≡ n
  pub within : p.next ≤ n

-- On a pool of 1 to 2 ^ 32 - 1 buffers `alloc` keeps the pool valid and never returns the null pointer: it
-- returns a buffer of the pool, the one at the counter, or the first if the counter is at the end.
pub alloc-IsValid :
    (n : ℕ) (p : MbufPool)
    → 0 < n
    → n < 2 ^ 32
    → IsValid n p
    → (i : ℕ) × ((alloc p).0 ≡ some i)
      × (i < n)
      × (i ≡ (if leb n p.next then 0 else p.next))
      × IsValid n (alloc p).1
unfolding alloc
alloc-IsValid n p pos small v = (
  (if leb n p.next then 0 else p.next),
  ground (arith, v.sized),
  ground (arith, v.within),
  refl,
  valid,
)
  where
    valid : IsValid n (alloc p).1
    valid = ground (
      arith,
      v.sized,
      v.within,
      length-update p.mbufs 0 (mark true),
      length-update p.mbufs p.next (mark true),
    )

-- The counter is set back to 0 together with handing out buffer 0, and not to 1: a pool at its end
-- hands out buffer 0 twice in a row, whether or not the first packet is still on its way.
pub alloc_twice :
    (n : ℕ) (p : MbufPool)
    → 0 < n
    → IsValid n p
    → p.next ≡ n
    → ((alloc p).0 ≡ some 0) × ((alloc (alloc p).1).0 ≡ some 0)
unfolding alloc
alloc_twice n p pos v e =
    (ground (arith, v.sized), ground (arith, v.sized, length-update p.mbufs 0 (mark true)))

-- What `count` calls in a row return.
pub allocs : ℕ → MbufPool → List (Option ℕ)
allocs zero p = []
allocs (suc count) p = (alloc p).0 ∷ allocs count (alloc p).1

abbrev pub indices : ℕ → ℕ → List (Option ℕ)
indices i zero = []
indices i (suc count) = some i ∷ indices (i + 1) count

-- Up to the end of the pool the buffers are handed out one after the other, each once.
pub allocs-indices :
    (n count : ℕ) (p : MbufPool)
    → n < 2 ^ 32
    → IsValid n p
    → p.next + count ≤ n
    → allocs count p ≡ indices p.next count
unfolding allocs
allocs-indices n zero p small v le = refl
allocs-indices n (suc count) p small v le =
    let (i, e, lt, at, v') = alloc-IsValid n p (omega arith) small v in
    ap₂ ◌∷◌ (e ∙ ap some (at ∙ here)) (
      allocs-indices n count (alloc p).1 small v' (omega (arith, bumped))
      ∙ ap (λ (j : ℕ). indices j count) bumped)
  where
    here : (if leb n p.next then 0 else p.next) ≡ p.next
    here = ground arith

    bumped : (alloc p).1.next ≡ p.next + 1
    bumped = unfold alloc in ground (arith, v.sized)

pub new_pool-length : (n : ℕ) (blank : Mbuf) → length (new_pool n blank).mbufs ≡ n
unfolding new_pool
new_pool-length n blank = length-replicate n blank

pub new_pool-next : (n : ℕ) (blank : Mbuf) → (new_pool n blank).next ≤ n
unfolding new_pool
new_pool-next n blank = omega arith

pub alloc_at_end :
    (p : MbufPool)
    → p.next ≡ length p.mbufs
    → ((alloc p).0 ≡ some 0) × (length (alloc p).1.mbufs ≡ length p.mbufs) × ((alloc p).1.next ≡ 0)
unfolding alloc
alloc_at_end p e = (ground arith, ground (arith, length-update p.mbufs 0 (mark true)), ground arith)

pub alloc_at_start :
    (p : MbufPool)
    → p.next ≡ 0
    → 0 < length p.mbufs
    → ((alloc p).0 ≡ some 0) × (length (alloc p).1.mbufs ≡ length p.mbufs)
unfolding alloc
alloc_at_start p e pos = (ground arith, ground (arith, length-update p.mbufs 0 (mark true), e))
