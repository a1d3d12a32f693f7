-- ===== src/FastPath/Pool.antt =====
-- mbuf_pool.h: the buffer pool. A pointer into the pool is the index of its buffer.
pub mod Alloc
use g_5g_ims_simulators.Prelude.{
  ℕ, zero, suc, ◌+◌, ◌%◌, ◌^◌, Bool, true, false, Option, none, some, List, [], ◌∷◌, leb,
  if◌then◌else◌, length, replicate,
}
use g_5g_ims_simulators.FastPath.Packet.{Packet}

pub record Mbuf : Type 0 where
  pub pkt : Packet
  pub in_use : Bool

pub record MbufPool : Type 0 where
  pub mbufs : List Mbuf
  pub next : ℕ  -- atomic uint32

-- `pool_[i]` changed in place.
unfoldable pub update : List Mbuf → ℕ → (Mbuf → Mbuf) → List Mbuf
update [] i f = []
update (m ∷ ms) zero f = f m ∷ ms
update (m ∷ ms) (suc i) f = m ∷ update ms i f

abbrev pub mark : Bool → Mbuf → Mbuf
mark b m = record m { in_use = b }

-- The constructor; `blank` is the value-initialised buffer.
pub new_pool : ℕ → Mbuf → MbufPool
new_pool n blank = record { mbufs = replicate n blank; next = 0 }

-- `fetch_add` returns the old value and wraps at 32 bits. `none` is the null pointer.
pub alloc : MbufPool → Option ℕ × MbufPool
unfolding update
alloc p =
    let idx = p.next in
    let bumped = (p.next + 1) % 2 ^ 32 in
    if leb (length p.mbufs) idx
    then (some 0, record { mbufs = update p.mbufs 0 (mark true); next = 0 })
    else (some idx, record { mbufs = update p.mbufs idx (mark true); next = bumped })

unfoldable pub free_mbuf : MbufPool → Option ℕ → MbufPool
unfolding update
free_mbuf p none = p
free_mbuf p (some m) = record p { mbufs = update p.mbufs m (mark false) }
