-- ===== src/FastPath/Path/Alias.antt =====
-- What becomes of two packets that `alloc` puts into the same buffer, and of one packet in the
-- pipeline.
use g_5g_ims_simulators.Prelude.{
  ℕ, suc, ◌<◌, ◌≡◌, refl, ◌∙◌, sym, true, some, List, [], ◌∷◌, ◌++◌, arith, length, get_elem?,
  length-append, append_assoc,
}
use g_5g_ims_simulators.FastPath.Ring.Refine.{Holds, push_room}
use g_5g_ims_simulators.FastPath.Packet.{Packet}
use g_5g_ims_simulators.FastPath.Pool.{Mbuf, update, alloc}
use g_5g_ims_simulators.FastPath.Pool.Alloc.{length-update, alloc_at_end, alloc_at_start}
use g_5g_ims_simulators.FastPath.Path.{DpdkPath, rx_enqueue, offer, ring_bits, ring_size}
use g_5g_ims_simulators.FastPath.Path.Account.{Accounted}

get-update_first :
    (ms : List Mbuf) (f : Mbuf → Mbuf) (b : Mbuf)
    → 0 < length ms
    → ((c : Mbuf) → f c ≡ b)
    → get_elem? (update ms 0 f) 0 ≡ some b
unfolding update
get-update_first [] f b h e = absurd (omega arith)
get-update_first (m ∷ ms) f b h e = rw e

-- A packet that arrives while the pool hands out its first buffer and the ring has room.
first_buffer :
    (s : DpdkPath) (q : List ℕ) (pkt : Packet)
    → (alloc s.pool).0 ≡ some 0
    → 0 < length (alloc s.pool).1.mbufs
    → Holds ring_bits 0 s.rx_ring q
    → suc (length q) < ring_size
    → let r = rx_enqueue s pkt in
      (r.0 ≡ true)
      × Holds ring_bits 0 r.1.rx_ring (q ++ (0 ∷ []))
      × (get_elem? r.1.pool.mbufs 0 ≡ some (record { pkt = pkt; in_use = true }))
      × (length r.1.pool.mbufs ≡ length (alloc s.pool).1.mbufs)
      × (r.1.pool.next ≡ (alloc s.pool).1.next)
unfolding rx_enqueue offer
first_buffer s q pkt e pos h room =
    let (ok, h') = push_room ring_bits 0 s.rx_ring q 0 h room in
    rw (e, ok) (refl, h', get-update_first _ _ _ pos (λ c. refl), length-update _ 0 _, refl)

-- When the pool's counter stands at its end and the ring has room for two, two arrivals in a row
-- are both accepted and put buffer 0 into the ring twice, and the buffer holds the second packet:
-- the first is lost, though both were counted as received, and the second is processed twice.
pub lost_packet :
    (n : ℕ) (s : DpdkPath) (q : List ℕ) (first second : Packet)
    → 0 < n
    → Accounted n s q
    → s.pool.next ≡ n
    → suc (suc (length q)) < ring_size
    → let one = rx_enqueue s first in
      let two = rx_enqueue one.1 second in
      (one.0 ≡ true)
      × (two.0 ≡ true)
      × Holds ring_bits 0 two.1.rx_ring (q ++ (0 ∷ 0 ∷ []))
      × (get_elem? two.1.pool.mbufs 0 ≡ some (record { pkt = second; in_use = true }))
lost_packet n s q first second pos a e room =
    let (got, size, zeroed) = alloc_at_end s.pool (e ∙ sym a.pooled.sized) in
    let (ok, held, filled, sized, at) =
      first_buffer s q first got (omega (arith, size, a.pooled.sized)) a.held (omega arith) in
    let s1 = (rx_enqueue s first).1 in
    let (got', size') =
      alloc_at_start s1.pool (at ∙ zeroed) (omega (arith, sized, size, a.pooled.sized)) in
    let (ok', held', filled', _, _) =
      first_buffer s1 (q ++ (0 ∷ [])) second got'
        (omega (arith, size', sized, size, a.pooled.sized)) held
        (omega (arith, length-append q (0 ∷ []))) in
    (ok, ok', rw append_assoc at held', filled')
