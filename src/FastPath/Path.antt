-- ===== src/FastPath/Path.antt =====
-- dpdk_path.h: the receive side, the poll loop and the three-stage pipeline. The thread's clock
-- readings are arguments, and a pointer to a buffer is its index in the pool.
pub mod Account
pub mod Alias
use g_5g_ims_simulators.Prelude.{
  ℕ, zero, suc, ◌+◌, ◌%◌, ◌^◌, Bool, true, false, Option, none, some, List, [], ◌∷◌, ◌==◌,
  if◌then◌else◌, length, get_elem?,
}
use g_5g_ims_simulators.FastPath.Ring.{Ring, init, push, pop_burst}
use g_5g_ims_simulators.FastPath.Packet.{Packet}
use g_5g_ims_simulators.FastPath.Rules.{
  Pdr, Far, FarAction, forward, drop, buffer, RuleTable, match_pdr, get_far,
}
use g_5g_ims_simulators.FastPath.Pool.{Mbuf, MbufPool, new_pool, update, alloc, free_mbuf}
use g_5g_ims_simulators.FastPath.Stats.{PathStats, bump, record_latency}

abbrev pub burst_size : ℕ
burst_size = 32

-- RING_SIZE, 4096
abbrev pub ring_bits : ℕ
ring_bits = 12

abbrev pub ring_size : ℕ
ring_size = 2 ^ ring_bits

pub record DpdkPath : Type 0 where
  pub rules : RuleTable
  pub rx_ring : Ring ℕ
  pub pool : MbufPool
  pub running : Bool
  pub stats : PathStats

-- The constructor, for a pool of `n` buffers (65536 in the source).
pub new_path : RuleTable → ℕ → Mbuf → PathStats → DpdkPath
new_path rules n blank stats = record {
  rules = rules;
  rx_ring = init ring_size 0;
  pool = new_pool n blank;
  running = false;
  stats = stats;
}

pub start : DpdkPath → DpdkPath
start s = record s { running = true }

pub stop : DpdkPath → DpdkPath
stop s = record s { running = false }

count_drop : DpdkPath → DpdkPath
count_drop s = record s { stats = record s.stats { pkts_dropped = bump s.stats.pkts_dropped } }

free : DpdkPath → Option ℕ → DpdkPath
unfolding free_mbuf
free s m = record s { pool = free_mbuf s.pool m }

-- `m->pkt = …`
abbrev pub put_pkt : Packet → Mbuf → Mbuf
put_pkt pkt m = record m { pkt = pkt }

-- The buffer that `alloc` gave is filled and offered to the ring.
offer : DpdkPath → Packet → Option ℕ → Bool × DpdkPath
unfolding count_drop free update
offer s pkt none = (false, count_drop s)
offer s pkt (some m) =
    let filled = record s.pool {
      mbufs = update s.pool.mbufs m (λ b. record { pkt = pkt; in_use = true });
    } in
    let (pushed, ring) = push ring_size s.rx_ring m in
    let s1 = record s { pool = filled; rx_ring = ring } in
    if pushed then (true, s1) else (false, count_drop (free s1 (some m)))

pub rx_enqueue : DpdkPath → Packet → Bool × DpdkPath
unfolding offer
rx_enqueue s pkt =
    let s1 = record s { stats = record s.stats { pkts_rx = bump s.stats.pkts_rx } } in
    let (m, pool) = alloc s1.pool in offer (record s1 { pool = pool }) pkt m

is_drop : FarAction → Bool
is_drop drop = true
is_drop _ = false

-- The end of the pipeline for one packet: drop, or count it as forwarded.
finish : DpdkPath → ℕ → ℕ → Packet → Option Far → DpdkPath
unfolding count_drop free update is_drop
finish s now m pkt far =
    let discarded =
      free
        (count_drop (record s {
          pool = record s.pool {
            mbufs = update s.pool.mbufs m (put_pkt (record pkt { dropped = true }));
          };
        }))
        (some m) in
    let counted = record s.stats { pkts_forwarded = bump s.stats.pkts_forwarded } in
    let sent = free (record s { stats = record_latency counted pkt.arrival_ns now }) (some m) in
    elim far [ none ↦ discarded | some f ↦ if is_drop f.action then discarded else sent ]

-- The stages of `process_burst` for one packet. The QER is looked up and not used.
classify : DpdkPath → ℕ → ℕ → Packet → Option Pdr → DpdkPath
unfolding count_drop free finish update
classify s now m pkt none =
    free
      (count_drop (record s { stats = record s.stats { pkts_no_pdr = bump s.stats.pkts_no_pdr } }))
      (some m)
classify s now m pkt (some pdr) =
    let known = record pkt { pdr_id = pdr.pdr_id; far_id = pdr.far_id; classified = true } in
    finish (record s { pool = record s.pool { mbufs = update s.pool.mbufs m (put_pkt known) } }) now
      m known (get_far s.rules pdr.far_id)

-- The burst holds indices of the pool only, so that the read succeeds.
pub process_one : DpdkPath → ℕ → ℕ → DpdkPath
unfolding classify
process_one s now m = elim (get_elem? s.pool.mbufs m) [
  | none ↦ s
  | some b ↦ classify s now m b.pkt (match_pdr s.rules b.pkt)
]

pub process_burst : DpdkPath → ℕ → List ℕ → DpdkPath
process_burst s now [] = s
process_burst s now (m ∷ ms) = process_burst (process_one s now m) now ms

-- One round of a poll loop; the number is what `pop_burst` returned.
pub poll : DpdkPath → ℕ → ℕ × DpdkPath
poll s now =
    let (burst, ring) = pop_burst ring_size s.rx_ring 0 burst_size in
    (length burst, process_burst (record s { rx_ring = ring }) now burst)

-- The second loop of `lcore_poll_loop`, which runs after `stop`, with fuel for its rounds.
pub drain : ℕ → (ℕ → ℕ) → DpdkPath → Option DpdkPath
drain zero clock s = none
drain (suc fuel) clock s =
    let (n, s') = poll s (clock fuel) in
    let rest = drain fuel clock s' in if n == 0 then some s' else rest

-- What happens to a running path: packets arrive, and the loop polls at a clock reading.
pub data Event : Type 0 where
  arrives : Packet → Event
  polls : ℕ → Event

pub after : DpdkPath → List Event → DpdkPath
after s [] = s
after s (arrives pkt ∷ es) = after (rx_enqueue s pkt).1 es
after s (polls now ∷ es) = after (poll s now).1 es
