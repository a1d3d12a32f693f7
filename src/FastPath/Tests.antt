-- ===== src/FastPath/Tests.antt =====
-- The fast path at concrete inputs.
use g_5g_ims_simulators.Prelude.{
  ℕ, ◌+◌, ◌-◌, ◌%◌, ◌^◌, ◌<◌, ◌≤◌, ◌≡◌, refl, true, false, some, List, [], ◌∷◌, ◌++◌, arith, ◌==◌,
  leb, if◌then◌else◌, ◌>>=◌, length, get_elem?, drop,
}
use g_5g_ims_simulators.Prelude.Tables.{find}
use g_5g_ims_simulators.FastPath.Ring.{Ring, init}
use g_5g_ims_simulators.FastPath.Ring.Refine.{Holds, init-Holds}
use g_5g_ims_simulators.FastPath.Ring.Burst.{
  Call, pushes, pops, bursts, run, queue_run, run_refines, burst_count,
}
use g_5g_ims_simulators.FastPath.Ring.Spsc.{Move, produce, consume, interleave, started}
use g_5g_ims_simulators.FastPath.Ring.Spsc.Fifo.{interleave-fifo}
use g_5g_ims_simulators.FastPath.Packet.{Packet, ul, dl}
use g_5g_ims_simulators.FastPath.Rules.{
  Pdr, forward, no_rules, add_pdr, match_pdr, pdr_key, build_demo_rules, base_teid, base_ue_ip,
  demo_ul_pdr, demo_ul_far, demo_dl_pdr, demo_dl_far, demo_qer, n6_gw_ip, gnb_n3_ip,
}
use g_5g_ims_simulators.FastPath.Rules.Lookup.{selects, match-add_pdr, stale_teid}
use g_5g_ims_simulators.FastPath.Rules.Demo.{Routed, demo_uplink, demo_downlink}
use g_5g_ims_simulators.FastPath.Pool.{Mbuf, MbufPool, alloc}
use g_5g_ims_simulators.FastPath.Pool.Alloc.{alloc-IsValid, allocs, indices, allocs-indices}
use g_5g_ims_simulators.FastPath.Pool.Alloc
use g_5g_ims_simulators.Prelude.{replicate, length-replicate}
use g_5g_ims_simulators.FastPath.Stats.{PathStats, reservoir_size, compute_percentiles}
use g_5g_ims_simulators.FastPath.Stats.Order.{percentiles_ordered}
use g_5g_ims_simulators.FastPath.Path.{
  DpdkPath, Event, arrives, polls, after, new_path, stop, drain, poll, rx_enqueue, ring_size,
  ring_bits, burst_size,
}
use g_5g_ims_simulators.FastPath.Path.Account.{
  Accounted, fresh_stats, drain_balanced, rx_enqueue-Accounted, poll-Accounted,
}
use g_5g_ims_simulators.FastPath.Path.Alias.{lost_packet}

abbrev uplink : ℕ → Packet
uplink teid = record {
  teid = teid;
  ue_ip = 0;
  dscp = 46;
  payload_len = 160;
  arrival_ns = 5;
  qfi = 1;
  pdr_id = 0;
  far_id = 0;
  classified = false;
  dropped = false;
  seq = 1;
  dir = ul;
}

abbrev downlink : ℕ → Packet
downlink ue_ip = record (uplink 0) { ue_ip = ue_ip; dir = dl }

abbrev blank : Mbuf
blank = record { pkt = uplink 0; in_use = false }

abbrev clock : ℕ → ℕ
clock fuel = 100 - fuel

abbrev some_events : List Event
some_events = arrives (uplink 1000) ∷ polls 10 ∷ arrives (uplink 7) ∷ arrives (uplink 1001) ∷ []

drain_balanced_example :
    (t : DpdkPath) × (drain ring_size clock
        (stop (after (new_path (build_demo_rules 2) 4 blank (fresh_stats (0 ∷ []))) some_events))
      ≡ some t)
    × Holds ring_bits 0 t.rx_ring []
    × ((t.stats.pkts_forwarded + t.stats.pkts_dropped) % 2 ^ 64 ≡ t.stats.pkts_rx)
drain_balanced_example =
    drain_balanced (build_demo_rules 2) 4 blank (0 ∷ []) some_events clock (omega arith)
      (omega arith)

-- A path whose pool of one buffer has been handed out and used up.
abbrev used_up : DpdkPath
used_up = record {
  rules = no_rules;
  rx_ring = init ring_size 0;
  pool = record { mbufs = blank ∷ []; next = 1 };
  running = true;
  stats = fresh_stats (0 ∷ []);
}

used_up-Accounted : Accounted 1 used_up []
used_up-Accounted = record {
  held = init-Holds ring_bits 0 (omega arith);
  pooled = record { sized = refl; within = omega arith };
  inside = tt;
  balance = refl;
}

lost_packet_example :
    let one = rx_enqueue used_up (uplink 1) in
    let two = rx_enqueue one.1 (uplink 2) in
    (one.0 ≡ true)
    × (two.0 ≡ true)
    × Holds ring_bits 0 two.1.rx_ring (0 ∷ 0 ∷ [])
    × (get_elem? two.1.pool.mbufs 0 ≡ some (record { pkt = uplink 2; in_use = true }))
lost_packet_example =
    lost_packet 1 used_up [] (uplink 1) (uplink 2) (omega arith) used_up-Accounted refl
      (omega arith)

rx_enqueue-Accounted_example : (q : List ℕ) × Accounted 1 (rx_enqueue used_up (uplink 1)).1 q
rx_enqueue-Accounted_example =
    rx_enqueue-Accounted 1 used_up [] (uplink 1) (omega arith) (omega arith) used_up-Accounted

-- The queue of one packet that has arrived.
queued : (q : List ℕ) × Accounted 1 (rx_enqueue used_up (uplink 1)).1 q
queued = rx_enqueue-Accounted 1 used_up [] (uplink 1) (omega arith) (omega arith) used_up-Accounted

poll-Accounted_example :
    ((poll (rx_enqueue used_up (uplink 1)).1 9).0 ≡ burst_count queued.0 burst_size)
    × Accounted 1
        (poll (rx_enqueue used_up (uplink 1)).1 9).1
        (drop (burst_count queued.0 burst_size) queued.0)
poll-Accounted_example = poll-Accounted 1 (rx_enqueue used_up (uplink 1)).1 queued.0 9 queued.1

abbrev small_ring : Ring ℕ
small_ring = record { head = 1; tail = 3; buf = 7 ∷ 0 ∷ 0 ∷ 5 ∷ [] }

small_ring-Holds : Holds 2 0 small_ring (5 ∷ 7 ∷ [])
small_ring-Holds = record {
  fits = omega arith;
  cells = refl;
  tail_in = omega arith;
  room = omega arith;
  head_at = refl;
  items = refl;
}

abbrev some_calls : List (Call ℕ)
some_calls = pushes 1 ∷ pushes 2 ∷ pops 0 ∷ bursts 9 ∷ pops 4 ∷ []

run_refines_example : run 2 0 small_ring some_calls ≡ queue_run 2 0 (5 ∷ 7 ∷ []) some_calls
run_refines_example = run_refines 2 0 small_ring (5 ∷ 7 ∷ []) some_calls small_ring-Holds

abbrev some_moves : List (Move ℕ)
some_moves = produce 4 ∷ consume 2 ∷ produce 0 ∷ produce 0 ∷ consume 2 ∷ consume 2 ∷ []

interleave-fifo_example :
    let s = interleave 4 0 (started 4 0) some_moves in
    (q : List ℕ) × Holds 2 0 s.ring q × (s.pushed ≡ s.popped ++ q) × (length q < 4)
interleave-fifo_example = interleave-fifo 2 0 some_moves (omega arith)

abbrev three : MbufPool
three = record { mbufs = blank ∷ blank ∷ blank ∷ []; next = 1 }

three-IsValid : Alloc.IsValid 3 three
three-IsValid = record { sized = refl; within = omega arith }

alloc-IsValid_example :
    (i : ℕ) × ((alloc three).0 ≡ some i)
    × (i < 3)
    × (i ≡ (if leb 3 1 then 0 else 1))
    × Alloc.IsValid 3 (alloc three).1
alloc-IsValid_example = alloc-IsValid 3 three (omega arith) (omega arith) three-IsValid

allocs-indices_example : allocs 2 three ≡ some 1 ∷ some 2 ∷ []
allocs-indices_example = allocs-indices 3 2 three (omega arith) three-IsValid (omega arith)

abbrev old_rule : Pdr
old_rule = record {
  pdr_id = 1;
  teid = 1000;
  ue_ip = 0;
  dir = ul;
  far_id = 1;
  qer_id = 1;
  precedence = 100;
}

abbrev new_rule : Pdr
new_rule = record old_rule { teid = 2000 }

match-add_pdr_example : match_pdr (add_pdr no_rules old_rule) (uplink 1000) ≡ (
    if selects ul ul old_rule (uplink 1000)
    then some old_rule
    else pdr_key ul no_rules (uplink 1000) >>= λ id.
        if 1 == id then some old_rule else find id no_rules.pdrs)
match-add_pdr_example = match-add_pdr no_rules old_rule (uplink 1000)

stale_teid_example :
    match_pdr (add_pdr (add_pdr no_rules old_rule) new_rule) (uplink 1000) ≡ some new_rule
stale_teid_example =
    stale_teid no_rules old_rule new_rule (uplink 1000) refl refl refl refl refl (λ e. omega arith)

demo_uplink_example :
    Routed (build_demo_rules 3) (uplink 1002) (demo_ul_pdr 2) (demo_ul_far 2) (demo_qer 2)
    × ((demo_ul_pdr 2).ue_ip ≡ base_ue_ip + 2)
    × ((demo_ul_far 2).action ≡ forward)
    × ((demo_ul_far 2).dst_ip ≡ n6_gw_ip)
    × ((demo_ul_far 2).encap_gtpu ≡ false)
demo_uplink_example = demo_uplink 3 2 (uplink 1002) (omega arith) (omega arith) refl refl

demo_downlink_example :
    Routed
      (build_demo_rules 3)
      (downlink (base_ue_ip + 1))
      (demo_dl_pdr 1)
      (demo_dl_far 1)
      (demo_qer 1)
    × ((demo_dl_pdr 1).teid ≡ base_teid + 1)
    × ((demo_dl_far 1).action ≡ forward)
    × ((demo_dl_far 1).dst_ip ≡ gnb_n3_ip)
    × ((demo_dl_far 1).dst_port ≡ 2152)
    × ((demo_dl_far 1).encap_gtpu ≡ true)
demo_downlink_example =
    demo_downlink 3 1 (downlink (base_ue_ip + 1)) (omega arith) (omega arith) refl refl

abbrev sampled : PathStats
sampled = record {
  pkts_rx = 2;
  pkts_forwarded = 2;
  pkts_dropped = 0;
  pkts_no_pdr = 0;
  latencies = replicate reservoir_size 7;
  sample_idx = 2;
}

percentiles_ordered_example :
    let p = compute_percentiles sampled in
    (p.min_ns ≤ p.p50_ns) × (p.p50_ns ≤ p.p95_ns) × (p.p95_ns ≤ p.p99_ns) × (p.p99_ns ≤ p.max_ns)
percentiles_ordered_example =
    percentiles_ordered sampled (length-replicate {A = ℕ} reservoir_size 7) (omega arith)
