-- ===== src/FastPath/Path/Account.antt =====
-- Every packet received is forwarded, dropped, or waits in the ring.
use g_5g_ims_simulators.Prelude.{
  ℕ, zero, suc, ◌+◌, ◌%◌, ◌^◌, ◌<◌, ◌≡◌, refl, sym, subst, ◌∙◌, inl, inr, true, false, Option, none,
  some, List, [], ◌∷◌, ◌++◌, arith, ==_false, ◌≢◌, length, get_elem?_total, All-append, All-take,
  All-drop, length-take, length-drop, length-append, All, take, drop,
}
use g_5g_ims_simulators.FastPath.Ring.{Ring, pop_burst}
use g_5g_ims_simulators.FastPath.Ring.Refine.{Holds, init-Holds, push_outcome}
use g_5g_ims_simulators.FastPath.Ring.Burst.{pop_burst_refines, burst_count, burst_count-le}
use g_5g_ims_simulators.FastPath.Packet.{Packet}
use g_5g_ims_simulators.FastPath.Rules.{Pdr, Far, RuleTable, match_pdr, get_far}
use g_5g_ims_simulators.FastPath.Pool.{Mbuf, update, mark}
use g_5g_ims_simulators.FastPath.Pool.Alloc.{
  length-update, alloc-IsValid, new_pool-length, new_pool-next,
}
use g_5g_ims_simulators.FastPath.Pool.Alloc
use g_5g_ims_simulators.FastPath.Stats.{PathStats, record_latency}
use g_5g_ims_simulators.FastPath.Path.{
  DpdkPath, new_path, stop, Event, arrives, polls, after, rx_enqueue, offer, classify, finish,
  put_pkt, process_one, process_burst, poll, drain, ring_bits, ring_size, burst_size,
}

abbrev done : PathStats → ℕ
done st = (st.pkts_forwarded + st.pkts_dropped) % 2 ^ 64

-- `t` is `s` with one more packet accounted for.
record OneMore (s t : DpdkPath) : Type 0 where
  counted : done t.stats ≡ (done s.stats + 1) % 2 ^ 64
  rx_same : t.stats.pkts_rx ≡ s.stats.pkts_rx
  ring_same : t.rx_ring ≡ s.rx_ring
  size_same : length t.pool.mbufs ≡ length s.pool.mbufs
  next_same : t.pool.next ≡ s.pool.next

length-update_twice :
    (ms : List Mbuf) (i : ℕ) (f g : Mbuf → Mbuf) → length (update (update ms i f) i g) ≡ length ms
length-update_twice ms i f g = length-update (update ms i f) i g ∙ length-update ms i f

finish-OneMore :
    (s : DpdkPath) (now m : ℕ) (pkt : Packet) (far : Option Far)
    → OneMore s (finish s now m pkt far)
unfolding finish record_latency
finish-OneMore s now m pkt none = record {
  counted = omega arith;
  rx_same = refl;
  ring_same = refl;
  size_same = length-update_twice s.pool.mbufs m _ _;
  next_same = refl;
}
finish-OneMore s now m pkt (some f) = record {
  counted = ground arith;
  rx_same = ground arith;
  ring_same = ground arith;
  size_same = ground (
    arith,
    length-update_twice s.pool.mbufs m (put_pkt (record pkt { dropped = true })) (mark false),
    length-update s.pool.mbufs m (mark false),
  );
  next_same = ground arith;
}

classify-OneMore :
    (s : DpdkPath) (now m : ℕ) (pkt : Packet) (pdr : Option Pdr)
    → OneMore s (classify s now m pkt pdr)
unfolding classify
classify-OneMore s now m pkt none = record {
  counted = omega arith;
  rx_same = refl;
  ring_same = refl;
  size_same = length-update s.pool.mbufs m _;
  next_same = refl;
}
classify-OneMore s now m pkt (some pdr) =
    let known = record pkt { pdr_id = pdr.pdr_id; far_id = pdr.far_id; classified = true } in
    let s1 = record s { pool = record s.pool { mbufs = update s.pool.mbufs m (put_pkt known) } } in
    let one = finish-OneMore s1 now m known (get_far s.rules pdr.far_id) in
    record {
      counted = one.counted;
      rx_same = one.rx_same;
      ring_same = one.ring_same;
      size_same = one.size_same ∙ length-update s.pool.mbufs m _;
      next_same = one.next_same;
    }

process_one-OneMore :
    (s : DpdkPath) (now m : ℕ) → m < length s.pool.mbufs → OneMore s (process_one s now m)
unfolding process_one
process_one-OneMore s now m lt =
    let (b, e) = get_elem?_total s.pool.mbufs m lt in
    rw (e, process_one) (classify-OneMore s now m b.pkt (match_pdr s.rules b.pkt))

-- `t` is `s` with `c` more packets accounted for.
record More (c : ℕ) (s t : DpdkPath) : Type 0 where
  counted : done t.stats ≡ (done s.stats + c) % 2 ^ 64
  rx_same : t.stats.pkts_rx ≡ s.stats.pkts_rx
  ring_same : t.rx_ring ≡ s.rx_ring
  size_same : length t.pool.mbufs ≡ length s.pool.mbufs
  next_same : t.pool.next ≡ s.pool.next

process_burst-More :
    (ms : List ℕ) (s : DpdkPath) (now n : ℕ)
    → length s.pool.mbufs ≡ n
    → All (λ m. m < n) ms
    → More (length ms) s (process_burst s now ms)
unfolding process_burst
process_burst-More [] s now n e inside = record {
  counted = omega arith;
  rx_same = refl;
  ring_same = refl;
  size_same = refl;
  next_same = refl;
}
process_burst-More (m ∷ ms) s now n e inside =
    let one = process_one-OneMore s now m (omega (arith, inside.0)) in
    let rest = process_burst-More ms (process_one s now m) now n (one.size_same ∙ e) inside.1 in
    record {
      counted = omega (arith, one.counted, rest.counted);
      rx_same = rest.rx_same ∙ one.rx_same;
      ring_same = rest.ring_same ∙ one.ring_same;
      size_same = rest.size_same ∙ one.size_same;
      next_same = rest.next_same ∙ one.next_same;
    }

-- The path has a pool of `n` buffers, its ring holds the buffers `q`, all of them of the pool, and
-- the counters balance: received is forwarded plus dropped plus waiting, modulo 2 ^ 64.
pub record Accounted (n : ℕ) (s : DpdkPath) (q : List ℕ) : Type 0 where
  pub held : Holds ring_bits 0 s.rx_ring q
  pub pooled : Alloc.IsValid n s.pool
  pub inside : All (λ m. m < n) q
  pub balance :
      (s.stats.pkts_forwarded + s.stats.pkts_dropped + length q) % 2 ^ 64 ≡ s.stats.pkts_rx

offer-Accounted :
    (n : ℕ) (s : DpdkPath) (q : List ℕ) (pkt : Packet) (m : ℕ)
    → Holds ring_bits 0 s.rx_ring q
    → Alloc.IsValid n s.pool
    → All (λ i. i < n) q
    → m < n
    → (s.stats.pkts_forwarded + s.stats.pkts_dropped + length q + 1) % 2 ^ 64 ≡ s.stats.pkts_rx
    → (q' : List ℕ) × Accounted n (offer s pkt (some m)).1 q'
unfolding offer
offer-Accounted n s q pkt m held pooled inside lt bal =
    elim (push_outcome ring_bits 0 s.rx_ring q m held) [
      | inl (e, h) ↦ (
        q ++ (m ∷ []),
        rw (e, offer)
            (record {
              held = h;
              pooled = record {
                sized = length-update s.pool.mbufs m _ ∙ pooled.sized;
                within = pooled.within;
              };
              inside = All-append (λ i. i < n) q (m ∷ []) inside (lt, tt);
              balance = omega (arith, length-append q (m ∷ []));
            }),
      )
      | inr (e, h) ↦ (
        q,
        rw (e, offer)
            (record {
              held = h;
              pooled = record {
                sized = length-update_twice s.pool.mbufs m _ _ ∙ pooled.sized;
                within = pooled.within;
              };
              inside = inside;
              balance = omega arith;
            }),
      )
    ]

pub rx_enqueue-Accounted :
    (n : ℕ) (s : DpdkPath) (q : List ℕ) (pkt : Packet)
    → 0 < n
    → n < 2 ^ 32
    → Accounted n s q
    → (q' : List ℕ) × Accounted n (rx_enqueue s pkt).1 q'
unfolding rx_enqueue
rx_enqueue-Accounted n s q pkt pos small a =
    let (m, e, lt, at, v) = alloc-IsValid n s.pool pos small a.pooled in
    rw e (offer-Accounted n _ q pkt m a.held v a.inside lt (omega (arith, a.balance)))

-- One round takes at most 32 buffers off the ring and accounts for each.
pub poll-Accounted :
    (n : ℕ) (s : DpdkPath) (q : List ℕ) (now : ℕ)
    → Accounted n s q
    → ((poll s now).0 ≡ burst_count q burst_size)
      × Accounted n (poll s now).1 (drop (burst_count q burst_size) q)
unfolding poll
poll-Accounted n s q now a =
    let (e, h) = pop_burst_refines ring_bits 0 s.rx_ring q burst_size a.held in
    let c = burst_count q burst_size in
    let s1 = record s { rx_ring = (pop_burst ring_size s.rx_ring 0 burst_size).1 } in
    let inside = All-take (λ m. m < n) c q a.inside in
    let more = process_burst-More (take c q) s1 now n a.pooled.sized inside in
    let taken = length-take c q (burst_count-le q burst_size) in
    rw e (
      taken,
      record {
        held = subst (λ (r : Ring ℕ). Holds ring_bits 0 r (drop c q)) (sym more.ring_same) h;
        pooled = record {
          sized = more.size_same ∙ a.pooled.sized;
          within = omega (arith, more.next_same, a.pooled.within);
        };
        inside = All-drop (λ m. m < n) c q a.inside;
        balance = omega (
          arith,
          more.counted,
          more.rx_same,
          taken,
          length-drop c q,
          burst_count-le q burst_size,
          a.balance,
        );
      },
    )

drain-Accounted :
    (fuel : ℕ) (clock : ℕ → ℕ) (n : ℕ) (s : DpdkPath) (q : List ℕ)
    → length q < fuel
    → Accounted n s q
    → (t : DpdkPath) × (drain fuel clock s ≡ some t) × Accounted n t []
unfolding drain
drain-Accounted zero clock n s q h a = absurd (omega arith)
drain-Accounted (suc fuel) clock n s [] h a =
    let (e, a') = poll-Accounted n s [] (clock fuel) a in ((poll s (clock fuel)).1, rw e, a')
drain-Accounted (suc fuel) clock n s (m ∷ q) h a =
    let (e, a') = poll-Accounted n s (m ∷ q) (clock fuel) a in
    let c = burst_count (m ∷ q) burst_size in
    let some_taken : c ≢ 0 = ground arith in
    let (t, e', b) =
      drain-Accounted fuel clock n (poll s (clock fuel)).1 (drop c (m ∷ q))
        (omega (arith, length-drop c (m ∷ q), some_taken)) a' in
    (t, rw (==_false _ _ (λ z. some_taken (sym e ∙ z))) e', b)

after-Accounted :
    (es : List Event) (n : ℕ) (s : DpdkPath) (q : List ℕ)
    → 0 < n
    → n < 2 ^ 32
    → Accounted n s q
    → (q' : List ℕ) × Accounted n (after s es) q'
unfolding after
after-Accounted [] n s q pos small a = (q, a)
after-Accounted (arrives pkt ∷ es) n s q pos small a =
    let (q', a') = rx_enqueue-Accounted n s q pkt pos small a in
    after-Accounted es n (rx_enqueue s pkt).1 q' pos small a'
after-Accounted (polls now ∷ es) n s q pos small a =
    after-Accounted es n (poll s now).1 _ pos small (poll-Accounted n s q now a).1

-- The counters of a path that has just been made.
abbrev pub fresh_stats : List ℕ → PathStats
fresh_stats latencies = record {
  pkts_rx = 0;
  pkts_forwarded = 0;
  pkts_dropped = 0;
  pkts_no_pdr = 0;
  latencies = latencies;
  sample_idx = 0;
}

-- A new path with a pool of 1 to 2 ^ 32 - 1 buffers, after any arrivals and polls in any order, is
-- emptied by the draining loop within as many rounds as the ring has cells, and then every packet
-- received has been counted as forwarded or as dropped, exactly one of the two, modulo 2 ^ 64.
pub drain_balanced :
    (rules : RuleTable) (n : ℕ) (blank : Mbuf) (latencies : List ℕ) (es : List Event)
    (clock : ℕ → ℕ)
    → 0 < n
    → n < 2 ^ 32
    → (t : DpdkPath) × (drain ring_size clock
          (stop (after (new_path rules n blank (fresh_stats latencies)) es))
        ≡ some t)
      × Holds ring_bits 0 t.rx_ring []
      × ((t.stats.pkts_forwarded + t.stats.pkts_dropped) % 2 ^ 64 ≡ t.stats.pkts_rx)
unfolding new_path stop
drain_balanced rules n blank latencies es clock pos small =
    let (q, a) =
      after-Accounted es n (new_path rules n blank (fresh_stats latencies)) [] pos small fresh in
    let (t, e, b) =
      drain-Accounted ring_size clock n
        (stop (after (new_path rules n blank (fresh_stats latencies)) es)) q a.held.room
        (halted q a) in
    (t, e, b.held, omega (arith, b.balance))
  where
    fresh : Accounted n (new_path rules n blank (fresh_stats latencies)) []
    fresh = record {
      held = init-Holds ring_bits 0 (omega arith);
      pooled = record { sized = new_pool-length n blank; within = new_pool-next n blank };
      inside = tt;
      balance = refl;
    }

    halted :
        (q : List ℕ)
        → Accounted n (after (new_path rules n blank (fresh_stats latencies)) es) q
        → Accounted n (stop (after (new_path rules n blank (fresh_stats latencies)) es)) q
    halted q a = record { held = a.held; pooled = a.pooled; inside = a.inside; balance = a.balance }
