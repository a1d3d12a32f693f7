-- ===== src/FastPath/Stats.antt =====
-- stats.h: the counters of a path and its latency samples.
pub mod Order
use g_5g_ims_simulators.Prelude.{
  ℕ, zero, suc, ◌+◌, ◌-◌, ◌*◌, ◌/◌, ◌%◌, ◌^◌, min, List, [], ◌∷◌, leb, ◌==◌, if◌then◌else◌, get_or,
  set, take, replicate, length,
}

-- The counters are atomic uint64.
pub record PathStats : Type 0 where
  pub pkts_rx : ℕ
  pub pkts_forwarded : ℕ
  pub pkts_dropped : ℕ
  pub pkts_no_pdr : ℕ
  pub latencies : List ℕ
  pub sample_idx : ℕ

abbrev pub reservoir_size : ℕ
reservoir_size = 100000

-- `c.fetch_add(1)`
abbrev pub bump : ℕ → ℕ
bump c = (c + 1) % 2 ^ 64

unfoldable pub record_latency : PathStats → ℕ → ℕ → PathStats
record_latency s arrival_ns now_ns = if leb now_ns arrival_ns then s else record s {
  latencies = set s.latencies (s.sample_idx % reservoir_size) (now_ns - arrival_ns);
  sample_idx = bump s.sample_idx;
}

pub record Percentiles : Type 0 where
  pub p50_ns : ℕ
  pub p95_ns : ℕ
  pub p99_ns : ℕ
  pub avg_ns : ℕ
  pub min_ns : ℕ
  pub max_ns : ℕ

-- `std::sort` on numbers.
insert_sorted : ℕ → List ℕ → List ℕ
insert_sorted x [] = x ∷ []
insert_sorted x (y ∷ ys) = let rest = insert_sorted x ys in if leb x y then x ∷ y ∷ ys else y ∷ rest

sorted : List ℕ → List ℕ
unfolding insert_sorted
sorted [] = []
sorted (x ∷ xs) = insert_sorted x (sorted xs)

-- `for (auto v : sorted) sum += v;`
add_up : ℕ → List ℕ → ℕ
add_up sum [] = sum
add_up sum (v ∷ vs) = add_up ((sum + v) % 2 ^ 64) vs

-- The figures of `filled` sorted samples; the reads are in range.
figures : ℕ → List ℕ → Percentiles
unfolding add_up
figures filled xs = record {
  p50_ns = get_or xs (filled * 50 / 100) 0;
  p95_ns = get_or xs (filled * 95 / 100) 0;
  p99_ns = get_or xs (filled * 99 / 100) 0;
  avg_ns = add_up 0 xs / filled;
  min_ns = get_or xs 0 0;
  max_ns = get_or xs (filled - 1) 0;
}

abbrev no_figures : Percentiles
no_figures = record { p50_ns = 0; p95_ns = 0; p99_ns = 0; avg_ns = 0; min_ns = 0; max_ns = 0 }

pub compute_percentiles : PathStats → Percentiles
unfolding figures sorted
compute_percentiles s =
    let filled = min s.sample_idx reservoir_size in
    if filled == 0 then no_figures else figures filled (sorted (take filled s.latencies))

pub reset : PathStats → PathStats
reset s = record {
  pkts_rx = 0;
  pkts_forwarded = 0;
  pkts_dropped = 0;
  pkts_no_pdr = 0;
  latencies = replicate (length s.latencies) 0;
  sample_idx = 0;
}
