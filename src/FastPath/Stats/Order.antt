-- ===== src/FastPath/Stats/Order.antt =====
-- The figures that a run ends with are ordered.
use g_5g_ims_simulators.Prelude.{
  ℕ, zero, suc, ◌-◌, ◌*◌, ◌/◌, ◌≤◌, ◌<◌, ◌≡◌, refl, ◌∙◌, ap, inl, inr, Bool-cases, List, [], ◌∷◌,
  arith, min, leb, length, get_or, take, length-take, All, ==_false,
}
use g_5g_ims_simulators.FastPath.Stats.{
  PathStats, reservoir_size, insert_sorted, sorted, figures, compute_percentiles,
}

abbrev Sorted : List ℕ → Type 0
Sorted [] = Unit
Sorted (x ∷ xs) = All (λ y. x ≤ y) xs × Sorted xs

All-weaken : (x y : ℕ) (xs : List ℕ) → x ≤ y → All (λ z. y ≤ z) xs → All (λ z. x ≤ z) xs
All-weaken x y [] le p = tt
All-weaken x y (z ∷ zs) le p = (omega (arith, p.0), All-weaken x y zs le p.1)

All-insert_sorted :
    (w x : ℕ) (xs : List ℕ) → w ≤ x → All (λ z. w ≤ z) xs → All (λ z. w ≤ z) (insert_sorted x xs)
unfolding insert_sorted
All-insert_sorted w x [] le p = (le, tt)
All-insert_sorted w x (y ∷ ys) le p = elim (Bool-cases (leb x y)) [
  | inl e ↦ rw e (le, p)
  | inr e ↦ rw e (p.0, All-insert_sorted w x ys le p.1)
]

insert_sorted-Sorted : (x : ℕ) (xs : List ℕ) → Sorted xs → Sorted (insert_sorted x xs)
unfolding insert_sorted
insert_sorted-Sorted x [] s = (tt, tt)
insert_sorted-Sorted x (y ∷ ys) s = elim (Bool-cases (leb x y)) [
  | inl e ↦ rw e ((ground arith, All-weaken x y ys (ground arith) s.0), s)
  | inr e ↦ rw e (All-insert_sorted y x ys (ground arith) s.0, insert_sorted-Sorted x ys s.1)
]

sorted-Sorted : (xs : List ℕ) → Sorted (sorted xs)
unfolding sorted
sorted-Sorted [] = tt
sorted-Sorted (x ∷ xs) = insert_sorted-Sorted x (sorted xs) (sorted-Sorted xs)

length-insert_sorted : (x : ℕ) (xs : List ℕ) → length (insert_sorted x xs) ≡ suc (length xs)
unfolding insert_sorted
length-insert_sorted x [] = refl
length-insert_sorted x (y ∷ ys) = ground (arith, length-insert_sorted x ys)

length-sorted : (xs : List ℕ) → length (sorted xs) ≡ length xs
unfolding sorted
length-sorted [] = refl
length-sorted (x ∷ xs) = length-insert_sorted x (sorted xs) ∙ ap suc (length-sorted xs)

All-get_or : (w : ℕ) (xs : List ℕ) (i : ℕ) → All (λ z. w ≤ z) xs → i < length xs → w ≤ get_or xs i 0
All-get_or w [] i p h = absurd (omega arith)
All-get_or w (x ∷ xs) zero p h = p.0
All-get_or w (x ∷ xs) (suc i) p h = All-get_or w xs i p.1 (omega arith)

-- Later in a sorted list is not less.
get_or-Sorted :
    (xs : List ℕ) (i j : ℕ) → Sorted xs → i ≤ j → j < length xs → get_or xs i 0 ≤ get_or xs j 0
get_or-Sorted [] i j s le h = absurd (omega arith)
get_or-Sorted (x ∷ xs) zero zero s le h = omega arith
get_or-Sorted (x ∷ xs) zero (suc j) s le h = All-get_or x xs j s.0 (omega arith)
get_or-Sorted (x ∷ xs) (suc i) zero s le h = absurd (omega arith)
get_or-Sorted (x ∷ xs) (suc i) (suc j) s le h = get_or-Sorted xs i j s.1 (omega arith) (omega arith)

-- With at least one sample, and a reservoir of its full size, the figures are in order: the least
-- latency, the three percentiles and the greatest.
pub percentiles_ordered :
    (s : PathStats)
    → length s.latencies ≡ reservoir_size
    → 0 < s.sample_idx
    → let p = compute_percentiles s in
      (p.min_ns ≤ p.p50_ns) × (p.p50_ns ≤ p.p95_ns) × (p.p95_ns ≤ p.p99_ns) × (p.p99_ns ≤ p.max_ns)
unfolding compute_percentiles figures
percentiles_ordered s full some_samples =
    let n = min s.sample_idx reservoir_size in
    let pos : 0 < n = omega arith in
    let xs = sorted (take n s.latencies) in
    let ordered = sorted-Sorted (take n s.latencies) in
    let len : length xs ≡ n =
      length-sorted (take n s.latencies) ∙ length-take n s.latencies (omega arith) in
    rw (==_false n 0 (λ z. absurd (omega arith))) (
      get_or-Sorted xs 0 (n * 50 / 100) ordered (omega arith) (omega (arith, len)),
      get_or-Sorted xs (n * 50 / 100) (n * 95 / 100) ordered (omega arith) (omega (arith, len)),
      get_or-Sorted xs (n * 95 / 100) (n * 99 / 100) ordered (omega arith) (omega (arith, len)),
      get_or-Sorted xs (n * 99 / 100) (n - 1) ordered (omega arith) (omega (arith, len)),
    )
