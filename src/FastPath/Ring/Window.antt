-- ===== src/FastPath/Ring/Window.antt =====
-- Index arithmetic of `SPSCRing`, and the cells between two cursors.
use g_5g_ims_simulators.Prelude.{
  ℕ, zero, suc, ◌+◌, ◌-◌, ◌*◌, ◌%◌, ◌^◌, ◌≤◌, ◌<◌, ◌≡◌, refl, sym, ◌∙◌, ap, ap₂, ◌≢◌, List, [], ◌∷◌,
  ◌++◌, arith, length, get_or, set, get_or-set_self, get_or-set_ne,
}
use g_5g_ims_simulators.Prelude.Masks.{bit_and-mask}
use native.Mathlib.Decide.{dec_lt}
use native.Mathlib.Nat.{
  pow-le-pow_right, mod-eq_of_lt, mod-add-mod, add-zero, mod-eq-sub-mod, add-mul-mod_self_left,
  pow-suc, one-le-pow, mod-lt,
}
use g_5g_ims_simulators.FastPath.Ring.{wrap, next, distance, size_t}

pow-add : (k j : ℕ) → 2 ^ (k + j) ≡ 2 ^ k * 2 ^ j
pow-add k zero = rw add-zero (omega arith)
pow-add k (suc j) = omega (
  arith,
  pow-suc 2 (k + j),
  pow-suc 2 j,
  pow-add k j,
  ap (λ (t : ℕ). 2 ^ t) {x = k + suc j} {y = suc (k + j)} (omega arith),
  ap (λ (t : ℕ). 2 ^ k * t) (pow-suc 2 j),
)

-- `size_t` wraps at a multiple of N.
modulus : (k : ℕ) → k ≤ 63 → 2 ^ 64 ≡ 2 ^ k * 2 ^ (64 - k)
modulus k h = ap (λ (t : ℕ). 2 ^ t) {x = 64} {y = k + (64 - k)} (omega arith) ∙ pow-add k (64 - k)

pub pow-le : (k : ℕ) → k ≤ 63 → 2 ^ k ≤ 2 ^ 63
pow-le k h = pow-le-pow_right (omega arith) h

-- The mask forgets whole turns of `size_t`.
unturn : (k c : ℕ) → k ≤ 63 → c < 2 ^ k → (2 ^ 64 + c - 2 ^ k) % 2 ^ k ≡ c
unturn k c hk hc =
    ap (λ (x : ℕ). x % 2 ^ k) turns
    ∙ add-mul-mod_self_left c (2 ^ k) (2 ^ (64 - k) - 1)
    ∙ mod-eq_of_lt hc
  where
    turns : 2 ^ 64 + c - 2 ^ k ≡ c + 2 ^ k * (2 ^ (64 - k) - 1)
    turns = omega (
      arith,
      modulus k hk,
      ap (λ (x : ℕ). 2 ^ k * x) {x = 2 ^ (64 - k)} {y = (2 ^ (64 - k) - 1) + 1}
          (omega (arith, one-le-pow (64 - k) 2 (omega arith))),
    )

pub wrap-eq-mod : (k x : ℕ) → wrap (2 ^ k) x ≡ x % 2 ^ k
unfolding wrap
wrap-eq-mod k x = bit_and-mask k x

pub next-eq-mod : (k h : ℕ) → k ≤ 63 → h < 2 ^ k → next (2 ^ k) h ≡ (h + 1) % 2 ^ k
unfolding next
next-eq-mod k h hk lt =
    wrap-eq-mod k (size_t (h + 1))
    ∙ ap (λ (x : ℕ). x % 2 ^ k) {x = size_t (h + 1)} {y = h + 1} (omega (arith, pow-le k hk))

-- The distance between the cursors is the number of cells between them.
pub distance-eq :
    (k t c : ℕ) → k ≤ 63 → t < 2 ^ k → c < 2 ^ k → distance (2 ^ k) ((t + c) % 2 ^ k) t ≡ c
unfolding distance
distance-eq k t c hk ht hc = elim (dec_lt (t + c) (2 ^ k)) [
  | yes p ↦ rw (mod-eq_of_lt p) (
      wrap-eq-mod k _
      ∙ ap (λ (x : ℕ). x % 2 ^ k) {x = size_t (2 ^ 64 + (t + c) - t)} {y = c}
          (omega (arith, pow-le k hk))
      ∙ mod-eq_of_lt hc)
  | no p ↦ rw (past p) (
      wrap-eq-mod k _
      ∙ ap (λ (x : ℕ). x % 2 ^ k) {x = size_t (2 ^ 64 + (t + c - 2 ^ k) - t)}
          {y = 2 ^ 64 + c - 2 ^ k} (omega (arith, pow-le k hk))
      ∙ unturn k c hk hc)
]
  where
    past : ¬ (t + c < 2 ^ k) → (t + c) % 2 ^ k ≡ t + c - 2 ^ k
    past p = mod-eq-sub-mod {n = t + c} {m = 2 ^ k} (omega arith) ∙ mod-eq_of_lt (omega arith)

-- Fewer than N steps round the ring do not lead back.
pub steps-ne : (n t c : ℕ) → t < n → suc c < n → (t + suc c) % n ≢ t
steps-ne n t c ht hc = elim (dec_lt (t + suc c) n) [
  | yes p ↦ omega (arith, mod-eq_of_lt p)
  | no p ↦ omega (
    arith,
    mod-eq-sub-mod {n = t + suc c} {m = n} (omega arith),
    mod-eq_of_lt {n = t + suc c - n} {m = n} (omega arith),
  )
]

pub steps_shift : (n t c : ℕ) → ((t + 1) % n + c) % n ≡ (t + suc c) % n
steps_shift n t c = mod-add-mod (t + 1) n c ∙ ap (λ (x : ℕ). x % n) (omega arith)

module _ {ℓ} {A : Type ℓ} (n : ℕ) (d : A) where
  -- The `c` cells from cursor `t` on.
  abbrev pub window : List A → ℕ → ℕ → List A
  window buf t zero = []
  window buf t (suc c) = get_or buf t d ∷ window buf ((t + 1) % n) c

  pub length-window : (buf : List A) (t c : ℕ) → length (window buf t c) ≡ c
  length-window buf t zero = refl
  length-window buf t (suc c) = ap suc (length-window buf ((t + 1) % n) c)

  -- A write to the cell behind the window leaves the window as it was.
  pub window-set :
      (buf : List A) (t c : ℕ) (v : A)
      → t < n
      → c < n
      → window (set buf ((t + c) % n) v) t c ≡ window buf t c
  window-set buf t zero v ht hc = refl
  window-set buf t (suc c) v ht hc =
      ap₂ ◌∷◌ (get_or-set_ne buf ((t + suc c) % n) t v d (steps-ne n t c ht hc)) (
        ap (λ (i : ℕ). window (set buf i v) ((t + 1) % n) c) (sym (steps_shift n t c))
        ∙ window-set buf ((t + 1) % n) c v (mod-lt (t + 1) (omega arith)) (omega arith))

  -- The window grows at its end by what the cell behind it holds.
  pub window_grow :
      (buf : List A) (t c : ℕ)
      → t < n
      → window buf t (suc c) ≡ window buf t c ++ (get_or buf ((t + c) % n) d ∷ [])
  window_grow buf t zero ht = rw (add-zero, mod-eq_of_lt ht)
  window_grow buf t (suc c) ht = ap (◌∷◌ (get_or buf t d)) (
      window_grow buf ((t + 1) % n) c (mod-lt (t + 1) (omega arith))
      ∙ ap (λ (i : ℕ). window buf ((t + 1) % n) c ++ (get_or buf i d ∷ [])) (steps_shift n t c))

  pub window_push :
      (buf : List A) (t c : ℕ) (v : A)
      → t < n
      → c < n
      → n ≤ length buf
      → window (set buf ((t + c) % n) v) t (suc c) ≡ window buf t c ++ (v ∷ [])
  window_push buf t c v ht hc hl =
      window_grow (set buf ((t + c) % n) v) t c ht
      ∙ ap₂ (λ xs x. xs ++ (x ∷ [])) (window-set buf t c v ht hc)
          (get_or-set_self buf ((t + c) % n) v d
            (omega (arith, mod-lt (t + c) {m = n} (omega arith))))
