-- ===== src/Prelude/Decimal.antt =====
-- `std::to_string` on whole numbers, and what its digits spell.
use Prim.Native.Nat.{ℕ, zero, suc, ◌+◌, ◌-◌, ◌*◌, ◌/◌, ◌%◌, ◌^◌, ◌≤◌, ◌<◌}
use mathlib.Core.Path.{◌≡◌, ap, sym, ◌∙◌}
use mathlib.Core.List.{List, [], ◌∷◌}
use mathlib.Core.Logic.{inl, inr}
use native.Mathlib.Omega.{arith}
use native.Mathlib.Numerals.{unary_clauses}
use g_5g_ims_simulators.Prelude.Tests.{◌==◌, Bool-cases, if◌then◌else◌}
use g_5g_ims_simulators.Prelude.Lists.{All, length}

-- One digit for each round, from the last to the first; a round for each unit of `n` is enough.
unfoldable pub digits : ℕ → ℕ → List ℕ → List ℕ
digits zero n out = out
digits (suc fuel) n out =
    let rest = digits fuel (n / 10) ((b'0' + n % 10) ∷ out) in if n == 0 then out else rest

unfoldable pub to_string : ℕ → List ℕ
unfolding digits
to_string n = if n == 0 then b'0' ∷ [] else digits n n []

-- The number that digits spell behind `n`.
abbrev pub value : ℕ → List ℕ → ℕ
value n [] = n
value n (c ∷ s) = value (n * 10 + (c - b'0')) s

value-digits : (fuel n : ℕ) (out : List ℕ) → n ≤ fuel → value 0 (digits fuel n out) ≡ value n out
unfolding digits
value-digits zero n out h = ap (λ (k : ℕ). value k out) (omega arith)
value-digits (suc fuel) n out h = elim (Bool-cases (n == 0)) [
  | inl e ↦ rw e (ap (λ (k : ℕ). value k out) (ground arith))
  | inr e ↦ rw e (
      value-digits fuel (n / 10) ((b'0' + n % 10) ∷ out) (ground arith)
      ∙ ap (λ (k : ℕ). value k out) (omega arith))
]

pub value-to_string : (n : ℕ) → value 0 (to_string n) ≡ n
unfolding to_string
value-to_string n = elim (Bool-cases (n == 0)) [
  | inl e ↦ rw e (ground arith)
  | inr e ↦ rw e (value-digits n n [] (omega arith))
]

pub to_string_injective : (m n : ℕ) → to_string m ≡ to_string n → m ≡ n
to_string_injective m n e = sym (value-to_string m) ∙ ap (value 0) e ∙ value-to_string n

abbrev pub IsDigit : ℕ → Type 0
IsDigit c = (b'0' ≤ c) × (c ≤ b'9')

All-digits : (fuel n : ℕ) (out : List ℕ) → All IsDigit out → All IsDigit (digits fuel n out)
unfolding digits
All-digits zero n out p = p
All-digits (suc fuel) n out p = elim (Bool-cases (n == 0)) [
  | inl e ↦ rw e p
  | inr e ↦ rw e (All-digits fuel (n / 10) ((b'0' + n % 10) ∷ out) (omega arith, p))
]

pub All-to_string : (n : ℕ) → All IsDigit (to_string n)
unfolding to_string
All-to_string n = elim (Bool-cases (n == 0)) [
  | inl e ↦ rw e (omega arith)
  | inr e ↦ rw e (All-digits n n [] tt)
]

length-digits : (fuel n : ℕ) (out : List ℕ) → length (digits fuel n out) ≤ (n + 1) / 2 + length out
unfolding digits
length-digits zero n out = omega arith
length-digits (suc fuel) n out = elim (Bool-cases (n == 0)) [
  | inl e ↦ rw e (omega arith)
  | inr e ↦ rw e (ground (arith, length-digits fuel (n / 10) ((b'0' + n % 10) ∷ out)))
]

pub length-to_string : (n : ℕ) → length (to_string n) ≤ (n + 1) / 2 + 1
unfolding to_string
length-to_string n = elim (Bool-cases (n == 0)) [
  | inl e ↦ rw e (omega arith)
  | inr e ↦ rw e (omega (arith, length-digits n n []))
]

-- A number below 10 ^ k has at most k digits.
length-digits_below :
    (k fuel n : ℕ) (out : List ℕ) → n < 10 ^ k → length (digits fuel n out) ≤ k + length out
unfolding digits
length-digits_below k zero n out h = omega arith
length-digits_below zero (suc fuel) n out h = elim (Bool-cases (n == 0)) [
  | inl e ↦ rw e (omega arith)
  | inr e ↦ absurd (ground arith)
]
length-digits_below (suc k) (suc fuel) n out h = elim (Bool-cases (n == 0)) [
  | inl e ↦ rw e (omega arith)
  | inr e ↦ rw e (
      omega (
        arith,
        length-digits_below k fuel (n / 10) ((b'0' + n % 10) ∷ out)
            (tenth n (10 ^ k) (simp unary_clauses at h)),
      ))
]
  where
    tenth : (m p : ℕ) → m < p * 10 → m / 10 < p
    tenth m p g = omega arith

pub length-to_string_word : (n : ℕ) → n ≤ 2 ^ 32 → length (to_string n) ≤ 10
unfolding to_string
length-to_string_word n h = elim (Bool-cases (n == 0)) [
  | inl e ↦ rw e (omega arith)
  | inr e ↦ rw e (omega (arith, length-digits_below 10 n n [] (omega arith)))
]
