-- ===== src/Cbrs/Doubles.antt =====
-- The operations on `double` that the program takes from the language and its library.
use g_5g_ims_simulators.Prelude.{ℕ, ◌≤◌, ◌≢◌, Bool, Option, List, [], All, length}
use g_5g_ims_simulators.Cbrs.Wire.Fields.{IsPlain}

pub record Doubles : Type 1 where
  pub Double : Type 0
  pub of_nat : ℕ → Double
  -- `std::stod`; none is that it throws.
  pub stod : List ℕ → Option Double
  -- `json::flt`: what a stream prints.
  pub flt : Double → List ℕ
  -- `a > b`
  pub exceeds : Double → Double → Bool
  -- `std::to_string((int)v)`
  pub int_text : Double → List ℕ
  pub flt-IsPlain : (v : Double) → All IsPlain (flt v)
  pub int_text-IsPlain : (v : Double) → All IsPlain (int_text v)
  pub flt_short : (v : Double) → length (flt v) ≤ 32
  pub int_text_short : (v : Double) → length (int_text v) ≤ 32
  pub flt-ne-nil : (v : Double) → flt v ≢ []
