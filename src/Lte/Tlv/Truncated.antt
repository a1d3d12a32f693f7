-- ===== src/Lte/Tlv/Truncated.antt =====
-- A value shorter than the type that its tag is read as.
use g_5g_ims_simulators.Prelude.{
  ℕ, ◌^◌, ◌<◌, ◌≡◌, refl, ◌∙◌, none, some, List, [], ◌∷◌, ◌++◌, arith, length, ==_refl, All,
}
use g_5g_ims_simulators.Lte.Tlv.{
  Ie, pu16, th, has_more, peek, read_u64, store, Case, case_u64, switch, parse_loop, parse,
  out_of_bounds,
}
use g_5g_ims_simulators.Lte.Tlv.RoundTrip.{Fits, ies_data, join16}
use g_5g_ims_simulators.Lte.Tlv.Loop.{apply_ies}
use g_5g_ims_simulators.Lte.Tlv.Messages.{parse-append}

read_u64-short :
    (a b c d : ℕ) (value : List ℕ) → length value < 8 → read_u64 (a ∷ b ∷ c ∷ d ∷ value) ≡ none
unfolding read_u64
read_u64-short a b c d [] h = refl
read_u64-short a b c d (_ ∷ []) h = refl
read_u64-short a b c d (_ ∷ _ ∷ []) h = refl
read_u64-short a b c d (_ ∷ _ ∷ _ ∷ []) h = refl
read_u64-short a b c d (_ ∷ _ ∷ _ ∷ _ ∷ []) h = refl
read_u64-short a b c d (_ ∷ _ ∷ _ ∷ _ ∷ _ ∷ []) h = refl
read_u64-short a b c d (_ ∷ _ ∷ _ ∷ _ ∷ _ ∷ _ ∷ []) h = refl
read_u64-short a b c d (_ ∷ _ ∷ _ ∷ _ ∷ _ ∷ _ ∷ _ ∷ []) h = refl
read_u64-short a b c d (_ ∷ _ ∷ _ ∷ _ ∷ _ ∷ _ ∷ _ ∷ _ ∷ value) h = absurd (omega arith)

-- The readers of numbers check neither the length in the message nor the end of the buffer: a
-- message whose last element has the tag of a 64-bit field, the first of the switch, and fewer than
-- eight bytes behind its header makes the loop read past the end, whatever length it declares.
pub truncated_u64 :
    {S : Type 0} (cs : List (Case S)) (t declared : ℕ) (f : S → ℕ → S) (ies : List Ie) (s s' : S)
    (value : List ℕ)
    → t < 2 ^ 16
    → All Fits ies
    → apply_ies (case_u64 t f ∷ cs) s ies ≡ some s'
    → length value < 8
    → parse (case_u64 t f ∷ cs) s (ies_data ies ++ (th t declared ++ value)) ≡ out_of_bounds
unfolding parse parse_loop has_more peek switch th pu16 store
truncated_u64 cs t declared f ies s s' value ht fits e short =
    parse-append (case_u64 t f ∷ cs) ies s s' (th t declared ++ value) fits e
    ∙ rw (join16 t ht, ==_refl t, read_u64-short _ _ _ _ value short)
