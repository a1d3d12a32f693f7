-- ===== src/Cbrs/Wire/Frames.antt =====
-- Frames: what is received of a text that was sent.
use g_5g_ims_simulators.Prelude.{
  ℕ, ◌+◌, ◌*◌, ◌/◌, ◌%◌, ◌^◌, ◌≤◌, ◌<◌, ◌≡◌, refl, sym, ◌∙◌, ap, some, List, [], ◌∷◌, ◌++◌, arith,
  length, length-append, take, drop, true, false, ◌||◌, ◌⊎◌, inl, inr, Bool-cases, none, ltb, leb,
  ◌==◌, append-nil,
}
use g_5g_ims_simulators.Cbrs.Wire.{
  whole, refused, payload_of, make_frame, read_frame, recv_frame, deliver,
}

take-append : (xs ys : List ℕ) → take (length xs) (xs ++ ys) ≡ xs
take-append [] ys = refl
take-append (x ∷ xs) ys = ap (◌∷◌ x) (take-append xs ys)

drop-append : (xs ys : List ℕ) → drop (length xs) (xs ++ ys) ≡ ys
drop-append [] ys = refl
drop-append (x ∷ xs) ys = drop-append xs ys

four_bytes :
    (l : ℕ)
    → l < 2 ^ 32
    → let len = l % 2 ^ 32 in
      len % 256
        + 256 * (len / 256 % 256)
        + 65536 * (len / 65536 % 256)
        + 16777216 * (len / 16777216 % 256)
      ≡ l
four_bytes l h = omega arith

-- A text of 1 to 65536 bytes that is sent in a frame, followed by anything, is received whole and
-- alone.
pub read_frame-make_frame :
    (text rest : List ℕ)
    → 0 < length text
    → length text ≤ 65536
    → read_frame (make_frame text ++ rest) ≡ whole text rest
unfolding read_frame make_frame
read_frame-make_frame text rest some_bytes fits = rw (
  four_bytes (length text) (omega arith),
  passes,
  enough,
  take-append text rest,
  drop-append text rest,
)
  where
    passes : (length text == 0 || ltb 65536 (length text)) ≡ false
    passes = ground arith

    enough : leb (length text) (length (text ++ rest)) ≡ true
    enough = ground (arith, length-append text rest)

pub recv_frame-make_frame :
    (text rest : List ℕ)
    → 0 < length text
    → length text ≤ 65536
    → recv_frame (make_frame text ++ rest) ≡ some (text, rest)
unfolding recv_frame
recv_frame-make_frame text rest some_bytes fits =
    ap payload_of (read_frame-make_frame text rest some_bytes fits)

pub read_frame-refused :
    (text : List ℕ)
    → length text < 2 ^ 32
    → (length text == 0 || ltb 65536 (length text)) ≡ true
    → read_frame (make_frame text) ≡ refused text
unfolding read_frame make_frame
read_frame-refused text h e = rw (four_bytes (length text) h, e)

recv_frame_refused :
    (text : List ℕ)
    → length text < 2 ^ 32
    → (length text == 0 || ltb 65536 (length text)) ≡ true
    → recv_frame (make_frame text) ≡ none
unfolding recv_frame
recv_frame_refused text h e = ap payload_of (read_frame-refused text h e)

pub deliver_short :
    (text : List ℕ) → 0 < length text → length text ≤ 65536 → deliver text ≡ some text
unfolding deliver
deliver_short text some_bytes fits = rw (received, deliver)
  where
    received : recv_frame (make_frame text) ≡ some (text, [])
    received =
        ap recv_frame (sym (append-nil (make_frame text)))
        ∙ recv_frame-make_frame text [] some_bytes fits

-- A text of less than 2 ^ 32 bytes arrives as it is, or not at all.
pub deliver_cases :
    (text : List ℕ) → length text < 2 ^ 32 → (deliver text ≡ some text) ⊎ (deliver text ≡ none)
unfolding deliver
deliver_cases text h = elim (Bool-cases (length text == 0 || ltb 65536 (length text))) [
  | inl e ↦ inr (dropped e)
  | inr e ↦ inl (deliver_short text (ground arith) (ground arith))
]
  where
    dropped : (length text == 0 || ltb 65536 (length text)) ≡ true → deliver text ≡ none
    dropped e = rw (recv_frame_refused text h e, deliver)

-- What arrives is what was sent, and no longer than the receiver allows.
pub deliver_inv :
    (text r : List ℕ)
    → length text < 2 ^ 32
    → deliver text ≡ some r
    → (r ≡ text) × (length text ≤ 65536)
unfolding deliver
deliver_inv text r h e = elim (Bool-cases (length text == 0 || ltb 65536 (length text))) [
  | inl f ↦ absurd (clash (dropped f))
  | inr f ↦ (same (deliver_short text (ground arith) (ground arith)), ground arith)
]
  where
    dropped : (length text == 0 || ltb 65536 (length text)) ≡ true → deliver text ≡ none
    dropped f = rw (recv_frame_refused text h f, deliver)

    clash : deliver text ≡ none → ⊥
    clash n = cc

    same : deliver text ≡ some text → r ≡ text
    same q = cc
