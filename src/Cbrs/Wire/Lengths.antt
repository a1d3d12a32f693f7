-- ===== src/Cbrs/Wire/Lengths.antt =====
-- How long a field of a text can be.
use g_5g_ims_simulators.Prelude.{
  ℕ, suc, ◌+◌, ◌≤◌, ◌≡◌, inl, inr, ◌||◌, Bool-cases, Option-cases, Option, none, some, List, [],
  ◌∷◌, arith, length, length-append, ◌==◌,
}
use g_5g_ims_simulators.Cbrs.Wire.{
  str, entry, entries, obj, strip, after, to_quote, to_end, token, needle, get,
}

abbrev AtMost : ℕ → Option (List ℕ) → Type 0
AtMost n none = Unit
AtMost n (some s) = length s ≤ n

AtMost-weaken : (m n : ℕ) (o : Option (List ℕ)) → m ≤ n → AtMost m o → AtMost n o
AtMost-weaken m n none h a = tt
AtMost-weaken m n (some s) h a = omega arith

strip-AtMost : (p text : List ℕ) → AtMost (length text) (strip p text)
unfolding strip
strip-AtMost [] text = omega arith
strip-AtMost (p ∷ ps) [] = tt
strip-AtMost (p ∷ ps) (c ∷ text) = elim (Bool-cases (p == c)) [
  | inl e ↦ rw e (
      AtMost-weaken (length text) (length (c ∷ text)) (strip ps text) (omega arith)
        (strip-AtMost ps text))
  | inr e ↦ rw e tt
]

after-AtMost : (n text : List ℕ) → AtMost (length text) (after n text)
unfolding after
after-AtMost n [] = strip-AtMost n []
after-AtMost n (c ∷ text) = elim (Option-cases (strip n (c ∷ text))) [
  | inl e ↦
      rw (e, after)
        (AtMost-weaken (length text) (length (c ∷ text)) (after n text) (omega arith)
          (after-AtMost n text))
  | inr (s, e) ↦ rw (e, after) (at_most s e (strip-AtMost n (c ∷ text)))
]
  where
    at_most :
        (s : List ℕ)
        → strip n (c ∷ text) ≡ some s
        → AtMost (length (c ∷ text)) (strip n (c ∷ text))
        → length s ≤ length (c ∷ text)
    at_most s e a = rw e at a

to_quote-AtMost : (text : List ℕ) → AtMost (length text) (to_quote text)
unfolding to_quote
to_quote-AtMost [] = tt
to_quote-AtMost (c ∷ text) = elim (Bool-cases (c == b'"')) [
  | inl e ↦ rw (e, to_quote) (omega arith)
  | inr e ↦ rw (e, to_quote) (grown (to_quote text) (to_quote-AtMost text))
]
  where
    grown :
        (o : Option (List ℕ))
        → AtMost (length text) o
        → AtMost
            (suc (length text))
            (elim o as (λ x. Option (List ℕ)) [ none ↦ none | some s ↦ some (c ∷ s) ])
    grown none a = tt
    grown (some s) a = omega arith

length-to_end : (text : List ℕ) → length (to_end text) ≤ length text
unfolding to_end
length-to_end [] = omega arith
length-to_end (c ∷ text) = elim (Bool-cases (c == b',' || c == b'}')) [
  | inl e ↦ rw e (omega arith)
  | inr e ↦ rw e (omega (arith, length-to_end text))
]

length-token : (text : List ℕ) → length (token text) ≤ length text
unfolding token
length-token [] = omega arith
length-token (c ∷ text) = elim (Bool-cases (c == b'"')) [
  | inl e ↦ rw e (inside (to_quote text) (to_quote-AtMost text))
  | inr e ↦ rw e (length-to_end (c ∷ text))
]
  where
    inside :
        (o : Option (List ℕ))
        → AtMost (length text) o
        → length (elim o as (λ x. List ℕ) [ none ↦ [] | some s ↦ s ]) ≤ suc (length text)
    inside none a = omega arith
    inside (some s) a = omega arith

-- A field is no longer than its text.
pub length-get : (text key : List ℕ) → length (get text key) ≤ length text
unfolding get
length-get text key = inside (after (needle key) text) (after-AtMost (needle key) text)
  where
    inside :
        (o : Option (List ℕ))
        → AtMost (length text) o
        → length (elim o as (λ x. List ℕ) [ none ↦ [] | some s ↦ token s ]) ≤ length text
    inside none a = omega arith
    inside (some s) a = omega (arith, length-token s)

-- What the entries of an object add up to.
abbrev pub size : List (List ℕ × List ℕ) → ℕ
size [] = 0
size ((k, v) ∷ kvs) = length k + length v + 4 + size kvs

length-entry : (k v : List ℕ) → length (entry (k, v)) ≡ length k + length v + 3
length-entry k v = omega (arith, length-append k (b'"' ∷ b':' ∷ v))

length-entries : (kvs : List (List ℕ × List ℕ)) → length (entries kvs) ≤ size kvs
length-entries [] = omega arith
length-entries ((k, v) ∷ []) = omega (arith, length-entry k v)
length-entries ((k, v) ∷ next ∷ kvs) = omega (
  arith,
  length-entry k v,
  length-append (entry (k, v)) (b',' ∷ entries (next ∷ kvs)),
  length-entries (next ∷ kvs),
)

pub length-obj : (kvs : List (List ℕ × List ℕ)) → length (obj kvs) ≤ size kvs + 2
length-obj kvs = omega (arith, length-append (entries kvs) (b'}' ∷ []), length-entries kvs)

pub length-str : (s : List ℕ) → length (str s) ≡ length s + 2
length-str s = omega (arith, length-append s (b'"' ∷ []))
