-- ===== src/Lte/Tlv/Loop.antt =====
-- The loop over the elements of a message: it ends, and it reads what was written.
use g_5g_ims_simulators.Prelude.{
  ℕ, zero, suc, ◌<◌, ◌≡◌, ◌≢◌, refl, ap, Bool, true, false, Option, none, some, List, [], ◌∷◌, ◌++◌,
  arith, length, leb, ◌==◌, if◌then◌else◌, length-drop, ◌⊎◌, inl, inr, Option-cases, ◌>>=◌,
  Bool-cases,
}
use g_5g_ims_simulators.Lte.Tlv.{
  Ie, ie_u8, ie_u16, ie_u32, ie_u64, ie_bytes, ie_data, has_more, peek, read_u8, read_u16, read_u32,
  read_u64, read_bytes, skip, store, Case, case_u8, case_u16, case_u32, case_u64, case_bytes,
  switch, parse_loop, parse, Outcome, ok, out_of_bounds, out_of_fuel, word16,
}
use g_5g_ims_simulators.Lte.Tlv.RoundTrip.{
  ie_tag, Fits, read_u8-ie, read_u16-ie, read_u32-ie, read_u64-ie, read_bytes-ie, skip-ie,
}

-- The value of an element of the given type.
abbrev as_u8 : Ie → Option (ℕ)
as_u8 (ie_u8 t v) = some v
as_u8 _ = none

abbrev as_u16 : Ie → Option (ℕ)
as_u16 (ie_u16 t v) = some v
as_u16 _ = none

abbrev as_u32 : Ie → Option (ℕ)
as_u32 (ie_u32 t v) = some v
as_u32 _ = none

abbrev as_u64 : Ie → Option (ℕ)
as_u64 (ie_u64 t v) = some v
as_u64 _ = none

abbrev as_bytes : Ie → Option (List ℕ)
as_bytes (ie_bytes t v) = some v
as_bytes _ = none

-- What a switch makes of an element: an element with the tag of no case is skipped, one with the
-- tag of a case but another type is not described.
unfoldable pub apply_ie : {S : Type 0} → List (Case S) → S → Ie → Option S
apply_ie [] s ie = some s
apply_ie (case_u8 t f ∷ cs) s ie =
    let default = apply_ie cs s ie in
    if ie_tag ie == t then (as_u8 ie >>= λ v. some (f s v)) else default
apply_ie (case_u16 t f ∷ cs) s ie =
    let default = apply_ie cs s ie in
    if ie_tag ie == t then (as_u16 ie >>= λ v. some (f s v)) else default
apply_ie (case_u32 t f ∷ cs) s ie =
    let default = apply_ie cs s ie in
    if ie_tag ie == t then (as_u32 ie >>= λ v. some (f s v)) else default
apply_ie (case_u64 t f ∷ cs) s ie =
    let default = apply_ie cs s ie in
    if ie_tag ie == t then (as_u64 ie >>= λ v. some (f s v)) else default
apply_ie (case_bytes t f ∷ cs) s ie =
    let default = apply_ie cs s ie in
    if ie_tag ie == t then (as_bytes ie >>= λ v. some (f s v)) else default

unfoldable pub apply_ies : {S : Type 0} → List (Case S) → S → List Ie → Option S
apply_ies cs s [] = some s
apply_ies cs s (ie ∷ ies) = apply_ie cs s ie >>= λ s'. apply_ies cs s' ies

-- If it reads anything, the reader is moved on.
abbrev Moves : {V : Type 0} → List ℕ → Option (V × List ℕ) → Type 0
Moves r none = Unit
Moves r (some (v, r')) = length r' < length r

store-Moves :
    {V S : Type 0} (r : List ℕ) (o : Option (V × List ℕ)) (f : V → S)
    → Moves r o
    → Moves r (store o f)
unfolding store
store-Moves r none f m = tt
store-Moves r (some (v, r')) f m = m

if-Moves :
    {S : Type 0} (b : Bool) (r : List ℕ) (x y : Option (S × List ℕ))
    → Moves r x
    → Moves r y
    → Moves r (if b then x else y)
if-Moves true r x y p q = p
if-Moves false r x y p q = q

read_u8-Moves : (r : List ℕ) → Moves r (read_u8 r)
unfolding read_u8
read_u8-Moves (_ ∷ _ ∷ _ ∷ _ ∷ a ∷ rest) = omega arith
read_u8-Moves (_ ∷ _ ∷ _ ∷ _ ∷ []) = tt
read_u8-Moves (_ ∷ _ ∷ _ ∷ []) = tt
read_u8-Moves (_ ∷ _ ∷ []) = tt
read_u8-Moves (_ ∷ []) = tt
read_u8-Moves [] = tt

read_u16-Moves : (r : List ℕ) → Moves r (read_u16 r)
unfolding read_u16
read_u16-Moves (_ ∷ _ ∷ _ ∷ _ ∷ a ∷ b ∷ rest) = omega arith
read_u16-Moves (_ ∷ _ ∷ _ ∷ _ ∷ _ ∷ []) = tt
read_u16-Moves (_ ∷ _ ∷ _ ∷ _ ∷ []) = tt
read_u16-Moves (_ ∷ _ ∷ _ ∷ []) = tt
read_u16-Moves (_ ∷ _ ∷ []) = tt
read_u16-Moves (_ ∷ []) = tt
read_u16-Moves [] = tt

read_u32-Moves : (r : List ℕ) → Moves r (read_u32 r)
unfolding read_u32
read_u32-Moves (_ ∷ _ ∷ _ ∷ _ ∷ a ∷ b ∷ c ∷ d ∷ rest) = omega arith
read_u32-Moves (_ ∷ _ ∷ _ ∷ _ ∷ _ ∷ _ ∷ _ ∷ []) = tt
read_u32-Moves (_ ∷ _ ∷ _ ∷ _ ∷ _ ∷ _ ∷ []) = tt
read_u32-Moves (_ ∷ _ ∷ _ ∷ _ ∷ _ ∷ []) = tt
read_u32-Moves (_ ∷ _ ∷ _ ∷ _ ∷ []) = tt
read_u32-Moves (_ ∷ _ ∷ _ ∷ []) = tt
read_u32-Moves (_ ∷ _ ∷ []) = tt
read_u32-Moves (_ ∷ []) = tt
read_u32-Moves [] = tt

read_u64-Moves : (r : List ℕ) → Moves r (read_u64 r)
unfolding read_u64
read_u64-Moves (_ ∷ _ ∷ _ ∷ _ ∷ a ∷ b ∷ c ∷ d ∷ e ∷ f ∷ g ∷ h ∷ rest) = omega arith
read_u64-Moves (_ ∷ _ ∷ _ ∷ _ ∷ _ ∷ _ ∷ _ ∷ _ ∷ _ ∷ _ ∷ _ ∷ []) = tt
read_u64-Moves (_ ∷ _ ∷ _ ∷ _ ∷ _ ∷ _ ∷ _ ∷ _ ∷ _ ∷ _ ∷ []) = tt
read_u64-Moves (_ ∷ _ ∷ _ ∷ _ ∷ _ ∷ _ ∷ _ ∷ _ ∷ _ ∷ []) = tt
read_u64-Moves (_ ∷ _ ∷ _ ∷ _ ∷ _ ∷ _ ∷ _ ∷ _ ∷ []) = tt
read_u64-Moves (_ ∷ _ ∷ _ ∷ _ ∷ _ ∷ _ ∷ _ ∷ []) = tt
read_u64-Moves (_ ∷ _ ∷ _ ∷ _ ∷ _ ∷ _ ∷ []) = tt
read_u64-Moves (_ ∷ _ ∷ _ ∷ _ ∷ _ ∷ []) = tt
read_u64-Moves (_ ∷ _ ∷ _ ∷ _ ∷ []) = tt
read_u64-Moves (_ ∷ _ ∷ _ ∷ []) = tt
read_u64-Moves (_ ∷ _ ∷ []) = tt
read_u64-Moves (_ ∷ []) = tt
read_u64-Moves [] = tt

read_bytes-Moves : (r : List ℕ) → Moves r (read_bytes r)
unfolding read_bytes
read_bytes-Moves (_ ∷ _ ∷ c ∷ d ∷ rest) = elim (Bool-cases (leb (word16 c d) (length rest))) [
  | inl e ↦ rw e (omega (arith, length-drop (word16 c d) rest))
  | inr e ↦ rw e tt
]
read_bytes-Moves (_ ∷ _ ∷ _ ∷ []) = tt
read_bytes-Moves (_ ∷ _ ∷ []) = tt
read_bytes-Moves (_ ∷ []) = tt
read_bytes-Moves [] = tt

skip-Moves : (r : List ℕ) (p : ℕ × ℕ) → peek r ≡ some p → length (skip r) < length r
unfolding peek skip
skip-Moves (_ ∷ _ ∷ c ∷ d ∷ rest) p e = omega (arith, length-drop (word16 c d) rest)
skip-Moves (_ ∷ _ ∷ _ ∷ []) p e = absurd cc
skip-Moves (_ ∷ _ ∷ []) p e = absurd cc
skip-Moves (_ ∷ []) p e = absurd cc
skip-Moves [] p e = absurd cc

module _ {S : Type 0} where
  switch-Moves :
      (cs : List (Case S)) (tag : ℕ) (s : S) (r : List ℕ) (p : ℕ × ℕ)
      → peek r ≡ some p
      → Moves r (switch cs tag s r)
  unfolding switch
  switch-Moves [] tag s r p e = skip-Moves r p e
  switch-Moves (case_u8 t f ∷ cs) tag s r p e =
      if-Moves (tag == t) r _ _ (store-Moves r _ (f s) (read_u8-Moves r))
        (switch-Moves cs tag s r p e)
  switch-Moves (case_u16 t f ∷ cs) tag s r p e =
      if-Moves (tag == t) r _ _ (store-Moves r _ (f s) (read_u16-Moves r))
        (switch-Moves cs tag s r p e)
  switch-Moves (case_u32 t f ∷ cs) tag s r p e =
      if-Moves (tag == t) r _ _ (store-Moves r _ (f s) (read_u32-Moves r))
        (switch-Moves cs tag s r p e)
  switch-Moves (case_u64 t f ∷ cs) tag s r p e =
      if-Moves (tag == t) r _ _ (store-Moves r _ (f s) (read_u64-Moves r))
        (switch-Moves cs tag s r p e)
  switch-Moves (case_bytes t f ∷ cs) tag s r p e =
      if-Moves (tag == t) r _ _ (store-Moves r _ (f s) (read_bytes-Moves r))
        (switch-Moves cs tag s r p e)

  -- More fuel than bytes gives what `parse` gives.
  pub parse_loop-fuel :
      (cs : List (Case S)) (f g : ℕ) (s : S) (r : List ℕ)
      → length r < f
      → length r < g
      → (parse_loop cs f s r ≡ parse_loop cs g s r) × (parse_loop cs f s r ≢ out_of_fuel)
  unfolding parse_loop has_more
  parse_loop-fuel cs zero g s r hf hg = absurd (omega arith)
  parse_loop-fuel cs (suc f) zero s r hf hg = absurd (omega arith)
  parse_loop-fuel cs (suc f) (suc g) s [] hf hg = (refl, (λ e. absurd cc))
  parse_loop-fuel cs (suc f) (suc g) s (b ∷ rest) hf hg = elim (Option-cases (peek (b ∷ rest))) [
    | inl e ↦ rw e (refl, (λ z. absurd cc))
    | inr (p, e) ↦ elim (Option-cases (switch cs p.0 s (b ∷ rest))) [
      | inl e' ↦ rw (e, e') (refl, (λ z. absurd cc))
      | inr (q, e') ↦
          let moved = rw e' at (switch-Moves cs p.0 s (b ∷ rest) p e) in
          rw (e, e') (parse_loop-fuel cs f g q.0 q.1 (omega (arith, moved)) (omega (arith, moved)))
    ]
  ]

  -- Whatever the bytes, the loop ends within one round more than there are bytes: with the fields,
  -- or with a read past the end.
  pub parse_ends :
      (cs : List (Case S)) (s : S) (r : List ℕ)
      → ((s' : S) × (parse cs s r ≡ ok s')) ⊎ (parse cs s r ≡ out_of_bounds)
  unfolding parse
  parse_ends cs s r =
      by_outcome (parse_loop cs (suc (length r)) s r) refl
        (parse_loop-fuel cs (suc (length r)) (suc (length r)) s r (omega arith) (omega arith)).1
    where
      by_outcome :
          (o : Outcome S)
          → parse_loop cs (suc (length r)) s r ≡ o
          → parse_loop cs (suc (length r)) s r ≢ out_of_fuel
          → ((s' : S) × (parse_loop cs (suc (length r)) s r ≡ ok s'))
            ⊎ (parse_loop cs (suc (length r)) s r ≡ out_of_bounds)
      by_outcome (ok s') e ne = inl (s', e)
      by_outcome out_of_bounds e ne = inr e
      by_outcome out_of_fuel e ne = absurd (ne e)

  hit_u8 :
      (f : S → ℕ → S) (s s' : S) (ie : Ie) (post : List ℕ)
      → Fits ie
      → (as_u8 ie >>= λ v. some (f s v)) ≡ some s'
      → store (read_u8 (ie_data ie ++ post)) (f s) ≡ some (s', post)
  unfolding store
  hit_u8 f s s' (ie_u8 t v) post h e =
      rw (read_u8-ie post t v h.1) (ap (λ x. x >>= λ y. some (y, post)) e)
  hit_u8 f s s' (ie_u16 t v) post h e = absurd cc
  hit_u8 f s s' (ie_u32 t v) post h e = absurd cc
  hit_u8 f s s' (ie_u64 t v) post h e = absurd cc
  hit_u8 f s s' (ie_bytes t v) post h e = absurd cc

  hit_u16 :
      (f : S → ℕ → S) (s s' : S) (ie : Ie) (post : List ℕ)
      → Fits ie
      → (as_u16 ie >>= λ v. some (f s v)) ≡ some s'
      → store (read_u16 (ie_data ie ++ post)) (f s) ≡ some (s', post)
  unfolding store
  hit_u16 f s s' (ie_u8 t v) post h e = absurd cc
  hit_u16 f s s' (ie_u16 t v) post h e =
      rw (read_u16-ie post t v h.1) (ap (λ x. x >>= λ y. some (y, post)) e)
  hit_u16 f s s' (ie_u32 t v) post h e = absurd cc
  hit_u16 f s s' (ie_u64 t v) post h e = absurd cc
  hit_u16 f s s' (ie_bytes t v) post h e = absurd cc

  hit_u32 :
      (f : S → ℕ → S) (s s' : S) (ie : Ie) (post : List ℕ)
      → Fits ie
      → (as_u32 ie >>= λ v. some (f s v)) ≡ some s'
      → store (read_u32 (ie_data ie ++ post)) (f s) ≡ some (s', post)
  unfolding store
  hit_u32 f s s' (ie_u8 t v) post h e = absurd cc
  hit_u32 f s s' (ie_u16 t v) post h e = absurd cc
  hit_u32 f s s' (ie_u32 t v) post h e =
      rw (read_u32-ie post t v h.1) (ap (λ x. x >>= λ y. some (y, post)) e)
  hit_u32 f s s' (ie_u64 t v) post h e = absurd cc
  hit_u32 f s s' (ie_bytes t v) post h e = absurd cc

  hit_u64 :
      (f : S → ℕ → S) (s s' : S) (ie : Ie) (post : List ℕ)
      → Fits ie
      → (as_u64 ie >>= λ v. some (f s v)) ≡ some s'
      → store (read_u64 (ie_data ie ++ post)) (f s) ≡ some (s', post)
  unfolding store
  hit_u64 f s s' (ie_u8 t v) post h e = absurd cc
  hit_u64 f s s' (ie_u16 t v) post h e = absurd cc
  hit_u64 f s s' (ie_u32 t v) post h e = absurd cc
  hit_u64 f s s' (ie_u64 t v) post h e =
      rw (read_u64-ie post t v h.1) (ap (λ x. x >>= λ y. some (y, post)) e)
  hit_u64 f s s' (ie_bytes t v) post h e = absurd cc

  hit_bytes :
      (f : S → List ℕ → S) (s s' : S) (ie : Ie) (post : List ℕ)
      → Fits ie
      → (as_bytes ie >>= λ v. some (f s v)) ≡ some s'
      → store (read_bytes (ie_data ie ++ post)) (f s) ≡ some (s', post)
  unfolding store
  hit_bytes f s s' (ie_u8 t v) post h e = absurd cc
  hit_bytes f s s' (ie_u16 t v) post h e = absurd cc
  hit_bytes f s s' (ie_u32 t v) post h e = absurd cc
  hit_bytes f s s' (ie_u64 t v) post h e = absurd cc
  hit_bytes f s s' (ie_bytes t v) post h e =
      rw (read_bytes-ie post t v h.1) (ap (λ x. x >>= λ y. some (y, post)) e)

  if-agree :
      (b : Bool) (x y : Option S) (u v : Option (S × List ℕ)) (s' : S) (post : List ℕ)
      → (x ≡ some s' → u ≡ some (s', post))
      → (y ≡ some s' → v ≡ some (s', post))
      → (if b then x else y) ≡ some s'
      → (if b then u else v) ≡ some (s', post)
  if-agree true x y u v s' post p q e = p e
  if-agree false x y u v s' post p q e = q e

  -- The switch reads an element of the type of its case, and stops behind it.
  pub switch-apply_ie :
      (cs : List (Case S)) (s s' : S) (ie : Ie) (post : List ℕ)
      → Fits ie
      → apply_ie cs s ie ≡ some s'
      → switch cs (ie_tag ie) s (ie_data ie ++ post) ≡ some (s', post)
  unfolding switch apply_ie
  switch-apply_ie [] s s' ie post h e =
      rw (skip-ie post ie h) (ap (λ x. x >>= λ y. some (y, post)) e)
  switch-apply_ie (case_u8 t f ∷ cs) s s' ie post h e =
      if-agree (ie_tag ie == t) _ _ _ _ s' post (hit_u8 f s s' ie post h)
        (switch-apply_ie cs s s' ie post h) e
  switch-apply_ie (case_u16 t f ∷ cs) s s' ie post h e =
      if-agree (ie_tag ie == t) _ _ _ _ s' post (hit_u16 f s s' ie post h)
        (switch-apply_ie cs s s' ie post h) e
  switch-apply_ie (case_u32 t f ∷ cs) s s' ie post h e =
      if-agree (ie_tag ie == t) _ _ _ _ s' post (hit_u32 f s s' ie post h)
        (switch-apply_ie cs s s' ie post h) e
  switch-apply_ie (case_u64 t f ∷ cs) s s' ie post h e =
      if-agree (ie_tag ie == t) _ _ _ _ s' post (hit_u64 f s s' ie post h)
        (switch-apply_ie cs s s' ie post h) e
  switch-apply_ie (case_bytes t f ∷ cs) s s' ie post h e =
      if-agree (ie_tag ie == t) _ _ _ _ s' post (hit_bytes f s s' ie post h)
        (switch-apply_ie cs s s' ie post h) e
