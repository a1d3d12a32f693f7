-- ===== src/Cbrs/Wire/Objects.antt =====
-- `get` on the objects that `obj` writes, nested objects included.
use g_5g_ims_simulators.Prelude.{
  ℕ, ◌≡◌, ◌≢◌, refl, ap, ◌∙◌, ◌⊎◌, subst, inl, inr, false, Bool-cases, Option, none, some, List, [],
  ◌∷◌, ◌++◌, append_assoc, arith, if◌then◌else◌, All,
}
use g_5g_ims_simulators.Prelude.Texts.{same_text}
use g_5g_ims_simulators.Cbrs.Wire.{str, obj, entry, entries, get}
use g_5g_ims_simulators.Cbrs.Wire.Fields.{
  IsPlain, IsName, Lexeme, quoted, bare, render, Clean, Ends, value_of, behind, get-render,
  get-render-none,
}

-- A value that is no object: a text, or a number by its digits.
pub data Flat : Type 0 where
  text : List ℕ → Flat
  number : List ℕ → Flat

pub data Value : Type 0 where
  flat : Flat → Value
  object : List (List ℕ × Flat) → Value

abbrev pub write_flat : Flat → List ℕ
write_flat (text s) = str s
write_flat (number s) = s

abbrev pub flat_entries : List (List ℕ × Flat) → List (List ℕ × List ℕ)
flat_entries [] = []
flat_entries ((k, v) ∷ kvs) = (k, write_flat v) ∷ flat_entries kvs

abbrev pub write : Value → List ℕ
write (flat v) = write_flat v
write (object kvs) = obj (flat_entries kvs)

abbrev pub value_entries : List (List ℕ × Value) → List (List ℕ × List ℕ)
value_entries [] = []
value_entries ((k, v) ∷ kvs) = (k, write v) ∷ value_entries kvs

abbrev pub content : Flat → List ℕ
content (text s) = s
content (number s) = s

abbrev pub IsCleanFlat : List ℕ × Flat → Type 0
IsCleanFlat (k, v) = All IsPlain k × All IsPlain (content v)

abbrev pub IsClean : List ℕ × Value → Type 0
IsClean (k, flat v) = All IsPlain k × All IsPlain (content v)
IsClean (k, object kvs) = All IsPlain k × All IsCleanFlat kvs

abbrev pub or_else : Option (List ℕ) → Option (List ℕ) → Option (List ℕ)
or_else none o = o
or_else (some s) o = some s

-- The first field of that name, in the order of the text.
abbrev pub first_flat : List ℕ → List (List ℕ × Flat) → Option (List ℕ)
first_flat k [] = none
first_flat k ((j, v) ∷ kvs) = if same_text k j then some (content v) else first_flat k kvs

abbrev pub first : List ℕ → List (List ℕ × Value) → Option (List ℕ)
first k [] = none
first k ((j, flat v) ∷ kvs) = if same_text k j then some (content v) else first k kvs
first k ((j, object inner) ∷ kvs) = or_else (first_flat k inner) (first k kvs)

-- No object has that name.
abbrev pub NoObject : List ℕ → List ℕ × Value → Type 0
NoObject k (j, flat v) = Unit
NoObject k (j, object inner) = same_text k j ≡ false

abbrev pub or_empty : Option (List ℕ) → List ℕ
or_empty none = []
or_empty (some s) = s

abbrev flat_lexeme : Flat → ℕ → Lexeme
flat_lexeme (text s) c = quoted s c
flat_lexeme (number s) c = bare s c

abbrev flat_lexemes : List (List ℕ × Flat) → List Lexeme → List Lexeme
flat_lexemes [] ls = bare [] b'}' ∷ ls
flat_lexemes ((k, v) ∷ []) ls = quoted k b':' ∷ flat_lexeme v b'}' ∷ ls
flat_lexemes ((k, v) ∷ next ∷ kvs) ls =
    quoted k b':' ∷ flat_lexeme v b',' ∷ flat_lexemes (next ∷ kvs) ls

abbrev value_lexemes : Value → ℕ → List Lexeme → List Lexeme
value_lexemes (flat v) c ls = flat_lexeme v c ∷ ls
value_lexemes (object kvs) c ls = bare [] b'{' ∷ flat_lexemes kvs (bare [] c ∷ ls)

abbrev lexemes : List (List ℕ × Value) → List Lexeme
lexemes [] = bare [] b'}' ∷ []
lexemes ((k, v) ∷ []) = quoted k b':' ∷ value_lexemes v b'}' []
lexemes ((k, v) ∷ next ∷ kvs) = quoted k b':' ∷ value_lexemes v b',' (lexemes (next ∷ kvs))

write_flat-render :
    (v : Flat) (c : ℕ) (ls : List Lexeme)
    → write_flat v ++ (c ∷ render ls) ≡ render (flat_lexeme v c ∷ ls)
write_flat-render (text s) c ls = ap (◌∷◌ b'"') (append_assoc s (b'"' ∷ []) (c ∷ render ls))
write_flat-render (number s) c ls = refl

entry-append :
    (k v rest : List ℕ) → entry (k, v) ++ rest ≡ b'"' ∷ (k ++ (b'"' ∷ b':' ∷ (v ++ rest)))
entry-append k v rest = ap (◌∷◌ b'"') (append_assoc k (b'"' ∷ b':' ∷ v) rest)

flat_entries-render :
    (kvs : List (List ℕ × Flat)) (ls : List Lexeme)
    → entries (flat_entries kvs) ++ (b'}' ∷ render ls) ≡ render (flat_lexemes kvs ls)
flat_entries-render [] ls = refl
flat_entries-render ((k, v) ∷ []) ls =
    entry-append k (write_flat v) (b'}' ∷ render ls)
    ∙ ap (λ (t : List ℕ). b'"' ∷ (k ++ (b'"' ∷ b':' ∷ t))) (write_flat-render v b'}' ls)
flat_entries-render ((k, v) ∷ next ∷ kvs) ls =
    append_assoc (entry (k, write_flat v)) (b',' ∷ entries (flat_entries (next ∷ kvs)))
      (b'}' ∷ render ls)
    ∙ ap (λ (t : List ℕ). entry (k, write_flat v) ++ (b',' ∷ t))
        (flat_entries-render (next ∷ kvs) ls)
    ∙ entry-append k (write_flat v) (b',' ∷ render (flat_lexemes (next ∷ kvs) ls))
    ∙ ap (λ (t : List ℕ). b'"' ∷ (k ++ (b'"' ∷ b':' ∷ t)))
        (write_flat-render v b',' (flat_lexemes (next ∷ kvs) ls))

value_lexemes-render :
    (v : Value) (c : ℕ) (ls : List Lexeme)
    → write v ++ (c ∷ render ls) ≡ render (value_lexemes v c ls)
value_lexemes-render (flat v) c ls = write_flat-render v c ls
value_lexemes-render (object kvs) c ls = ap (◌∷◌ b'{') (
    append_assoc (entries (flat_entries kvs)) (b'}' ∷ []) (c ∷ render ls)
    ∙ flat_entries-render kvs (bare [] c ∷ ls))

entries-render :
    (kvs : List (List ℕ × Value))
    → entries (value_entries kvs) ++ (b'}' ∷ []) ≡ render (lexemes kvs)
entries-render [] = refl
entries-render ((k, v) ∷ []) =
    entry-append k (write v) (b'}' ∷ [])
    ∙ ap (λ (t : List ℕ). b'"' ∷ (k ++ (b'"' ∷ b':' ∷ t))) (value_lexemes-render v b'}' [])
entries-render ((k, v) ∷ next ∷ kvs) =
    append_assoc (entry (k, write v)) (b',' ∷ entries (value_entries (next ∷ kvs))) (b'}' ∷ [])
    ∙ ap (λ (t : List ℕ). entry (k, write v) ++ (b',' ∷ t)) (entries-render (next ∷ kvs))
    ∙ entry-append k (write v) (b',' ∷ render (lexemes (next ∷ kvs)))
    ∙ ap (λ (t : List ℕ). b'"' ∷ (k ++ (b'"' ∷ b':' ∷ t)))
        (value_lexemes-render v b',' (lexemes (next ∷ kvs)))

-- What a search for the name finds among the lexemes: no field, or one with this content.
abbrev Reads : List ℕ → List Lexeme → Option (List ℕ) → Type 0
Reads k ls none = behind k ls ≡ none
Reads k ls (some s) =
    (l : Lexeme) × (rest : List Lexeme) × (behind k ls ≡ some (l ∷ rest))
    × Clean l
    × Ends l
    × (value_of l ≡ s)

Reads-same :
    (k : List ℕ) (ls ls' : List Lexeme) (o : Option (List ℕ))
    → behind k ls' ≡ behind k ls
    → Reads k ls o
    → Reads k ls' o
Reads-same k ls ls' none e r = e ∙ r
Reads-same k ls ls' (some s) e (l, rest, b, c, n, v) = (l, rest, e ∙ b, c, n, v)

IsEnd : ℕ → Type 0
IsEnd c = (c ≡ b',') ⊎ (c ≡ b'}')

Clean-flat_lexeme :
    (v : Flat) (c : ℕ)
    → IsEnd c
    → All IsPlain (content v)
    → Clean (flat_lexeme v c) × Ends (flat_lexeme v c)
unfolding IsEnd
Clean-flat_lexeme (text s) c (inl e) p = rw e ((p, omega arith, refl), tt)
Clean-flat_lexeme (text s) c (inr e) p = rw e ((p, omega arith, refl), tt)
Clean-flat_lexeme (number s) c (inl e) p = rw e ((p, omega arith), refl)
Clean-flat_lexeme (number s) c (inr e) p = rw e ((p, omega arith), refl)

behind-flat_lexeme :
    (k : List ℕ) (v : Flat) (c : ℕ) (ls : List Lexeme)
    → IsEnd c
    → behind k (flat_lexeme v c ∷ ls) ≡ behind k ls
unfolding behind IsEnd
behind-flat_lexeme k (text s) c ls (inl e) = rw e
behind-flat_lexeme k (text s) c ls (inr e) = rw e
behind-flat_lexeme k (number s) c ls e = refl

value_of-flat_lexeme : (v : Flat) (c : ℕ) → value_of (flat_lexeme v c) ≡ content v
value_of-flat_lexeme (text s) c = refl
value_of-flat_lexeme (number s) c = refl

module _ (k : List ℕ) where
  Reads-field :
      (j : List ℕ) (v : Flat) (c : ℕ) (ls : List Lexeme) (o : Option (List ℕ))
      → IsEnd c
      → All IsPlain (content v)
      → Reads k ls o
      → Reads k
          (quoted j b':' ∷ flat_lexeme v c ∷ ls)
          (if same_text k j then some (content v) else o)
  unfolding behind
  Reads-field j v c ls o end p r = elim (Bool-cases (same_text k j)) [
    | inl e ↦
        rw (e, behind)
          (
            flat_lexeme v c,
            ls,
            rw (e, behind),
            (Clean-flat_lexeme v c end p).0,
            (Clean-flat_lexeme v c end p).1,
            value_of-flat_lexeme v c,
          )
    | inr e ↦ rw e (
        Reads-same k ls (quoted j b':' ∷ flat_lexeme v c ∷ ls) o
          (rw (e, behind) (behind-flat_lexeme k v c ls end)) r)
  ]

  or_else-field :
      (j : List ℕ) (x : List ℕ) (p o : Option (List ℕ))
      → (if same_text k j then some x else or_else p o)
        ≡ or_else (if same_text k j then some x else p) o
  or_else-field j x p o = elim (Bool-cases (same_text k j)) [ inl e ↦ rw e | inr e ↦ rw e ]

  Reads-flat_lexemes :
      (kvs : List (List ℕ × Flat)) (ls : List Lexeme) (o : Option (List ℕ))
      → All IsCleanFlat kvs
      → Reads k ls o
      → Reads k (flat_lexemes kvs ls) (or_else (first_flat k kvs) o)
  unfolding IsEnd
  Reads-flat_lexemes [] ls o p r = Reads-same k ls _ o (unfold behind in refl) r
  Reads-flat_lexemes ((j, v) ∷ []) ls o p r =
      subst (Reads k _) (or_else-field j (content v) none o)
        (Reads-field j v b'}' ls o (inr refl) p.0.1 r)
  Reads-flat_lexemes ((j, v) ∷ next ∷ kvs) ls o p r =
      subst (Reads k _) (or_else-field j (content v) (first_flat k (next ∷ kvs)) o) (
        Reads-field j v b',' (flat_lexemes (next ∷ kvs) ls) _ (inl refl) p.0.1
          (Reads-flat_lexemes (next ∷ kvs) ls o p.1 r))

  Reads-value :
      (j : List ℕ) (v : Value) (c : ℕ) (ls : List Lexeme) (kvs : List (List ℕ × Value))
      → IsEnd c
      → IsClean (j, v)
      → NoObject k (j, v)
      → Reads k ls (first k kvs)
      → Reads k (quoted j b':' ∷ value_lexemes v c ls) (first k ((j, v) ∷ kvs))
  unfolding behind
  Reads-value j (flat v) c ls kvs end p n r = Reads-field j v c ls (first k kvs) end p.1 r
  Reads-value j (object inner) c ls kvs end p n r =
      Reads-same k (flat_lexemes inner (bare [] c ∷ ls))
        (quoted j b':' ∷ value_lexemes (object inner) c ls) (first k ((j, object inner) ∷ kvs))
        (rw (n, behind))
        (Reads-flat_lexemes inner (bare [] c ∷ ls) (first k kvs) p.1
          (Reads-same k ls (bare [] c ∷ ls) (first k kvs) refl r))

  Reads-lexemes :
      (kvs : List (List ℕ × Value))
      → All IsClean kvs
      → All (NoObject k) kvs
      → Reads k (lexemes kvs) (first k kvs)
  unfolding behind IsEnd
  Reads-lexemes [] p n = refl
  Reads-lexemes ((j, v) ∷ []) p n = Reads-value j v b'}' [] [] (inr refl) p.0 n.0 refl
  Reads-lexemes ((j, v) ∷ next ∷ kvs) p n =
      Reads-value j v b',' (lexemes (next ∷ kvs)) (next ∷ kvs) (inl refl) p.0 n.0
        (Reads-lexemes (next ∷ kvs) p.1 n.1)

Clean-flat_lexemes :
    (kvs : List (List ℕ × Flat)) (ls : List Lexeme)
    → All IsCleanFlat kvs
    → All Clean ls
    → All Clean (flat_lexemes kvs ls)
unfolding IsEnd
Clean-flat_lexemes [] ls p q = ((tt, omega arith), q)
Clean-flat_lexemes ((k, v) ∷ []) ls p q =
    ((p.0.0, omega arith, refl), ((Clean-flat_lexeme v b'}' (inr refl) p.0.1).0, q))
Clean-flat_lexemes ((k, v) ∷ next ∷ kvs) ls p q = (
  (p.0.0, omega arith, refl),
  ((Clean-flat_lexeme v b',' (inl refl) p.0.1).0, Clean-flat_lexemes (next ∷ kvs) ls p.1 q),
)

Clean-value :
    (k : List ℕ) (v : Value) (c : ℕ) (ls : List Lexeme)
    → IsEnd c
    → IsClean (k, v)
    → All Clean ls
    → All Clean (quoted k b':' ∷ value_lexemes v c ls)
unfolding IsEnd
Clean-value k (flat v) c ls end p q =
    ((p.0, omega arith, refl), ((Clean-flat_lexeme v c end p.1).0, q))
Clean-value k (object inner) c ls end p q = (
  (p.0, omega arith, refl),
  ((tt, omega arith), Clean-flat_lexemes inner (bare [] c ∷ ls) p.1 ((tt, plain end), q)),
)
  where
    plain : IsEnd c → c ≢ b'"'
    plain (inl e) = omega arith
    plain (inr e) = omega arith

Clean-lexemes : (kvs : List (List ℕ × Value)) → All IsClean kvs → All Clean (lexemes kvs)
unfolding IsEnd
Clean-lexemes [] p = ((tt, omega arith), tt)
Clean-lexemes ((k, v) ∷ []) p = Clean-value k v b'}' [] (inr refl) p.0 tt
Clean-lexemes ((k, v) ∷ next ∷ kvs) p =
    Clean-value k v b',' (lexemes (next ∷ kvs)) (inl refl) p.0 (Clean-lexemes (next ∷ kvs) p.1)

get-Reads :
    (k : List ℕ) (ls : List Lexeme) (o : Option (List ℕ))
    → IsName k
    → All Clean ls
    → Reads k ls o
    → get (render ls) k ≡ or_empty o
get-Reads k ls none named p r = get-render-none k ls named p r
get-Reads k ls (some s) named p (l, rest, e, c, n, v) = get-render k ls l rest named p e c n ∙ v

-- The reader gets back what the writer wrote: in an object with clean names and values, nested
-- objects included, it finds the content of the first field of a name that no object has, and
-- the empty text if there is none.
pub get-obj :
    (k : List ℕ) (kvs : List (List ℕ × Value))
    → IsName k
    → All IsClean kvs
    → All (NoObject k) kvs
    → get (obj (value_entries kvs)) k ≡ or_empty (first k kvs)
unfolding behind
get-obj k kvs named p n =
    ap (λ (t : List ℕ). get (b'{' ∷ t) k) (entries-render kvs)
    ∙ get-Reads k (bare [] b'{' ∷ lexemes kvs) (first k kvs) named
        ((tt, omega arith), Clean-lexemes kvs p)
        (Reads-same k (lexemes kvs) (bare [] b'{' ∷ lexemes kvs) (first k kvs) refl
          (Reads-lexemes k kvs p n))
