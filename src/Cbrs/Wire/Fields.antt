-- ===== src/Cbrs/Wire/Fields.antt =====
-- What `get` finds in a text: a text seen as lexemes, quoted or bare, each with the character
-- behind it.
use g_5g_ims_simulators.Prelude.{
  ℕ, ◌≡◌, ◌≢◌, refl, sym, ap, ◌∙◌, inl, inr, Bool, true, false, ◌&&◌, ◌||◌, Bool-cases, Option,
  none, some, List, [], ◌∷◌, ◌++◌, arith, leb, ◌==◌, ==_false, if◌then◌else◌, All,
}
use g_5g_ims_simulators.Prelude.Texts.{same_text}
use g_5g_ims_simulators.Cbrs.Wire.{strip, after, to_quote, to_end, token, needle, get}

-- The characters that no name and no value holds.
abbrev pub IsPlain : ℕ → Type 0
IsPlain c = (c ≢ b'"') × (c ≢ b',') × (c ≢ b'}')

abbrev pub is_letter : ℕ → Bool
is_letter c = leb b'A' c && leb c b'z'

pub data Lexeme : Type 0 where
  quoted : List ℕ → ℕ → Lexeme
  bare : List ℕ → ℕ → Lexeme

abbrev pub render : List Lexeme → List ℕ
render [] = []
render (quoted s c ∷ ls) = b'"' ∷ (s ++ (b'"' ∷ c ∷ render ls))
render (bare s c ∷ ls) = s ++ (c ∷ render ls)

abbrev pub Clean : Lexeme → Type 0
Clean (quoted s c) = All IsPlain s × (c ≢ b'"') × (is_letter c ≡ false)
Clean (bare s c) = All IsPlain s × (c ≢ b'"')

-- A name of a field starts with a letter and holds no quote.
abbrev pub IsName : List ℕ → Type 0
IsName [] = ⊥
IsName (c ∷ s) = (is_letter c ≡ true) × All IsPlain (c ∷ s)

-- The lexemes behind the first quoted one of that name that a colon follows.
unfoldable pub behind : List ℕ → List Lexeme → Option (List Lexeme)
behind k [] = none
behind k (bare s c ∷ ls) = behind k ls
behind k (quoted s c ∷ ls) =
    let later = behind k ls in if c == b':' && same_text k s then some ls else later

abbrev pub render? : Option (List Lexeme) → Option (List ℕ)
render? none = none
render? (some ls) = some (render ls)

strip-name :
    (k s : List ℕ) (c : ℕ) (rest : List ℕ)
    → All IsPlain k
    → All IsPlain s
    → strip (k ++ (b'"' ∷ b':' ∷ [])) (s ++ (b'"' ∷ c ∷ rest))
      ≡ (if c == b':' && same_text k s then some rest else none)
unfolding strip same_text
strip-name [] [] c rest p q = ground arith
strip-name [] (x ∷ s) c rest p q = ground arith
strip-name (y ∷ k) [] c rest p q = ground arith
strip-name (y ∷ k) (x ∷ s) c rest p q = ground (arith, strip-name k s c rest p.1 q.1)

module _ (k : List ℕ) (named : IsName k) where
  after-char :
      (c : ℕ) (rest : List ℕ) → c ≢ b'"' → after (needle k) (c ∷ rest) ≡ after (needle k) rest
  unfolding after strip
  after-char c rest h = rw (==_false b'"' c (λ e. h (sym e)), after)

  after-plain :
      (s rest : List ℕ) → All IsPlain s → after (needle k) (s ++ rest) ≡ after (needle k) rest
  after-plain [] rest p = refl
  after-plain (c ∷ s) rest p = after-char c (s ++ rest) p.0.0 ∙ after-plain s rest p.1

after-closing :
    (k : List ℕ)
    → IsName k
    → (c : ℕ) (rest : List ℕ) → is_letter c ≡ false
    → after (needle k) (b'"' ∷ c ∷ rest) ≡ after (needle k) (c ∷ rest)
unfolding after strip
after-closing [] named c rest h = absurd named
after-closing (y ∷ k) named c rest h = rw (==_false y c (λ e. ground arith), after)

-- A search for a name goes from quoted lexeme to quoted lexeme.
pub after-render :
    (k : List ℕ)
    → IsName k
    → (ls : List Lexeme) → All Clean ls
    → after (needle k) (render ls) ≡ render? (behind k ls)
unfolding behind after
after-render [] named ls p = absurd named
after-render (y ∷ k) named [] p = unfold strip in refl
after-render (y ∷ k) named (bare s c ∷ ls) p =
    after-plain (y ∷ k) named s (c ∷ render ls) p.0.0
    ∙ after-char (y ∷ k) named c (render ls) p.0.1
    ∙ after-render (y ∷ k) named ls p.1
after-render (y ∷ k) named (quoted s c ∷ ls) p =
    elim (Bool-cases (c == b':' && same_text (y ∷ k) s)) [
      | inl e ↦ rw (strip-name (y ∷ k) s c (render ls) named.1 p.0.0, e, after)
      | inr e ↦
          rw (strip-name (y ∷ k) s c (render ls) named.1 p.0.0, e, after)
            (after-plain (y ∷ k) named s (b'"' ∷ c ∷ render ls) p.0.0
              ∙ after-closing (y ∷ k) named c (render ls) p.0.2
              ∙ after-char (y ∷ k) named c (render ls) p.0.1
              ∙ after-render (y ∷ k) named ls p.1)
    ]

to_quote-plain : (s rest : List ℕ) → All IsPlain s → to_quote (s ++ (b'"' ∷ rest)) ≡ some s
unfolding to_quote
to_quote-plain [] rest p = refl
to_quote-plain (c ∷ s) rest p = rw (==_false c b'"' p.0.0, to_quote-plain s rest p.1, to_quote)

to_end-plain :
    (s : List ℕ) (c : ℕ) (rest : List ℕ)
    → All IsPlain s
    → (c == b',' || c == b'}') ≡ true
    → to_end (s ++ (c ∷ rest)) ≡ s
unfolding to_end
to_end-plain [] c rest p h = rw h
to_end-plain (x ∷ s) c rest p h =
    rw (==_false x b',' p.0.1, ==_false x b'}' p.0.2) (ap (◌∷◌ x) (to_end-plain s c rest p.1 h))

-- The value that a lexeme stands for.
abbrev pub value_of : Lexeme → List ℕ
value_of (quoted s c) = s
value_of (bare s c) = s

abbrev pub Ends : Lexeme → Type 0
Ends (quoted s c) = Unit
Ends (bare s c) = (c == b',' || c == b'}') ≡ true

token-lexeme :
    (l : Lexeme) (ls : List Lexeme) → Clean l → Ends l → token (render (l ∷ ls)) ≡ value_of l
unfolding token
token-lexeme (quoted s c) ls p h = rw (to_quote-plain s (c ∷ render ls) p.0, token)
token-lexeme (bare [] c) ls p h = rw (==_false c b'"' p.1, h)
token-lexeme (bare (x ∷ s) c) ls p h =
    rw (==_false x b'"' p.0.0.0) (to_end-plain (x ∷ s) c (render ls) p.0 h)

-- `get` gives the value of the lexeme behind the name.
pub get-render :
    (k : List ℕ) (ls : List Lexeme) (l : Lexeme) (rest : List Lexeme)
    → IsName k
    → All Clean ls
    → behind k ls ≡ some (l ∷ rest)
    → Clean l
    → Ends l
    → get (render ls) k ≡ value_of l
unfolding get
get-render k ls l rest named p e q h =
    rw (after-render k named ls p ∙ ap render? e, get) (token-lexeme l rest q h)

pub get-render-none :
    (k : List ℕ) (ls : List Lexeme)
    → IsName k
    → All Clean ls
    → behind k ls ≡ none
    → get (render ls) k ≡ []
unfolding get
get-render-none k ls named p e = rw (after-render k named ls p ∙ ap render? e, get)
