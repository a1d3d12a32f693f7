-- ===== src/Lte/Tlv/Messages.antt =====
-- What a node's loop makes of a whole message.
use g_5g_ims_simulators.Prelude.{
  ℕ, suc, ◌+◌, ◌^◌, ◌<◌, ◌≡◌, ◌≢◌, refl, ap, ◌∙◌, sym, true, false, Option, none, some, List, [],
  ◌∷◌, ◌++◌, arith, length, ltb, ==_false, length-append, append_assoc, append-nil, All,
  Option-cases, inl, inr,
}
use g_5g_ims_simulators.Lte.Tlv.{
  Ie, ie_u8, ie_u16, ie_u32, ie_u64, ie_bytes, ie_data, th, pu16, has_more, Case, case_u8, case_u16,
  case_u32, case_u64, case_bytes, parse_loop, parse, Outcome, ok, out_of_bounds, udp_payload,
  header, pu32, new_reader,
}
use g_5g_ims_simulators.Lte.Tlv.RoundTrip.{
  ie_tag, Fits, peek-ie, ies_data, writes-eq, new_reader-udp_payload,
}
use g_5g_ims_simulators.Lte.Tlv.Loop.{apply_ie, apply_ies, switch-apply_ie, parse_loop-fuel}

has_more-ie : (ie : Ie) (post : List ℕ) → has_more (ie_data ie ++ post) ≡ true
unfolding has_more ie_data th pu16
has_more-ie (ie_u8 t v) post = refl
has_more-ie (ie_u16 t v) post = refl
has_more-ie (ie_u32 t v) post = refl
has_more-ie (ie_u64 t v) post = refl
has_more-ie (ie_bytes t v) post = refl

length-ie_data : (ie : Ie) → 0 < length (ie_data ie)
unfolding ie_data th pu16
length-ie_data (ie_u8 t v) = omega arith
length-ie_data (ie_u16 t v) = omega arith
length-ie_data (ie_u32 t v) = omega arith
length-ie_data (ie_u64 t v) = omega arith
length-ie_data (ie_bytes t v) = omega arith

-- The tag of a case.
abbrev pub case_tag : {S : Type 0} → Case S → ℕ
case_tag (case_u8 t f) = t
case_tag (case_u16 t f) = t
case_tag (case_u32 t f) = t
case_tag (case_u64 t f) = t
case_tag (case_bytes t f) = t

module _ {S : Type 0} (cs : List (Case S)) where
  parse-ie :
      (s s' : S) (ie : Ie) (post : List ℕ)
      → Fits ie
      → apply_ie cs s ie ≡ some s'
      → parse cs s (ie_data ie ++ post) ≡ parse cs s' post
  unfolding parse parse_loop
  parse-ie s s' ie post h e =
      rw (has_more-ie, (peek-ie post ie h).1, switch-apply_ie cs s s' ie post h e)
        (parse_loop-fuel cs (length (ie_data ie ++ post)) (suc (length post)) s' post
          (omega (arith, length-append (ie_data ie) post, length-ie_data ie)) (omega arith)).0

  -- The loop reads the elements in front, and goes on with the bytes behind them.
  pub parse-append :
      (ies : List Ie) (s s' : S) (post : List ℕ)
      → All Fits ies
      → apply_ies cs s ies ≡ some s'
      → parse cs s (ies_data ies ++ post) ≡ parse cs s' post
  unfolding apply_ies
  parse-append [] s s' post h e = ap (λ (o : Option S). parse_or o) e
    where
      parse_or : Option S → Outcome S
      parse_or none = out_of_bounds
      parse_or (some t) = parse cs t post
  parse-append (ie ∷ ies) s s' post h e = elim (Option-cases (apply_ie cs s ie)) [
    | inl e' ↦ absurd (no (rw e' at e))
    | inr (t, e') ↦
        ap (parse cs s) (append_assoc (ie_data ie) (ies_data ies) post)
        ∙ parse-ie s t ie (ies_data ies ++ post) h.0 e'
        ∙ parse-append ies t s' post h.1 (rw e' at e)
  ]
    where
      no : none ≡ some s' → ⊥
      no z = cc

  -- The loop over a whole message sets the fields as its elements say.
  pub parse-ies :
      (ies : List Ie) (s s' : S)
      → All Fits ies
      → apply_ies cs s ies ≡ some s'
      → parse cs s (ies_data ies) ≡ ok s'
  unfolding parse parse_loop has_more
  parse-ies ies s s' h e =
      ap (parse cs s) (sym (append-nil (ies_data ies))) ∙ parse-append ies s s' [] h e

  apply_ie-unknown :
      (ds : List (Case S)) (s : S) (ie : Ie)
      → All (λ c. case_tag c ≢ ie_tag ie) ds
      → apply_ie ds s ie ≡ some s
  unfolding apply_ie
  apply_ie-unknown [] s ie h = refl
  apply_ie-unknown (case_u8 t f ∷ ds) s ie h =
      rw (==_false (ie_tag ie) t (λ z. h.0 (sym z))) (apply_ie-unknown ds s ie h.1)
  apply_ie-unknown (case_u16 t f ∷ ds) s ie h =
      rw (==_false (ie_tag ie) t (λ z. h.0 (sym z))) (apply_ie-unknown ds s ie h.1)
  apply_ie-unknown (case_u32 t f ∷ ds) s ie h =
      rw (==_false (ie_tag ie) t (λ z. h.0 (sym z))) (apply_ie-unknown ds s ie h.1)
  apply_ie-unknown (case_u64 t f ∷ ds) s ie h =
      rw (==_false (ie_tag ie) t (λ z. h.0 (sym z))) (apply_ie-unknown ds s ie h.1)
  apply_ie-unknown (case_bytes t f ∷ ds) s ie h =
      rw (==_false (ie_tag ie) t (λ z. h.0 (sym z))) (apply_ie-unknown ds s ie h.1)

  -- An element with a tag that the switch does not name may stand anywhere behind elements that it
  -- reads: the loop ends as it does without the element, whatever follows.
  pub parse_skips-unknown :
      (ies : List Ie) (ie : Ie) (s s' : S) (post : List ℕ)
      → All Fits ies
      → Fits ie
      → apply_ies cs s ies ≡ some s'
      → All (λ c. case_tag c ≢ ie_tag ie) cs
      → parse cs s (ies_data ies ++ (ie_data ie ++ post)) ≡ parse cs s (ies_data ies ++ post)
  parse_skips-unknown ies ie s s' post h hie e unknown =
      parse-append ies s s' (ie_data ie ++ post) h e
      ∙ parse-ie s' s' ie post hie (apply_ie-unknown cs s' ie unknown)
      ∙ sym (parse-append ies s s' post h e)

module _ (msg_type seq : ℕ) (ies : List Ie) (ht : msg_type < 2 ^ 16) (hs : seq < 2 ^ 32) where
  pub msg_type-payload : (new_reader (udp_payload msg_type seq ies)).msg_type ≡ msg_type
  msg_type-payload = ap (λ r. r.msg_type) (new_reader-udp_payload msg_type seq ies ht hs)

  pub parse-payload :
      {S : Type 0} (cs : List (Case S)) (s s' : S)
      → All Fits ies
      → apply_ies cs s ies ≡ some s'
      → parse cs s (new_reader (udp_payload msg_type seq ies)).rest ≡ ok s'
  parse-payload cs s s' h e =
      ap (λ r. parse cs s r.rest) (new_reader-udp_payload msg_type seq ies ht hs)
      ∙ parse-ies cs ies s s' h e

pub payload-size :
    (msg_type seq : ℕ) (ies : List Ie) → ltb (length (udp_payload msg_type seq ies)) 8 ≡ false
unfolding udp_payload header pu16 pu32
payload-size msg_type seq ies = ground (
  arith,
  writes-eq ies (header msg_type 0 seq),
  length-append (header msg_type 0 seq) (ies_data ies),
)

pub length-payload :
    (msg_type seq : ℕ) (ies : List Ie)
    → length (udp_payload msg_type seq ies) ≡ 8 + length (ies_data ies)
unfolding udp_payload header pu16 pu32
length-payload msg_type seq ies = omega (
  arith,
  ap length (writes-eq ies (header msg_type 0 seq)),
  length-append (header msg_type 0 seq) (ies_data ies),
)
