-- ===== src/Lte/Tlv/RoundTrip.antt =====
-- What the writer writes the reader reads.
use g_5g_ims_simulators.Prelude.{
  ℕ, ◌+◌, ◌*◌, ◌/◌, ◌%◌, ◌^◌, ◌<◌, ◌≤◌, ◌≡◌, refl, ap, ◌∙◌, sym, true, false, ◌||◌, some, List, [],
  ◌∷◌, ◌++◌, arith, length, take, drop, leb, ◌==◌, length-append, append_assoc, append-nil,
}
use g_5g_ims_simulators.Lte.Tlv.{
  Ie, ie_u8, ie_u16, ie_u32, ie_u64, ie_bytes, ie_data, th, header, writes, udp_payload, frame,
  new_reader, peek, read_u8, read_u16, read_u32, read_u64, read_bytes, skip, recv_frame, word16,
  word32,
}

-- The tag of a call.
abbrev pub ie_tag : Ie → ℕ
ie_tag (ie_u8 t v) = t
ie_tag (ie_u16 t v) = t
ie_tag (ie_u32 t v) = t
ie_tag (ie_u64 t v) = t
ie_tag (ie_bytes t d) = t

-- The arguments are of the types that the functions take.
abbrev pub Fits : Ie → Type 0
Fits (ie_u8 t v) = (t < 2 ^ 16) × (v < 2 ^ 8)
Fits (ie_u16 t v) = (t < 2 ^ 16) × (v < 2 ^ 16)
Fits (ie_u32 t v) = (t < 2 ^ 16) × (v < 2 ^ 32)
Fits (ie_u64 t v) = (t < 2 ^ 16) × (v < 2 ^ 64)
Fits (ie_bytes t d) = (t < 2 ^ 16) × (length d < 2 ^ 16)

pub join16 : (v : ℕ) → v < 2 ^ 16 → word16 (v % 2 ^ 8) (v / 2 ^ 8 % 2 ^ 8) ≡ v
join16 v h = omega arith

pub join32 :
    (v : ℕ)
    → v < 2 ^ 32
    → word32 (v % 2 ^ 8) (v / 2 ^ 8 % 2 ^ 8) (v / 2 ^ 16 % 2 ^ 8) (v / 2 ^ 24 % 2 ^ 8) ≡ v
join32 v h = omega arith

join64 :
    (v : ℕ)
    → v < 2 ^ 64
    → word32 (v % 2 ^ 8) (v / 2 ^ 8 % 2 ^ 8) (v / 2 ^ 16 % 2 ^ 8) (v / 2 ^ 24 % 2 ^ 8)
        + (let w = v / 2 ^ 32 in
            word32 (w % 2 ^ 8) (w / 2 ^ 8 % 2 ^ 8) (w / 2 ^ 16 % 2 ^ 8) (w / 2 ^ 24 % 2 ^ 8))
          * 2 ^ 32
      ≡ v
join64 v h = omega arith

take-append_exact {ℓ} : {A : Type ℓ} (xs ys : List A) → take (length xs) (xs ++ ys) ≡ xs
take-append_exact [] ys = refl
take-append_exact (x ∷ xs) ys = ap (◌∷◌ x) (take-append_exact xs ys)

drop-append_exact {ℓ} : {A : Type ℓ} (xs ys : List A) → drop (length xs) (xs ++ ys) ≡ ys
drop-append_exact [] ys = refl
drop-append_exact (x ∷ xs) ys = drop-append_exact xs ys

take-all {ℓ} : {A : Type ℓ} (xs : List A) → take (length xs) xs ≡ xs
take-all [] = refl
take-all (x ∷ xs) = ap (◌∷◌ x) (take-all xs)

module _ (post : List ℕ) where
  pub read_u8-ie : (t v : ℕ) → v < 2 ^ 8 → read_u8 (ie_data (ie_u8 t v) ++ post) ≡ some (v, post)
  unfolding read_u8 ie_data
  read_u8-ie t v h = ap (λ (x : ℕ). some (x, post)) {x = v % 2 ^ 8} {y = v} (omega arith)

  pub read_u16-ie :
      (t v : ℕ) → v < 2 ^ 16 → read_u16 (ie_data (ie_u16 t v) ++ post) ≡ some (v, post)
  unfolding read_u16 ie_data
  read_u16-ie t v h = ap (λ (x : ℕ). some (x, post)) (join16 v h)

  pub read_u32-ie :
      (t v : ℕ) → v < 2 ^ 32 → read_u32 (ie_data (ie_u32 t v) ++ post) ≡ some (v, post)
  unfolding read_u32 ie_data
  read_u32-ie t v h = ap (λ (x : ℕ). some (x, post)) (join32 v h)

  pub read_u64-ie :
      (t v : ℕ) → v < 2 ^ 64 → read_u64 (ie_data (ie_u64 t v) ++ post) ≡ some (v, post)
  unfolding read_u64 ie_data
  read_u64-ie t v h = ap (λ (x : ℕ). some (x, post)) (join64 v h)

  -- `th t n ++ take n d` for a value of less than 2 ^ 16 bytes.
  bytes-data :
      (t : ℕ) (d : List ℕ)
      → length d < 2 ^ 16
      → ie_data (ie_bytes t d) ++ post ≡ th t (length d) ++ (d ++ post)
  unfolding ie_data
  bytes-data t d h =
      ap (λ (n : ℕ). (th t n ++ take n d) ++ post) {x = length d % 2 ^ 16} {y = length d}
        (omega arith)
      ∙ ap (λ (xs : List ℕ). (th t (length d) ++ xs) ++ post) (take-all d)
      ∙ append_assoc (th t (length d)) d post

  pub read_bytes-ie :
      (t : ℕ) (d : List ℕ)
      → length d < 2 ^ 16
      → read_bytes (ie_data (ie_bytes t d) ++ post) ≡ some (d, post)
  unfolding read_bytes th
  read_bytes-ie t d h =
      ap read_bytes (bytes-data t d h)
      ∙ rw (join16 (length d) h, inside, take-append_exact, drop-append_exact)
    where
      inside : leb (length d) (length (d ++ post)) ≡ true
      inside = ground (arith, length-append d post)

  pub peek-ie :
      (ie : Ie) → Fits ie → (len : ℕ) × (peek (ie_data ie ++ post) ≡ some (ie_tag ie, len))
  unfolding peek ie_data th
  peek-ie (ie_u8 t v) h = (1, rw (join16 t h.0))
  peek-ie (ie_u16 t v) h = (2, rw (join16 t h.0))
  peek-ie (ie_u32 t v) h = (4, rw (join16 t h.0))
  peek-ie (ie_u64 t v) h = (8, rw (join16 t h.0))
  peek-ie (ie_bytes t d) h =
      (length d, ap peek (bytes-data t d h.1) ∙ rw (join16 t h.0, join16 (length d) h.1))

  -- Whatever the tag, `skip` stops behind the value.
  pub skip-ie : (ie : Ie) → Fits ie → skip (ie_data ie ++ post) ≡ post
  unfolding skip ie_data th
  skip-ie (ie_u8 t v) h = refl
  skip-ie (ie_u16 t v) h = refl
  skip-ie (ie_u32 t v) h = refl
  skip-ie (ie_u64 t v) h = refl
  skip-ie (ie_bytes t d) h =
      ap skip (bytes-data t d h.1) ∙ rw (join16 (length d) h.1) (drop-append_exact d post)

-- All the calls of a message in one.
abbrev pub ies_data : List Ie → List ℕ
ies_data [] = []
ies_data (ie ∷ ies) = ie_data ie ++ ies_data ies

pub writes-eq : (ies : List Ie) (buf : List ℕ) → writes buf ies ≡ buf ++ ies_data ies
unfolding writes
writes-eq [] buf = sym (append-nil buf)
writes-eq (ie ∷ ies) buf =
    writes-eq ies (buf ++ ie_data ie) ∙ append_assoc buf (ie_data ie) (ies_data ies)

-- A reader of a message has its type and sequence number, and stands before its elements.
pub new_reader-udp_payload :
    (msg_type seq : ℕ) (ies : List Ie)
    → msg_type < 2 ^ 16
    → seq < 2 ^ 32
    → new_reader (udp_payload msg_type seq ies)
      ≡ record { rest = ies_data ies; msg_type = msg_type; flags = 0; seq_num = seq }
unfolding new_reader udp_payload header
new_reader-udp_payload msg_type seq ies ht hs =
    ap new_reader (writes-eq ies (header msg_type 0 seq)) ∙ rw (join16 msg_type ht, join32 seq hs)

-- A frame of at most 65536 bytes behind its length, followed by anything, is received whole, and
-- nothing of what follows it is taken.
pub recv-frame :
    (msg_type seq : ℕ) (ies : List Ie) (more : List ℕ)
    → length (udp_payload msg_type seq ies) ≤ 65536
    → recv_frame (frame msg_type seq ies ++ more) ≡ some (udp_payload msg_type seq ies, more)
unfolding recv_frame frame
recv-frame msg_type seq ies more h =
    rw (join32 (length payload) (omega arith), framed, take-append_exact, drop-append_exact, inside)
  where
    payload : List ℕ
    payload = udp_payload msg_type seq ies

    framed : (length payload == 0 || leb (65536 + 1) (length payload)) ≡ false
    framed =
        unfold udp_payload header in
        ground (
          arith,
          writes-eq ies (header msg_type 0 seq),
          length-append (header msg_type 0 seq) (ies_data ies),
        )

    inside : leb (length payload) (length (payload ++ more)) ≡ true
    inside = ground (arith, length-append payload more)
