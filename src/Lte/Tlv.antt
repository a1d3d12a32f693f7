-- ===== src/Lte/Tlv.antt =====
-- tlv.h: the writer and the reader of the messages between the nodes.
pub mod RoundTrip
pub mod Loop
pub mod Messages
pub mod Truncated
use g_5g_ims_simulators.Prelude.{
  ℕ, zero, suc, ◌+◌, ◌*◌, ◌/◌, ◌%◌, ◌^◌, Bool, true, false, Option, none, some, List, [], ◌∷◌, ◌++◌,
  length, take, drop, leb, ◌==◌, ◌||◌, if◌then◌else◌,
}

-- A call of one of the writer's functions, with the tag and the value. `writeStr` and
-- `writeIPv4` write as `writeBytes` and `writeU32` do.
pub data Ie : Type 0 where
  ie_u8 ie_u16 ie_u32 ie_u64 : ℕ → ℕ → Ie
  ie_bytes : ℕ → List ℕ → Ie

-- `pu16`, `pu32` and the two halves of `writeU64`: low bytes first.
unfoldable pub pu16 : ℕ → List ℕ
pu16 v = v % 2 ^ 8 ∷ v / 2 ^ 8 % 2 ^ 8 ∷ []

unfoldable pub pu32 : ℕ → List ℕ
pu32 v = v % 2 ^ 8 ∷ v / 2 ^ 8 % 2 ^ 8 ∷ v / 2 ^ 16 % 2 ^ 8 ∷ v / 2 ^ 24 % 2 ^ 8 ∷ []

-- `th`: the tag and the length of the value.
unfoldable pub th : ℕ → ℕ → List ℕ
unfolding pu16
th t n = pu16 t ++ pu16 n

-- The bytes that one call appends. A length is converted to 16 bits.
unfoldable pub ie_data : Ie → List ℕ
unfolding th pu16 pu32
ie_data (ie_u8 t v) = th t 1 ++ (v % 2 ^ 8 ∷ [])
ie_data (ie_u16 t v) = th t 2 ++ pu16 v
ie_data (ie_u32 t v) = th t 4 ++ pu32 v
ie_data (ie_u64 t v) = th t 8 ++ (pu32 v ++ pu32 (v / 2 ^ 32))
ie_data (ie_bytes t d) = let n = length d % 2 ^ 16 in th t n ++ take n d

-- The constructor of `MessageWriter`, without the four bytes for the length of a frame.
pub header : ℕ → ℕ → ℕ → List ℕ
unfolding pu16 pu32
header msg_type flags seq = pu16 msg_type ++ (pu16 flags ++ pu32 seq)

pub writes : List ℕ → List Ie → List ℕ
writes buf [] = buf
writes buf (ie ∷ ies) = writes (buf ++ ie_data ie) ies

-- `udpPayload()` of a writer after the calls.
pub udp_payload : ℕ → ℕ → List Ie → List ℕ
udp_payload msg_type seq ies = writes (header msg_type 0 seq) ies

-- `frame()`: the length of the rest in 32 bits, then the rest.
pub frame : ℕ → ℕ → List Ie → List ℕ
unfolding pu32
frame msg_type seq ies = let rest = udp_payload msg_type seq ies in pu32 (length rest) ++ rest

-- A reader: the bytes of `buf_` from `pos_` on, which is all that its functions look at, and the
-- fields of the header.
pub record Reader : Type 0 where
  pub rest : List ℕ
  pub msg_type : ℕ
  pub flags : ℕ
  pub seq_num : ℕ

-- The words that `gu16` and `gu32` join from bytes; bytes do not overlap, so that `|` is `+`.
abbrev pub word16 : ℕ → ℕ → ℕ
word16 a b = a + b * 2 ^ 8

abbrev pub word32 : ℕ → ℕ → ℕ → ℕ → ℕ
word32 a b c d = a + b * 2 ^ 8 + c * 2 ^ 16 + d * 2 ^ 24

-- The constructor of `MessageReader`: fewer than eight bytes are not read as a header.
pub new_reader : List ℕ → Reader
new_reader (a ∷ b ∷ c ∷ d ∷ e ∷ f ∷ g ∷ h ∷ rest) = record {
  rest = rest;
  msg_type = word16 a b;
  flags = word16 c d;
  seq_num = word32 e f g h;
}
new_reader buf = record { rest = buf; msg_type = 0; flags = 0; seq_num = 0 }

pub has_more : List ℕ → Bool
has_more [] = false
has_more (b ∷ rest) = true

pub peek : List ℕ → Option (ℕ × ℕ)
peek (a ∷ b ∷ c ∷ d ∷ rest) = some (word16 a b, word16 c d)
peek rest = none

-- The reading functions: the value and what is left; `none` is a read past the end of the buffer,
-- which C++ leaves undefined. None but `readBytes` looks at the length in the message.
pub read_u8 : List ℕ → Option (ℕ × List ℕ)
read_u8 (_ ∷ _ ∷ _ ∷ _ ∷ a ∷ rest) = some (a, rest)
read_u8 rest = none

pub read_u16 : List ℕ → Option (ℕ × List ℕ)
read_u16 (_ ∷ _ ∷ _ ∷ _ ∷ a ∷ b ∷ rest) = some (word16 a b, rest)
read_u16 rest = none

pub read_u32 : List ℕ → Option (ℕ × List ℕ)
read_u32 (_ ∷ _ ∷ _ ∷ _ ∷ a ∷ b ∷ c ∷ d ∷ rest) = some (word32 a b c d, rest)
read_u32 rest = none

pub read_u64 : List ℕ → Option (ℕ × List ℕ)
read_u64 (_ ∷ _ ∷ _ ∷ _ ∷ a ∷ b ∷ c ∷ d ∷ e ∷ f ∷ g ∷ h ∷ rest) =
    some (word32 a b c d + word32 e f g h * 2 ^ 32, rest)
read_u64 rest = none

-- `readBytes` and `readStr`.
pub read_bytes : List ℕ → Option (List ℕ × List ℕ)
read_bytes (_ ∷ _ ∷ c ∷ d ∷ rest) =
    let len = word16 c d in
    if leb len (length rest) then some (take len rest, drop len rest) else none
read_bytes rest = none

pub skip : List ℕ → List ℕ
skip (_ ∷ _ ∷ c ∷ d ∷ rest) = drop (word16 c d) rest
skip rest = rest

-- What a loop over a message ends with.
pub data Outcome {ℓ} (S : Type ℓ) : Type ℓ where
  ok : S → Outcome S
  out_of_bounds out_of_fuel : Outcome S

-- A step that goes on with what the one before it ended with.
infixl 5 ◌>>=◌
abbrev pub ◌>>=◌ {ℓ κ} : {S : Type ℓ} {T : Type κ} → Outcome S → (S → Outcome T) → Outcome T
ok s >>= f = f s
out_of_bounds >>= f = out_of_bounds
out_of_fuel >>= f = out_of_fuel

-- One `case Tag::X: field = r.readY(); break;` of a switch, with the assignment as a function.
pub data Case (S : Type 0) : Type 0 where
  case_u8 case_u16 case_u32 case_u64 : ℕ → (S → ℕ → S) → Case S
  case_bytes : ℕ → (S → List ℕ → S) → Case S

-- What a `case` does with what was read; the reader is left behind it.
pub store : {V S : Type 0} → Option (V × List ℕ) → (V → S) → Option (S × List ℕ)
store none f = none
store (some (v, r)) f = some (f v, r)

module _ {S : Type 0} where
  -- `switch (tag) { …; default: r.skip(); }`
  pub switch : List (Case S) → ℕ → S → List ℕ → Option (S × List ℕ)
  unfolding store
  switch [] tag s r = some (s, skip r)
  switch (case_u8 t f ∷ cs) tag s r =
      let default = switch cs tag s r in if tag == t then store (read_u8 r) (f s) else default
  switch (case_u16 t f ∷ cs) tag s r =
      let default = switch cs tag s r in if tag == t then store (read_u16 r) (f s) else default
  switch (case_u32 t f ∷ cs) tag s r =
      let default = switch cs tag s r in if tag == t then store (read_u32 r) (f s) else default
  switch (case_u64 t f ∷ cs) tag s r =
      let default = switch cs tag s r in if tag == t then store (read_u64 r) (f s) else default
  switch (case_bytes t f ∷ cs) tag s r =
      let default = switch cs tag s r in if tag == t then store (read_bytes r) (f s) else default

  -- `while (r.hasMore()) { if (!r.peek(tag, len)) break; switch (tag) { … } }`, where every round
  -- needs one unit of fuel.
  pub parse_loop : List (Case S) → ℕ → S → List ℕ → Outcome S
  parse_loop cs zero s r = out_of_fuel
  parse_loop cs (suc fuel) s r =
      if has_more r
      then elim (peek r) [
        | none ↦ ok s
        | some (tag, len) ↦ elim (switch cs tag s r) [
          | none ↦ out_of_bounds
          | some (s', r') ↦ parse_loop cs fuel s' r'
        ]
      ]
      else ok s

  -- The loop with the fuel that is enough.
  pub parse : List (Case S) → S → List ℕ → Outcome S
  parse cs s r = parse_loop cs (suc (length r)) s r

-- `recvFrame` of socket_wrapper.h on what the stream delivers: a frame and the bytes after it.
pub recv_frame : List ℕ → Option (List ℕ × List ℕ)
recv_frame (a ∷ b ∷ c ∷ d ∷ stream) =
    let plen = word32 a b c d in
    if plen == 0 || leb (65536 + 1) plen
    then none
    else if leb plen (length stream)
    then some (take plen stream, drop plen stream)
    else none
recv_frame stream = none
