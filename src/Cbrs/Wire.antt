-- ===== src/Cbrs/Wire.antt =====
-- common/wire.h: the JSON helpers, and the frames of common/socket_wrapper.h around them.
pub mod Fields
pub mod Frames
pub mod Lengths
pub mod Objects
use g_5g_ims_simulators.Prelude.{
  ℕ, zero, suc, ◌+◌, ◌*◌, ◌/◌, ◌%◌, ◌^◌, Bool, true, false, ◌&&◌, ◌||◌, Option, none, some, List,
  [], ◌∷◌, ◌++◌, length, take, drop, leb, ltb, ◌==◌, if◌then◌else◌,
}
use g_5g_ims_simulators.Prelude.Decimal.{to_string}

-- `str`
abbrev pub str : List ℕ → List ℕ
str s = b'"' ∷ (s ++ (b'"' ∷ []))

-- One round of the loop in `obj`: the key, the value verbatim, and a comma unless it is the last.
abbrev pub entry : List ℕ × List ℕ → List ℕ
entry (k, v) = b'"' ∷ (k ++ (b'"' ∷ b':' ∷ v))

abbrev pub entries : List (List ℕ × List ℕ) → List ℕ
entries [] = []
entries (kv ∷ []) = entry kv
entries (kv ∷ next ∷ kvs) = entry kv ++ (b',' ∷ entries (next ∷ kvs))

-- `obj`
abbrev pub obj : List (List ℕ × List ℕ) → List ℕ
obj kvs = b'{' ∷ (entries kvs ++ (b'}' ∷ []))

-- What is behind `prefix`, if the text starts with it.
unfoldable pub strip : List ℕ → List ℕ → Option (List ℕ)
strip [] text = some text
strip (p ∷ ps) [] = none
strip (p ∷ ps) (c ∷ text) = if p == c then strip ps text else none

-- `text.find(needle)`, and the text behind what it found.
unfoldable pub after : List ℕ → List ℕ → Option (List ℕ)
unfolding strip
after needle [] = strip needle []
after needle (c ∷ text) =
    let later = after needle text in
    elim (strip needle (c ∷ text)) [ some rest ↦ some rest | none ↦ later ]

-- The text before the next quote; none if there is no quote.
unfoldable pub to_quote : List ℕ → Option (List ℕ)
to_quote [] = none
to_quote (c ∷ text) = elim (c == b'"') [
  | true ↦ some []
  | false ↦ elim (to_quote text) [ none ↦ none | some s ↦ some (c ∷ s) ]
]

-- The text before the next comma or brace.
unfoldable pub to_end : List ℕ → List ℕ
to_end [] = []
to_end (c ∷ text) = let rest = c ∷ to_end text in if c == b',' || c == b'}' then [] else rest

-- The end of `get`, on the text behind the key.
unfoldable pub token : List ℕ → List ℕ
unfolding to_quote to_end
token [] = []
token (c ∷ text) =
    if c == b'"' then elim (to_quote text) [ none ↦ [] | some s ↦ s ] else to_end (c ∷ text)

abbrev pub needle : List ℕ → List ℕ
needle key = b'"' ∷ (key ++ (b'"' ∷ b':' ∷ []))

-- `get`
unfoldable pub get : List ℕ → List ℕ → List ℕ
unfolding after token
get text key = elim (after (needle key) text) [ none ↦ [] | some rest ↦ token rest ]

-- `makeFrame`: the length in four bytes, the lowest first.
unfoldable pub make_frame : List ℕ → List ℕ
make_frame text =
    let len = length text % 2 ^ 32 in
    (len % 256) ∷ (len / 256 % 256) ∷ (len / 65536 % 256) ∷ (len / 16777216 % 256) ∷ text

-- What `recvFrame` finds in the bytes of the stream: a payload, and what is behind it; a length that
-- it refuses, with all that is behind the four bytes still unread; or too little.
pub data Frame : Type 0 where
  whole : List ℕ → List ℕ → Frame
  refused : List ℕ → Frame
  short : Frame

-- `recvFrame`
unfoldable pub read_frame : List ℕ → Frame
read_frame (a ∷ b ∷ c ∷ d ∷ bytes) =
    let plen = a + 256 * b + 65536 * c + 16777216 * d in
    if plen == 0 || ltb 65536 plen
    then refused bytes
    else if leb plen (length bytes)
    then whole (take plen bytes) (drop plen bytes)
    else short
read_frame bytes = short

abbrev pub payload_of : Frame → Option (List ℕ × List ℕ)
payload_of (whole payload rest) = some (payload, rest)
payload_of (refused rest) = none
payload_of short = none

-- Its result, and what is behind a payload.
unfoldable pub recv_frame : List ℕ → Option (List ℕ × List ℕ)
unfolding read_frame
recv_frame bytes = payload_of (read_frame bytes)

-- What `recvMsg` makes of the text that `sendMsg` sent, and nothing else is in the stream.
unfoldable pub deliver : List ℕ → Option (List ℕ)
unfolding make_frame recv_frame
deliver text = elim (recv_frame (make_frame text)) [
  | none ↦ none
  | some (payload, rest) ↦ some payload
]
