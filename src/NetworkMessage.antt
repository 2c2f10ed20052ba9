-- ===== src/NetworkMessage.antt =====
-- NetworkMessage (source/networkmessage.h, source/networkmessage.cpp): a buffer of fixed size with a
-- position and a length. A method returns its result with the new message; `none` is an access
-- outside of the buffer. The position is an int32_t as its 32 bits: from 2 ^ 31 on it stands for a
-- negative position. A sum that leaves the range of int32_t is undefined in the source; the model
-- wraps SkipBytes, and does not wrap the length.
pub mod Add
pub mod Safety
pub mod Memory
pub mod Effect
pub mod RoundTrip
pub mod Body
pub mod Length
mod Tests
use othire.Base.{
  ℕ, ◌+◌, ◌-◌, ◌%◌, ◌^◌, Option, none, some, List, [], ◌++◌, length, take, drop, Bool, true, false,
  leb, if◌then◌else◌,
}
use othire.Base.Bytes.{of_bytes}

-- NETWORKMESSAGE_MAXSIZE (source/const.h)
abbrev pub max_size : ℕ
max_size = 15340

abbrev pub header_length : ℕ
header_length = 2

abbrev pub max_body_length : ℕ
max_body_length = max_size - header_length

-- m_MsgSize, m_ReadPos, m_overrun and m_MsgBuf
pub record NetworkMessage : Type 0 where
  pub msg_size : ℕ
  pub read_pos : ℕ
  pub overrun : Bool
  pub msg_buf : List ℕ

abbrev pub Method {ℓ} : Type ℓ → Type ℓ
Method A = NetworkMessage → Option (A × NetworkMessage)

abbrev pub pure {ℓ} : {A : Type ℓ} → A → Method A
pure a m = some (a, m)

infixl 5 ◌>>=◌ ◌>>◌
abbrev pub ◌>>=◌ {ℓ κ} : {A : Type ℓ} {B : Type κ} → Method A → (A → Method B) → Method B
◌>>=◌ f g m = elim (f m) [ none ↦ none | some (a, m') ↦ g a m' ]

abbrev pub ◌>>◌ {ℓ} : {B : Type ℓ} → Method (Unit {0}) → Method B → Method B
f >> g = f >>= λ _. g

-- the n bytes at the position i
unfoldable pub load : ℕ → ℕ → List ℕ → Option (List ℕ)
load i n buf = if leb (i + n) (length buf) then some (take n (drop i buf)) else none

-- The bytes of the buffer from i on are overwritten.
unfoldable pub store : ℕ → List ℕ → List ℕ → Option (List ℕ)
store i bytes buf =
    if leb (i + length bytes) (length buf)
    then some (take i buf ++ (bytes ++ drop (i + length bytes) buf))
    else none

-- Reset; the buffer keeps its bytes.
pub reset : NetworkMessage → NetworkMessage
reset m = record m { overrun = false; msg_size = 0; read_pos = 4 }

pub set_read_pos : ℕ → NetworkMessage → NetworkMessage
set_read_pos pos m = record m { read_pos = pos }

-- SkipBytes; a negative count is its 32 bits too.
pub skip_bytes : ℕ → NetworkMessage → NetworkMessage
skip_bytes count m = record m { read_pos = (m.read_pos + count) % 2 ^ 32 }

-- `size >= NETWORKMESSAGE_MAXSIZE - m_ReadPos`; past the end the difference is not positive, and at
-- a negative position it is more than the size of the buffer.
abbrev pub past_end : ℕ → NetworkMessage → Bool
past_end size m =
    if leb (2 ^ 31) m.read_pos
    then leb (max_size + 2 ^ 32 - m.read_pos) size
    else leb (max_size - m.read_pos) size

abbrev pub expect_read : ℕ → NetworkMessage → Bool × NetworkMessage
expect_read size m = if past_end size m then (false, record m { overrun = true }) else (true, m)

-- the n bytes at the position, without moving it
unfoldable pub peek : ℕ → Method (List ℕ)
unfolding load
peek n m = elim (load m.read_pos n m.msg_buf) [ none ↦ none | some bytes ↦ some (bytes, m) ]

abbrev pub move : ℕ → Method (Unit {0})
move n m = some (tt, record m { read_pos = m.read_pos + n })

-- `expectRead`, then the read, or the value given if it fails
abbrev if_fits {ℓ} :
    {A : Type ℓ} → Bool × NetworkMessage → A → Method A → Option (A × NetworkMessage)
if_fits (true, m) a f = f m
if_fits (false, m) a f = some (a, m)

-- GetByte, GetU16 and GetU32, for an integer of n bytes
unfoldable pub get_value : ℕ → Method ℕ
unfolding peek
get_value n m = if_fits (expect_read n m) 0 (do bytes ← peek n; move n; pure (of_bytes bytes))

-- PeekU32
unfoldable pub peek_u32 : Method ℕ
unfolding peek
peek_u32 m = if_fits (expect_read 4 m) 0 (do bytes ← peek 4; pure (of_bytes bytes))

-- The text of GetString and GetRaw: too long a text is empty, and sets no overrun.
unfoldable pub get_text : ℕ → Method (List ℕ)
unfolding peek
get_text stringlen m =
    if past_end stringlen m
    then some ([], m)
    else (do bytes ← peek stringlen; move stringlen; pure bytes) m

unfoldable pub get_string : Method (List ℕ)
unfolding get_value get_text
get_string = do stringlen ← get_value 2; get_text stringlen

-- GetRaw: the length is the difference of two int32_t, cut to 16 bits.
unfoldable pub get_raw : Method (List ℕ)
unfolding get_text
get_raw m = get_text ((m.msg_size % 2 ^ 16 + 2 ^ 16 - m.read_pos % 2 ^ 16) % 2 ^ 16) m

-- Position; an int32_t of the source that was read from two bytes or one
pub record Position : Type 0 where
  pub x : ℕ
  pub y : ℕ
  pub z : ℕ

unfoldable pub get_position : Method Position
unfolding get_value
get_position = do
  x ← get_value 2
  y ← get_value 2
  z ← get_value 1
  pure (record { x = x; y = y; z = z })

-- decodeHeader: the first two bytes
unfoldable pub decode_header : NetworkMessage → Option ℕ
unfolding load
decode_header m = elim (load 0 2 m.msg_buf) [ none ↦ none | some bytes ↦ some (of_bytes bytes) ]
