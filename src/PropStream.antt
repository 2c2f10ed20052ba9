-- ===== src/PropStream.antt =====
-- PropStream, the reader of a node's properties (source/fileloader.h).
-- `buf` is the memory that `init` was given, `p` the offset of the pointer p in it; `end` is the end
-- of `buf`. A read returns true (`got`), or false and leaves the stream where the code leaves it
-- (`refused`), or touches memory outside of `buf` (`fault`).
pub mod Write
pub mod Safety
pub mod RoundTrip
mod Tests
use othire.Base.{ℕ, ◌+◌, ◌-◌, ◌^◌, List, length, take, drop, Bool, ltb, leb, if◌then◌else◌}
use othire.Base.Bytes.{of_bytes}
use othire.Base.Int.{ℤ, pos, negsuc, pos_part, neg_part, ltb_ℤ}

pub record PropStream : Type 0 where
  pub buf : List ℕ
  pub p : ℕ

pub data Read {ℓ} (A : Type ℓ) : Type ℓ where
  got : A → PropStream → Read A
  refused : PropStream → Read A
  fault : Read A

abbrev pub init : List ℕ → PropStream
init a = record { buf = a; p = 0 }

-- `end - p`
unfoldable pub size : PropStream → ℕ
size s = length s.buf - s.p

-- the n bytes at p, for a `memcpy` or a load
abbrev bytes_at : ℕ → PropStream → List ℕ
bytes_at n s = take n (drop s.p s.buf)

abbrev advance : ℕ → PropStream → PropStream
advance n s = record s { p = s.p + n }

-- GET_VALUE for an unsigned T of n bytes. (A signed T reads the same bytes.)
unfoldable pub get_value : ℕ → PropStream → Read ℕ
unfolding size
get_value n s = if ltb (size s) n then refused s else got (of_bytes (bytes_at n s)) (advance n s)

-- GET_NSTRING, and GET_RAWSTRING into a caller's buffer
unfoldable pub get_nstring : ℕ → PropStream → Read (List ℕ)
unfolding size
get_nstring str_len s =
    if ltb (size s) str_len then refused s else got (bytes_at str_len s) (advance str_len s)

infixl 5 ◌>>=◌
abbrev pub ◌>>=◌ {ℓ κ} : {A : Type ℓ} {B : Type κ} → Read A → (A → PropStream → Read B) → Read B
got a s >>= f = f a s
refused s >>= f = refused s
fault >>= f = fault

-- GET_STRING: a length of two bytes, then the text.
unfoldable pub get_string : PropStream → Read (List ℕ)
unfolding get_value get_nstring
get_string s = get_value 2 s >>= get_nstring

-- (int32_t) of a uint32_t
abbrev pub to_int32 : ℕ → ℤ
to_int32 w = if ltb w (2 ^ 31) then pos w else negsuc (2 ^ 32 - w - 1)

-- The text of GET_LSTRING: the length is compared as an int32_t and copied as a uint32_t.
unfoldable pub get_ltext : ℕ → PropStream → Read (List ℕ)
unfolding size
get_ltext str_len s =
    if ltb_ℤ (pos (size s)) (to_int32 str_len)
    then refused s
    else if ltb (size s) str_len
    then fault
    else got (bytes_at str_len s) (advance str_len s)

-- GET_LSTRING
unfoldable pub get_lstring : PropStream → Read (List ℕ)
unfolding get_value get_ltext
get_lstring s = get_value 4 s >>= get_ltext

-- SKIP_N: a negative n moves back, and out of the memory if it is too large.
unfoldable pub skip_n : ℤ → PropStream → Read (Unit {0})
unfolding size
skip_n n s =
    if ltb_ℤ (pos (size s)) n
    then refused s
    else if ltb (s.p + pos_part n) (neg_part n)
    then fault
    else got tt (record s { p = s.p + pos_part n - neg_part n })
