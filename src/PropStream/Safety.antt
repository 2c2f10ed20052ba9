-- ===== src/PropStream/Safety.antt =====
-- Which reads of PropStream stay inside the memory that they were given.
use othire.Base.{ℕ, ◌^◌, ◌≤◌, ◌<◌, ◌≡◌, ◌↔◌, length, take, drop, arith}
use othire.Base.Bytes.{of_bytes}
use othire.PropStream.{
  PropStream, Read, got, refused, fault, size, get_value, get_nstring, get_string, get_lstring,
}

-- p ≤ end
abbrev pub IsValid : PropStream → Type 0
IsValid s = s.p ≤ length s.buf

-- The read returned, and left the pointer inside the same memory.
abbrev pub Stays {ℓ} : {A : Type ℓ} → PropStream → Read A → Type 0
Stays s (got a s') = (s'.buf ≡ s.buf) × IsValid s'
Stays s (refused s') = (s'.buf ≡ s.buf) × IsValid s'
Stays s fault = ⊥

get_value-Stays : (n : ℕ) (s : PropStream) → IsValid s → Stays s (get_value n s)
unfolding get_value
get_value-Stays n s v = ground arith

get_nstring-Stays : (n : ℕ) (s : PropStream) → IsValid s → Stays s (get_nstring n s)
unfolding get_nstring
get_nstring-Stays n s v = ground arith

-- GET_STRING on a stream whose pointer is not past its end never reads outside of the stream: it
-- returns a text and a pointer not past the end, or refuses with the pointer still not past it.
pub get_string-Stays : (s : PropStream) → IsValid s → Stays s (get_string s)
unfolding get_string
get_string-Stays s v = ground arith

-- the length field at p
abbrev pub length_field : PropStream → ℕ
length_field s = of_bytes (take 4 (drop s.p s.buf))

-- On a valid stream of less than 2 GiB, GET_LSTRING reads outside of the stream exactly if there are
-- four bytes for the length field and the field is 2 ^ 31 or more, so that its int32_t is negative.
pub get_lstring-eq-fault :
    (s : PropStream)
    → IsValid s
    → length_field s < 2 ^ 32
    → size s < 2 ^ 31
    → (get_lstring s ≡ fault) ↔ ((4 ≤ size s) × (2 ^ 31 ≤ length_field s))
unfolding get_lstring
get_lstring-eq-fault s v w h = ground arith
