-- ===== src/PropStream/Write.antt =====
-- PropWriteStream (source/fileloader.h): a buffer that grows as values are added.
-- `stream` is what has been written, `buffer_size` the size of the allocation; both sizes are
-- uint32_t. `none` is a `memcpy` past the end of the allocation.
use othire.Base.{
  ℕ, ◌+◌, ◌-◌, ◌*◌, ◌%◌, ◌^◌, ◌≤◌, ◌<◌, ◌≡◌, ap, ◌∙◌, Option, none, some, List, [], ◌++◌, length,
  length-append, append_assoc, take, length-take, take_all, ltb, leb, if◌then◌else◌, arith,
}
use mathlib.Core.Path.{ap₂}
use othire.Base.Bytes.{to_bytes, length-to_bytes}

pub record PropWriteStream : Type 0 where
  pub stream : List ℕ
  pub buffer_size : ℕ

-- the constructor
abbrev pub empty : PropWriteStream
empty = record { stream = []; buffer_size = 32 }

-- The test of ADD_VALUE and the `realloc` under it.
unfoldable pub reserve : ℕ → PropWriteStream → PropWriteStream
reserve n w =
    if ltb ((w.buffer_size + 2 ^ 32 - length w.stream) % 2 ^ 32) n
    then record w { buffer_size = (w.buffer_size + n + 0x1f) % 2 ^ 32 }
    else w

copy : List ℕ → PropWriteStream → Option PropWriteStream
copy bytes w =
    if leb (length w.stream + length bytes) w.buffer_size
    then some (record w { stream = w.stream ++ bytes })
    else none

-- Make room, then `memcpy`.
unfoldable pub add_bytes : List ℕ → PropWriteStream → Option PropWriteStream
unfolding reserve copy
add_bytes bytes w = copy bytes (reserve (length bytes) w)

-- ADD_VALUE for an unsigned T of n bytes
unfoldable pub add_value : ℕ → ℕ → PropWriteStream → Option PropWriteStream
add_value n v w = add_bytes (to_bytes n v) w

infixl 5 ◌>>=◌
abbrev ◌>>=◌ :
    Option PropWriteStream → (PropWriteStream → Option PropWriteStream) → Option PropWriteStream
none >>= f = none
some w >>= f = f w

-- ADD_STRING: the length is cut to 16 bits, and that much of the text is copied.
unfoldable pub add_string : List ℕ → PropWriteStream → Option PropWriteStream
unfolding add_value
add_string add w =
    let str_len = length add % 2 ^ 16 in add_value 2 str_len w >>= add_bytes (take str_len add)

-- ADD_LSTRING: the same with 32 bits.
unfoldable pub add_lstring : List ℕ → PropWriteStream → Option PropWriteStream
unfolding add_value
add_lstring add w =
    let str_len = length add % 2 ^ 32 in add_value 4 str_len w >>= add_bytes (take str_len add)

-- The allocation holds what is written and is at most twice as large.
pub record IsValid (w : PropWriteStream) : Type 0 where
  pub fits : length w.stream ≤ w.buffer_size
  pub tight : w.buffer_size ≤ 2 * length w.stream + 32

-- what one addition of `bytes` does
pub record Adds (bytes : List ℕ) (w w' : PropWriteStream) : Type 0 where
  pub valid : IsValid w'
  pub appended : w'.stream ≡ w.stream ++ bytes

abbrev pub limit : ℕ
limit = 2 ^ 31 - 32

-- Below the limit the growth does not wrap, and makes room.
reserve_room :
    (n : ℕ) (w : PropWriteStream)
    → IsValid w
    → length w.stream + n < limit
    → ((reserve n w).stream ≡ w.stream)
      × (length w.stream + n ≤ (reserve n w).buffer_size)
      × ((reserve n w).buffer_size ≤ 2 * (length w.stream + n) + 32)
unfolding reserve
reserve_room n w v h = ground arith

pub add_bytes-Adds :
    (bytes : List ℕ) (w : PropWriteStream)
    → IsValid w
    → length w.stream + length bytes < limit
    → (w' : PropWriteStream) × (add_bytes bytes w ≡ some w') × Adds bytes w w'
unfolding copy
add_bytes-Adds bytes w v h =
    let (same, room, tight) = reserve_room (length bytes) w v h in
    (
      record (reserve (length bytes) w) { stream = (reserve (length bytes) w).stream ++ bytes },
      unfold add_bytes in ground arith,
      ground (arith, length-append w.stream bytes),
    )

-- Two additions in a row.
then-Adds :
    (first second : List ℕ) (w w₁ : PropWriteStream)
    → Adds first w w₁
    → length w.stream + (length first + length second) < limit
    → (w' : PropWriteStream) × (add_bytes second w₁ ≡ some w') × Adds (first ++ second) w w'
then-Adds first second w w₁ a h =
    let e : length w₁.stream ≡ length w.stream + length first =
      ap length a.appended ∙ length-append w.stream first in
    let (w', run, b) = add_bytes-Adds second w₁ a.valid (omega arith) in
    (
      w',
      run,
      record {
        valid = b.valid;
        appended = rw (b.appended, a.appended) (append_assoc w.stream first second);
      },
    )

pub add_value-Adds :
    (n v : ℕ) (w : PropWriteStream)
    → IsValid w
    → length w.stream + n < limit
    → (w' : PropWriteStream) × (add_value n v w ≡ some w') × Adds (to_bytes n v) w w'
unfolding add_value
add_value-Adds n v w valid h =
    add_bytes-Adds (to_bytes n v) w valid (omega (arith, length-to_bytes n v))

-- A length field of n bytes and the text that it counts, as ADD_STRING and ADD_LSTRING write them.
pub add_text-Adds :
    (n len : ℕ) (text : List ℕ) (w : PropWriteStream)
    → IsValid w
    → length w.stream + (n + length text) < limit
    → (w' : PropWriteStream) × ((add_value n len w >>= add_bytes text) ≡ some w')
      × Adds (to_bytes n len ++ text) w w'
add_text-Adds n len text w v h =
    let (w₁, first, a) = add_value-Adds n len w v (omega arith) in
    let (w', second, b) =
      then-Adds (to_bytes n len) text w w₁ a (omega (arith, length-to_bytes n len)) in
    (w', rw first second, b)

pub add_string-Adds :
    (text : List ℕ) (w : PropWriteStream)
    → IsValid w
    → length w.stream + (2 + length text) < limit
    → let kept = take (length text % 2 ^ 16) text in
      (w' : PropWriteStream) × (add_string text w ≡ some w')
      × Adds (to_bytes 2 (length kept) ++ kept) w w'
unfolding add_string
add_string-Adds text w v h =
    let kept = take (length text % 2 ^ 16) text in
    let e : length text % 2 ^ 16 ≡ length kept =
      omega (arith, length-take (length text % 2 ^ 16) text) in
    let (w', run, a) = add_text-Adds 2 (length kept) kept w v (omega arith) in
    (w', ap (λ k. add_value 2 k w >>= add_bytes kept) e ∙ run, a)

pub add_lstring-Adds :
    (text : List ℕ) (w : PropWriteStream)
    → IsValid w
    → length w.stream + (4 + length text) < limit
    → (w' : PropWriteStream) × (add_lstring text w ≡ some w')
      × Adds (to_bytes 4 (length text) ++ text) w w'
unfolding add_lstring
add_lstring-Adds text w v h =
    let e : length text % 2 ^ 32 ≡ length text = omega arith in
    let whole : take (length text % 2 ^ 32) text ≡ text = rw e (take_all text) in
    let (w', run, a) = add_text-Adds 4 (length text) text w v (omega arith) in
    (w', ap₂ (λ k t. add_value 4 k w >>= add_bytes t) e whole ∙ run, a)
