-- ===== src/PropStream/Tests.antt =====
-- Runs of PropStream and PropWriteStream (source/fileloader.h), and the theorems at a concrete input.
use othire.Base.{ℕ, ◌≤◌, ◌^◌, ◌%◌, ◌≡◌, ◌↔◌, refl, List, [], ◌∷◌, ◌++◌, some, arith, length, take}
use othire.Base.Bytes.{of_bytes}
use othire.PropStream.{PropStream, got, refused, fault, get_string, get_lstring, size}
use othire.PropStream.Write
use othire.PropStream.Write.{PropWriteStream, IsValid}
use othire.PropStream.Safety.{Stays, length_field, get_string-Stays, get_lstring-eq-fault}
use othire.PropStream.RoundTrip.{after, get_string-add_string, get_lstring-add_lstring}

abbrev stream : List ℕ → PropStream
stream bytes = record { buf = bytes; p = 0 }

-- "ab"
abbrev text : List ℕ
text = 97 ∷ 98 ∷ []

get_string-text :
    get_string (stream (2 ∷ 0 ∷ 97 ∷ 98 ∷ []))
    ≡ got text (record { buf = 2 ∷ 0 ∷ 97 ∷ 98 ∷ []; p = 4 })
unfolding get_string of_bytes
get_string-text = refl

get_string_short :
    get_string (stream (3 ∷ 0 ∷ 97 ∷ 98 ∷ []))
    ≡ refused (record { buf = 3 ∷ 0 ∷ 97 ∷ 98 ∷ []; p = 2 })
unfolding get_string of_bytes
get_string_short = refl

-- a length field of 0x80000000
abbrev bad_length : PropStream
bad_length = stream (0 ∷ 0 ∷ 0 ∷ 128 ∷ [])

get_lstring_bad : get_lstring bad_length ≡ fault
unfolding get_lstring of_bytes
get_lstring_bad = refl

empty-IsValid : IsValid Write.empty
empty-IsValid = record { fits = omega arith; tight = omega arith }

get_string-Stays_example : Stays bad_length (get_string bad_length)
get_string-Stays_example = get_string-Stays bad_length (omega arith)

length_field-bad : length_field bad_length ≡ 2 ^ 31
unfolding of_bytes
length_field-bad = refl

bad_length-size : size bad_length ≡ 4
unfolding size
bad_length-size = refl

get_lstring-eq-fault_example :
    (get_lstring bad_length ≡ fault) ↔ ((4 ≤ size bad_length) × (2 ^ 31 ≤ length_field bad_length))
get_lstring-eq-fault_example =
    get_lstring-eq-fault bad_length (omega arith) (omega (arith, length_field-bad))
      (omega (arith, bad_length-size))

get_string-add_string_example :
    (w' : PropWriteStream) × (Write.add_string text Write.empty ≡ some w')
    × IsValid w'
    × (get_string (after Write.empty.stream (w'.stream ++ (7 ∷ [])))
        ≡ got (take (length text % 2 ^ 16) text) (after w'.stream (w'.stream ++ (7 ∷ []))))
get_string-add_string_example =
    get_string-add_string text (7 ∷ []) Write.empty empty-IsValid (omega arith)

get_lstring-add_lstring_example :
    (w' : PropWriteStream) × (Write.add_lstring text Write.empty ≡ some w')
    × IsValid w'
    × (get_lstring (after Write.empty.stream (w'.stream ++ (7 ∷ [])))
        ≡ got text (after w'.stream (w'.stream ++ (7 ∷ []))))
get_lstring-add_lstring_example =
    get_lstring-add_lstring text (7 ∷ []) Write.empty empty-IsValid (omega arith)
