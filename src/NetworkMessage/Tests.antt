-- ===== src/NetworkMessage/Tests.antt =====
-- Runs of NetworkMessage (source/networkmessage.cpp), and the theorems at a concrete input.
use othire.Base.{
  ℕ, ◌≡◌, refl, ◌^◌, ◌-◌, List, [], ◌∷◌, none, some, false, arith, length, replicate,
  length-replicate,
}
use othire.Base.Bytes.{to_bytes}
use othire.NetworkMessage.{
  NetworkMessage, max_size, set_read_pos, get_string, get_position, get_value, Position, reset,
}
use othire.NetworkMessage.Add.{c_string, add_string, add_position}
use othire.NetworkMessage.Effect.{IsValid}
use othire.NetworkMessage.Body.{Addition, byte, u16, text, bytes, body, IsOutgoing}
use othire.NetworkMessage.Length.{
  Applies, Short, apply_all, append_all, apply-Applies, apply_all-reset,
}
use othire.NetworkMessage.RoundTrip.{get_string-add_string_message, get_position-add_position}
use othire.NetworkMessage.Safety.{Safe, perform, adds_string, perform-Safe}

abbrev empty : NetworkMessage
empty = record { msg_size = 0; read_pos = 4; overrun = false; msg_buf = replicate max_size 0 }

empty-IsValid : IsValid empty
empty-IsValid = length-replicate {A = ℕ} max_size 0

empty-IsOutgoing : IsOutgoing empty
empty-IsOutgoing = record { valid = empty-IsValid; in_step = refl; below = omega arith }

-- "abc"
abbrev abc : List ℕ
abc = 97 ∷ 98 ∷ 99 ∷ []

abbrev packet : List Addition
packet = byte 10 ∷ u16 300 ∷ text abc ∷ []

append_all-packet : append_all packet [] ≡ 10 ∷ 44 ∷ 1 ∷ 3 ∷ 0 ∷ 97 ∷ 98 ∷ 99 ∷ []
unfolding to_bytes c_string
append_all-packet = refl

packet-Short : Short packet
unfolding to_bytes c_string
packet-Short = (omega arith, (omega arith, (omega arith, tt)))

apply_all-reset_example :
    (m' : NetworkMessage) × (apply_all packet (reset empty) ≡ some (tt, m'))
    × (body m' ≡ append_all packet [])
    × (m'.msg_size ≡ length (append_all packet []))
apply_all-reset_example = apply_all-reset packet empty empty-IsValid packet-Short

apply-Applies_example : Applies (bytes abc) empty
apply-Applies_example = apply-Applies (bytes abc) empty empty-IsOutgoing (omega arith)

-- At the position -1 expectRead passes, and GetByte reads in front of the buffer.
read_in_front : get_value 1 (record empty { read_pos = 2 ^ 32 - 1 }) ≡ none
unfolding get_value
read_in_front = refl

perform-Safe_example : Safe (perform (adds_string abc) empty)
unfolding c_string
perform-Safe_example =
    perform-Safe (adds_string abc) empty empty-IsValid (omega arith) (omega arith)

-- "abc", a zero byte, and "d"
abbrev abc_zero : List ℕ
abc_zero = 97 ∷ 98 ∷ 99 ∷ 0 ∷ 100 ∷ []

get_string-add_string_message_example :
    (m' : NetworkMessage) × (add_string abc_zero empty ≡ some (tt, m'))
    × (get_string (set_read_pos 4 m') ≡ some (abc, m'))
unfolding c_string
get_string-add_string_message_example =
    get_string-add_string_message abc_zero empty empty-IsValid (omega arith) (omega arith)

abbrev temple : Position
temple = record { x = 1000; y = 2000; z = 7 }

get_position-add_position_example :
    (m' : NetworkMessage) × (add_position temple empty ≡ some (tt, m'))
    × (get_position (set_read_pos 4 m') ≡ some (temple, m'))
get_position-add_position_example =
    get_position-add_position temple empty empty-IsValid (omega arith) (omega arith) (omega arith)
      (omega arith)
