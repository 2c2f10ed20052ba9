-- ===== src/Protocol/Tests.antt =====
-- The theorems about messages (source/protocol.cpp) at a concrete input.
use othire.Base.{ℕ, Bool, ◌≡◌, refl, [], ◌∷◌, replicate, length-replicate, false, some, arith}
use othire.Base.Bytes.{Bytes}
use othire.NetworkMessage.{NetworkMessage}
use othire.NetworkMessage.Body.{IsOutgoing, body}
use othire.Protocol.{Key}
use othire.Protocol.Message.{transmit, xtea_decrypt}
use othire.Protocol.Codec.{replicate-Bytes}
use othire.Protocol.Wire.{HasBody}
use othire.Protocol.Received.{IsChecked, xtea_decrypt-IsChecked}
use othire.Protocol.Transmit.{transmit-body}

abbrev key : Key
key = record { k0 = 1; k1 = 2; k2 = 3; k3 = 4 }

-- "Hello", in a buffer of the size of a message.
abbrev hello : NetworkMessage
hello = record {
  msg_size = 5;
  read_pos = 9;
  overrun = false;
  msg_buf = 0 ∷ 0 ∷ 0 ∷ 0 ∷ 72 ∷ 101 ∷ 108 ∷ 108 ∷ 111 ∷ replicate 15331 0x33;
}

hello-IsOutgoing : IsOutgoing hello
hello-IsOutgoing = record {
  valid = omega (arith, length-replicate {A = ℕ} 15331 0x33);
  in_step = refl;
  below = omega arith;
}

hello-Bytes : Bytes hello.msg_buf
hello-Bytes = (
  omega arith,
  (
    omega arith,
    (
      omega arith,
      (
        omega arith,
        (
          omega arith,
          (omega arith, (omega arith, (omega arith, (omega arith, replicate-Bytes 15331)))),
        ),
      ),
    ),
  ),
)

transmit-body_example :
    (m' : NetworkMessage) × ((transmit key
          (record { message = hello; output_buffer_start = 4 })
          hello
          (7 ∷ [])
        ≡ some m')
      × HasBody (body hello) m')
transmit-body_example =
    transmit-body key hello hello (7 ∷ []) hello-IsOutgoing hello-Bytes (omega arith)

-- The same message as if it had come in: its length is 10, and the bytes are not encrypted.
abbrev ten : NetworkMessage
ten = record hello { msg_size = 10 }

xtea_decrypt-IsChecked_example :
    (r : Bool × NetworkMessage) × ((xtea_decrypt key ten ≡ some r) × IsChecked ten r)
xtea_decrypt-IsChecked_example = xtea_decrypt-IsChecked key ten hello-IsOutgoing.valid (omega arith)
