-- ===== src/Protocol/Message.antt =====
-- Messages in and out of a protocol (source/outputmessage.h: writeMessageLength, addCryptoHeader;
-- source/protocol.cpp: onSendMessage, onRecvMessage, XTEA_encrypt, XTEA_decrypt), on a machine with
-- the least byte of an integer first. `none` is an access outside of the buffer.
use othire.Base.{
  ℕ, zero, suc, ◌+◌, ◌-◌, ◌*◌, ◌/◌, ◌%◌, List, [], ◌∷◌, ◌++◌, take, drop, Bool, true, false, not,
  ◌||◌, ltb, leb, ◌==◌, if◌then◌else◌, Option, none, some,
}
use othire.Base.Bytes.{to_bytes, of_bytes}
use othire.NetworkMessage.{
  NetworkMessage, header_length, max_size, load, store, get_value, decode_header,
}
use othire.NetworkMessage.Add.{add_padding_bytes}
use othire.Protocol.{Key, encrypt, decrypt}

pub record OutputMessage : Type 0 where
  pub message : NetworkMessage
  pub output_buffer_start : ℕ

-- The first n words of 32 bits, as `(uint32_t*)` reads them.
unfoldable pub words : ℕ → List ℕ → List ℕ
words zero bytes = []
words (suc n) bytes = of_bytes (take 4 bytes) ∷ words n (drop 4 bytes)

unfoldable pub bytes_of : List ℕ → List ℕ
bytes_of [] = []
bytes_of (v ∷ vs) = to_bytes 4 v ++ bytes_of vs

-- The n words at the position i are replaced.
unfoldable pub on_words : (List ℕ → List ℕ) → (i n : ℕ) → List ℕ → Option (List ℕ)
on_words f i n buf = elim (load i (4 * n) buf) [
  | none ↦ none
  | some bytes ↦ store i (bytes_of (f (words n bytes))) buf
]

-- A header of two bytes is stored at the position i, and the message is sent from there.
unfoldable pub put_length : ℕ → OutputMessage → Option OutputMessage
put_length i m = elim (store i (to_bytes 2 m.message.msg_size) m.message.msg_buf) [
  | none ↦ none
  | some buf ↦ some (record {
    message = record m.message { msg_size = m.message.msg_size + 2; msg_buf = buf };
    output_buffer_start = i;
  })
]

abbrev pub write_message_length : OutputMessage → Option OutputMessage
write_message_length m = put_length 2 m

abbrev pub add_crypto_header : OutputMessage → Option OutputMessage
add_crypto_header m = put_length 0 m

-- How many bytes are missing to a multiple of 8.
abbrev pub padding : ℕ → ℕ
padding n = if n % 8 == 0 then 0 else 8 - n % 8

unfoldable pub padded : NetworkMessage → Option NetworkMessage
padded m =
    if m.msg_size % 8 == 0
    then some m
    else elim (add_padding_bytes (padding m.msg_size) m) [ none ↦ none | some (_, m') ↦ some m' ]

module _ (k : Key) where
  unfoldable pub xtea_encrypt : OutputMessage → Option OutputMessage
  xtea_encrypt m =
      let message_length = m.message.msg_size + padding m.message.msg_size in
      elim (padded m.message) [
        | none ↦ none
        | some m' ↦
            elim (on_words (encrypt k) m.output_buffer_start (message_length / 4) m'.msg_buf) [
              | none ↦ none
              | some buf ↦ some (record m { message = record m' { msg_buf = buf } })
            ]
      ]

  -- The end of XTEA_decrypt: the length of the message inside.
  abbrev pub read_length : ℕ × NetworkMessage → Bool × NetworkMessage
  read_length (tmp, m) =
      if ltb m.msg_size (tmp + 4) then (false, m) else (true, record m { msg_size = tmp })

  -- getBodyBuffer sets the position.
  unfoldable pub xtea_decrypt : NetworkMessage → Option (Bool × NetworkMessage)
  xtea_decrypt m =
      if ltb m.msg_size 2 || not ((m.msg_size - 2) % 8 == 0)
      then some (false, m)
      else elim (on_words (decrypt k) header_length (m.msg_size / 4) m.msg_buf) [
        | none ↦ none
        | some buf ↦ elim (get_value 2 (record m { read_pos = 2; msg_buf = buf })) [
          | none ↦ none
          | some r ↦ some (read_length r)
        ]
      ]

  -- onSendMessage, up to the buffer that is left
  unfoldable pub on_send_message :
      (raw_messages encryption_enabled : Bool) → OutputMessage → Option OutputMessage
  on_send_message true enabled m = some m
  on_send_message false false m = write_message_length m
  on_send_message false true m = elim (write_message_length m) [
    | none ↦ none
    | some m1 ↦ elim (xtea_encrypt m1) [ none ↦ none | some m2 ↦ add_crypto_header m2 ]
  ]

  -- The message that onRecvMessage has parsed. The result of XTEA_decrypt is not looked at.
  unfoldable pub on_recv_message :
      (encryption_enabled : Bool) → NetworkMessage → Option NetworkMessage
  on_recv_message false m = some m
  on_recv_message true m = elim (xtea_decrypt m) [ none ↦ none | some (_, m') ↦ some m' ]

-- The bytes that are sent for a message.
abbrev pub output : OutputMessage → List ℕ
output m = take m.message.msg_size (drop m.output_buffer_start m.message.msg_buf)

-- A connection reads the header to the start of its buffer, and then as many bytes as it says. It
-- is closed where that is none or too many, here `none` too.
unfoldable pub received : NetworkMessage → Option NetworkMessage
received m = elim (decode_header m) [
  | none ↦ none
  | some size ↦
      if size == 0 || leb (max_size - 16) size
      then none
      else some (record m { msg_size = size + header_length; read_pos = header_length })
]

-- What the other side parses of a message: its connection reads the bytes that are sent into the
-- message r of its own, whatever stands behind them.
unfoldable pub transmit :
    Key → OutputMessage → (r : NetworkMessage) → (tail : List ℕ) → Option NetworkMessage
transmit k m r tail = elim (on_send_message k false true m) [
  | none ↦ none
  | some sent ↦ elim (received (record r { msg_buf = output sent ++ tail })) [
    | none ↦ none
    | some incoming ↦ on_recv_message k true incoming
  ]
]
