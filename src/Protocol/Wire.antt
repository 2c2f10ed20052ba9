-- ===== src/Protocol/Wire.antt =====
-- A message from one side of a connection to the other (source/protocol.cpp, source/outputmessage.h,
-- source/connection.cpp).
use othire.Base.{
  ℕ, ◌+◌, ◌-◌, ◌*◌, ◌/◌, ◌%◌, ◌^◌, ◌<◌, ◌≡◌, refl, sym, ap, ◌∙◌, List, [], ◌++◌, append_assoc, take,
  drop, replicate, length, length-append, length-replicate, take-append, true, false, not, ◌||◌,
  ltb, leb, ◌==◌, some, arith, inl, inr, Bool-cases,
}
use othire.Base.Bytes.{to_bytes, Bytes, length-to_bytes, of_bytes-to_bytes, to_bytes-Bytes}
use othire.NetworkMessage.{NetworkMessage, load, store, get_value, max_body_length, max_size}
use othire.NetworkMessage.Add.{add_padding_bytes}
use othire.NetworkMessage.Effect.{Fits}
use othire.Protocol.{Key, encrypt, decrypt}
use othire.Protocol.Message.{
  OutputMessage, on_words, put_length, padding, padded, xtea_encrypt, xtea_decrypt, read_length,
  on_send_message, on_recv_message, output, received, transmit,
}
use othire.Protocol.Codec.{
  drop-at, store-at, load-at, cipher, length-cipher, encrypted-at, decrypted-at, padding-eq,
  put_length-at, regroup, regroup_plain, nothing, add_padding_bytes_lem, padded_full, padded_part,
  append-Bytes, replicate-Bytes, xtea_encrypt-padded, decode_header-load, received-header,
  get_value-load, xtea_decrypt-length,
}

-- The message is positioned in front of the bytes, which are as many as it says.
abbrev pub HasBody : List ℕ → NetworkMessage → Type 0
HasBody bytes m =
    (m.msg_size ≡ length bytes)
    × ((m.read_pos ≡ 4) × (take (length bytes) (drop 4 m.msg_buf) ≡ bytes))

-- A message that was begun: header space of two and two bytes, the body, and room for the padding.
module _ (j0 j2 body room rest : List ℕ) (m : NetworkMessage) (e0 : length j0 ≡ 2)
    (e2 : length j2 ≡ 2) (eb : length body ≡ m.msg_size)
    (er : length room ≡ padding (m.msg_size + 2)) (in_step : m.read_pos ≡ m.msg_size + 4)
    (fits : Fits 8 m) (short : m.msg_size + 25 < max_size)
    (buf : m.msg_buf ≡ (j0 ++ (j2 ++ (body ++ (room ++ rest))))) where
  inner : List ℕ
  inner = to_bytes 2 m.msg_size

  pad : List ℕ
  pad = replicate (padding (m.msg_size + 2)) 0x33

  length-pad : length pad ≡ padding (m.msg_size + 2)
  unfolding pad
  length-pad = length-replicate (padding (m.msg_size + 2)) 0x33

  plain : List ℕ
  plain = inner ++ (body ++ pad)

  -- After writeMessageLength.
  headed : NetworkMessage
  headed = record m {
    msg_size = m.msg_size + 2;
    msg_buf = j0 ++ (inner ++ (body ++ (room ++ rest)));
  }

  headed_lem :
      put_length 2 (record { message = m; output_buffer_start = 4 })
      ≡ some (record { message = headed; output_buffer_start = 2 })
  unfolding headed inner
  headed_lem =
      put_length-at 2 (record { message = m; output_buffer_start = 4 }) j0 j2
        (body ++ (room ++ rest)) buf e0 e2

  -- After the padding.
  filled : NetworkMessage
  filled = record m {
    msg_size = m.msg_size + 2 + padding (m.msg_size + 2);
    msg_buf = j0 ++ (plain ++ rest);
  }

  buf_same : room ≡ pad → headed.msg_buf ≡ filled.msg_buf
  unfolding headed filled plain
  buf_same e =
      ap (λ xs. j0 ++ (inner ++ (body ++ (xs ++ rest)))) e
      ∙ regroup j0 inner body pad rest
      ∙ regroup_plain j0 inner body pad rest

  stored_pad : store m.read_pos pad headed.msg_buf ≡ some filled.msg_buf
  unfolding headed filled plain inner
  stored_pad =
      let here : length (j0 ++ (inner ++ body)) ≡ m.read_pos = omega (
        arith,
        e0,
        eb,
        in_step,
        length-append j0 (inner ++ body),
        length-append inner body,
        length-to_bytes 2 m.msg_size,
      ) in
      let long : length room ≡ length pad = er ∙ sym length-pad in
      ap (store m.read_pos pad) (regroup j0 inner body room rest)
      ∙ store-at m.read_pos (j0 ++ (inner ++ body)) room rest here pad long
      ∙ ap some (regroup_plain j0 inner body pad rest)

  can_pad : ltb ((padding (m.msg_size + 2) + m.read_pos) % 2 ^ 32) max_body_length ≡ true
  can_pad = ground (arith, fits)

  pad_stored : add_padding_bytes (padding (m.msg_size + 2)) headed ≡ some (tt, filled)
  unfolding headed filled pad
  pad_stored =
      add_padding_bytes_lem (padding (m.msg_size + 2)) headed filled.msg_buf can_pad stored_pad

  padded_lem : padded headed ≡ some filled
  unfolding headed filled
  padded_lem = elim (Bool-cases ((m.msg_size + 2) % 8 == 0)) [
    | inl i ↦
        let z : padding (m.msg_size + 2) ≡ 0 = rw i refl in
        let same = buf_same (nothing room pad (er ∙ z) (length-pad ∙ z)) in
        let n : m.msg_size + 2 ≡ m.msg_size + 2 + padding (m.msg_size + 2) = omega (arith, z) in
        padded_full headed i ∙ λ j. some (record m { msg_size = n j; msg_buf = same j })
    | inr i ↦ padded_part headed filled i pad_stored
  ]

  size : ℕ
  size = m.msg_size + 2 + padding (m.msg_size + 2)

  length-plain : length plain ≡ size
  unfolding plain inner size
  length-plain = omega (
    arith,
    eb,
    length-pad,
    length-append inner (body ++ pad),
    length-append body pad,
    length-to_bytes 2 m.msg_size,
  )

  module _ (k : Key) (hb : Bytes body) where
    c : ℕ
    c = size / 8

    size-eq : size ≡ 8 * c
    unfolding size c
    size-eq = padding-eq (m.msg_size + 2)

    plain-Bytes : Bytes plain
    unfolding plain pad inner
    plain-Bytes =
        append-Bytes (to_bytes 2 m.msg_size) _ (to_bytes-Bytes 2 m.msg_size)
          (append-Bytes body _ hb (replicate-Bytes (padding (m.msg_size + 2))))

    coded : List ℕ
    coded = cipher k c plain (length-plain ∙ size-eq) plain-Bytes

    encrypted : OutputMessage
    encrypted = record {
      message = record m { msg_size = size; msg_buf = j0 ++ (coded ++ rest) };
      output_buffer_start = 2;
    }

    xtea_encrypt_lem :
        xtea_encrypt k (record { message = headed; output_buffer_start = 2 }) ≡ some encrypted
    unfolding encrypted coded headed filled size
    xtea_encrypt_lem =
        let n : size / 4 ≡ 2 * c = omega (arith, size-eq) in
        xtea_encrypt-padded k (record { message = headed; output_buffer_start = 2 }) filled
          (j0 ++ (coded ++ rest)) padded_lem
          (ap (λ i. on_words (encrypt k) 2 i (j0 ++ (plain ++ rest))) n
            ∙ encrypted-at k c plain (length-plain ∙ size-eq) plain-Bytes 2 j0 rest e0)

    sent : OutputMessage
    sent = record {
      message = record m { msg_size = size + 2; msg_buf = to_bytes 2 size ++ (coded ++ rest) };
      output_buffer_start = 0;
    }

    sent_lem : put_length 0 encrypted ≡ some sent
    unfolding encrypted sent
    sent_lem = put_length-at 0 encrypted [] j0 (coded ++ rest) refl refl e0

    on_send_message_lem :
        on_send_message k false true (record { message = m; output_buffer_start = 4 }) ≡ some sent
    unfolding on_send_message
    on_send_message_lem = rw (on_send_message, headed_lem, xtea_encrypt_lem, sent_lem) refl

    output-sent : output sent ≡ to_bytes 2 size ++ coded
    unfolding sent coded
    output-sent =
        let long : length (to_bytes 2 size ++ coded) ≡ size + 2 = omega (
          arith,
          length-append (to_bytes 2 size) coded,
          length-to_bytes 2 size,
          length-cipher k c plain (length-plain ∙ size-eq) plain-Bytes,
          length-plain,
        ) in
        ap (take (size + 2)) (sym (append_assoc (to_bytes 2 size) coded rest))
        ∙ ap (λ n. take n ((to_bytes 2 size ++ coded) ++ rest)) (sym long)
        ∙ take-append (to_bytes 2 size ++ coded) rest

    module _ (r : NetworkMessage) (tail : List ℕ) where
      header : List ℕ
      header = to_bytes 2 size

      -- The other side's message when the bytes have come in.
      incoming : NetworkMessage
      incoming = record r { msg_size = size + 2; read_pos = 2; msg_buf = header ++ (coded ++ tail) }

      size_small : size < 256 ^ 2
      unfolding size
      size_small = ground (arith, fits, in_step)

      acceptable : (size == 0 || leb (max_size - 16) size) ≡ false
      unfolding size
      acceptable = ground (arith, short)

      incoming_lem : received (record r { msg_buf = (header ++ coded) ++ tail }) ≡ some incoming
      unfolding incoming header
      incoming_lem =
          let m' = record r { msg_buf = header ++ (coded ++ tail) } in
          let l = load-at 0 [] header (coded ++ tail) refl 2 (length-to_bytes 2 size) in
          ap (λ bs. received (record r { msg_buf = bs })) (append_assoc header coded tail)
          ∙ received-header m' size
              (decode_header-load m' header l ∙ ap some (of_bytes-to_bytes 2 size size_small))
              acceptable

      opened : NetworkMessage
      opened = record r { msg_size = m.msg_size; read_pos = 4; msg_buf = header ++ (plain ++ tail) }

      clear : NetworkMessage
      clear = record r { msg_size = size + 2; read_pos = 4; msg_buf = header ++ (plain ++ tail) }

      clear_lem :
          get_value 2 (record incoming { msg_buf = header ++ (plain ++ tail) })
          ≡ some (m.msg_size, clear)
      unfolding incoming clear plain inner header
      clear_lem =
          let small : m.msg_size < 256 ^ 2 = ground (arith, fits, in_step) in
          let l =
            ap (λ bs. load 2 2 (header ++ bs)) (append_assoc inner (body ++ pad) tail)
            ∙ load-at 2 header inner ((body ++ pad) ++ tail) (length-to_bytes 2 size) 2
                (length-to_bytes 2 m.msg_size) in
          get_value-load (record incoming { msg_buf = header ++ (plain ++ tail) }) inner refl l
          ∙ ap (λ n. some (n, clear)) (of_bytes-to_bytes 2 m.msg_size small)

      enough : read_length k (m.msg_size, clear) ≡ (true, opened)
      unfolding clear opened size
      enough =
          let e : ltb (m.msg_size + 2 + padding (m.msg_size + 2) + 2) (m.msg_size + 4) ≡ false =
            ground arith in
          rw e refl

      opened_lem : xtea_decrypt k incoming ≡ some (true, opened)
      unfolding incoming header coded
      opened_lem =
          let guard : (ltb (size + 2) 2 || not ((size + 2 - 2) % 8 == 0)) ≡ false =
            ground (arith, size-eq) in
          let n : (size + 2) / 4 ≡ 2 * c = omega (arith, size-eq) in
          let words_lem =
            ap (λ i. on_words (decrypt k) 2 i (header ++ (coded ++ tail))) n
            ∙ decrypted-at k c plain (length-plain ∙ size-eq) plain-Bytes 2 header tail
                (length-to_bytes 2 size) in
          xtea_decrypt-length k incoming (header ++ (plain ++ tail)) (m.msg_size, clear) guard
            words_lem clear_lem
          ∙ ap some enough

      parsed_lem : on_recv_message k true incoming ≡ some opened
      unfolding on_recv_message
      parsed_lem = rw (on_recv_message, opened_lem) refl

      transmit-opened :
          transmit k (record { message = m; output_buffer_start = 4 }) r tail ≡ some opened
      unfolding transmit header
      transmit-opened =
          let come =
            ap (λ bs. received (record r { msg_buf = bs ++ tail })) output-sent ∙ incoming_lem in
          rw (transmit, on_send_message_lem, come, parsed_lem) refl

      opened-body : take m.msg_size (drop 4 opened.msg_buf) ≡ body
      unfolding opened plain inner header
      opened-body =
          ap (λ bs. take m.msg_size (drop 4 (header ++ bs))) (append_assoc inner (body ++ pad) tail)
          ∙ ap (take m.msg_size) (
              drop-at 2 header inner ((body ++ pad) ++ tail) (length-to_bytes 2 size) 2
                (length-to_bytes 2 m.msg_size))
          ∙ ap (take m.msg_size) (append_assoc body pad tail)
          ∙ ap (λ n. take n (body ++ (pad ++ tail))) (sym eb)
          ∙ take-append body (pad ++ tail)

      pub transmit-HasBody :
          (m' : NetworkMessage) × ((transmit k
                (record { message = m; output_buffer_start = 4 })
                r
                tail
              ≡ some m')
            × HasBody body m')
      unfolding opened
      transmit-HasBody = (
        opened,
        (
          transmit-opened,
          (sym eb, (refl, ap (λ n. take n (drop 4 opened.msg_buf)) eb ∙ opened-body)),
        ),
      )
