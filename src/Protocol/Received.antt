-- ===== src/Protocol/Received.antt =====
-- What XTEA_decrypt does with any message (source/protocol.cpp).
use othire.Base.{
  ℕ, suc, ◌+◌, ◌-◌, ◌*◌, ◌/◌, ◌%◌, ◌≤◌, ◌≡◌, ◌⊎◌, inl, inr, refl, ap, ◌∙◌, List, [], ◌∷◌, take,
  drop, length, Bool, true, false, not, ◌||◌, ltb, leb, ◌==◌, some, arith, Bool-cases,
}
use othire.NetworkMessage.{NetworkMessage, max_size, load, get_value}
use othire.NetworkMessage.Memory.{splice, store-splice, length-splice}
use othire.NetworkMessage.Effect.{IsValid}
use othire.Protocol.{Key, decrypt}
use othire.Protocol.Message.{words, bytes_of, on_words, read_length, xtea_decrypt}
use othire.Protocol.Words.{length-bytes_of, length-words}
use othire.Protocol.Codec.{xtea_decrypt-length, get_value-load}
use othire.Base.Bytes.{of_bytes}

length-decrypt : (k : Key) (vs : List ℕ) → length (decrypt k vs) ≡ length vs
unfolding decrypt
length-decrypt k [] = refl
length-decrypt k (v ∷ []) = refl
length-decrypt k (v ∷ w ∷ vs) = ap (λ n. suc (suc n)) (length-decrypt k vs)

module _ (k : Key) (i n : ℕ) (buf : List ℕ) (room : i + 4 * n ≤ length buf) where
  got : List ℕ
  got = take (4 * n) (drop i buf)

  put : List ℕ
  put = bytes_of (decrypt k (words n got))

  length-put : length put ≡ 4 * n
  unfolding put
  length-put =
      length-bytes_of (decrypt k (words n got))
      ∙ ap (λ c. 4 * c) (length-decrypt k (words n got) ∙ length-words n got)

  on_words_lem : on_words (decrypt k) i n buf ≡ some (splice i put buf)
  unfolding load got put on_words bytes_of
  on_words_lem =
      let inside : leb (i + 4 * n) (length buf) ≡ true = ground (arith, room) in
      let fits : i + length put ≤ length buf = omega (arith, room, length-put) in
      rw (on_words, inside) (store-splice i put buf fits)

  length-after : length (splice i put buf) ≡ length buf
  length-after = length-splice i put buf (omega (arith, room, length-put))

get_value_lem :
    (m : NetworkMessage)
    → IsValid m
    → m.read_pos ≡ 2
    → (v : ℕ) × (get_value 2 m ≡ some (v, record m { read_pos = m.read_pos + 2 }))
unfolding load
get_value_lem m v h =
    let bytes = take 2 (drop m.read_pos m.msg_buf) in
    let inside : leb (m.read_pos + 2) (length m.msg_buf) ≡ true = ground (arith, v, h) in
    (of_bytes bytes, get_value-load m bytes h (rw inside refl))

-- The message was refused as it is, or its length inside fits behind the two headers.
abbrev pub IsChecked : NetworkMessage → Bool × NetworkMessage → Type 0
IsChecked m (b, m') =
    IsValid m'
    × (((b ≡ false) × (m'.msg_size ≡ m.msg_size))
        ⊎ ((b ≡ true)
            × (((m.msg_size - 2) % 8 ≡ 0) × ((m'.msg_size + 4 ≤ m.msg_size) × (m'.read_pos ≡ 4)))))

read_length-IsChecked :
    (k : Key) (m m' : NetworkMessage) (tmp : ℕ)
    → IsValid m'
    → m'.msg_size ≡ m.msg_size
    → m'.read_pos ≡ 4
    → (m.msg_size - 2) % 8 ≡ 0
    → IsChecked m (read_length k (tmp, m'))
read_length-IsChecked k m m' tmp v e pos even = elim (Bool-cases (ltb m'.msg_size (tmp + 4))) [
  | inl i ↦ rw i (v, inl (refl, e))
  | inr i ↦
      let small : tmp + 4 ≤ m.msg_size = ground (arith, i, e) in
      rw i (v, inr (refl, (even, (small, pos))))
]

refused_lem :
    (k : Key) (m : NetworkMessage)
    → (ltb m.msg_size 2 || not ((m.msg_size - 2) % 8 == 0)) ≡ true
    → xtea_decrypt k m ≡ some (false, m)
unfolding xtea_decrypt
refused_lem k m h = rw (xtea_decrypt, h) refl

-- XTEA_decrypt accesses nothing outside of the buffer, whatever the bytes of the message, whose length
-- is at most the size of the buffer. It returns false and leaves the length of the message, or returns
-- true where the length but for the header is a multiple of 8, and then the new length is the old one
-- less at least the four bytes of the headers, and the position is behind them.
pub xtea_decrypt-IsChecked :
    (k : Key) (m : NetworkMessage)
    → IsValid m
    → m.msg_size ≤ max_size
    → (r : Bool × NetworkMessage) × ((xtea_decrypt k m ≡ some r) × IsChecked m r)
xtea_decrypt-IsChecked k m v h =
    elim (Bool-cases (ltb m.msg_size 2 || not ((m.msg_size - 2) % 8 == 0))) [
      | inl i ↦ ((false, m), (refused_lem k m i, (v, inl (refl, refl))))
      | inr i ↦
          let n = m.msg_size / 4 in
          let room : 2 + 4 * n ≤ length m.msg_buf = ground (arith, i, h, v) in
          let even : (m.msg_size - 2) % 8 ≡ 0 = ground (arith, i) in
          let buf = splice 2 (put k 2 n m.msg_buf room) m.msg_buf in
          let v' : IsValid (record m { read_pos = 2; msg_buf = buf }) =
            length-after k 2 n m.msg_buf room ∙ v in
          let (tmp, e) = get_value_lem (record m { read_pos = 2; msg_buf = buf }) v' refl in
          (
            read_length k (tmp, record m { read_pos = 2 + 2; msg_buf = buf }),
            (
              xtea_decrypt-length k m buf _ i (on_words_lem k 2 n m.msg_buf room) e,
              read_length-IsChecked k m (record m { read_pos = 2 + 2; msg_buf = buf }) tmp v' refl
                  refl even,
            ),
          )
    ]
