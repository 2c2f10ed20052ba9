-- ===== src/Protocol/Codec.antt =====
-- Parts of a buffer: what is stored in it, encrypted, decrypted and read (source/protocol.cpp,
-- source/outputmessage.h, source/networkmessage.h).
use othire.Base.{
  ℕ, zero, suc, ◌+◌, ◌-◌, ◌*◌, ◌/◌, ◌%◌, ◌^◌, ◌≤◌, ◌≡◌, refl, sym, ap, ◌∙◌, List, [], ◌∷◌, ◌++◌,
  append_assoc, take, drop, replicate, length, length-append, take-append, drop-append, drop_past,
  true, false, not, ◌||◌, ltb, leb, ◌==◌, if◌then◌else◌, Option, none, some, arith,
}
use mathlib.Core.Path.{ap₂}
use othire.Base.Bytes.{to_bytes, of_bytes, Bytes, length-to_bytes}
use othire.NetworkMessage.{
  NetworkMessage, load, store, peek, get_value, decode_header, max_body_length, max_size,
}
use othire.NetworkMessage.Add.{add_padding_bytes}
use othire.NetworkMessage.Memory.{store-splice}
use othire.Protocol.{Key, encrypt, decrypt}
use othire.Protocol.Inverse.{decrypt-encrypt}
use othire.Protocol.Message.{
  OutputMessage, words, bytes_of, on_words, put_length, padding, padded, xtea_encrypt, xtea_decrypt,
  read_length, received,
}
use othire.Protocol.Words.{
  length-bytes_of, words-bytes_of, bytes_of-words, words-Words, length-words, Words-Blocks,
  length-encrypt, encrypt-Words,
}

module _ (i : ℕ) (xs ys zs : List ℕ) (e : length xs ≡ i) where
  pub at : (k : ℕ) → length xs + k ≡ i + k
  at k = ap (λ n. n + k) e

  pub drop-at : (n : ℕ) → length ys ≡ n → drop (i + n) (xs ++ (ys ++ zs)) ≡ zs
  drop-at n f =
      ap (λ k. drop (k + n) (xs ++ (ys ++ zs))) (sym e)
      ∙ drop_past xs (ys ++ zs) n
      ∙ ap (λ k. drop k (ys ++ zs)) (sym f)
      ∙ drop-append ys zs

  pub store-at :
      (bytes : List ℕ)
      → length ys ≡ length bytes
      → store i bytes (xs ++ (ys ++ zs)) ≡ some (xs ++ (bytes ++ zs))
  store-at bytes f =
      let room : i + length bytes ≤ length (xs ++ (ys ++ zs)) =
        omega (arith, e, f, length-append xs (ys ++ zs), length-append ys zs) in
      let front : take i (xs ++ (ys ++ zs)) ≡ xs =
        ap (λ k. take k (xs ++ (ys ++ zs))) (sym e) ∙ take-append xs (ys ++ zs) in
      store-splice i bytes (xs ++ (ys ++ zs)) room
      ∙ ap some (ap₂ (λ a b. a ++ (bytes ++ b)) front (drop-at (length bytes) f))

  pub load-at : (n : ℕ) → length ys ≡ n → load i n (xs ++ (ys ++ zs)) ≡ some ys
  unfolding load
  load-at n f =
      let room : leb (i + n) (length (xs ++ (ys ++ zs))) ≡ true =
        ground (arith, e, f, length-append xs (ys ++ zs), length-append ys zs) in
      let back : drop i (xs ++ (ys ++ zs)) ≡ ys ++ zs =
        ap (λ k. drop k (xs ++ (ys ++ zs))) (sym e) ∙ drop-append xs (ys ++ zs) in
      rw (room, back) (ap some (ap (λ k. take k (ys ++ zs)) (sym f) ∙ take-append ys zs))

  pub on_words-at :
      (f : List ℕ → List ℕ) (n : ℕ)
      → length ys ≡ 4 * n
      → length (f (words n ys)) ≡ n
      → on_words f i n (xs ++ (ys ++ zs)) ≡ some (xs ++ (bytes_of (f (words n ys)) ++ zs))
  unfolding on_words
  on_words-at f n g h =
      let k = load-at (4 * n) g in
      let long : length ys ≡ length (bytes_of (f (words n ys))) =
        omega (arith, g, h, length-bytes_of (f (words n ys))) in
      rw (on_words, k) (store-at (bytes_of (f (words n ys))) long)

-- The words of a multiple of eight bytes come back.
module _ (k : Key) (c : ℕ) (plain : List ℕ) (e : length plain ≡ 8 * c) (h : Bytes plain) where
  pub cipher : List ℕ
  cipher = bytes_of (encrypt k (words (2 * c) plain))

  pub length-coded : length (encrypt k (words (2 * c) plain)) ≡ 2 * c
  length-coded = length-encrypt k (words (2 * c) plain) ∙ length-words (2 * c) plain

  pub length-cipher : length cipher ≡ length plain
  unfolding cipher
  length-cipher = omega (arith, e, length-coded, length-bytes_of (encrypt k (words (2 * c) plain)))

  pub decoded : decrypt k (words (2 * c) cipher) ≡ words (2 * c) plain
  unfolding cipher
  decoded =
      let vs = words (2 * c) plain in
      let four : length plain ≡ 4 * (2 * c) = omega (arith, e) in
      let ws = words-Words (2 * c) plain four h in
      ap (λ n. decrypt k (words n (bytes_of (encrypt k vs)))) (sym length-coded)
      ∙ ap (decrypt k) (words-bytes_of (encrypt k vs) (encrypt-Words k vs ws))
      ∙ decrypt-encrypt k vs (Words-Blocks c vs (length-words (2 * c) plain) ws)

  pub encrypted-at :
      (i : ℕ) (xs zs : List ℕ)
      → length xs ≡ i
      → on_words (encrypt k) i (2 * c) (xs ++ (plain ++ zs)) ≡ some (xs ++ (cipher ++ zs))
  unfolding cipher
  encrypted-at i xs zs f =
      on_words-at i xs plain zs f (encrypt k) (2 * c) (omega (arith, e)) length-coded

  pub decrypted-at :
      (i : ℕ) (xs zs : List ℕ)
      → length xs ≡ i
      → on_words (decrypt k) i (2 * c) (xs ++ (cipher ++ zs)) ≡ some (xs ++ (plain ++ zs))
  decrypted-at i xs zs f =
      let four : length plain ≡ 4 * (2 * c) = omega (arith, e) in
      on_words-at i xs cipher zs f (decrypt k) (2 * c) (omega (arith, e, length-cipher))
        (ap length decoded ∙ length-words (2 * c) plain)
      ∙ ap (λ bs. some (xs ++ (bs ++ zs)))
          (ap bytes_of decoded ∙ bytes_of-words (2 * c) plain four h)

-- The padding fills up the last block.
pub padding-eq : (n : ℕ) → n + padding n ≡ 8 * ((n + padding n) / 8)
padding-eq n = ground arith

pub put_length-at :
    (i : ℕ) (m : OutputMessage) (xs ys zs : List ℕ)
    → m.message.msg_buf ≡ (xs ++ (ys ++ zs))
    → length xs ≡ i
    → length ys ≡ 2
    → put_length i m
      ≡ some (record {
        message = record m.message {
          msg_size = m.message.msg_size + 2;
          msg_buf = xs ++ (to_bytes 2 m.message.msg_size ++ zs);
        };
        output_buffer_start = i;
      })
unfolding put_length
put_length-at i m xs ys zs b e f =
    let s =
      store-at i xs ys zs e (to_bytes 2 m.message.msg_size)
        (f ∙ sym (length-to_bytes 2 m.message.msg_size)) in
    rw (put_length, ap (λ bs. store i (to_bytes 2 m.message.msg_size) bs) b, s) refl

pub regroup : (a b c d e : List ℕ) → a ++ (b ++ (c ++ (d ++ e))) ≡ (a ++ (b ++ c)) ++ (d ++ e)
regroup a b c d e =
    sym (append_assoc a (b ++ c) (d ++ e) ∙ ap (λ xs. a ++ xs) (append_assoc b c (d ++ e)))

pub regroup_plain : (a b c d e : List ℕ) → (a ++ (b ++ c)) ++ (d ++ e) ≡ a ++ ((b ++ (c ++ d)) ++ e)
regroup_plain a b c d e =
    append_assoc a (b ++ c) (d ++ e)
    ∙ ap (λ xs. a ++ xs)
        (append_assoc b c (d ++ e)
          ∙ ap (λ xs. b ++ xs) (sym (append_assoc c d e))
          ∙ sym (append_assoc b (c ++ d) e))

pub nothing : (xs ys : List ℕ) → length xs ≡ 0 → length ys ≡ 0 → xs ≡ ys
nothing [] [] e f = refl
nothing [] (y ∷ ys) e f = absurd (omega (arith, f))
nothing (x ∷ xs) ys e f = absurd (omega (arith, e))

pub add_padding_bytes_lem :
    (n : ℕ) (m : NetworkMessage) (buf : List ℕ)
    → ltb ((n + m.read_pos) % 2 ^ 32) max_body_length ≡ true
    → store m.read_pos (replicate n 0x33) m.msg_buf ≡ some buf
    → add_padding_bytes n m ≡ some (tt, record m { msg_size = m.msg_size + n; msg_buf = buf })
unfolding add_padding_bytes
add_padding_bytes_lem n m buf h e = rw (h, e) refl

pub second : Option (Unit {0} × NetworkMessage) → Option NetworkMessage
second o = elim o [ none ↦ none | some (_, m') ↦ some m' ]

pub padded_full : (m : NetworkMessage) → (m.msg_size % 8 == 0) ≡ true → padded m ≡ some m
unfolding padded
padded_full m i = rw i refl

pub padded_part :
    (m m' : NetworkMessage)
    → (m.msg_size % 8 == 0) ≡ false
    → add_padding_bytes (padding m.msg_size) m ≡ some (tt, m')
    → padded m ≡ some m'
unfolding second padded
padded_part m m' i e =
    ap (λ b. if b then some m else second (add_padding_bytes (padding m.msg_size) m)) i
    ∙ ap second e

pub append-Bytes : (xs ys : List ℕ) → Bytes xs → Bytes ys → Bytes (xs ++ ys)
append-Bytes [] ys h h' = h'
append-Bytes (x ∷ xs) ys (hx, hs) h' = (hx, append-Bytes xs ys hs h')

pub replicate-Bytes : (n : ℕ) → Bytes (replicate n 0x33)
replicate-Bytes zero = tt
replicate-Bytes (suc n) = (omega arith, replicate-Bytes n)

pub xtea_encrypt-padded :
    (k : Key) (m : OutputMessage) (m' : NetworkMessage) (buf : List ℕ)
    → padded m.message ≡ some m'
    → on_words
        (encrypt k)
        m.output_buffer_start
        ((m.message.msg_size + padding m.message.msg_size) / 4)
        m'.msg_buf
      ≡ some buf
    → xtea_encrypt k m ≡ some (record m { message = record m' { msg_buf = buf } })
unfolding xtea_encrypt
xtea_encrypt-padded k m m' buf e f = rw (xtea_encrypt, e, f) refl

pub decode_header-load :
    (m : NetworkMessage) (bytes : List ℕ)
    → load 0 2 m.msg_buf ≡ some bytes
    → decode_header m ≡ some (of_bytes bytes)
unfolding decode_header
decode_header-load m bytes e = rw (decode_header, e) refl

pub received-header :
    (m : NetworkMessage) (n : ℕ)
    → decode_header m ≡ some n
    → (n == 0 || leb (max_size - 16) n) ≡ false
    → received m ≡ some (record m { msg_size = n + 2; read_pos = 2 })
unfolding received
received-header m n e h = rw (received, e, h) refl

pub get_value-load :
    (m : NetworkMessage) (bytes : List ℕ)
    → m.read_pos ≡ 2
    → load m.read_pos 2 m.msg_buf ≡ some bytes
    → get_value 2 m ≡ some (of_bytes bytes, record m { read_pos = m.read_pos + 2 })
unfolding get_value peek
get_value-load m bytes h e = ground (arith, h, e)

pub xtea_decrypt-length :
    (k : Key) (m : NetworkMessage) (buf : List ℕ) (r : ℕ × NetworkMessage)
    → (ltb m.msg_size 2 || not ((m.msg_size - 2) % 8 == 0)) ≡ false
    → on_words (decrypt k) 2 (m.msg_size / 4) m.msg_buf ≡ some buf
    → get_value 2 (record m { read_pos = 2; msg_buf = buf }) ≡ some r
    → xtea_decrypt k m ≡ some (read_length k r)
unfolding xtea_decrypt
xtea_decrypt-length k m buf r h e f = rw (xtea_decrypt, h, e, f) refl
