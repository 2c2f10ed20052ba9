-- ===== src/NetworkMessage/Memory.antt =====
-- The buffer as memory: what is stored is there, what stands before it is kept, and the size stays.
use othire.Base.{
  ℕ, ◌+◌, ◌-◌, ◌≤◌, ◌≡◌, sym, ap, ◌∙◌, some, List, ◌++◌, append_assoc, length, length-append,
  length-take, length-drop, take, drop, drop-drop, take_past, drop_past, take-append, drop-append,
  arith,
}
use mathlib.Core.Path.{ap₂}
use othire.NetworkMessage.{NetworkMessage, store, peek}
use othire.NetworkMessage.Add.{put}

-- the buffer after a store at i
abbrev pub splice : ℕ → List ℕ → List ℕ → List ℕ
splice i bytes buf = take i buf ++ (bytes ++ drop (i + length bytes) buf)

module _ (i : ℕ) (bytes buf : List ℕ) (room : i + length bytes ≤ length buf) where
  pub store-splice : store i bytes buf ≡ some (splice i bytes buf)
  unfolding store
  store-splice = ground arith

  before : length (take i buf) ≡ i
  before = omega (arith, length-take i buf)

  pub length-splice : length (splice i bytes buf) ≡ length buf
  length-splice = omega (
    arith,
    before,
    length-append (take i buf) (bytes ++ drop (i + length bytes) buf),
    length-append bytes (drop (i + length bytes) buf),
    length-drop (i + length bytes) buf,
  )

  -- What was stored is read back, with what stood behind it.
  pub drop-splice : drop i (splice i bytes buf) ≡ bytes ++ drop (i + length bytes) buf
  drop-splice =
      ap (λ k. drop k (splice i bytes buf)) (sym before)
      ∙ drop-append (take i buf) (bytes ++ drop (i + length bytes) buf)

  -- A prefix that ends with what was stored.
  pub take-splice_past : take (i + length bytes) (splice i bytes buf) ≡ take i buf ++ bytes
  take-splice_past =
      ap (λ k. take (k + length bytes) (splice i bytes buf)) (sym before)
      ∙ take_past (take i buf) (bytes ++ drop (i + length bytes) buf) (length bytes)
      ∙ ap (λ zs. take i buf ++ zs) (take-append bytes (drop (i + length bytes) buf))

  -- What stands before the store is kept.
  pub take-splice : take i (splice i bytes buf) ≡ take i buf
  take-splice =
      ap (λ k. take k (splice i bytes buf)) (sym before)
      ∙ take-append (take i buf) (bytes ++ drop (i + length bytes) buf)

module _ (i : ℕ) (xs ys buf : List ℕ) (room : i + (length xs + length ys) ≤ length buf) where
  rest : List ℕ
  rest = drop (i + length xs) buf

  back : drop (i + length xs + length ys) (splice i xs buf) ≡ drop (i + length xs + length ys) buf
  unfolding rest
  back =
      let here = before i xs buf (omega arith) in
      let n : i + length xs + length ys ≡ length (take i buf) + (length xs + length ys) =
        omega arith in
      ap (λ k. drop k (splice i xs buf)) n
      ∙ drop_past (take i buf) (xs ++ rest) (length xs + length ys)
      ∙ drop_past xs rest (length ys)
      ∙ drop-drop (length ys) (i + length xs) buf

  -- Two stores, one behind the other, are one store.
  pub splice-splice : splice (i + length xs) ys (splice i xs buf) ≡ splice i (xs ++ ys) buf
  splice-splice =
      let n : i + length xs + length ys ≡ i + length (xs ++ ys) =
        omega (arith, length-append xs ys) in
      ap₂ (λ a b. a ++ (ys ++ b)) (take-splice_past i xs buf (omega arith)) back
      ∙ append_assoc (take i buf) xs (ys ++ drop (i + length xs + length ys) buf)
      ∙ ap (◌++◌ (take i buf)) (sym (append_assoc xs ys (drop (i + length xs + length ys) buf)))
      ∙ ap (λ k. take i buf ++ ((xs ++ ys) ++ drop k buf)) n

-- the message after bytes have been put into it
abbrev pub wrote : List ℕ → NetworkMessage → NetworkMessage
wrote bytes m = record m {
  msg_size = m.msg_size + length bytes;
  read_pos = m.read_pos + length bytes;
  msg_buf = splice m.read_pos bytes m.msg_buf;
}

abbrev pub HasRoom : ℕ → NetworkMessage → Type 0
HasRoom n m = m.read_pos + n ≤ length m.msg_buf

pub put-wrote :
    (bytes : List ℕ) (m : NetworkMessage)
    → HasRoom (length bytes) m
    → put bytes m ≡ some (tt, wrote bytes m)
unfolding put
put-wrote bytes m room = rw (store-splice m.read_pos bytes m.msg_buf room, put)

pub wrote-wrote :
    (xs ys : List ℕ) (m : NetworkMessage)
    → HasRoom (length xs + length ys) m
    → wrote ys (wrote xs m) ≡ wrote (xs ++ ys) m
wrote-wrote xs ys m room =
    ground (arith, splice-splice m.read_pos xs ys m.msg_buf room, length-append xs ys)

-- A view: the position is in front of `xs`.
abbrev pub At : NetworkMessage → List ℕ → Type 0
At m xs = drop m.read_pos m.msg_buf ≡ xs

pub peek-At :
    (xs rest : List ℕ) (m : NetworkMessage)
    → At m (xs ++ rest)
    → m.read_pos ≤ length m.msg_buf
    → (peek (length xs) m ≡ some (xs, m)) × At (record m { read_pos = m.read_pos + length xs }) rest
unfolding peek
peek-At xs rest m h inside =
    let long : length m.msg_buf - m.read_pos ≡ length xs + length rest =
      sym (length-drop m.read_pos m.msg_buf) ∙ ap length h ∙ length-append xs rest in
    let front : take (length xs) (drop m.read_pos m.msg_buf) ≡ xs = rw h (take-append xs rest) in
    (
      ground arith,
      sym (drop-drop (length xs) m.read_pos m.msg_buf)
          ∙ ap (drop (length xs)) h
          ∙ drop-append xs rest,
    )
