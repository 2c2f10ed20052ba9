-- ===== src/NetworkMessage/Effect.antt =====
-- What a writing method does, where the message has room and where it has not.
use othire.Base.{
  ℕ, ◌+◌, ◌≤◌, ◌<◌, ◌^◌, ◌≡◌, ap, ◌∙◌, ◌⊎◌, List, [], ◌∷◌, ◌++◌, length, some, false, not, ◌||◌,
  ltb, arith,
}
use othire.Base.Bytes.{to_bytes, length-to_bytes}
use othire.NetworkMessage.{NetworkMessage, max_size, max_body_length, ◌>>=◌}
use othire.NetworkMessage.Add.{can_add, add_value, add_bytes, add_c_string, copy_string}
use othire.NetworkMessage.Memory.{
  splice, length-splice, store-splice, wrote, put-wrote, wrote-wrote,
}

-- The buffer has its size.
abbrev pub IsValid : NetworkMessage → Type 0
IsValid m = length m.msg_buf ≡ max_size

abbrev pub Fits : ℕ → NetworkMessage → Type 0
Fits n m = m.read_pos + n < max_body_length

-- The message is full, and the sum in `canAdd` does not wrap.
abbrev pub Full : ℕ → NetworkMessage → Type 0
Full n m = (max_body_length ≤ m.read_pos + n) × (m.read_pos + n < 2 ^ 32)

pub wrote-IsValid :
    (bytes : List ℕ) (m : NetworkMessage)
    → IsValid m
    → Fits (length bytes) m
    → IsValid (wrote bytes m)
wrote-IsValid bytes m v h = omega (arith, length-splice m.read_pos bytes m.msg_buf)

pub add_value-Fits :
    (n value : ℕ) (m : NetworkMessage)
    → IsValid m
    → Fits n m
    → add_value n value m ≡ some (tt, wrote (to_bytes n value) m)
unfolding add_value
add_value-Fits n value m v h =
    ground (arith, put-wrote (to_bytes n value) m, length-to_bytes n value)

pub add_value-Full :
    (n value : ℕ) (m : NetworkMessage) → Full n m → add_value n value m ≡ some (tt, m)
unfolding add_value
add_value-Full n value m h = ground arith

pub add_bytes-Fits :
    (bytes : List ℕ) (m : NetworkMessage)
    → IsValid m
    → Fits (length bytes) m
    → length bytes ≤ 8192
    → add_bytes bytes m ≡ some (tt, wrote bytes m)
unfolding add_bytes
add_bytes-Fits bytes m v h small = ground (arith, put-wrote bytes m)

pub add_bytes-Full :
    (bytes : List ℕ) (m : NetworkMessage)
    → (8192 < length bytes) ⊎ Full (length bytes) m
    → add_bytes bytes m ≡ some (tt, m)
unfolding add_bytes
add_bytes-Full bytes m h = ground arith

-- a zero byte behind what was written; neither the position nor the length counts it
abbrev pub terminated : NetworkMessage → NetworkMessage
terminated m = record m { msg_buf = splice m.read_pos (0 ∷ []) m.msg_buf }

copy_string-Fits :
    (value : List ℕ) (m : NetworkMessage)
    → IsValid m
    → Fits (length value) m
    → copy_string value m ≡ some (tt, terminated (wrote value m))
unfolding copy_string
copy_string-Fits value m v h =
    let w = wrote value m in
    let size = wrote-IsValid value m v h in
    rw (put-wrote value m (omega arith), copy_string)
      (rw (store-splice w.read_pos (0 ∷ []) w.msg_buf (omega arith), copy_string))

pub add_c_string-Fits :
    (value : List ℕ) (m : NetworkMessage)
    → IsValid m
    → Fits (length value + 2) m
    → length value ≤ 8192
    → add_c_string value m ≡ some (tt, terminated (wrote (to_bytes 2 (length value) ++ value) m))
unfolding add_c_string
add_c_string-Fits value m v h small =
    let field = to_bytes 2 (length value) in
    let n = length-to_bytes 2 (length value) in
    let first = add_value-Fits 2 (length value) m v (omega arith) in
    let second =
      copy_string-Fits value (wrote field m) (wrote-IsValid field m v (omega arith))
        (omega arith) in
    let both = wrote-wrote field value m (omega arith) in
    let accepted : (not (can_add (length value + 2) m) || ltb 8192 (length value)) ≡ false =
      ground arith in
    rw (accepted, first, ◌>>=◌) (second ∙ ap (λ w. some (tt, terminated w)) both)

pub add_c_string-Full :
    (value : List ℕ) (m : NetworkMessage)
    → (8192 < length value) ⊎ Full (length value + 2) m
    → add_c_string value m ≡ some (tt, m)
unfolding add_c_string
add_c_string-Full value m h = ground arith
