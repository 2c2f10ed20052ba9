-- ===== src/NetworkMessage/RoundTrip.antt =====
-- What one message writes, the same message reads when its position is set back.
use othire.Base.{
  ℕ, ◌+◌, ◌≤◌, ◌<◌, ◌^◌, ◌≡◌, ap, ◌∙◌, List, [], ◌∷◌, ◌++◌, append_assoc, length, length-append,
  drop, some, arith,
}
use othire.Base.Bytes.{to_bytes, length-to_bytes, of_bytes-to_bytes}
use othire.NetworkMessage.{
  NetworkMessage, max_size, ◌>>=◌, get_value, get_text, get_string, get_position, Position,
  set_read_pos,
}
use othire.NetworkMessage.Add.{add_c_string, c_string, add_string, add_position}
use othire.NetworkMessage.Memory.{
  splice, splice-splice, length-splice, drop-splice, wrote, wrote-wrote, At, peek-At,
}
use othire.NetworkMessage.Effect.{
  IsValid, Fits, wrote-IsValid, terminated, add_value-Fits, add_c_string-Fits,
}

abbrev moved : ℕ → NetworkMessage → NetworkMessage
moved n m = record m { read_pos = m.read_pos + n }

module _ (m : NetworkMessage) (v : IsValid m) where
  get_value-At :
      (n value : ℕ) (rest : List ℕ)
      → m.read_pos + n < max_size
      → value < 256 ^ n
      → At m (to_bytes n value ++ rest)
      → (get_value n m ≡ some (value, moved n m)) × At (moved n m) rest
  unfolding get_value
  get_value-At n value rest inside small h =
      let w = length-to_bytes n value in
      let (run, next) = rw w at (peek-At (to_bytes n value) rest m h (omega arith)) in
      (ground (arith, run, of_bytes-to_bytes n value small), next)

  get_text-At :
      (text rest : List ℕ)
      → m.read_pos + length text < max_size
      → At m (text ++ rest)
      → get_text (length text) m ≡ some (text, moved (length text) m)
  unfolding get_text
  get_text-At text rest inside h = ground (arith, peek-At text rest m h)

-- The bytes of a text, read from a message that is positioned in front of them.
get_string-At :
    (m : NetworkMessage) (value rest : List ℕ)
    → IsValid m
    → m.read_pos + length value + 2 < max_size
    → length value < 2 ^ 16
    → At m (to_bytes 2 (length value) ++ (value ++ rest))
    → get_string m ≡ some (value, moved (length value) (moved 2 m))
unfolding get_string
get_string-At m value rest v inside small h =
    let (field, next) = get_value-At m v 2 (length value) (value ++ rest) (omega arith) small h in
    rw (field, ◌>>=◌) (get_text-At (moved 2 m) v value rest (omega arith) next)

get_position-At :
    (m : NetworkMessage) (pos : Position) (rest : List ℕ)
    → IsValid m
    → m.read_pos + 5 < max_size
    → pos.x < 2 ^ 16
    → pos.y < 2 ^ 16
    → pos.z < 2 ^ 8
    → At m (to_bytes 2 pos.x ++ (to_bytes 2 pos.y ++ (to_bytes 1 pos.z ++ rest)))
    → get_position m ≡ some (pos, moved 5 m)
unfolding get_position
get_position-At m pos rest v inside hx hy hz h =
    let (x, after_x) = get_value-At m v 2 pos.x _ (omega arith) hx h in
    let (y, after_y) = get_value-At (moved 2 m) v 2 pos.y _ (omega arith) hy after_x in
    let (z, after_z) = get_value-At (moved 2 (moved 2 m)) v 1 pos.z rest (omega arith) hz after_y in
    rw (x, ◌>>=◌) (rw (y, ◌>>=◌) (rw (z, ◌>>=◌) (ground arith)))

get_string-add_c_string :
    (value : List ℕ) (m : NetworkMessage)
    → IsValid m
    → Fits (length value + 2) m
    → length value ≤ 8192
    → (m' : NetworkMessage) × (add_c_string value m ≡ some (tt, m'))
      × (get_string (set_read_pos m.read_pos m') ≡ some (value, m'))
unfolding set_read_pos
get_string-add_c_string value m v h small =
    let xs = to_bytes 2 (length value) ++ value in
    let n = length-append (to_bytes 2 (length value)) value in
    let k = length-to_bytes 2 (length value) in
    let w = wrote xs m in
    let m' = terminated w in
    let one : splice w.read_pos (0 ∷ []) w.msg_buf ≡ splice m.read_pos (xs ++ 0 ∷ []) m.msg_buf =
      splice-splice m.read_pos xs (0 ∷ []) m.msg_buf (omega arith) in
    let room : m.read_pos + length (xs ++ 0 ∷ []) ≤ length m.msg_buf =
      omega (arith, length-append xs (0 ∷ [])) in
    let rest = drop (m.read_pos + length (xs ++ 0 ∷ [])) m.msg_buf in
    let here : drop m.read_pos m'.msg_buf ≡ to_bytes 2 (length value) ++ (value ++ (0 ∷ rest)) =
      ap (drop m.read_pos) one
      ∙ drop-splice m.read_pos (xs ++ 0 ∷ []) m.msg_buf room
      ∙ simp append_assoc in
    let size : IsValid m' =
      ap length one ∙ length-splice m.read_pos (xs ++ 0 ∷ []) m.msg_buf room ∙ v in
    let read =
      get_string-At (record m' { read_pos = m.read_pos }) value (0 ∷ rest) size (omega arith)
        (omega arith) here in
    (
      m',
      add_c_string-Fits value m v h small,
      read ∙ ap (λ p. some (value, record m' { read_pos = p })) (omega arith),
    )

-- AddString followed by GetString, with the position set back, gives the text back up to its first
-- zero byte, all of it if it has none, and leaves the message as AddString left it, where that part
-- has at most 8192 bytes and the message has room for it and its length field.
pub get_string-add_string_message :
    (value : List ℕ) (m : NetworkMessage)
    → IsValid m
    → Fits (length (c_string value) + 2) m
    → length (c_string value) ≤ 8192
    → (m' : NetworkMessage) × (add_string value m ≡ some (tt, m'))
      × (get_string (set_read_pos m.read_pos m') ≡ some (c_string value, m'))
unfolding add_string
get_string-add_string_message value m v h small =
    get_string-add_c_string (c_string value) m v h small

add_position-Fits :
    (pos : Position) (m : NetworkMessage)
    → IsValid m
    → Fits 5 m
    → add_position pos m
      ≡ some (tt, wrote ((to_bytes 2 pos.x ++ to_bytes 2 pos.y) ++ to_bytes 1 pos.z) m)
unfolding add_position
add_position-Fits pos m v h =
    let bx = to_bytes 2 pos.x in
    let by = to_bytes 2 pos.y in
    let bz = to_bytes 1 pos.z in
    let kx = length-to_bytes 2 pos.x in
    let ky = length-to_bytes 2 pos.y in
    let kz = length-to_bytes 1 pos.z in
    let m₁ = wrote bx m in
    let m₂ = wrote by m₁ in
    let v₁ = wrote-IsValid bx m v (omega arith) in
    let v₂ = wrote-IsValid by m₁ v₁ (omega arith) in
    let two = wrote-wrote bx by m (omega arith) in
    let three = wrote-wrote (bx ++ by) bz m (omega (arith, length-append bx by)) in
    rw (add_value-Fits 2 pos.x m v (omega arith), ◌>>=◌)
      (rw (add_value-Fits 2 pos.y m₁ v₁ (omega arith), ◌>>=◌)
        (add_value-Fits 1 pos.z m₂ v₂ (omega arith)
          ∙ ap (λ (w : NetworkMessage). some (tt, wrote bz w)) two
          ∙ ap (λ (w : NetworkMessage). some (tt, w)) three))

-- AddPosition followed by GetPosition, with the position set back, gives a map position back whose
-- x and y fit 16 bits and whose z fits 8, where the message has room for its five bytes.
pub get_position-add_position :
    (pos : Position) (m : NetworkMessage)
    → IsValid m
    → Fits 5 m
    → pos.x < 2 ^ 16
    → pos.y < 2 ^ 16
    → pos.z < 2 ^ 8
    → (m' : NetworkMessage) × (add_position pos m ≡ some (tt, m'))
      × (get_position (set_read_pos m.read_pos m') ≡ some (pos, m'))
unfolding set_read_pos
get_position-add_position pos m v h hx hy hz =
    let bx = to_bytes 2 pos.x in
    let by = to_bytes 2 pos.y in
    let bz = to_bytes 1 pos.z in
    let xs = (bx ++ by) ++ bz in
    let five : length xs ≡ 5 = omega (
      arith,
      length-append (bx ++ by) bz,
      length-append bx by,
      length-to_bytes 2 pos.x,
      length-to_bytes 2 pos.y,
      length-to_bytes 1 pos.z,
    ) in
    let room : m.read_pos + length xs ≤ length m.msg_buf = omega arith in
    let rest = drop (m.read_pos + length xs) m.msg_buf in
    let here : drop m.read_pos (wrote xs m).msg_buf ≡ bx ++ (by ++ (bz ++ rest)) =
      drop-splice m.read_pos xs m.msg_buf room ∙ simp append_assoc in
    (
      wrote xs m,
      add_position-Fits pos m v h,
      get_position-At (record (wrote xs m) { read_pos = m.read_pos }) pos rest
            (wrote-IsValid xs m v (omega arith)) (omega arith) hx hy hz here
          ∙ ap (λ p. some (pos, record (wrote xs m) { read_pos = p })) (omega arith),
    )
