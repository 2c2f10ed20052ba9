-- ===== src/NetworkMessage/Add.antt =====
-- The writing methods of NetworkMessage.
use othire.Base.{
  ℕ, ◌+◌, ◌%◌, ◌^◌, none, some, List, [], ◌∷◌, length, replicate, Bool, not, ◌||◌, ltb, ◌==◌,
  if◌then◌else◌,
}
use othire.Base.Bytes.{to_bytes}
use othire.NetworkMessage.{NetworkMessage, Method, ◌>>◌, store, Position, max_body_length}

-- `canAdd`: the sum is a uint32_t.
abbrev pub can_add : ℕ → NetworkMessage → Bool
can_add size m = ltb ((size + m.read_pos) % 2 ^ 32) max_body_length

-- Write at the position, and move the position and the length by the number of bytes.
unfoldable pub put : List ℕ → Method (Unit {0})
unfolding store
put bytes m = elim (store m.read_pos bytes m.msg_buf) [
  | none ↦ none
  | some buf ↦ some (
    tt,
    record m {
      msg_size = m.msg_size + length bytes;
      read_pos = m.read_pos + length bytes;
      msg_buf = buf;
    },
  )
]

-- AddByte, AddU16 and AddU32, for an integer of n bytes
unfoldable pub add_value : ℕ → ℕ → Method (Unit {0})
unfolding put
add_value n value m = if can_add n m then put (to_bytes n value) m else some (tt, m)

-- AddBytes
unfoldable pub add_bytes : List ℕ → Method (Unit {0})
unfolding put
add_bytes bytes m =
    if not (can_add (length bytes) m) || ltb 8192 (length bytes) then some (tt, m) else put bytes m

-- `strcpy` of a text without a zero byte, which writes a zero behind it
unfoldable pub copy_string : List ℕ → Method (Unit {0})
copy_string value m = elim (put value m) [
  | none ↦ none
  | some (_, m') ↦ elim (store m'.read_pos (0 ∷ []) m'.msg_buf) [
    | none ↦ none
    | some buf ↦ some (tt, record m' { msg_buf = buf })
  ]
]

-- AddString(const char*), for the bytes in front of the zero byte
unfoldable pub add_c_string : List ℕ → Method (Unit {0})
unfolding add_value copy_string
add_c_string value m =
    if not (can_add (length value + 2) m) || ltb 8192 (length value)
    then some (tt, m)
    else (do add_value 2 (length value); copy_string value) m

-- What c_str() is to `strlen` and `strcpy`: the bytes in front of the first zero byte.
unfoldable pub c_string : List ℕ → List ℕ
c_string [] = []
c_string (c ∷ cs) = let rest = c_string cs in if c == 0 then [] else c ∷ rest

-- AddString(const std::string&)
unfoldable pub add_string : List ℕ → Method (Unit {0})
unfolding add_c_string c_string
add_string value = add_c_string (c_string value)

-- AddPaddingBytes: the bytes are written, and the position stays.
unfoldable pub add_padding_bytes : ℕ → Method (Unit {0})
unfolding store
add_padding_bytes n m =
    if can_add n m
    then elim (store m.read_pos (replicate n 0x33) m.msg_buf) [
      | none ↦ none
      | some buf ↦ some (tt, record m { msg_size = m.msg_size + n; msg_buf = buf })
    ]
    else some (tt, m)

unfoldable pub add_position : Position → Method (Unit {0})
unfolding add_value
add_position pos = do add_value 2 pos.x; add_value 2 pos.y; add_value 1 pos.z
