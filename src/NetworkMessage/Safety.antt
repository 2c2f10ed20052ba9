-- ===== src/NetworkMessage/Safety.antt =====
-- No method touches memory outside of the buffer at a position that is not negative.
use othire.Base.{
  ℕ, ◌+◌, ◌<◌, ◌≤◌, ◌^◌, ◌≡◌, List, [], ◌∷◌, ◌++◌, length, length-append, length-replicate,
  replicate, Option, none, some, arith, ◌⊎◌, inl, inr,
}
use othire.Base.Bytes.{to_bytes, length-to_bytes}
use othire.NetworkMessage.{
  NetworkMessage, Method, get_value, peek_u32, get_string, get_text, get_raw, get_position,
  Position, skip_bytes, ◌>>=◌,
}
use othire.NetworkMessage.Add.{
  add_value, add_bytes, add_c_string, c_string, add_string, add_padding_bytes, add_position,
}
use othire.NetworkMessage.Memory.{length-splice, wrote}
use othire.NetworkMessage.Effect.{
  IsValid, Fits, Full, wrote-IsValid, terminated, add_value-Fits, add_value-Full, add_bytes-Fits,
  add_bytes-Full, add_c_string-Fits, add_c_string-Full,
}

-- The method returns, and the buffer keeps its size.
abbrev pub Safe {ℓ} : {A : Type ℓ} → Option (A × NetworkMessage) → Type 0
Safe none = ⊥
Safe (some (a, m)) = IsValid m

get_value-Safe :
    (n : ℕ) (m : NetworkMessage) → IsValid m → m.read_pos < 2 ^ 31 → Safe (get_value n m)
unfolding get_value
get_value-Safe n m v positive = ground arith

peek_u32-Safe : (m : NetworkMessage) → IsValid m → m.read_pos < 2 ^ 31 → Safe (peek_u32 m)
unfolding peek_u32
peek_u32-Safe m v positive = ground arith

get_text-Safe : (n : ℕ) (m : NetworkMessage) → IsValid m → m.read_pos < 2 ^ 31 → Safe (get_text n m)
unfolding get_text
get_text-Safe n m v positive = ground arith

get_string-Safe : (m : NetworkMessage) → IsValid m → m.read_pos < 2 ^ 31 → Safe (get_string m)
unfolding get_string
get_string-Safe m v positive = ground arith

get_raw-Safe : (m : NetworkMessage) → IsValid m → m.read_pos < 2 ^ 31 → Safe (get_raw m)
unfolding get_raw
get_raw-Safe m v positive = get_text-Safe _ m v positive

get_position-Safe : (m : NetworkMessage) → IsValid m → m.read_pos < 2 ^ 31 → Safe (get_position m)
unfolding get_position
get_position-Safe m v positive = ground arith

-- Either there is room, or the message is full.
room : (n : ℕ) (m : NetworkMessage) → n + m.read_pos < 2 ^ 32 → Fits n m ⊎ Full n m
room n m h = ground arith

pub long_or_short : (n : ℕ) → (8192 < n) ⊎ (n ≤ 8192)
long_or_short n = grind arith

pub terminated-IsValid :
    (value : List ℕ) (m : NetworkMessage)
    → IsValid m
    → Fits (length value + 2) m
    → IsValid (terminated (wrote (to_bytes 2 (length value) ++ value) m))
terminated-IsValid value m v fits =
    let xs = to_bytes 2 (length value) ++ value in
    let n : length xs ≡ length value + 2 =
      omega (
        arith,
        length-append (to_bytes 2 (length value)) value,
        length-to_bytes 2 (length value),
      ) in
    let w = wrote-IsValid xs m v (omega arith) in
    omega (arith, length-splice (wrote xs m).read_pos (0 ∷ []) (wrote xs m).msg_buf)

-- A write of n bytes, done or dropped, moves the position by n at most.
record Steps (n : ℕ) (m m' : NetworkMessage) : Type 0 where
  valid : IsValid m'
  near : m'.read_pos ≤ m.read_pos + n

add_value-Steps :
    (n value : ℕ) (m : NetworkMessage)
    → IsValid m
    → n + m.read_pos < 2 ^ 32
    → (m' : NetworkMessage) × (add_value n value m ≡ some (tt, m')) × Steps n m m'
add_value-Steps n value m v h = elim (room n m h) [
  | inl fits ↦
      let k = length-to_bytes n value in
      (
        wrote (to_bytes n value) m,
        add_value-Fits n value m v fits,
        record { valid = wrote-IsValid (to_bytes n value) m v (omega arith); near = omega arith },
      )
  | inr full ↦ (m, add_value-Full n value m full, record { valid = v; near = omega arith })
]

add_value-Safe :
    (n value : ℕ) (m : NetworkMessage)
    → IsValid m
    → n + m.read_pos < 2 ^ 32
    → Safe (add_value n value m)
add_value-Safe n value m v h = let (m', run, s) = add_value-Steps n value m v h in rw run s.valid

add_position-Safe :
    (pos : Position) (m : NetworkMessage)
    → IsValid m
    → 5 + m.read_pos < 2 ^ 32
    → Safe (add_position pos m)
unfolding add_position
add_position-Safe pos m v h =
    let (m₁, x, s₁) = add_value-Steps 2 pos.x m v (omega arith) in
    let (m₂, y, s₂) = add_value-Steps 2 pos.y m₁ s₁.valid (omega (arith, s₁.near)) in
    rw (x, ◌>>=◌)
      (rw (y, ◌>>=◌) (add_value-Safe 1 pos.z m₂ s₂.valid (omega (arith, s₁.near, s₂.near))))

add_bytes-Safe :
    (bytes : List ℕ) (m : NetworkMessage)
    → IsValid m
    → length bytes + m.read_pos < 2 ^ 32
    → Safe (add_bytes bytes m)
add_bytes-Safe bytes m v h = elim (room (length bytes) m h) [
  | inr full ↦ rw (add_bytes-Full bytes m (inr full)) v
  | inl fits ↦ elim (long_or_short (length bytes)) [
    | inl long ↦ rw (add_bytes-Full bytes m (inl long)) v
    | inr short ↦ rw (add_bytes-Fits bytes m v fits short) (wrote-IsValid bytes m v fits)
  ]
]

add_c_string-Safe :
    (value : List ℕ) (m : NetworkMessage)
    → IsValid m
    → length value + 2 + m.read_pos < 2 ^ 32
    → Safe (add_c_string value m)
add_c_string-Safe value m v h = elim (room (length value + 2) m h) [
  | inr full ↦ rw (add_c_string-Full value m (inr full)) v
  | inl fits ↦ elim (long_or_short (length value)) [
    | inl long ↦ rw (add_c_string-Full value m (inl long)) v
    | inr short ↦ rw (add_c_string-Fits value m v fits short) (terminated-IsValid value m v fits)
  ]
]

add_string-Safe :
    (value : List ℕ) (m : NetworkMessage)
    → IsValid m
    → length (c_string value) + 2 + m.read_pos < 2 ^ 32
    → Safe (add_string value m)
unfolding add_string
add_string-Safe value m v h = add_c_string-Safe (c_string value) m v h

add_padding_bytes-Safe :
    (n : ℕ) (m : NetworkMessage)
    → IsValid m
    → n + m.read_pos < 2 ^ 32
    → Safe (add_padding_bytes n m)
unfolding add_padding_bytes
add_padding_bytes-Safe n m v h =
    ground (
      arith,
      length-replicate {A = ℕ} n 0x33,
      length-splice m.read_pos (replicate n 0x33) m.msg_buf,
    )

-- the methods of NetworkMessage with their arguments
pub data Call : Type 0 where
  gets_byte gets_u16 gets_u32 peeks_u32 gets_string gets_raw gets_position : Call
  skips_bytes adds_byte adds_u16 adds_u32 adds_padding_bytes : ℕ → Call
  adds_bytes adds_string : List ℕ → Call
  adds_position : Position → Call

abbrev forget {ℓ} : {A : Type ℓ} → Method A → Method (Unit {0})
forget f m = elim (f m) [ none ↦ none | some (a, m') ↦ some (tt, m') ]

pub perform : Call → Method (Unit {0})
perform gets_byte = forget (get_value 1)
perform gets_u16 = forget (get_value 2)
perform gets_u32 = forget (get_value 4)
perform peeks_u32 = forget peek_u32
perform gets_string = forget get_string
perform gets_raw = forget get_raw
perform gets_position = forget get_position
perform (skips_bytes n) = λ m. some (tt, skip_bytes n m)
perform (adds_byte v) = add_value 1 v
perform (adds_u16 v) = add_value 2 v
perform (adds_u32 v) = add_value 4 v
perform (adds_padding_bytes n) = add_padding_bytes n
perform (adds_bytes bytes) = add_bytes bytes
perform (adds_string value) = add_string value
perform (adds_position pos) = add_position pos

-- the number of bytes that a call asks to write
abbrev pub asked : Call → ℕ
asked (adds_byte v) = 1
asked (adds_u16 v) = 2
asked (adds_u32 v) = 4
asked (adds_padding_bytes n) = n
asked (adds_bytes bytes) = length bytes
asked (adds_string value) = length (c_string value) + 2
asked (adds_position pos) = 5
asked _ = 0

forget-Safe {ℓ} : {A : Type ℓ} (f : Method A) (m : NetworkMessage) → Safe (f m) → Safe (forget f m)
forget-Safe {A} f m h = forget_result (f m) h
  where
    forget_result :
        (r : Option (A × NetworkMessage))
        → Safe r
        → Safe {A = Unit {0}} (elim r [ none ↦ none | some (a, m') ↦ some (tt, m') ])
    forget_result none h = h
    forget_result (some (a, m')) h = h

-- Every method on a message with a buffer of its size and a position that is not negative returns
-- without an access outside of the buffer, even if the position is past its end, and leaves a buffer
-- of that size. The bytes that a writing method is asked for, a text up to its first zero byte, must
-- with the position not exceed a uint32_t.
pub perform-Safe :
    (c : Call) (m : NetworkMessage)
    → IsValid m
    → m.read_pos < 2 ^ 31
    → asked c + m.read_pos < 2 ^ 32
    → Safe (perform c m)
unfolding perform skip_bytes
perform-Safe gets_byte m v positive h = forget-Safe (get_value 1) m (get_value-Safe 1 m v positive)
perform-Safe gets_u16 m v positive h = forget-Safe (get_value 2) m (get_value-Safe 2 m v positive)
perform-Safe gets_u32 m v positive h = forget-Safe (get_value 4) m (get_value-Safe 4 m v positive)
perform-Safe peeks_u32 m v positive h = forget-Safe peek_u32 m (peek_u32-Safe m v positive)
perform-Safe gets_string m v positive h = forget-Safe get_string m (get_string-Safe m v positive)
perform-Safe gets_raw m v positive h = forget-Safe get_raw m (get_raw-Safe m v positive)
perform-Safe gets_position m v positive h =
    forget-Safe get_position m (get_position-Safe m v positive)
perform-Safe (skips_bytes n) m v positive h = v
perform-Safe (adds_byte value) m v positive h = add_value-Safe 1 value m v h
perform-Safe (adds_u16 value) m v positive h = add_value-Safe 2 value m v h
perform-Safe (adds_u32 value) m v positive h = add_value-Safe 4 value m v h
perform-Safe (adds_padding_bytes n) m v positive h = add_padding_bytes-Safe n m v h
perform-Safe (adds_bytes bytes) m v positive h = add_bytes-Safe bytes m v h
perform-Safe (adds_string value) m v positive h = add_string-Safe value m v h
perform-Safe (adds_position pos) m v positive h = add_position-Safe pos m v h
