-- ===== src/NetworkMessage/Length.antt =====
-- An outgoing message, from Reset on, refines a list of bytes that only grows, up to a limit.
use othire.Base.{
  ℕ, ◌+◌, ◌<◌, ◌≤◌, ◌^◌, ◌≡◌, refl, ap, ◌∙◌, List, [], ◌∷◌, ◌++◌, length, length-append, true,
  false, ◌&&◌, ltb, leb, some, none, arith, ◌⊎◌, inl, inr, Bool-cases, sym,
}
use othire.Base.Bytes.{to_bytes, length-to_bytes}
use othire.NetworkMessage.{NetworkMessage, Method, max_body_length, reset}
use othire.NetworkMessage.Add.{add_value, add_string, c_string}
use othire.NetworkMessage.Memory.{wrote}
use othire.NetworkMessage.Effect.{
  IsValid, Fits, Full, terminated, add_value-Fits, add_value-Full, add_bytes-Fits, add_bytes-Full,
  add_c_string-Fits, add_c_string-Full,
}
use othire.NetworkMessage.Body.{
  Addition, byte, u16, u32, bytes, text, apply, encode, allowed, append, body, IsOutgoing,
  length-body, wrote-IsOutgoing, terminated-IsOutgoing,
}

-- what an addition must do to a message
abbrev pub Applies : Addition → NetworkMessage → Type 0
Applies a m =
    (m' : NetworkMessage) × (apply a m ≡ some (tt, m'))
    × IsOutgoing m'
    × (body m' ≡ append a (body m))

-- An addition that the specification accepts is written.
accepted-Applies :
    (a : Addition) (m : NetworkMessage)
    → IsOutgoing m
    → (ltb (4 + length (body m) + length (encode a)) max_body_length && allowed a) ≡ true
    → (apply a m ≡ some (tt, wrote (encode a) m)) × Fits (length (encode a)) m
    → Applies a m
accepted-Applies a m o e (run, h) =
    let (o', grown) = wrote-IsOutgoing (encode a) m o h in (wrote (encode a) m, run, o', rw e grown)

refused-Applies :
    (a : Addition) (m : NetworkMessage)
    → IsOutgoing m
    → (ltb (4 + length (body m) + length (encode a)) max_body_length && allowed a) ≡ false
    → apply a m ≡ some (tt, m)
    → Applies a m
refused-Applies a m o e run = (m, run, o, rw e)

module _ (m : NetworkMessage) (o : IsOutgoing m) where
  value-Applies :
      (a : Addition) (n v : ℕ)
      → encode a ≡ to_bytes n v
      → allowed a ≡ true
      → ((m' : NetworkMessage) → apply a m' ≡ add_value n v m')
      → n < 2 ^ 31
      → Applies a m
  value-Applies a n v e ok same small =
      let k : length (encode a) ≡ n = ap length e ∙ length-to_bytes n v in
      let size = length-body m o in
      elim (Bool-cases (ltb (4 + length (body m) + length (encode a)) max_body_length)) [
        | inl yes_room ↦
            let h : Fits n m = ground (arith, o.in_step, size, k) in
            accepted-Applies a m o (ground arith) (
              same m ∙ add_value-Fits n v m o.valid h ∙ ap (λ xs. some (tt, wrote xs m)) (sym e),
              omega (arith, k),
            )
        | inr full ↦
            let h : Full n m = ground (arith, o.in_step, o.below, size, k) in
            refused-Applies a m o (ground arith) (same m ∙ add_value-Full n v m h)
      ]

  bytes-Applies : (xs : List ℕ) → length xs < 2 ^ 31 → Applies (bytes xs) m
  unfolding apply
  bytes-Applies xs small =
      let size = length-body m o in
      elim (Bool-cases
        (ltb (4 + length (body m) + length xs) max_body_length && leb (length xs) 8192)) [
          | inl good ↦
              let h : Fits (length xs) m = ground (arith, o.in_step, size) in
              let short : length xs ≤ 8192 = ground arith in
              accepted-Applies (bytes xs) m o good (add_bytes-Fits xs m o.valid h short, h)
          | inr bad ↦
              let why : (8192 < length xs) ⊎ Full (length xs) m =
                ground (arith, o.in_step, o.below, size) in
              refused-Applies (bytes xs) m o bad (add_bytes-Full xs m why)
        ]

  text-Applies : (value : List ℕ) → length (c_string value) < 2 ^ 31 → Applies (text value) m
  unfolding apply add_string
  text-Applies value small =
      let chars = c_string value in
      let size = length-body m o in
      let xs = to_bytes 2 (length chars) ++ chars in
      let k : length xs ≡ length chars + 2 = omega (
        arith,
        length-append (to_bytes 2 (length chars)) chars,
        length-to_bytes 2 (length chars),
      ) in
      elim (Bool-cases
        (ltb (4 + length (body m) + length xs) max_body_length && leb (length chars) 8192)) [
          | inl good ↦
              let h : Fits (length chars + 2) m = ground (arith, o.in_step, size, k) in
              let short : length chars ≤ 8192 = ground arith in
              let (o₁, grown) = wrote-IsOutgoing xs m o (omega arith) in
              let (o₂, same) = terminated-IsOutgoing chars m h o.valid o₁ in
              (
                terminated (wrote xs m),
                add_c_string-Fits chars m o.valid h short,
                o₂,
                rw good (same ∙ grown),
              )
          | inr bad ↦
              let why : (8192 < length chars) ⊎ Full (length chars + 2) m =
                ground (arith, o.in_step, o.below, size, k) in
              refused-Applies (text value) m o bad (add_c_string-Full chars m why)
        ]

-- One addition to an outgoing message does to its body what the specification says: the bytes, of a
-- text those in front of its first zero byte, are appended whole if the message has room and they are
-- not too many, and else nothing changes. The message stays in step: its length counts the body. The
-- addition has less than 2 GiB.
pub apply-Applies :
    (a : Addition) (m : NetworkMessage) → IsOutgoing m → length (encode a) < 2 ^ 31 → Applies a m
unfolding apply
apply-Applies (byte v) m o h = value-Applies m o (byte v) 1 v refl refl (λ m'. refl) (omega arith)
apply-Applies (u16 v) m o h = value-Applies m o (u16 v) 2 v refl refl (λ m'. refl) (omega arith)
apply-Applies (u32 v) m o h = value-Applies m o (u32 v) 4 v refl refl (λ m'. refl) (omega arith)
apply-Applies (bytes xs) m o h = bytes-Applies m o xs h
apply-Applies (text value) m o h =
    text-Applies m o value
      (omega (arith, length-append (to_bytes 2 (length (c_string value))) (c_string value)))

-- a packet: additions in a row
unfoldable pub apply_all : List Addition → Method (Unit {0})
unfolding apply
apply_all [] m = some (tt, m)
apply_all (a ∷ more) m = elim (apply a m) [ none ↦ none | some (_, m') ↦ apply_all more m' ]

abbrev pub append_all : List Addition → List ℕ → List ℕ
append_all [] bs = bs
append_all (a ∷ more) bs = append_all more (append a bs)

abbrev pub Short : List Addition → Type 0
Short [] = Unit {0}
Short (a ∷ more) = (length (encode a) < 2 ^ 31) × Short more

apply_all-Applies :
    (more : List Addition) (m : NetworkMessage)
    → IsOutgoing m
    → Short more
    → (m' : NetworkMessage) × (apply_all more m ≡ some (tt, m'))
      × IsOutgoing m'
      × (body m' ≡ append_all more (body m))
unfolding apply_all
apply_all-Applies [] m o h = (m, refl, o, refl)
apply_all-Applies (a ∷ more) m o h =
    let (m₁, run₁, o₁, b₁) = apply-Applies a m o h.0 in
    let (m₂, run₂, o₂, b₂) = apply_all-Applies more m₁ o₁ h.1 in
    (m₂, rw (run₁, apply_all) run₂, o₂, b₂ ∙ ap (append_all more) b₁)

nil_of_length : (xs : List ℕ) → length xs ≡ 0 → xs ≡ []
nil_of_length [] h = refl
nil_of_length (x ∷ xs) h = absurd (omega arith)

reset-IsOutgoing : (m : NetworkMessage) → IsValid m → IsOutgoing (reset m) × (body (reset m) ≡ [])
unfolding reset
reset-IsOutgoing m v =
    let o : IsOutgoing (reset m) = record { valid = v; in_step = refl; below = omega arith } in
    (o, nil_of_length _ (length-body (reset m) o))

-- From Reset on, any packet of additions leaves the message with the length and the bytes that the
-- list specification gives from the empty list. No addition writes outside of the buffer, which has
-- its size. A text counts up to its first zero byte, and each addition has less than 2 GiB.
pub apply_all-reset :
    (more : List Addition) (m : NetworkMessage)
    → IsValid m
    → Short more
    → (m' : NetworkMessage) × (apply_all more (reset m) ≡ some (tt, m'))
      × (body m' ≡ append_all more [])
      × (m'.msg_size ≡ length (append_all more []))
apply_all-reset more m v h =
    let (o, none_yet) = reset-IsOutgoing m v in
    let (m', run, o', b) = apply_all-Applies more (reset m) o h in
    let e = b ∙ ap (append_all more) none_yet in (m', run, e, sym (length-body m' o') ∙ ap length e)
