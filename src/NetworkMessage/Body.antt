-- ===== src/NetworkMessage/Body.antt =====
-- The bytes of an outgoing message, and the list specification of the additions.
use othire.Base.{
  ℕ, zero, suc, ◌+◌, ◌<◌, ◌≤◌, ◌≡◌, refl, ap, ◌∙◌, List, [], ◌∷◌, ◌++◌, length, length-take,
  length-drop, take, drop, Bool, true, ◌&&◌, ltb, leb, if◌then◌else◌, arith,
}
use othire.Base.Bytes.{to_bytes}
use othire.NetworkMessage.{NetworkMessage, Method, max_body_length}
use othire.NetworkMessage.Add.{add_value, add_bytes, add_string, c_string}
use othire.NetworkMessage.Memory.{take-splice, take-splice_past, wrote}
use othire.NetworkMessage.Effect.{IsValid, Fits, wrote-IsValid, terminated}
use othire.NetworkMessage.Safety.{terminated-IsValid}

-- the additions that write what they are given, a text up to its first zero byte, or nothing
pub data Addition : Type 0 where
  byte u16 u32 : ℕ → Addition
  bytes text : List ℕ → Addition

unfoldable pub apply : Addition → Method (Unit {0})
apply (byte v) = add_value 1 v
apply (u16 v) = add_value 2 v
apply (u32 v) = add_value 4 v
apply (bytes xs) = add_bytes xs
apply (text value) = add_string value

abbrev pub encode : Addition → List ℕ
encode (byte v) = to_bytes 1 v
encode (u16 v) = to_bytes 2 v
encode (u32 v) = to_bytes 4 v
encode (bytes xs) = xs
encode (text value) = to_bytes 2 (length (c_string value)) ++ c_string value

-- what no single addition exceeds
abbrev pub allowed : Addition → Bool
allowed (bytes xs) = leb (length xs) 8192
allowed (text value) = leb (length (c_string value)) 8192
allowed _ = true

-- The specification: four bytes in front of the body are reserved.
abbrev pub append : Addition → List ℕ → List ℕ
append a body =
    if ltb (4 + length body + length (encode a)) max_body_length && allowed a
    then body ++ encode a
    else body

-- what the message holds behind the reserved bytes
abbrev pub body : NetworkMessage → List ℕ
body m = drop 4 (take m.read_pos m.msg_buf)

pub record IsOutgoing (m : NetworkMessage) : Type 0 where
  pub valid : IsValid m
  pub in_step : m.read_pos ≡ m.msg_size + 4
  pub below : m.read_pos < max_body_length

pub length-body : (m : NetworkMessage) → IsOutgoing m → length (body m) ≡ m.msg_size
length-body m o = omega (
  arith,
  o.valid,
  o.in_step,
  o.below,
  length-drop 4 (take m.read_pos m.msg_buf),
  length-take m.read_pos m.msg_buf,
)

drop-append_le : (n : ℕ) (xs ys : List ℕ) → n ≤ length xs → drop n (xs ++ ys) ≡ drop n xs ++ ys
drop-append_le zero xs ys h = refl
drop-append_le (suc n) [] ys h = absurd (omega arith)
drop-append_le (suc n) (x ∷ xs) ys h = drop-append_le n xs ys (omega arith)

pub wrote-IsOutgoing :
    (xs : List ℕ) (m : NetworkMessage)
    → IsOutgoing m
    → Fits (length xs) m
    → IsOutgoing (wrote xs m) × (body (wrote xs m) ≡ body m ++ xs)
wrote-IsOutgoing xs m o h =
    let front = take-splice_past m.read_pos xs m.msg_buf (omega (arith, o.valid)) in
    let long : 4 ≤ length (take m.read_pos m.msg_buf) =
      omega (arith, o.valid, o.in_step, length-take m.read_pos m.msg_buf) in
    (
      record {
        valid = wrote-IsValid xs m o.valid h;
        in_step = omega (arith, o.in_step);
        below = h;
      },
      ap (drop 4) front ∙ drop-append_le 4 (take m.read_pos m.msg_buf) xs long,
    )

pub terminated-IsOutgoing :
    (value : List ℕ) (m : NetworkMessage)
    → let w = wrote (to_bytes 2 (length value) ++ value) m in
      Fits (length value + 2) m
      → IsValid m
      → IsOutgoing w
      → IsOutgoing (terminated w) × (body (terminated w) ≡ body w)
terminated-IsOutgoing value m h v o =
    let w = wrote (to_bytes 2 (length value) ++ value) m in
    (
      record { valid = terminated-IsValid value m v h; in_step = o.in_step; below = o.below },
      ap (drop 4) (take-splice w.read_pos (0 ∷ []) w.msg_buf (omega (arith, o.valid, o.below))),
    )
