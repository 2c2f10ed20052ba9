-- ===== src/Protocol/Transmit.antt =====
-- Messages arrive as they were sent (source/protocol.cpp, source/outputmessage.h,
-- source/connection.cpp).
use othire.Base.{
  ℕ, zero, suc, ◌+◌, ◌<◌, drop-drop, [], ◌∷◌, ◌≤◌, subst, ◌≡◌, refl, sym, ap, ◌∙◌, List, ◌++◌, take,
  drop, length, length-take, length-drop, some, arith,
}
use othire.Base.Bytes.{Bytes}
use othire.NetworkMessage.{NetworkMessage, max_size}
use othire.NetworkMessage.Body.{IsOutgoing, body}
use othire.NetworkMessage.Effect.{Fits}
use othire.Protocol.{Key}
use othire.Protocol.Message.{padding, transmit}
use othire.Protocol.Words.{take-drop, take-Bytes, drop-Bytes}
use othire.Protocol.Wire.{HasBody, transmit-HasBody}

abbrev behind_header : List ℕ → List ℕ
behind_header buf = drop 2 (drop 2 buf)

-- The parts of the buffer of an outgoing message.
module _ (n k : ℕ) (buf : List ℕ) where
  abbrev rest : List ℕ
  rest = behind_header buf

  parts :
      buf
      ≡ take 2 buf
        ++ (take 2 (drop 2 buf) ++ (take n rest ++ (take k (drop n rest) ++ drop k (drop n rest))))
  parts = sym (
      ap (λ e. take 2 buf ++ (take 2 (drop 2 buf) ++ (take n rest ++ e)))
        (take-drop k (drop n rest))
      ∙ ap (λ e. take 2 buf ++ (take 2 (drop 2 buf) ++ e)) (take-drop n rest)
      ∙ ap (λ e. take 2 buf ++ e) (take-drop 2 (drop 2 buf))
      ∙ take-drop 2 buf)

take_nil {ℓ} : {A : Type ℓ} (n : ℕ) (xs : List A) → xs ≡ [] → xs ≡ take n xs
take_nil zero xs e = e
take_nil (suc n) [] e = refl
take_nil (suc n) (x ∷ xs) e = ground (arith, e)

drop-take {ℓ} : {A : Type ℓ} (n s : ℕ) (xs : List A) → drop n (take (n + s) xs) ≡ take s (drop n xs)
drop-take zero s xs = let e : zero + s ≡ s = omega arith in rw e refl
drop-take (suc n) s [] = let e : suc n + s ≡ suc (n + s) = omega arith in rw e (take_nil s [] refl)
drop-take (suc n) s (x ∷ xs) =
    let e : suc n + s ≡ suc (n + s) = omega arith in rw e (drop-take n s xs)

module _ (m : NetworkMessage) (o : IsOutgoing m) where
  body-behind : take m.msg_size (behind_header m.msg_buf) ≡ body m
  body-behind =
      let e : m.read_pos ≡ 4 + m.msg_size = omega (arith, o.in_step) in
      sym (
        ap (λ n. drop 4 (take n m.msg_buf)) e
        ∙ drop-take 4 m.msg_size m.msg_buf
        ∙ ap (take m.msg_size) (sym (drop-drop 2 2 m.msg_buf)))

-- A message goes through onSendMessage with XTEA_encrypt, the connection of the other side and
-- onRecvMessage with XTEA_decrypt under the same key: if its buffer holds bytes, its position is 4
-- behind its length and the length is 26 bytes below the size of a buffer at least, the other side parses a message that has the same body,
-- and stands in front of it.
pub transmit-body :
    (k : Key) (m r : NetworkMessage) (tail : List ℕ)
    → IsOutgoing m
    → Bytes m.msg_buf
    → m.msg_size + 25 < max_size
    → (m' : NetworkMessage) × ((transmit k (record { message = m; output_buffer_start = 4 }) r tail
          ≡ some m')
        × HasBody (body m) m')
transmit-body k m r tail o bytes short =
    let fits : Fits 8 m = omega (arith, short, o.in_step) in
    let b = m.msg_buf in
    let s = m.msg_size in
    let n = padding (s + 2) in
    let t = drop 2 (drop 2 b) in
    let l2 = length-drop 2 b in
    let l4 = length-drop 2 (drop 2 b) in
    let small : n ≤ 8 = ground arith in
    let v = o.valid in
    let e0 : length (take 2 b) ≡ 2 = omega (arith, v, length-take 2 b) in
    let e2 : length (take 2 (drop 2 b)) ≡ 2 = omega (arith, v, l2, length-take 2 (drop 2 b)) in
    let eb : length (take s t) ≡ s = omega (arith, v, l2, l4, length-take s t, o.in_step, fits) in
    let er : length (take n (drop s t)) ≡ n =
      omega (arith, v, l2, l4, small, length-take n (drop s t), length-drop s t, o.in_step, fits) in
    let hb = take-Bytes s t (drop-Bytes 2 (drop 2 b) (drop-Bytes 2 b bytes)) in
    let (m', (e, h)) =
      transmit-HasBody (take 2 b) (take 2 (drop 2 b)) (take s t) (take n (drop s t))
        (drop n (drop s t)) m e0 e2 eb er o.in_step fits short (parts s n b) k hb r tail in
    (m', (e, subst (λ bs. HasBody bs m') (body-behind m o) h))
