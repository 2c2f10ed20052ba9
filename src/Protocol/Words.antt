-- ===== src/Protocol/Words.antt =====
-- A buffer as words of 32 bits (source/protocol.cpp: the casts to uint32_t*).
use othire.Base.{
  ℕ, zero, suc, ◌+◌, ◌*◌, ◌/◌, ◌%◌, ◌^◌, ◌<◌, ◌≡◌, refl, sym, ap, subst, ◌∙◌, List, [], ◌∷◌, ◌++◌,
  take, drop, length, length-append, length-take, length-drop, take-append, drop-append, arith,
}
use mathlib.Core.Path.{ap₂}
use othire.Base.Bytes.{to_bytes, of_bytes, Bytes, length-to_bytes, of_bytes-to_bytes, of_bytes-lt}
use othire.Protocol.{Key, u32_mod, encrypt}
use othire.Protocol.Inverse.{Blocks, encrypt_rounds-IsPair}
use othire.Protocol.Message.{words, bytes_of}

-- All numbers of the list are words.
abbrev pub Words : List ℕ → Type 0
Words [] = Unit {0}
Words (v ∷ vs) = (v < u32_mod) × Words vs

to_bytes-of_bytes : (bs : List ℕ) → Bytes bs → to_bytes (length bs) (of_bytes bs) ≡ bs
unfolding to_bytes of_bytes
to_bytes-of_bytes [] h = refl
to_bytes-of_bytes (b ∷ bs) (hb, hs) =
    let e1 : (b + 256 * of_bytes bs) % 256 ≡ b = omega (arith, hb) in
    let e2 : (b + 256 * of_bytes bs) / 256 ≡ of_bytes bs = omega (arith, hb) in
    rw (e1, e2) (ap (λ xs. b ∷ xs) (to_bytes-of_bytes bs hs))

pub length-bytes_of : (vs : List ℕ) → length (bytes_of vs) ≡ 4 * length vs
unfolding bytes_of
length-bytes_of [] = refl
length-bytes_of (v ∷ vs) =
    omega
      (arith, length-append (to_bytes 4 v) (bytes_of vs), length-to_bytes 4 v, length-bytes_of vs)

-- Words that were stored are read back.
pub words-bytes_of : (vs : List ℕ) → Words vs → words (length vs) (bytes_of vs) ≡ vs
unfolding words bytes_of
words-bytes_of [] h = refl
words-bytes_of (v ∷ vs) (h, hs) =
    let bs = to_bytes 4 v in
    let front : take 4 (bs ++ bytes_of vs) ≡ bs =
      ap (λ n. take n (bs ++ bytes_of vs)) (sym (length-to_bytes 4 v))
      ∙ take-append bs (bytes_of vs) in
    let back : drop 4 (bs ++ bytes_of vs) ≡ bytes_of vs =
      ap (λ n. drop n (bs ++ bytes_of vs)) (sym (length-to_bytes 4 v))
      ∙ drop-append bs (bytes_of vs) in
    rw (front, back) (ap₂ (λ w ws. w ∷ ws) (of_bytes-to_bytes 4 v h) (words-bytes_of vs hs))

pub take-drop {ℓ} : {A : Type ℓ} (n : ℕ) (xs : List A) → take n xs ++ drop n xs ≡ xs
take-drop zero xs = refl
take-drop (suc n) [] = refl
take-drop (suc n) (x ∷ xs) = ap (λ ys. x ∷ ys) (take-drop n xs)

pub take-Bytes : (n : ℕ) (bs : List ℕ) → Bytes bs → Bytes (take n bs)
take-Bytes zero bs h = tt
take-Bytes (suc n) [] h = tt
take-Bytes (suc n) (b ∷ bs) (hb, hs) = (hb, take-Bytes n bs hs)

pub drop-Bytes : (n : ℕ) (bs : List ℕ) → Bytes bs → Bytes (drop n bs)
drop-Bytes zero bs h = h
drop-Bytes (suc n) [] h = tt
drop-Bytes (suc n) (b ∷ bs) (hb, hs) = drop-Bytes n bs hs

-- Bytes that were read as words are stored as they were.
pub bytes_of-words :
    (n : ℕ) (bs : List ℕ) → length bs ≡ 4 * n → Bytes bs → bytes_of (words n bs) ≡ bs
unfolding words bytes_of
bytes_of-words zero [] e h = refl
bytes_of-words zero (b ∷ bs) e h = absurd (omega (arith, e))
bytes_of-words (suc n) bs e h =
    let four : length (take 4 bs) ≡ 4 = omega (arith, length-take 4 bs, e) in
    let rest : length (drop 4 bs) ≡ 4 * n = omega (arith, length-drop 4 bs, e) in
    ap₂ (λ xs ys. xs ++ ys)
      (ap (λ k. to_bytes k (of_bytes (take 4 bs))) (sym four)
        ∙ to_bytes-of_bytes (take 4 bs) (take-Bytes 4 bs h))
      (bytes_of-words n (drop 4 bs) rest (drop-Bytes 4 bs h))
    ∙ take-drop 4 bs

pub words-Words : (n : ℕ) (bs : List ℕ) → length bs ≡ 4 * n → Bytes bs → Words (words n bs)
unfolding words
words-Words zero bs e h = tt
words-Words (suc n) bs e h =
    let four : length (take 4 bs) ≡ 4 = omega (arith, length-take 4 bs, e) in
    let rest : length (drop 4 bs) ≡ 4 * n = omega (arith, length-drop 4 bs, e) in
    let small = of_bytes-lt (take 4 bs) (take-Bytes 4 bs h) in
    (
      subst (λ m. of_bytes (take 4 bs) < 256 ^ m) four small,
      words-Words n (drop 4 bs) rest (drop-Bytes 4 bs h),
    )

pub length-words : (n : ℕ) (bs : List ℕ) → length (words n bs) ≡ n
unfolding words
length-words zero bs = refl
length-words (suc n) bs = ap suc (length-words n (drop 4 bs))

-- An even number of words are blocks.
pub Words-Blocks : (n : ℕ) (vs : List ℕ) → length vs ≡ 2 * n → Words vs → Blocks vs
Words-Blocks n [] e h = tt
Words-Blocks n (v ∷ []) e h = absurd (omega (arith, e))
Words-Blocks zero (v ∷ w ∷ vs) e h = absurd (omega (arith, e))
Words-Blocks (suc n) (v ∷ w ∷ vs) e (hv, (hw, hs)) =
    (hv, hw, Words-Blocks n vs (omega (arith, e)) hs)

module _ (k : Key) where
  pub length-encrypt : (vs : List ℕ) → length (encrypt k vs) ≡ length vs
  unfolding encrypt
  length-encrypt [] = refl
  length-encrypt (v ∷ []) = refl
  length-encrypt (v ∷ w ∷ vs) = ap (λ n. suc (suc n)) (length-encrypt vs)

  pub encrypt-Words : (vs : List ℕ) → Words vs → Words (encrypt k vs)
  unfolding encrypt
  encrypt-Words [] h = h
  encrypt-Words (v ∷ []) h = h
  encrypt-Words (v ∷ w ∷ vs) (hv, (hw, hs)) =
      let pair = encrypt_rounds-IsPair k 32 0 (v, w) (hv, hw) in
      (pair.0, (pair.1, encrypt-Words vs hs))
