-- ===== src/Protocol/Inverse.antt =====
-- Decryption undoes encryption.
use othire.Base.{ℕ, zero, suc, ◌<◌, ◌≡◌, refl, sym, ap, ◌∙◌, List, [], ◌∷◌, arith}
use mathlib.Core.Path.{ap₂}
use othire.Protocol.{
  Key, u32_mod, delta, add32, sub32, mask0, mask1, encrypt_round, decrypt_round, encrypt_rounds,
  decrypt_rounds, encrypt, decrypt,
}

abbrev IsWord : ℕ → Type 0
IsWord v = v < u32_mod

abbrev IsPair : ℕ × ℕ → Type 0
IsPair v = IsWord v.0 × IsWord v.1

sub32-add32 : (v x : ℕ) → IsWord v → sub32 (add32 v x) x ≡ v
unfolding add32 sub32
sub32-add32 v x h = omega arith

add32-sub32 : (v x : ℕ) → IsWord v → add32 (sub32 v x) x ≡ v
unfolding add32 sub32
add32-sub32 v x h = omega arith

module _ (k : Key) where
  encrypt_round-IsPair : (sum : ℕ) (v : ℕ × ℕ) → IsPair (encrypt_round k sum v)
  unfolding encrypt_round add32
  encrypt_round-IsPair sum v = (omega arith, omega arith)

  -- A round of decryption, at the value that `sum` has after the round of encryption.
  decrypt-encrypt_round :
      (sum : ℕ) (v : ℕ × ℕ)
      → IsWord sum
      → IsPair v
      → decrypt_round k (sub32 sum delta) (encrypt_round k sum v) ≡ v
  unfolding encrypt_round decrypt_round
  decrypt-encrypt_round sum (v0, v1) s (h0, h1) =
      let w0 = add32 v0 (mask0 k sum v1) in
      let w1 = add32 v1 (mask1 k (sub32 sum delta) w0) in
      let e1 : sub32 w1 (mask1 k (sub32 sum delta) w0) ≡ v1 = sub32-add32 v1 _ h1 in
      rw (e1, add32-sub32 sum delta s, sub32-add32 v0 (mask0 k sum v1) h0)

  -- `sum` after n rounds of encryption
  sum_after : ℕ → ℕ → ℕ
  sum_after zero sum = sum
  sum_after (suc n) sum = sum_after n (sub32 sum delta)

  sub32-IsWord : (a b : ℕ) → IsWord (sub32 a b)
  unfolding sub32
  sub32-IsWord a b = omega arith

  sum_after-IsWord : (n sum : ℕ) → IsWord sum → IsWord (sum_after n sum)
  unfolding sum_after
  sum_after-IsWord zero sum h = h
  sum_after-IsWord (suc n) sum h = sum_after-IsWord n _ (sub32-IsWord sum delta)

  -- The last round, split off at the end.
  sum_after-suc : (n sum : ℕ) → sum_after (suc n) sum ≡ sub32 (sum_after n sum) delta
  unfolding sum_after
  sum_after-suc zero sum = refl
  sum_after-suc (suc n) sum = sum_after-suc n (sub32 sum delta)

  encrypt_rounds-suc :
      (n sum : ℕ) (v : ℕ × ℕ)
      → encrypt_rounds k (suc n) sum v
        ≡ encrypt_round k (sum_after n sum) (encrypt_rounds k n sum v)
  unfolding encrypt_rounds sum_after
  encrypt_rounds-suc zero sum v = refl
  encrypt_rounds-suc (suc n) sum v = encrypt_rounds-suc n (sub32 sum delta) (encrypt_round k sum v)

  pub encrypt_rounds-IsPair : (n sum : ℕ) (v : ℕ × ℕ) → IsPair v → IsPair (encrypt_rounds k n sum v)
  unfolding encrypt_rounds
  encrypt_rounds-IsPair zero sum v h = h
  encrypt_rounds-IsPair (suc n) sum v h = encrypt_rounds-IsPair n _ _ (encrypt_round-IsPair sum v)

  decrypt_rounds-suc :
      (n sum : ℕ) (v : ℕ × ℕ)
      → decrypt_rounds k (suc n) sum v
        ≡ decrypt_rounds k n (add32 sum delta) (decrypt_round k sum v)
  unfolding decrypt_rounds
  decrypt_rounds-suc n sum v = refl

  -- Decryption runs the rounds backwards.
  decrypt-encrypt_rounds :
      (n sum : ℕ) (v : ℕ × ℕ)
      → IsWord sum
      → IsPair v
      → decrypt_rounds k n (sum_after n sum) (encrypt_rounds k n sum v) ≡ v
  decrypt-encrypt_rounds zero sum v s h = unfold decrypt_rounds encrypt_rounds in refl
  decrypt-encrypt_rounds (suc n) sum v s h =
      let u = sum_after n sum in
      let w = encrypt_rounds k n sum v in
      let su = sum_after-IsWord n sum s in
      let round = decrypt-encrypt_round u w su (encrypt_rounds-IsPair n sum v h) in
      rw (sum_after-suc n sum, encrypt_rounds-suc n sum v)
        (decrypt_rounds-suc n (sub32 u delta) (encrypt_round k u w)
          ∙ ap₂ (decrypt_rounds k n) (add32-sub32 u delta su) round
          ∙ decrypt-encrypt_rounds n sum v s h)

  -- The sum that XTEA_decrypt starts from is the one at which XTEA_encrypt ends.
  sum_after_all : sum_after 32 0 ≡ 0xc6ef3720
  unfolding sum_after sub32
  sum_after_all = refl

-- All words are of 32 bits, and there is an even number of them.
abbrev pub Blocks : List ℕ → Type 0
Blocks [] = Unit {0}
Blocks (v0 ∷ []) = ⊥
Blocks (v0 ∷ v1 ∷ rest) = (v0 < u32_mod) × (v1 < u32_mod) × Blocks rest

-- XTEA_decrypt gives back every even number of 32-bit words that XTEA_encrypt encrypts under the
-- same key.
pub decrypt-encrypt :
    (k : Key) (words : List ℕ) → Blocks words → decrypt k (encrypt k words) ≡ words
unfolding encrypt decrypt
decrypt-encrypt k [] h = refl
decrypt-encrypt k (v0 ∷ []) h = refl
decrypt-encrypt k (v0 ∷ v1 ∷ rest) (h0, h1, hs) =
    let block : decrypt_rounds k 32 0xc6ef3720 (encrypt_rounds k 32 0 (v0, v1)) ≡ (v0, v1) =
      ap (λ s. decrypt_rounds k 32 s (encrypt_rounds k 32 0 (v0, v1))) (sym (sum_after_all k))
      ∙ decrypt-encrypt_rounds k 32 0 (v0, v1) (omega arith) (h0, h1) in
    ap₂ (λ (w : ℕ × ℕ) ws. w.0 ∷ w.1 ∷ ws) block (decrypt-encrypt k rest hs)
