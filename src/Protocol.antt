-- ===== src/Protocol.antt =====
-- The encryption of messages (source/protocol.cpp: XTEA_encrypt, XTEA_decrypt).
-- The message is taken as the list of 32-bit words that the code reads it as.
pub mod Inverse
pub mod Message
pub mod Words
pub mod Codec
pub mod Wire
pub mod Transmit
pub mod Received
mod Tests
use Prim.Native.Nat.{bit_xor}
use othire.Base.{ℕ, zero, suc, ◌+◌, ◌-◌, ◌*◌, ◌/◌, ◌%◌, ◌^◌, List, [], ◌∷◌, if◌then◌else◌, ◌==◌}

abbrev pub u32_mod : ℕ
u32_mod = 2 ^ 32

abbrev pub delta : ℕ
delta = 0x61c88647

-- uint32_t sums and differences
unfoldable pub add32 : ℕ → ℕ → ℕ
add32 a b = (a + b) % u32_mod

unfoldable pub sub32 : ℕ → ℕ → ℕ
sub32 a b = (a + (u32_mod - b % u32_mod)) % u32_mod

-- m_key
pub record Key : Type 0 where
  pub k0 : ℕ
  pub k1 : ℕ
  pub k2 : ℕ
  pub k3 : ℕ

-- k[i] for i < 4
unfoldable pub key_word : Key → ℕ → ℕ
key_word k i = if i == 0 then k.k0 else if i == 1 then k.k1 else if i == 2 then k.k2 else k.k3

-- (v << 4 ^ v >> 5) + v
unfoldable pub mix : ℕ → ℕ
unfolding add32
mix v = add32 (bit_xor (v * 2 ^ 4 % u32_mod) (v / 2 ^ 5)) v

-- ((v << 4 ^ v >> 5) + v) ^ (sum + k[sum & 3])
unfoldable pub mask0 : Key → ℕ → ℕ → ℕ
unfolding mix key_word
mask0 k sum v = bit_xor (mix v) (add32 sum (key_word k (sum % 4)))

-- ((v << 4 ^ v >> 5) + v) ^ (sum + k[sum>>11 & 3])
unfoldable pub mask1 : Key → ℕ → ℕ → ℕ
unfolding mix key_word
mask1 k sum v = bit_xor (mix v) (add32 sum (key_word k (sum / 2 ^ 11 % 4)))

module _ (k : Key) where
  -- One round of the inner loop of XTEA_encrypt: v0, `sum`, then v1.
  unfoldable pub encrypt_round : ℕ → ℕ × ℕ → ℕ × ℕ
  encrypt_round sum (v0, v1) =
      let w0 = add32 v0 (mask0 k sum v1) in
      let w1 = add32 v1 (mask1 k (sub32 sum delta) w0) in (w0, w1)

  -- n rounds from the value of `sum` at the first
  unfoldable pub encrypt_rounds : ℕ → ℕ → ℕ × ℕ → ℕ × ℕ
  encrypt_rounds zero sum v = v
  encrypt_rounds (suc n) sum v = encrypt_rounds n (sub32 sum delta) (encrypt_round sum v)

  -- One round of the inner loop of XTEA_decrypt: v1, `sum`, then v0.
  unfoldable pub decrypt_round : ℕ → ℕ × ℕ → ℕ × ℕ
  decrypt_round sum (v0, v1) =
      let w1 = sub32 v1 (mask1 k sum v0) in
      let w0 = sub32 v0 (mask0 k (add32 sum delta) w1) in (w0, w1)

  unfoldable pub decrypt_rounds : ℕ → ℕ → ℕ × ℕ → ℕ × ℕ
  decrypt_rounds zero sum v = v
  decrypt_rounds (suc n) sum v = decrypt_rounds n (add32 sum delta) (decrypt_round sum v)

  -- The outer loop takes two words at a time. (The code's buffer has an even number of words.)
  unfoldable pub encrypt : List ℕ → List ℕ
  encrypt [] = []
  encrypt (v0 ∷ []) = v0 ∷ []
  encrypt (v0 ∷ v1 ∷ rest) = let (w0, w1) = encrypt_rounds 32 0 (v0, v1) in w0 ∷ w1 ∷ encrypt rest

  unfoldable pub decrypt : List ℕ → List ℕ
  decrypt [] = []
  decrypt (v0 ∷ []) = v0 ∷ []
  decrypt (v0 ∷ v1 ∷ rest) =
      let (w0, w1) = decrypt_rounds 32 0xc6ef3720 (v0, v1) in w0 ∷ w1 ∷ decrypt rest
