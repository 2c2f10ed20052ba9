-- ===== src/Base/Bytes.antt =====
-- Integers in memory on a little-endian machine: `*(T*)p` for an unsigned T of n bytes, and `memcpy`
-- of such a value. (`__SWAP_ENDIAN__` is the other build.)
use Prim.Native.Nat.{ℕ, zero, suc, ◌+◌, ◌*◌, ◌/◌, ◌%◌, ◌^◌, ◌<◌}
use mathlib.Core.Path.{◌≡◌, refl, ap}
use mathlib.Core.List.{List, [], ◌∷◌}
use native.Mathlib.Omega.{arith}
use native.Mathlib.Nat.{pow-suc}
use othire.Base.Lists.{length}

-- The n bytes of v, the least first; the bits above them are dropped.
unfoldable pub to_bytes : ℕ → ℕ → List ℕ
to_bytes zero v = []
to_bytes (suc n) v = (v % 256) ∷ to_bytes n (v / 256)

unfoldable pub of_bytes : List ℕ → ℕ
of_bytes [] = 0
of_bytes (b ∷ bs) = b + 256 * of_bytes bs

pub length-to_bytes : (n v : ℕ) → length (to_bytes n v) ≡ n
unfolding to_bytes
length-to_bytes zero v = refl
length-to_bytes (suc n) v = ap suc (length-to_bytes n (v / 256))

pub of_bytes-to_bytes : (n v : ℕ) → v < 256 ^ n → of_bytes (to_bytes n v) ≡ v
unfolding of_bytes to_bytes
of_bytes-to_bytes zero v h = omega arith
of_bytes-to_bytes (suc n) v h =
    let small : v / 256 < 256 ^ n = omega (arith, pow-suc 256 n) in
    omega (arith, of_bytes-to_bytes n (v / 256) small)

-- All numbers of the list are bytes.
abbrev pub Bytes : List ℕ → Type 0
Bytes [] = Unit {0}
Bytes (b ∷ bs) = (b < 256) × Bytes bs

pub to_bytes-Bytes : (n v : ℕ) → Bytes (to_bytes n v)
unfolding to_bytes
to_bytes-Bytes zero v = tt
to_bytes-Bytes (suc n) v = (omega arith, to_bytes-Bytes n (v / 256))

pub of_bytes-lt : (bs : List ℕ) → Bytes bs → of_bytes bs < 256 ^ length bs
unfolding of_bytes
of_bytes-lt [] h = omega arith
of_bytes-lt (b ∷ bs) h = omega (arith, of_bytes-lt bs h.1, pow-suc 256 (length bs))
