-- ===== src/Experience/Levels.antt =====
-- The levels that experience leads to (source/player.cpp, addExperience and removeExperience).
use othire.Base.{ℕ, zero, suc, ◌+◌, ◌-◌, ◌*◌, ◌/◌, ◌%◌, ◌^◌, ◌<◌, ◌≤◌, ◌≡◌, ap, subst, arith}
use othire.Experience.{get_exp_for_level}

-- No level up to the 100001st overflows.
cube_le : (m : ℕ) → m ≤ 100000 → (m * m ≤ 100000 * m) × (m * m * m ≤ 100000 * (m * m))
cube_le m h = (grind arith, grind arith)

wraps_back :
    (a y z : ℕ) → y ≤ a + z → a + z < 2 ^ 64 → (a + (2 ^ 64 - y % 2 ^ 64) + z) % 2 ^ 64 ≡ a + z - y
wraps_back a y z h k = omega (arith, h, k)

square_le : (m : ℕ) → 150 * m * m ≤ 50 * m * m * m + 400 * m
square_le zero = omega arith
square_le (suc zero) = omega arith
square_le (suc (suc zero)) = omega arith
square_le (suc (suc (suc k))) = grind arith

exp_eq :
    (m : ℕ) → m ≤ 100000 → get_exp_for_level (suc m) ≡ (50 * m * m * m + 400 * m - 150 * m * m) / 3
unfolding get_exp_for_level
exp_eq m h =
    let (p, q) = cube_le m h in
    let e : suc m - 1 ≡ m = omega arith in
    let b : 50 * m * m * m + 400 * m < 2 ^ 64 = grind (arith, p, q, h) in
    rw e (ap (λ n. n / 3) (wraps_back (50 * m * m * m) (150 * m * m) (400 * m) (square_le m) b))

step_le :
    (m : ℕ)
    → 50 * m * m * m + 400 * m - 150 * m * m
      ≤ 50 * suc m * suc m * suc m + 400 * suc m - 150 * suc m * suc m
step_le m = grind arith

-- A level costs at least what the level before it costs.
get_exp_for_level-step :
    (m : ℕ) → m < 100000 → get_exp_for_level (suc m) ≤ get_exp_for_level (suc (suc m))
get_exp_for_level-step m h =
    let a = exp_eq m (omega (arith, h)) in
    let b = exp_eq (suc m) (omega (arith, h)) in let s = step_le m in omega (arith, a, b, s)

get_exp_for_level_mono :
    (n m : ℕ) → m + n ≤ 100000 → get_exp_for_level (suc m) ≤ get_exp_for_level (suc (m + n))
get_exp_for_level_mono zero m h = let e : m + zero ≡ m = omega arith in rw e (omega arith)
get_exp_for_level_mono (suc n) m h =
    let e : m + suc n ≡ suc (m + n) = omega arith in
    let r = get_exp_for_level_mono n m (omega (arith, h)) in
    let s = get_exp_for_level-step (m + n) (omega (arith, h)) in rw e (omega (arith, r, s))

-- Below the experience of a level is below that of a later one.
pub level_le : (a b : ℕ) → 1 ≤ a → a ≤ b → b ≤ 100001 → get_exp_for_level a ≤ get_exp_for_level b
level_le (suc m) b h le top =
    let e : suc (m + (b - suc m)) ≡ b = omega (arith, le) in
    subst (λ c. get_exp_for_level (suc m) ≤ get_exp_for_level c) e
      (get_exp_for_level_mono (b - suc m) m (omega (arith, le, top)))
level_le zero b h le top = ground (arith, h)

pub exp_limit : get_exp_for_level 100001 < 2 ^ 64
unfolding get_exp_for_level
exp_limit = omega arith
