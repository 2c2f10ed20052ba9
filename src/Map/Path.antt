-- ===== src/Map/Path.antt =====
-- Which coordinates lead to one leaf (source/map.cpp, getLeaf).
use othire.Base.{
  ℕ, zero, suc, ◌+◌, ◌-◌, ◌*◌, ◌/◌, ◌%◌, ◌^◌, ◌<◌, ◌≡◌, refl, Bool, true, ◌&&◌, ◌==◌, arith,
}
use othire.Map.{index, double}

-- The first n steps from the root are to the same children.
abbrev pub same_path : ℕ → (x y x' y' : ℕ) → Bool
same_path zero x y x' y' = true
same_path (suc n) x y x' y' =
    (index x y == index x' y') && same_path n (double x) (double y) (double x') (double y')

abbrev distance : ℕ → ℕ → ℕ
distance a b = (a - b) + (b - a)

-- n doublings
abbrev scaled : ℕ → ℕ → ℕ
scaled zero d = d
scaled (suc n) d = scaled n (2 * d)

low : ℕ → ℕ
low x = x % 2 ^ 16

index-bits :
    (x y x' y' : ℕ)
    → index x y ≡ index x' y'
    → (x / 2 ^ 15 % 2 ≡ x' / 2 ^ 15 % 2) × (y / 2 ^ 15 % 2 ≡ y' / 2 ^ 15 % 2)
unfolding index
index-bits x y x' y' h = (omega (arith, h), omega (arith, h))

distance-double :
    (x x' : ℕ)
    → x / 2 ^ 15 % 2 ≡ x' / 2 ^ 15 % 2
    → distance (low (double x)) (low (double x')) ≡ 2 * distance (low x) (low x')
unfolding low
distance-double x x' h = omega (arith, h)

near : (x x' : ℕ) → distance (low x) (low x') < 2 ^ 16
unfolding low
near x x' = omega arith

-- Coordinates that share a path are close: the path fixes their upper bits.
same_path-close :
    (n : ℕ) (x y x' y' : ℕ)
    → same_path n x y x' y' ≡ true
    → (scaled n (distance (low x) (low x')) < 2 ^ 16)
      × (scaled n (distance (low y) (low y')) < 2 ^ 16)
same_path-close zero x y x' y' h = (near x x', near y y')
same_path-close (suc n) x y x' y' h =
    let e : index x y ≡ index x' y' = ground (arith, h) in
    let p : same_path n (double x) (double y) (double x') (double y') ≡ true = ground (arith, h) in
    let (bx, by) = index-bits x y x' y' e in
    let (cx, cy) = same_path-close n (double x) (double y) (double x') (double y') p in
    rw⁻¹ (distance-double x x' bx, distance-double y y' by) (cx, cy)

-- Two tiles in one place of one leaf are at one coordinate.
pub same_path-eq :
    (x y x' y' : ℕ)
    → x < 2 ^ 16
    → y < 2 ^ 16
    → x' < 2 ^ 16
    → y' < 2 ^ 16
    → same_path 13 x y x' y' ≡ true
    → x % 8 ≡ x' % 8
    → y % 8 ≡ y' % 8
    → (x ≡ x') × (y ≡ y')
unfolding low
same_path-eq x y x' y' hx hy hx' hy' h ex ey =
    let (cx, cy) = same_path-close 13 x y x' y' h in (omega (arith, cx, ex), omega (arith, cy, ey))

pub same_path_refl : (n x y : ℕ) → same_path n x y x y ≡ true
same_path_refl zero x y = refl
same_path_refl (suc n) x y = ground (arith, same_path_refl n (double x) (double y))
