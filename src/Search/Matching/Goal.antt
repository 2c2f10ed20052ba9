-- ===== src/Search/Matching/Goal.antt =====
-- The places that a match is made at (source/creature.cpp, FrozenPathingConditionCall).
use othire.Base.{
  ℕ, ◌≤◌, ◌≡◌, refl, sym, ap, ◌∙◌, Bool, true, false, not, ◌&&◌, arith, inl, inr, Bool-cases,
}
use othire.Search.{Terrain}
use othire.Search.Matching.{FindPathParams, is_in_range, test_dist, at_distance, condition}

at_distance-near :
    (fpp : FindPathParams) (d best_match : ℕ)
    → (at_distance fpp d best_match).0 ≡ true
    → (fpp.min_target_dist ≤ d) × (d ≤ fpp.max_target_dist)
at_distance-near fpp d best_match h = (ground (arith, h), ground (arith, h))

module _ (t : Terrain) (fpp : FindPathParams) (is_clear : ℕ → ℕ → Bool) (xs ys xt yt : ℕ) where
  -- A place in range of the target, at a distance from the least to the greatest one allowed, and in
  -- sight of the target if it has to be.
  pub record IsGoal (x y : ℕ) : Type 0 where
    pub in_range : is_in_range t fpp is_clear xs ys xt yt x y ≡ true
    pub in_sight : (fpp.clear_sight && not (is_clear x y)) ≡ false
    pub least : fpp.min_target_dist ≤ test_dist t fpp is_clear xs ys xt yt x y
    pub greatest : test_dist t fpp is_clear xs ys xt yt x y ≤ fpp.max_target_dist

  -- A match is made at such a place only.
  pub condition-IsGoal :
      (x y best_match : ℕ)
      → (condition t fpp is_clear xs ys xt yt x y best_match).0 ≡ true
      → IsGoal x y
  unfolding condition
  condition-IsGoal x y best_match h =
      let r = condition t fpp is_clear xs ys xt yt x y best_match in
      elim (Bool-cases (is_in_range t fpp is_clear xs ys xt yt x y)) [
        | inr a ↦ let k : r.0 ≡ false = rw (condition, a) refl in let q = sym k ∙ h in cc
        | inl a ↦ elim (Bool-cases (fpp.clear_sight && not (is_clear x y))) [
          | inl b ↦ let k : r.0 ≡ false = rw (condition, a, b) refl in let q = sym k ∙ h in cc
          | inr b ↦
              let d = test_dist t fpp is_clear xs ys xt yt x y in
              let k : r ≡ at_distance fpp d best_match = rw (condition, a, b) refl in
              let (l, g) =
                at_distance-near fpp d best_match (ap (λ (o : Bool × ℕ). o.0) (sym k) ∙ h) in
              record { in_range = a; in_sight = b; least = l; greatest = g }
        ]
      ]
