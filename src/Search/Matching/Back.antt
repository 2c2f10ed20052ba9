-- ===== src/Search/Matching/Back.antt =====
-- The way back along the parents (source/map.cpp, the second loop of getPathMatching).
use othire.Base.{
  some_injective, ℕ, zero, suc, ◌<◌, ◌≤◌, ◌≡◌, refl, subst, List, ◌∷◌, Option, none, some, arith,
}
use mathlib.Core.Path.{ap₂}
use othire.Search.{
  AStarNode, Terrain, Direction, step, north, east, south, west, southwest, southeast, northwest,
  northeast,
}
use othire.Search.Invariant.{AreGood, HasParent}
use othire.Search.Trace.{Walks}
use othire.Search.Matching.{by_f, direction_to, trace_back}

-- The direction that is pushed for a step is the step's.
direction_to-step :
    (d : Direction) (p q : ℕ × ℕ) → step d p ≡ some q → direction_to q.0 q.1 p.0 p.1 ≡ some d
direction_to-step north (x, zero) q h = cc
direction_to-step north (x, suc y) q h =
    subst (λ (r : ℕ × ℕ). direction_to r.0 r.1 x (suc y) ≡ some north) (some_injective h)
      (ground arith)
direction_to-step east (x, y) q h =
    subst (λ (r : ℕ × ℕ). direction_to r.0 r.1 x y ≡ some east) (some_injective h) (ground arith)
direction_to-step south (x, y) q h =
    subst (λ (r : ℕ × ℕ). direction_to r.0 r.1 x y ≡ some south) (some_injective h) (ground arith)
direction_to-step west (zero, y) q h = cc
direction_to-step west (suc x, y) q h =
    subst (λ (r : ℕ × ℕ). direction_to r.0 r.1 (suc x) y ≡ some west) (some_injective h)
      (ground arith)
direction_to-step southwest (zero, y) q h = cc
direction_to-step southwest (suc x, y) q h =
    subst (λ (r : ℕ × ℕ). direction_to r.0 r.1 (suc x) y ≡ some southwest) (some_injective h)
      (ground arith)
direction_to-step southeast (x, y) q h =
    subst (λ (r : ℕ × ℕ). direction_to r.0 r.1 x y ≡ some southeast) (some_injective h)
      (ground arith)
direction_to-step northwest (zero, y) q h = cc
direction_to-step northwest (suc x, zero) q h = cc
direction_to-step northwest (suc x, suc y) q h =
    subst (λ (r : ℕ × ℕ). direction_to r.0 r.1 (suc x) (suc y) ≡ some northwest) (some_injective h)
      (ground arith)
direction_to-step northeast (x, zero) q h = cc
direction_to-step northeast (x, suc y) q h =
    subst (λ (r : ℕ × ℕ). direction_to r.0 r.1 x (suc y) ≡ some northeast) (some_injective h)
      (ground arith)

-- If the directions so far lead on from a node, then the loop ends with directions from the start.
pub trace_back-Walks :
    (t : Terrain) (xs ys fuel : ℕ) (nodes : List AStarNode) (n : AStarNode) (p : Option ℕ)
    (ds : List Direction) (q : ℕ × ℕ)
    → AreGood t by_f xs ys nodes
    → HasParent t by_f xs ys nodes n p
    → n.f ≤ fuel
    → Walks t (n.x, n.y) ds q
    → (all : List Direction) × (trace_back fuel nodes n.x n.y p ds ≡ some all)
      × Walks t (xs, ys) all q
unfolding trace_back
trace_back-Walks t xs ys zero nodes n none ds q good h le w =
    (ds, refl, subst (λ r. Walks t r ds q) (ap₂ (λ a b. (a, b)) h.0 h.1) w)
trace_back-Walks t xs ys (suc fuel) nodes n none ds q good h le w =
    (ds, refl, subst (λ r. Walks t r ds q) (ap₂ (λ a b. (a, b)) h.0 h.1) w)
trace_back-Walks t xs ys zero nodes n (some i) ds q good (m, e, lt, c, (d, s)) le w =
    let no : m.f < 0 = omega (arith, lt, le) in ground (arith, no)
trace_back-Walks t xs ys (suc fuel) nodes n (some i) ds q good (m, e, lt, c, (d, s)) le w =
    let b = direction_to-step d (m.x, m.y) (n.x, n.y) s in
    let (all, k, walks) =
      trace_back-Walks t xs ys fuel nodes m m.parent (d ∷ ds) q good (good i m e).reached_from
        (omega (arith, lt, le)) ((n.x, n.y), s, c, w) in
    (all, rw (trace_back, e, b) k, walks)
