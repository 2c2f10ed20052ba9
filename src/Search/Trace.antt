-- ===== src/Search/Trace.antt =====
-- The way that the parents of the nodes lead along (source/map.cpp, the second loop of getPathTo).
use othire.Base.{
  some_injective, ◌∙◌, ℕ, zero, suc, ◌<◌, ◌≤◌, ◌≡◌, refl, subst, List, [], ◌∷◌, true, Option, none,
  some, get_elem?, arith,
}
use mathlib.Core.Path.{ap₂}
use othire.Search.{
  by_g, AStarNode, Terrain, Direction, step, north, east, south, west, southwest, southeast,
  northwest, northeast,
}
use othire.Search.Way.{direction_of, trace, trace_fuel}
use othire.Search.Invariant.{AreGood, HasParent}

-- The directions lead from a position to another, over tiles that can be walked.
abbrev pub Walks : Terrain → ℕ × ℕ → List Direction → ℕ × ℕ → Type 0
Walks t p [] q = p ≡ q
Walks t p (d ∷ ds) q =
    (r : ℕ × ℕ) × (step d p ≡ some r) × (t.can_walk r.0 r.1 ≡ true) × Walks t r ds q

abbrev opposite : Direction → Direction
opposite north = south
opposite east = west
opposite south = north
opposite west = east
opposite southwest = northeast
opposite southeast = northwest
opposite northwest = southeast
opposite northeast = southwest

abbrev LeadsBack : Direction → ℕ × ℕ → ℕ × ℕ → Type 0
LeadsBack d p q = (direction_of q.0 q.1 p.0 p.1 ≡ some d) × (step d q ≡ some p)

-- Where a step came from, the direction that is pushed leads back.
direction_of-opposite :
    (d : Direction) (p q : ℕ × ℕ) → step d p ≡ some q → LeadsBack (opposite d) p q
direction_of-opposite north (x, zero) q h = cc
direction_of-opposite north (x, suc y) q h =
    subst (LeadsBack south (x, suc y)) (some_injective h) (ground arith, refl)
direction_of-opposite east (x, y) q h =
    subst (LeadsBack west (x, y)) (some_injective h) (ground arith, refl)
direction_of-opposite south (x, y) q h =
    subst (LeadsBack north (x, y)) (some_injective h) (ground arith, refl)
direction_of-opposite west (zero, y) q h = cc
direction_of-opposite west (suc x, y) q h =
    subst (LeadsBack east (suc x, y)) (some_injective h) (ground arith, refl)
direction_of-opposite southwest (zero, y) q h = cc
direction_of-opposite southwest (suc x, y) q h =
    subst (LeadsBack northeast (suc x, y)) (some_injective h) (ground arith, refl)
direction_of-opposite southeast (x, y) q h =
    subst (LeadsBack northwest (x, y)) (some_injective h) (ground arith, refl)
direction_of-opposite northwest (zero, y) q h = cc
direction_of-opposite northwest (suc x, zero) q h = cc
direction_of-opposite northwest (suc x, suc y) q h =
    subst (LeadsBack southeast (suc x, suc y)) (some_injective h) (ground arith, refl)
direction_of-opposite northeast (x, zero) q h = cc
direction_of-opposite northeast (x, suc y) q h =
    subst (LeadsBack southwest (x, suc y)) (some_injective h) (ground arith, refl)

HasParent-can_walk :
    (t : Terrain) (xs ys : ℕ) (nodes : List AStarNode) (n : AStarNode) (p : Option ℕ)
    → t.can_walk xs ys ≡ true
    → HasParent t by_g xs ys nodes n p
    → t.can_walk n.x n.y ≡ true
HasParent-can_walk t xs ys nodes n none ws (px, py) = ap₂ t.can_walk px py ∙ ws
HasParent-can_walk t xs ys nodes n (some p) ws (m, e, lt, w, (d, s)) = w

-- From a node on, the directions along the parents lead from its position to the start.
abbrev Traced : Terrain → (xs ys fuel : ℕ) → List AStarNode → AStarNode → Option ℕ → Type 0
Traced t xs ys fuel nodes n p =
    (ds : List Direction) × (trace fuel nodes n.x n.y p ≡ some ds) × Walks t (n.x, n.y) ds (xs, ys)

trace-parent :
    (t : Terrain) (xs ys fuel : ℕ) (nodes : List AStarNode) (n : AStarNode) (p : Option ℕ)
    → t.can_walk xs ys ≡ true
    → AreGood t by_g xs ys nodes
    → HasParent t by_g xs ys nodes n p
    → n.g ≤ fuel
    → Traced t xs ys fuel nodes n p
unfolding trace
trace-parent t xs ys zero nodes n none ws all h le = ([], refl, ap₂ (λ a b. (a, b)) h.0 h.1)
trace-parent t xs ys (suc fuel) nodes n none ws all h le = ([], refl, ap₂ (λ a b. (a, b)) h.0 h.1)
trace-parent t xs ys zero nodes n (some p) ws all (m, e, lt, wn, (d, s)) le =
    let no : m.g < 0 = omega (arith, lt, le) in ground (arith, no)
trace-parent t xs ys (suc fuel) nodes n (some p) ws all (m, e, lt, wn, (d, s)) le =
    let good = all p m e in
    let (ds, k, w) =
      trace-parent t xs ys fuel nodes m m.parent ws all good.reached_from (omega (arith, lt, le)) in
    let (b, back) = direction_of-opposite d (m.x, m.y) (n.x, n.y) s in
    (
      opposite d ∷ ds,
      rw (trace, e, k, b) refl,
      ((m.x, m.y), back, HasParent-can_walk t xs ys nodes m m.parent ws good.reached_from, w),
    )

-- The directions from a node at the position on, the first of which is none.
pub trace-Walks :
    (t : Terrain) (xs ys : ℕ) (nodes : List AStarNode) (i : ℕ) (n : AStarNode)
    → t.can_walk xs ys ≡ true
    → AreGood t by_g xs ys nodes
    → get_elem? nodes i ≡ some n
    → (ds : List Direction) × (trace (trace_fuel nodes i) nodes n.x n.y (some i) ≡ some ds)
      × Walks t (n.x, n.y) ds (xs, ys)
unfolding trace
trace-Walks t xs ys nodes i n ws all e =
    let (ds, k, w) =
      trace-parent t xs ys n.g nodes n n.parent ws all (all i n e).reached_from (omega arith) in
    let b : direction_of n.x n.y n.x n.y ≡ none = ground arith in
    (ds, rw (trace_fuel, e) (rw (trace, e, k, b) refl), w)
