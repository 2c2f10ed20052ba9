-- ===== src/Search/Sound.antt =====
-- That the search for a way ends, and that the way found can be walked (source/map.cpp, getPathTo).
use othire.Base.{
  some_injective, ℕ, zero, suc, ◌<◌, ◌≤◌, ◌≡◌, refl, sym, subst, ◌∙◌, List, [], ◌∷◌, Bool, true,
  false, ◌&&◌, ◌==◌, Option, some, length, get_elem?, arith, ◌⊎◌, inl, inr, Option-cases,
  Bool-cases,
}
use mathlib.Core.Path.{ap₂}
use othire.Search.{
  by_g, AStarNode, Terrain, Direction, get_best_node, close_node, visit_all, neighbour_order,
  Outcome, found, no_way, out_of_fuel, is_at_end, may_go_on, search, max_nodes,
}
use othire.Search.Way.{trace, trace_fuel, start_node, search_fuel, is_some_way, way_of, get_path_to}
use othire.Search.Best.{get_best_node-IsBest}
use othire.Search.Invariant.{AreGood, IsGood, close_node-AreGood}
use othire.Search.Visit.{visit_all-keeps}
use othire.Search.Measure.{measure, IsBelow, Change-IsBelow, close_node-measure}
use othire.Search.Trace.{Walks, trace-Walks}

module _ (t : Terrain) (xs ys x_end y_end : ℕ) (max_search_dist : Option ℕ) where
  -- The search has ended: with a node that stands where the creature does, or without one.
  abbrev Ended : Outcome → Type 0
  Ended (found nodes i) =
      AreGood t by_g xs ys nodes
      × ((n : AStarNode) × (get_elem? nodes i ≡ some n) × (n.x ≡ x_end) × (n.y ≡ y_end))
  Ended no_way = zero ≡ zero
  Ended out_of_fuel = ⊥

  is_at_end-position :
      (nodes : List AStarNode) (i : ℕ) (n : AStarNode)
      → get_elem? nodes i ≡ some n
      → is_at_end t x_end y_end max_search_dist nodes i ≡ true
      → (n.x ≡ x_end) × (n.y ≡ y_end)
  is_at_end-position nodes i n e h =
      let k : is_at_end t x_end y_end max_search_dist nodes i ≡ (n.x == x_end && n.y == y_end) =
        rw (is_at_end, e) refl in
      let q = sym k ∙ h in (ground (arith, q), ground (arith, q))

  -- More rounds than the measure of the nodes are enough.
  search-Ended :
      (fuel : ℕ) (nodes : List AStarNode)
      → AreGood t by_g xs ys nodes
      → length nodes ≤ max_nodes
      → measure by_g nodes < fuel
      → Ended (search t x_end y_end max_search_dist fuel nodes)
  unfolding search
  search-Ended zero nodes all len lt = let no : measure by_g nodes < 0 = lt in ground (arith, no)
  search-Ended (suc fuel) nodes all len lt =
      elim (Bool-cases (may_go_on t x_end y_end max_search_dist nodes)) [
        | inr a ↦ rw (search, a) refl
        | inl a ↦ elim (Option-cases (get_best_node nodes)) [
          | inl b ↦ rw (search, a, b) refl
          | inr (i, b) ↦
              let (n, e, op, low, best) = get_best_node-IsBest nodes i b in
              elim (Bool-cases (is_at_end t x_end y_end max_search_dist nodes i)) [
                | inl c ↦
                    let (px, py) = is_at_end-position nodes i n e c in
                    rw (search, a, b, c) (all, (n, e, px, py))
                | inr c ↦
                    elim (Option-cases
                      (visit_all t x_end y_end max_search_dist i neighbour_order nodes)) [
                        | inl v ↦ rw (search, a, b, c, v) refl
                        | inr (ns, v) ↦
                            let keeps = Change-IsBelow by_g t xs ys (measure by_g nodes) i in
                            let (good, below) =
                              visit_all-keeps t xs ys x_end y_end max_search_dist
                                (IsBelow by_g (measure by_g nodes) i) keeps nodes ns i
                                neighbour_order all (omega arith, len, (n, e, op)) v in
                            let (lower, len') =
                              close_node-measure by_g t xs ys (λ n. refl) (measure by_g nodes) i ns
                                below in
                            let next =
                              search-Ended fuel (close_node i ns)
                                (close_node-AreGood t by_g xs ys (λ n. refl) i ns good) len'
                                (omega (arith, lower, lt)) in
                            rw (search, a, b, c, v) next
                      ]
              ]
        ]
      ]

start-AreGood :
    (t : Terrain) (x y x_end y_end : ℕ)
    → t.can_walk x y ≡ true
    → AreGood t by_g x y (start_node x y x_end y_end ∷ [])
start-AreGood t x y x_end y_end w zero n e =
    let s = start_node x y x_end y_end in
    let good : IsGood t by_g x y (s ∷ []) s = record {
      bounded = omega arith;
      reached_from = (refl, refl);
    } in
    subst (IsGood t by_g x y (s ∷ [])) (some_injective e) good
start-AreGood t x y x_end y_end w (suc i) n e = cc

-- No way, or a way of at least one step that can be walked.
abbrev pub Result : Terrain → (p q : ℕ × ℕ) → Option (Bool × List Direction) → Type 0
Result t p q r =
    (r ≡ some (false, []))
    ⊎ ((ds : List Direction) × (r ≡ some (true, ds)) × (is_some_way ds ≡ true) × Walks t p ds q)

way-Result :
    (t : Terrain) (p q : ℕ × ℕ) (ds : List Direction)
    → Walks t p ds q
    → Result t p q (some (is_some_way ds, ds))
way-Result t p q [] w = inl refl
way-Result t p q (d ∷ ds) w = inr (d ∷ ds, refl, refl, w)

way_of-Result :
    (t : Terrain) (x y x_end y_end : ℕ) (max_search_dist : Option ℕ) (o : Outcome)
    → t.can_walk x y ≡ true
    → Ended t x y x_end y_end max_search_dist o
    → Result t (x_end, y_end) (x, y) (way_of x_end y_end o)
way_of-Result t x y x_end y_end max_search_dist no_way ws h = inl refl
way_of-Result t x y x_end y_end max_search_dist out_of_fuel ws h = elim h [ ]
way_of-Result t x y x_end y_end max_search_dist (found nodes i) ws (all, (n, e, px, py)) =
    let (ds, k, w) = trace-Walks t x y nodes i n ws all e in
    let k' : trace (trace_fuel nodes i) nodes x_end y_end (some i) ≡ some ds =
      subst (λ (q : ℕ × ℕ). trace (trace_fuel nodes i) nodes q.0 q.1 (some i) ≡ some ds)
        (ap₂ (λ a b. (a, b)) px py) k in
    let w' = subst (λ (q : ℕ × ℕ). Walks t q ds (x, y)) (ap₂ (λ a b. (a, b)) px py) w in
    rw (way_of, k') (way-Result t (x_end, y_end) (x, y) ds w')

-- getPathTo ends within its fuel. If the creature cannot walk to the destination, it returns false
-- and leaves listDir as it was. If it can, it returns false and no directions, or true and
-- directions, at least one, that lead from the creature's position to the destination, one step
-- each, over positions that the creature can walk to.
pub get_path_to-Walks :
    (t : Terrain) (list_dir : List Direction) (max_search_dist : Option ℕ)
    (x y z x_end y_end z_end : ℕ)
    → let r = get_path_to t list_dir max_search_dist x y z x_end y_end z_end in
      ((t.can_walk x y ≡ false) × (r ≡ some (false, list_dir)))
      ⊎ ((t.can_walk x y ≡ true) × Result t (x_end, y_end) (x, y) r)
unfolding get_path_to
get_path_to-Walks t list_dir max_search_dist x y z x_end y_end z_end =
    elim (Bool-cases (t.can_walk x y)) [
      | inr a ↦ rw (get_path_to, a) (inl (refl, refl))
      | inl a ↦ elim (Bool-cases (z == z_end)) [
        | inr other ↦ rw (get_path_to, a, other) (inr (refl, inl refl))
        | inl same ↦
            let start = start_node x y x_end y_end in
            let end =
              search-Ended t x y x_end y_end max_search_dist search_fuel (start ∷ [])
                (start-AreGood t x y x_end y_end a) (omega arith) (omega arith) in
            rw (get_path_to, a, same)
              (inr (refl, way_of-Result t x y x_end y_end max_search_dist _ a end))
      ]
    ]
