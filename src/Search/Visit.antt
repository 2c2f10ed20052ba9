-- ===== src/Search/Visit.antt =====
-- The visits of getPathTo to the neighbours of a node (source/map.cpp, its inner loop).
use othire.Base.{
  some_injective, ℕ, ◌+◌, ◌≡◌, refl, sym, subst, ◌∙◌, List, [], ◌∷◌, true, Option, none, some,
  arith, inl, inr, Option-cases,
}
use othire.Search.{
  AStarNode, Terrain, Direction, get_map_walk_cost, get_tile_walk_cost, reach, reached, visit,
  visit_all, is_taken, by_g,
}
use othire.Search.Invariant.{AreGood, cost-bounds}
use othire.Search.Store.{IsStored, store-Change, visit_by-Change}
use othire.Search.Change.{Change, Change-AreGood}

module _ (t : Terrain) (xs ys x_end y_end : ℕ) (max_search_dist : Option ℕ) where
  is_taken-can_walk :
      (x y : ℕ) → is_taken t x_end y_end max_search_dist x y ≡ true → t.can_walk x y ≡ true
  is_taken-can_walk x y h = ground (arith, h)

  -- The visit of a neighbour is a change.
  pub visit-Change :
      (nodes nodes' : List AStarNode) (i : ℕ) (d : Direction)
      → AreGood t by_g xs ys nodes
      → visit t x_end y_end max_search_dist i d nodes ≡ some nodes'
      → Change t by_g xs ys nodes nodes'
  unfolding visit reach
  visit-Change nodes nodes' i d all h =
      visit_by-Change t by_g xs ys (is_taken t x_end y_end max_search_dist)
        (reach t x_end y_end max_search_dist i) nodes nodes' i d
        (λ n x y e s k r.
          let (low, high) = cost-bounds t n.x n.y x y in
          let newg = n.g + get_map_walk_cost n.x n.y x y + get_tile_walk_cost t x y in
          let st : IsStored t by_g xs ys i newg x y
              (reached t x_end y_end max_search_dist i newg x y) =
            record { at_x = refl; at_y = refl; from_i = refl; costs = refl; opened = refl } in
          store-Change t by_g xs ys nodes nodes' i newg n d x y _ _ st (λ m. st)
            (omega (arith, low)) (omega (arith, high)) all e s (is_taken-can_walk x y k) r)
        h

  -- What every change keeps holds after the visits of all neighbours.
  pub visit_all-keeps :
      (P : List AStarNode → Type 0)
      → ((ns ns' : List AStarNode)
          → AreGood t by_g xs ys ns
          → Change t by_g xs ys ns ns'
          → P ns
          → P ns')
      → (nodes nodes' : List AStarNode) (i : ℕ) (ds : List Direction) → AreGood t by_g xs ys nodes
      → P nodes
      → visit_all t x_end y_end max_search_dist i ds nodes ≡ some nodes'
      → AreGood t by_g xs ys nodes' × P nodes'
  unfolding visit_all
  visit_all-keeps P keeps nodes nodes' i [] all p h =
      let e = some_injective h in (subst (AreGood t by_g xs ys) e all, subst P e p)
  visit_all-keeps P keeps nodes nodes' i (d ∷ ds) all p h =
      elim (Option-cases (visit t x_end y_end max_search_dist i d nodes)) [
        | inl e ↦
            let k : visit_all t x_end y_end max_search_dist i (d ∷ ds) nodes ≡ none =
              rw (visit_all, e) refl in
            let q = sym k ∙ h in cc
        | inr (ns, e) ↦
            let k : visit_all t x_end y_end max_search_dist i (d ∷ ds) nodes
                ≡ visit_all t x_end y_end max_search_dist i ds ns =
              rw (visit_all, e) refl in
            let c = visit-Change nodes ns i d all e in
            visit_all-keeps P keeps ns nodes' i ds (Change-AreGood t by_g xs ys nodes ns c all)
              (keeps nodes ns all c p) (sym k ∙ h)
      ]
