-- ===== src/Search/Matching/Visits.antt =====
-- The visits of getPathMatching to the neighbours of a node (source/map.cpp, its inner loop).
use othire.Base.{
  some_injective, ℕ, ◌+◌, ◌≡◌, refl, sym, subst, ◌∙◌, List, [], ◌∷◌, Bool, true, false, none, some,
  arith, inl, inr, Option-cases, Bool-cases, ◌&&◌,
}
use othire.Search.{AStarNode, Terrain, Direction, get_map_walk_cost, get_tile_walk_cost}
use othire.Search.Invariant.{AreGood, cost-bounds}
use othire.Search.Change.{Change, Change-AreGood}
use othire.Search.Store.{IsStored, store-Change, visit_by-Change}
use othire.Search.Matching.{
  by_f, FindPathParams, matches, moved, fresh, match_reach, match_visit, match_all,
}

module _ (t : Terrain) (fpp : FindPathParams) (is_clear : ℕ → ℕ → Bool) (xs ys xt yt : ℕ) where
  both_hold : (a b : Bool) → (a && b) ≡ true → b ≡ true
  both_hold true b h = h
  both_hold false b h = cc

  first_holds : (a b : Bool) → (a && b) ≡ true → a ≡ true
  first_holds true b h = refl
  first_holds false b h = cc

  matches-can_walk :
      (x y : ℕ) → matches t fpp is_clear xs ys xt yt x y ≡ true → t.can_walk x y ≡ true
  matches-can_walk x y h = first_holds (t.can_walk x y) _ (both_hold _ _ h)

  -- The visit of a neighbour is a change.
  pub match_visit-Change :
      (nodes nodes' : List AStarNode) (i : ℕ) (d : Direction)
      → AreGood t by_f xs ys nodes
      → match_visit t fpp is_clear xs ys xt yt i d nodes ≡ some nodes'
      → Change t by_f xs ys nodes nodes'
  unfolding match_visit match_reach
  match_visit-Change nodes nodes' i d all h =
      visit_by-Change t by_f xs ys (matches t fpp is_clear xs ys xt yt)
        (match_reach t fpp is_clear xs ys xt yt i) nodes nodes' i d
        (λ n x y e s k r.
          let (low, high) = cost-bounds t n.x n.y x y in
          let newf = n.f + get_map_walk_cost n.x n.y x y + get_tile_walk_cost t x y in
          let st : (m : AStarNode)
              → IsStored t by_f xs ys i newf x y (moved t fpp is_clear xs ys xt yt i newf x y m) =
            λ m. record { at_x = refl; at_y = refl; from_i = refl; costs = refl; opened = refl } in
          store-Change t by_f xs ys nodes nodes' i newf n d x y _ _
            (st (fresh t fpp is_clear xs ys xt yt)) st (omega (arith, low)) (omega (arith, high))
            all e s (matches-can_walk x y k) r)
        h

  -- What every change keeps holds after the visits of all neighbours.
  pub match_all-keeps :
      (P : List AStarNode → Type 0)
      → ((ns ns' : List AStarNode)
          → AreGood t by_f xs ys ns
          → Change t by_f xs ys ns ns'
          → P ns
          → P ns')
      → (is_found : Bool) (nodes nodes' : List AStarNode) (i : ℕ) (ds : List Direction)
      → AreGood t by_f xs ys nodes
      → P nodes
      → match_all t fpp is_clear xs ys xt yt is_found i ds nodes ≡ some nodes'
      → AreGood t by_f xs ys nodes' × P nodes'
  unfolding match_all
  match_all-keeps P keeps is_found nodes nodes' i [] all p h =
      let e = some_injective h in (subst (AreGood t by_f xs ys) e all, subst P e p)
  match_all-keeps P keeps is_found nodes nodes' i (d ∷ ds) all p h =
      elim (Option-cases (match_visit t fpp is_clear xs ys xt yt i d nodes)) [
        | inl e ↦ elim (Bool-cases is_found) [
          | inl f ↦
              let k : match_all t fpp is_clear xs ys xt yt is_found i (d ∷ ds) nodes ≡ some nodes =
                rw (match_all, e, f) refl in
              let q = some_injective (sym k ∙ h) in
              (subst (AreGood t by_f xs ys) q all, subst P q p)
          | inr f ↦
              let k : match_all t fpp is_clear xs ys xt yt is_found i (d ∷ ds) nodes ≡ none =
                rw (match_all, e, f) refl in
              let q = sym k ∙ h in cc
        ]
        | inr (ns, e) ↦
            let k : match_all t fpp is_clear xs ys xt yt is_found i (d ∷ ds) nodes
                ≡ match_all t fpp is_clear xs ys xt yt is_found i ds ns =
              rw (match_all, e) refl in
            let c = match_visit-Change nodes ns i d all e in
            match_all-keeps P keeps is_found ns nodes' i ds
              (Change-AreGood t by_f xs ys nodes ns c all) (keeps nodes ns all c p) (sym k ∙ h)
      ]
