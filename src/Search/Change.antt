-- ===== src/Search/Change.antt =====
-- What a visit to a neighbour does to the nodes (source/map.cpp, the inner loops of
-- getPathTo and getPathMatching).
use othire.Base.{
  ℕ, ◌<◌, ◌≡◌, refl, sym, subst, List, [], ◌∷◌, ◌++◌, true, some, length, get_elem?, arith,
}
use othire.Search.{AStarNode, Terrain, set_node, max_nodes}
use othire.Search.Invariant.{
  AreGood, IsGood, Improves, set_node-AreGood, set_node-Improves, append-AreGood, append-Improves,
}

module _ (t : Terrain) (cost : AStarNode → ℕ) (xs ys : ℕ) where
  -- A visit leaves the nodes as they are, adds an open node that is good, or gives a node a
  -- lower cost and opens it.
  pub data Change (nodes : List AStarNode) (nodes' : List AStarNode) : Type 0 where
    same : nodes' ≡ nodes → Change nodes nodes'
    added :
        (v : AStarNode)
        → length nodes < max_nodes
        → v.is_open ≡ true
        → IsGood t cost xs ys nodes' v
        → nodes' ≡ nodes ++ (v ∷ [])
        → Change nodes nodes'
    improved :
        (j : ℕ) (v m : AStarNode)
        → get_elem? nodes j ≡ some m
        → v.is_open ≡ true
        → v.x ≡ m.x
        → v.y ≡ m.y
        → cost v < cost m
        → IsGood t cost xs ys nodes v
        → nodes' ≡ set_node j v nodes
        → Change nodes nodes'

  pub Change-AreGood :
      (nodes nodes' : List AStarNode)
      → Change nodes nodes'
      → AreGood t cost xs ys nodes
      → AreGood t cost xs ys nodes'
  Change-AreGood nodes nodes' (same e) all = subst (AreGood t cost xs ys) (sym e) all
  Change-AreGood nodes nodes' (added v l o w e) all =
      subst (AreGood t cost xs ys) (sym e)
        (append-AreGood t cost xs ys nodes v all (subst (λ ns. IsGood t cost xs ys ns v) e w))
  Change-AreGood nodes nodes' (improved j v m k o ex ey lt w e) all =
      subst (AreGood t cost xs ys) (sym e)
        (set_node-AreGood t cost xs ys j v m nodes k ex ey (omega (arith, lt)) all w)

  pub Change-Improves :
      (nodes nodes' : List AStarNode) → Change nodes nodes' → Improves t cost xs ys nodes nodes'
  Change-Improves nodes nodes' (same e) =
      subst (Improves t cost xs ys nodes) (sym e)
        (omega arith, λ i n h. (n, h, refl, refl, omega arith))
  Change-Improves nodes nodes' (added v l o w e) =
      subst (Improves t cost xs ys nodes) (sym e) (append-Improves t cost xs ys nodes v)
  Change-Improves nodes nodes' (improved j v m k o ex ey lt w e) =
      subst (Improves t cost xs ys nodes) (sym e)
        (set_node-Improves t cost xs ys j v m nodes k ex ey (omega (arith, lt)))
