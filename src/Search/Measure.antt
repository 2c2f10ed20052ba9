-- ===== src/Search/Measure.antt =====
-- A bound on the rounds of the search (source/map.cpp, the loops of getPathTo and
-- getPathMatching).
use othire.Base.{
  some_injective, ℕ, zero, suc, ◌+◌, ◌-◌, ◌*◌, ◌<◌, ◌≤◌, ◌≡◌, sym, ap, subst, ◌∙◌, List, [], ◌∷◌,
  ◌++◌, true, false, ◌==◌, if◌then◌else◌, some, length, get_elem?, arith, inl, inr, Bool-cases,
  length-append,
}
use othire.Search.{AStarNode, Terrain, set_node, close_node, max_nodes}
use othire.Search.Nodes.{
  length-set_node, get_elem?-append, get_elem?-set_node_self, get_elem?-set_node_ne,
}
use othire.Search.Invariant.{AreGood, close_node-set_node}
use othire.Search.Change.{Change, same, added, improved}

module _ (cost : AStarNode → ℕ) where
  -- A node weighs twice its cost, and one more if it is open.
  abbrev weight : AStarNode → ℕ
  weight n = 2 * cost n + (if n.is_open then 1 else 0)

  abbrev total : List AStarNode → ℕ
  total [] = 0
  total (n ∷ ns) = weight n + total ns

  -- No node costs more than 85 * 512, so a node not yet made stands for more than any node weighs.
  abbrev pub measure : List AStarNode → ℕ
  measure nodes = 90000 * (max_nodes - length nodes) + total nodes

  total-append :
      (nodes : List AStarNode) (v : AStarNode) → total (nodes ++ (v ∷ [])) ≡ total nodes + weight v
  total-append [] v = ground arith
  total-append (n ∷ ns) v = let h = total-append ns v in omega (arith, h)

  total-set_node :
      (j : ℕ) (v m : AStarNode) (nodes : List AStarNode)
      → get_elem? nodes j ≡ some m
      → total (set_node j v nodes) + weight m ≡ total nodes + weight v
  total-set_node j v m [] h = cc
  total-set_node zero v m (n ∷ ns) h = let e = ap weight (some_injective h) in omega (arith, e)
  total-set_node (suc j) v m (n ∷ ns) h = let e = total-set_node j v m ns h in omega (arith, e)

  -- The node at the place i is open, there are at most 512 nodes, and the measure is at most b.
  abbrev pub IsBelow : (b i : ℕ) → List AStarNode → Type 0
  IsBelow b i nodes =
      (measure nodes ≤ b)
      × (length nodes ≤ max_nodes)
      × ((n : AStarNode) × (get_elem? nodes i ≡ some n) × (n.is_open ≡ true))

  module _ (t : Terrain) (xs ys : ℕ) where
    -- The visit of a neighbour does not raise the measure and leaves the node open.
    pub Change-IsBelow :
        (b i : ℕ) (nodes nodes' : List AStarNode)
        → AreGood t cost xs ys nodes
        → Change t cost xs ys nodes nodes'
        → IsBelow b i nodes
        → IsBelow b i nodes'
    Change-IsBelow b i nodes nodes' all (same e) p = subst (IsBelow b i) (sym e) p
    Change-IsBelow b i nodes nodes' all (added v l o w e) (le, len, (n, q, op)) =
        let ln : length nodes' ≡ length nodes + 1 = ap length e ∙ length-append nodes (v ∷ []) in
        let tot : total nodes' ≡ total nodes + weight v = ap total e ∙ total-append nodes v in
        let bv = w.bounded in
        let wv : weight v ≤ 2 * cost v + 1 = ground (arith, o) in
        (
          omega (arith, ln, tot, bv, wv, le, l),
          omega (arith, ln, l),
          (n, subst (λ ns. get_elem? ns i ≡ some n) (sym e) (get_elem?-append nodes v i n q), op),
        )
    Change-IsBelow b i nodes nodes' all (improved j v m k o ex ey lt w e) (le, len, (n, q, op)) =
        let ln : length nodes' ≡ length nodes = ap length e ∙ length-set_node j v nodes in
        let tot : total nodes' + weight m ≡ total nodes + weight v =
          ap (λ ns. total ns + weight m) e ∙ total-set_node j v m nodes k in
        let wv : weight v ≤ 2 * cost v + 1 = ground (arith, o) in
        let wm : 2 * cost m ≤ weight m = ground arith in
        (
          omega (arith, ln, tot, wv, wm, le, lt),
          omega (arith, ln, len),
          elim (Bool-cases (i == j)) [
            | inl r ↦
                let p : i ≡ j = ground (arith, r) in
                (
                  v,
                  subst (λ ns. get_elem? ns i ≡ some v) (sym e)
                      (ap (get_elem? (set_node j v nodes)) p
                        ∙ get_elem?-set_node_self j v m nodes k),
                  o,
                )
            | inr r ↦ (
              n,
              subst (λ ns. get_elem? ns i ≡ some n) (sym e)
                  (get_elem?-set_node_ne i j v nodes r ∙ q),
              op,
            )
          ],
        )

    -- Closing an open node lowers the measure.
    pub close_node-measure :
        (closed : (n : AStarNode) → cost (record n { is_open = false }) ≡ cost n) (b i : ℕ)
        (nodes : List AStarNode)
        → IsBelow b i nodes
        → (measure (close_node i nodes) < b) × (length (close_node i nodes) ≤ max_nodes)
    close_node-measure closed b i nodes (le, len, (n, q, op)) =
        let v : AStarNode = record n { is_open = false } in
        let e = close_node-set_node t cost xs ys i n nodes q in
        let ln = length-set_node i v nodes in
        let tot = total-set_node i v n nodes q in
        let wn : weight n ≡ 2 * cost n + 1 = ap (λ b. 2 * cost n + (if b then 1 else 0)) op in
        subst (λ ns. (measure ns < b) × (length ns ≤ max_nodes)) (sym e)
          (omega (arith, ln, tot, wn, le, closed n), omega (arith, ln, len))
