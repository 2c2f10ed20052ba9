-- ===== src/Search/Invariant.antt =====
-- What holds of the nodes throughout the search (source/map.cpp, getPathTo).
use othire.Base.{
  some_injective, ℕ, ◌+◌, ◌*◌, ◌<◌, ◌≤◌, ◌≡◌, refl, sym, ap, subst, ◌∙◌, List, [], ◌∷◌, ◌++◌, true,
  false, ◌==◌, Option, none, some, length, get_elem?, arith, inl, inr, Option-cases, Bool-cases,
  length-append,
}
use mathlib.Core.Path.{ap₂}
use othire.Search.{
  AStarNode, Terrain, set_node, Direction, step, get_map_walk_cost, get_tile_walk_cost, close_node,
}
use othire.Search.Nodes.{
  get_elem?-set_node_self, get_elem?-set_node_ne, length-set_node, get_elem?-append,
  get_elem?-append_cases,
}

-- A step costs from 10 to 85.
pub cost-bounds :
    (t : Terrain) (x y x' y' : ℕ)
    → (10 ≤ get_map_walk_cost x y x' y' + get_tile_walk_cost t x' y')
      × (get_map_walk_cost x y x' y' + get_tile_walk_cost t x' y' ≤ 85)
unfolding get_map_walk_cost get_tile_walk_cost
cost-bounds t x y x' y' = (ground arith, ground arith)

-- The search runs from (xs, ys), over nodes of which a field is the cost.
module _ (t : Terrain) (cost : AStarNode → ℕ) (xs ys : ℕ) where
  -- A node with no parent is at the start. A parent is one step away and has a lower cost, and a node
  -- with a parent can be walked.
  abbrev pub HasParent : List AStarNode → AStarNode → Option ℕ → Type 0
  HasParent nodes n none = (n.x ≡ xs) × (n.y ≡ ys)
  HasParent nodes n (some p) =
      (m : AStarNode) × (get_elem? nodes p ≡ some m)
      × (cost m < cost n)
      × (t.can_walk n.x n.y ≡ true)
      × ((d : Direction) × (step d (m.x, m.y) ≡ some (n.x, n.y)))

  pub record IsGood (nodes : List AStarNode) (n : AStarNode) : Type 0 where
    pub bounded : cost n ≤ 85 * length nodes
    pub reached_from : HasParent nodes n n.parent

  abbrev pub AreGood : List AStarNode → Type 0
  AreGood nodes = (i : ℕ) (n : AStarNode) → get_elem? nodes i ≡ some n → IsGood nodes n

  -- Every node is still there, at its position, and costs no more; open nodes can be kept open.
  abbrev pub Improves : List AStarNode → List AStarNode → Type 0
  Improves nodes nodes' =
      (length nodes ≤ length nodes')
      × ((i : ℕ) (n : AStarNode)
          → get_elem? nodes i ≡ some n
          → (n' : AStarNode) × (get_elem? nodes' i ≡ some n')
            × (n'.x ≡ n.x)
            × (n'.y ≡ n.y)
            × (cost n' ≤ cost n))

  pub HasParent-Improves :
      (nodes nodes' : List AStarNode) (n : AStarNode) (p : Option ℕ)
      → Improves nodes nodes'
      → HasParent nodes n p
      → HasParent nodes' n p
  HasParent-Improves nodes nodes' n none i h = h
  HasParent-Improves nodes nodes' n (some p) i (m, e, lt, w, (d, s)) =
      let (m', e', ex, ey, le) = i.1 p m e in
      (m', e', omega (arith, lt, le), w, (d, ap₂ (λ a b. step d (a, b)) ex ey ∙ s))

  pub IsGood-Improves :
      (nodes nodes' : List AStarNode) (n : AStarNode)
      → Improves nodes nodes'
      → IsGood nodes n
      → IsGood nodes' n
  IsGood-Improves nodes nodes' n i h = record {
    bounded = omega (arith, h.bounded, i.0);
    reached_from = HasParent-Improves nodes nodes' n n.parent i h.reached_from;
  }

  pub set_node-Improves :
      (j : ℕ) (v m : AStarNode) (nodes : List AStarNode)
      → get_elem? nodes j ≡ some m
      → v.x ≡ m.x
      → v.y ≡ m.y
      → cost v ≤ cost m
      → Improves nodes (set_node j v nodes)
  set_node-Improves j v m nodes e ex ey le = (
    omega (arith, length-set_node j v nodes),
    λ i n h. elim (Bool-cases (i == j)) [
      | inl q ↦
          let p : i ≡ j = ground (arith, q) in
          let w : m ≡ n = some_injective (sym e ∙ ap (get_elem? nodes) (sym p) ∙ h) in
          (
            v,
            ap (get_elem? (set_node j v nodes)) p ∙ get_elem?-set_node_self j v m nodes e,
            ex ∙ ap (λ (a : AStarNode). a.x) w,
            ey ∙ ap (λ (a : AStarNode). a.y) w,
            subst (λ (a : AStarNode). cost v ≤ cost a) w le,
          )
      | inr q ↦ (n, get_elem?-set_node_ne i j v nodes q ∙ h, refl, refl, omega arith)
    ],
  )

  -- A node is replaced by one that is good among the nodes then.
  pub set_node-AreGood :
      (j : ℕ) (v m : AStarNode) (nodes : List AStarNode)
      → get_elem? nodes j ≡ some m
      → v.x ≡ m.x
      → v.y ≡ m.y
      → cost v ≤ cost m
      → AreGood nodes
      → IsGood nodes v
      → AreGood (set_node j v nodes)
  set_node-AreGood j v m nodes e ex ey le all good i n h =
      let imp = set_node-Improves j v m nodes e ex ey le in
      elim (Bool-cases (i == j)) [
        | inl q ↦
            let p : i ≡ j = ground (arith, q) in
            let w : v ≡ n = some_injective (
              sym (get_elem?-set_node_self j v m nodes e)
              ∙ ap (get_elem? (set_node j v nodes)) (sym p)
              ∙ h) in
            subst (IsGood (set_node j v nodes)) w (IsGood-Improves nodes _ v imp good)
        | inr q ↦
            IsGood-Improves nodes _ n imp (all i n (sym (get_elem?-set_node_ne i j v nodes q) ∙ h))
      ]

  pub append-Improves :
      (nodes : List AStarNode) (v : AStarNode) → Improves nodes (nodes ++ (v ∷ []))
  append-Improves nodes v = (
    omega (arith, length-append nodes (v ∷ [])),
    λ i n h. (n, get_elem?-append nodes v i n h, refl, refl, omega arith),
  )

  pub append-AreGood :
      (nodes : List AStarNode) (v : AStarNode)
      → AreGood nodes
      → IsGood (nodes ++ (v ∷ [])) v
      → AreGood (nodes ++ (v ∷ []))
  append-AreGood nodes v all good i n h = elim (get_elem?-append_cases nodes v i n h) [
    | inl e ↦ IsGood-Improves nodes _ n (append-Improves nodes v) (all i n e)
    | inr w ↦ subst (IsGood (nodes ++ (v ∷ []))) w good
  ]

  pub close_node-set_node :
      (i : ℕ) (n : AStarNode) (nodes : List AStarNode)
      → get_elem? nodes i ≡ some n
      → close_node i nodes ≡ set_node i (record n { is_open = false }) nodes
  close_node-set_node i n nodes e = rw (close_node, e) refl

  -- Whether a node is open does not change its cost.
  module _ (closed : (n : AStarNode) → cost (record n { is_open = false }) ≡ cost n) where
    HasParent-closed :
        (nodes : List AStarNode) (n : AStarNode) (p : Option ℕ)
        → HasParent nodes n p
        → HasParent nodes (record n { is_open = false }) p
    HasParent-closed nodes n none h = h
    HasParent-closed nodes n (some p) (m, e, lt, w, (d, s)) =
        let c = closed n in (m, e, omega (arith, lt, c), w, (d, s))

    pub close_node-AreGood :
        (i : ℕ) (nodes : List AStarNode) → AreGood nodes → AreGood (close_node i nodes)
    close_node-AreGood i nodes all = elim (Option-cases (get_elem? nodes i)) [
      | inl e ↦ rw (close_node, e) all
      | inr (n, e) ↦
          let g = all i n e in
          let v : AStarNode = record n { is_open = false } in
          let c = closed n in
          let w : IsGood nodes v = record {
            bounded = (let b = g.bounded in omega (arith, b, c));
            reached_from = HasParent-closed nodes n n.parent g.reached_from;
          } in
          subst AreGood (sym (close_node-set_node i n nodes e))
            (set_node-AreGood i v n nodes e refl refl (omega (arith, c)) all w)
    ]

    pub close_node-Improves : (i : ℕ) (nodes : List AStarNode) → Improves nodes (close_node i nodes)
    close_node-Improves i nodes = elim (Option-cases (get_elem? nodes i)) [
      | inl e ↦ rw (close_node, e) (omega arith, λ j n h. (n, h, refl, refl, omega arith))
      | inr (n, e) ↦
          let c = closed n in
          subst (Improves nodes) (sym (close_node-set_node i n nodes e)) (
            set_node-Improves i (record n { is_open = false }) n nodes e refl refl
              (omega (arith, c)))
    ]
