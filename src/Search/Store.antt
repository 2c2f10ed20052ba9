-- ===== src/Search/Store.antt =====
-- A node stored for a position, and the visit of a neighbour (source/map.cpp, the inner loops of
-- getPathTo and getPathMatching).
use othire.Base.{
  some_injective, ℕ, ◌+◌, ◌*◌, ◌<◌, ◌≤◌, ◌≡◌, refl, sym, subst, ◌∙◌, List, [], ◌∷◌, ◌++◌, Bool,
  true, Option, none, some, length, get_elem?, arith, inl, inr, Option-cases, Bool-cases,
  length-append, leb,
}
use mathlib.Core.Path.{ap₂}
use othire.Search.{
  AStarNode, Terrain, set_node, get_node_in_list, Direction, step, store, visit_by, max_nodes,
}
use othire.Search.Nodes.{get_elem?-append, get_node_in_list-at}
use othire.Search.Invariant.{AreGood, IsGood, HasParent}
use othire.Search.Change.{Change, same, added, improved}

module _ (t : Terrain) (cost : AStarNode → ℕ) (xs ys : ℕ) where
  -- The node is open, at the position, and has the node at the place i as its parent.
  pub record IsStored (i new_cost x y : ℕ) (v : AStarNode) : Type 0 where
    pub at_x : v.x ≡ x
    pub at_y : v.y ≡ y
    pub from_i : v.parent ≡ some i
    pub costs : cost v ≡ new_cost
    pub opened : v.is_open ≡ true

  stored-IsGood :
      (nodes : List AStarNode) (i new_cost : ℕ) (n v : AStarNode) (d : Direction) (x y : ℕ)
      → IsStored i new_cost x y v
      → get_elem? nodes i ≡ some n
      → step d (n.x, n.y) ≡ some (x, y)
      → t.can_walk x y ≡ true
      → cost n < new_cost
      → new_cost ≤ 85 * length nodes
      → IsGood t cost xs ys nodes v
  stored-IsGood nodes i new_cost n v d x y st e s w lt b =
      let c = st.costs in
      record {
        bounded = omega (arith, b, c);
        reached_from = subst (HasParent t cost xs ys nodes v) (sym st.from_i) (
          n,
          e,
          omega (arith, lt, c),
          ap₂ t.can_walk st.at_x st.at_y ∙ w,
          (d, s ∙ ap₂ (λ a b. some (a, b)) (sym st.at_x) (sym st.at_y)),
        );
      }

  pub store-Change :
      (nodes nodes' : List AStarNode) (i new_cost : ℕ) (n : AStarNode) (d : Direction) (x y : ℕ)
      (new : AStarNode) (changed : AStarNode → AStarNode)
      → IsStored i new_cost x y new
      → ((m : AStarNode) → IsStored i new_cost x y (changed m))
      → cost n < new_cost
      → new_cost ≤ cost n + 85
      → AreGood t cost xs ys nodes
      → get_elem? nodes i ≡ some n
      → step d (n.x, n.y) ≡ some (x, y)
      → t.can_walk x y ≡ true
      → store cost new_cost x y new changed nodes ≡ some nodes'
      → Change t cost xs ys nodes nodes'
  unfolding store
  store-Change nodes nodes' i new_cost n d x y new changed st st' lt le all e s w h =
      let r = store cost new_cost x y new changed nodes in
      elim (Option-cases (get_node_in_list x y nodes)) [
        | inl a ↦ elim (Bool-cases (leb max_nodes (length nodes))) [
          | inl l ↦ let k : r ≡ none = rw (store, a, l) refl in let q = sym k ∙ h in cc
          | inr l ↦
              let k : r ≡ some (nodes ++ (new ∷ [])) = rw (store, a, l) refl in
              let ns = some_injective (sym k ∙ h) in
              let m = nodes ++ (new ∷ []) in
              let nb = (all i n e).bounded in
              let good =
                stored-IsGood m i new_cost n new d x y st (get_elem?-append nodes new i n e) s w lt
                  (omega (arith, nb, le, length-append nodes (new ∷ []))) in
              added new (ground (arith, l)) st.opened
                (subst (λ a. IsGood t cost xs ys a new) ns good) (sym ns)
        ]
        | inr (j, a) ↦ elim (Option-cases (get_elem? nodes j)) [
          | inl b ↦
              let k : r ≡ some nodes = rw (store, a, b) refl in
              same (sym (some_injective (sym k ∙ h)))
          | inr (m, b) ↦ elim (Bool-cases (leb (cost m) new_cost)) [
            | inl l ↦
                let k : r ≡ some nodes = rw (store, a, b, l) refl in
                same (sym (some_injective (sym k ∙ h)))
            | inr l ↦
                let k : r ≡ some (set_node j (changed m) nodes) = rw (store, a, b, l) refl in
                let (px, py) = get_node_in_list-at x y nodes j m a b in
                let c = (st' m).costs in
                let mb = (all j m b).bounded in
                improved j (changed m) m b (st' m).opened ((st' m).at_x ∙ sym px)
                  ((st' m).at_y ∙ sym py) (ground (arith, l, c))
                  (stored-IsGood nodes i new_cost n (changed m) d x y (st' m) e s w lt
                    (ground (arith, l, mb)))
                  (sym (some_injective (sym k ∙ h)))
          ]
        ]
      ]

  -- A visit does what is done for the neighbour, if it is taken.
  pub visit_by-Change :
      (taken : ℕ → ℕ → Bool) (reach : AStarNode → ℕ → ℕ → List AStarNode → Option (List AStarNode))
      (nodes nodes' : List AStarNode) (i : ℕ) (d : Direction)
      → ((n : AStarNode) (x y : ℕ)
          → get_elem? nodes i ≡ some n
          → step d (n.x, n.y) ≡ some (x, y)
          → taken x y ≡ true
          → reach n x y nodes ≡ some nodes'
          → Change t cost xs ys nodes nodes')
      → visit_by taken reach i d nodes ≡ some nodes'
      → Change t cost xs ys nodes nodes'
  unfolding visit_by
  visit_by-Change taken reach nodes nodes' i d changes h =
      let r = visit_by taken reach i d nodes in
      elim (Option-cases (get_elem? nodes i)) [
        | inl a ↦
            let k : r ≡ some nodes = rw (visit_by, a) refl in
            same (sym (some_injective (sym k ∙ h)))
        | inr (n, a) ↦ elim (Option-cases (step d (n.x, n.y))) [
          | inl b ↦
              let k : r ≡ some nodes = rw (visit_by, a, b) refl in
              same (sym (some_injective (sym k ∙ h)))
          | inr (p, b) ↦ elim (Bool-cases (taken p.0 p.1)) [
            | inl c ↦
                let k : r ≡ reach n p.0 p.1 nodes = rw (visit_by, a, b, c) refl in
                changes n p.0 p.1 a b c (sym k ∙ h)
            | inr c ↦
                let k : r ≡ some nodes = rw (visit_by, a, b, c) refl in
                same (sym (some_injective (sym k ∙ h)))
          ]
        ]
      ]
