-- ===== src/Search/Nodes.antt =====
-- The list of nodes under its updates (source/map.cpp, AStarNodes).
use othire.Base.{
  some_injective, ℕ, zero, suc, ◌≡◌, refl, ap, subst, ◌∙◌, List, [], ◌∷◌, ◌++◌, Bool, true, false,
  ◌&&◌, ◌==◌, if◌then◌else◌, Option, none, some, length, get_elem?, arith, ◌⊎◌, inl, inr,
  Option-cases,
}
use othire.Search.{AStarNode, set_node, get_node_in_list}

pub get_elem?-set_node_self :
    (i : ℕ) (v n : AStarNode) (nodes : List AStarNode)
    → get_elem? nodes i ≡ some n
    → get_elem? (set_node i v nodes) i ≡ some v
get_elem?-set_node_self i v n [] h = cc
get_elem?-set_node_self zero v n (m ∷ ms) h = refl
get_elem?-set_node_self (suc i) v n (m ∷ ms) h = get_elem?-set_node_self i v n ms h

pub get_elem?-set_node_ne :
    (i j : ℕ) (v : AStarNode) (nodes : List AStarNode)
    → (i == j) ≡ false
    → get_elem? (set_node j v nodes) i ≡ get_elem? nodes i
get_elem?-set_node_ne i j v [] h = refl
get_elem?-set_node_ne zero zero v (m ∷ ms) h = cc
get_elem?-set_node_ne zero (suc j) v (m ∷ ms) h = refl
get_elem?-set_node_ne (suc i) zero v (m ∷ ms) h = refl
get_elem?-set_node_ne (suc i) (suc j) v (m ∷ ms) h =
    get_elem?-set_node_ne i j v ms (ground (arith, h))

pub length-set_node :
    (i : ℕ) (v : AStarNode) (nodes : List AStarNode) → length (set_node i v nodes) ≡ length nodes
length-set_node i v [] = refl
length-set_node zero v (m ∷ ms) = refl
length-set_node (suc i) v (m ∷ ms) = ap suc (length-set_node i v ms)

pub get_elem?-append :
    (nodes : List AStarNode) (v : AStarNode) (i : ℕ) (n : AStarNode)
    → get_elem? nodes i ≡ some n
    → get_elem? (nodes ++ (v ∷ [])) i ≡ some n
get_elem?-append [] v i n h = cc
get_elem?-append (m ∷ ms) v zero n h = h
get_elem?-append (m ∷ ms) v (suc i) n h = get_elem?-append ms v i n h

pub get_elem?-append_cases :
    (nodes : List AStarNode) (v : AStarNode) (i : ℕ) (n : AStarNode)
    → get_elem? (nodes ++ (v ∷ [])) i ≡ some n
    → (get_elem? nodes i ≡ some n) ⊎ (v ≡ n)
get_elem?-append_cases [] v zero n h = inr (ground (arith, h))
get_elem?-append_cases [] v (suc i) n h = cc
get_elem?-append_cases (m ∷ ms) v zero n h = inl h
get_elem?-append_cases (m ∷ ms) v (suc i) n h = get_elem?-append_cases ms v i n h

first_found :
    (b : Bool) (o : Option ℕ)
    → (if b then some 0 else (elim o as (λ _. Option ℕ) [ none ↦ none | some i ↦ some (suc i) ]))
      ≡ some 0
    → b ≡ true
first_found true o h = refl
first_found false none h = cc
first_found false (some i) h = cc

-- The node that getNodeInList finds is at the position.
pub get_node_in_list-at :
    (x y : ℕ) (nodes : List AStarNode) (j : ℕ) (m : AStarNode)
    → get_node_in_list x y nodes ≡ some j
    → get_elem? nodes j ≡ some m
    → (m.x ≡ x) × (m.y ≡ y)
unfolding get_node_in_list
get_node_in_list-at x y [] j m h k = cc
get_node_in_list-at x y (n ∷ ns) zero m h k =
    let e = first_found (n.x == x && n.y == y) (get_node_in_list x y ns) h in
    let q : n ≡ m = some_injective k in
    let p : (n.x ≡ x) × (n.y ≡ y) = (ground (arith, e), ground (arith, e)) in
    subst (λ (w : AStarNode). (w.x ≡ x) × (w.y ≡ y)) q p
get_node_in_list-at x y (n ∷ ns) (suc j) m h k = elim (Option-cases (get_node_in_list x y ns)) [
  | inl e ↦ ground (arith, e)
  | inr (r, e) ↦
      let q : r ≡ j = ground (arith, e) in get_node_in_list-at x y ns j m (e ∙ ap some q) k
]
