-- ===== src/Search.antt =====
-- The search for a way on the map (source/map.h, source/map.cpp: AStarNode, AStarNodes, getPathTo).
-- A pointer to a node is its place in the list of nodes; the bit of openNodes stands in the node.
-- A coordinate below 0 has no tile, and is no number here.
pub mod Nodes
pub mod Best
pub mod Invariant
pub mod Change
pub mod Store
pub mod Visit
pub mod Trace
pub mod Measure
pub mod Sound
pub mod Matching
pub mod Way
mod Tests
use othire.Base.{
  ℕ, zero, suc, ◌+◌, ◌-◌, ◌*◌, List, [], ◌∷◌, ◌++◌, Bool, true, false, not, ◌&&◌, ◌||◌, leb, ltb,
  ◌==◌, if◌then◌else◌, Option, none, some, length, get_elem?, min,
}

-- MAX_NODES, MAP_NORMALWALKCOST and MAP_DIAGONALWALKCOST
abbrev pub max_nodes : ℕ
max_nodes = 512

abbrev pub normal_walk_cost : ℕ
normal_walk_cost = 10

abbrev pub diagonal_walk_cost : ℕ
diagonal_walk_cost = 25

pub record AStarNode : Type 0 where
  pub x : ℕ
  pub y : ℕ
  pub parent : Option ℕ
  pub f : ℕ
  pub g : ℕ
  pub h : ℕ
  pub is_open : Bool

-- What the search asks of the creature and of the tiles on its floor: canWalkTo, whether there is a
-- magic field, whether the creature is a player, and the two tests of getTileWalkCost: a creature
-- that blocks, and a field that the creature is not immune to.
pub record Terrain : Type 0 where
  pub can_walk : ℕ → ℕ → Bool
  pub has_field : ℕ → ℕ → Bool
  pub is_player : Bool
  pub is_blocked : ℕ → ℕ → Bool
  pub is_harmful : ℕ → ℕ → Bool

-- A list with another node at the place i.
abbrev pub set_node : ℕ → AStarNode → List AStarNode → List AStarNode
set_node i n [] = []
set_node zero n (m ∷ ms) = n ∷ ms
set_node (suc i) n (m ∷ ms) = m ∷ set_node i n ms

-- The loop of getBestNode, at the place i, with best_node_f and the best node so far.
abbrev pub best_from : ℕ → List AStarNode → ℕ → Option ℕ → Option ℕ
best_from i [] best_f best = best
best_from i (n ∷ ns) best_f best =
    let better = ltb n.f best_f && n.is_open in
    best_from (suc i) ns (if better then n.f else best_f) (if better then some i else best)

unfoldable pub get_best_node : List AStarNode → Option ℕ
get_best_node nodes = best_from 0 nodes 100000 none

unfoldable pub count_closed_nodes : List AStarNode → ℕ
count_closed_nodes [] = 0
count_closed_nodes (n ∷ ns) = (if n.is_open then 0 else 1) + count_closed_nodes ns

-- getNodeInList
unfoldable pub get_node_in_list : (x y : ℕ) → List AStarNode → Option ℕ
get_node_in_list x y [] = none
get_node_in_list x y (n ∷ ns) =
    let rest = get_node_in_list x y ns in
    if n.x == x && n.y == y then some 0 else elim rest [ none ↦ none | some i ↦ some (suc i) ]

abbrev pub distance : ℕ → ℕ → ℕ
distance a b = (a - b) + (b - a)

unfoldable pub get_estimated_distance : (x y x_goal y_goal : ℕ) → ℕ
get_estimated_distance x y x_goal y_goal =
    let h_diagonal = min (distance x x_goal) (distance y y_goal) in
    let h_straight = distance x x_goal + distance y y_goal in
    diagonal_walk_cost * h_diagonal + normal_walk_cost * (h_straight - 2 * h_diagonal)

unfoldable pub get_map_walk_cost : (x y x' y' : ℕ) → ℕ
get_map_walk_cost x y x' y' =
    if distance x x' == distance y y' then diagonal_walk_cost else normal_walk_cost

unfoldable pub get_tile_walk_cost : Terrain → (x y : ℕ) → ℕ
get_tile_walk_cost t x y =
    (if t.is_blocked x y then normal_walk_cost * 3 else 0)
    + (if t.is_harmful x y then normal_walk_cost * 3 else 0)

-- closeNode
abbrev pub close_node : ℕ → List AStarNode → List AStarNode
close_node i nodes = elim (get_elem? nodes i) [
  | none ↦ nodes
  | some n ↦ set_node i (record n { is_open = false }) nodes
]

-- A direction, and the steps of neighbourOrderList
pub data Direction : Type 0 where
  north east south west southwest southeast northwest northeast : Direction

abbrev pub less : ℕ → Option ℕ
less zero = none
less (suc x) = some x

abbrev pub both : Option ℕ → Option ℕ → Option (ℕ × ℕ)
both none b = none
both (some x) none = none
both (some x) (some y) = some (x, y)

-- The position one step away, if its coordinates are not negative.
abbrev pub step : Direction → ℕ × ℕ → Option (ℕ × ℕ)
step north (x, y) = both (some x) (less y)
step east (x, y) = some (suc x, y)
step south (x, y) = some (x, suc y)
step west (x, y) = both (less x) (some y)
step southwest (x, y) = both (less x) (some (suc y))
step southeast (x, y) = some (suc x, suc y)
step northwest (x, y) = both (less x) (less y)
step northeast (x, y) = both (some (suc x)) (less y)

abbrev pub neighbour_order : List Direction
neighbour_order = west ∷ south ∷ east ∷ north ∷ northwest ∷ northeast ∷ southeast ∷ southwest ∷ []

-- The cost of a node for getPathTo.
abbrev pub by_g : AStarNode → ℕ
by_g n = n.g

-- A position is reached at a cost: a new node is made for it, or its node changed if it costs more,
-- which is opened then (openNode). None if the nodes run out.
unfoldable pub store :
    (cost : AStarNode → ℕ) (new_cost x y : ℕ)
    → AStarNode
    → (AStarNode → AStarNode)
    → List AStarNode
    → Option (List AStarNode)
store cost new_cost x y new changed nodes = elim (get_node_in_list x y nodes) [
  | none ↦ if leb max_nodes (length nodes) then none else some (nodes ++ (new ∷ []))
  | some j ↦ elim (get_elem? nodes j) [
    | none ↦ some nodes
    | some m ↦ if leb (cost m) new_cost then some nodes else some (set_node j (changed m) nodes)
  ]
]

-- A visit to the neighbour of the node at the place i, if it is taken.
unfoldable pub visit_by :
    (taken : ℕ → ℕ → Bool) (reach : AStarNode → ℕ → ℕ → List AStarNode → Option (List AStarNode))
    → (i : ℕ) → Direction
    → List AStarNode
    → Option (List AStarNode)
visit_by taken reach i d nodes = elim (get_elem? nodes i) [
  | none ↦ some nodes
  | some n ↦ elim (step d (n.x, n.y)) [
    | none ↦ some nodes
    | some p ↦ if taken p.0 p.1 then reach n p.0 p.1 nodes else some nodes
  ]
]

-- What the loop ends with: the nodes and the one found, or no way.
pub data Outcome : Type 0 where
  found : List AStarNode → ℕ → Outcome
  no_way : Outcome
  out_of_fuel : Outcome

-- The goal of the search is the creature's position; max_search_dist is none for -1.
module _ (t : Terrain) (x_end y_end : ℕ) (max_search_dist : Option ℕ) where
  abbrev pub is_out_of_range : (x y : ℕ) → Bool
  is_out_of_range x y = elim max_search_dist [
    | none ↦ false
    | some d ↦ ltb d (distance x_end x) || ltb d (distance y_end y)
  ]

  -- A neighbour is taken if it is in range, can be walked, and is no field before a player.
  abbrev pub is_taken : (x y : ℕ) → Bool
  is_taken x y =
      not (is_out_of_range x y) && (t.can_walk x y && not (t.is_player && t.has_field x y))

  -- The best node so far for a position.
  abbrev pub reached : (i newg x y : ℕ) → AStarNode
  reached i newg x y =
      let h = get_estimated_distance x y x_end y_end in
      record { x = x; y = y; parent = some i; f = newg + h; g = newg; h = h; is_open = true }

  -- What is done for a neighbour that is taken, reached from the node n at the place i; none if the
  -- nodes run out.
  unfoldable pub reach : (i : ℕ) → AStarNode → (x y : ℕ) → List AStarNode → Option (List AStarNode)
  reach i n x y nodes =
      let newg = n.g + get_map_walk_cost n.x n.y x y + get_tile_walk_cost t x y in
      store by_g newg x y (reached i newg x y) (λ m. reached i newg x y) nodes

  unfoldable pub visit : (i : ℕ) → Direction → List AStarNode → Option (List AStarNode)
  visit i d nodes = visit_by is_taken (reach i) i d nodes

  unfoldable pub visit_all : (i : ℕ) → List Direction → List AStarNode → Option (List AStarNode)
  visit_all i [] nodes = some nodes
  visit_all i (d ∷ ds) nodes = elim (visit i d nodes) [
    | none ↦ none
    | some nodes' ↦ visit_all i ds nodes'
  ]

  abbrev pub is_at_end : List AStarNode → ℕ → Bool
  is_at_end nodes i = elim (get_elem? nodes i) [
    | none ↦ false
    | some n ↦ n.x == x_end && n.y == y_end
  ]

  abbrev pub may_go_on : List AStarNode → Bool
  may_go_on nodes = elim max_search_dist [
    | none ↦ ltb (count_closed_nodes nodes) 100
    | some d ↦ true
  ]

  -- The loop of getPathTo.
  unfoldable pub search : ℕ → List AStarNode → Outcome
  search zero nodes = out_of_fuel
  search (suc fuel) nodes = if not (may_go_on nodes) then no_way else elim (get_best_node nodes) [
    | none ↦ no_way
    | some i ↦
        if is_at_end nodes i then found nodes i else elim (visit_all i neighbour_order nodes) [
          | none ↦ no_way
          | some nodes' ↦ search fuel (close_node i nodes')
        ]
  ]
