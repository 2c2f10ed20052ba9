-- ===== src/Search/Matching.antt =====
-- The search for a place near a target (source/map.cpp: getPathMatching; source/creature.cpp:
-- FrozenPathingConditionCall). The distances of FindPathParams are natural numbers here, except that
-- maxSearchDist is none for -1; of a node only f is read, g and h are never set.
pub mod Visits
pub mod Back
pub mod Goal
pub mod Sound
mod Tests
use othire.Base.{
  ℕ, zero, suc, ◌+◌, ◌-◌, List, [], ◌∷◌, ◌++◌, Bool, true, false, not, ◌&&◌, ◌||◌, leb, ltb, ◌==◌,
  if◌then◌else◌, Option, none, some, length, get_elem?, max,
}
use othire.Search.{
  AStarNode, Terrain, set_node, get_best_node, count_closed_nodes, get_node_in_list, distance,
  get_map_walk_cost, get_tile_walk_cost, close_node, Direction, step, neighbour_order, max_nodes,
  store, visit_by, north, east, south, west, southwest, southeast, northwest, northeast,
}
use othire.Search.Way.{push, search_fuel}

pub record FindPathParams : Type 0 where
  pub full_path_search : Bool
  pub clear_sight : Bool
  pub allow_diagonal : Bool
  pub keep_distance : Bool
  pub max_search_dist : Option ℕ
  pub min_target_dist : ℕ
  pub max_target_dist : ℕ

-- The cost of a node for getPathMatching.
abbrev pub by_f : AStarNode → ℕ
by_f n = n.f

-- Whether the value lies in the range of one coordinate around the target.
abbrev pub is_near : FindPathParams → (start target test : ℕ) → Bool
is_near fpp start target test =
    let d_min = if fpp.full_path_search || leb start target then fpp.max_target_dist else 0 in
    let d_max = if fpp.full_path_search || leb target start then fpp.max_target_dist else 0 in
    not (ltb (target + d_max) test || ltb (test + d_min) target)

-- What the operator of FrozenPathingConditionCall decides by the distance d to the target.
abbrev pub at_distance : FindPathParams → (d best_match : ℕ) → Bool × ℕ
at_distance fpp d best_match =
    if fpp.max_target_dist == 1
    then (not (ltb d fpp.min_target_dist || ltb fpp.max_target_dist d), best_match)
    else if leb d fpp.max_target_dist
    then (if ltb d fpp.min_target_dist
        then (false, best_match)
        else if d == fpp.max_target_dist
        then (true, 0)
        else if ltb best_match d
        then (true, d)
        else (false, best_match))
    else (false, best_match)

-- The creature starts at (xs, ys); the target is at (xt, yt), and what is clear is isSightClear to it.
module _ (t : Terrain) (fpp : FindPathParams) (is_clear : ℕ → ℕ → Bool) (xs ys xt yt : ℕ) where
  unfoldable pub is_in_range : (x y : ℕ) → Bool
  is_in_range x y = is_near fpp xs xt x && is_near fpp ys yt y

  abbrev pub test_dist : (x y : ℕ) → ℕ
  test_dist x y = max (distance xt x) (distance yt y)

  -- operator() of FrozenPathingConditionCall: the result, and bestMatchDist after it.
  unfoldable pub condition : (x y best_match : ℕ) → Bool × ℕ
  condition x y best_match =
      let d = test_dist x y in
      if not (is_in_range x y)
      then (false, best_match)
      else if fpp.clear_sight && not (is_clear x y)
      then (false, best_match)
      else at_distance fpp d best_match

  abbrev pub is_far : (x y : ℕ) → Bool
  is_far x y = elim fpp.max_search_dist [
    | none ↦ false
    | some d ↦ ltb d (distance xs x) || ltb d (distance ys y)
  ]

  -- A neighbour is taken if it is in range, can be walked, and is no field before a player.
  abbrev pub matches : (x y : ℕ) → Bool
  matches x y =
      not (is_far x y || (fpp.keep_distance && not (is_in_range x y)))
      && (t.can_walk x y && not (t.is_player && t.has_field x y))

  -- The best node so far for a position, as it was before, and a new one.
  abbrev pub moved : (i newf x y : ℕ) → AStarNode → AStarNode
  moved i newf x y m = record m { x = x; y = y; parent = some i; f = newf; is_open = true }

  abbrev pub fresh : AStarNode
  fresh = record { x = 0; y = 0; parent = none; f = 0; g = 0; h = 0; is_open = true }

  unfoldable pub match_reach :
      (i : ℕ) → AStarNode → (x y : ℕ) → List AStarNode → Option (List AStarNode)
  match_reach i n x y nodes =
      let newf = n.f + get_map_walk_cost n.x n.y x y + get_tile_walk_cost t x y in
      store by_f newf x y (moved i newf x y fresh) (moved i newf x y) nodes

  unfoldable pub match_visit : (i : ℕ) → Direction → List AStarNode → Option (List AStarNode)
  match_visit i d nodes = visit_by matches (match_reach i) i d nodes

  -- The neighbours in their order. When the nodes run out, the loop is left if something was found,
  -- and else the search is given up.
  unfoldable pub match_all :
      (is_found : Bool) (i : ℕ) → List Direction → List AStarNode → Option (List AStarNode)
  match_all is_found i [] nodes = some nodes
  match_all is_found i (d ∷ ds) nodes = elim (match_visit i d nodes) [
    | none ↦ if is_found then some nodes else none
    | some nodes' ↦ match_all is_found i ds nodes'
  ]

  abbrev pub directions : List Direction
  directions = if fpp.allow_diagonal then neighbour_order else west ∷ south ∷ east ∷ north ∷ []

  abbrev pub goes_on : List AStarNode → Bool
  goes_on nodes = elim fpp.max_search_dist [
    | none ↦ ltb (count_closed_nodes nodes) 100
    | some d ↦ true
  ]

-- The node found, with endPos.
abbrev pub Found : Type 0
Found = Option (ℕ × (ℕ × ℕ))

abbrev pub is_some : Found → Bool
is_some none = false
is_some (some p) = true

-- What the loop ends with: the nodes and what was found, or the search given up.
pub data Matched : Type 0 where
  stopped : List AStarNode → Found → Matched
  gave_up : Matched
  spent : Matched

module _ (t : Terrain) (fpp : FindPathParams) (is_clear : ℕ → ℕ → Bool) (xs ys xt yt : ℕ) where
  -- The loop of getPathMatching; spent if the fuel runs out.
  unfoldable pub match_search : ℕ → List AStarNode → (best_match : ℕ) → Found → Matched
  match_search zero nodes best_match was_found = spent
  match_search (suc fuel) nodes best_match was_found =
      if not (goes_on t fpp is_clear xs ys xt yt nodes)
      then stopped nodes was_found
      else elim (get_best_node nodes) [
        | none ↦ if is_some was_found then stopped nodes was_found else gave_up
        | some i ↦ elim (get_elem? nodes i) [
          | none ↦ gave_up
          | some n ↦
              let r = condition t fpp is_clear xs ys xt yt n.x n.y best_match in
              let now_found = if r.0 then some (i, (n.x, n.y)) else was_found in
              if r.0 && r.1 == 0
              then stopped nodes now_found
              else elim (match_all t fpp is_clear xs ys xt yt (is_some now_found) i
                  (directions t fpp is_clear xs ys xt yt) nodes) [
                    | none ↦ gave_up
                    | some nodes' ↦ match_search fuel (close_node i nodes') r.1 now_found
                  ]
        ]
      ]

-- The direction that the second loop pushes for a position and that of its parent, if any.
abbrev pub direction_to : (px py x y : ℕ) → Option Direction
direction_to px py x y =
    if (x == px + 1) && (y == py + 1)
    then some northwest
    else if (x + 1 == px) && (y == py + 1)
    then some northeast
    else if (x == px + 1) && (y + 1 == py)
    then some southwest
    else if (x + 1 == px) && (y + 1 == py)
    then some southeast
    else if x == px + 1
    then some west
    else if x + 1 == px
    then some east
    else if y == py + 1
    then some north
    else if y + 1 == py
    then some south
    else none

-- The second loop, with the directions so far: push_front along the parents.
unfoldable pub trace_back :
    ℕ → List AStarNode → (px py : ℕ) → Option ℕ → List Direction → Option (List Direction)
trace_back fuel nodes px py none ds = some ds
trace_back zero nodes px py (some i) ds = none
trace_back (suc fuel) nodes px py (some i) ds = elim (get_elem? nodes i) [
  | none ↦ some ds
  | some n ↦ trace_back fuel nodes n.x n.y n.parent (push (direction_to px py n.x n.y) ds)
]

-- What follows the first loop. The cost falls from a node to its parent.
abbrev pub way_matched : Matched → Option (Bool × List Direction)
way_matched spent = none
way_matched gave_up = some (false, [])
way_matched (stopped nodes none) = some (false, [])
way_matched (stopped nodes (some (i, p))) = elim (get_elem? nodes i) [
  | none ↦ some (false, [])
  | some n ↦ elim (trace_back n.f nodes p.0 p.1 n.parent []) [
    | none ↦ none
    | some ds ↦ some (true, ds)
  ]
]

-- The first node.
abbrev pub first_node : (xs ys : ℕ) → AStarNode
first_node xs ys = record { x = xs; y = ys; parent = none; f = 0; g = 0; h = 0; is_open = true }

-- getPathMatching: the result and dirList. The outer none is fuel run out.
unfoldable pub get_path_matching :
    Terrain
    → FindPathParams
    → (is_clear : ℕ → ℕ → Bool) → (xs ys xt yt : ℕ) → Option (Bool × List Direction)
get_path_matching t fpp is_clear xs ys xt yt =
    way_matched (match_search t fpp is_clear xs ys xt yt search_fuel (first_node xs ys ∷ []) 0 none)
