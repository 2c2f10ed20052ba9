-- ===== src/Search/Way.antt =====
-- The way that a search found (source/map.cpp, the end of getPathTo).
use othire.Base.{
  ℕ, zero, suc, ◌+◌, List, [], ◌∷◌, Bool, true, false, not, ◌&&◌, ◌==◌, if◌then◌else◌, Option, none,
  some, get_elem?,
}
use othire.Search.{
  AStarNode, Terrain, get_estimated_distance, Direction, Outcome, search, north, east, south, west,
  southwest, southeast, northwest, northeast, found, no_way, out_of_fuel,
}

-- The direction that the second loop pushes for a step from a position to the next, if any.
abbrev pub direction_of : (px py x y : ℕ) → Option Direction
direction_of px py x y =
    if (x + 1 == px) && (y + 1 == py)
    then some northwest
    else if (x == px + 1) && (y + 1 == py)
    then some northeast
    else if (x + 1 == px) && (y == py + 1)
    then some southwest
    else if (x == px + 1) && (y == py + 1)
    then some southeast
    else if x + 1 == px
    then some west
    else if x == px + 1
    then some east
    else if y + 1 == py
    then some north
    else if y == py + 1
    then some south
    else none

abbrev pub push : Option Direction → List Direction → List Direction
push none ds = ds
push (some d) ds = d ∷ ds

-- The second loop: the nodes from one on, along the parents; none if the fuel runs out.
unfoldable pub trace : ℕ → List AStarNode → (px py : ℕ) → Option ℕ → Option (List Direction)
trace fuel nodes px py none = some []
trace zero nodes px py (some i) = none
trace (suc fuel) nodes px py (some i) = elim (get_elem? nodes i) [
  | none ↦ some []
  | some n ↦ elim (trace fuel nodes n.x n.y n.parent) [
    | none ↦ none
    | some ds ↦ some (push (direction_of px py n.x n.y) ds)
  ]
]

-- The first node: the search starts at the destination.
abbrev pub start_node : (x y x_end y_end : ℕ) → AStarNode
start_node x y x_end y_end =
    let h = get_estimated_distance x y x_end y_end in
    record { x = x; y = y; parent = none; f = 0 + h; g = 0; h = h; is_open = true }

-- The cost of a node falls from a node to its parent, so its cost and one more is fuel enough.
abbrev pub trace_fuel : List AStarNode → ℕ → ℕ
trace_fuel nodes i = elim (get_elem? nodes i) [ none ↦ 0 | some n ↦ suc n.g ]

-- Rounds enough for any search: see Measure.
abbrev pub search_fuel : ℕ
search_fuel = 60000000

abbrev pub is_some_way : List Direction → Bool
is_some_way [] = false
is_some_way (d ∷ ds) = true

-- What follows the first loop.
abbrev pub way_of : (x_end y_end : ℕ) → Outcome → Option (Bool × List Direction)
way_of x_end y_end out_of_fuel = none
way_of x_end y_end no_way = some (false, [])
way_of x_end y_end (found nodes i) = elim (trace (trace_fuel nodes i) nodes x_end y_end (some i)) [
  | none ↦ none
  | some ds ↦ some (is_some_way ds, ds)
]

-- getPathTo from (x_end, y_end, z_end) where the creature stands, to the destination (x, y, z): the
-- result and listDir, whose contents at the call are an argument. The terrain is that of the
-- destination's floor. The outer none is fuel run out.
unfoldable pub get_path_to :
    Terrain
    → (list_dir : List Direction) → (max_search_dist : Option ℕ) → (x y z x_end y_end z_end : ℕ)
    → Option (Bool × List Direction)
get_path_to t list_dir max_search_dist x y z x_end y_end z_end =
    if not (t.can_walk x y)
    then some (false, list_dir)
    else if not (z == z_end)
    then some (false, [])
    else way_of x_end y_end
        (search t x_end y_end max_search_dist search_fuel (start_node x y x_end y_end ∷ []))
