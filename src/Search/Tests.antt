-- ===== src/Search/Tests.antt =====
-- Runs of the search for a way, and its theorem at a concrete input.
use othire.Base.{[], ◌∷◌, true, false, not, ◌&&◌, ◌==◌, ltb, none, some, ◌≡◌, refl, false, ◌⊎◌}
use othire.Search.{
  Terrain, AStarNode, get_best_node, get_node_in_list, get_estimated_distance, get_map_walk_cost,
  get_tile_walk_cost, reach, visit, visit_all, search, count_closed_nodes, north, east, south,
  southeast, close_node, store, visit_by,
}
use othire.Search.Way.{trace, get_path_to, start_node}
use othire.Search.Sound.{Result, get_path_to-Walks}

-- Everything can be walked but the place (11, 10).
abbrev wall : Terrain
wall = record {
  can_walk = λ x y. not (x == 11 && y == 10) && (ltb x 16 && ltb y 16);
  has_field = λ x y. false;
  is_player = true;
  is_blocked = λ x y. false;
  is_harmful = λ x y. false;
}

abbrev field : Terrain
field = record wall { has_field = λ x y. x == 12 }

estimated : get_estimated_distance 3 4 10 6 ≡ 100
unfolding get_estimated_distance
estimated = refl

abbrev first_node : AStarNode
first_node = start_node 10 10 12 10

closed_is_not_best :
    get_best_node (close_node 1 (first_node ∷ record first_node { f = 7 } ∷ [])) ≡ some 0
unfolding get_best_node get_estimated_distance
closed_is_not_best = refl

straight : get_path_to wall [] none 10 12 7 10 10 7 ≡ some (true, south ∷ south ∷ [])
unfolding get_path_to search trace visit_all visit reach store visit_by get_best_node
    count_closed_nodes get_node_in_list get_estimated_distance get_map_walk_cost get_tile_walk_cost
straight = refl

-- Around the wall; the directions say the way from (10, 10) to (12, 10).
around : get_path_to field [] (some 1) 12 10 7 10 10 7 ≡ some (true, north ∷ east ∷ southeast ∷ [])
unfolding get_path_to search trace visit_all visit reach store visit_by get_best_node
    count_closed_nodes get_node_in_list get_estimated_distance get_map_walk_cost get_tile_walk_cost
around = refl

already_there : get_path_to wall [] none 10 10 7 10 10 7 ≡ some (false, [])
unfolding get_path_to search trace visit_all visit reach store visit_by get_best_node
    count_closed_nodes get_node_in_list get_estimated_distance get_map_walk_cost get_tile_walk_cost
already_there = refl

-- No node of another column is in range.
out_of_reach : get_path_to wall [] (some 0) 12 10 7 10 10 7 ≡ some (false, [])
unfolding get_path_to search trace visit_all visit reach store visit_by get_best_node
    count_closed_nodes get_node_in_list get_estimated_distance get_map_walk_cost get_tile_walk_cost
out_of_reach = refl

other_floor : get_path_to wall (north ∷ []) none 12 10 7 10 10 6 ≡ some (false, [])
unfolding get_path_to
other_floor = refl

-- No one can walk to the destination, and listDir keeps what it held.
into_the_wall : get_path_to wall (north ∷ []) none 11 10 7 10 10 7 ≡ some (false, north ∷ [])
unfolding get_path_to
into_the_wall = refl

get_path_to-Walks_example :
    ((wall.can_walk 12 10 ≡ false)
      × (get_path_to wall (north ∷ []) none 12 10 7 10 10 7 ≡ some (false, north ∷ [])))
    ⊎ ((wall.can_walk 12 10 ≡ true)
        × Result wall (10, 10) (12, 10) (get_path_to wall (north ∷ []) none 12 10 7 10 10 7))
get_path_to-Walks_example = get_path_to-Walks wall (north ∷ []) none 12 10 7 10 10 7
