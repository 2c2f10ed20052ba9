-- ===== src/Search/Matching/Tests.antt =====
-- Runs of getPathMatching, and its theorem at a concrete input.
use othire.Base.{[], ◌∷◌, true, false, not, ◌&&◌, ◌==◌, ltb, some, ◌≡◌, refl}
use othire.Search.{
  Terrain, get_best_node, get_node_in_list, get_map_walk_cost, get_tile_walk_cost, store, visit_by,
  count_closed_nodes, north, east,
}
use othire.Search.Matching.{
  FindPathParams, is_in_range, condition, match_reach, match_visit, match_all, match_search,
  trace_back, get_path_matching,
}
use othire.Search.Matching.Sound.{MatchResult, get_path_matching-Walks}

-- Everything can be walked but the place (11, 10).
abbrev one_wall : Terrain
one_wall = record {
  can_walk = λ x y. not (x == 11 && y == 10) && (ltb x 16 && ltb y 16);
  has_field = λ x y. false;
  is_player = false;
  is_blocked = λ x y. false;
  is_harmful = λ x y. false;
}

-- Next to the target.
abbrev follow : FindPathParams
follow = record {
  full_path_search = true;
  clear_sight = true;
  allow_diagonal = true;
  keep_distance = false;
  max_search_dist = some 5;
  min_target_dist = 1;
  max_target_dist = 1;
}

next_to_target : condition one_wall follow (λ x y. true) 10 10 13 10 12 10 0 ≡ (true, 0)
unfolding condition is_in_range
next_to_target = refl

on_target : condition one_wall follow (λ x y. true) 10 10 13 10 13 10 0 ≡ (false, 0)
unfolding condition is_in_range
on_target = refl

best_so_far :
    condition one_wall (record follow { max_target_dist = 4 }) (λ x y. true) 10 10 13 10 10 10 1
    ≡ (true, 3)
unfolding condition is_in_range
best_so_far = refl

around_the_wall :
    get_path_matching one_wall follow (λ x y. true) 10 10 13 10
    ≡ some (true, north ∷ east ∷ east ∷ [])
unfolding get_path_matching match_search match_all match_visit match_reach store visit_by condition
    is_in_range trace_back get_best_node count_closed_nodes get_node_in_list get_map_walk_cost
    get_tile_walk_cost
around_the_wall = refl

get_path_matching-Walks_example :
    MatchResult one_wall follow
      (λ x y. true)
      10
      10
      13
      10
      (get_path_matching one_wall follow (λ x y. true) 10 10 13 10)
get_path_matching-Walks_example = get_path_matching-Walks one_wall follow (λ x y. true) 10 10 13 10
