-- ===== src/Map/Tests.antt =====
-- Runs of getTile and setTile, and the theorems at a concrete input.
use othire.Base.{[], ◌∷◌, List, true, false, if◌then◌else◌, arith, none, some, ◌≡◌, refl}
use othire.Map.{
  Tile, get_tile, set_tile, new_map, get_leaf, get_leaf_static, create_leaf, alter_leaf, put_tile,
  index, leaf_made, link,
}
use othire.Map.Tree.{get_leaf_static-eq}
use othire.Map.Tiles.{IsValid}
use othire.Map.Stored.{same_place, first}
use othire.Map.Refine.{
  Placement, set_tiles, first_at, placed, new_map-IsValid, set_tile-IsValid, get_tile-set_tile,
  set_tiles-first_at,
}

abbrev grass : Tile
grass = record { id = 1; refresh = false; down_items = []; qt_node = none }

abbrev water : Tile
water = record grass { id = 2; refresh = true }

-- The second tile comes too late, and the third is outside of the map.
abbrev placements : List Placement
placements =
    record { now = 0; x = 1000; y = 1017; z = 7; tile = grass }
    ∷ record { now = 1; x = 1000; y = 1017; z = 7; tile = water }
    ∷ record { now = 2; x = 1000; y = 1017; z = 16; tile = water }
    ∷ record { now = 3; x = 1007; y = 1017; z = 7; tile = water }
    ∷ []

first_stays :
    get_tile (set_tiles placements new_map) 1000 1017 7
    ≡ some (record grass { qt_node = some (125, 127) })
unfolding get_tile set_tile get_leaf get_leaf_static create_leaf alter_leaf put_tile index leaf_made
    link
first_stays = refl

same_leaf :
    get_tile (set_tiles placements new_map) 1007 1017 7
    ≡ some (record water { qt_node = some (125, 127) })
unfolding get_tile set_tile get_leaf get_leaf_static create_leaf alter_leaf put_tile index leaf_made
    link
same_leaf = refl

nothing_there : get_tile (set_tiles placements new_map) 1001 1017 7 ≡ none
unfolding get_tile set_tile get_leaf get_leaf_static create_leaf alter_leaf put_tile index leaf_made
    link
nothing_there = refl

set_tiles-first_at_example :
    get_tile (set_tiles placements new_map) 1000 1017 7 ≡ first_at placements 1000 1017 7
set_tiles-first_at_example = set_tiles-first_at placements 1000 1017 7

set_tile-IsValid_example : IsValid (set_tile 5 100 200 7 grass new_map)
set_tile-IsValid_example = set_tile-IsValid 5 100 200 7 grass new_map new_map-IsValid

get_tile-set_tile_example : get_tile (set_tile 5 100 200 7 grass new_map) 100 201 7 ≡ (
    if same_place 100 200 7 100 201 7
    then first (placed 100 200 grass) (get_tile new_map 100 200 7)
    else get_tile new_map 100 201 7)
get_tile-set_tile_example =
    get_tile-set_tile 5 100 200 7 grass new_map 100 201 7 new_map-IsValid refl

get_leaf_static-eq_example :
    get_leaf_static 15 (set_tile 5 100 200 7 grass new_map).root 100 200
    ≡ some (get_leaf (set_tile 5 100 200 7 grass new_map).root 100 200)
get_leaf_static-eq_example =
    get_leaf_static-eq 13 15 (set_tile 5 100 200 7 grass new_map).root 100 200
      (set_tile-IsValid 5 100 200 7 grass new_map new_map-IsValid).0 (omega arith)
