-- ===== src/Map.antt =====
-- The tiles of the map (source/map.h, source/map.cpp: QTreeNode, QTreeLeafNode, Floor, getTile,
-- setTile). A pointer to a leaf is the pair of coordinates that the leaf covers, divided by the size
-- of a floor; the list of creatures of a leaf is left out.
pub mod Path
pub mod Tree
pub mod Tiles
pub mod Stored
pub mod Refine
mod Tests
use othire.Base.{
  ℕ, zero, suc, ◌+◌, ◌-◌, ◌*◌, ◌/◌, ◌%◌, ◌^◌, List, [], ◌∷◌, Bool, true, false, not, ◌&&◌, ◌||◌,
  leb, ◌==◌, if◌then◌else◌, Option, none, some,
}

-- FLOOR_BITS, FLOOR_SIZE and MAP_MAX_LAYERS
abbrev pub floor_bits : ℕ
floor_bits = 3

abbrev pub floor_size : ℕ
floor_size = 8

abbrev pub max_layers : ℕ
max_layers = 16

-- What the map asks of a tile: the flag TILESTATE_REFRESH and the items below the creatures, and
-- qt_node, which setTile sets.
pub record Tile : Type 0 where
  pub id : ℕ
  pub refresh : Bool
  pub down_items : List ℕ
  pub qt_node : Option (ℕ × ℕ)

abbrev pub Floor : Type 0
Floor = ℕ → ℕ → Option Tile

-- m_array, m_leafS and m_leafE
pub record Leaf : Type 0 where
  pub floors : ℕ → Option Floor
  pub leaf_s : Option (ℕ × ℕ)
  pub leaf_e : Option (ℕ × ℕ)

-- A pointer to a QTreeNode, with its m_child.
pub data QTree : Type 0 where
  null : QTree
  node : (ℕ → QTree) → QTree
  leaf : Leaf → QTree

abbrev pub new_node : QTree
new_node = node (λ i. null)

abbrev pub new_leaf : Leaf
new_leaf = record { floors = λ z. none; leaf_s = none; leaf_e = none }

abbrev pub double : ℕ → ℕ
double x = x * 2 % 2 ^ 32

-- ((x & 0x8000) >> 15) | ((y & 0x8000) >> 14)
unfoldable pub index : ℕ → ℕ → ℕ
index x y = x / 2 ^ 15 % 2 + 2 * (y / 2 ^ 15 % 2)

unfoldable pub get_leaf : QTree → ℕ → ℕ → Option Leaf
get_leaf null x y = none
get_leaf (leaf l) x y = some l
get_leaf (node child) x y = get_leaf (child (index x y)) (double x) (double y)

-- A round of the loop of getLeafStatic: it goes on with a child, or returns.
pub data Round : Type 0 where
  goes_on : QTree → ℕ → ℕ → Round
  returns : Option Leaf → Round

abbrev pub static_round : QTree → ℕ → ℕ → Round
static_round null x y = returns none
static_round (leaf l) x y = returns (some l)
static_round (node child) x y = goes_on (child (index x y)) (double x) (double y)

-- getLeafStatic; a round for each unit of fuel, and none of the outer kind if it runs out
unfoldable pub get_leaf_static : ℕ → QTree → ℕ → ℕ → Option (Option Leaf)
get_leaf_static zero t x y = none
get_leaf_static (suc fuel) t x y = elim (static_round t x y) [
  | returns r ↦ some r
  | goes_on t' x' y' ↦ get_leaf_static fuel t' x' y'
]

abbrev pub replace_child : (ℕ → QTree) → ℕ → QTree → QTree
replace_child child i t = node (λ j. if j == i then t else child j)

-- The child that createLeaf goes on with, and whether it is a new leaf.
abbrev pub open_child : ℕ → QTree → Bool × QTree
open_child level null = if level == floor_bits then (true, leaf new_leaf) else (false, new_node)
open_child level (node child) = (false, node child)
open_child level (leaf l) = (false, leaf l)

-- createLeaf: whether it made a leaf (newLeaf), and the tree. It is called on no null, and the level
-- is at least FLOOR_BITS - 1.
unfoldable pub create_leaf : ℕ → ℕ → ℕ → QTree → Bool × QTree
create_leaf level x y null = (false, null)
create_leaf level x y (leaf l) = (false, leaf l)
create_leaf zero x y (node child) = (false, node child)
create_leaf (suc level) x y (node child) =
    let i = index x y in
    let c = open_child (suc level) (child i) in
    let r = create_leaf level (double x) (double y) c.1 in (c.0 || r.0, replace_child child i r.1)

-- A change to the leaf that a coordinate leads to.
unfoldable pub alter_leaf : (Leaf → Leaf) → QTree → ℕ → ℕ → QTree
alter_leaf f null x y = null
alter_leaf f (leaf l) x y = leaf (f l)
alter_leaf f (node child) x y =
    replace_child child (index x y) (alter_leaf f (child (index x y)) (double x) (double y))

abbrev pub leaf_key : ℕ → ℕ → ℕ × ℕ
leaf_key x y = (x / floor_size, y / floor_size)

-- The coordinates of getLeaf are uint32_t: a step off the edge wraps.
abbrev pub back : ℕ → ℕ
back x = (x + 2 ^ 32 - floor_size) % 2 ^ 32

abbrev pub forth : ℕ → ℕ
forth x = (x + floor_size) % 2 ^ 32

abbrev pub is_there : QTree → ℕ → ℕ → Bool
is_there t x y = elim (get_leaf t x y) [ none ↦ false | some l ↦ true ]

-- The links between a new leaf and its neighbours. The key of a neighbour is of 16 bits, as the
-- tree reads no more of a coordinate.
unfoldable pub link : ℕ → ℕ → QTree → QTree
unfolding get_leaf alter_leaf
link x y t =
    let key = leaf_key x y in
    let north = alter_leaf (λ l. record l { leaf_s = some key }) t x (back y) in
    let west = alter_leaf (λ l. record l { leaf_e = some key }) north (back x) y in
    let south =
      if is_there west x (forth y)
      then alter_leaf (λ l. record l { leaf_s = some (leaf_key x (forth y % 2 ^ 16)) }) west x y
      else west in
    if is_there south (forth x) y
    then alter_leaf (λ l. record l { leaf_e = some (leaf_key (forth x % 2 ^ 16) y) }) south x y
    else south

abbrev pub empty_floor : Floor
empty_floor i j = none

-- createFloor
abbrev pub floor_of : Leaf → ℕ → Floor
floor_of l z = elim (l.floors z) [ none ↦ empty_floor | some f ↦ f ]

abbrev pub put_in_floor : Tile → ℕ → ℕ → Floor → Floor
put_in_floor tile i j floor a b = if a == i && b == j then some tile else floor a b

-- A floor of the leaf is made if it is not there, and the tile stored if its place is free.
unfoldable pub put_tile : Tile → (z i j : ℕ) → Leaf → Leaf
put_tile tile z i j l =
    let floor = floor_of l z in
    let floor' : Floor = elim (floor i j) [
      | none ↦ put_in_floor tile i j floor
      | some old ↦ floor
    ] in
    record l { floors = λ h. if h == z then some floor' else l.floors h }

-- RefreshBlock_t
pub record RefreshBlock : Type 0 where
  pub last_refresh : ℕ
  pub list : List ℕ

-- root and refreshTileMap, whose keys are tiles
pub record Map : Type 0 where
  pub root : QTree
  pub refresh_tile_map : List (ℕ × RefreshBlock)

abbrev pub set_block : ℕ → RefreshBlock → List (ℕ × RefreshBlock) → List (ℕ × RefreshBlock)
set_block id block [] = (id, block) ∷ []
set_block id block ((id', block') ∷ rest) =
    let rest' = set_block id block rest in
    if id == id' then (id, block) ∷ rest else (id', block') ∷ rest'

abbrev pub is_outside : (x y z : ℕ) → Bool
is_outside x y z = leb 0xFFFF x || leb 0xFFFF y || leb max_layers z

abbrev pub tile_in : Leaf → (z i j : ℕ) → Option Tile
tile_in l z i j = elim (l.floors z) [ none ↦ none | some floor ↦ floor i j ]

abbrev pub tile_found : Option (Option Leaf) → (z i j : ℕ) → Option Tile
tile_found none z i j = none
tile_found (some none) z i j = none
tile_found (some (some l)) z i j = tile_in l z i j

-- getTile, where no coordinate is negative. The tree has at most 14 nodes on a path.
unfoldable pub get_tile : Map → (x y z : ℕ) → Option Tile
get_tile m x y z =
    if is_outside x y z
    then none
    else tile_found (get_leaf_static 15 m.root x y) z (x % floor_size) (y % floor_size)

-- createLeaf, and the links of a leaf that it made.
unfoldable pub leaf_made : (x y : ℕ) → QTree → QTree
leaf_made x y root =
    let created = create_leaf 15 x y root in if created.0 then link x y created.1 else created.1

-- setTile at the time `now`, where no coordinate is negative.
unfoldable pub set_tile : (now x y z : ℕ) → Tile → Map → Map
set_tile now x y z tile m =
    if is_outside x y z
    then m
    else (let stored = record tile { qt_node = some (leaf_key x y) } in
        record {
          root =
              alter_leaf (put_tile stored z (x % floor_size) (y % floor_size))
                (leaf_made x y m.root) x y;
          refresh_tile_map =
              if tile.refresh
              then set_block tile.id (record { last_refresh = now; list = tile.down_items })
                  m.refresh_tile_map
              else m.refresh_tile_map;
        })

-- the constructor
abbrev pub new_map : Map
new_map = record { root = new_node; refresh_tile_map = [] }
