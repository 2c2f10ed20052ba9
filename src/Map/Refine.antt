-- ===== src/Map/Refine.antt =====
-- The map as a function from positions to tiles (source/map.cpp, getTile and setTile): the first tile
-- that is set at a position stays.
use othire.Base.{
  ℕ, ◌%◌, ◌≡◌, refl, sym, ap, ◌∙◌, subst, Bool, true, false, not, ◌&&◌, if◌then◌else◌, Option, none,
  some, Bool-cases, inl, inr, List, [], ◌∷◌,
}
use othire.Map.{
  Tile, Map, get_tile, set_tile, is_outside, floor_size, leaf_key, new_map, leaf_made, put_tile,
  QTree, alter_leaf, get_leaf_static,
}
use othire.Map.Tree.{tile_at, alter_leaf-HasHeight, NotNull, HasHeight}
use othire.Map.Tiles.{IsValid, get_tile-tile_at, leaf_made-Keeps, if_false, alter_leaf-NotNull}
use othire.Map.Stored.{first, same_place, same_place-eq, stored-apart, stored-own}

-- what setTile stores
abbrev pub placed : (x y : ℕ) → Tile → Tile
placed x y tile = record tile { qt_node = some (leaf_key x y) }

root_inside :
    (now x y z : ℕ) (tile : Tile) (m : Map)
    → is_outside x y z ≡ false
    → (set_tile now x y z tile m).root
      ≡ alter_leaf
          (put_tile (placed x y tile) z (x % floor_size) (y % floor_size))
          (leaf_made x y m.root)
          x
          y
unfolding set_tile
root_inside now x y z tile m h = ap (λ (w : Map). w.root) (if_false (is_outside x y z) m _ h)

unchanged :
    (now x y z : ℕ) (tile : Tile) (m : Map)
    → is_outside x y z ≡ true
    → set_tile now x y z tile m ≡ m
unfolding set_tile
unchanged now x y z tile m h = if_true (is_outside x y z) _ h
  where
    if_true : (b : Bool) (n : Map) → b ≡ true → (if b then m else n) ≡ m
    if_true true n h = refl
    if_true false n h = cc

-- setTile keeps a map valid: every leaf of its tree is 13 nodes below the root, which is there.
pub set_tile-IsValid :
    (now x y z : ℕ) (tile : Tile) (m : Map) → IsValid m → IsValid (set_tile now x y z tile m)
set_tile-IsValid now x y z tile m v = elim (Bool-cases (is_outside x y z)) [
  | inl o ↦ subst IsValid (sym (unchanged now x y z tile m o)) v
  | inr i ↦
      let (h, _, _, full) = leaf_made-Keeps x y m.root v.0 v.1 in
      let f = put_tile (placed x y tile) z (x % floor_size) (y % floor_size) in
      subst (λ t. HasHeight 13 t × NotNull t) (sym (root_inside now x y z tile m i))
        (
          alter_leaf-HasHeight f 13 (leaf_made x y m.root) x y h,
          alter_leaf-NotNull f (leaf_made x y m.root) x y full,
        )
]

outside_none : (m : Map) (x y z : ℕ) → is_outside x y z ≡ true → get_tile m x y z ≡ none
unfolding get_tile
outside_none m x y z h = if_none (is_outside x y z) _ h
  where
    if_none : (b : Bool) (o : Option Tile) → b ≡ true → (if b then none else o) ≡ none
    if_none true o h = refl
    if_none false o h = cc

get_tile-ap :
    (m : Map) {x y z x' y' z' : ℕ}
    → (x ≡ x') × (y ≡ y') × (z ≡ z')
    → get_tile m x' y' z' ≡ get_tile m x y z
get_tile-ap m {x} {y} {z} {x'} {y'} {z'} (p, q, r) =
    ap (λ a. get_tile m a y' z') (sym p)
    ∙ ap (λ b. get_tile m x b z') (sym q)
    ∙ ap (get_tile m x y) (sym r)

if_true : (b : Bool) (s t : Option Tile) → b ≡ true → (if b then s else t) ≡ s
if_true true s t h = refl
if_true false s t h = cc

module _ (now x y z : ℕ) (tile : Tile) (m : Map) (v : IsValid m)
    (i : is_outside x y z ≡ false) where
  abbrev t : QTree
  t = leaf_made x y m.root

  own : get_tile (set_tile now x y z tile m) x y z ≡ first (placed x y tile) (get_tile m x y z)
  own =
      let (h, same, found, _) = leaf_made-Keeps x y m.root v.0 v.1 in
      get_tile-tile_at (set_tile now x y z tile m) x y z (set_tile-IsValid now x y z tile m v) i
      ∙ ap (λ r. tile_at r x y z (x % floor_size) (y % floor_size)) (root_inside now x y z tile m i)
      ∙ stored-own (placed x y tile) t x y z h found
      ∙ ap (first (placed x y tile))
          (same x y z (x % floor_size) (y % floor_size) ∙ sym (get_tile-tile_at m x y z v i))

  other :
      (x' y' z' : ℕ)
      → is_outside x' y' z' ≡ false
      → same_place x y z x' y' z' ≡ false
      → get_tile (set_tile now x y z tile m) x' y' z' ≡ get_tile m x' y' z'
  other x' y' z' i' ne =
      let (h, same, found, _) = leaf_made-Keeps x y m.root v.0 v.1 in
      get_tile-tile_at (set_tile now x y z tile m) x' y' z' (set_tile-IsValid now x y z tile m v) i'
      ∙ ap (λ r. tile_at r x' y' z' (x' % floor_size) (y' % floor_size))
          (root_inside now x y z tile m i)
      ∙ stored-apart (placed x y tile) t x y z x' y' z' h i i' ne
      ∙ same x' y' z' (x' % floor_size) (y' % floor_size)
      ∙ sym (get_tile-tile_at m x' y' z' v i')

-- After setTile on a valid map, at a position inside the map, getTile finds the tile there if none
-- was there before, and else the old one; at every other position it finds what it found before.
pub get_tile-set_tile :
    (now x y z : ℕ) (tile : Tile) (m : Map) (x' y' z' : ℕ)
    → IsValid m
    → is_outside x y z ≡ false
    → get_tile (set_tile now x y z tile m) x' y' z' ≡ (
        if same_place x y z x' y' z'
        then first (placed x y tile) (get_tile m x y z)
        else get_tile m x' y' z')
get_tile-set_tile now x y z tile m x' y' z' v i = elim (Bool-cases (same_place x y z x' y' z')) [
  | inl e ↦
      get_tile-ap (set_tile now x y z tile m) (same_place-eq x y z x' y' z' e)
      ∙ own now x y z tile m v i
      ∙ sym (if_true _ _ _ e)
  | inr e ↦ elim (Bool-cases (is_outside x' y' z')) [
    | inl o ↦ outside_none _ x' y' z' o ∙ sym (outside_none m x' y' z' o) ∙ sym (if_false _ _ _ e)
    | inr i' ↦ other now x y z tile m v i x' y' z' i' e ∙ sym (if_false _ _ _ e)
  ]
]

pub new_map-IsValid : IsValid new_map
new_map-IsValid = ((λ i. tt), tt)

get_tile-new_map : (x y z : ℕ) → get_tile new_map x y z ≡ none
unfolding get_tile get_leaf_static
get_tile-new_map x y z = elim (Bool-cases (is_outside x y z)) [
  | inl e ↦ outside_none new_map x y z e
  | inr e ↦ if_false (is_outside x y z) none none e
]

-- Calls of setTile in a row, each with its time and position.
pub record Placement : Type 0 where
  pub now : ℕ
  pub x : ℕ
  pub y : ℕ
  pub z : ℕ
  pub tile : Tile

abbrev pub set_tiles : List Placement → Map → Map
set_tiles [] m = m
set_tiles (p ∷ ps) m = set_tiles ps (set_tile p.now p.x p.y p.z p.tile m)

-- The specification: the first placement inside the map at the position.
abbrev pub first_at : List Placement → (x y z : ℕ) → Option Tile
first_at [] x y z = none
first_at (p ∷ ps) x y z =
    let later = first_at ps x y z in
    if not (is_outside p.x p.y p.z) && same_place p.x p.y p.z x y z
    then some (placed p.x p.y p.tile)
    else later

abbrev or_else : Option Tile → Option Tile → Option Tile
or_else none o = o
or_else (some tile) o = some tile

-- One placement before the others.
one_more :
    (p : Placement) (m : Map) (x y z : ℕ) (later : Option Tile)
    → IsValid m
    → or_else (get_tile (set_tile p.now p.x p.y p.z p.tile m) x y z) later
      ≡ or_else (get_tile m x y z) (
          if not (is_outside p.x p.y p.z) && same_place p.x p.y p.z x y z
          then some (placed p.x p.y p.tile)
          else later)
one_more p m x y z later v = elim (Bool-cases (is_outside p.x p.y p.z)) [
  | inl o ↦
      ap (λ n. or_else (get_tile n x y z) later) (unchanged p.now p.x p.y p.z p.tile m o)
      ∙ ap (or_else (get_tile m x y z))
          (sym (if_false _ _ later (ap (λ b. not b && same_place p.x p.y p.z x y z) o)))
  | inr i ↦
      ap (λ o. or_else o later) (get_tile-set_tile p.now p.x p.y p.z p.tile m x y z v i)
      ∙ same_or (is_outside p.x p.y p.z) (same_place p.x p.y p.z x y z) (get_tile m p.x p.y p.z)
          (get_tile m x y z) i (λ e. get_tile-ap m (same_place-eq p.x p.y p.z x y z e))
]
  where
    same_or :
        (o b : Bool) (old here : Option Tile)
        → o ≡ false
        → (b ≡ true → here ≡ old)
        → or_else (if b then first (placed p.x p.y p.tile) old else here) later
          ≡ or_else here (if not o && b then some (placed p.x p.y p.tile) else later)
    same_or true b old here h k = cc
    same_or false true none here h k =
        ap (λ w. or_else w (some (placed p.x p.y p.tile))) (sym (k refl))
    same_or false true (some tile) here h k =
        ap (λ w. or_else w (some (placed p.x p.y p.tile))) (sym (k refl))
    same_or false false old here h k = refl

set_tiles-or_else :
    (ps : List Placement) (m : Map) (x y z : ℕ)
    → IsValid m
    → get_tile (set_tiles ps m) x y z ≡ or_else (get_tile m x y z) (first_at ps x y z)
set_tiles-or_else [] m x y z v = or_none (get_tile m x y z)
  where
    or_none : (o : Option Tile) → o ≡ or_else o none
    or_none none = refl
    or_none (some tile) = refl
set_tiles-or_else (p ∷ ps) m x y z v =
    set_tiles-or_else ps (set_tile p.now p.x p.y p.z p.tile m) x y z
      (set_tile-IsValid p.now p.x p.y p.z p.tile m v)
    ∙ one_more p m x y z (first_at ps x y z) v

-- The map is the specification: whatever placements are made on a new map, getTile finds at a
-- position the tile of the first placement there, and none where none was made or the position is
-- outside of the map.
pub set_tiles-first_at :
    (ps : List Placement) (x y z : ℕ) → get_tile (set_tiles ps new_map) x y z ≡ first_at ps x y z
set_tiles-first_at ps x y z =
    set_tiles-or_else ps new_map x y z new_map-IsValid
    ∙ ap (λ o. or_else o (first_at ps x y z)) (get_tile-new_map x y z)
