-- ===== src/Map/Tiles.antt =====
-- The leaf that setTile makes, and what getTile reads (source/map.cpp).
use othire.Base.{
  ℕ, ◌%◌, ◌^◌, ◌≡◌, refl, ap, ◌∙◌, Bool, true, false, if◌then◌else◌, arith, Option, none, some,
}
use othire.Map.{
  QTree, null, node, leaf, Leaf, get_leaf, alter_leaf, create_leaf, tile_in, link, back, forth,
  leaf_key, is_there, Map, get_tile, is_outside, floor_size, tile_found, leaf_made,
}
use othire.Map.Path.{same_path}
use othire.Map.Tree.{
  HasHeight, get_leaf_static-eq, alter_leaf-HasHeight, map_leaf, get_leaf-alter_leaf, tile_of,
  tile_at, create_leaf-tiles, create_leaf-HasHeight, NotNull, create_leaf-NotNull,
  create_leaf-found,
}

-- The root is a node over leaves 13 steps below.
abbrev pub IsValid : Map → Type 0
IsValid m = HasHeight 13 m.root × NotNull m.root

-- A change to a leaf that keeps its tiles keeps those of the tree.
abbrev KeepsTiles : (Leaf → Leaf) → Type 0
KeepsTiles f = (l : Leaf) (z i j : ℕ) → tile_in (f l) z i j ≡ tile_in l z i j

abbrev pub Same : QTree → QTree → Type 0
Same t u = (x y z i j : ℕ) → tile_at t x y z i j ≡ tile_at u x y z i j

alter_leaf-tiles :
    (f : Leaf → Leaf)
    → KeepsTiles f
    → (t : QTree) (x y : ℕ) → HasHeight 13 t
    → Same (alter_leaf f t x y) t
alter_leaf-tiles f k t x y h x' y' z i j =
    ap (λ o. tile_of o z i j) (get_leaf-alter_leaf f 13 t x y x' y' h)
    ∙ kept (same_path 13 x y x' y') (get_leaf t x' y')
  where
    kept :
        (b : Bool) (o : Option Leaf)
        → tile_of (if b then map_leaf f o else o) z i j ≡ tile_of o z i j
    kept true none = refl
    kept true (some l) = k l z i j
    kept false o = refl

-- A tree of the same height with the same tiles, and with leaves wherever there were leaves.
abbrev pub Keeps : QTree → QTree → Type 0
Keeps t u =
    HasHeight 13 u
    × Same u t
    × ((x y : ℕ) → is_there t x y ≡ true → is_there u x y ≡ true)
    × (NotNull t → NotNull u)

Keeps-refl : (t : QTree) → HasHeight 13 t → Keeps t t
Keeps-refl t h = (h, (λ x y z i j. refl), (λ x y k. k), λ p. p)

Keeps-trans : (t u v : QTree) → Keeps t u → Keeps u v → Keeps t v
Keeps-trans t u v a b = (
  b.0,
  (λ x y z i j. b.1 x y z i j ∙ a.1 x y z i j),
  (λ x y h. b.2 x y (a.2 x y h)),
  λ p. b.3 (a.3 p),
)

abbrev pub is_found : Option Leaf → Bool
is_found none = false
is_found (some l) = true

alter_leaf-found :
    (f : Leaf → Leaf) (t : QTree) (x y : ℕ)
    → HasHeight 13 t
    → (x' y' : ℕ) → is_there t x' y' ≡ true
    → is_there (alter_leaf f t x y) x' y' ≡ true
alter_leaf-found f t x y h x' y' k =
    ap is_found (get_leaf-alter_leaf f 13 t x y x' y' h)
    ∙ still (same_path 13 x y x' y') (get_leaf t x' y') k
  where
    still :
        (b : Bool) (o : Option Leaf)
        → is_found o ≡ true
        → is_found (if b then map_leaf f o else o) ≡ true
    still true none h = cc
    still true (some l) h = refl
    still false o h = h

pub alter_leaf-NotNull :
    (f : Leaf → Leaf) (t : QTree) (x y : ℕ) → NotNull t → NotNull (alter_leaf f t x y)
unfolding alter_leaf
alter_leaf-NotNull f null x y h = h
alter_leaf-NotNull f (leaf l) x y h = tt
alter_leaf-NotNull f (node child) x y h = tt

alter_leaf-Keeps :
    (f : Leaf → Leaf)
    → KeepsTiles f
    → (t : QTree) (x y : ℕ) → HasHeight 13 t
    → Keeps t (alter_leaf f t x y)
alter_leaf-Keeps f k t x y h = (
  alter_leaf-HasHeight f 13 t x y h,
  alter_leaf-tiles f k t x y h,
  alter_leaf-found f t x y h,
  alter_leaf-NotNull f t x y,
)

if_Keeps : (b : Bool) (t u : QTree) → HasHeight 13 t → Keeps t u → Keeps t (if b then u else t)
if_Keeps true t u h k = k
if_Keeps false t u h k = Keeps-refl t h

link-Keeps : (x y : ℕ) (t : QTree) → HasHeight 13 t → Keeps t (link x y t)
unfolding link
link-Keeps x y t h =
    let key = leaf_key x y in
    let north = alter_leaf (λ l. record l { leaf_s = some key }) t x (back y) in
    let west = alter_leaf (λ l. record l { leaf_e = some key }) north (back x) y in
    let south : QTree =
      if is_there west x (forth y)
      then alter_leaf (λ l. record l { leaf_s = some (leaf_key x (forth y % 2 ^ 16)) }) west x y
      else west in
    let a : Keeps t north = alter_leaf-Keeps _ (λ l z i j. refl) t x (back y) h in
    let b : Keeps north west = alter_leaf-Keeps _ (λ l z i j. refl) north (back x) y a.0 in
    let c : Keeps west south =
      if_Keeps (is_there west x (forth y)) west _ b.0
        (alter_leaf-Keeps _ (λ l z i j. refl) west x y b.0) in
    let d = if_Keeps (is_there south (forth x) y) south _ c.0 (
      alter_leaf-Keeps (λ l. record l { leaf_e = some (leaf_key (forth x % 2 ^ 16) y) })
        (λ l z i j. refl) south x y c.0) in
    Keeps-trans t north _ a (Keeps-trans north west _ b (Keeps-trans west south _ c d))

pub if_false {ℓ} : {A : Type ℓ} (b : Bool) (s t : A) → b ≡ false → (if b then s else t) ≡ t
if_false true s t h = cc
if_false false s t h = refl

-- What getTile reads from a valid map.
pub get_tile-tile_at :
    (m : Map) (x y z : ℕ)
    → IsValid m
    → is_outside x y z ≡ false
    → get_tile m x y z ≡ tile_at m.root x y z (x % floor_size) (y % floor_size)
unfolding get_tile
get_tile-tile_at m x y z v h =
    if_false _ _ _ h
    ∙ ap (λ o. tile_found o z (x % floor_size) (y % floor_size))
        (get_leaf_static-eq 13 15 m.root x y v.0 (omega arith))
    ∙ found (get_leaf m.root x y)
  where
    found :
        (o : Option Leaf)
        → tile_found (some o) z (x % floor_size) (y % floor_size)
          ≡ tile_of o z (x % floor_size) (y % floor_size)
    found none = refl
    found (some l) = refl

create_leaf-Keeps :
    (x y : ℕ) (t : QTree)
    → HasHeight 13 t
    → NotNull t
    → HasHeight 13 (create_leaf 15 x y t).1
      × Same (create_leaf 15 x y t).1 t
      × (is_there (create_leaf 15 x y t).1 x y ≡ true)
create_leaf-Keeps x y t h p =
    let (l, e) = create_leaf-found 13 t x y h p in
    (
      create_leaf-HasHeight 13 t x y h,
      (λ x' y' z i j. create_leaf-tiles 15 t x y x' y' z i j),
      ap is_found e,
    )

-- createLeaf and the links keep the tiles and lead to a leaf.
pub leaf_made-Keeps :
    (x y : ℕ) (t : QTree)
    → HasHeight 13 t
    → NotNull t
    → HasHeight 13 (leaf_made x y t)
      × Same (leaf_made x y t) t
      × (is_there (leaf_made x y t) x y ≡ true)
      × NotNull (leaf_made x y t)
unfolding leaf_made
leaf_made-Keeps x y t h p =
    let c = create_leaf 15 x y t in
    let (a, b, found) = create_leaf-Keeps x y t h p in
    let k = if_Keeps c.0 c.1 (link x y c.1) a (link-Keeps x y c.1 a) in
    (
      k.0,
      (λ x' y' z i j. k.1 x' y' z i j ∙ b x' y' z i j),
      k.2 x y found,
      k.3 (create_leaf-NotNull 15 t x y p),
    )
