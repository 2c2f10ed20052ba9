-- ===== src/Map/Tree.antt =====
-- The tree of leaves under its operations (source/map.cpp, QTreeNode).
use othire.Base.{
  ℕ, zero, suc, ◌<◌, ◌≡◌, refl, sym, ◌∙◌, subst, Bool, true, false, ◌&&◌, ◌==◌, if◌then◌else◌,
  arith, Option, none, some, Bool-cases, inl, inr,
}
use othire.Map.{
  QTree, null, node, leaf, Leaf, index, double, get_leaf, get_leaf_static, alter_leaf, create_leaf,
  open_child, replace_child, Tile, tile_in, floor_bits,
}
use othire.Map.Path.{same_path}

-- All leaves that the tree has are n steps below it.
abbrev pub HasHeight : ℕ → QTree → Type 0
HasHeight n null = Unit {0}
HasHeight zero (leaf l) = Unit {0}
HasHeight (suc n) (leaf l) = ⊥
HasHeight zero (node child) = ⊥
HasHeight (suc n) (node child) = (i : ℕ) → HasHeight n (child i)

-- getLeafStatic finds what getLeaf finds, in one round more than the tree is high.
pub get_leaf_static-eq :
    (n fuel : ℕ) (t : QTree) (x y : ℕ)
    → HasHeight n t
    → n < fuel
    → get_leaf_static fuel t x y ≡ some (get_leaf t x y)
unfolding get_leaf get_leaf_static
get_leaf_static-eq n zero t x y h lt = absurd (omega (arith, lt))
get_leaf_static-eq n (suc fuel) null x y h lt = refl
get_leaf_static-eq n (suc fuel) (leaf l) x y h lt = refl
get_leaf_static-eq zero (suc fuel) (node child) x y h lt = absurd h
get_leaf_static-eq (suc n) (suc fuel) (node child) x y h lt =
    get_leaf_static-eq n fuel (child (index x y)) (double x) (double y) (h (index x y))
      (omega (arith, lt))

if_HasHeight :
    (n : ℕ) (b : Bool) (t u : QTree)
    → HasHeight n t
    → HasHeight n u
    → HasHeight n (if b then t else u)
if_HasHeight n true t u h k = h
if_HasHeight n false t u h k = k

replace_child-HasHeight :
    (n i : ℕ) (child : ℕ → QTree) (t : QTree)
    → ((j : ℕ) → HasHeight n (child j))
    → HasHeight n t
    → HasHeight (suc n) (replace_child child i t)
replace_child-HasHeight n i child t h k = λ j. if_HasHeight n (j == i) t (child j) k (h j)

pub alter_leaf-HasHeight :
    (f : Leaf → Leaf) (n : ℕ) (t : QTree) (x y : ℕ)
    → HasHeight n t
    → HasHeight n (alter_leaf f t x y)
unfolding alter_leaf
alter_leaf-HasHeight f n null x y h = tt
alter_leaf-HasHeight f zero (leaf l) x y h = tt
alter_leaf-HasHeight f (suc n) (leaf l) x y h = h
alter_leaf-HasHeight f zero (node child) x y h = h
alter_leaf-HasHeight f (suc n) (node child) x y h =
    replace_child-HasHeight n (index x y) child _ h
      (alter_leaf-HasHeight f n (child (index x y)) (double x) (double y) (h (index x y)))

abbrev pub map_leaf : (Leaf → Leaf) → Option Leaf → Option Leaf
map_leaf f none = none
map_leaf f (some l) = some (f l)

if_same {ℓ} : {A : Type ℓ} (b : Bool) (a : A) → a ≡ (if b then a else a)
if_same true a = refl
if_same false a = refl

-- What is seen through a node of which one child was replaced.
module _ (child : ℕ → QTree) (i : ℕ) (u : QTree) (x y : ℕ) (b : Bool)
    (f : Option Leaf → Option Leaf) where
  abbrev Sees : ℕ → Type 0
  Sees i' =
      get_leaf (if i' == i then u else child i') x y
      ≡ (if (i == i') && b then f (get_leaf (child i') x y) else get_leaf (child i') x y)

  replaced-Sees :
      get_leaf u x y ≡ (if b then f (get_leaf (child i) x y) else get_leaf (child i) x y)
      → (i' : ℕ) → Sees i'
  replaced-Sees h i' = elim (Bool-cases (i' == i)) [
    | inl e ↦
        let q : i' ≡ i = ground (arith, e) in
        let d : (i == i) ≡ true = ground arith in subst Sees (sym q) (rw d h)
    | inr e ↦ let d : (i == i') ≡ false = ground (arith, e) in rw (e, d) refl
  ]

-- A change to one leaf is seen from the coordinates that share its path, and from no other.
pub get_leaf-alter_leaf :
    (f : Leaf → Leaf) (n : ℕ) (t : QTree) (x y x' y' : ℕ)
    → HasHeight n t
    → get_leaf (alter_leaf f t x y) x' y'
      ≡ (if same_path n x y x' y' then map_leaf f (get_leaf t x' y') else get_leaf t x' y')
unfolding get_leaf alter_leaf
get_leaf-alter_leaf f n null x y x' y' h = if_same (same_path n x y x' y') none
get_leaf-alter_leaf f zero (leaf l) x y x' y' h = refl
get_leaf-alter_leaf f (suc n) (leaf l) x y x' y' h = absurd h
get_leaf-alter_leaf f zero (node child) x y x' y' h = absurd h
get_leaf-alter_leaf f (suc n) (node child) x y x' y' h =
    let i = index x y in
    let r = get_leaf-alter_leaf f n (child i) (double x) (double y) (double x') (double y') (h i) in
    replaced-Sees child i _ (double x') (double y')
      (same_path n (double x) (double y) (double x') (double y')) (map_leaf f) r (index x' y')

-- The tile in a place of the leaf that was found.
abbrev pub tile_of : Option Leaf → (z i j : ℕ) → Option Tile
tile_of none z i j = none
tile_of (some l) z i j = tile_in l z i j

abbrev pub tile_at : QTree → (x y z i j : ℕ) → Option Tile
tile_at t x y z i j = tile_of (get_leaf t x y) z i j

-- A new leaf or node has no tile.
open_child-tiles :
    (level : ℕ) (t : QTree) (x y z i j : ℕ)
    → tile_at (open_child level t).1 x y z i j ≡ tile_at t x y z i j
unfolding get_leaf
open_child-tiles level null x y z i j = elim (Bool-cases (level == floor_bits)) [
  | inl e ↦ rw e refl
  | inr e ↦ rw e refl
]
open_child-tiles level (node child) x y z i j = refl
open_child-tiles level (leaf l) x y z i j = refl

tile_at-replace :
    (child : ℕ → QTree) (i : ℕ) (u : QTree) (x y z a b : ℕ)
    → tile_at u x y z a b ≡ tile_at (child i) x y z a b
    → (i' : ℕ) → tile_at (if i' == i then u else child i') x y z a b ≡ tile_at (child i') x y z a b
tile_at-replace child i u x y z a b h i' = elim (Bool-cases (i' == i)) [
  | inl e ↦
      let q : i' ≡ i = ground (arith, e) in
      rw e (subst (λ k. tile_at u x y z a b ≡ tile_at (child k) x y z a b) (sym q) h)
  | inr e ↦ rw e refl
]

tile_at-node :
    (child : ℕ → QTree) (k : ℕ) (u : QTree) (x' y' z i j : ℕ)
    → tile_at u (double x') (double y') z i j ≡ tile_at (child k) (double x') (double y') z i j
    → tile_at (replace_child child k u) x' y' z i j ≡ tile_at (node child) x' y' z i j
unfolding get_leaf
tile_at-node child k u x' y' z i j h =
    tile_at-replace child k u (double x') (double y') z i j h (index x' y')

-- createLeaf changes no tile.
pub create_leaf-tiles :
    (level : ℕ) (t : QTree) (x y x' y' z i j : ℕ)
    → tile_at (create_leaf level x y t).1 x' y' z i j ≡ tile_at t x' y' z i j
unfolding create_leaf
create_leaf-tiles level null x y x' y' z i j = refl
create_leaf-tiles level (leaf l) x y x' y' z i j = refl
create_leaf-tiles zero (node child) x y x' y' z i j = refl
create_leaf-tiles (suc level) (node child) x y x' y' z i j =
    let k = index x y in
    let c = open_child (suc level) (child k) in
    tile_at-node child k (create_leaf level (double x) (double y) c.1).1 x' y' z i j (
      create_leaf-tiles level c.1 (double x) (double y) (double x') (double y') z i j
      ∙ open_child-tiles (suc level) (child k) (double x') (double y') z i j)

-- The level of a node at height n + 1 is n + FLOOR_BITS.
open_child-HasHeight :
    (n : ℕ) (t : QTree) → HasHeight n t → HasHeight n (open_child (suc (suc (suc n))) t).1
open_child-HasHeight zero null h = tt
open_child-HasHeight zero (leaf l) h = tt
open_child-HasHeight zero (node child) h = h
open_child-HasHeight (suc n) null h =
    let e : (suc (suc (suc (suc n))) == floor_bits) ≡ false = ground arith in rw e (λ i. tt)
open_child-HasHeight (suc n) (leaf l) h = h
open_child-HasHeight (suc n) (node child) h = h

pub create_leaf-HasHeight :
    (n : ℕ) (t : QTree) (x y : ℕ) → HasHeight n t → HasHeight n (create_leaf (suc (suc n)) x y t).1
unfolding create_leaf
create_leaf-HasHeight n null x y h = tt
create_leaf-HasHeight zero (leaf l) x y h = tt
create_leaf-HasHeight (suc n) (leaf l) x y h = h
create_leaf-HasHeight zero (node child) x y h = absurd h
create_leaf-HasHeight (suc n) (node child) x y h =
    let i = index x y in
    let c = open_child (suc (suc (suc n))) (child i) in
    replace_child-HasHeight n i child (create_leaf (suc (suc n)) (double x) (double y) c.1).1 h
      (create_leaf-HasHeight n c.1 (double x) (double y) (open_child-HasHeight n (child i) (h i)))

-- The pointer is to something.
abbrev pub NotNull : QTree → Type 0
NotNull null = ⊥
NotNull (node child) = Unit {0}
NotNull (leaf l) = Unit {0}

open_child-NotNull : (level : ℕ) (t : QTree) → NotNull (open_child level t).1
open_child-NotNull level null = elim (Bool-cases (level == floor_bits)) [
  | inl e ↦ rw e tt
  | inr e ↦ rw e tt
]
open_child-NotNull level (node child) = tt
open_child-NotNull level (leaf l) = tt

pub create_leaf-NotNull :
    (level : ℕ) (t : QTree) (x y : ℕ) → NotNull t → NotNull (create_leaf level x y t).1
unfolding create_leaf
create_leaf-NotNull level null x y h = h
create_leaf-NotNull level (leaf l) x y h = tt
create_leaf-NotNull zero (node child) x y h = tt
create_leaf-NotNull (suc level) (node child) x y h = tt

get_leaf-own :
    (child : ℕ → QTree) (i : ℕ) (u : QTree) (x y : ℕ)
    → get_leaf (if i == i then u else child i) x y ≡ get_leaf u x y
get_leaf-own child i u x y = let d : (i == i) ≡ true = ground arith in rw d refl

-- createLeaf returns a leaf: the coordinate then leads to one.
pub create_leaf-found :
    (n : ℕ) (t : QTree) (x y : ℕ)
    → HasHeight n t
    → NotNull t
    → (l : Leaf) × (get_leaf (create_leaf (suc (suc n)) x y t).1 x y ≡ some l)
unfolding create_leaf get_leaf
create_leaf-found n null x y h p = absurd p
create_leaf-found zero (leaf l) x y h p = (l, refl)
create_leaf-found (suc n) (leaf l) x y h p = absurd h
create_leaf-found zero (node child) x y h p = absurd h
create_leaf-found (suc n) (node child) x y h p =
    let i = index x y in
    let c = open_child (suc (suc (suc n))) (child i) in
    let (l, e) =
      create_leaf-found n c.1 (double x) (double y) (open_child-HasHeight n (child i) (h i))
        (open_child-NotNull (suc (suc (suc n))) (child i)) in
    (
      l,
      get_leaf-own child i (create_leaf (suc (suc n)) (double x) (double y) c.1).1 (double x)
            (double y)
          ∙ e,
    )
