-- ===== src/Map/Stored.antt =====
-- A tile stored in a place of the map (source/map.cpp, setTile).
use othire.Base.{
  ℕ, ◌%◌, ◌^◌, ◌<◌, ◌≡◌, refl, sym, ap, ◌∙◌, Bool, true, false, ◌&&◌, ◌==◌, if◌then◌else◌, arith,
  Option, none, some, Bool-cases, Option-cases, inl, inr,
}
use mathlib.Core.Path.{ap₂}
use othire.Map.{
  QTree, Leaf, Floor, get_leaf, alter_leaf, Tile, tile_in, is_there, put_tile, floor_of,
  put_in_floor, is_outside, floor_size,
}
use othire.Map.Path.{same_path, same_path-eq, same_path_refl}
use othire.Map.Tree.{HasHeight, map_leaf, get_leaf-alter_leaf, tile_of, tile_at}
use othire.Map.Tiles.{is_found, if_false}

-- The first write to a place wins.
abbrev pub first : Tile → Option Tile → Option Tile
first tile none = some tile
first tile (some old) = some old

both_eq : (i j i' j' : ℕ) → ((i' == i) && (j' == j)) ≡ true → (i' ≡ i) × (j' ≡ j)
both_eq i j i' j' h = (ground (arith, h), ground (arith, h))

abbrev stored_floor : Tile → ℕ → ℕ → Floor → Floor
stored_floor tile i j floor = elim (floor i j) as (λ _. Floor) [
  | none ↦ put_in_floor tile i j floor
  | some old ↦ floor
]

stored_floor-from :
    (tile : Tile) (i j : ℕ) (floor : Floor) (o : Option Tile) (i' j' : ℕ)
    → floor i j ≡ o
    → (elim o as (λ _. Floor) [ none ↦ put_in_floor tile i j floor | some old ↦ floor ]) i' j'
      ≡ (if (i' == i) && (j' == j) then first tile o else floor i' j')
stored_floor-from tile i j floor none i' j' h = refl
stored_floor-from tile i j floor (some old) i' j' h = elim (Bool-cases ((i' == i) && (j' == j))) [
  | inl c ↦ let (p, q) = both_eq i j i' j' c in rw c (ap₂ floor p q ∙ h)
  | inr c ↦ rw c refl
]

stored_floor-at :
    (tile : Tile) (i j : ℕ) (floor : Floor) (i' j' : ℕ)
    → stored_floor tile i j floor i' j'
      ≡ (if (i' == i) && (j' == j) then first tile (floor i j) else floor i' j')
stored_floor-at tile i j floor i' j' = stored_floor-from tile i j floor (floor i j) i' j' refl

tile_in-floor_of : (l : Leaf) (z i j : ℕ) → floor_of l z i j ≡ tile_in l z i j
tile_in-floor_of l z i j = elim (Option-cases (l.floors z)) [
  | inl e ↦ rw (floor_of, tile_in, e) refl
  | inr (f, e) ↦ rw (floor_of, tile_in, e) refl
]

-- Storing a tile is seen in its place if the place was free, and nowhere else.
tile_in-put_tile :
    (tile : Tile) (z i j : ℕ) (l : Leaf) (z' i' j' : ℕ)
    → tile_in (put_tile tile z i j l) z' i' j' ≡ (
        if (z' == z) && ((i' == i) && (j' == j))
        then first tile (tile_in l z i j)
        else tile_in l z' i' j')
unfolding put_tile
tile_in-put_tile tile z i j l z' i' j' =
    placed (z' == z) (stored_floor tile i j (floor_of l z)) (λ e.
      let q : z' ≡ z = ground (arith, e) in
      stored_floor-at tile i j (floor_of l z) i' j'
      ∙ ap₂ (λ a b. if (i' == i) && (j' == j) then first tile a else b) (tile_in-floor_of l z i j)
          (tile_in-floor_of l z i' j' ∙ ap (λ k. tile_in l k i' j') (sym q)))
  where
    placed :
        (b : Bool) (floor : Floor)
        → (b ≡ true
            → floor i' j' ≡ (
                if (i' == i) && (j' == j)
                then first tile (tile_in l z i j)
                else tile_in l z' i' j'))
        → (elim (if b then some floor else l.floors z') as (λ _. Option Tile) [
          | none ↦ none
          | some f ↦ f i' j'
        ])
          ≡ (if b && ((i' == i) && (j' == j))
              then first tile (tile_in l z i j)
              else tile_in l z' i' j')
    placed true floor h = h refl
    placed false floor h = refl

abbrev pub same_place : (x y z x' y' z' : ℕ) → Bool
same_place x y z x' y' z' = (x == x') && ((y == y') && (z == z'))

module _ (tile : Tile) (z i j z' i' j' : ℕ) where
  abbrev fits : Bool
  fits = (z' == z) && ((i' == i) && (j' == j))

  abbrev stored_in : Bool → Option Leaf → Option Tile
  stored_in b o = tile_of (if b then map_leaf (put_tile tile z i j) o else o) z' i' j'

  stored_in-apart :
      (b : Bool) (o : Option Leaf) → (b && fits) ≡ false → stored_in b o ≡ tile_of o z' i' j'
  stored_in-apart true none h = refl
  stored_in-apart true (some l) h = tile_in-put_tile tile z i j l z' i' j' ∙ if_false fits _ _ h
  stored_in-apart false o h = refl

stored_in-own :
    (tile : Tile) (z i j : ℕ) (b : Bool) (o : Option Leaf)
    → b ≡ true
    → is_found o ≡ true
    → stored_in tile z i j z i j b o ≡ first tile (tile_of o z i j)
stored_in-own tile z i j true none h k = cc
stored_in-own tile z i j true (some l) h k =
    tile_in-put_tile tile z i j l z i j ∙ if_true (fits tile z i j z i j) _ _ (ground arith)
  where
    if_true : (b : Bool) (s t : Option Tile) → b ≡ true → (if b then s else t) ≡ s
    if_true true s t h = refl
    if_true false s t h = cc
stored_in-own tile z i j false o h k = cc

inside : (x y z : ℕ) → is_outside x y z ≡ false → (x < 2 ^ 16) × (y < 2 ^ 16)
inside x y z h = (ground (arith, h), ground (arith, h))

-- Two positions of one leaf with the same place in it are one position.
apart :
    (x y z x' y' z' : ℕ) (b : Bool)
    → (b ≡ true → same_path 13 x y x' y' ≡ true)
    → is_outside x y z ≡ false
    → is_outside x' y' z' ≡ false
    → (b
        && ((z' == z)
            && ((x' % floor_size == x % floor_size) && (y' % floor_size == y % floor_size))))
      ≡ true
    → (x ≡ x') × (y ≡ y') × (z ≡ z')
apart x y z x' y' z' b h i i' e =
    let (hx, hy) = inside x y z i in
    let (hx', hy') = inside x' y' z' i' in
    let (c, ez, ex, ey) =
      equal b (z' == z) (x' % floor_size == x % floor_size) (y' % floor_size == y % floor_size) e in
    let (p, q) =
      same_path-eq x y x' y' hx hy hx' hy' (h c) (eq (x' % floor_size) (x % floor_size) ex)
        (eq (y' % floor_size) (y % floor_size) ey) in
    (p, q, eq z' z ez)
  where
    equal :
        (a b c d : Bool)
        → (a && (b && (c && d))) ≡ true
        → (a ≡ true) × (b ≡ true) × (c ≡ true) × (d ≡ true)
    equal a b c d h = ground (arith, h)

    eq : (a b : ℕ) → (a == b) ≡ true → b ≡ a
    eq a b h = ground (arith, h)

pub same_place-eq :
    (x y z x' y' z' : ℕ) → same_place x y z x' y' z' ≡ true → (x ≡ x') × (y ≡ y') × (z ≡ z')
same_place-eq x y z x' y' z' h = (ground (arith, h), ground (arith, h), ground (arith, h))

same_place-ne :
    (x y z x' y' z' : ℕ) → same_place x y z x' y' z' ≡ false → (x ≡ x') × (y ≡ y') × (z ≡ z') → ⊥
same_place-ne x y z x' y' z' h (p, q, r) = ground (arith, h, p, q, r)

-- The tile at a coordinate after one was stored in the leaf of another.
pub stored-apart :
    (tile : Tile) (t : QTree) (x y z x' y' z' : ℕ)
    → HasHeight 13 t
    → is_outside x y z ≡ false
    → is_outside x' y' z' ≡ false
    → same_place x y z x' y' z' ≡ false
    → tile_at
        (alter_leaf (put_tile tile z (x % floor_size) (y % floor_size)) t x y)
        x'
        y'
        z'
        (x' % floor_size)
        (y' % floor_size)
      ≡ tile_at t x' y' z' (x' % floor_size) (y' % floor_size)
stored-apart tile t x y z x' y' z' h i i' ne =
    ap (λ o. tile_of o z' (x' % floor_size) (y' % floor_size))
      (get_leaf-alter_leaf (put_tile tile z (x % floor_size) (y % floor_size)) 13 t x y x' y' h)
    ∙ stored_in-apart tile z (x % floor_size) (y % floor_size) z' (x' % floor_size)
        (y' % floor_size) (same_path 13 x y x' y') (get_leaf t x' y')
        (not_true _ (λ e.
          same_place-ne x y z x' y' z' ne
            (apart x y z x' y' z' (same_path 13 x y x' y') (λ k. k) i i' e)))
  where
    not_true : (b : Bool) → (b ≡ true → ⊥) → b ≡ false
    not_true true h = absurd (h refl)
    not_true false h = refl

pub stored-own :
    (tile : Tile) (t : QTree) (x y z : ℕ)
    → HasHeight 13 t
    → is_there t x y ≡ true
    → tile_at
        (alter_leaf (put_tile tile z (x % floor_size) (y % floor_size)) t x y)
        x
        y
        z
        (x % floor_size)
        (y % floor_size)
      ≡ first tile (tile_at t x y z (x % floor_size) (y % floor_size))
stored-own tile t x y z h found =
    ap (λ o. tile_of o z (x % floor_size) (y % floor_size))
      (get_leaf-alter_leaf (put_tile tile z (x % floor_size) (y % floor_size)) 13 t x y x y h)
    ∙ stored_in-own tile z (x % floor_size) (y % floor_size) (same_path 13 x y x y) (get_leaf t x y)
        (same_path_refl 13 x y) found
