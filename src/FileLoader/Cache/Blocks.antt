-- ===== src/FileLoader/Cache/Blocks.antt =====
-- The blocks of the cache hold what the file holds (source/fileloader.cpp, getCacheBlock).
use Prim.Native.Nat.{bit_and, bit_and-bitwise, digits}
use othire.Base.{
  some_injective, if◌then◌else◌, ℕ, zero, suc, ◌+◌, ◌-◌, ◌*◌, ◌/◌, min, ◌<◌, ◌≤◌, ◌≡◌, refl, sym,
  ap, subst, ◌∙◌, List, [], ◌∷◌, Bool, true, false, not, ◌&&◌, ltb, ◌==◌, Option, none, some,
  length, get_elem?, arith, ◌⊎◌, inl, inr, Option-cases,
}
use othire.FileLoader.Cache.{
  Block, base_pos, next_index, find_loaded, find_free, find_far, loading_cache, change_block, slice,
}

digits-le : (n a b : ℕ) → (digits (λ b. zero) min n a b ≤ a) × (digits (λ b. zero) min n a b ≤ b)
digits-le zero a b = (omega arith, omega arith)
digits-le (suc n) zero b = (omega arith, omega arith)
digits-le (suc n) (suc a) b =
    let (p, q) = digits-le n (suc a / 2) (b / 2) in (omega (arith, p), omega (arith, q))

bit_and-le : (a b : ℕ) → (bit_and a b ≤ a) × (bit_and a b ≤ b)
bit_and-le a b = subst (λ w. (w ≤ a) × (w ≤ b)) (sym (bit_and-bitwise a b)) (digits-le a a b)

-- A position is at or behind its base, less than the size away.
pub base_pos-bounds :
    (size pos : ℕ) → 0 < size → (base_pos size pos ≤ pos) × (pos - base_pos size pos < size)
unfolding base_pos
base_pos-bounds size pos h =
    let (p, q) = bit_and-le pos (size - 1) in (omega (arith, p), omega (arith, p, q, h))

next_index-cases :
    (o : Option ℕ) (i : ℕ) → next_index o ≡ some i → (j : ℕ) × (o ≡ some j) × (i ≡ suc j)
next_index-cases none i h = cc
next_index-cases (some j) i h = (j, refl, sym (some_injective h))

-- A step of one of the loops over the blocks.
first_or_next :
    (b : Bool) (o : Option ℕ) (i : ℕ)
    → (if b then some 0 else next_index o) ≡ some i
    → ((b ≡ true) × (i ≡ 0)) ⊎ ((j : ℕ) × (o ≡ some j) × (i ≡ suc j))
first_or_next true o i h = inl (refl, sym (some_injective h))
first_or_next false o i h = inr (next_index-cases o i h)

find_free-lt : (bs : List Block) (i : ℕ) → find_free bs ≡ some i → i < length bs
unfolding find_free
find_free-lt [] i h = cc
find_free-lt (b ∷ bs) i h = elim (first_or_next (not b.loaded) (find_free bs) i h) [
  | inl (e, p) ↦ omega (arith, p)
  | inr (j, e, p) ↦ let lt = find_free-lt bs j e in omega (arith, lt, p)
]

find_far-lt :
    (size base : ℕ) (bs : List Block) (i : ℕ) → find_far size base bs ≡ some i → i < length bs
unfolding find_far
find_far-lt size base [] i h = cc
find_far-lt size base (b ∷ bs) i h =
    elim (first_or_next (ltb (2 * size) ((b.base - base) + (base - b.base))) (find_far size base bs)
      i h) [
        | inl (e, p) ↦ omega (arith, p)
        | inr (j, e, p) ↦ let lt = find_far-lt size base bs j e in omega (arith, lt, p)
      ]

pub loading_cache-lt :
    (size base : ℕ) (bs : List Block) → 0 < length bs → loading_cache size base bs < length bs
unfolding loading_cache
loading_cache-lt size base bs h = elim (Option-cases (find_free bs)) [
  | inr (i, e) ↦ rw (loading_cache, e) (find_free-lt bs i e)
  | inl e ↦ elim (Option-cases (find_far size base bs)) [
    | inr (i, k) ↦ rw (loading_cache, e, k) (find_far-lt size base bs i k)
    | inl k ↦ rw (loading_cache, e, k) h
  ]
]

both_true : (a b : Bool) → (a && b) ≡ true → (a ≡ true) × (b ≡ true)
both_true true b h = (refl, h)
both_true false b h = cc

pub find_loaded-at :
    (base : ℕ) (bs : List Block) (i : ℕ)
    → find_loaded base bs ≡ some i
    → (b : Block) × (get_elem? bs i ≡ some b) × (b.loaded ≡ true) × (b.base ≡ base)
unfolding find_loaded
find_loaded-at base [] i h = cc
find_loaded-at base (b ∷ bs) i h =
    elim (first_or_next (b.loaded && b.base == base) (find_loaded base bs) i h) [
      | inl (e, p) ↦
          let (l, q) = both_true b.loaded (b.base == base) e in
          (b, ap (get_elem? (b ∷ bs)) p, l, ground (arith, q))
      | inr (j, e, p) ↦
          let (b', k, l, q) = find_loaded-at base bs j e in
          (b', ap (get_elem? (b ∷ bs)) p ∙ k, l, q)
    ]

pub change_block-at :
    (i : ℕ) (f : Block → Block) (bs : List Block)
    → i < length bs
    → (b : Block) × (get_elem? (change_block i f bs) i ≡ some (f b))
change_block-at i f [] h = let no : i < 0 = h in absurd (omega (arith, no))
change_block-at zero f (b ∷ bs) h = (b, refl)
change_block-at (suc i) f (b ∷ bs) h = change_block-at i f bs (omega (arith, h))

pub length-change_block :
    (i : ℕ) (f : Block → Block) (bs : List Block) → length (change_block i f bs) ≡ length bs
length-change_block i f [] = refl
length-change_block zero f (b ∷ bs) = refl
length-change_block (suc i) f (b ∷ bs) = ap suc (length-change_block i f bs)

module _ (content : List ℕ) (size : ℕ) where
  -- Every loaded block holds the bytes of the file from its base on, as many as its size.
  abbrev pub AreLoaded : List Block → Type 0
  AreLoaded [] = zero ≡ zero
  AreLoaded (b ∷ bs) = ((b.loaded ≡ false) ⊎ (b.bytes ≡ slice content size b.base)) × AreLoaded bs

  pub AreLoaded-at :
      (bs : List Block) (i : ℕ) (b : Block)
      → AreLoaded bs
      → get_elem? bs i ≡ some b
      → b.loaded ≡ true
      → b.bytes ≡ slice content size b.base
  AreLoaded-at [] i b h e l = cc
  AreLoaded-at (a ∷ bs) zero b (h, hs) e l =
      let q : a ≡ b = some_injective e in
      subst (λ (w : Block). w.bytes ≡ slice content size w.base) q
        (elim h [
          | inl n ↦ (let m = ap (λ (w : Block). w.loaded) q ∙ l in ground (arith, n, m))
          | inr k ↦ k
        ])
  AreLoaded-at (a ∷ bs) (suc i) b (h, hs) e l = AreLoaded-at bs i b hs e l

  pub change_block-AreLoaded :
      (i : ℕ) (f : Block → Block) (bs : List Block)
      → ((b : Block) → (f b).bytes ≡ slice content size (f b).base)
      → AreLoaded bs
      → AreLoaded (change_block i f bs)
  change_block-AreLoaded i f [] ok h = h
  change_block-AreLoaded zero f (b ∷ bs) ok (h, hs) = (inr (ok b), hs)
  change_block-AreLoaded (suc i) f (b ∷ bs) ok (h, hs) = (h, change_block-AreLoaded i f bs ok hs)
