-- ===== src/Trade/Moves.antt =====
-- What the transfer of items does (source/game.cpp: playerAcceptTrade).
use othire.Base.{
  ℕ, ◌∷◌, ◌≡◌, refl, sym, ap, ◌∙◌, ◌⊎◌, Bool, true, false, ◌&&◌, ◌==◌, if◌then◌else◌, Option, none,
  some, arith, inl, inr, Bool-cases,
}
use othire.Trade.{
  World, Surroundings, idle, free_entry, drop_item, find_item, may_add, may_remove, move_item,
  transfer, is_accept,
}
use othire.Trade.Accept.{transfer-settled, transferring}

-- The tests for two items that are to change hands, the one to q and the other to p.
abbrev pub may_exchange : Surroundings → (p q : ℕ) → Option ℕ → Option ℕ → Bool
may_exchange s p q o1 o2 =
    (may_add s q o1 && may_add s p o2) && (may_remove s o1 && may_remove s o2)

-- The two items have changed hands, and nothing else was moved.
abbrev pub HasMoved : (p q x y : ℕ) → (w w' : World) → Type 0
HasMoved p q x y w w' = w'.moves ≡ ((y, p) ∷ (x, q) ∷ w.moves)

pub drop_item-moves : (o : Option ℕ) (w : World) → (drop_item o w).moves ≡ w.moves
unfolding drop_item
drop_item-moves none w = refl
drop_item-moves (some x) w = free (find_item x w.trade_items)
  where
    free : (o : Option ℕ) → (free_entry o x w).moves ≡ w.moves
    free none = refl
    free (some q) = refl

-- Either all the tests pass, and both items move, or none does.
all_or_nothing :
    (s : Surroundings) (p q : ℕ) (o1 o2 : Option ℕ) (w : World)
    → ((if may_exchange s p q o1 o2 then move_item s o2 p (move_item s o1 q w) else w).moves
        ≡ w.moves)
      ⊎ ((x y : ℕ) × ((o1 ≡ some x)
            × ((o2 ≡ some y)
                × ((may_exchange s p q o1 o2 ≡ true)
                    × HasMoved p q x y w (
                        if may_exchange s p q o1 o2
                        then move_item s o2 p (move_item s o1 q w)
                        else w)))))
all_or_nothing s p q none o2 w = inl refl
all_or_nothing s p q (some x) none w = elim (Bool-cases (may_exchange s p q (some x) none)) [
  | inl i ↦ ground (arith, i)
  | inr i ↦ rw i (inl refl)
]
all_or_nothing s p q (some x) (some y) w =
    elim (Bool-cases (may_exchange s p q (some x) (some y))) [
      | inl i ↦ rw i (inr (x, y, (refl, (refl, (refl, refl)))))
      | inr i ↦ rw i (inl refl)
    ]

-- The trade of p with q, who has accepted it, ends with both items moved.
abbrev pub IsExchange : Surroundings → (p q x y : ℕ) → (w w' : World) → Type 0
IsExchange s p q x y w w' =
    (((w.traders p).partner ≡ some q)
      × (((w.traders q).partner ≡ some p) × (is_accept (w.traders q).state ≡ true)))
    × ((((w.traders p).item ≡ some x)
          × (((w.traders q).item ≡ some y) × (may_exchange s p q (some x) (some y) ≡ true)))
        × ((w'.moves ≡ ((y, p) ∷ (x, q) ∷ w.moves))
            × ((w'.traders p ≡ idle) × (w'.traders q ≡ idle))))

module _ (s : Surroundings) (p q : ℕ) (w : World) where
  pub dropped-moves :
      (o1 o2 : Option ℕ) → (drop_item o2 (drop_item o1 (transferring p q w))).moves ≡ w.moves
  dropped-moves o1 o2 =
      drop_item-moves o2 (drop_item o1 (transferring p q w))
      ∙ drop_item-moves o1 (transferring p q w)

  pub transfer_own : (q == p) ≡ false → (transfer s p q w).1.traders p ≡ idle
  transfer_own h =
      let other : (p == q) ≡ false = ground (arith, h) in
      let same : (p == p) ≡ true = ground arith in
      ap (λ w'. w'.traders p) (transfer-settled s p q w) ∙ rw (other, same) refl

  pub transfer-partner : (transfer s p q w).1.traders q ≡ idle
  transfer-partner =
      let same : (q == q) ≡ true = ground arith in
      ap (λ w'. w'.traders q) (transfer-settled s p q w) ∙ rw same refl

  -- The transfer moves nothing, or both items.
  pub transfer_moves :
      ((transfer s p q w).1.moves ≡ w.moves)
      ⊎ ((x y : ℕ) × (((w.traders p).item ≡ some x)
            × (((w.traders q).item ≡ some y)
                × ((may_exchange s p q (some x) (some y) ≡ true)
                    × HasMoved p q x y w (transfer s p q w).1))))
  transfer_moves =
      let o1 = (w.traders p).item in
      let o2 = (w.traders q).item in
      let same = dropped-moves o1 o2 in
      let k = ap (λ w'. w'.moves) (transfer-settled s p q w) in
      elim (all_or_nothing s p q o1 o2 (drop_item o2 (drop_item o1 (transferring p q w)))) [
        | inl e ↦ inl (k ∙ e ∙ same)
        | inr (x, y, (e1, (e2, (b, m)))) ↦ inr (
          x,
          y,
          (
            e1,
            (
              e2,
              (
                sym (
                      ap (λ o. may_exchange s p q o o2) e1
                      ∙ ap (λ o. may_exchange s p q (some x) o) e2)
                    ∙ b,
                k ∙ m ∙ ap (λ ms. (y, p) ∷ (x, q) ∷ ms) same,
              ),
            ),
          ),
        )
      ]
