-- ===== src/Trade/Events.antt =====
-- What happens to a trade when its players move or leave, and when items change (source/player.cpp:
-- checkTradeState and the callbacks that call it or internalCloseTrade).
use othire.Base.{
  ℕ, List, [], ◌∷◌, Bool, true, false, not, ◌&&◌, ◌||◌, ◌==◌, if◌then◌else◌, Option, none, some,
}
use othire.Trade.{World, Surroundings, is_transfer, internal_close_trade}
use othire.Trade.Ask.{in_range}

-- The part of onCreatureDisappear for trades.
unfoldable pub on_creature_disappear : ℕ → World → World
on_creature_disappear p w = elim (w.traders p).partner [
  | none ↦ w
  | some q ↦ internal_close_trade p w
]

module _ (s : Surroundings) where
  abbrev pub close_if : Bool → ℕ → World → World
  close_if b p w = if b then internal_close_trade p w else w

  -- Whether the item that is offered, or the partner, is out of range.
  abbrev pub item_far : ℕ → Option ℕ → Bool
  item_far p none = false
  item_far p (some x) = not (in_range 1 1 0 (s.item_position x) (s.position p))

  abbrev pub partner_far : ℕ → Option ℕ → Bool
  partner_far p none = false
  partner_far p (some q) = not (in_range 2 2 0 (s.position q) (s.position p))

  -- The part of onCreatureMove for trades, when the player itself has moved.
  unfoldable pub on_creature_move : ℕ → World → World
  on_creature_move p w =
      let w' = close_if (item_far p (w.traders p).item) p w in
      if is_transfer (w.traders p).state
      then w
      else close_if (partner_far p (w'.traders p).partner) p w'

  -- The loop of checkTradeState over the containers that an item is in.
  abbrev pub is_among : ℕ → List ℕ → Bool
  is_among x [] = false
  is_among x (y ∷ ys) = let rest = is_among x ys in if y == x then true else rest

  -- Whether the item is offered, or in a container that is offered.
  abbrev pub touches : (x : ℕ) → Option ℕ → Bool
  touches x none = false
  touches x (some offered) = offered == x || is_among offered (s.containers x)

  unfoldable pub check_trade_state : (p x : ℕ) → World → World
  check_trade_state p x w =
      close_if (not (is_transfer (w.traders p).state) && touches x (w.traders p).item) p w

  -- Whether the item is a container with the item that is offered in it.
  abbrev pub contains_offer : (x : ℕ) → Option ℕ → Bool
  contains_offer x none = false
  contains_offer x (some offered) = s.is_container x && s.is_holding x offered

  abbrev pub direct_parent : List ℕ → ℕ → Bool
  direct_parent [] x = false
  direct_parent (y ∷ ys) x = y == x

  -- Whether the item that is offered is in a container, but not directly.
  abbrev pub is_deep_in : (container : ℕ) → Option ℕ → Bool
  is_deep_in container none = false
  is_deep_in container (some offered) =
      not (direct_parent (s.containers offered) container) && s.is_holding container offered

  abbrev pub is_item : Option ℕ → ℕ → Bool
  is_item none x = false
  is_item (some y) x = x == y

  unfoldable pub on_remove_tile_item : (p x : ℕ) → World → World
  on_remove_tile_item p x w =
      let w' = check_trade_state p x w in
      if is_transfer (w.traders p).state
      then w
      else close_if (contains_offer x (w'.traders p).item) p w'

  unfoldable pub on_update_tile_item : (p old new : ℕ) → World → World
  on_update_tile_item p old new w =
      let w' = if old == new then w else on_remove_tile_item p old w in
      close_if (not (is_transfer (w'.traders p).state) && is_item (w'.traders p).item old) p w'

  abbrev pub on_add_container_item : (p x : ℕ) → World → World
  on_add_container_item p x w = check_trade_state p x w

  unfoldable pub on_update_container_item : (p container old new : ℕ) → World → World
  on_update_container_item p container old new w =
      let w1 = check_trade_state p old w in
      let w2 = close_if (not (old == new) && is_deep_in container (w1.traders p).item) p w1 in
      let w3 = if is_transfer (w2.traders p).state then w2 else check_trade_state p old w2 in
      if is_transfer (w.traders p).state then w else w3

  unfoldable pub on_remove_container_item : (p container x : ℕ) → World → World
  on_remove_container_item p container x w =
      let w' = check_trade_state p x w in
      if is_transfer (w.traders p).state
      then w
      else close_if (is_deep_in container (w'.traders p).item) p w'

  unfoldable pub on_update_inventory_item : (p old new : ℕ) → World → World
  on_update_inventory_item p old new w =
      let w1 = check_trade_state p old w in
      let w2 = close_if (not (old == new) && contains_offer old (w1.traders p).item) p w1 in
      let w3 = if is_transfer (w2.traders p).state then w2 else check_trade_state p old w2 in
      if is_transfer (w.traders p).state then w else w3

  unfoldable pub on_remove_inventory_item : (p x : ℕ) → World → World
  on_remove_inventory_item p x w =
      let w' = check_trade_state p x w in
      if is_transfer (w.traders p).state
      then w
      else close_if (contains_offer x (w'.traders p).item) p w'
