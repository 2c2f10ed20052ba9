-- ===== src/Trade/Reactions.antt =====
-- The callbacks of source/player.cpp that close trades.
use othire.Base.{ℕ, Bool, true, false, not, ◌&&◌, ◌==◌, if◌then◌else◌, Option, none, some}
use othire.Trade.{World, Surroundings, is_transfer, internal_close_trade}
use othire.Trade.Events.{
  close_if, is_deep_in, contains_offer, on_creature_disappear, on_creature_move, check_trade_state,
  on_remove_tile_item, on_update_tile_item, on_update_container_item, on_remove_container_item,
  on_update_inventory_item, on_remove_inventory_item,
}

-- Any predicate that closing a trade keeps.
module _ (P : World → Type 0)
    (close : (p : ℕ) (w : World) → P w → P (internal_close_trade p w)) where
  if_keeps : (b : Bool) (w w' : World) → P w → P w' → P (if b then w else w')
  if_keeps true w w' h h' = h
  if_keeps false w w' h h' = h'

  on_creature_disappear_lem :
      (o : Option ℕ) (p : ℕ) (w : World)
      → P w
      → P (elim o [ none ↦ w | some q ↦ internal_close_trade p w ])
  on_creature_disappear_lem none p w h = h
  on_creature_disappear_lem (some q) p w h = close p w h

  pub on_creature_disappear_keeps : (p : ℕ) (w : World) → P w → P (on_creature_disappear p w)
  unfolding on_creature_disappear
  on_creature_disappear_keeps p w h = on_creature_disappear_lem (w.traders p).partner p w h

  module _ (s : Surroundings) where
    close_if_keeps : (b : Bool) (p : ℕ) (w : World) → P w → P (close_if s b p w)
    close_if_keeps true p w h = close p w h
    close_if_keeps false p w h = h

    pub on_creature_move_keeps : (p : ℕ) (w : World) → P w → P (on_creature_move s p w)
    unfolding on_creature_move
    on_creature_move_keeps p w h = if_keeps _ _ _ h (close_if_keeps _ p _ (close_if_keeps _ p w h))

    pub check_trade_state_keeps : (p x : ℕ) (w : World) → P w → P (check_trade_state s p x w)
    unfolding check_trade_state
    check_trade_state_keeps p x w h = close_if_keeps _ p w h

    pub on_remove_tile_item_keeps : (p x : ℕ) (w : World) → P w → P (on_remove_tile_item s p x w)
    unfolding on_remove_tile_item
    on_remove_tile_item_keeps p x w h =
        if_keeps _ _ _ h (close_if_keeps _ p _ (check_trade_state_keeps p x w h))

    pub on_update_tile_item_keeps :
        (p old new : ℕ) (w : World) → P w → P (on_update_tile_item s p old new w)
    unfolding on_update_tile_item
    on_update_tile_item_keeps p old new w h =
        close_if_keeps _ p _ (if_keeps _ _ _ h (on_remove_tile_item_keeps p old w h))

    -- The common end of the updates.
    if_check_keeps :
        (b : Bool) (p x : ℕ) (w : World) → P w → P (if b then w else check_trade_state s p x w)
    if_check_keeps b p x w h = if_keeps b _ _ h (check_trade_state_keeps p x w h)

    pub on_update_container_item_keeps :
        (p container old new : ℕ) (w : World)
        → P w
        → P (on_update_container_item s p container old new w)
    unfolding on_update_container_item
    on_update_container_item_keeps p container old new w h =
        let w1 = check_trade_state s p old w in
        let b = not (old == new) && is_deep_in s container (w1.traders p).item in
        let h2 = close_if_keeps b p w1 (check_trade_state_keeps p old w h) in
        let c = is_transfer ((close_if s b p w1).traders p).state in
        if_keeps (is_transfer (w.traders p).state) _ _ h (if_check_keeps c p old _ h2)

    pub on_remove_container_item_keeps :
        (p container x : ℕ) (w : World) → P w → P (on_remove_container_item s p container x w)
    unfolding on_remove_container_item
    on_remove_container_item_keeps p container x w h =
        if_keeps _ _ _ h (close_if_keeps _ p _ (check_trade_state_keeps p x w h))

    pub on_update_inventory_item_keeps :
        (p old new : ℕ) (w : World) → P w → P (on_update_inventory_item s p old new w)
    unfolding on_update_inventory_item
    on_update_inventory_item_keeps p old new w h =
        let w1 = check_trade_state s p old w in
        let b = not (old == new) && contains_offer s old (w1.traders p).item in
        let h2 = close_if_keeps b p w1 (check_trade_state_keeps p old w h) in
        let c = is_transfer ((close_if s b p w1).traders p).state in
        if_keeps (is_transfer (w.traders p).state) _ _ h (if_check_keeps c p old _ h2)

    pub on_remove_inventory_item_keeps :
        (p x : ℕ) (w : World) → P w → P (on_remove_inventory_item s p x w)
    unfolding on_remove_inventory_item
    on_remove_inventory_item_keeps p x w h =
        if_keeps _ _ _ h (close_if_keeps _ p _ (check_trade_state_keeps p x w h))
