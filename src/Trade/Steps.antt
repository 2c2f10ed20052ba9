-- ===== src/Trade/Steps.antt =====
-- What every call of a trade keeps (source/game.cpp, source/player.cpp).
use othire.Base.{ℕ, ◌≡◌, refl, not, ◌||◌, Option, inl, inr, Bool-cases}
use othire.Trade.{
  World, Surroundings, internal_close_trade, player_accept_trade, player_close_trade,
}
use othire.Trade.Ask.{player_request_trade}
use othire.Trade.Reactions.{
  on_creature_disappear_keeps, on_creature_move_keeps, check_trade_state_keeps,
  on_remove_tile_item_keeps, on_update_tile_item_keeps, on_update_container_item_keeps,
  on_remove_container_item_keeps, on_update_inventory_item_keeps, on_remove_inventory_item_keeps,
}
use othire.Trade.Runs.{
  Call, requests, accepts, closes, moves_to, disappears, removes_tile_item, updates_tile_item,
  adds_container_item, updates_container_item, removes_container_item, updates_inventory_item,
  removes_inventory_item, step,
}

module _ (P : World → Type 0)
    (close : (p : ℕ) (w : World) → P w → P (internal_close_trade p w)) where
  player_close_trade_keeps :
      (s : Surroundings) (p : ℕ) (w : World) → P w → P (player_close_trade s p w).1
  unfolding player_close_trade
  player_close_trade_keeps s p w h = elim (Bool-cases (not (s.is_online p) || s.is_removed p)) [
    | inl i ↦ rw i h
    | inr i ↦ rw i (close p w h)
  ]

  module _
      (request : (s : Surroundings) (p q : ℕ) (thing : Option ℕ) (sprite_id : ℕ) (w : World)
        → P w
        → P (player_request_trade s p q thing sprite_id w).1) where
    -- Only accepting is asked for apart.
    pub step_keeps :
        (s : Surroundings) (c : Call) (w : World)
        → ((p : ℕ) → c ≡ accepts p → P (player_accept_trade s p w).1)
        → P w
        → P (step s c w)
    unfolding step
    step_keeps s (requests p q thing sprite_id) w accept h = request s p q thing sprite_id w h
    step_keeps s (accepts p) w accept h = accept p refl
    step_keeps s (closes p) w accept h = player_close_trade_keeps s p w h
    step_keeps s (moves_to p) w accept h = on_creature_move_keeps P close s p w h
    step_keeps s (disappears p) w accept h = on_creature_disappear_keeps P close p w h
    step_keeps s (removes_tile_item p x) w accept h = on_remove_tile_item_keeps P close s p x w h
    step_keeps s (updates_tile_item p old new) w accept h =
        on_update_tile_item_keeps P close s p old new w h
    step_keeps s (adds_container_item p x) w accept h = check_trade_state_keeps P close s p x w h
    step_keeps s (updates_container_item p container old new) w accept h =
        on_update_container_item_keeps P close s p container old new w h
    step_keeps s (removes_container_item p container x) w accept h =
        on_remove_container_item_keeps P close s p container x w h
    step_keeps s (updates_inventory_item p old new) w accept h =
        on_update_inventory_item_keeps P close s p old new w h
    step_keeps s (removes_inventory_item p x) w accept h =
        on_remove_inventory_item_keeps P close s p x w h
