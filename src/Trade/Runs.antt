-- ===== src/Trade/Runs.antt =====
-- Any calls in a row (source/game.cpp, source/player.cpp).
use othire.Base.{ℕ, List, [], ◌∷◌, Option}
use othire.Trade.{World, Surroundings, player_accept_trade, player_close_trade}
use othire.Trade.Ask.{player_request_trade}
use othire.Trade.Events.{
  on_creature_disappear, on_creature_move, on_add_container_item, on_remove_tile_item,
  on_update_tile_item, on_update_container_item, on_remove_container_item, on_update_inventory_item,
  on_remove_inventory_item,
}

-- The calls that change a trade, each with its arguments.
pub data Call : Type 0 where
  requests : (p q : ℕ) → (thing : Option ℕ) → (sprite_id : ℕ) → Call
  accepts : ℕ → Call
  closes : ℕ → Call
  moves_to : ℕ → Call
  disappears : ℕ → Call
  removes_tile_item : (p x : ℕ) → Call
  updates_tile_item : (p old new : ℕ) → Call
  adds_container_item : (p x : ℕ) → Call
  updates_container_item : (p container old new : ℕ) → Call
  removes_container_item : (p container x : ℕ) → Call
  updates_inventory_item : (p old new : ℕ) → Call
  removes_inventory_item : (p x : ℕ) → Call

unfoldable pub step : Surroundings → Call → World → World
step s (requests p q thing sprite_id) w = (player_request_trade s p q thing sprite_id w).1
step s (accepts p) w = (player_accept_trade s p w).1
step s (closes p) w = (player_close_trade s p w).1
step s (moves_to p) w = on_creature_move s p w
step s (disappears p) w = on_creature_disappear p w
step s (removes_tile_item p x) w = on_remove_tile_item s p x w
step s (updates_tile_item p old new) w = on_update_tile_item s p old new w
step s (adds_container_item p x) w = on_add_container_item s p x w
step s (updates_container_item p container old new) w =
    on_update_container_item s p container old new w
step s (removes_container_item p container x) w = on_remove_container_item s p container x w
step s (updates_inventory_item p old new) w = on_update_inventory_item s p old new w
step s (removes_inventory_item p x) w = on_remove_inventory_item s p x w

unfoldable pub run : List (Surroundings × Call) → World → World
run [] w = w
run ((s, c) ∷ cs) w = run cs (step s c w)
