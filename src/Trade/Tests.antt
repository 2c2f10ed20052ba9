-- ===== src/Trade/Tests.antt =====
-- Trades between two players who stand beside each other (source/game.cpp).
use othire.Base.{ℕ, ◌+◌, List, [], ◌∷◌, ◌≡◌, refl, ◌⊎◌, true, false, ◌==◌, some}
use othire.Trade.{
  Surroundings, player_accept_trade, internal_start_trade, internal_close_trade, cancel, drop_item,
  transfer,
}
use othire.Trade.Ask.{player_request_trade}
use othire.Trade.Events.{on_remove_tile_item, check_trade_state}
use othire.Trade.Pairs.{IsSound}
use othire.Trade.Runs.{Call, requests, accepts, removes_tile_item, step, run}
use othire.Trade.Sound.{initial, run-IsSound}
use othire.Trade.Moves.{IsExchange}
use othire.Trade.Exchange.{step-IsExchange}
use othire.Trade.Complete.{IsCompleted, trade_completes}

-- Item 30 is a container that holds item 10.
abbrev beside : Surroundings
beside = record {
  is_online = λ p. true;
  is_removed = λ p. false;
  position = λ p. record { x = 100 + p; y = 100; z = 7 };
  can_throw = λ p q. true;
  item_position = λ x. record { x = 101; y = 100; z = 7 };
  client_id = λ x. x;
  is_pickupable = λ x. true;
  unique_id = λ x. 0;
  is_container = λ x. x == 30;
  is_holding = λ c x. x == 10;
  holding_count = λ x. 1;
  containers = λ x. [];
  has_path = λ p x. true;
  can_add = λ p x. true;
  can_remove = λ x. true;
}

abbrev offers : List (Surroundings × Call)
offers =
    (beside, requests 1 2 (some 10) 10)
    ∷ (beside, requests 2 1 (some 20) 20)
    ∷ (beside, accepts 1)
    ∷ []

run-IsSound_example : IsSound (
    run
      ((beside, requests 1 2 (some 10) 10)
        ∷ (beside, removes_tile_item 1 30)
        ∷ (beside, requests 2 1 (some 20) 20)
        ∷ [])
      initial)
run-IsSound_example = run-IsSound (
    (beside, requests 1 2 (some 10) 10)
    ∷ (beside, removes_tile_item 1 30)
    ∷ (beside, requests 2 1 (some 20) 20)
    ∷ [])

step-IsExchange_example :
    ((step beside (accepts 2) (run offers initial)).moves ≡ (run offers initial).moves)
    ⊎ ((p q x y : ℕ) × ((accepts 2 ≡ accepts p)
          × IsExchange beside p q x y
              (run offers initial)
              (step beside (accepts 2) (run offers initial))))
step-IsExchange_example =
    step-IsExchange beside (accepts 2) (run offers initial) (run-IsSound offers)

trade_completes_example :
    IsCompleted 1 2 10 20 initial (player_accept_trade beside 2 (run offers initial))
trade_completes_example = trade_completes beside 1 2 10 20 10 20 initial refl refl refl refl refl

-- The list is empty again after a trade that was cancelled since its item was taken along, and the
-- item was used once and freed once.
cancelled_test :
    (run
      ((beside, requests 1 2 (some 10) 10) ∷ (beside, removes_tile_item 1 30) ∷ [])
      initial).to_release
    ≡ (10 ∷ [])
unfolding run step player_request_trade internal_start_trade on_remove_tile_item check_trade_state
    internal_close_trade cancel drop_item
cancelled_test = refl

-- The first player accepts before the second offers anything, and gets what the second then offers.
early_test :
    (run
      ((beside, requests 1 2 (some 10) 10)
        ∷ (beside, accepts 1)
        ∷ (beside, requests 2 1 (some 20) 20)
        ∷ (beside, accepts 2)
        ∷ [])
      initial).moves
    ≡ ((10, 2) ∷ (20, 1) ∷ [])
unfolding run step player_request_trade internal_start_trade player_accept_trade transfer drop_item
early_test = refl
