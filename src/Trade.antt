-- ===== src/Trade.antt =====
-- Trades between players (source/game.cpp: internalStartTrade, playerAcceptTrade,
-- playerCloseTrade, internalCloseTrade). Players and items are known by numbers, which stand for the
-- pointers. What a trade asks of the rest of the game at the time of a call is a record,
-- Surroundings; a move of an item is a call of internalMoveItem, recorded in the order of the calls.
-- The call can fail, and the code does not look at its result.
-- Messages to the clients and the trade events of scripts are left out.
pub mod Events
pub mod Views
pub mod Pairs
pub mod Close
pub mod Reactions
pub mod Start
pub mod Request
pub mod Accept
pub mod Agree
pub mod Runs
pub mod Steps
pub mod Sound
pub mod Moves
pub mod Exchange
pub mod Complete
pub mod Ask
mod Tests
use othire.Base.{
  ℕ, suc, ◌+◌, ◌-◌, List, [], ◌∷◌, ◌++◌, Bool, true, false, not, ◌&&◌, ◌||◌, leb, ltb, ◌==◌,
  if◌then◌else◌, Option, none, some,
}

-- tradestate_t
pub data TradeState : Type 0 where
  trade_none trade_initiated trade_accept trade_acknowledge trade_transfer : TradeState

-- tradeState, tradePartner and tradeItem of a player
pub record Trader : Type 0 where
  pub state : TradeState
  pub partner : Option ℕ
  pub item : Option ℕ

-- The traders; tradeItems; how often useThing2 was called for an item; ToReleaseThings, which
-- FreeThing adds to; and the items that were moved, each with the player it was moved to, the
-- last first.
pub record World : Type 0 where
  pub traders : ℕ → Trader
  pub trade_items : List (ℕ × ℕ)
  pub use_count : ℕ → ℕ
  pub to_release : List ℕ
  pub moves : List (ℕ × ℕ)

pub record Position : Type 0 where
  pub x : ℕ
  pub y : ℕ
  pub z : ℕ

-- For players: whether getPlayerByID finds one, isRemoved, and the position. canThrowObjectTo. For
-- items: the position, the client's identifier, isPickupable, getUniqueId, whether it is a container,
-- isHoldingItem, getItemHoldingCount, and the containers it is in, from the inner one. Whether
-- getPathToEx finds a way. Whether the tests of internalAddItem and internalRemoveItem return
-- RET_NOERROR.
pub record Surroundings : Type 0 where
  pub is_online : ℕ → Bool
  pub is_removed : ℕ → Bool
  pub position : ℕ → Position
  pub can_throw : ℕ → ℕ → Bool
  pub item_position : ℕ → Position
  pub client_id : ℕ → ℕ
  pub is_pickupable : ℕ → Bool
  pub unique_id : ℕ → ℕ
  pub is_container : ℕ → Bool
  pub is_holding : ℕ → ℕ → Bool
  pub holding_count : ℕ → ℕ
  pub containers : ℕ → List ℕ
  pub has_path : ℕ → ℕ → Bool
  pub can_add : ℕ → ℕ → Bool
  pub can_remove : ℕ → Bool

abbrev pub idle : Trader
idle = record { state = trade_none; partner = none; item = none }

abbrev pub is_none : TradeState → Bool
is_none trade_none = true
is_none trade_initiated = false
is_none trade_accept = false
is_none trade_acknowledge = false
is_none trade_transfer = false

abbrev pub is_acknowledge : TradeState → Bool
is_acknowledge trade_none = false
is_acknowledge trade_initiated = false
is_acknowledge trade_accept = false
is_acknowledge trade_acknowledge = true
is_acknowledge trade_transfer = false

abbrev pub is_initiated : TradeState → Bool
is_initiated trade_none = false
is_initiated trade_initiated = true
is_initiated trade_accept = false
is_initiated trade_acknowledge = false
is_initiated trade_transfer = false

abbrev pub is_accept : TradeState → Bool
is_accept trade_none = false
is_accept trade_initiated = false
is_accept trade_accept = true
is_accept trade_acknowledge = false
is_accept trade_transfer = false

abbrev pub is_transfer : TradeState → Bool
is_transfer trade_none = false
is_transfer trade_initiated = false
is_transfer trade_accept = false
is_transfer trade_acknowledge = false
is_transfer trade_transfer = true

-- Whether a pointer is to the player.
abbrev pub is_player : Option ℕ → ℕ → Bool
is_player none p = false
is_player (some q) p = q == p

abbrev pub set_trader : ℕ → Trader → World → World
set_trader p a w = record w { traders = λ r. if r == p then a else w.traders r }

abbrev pub set_state : ℕ → TradeState → World → World
set_state p s w = set_trader p (record (w.traders p) { state = s }) w

-- tradeItems[item] = player
abbrev pub put_item : ℕ → ℕ → List (ℕ × ℕ) → List (ℕ × ℕ)
put_item x p [] = (x, p) ∷ []
put_item x p ((y, q) ∷ es) =
    let rest = put_item x p es in if x == y then (x, p) ∷ es else (y, q) ∷ rest

abbrev pub find_item : ℕ → List (ℕ × ℕ) → Option ℕ
find_item x [] = none
find_item x ((y, q) ∷ es) = let rest = find_item x es in if x == y then some q else rest

abbrev pub erase_item : ℕ → List (ℕ × ℕ) → List (ℕ × ℕ)
erase_item x [] = []
erase_item x ((y, q) ∷ es) = let rest = erase_item x es in if x == y then rest else (y, q) ∷ rest

-- An item that is found in tradeItems is freed and erased.
abbrev pub free_entry : Option ℕ → ℕ → World → World
free_entry none x w = w
free_entry (some q) x w = record w {
  trade_items = erase_item x w.trade_items;
  to_release = w.to_release ++ (x ∷ []);
}

unfoldable pub drop_item : Option ℕ → World → World
drop_item none w = w
drop_item (some x) w = free_entry (find_item x w.trade_items) x w

-- internalStartTrade
unfoldable pub internal_start_trade : (p q x : ℕ) → World → Bool × World
internal_start_trade p q x w =
    let a = w.traders p in
    let b = w.traders q in
    if not (is_none a.state) && not (is_acknowledge a.state && is_player a.partner q)
    then (false, w)
    else if not (is_none b.state) && not (is_player b.partner p)
    then (false, w)
    else (let started =
          record (set_trader p (record { state = trade_initiated; partner = some q; item = some x })
            w) {
              use_count = λ y. if y == x then suc (w.use_count y) else w.use_count y;
              trade_items = put_item x p w.trade_items;
            } in
        let c = started.traders q in
        (
          true,
          if is_none c.state
              then set_trader q (record c { state = trade_acknowledge; partner = some p }) started
              else started,
        ))

module _ (s : Surroundings) where
  -- The tests before the transfer; internalAddItem refuses where there is no item.
  abbrev pub may_add : ℕ → Option ℕ → Bool
  may_add p none = false
  may_add p (some x) = s.can_add p x

  abbrev pub may_remove : Option ℕ → Bool
  may_remove none = false
  may_remove (some x) = s.can_remove x

  -- the call of internalMoveItem
  abbrev pub move_item : Option ℕ → ℕ → World → World
  move_item none p w = w
  move_item (some x) p w = record w { moves = (x, p) ∷ w.moves }

  -- The transfer of playerAcceptTrade, and what follows it.
  unfoldable pub transfer : (p q : ℕ) → World → Bool × World
  transfer p q w =
      let item1 = (w.traders p).item in
      let item2 = (w.traders q).item in
      let w1 = set_state q trade_transfer (set_state p trade_transfer w) in
      let w2 = drop_item item2 (drop_item item1 w1) in
      let is_success =
        (may_add q item1 && may_add p item2) && (may_remove item1 && may_remove item2) in
      let w3 = if is_success then move_item item2 p (move_item item1 q w2) else w2 in
      (is_success, set_trader q idle (set_trader p idle w3))

  -- playerAcceptTrade from where it reads the partner.
  abbrev pub accept_with : ℕ → Option ℕ → World → Bool × World
  accept_with p none w = (false, w)
  accept_with p (some q) w =
      if not (s.can_throw q p)
      then (false, w)
      else (let accepted = set_state p trade_accept w in
          if is_accept (accepted.traders q).state then transfer p q accepted else (false, accepted))

  unfoldable pub player_accept_trade : ℕ → World → Bool × World
  player_accept_trade p w =
      let a = w.traders p in
      if not (s.is_online p) || s.is_removed p
      then (false, w)
      else if not (is_acknowledge a.state || is_initiated a.state)
      then (false, w)
      else accept_with p a.partner w

-- internalCloseTrade for the item and the fields of one player
unfoldable pub cancel : ℕ → World → World
cancel p w = set_trader p idle (drop_item (w.traders p).item w)

-- internalCloseTrade, which returns true on every path
unfoldable pub internal_close_trade : ℕ → World → World
internal_close_trade p w =
    let a = w.traders p in
    elim a.partner [
      | none ↦ if is_transfer a.state then w else cancel p w
      | some q ↦
          if is_transfer (w.traders q).state || is_transfer a.state
          then w
          else cancel q (cancel p w)
    ]

unfoldable pub player_close_trade : Surroundings → ℕ → World → Bool × World
player_close_trade s p w =
    if not (s.is_online p) || s.is_removed p then (false, w) else (true, internal_close_trade p w)
