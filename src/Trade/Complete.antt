-- ===== src/Trade/Complete.antt =====
-- A trade from the first request to the transfer (source/game.cpp).
use othire.Base.{
  ℕ, List, [], ◌∷◌, ◌≡◌, refl, sym, ap, subst, ◌∙◌, Bool, true, false, not, ◌&&◌, ◌||◌, ◌==◌,
  if◌then◌else◌, Option, some, arith,
}
use othire.Trade.{
  World, Trader, trade_accept, Surroundings, idle, put_item, is_none, is_acknowledge, is_initiated,
  is_accept, is_player, set_state, drop_item, transfer, accept_with, player_accept_trade,
  internal_start_trade, move_item,
}
use othire.Trade.Ask.{player_request_trade}
use othire.Trade.Accept.{accepted-item, transfer-settled, transferring}
use othire.Trade.Agree.{accepted-other, accepted_own}
use othire.Trade.Moves.{may_exchange, transfer_own, transfer-partner, dropped-moves}
use othire.Trade.Request.{request-started, may_start}
use othire.Trade.Start.{
  started, told, initiated, acknowledged, start_cases, told_own, told-partner, started_own,
  started-other,
}
use othire.Trade.Runs.{requests, accepts, step, run}

module _ (p q x : ℕ) (w : World) (other : (q == p) ≡ false) where
  -- The first request, between idle players.
  first_start :
      w.traders p ≡ idle → w.traders q ≡ idle → internal_start_trade p q x w ≡ (true, told p q x w)
  first_start ep eq =
      let a = ap (λ t. is_none t.state) ep in
      let b = ap (λ t. is_none t.state) eq in
      let c = ap (λ t. is_none t.state) (started-other p q x w other) ∙ b in
      start_cases p q x w ∙ rw (a, b, c) refl

  -- The second request, by the player who was told.
  second_start :
      (o : Option ℕ) (z : ℕ)
      → w.traders p ≡ acknowledged q o
      → w.traders q ≡ initiated p z
      → internal_start_trade p q x w ≡ (true, started p q x w)
  second_start o z ep eq =
      let a = ap (λ t. is_none t.state) ep in
      let a2 = ap (λ t. is_acknowledge t.state) ep in
      let b = ap (λ t. is_none t.state) eq in
      let same : (q == q) ≡ true = ground arith in
      let same2 : (p == p) ≡ true = ground arith in
      let a3 = ap (λ t. is_player t.partner q) ep ∙ same in
      let b3 = ap (λ t. is_player t.partner p) eq ∙ same2 in
      let c = ap (λ t. is_none t.state) (started-other p q x w other) ∙ b in
      start_cases p q x w ∙ rw (a, a2, a3, b, b3, c) refl

module _ (s : Surroundings) (p q : ℕ) (w : World) where
  -- A player who offers an item accepts.
  accept_ready :
      (x : ℕ)
      → (q == p) ≡ false
      → (s.is_online p && not (s.is_removed p)) ≡ true
      → s.can_throw q p ≡ true
      → w.traders p ≡ initiated q x
      → player_accept_trade s p w ≡ (
          if is_accept (w.traders q).state
          then transfer s p q (set_state p trade_accept w)
          else (false, set_state p trade_accept w))
  unfolding player_accept_trade
  accept_ready x other here near e =
      let a : (not (s.is_online p) || s.is_removed p) ≡ false = ground (arith, here) in
      let b = ap (λ t. is_initiated t.state) e in
      let b2 = ap (λ t. is_acknowledge t.state) e in
      let c = ap (λ t. is_accept t.state) (accepted-other p q w other) in
      rw (a, b, b2) (ap (λ o. accept_with s p o w) (ap (λ t. t.partner) e) ∙ rw (near, c) refl)

  accept_last :
      (x : ℕ)
      → (q == p) ≡ false
      → (s.is_online p && not (s.is_removed p)) ≡ true
      → s.can_throw q p ≡ true
      → w.traders p ≡ initiated q x
      → is_accept (w.traders q).state ≡ true
      → player_accept_trade s p w ≡ transfer s p q (set_state p trade_accept w)
  accept_last x other here near e f = accept_ready x other here near e ∙ rw f refl

  accept_first :
      (x : ℕ)
      → (q == p) ≡ false
      → (s.is_online p && not (s.is_removed p)) ≡ true
      → s.can_throw q p ≡ true
      → w.traders p ≡ initiated q x
      → is_accept (w.traders q).state ≡ false
      → player_accept_trade s p w ≡ (false, set_state p trade_accept w)
  accept_first x other here near e f = accept_ready x other here near e ∙ rw f refl

  abbrev settled_moves : Bool → (o1 o2 : Option ℕ) → List (ℕ × ℕ)
  settled_moves b o1 o2 =
      let w2 = drop_item o2 (drop_item o1 (transferring p q w)) in
      (if b then move_item s o2 p (move_item s o1 q w2) else w2).moves

  transfer-moves :
      (x y : ℕ)
      → (w.traders p).item ≡ some x
      → (w.traders q).item ≡ some y
      → may_exchange s p q (some x) (some y) ≡ true
      → (transfer s p q w).1.moves ≡ ((y, p) ∷ (x, q) ∷ w.moves)
  transfer-moves x y e1 e2 b =
      let k = ap (λ w'. w'.moves) (transfer-settled s p q w) in
      let m = dropped-moves s p q w (some x) (some y) in
      k
      ∙ ap (λ o. settled_moves (may_exchange s p q o (w.traders q).item) o (w.traders q).item) e1
      ∙ ap (λ o. settled_moves (may_exchange s p q (some x) o) (some x) o) e2
      ∙ ap (λ c. settled_moves c (some x) (some y)) b
      ∙ ap (λ ms. (y, p) ∷ (x, q) ∷ ms) m

  transfer-result :
      (x y : ℕ)
      → (w.traders p).item ≡ some x
      → (w.traders q).item ≡ some y
      → may_exchange s p q (some x) (some y) ≡ true
      → (transfer s p q w).0 ≡ true
  unfolding transfer
  transfer-result x y e1 e2 b =
      ap (λ o. may_exchange s p q o (w.traders q).item) e1
      ∙ ap (λ o. may_exchange s p q (some x) o) e2
      ∙ b

-- The trade was carried out: x went to q and y to p, and both players are idle.
abbrev pub IsCompleted : (p q x y : ℕ) → (before : World) → (after : Bool × World) → Type 0
IsCompleted p q x y w r =
    (r.0 ≡ true)
    × ((r.1.moves ≡ ((x, q) ∷ (y, p) ∷ w.moves))
        × ((r.1.traders p ≡ idle) × (r.1.traders q ≡ idle)))

-- The last to accept, once the other has.
last_completes :
    (s : Surroundings) (p q x y : ℕ) (w : World)
    → (q == p) ≡ false
    → (s.is_online q && not (s.is_removed q)) ≡ true
    → s.can_throw p q ≡ true
    → w.traders p ≡ record (initiated q x) { state = trade_accept }
    → w.traders q ≡ initiated p y
    → may_exchange s q p (some y) (some x) ≡ true
    → IsCompleted p q x y w (player_accept_trade s q w)
last_completes s p q x y w other here near ep eq may =
    let other' : (p == q) ≡ false = ground (arith, other) in
    let w' = set_state q trade_accept w in
    let item_q = accepted-item q q w ∙ ap (λ t. t.item) eq in
    let item_p = accepted-item q p w ∙ ap (λ t. t.item) ep in
    let accepts_p = ap (λ t. is_accept t.state) ep in
    subst (IsCompleted p q x y w) (sym (accept_last s q p w y other' here near eq accepts_p)) (
      transfer-result s q p w' y x item_q item_p may,
      (
        transfer-moves s q p w' y x item_q item_p may,
        (transfer-partner s q p w', transfer_own s q p w' other'),
      ),
    )

-- Two idle players request to trade with each other, each for an item of its own, and accept: where
-- the tests of both requests and of the transfer pass, the last call returns true, moves each item to
-- the other player and nothing else, and leaves both players idle. A move is a call
-- of internalMoveItem, whose result the code does not look at.
pub trade_completes :
    (s : Surroundings) (p q x y sprite_x sprite_y : ℕ) (w : World)
    → w.traders p ≡ idle
    → w.traders q ≡ idle
    → may_start s p q x sprite_x w.trade_items ≡ true
    → may_start s q p y sprite_y (put_item x p w.trade_items) ≡ true
    → may_exchange s q p (some y) (some x) ≡ true
    → let before =
        run
          ((s, requests p q (some x) sprite_x)
            ∷ (s, requests q p (some y) sprite_y)
            ∷ (s, accepts p)
            ∷ [])
          w in
      IsCompleted p q x y w (player_accept_trade s q before)
unfolding run step
trade_completes s p q x y sprite_x sprite_y w ep eq may_x may_y may =
    let other : (q == p) ≡ false = ground (arith, may_x) in
    let other' : (p == q) ≡ false = ground (arith, other) in
    let here_p : (s.is_online p && not (s.is_removed p)) ≡ true = ground (arith, may_x) in
    let here_q : (s.is_online q && not (s.is_removed q)) ≡ true = ground (arith, may_y) in
    let near : s.can_throw q p ≡ true = ground (arith, may_x) in
    let near' : s.can_throw p q ≡ true = ground (arith, may_y) in
    let w1 = told p q x w in
    let w2 = started q p y w1 in
    let w3 = set_state p trade_accept w2 in
    let e1 = request-started s p q x sprite_x w may_x ∙ first_start p q x w other ep eq in
    let p1 = told_own p q x w other in
    let q1 = told-partner p q x w other in
    let e2 =
      request-started s q p y sprite_y w1 may_y
      ∙ second_start q p y w1 other' (w.traders q).item x q1 p1 in
    let p2 = started-other q p y w1 other' ∙ p1 in
    let q2 = started_own q p y w1 in
    let first = ap (λ a. is_accept a.state) q2 in
    let e3 = accept_first s p q w2 x other here_p near p2 first in
    let p3 = accepted_own p w2 ∙ ap {A = Trader} (λ a. record a { state = trade_accept }) p2 in
    let q3 = accepted-other p q w2 other ∙ q2 in
    let whole =
      ap
        (λ r.
          player_accept_trade s q
            (player_accept_trade s p (player_request_trade s q p (some y) sprite_y r.1).1).1)
        e1
      ∙ ap (λ r. player_accept_trade s q (player_accept_trade s p r.1).1) e2
      ∙ ap (λ r. player_accept_trade s q r.1) e3 in
    subst (IsCompleted p q x y w) (sym whole)
      (last_completes s p q x y w3 other here_q near' p3 q3 may)
