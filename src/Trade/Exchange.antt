-- ===== src/Trade/Exchange.antt =====
-- Who gives what to whom in a trade (source/game.cpp: playerAcceptTrade).
use othire.Base.{
  ℕ, ◌<◌, List, ◌≡◌, refl, sym, ap, subst, ◌∙◌, ◌⊎◌, Bool, true, false, not, ◌||◌, if◌then◌else◌,
  Option, none, some, arith, inl, inr, Bool-cases, Option-cases,
}
use othire.Trade.{
  World, Surroundings, transfer, set_state, trade_accept, is_accept, is_acknowledge, is_initiated,
  accept_with, player_accept_trade, internal_close_trade, internal_start_trade, cancel,
}
use othire.Trade.Ask.{player_request_trade}
use othire.Trade.Pairs.{IsSound, sound-IsTrader, as-IsPaired}
use othire.Trade.Accept.{accepted-item}
use othire.Trade.Agree.{accepted-other}
use othire.Trade.Moves.{IsExchange, transfer_moves, transfer_own, transfer-partner, drop_item-moves}
use othire.Trade.Close.{close_alone, close_both}
use othire.Trade.Request.{request-refused, request-started, request-nothing, may_start}
use othire.Trade.Runs.{Call, accepts, step}
use othire.Trade.Steps.{step_keeps}

module _ (s : Surroundings) (p : ℕ) (w : World) where
  -- What accepting does to the items.
  abbrev pub IsFair : World → Type 0
  IsFair w' = (w'.moves ≡ w.moves) ⊎ ((q x y : ℕ) × IsExchange s p q x y w w')

  module _ (q : ℕ) (e : (w.traders p).partner ≡ some q) (h : IsSound w) where
    transfer-IsFair :
        is_accept (w.traders q).state ≡ true
        → IsFair (transfer s p q (set_state p trade_accept w)).1
    transfer-IsFair f =
        let d = as-IsPaired w.traders p q e (sound-IsTrader w p h) in
        let w' = set_state p trade_accept w in
        elim (transfer_moves s p q w') [
          | inl m ↦ inl m
          | inr (x, y, (e1, (e2, (b, m)))) ↦ inr (
            q,
            x,
            y,
            (
              (e, (d.1.0, f)),
              (
                (sym (accepted-item p p w) ∙ e1, (sym (accepted-item p q w) ∙ e2, b)),
                (m, (transfer_own s p q w' d.0, transfer-partner s p q w')),
              ),
            ),
          )
        ]

    transfer_or_IsFair :
        (b : Bool)
        → is_accept (w.traders q).state ≡ b
        → IsFair
            (if b
              then transfer s p q (set_state p trade_accept w)
              else (false, set_state p trade_accept w)).1
    transfer_or_IsFair true f = transfer-IsFair f
    transfer_or_IsFair false f = inl refl

  accept_with-IsFair :
      (o : Option ℕ) → (w.traders p).partner ≡ o → IsSound w → IsFair (accept_with s p o w).1
  accept_with-IsFair none e h = inl refl
  accept_with-IsFair (some q) e h = elim (Bool-cases (not (s.can_throw q p))) [
    | inl i ↦ rw i (inl refl)
    | inr i ↦
        let d = as-IsPaired w.traders p q e (sound-IsTrader w p h) in
        let same = ap (λ a. is_accept a.state) (accepted-other p q w d.0) in
        rw i (transfer_or_IsFair q e h _ (sym same))
  ]

  player_accept_trade-IsFair : IsSound w → IsFair (player_accept_trade s p w).1
  unfolding player_accept_trade
  player_accept_trade-IsFair h = elim (Bool-cases (not (s.is_online p) || s.is_removed p)) [
    | inl i ↦ rw i (inl refl)
    | inr i ↦
        elim (Bool-cases
          (not (is_acknowledge (w.traders p).state || is_initiated (w.traders p).state))) [
            | inl j ↦ rw (i, j) (inl refl)
            | inr j ↦ rw (i, j) (accept_with-IsFair (w.traders p).partner refl h)
          ]
  ]

-- Nothing else moves items.
module _ (ms : List (ℕ × ℕ)) where
  HasMoves : World → Type 0
  HasMoves w = w.moves ≡ ms

  cancel_keeps_moves : (p : ℕ) (w : World) → HasMoves w → HasMoves (cancel p w)
  unfolding HasMoves cancel
  cancel_keeps_moves p w h = drop_item-moves (w.traders p).item w ∙ h

  if_keeps_moves :
      (b : Bool) (w w' : World) → HasMoves w → HasMoves w' → HasMoves (if b then w else w')
  if_keeps_moves true w w' h h' = h
  if_keeps_moves false w w' h h' = h'

  close_keeps_moves : (p : ℕ) (w : World) → HasMoves w → HasMoves (internal_close_trade p w)
  close_keeps_moves p w h = elim (Option-cases (w.traders p).partner) [
    | inl e ↦
        subst HasMoves (sym (close_alone p w e)) (if_keeps_moves _ _ _ h (cancel_keeps_moves p w h))
    | inr (q, e) ↦
        subst HasMoves (sym (close_both p q w e))
          (if_keeps_moves _ _ _ h (cancel_keeps_moves q _ (cancel_keeps_moves p w h)))
  ]

  start_keeps_moves :
      (p q x : ℕ) (w : World) → HasMoves w → HasMoves (internal_start_trade p q x w).1
  unfolding HasMoves internal_start_trade
  start_keeps_moves p q x w h = ground (arith, h)

  request_keeps_moves :
      (s : Surroundings) (p q : ℕ) (thing : Option ℕ) (sprite_id : ℕ) (w : World)
      → HasMoves w
      → HasMoves (player_request_trade s p q thing sprite_id w).1
  request_keeps_moves s p q none sprite_id w h =
      subst HasMoves (sym (request-nothing s p q sprite_id w)) h
  request_keeps_moves s p q (some x) sprite_id w h =
      elim (Bool-cases (may_start s p q x sprite_id w.trade_items)) [
        | inl i ↦
            subst (λ r. HasMoves r.1) (sym (request-started s p q x sprite_id w i))
              (start_keeps_moves p q x w h)
        | inr i ↦ subst HasMoves (sym (request-refused s p q x sprite_id w i)) h
      ]

call_cases : (c : Call) → ((p : ℕ) × (c ≡ accepts p)) ⊎ ((p : ℕ) → c ≡ accepts p → p < 0)
call_cases (accepts p) = inl (p, refl)
call_cases c = inr (λ p e. ground (arith, e))

other_step-moves :
    (s : Surroundings) (c : Call) (w : World)
    → ((p : ℕ) → c ≡ accepts p → p < 0)
    → (step s c w).moves ≡ w.moves
unfolding HasMoves
other_step-moves s c w k =
    step_keeps (HasMoves w.moves) (close_keeps_moves w.moves) (request_keeps_moves w.moves) s c w
      (λ p e. let no = k p e in absurd (omega (arith, no))) refl

accept_step :
    (s : Surroundings) (p : ℕ) (w : World) → step s (accepts p) w ≡ (player_accept_trade s p w).1
unfolding step
accept_step s p w = refl

-- From a sound state, a call either moves no item, or it is the acceptance of a player p whose
-- partner q, whose own partner is p, has accepted: both offer an item, the tests pass for both
-- items, exactly these two items are moved, each to the other player, and both are idle afterwards.
-- A move is a call of internalMoveItem, whose result the code does not look at.
pub step-IsExchange :
    (s : Surroundings) (c : Call) (w : World)
    → IsSound w
    → ((step s c w).moves ≡ w.moves)
      ⊎ ((p q x y : ℕ) × ((c ≡ accepts p) × IsExchange s p q x y w (step s c w)))
step-IsExchange s c w h = elim (call_cases c) [
  | inl (p, e) ↦
      subst
        (λ d.
          ((step s d w).moves ≡ w.moves)
          ⊎ ((p q x y : ℕ) × ((d ≡ accepts p) × IsExchange s p q x y w (step s d w))))
        (sym e)
        (elim (subst (IsFair s p w) (sym (accept_step s p w))
          (player_accept_trade-IsFair s p w h)) [
            | inl m ↦ inl m
            | inr (q, x, y, m) ↦ inr (p, q, x, y, (refl, m))
          ])
  | inr k ↦ inl (other_step-moves s c w k)
]
