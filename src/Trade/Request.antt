-- ===== src/Trade/Request.antt =====
-- Requests to trade keep the state sound (source/game.cpp: internalStartTrade, playerRequestTrade).
use othire.Base.{
  ℕ, List, ◌≡◌, sym, ap, subst, ◌∙◌, Bool, true, false, not, ◌&&◌, ◌==◌, ltb, ◌+◌, if◌then◌else◌,
  Option, none, some, arith, inl, inr, Bool-cases,
}
use othire.Trade.{
  World, Surroundings, is_none, is_acknowledge, is_player, find_item, internal_start_trade,
}
use othire.Trade.Ask.{in_range, is_traded, player_request_trade}
use othire.Trade.Views.{is_traded-find_item}
use othire.Trade.Pairs.{IsSound, sound-IsTrader, as-IsPaired}
use othire.Trade.Start.{
  started, told, told-IsSound, started-IsSound, start_cases, as_acknowledge, as_partner,
  paired_not_none, none_idle, started-other,
}

module _ (p q x : ℕ) (w : World) (other : (q == p) ≡ false)
    (free : find_item x w.trade_items ≡ none) (h : IsSound w) where
  -- The player who starts the trade is idle.
  begin-IsSound :
      is_none (w.traders p).state ≡ true
      → (not (is_none (w.traders q).state) && not (is_player (w.traders q).partner p)) ≡ false
      → IsSound
          (if is_none ((started p q x w).traders q).state then told p q x w else started p q x w)
  begin-IsSound e g =
      let idle_p = none_idle w.traders p e (sound-IsTrader w p h) in
      elim (Bool-cases (is_none (w.traders q).state)) [
        | inl f ↦
            let same = ap (λ a. is_none a.state) (started-other p q x w other) ∙ f in
            rw same (
              told-IsSound p q x w other idle_p (none_idle w.traders q f (sound-IsTrader w q h))
                free h)
        | inr f ↦
            let m = as_partner (w.traders q).partner p (ground (arith, f, g)) in
            let d = as-IsPaired w.traders q p m (sound-IsTrader w q h) in
            let no = sym d.1.0 ∙ ap (λ a. a.partner) idle_p in ground (arith, no)
      ]

  -- The player who acknowledged the trade offers an item.
  counter-IsSound :
      is_acknowledge (w.traders p).state ≡ true
      → is_player (w.traders p).partner q ≡ true
      → IsSound
          (if is_none ((started p q x w).traders q).state then told p q x w else started p q x w)
  counter-IsSound e f =
      let m = as_partner (w.traders p).partner q f in
      let d = as-IsPaired w.traders p q m (sound-IsTrader w p h) in
      let k = paired_not_none w.traders q p d.1.0 (sound-IsTrader w q h) in
      let same = ap (λ a. is_none a.state) (started-other p q x w other) ∙ k in
      rw same (started-IsSound p q x w m (as_acknowledge (w.traders p).state e) free h)

  pub internal_start_trade-IsSound : IsSound (internal_start_trade p q x w).1
  internal_start_trade-IsSound =
      let a = w.traders p in
      let b = w.traders q in
      subst (λ r. IsSound r.1) (sym (start_cases p q x w))
        (elim (Bool-cases
          (not (is_none a.state) && not (is_acknowledge a.state && is_player a.partner q))) [
            | inl i ↦ rw i h
            | inr i ↦ elim (Bool-cases (not (is_none b.state) && not (is_player b.partner p))) [
              | inl j ↦ rw (i, j) h
              | inr j ↦ elim (Bool-cases (is_none a.state)) [
                | inl k ↦ rw (i, j) (begin-IsSound k j)
                | inr k ↦ rw (i, j) (counter-IsSound (ground (arith, i, k)) (ground (arith, i, k)))
              ]
            ]
          ])

-- The tests of playerRequestTrade before internalStartTrade.
abbrev pub may_start : Surroundings → (p q x : ℕ) → (sprite_id : ℕ) → List (ℕ × ℕ) → Bool
may_start s p q x sprite_id es =
    ((s.is_online p && not (s.is_removed p)) && (s.is_online q && not (q == p)))
    && ((in_range 2 2 0 (s.position q) (s.position p) && s.can_throw q p)
        && (((s.client_id x == sprite_id && (s.is_pickupable x && s.unique_id x == 0))
              && (not (ltb (s.item_position x).z (s.position p).z)
                  && not (ltb (s.position p).z (s.item_position x).z)))
            && ((in_range 1 1 0 (s.item_position x) (s.position p) && not (is_traded s x es))
                && not (s.is_container x && ltb 100 (s.holding_count x + 1)))))

pub request-refused :
    (s : Surroundings) (p q x sprite_id : ℕ) (w : World)
    → may_start s p q x sprite_id w.trade_items ≡ false
    → (player_request_trade s p q (some x) sprite_id w).1 ≡ w
unfolding player_request_trade
request-refused s p q x sprite_id w h = ground (arith, h)

pub request-started :
    (s : Surroundings) (p q x sprite_id : ℕ) (w : World)
    → may_start s p q x sprite_id w.trade_items ≡ true
    → player_request_trade s p q (some x) sprite_id w ≡ internal_start_trade p q x w
unfolding player_request_trade
request-started s p q x sprite_id w h = ground (arith, h)

pub request-nothing :
    (s : Surroundings) (p q sprite_id : ℕ) (w : World)
    → (player_request_trade s p q none sprite_id w).1 ≡ w
unfolding player_request_trade
request-nothing s p q sprite_id w = ground arith

pub player_request_trade-IsSound :
    (s : Surroundings) (p q : ℕ) (thing : Option ℕ) (sprite_id : ℕ) (w : World)
    → IsSound w
    → IsSound (player_request_trade s p q thing sprite_id w).1
player_request_trade-IsSound s p q none sprite_id w h =
    subst IsSound (sym (request-nothing s p q sprite_id w)) h
player_request_trade-IsSound s p q (some x) sprite_id w h =
    elim (Bool-cases (may_start s p q x sprite_id w.trade_items)) [
      | inl i ↦
          let other : (q == p) ≡ false = ground (arith, i) in
          let new : is_traded s x w.trade_items ≡ false = ground (arith, i) in
          let k =
            internal_start_trade-IsSound p q x w other (is_traded-find_item s x w.trade_items new)
              h in
          subst (λ r. IsSound r.1) (sym (request-started s p q x sprite_id w i)) k
      | inr i ↦ subst IsSound (sym (request-refused s p q x sprite_id w i)) h
    ]
