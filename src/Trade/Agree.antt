-- ===== src/Trade/Agree.antt =====
-- Accepting a trade keeps the state sound (source/game.cpp: playerAcceptTrade).
use othire.Base.{
  ℕ, ◌≡◌, refl, sym, ap, subst, ◌∙◌, Bool, true, false, not, ◌||◌, ◌==◌, if◌then◌else◌, Option,
  none, some, arith, inl, inr, Bool-cases,
}
use othire.Trade.{
  trade_accept, Trader, World, Surroundings, is_accept, is_acknowledge, is_initiated, set_state,
  find_item, transfer, accept_with, player_accept_trade,
}
use othire.Trade.Views.{view}
use othire.Trade.Pairs.{
  IsHolder, IsPhase, IsListed, IsSound, IsSoundView, IsPaired, as-IsPaired, IsApart-of_pair,
  two_traders, sound-IsTrader,
}
use othire.Trade.Close.{closed_twice}
use othire.Trade.Accept.{accepted-view, accepted-item}

IsListed-same :
    (t u : ℕ → Trader) (x : ℕ) (o : Option ℕ) (n m : ℕ)
    → ((r : ℕ) → (u r).item ≡ (t r).item)
    → IsListed t x o n m
    → IsListed u x o n m
IsListed-same t u x none n m k h = h
IsListed-same t u x (some p) n m k h = (k p ∙ h.0, h.1)

pub accepted_own :
    (p : ℕ) (w : World)
    → (set_state p trade_accept w).traders p ≡ record (w.traders p) { state = trade_accept }
accepted_own p w = let same : (p == p) ≡ true = ground arith in rw same refl

pub accepted-other :
    (p r : ℕ) (w : World) → (r == p) ≡ false → (set_state p trade_accept w).traders r ≡ w.traders r
accepted-other p r w h = rw h refl

accepted-IsSound :
    (p q : ℕ) (w : World)
    → (w.traders p).partner ≡ some q
    → is_accept (w.traders q).state ≡ false
    → IsSound w
    → IsSound (set_state p trade_accept w)
unfolding IsSound
accepted-IsSound p q w e f (ht, (he, hh)) =
    let u = (set_state p trade_accept w).traders in
    let d = as-IsPaired w.traders p q e (ht p) in
    let back = as-IsPaired w.traders q p d.1.0 (ht q) in
    let self = accepted_own p w in
    let same = accepted-other p q w d.0 in
    (
      two_traders w.traders u p q (λ r i. accepted-other p r w (ground (arith, i)))
          (IsApart-of_pair w.traders p q e d.1.0 ht) (ap (λ a. a.partner) self ∙ e)
          (subst (λ a. IsPhase a.state a.item) (sym same) back.1.1.0)
          (subst (λ a. IsPaired p q a (u q)) (sym self)
            (subst (λ b. IsPaired p q (record (w.traders p) { state = trade_accept }) b) (sym same)
              (d.0, (d.1.0, (tt, (d.1.1.1.0, f))))))
          ht,
      (
        λ x.
            IsListed-same w.traders u x (find_item x w.trade_items) (w.use_count x) _
              (λ r. accepted-item p r w) (he x),
        λ r. subst (IsHolder (view w).offered_by r) (sym (accepted-item p r w)) (hh r),
      ),
    )

transfer-IsSound :
    (s : Surroundings) (p q : ℕ) (w : World)
    → (w.traders p).partner ≡ some q
    → IsSound w
    → IsSound (transfer s p q (set_state p trade_accept w)).1
unfolding IsSound
transfer-IsSound s p q w e h =
    let d = as-IsPaired w.traders p q e (h.0 p) in
    subst IsSoundView (sym (accepted-view s p q w d.0)) (closed_twice p q (view w) e h)

transfer_or-IsSound :
    (b : Bool) (s : Surroundings) (p q : ℕ) (w : World)
    → (w.traders p).partner ≡ some q
    → is_accept (w.traders q).state ≡ b
    → IsSound w
    → IsSound
        (if b
          then transfer s p q (set_state p trade_accept w)
          else (false, set_state p trade_accept w)).1
transfer_or-IsSound true s p q w e f h = transfer-IsSound s p q w e h
transfer_or-IsSound false s p q w e f h = accepted-IsSound p q w e f h

accept_with-IsSound :
    (s : Surroundings) (p : ℕ) (o : Option ℕ) (w : World)
    → (w.traders p).partner ≡ o
    → IsSound w
    → IsSound (accept_with s p o w).1
accept_with-IsSound s p none w e h = h
accept_with-IsSound s p (some q) w e h = elim (Bool-cases (not (s.can_throw q p))) [
  | inl i ↦ rw i h
  | inr i ↦
      let d = as-IsPaired w.traders p q e (sound-IsTrader w p h) in
      let same = ap (λ a. is_accept a.state) (accepted-other p q w d.0) in
      rw i (transfer_or-IsSound _ s p q w e (sym same) h)
]

pub player_accept_trade-IsSound :
    (s : Surroundings) (p : ℕ) (w : World) → IsSound w → IsSound (player_accept_trade s p w).1
unfolding player_accept_trade
player_accept_trade-IsSound s p w h = elim (Bool-cases (not (s.is_online p) || s.is_removed p)) [
  | inl i ↦ rw i h
  | inr i ↦
      elim (Bool-cases
        (not (is_acknowledge (w.traders p).state || is_initiated (w.traders p).state))) [
          | inl j ↦ rw (i, j) h
          | inr j ↦ rw (i, j) (accept_with-IsSound s p (w.traders p).partner w refl h)
        ]
]
