-- ===== src/Trade/Pairs.antt =====
-- When the state of the trades is sound: trades are between two players, and the items that are
-- offered are the ones in tradeItems, used once more often than freed (source/game.cpp).
use othire.Base.{
  ℕ, suc, ◌≡◌, refl, sym, ap, subst, ◌∙◌, Bool, true, false, ◌&&◌, ◌||◌, ◌<◌, ◌==◌, Option, none,
  some, some_injective, arith, inl, inr, Bool-cases, Option-cases,
}
use othire.Trade.{
  TradeState, trade_none, trade_initiated, trade_accept, trade_acknowledge, trade_transfer, Trader,
  World, is_accept, idle,
}
use othire.Trade.Views.{View, view}

abbrev pub has_item : Option ℕ → Bool
has_item none = false
has_item (some x) = true

-- Where a player has a partner, the one who initiated the trade offers an item, and the one who
-- acknowledged it does not. Between calls nobody with a partner is in trade_none or trade_transfer.
abbrev pub IsPhase : TradeState → Option ℕ → Type 0
IsPhase trade_none o = ⊥
IsPhase trade_initiated o = has_item o ≡ true
IsPhase trade_accept o = Unit {0}
IsPhase trade_acknowledge o = has_item o ≡ false
IsPhase trade_transfer o = ⊥

-- The trades a and b of the players p and q are one trade, from the side of p.
abbrev pub IsPaired : (p q : ℕ) → (a b : Trader) → Type 0
IsPaired p q a b =
    ((q == p) ≡ false)
    × ((b.partner ≡ some p)
        × (IsPhase a.state a.item
            × (((has_item a.item || has_item b.item) ≡ true)
                × ((is_accept a.state && is_accept b.state) ≡ false))))

abbrev pub IsMate : (ℕ → Trader) → (p : ℕ) → Trader → Option ℕ → Type 0
IsMate traders p a none = (a.state ≡ trade_none) × (a.item ≡ none)
IsMate traders p a (some q) = IsPaired p q a (traders q)

-- The player is idle, or trades with another player who trades with it.
abbrev pub IsTrader : (ℕ → Trader) → ℕ → Type 0
IsTrader traders p = IsMate traders p (traders p) (traders p).partner

abbrev pub IsListed : (ℕ → Trader) → (x : ℕ) → Option ℕ → (uses frees : ℕ) → Type 0
IsListed traders x none uses frees = uses ≡ frees
IsListed traders x (some p) uses frees = ((traders p).item ≡ some x) × (uses ≡ suc frees)

-- An item that nobody offers was freed as often as it was used, and one that a player offers is the
-- item of that player's trade, and was used once more.
abbrev pub IsEntry : View → ℕ → Type 0
IsEntry v x = IsListed v.traders x (v.offered_by x) (v.uses x) (v.frees x)

-- The item of a player's trade is offered by that player.
abbrev pub IsHolder : (ℕ → Option ℕ) → ℕ → Option ℕ → Type 0
IsHolder offered_by p none = Unit {0}
IsHolder offered_by p (some x) = offered_by x ≡ some p

abbrev pub IsSoundView : View → Type 0
IsSoundView v =
    ((p : ℕ) → IsTrader v.traders p)
    × (((x : ℕ) → IsEntry v x) × ((p : ℕ) → IsHolder v.offered_by p (v.traders p).item))

pub IsHolder-map :
    (f g : ℕ → Option ℕ) (r : ℕ) (o : Option ℕ)
    → ((y : ℕ) → f y ≡ some r → g y ≡ some r)
    → IsHolder f r o
    → IsHolder g r o
IsHolder-map f g r none k h = h
IsHolder-map f g r (some y) k h = k y h

unfoldable pub IsSound : World → Type 0
IsSound w = IsSoundView (view w)

pub as-IsPaired :
    (t : ℕ → Trader) (p q : ℕ) → (t p).partner ≡ some q → IsTrader t p → IsPaired p q (t p) (t q)
as-IsPaired t p q e h = subst (λ o. IsMate t p (t p) o) e h

pub as_idle :
    (t : ℕ → Trader) (p : ℕ)
    → (t p).partner ≡ none
    → IsTrader t p
    → ((t p).state ≡ trade_none) × ((t p).item ≡ none)
as_idle t p e h = subst (λ o. IsMate t p (t p) o) e h

pub from_paired :
    (t : ℕ → Trader) (p q : ℕ) → (t p).partner ≡ some q → IsPaired p q (t p) (t q) → IsTrader t p
from_paired t p q e h = subst (λ o. IsMate t p (t p) o) (sym e) h

pub idle_of : (t : ℕ → Trader) (p : ℕ) → (t p).partner ≡ none → IsTrader t p → t p ≡ idle
idle_of t p e h =
    let k = as_idle t p e h in λ i. record { state = k.0 i; partner = e i; item = k.1 i }

pub trader_at : (t : ℕ → Trader) (p : ℕ) → t p ≡ idle → IsTrader t p
trader_at t p e = subst (λ a. IsMate t p a a.partner) (sym e) (refl, refl)

-- A trade stays as it is where neither side changes.
pub keep_trader :
    (t u : ℕ → Trader) (p : ℕ)
    → u p ≡ t p
    → ((q : ℕ) → (t p).partner ≡ some q → u q ≡ t q)
    → IsTrader t p
    → IsTrader u p
keep_trader t u p e k h = elim (Option-cases (t p).partner) [
  | inl n ↦ trader_at u p (e ∙ idle_of t p n h)
  | inr (q, m) ↦
      let d = as-IsPaired t p q m h in
      let d' = subst (λ a. IsPaired p q a (t q)) (sym e) d in
      from_paired u p q (ap (λ a. a.partner) e ∙ m)
        (subst (λ b. IsPaired p q (u p) b) (sym (k q m)) d')
]

-- A player has one partner.
pub one_partner :
    (t : ℕ → Trader) (r s a c : ℕ) → (t s).partner ≡ some r → (t a).partner ≡ some c → s ≡ a → r ≡ c
one_partner t r s a c m n e = some_injective (sym m ∙ ap (λ y. (t y).partner) e ∙ n)

no_partner : (t : ℕ → Trader) (r s a : ℕ) → (t s).partner ≡ some r → t a ≡ idle → s ≡ a → s < 0
no_partner t r s a m n e =
    let k = sym m ∙ ap (λ y. (t y).partner) e ∙ ap (λ b. b.partner) n in ground (arith, k)

-- Nobody else trades with one of the two.
abbrev pub IsApart : (ℕ → Trader) → (p q : ℕ) → Type 0
IsApart t p q =
    (r s : ℕ) → (r == p || r == q) ≡ false → (t r).partner ≡ some s → (s == p || s == q) ≡ false

pub IsApart-of_pair :
    (t : ℕ → Trader) (p q : ℕ)
    → (t p).partner ≡ some q
    → (t q).partner ≡ some p
    → ((r : ℕ) → IsTrader t r)
    → IsApart t p q
IsApart-of_pair t p q ep eq h r s i m =
    let b = (as-IsPaired t r s m (h r)).1.0 in
    let kp = one_partner t r s p q b ep in
    let kq = one_partner t r s q p b eq in ground (arith, i, kp, kq)

pub IsApart-of_idle :
    (t : ℕ → Trader) (p q : ℕ) → t p ≡ idle → t q ≡ idle → ((r : ℕ) → IsTrader t r) → IsApart t p q
IsApart-of_idle t p q ep eq h r s i m =
    let b = (as-IsPaired t r s m (h r)).1.0 in
    let kp = no_partner t r s p b ep in let kq = no_partner t r s q b eq in ground (arith, kp, kq)

-- From the side of the partner.
IsPaired-back :
    (p q : ℕ) (a b : Trader)
    → a.partner ≡ some q
    → IsPhase b.state b.item
    → IsPaired p q a b
    → IsPaired q p b a
IsPaired-back p q a b e f d =
    let offer = d.1.1.1.0 in
    let not_both = d.1.1.1.1 in
    let other = d.0 in
    (ground (arith, other), (e, (f, (ground (arith, offer), ground (arith, not_both)))))

-- Where the trade of two players changes, the others' trades stay.
pub two_traders :
    (t u : ℕ → Trader) (p q : ℕ)
    → ((r : ℕ) → (r == p || r == q) ≡ false → u r ≡ t r)
    → IsApart t p q
    → (u p).partner ≡ some q
    → IsPhase (u q).state (u q).item
    → IsPaired p q (u p) (u q)
    → ((r : ℕ) → IsTrader t r)
    → (r : ℕ) → IsTrader u r
two_traders t u p q k apart e f d h r = elim (Bool-cases (r == p)) [
  | inl i ↦
      let same : r ≡ p = ground (arith, i) in
      subst (λ y. IsTrader u y) (sym same) (from_paired u p q e d)
  | inr i ↦ elim (Bool-cases (r == q)) [
    | inl j ↦
        let same : r ≡ q = ground (arith, j) in
        subst (λ y. IsTrader u y) (sym same)
          (from_paired u q p d.1.0 (IsPaired-back p q (u p) (u q) e f d))
    | inr j ↦
        let other : (r == p || r == q) ≡ false = ground (arith, i, j) in
        keep_trader t u r (k r other) (λ s m. k s (apart r s other m)) (h r)
  ]
]

pub sound-IsTrader : (w : World) (p : ℕ) → IsSound w → IsTrader w.traders p
unfolding IsSound
sound-IsTrader w p h = h.0 p
