-- ===== src/Trade/Start.antt =====
-- Starting a trade (source/game.cpp: internalStartTrade, playerRequestTrade).
use othire.Base.{
  ℕ, suc, ◌≡◌, refl, sym, ap, subst, ◌∙◌, true, false, not, ◌&&◌, ◌||◌, ◌==◌, if◌then◌else◌, Option,
  none, some, arith, inl, inr, Bool-cases, Option-cases,
}
use othire.Trade.{
  TradeState, trade_none, trade_initiated, trade_accept, trade_acknowledge, trade_transfer, Trader,
  World, idle, is_none, is_acknowledge, is_player, set_trader, put_item, find_item,
  internal_start_trade,
}
use othire.Trade.Views.{View, view, with_item, find_item-put_item}
use othire.Trade.Pairs.{
  IsHolder, IsHolder-map, has_item, IsPhase, IsTrader, IsListed, IsEntry, IsSound, IsSoundView,
  IsPaired, IsApart, as-IsPaired, idle_of, IsApart-of_idle, IsApart-of_pair, two_traders,
}

abbrev pub initiated : (q x : ℕ) → Trader
initiated q x = record { state = trade_initiated; partner = some q; item = some x }

-- The world after the trade was started, before the partner is told.
abbrev pub started : (p q x : ℕ) → World → World
started p q x w = record (set_trader p (initiated q x) w) {
  use_count = λ y. if y == x then suc (w.use_count y) else w.use_count y;
  trade_items = put_item x p w.trade_items;
}

-- The entries of the items that others offer stay.
IsListed-other :
    (t u : ℕ → Trader) (p y : ℕ) (o : Option ℕ) (n m : ℕ)
    → (t p).item ≡ none
    → ((r : ℕ) → (r == p) ≡ false → (u r).item ≡ (t r).item)
    → IsListed t y o n m
    → IsListed u y o n m
IsListed-other t u p y none n m e k h = h
IsListed-other t u p y (some q) n m e k h = elim (Bool-cases (q == p)) [
  | inl i ↦
      let same : q ≡ p = ground (arith, i) in
      let no = sym (ap (λ r. (t r).item) same ∙ e) ∙ h.0 in ground (arith, no)
  | inr i ↦ (k q i ∙ h.0, h.1)
]

-- The entries after a player without an item offers one that nobody offers.
listed_started :
    (u : ℕ → Trader) (p x : ℕ) (v : View)
    → (v.traders p).item ≡ none
    → (u p).item ≡ some x
    → ((r : ℕ) → (r == p) ≡ false → (u r).item ≡ (v.traders r).item)
    → v.offered_by x ≡ none
    → (y : ℕ) → IsEntry v y
    → IsEntry (record (with_item p x v) { traders = u }) y
listed_started u p x v e f k m y h = elim (Bool-cases (y == x)) [
  | inl i ↦
      let same : y ≡ x = ground (arith, i) in
      let free =
        subst (λ o. IsListed v.traders y o (v.uses y) (v.frees y)) (ap v.offered_by same ∙ m) h in
      rw i (f ∙ ap some (sym same), ap suc free)
  | inr i ↦ rw i (IsListed-other v.traders u p y (v.offered_by y) (v.uses y) (v.frees y) e k h)
]

-- What others offer stays.
other_offered :
    (p x y r : ℕ) (v : View)
    → v.offered_by x ≡ none
    → v.offered_by y ≡ some r
    → (if y == x then some p else v.offered_by y) ≡ some r
other_offered p x y r v m a = elim (Bool-cases (y == x)) [
  | inl j ↦
      let same : y ≡ x = ground (arith, j) in
      let no = sym (ap v.offered_by same ∙ m) ∙ a in ground (arith, no)
  | inr j ↦ rw j a
]

-- The two players start to trade, or the one who acknowledged the trade offers an item too.
sound_started :
    (u : ℕ → Trader) (p q x : ℕ) (v : View)
    → IsApart v.traders p q
    → (v.traders p).item ≡ none
    → u p ≡ initiated q x
    → IsPhase (u q).state (u q).item
    → (u q).partner ≡ some p
    → (u q).item ≡ (v.traders q).item
    → (q == p) ≡ false
    → ((r : ℕ) → (r == p || r == q) ≡ false → u r ≡ v.traders r)
    → v.offered_by x ≡ none
    → IsSoundView v
    → IsSoundView (record (with_item p x v) { traders = u })
sound_started u p q x v apart e f phase back item other k m (ht, (he, hh)) = (
  two_traders v.traders u p q k apart (ap (λ a. a.partner) f) phase
      (subst (λ a. IsPaired p q a (u q)) (sym f) (other, (back, (refl, (refl, refl))))) ht,
  (λ y. listed_started u p x v e (ap (λ a. a.item) f) same_item m y (he y), holders),
)
  where
    same_item : (r : ℕ) → (r == p) ≡ false → (u r).item ≡ (v.traders r).item
    same_item r i = elim (Bool-cases (r == q)) [
      | inl j ↦
          let same : r ≡ q = ground (arith, j) in
          subst (λ s. (u s).item ≡ (v.traders s).item) (sym same) item
      | inr j ↦
          let i2 : (r == p || r == q) ≡ false = ground (arith, i, j) in ap (λ a. a.item) (k r i2)
    ]

    offered : ℕ → Option ℕ
    offered y = if y == x then some p else v.offered_by y

    holders : (r : ℕ) → IsHolder offered r (u r).item
    holders r = elim (Bool-cases (r == p)) [
      | inl i ↦
          let same : r ≡ p = ground (arith, i) in
          let own : (x == x) ≡ true = ground arith in
          subst (λ s. IsHolder offered s (u s).item) (sym same)
            (subst (λ a. IsHolder offered p a.item) (sym f) (rw own refl))
      | inr i ↦ subst (IsHolder offered r) (sym (same_item r i)) (
          IsHolder-map v.offered_by offered r (v.traders r).item
            (λ y a. other_offered p x y r v m a) (hh r))
    ]

view-started :
    (u : ℕ → Trader) (p q x : ℕ) (w : World)
    → view (record (started p q x w) { traders = u })
      ≡ record (with_item p x (view w)) { traders = u }
view-started u p q x w = λ i. record (view (record (started p q x w) { traders = u })) {
  offered_by = λ y. find_item-put_item x p y w.trade_items i;
}

abbrev pub acknowledged : ℕ → Option ℕ → Trader
acknowledged p o = record { state = trade_acknowledge; partner = some p; item = o }

-- The partner is told of the trade.
abbrev pub told : (p q x : ℕ) → World → World
told p q x w = set_trader q (acknowledged p ((started p q x w).traders q).item) (started p q x w)

pub started-other :
    (p q x : ℕ) (w : World) → (q == p) ≡ false → (started p q x w).traders q ≡ w.traders q
started-other p q x w h = rw h refl

pub started_own : (p q x : ℕ) (w : World) → (started p q x w).traders p ≡ initiated q x
started_own p q x w = let same : (p == p) ≡ true = ground arith in rw same refl

pub told_own : (p q x : ℕ) (w : World) → (q == p) ≡ false → (told p q x w).traders p ≡ initiated q x
told_own p q x w h =
    let other : (p == q) ≡ false = ground (arith, h) in rw other (started_own p q x w)

pub told-partner :
    (p q x : ℕ) (w : World)
    → (q == p) ≡ false
    → (told p q x w).traders q ≡ acknowledged p (w.traders q).item
told-partner p q x w h =
    let same : (q == q) ≡ true = ground arith in
    rw same (ap (λ a. acknowledged p a.item) (started-other p q x w h))

pub told-IsSound :
    (p q x : ℕ) (w : World)
    → (q == p) ≡ false
    → w.traders p ≡ idle
    → w.traders q ≡ idle
    → find_item x w.trade_items ≡ none
    → IsSound w
    → IsSound (told p q x w)
unfolding IsSound
told-IsSound p q x w h ep eq m hw =
    let u = (told p q x w).traders in
    let partner = told-partner p q x w h ∙ ap (λ a. acknowledged p a.item) eq in
    subst IsSoundView (sym (view-started u p q x w)) (
      sound_started u p q x (view w) (IsApart-of_idle w.traders p q ep eq hw.0)
        (ap (λ a. a.item) ep) (told_own p q x w h)
        (subst (λ a. IsPhase a.state a.item) (sym partner) refl) (ap (λ a. a.partner) partner)
        (ap (λ a. a.item) partner ∙ sym (ap (λ a. a.item) eq)) h (λ r i. ground (arith, i)) m hw)

no_item : (o : Option ℕ) → has_item o ≡ false → o ≡ none
no_item none h = refl
no_item (some x) h = ground (arith, h)

pub started-IsSound :
    (p q x : ℕ) (w : World)
    → (w.traders p).partner ≡ some q
    → (w.traders p).state ≡ trade_acknowledge
    → find_item x w.trade_items ≡ none
    → IsSound w
    → IsSound (started p q x w)
unfolding IsSound
started-IsSound p q x w e state m hw =
    let u = (started p q x w).traders in
    let d = as-IsPaired w.traders p q e (hw.0 p) in
    let back = as-IsPaired w.traders q p d.1.0 (hw.0 q) in
    let same = started-other p q x w d.0 in
    subst IsSoundView (sym (view-started u p q x w)) (
      sound_started u p q x (view w) (IsApart-of_pair w.traders p q e d.1.0 hw.0)
        (no_item (w.traders p).item (subst (λ z. IsPhase z (w.traders p).item) state d.1.1.0))
        (started_own p q x w) (subst (λ a. IsPhase a.state a.item) (sym same) back.1.1.0)
        (ap (λ a. a.partner) same ∙ d.1.0) (ap (λ a. a.item) same) d.0 (λ r i. ground (arith, i)) m
        hw)

-- The result of internal_start_trade.
pub start_cases :
    (p q x : ℕ) (w : World)
    → internal_start_trade p q x w ≡ (
        if not (is_none (w.traders p).state)
          && not (is_acknowledge (w.traders p).state && is_player (w.traders p).partner q)
        then (false, w)
        else if not (is_none (w.traders q).state) && not (is_player (w.traders q).partner p)
        then (false, w)
        else (
          true,
          if is_none ((started p q x w).traders q).state then told p q x w else started p q x w,
        ))
unfolding internal_start_trade
start_cases p q x w = refl

pub as_acknowledge : (z : TradeState) → is_acknowledge z ≡ true → z ≡ trade_acknowledge
as_acknowledge trade_none h = ground (arith, h)
as_acknowledge trade_initiated h = ground (arith, h)
as_acknowledge trade_accept h = ground (arith, h)
as_acknowledge trade_acknowledge h = refl
as_acknowledge trade_transfer h = ground (arith, h)

pub as_partner : (o : Option ℕ) (p : ℕ) → is_player o p ≡ true → o ≡ some p
as_partner none p h = ground (arith, h)
as_partner (some q) p h = ground (arith, h)

not_none : (z : TradeState) (o : Option ℕ) → IsPhase z o → is_none z ≡ false
not_none trade_none o h = elim h [ ]
not_none trade_initiated o h = refl
not_none trade_accept o h = refl
not_none trade_acknowledge o h = refl
not_none trade_transfer o h = refl

pub paired_not_none :
    (t : ℕ → Trader) (p q : ℕ) → (t p).partner ≡ some q → IsTrader t p → is_none (t p).state ≡ false
paired_not_none t p q e h = not_none (t p).state (t p).item (as-IsPaired t p q e h).1.1.0

pub none_idle : (t : ℕ → Trader) (p : ℕ) → is_none (t p).state ≡ true → IsTrader t p → t p ≡ idle
none_idle t p e h = elim (Option-cases (t p).partner) [
  | inl n ↦ idle_of t p n h
  | inr (q, m) ↦ let no = sym e ∙ paired_not_none t p q m h in ground (arith, no)
]
