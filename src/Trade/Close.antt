-- ===== src/Trade/Close.antt =====
-- Closing a trade (source/game.cpp: internalCloseTrade, playerCloseTrade).
use othire.Base.{
  ℕ, ◌≡◌, refl, sym, ap, subst, ◌∙◌, Bool, true, false, not, ◌||◌, ◌<◌, ◌==◌, if◌then◌else◌, Option,
  none, some, some_injective, arith, inl, inr, Bool-cases, Option-cases,
}
use othire.Trade.{
  Trader, World, Surroundings, idle, is_transfer, cancel, internal_close_trade, player_close_trade,
}
use othire.Trade.Views.{View, view, with_trader, without_item, freed, view-drop_item}
use othire.Trade.Pairs.{
  IsHolder, IsHolder-map, IsTrader, IsListed, IsEntry, IsSound, IsSoundView, as-IsPaired, idle_of,
  trader_at, keep_trader, IsApart-of_pair,
}

-- The trade of one player is taken away.
abbrev pub closed : ℕ → View → View
closed p v = with_trader p idle (without_item (v.traders p).item v)

pub view-cancel : (p : ℕ) (w : World) → view (cancel p w) ≡ closed p (view w)
unfolding cancel
view-cancel p w = ap (with_trader p idle) (view-drop_item (w.traders p).item w)

-- How the entry of an item changes when it is taken away.
IsListed-without :
    (t : ℕ → Trader) (x : ℕ) (o : Option ℕ) (n m : ℕ)
    → IsListed t x o n m
    → IsListed t x none n (freed o m)
IsListed-without t x none n m h = h
IsListed-without t x (some p) n m h = h.1

pub traders-without : (o : Option ℕ) (v : View) → (without_item o v).traders ≡ v.traders
traders-without none v = refl
traders-without (some x) v = refl

-- The entries of the items that others offer stay.
IsListed-closed :
    (t : ℕ → Trader) (p x : ℕ) (o : Option ℕ) (n m : ℕ)
    → ((t p).item ≡ some x → x < 0)
    → IsListed t x o n m
    → IsListed (λ r. if r == p then idle else t r) x o n m
IsListed-closed t p x none n m k h = h
IsListed-closed t p x (some q) n m k h = elim (Bool-cases (q == p)) [
  | inl e ↦
      let i : q ≡ p = ground (arith, e) in
      let no = k (subst (λ r. (t r).item ≡ some x) i h.0) in absurd (omega (arith, no))
  | inr e ↦ (rw e h.0, h.1)
]

closed_item-IsEntry :
    (p : ℕ) (v : View) (o : Option ℕ)
    → (v.traders p).item ≡ o
    → (x : ℕ) → IsEntry v x
    → IsEntry (with_trader p idle (without_item o v)) x
closed_item-IsEntry p v none e x h =
    IsListed-closed v.traders p x (v.offered_by x) (v.uses x) (v.frees x)
      (λ m. ground (arith, e, m)) h
closed_item-IsEntry p v (some y) e x h = elim (Bool-cases (x == y)) [
  | inl i ↦ rw i (IsListed-without v.traders x (v.offered_by x) (v.uses x) (v.frees x) h)
  | inr i ↦ rw i (
      IsListed-closed v.traders p x (v.offered_by x) (v.uses x) (v.frees x)
        (λ m. let k = some_injective (sym e ∙ m) in ground (arith, i, k)) h)
]

closed-IsEntry : (p : ℕ) (v : View) → ((x : ℕ) → IsEntry v x) → (x : ℕ) → IsEntry (closed p v) x
closed-IsEntry p v h x = closed_item-IsEntry p v (v.traders p).item refl x (h x)

pub closed-traders :
    (p : ℕ) (v : View) (r : ℕ) → (closed p v).traders r ≡ (if r == p then idle else v.traders r)
closed-traders p v r = ap (λ t. if r == p then idle else t r) (traders-without (v.traders p).item v)

-- What another player offers is not taken away.
without_item-offered_by :
    (o : Option ℕ) (v : View) (p r y : ℕ)
    → IsHolder v.offered_by p o
    → (r == p) ≡ false
    → v.offered_by y ≡ some r
    → (without_item o v).offered_by y ≡ some r
without_item-offered_by none v p r y h i m = m
without_item-offered_by (some x) v p r y h i m = elim (Bool-cases (y == x)) [
  | inl j ↦
      let same : y ≡ x = ground (arith, j) in
      let k = some_injective (sym m ∙ ap v.offered_by same ∙ h) in ground (arith, i, k)
  | inr j ↦ rw j m
]

closed-IsHolder :
    (p : ℕ) (v : View)
    → ((r : ℕ) → IsHolder v.offered_by r (v.traders r).item)
    → (r : ℕ) → IsHolder (closed p v).offered_by r ((closed p v).traders r).item
closed-IsHolder p v h r = elim (Bool-cases (r == p)) [
  | inl i ↦
      let e : (closed p v).traders r ≡ idle = closed-traders p v r ∙ rw i refl in
      subst (λ a. IsHolder (closed p v).offered_by r a.item) (sym e) tt
  | inr i ↦
      let e : (closed p v).traders r ≡ v.traders r = closed-traders p v r ∙ rw i refl in
      let k =
        IsHolder-map v.offered_by (closed p v).offered_by r (v.traders r).item
          (λ y m. without_item-offered_by (v.traders p).item v p r y (h p) i m) (h r) in
      subst (λ a. IsHolder (closed p v).offered_by r a.item) (sym e) k
]

-- Where both sides of a trade are taken away, the others' trades stay.
both_closed :
    (t u : ℕ → Trader) (p q : ℕ)
    → ((r : ℕ) → u r ≡ (if r == q then idle else if r == p then idle else t r))
    → (t p).partner ≡ some q
    → (t q).partner ≡ some p
    → ((r : ℕ) → IsTrader t r)
    → (r : ℕ) → IsTrader u r
both_closed t u p q k ep eq h r = elim (Bool-cases (r == p || r == q)) [
  | inl i ↦ trader_at u r (k r ∙ ground (arith, i))
  | inr i ↦
      let apart = IsApart-of_pair t p q ep eq h r in
      keep_trader t u r (k r ∙ ground (arith, i))
        (λ s m. let j = apart s i m in k s ∙ ground (arith, j)) (h r)
]

closed-idle : (p : ℕ) (v : View) → v.traders p ≡ idle → closed p v ≡ v
closed-idle p v e = ap (λ a. with_trader p idle (without_item a.item v)) e ∙ λ i. record v {
  traders = λ r. same r i;
}
  where
    same : (r : ℕ) → (if r == p then idle else v.traders r) ≡ v.traders r
    same r = elim (Bool-cases (r == p)) [
      | inl i ↦ let k : r ≡ p = ground (arith, i) in rw i (sym (ap v.traders k ∙ e))
      | inr i ↦ rw i refl
    ]

pub closed_twice :
    (p q : ℕ) (v : View)
    → (v.traders p).partner ≡ some q
    → IsSoundView v
    → IsSoundView (closed q (closed p v))
closed_twice p q v e (ht, (he, hh)) =
    let d = as-IsPaired v.traders p q e (ht p) in
    (
      both_closed v.traders (closed q (closed p v)).traders p q
          (λ r.
            closed-traders q (closed p v) r
            ∙ ap (λ a. if r == q then idle else a) (closed-traders p v r))
          e d.1.0 ht,
      (
        closed-IsEntry q (closed p v) (closed-IsEntry p v he),
        closed-IsHolder q (closed p v) (closed-IsHolder p v hh),
      ),
    )

pub close_alone :
    (p : ℕ) (w : World)
    → (w.traders p).partner ≡ none
    → internal_close_trade p w ≡ (if is_transfer (w.traders p).state then w else cancel p w)
unfolding internal_close_trade
close_alone p w e = rw (internal_close_trade, e) refl

pub close_both :
    (p q : ℕ) (w : World)
    → (w.traders p).partner ≡ some q
    → internal_close_trade p w ≡ (
        if is_transfer (w.traders q).state || is_transfer (w.traders p).state
        then w
        else cancel q (cancel p w))
unfolding internal_close_trade
close_both p q w e = rw (internal_close_trade, e) refl

pub view-cancel_both :
    (p q : ℕ) (w : World) → view (cancel q (cancel p w)) ≡ closed q (closed p (view w))
view-cancel_both p q w = view-cancel q (cancel p w) ∙ ap (closed q) (view-cancel p w)

pub if-IsSound : (b : Bool) (w w' : World) → IsSound w → IsSound w' → IsSound (if b then w else w')
if-IsSound true w w' h h' = h
if-IsSound false w w' h h' = h'

cancel-IsSound :
    (p : ℕ) (w : World) → (w.traders p).partner ≡ none → IsSound w → IsSound (cancel p w)
unfolding IsSound
cancel-IsSound p w e h =
    subst IsSoundView
      (sym (view-cancel p w ∙ closed-idle p (view w) (idle_of w.traders p e (h.0 p)))) h

cancel_both-IsSound :
    (p q : ℕ) (w : World)
    → (w.traders p).partner ≡ some q
    → IsSound w
    → IsSound (cancel q (cancel p w))
unfolding IsSound
cancel_both-IsSound p q w e h =
    subst IsSoundView (sym (view-cancel_both p q w)) (closed_twice p q (view w) e h)

-- Closing a trade keeps the state sound.
pub internal_close_trade-IsSound :
    (p : ℕ) (w : World) → IsSound w → IsSound (internal_close_trade p w)
internal_close_trade-IsSound p w h = elim (Option-cases (w.traders p).partner) [
  | inl e ↦ subst IsSound (sym (close_alone p w e)) (if-IsSound _ _ _ h (cancel-IsSound p w e h))
  | inr (q, e) ↦
      subst IsSound (sym (close_both p q w e)) (if-IsSound _ _ _ h (cancel_both-IsSound p q w e h))
]

pub player_close_trade-IsSound :
    (s : Surroundings) (p : ℕ) (w : World) → IsSound w → IsSound (player_close_trade s p w).1
unfolding player_close_trade
player_close_trade-IsSound s p w h = elim (Bool-cases (not (s.is_online p) || s.is_removed p)) [
  | inl i ↦ rw i h
  | inr i ↦ rw i (internal_close_trade-IsSound p w h)
]
