-- ===== src/Trade/Accept.antt =====
-- Accepting a trade (source/game.cpp: playerAcceptTrade).
use othire.Base.{
  ℕ, ◌≡◌, refl, sym, ap, ◌∙◌, Bool, true, false, ◌&&◌, ◌==◌, if◌then◌else◌, Option, none, some,
  arith, inl, inr, Bool-cases,
}
use othire.Trade.{
  trade_accept, trade_transfer, Trader, World, Surroundings, idle, set_trader, set_state, drop_item,
  may_add, may_remove, move_item, transfer,
}
use othire.Trade.Views.{View, view, with_trader, without_item, view-drop_item}
use othire.Trade.Close.{closed, closed-traders, traders-without}

-- Two items and the trades of the players are taken away.
abbrev pub gone : (o1 o2 : Option ℕ) → (ℕ → Trader) → View → View
gone o1 o2 u v = record (without_item o2 (without_item o1 v)) { traders = u }

without-traders :
    (o : Option ℕ) (u : ℕ → Trader) (v : View)
    → without_item o (record v { traders = u }) ≡ record (without_item o v) { traders = u }
without-traders none u v = refl
without-traders (some x) u v = refl

without_both :
    (o1 o2 : Option ℕ) (u : ℕ → Trader) (v : View)
    → without_item o2 (without_item o1 (record v { traders = u })) ≡ gone o1 o2 u v
without_both o1 o2 u v =
    ap (without_item o2) (without-traders o1 u v) ∙ without-traders o2 u (without_item o1 v)

-- Of the two players nothing is left.
abbrev pub both_idle : (p q : ℕ) → (ℕ → Trader) → ℕ → Trader
both_idle p q t r = if r == q then idle else if r == p then idle else t r

closed-gone :
    (p q : ℕ) (v : View)
    → (q == p) ≡ false
    → closed q (closed p v) ≡ gone (v.traders p).item (v.traders q).item (both_idle p q v.traders) v
closed-gone p q v h =
    ap (λ k. with_trader q idle (without_item ((closed p v).traders q).item k)) first
    ∙ ap (λ o. with_trader q idle (without_item o one)) item
    ∙ ap (with_trader q idle)
        (without-traders (v.traders q).item _ (without_item (v.traders p).item v))
  where
    one : View
    one = record (without_item (v.traders p).item v) {
      traders = λ r. if r == p then idle else v.traders r;
    }

    first : closed p v ≡ one
    first = λ i. record (without_item (v.traders p).item v) {
      traders = λ r. if r == p then idle else traders-without (v.traders p).item v i r;
    }

    item : ((closed p v).traders q).item ≡ (v.traders q).item
    item = ap (λ a. a.item) (closed-traders p v q) ∙ rw h refl

move-view :
    (s : Surroundings) (o : Option ℕ) (p : ℕ) (w : World) → view (move_item s o p w) ≡ view w
move-view s none p w = refl
move-view s (some x) p w = refl

-- The world before the last of the two accepted, with both in the state that the transfer sets.
abbrev pub transferring : (p q : ℕ) → World → World
transferring p q w = set_state q trade_transfer (set_state p trade_transfer w)

-- Both offers are taken off the list, and the items are moved where all the tests pass.
abbrev pub settled : Surroundings → (p q : ℕ) → World → World
settled s p q w =
    let item1 = (w.traders p).item in
    let item2 = (w.traders q).item in
    let w2 = drop_item item2 (drop_item item1 (transferring p q w)) in
    if (may_add s q item1 && may_add s p item2) && (may_remove s item1 && may_remove s item2)
    then move_item s item2 p (move_item s item1 q w2)
    else w2

pub transfer-settled :
    (s : Surroundings) (p q : ℕ) (w : World)
    → (transfer s p q w).1 ≡ set_trader q idle (set_trader p idle (settled s p q w))
unfolding transfer
transfer-settled s p q w = refl

dropped-view :
    (o1 o2 : Option ℕ) (u : ℕ → Trader) (w : World)
    → view (drop_item o2 (drop_item o1 (record w { traders = u }))) ≡ gone o1 o2 u (view w)
dropped-view o1 o2 u w =
    let w1 = record w { traders = u } in
    view-drop_item o2 (drop_item o1 w1)
    ∙ ap (without_item o2) (view-drop_item o1 w1)
    ∙ without_both o1 o2 u (view w)

moved-view :
    (b : Bool) (s : Surroundings) (o1 o2 : Option ℕ) (p q : ℕ) (w : World)
    → view (if b then move_item s o2 p (move_item s o1 q w) else w) ≡ view w
moved-view true s o1 o2 p q w = move-view s o2 p (move_item s o1 q w) ∙ move-view s o1 q w
moved-view false s o1 o2 p q w = refl

settled-view :
    (s : Surroundings) (p q : ℕ) (w : World)
    → view (settled s p q w)
      ≡ gone (w.traders p).item (w.traders q).item (transferring p q w).traders (view w)
settled-view s p q w =
    moved-view _ s (w.traders p).item (w.traders q).item p q _
    ∙ dropped-view (w.traders p).item (w.traders q).item (transferring p q w).traders w

-- Whatever the transfer does with the items, of the trade nothing is left.
pub transfer-view :
    (s : Surroundings) (p q : ℕ) (w : World)
    → view (transfer s p q w).1
      ≡ gone
          (w.traders p).item
          (w.traders q).item
          (both_idle p q (transferring p q w).traders)
          (view w)
transfer-view s p q w =
    ap view (transfer-settled s p q w)
    ∙ ap (λ v. with_trader q idle (with_trader p idle v)) (settled-view s p q w)

gone-same :
    (o1 o2 : Option ℕ) (u u' t : ℕ → Trader) (v : View)
    → ((r : ℕ) → u r ≡ u' r)
    → gone o1 o2 u (record v { traders = t }) ≡ gone o1 o2 u' v
gone-same none none u u' t v e = λ i. record v { traders = λ r. e r i }
gone-same none (some y) u u' t v e = λ i. record (without_item (some y) v) { traders = λ r. e r i }
gone-same (some x) none u u' t v e = λ i. record (without_item (some x) v) { traders = λ r. e r i }
gone-same (some x) (some y) u u' t v e =
    λ i. record (without_item (some y) (without_item (some x) v)) { traders = λ r. e r i }

-- Accepting changes no item.
pub accepted-item :
    (p r : ℕ) (w : World) → ((set_state p trade_accept w).traders r).item ≡ (w.traders r).item
accepted-item p r w = elim (Bool-cases (r == p)) [
  | inl i ↦ let same : r ≡ p = ground (arith, i) in rw i (ap (λ a. (w.traders a).item) (sym same))
  | inr i ↦ rw i refl
]

both_idle-accepted :
    (p q : ℕ) (w : World) (r : ℕ)
    → both_idle p q (transferring p q (set_state p trade_accept w)).traders r
      ≡ both_idle p q w.traders r
both_idle-accepted p q w r = elim (Bool-cases (r == q)) [
  | inl i ↦ rw i refl
  | inr i ↦ elim (Bool-cases (r == p)) [ inl j ↦ rw (i, j) refl | inr j ↦ rw (i, j) refl ]
]

-- The player accepts, and its partner already has.
pub accepted-view :
    (s : Surroundings) (p q : ℕ) (w : World)
    → (q == p) ≡ false
    → view (transfer s p q (set_state p trade_accept w)).1 ≡ closed q (closed p (view w))
accepted-view s p q w h =
    let w' = set_state p trade_accept w in
    let u = both_idle p q (transferring p q w').traders in
    transfer-view s p q w'
    ∙ ap (λ o. gone o (w'.traders q).item u (view w')) (accepted-item p p w)
    ∙ ap (λ o. gone (w.traders p).item o u (view w')) (accepted-item p q w)
    ∙ gone-same (w.traders p).item (w.traders q).item u _ w'.traders (view w)
        (both_idle-accepted p q w)
    ∙ sym (closed-gone p q (view w) h)
