-- ===== src/Trade/Views.antt =====
-- The state of the trades seen as functions: of a player, its trade, and of an item, who offers it,
-- and how often it was used and freed (source/game.cpp, tradeItems).
use othire.Base.{
  ℕ, suc, ◌+◌, ◌≡◌, refl, sym, ap, ◌∙◌, List, [], ◌∷◌, ◌++◌, false, ◌==◌, if◌then◌else◌, Option,
  none, some, arith, inl, inr, Bool-cases, Option-cases,
}
use othire.Trade.{Trader, World, Surroundings, put_item, find_item, erase_item, drop_item}
use othire.Trade.Ask.{is_traded}

pub record View : Type 0 where
  pub traders : ℕ → Trader
  pub offered_by : ℕ → Option ℕ
  pub uses : ℕ → ℕ
  pub frees : ℕ → ℕ

abbrev pub times : ℕ → List ℕ → ℕ
times x [] = 0
times x (y ∷ ys) = (if x == y then 1 else 0) + times x ys

abbrev pub view : World → View
view w = record {
  traders = w.traders;
  offered_by = λ x. find_item x w.trade_items;
  uses = w.use_count;
  frees = λ x. times x w.to_release;
}

-- One trader is replaced.
abbrev pub with_trader : ℕ → Trader → View → View
with_trader p a v = record v { traders = λ r. if r == p then a else v.traders r }

-- An item is freed if someone offers it, and then nobody does.
abbrev pub freed : Option ℕ → ℕ → ℕ
freed none n = n
freed (some p) n = suc n

abbrev pub without_item : Option ℕ → View → View
without_item none v = v
without_item (some x) v = record v {
  offered_by = λ y. if y == x then none else v.offered_by y;
  frees = λ y. if y == x then freed (v.offered_by y) (v.frees y) else v.frees y;
}

-- A player offers an item that was used once more.
abbrev pub with_item : (p x : ℕ) → View → View
with_item p x v = record v {
  offered_by = λ y. if y == x then some p else v.offered_by y;
  uses = λ y. if y == x then suc (v.uses y) else v.uses y;
}

pub find_item-put_item :
    (x p y : ℕ) (es : List (ℕ × ℕ))
    → find_item y (put_item x p es) ≡ (if y == x then some p else find_item y es)
find_item-put_item x p y [] = refl
find_item-put_item x p y ((z, q) ∷ es) = let h = find_item-put_item x p y es in ground (arith, h)

pub find_item-erase_item :
    (x y : ℕ) (es : List (ℕ × ℕ))
    → find_item y (erase_item x es) ≡ (if y == x then none else find_item y es)
find_item-erase_item x y [] = ground arith
find_item-erase_item x y ((z, q) ∷ es) = let h = find_item-erase_item x y es in ground (arith, h)

times-append :
    (x y : ℕ) (ys : List ℕ)
    → times x (ys ++ (y ∷ [])) ≡ (if x == y then suc (times x ys) else times x ys)
times-append x y [] = ground arith
times-append x y (z ∷ zs) = let h = times-append x y zs in ground (arith, h)

-- Equal functions give equal views.
same_view :
    (v : View) (f : ℕ → Option ℕ) (n : ℕ → ℕ)
    → ((y : ℕ) → f y ≡ v.offered_by y)
    → ((y : ℕ) → n y ≡ v.frees y)
    → record v { offered_by = f; frees = n } ≡ v
same_view v f n e k = λ i. record v { offered_by = λ y. e y i; frees = λ y. k y i }

offered_by-none :
    (x y : ℕ) (es : List (ℕ × ℕ))
    → find_item x es ≡ none
    → find_item y es ≡ (if y == x then none else find_item y es)
offered_by-none x y es e = elim (Bool-cases (y == x)) [
  | inl h ↦ let i : y ≡ x = ground (arith, h) in ap (λ z. find_item z es) i ∙ e ∙ rw h refl
  | inr h ↦ rw h refl
]

frees-none :
    (x y n : ℕ) (es : List (ℕ × ℕ))
    → find_item x es ≡ none
    → n ≡ (if y == x then freed (find_item y es) n else n)
frees-none x y n es e = elim (Bool-cases (y == x)) [
  | inl h ↦
      let i : y ≡ x = ground (arith, h) in let k = ap (λ z. find_item z es) i ∙ e in rw (h, k) refl
  | inr h ↦ rw h refl
]

frees-some :
    (x y q : ℕ) (es : List (ℕ × ℕ)) (xs : List ℕ)
    → find_item x es ≡ some q
    → times y (xs ++ (x ∷ []))
      ≡ (if y == x then freed (find_item y es) (times y xs) else times y xs)
frees-some x y q es xs e = elim (Bool-cases (y == x)) [
  | inl h ↦
      let i : y ≡ x = ground (arith, h) in
      let k = ap (λ z. find_item z es) i ∙ e in let t = times-append y x xs in t ∙ rw (h, k) refl
  | inr h ↦ let t = times-append y x xs in t ∙ rw h refl
]

pub view-drop_item : (o : Option ℕ) (w : World) → view (drop_item o w) ≡ without_item o (view w)
unfolding drop_item
view-drop_item none w = refl
view-drop_item (some x) w = elim (Option-cases (find_item x w.trade_items)) [
  | inl e ↦ rw e (
      sym (
        same_view (view w) (without_item (some x) (view w)).offered_by
          (without_item (some x) (view w)).frees (λ y. sym (offered_by-none x y w.trade_items e))
          (λ y. sym (frees-none x y (times y w.to_release) w.trade_items e))))
  | inr (q, e) ↦ rw e (
      same_view (without_item (some x) (view w)) _ _ (λ y. find_item-erase_item x y w.trade_items)
        (λ y. frees-some x y q w.trade_items w.to_release e))
]

-- An item that is not traded already is offered by nobody.
pub is_traded-find_item :
    (s : Surroundings) (x : ℕ) (es : List (ℕ × ℕ))
    → is_traded s x es ≡ false
    → find_item x es ≡ none
is_traded-find_item s x [] h = refl
is_traded-find_item s x ((y, q) ∷ es) h =
    let ih = is_traded-find_item s x es in ground (arith, h, ih)
