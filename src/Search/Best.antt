-- ===== src/Search/Best.antt =====
-- The node that getBestNode returns (source/map.cpp).
use othire.Base.{
  some_injective, ℕ, zero, suc, ◌+◌, ◌<◌, ◌≤◌, ◌≡◌, refl, sym, ap, subst, ◌∙◌, List, [], ◌∷◌, Bool,
  true, false, ◌&&◌, if◌then◌else◌, Option, none, some, get_elem?, arith, ◌⊎◌, inl, inr, Bool-cases,
  ltb, ltb→lt,
}
use othire.Search.{AStarNode, best_from, get_best_node}

-- No open node of the list is below the bound.
abbrev pub NoneBelow : ℕ → List AStarNode → Type 0
NoneBelow bound nodes =
    (j : ℕ) (m : AStarNode) → get_elem? nodes j ≡ some m → m.is_open ≡ true → bound ≤ m.f

-- The place i, counted from k, has an open node below the bound that no open node is below.
abbrev IsBest : (k i bound : ℕ) → List AStarNode → Type 0
IsBest k i bound nodes =
    (j : ℕ) × (n : AStarNode) × (i ≡ k + j)
    × (get_elem? nodes j ≡ some n)
    × (n.is_open ≡ true)
    × (n.f < bound)
    × NoneBelow n.f nodes

NoneBelow-cons :
    (bound : ℕ) (n : AStarNode) (ns : List AStarNode)
    → (n.is_open ≡ true → bound ≤ n.f)
    → NoneBelow bound ns
    → NoneBelow bound (n ∷ ns)
NoneBelow-cons bound n ns h below zero m e o =
    let q : n ≡ m = some_injective e in
    subst (λ (w : AStarNode). bound ≤ w.f) q (h (ap (λ (w : AStarNode). w.is_open) q ∙ o))
NoneBelow-cons bound n ns h below (suc j) m e o = below j m e o

best_from-cons :
    (k : ℕ) (n : AStarNode) (ns : List AStarNode) (bound : ℕ) (best : Option ℕ) (b : Bool)
    → (ltb n.f bound && n.is_open) ≡ b
    → best_from k (n ∷ ns) bound best
      ≡ best_from (suc k) ns (if b then n.f else bound) (if b then some k else best)
best_from-cons k n ns bound best b e =
    ap (λ c. best_from (suc k) ns (if c then n.f else bound) (if c then some k else best)) e

both : (a b : Bool) → (a && b) ≡ true → (a ≡ true) × (b ≡ true)
both true b h = (refl, h)
both false b h = cc

place : Option ℕ → ℕ
place none = 0
place (some i) = i

place_eq : {i j : ℕ} → some i ≡ some j → i ≡ j
unfolding place
place_eq h = ap place h

best_from-cases :
    (k : ℕ) (nodes : List AStarNode) (bound : ℕ) (best : Option ℕ) (i : ℕ)
    → best_from k nodes bound best ≡ some i
    → ((best ≡ some i) × NoneBelow bound nodes) ⊎ IsBest k i bound nodes
best_from-cases k [] bound best i h = inl (h, λ j m e o. cc)
best_from-cases k (n ∷ ns) bound best i h = elim (Bool-cases (ltb n.f bound && n.is_open)) [
  | inl e ↦
      let (lt, op) = both (ltb n.f bound) n.is_open e in
      let r =
        best_from-cases (suc k) ns n.f (some k) i
          (sym (best_from-cons k n ns bound best true e) ∙ h) in
      inr (elim r [
        | inl (q, below) ↦ (
          0,
          n,
          (let p = place_eq q in omega (arith, p)),
          refl,
          op,
          ltb→lt n.f bound lt,
          NoneBelow-cons n.f n ns (λ o. omega arith) below,
        )
        | inr (j, m, q, found, o, less, below) ↦ (
          suc j,
          m,
          omega (arith, q),
          found,
          o,
          omega (arith, less, ltb→lt n.f bound lt),
          NoneBelow-cons m.f n ns (λ o. omega (arith, less)) below,
        )
      ])
  | inr e ↦
      let high : n.is_open ≡ true → bound ≤ n.f = λ o. ground (arith, e, o) in
      elim (best_from-cases (suc k) ns bound best i
        (sym (best_from-cons k n ns bound best false e) ∙ h)) [
          | inl (q, below) ↦ inl (q, NoneBelow-cons bound n ns high below)
          | inr (j, m, q, found, o, less, below) ↦ inr (
            suc j,
            m,
            omega (arith, q),
            found,
            o,
            less,
            NoneBelow-cons m.f n ns (λ a. let b = high a in omega (arith, b, less)) below,
          )
        ]
]

-- The node that getBestNode returns, with what holds of it and of the others.
pub get_best_node-IsBest :
    (nodes : List AStarNode) (i : ℕ)
    → get_best_node nodes ≡ some i
    → (n : AStarNode) × (get_elem? nodes i ≡ some n)
      × (n.is_open ≡ true)
      × (n.f < 100000)
      × NoneBelow n.f nodes
unfolding get_best_node
get_best_node-IsBest nodes i h = elim (best_from-cases 0 nodes 100000 none i h) [
  | inl (q, below) ↦ cc
  | inr (j, m, q, found, o, less, below) ↦
      (m, ap (get_elem? nodes) (omega (arith, q)) ∙ found, o, less, below)
]
