-- ===== src/Party/Roster.antt =====
-- Who is in a party after an operation (source/party.cpp).
use othire.Base.{
  ℕ, List, [], ◌∷◌, Bool, true, false, not, ◌||◌, ◌==◌, if◌then◌else◌, Option, none, some, ◌≡◌,
  refl, sym, ap, ◌∙◌, subst, inl, inr, Bool-cases, arith,
}
use othire.Party.{
  Player, Party, World, with_party, is_player_member, pass_party_leadership, put_party, set_party,
  remove_party_invitation, remove_invitations, clear_parties, disband, contains, erase, updated,
  passed,
}

-- m_party of a player
abbrev pub party_of : World → ℕ → Option ℕ
party_of w x = (w.players x).party

-- the leader and the members
abbrev pub roster : Party → List ℕ
roster p = p.leader ∷ p.member_list

pub with_party-some {ℓ} :
    {A : Type ℓ} (i : ℕ) (w : World) (p : Party) (f : Party → Option A)
    → w.parties i ≡ some p
    → with_party i w f ≡ f p
with_party-some {A} i w p f h =
    subst (λ (o : Option Party). elim o as (λ _. Option A) [ none ↦ none | some q ↦ f q ] ≡ f p)
      (sym h) refl

party-if : (b : Bool) (a c : Player) → (if b then a else c).party ≡ (if b then a.party else c.party)
party-if true a c = refl
party-if false a c = refl

pub set_party-party_of :
    (x y : ℕ) (i : Option ℕ) (w : World)
    → party_of (set_party x i w) y ≡ (if x == y then i else party_of w y)
set_party-party_of x y i w = party-if (x == y) (record (w.players x) { party = i }) (w.players y)

-- A player keeps what it has when it is overwritten with the same.
if_same : (f : ℕ → Option ℕ) (x y : ℕ) → (if x == y then f x else f y) ≡ f y
if_same f x y = elim (Bool-cases (x == y)) [
  | inl e ↦ let q : x ≡ y = ground (arith, e) in rw e (ap f q)
  | inr e ↦ rw e refl
]

remove_party_invitation-party_of :
    (x i y : ℕ) (w : World) → party_of (remove_party_invitation x i w) y ≡ party_of w y
remove_party_invitation-party_of x i y w =
    party-if (x == y)
      (record (w.players x) { invite_party_list = erase i (w.players x).invite_party_list })
      (w.players y)
    ∙ if_same (party_of w) x y

remove_invitations-party_of :
    (i : ℕ) (xs : List ℕ) (y : ℕ) (w : World)
    → party_of (remove_invitations i xs w) y ≡ party_of w y
remove_invitations-party_of i [] y w = refl
remove_invitations-party_of i (x ∷ xs) y w =
    remove_invitations-party_of i xs y (remove_party_invitation x i w)
    ∙ remove_party_invitation-party_of x i y w

-- Taking the party from one more player.
if_or :
    (a b : ℕ) (c : Bool) (o : Option ℕ)
    → (if c then none else (if a == b then none else o))
      ≡ (if (if b == a then true else c) then none else o)
if_or a b c o = ground (arith)

clear_parties-party_of :
    (xs : List ℕ) (y : ℕ) (w : World)
    → party_of (clear_parties xs w) y ≡ (if contains y xs then none else party_of w y)
clear_parties-party_of [] y w = refl
clear_parties-party_of (x ∷ xs) y w =
    clear_parties-party_of xs y (set_party x none w)
    ∙ ap (λ o. if contains y xs then none else o) (set_party-party_of x y none w)
    ∙ if_or x y (contains y xs) (party_of w y)

pub put_party-at : (i : ℕ) (o : Option Party) (w : World) → (put_party i o w).parties i ≡ o
put_party-at i o w = let e : (i == i) ≡ true = ground arith in rw e refl

-- disband, on a party that exists, deletes it and takes the party from its leader and its members,
-- and every other player keeps the party it has.
pub disband-party_of :
    (i : ℕ) (w : World) (p : Party)
    → w.parties i ≡ some p
    → (w' : World) × (disband i w ≡ some w')
      × (w'.parties i ≡ none)
      × ((y : ℕ) → party_of w' y ≡ (if contains y (roster p) then none else party_of w y))
unfolding disband
disband-party_of i w p h =
    let v =
      clear_parties p.member_list
        (remove_invitations i p.invite_list (set_party p.leader none w)) in
    (
      put_party i none v,
      with_party-some i w p _ h,
      put_party-at i none v,
      (λ y.
          clear_parties-party_of p.member_list y
            (remove_invitations i p.invite_list (set_party p.leader none w))
          ∙ ap (λ o. if contains y p.member_list then none else o)
              (remove_invitations-party_of i p.invite_list y (set_party p.leader none w)
                ∙ set_party-party_of p.leader y none w)
          ∙ if_or p.leader y (contains y p.member_list) (party_of w y)),
    )

updated-roster :
    (w : World) (p : Party)
    → ((updated w p).leader ≡ p.leader)
      × ((updated w p).member_list ≡ p.member_list)
      × ((updated w p).invite_list ≡ p.invite_list)
unfolding updated
updated-roster w p = elim (Bool-cases p.shared_exp_active) [
  | inl e ↦ rw e (refl, refl, refl)
  | inr e ↦ rw e (refl, refl, refl)
]

contains-erase :
    (x y : ℕ) (l : List ℕ)
    → contains x l ≡ true
    → (if y == x then true else contains y (erase x l)) ≡ contains y l
contains-erase x y [] h = cc
contains-erase x y (z ∷ zs) h = ground (arith, contains-erase x y zs)

roster-updated : (w : World) (p : Party) → roster (updated w p) ≡ roster p
roster-updated w p =
    let (a, b, _) = updated-roster w p in
    ap (λ x. x ∷ (updated w p).member_list) a ∙ ap (λ l. p.leader ∷ l) b

member_contains :
    (w : World) (p : Party) (x : ℕ)
    → is_player_member w p x ≡ true
    → contains x p.member_list ≡ true
unfolding is_player_member
member_contains w p x h = ground (arith, h)

-- The old leader in front of the members without the new one.
swapped :
    (x leader y : ℕ) (l : List ℕ)
    → contains x l ≡ true
    → contains y (x ∷ leader ∷ erase x l) ≡ contains y (leader ∷ l)
swapped x leader y l h = let e = contains-erase x y l h in ground (arith, e)

if_guarded {ℓ} :
    {A : Type ℓ} (b c : Bool) (s t : A) → b ≡ false → c ≡ true → (if b || not c then s else t) ≡ t
if_guarded true c s t h k = cc
if_guarded false true s t h k = refl
if_guarded false false s t h k = cc

-- passPartyLeadership, on a party that exists and to a member who is not removed and not its leader,
-- makes that member the leader, and changes neither who is in the party nor who is invited.
pub pass_party_leadership-roster :
    (i x : ℕ) (w : World) (p : Party)
    → w.parties i ≡ some p
    → (p.leader == x) ≡ false
    → is_player_member w p x ≡ true
    → (w' : World) × (q : Party) × (pass_party_leadership i x w ≡ some (true, w'))
      × (w'.parties i ≡ some q)
      × (q.leader ≡ x)
      × (q.invite_list ≡ p.invite_list)
      × ((y : ℕ) → contains y (roster q) ≡ contains y (roster p))
unfolding pass_party_leadership passed
pass_party_leadership-roster i x w p h n m =
    let q = passed x w p in
    let r =
      updated-roster w (record p { leader = x; member_list = p.leader ∷ erase x p.member_list }) in
    (
      put_party i (some q) w,
      q,
      with_party-some i w p _ h ∙ if_guarded (p.leader == x) (is_player_member w p x) _ _ n m,
      put_party-at i (some q) w,
      r.0,
      r.2,
      (λ y.
          ap (contains y) (
            roster-updated w
              (record p { leader = x; member_list = p.leader ∷ erase x p.member_list }))
          ∙ swapped x p.leader y p.member_list (member_contains w p x m)),
    )
