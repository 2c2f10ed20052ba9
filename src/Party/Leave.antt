-- ===== src/Party/Leave.antt =====
-- A player who leaves the party (source/party.cpp, leaveParty).
use othire.Base.{
  ℕ, List, [], ◌∷◌, Bool, true, false, not, ◌&&◌, ◌||◌, ◌==◌, if◌then◌else◌, Option, none, some,
  ◌≡◌, refl, sym, ap, ◌∙◌, subst, arith,
}
use othire.Party.{
  Party, World, ◌>>=◌, is_player_member, pass_party_leadership, leave_party, put_party, set_party,
  contains, passed, without, find_leader, disbands, remove_player, is_empty,
}
use othire.Party.Roster.{
  party_of, roster, with_party-some, set_party-party_of, put_party-at, disband-party_of,
}
use othire.Party.{remove_player, find_leader, is_empty, without, disbands, leave_party}

-- A result with a party i in its state.
abbrev HasParty : ℕ → Option (Bool × World) → Type 0
HasParty i o = (b : Bool) × (v : World) × (q : Party) × (o ≡ some (b, v)) × (v.parties i ≡ some q)

if_HasParty :
    (i : ℕ) (b : Bool) (s t : Option (Bool × World))
    → HasParty i s
    → HasParty i t
    → HasParty i (if b then s else t)
if_HasParty i true s t x y = x
if_HasParty i false s t x y = y

pass-HasParty :
    (i x : ℕ) (w : World) (p : Party)
    → w.parties i ≡ some p
    → HasParty i (pass_party_leadership i x w)
unfolding pass_party_leadership
pass-HasParty i x w p h = subst (HasParty i) (sym (with_party-some i w p _ h)) (
    if_HasParty i (p.leader == x || not (is_player_member w p x)) _ _ (false, w, p, refl, h)
      (
        true,
        put_party i (some (passed x w p)) w,
        passed x w p,
        refl,
        put_party-at i (some (passed x w p)) w,
      ))

first-HasParty :
    (i x : ℕ) (w : World) (p : Party) (ms : List ℕ)
    → w.parties i ≡ some p
    → HasParty i (elim ms as (λ _. Option (Bool × World)) [
      | [] ↦ some (true, w)
      | first ∷ others ↦
          if is_empty others && is_empty p.invite_list
          then some (true, w)
          else (pass_party_leadership i first w >>= λ r. some (false, r.1))
    ])
first-HasParty i x w p [] h = (true, w, p, refl, h)
first-HasParty i x w p (first ∷ others) h =
    if_HasParty i (is_empty others && is_empty p.invite_list) _ _ (true, w, p, refl, h)
      (let (b, v, q, run, found) = pass-HasParty i first w p h in
        (false, v, q, ap (λ o. o >>= λ r. some (false, r.1)) run, found))

find_leader-HasParty :
    (i x : ℕ) (p : Party) (w : World) → w.parties i ≡ some p → HasParty i (find_leader i x p w)
unfolding find_leader
find_leader-HasParty i x p w h =
    if_HasParty i (p.leader == x) _ _ (first-HasParty i x w p p.member_list h)
      (false, w, p, refl, h)

-- The call succeeds, and then the player has no party.
abbrev Freed : ℕ → Option (Bool × World) → Type 0
Freed x o = (w' : World) × (o ≡ some (true, w')) × (party_of w' x ≡ none)

if_Freed :
    (x : ℕ) (b : Bool) (s t : Option (Bool × World))
    → Freed x s
    → Freed x t
    → Freed x (if b then s else t)
if_Freed x true s t a c = a
if_Freed x false s t a c = c

set_party-none : (x : ℕ) (w : World) → party_of (set_party x none w) x ≡ none
set_party-none x w = set_party-party_of x x none w ∙ if_none (x == x) (party_of w x) (ground arith)
  where
    if_none : (b : Bool) (o : Option ℕ) → b ≡ true → (if b then none else o) ≡ none
    if_none true o h = refl
    if_none false o h = cc

both_none : (b : Bool) (o : Option ℕ) → o ≡ none → (if b then none else o) ≡ none
both_none true o h = refl
both_none false o h = h

remove_player-Freed :
    (i x : ℕ) (b : Bool) (w : World) (p : Party)
    → w.parties i ≡ some p
    → Freed x (remove_player i x b w)
unfolding remove_player
remove_player-Freed i x b w p h =
    let w₁ = set_party x none w in
    let left = without x w₁ p in
    let w₂ = put_party i (some left) w₁ in
    let (w₃, run, _, parties) = disband-party_of i w₂ left (put_party-at i (some left) w₁) in
    subst (Freed x) (sym (with_party-some i w p _ h)) (
      if_Freed x (b || disbands left) _ _
        (
          w₃,
          ap (λ o. o >>= λ v. some (true, v)) run,
          parties x ∙ both_none (contains x (roster left)) _ (set_party-none x w),
        )
        (w₂, refl, set_party-none x w))

if_false {ℓ} : {A : Type ℓ} (b : Bool) (s t : A) → b ≡ false → (if b then s else t) ≡ t
if_false true s t h = cc
if_false false s t h = refl

-- leaveParty by the leader or by a member who is not removed, on a party that exists, returns true,
-- whether the party goes on, the leadership is passed on or the party is disbanded, and the player
-- then has no party.
pub leave_party-party_of :
    (i x : ℕ) (w : World) (p : Party)
    → w.parties i ≡ some p
    → (not (is_player_member w p x) && not (p.leader == x)) ≡ false
    → (w' : World) × (leave_party i x w ≡ some (true, w')) × (party_of w' x ≡ none)
unfolding leave_party
leave_party-party_of i x w p h m =
    let (b, v, q, run, found) = find_leader-HasParty i x p w h in
    let (w', gone, free) = remove_player-Freed i x b v q found in
    (
      w',
      with_party-some i w p _ h
          ∙ if_false _ _ _ m
          ∙ ap (λ o. o >>= λ r. remove_player i x r.0 r.1) run
          ∙ gone,
      free,
    )
