-- ===== src/Party.antt =====
-- Parties of players (source/party.h, source/party.cpp): who leads, who is a member and who is
-- invited. A player and a party are known by a number, which stands for the pointer; `none` as a
-- result is a use of a party that was deleted. Messages, icons and the chat channel are left out.
pub mod Shared
pub mod Handlers
pub mod Roster
pub mod Leave
mod Tests
use othire.Base.{
  ℕ, suc, ◌+◌, ◌-◌, ◌%◌, ◌^◌, List, [], ◌∷◌, ◌++◌, Bool, true, false, not, ◌&&◌, ◌||◌, leb, ltb,
  ◌==◌, if◌then◌else◌, Option, none, some,
}
use othire.Party.Shared.{
  CountBlock, CountMap, Fighter, can_enable, erase_points, add_healed, add_damage,
}

-- What a party asks of a player: m_party, invitePartyList, whether getPlayerByID finds it,
-- CONDITION_INFIGHT, and what else the party reads of it.
pub record Player : Type 0 where
  pub party : Option ℕ
  pub invite_party_list : List ℕ
  pub is_listed : Bool
  pub in_fight : Bool
  pub fighter : Fighter

pub record Party : Type 0 where
  pub shared_exp_active : Bool
  pub shared_exp_enabled : Bool
  pub leader : ℕ
  pub member_list : List ℕ
  pub invite_list : List ℕ
  pub point_map : CountMap

pub record World : Type 0 where
  pub players : ℕ → Player
  pub parties : ℕ → Option Party
  pub next_party : ℕ
  pub now : ℕ
  pub in_fight_duration : ℕ

-- std::find, and the erase of what it finds
abbrev pub contains : ℕ → List ℕ → Bool
contains x [] = false
contains x (y ∷ ys) = let rest = contains x ys in if x == y then true else rest

abbrev pub erase : ℕ → List ℕ → List ℕ
erase x [] = []
erase x (y ∷ ys) = let rest = erase x ys in if x == y then ys else y ∷ rest

abbrev pub is_empty : List ℕ → Bool
is_empty [] = true
is_empty (x ∷ xs) = false

abbrev pub set_player : ℕ → Player → World → World
set_player x a w = record w { players = λ y. if x == y then a else w.players y }

abbrev pub put_party : ℕ → Option Party → World → World
put_party i p w = record w { parties = λ j. if i == j then p else w.parties j }

-- setParty, addPartyInvitation and removePartyInvitation
abbrev pub set_party : ℕ → Option ℕ → World → World
set_party x i w = set_player x (record (w.players x) { party = i }) w

abbrev pub add_party_invitation : ℕ → ℕ → World → World
add_party_invitation x i w =
    let list = (w.players x).invite_party_list in
    if contains i list
    then w
    else set_player x (record (w.players x) { invite_party_list = list ++ (i ∷ []) }) w

abbrev pub remove_party_invitation : ℕ → ℕ → World → World
remove_party_invitation x i w =
    set_player x
      (record (w.players x) { invite_party_list = erase i (w.players x).invite_party_list }) w

abbrev pub with_party {ℓ} : {A : Type ℓ} → ℕ → World → (Party → Option A) → Option A
with_party i w f = elim (w.parties i) [ none ↦ none | some p ↦ f p ]

infixl 5 ◌>>=◌
abbrev pub ◌>>=◌ {ℓ κ} : {A : Type ℓ} {B : Type κ} → Option A → (A → Option B) → Option B
none >>= f = none
some a >>= f = f a

-- The constructor, for a leader.
unfoldable pub new_party : ℕ → World → World
new_party leader w = set_party leader (some w.next_party) (
    put_party w.next_party
      (some (record {
        shared_exp_active = false;
        shared_exp_enabled = false;
        leader = leader;
        member_list = [];
        invite_list = [];
        point_map = [];
      }))
      (record w { next_party = suc w.next_party }))

unfoldable pub is_player_member : World → Party → ℕ → Bool
is_player_member w p x = not (w.players x).fighter.is_removed && contains x p.member_list

unfoldable pub is_player_invited : World → Party → ℕ → Bool
is_player_invited w p x = not (w.players x).fighter.is_removed && contains x p.invite_list

-- updateSharedExperience
unfoldable pub updated : World → Party → Party
updated w p =
    if p.shared_exp_active
    then record p {
      shared_exp_enabled =
          can_enable w.now w.in_fight_duration (λ x. (w.players x).fighter) p.leader p.member_list
            p.point_map;
    }
    else p

-- clearPlayerPoints
unfoldable pub clear_player_points : World → ℕ → Party → Party
clear_player_points w x p = updated w (record p { point_map = erase_points x p.point_map })

abbrev pub disbands : Party → Bool
disbands p = is_empty p.member_list && is_empty p.invite_list

abbrev pub remove_invitations : ℕ → List ℕ → World → World
remove_invitations i [] w = w
remove_invitations i (x ∷ xs) w = remove_invitations i xs (remove_party_invitation x i w)

abbrev pub clear_parties : List ℕ → World → World
clear_parties [] w = w
clear_parties (x ∷ xs) w = clear_parties xs (set_party x none w)

unfoldable pub disband : ℕ → World → Option World
disband i w = with_party i w λ p. some (
    put_party i none (
      clear_parties p.member_list (remove_invitations i p.invite_list (set_party p.leader none w))))

unfoldable pub invite_player : ℕ → ℕ → World → Option (Bool × World)
invite_player i x w = with_party i w λ p.
    if (w.players x).fighter.is_removed
    then some (false, w)
    else if contains x p.invite_list
    then some (false, w)
    else some (
      true,
      add_party_invitation x i
          (put_party i (some (record p { invite_list = p.invite_list ++ (x ∷ []) })) w),
    )

unfoldable pub join_party : ℕ → ℕ → World → Option (Bool × World)
unfolding updated
join_party i x w = with_party i w λ p.
    if (w.players x).fighter.is_removed
    then some (false, w)
    else (let joined = record p {
      member_list = p.member_list ++ (x ∷ []);
      invite_list = erase x p.invite_list;
    } in
        let w' = remove_party_invitation x i (set_party x (some i) w) in
        some (true, put_party i (some (updated w' joined)) w'))

unfoldable pub remove_invite : ℕ → ℕ → World → Option (Bool × World)
unfolding is_player_invited disband
remove_invite i x w = with_party i w λ p.
    if not (is_player_invited w p x)
    then some (false, w)
    else (let left = record p { invite_list = erase x p.invite_list } in
        let w' = remove_party_invitation x i (put_party i (some left) w) in
        if disbands left then (disband i w' >>= λ v. some (true, v)) else some (true, w'))

unfoldable pub revoke_invitation : ℕ → ℕ → World → Option (Bool × World)
unfolding remove_invite
revoke_invitation i x w = remove_invite i x w >>= λ r. some (true, r.1)

-- The body of passPartyLeadership, once its guards are passed.
unfoldable pub passed : ℕ → World → Party → Party
unfolding updated
passed x w p = updated w (record p { leader = x; member_list = p.leader ∷ erase x p.member_list })

unfoldable pub pass_party_leadership : ℕ → ℕ → World → Option (Bool × World)
unfolding is_player_member
pass_party_leadership i x w = with_party i w λ p.
    if p.leader == x || not (is_player_member w p x)
    then some (false, w)
    else some (true, put_party i (some (passed x w p)) w)

-- The first part of leaveParty: whether no leader remains, and the state after the leadership was
-- passed on.
unfoldable pub find_leader : ℕ → ℕ → Party → World → Option (Bool × World)
unfolding pass_party_leadership
find_leader i x p w =
    if p.leader == x
    then elim p.member_list [
      | [] ↦ some (true, w)
      | first ∷ others ↦
          if is_empty others && is_empty p.invite_list
          then some (true, w)
          else (pass_party_leadership i first w >>= λ r. some (false, r.1))
    ]
    else some (false, w)

-- The party without the player who leaves.
unfoldable pub without : ℕ → World → Party → Party
unfolding updated clear_player_points
without x w p = clear_player_points w x (
    updated w
      (record p { member_list = erase x p.member_list; invite_list = erase x p.invite_list }))

-- The rest of leaveParty, once it is known whether no leader remains.
unfoldable pub remove_player : ℕ → ℕ → (has_no_leader : Bool) → World → Option (Bool × World)
unfolding disband without
remove_player i x has_no_leader w = with_party i w λ p.
    let w' = set_party x none w in
    let left = without x w' p in
    let w'' = put_party i (some left) w' in
    if has_no_leader || disbands left
    then (disband i w'' >>= λ v. some (true, v))
    else some (true, w'')

unfoldable pub leave_party : ℕ → ℕ → World → Option (Bool × World)
unfolding is_player_member find_leader remove_player
leave_party i x w = with_party i w λ p.
    if not (is_player_member w p x) && not (p.leader == x)
    then some (false, w)
    else (find_leader i x p w >>= λ r. remove_player i x r.0 r.1)

-- setSharedExperience
unfoldable pub set_shared_experience : ℕ → ℕ → Bool → World → Option (Bool × World)
set_shared_experience i x active w = with_party i w λ p.
    if (w.players x).fighter.is_removed || not (p.leader == x)
    then some (false, w)
    else some (true, put_party i (some (record p { shared_exp_active = active })) w)

-- addPlayerHealedMember and addPlayerDamageMonster
unfoldable pub add_points : (ℕ → ℕ → ℕ → CountMap → CountMap) → ℕ → ℕ → ℕ → World → Option World
unfolding updated
add_points add i x points w = with_party i w λ p.
    if not (w.players x).fighter.not_gain_in_fight && ltb 0 points
    then some
        (put_party i (some (updated w (record p { point_map = add w.now x points p.point_map }))) w)
    else some w

unfoldable pub add_player_healed_member : ℕ → ℕ → ℕ → World → Option World
unfolding add_points
add_player_healed_member = add_points add_healed

unfoldable pub add_player_damage_monster : ℕ → ℕ → ℕ → World → Option World
unfolding add_points
add_player_damage_monster = add_points add_damage
