-- ===== src/Party/Tests.antt =====
-- Runs of the party's operations (source/party.cpp, source/game.cpp), and the theorems at a concrete
-- input.
use othire.Base.{
  ℕ, [], ◌∷◌, Bool, true, false, not, ◌&&◌, if◌then◌else◌, ◌==◌, Option, none, some, ◌≡◌, refl,
}
use othire.Party.{
  Player, Party, World, ◌>>=◌, leave_party, pass_party_leadership, disband, contains,
  is_player_member,
}
use othire.Party.Shared.{Fighter}
use othire.Party.Handlers.{player_invite_to_party, player_join_party, player_leave_party}
use othire.Party.Roster.{party_of, roster, disband-party_of, pass_party_leadership-roster}
use othire.Party.Leave.{leave_party-party_of}

abbrev fighter : Fighter
fighter = record {
  is_removed = false;
  level = 10;
  x = 100;
  y = 100;
  z = 7;
  not_gain_in_fight = false;
}

abbrev alone : Player
alone = record {
  party = none;
  invite_party_list = [];
  is_listed = true;
  in_fight = false;
  fighter = fighter;
}

-- Nobody is in a party.
abbrev calm : World
calm = record {
  players = λ x. alone;
  parties = λ i. none;
  next_party = 0;
  now = 0;
  in_fight_duration = 60000;
}

-- The player 1 leads the party 0, the player 2 is a member, and the player 3 is invited.
abbrev trio : Party
trio = record {
  shared_exp_active = false;
  shared_exp_enabled = false;
  leader = 1;
  member_list = 2 ∷ [];
  invite_list = 3 ∷ [];
  point_map = [];
}

abbrev gathered : World
gathered = record calm { parties = λ i. some trio; next_party = 1 }

-- The player 1 invites 2, who joins, and both leave: the party is gone when the first does.
abbrev evening : Option (Bool × World)
evening = player_invite_to_party 1 2 calm >>= λ a.
    player_join_party 2 1 a.1 >>= λ b. player_leave_party 1 b.1

abbrev seen : Option (Bool × World) → Option (Bool × Option ℕ × Option ℕ)
seen o = o >>= λ r. some (r.0, party_of r.1 1, party_of r.1 2)

evening_ends : seen evening ≡ some (true, none, none)
unfolding player_invite_to_party player_join_party player_leave_party
evening_ends = refl

disband-party_of_example :
    (w' : World) × (disband 0 gathered ≡ some w')
    × (w'.parties 0 ≡ none)
    × ((y : ℕ) → party_of w' y ≡ (if contains y (roster trio) then none else party_of gathered y))
disband-party_of_example = disband-party_of 0 gathered trio refl

trio_member : is_player_member gathered trio 2 ≡ true
unfolding is_player_member
trio_member = refl

pass_party_leadership-roster_example :
    (w' : World) × (q : Party) × (pass_party_leadership 0 2 gathered ≡ some (true, w'))
    × (w'.parties 0 ≡ some q)
    × (q.leader ≡ 2)
    × (q.invite_list ≡ trio.invite_list)
    × ((y : ℕ) → contains y (roster q) ≡ contains y (roster trio))
pass_party_leadership-roster_example =
    pass_party_leadership-roster 0 2 gathered trio refl refl trio_member

trio_leader : (not (is_player_member gathered trio 1) && not (trio.leader == 1)) ≡ false
unfolding is_player_member
trio_leader = refl

leave_party-party_of_example :
    (w' : World) × (leave_party 0 1 gathered ≡ some (true, w')) × (party_of w' 1 ≡ none)
leave_party-party_of_example = leave_party-party_of 0 1 gathered trio refl trio_leader
