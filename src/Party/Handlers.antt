-- ===== src/Party/Handlers.antt =====
-- What players ask of parties (source/game.cpp: playerInviteToParty, playerJoinParty,
-- playerRevokePartyInvitation, playerPassPartyLeadership, playerLeaveParty; source/player.cpp:
-- isInviting, isPartner, clearPartyInvitations).
use othire.Base.{
  ℕ, List, [], ◌∷◌, Bool, true, false, not, ◌&&◌, ◌||◌, ◌==◌, if◌then◌else◌, Option, none, some,
}
use othire.Party.{
  World, with_party, ◌>>=◌, new_party, is_player_invited, invite_player, join_party,
  revoke_invitation, pass_party_leadership, leave_party, remove_invite, set_player,
}

-- Whether getPlayerByID finds a player that is not removed.
abbrev pub is_present : World → ℕ → Bool
is_present w x = (w.players x).is_listed && not (w.players x).fighter.is_removed

-- The test that a player's party has it as its leader; a player without a party has none.
abbrev pub is_leading : World → ℕ → Option Bool
is_leading w x = elim (w.players x).party [
  | none ↦ some false
  | some i ↦ with_party i w (λ p. some (p.leader == x))
]

unfoldable pub is_inviting : World → (inviting : ℕ) → ℕ → Option Bool
unfolding is_player_invited
is_inviting w inviting x = elim (w.players inviting).party [
  | none ↦ some false
  | some i ↦
      with_party i w λ p. some (if p.leader == inviting then is_player_invited w p x else false)
]

unfoldable pub is_partner : World → ℕ → ℕ → Bool
is_partner w a b = elim (w.players a).party [
  | none ↦ false
  | some i ↦ elim (w.players b).party [ none ↦ false | some j ↦ i == j ]
]

abbrev has_party : World → ℕ → Bool
has_party w x = elim (w.players x).party [ none ↦ false | some i ↦ true ]

-- The party's operation for a player who has a party, and a refusal for one who has not.
abbrev in_party : World → ℕ → (ℕ → Option (Bool × World)) → Option (Bool × World)
in_party w x f = elim (w.players x).party [ none ↦ some (false, w) | some i ↦ f i ]

-- The last steps of playerInviteToParty: the party is made, or has to be led by the player.
unfoldable pub invite_from : ℕ → ℕ → World → Option (Bool × World)
unfolding new_party invite_player
invite_from player invited w = elim (w.players player).party [
  | none ↦ invite_player w.next_party invited (new_party player w)
  | some i ↦
      with_party i w λ p. if p.leader == player then invite_player i invited w else some (false, w)
]

unfoldable pub player_invite_to_party : ℕ → ℕ → World → Option (Bool × World)
unfolding is_inviting invite_from
player_invite_to_party player invited w =
    if not (is_present w player) || not (is_present w invited)
    then some (false, w)
    else (is_inviting w invited player >>= λ inviting.
        if inviting || player == invited || has_party w invited
        then some (false, w)
        else invite_from player invited w)

unfoldable pub player_join_party : ℕ → ℕ → World → Option (Bool × World)
unfolding is_inviting join_party
player_join_party player leader w =
    if not (is_present w player) || not (is_present w leader)
    then some (false, w)
    else (is_inviting w leader player >>= λ inviting. is_leading w leader >>= λ leading.
        if not inviting || not leading || has_party w player
        then some (false, w)
        else in_party w leader (λ i. join_party i player w))

unfoldable pub player_revoke_party_invitation : ℕ → ℕ → World → Option (Bool × World)
unfolding is_inviting revoke_invitation
player_revoke_party_invitation player invited w =
    if not (is_present w player)
    then some (false, w)
    else (is_leading w player >>= λ leading. is_inviting w player invited >>= λ inviting.
        if not leading || not (is_present w invited) || not inviting
        then some (false, w)
        else in_party w player (λ i. revoke_invitation i invited w))

unfoldable pub player_pass_party_leadership : ℕ → ℕ → World → Option (Bool × World)
unfolding is_partner pass_party_leadership
player_pass_party_leadership player new_leader w =
    if not (is_present w player)
    then some (false, w)
    else (is_leading w player >>= λ leading.
        if not leading || not (is_present w new_leader) || not (is_partner w player new_leader)
        then some (false, w)
        else in_party w player (λ i. pass_party_leadership i new_leader w))

unfoldable pub player_leave_party : ℕ → World → Option (Bool × World)
unfolding leave_party
player_leave_party player w =
    if not (is_present w player) || (w.players player).in_fight
    then some (false, w)
    else in_party w player (λ i. leave_party i player w)

-- clearPartyInvitations, which onCreatureDisappear calls before leaveParty
abbrev remove_all : ℕ → List ℕ → World → Option World
remove_all x [] w = some w
remove_all x (i ∷ is) w = remove_invite i x w >>= λ r. remove_all x is r.1

unfoldable pub clear_party_invitations : ℕ → World → Option World
unfolding remove_invite
clear_party_invitations x w =
    remove_all x (w.players x).invite_party_list
      (set_player x (record (w.players x) { invite_party_list = [] }) w)

-- The party's part of onCreatureDisappear, for the player itself.
unfoldable pub on_disappear : ℕ → World → Option World
unfolding clear_party_invitations leave_party
on_disappear x w = clear_party_invitations x w >>= λ v. elim (v.players x).party [
  | none ↦ some v
  | some i ↦ (leave_party i x v >>= λ r. some r.1)
]
