-- ===== src/WaitingList.antt =====
-- The list of the clients that wait for a place on the server (source/waitlist.h,
-- source/waitlist.cpp). A method takes the list and returns it; the time, the number of players
-- online and the limit of them are arguments. boost's iequals is a parameter of the model.
pub mod Find
pub mod Slots
pub mod Lost
pub mod Premium
mod Tests
use othire.Base.{
  ℕ, suc, ◌+◌, ◌-◌, ◌*◌, List, [], ◌∷◌, ◌++◌, Bool, true, false, not, ◌&&◌, ltb, leb, ◌==◌,
  if◌then◌else◌, Option, none, some, length,
}

-- A time is in milliseconds.
pub record Wait : Type 0 where
  pub acc : ℕ
  pub ip : ℕ
  pub name : List ℕ
  pub premium : Bool
  pub timeout : ℕ

-- What the list asks of a player.
pub record Player : Type 0 where
  pub account_id : ℕ
  pub ip : ℕ
  pub name : List ℕ
  pub premium : Bool
  pub can_always_login : Bool

abbrev pub is_empty {ℓ} : {A : Type ℓ} → List A → Bool
is_empty [] = true
is_empty (x ∷ xs) = false

-- getTime and getTimeOut, in seconds
unfoldable pub get_time : ℕ → ℕ
get_time slot =
    if ltb slot 5
    then 5
    else if ltb slot 10
    then 10
    else if ltb slot 20
    then 20
    else if ltb slot 50
    then 60
    else 120

unfoldable pub get_time_out : ℕ → ℕ
get_time_out slot = get_time slot + 15

unfoldable pub clean_up_list : (now : ℕ) → List Wait → List Wait
clean_up_list now [] = []
clean_up_list now (w ∷ ws) =
    let rest = clean_up_list now ws in if leb w.timeout now then rest else w ∷ rest

-- The entry is put before the first that is not premium; with none such, the list is left as it is.
unfoldable pub insert_premium : Wait → List Wait → List Wait
insert_premium wait [] = []
insert_premium wait (w ∷ ws) =
    let rest = insert_premium wait ws in if not w.premium then wait ∷ w ∷ ws else w ∷ rest

-- The slot that the loop over the premium entries ends with.
unfoldable pub premium_slot : List Wait → ℕ
premium_slot [] = 1
premium_slot (w ∷ ws) = let rest = premium_slot ws in if not w.premium then 1 else suc rest

-- The entry in a slot, from 1, is taken out, or gets another timeout.
abbrev pub erase_slot : ℕ → List Wait → List Wait
erase_slot slot [] = []
erase_slot slot (w ∷ ws) = let rest = erase_slot (slot - 1) ws in if slot == 1 then ws else w ∷ rest

abbrev pub set_timeout : ℕ → ℕ → List Wait → List Wait
set_timeout slot time [] = []
set_timeout slot time (w ∷ ws) =
    let rest = set_timeout (slot - 1) time ws in
    if slot == 1 then record w { timeout = time } ∷ ws else w ∷ rest

-- The time until which an entry in a slot is kept.
abbrev pub kept_until : (now slot : ℕ) → ℕ
kept_until now slot = now + get_time_out slot * 1000

abbrev pub new_wait : Player → ℕ → Wait
new_wait player time = record {
  acc = player.account_id;
  ip = player.ip;
  name = player.name;
  premium = player.premium;
  timeout = time;
}

-- A client that is not in the list is added to it; the entry's timeout is for its slot.
unfoldable pub add_client : (now : ℕ) → Player → List Wait → List Wait
add_client now player list =
    if player.premium
    then insert_premium (new_wait player (kept_until now (premium_slot list))) list
    else list ++ (new_wait player (kept_until now (length list + 1)) ∷ [])

module _ (iequals : List ℕ → List ℕ → Bool) where
  -- The test of findClient.
  abbrev pub is_client : Player → Wait → Bool
  is_client player w =
      (w.acc == player.account_id) && (w.ip == player.ip) && iequals w.name player.name

  -- The slot of the client, from 1, if it is in the list.
  unfoldable pub find_client : Player → List Wait → Option ℕ
  find_client player [] = none
  find_client player (w ∷ ws) =
      let rest = find_client player ws in
      if is_client player w then some 1 else elim rest [ none ↦ none | some slot ↦ some (suc slot) ]

  -- The rest of clientLogin, once the list has been cleaned up.
  unfoldable pub queue_client : (now online max_players : ℕ) → Player → List Wait → Bool × List Wait
  unfolding find_client
  queue_client now online max_players player list = elim (find_client player list) [
    | some slot ↦
        if leb (online + slot) max_players
        then (true, erase_slot slot list)
        else (false, set_timeout slot (kept_until now slot) list)
    | none ↦ (false, add_client now player list)
  ]

  unfoldable pub client_login : (now online max_players : ℕ) → Player → List Wait → Bool × List Wait
  unfolding queue_client
  client_login now online max_players player list =
      if player.can_always_login
      then (true, list)
      else if is_empty list && ltb online max_players
      then (true, list)
      else queue_client now online max_players player (clean_up_list now list)

  -- getClientSlot, where none stands for -1
  unfoldable pub get_client_slot : Player → List Wait → Option ℕ
  unfolding find_client
  get_client_slot player list = find_client player list
