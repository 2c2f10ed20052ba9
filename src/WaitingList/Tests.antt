-- ===== src/WaitingList/Tests.antt =====
-- Runs of the waiting list (source/waitlist.cpp), and the theorems at a concrete input. Names are
-- compared byte by byte here, as iequals does for names in one case.
use othire.Base.{ℕ, ◌≡◌, ◌↔◌, refl, List, [], ◌∷◌, Bool, true, false, ◌&&◌, ◌==◌, none, some, arith}
use othire.WaitingList.{
  Wait, Player, client_login, get_client_slot, clean_up_list, kept_until, add_client,
  insert_premium, get_time_out, get_time,
}
use othire.WaitingList.Find.{all_premium}
use othire.WaitingList.Premium.{ordered, client_login-ordered}
use othire.WaitingList.Slots.{client_login-retry}
use othire.WaitingList.Lost.{client_login-lost}

abbrev same : List ℕ → List ℕ → Bool
same [] [] = true
same [] (b ∷ bs) = false
same (a ∷ as') [] = false
same (a ∷ as') (b ∷ bs) = let rest = same as' bs in (a == b) && rest

same_refl : (s : List ℕ) → same s s ≡ true
same_refl [] = refl
same_refl (a ∷ rest) = ground (arith, same_refl rest)

abbrev player : Player
player = record {
  account_id = 1;
  ip = 2;
  name = 97 ∷ [];
  premium = false;
  can_always_login = false;
}

abbrev premium_player : Player
premium_player = record {
  account_id = 3;
  ip = 4;
  name = 98 ∷ [];
  premium = true;
  can_always_login = false;
}

-- The server is full, and the list empty.
abbrev refused : Bool × List Wait
refused = client_login same 1000 50 50 player []

refused_slot : get_client_slot same player refused.1 ≡ some 1
unfolding get_client_slot client_login add_client get_time_out clean_up_list
refused_slot = refl

refused_result : refused.0 ≡ false
unfolding client_login clean_up_list
refused_result = refl

kept_until_slot : kept_until 1000 1 ≡ 21000
unfolding get_time_out get_time
kept_until_slot = refl

client_login-retry_example : (client_login same 6000 49 50 player refused.1).0 ≡ true
client_login-retry_example =
    client_login-retry same same_refl player 1000 50 50 6000 49 50 1 [] refused_result refused_slot
      (omega (arith, kept_until_slot)) (omega arith)

-- A premium client that finds the list empty is refused and not put in the list.
premium_refused : client_login same 1000 50 50 premium_player [] ≡ (false, [])
unfolding client_login add_client clean_up_list insert_premium
premium_refused = refl

premium_refused_result : (client_login same 1000 50 50 premium_player []).0 ≡ false
unfolding client_login clean_up_list
premium_refused_result = refl

client_login-lost_example :
    (get_client_slot same premium_player (client_login same 1000 50 50 premium_player []).1 ≡ none)
    ↔ ((get_client_slot same premium_player (clean_up_list 1000 []) ≡ none)
        × ((premium_player.premium && all_premium (clean_up_list 1000 [])) ≡ true))
client_login-lost_example =
    client_login-lost same same_refl premium_player 1000 50 50 [] premium_refused_result

client_login-ordered_example :
    ordered (client_login same 1000 50 50 premium_player refused.1).1 ≡ true
client_login-ordered_example =
    client_login-ordered same 1000 50 50 premium_player refused.1
      (client_login-ordered same 1000 50 50 player [] refl)
