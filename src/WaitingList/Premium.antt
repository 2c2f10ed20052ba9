-- ===== src/WaitingList/Premium.antt =====
-- Premium clients stand before the others in the waiting list (source/waitlist.cpp).
use othire.Base.{
  ℕ, ◌+◌, ◌-◌, ◌≡◌, refl, List, [], ◌∷◌, ◌++◌, Bool, true, false, not, ◌&&◌, ◌||◌, if◌then◌else◌,
  leb, ltb, arith, Option-cases, inl, inr, length,
}
use othire.WaitingList.Find.{queue_client-none, queue_client-some}
use othire.WaitingList.{
  Wait, Player, clean_up_list, insert_premium, premium_slot, erase_slot, set_timeout, add_client,
  kept_until, new_wait, find_client, queue_client, client_login, is_empty,
}

abbrev none_premium : List Wait → Bool
none_premium [] = true
none_premium (w ∷ ws) = not w.premium && none_premium ws

-- No entry that is premium follows one that is not.
abbrev pub ordered : List Wait → Bool
ordered [] = true
ordered (w ∷ ws) = (w.premium || none_premium ws) && ordered ws

clean-none :
    (now : ℕ) (l : List Wait) → none_premium l ≡ true → none_premium (clean_up_list now l) ≡ true
unfolding clean_up_list
clean-none now [] h = refl
clean-none now (w ∷ ws) h = ground (arith, clean-none now ws)

clean-ordered : (now : ℕ) (l : List Wait) → ordered l ≡ true → ordered (clean_up_list now l) ≡ true
unfolding clean_up_list
clean-ordered now [] h = refl
clean-ordered now (w ∷ ws) h = ground (arith, clean-ordered now ws, clean-none now ws)

erase-none : (s : ℕ) (l : List Wait) → none_premium l ≡ true → none_premium (erase_slot s l) ≡ true
erase-none s [] h = refl
erase-none s (w ∷ ws) h = ground (arith, erase-none (s - 1) ws)

erase-ordered : (s : ℕ) (l : List Wait) → ordered l ≡ true → ordered (erase_slot s l) ≡ true
erase-ordered s [] h = refl
erase-ordered s (w ∷ ws) h = ground (arith, erase-ordered (s - 1) ws, erase-none (s - 1) ws)

timeout-none :
    (s t : ℕ) (l : List Wait) → none_premium l ≡ true → none_premium (set_timeout s t l) ≡ true
timeout-none s t [] h = refl
timeout-none s t (w ∷ ws) h = ground (arith, timeout-none (s - 1) t ws)

timeout-ordered : (s t : ℕ) (l : List Wait) → ordered l ≡ true → ordered (set_timeout s t l) ≡ true
timeout-ordered s t [] h = refl
timeout-ordered s t (w ∷ ws) h =
    ground (arith, timeout-ordered (s - 1) t ws, timeout-none (s - 1) t ws)

insert-ordered :
    (wait : Wait) (l : List Wait)
    → wait.premium ≡ true
    → ordered l ≡ true
    → ordered (insert_premium wait l) ≡ true
unfolding insert_premium
insert-ordered wait [] p h = refl
insert-ordered wait (w ∷ ws) p h = ground (arith, insert-ordered wait ws p)

append-none :
    (wait : Wait) (l : List Wait)
    → wait.premium ≡ false
    → none_premium l ≡ true
    → none_premium (l ++ (wait ∷ [])) ≡ true
append-none wait [] p h = ground arith
append-none wait (w ∷ ws) p h = ground (arith, append-none wait ws p)

append-ordered :
    (wait : Wait) (l : List Wait)
    → wait.premium ≡ false
    → ordered l ≡ true
    → ordered (l ++ (wait ∷ [])) ≡ true
append-ordered wait [] p h = ground arith
append-ordered wait (w ∷ ws) p h = ground (arith, append-ordered wait ws p, append-none wait ws p)

-- A property of both branches is one of the conditional.
if_holds :
    (P : List Wait → Bool) (b : Bool) (x y : List Wait)
    → (b ≡ true → P x ≡ true)
    → (b ≡ false → P y ≡ true)
    → P (if b then x else y) ≡ true
if_holds P true x y f g = f refl
if_holds P false x y f g = g refl

add_client-ordered :
    (now : ℕ) (player : Player) (l : List Wait)
    → ordered l ≡ true
    → ordered (add_client now player l) ≡ true
unfolding add_client
add_client-ordered now player l h =
    if_holds ordered player.premium _ _
      (λ e. insert-ordered (new_wait player (kept_until now (premium_slot l))) l e h)
      (λ e. append-ordered (new_wait player (kept_until now (length l + 1))) l e h)

if_holds_result :
    (P : List Wait → Bool) (b : Bool) (x y : Bool × List Wait)
    → (b ≡ true → P x.1 ≡ true)
    → (b ≡ false → P y.1 ≡ true)
    → P (if b then x else y).1 ≡ true
if_holds_result P true x y f g = f refl
if_holds_result P false x y f g = g refl

module _ (iequals : List ℕ → List ℕ → Bool) (now online max_players : ℕ) (player : Player) where
  queue_client-ordered :
      (l : List Wait)
      → ordered l ≡ true
      → ordered (queue_client iequals now online max_players player l).1 ≡ true
  queue_client-ordered l h = elim (Option-cases (find_client iequals player l)) [
    | inl e ↦
        rw (queue_client-none iequals player now online max_players l e)
          (add_client-ordered now player l h)
    | inr (s, e) ↦ rw (queue_client-some iequals player now online max_players l s e) (
        if_holds_result ordered (leb (online + s) max_players) _ _ (λ _. erase-ordered s l h)
          (λ _. timeout-ordered s (kept_until now s) l h))
  ]

  -- clientLogin keeps every premium client before all clients that are not premium, whether it lets
  -- the player in, sets a timeout, or adds an entry.
  pub client_login-ordered :
      (l : List Wait)
      → ordered l ≡ true
      → ordered (client_login iequals now online max_players player l).1 ≡ true
  unfolding client_login
  client_login-ordered l h =
      if_holds_result ordered player.can_always_login _ _ (λ _. h)
        (λ _.
          if_holds_result ordered (is_empty l && ltb online max_players) _ _ (λ _. h)
            (λ _. queue_client-ordered (clean_up_list now l) (clean-ordered now l h)))
