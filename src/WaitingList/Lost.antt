-- ===== src/WaitingList/Lost.antt =====
-- The client that a refusal leaves without a place (source/waitlist.cpp, clientLogin, getClientSlot).
use othire.Base.{
  ℕ, ◌+◌, ◌≡◌, refl, sym, ap, subst, ◌∙◌, List, Bool, true, false, ◌&&◌, if◌then◌else◌, Option,
  none, some, leb, Bool-cases, Option-cases, inl, inr, length, ◌↔◌,
}
use othire.WaitingList.{
  Wait, Player, clean_up_list, premium_slot, find_client, queue_client, add_client, erase_slot,
  kept_until, new_wait, client_login, get_client_slot,
}
use othire.WaitingList.Find.{
  all_premium, find-set_timeout, find-append, find-insert_premium, insert_premium-all,
  queue_client-none, queue_client-some,
}
use othire.WaitingList.Slots.{if_then, if_refused, new_wait-is_client, client_login-refused}

if_true {ℓ} : {A : Type ℓ} (b : Bool) (x y : A) → b ≡ true → (if b then x else y) ≡ x
if_true true x y h = refl
if_true false x y h = cc

both : (a b : Bool) → (a && b) ≡ true → (a ≡ true) × (b ≡ true)
both true b h = (refl, h)
both false b h = cc

abbrev is_some : Option ℕ → Bool
is_some none = false
is_some (some s) = true

module _ (iequals : List ℕ → List ℕ → Bool) (iequals-refl : (s : List ℕ) → iequals s s ≡ true)
    (player : Player) where
  add_client-lost :
      (now : ℕ) (l : List Wait)
      → player.premium ≡ true
      → all_premium l ≡ true
      → add_client now player l ≡ l
  unfolding add_client
  add_client-lost now l p a = if_true player.premium _ _ p ∙ insert_premium-all iequals player _ l a

  add_client-found :
      (now : ℕ) (l : List Wait)
      → find_client iequals player l ≡ none
      → (player.premium && all_premium l) ≡ false
      → is_some (find_client iequals player (add_client now player l)) ≡ true
  unfolding add_client
  add_client-found now l e n =
      if_then (λ x. is_some (find_client iequals player x) ≡ true) player.premium _ _
        (λ p.
          let a : all_premium l ≡ false = subst (λ b. (b && all_premium l) ≡ false) p n in
          let (f, _) =
            find-insert_premium iequals player (new_wait player (kept_until now (premium_slot l))) l
              (new_wait-is_client iequals iequals-refl player (kept_until now (premium_slot l))) e
              a in
          ap is_some f)
        (λ _.
          let (f, _) =
            find-append iequals player (new_wait player (kept_until now (length l + 1))) l
              (new_wait-is_client iequals iequals-refl player (kept_until now (length l + 1))) e in
          ap is_some f)

  queue_client-found :
      (now online max_players : ℕ) (l : List Wait)
      → (queue_client iequals now online max_players player l).0 ≡ false
      → (find_client iequals player (queue_client iequals now online max_players player l).1 ≡ none)
        ↔ ((find_client iequals player l ≡ none) × ((player.premium && all_premium l) ≡ true))
  queue_client-found now online max_players l h =
      elim (Option-cases (find_client iequals player l)) [
        | inl e ↦
            let q =
              ap (λ x. find_client iequals player x.1)
                (queue_client-none iequals player now online max_players l e) in
            elim (Bool-cases (player.premium && all_premium l)) [
              | inl b ↦
                  let (p, a) = both player.premium (all_premium l) b in
                  (
                    (λ _. (e, b)),
                    (λ _. q ∙ ap (find_client iequals player) (add_client-lost now l p a) ∙ e),
                  )
              | inr b ↦
                  let f = add_client-found now l e b in
                  ((λ n. let m = subst (λ x. is_some x ≡ true) (sym q ∙ n) f in cc), (λ x. cc))
            ]
        | inr (s, e) ↦
            let q = queue_client-some iequals player now online max_players l s e in
            let (_, r) =
              if_refused (leb (online + s) max_players) _ (erase_slot s l)
                (subst (λ x. x.0 ≡ false) q h) in
            let f =
              ap (λ x. find_client iequals player x.1) (q ∙ r)
              ∙ find-set_timeout iequals player s (kept_until now s) l
              ∙ e in
            ((λ n. cc), (λ x. cc))
      ]

  -- After clientLogin refused a client, getClientSlot finds it, but for one case: the client is
  -- premium, was not in the cleaned list, and no entry of that list is one that is not premium.
  -- The comparison of names is taken to find every name equal to itself.
  pub client_login-lost :
      (now online max_players : ℕ) (l : List Wait)
      → let refused = client_login iequals now online max_players player l in
        refused.0 ≡ false
        → (get_client_slot iequals player refused.1 ≡ none) ↔ (
            (get_client_slot iequals player (clean_up_list now l) ≡ none)
            × ((player.premium && all_premium (clean_up_list now l)) ≡ true))
  unfolding get_client_slot
  client_login-lost now online max_players l h =
      let (_, e) = client_login-refused iequals now online max_players player l h in
      let q = subst (λ x. x.0 ≡ false) e h in
      subst
        (λ x. (find_client iequals player x.1 ≡ none) ↔ (
          (find_client iequals player (clean_up_list now l) ≡ none)
          × ((player.premium && all_premium (clean_up_list now l)) ≡ true)))
        (sym e) (queue_client-found now online max_players (clean_up_list now l) q)
