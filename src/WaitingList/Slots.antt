-- ===== src/WaitingList/Slots.antt =====
-- What a refused client finds when it comes back (source/waitlist.cpp, clientLogin, getClientSlot).
use othire.Base.{
  ℕ, ◌+◌, ◌≤◌, ◌<◌, ◌≡◌, refl, sym, subst, ◌∙◌, List, Bool, true, false, ◌&&◌, if◌then◌else◌,
  Option, none, some, leb, ltb, arith, Bool-cases, Option-cases, inl, inr, length,
}
use othire.WaitingList.{
  Wait, Player, clean_up_list, premium_slot, set_timeout, find_client, is_client, queue_client,
  add_client, erase_slot, kept_until, new_wait, client_login, get_client_slot, is_empty,
}
use othire.WaitingList.Find.{
  timeout_at, all_premium, find-set_timeout, timeout_at-set_timeout, find-append,
  find-insert_premium, insert_premium-all, is_within, find-clean_up_list, queue_client-none,
  queue_client-some,
}

pub if_then :
    (P : List Wait → Type 0) (b : Bool) (x y : List Wait)
    → (b ≡ true → P x)
    → (b ≡ false → P y)
    → P (if b then x else y)
if_then P true x y f g = f refl
if_then P false x y f g = g refl

-- A conditional that refuses does so in its second branch.
pub if_refused :
    (b : Bool) (x : Bool × List Wait) (l : List Wait)
    → (if b then (true, l) else x).0 ≡ false
    → (b ≡ false) × ((if b then (true, l) else x) ≡ x)
if_refused true x l h = cc
if_refused false x l h = (refl, refl)

module _ (iequals : List ℕ → List ℕ → Bool) (iequals-refl : (s : List ℕ) → iequals s s ≡ true)
    (player : Player) where
  abbrev find : List Wait → Option ℕ
  find l = find_client iequals player l

  pub new_wait-is_client : (time : ℕ) → is_client iequals player (new_wait player time) ≡ true
  new_wait-is_client time = let a = iequals-refl player.name in ground (arith, a)

  -- After a refusal the list holds, in the client's slot, the timeout for that slot.
  abbrev Entry : ℕ → List Wait → Type 0
  Entry now l = (s : ℕ) → find l ≡ some s → timeout_at s l ≡ some (kept_until now s)

  Entry-one :
      (now : ℕ) (l : List Wait) (p : ℕ)
      → find l ≡ some p
      → timeout_at p l ≡ some (kept_until now p)
      → Entry now l
  Entry-one now l p f t s g =
      let q : p ≡ s = ground (arith, f, g) in
      subst (λ x. timeout_at x l ≡ some (kept_until now x)) q t

  add_client-Entry : (now : ℕ) (l : List Wait) → find l ≡ none → Entry now (add_client now player l)
  unfolding add_client
  add_client-Entry now l e =
      if_then (Entry now) player.premium _ _
        (λ _. elim (Bool-cases (all_premium l)) [
          | inl a ↦ λ s f.
              let g : find l ≡ some s =
                subst (λ x. find x ≡ some s) (insert_premium-all iequals player _ l a) f in
              cc
          | inr a ↦
              let (f, t) =
                find-insert_premium iequals player _ l
                  (new_wait-is_client (kept_until now (premium_slot l))) e a in
              Entry-one now _ _ f t
        ])
        (λ _.
          let (f, t) =
            find-append iequals player _ l (new_wait-is_client (kept_until now (length l + 1))) e in
          Entry-one now _ _ f t)

module _ (iequals : List ℕ → List ℕ → Bool) (now online max_players : ℕ) (player : Player) where
  -- clientLogin refuses only after it has cleaned up the list.
  pub client_login-refused :
      (l : List Wait)
      → (client_login iequals now online max_players player l).0 ≡ false
      → (player.can_always_login ≡ false)
        × (client_login iequals now online max_players player l
            ≡ queue_client iequals now online max_players player (clean_up_list now l))
  unfolding client_login
  client_login-refused l h =
      let (a, e) = if_refused player.can_always_login _ l h in
      let (b, f) =
        if_refused (is_empty l && ltb online max_players) _ l (subst (λ x. x.0 ≡ false) e h) in
      (a, e ∙ f)

module _ (iequals : List ℕ → List ℕ → Bool) (iequals-refl : (s : List ℕ) → iequals s s ≡ true)
    (player : Player) where
  set_timeout-Entry :
      (now : ℕ) (l : List Wait) (s : ℕ)
      → find_client iequals player l ≡ some s
      → Entry iequals iequals-refl player now (set_timeout s (kept_until now s) l)
  set_timeout-Entry now l s e =
      Entry-one iequals iequals-refl player now _ s
        (find-set_timeout iequals player s (kept_until now s) l ∙ e)
        (timeout_at-set_timeout iequals player (kept_until now s) l s e)

  queue_client-Entry :
      (now online max_players : ℕ) (l : List Wait)
      → (queue_client iequals now online max_players player l).0 ≡ false
      → Entry iequals iequals-refl player now
          (queue_client iequals now online max_players player l).1
  queue_client-Entry now online max_players l h =
      elim (Option-cases (find_client iequals player l)) [
        | inl e ↦
            subst (λ x. Entry iequals iequals-refl player now x.1)
              (sym (queue_client-none iequals player now online max_players l e))
              (add_client-Entry iequals iequals-refl player now l e)
        | inr (s, e) ↦
            let q = queue_client-some iequals player now online max_players l s e in
            let (_, r) =
              if_refused (leb (online + s) max_players) _ (erase_slot s l)
                (subst (λ x. x.0 ≡ false) q h) in
            subst (λ x. Entry iequals iequals-refl player now x.1) (sym (q ∙ r))
              (set_timeout-Entry now l s e)
      ]

  queue_client-admits :
      (now online max_players : ℕ) (l : List Wait) (s : ℕ)
      → is_within s (find_client iequals player l) ≡ true
      → online + s ≤ max_players
      → (queue_client iequals now online max_players player l).0 ≡ true
  queue_client-admits now online max_players l s w le =
      elim (Option-cases (find_client iequals player l)) [
        | inl e ↦ let v = subst (λ x. is_within s x ≡ true) e w in cc
        | inr (r, e) ↦
            let v = subst (λ x. is_within s x ≡ true) e w in
            rw (queue_client-some iequals player now online max_players l r e)
              (ground (arith, v, le))
      ]

  client_login-admits :
      (now online max_players : ℕ) (l : List Wait)
      → (queue_client iequals now online max_players player (clean_up_list now l)).0 ≡ true
      → (client_login iequals now online max_players player l).0 ≡ true
  unfolding client_login
  client_login-admits now online max_players l h = ground (arith, h)

  -- A client that clientLogin refused and that then has the slot s is let in if it comes back, as the
  -- next to call, before the timeout for the slot s has passed, and there is room for s more players.
  -- The comparison of names is taken to find every name equal to itself.
  pub client_login-retry :
      (now online max_players now' online' max_players' s : ℕ) (l : List Wait)
      → let refused = client_login iequals now online max_players player l in
        refused.0 ≡ false
        → get_client_slot iequals player refused.1 ≡ some s
        → now' < kept_until now s
        → online' + s ≤ max_players'
        → (client_login iequals now' online' max_players' player refused.1).0 ≡ true
  unfolding get_client_slot
  client_login-retry now online max_players now' online' max_players' s l h f lt le =
      let (_, e) = client_login-refused iequals now online max_players player l h in
      let q = subst (λ x. x.0 ≡ false) e h in
      let l' = (client_login iequals now online max_players player l).1 in
      let entry : Entry iequals iequals-refl player now l' =
        subst (λ x. Entry iequals iequals-refl player now x.1) (sym e)
          (queue_client-Entry now online max_players (clean_up_list now l) q) in
      let w = find-clean_up_list iequals player now' l' s (kept_until now s) f (entry s f) lt in
      client_login-admits now' online' max_players' l'
        (queue_client-admits now' online' max_players' (clean_up_list now' l') s w le)
