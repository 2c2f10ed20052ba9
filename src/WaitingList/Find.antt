-- ===== src/WaitingList/Find.antt =====
-- Where findClient finds an entry that clientLogin added or kept (source/waitlist.cpp).
use othire.Base.{
  ℕ, suc, ◌+◌, ◌-◌, ◌<◌, ◌≡◌, refl, List, [], ◌∷◌, ◌++◌, Bool, true, false, not, ◌&&◌,
  if◌then◌else◌, ◌==◌, Option, none, some, leb, arith, Bool-cases, Option-cases, inl, inr, length,
}
use othire.WaitingList.{
  Wait, Player, clean_up_list, insert_premium, premium_slot, set_timeout, find_client, is_client,
  queue_client, add_client, erase_slot, kept_until,
}

-- The timeout of the entry in a slot, from 1.
abbrev pub timeout_at : ℕ → List Wait → Option ℕ
timeout_at slot [] = none
timeout_at slot (w ∷ ws) =
    let rest = timeout_at (slot - 1) ws in if slot == 1 then some w.timeout else rest

abbrev pub all_premium : List Wait → Bool
all_premium [] = true
all_premium (w ∷ ws) = w.premium && all_premium ws

-- Whether the slot is there, and at most s.
abbrev pub is_within : ℕ → Option ℕ → Bool
is_within s none = false
is_within s (some s') = leb s' s

not_taken {ℓ} : {A : Type ℓ} (b : Bool) (x y : A) → b ≡ true → (if not b then x else y) ≡ y
not_taken true x y h = refl
not_taken false x y h = cc

not_skipped {ℓ} : {A : Type ℓ} (b : Bool) (x y : A) → b ≡ false → (if not b then x else y) ≡ x
not_skipped true x y h = cc
not_skipped false x y h = refl

module _ (wait w : Wait) (ws : List Wait) where
  insert_premium-skip : w.premium ≡ true → insert_premium wait (w ∷ ws) ≡ w ∷ insert_premium wait ws
  unfolding insert_premium
  insert_premium-skip = not_taken w.premium _ _

  insert_premium-here : w.premium ≡ false → insert_premium wait (w ∷ ws) ≡ wait ∷ w ∷ ws
  unfolding insert_premium
  insert_premium-here = not_skipped w.premium _ _

module _ (w : Wait) (ws : List Wait) where
  premium_slot-skip : w.premium ≡ true → premium_slot (w ∷ ws) ≡ suc (premium_slot ws)
  unfolding premium_slot
  premium_slot-skip = not_taken w.premium _ _

  premium_slot-here : w.premium ≡ false → premium_slot (w ∷ ws) ≡ 1
  unfolding premium_slot
  premium_slot-here = not_skipped w.premium _ _

premium_slot-positive : (l : List Wait) → 0 < premium_slot l
unfolding premium_slot
premium_slot-positive [] = omega arith
premium_slot-positive (w ∷ ws) = ground (arith, premium_slot-positive ws)

module _ (iequals : List ℕ → List ℕ → Bool) (player : Player) where
  abbrev find : List Wait → Option ℕ
  find l = find_client iequals player l

  module _ (now online max_players : ℕ) where
    pub queue_client-none :
        (l : List Wait)
        → find l ≡ none
        → queue_client iequals now online max_players player l ≡ (false, add_client now player l)
    unfolding queue_client
    queue_client-none l e = rw (queue_client, e) refl

    pub queue_client-some :
        (l : List Wait) (s : ℕ)
        → find l ≡ some s
        → queue_client iequals now online max_players player l ≡ (
            if leb (online + s) max_players
            then (true, erase_slot s l)
            else (false, set_timeout s (kept_until now s) l))
    unfolding queue_client
    queue_client-some l s e = rw (queue_client, e) refl

  pub find-positive : (l : List Wait) (s : ℕ) → find l ≡ some s → 0 < s
  unfolding find_client
  find-positive [] s h = cc
  find-positive (w ∷ ws) s h = ground arith

  pub find-set_timeout : (s t : ℕ) (l : List Wait) → find (set_timeout s t l) ≡ find l
  unfolding find_client
  find-set_timeout s t [] = refl
  find-set_timeout s t (w ∷ ws) = ground (arith, find-set_timeout (s - 1) t ws)

  pub timeout_at-set_timeout :
      (t : ℕ) (l : List Wait) (s : ℕ) → find l ≡ some s → timeout_at s (set_timeout s t l) ≡ some t
  unfolding find_client
  timeout_at-set_timeout t [] s h = cc
  timeout_at-set_timeout t (w ∷ ws) s h = elim (Option-cases (find ws)) [
    | inl e ↦ ground (arith, e)
    | inr (r, e) ↦
        let p = find-positive ws r e in
        let q = timeout_at-set_timeout t ws r e in
        let d : suc r - 1 ≡ r = omega arith in ground (arith, e, p, q, d)
  ]

  pub find-append :
      (wait : Wait) (l : List Wait)
      → is_client iequals player wait ≡ true
      → find l ≡ none
      → (find (l ++ (wait ∷ [])) ≡ some (length l + 1))
        × (timeout_at (length l + 1) (l ++ (wait ∷ [])) ≡ some wait.timeout)
  unfolding find_client
  find-append wait [] c h = ground (arith, c)
  find-append wait (w ∷ ws) c h =
      let r = find-append wait ws c in
      let d : suc (length ws) + 1 - 1 ≡ length ws + 1 = omega arith in ground (arith, r, d)

  find-none_cons :
      (w : Wait) (ws : List Wait)
      → find (w ∷ ws) ≡ none
      → (is_client iequals player w ≡ false) × (find ws ≡ none)
  unfolding find_client
  find-none_cons w ws h = elim (Option-cases (find ws)) [
    | inl e ↦ ground (arith, e)
    | inr (r, e) ↦ ground (arith, e)
  ]

  pub find-insert_premium :
      (wait : Wait) (l : List Wait)
      → is_client iequals player wait ≡ true
      → find l ≡ none
      → all_premium l ≡ false
      → (find (insert_premium wait l) ≡ some (premium_slot l))
        × (timeout_at (premium_slot l) (insert_premium wait l) ≡ some wait.timeout)
  unfolding find_client
  find-insert_premium wait [] c h p = cc
  find-insert_premium wait (w ∷ ws) c h p =
      let (m, k) = find-none_cons w ws h in
      let pos = premium_slot-positive ws in
      let d : suc (premium_slot ws) - 1 ≡ premium_slot ws = omega arith in
      elim (Bool-cases w.premium) [
        | inl e ↦
            let i = insert_premium-skip wait w ws e in
            let q = premium_slot-skip w ws e in
            let a : all_premium ws ≡ false = ground (arith, e) in
            let (f, t) = find-insert_premium wait ws c k a in
            rw (i, q) (rw (find_client, m, f) refl, rw d (ground (arith, t, pos)))
        | inr e ↦
            let i = insert_premium-here wait w ws e in
            let q = premium_slot-here w ws e in rw (i, q) (ground (arith, c, e))
      ]

  pub insert_premium-all :
      (wait : Wait) (l : List Wait) → all_premium l ≡ true → insert_premium wait l ≡ l
  unfolding insert_premium
  insert_premium-all wait [] h = refl
  insert_premium-all wait (w ∷ ws) h = ground (arith, insert_premium-all wait ws)

  -- An entry whose time has not come stays, in the same slot or an earlier one.
  pub find-clean_up_list :
      (now : ℕ) (l : List Wait) (s t : ℕ)
      → find l ≡ some s
      → timeout_at s l ≡ some t
      → now < t
      → is_within s (find (clean_up_list now l)) ≡ true
  unfolding find_client clean_up_list
  find-clean_up_list now [] s t h k lt = cc
  find-clean_up_list now (w ∷ ws) s t h k lt = elim (Option-cases (find ws)) [
    | inl e ↦ ground (arith, e)
    | inr (r, e) ↦
        let p = find-positive ws r e in
        let q = find-clean_up_list now ws r t e in
        let d : suc r - 1 ≡ r = omega arith in ground (arith, e, p, q, d)
  ]
