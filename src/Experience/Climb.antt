-- ===== src/Experience/Climb.antt =====
-- Levels gained and lost (source/player.cpp, addExperience and removeExperience).
use othire.Base.{
  ℕ, zero, suc, ◌+◌, ◌*◌, ◌%◌, ◌^◌, ◌<◌, ◌≤◌, ◌≡◌, refl, sym, subst, ◌∙◌, true, false, leb, ltb,
  Option, some, arith, inl, inr, Bool-cases,
}
use othire.Experience.{
  Progress, Gains, get_exp_for_level, rise, climb, add_experience, fall, descend, minus,
}
use othire.Experience.Levels.{level_le, exp_limit}

-- The level is the one that the experience is enough for.
pub record IsAt (p : Progress) : Type 0 where
  pub least : 1 ≤ p.level
  pub top : p.level ≤ 100000
  pub low : get_exp_for_level p.level ≤ p.experience
  pub high : p.experience < get_exp_for_level (p.level + 1)

-- The fields of 32 bits.
pub record IsWords (p : Progress) : Type 0 where
  pub health_max : p.health_max < 2 ^ 32
  pub health : p.health < 2 ^ 32
  pub mana_max : p.mana_max < 2 ^ 32
  pub mana : p.mana < 2 ^ 32

rise-IsWords : (g : Gains) (p : Progress) → IsWords (rise g p)
rise-IsWords g p = record {
  health_max = omega arith;
  health = omega arith;
  mana_max = omega arith;
  mana = omega arith;
}

-- So many levels up, each with its gains, modulo 2 ^ 32.
pub record Rises (g : Gains) (n : ℕ) (p q : Progress) : Type 0 where
  pub level : q.level ≡ p.level + n
  pub vocation : q.vocation_id ≡ p.vocation_id
  pub health_max : q.health_max ≡ (p.health_max + n * g.hp) % 2 ^ 32
  pub health : q.health ≡ (p.health + n * g.hp) % 2 ^ 32
  pub mana_max : q.mana_max ≡ (p.mana_max + n * g.mana) % 2 ^ 32
  pub mana : q.mana ≡ (p.mana + n * g.mana) % 2 ^ 32

Rises-zero : (g : Gains) (p : Progress) → IsWords p → Rises g 0 p p
Rises-zero g p w = record {
  level = omega arith;
  vocation = refl;
  health_max = omega (arith, w.health_max);
  health = omega (arith, w.health);
  mana_max = omega (arith, w.mana_max);
  mana = omega (arith, w.mana);
}

one_more : (a b n c : ℕ) → a ≡ ((b + c) % 2 ^ 32 + n * c) % 2 ^ 32 → a ≡ (b + suc n * c) % 2 ^ 32
one_more a b n c h = let e : suc n * c ≡ c + n * c = grind arith in rw e (omega (arith, h))

Rises-suc : (g : Gains) (n : ℕ) (p q : Progress) → Rises g n (rise g p) q → Rises g (suc n) p q
Rises-suc g n p q r = record {
  level = (let l = r.level in omega (arith, l));
  vocation = r.vocation;
  health_max = one_more q.health_max p.health_max n g.hp r.health_max;
  health = one_more q.health p.health n g.hp r.health;
  mana_max = one_more q.mana_max p.mana_max n g.mana r.mana_max;
  mana = one_more q.mana p.mana n g.mana r.mana;
}

-- The loop ends, with the level that the experience is enough for.
abbrev pub Climbs : Gains → Option Progress → Progress → Type 0
Climbs g o p =
    (n : ℕ) × (q : Progress) × (o ≡ some q) × Rises g n p q × (q.experience ≡ p.experience) × IsAt q

climb-Climbs :
    (fuel : ℕ) (g : Gains) (p : Progress)
    → 1 ≤ p.level
    → p.level ≤ 100000
    → get_exp_for_level p.level ≤ p.experience
    → p.experience < get_exp_for_level 100001
    → 100001 ≤ fuel + p.level
    → IsWords p
    → Climbs g (climb fuel g p) p
unfolding climb
climb-Climbs zero g p l t low high f w =
    let no : 100001 ≤ 100000 = omega (arith, t, f) in absurd (omega (arith, no))
climb-Climbs (suc fuel) g p l t low high f w =
    elim (Bool-cases (leb (get_exp_for_level (p.level + 1)) p.experience)) [
      | inr a ↦
          let at : IsAt p = record { least = l; top = t; low = low; high = ground (arith, a) } in
          (0, p, rw (climb, a) refl, Rises-zero g p w, refl, at)
      | inl a ↦ elim (Bool-cases (ltb p.level 100000)) [
        | inl b ↦
            let (n, q, k, r, e, at) =
              climb-Climbs fuel g (rise g p) (omega (arith, l)) (ground (arith, b))
                (ground (arith, a)) high (omega (arith, f)) (rise-IsWords g p) in
            (suc n, q, rw (climb, a) k, Rises-suc g n p q r, e, at)
        | inr b ↦
            let last : p.level + 1 ≡ 100001 = ground (arith, b, t) in
            let over : get_exp_for_level 100001 ≤ p.experience =
              subst (λ m. get_exp_for_level m ≤ p.experience) last (ground (arith, a)) in
            absurd (omega (arith, over, high))
      ]
    ]

-- addExperience ends, in at most a round for each level up to 100001: for a player at the level of
-- the experience, who has less than the experience of level 100001 afterwards, the new level is that
-- of the new experience, and health and mana and their greatest values rise by the gains of each
-- level that is new, modulo 2 ^ 32.
pub add_experience-Climbs :
    (fuel : ℕ) (g : Gains) (exp : ℕ) (p : Progress)
    → IsAt p
    → IsWords p
    → p.experience + exp < get_exp_for_level 100001
    → 100001 ≤ fuel + p.level
    → Climbs g (add_experience fuel g exp p) (record p { experience = p.experience + exp })
unfolding add_experience
add_experience-Climbs fuel g exp p at words high f =
    let least = at.least in
    let top = at.top in
    let low = at.low in
    let limit : get_exp_for_level 100001 < 2 ^ 64 = exp_limit in
    let w : (p.experience + exp) % 2 ^ 64 ≡ p.experience + exp = omega (arith, high, limit) in
    let up = level_le p.level (p.level + 1) least (omega arith) (omega (arith, top)) in
    let no : ltb (get_exp_for_level (p.level + 1)) (get_exp_for_level p.level) ≡ false =
      ground (arith, up) in
    let q : Progress = record p { experience = p.experience + exp } in
    let words' : IsWords q = record {
      health_max = words.health_max;
      health = words.health;
      mana_max = words.mana_max;
      mana = words.mana;
    } in
    let r = climb-Climbs fuel g q least top (omega (arith, low)) high f words' in
    rw (add_experience, w, no) r

-- The levels of a player as they were before they rose.
abbrev pub brought_back : Progress → Progress → Progress
brought_back p q = record q { level = p.level; health_max = p.health_max; mana_max = p.mana_max }

one_less : (a b n c : ℕ) → a ≡ (b + suc n * c) % 2 ^ 32 → minus a c ≡ (b + n * c) % 2 ^ 32
one_less a b n c h = let e : suc n * c ≡ c + n * c = grind arith in omega (arith, h, e)

-- Levels up without those of health and mana.
pub record Above (g : Gains) (n : ℕ) (p q : Progress) : Type 0 where
  pub level : q.level ≡ p.level + n
  pub health_max : q.health_max ≡ (p.health_max + n * g.hp) % 2 ^ 32
  pub mana_max : q.mana_max ≡ (p.mana_max + n * g.mana) % 2 ^ 32

-- With the experience that it had, a player falls to the level that it was at.
pub descend-Above :
    (n k : ℕ) (g : Gains) (p q : Progress)
    → IsAt p
    → IsWords p
    → q.experience ≡ p.experience
    → Above g n p q
    → p.level + n ≤ 100001
    → n < k
    → descend k g q ≡ brought_back p q
unfolding descend
descend-Above n zero g p q at words e r top lt = let no : n < 0 = lt in absurd (omega (arith, no))
descend-Above zero (suc k) g p q at words e r top lt =
    let l : q.level ≡ p.level = (let a = r.level in omega (arith, a)) in
    let low : get_exp_for_level q.level ≤ q.experience =
      subst (λ m. get_exp_for_level m ≤ q.experience) (sym l)
        (let a = at.low in omega (arith, a, e)) in
    let stays : ltb q.experience (get_exp_for_level q.level) ≡ false = ground (arith, low) in
    let hm : q.health_max ≡ p.health_max = omega (arith, r.health_max, words.health_max) in
    let mm : q.mana_max ≡ p.mana_max = omega (arith, r.mana_max, words.mana_max) in
    let same : q ≡ brought_back p q =
      λ i. record q { level = l i; health_max = hm i; mana_max = mm i } in
    elim (Bool-cases (ltb 1 q.level)) [
      | inl a ↦ let d : descend (suc k) g q ≡ q = rw (descend, a, stays) refl in d ∙ same
      | inr a ↦ let d : descend (suc k) g q ≡ q = rw (descend, a) refl in d ∙ same
    ]
descend-Above (suc n) (suc k) g p q at words e r top lt =
    let l = r.level in
    let least = at.least in
    let more : ltb 1 q.level ≡ true = ground (arith, l, least) in
    let next =
      level_le (p.level + 1) q.level (omega arith) (omega (arith, l)) (omega (arith, l, top)) in
    let high = at.high in
    let falls : ltb q.experience (get_exp_for_level q.level) ≡ true =
      ground (arith, next, high, e) in
    let below : Above g n p (fall g q) = record {
      level = omega (arith, l);
      health_max = one_less q.health_max p.health_max n g.hp r.health_max;
      mana_max = one_less q.mana_max p.mana_max n g.mana r.mana_max;
    } in
    let d : descend (suc k) g q ≡ descend k g (fall g q) = rw (descend, more, falls) refl in
    d ∙ descend-Above n k g p (fall g q) at words e below (omega (arith, top)) (omega (arith, lt))
