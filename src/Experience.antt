-- ===== src/Experience.antt =====
-- The experience of a player (source/player.h, source/player.cpp: getExpForLevel, addExperience,
-- removeExperience). Levels are 1 and more. Health and mana are int32_t, given as their 32 bits: from
-- 2 ^ 31 on they stand for negative numbers. The capacity, which is a double, the percentage on the
-- way to the next level, which is computed with doubles, the messages and the script events are left
-- out. A difference that leaves the range of int32_t is undefined in the source.
pub mod Levels
pub mod Climb
pub mod Back
mod Tests
use othire.Base.{
  ℕ, zero, suc, ◌+◌, ◌-◌, ◌*◌, ◌/◌, ◌%◌, ◌^◌, Bool, true, false, leb, ltb, if◌then◌else◌, Option,
  none, some, min, ◌==◌, ◌&&◌, not,
}

-- The fields of Player that experience changes.
pub record Progress : Type 0 where
  pub experience : ℕ
  pub level : ℕ
  pub vocation_id : ℕ
  pub health_max : ℕ
  pub health : ℕ
  pub mana_max : ℕ
  pub mana : ℕ

-- getHPGain and getManaGain of the vocation
pub record Gains : Type 0 where
  pub hp : ℕ
  pub mana : ℕ

-- The sums are of uint64_t.
unfoldable pub get_exp_for_level : ℕ → ℕ
get_exp_for_level level =
    let l = level - 1 in (50 * l * l * l + (2 ^ 64 - 150 * l * l % 2 ^ 64) + 400 * l) % 2 ^ 64 / 3

-- The sum and the difference of two words of 32 bits.
abbrev pub plus : ℕ → ℕ → ℕ
plus a b = (a + b) % 2 ^ 32

abbrev pub minus : ℕ → ℕ → ℕ
minus a b = (a + (2 ^ 32 - b % 2 ^ 32)) % 2 ^ 32

-- One more level.
abbrev pub rise : Gains → Progress → Progress
rise g p = record p {
  level = p.level + 1;
  health_max = plus p.health_max g.hp;
  health = plus p.health g.hp;
  mana_max = plus p.mana_max g.mana;
  mana = plus p.mana g.mana;
}

-- The loop of addExperience, with newLevel as the level; none if the fuel runs out.
unfoldable pub climb : ℕ → Gains → Progress → Option Progress
climb zero g p = none
climb (suc fuel) g p =
    let rest = climb fuel g (rise g p) in
    if leb (get_exp_for_level (p.level + 1)) p.experience then rest else some p

-- addExperience
unfoldable pub add_experience : (fuel : ℕ) → Gains → (exp : ℕ) → Progress → Option Progress
add_experience fuel g exp p =
    let q = record p { experience = (p.experience + exp) % 2 ^ 64 } in
    if ltb (get_exp_for_level (q.level + 1)) (get_exp_for_level q.level)
    then some q
    else climb fuel g q

-- One level less.
abbrev pub fall : Gains → Progress → Progress
fall g p = record p {
  level = p.level - 1;
  health_max = minus p.health_max g.hp;
  mana_max = minus p.mana_max g.mana;
}

-- The loop of removeExperience; it counts down the level.
unfoldable pub descend : ℕ → Gains → Progress → Progress
descend zero g p = p
descend (suc n) g p =
    let rest = descend n g (fall g p) in
    if ltb 1 p.level then (if ltb p.experience (get_exp_for_level p.level) then rest else p) else p

-- What sendToRook changes of these fields.
abbrev pub send_to_rook : Progress → Progress
send_to_rook p = record p {
  experience = 0;
  level = 1;
  vocation_id = 0;
  health_max = 150;
  mana_max = 0;
}

-- `newLevel <= levelToRook` for a player with a vocation
abbrev pub is_rooked : ℕ → Progress → Bool
is_rooked level_to_rook p = leb p.level level_to_rook && not (p.vocation_id == 0)

-- `a < b` as int32_t
abbrev pub is_less : ℕ → ℕ → Bool
is_less a b = ltb ((a + 2 ^ 31) % 2 ^ 32) ((b + 2 ^ 31) % 2 ^ 32)

-- changeHealth and changeMana for a change of -n, which is not above 0
unfoldable pub lowered : ℕ → ℕ → ℕ
lowered value n = let left = minus value n in if leb (2 ^ 31) left then 0 else left

-- What is above the greatest value is taken away.
unfoldable pub clamp : ℕ → ℕ → ℕ
unfolding lowered
clamp value greatest = lowered value (if is_less greatest value then minus value greatest else 0)

-- What follows the loop of removeExperience, which began at the level `prev_level`.
unfoldable pub settle : (level_to_rook prev_level : ℕ) → (update_stats : Bool) → Progress → Progress
unfolding clamp
settle level_to_rook prev_level update_stats p =
    if p.level == prev_level
    then p
    else let r = if is_rooked level_to_rook p then send_to_rook p else p in
      if update_stats
      then record r { health = clamp r.health r.health_max; mana = clamp r.mana r.mana_max }
      else r

-- removeExperience
unfoldable pub remove_experience :
    (level_to_rook : ℕ) → Gains → (exp : ℕ) → (update_stats : Bool) → Progress → Progress
unfolding descend settle
remove_experience level_to_rook g exp update_stats p =
    settle level_to_rook p.level update_stats
      (descend p.level g (record p { experience = p.experience - min exp p.experience }))
