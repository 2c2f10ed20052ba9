-- ===== src/Party/Shared.antt =====
-- Shared experience of a party (source/party.cpp: canUseSharedExperience, canEnableSharedExperience,
-- addPlayerHealedMember, addPlayerDamageMonster, clearPlayerPoints).
use othire.Base.{
  ℕ, ◌+◌, ◌-◌, ◌*◌, ◌/◌, ◌%◌, ◌^◌, List, [], ◌∷◌, Bool, true, false, not, ◌&&◌, leb, ◌==◌,
  if◌then◌else◌, Option, none, some, max,
}

-- CountBlock_t; the totals are the bits of an int32_t.
pub record CountBlock : Type 0 where
  pub total_heal : ℕ
  pub total_damage : ℕ
  pub ticks : ℕ

abbrev pub CountMap : Type 0
CountMap = List (ℕ × CountBlock)

-- What a member's use of shared experience depends on: isRemoved, level, position and
-- PlayerFlag_NotGainInFight.
pub record Fighter : Type 0 where
  pub is_removed : Bool
  pub level : ℕ
  pub x : ℕ
  pub y : ℕ
  pub z : ℕ
  pub not_gain_in_fight : Bool

abbrev pub find_points : ℕ → CountMap → Option CountBlock
find_points i [] = none
find_points i ((j, cb) ∷ rest) = let found = find_points i rest in if i == j then some cb else found

abbrev pub set_points : ℕ → CountBlock → CountMap → CountMap
set_points i b [] = (i, b) ∷ []
set_points i b ((j, cb) ∷ rest) =
    let changed = set_points i b rest in if i == j then (j, b) ∷ rest else (j, cb) ∷ changed

abbrev pub erase_points : ℕ → CountMap → CountMap
erase_points i [] = []
erase_points i ((j, cb) ∷ rest) =
    let changed = erase_points i rest in if i == j then rest else (j, cb) ∷ changed

-- The map after a player healed a member: addPlayerHealedMember, where points > 0.
unfoldable pub add_healed : (now i points : ℕ) → CountMap → CountMap
add_healed now i points m = elim (find_points i m) [
  | none ↦ set_points i (record { total_heal = points % 2 ^ 32; total_damage = 0; ticks = now }) m
  | some cb ↦
      set_points i (record cb { total_heal = (cb.total_heal + points) % 2 ^ 32; ticks = now }) m
]

-- The map after a player damaged a monster: addPlayerDamageMonster, where points > 0.
unfoldable pub add_damage : (now i points : ℕ) → CountMap → CountMap
add_damage now i points m = elim (find_points i m) [
  | none ↦ set_points i (record { total_heal = 0; total_damage = points % 2 ^ 32; ticks = now }) m
  | some cb ↦
      set_points i (record cb { total_damage = (cb.total_damage + points) % 2 ^ 32; ticks = now }) m
]

abbrev pub highest_level : (ℕ → Fighter) → ℕ → List ℕ → ℕ
highest_level f highest [] = highest
highest_level f highest (x ∷ xs) = highest_level f (max highest (f x).level) xs

-- The ceiling of two thirds; for levels below 2 ^ 20 the source's float gives this number.
unfoldable pub min_level : ℕ → ℕ
min_level highest = (highest * 2 + 2) / 3

-- Position::areInRange<30, 30, 1>
abbrev near : ℕ → ℕ → ℕ → Bool
near d a b = leb a (b + d) && leb b (a + d)

unfoldable pub are_in_range : Fighter → Fighter → Bool
are_in_range a b = near 30 a.x b.x && near 30 a.y b.y && near 1 a.z b.z

-- The player attacked or healed within the duration.
abbrev pub was_active : (now duration x : ℕ) → CountMap → Bool
was_active now duration x m = elim (find_points x m) [
  | none ↦ false
  | some cb ↦ leb (now - cb.ticks) duration
]

abbrev pub has_members : List ℕ → Bool
has_members [] = false
has_members (x ∷ xs) = true

-- canUseSharedExperience
unfoldable pub can_use :
    (now duration : ℕ) → (ℕ → Fighter) → (leader : ℕ) → List ℕ → CountMap → ℕ → Bool
unfolding min_level are_in_range
can_use now duration f leader members m x =
    not (f x).is_removed
    && has_members members
    && leb (min_level (highest_level f (f leader).level members)) (f x).level
    && are_in_range (f leader) (f x)
    && (if (f x).not_gain_in_fight then true else was_active now duration x m)

abbrev pub all_can : (ℕ → Bool) → List ℕ → Bool
all_can can [] = true
all_can can (x ∷ xs) = can x && all_can can xs

-- canEnableSharedExperience
unfoldable pub can_enable :
    (now duration : ℕ) → (ℕ → Fighter) → (leader : ℕ) → List ℕ → CountMap → Bool
unfolding can_use
can_enable now duration f leader members m =
    has_members members
    && can_use now duration f leader members m leader
    && all_can (can_use now duration f leader members m) members
