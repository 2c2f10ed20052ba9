-- ===== src/Experience/Tests.antt =====
-- Runs of addExperience and removeExperience, and the theorems at a concrete input.
use othire.Base.{◌<◌, some, ◌≡◌, refl, true, arith}
use othire.Experience.{
  Progress, Gains, get_exp_for_level, climb, add_experience, descend, lowered, clamp, settle,
  remove_experience,
}
use othire.Experience.Climb.{IsAt, IsWords, Climbs, add_experience-Climbs}

abbrev knight : Gains
knight = record { hp = 15; mana = 5 }

-- Level 8 begins at 4200.
abbrev rookie : Progress
rookie = record {
  experience = 4300;
  level = 8;
  health_max = 185;
  health = 100;
  mana_max = 35;
  mana = 5;
  vocation_id = 4;
}

eighth : get_exp_for_level 8 ≡ 4200
unfolding get_exp_for_level
eighth = refl

abbrev advanced : Progress
advanced = record {
  experience = 9300;
  level = 10;
  health_max = 215;
  health = 130;
  mana_max = 45;
  mana = 15;
  vocation_id = 4;
}

two_levels : add_experience 5 knight 5000 rookie ≡ some advanced
unfolding add_experience climb get_exp_for_level
two_levels = refl

back_again :
    remove_experience 5 knight 5000 true (record advanced { health = 200 })
    ≡ record rookie { health = 185; mana = 15 }
unfolding remove_experience descend settle clamp lowered get_exp_for_level
back_again = refl

rookie-IsAt : IsAt rookie
unfolding get_exp_for_level
rookie-IsAt = record {
  least = omega arith;
  top = omega arith;
  low = omega arith;
  high = omega arith;
}

rookie-IsWords : IsWords rookie
rookie-IsWords = record {
  health_max = omega arith;
  health = omega arith;
  mana_max = omega arith;
  mana = omega arith;
}

-- A knight who falls to level 5 is rooked.
rooked : (remove_experience 5 knight 3500 true rookie).level ≡ 1
unfolding remove_experience descend settle clamp lowered get_exp_for_level
rooked = refl

within_limit : 9300 < get_exp_for_level 100001
unfolding get_exp_for_level
within_limit = omega arith

add_experience-Climbs_example :
    Climbs knight (add_experience 100000 knight 5000 rookie) (record rookie { experience = 9300 })
add_experience-Climbs_example =
    add_experience-Climbs 100000 knight 5000 rookie rookie-IsAt rookie-IsWords within_limit
      (omega arith)
