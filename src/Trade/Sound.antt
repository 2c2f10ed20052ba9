-- ===== src/Trade/Sound.antt =====
-- The trades stay sound over any calls in a row (source/game.cpp, source/player.cpp).
use othire.Base.{List, [], ◌∷◌, refl}
use othire.Trade.{World, Surroundings, idle}
use othire.Trade.Pairs.{IsSound}
use othire.Trade.Close.{internal_close_trade-IsSound}
use othire.Trade.Request.{player_request_trade-IsSound}
use othire.Trade.Agree.{player_accept_trade-IsSound}
use othire.Trade.Runs.{Call, step, run}
use othire.Trade.Steps.{step_keeps}

-- Nobody trades.
abbrev pub initial : World
initial = record {
  traders = λ p. idle;
  trade_items = [];
  use_count = λ x. 0;
  to_release = [];
  moves = [];
}

initial-IsSound : IsSound initial
unfolding IsSound
initial-IsSound = (λ p. (refl, refl), (λ x. refl, λ p. tt))

pub step-IsSound : (s : Surroundings) (c : Call) (w : World) → IsSound w → IsSound (step s c w)
step-IsSound s c w h =
    step_keeps IsSound internal_close_trade-IsSound player_request_trade-IsSound s c w
      (λ p e. player_accept_trade-IsSound s p w h) h

pub run-step-IsSound :
    (cs : List (Surroundings × Call)) (w : World) → IsSound w → IsSound (run cs w)
unfolding run
run-step-IsSound [] w h = h
run-step-IsSound ((s, c) ∷ cs) w h = run-step-IsSound cs (step s c w) (step-IsSound s c w h)

-- After any calls from a world in which nobody trades: a player either is idle, or trades with
-- another player whose partner it is, at least one of the two offers an item, and not both have
-- accepted; an item is listed in tradeItems exactly for the player whose trade it is; and every
-- use of an item by useThing2 is matched by one FreeThing, but for one use of each item that is listed.
pub run-IsSound : (cs : List (Surroundings × Call)) → IsSound (run cs initial)
run-IsSound cs = run-step-IsSound cs initial initial-IsSound
