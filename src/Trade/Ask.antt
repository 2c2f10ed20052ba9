-- ===== src/Trade/Ask.antt =====
-- Asking for a trade (source/game.cpp: playerRequestTrade).
use othire.Base.{
  ℕ, ◌+◌, List, [], ◌∷◌, Bool, true, false, not, ◌&&◌, ◌||◌, leb, ltb, ◌==◌, if◌then◌else◌, Option,
  none, some,
}
use othire.Trade.{World, Position, Surroundings, internal_start_trade}

-- Position::areInRange
abbrev pub in_range : (dx dy dz : ℕ) → Position → Position → Bool
in_range dx dy dz p q =
    (leb p.x (q.x + dx) && leb q.x (p.x + dx))
    && ((leb p.y (q.y + dy) && leb q.y (p.y + dy)) && (leb p.z (q.z + dz) && leb q.z (p.z + dz)))

module _ (s : Surroundings) where
  abbrev pub overlaps : ℕ → ℕ → Bool
  overlaps x y =
      x == y || ((s.is_container x && s.is_holding x y) || (s.is_container y && s.is_holding y x))

  -- The loop over tradeItems.
  abbrev pub is_traded : ℕ → List (ℕ × ℕ) → Bool
  is_traded x [] = false
  is_traded x ((y, q) ∷ es) = let rest = is_traded x es in if overlaps x y then true else rest

  -- playerRequestTrade, where internalGetThing returns an item or nothing. Where the item is too far
  -- away, the player is sent to it, and the request is made again from there.
  unfoldable pub player_request_trade :
      (p q : ℕ) → (thing : Option ℕ) → (sprite_id : ℕ) → World → Bool × World
  player_request_trade p q thing sprite_id w =
      if not (s.is_online p) || s.is_removed p
      then (false, w)
      else if not (s.is_online q) || q == p
      then (false, w)
      else if not (in_range 2 2 0 (s.position q) (s.position p))
      then (false, w)
      else if not (s.can_throw q p)
      then (false, w)
      else elim thing [
        | none ↦ (false, w)
        | some x ↦
            if not (s.client_id x == sprite_id)
              || (not (s.is_pickupable x) || not (s.unique_id x == 0))
            then (false, w)
            else if ltb (s.item_position x).z (s.position p).z
            then (false, w)
            else if ltb (s.position p).z (s.item_position x).z
            then (false, w)
            else if not (in_range 1 1 0 (s.item_position x) (s.position p))
            then (s.has_path p x, w)
            else if is_traded x w.trade_items
            then (false, w)
            else if s.is_container x && ltb 100 (s.holding_count x + 1)
            then (false, w)
            else internal_start_trade p q x w
      ]
