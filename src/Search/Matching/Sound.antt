-- ===== src/Search/Matching/Sound.antt =====
-- That getPathMatching ends, and that its way can be walked to a place near the target
-- (source/map.cpp).
use othire.Base.{
  some_injective, ℕ, zero, suc, ◌<◌, ◌≤◌, ◌≡◌, refl, sym, subst, ◌∙◌, List, [], ◌∷◌, Bool, true,
  false, ◌&&◌, ◌==◌, if◌then◌else◌, Option, none, some, length, get_elem?, arith, ◌⊎◌, inl, inr,
  Option-cases, Bool-cases,
}
use mathlib.Core.Path.{ap₂}
use othire.Search.{AStarNode, Terrain, Direction, get_best_node, close_node, max_nodes}
use othire.Search.Way.{search_fuel}
use othire.Search.Best.{get_best_node-IsBest}
use othire.Search.Invariant.{AreGood, IsGood, Improves, close_node-AreGood, close_node-Improves}
use othire.Search.Change.{Change, Change-Improves}
use othire.Search.Measure.{measure, IsBelow, Change-IsBelow, close_node-measure}
use othire.Search.Trace.{Walks}
use othire.Search.Matching.{
  by_f, FindPathParams, condition, match_all, directions, goes_on, Found, is_some, Matched, stopped,
  gave_up, spent, match_search, trace_back, way_matched, first_node, get_path_matching,
}
use othire.Search.Matching.Visits.{match_all-keeps}
use othire.Search.Matching.Back.{trace_back-Walks}
use othire.Search.Matching.Goal.{IsGoal, condition-IsGoal}

module _ (t : Terrain) (fpp : FindPathParams) (is_clear : ℕ → ℕ → Bool) (xs ys xt yt : ℕ) where
  -- What was found is a node at a place that the condition holds of.
  abbrev IsKept : Found → List AStarNode → Type 0
  IsKept none nodes = zero ≡ zero
  IsKept (some (j, p)) nodes =
      (n : AStarNode) × (get_elem? nodes j ≡ some n)
      × (n.x ≡ p.0)
      × (n.y ≡ p.1)
      × IsGoal t fpp is_clear xs ys xt yt p.0 p.1

  IsKept-Improves :
      (o : Found) (nodes nodes' : List AStarNode)
      → Improves t by_f xs ys nodes nodes'
      → IsKept o nodes
      → IsKept o nodes'
  IsKept-Improves none nodes nodes' i h = h
  IsKept-Improves (some (j, p)) nodes nodes' i (n, e, px, py, goal) =
      let (n', e', ex, ey, le) = i.1 j n e in (n', e', ex ∙ px, ey ∙ py, goal)

  -- The search has ended with what it found, if anything, or was given up.
  abbrev Ends : Matched → Type 0
  Ends (stopped nodes o) = AreGood t by_f xs ys nodes × IsKept o nodes
  Ends gave_up = zero ≡ zero
  Ends spent = ⊥

  now_found-IsKept :
      (nodes : List AStarNode) (i best_match : ℕ) (n : AStarNode) (o : Found)
      → get_elem? nodes i ≡ some n
      → IsKept o nodes
      → IsKept
          (if (condition t fpp is_clear xs ys xt yt n.x n.y best_match).0
            then some (i, (n.x, n.y))
            else o)
          nodes
  now_found-IsKept nodes i best_match n o e kept =
      let r = condition t fpp is_clear xs ys xt yt n.x n.y best_match in
      elim (Bool-cases r.0) [
        | inl c ↦
            subst (λ b. IsKept (if b then some (i, (n.x, n.y)) else o) nodes) (sym c)
              (n, e, refl, refl, condition-IsGoal t fpp is_clear xs ys xt yt n.x n.y best_match c)
        | inr c ↦ subst (λ b. IsKept (if b then some (i, (n.x, n.y)) else o) nodes) (sym c) kept
      ]

  -- More rounds than the measure of the nodes are enough.
  match_search-Ends :
      (fuel : ℕ) (nodes : List AStarNode) (best_match : ℕ) (o : Found)
      → AreGood t by_f xs ys nodes
      → IsKept o nodes
      → length nodes ≤ max_nodes
      → measure by_f nodes < fuel
      → Ends (match_search t fpp is_clear xs ys xt yt fuel nodes best_match o)
  unfolding match_search
  match_search-Ends zero nodes best_match o all kept len lt =
      let no : measure by_f nodes < 0 = lt in ground (arith, no)
  match_search-Ends (suc fuel) nodes best_match o all kept len lt =
      elim (Bool-cases (goes_on t fpp is_clear xs ys xt yt nodes)) [
        | inr a ↦ rw (match_search, a) (all, kept)
        | inl a ↦ elim (Option-cases (get_best_node nodes)) [
          | inl b ↦ elim (Bool-cases (is_some o)) [
            | inl c ↦ rw (match_search, a, b, c) (all, kept)
            | inr c ↦ rw (match_search, a, b, c) refl
          ]
          | inr (i, b) ↦
              let (n, e, op, low, best) = get_best_node-IsBest nodes i b in
              let r = condition t fpp is_clear xs ys xt yt n.x n.y best_match in
              let now_found : Found = if r.0 then some (i, (n.x, n.y)) else o in
              let now_kept = now_found-IsKept nodes i best_match n o e kept in
              let dirs = directions t fpp is_clear xs ys xt yt in
              elim (Bool-cases (r.0 && r.1 == 0)) [
                | inl c ↦ rw (match_search, a, b, e, c) (all, now_kept)
                | inr c ↦
                    elim (Option-cases
                      (match_all t fpp is_clear xs ys xt yt (is_some now_found) i dirs nodes)) [
                        | inl v ↦ rw (match_search, a, b, e, c, v) refl
                        | inr (ns, v) ↦
                            let keeps : (ms ms' : List AStarNode)
                                → AreGood t by_f xs ys ms
                                → Change t by_f xs ys ms ms'
                                → IsBelow by_f (measure by_f nodes) i ms × IsKept now_found ms
                                → IsBelow by_f (measure by_f nodes) i ms' × IsKept now_found ms' =
                              λ ms ms' g ch p. (
                                Change-IsBelow by_f t xs ys (measure by_f nodes) i ms ms' g ch p.0,
                                IsKept-Improves now_found ms ms'
                                    (Change-Improves t by_f xs ys ms ms' ch) p.1,
                              ) in
                            let (good, (below, still)) =
                              match_all-keeps t fpp is_clear xs ys xt yt
                                (λ ms. IsBelow by_f (measure by_f nodes) i ms × IsKept now_found ms)
                                keeps (is_some now_found) nodes ns i dirs all
                                ((omega arith, len, (n, e, op)), now_kept) v in
                            let (lower, len') =
                              close_node-measure by_f t xs ys (λ m. refl) (measure by_f nodes) i ns
                                below in
                            let next =
                              match_search-Ends fuel (close_node i ns) r.1 now_found
                                (close_node-AreGood t by_f xs ys (λ m. refl) i ns good)
                                (IsKept-Improves now_found ns (close_node i ns)
                                  (close_node-Improves t by_f xs ys (λ m. refl) i ns) still)
                                len' (omega (arith, lower, lt)) in
                            rw (match_search, a, b, e, c, v) next
                      ]
              ]
        ]
      ]

  -- No way, or a way that can be walked, to a place near the target.
  abbrev pub MatchResult : Option (Bool × List Direction) → Type 0
  MatchResult r =
      (r ≡ some (false, []))
      ⊎ ((ds : List Direction) × (q : ℕ × ℕ) × (r ≡ some (true, ds))
          × IsGoal t fpp is_clear xs ys xt yt q.0 q.1
          × Walks t (xs, ys) ds q)

  way_matched-MatchResult : (o : Matched) → Ends o → MatchResult (way_matched o)
  way_matched-MatchResult spent h = elim h [ ]
  way_matched-MatchResult gave_up h = inl refl
  way_matched-MatchResult (stopped nodes none) h = inl refl
  way_matched-MatchResult (stopped nodes (some (i, p))) (all, (n, e, px, py, goal)) =
      let at : (ℕ × ℕ) → Type 0 = λ q. Walks t q [] p in
      let w = subst at (ap₂ (λ a b. (a, b)) (sym px) (sym py)) refl in
      let (ds, k, walks) =
        trace_back-Walks t xs ys n.f nodes n n.parent [] p all (all i n e).reached_from
          (omega arith) w in
      let k' : trace_back n.f nodes p.0 p.1 n.parent [] ≡ some ds =
        subst (λ (q : ℕ × ℕ). trace_back n.f nodes q.0 q.1 n.parent [] ≡ some ds)
          (ap₂ (λ a b. (a, b)) px py) k in
      inr (ds, p, rw (way_matched, e, k') refl, goal, walks)

  first-AreGood : AreGood t by_f xs ys (first_node xs ys ∷ [])
  first-AreGood zero n e =
      let s = first_node xs ys in
      let good : IsGood t by_f xs ys (s ∷ []) s = record {
        bounded = omega arith;
        reached_from = (refl, refl);
      } in
      subst (IsGood t by_f xs ys (s ∷ [])) (some_injective e) good
  first-AreGood (suc i) n e = cc

  -- getPathMatching ends within its fuel. It returns false and no directions, or true and directions
  -- that lead from the creature's position, one step each and over positions that the creature can
  -- walk to, to a place in range of the target, at one of the distances allowed, and in sight of the
  -- target if it has to be.
  pub get_path_matching-Walks : MatchResult (get_path_matching t fpp is_clear xs ys xt yt)
  unfolding get_path_matching
  get_path_matching-Walks = way_matched-MatchResult _ (
      match_search-Ends search_fuel (first_node xs ys ∷ []) 0 none first-AreGood refl (omega arith)
        (omega arith))
