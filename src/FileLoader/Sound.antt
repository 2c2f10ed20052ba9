-- ===== src/FileLoader/Sound.antt =====
-- What the reader knows of the nodes that it is building, round by round.
use othire.Base.{
  ℕ, ◌+◌, ◌-◌, ◌^◌, ◌<◌, ◌≤◌, ◌≡◌, sym, ◌∙◌, subst, List, ◌++◌, length, take, drop, get_elem?, none,
  some, true, false, ◌==◌, if◌then◌else◌, arith, ◌⊎◌,
}
use othire.FileLoader.{
  Frame, frame, Node, no_node, node, Outcome, parsed, failed, out_of_fuel, closed, node_end, props,
  unescape, get_props,
}
use othire.FileLoader.Load.{get_props-unescape}
use othire.FileLoader.Segment.{Clean, nil, Clean-append, Clean-unescape, segment}

module _ (content : List ℕ) where
  -- Every node of the tree has properties that getProps can read.
  abbrev pub Readable : Node → Type 0
  Readable no_node = Unit {0}
  Readable (node start size type child next) =
      ((ps : List ℕ) × (get_props content (node start size type child next) ≡ props ps))
      × Readable child
      × Readable next

  Clean-get_props :
      (start size type : ℕ) (child next : Node)
      → length content < 2 ^ 32
      → start + 2 + size ≤ length content
      → Clean (segment content (start + 2) (start + 2 + size))
      → (ps : List ℕ) × (get_props content (node start size type child next) ≡ props ps)
  Clean-get_props start size type child next small h c =
      let (ps, run) = Clean-unescape c in
      let e : start + 2 + size - (start + 2) ≡ size = omega arith in
      (
        ps,
        get_props-unescape content start size type child next (omega arith) (omega arith)
            ∙ subst (λ k. unescape (take k (drop (start + 2) content)) ≡ props ps) e run,
      )

  -- the properties of the node under way: found already, or up to here
  abbrev pub props_end : Frame → ℕ → ℕ
  props_end s pos = if s.set_props_size then s.start + 2 + s.props_size else pos

  -- the end of the file, or of a node
  abbrev pub AtStop : ℕ → Type 0
  AtStop pos = (get_elem? content pos ≡ none) ⊎ (get_elem? content pos ≡ some node_end)

  pub record IsSound (s : Frame) (pos : ℕ) : Type 0 where
    pub begun : s.start + 2 ≤ pos
    pub inside : pos ≤ length content
    pub bounded : props_end s pos ≤ pos
    pub begins : s.start + 2 ≤ props_end s pos
    pub clean : Clean (segment content (s.start + 2) (props_end s pos))
    pub below : Readable s.child
    pub closing : s.set_props_size ≡ true → AtStop pos

  -- what the loop may return from `pos` on
  abbrev pub Good : ℕ → Outcome → Type 0
  Good pos (parsed n pos') = Readable n × (pos ≤ pos') × (pos' ≤ length content) × AtStop pos'
  Good pos (failed e) = Unit {0}
  Good pos out_of_fuel = ⊥

  pub Good-mono : (o : Outcome) {pos pos' : ℕ} → pos ≤ pos' → Good pos' o → Good pos o
  Good-mono (parsed n p) h (r, g, i, a) = (r, omega arith, i, a)
  Good-mono (failed e) h g = tt
  Good-mono out_of_fuel h g = g

  pub closed-Readable :
      (s : Frame) (pos : ℕ) (next : Node)
      → length content < 2 ^ 32
      → IsSound s pos
      → Readable next
      → Readable (closed content s pos next)
  closed-Readable s pos next small v r =
      let size = if s.set_props_size then s.props_size else pos - s.start - 2 in
      let e : props_end s pos ≡ s.start + 2 + size = ground (arith, v.begun) in
      (
        Clean-get_props s.start size s.type s.child next small (omega arith)
            (subst (λ i. Clean (segment content (s.start + 2) i)) e v.clean),
        v.below,
        r,
      )

  -- Once a child has been met, only the end of the node can follow.
  pub unset :
      (s : Frame) (pos b : ℕ)
      → IsSound s pos
      → get_elem? content pos ≡ some b
      → (b == node_end) ≡ false
      → s.set_props_size ≡ false
  unset s pos b v here other = ground (arith, v.closing)

  -- An ordinary byte, or an escape with its byte, belongs to the properties.
  pub extend-IsSound :
      (s : Frame) (pos k : ℕ) (xs : List ℕ)
      → IsSound s pos
      → s.set_props_size ≡ false
      → pos + k ≤ length content
      → (segment content (s.start + 2) (pos + k) ≡ segment content (s.start + 2) pos ++ xs)
      → Clean xs
      → IsSound s (pos + k)
  extend-IsSound s pos k xs v open_yet inside e c =
      let here : props_end s pos ≡ pos = ground arith in
      let there : props_end s (pos + k) ≡ pos + k = ground arith in
      record {
        begun = omega (arith, v.begun);
        inside = inside;
        bounded = omega arith;
        begins = omega (arith, v.begun);
        clean =
            subst (λ i. Clean (segment content (s.start + 2) i)) (sym there)
              (subst Clean (sym e) (
                Clean-append xs (subst (λ i. Clean (segment content (s.start + 2) i)) here v.clean)
                  c));
        below = v.below;
        closing = λ t. cc;
      }

  pub frame-IsSound :
      (start type pos : ℕ) → pos ≡ start + 2 → pos ≤ length content → IsSound (frame start type) pos
  frame-IsSound start type pos e h = record {
    begun = omega arith;
    inside = h;
    bounded = omega arith;
    begins = omega arith;
    clean = let none_yet : pos - (start + 2) ≡ 0 = omega arith in rw none_yet nil;
    below = tt;
    closing = λ t. cc;
  }

  pub child-IsSound :
      (s : Frame) (pos pos' : ℕ) (child : Node)
      → IsSound s pos
      → s.set_props_size ≡ false
      → Good (pos + 1) (parsed child pos')
      → IsSound
          (record s { props_size = pos - s.start - 2; set_props_size = true; child = child })
          pos'
  child-IsSound s pos pos' child v open_yet (r, forward, inside, stop) =
      let here : props_end s pos ≡ pos = ground arith in
      let there : s.start + 2 + (pos - s.start - 2) ≡ pos = omega (arith, v.begun) in
      record {
        begun = omega (arith, v.begun);
        inside = inside;
        bounded = omega arith;
        begins = omega arith;
        clean = subst (λ i. Clean (segment content (s.start + 2) i)) (here ∙ sym there) v.clean;
        below = r;
        closing = λ t. stop;
      }
