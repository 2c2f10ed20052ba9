-- ===== src/FileLoader/Total.antt =====
-- The reader on any file of less than 4 GiB: it ends within its fuel, and the properties of every
-- node that it accepts can be read.
use othire.Base.{
  ℕ, zero, suc, ◌+◌, ◌^◌, ◌≤◌, ◌<◌, ◌≡◌, refl, ap, ◌∙◌, subst, List, [], ◌∷◌, ◌++◌, append_assoc,
  length, get_elem?, some, get_elem?-lt, true, false, ◌==◌, arith, Bool-cases, Option-cases, inl,
  inr,
}
use othire.FileLoader.{
  Frame, frame, Node, no_node, Outcome, parsed, failed, out_of_fuel, enter, scan, open_child, close,
  skip, with_node, node_start, node_end, escape_char, open_file,
}
use othire.FileLoader.Segment.{Clean, nil, plain, escaped, segment, segment-suc}
use othire.FileLoader.Sound.{
  Readable, IsSound, Good, Good-mono, closed-Readable, unset, extend-IsSound, frame-IsSound,
  child-IsSound,
}

module _ (content : List ℕ) (small : length content < 2 ^ 32) where
  module _ (fuel : ℕ)
      (loop : (s : Frame) (pos : ℕ)
        → IsSound content s pos
        → length content < fuel + pos
        → Good content pos (scan content fuel s pos)) where
    enter-Good :
        (start pos : ℕ)
        → pos ≡ start + 1
        → length content < fuel + pos
        → Good content pos (enter content (scan content fuel) start pos)
    enter-Good start pos e h = elim (Option-cases (get_elem? content pos)) [
      | inl end ↦ rw (end, enter) tt
      | inr (type, here) ↦
          let inside = get_elem?-lt content pos type here in
          rw (here, enter)
            (Good-mono content _ (omega arith) (
              loop (frame start type) (pos + 1)
                (frame-IsSound content start type (pos + 1) (omega arith) (omega arith))
                (omega arith)))
    ]

    -- what follows a node that was read
    with_node-Good :
        (o : Outcome) (k : Node → ℕ → Outcome) (pos pos₁ : ℕ)
        → Good content pos₁ o
        → ((n : Node) (pos' : ℕ) → Good content pos₁ (parsed n pos') → Good content pos (k n pos'))
        → Good content pos (with_node o k)
    with_node-Good (parsed n p) k pos pos₁ g h = h n p g
    with_node-Good (failed e) k pos pos₁ g h = tt
    with_node-Good out_of_fuel k pos pos₁ g h = g

    open_child-Good :
        (s : Frame) (pos : ℕ)
        → IsSound content s pos
        → s.set_props_size ≡ false
        → length content < suc fuel + pos
        → Good content pos (open_child content (scan content fuel) s pos)
    unfolding open_child
    open_child-Good s pos v open_yet h =
        with_node-Good _ _ pos (pos + 1) (enter-Good pos (pos + 1) refl (omega arith))
          λ child pos' g.
            Good-mono content _ (omega (arith, g.1)) (
              loop _ pos' (child-IsSound content s pos pos' child v open_yet g)
                (omega (arith, g.1)))

    close-Good :
        (s : Frame) (pos : ℕ)
        → IsSound content s pos
        → pos < length content
        → length content < suc fuel + pos
        → Good content pos (close content (scan content fuel) s pos)
    unfolding close
    close-Good s pos v inside h = elim (Option-cases (get_elem? content (pos + 1))) [
      | inl end ↦
          rw (end, close)
            (closed-Readable content s pos no_node small v tt, omega arith, omega arith, inl end)
      | inr (b, here) ↦
          rw (here, close)
            (elim (Bool-cases (b == node_start)) [
              | inl start ↦ rw start (
                  with_node-Good _ _ pos (pos + 2)
                    (enter-Good (pos + 1) (pos + 2) (omega arith) (omega arith))
                    λ next pos' g. (
                      closed-Readable content s pos next small v g.0,
                      omega (arith, g.1),
                      g.2,
                      g.3,
                    ))
              | inr other ↦ rw other (elim (Bool-cases (b == node_end)) [
                | inl up ↦
                    let stop : b ≡ node_end = ground arith in
                    rw up (
                      closed-Readable content s pos no_node small v tt,
                      omega arith,
                      omega arith,
                      inr (here ∙ ap some stop),
                    )
                | inr bad ↦ rw bad tt
              ])
            ])
    ]

    -- k bytes of properties
    step-Good :
        (s : Frame) (pos k : ℕ) (xs : List ℕ)
        → IsSound content s pos
        → s.set_props_size ≡ false
        → 0 < k
        → pos + k ≤ length content
        → segment content (s.start + 2) (pos + k) ≡ segment content (s.start + 2) pos ++ xs
        → Clean xs
        → length content < suc fuel + pos
        → Good content pos (scan content fuel s (pos + k))
    step-Good s pos k xs v open_yet some_bytes inside e c h =
        Good-mono content _ (omega arith)
          (loop s (pos + k) (extend-IsSound content s pos k xs v open_yet inside e c) (omega arith))

    skip-Good :
        (s : Frame) (pos : ℕ)
        → IsSound content s pos
        → s.set_props_size ≡ false
        → (b : ℕ) → get_elem? content pos ≡ some b
        → (b == escape_char) ≡ true
        → length content < suc fuel + pos
        → Good content pos (skip content (scan content fuel) s pos)
    unfolding skip
    skip-Good s pos v open_yet b here escape h = elim (Option-cases (get_elem? content (pos + 1))) [
      | inl end ↦ rw (end, skip) tt
      | inr (c, there) ↦
          let e₁ = segment-suc content (s.start + 2) pos b v.begun here in
          let e₂ = segment-suc content (s.start + 2) (pos + 1) c (omega (arith, v.begun)) there in
          let two : pos + 1 + 1 ≡ pos + 2 = omega arith in
          let b_is : b ≡ escape_char = ground arith in
          let inside = get_elem?-lt content (pos + 1) c there in
          rw (there, skip)
            (step-Good s pos 2 (escape_char ∷ c ∷ []) v open_yet (omega arith) (omega arith)
              (subst
                (λ i.
                  segment content (s.start + 2) i
                  ≡ segment content (s.start + 2) pos ++ escape_char ∷ c ∷ [])
                two
                (e₂
                  ∙ ap (λ xs. xs ++ c ∷ []) e₁
                  ∙ append_assoc (segment content (s.start + 2) pos) (b ∷ []) (c ∷ [])
                  ∙ ap (λ x. segment content (s.start + 2) pos ++ x ∷ c ∷ []) b_is))
              (escaped c nil) h)
    ]

    -- one round
    round-Good :
        (s : Frame) (pos : ℕ)
        → IsSound content s pos
        → length content < suc fuel + pos
        → Good content pos (scan content (suc fuel) s pos)
    unfolding scan
    round-Good s pos v h = elim (Option-cases (get_elem? content pos)) [
      | inl end ↦ rw (end, scan) tt
      | inr (b, here) ↦
          let inside = get_elem?-lt content pos b here in
          rw (here, scan)
            (elim (Bool-cases (b == node_start)) [
              | inl start ↦
                  let open_yet = unset content s pos b v here (ground arith) in
                  rw start (open_child-Good s pos v open_yet h)
              | inr e₁ ↦ rw e₁ (elim (Bool-cases (b == node_end)) [
                | inl end ↦ rw end (close-Good s pos v inside h)
                | inr e₂ ↦ rw e₂ (elim (Bool-cases (b == escape_char)) [
                  | inl escape ↦
                      rw escape
                        (skip-Good s pos v (unset content s pos b v here e₂) b here escape h)
                  | inr ordinary ↦ rw ordinary (
                      step-Good s pos 1 (b ∷ []) v (unset content s pos b v here e₂) (omega arith)
                        (omega arith) (segment-suc content (s.start + 2) pos b v.begun here)
                        (plain b ordinary nil) h)
                ])
              ])
            ])
    ]

  scan-Good :
      (fuel : ℕ) (s : Frame) (pos : ℕ)
      → IsSound content s pos
      → length content < fuel + pos
      → Good content pos (scan content fuel s pos)
  scan-Good zero s pos v h = absurd (omega (arith, v.inside))
  scan-Good (suc fuel) s pos v h = round-Good fuel (scan-Good fuel) s pos v h

-- what openFile returns: a tree that can be read, or an error
abbrev pub Opens : List ℕ → Outcome → Type 0
Opens content (parsed n pos) = Readable content n × (pos ≤ length content)
Opens content (failed e) = Unit {0}
Opens content out_of_fuel = ⊥

Good-Opens : (content : List ℕ) (o : Outcome) (pos : ℕ) → Good content pos o → Opens content o
Good-Opens content (parsed n pos') pos g = (g.0, g.2)
Good-Opens content (failed e) pos g = tt
Good-Opens content out_of_fuel pos g = g

-- On any file of less than 4 GiB openFile comes to an end: it fails, or returns a tree of nodes such
-- that getProps succeeds on each of them, and a position inside the file.
pub open_file-Opens :
    (content accept : List ℕ) → length content < 2 ^ 32 → Opens content (open_file content accept)
unfolding open_file
open_file-Opens content accept small = ground (arith, opened, get_elem?-lt content 4 node_start)
  where
    opened : Opens content (enter content (scan content (length content + 1)) 4 5)
    opened = Good-Opens content _ 5 (
        enter-Good content small (length content + 1) (scan-Good content small (length content + 1))
          4 5 refl (omega arith))
