-- ===== src/FileLoader/RoundTrip.antt =====
-- A saved tree of nodes, read back by openFile. The types of the nodes are below ESCAPE_CHAR.
use othire.Base.{
  ℕ, ◌+◌, ◌-◌, ◌≡◌, refl, sym, ap, subst, List, [], ◌∷◌, ◌++◌, length, true, arith, ◌⊎◌, inl, inr,
}
use mathlib.Core.Path.{ap₂}
use othire.FileLoader.{Frame, frame, Node, no_node, node, parsed, Outcome, closed, node_end}
use othire.FileLoader.Forest.{Forest, no_tree, tree, bytes}
use othire.FileLoader.Layout.{width, place, end_offset, At-Layout}
use othire.FileLoader.Scan.{
  At, Scans, Enters, enter-Scans, encode-Scans, open-Scans, close_file-Scans, close_last-Scans,
  close_next-Scans,
}

module _ (content : List ℕ) where
  abbrev pub Reads : Forest → ℕ → Type 0
  Reads no_tree start = Unit {0}
  Reads (tree type ps children next) start = Enters content start (start + 1) (
      parsed (place start (tree type ps children next))
        (start + length (bytes (tree type ps children next))))

  -- A list of siblings ends at the end of the file or of their parent.
  abbrev pub Ends : List ℕ → Type 0
  Ends post = (post ≡ []) ⊎ ((more : List ℕ) × (post ≡ node_end ∷ more))

  abbrev with_children : Forest → ℕ → Frame → Frame
  with_children no_tree pos s = s
  with_children (tree type ps children next) pos s = record s {
    props_size = pos - s.start - 2;
    set_props_size = true;
    child = place pos (tree type ps children next);
  }

  children-Scans :
      (t : Forest) (s : Frame) (pos : ℕ) (xs : List ℕ) (r : Outcome)
      → At content pos (bytes t ++ xs)
      → Reads t pos
      → Scans content (with_children t pos s) (pos + length (bytes t)) r
      → Scans content s pos r
  unfolding bytes
  children-Scans no_tree s pos xs r h inner k = subst (λ p. Scans content s p r) (omega arith) k
  children-Scans (tree type ps children next) s pos xs r h inner k =
      open-Scans content s pos _ _ _ r h (omega arith) inner k

  finish :
      (t : Forest) (s : Frame) (pos : ℕ) (post : List ℕ)
      → At content pos (node_end ∷ (bytes t ++ post))
      → Ends post
      → Reads t (pos + 1)
      → Scans content s pos
          (parsed (closed content s pos (place (pos + 1) t)) (pos + 1 + length (bytes t)))
  unfolding bytes place
  finish no_tree s pos post h (inl e) inner =
      subst (λ p. Scans content s pos (parsed (closed content s pos no_node) p)) (omega arith)
        (close_file-Scans content s pos (subst (λ xs. At content pos (node_end ∷ xs)) e h))
  finish no_tree s pos post h (inr (more, e)) inner =
      subst (λ p. Scans content s pos (parsed (closed content s pos no_node) p)) (omega arith)
        (close_last-Scans content s pos more (subst (λ xs. At content pos (node_end ∷ xs)) e h))
  finish (tree type ps children next) s pos post h e inner =
      close_next-Scans content s pos _ _ _ h (
        subst
          (λ p. Enters content (pos + 1) p (
            parsed (place (pos + 1) (tree type ps children next))
              (pos + 1 + length (bytes (tree type ps children next)))))
          (omega arith) inner)

  closed_lem :
      (t : Forest) (start type size pos : ℕ) (next : Node)
      → pos ≡ start + 2 + size
      → closed content (with_children t pos (frame start type)) (pos + length (bytes t)) next
        ≡ node start size type (place pos t) next
  unfolding bytes place
  closed_lem no_tree start type size pos next e = ground arith
  closed_lem (tree type' ps children sibling) start type size pos next e =
      ap (λ n. node start n type (place pos (tree type' ps children sibling)) next) (omega arith)

  pub forest-Reads :
      (t : Forest) (start : ℕ) (post : List ℕ)
      → At content start (bytes t ++ post)
      → Ends post
      → Reads t start
  unfolding bytes place
  forest-Reads no_tree start post h e = tt
  forest-Reads (tree type ps children next) start post h e =
      let l = At-Layout content start type ps children next post h in
      let p = start + 2 + width ps in
      let q = p + length (bytes children) in
      let first = frame start type in
      let s = with_children children p first in
      let r = parsed (closed content s q (place (q + 1) next)) (q + 1 + length (bytes next)) in
      let done : Scans content s q r =
        finish next s q post l.at_end e (forest-Reads next (q + 1) post l.at_behind e) in
      let below_read = forest-Reads children p _ l.at_below (inr (bytes next ++ post, refl)) in
      let body = children-Scans children first p _ r l.at_below below_read done in
      let all = encode-Scans content ps _ first (start + 2) r l.at_props body in
      subst (Enters content start (start + 1))
        (ap₂ parsed (closed_lem children start type (width ps) p _ refl)
          (sym (end_offset start type ps children next)))
        (enter-Scans content start (start + 1) type _ _ l.at_type
          (subst (λ i. Scans content first i r) (omega arith) all))
