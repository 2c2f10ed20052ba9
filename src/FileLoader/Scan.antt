-- ===== src/FileLoader/Scan.antt =====
-- One round of the reader at a time: what `scan` does at the bytes that it meets.
use othire.Base.{
  ℕ, zero, suc, ◌+◌, ◌-◌, ◌<◌, ◌≡◌, sym, ap, subst, ◌∙◌, List, [], ◌∷◌, ◌++◌, some, length,
  length-drop, drop, drop-append, drop-drop, get_elem?, get_elem?-drop, get_elem?-drop_nil, true,
  false, arith, Bool-cases, inl, inr,
}
use othire.FileLoader.{
  Frame, frame, Node, no_node, Outcome, parsed, enter, scan, close, closed, open_child, skip,
  with_node, node_start, node_end, escape_char,
}
use othire.FileLoader.Writer.{special}
use othire.FileLoader.Escape.{encode}

module _ (content : List ℕ) where
  -- The file continues with `xs` at `pos`.
  abbrev pub At : ℕ → List ℕ → Type 0
  At pos xs = drop pos content ≡ xs

  pub At-cons :
      (pos b : ℕ) (xs : List ℕ)
      → At pos (b ∷ xs)
      → (get_elem? content pos ≡ some b) × At (pos + 1) xs × (pos < length content)
  At-cons pos b xs h = (
    get_elem?-drop pos content b xs h,
    sym (drop-drop 1 pos content) ∙ ap (drop 1) h,
    omega (arith, ap length h, length-drop pos content),
  )

  pub after_two : (pos b : ℕ) {a : ℕ} (xs : List ℕ) → At pos (a ∷ b ∷ xs) → At (pos + 2) xs
  after_two pos b xs h = sym (drop-drop 2 pos content) ∙ ap (drop 2) h

  pub At-append : (xs ys : List ℕ) (pos : ℕ) → At pos (xs ++ ys) → At (pos + length xs) ys
  At-append xs ys pos h =
      sym (drop-drop (length xs) pos content) ∙ ap (drop (length xs)) h ∙ drop-append xs ys

  -- With fuel for the rest of the file the loop returns r.
  abbrev pub Scans : Frame → ℕ → Outcome → Type 0
  Scans s pos r = (fuel : ℕ) → length content < fuel + pos → scan content fuel s pos ≡ r

  abbrev pub Enters : ℕ → ℕ → Outcome → Type 0
  Enters start pos r =
      (fuel : ℕ) → length content < fuel + pos → enter content (scan content fuel) start pos ≡ r

  pub enter-Scans :
      (start pos type : ℕ) (xs : List ℕ) (r : Outcome)
      → At pos (type ∷ xs)
      → Scans (frame start type) (pos + 1) r
      → Enters start pos r
  enter-Scans start pos type xs r h k fuel enough =
      rw ((At-cons pos type xs h).0, enter) (k fuel (omega arith))

  -- an ordinary byte
  plain-Scans :
      (s : Frame) (pos b : ℕ) (xs : List ℕ) (r : Outcome)
      → special b ≡ false
      → At pos (b ∷ xs)
      → Scans s (pos + 1) r
      → Scans s pos r
  unfolding scan
  plain-Scans s pos b xs r plain h k zero enough = absurd (omega (arith, At-cons pos b xs h))
  plain-Scans s pos b xs r plain h k (suc fuel) enough =
      rw ((At-cons pos b xs h).0, scan) (ground (arith, k fuel (omega arith)))

  -- an escaped byte
  escaped-Scans :
      (s : Frame) (pos b : ℕ) (xs : List ℕ) (r : Outcome)
      → At pos (escape_char ∷ b ∷ xs)
      → Scans s (pos + 2) r
      → Scans s pos r
  unfolding scan skip
  escaped-Scans s pos b xs r h k zero enough =
      absurd (omega (arith, At-cons pos escape_char (b ∷ xs) h))
  escaped-Scans s pos b xs r h k (suc fuel) enough =
      let (here, next, inside) = At-cons pos escape_char (b ∷ xs) h in
      rw (here, scan) (rw ((At-cons (pos + 1) b xs next).0, skip) (k fuel (omega arith)))

  -- encoded properties
  pub encode-Scans :
      (ps xs : List ℕ) (s : Frame) (pos : ℕ) (r : Outcome)
      → At pos (encode true ps ++ xs)
      → Scans s (pos + length (encode true ps)) r
      → Scans s pos r
  unfolding encode
  encode-Scans [] xs s pos r h k = subst (λ p. Scans s p r) (omega arith) k
  encode-Scans (b ∷ bs) xs s pos r h k = elim (Bool-cases (special b)) [
    | inl marked ↦
        let h' = rw marked at h in
        let k' = rw marked at k in
        escaped-Scans s pos b (encode true bs ++ xs) r h' (
          encode-Scans bs xs s (pos + 2) r (after_two pos b (encode true bs ++ xs) h')
            (subst (λ p. Scans s p r) (omega arith) k'))
    | inr plain ↦
        let h' = rw plain at h in
        let k' = rw plain at k in
        plain-Scans s pos b (encode true bs ++ xs) r plain h' (
          encode-Scans bs xs s (pos + 1) r (At-cons pos b (encode true bs ++ xs) h').1
            (subst (λ p. Scans s p r) (omega arith) k'))
  ]

  -- a child with its siblings
  pub open-Scans :
      (s : Frame) (pos pos' : ℕ) (child : Node) (xs : List ℕ) (r : Outcome)
      → At pos (node_start ∷ xs)
      → pos < pos'
      → Enters pos (pos + 1) (parsed child pos')
      → Scans
          (record s { props_size = pos - s.start - 2; set_props_size = true; child = child })
          pos'
          r
      → Scans s pos r
  unfolding scan open_child
  open-Scans s pos pos' child xs r h forward inner k zero enough =
      absurd (omega (arith, At-cons pos node_start xs h))
  open-Scans s pos pos' child xs r h forward inner k (suc fuel) enough =
      rw ((At-cons pos node_start xs h).0, scan)
        (rw (inner fuel (omega arith), with_node) (k fuel (omega arith)))

  -- the end of the last node of the file
  pub close_file-Scans :
      (s : Frame) (pos : ℕ)
      → At pos (node_end ∷ [])
      → Scans s pos (parsed (closed content s pos no_node) (pos + 1))
  unfolding scan close
  close_file-Scans s pos h zero enough = absurd (omega (arith, At-cons pos node_end [] h))
  close_file-Scans s pos h (suc fuel) enough =
      let (here, next, inside) = At-cons pos node_end [] h in
      rw (here, scan) (rw (get_elem?-drop_nil (pos + 1) content next, close))

  -- the end of the last child of a node
  pub close_last-Scans :
      (s : Frame) (pos : ℕ) (xs : List ℕ)
      → At pos (node_end ∷ node_end ∷ xs)
      → Scans s pos (parsed (closed content s pos no_node) (pos + 1))
  unfolding scan close
  close_last-Scans s pos xs h zero enough =
      absurd (omega (arith, At-cons pos node_end (node_end ∷ xs) h))
  close_last-Scans s pos xs h (suc fuel) enough =
      let (here, next, inside) = At-cons pos node_end (node_end ∷ xs) h in
      rw (here, scan) (rw ((At-cons (pos + 1) node_end xs next).0, close))

  -- the end of a node with a sibling behind it
  pub close_next-Scans :
      (s : Frame) (pos pos' : ℕ) (next : Node) (xs : List ℕ)
      → At pos (node_end ∷ node_start ∷ xs)
      → Enters (pos + 1) (pos + 2) (parsed next pos')
      → Scans s pos (parsed (closed content s pos next) pos')
  unfolding scan close
  close_next-Scans s pos pos' next xs h k zero enough =
      absurd (omega (arith, At-cons pos node_end (node_start ∷ xs) h))
  close_next-Scans s pos pos' next xs h k (suc fuel) enough =
      let (here, after, inside) = At-cons pos node_end (node_start ∷ xs) h in
      rw (here, scan)
        (rw ((At-cons (pos + 1) node_start xs after).0, close)
          (rw (k fuel (omega arith), with_node)))
