-- ===== src/FileLoader/Forest.antt =====
-- Trees of nodes as a client saves them with startNode, setProps and endNode.
use othire.Base.{
  ℕ, ◌<◌, ◌≡◌, ap, ◌∙◌, List, [], ◌∷◌, ◌++◌, append_assoc, append-nil, length, take, take_all, ◌%◌,
  ◌^◌, Bool, true, false, arith,
}
use othire.FileLoader.{node_start, node_end, escape_char}
use othire.FileLoader.Writer
use othire.FileLoader.Writer.{FileWriter}
use othire.FileLoader.Escape.{encode, extend, write_data-encode}

-- A node, its children, and the siblings behind it.
pub data Forest : Type 0 where
  no_tree : Forest
  tree : (type : ℕ) (props : List ℕ) (children next : Forest) → Forest

-- The calls that save a forest, in their order.
unfoldable pub save : (ℕ → Bool) → Forest → FileWriter → FileWriter
save disk no_tree l = l
save disk (tree type ps children next) l = save disk next (
    Writer.end_node disk
      (save disk children (Writer.set_props disk ps (Writer.start_node disk type l)).1))

-- the bytes of a forest
unfoldable pub bytes : Forest → List ℕ
bytes no_tree = []
bytes (tree type ps children next) =
    node_start ∷ type ∷ (encode true ps ++ (bytes children ++ (node_end ∷ bytes next)))

-- Each type is below the marks, and each node's properties have a length that an unsigned short holds.
abbrev pub PlainTypes : Forest → Type 0
PlainTypes no_tree = Unit {0}
PlainTypes (tree type ps children next) =
    (type < escape_char) × (length ps < 2 ^ 16) × PlainTypes children × PlainTypes next

module _ (disk : ℕ → Bool) (room : (offset : ℕ) → disk offset ≡ true) where
  start_node-extend :
      (type : ℕ) (l : FileWriter)
      → type < escape_char
      → Writer.start_node disk type l ≡ extend l (node_start ∷ type ∷ [])
  unfolding Writer.start_node encode
  start_node-extend type l h =
      ap (λ r. (Writer.write_data disk (type ∷ []) true r.1).1)
        (write_data-encode disk room (node_start ∷ []) false l)
      ∙ ap (λ r. r.1) (write_data-encode disk room (type ∷ []) true (extend l (node_start ∷ [])))
      ∙ ground (arith, append_assoc l.file (node_start ∷ []) (type ∷ []))

  set_props-extend :
      (ps : List ℕ) (l : FileWriter)
      → length ps < 2 ^ 16
      → (Writer.set_props disk ps l).1 ≡ extend l (encode true ps)
  unfolding Writer.set_props
  set_props-extend ps l h =
      let short : length ps % 2 ^ 16 ≡ length ps = omega arith in
      let whole : take (length ps % 2 ^ 16) ps ≡ ps = rw short (take_all ps) in
      rw (whole, write_data-encode disk room ps true l)

  end_node-extend : (l : FileWriter) → Writer.end_node disk l ≡ extend l (node_end ∷ [])
  unfolding Writer.end_node encode
  end_node-extend l = ap (λ r. r.1) (write_data-encode disk room (node_end ∷ []) false l)

-- Where the disk does not fail, the calls append the bytes of the forest.
pub save-bytes :
    (disk : ℕ → Bool)
    → ((offset : ℕ) → disk offset ≡ true)
    → (t : Forest) (l : FileWriter) → PlainTypes t
    → save disk t l ≡ record l { file = l.file ++ bytes t }
unfolding save bytes
save-bytes disk room no_tree l h = rw append-nil
save-bytes disk room (tree type ps children next) l (plain, short, below, behind) =
    let l₁ = extend l (node_start ∷ type ∷ []) in
    let l₂ = extend l₁ (encode true ps) in
    let l₃ = extend l₂ (bytes children) in
    let l₄ = extend l₃ (node_end ∷ []) in
    rw
      (
        start_node-extend disk room type l plain,
        set_props-extend disk room ps l₁ short,
        save-bytes disk room children l₂ below,
        end_node-extend disk room l₃,
        save-bytes disk room next l₄ behind,
      )
      (simp append_assoc)
