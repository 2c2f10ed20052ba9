-- ===== src/FileLoader/Layout.antt =====
-- Where the parts of a saved forest stand in the file.
use othire.Base.{
  ℕ, ◌+◌, ◌≡◌, subst, List, ◌∷◌, ◌++◌, append_assoc, length, length-append, true, arith,
}
use othire.FileLoader.{Node, no_node, node, node_start, node_end}
use othire.FileLoader.Escape.{encode}
use othire.FileLoader.Forest.{Forest, no_tree, tree, bytes}
use othire.FileLoader.Scan.{At, At-cons, At-append, after_two}

-- the node that is read for a forest at the offset `start`
abbrev pub width : List ℕ → ℕ
width ps = length (encode true ps)

unfoldable pub place : ℕ → Forest → Node
place start no_tree = no_node
place start (tree type ps children next) =
    node start (width ps) type (place (start + 2 + width ps) children)
      (place (start + 2 + width ps + length (bytes children) + 1) next)

regroup :
    (xs ys zs post : List ℕ)
    → (xs ++ (ys ++ (node_end ∷ zs))) ++ post ≡ xs ++ (ys ++ (node_end ∷ (zs ++ post)))
regroup xs ys zs post = simp append_assoc

pub end_offset :
    (start type : ℕ) (ps : List ℕ) (children next : Forest)
    → start + length (bytes (tree type ps children next))
      ≡ start + 2 + width ps + length (bytes children) + 1 + length (bytes next)
unfolding bytes
end_offset start type ps children next = omega (
  arith,
  length-append (encode true ps) (bytes children ++ (node_end ∷ bytes next)),
  length-append (bytes children) (node_end ∷ bytes next),
)

-- The parts of the first node, when the file continues with the forest and then with `post`.
pub record Layout (content : List ℕ) (start type : ℕ) (ps : List ℕ) (children next : Forest)
    (post : List ℕ) : Type 0 where
  pub at_type :
      At content
        (start + 1)
        (type ∷ (encode true ps ++ (bytes children ++ (node_end ∷ (bytes next ++ post)))))
  pub at_props :
      At content
        (start + 2)
        (encode true ps ++ (bytes children ++ (node_end ∷ (bytes next ++ post))))
  pub at_below :
      At content (start + 2 + width ps) (bytes children ++ (node_end ∷ (bytes next ++ post)))
  pub at_end :
      At content (start + 2 + width ps + length (bytes children)) (node_end ∷ (bytes next ++ post))
  pub at_behind :
      At content (start + 2 + width ps + length (bytes children) + 1) (bytes next ++ post)

pub At-Layout :
    (content : List ℕ) (start type : ℕ) (ps : List ℕ) (children next : Forest) (post : List ℕ)
    → At content start (bytes (tree type ps children next) ++ post)
    → Layout content start type ps children next post
unfolding bytes
At-Layout content start type ps children next post h =
    let below = bytes children in
    let behind = bytes next ++ post in
    let h₁ =
      subst (λ xs. At content start (node_start ∷ type ∷ xs))
        (regroup (encode true ps) below (bytes next) post) h in
    let at_props =
      after_two content start type (encode true ps ++ (below ++ (node_end ∷ behind))) h₁ in
    let at_below =
      At-append content (encode true ps) (below ++ (node_end ∷ behind)) (start + 2) at_props in
    let at_end = At-append content below (node_end ∷ behind) (start + 2 + width ps) at_below in
    record {
      at_type = (At-cons content start node_start _ h₁).1;
      at_props = at_props;
      at_below = at_below;
      at_end = at_end;
      at_behind = (At-cons content (start + 2 + width ps + length below) node_end behind at_end).1;
    }
