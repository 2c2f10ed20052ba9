-- ===== src/FileLoader/Tests.antt =====
-- Runs of FileLoader (source/fileloader.cpp), and the theorems at a concrete input.
use othire.Base.{ℕ, ◌≡◌, refl, List, [], ◌∷◌, Bool, true, length, arith}
use othire.FileLoader.{
  Node, node, no_node, parsed, failed, eof, open_file, scan, get_props, unescape, props,
}
use othire.FileLoader.Forest.{Forest, tree, no_tree}
use othire.FileLoader.Load.{saved, Loads, open_file-saved}
use othire.FileLoader.Total.{Opens, open_file-Opens}

-- a root of type 1 with the property bytes 253 and 5, and one child of type 2
abbrev forest : Forest
forest = tree 1 (253 ∷ 5 ∷ []) (tree 2 [] no_tree no_tree) no_tree

abbrev file : List ℕ
file = 0 ∷ 0 ∷ 0 ∷ 0 ∷ 254 ∷ 1 ∷ 253 ∷ 253 ∷ 5 ∷ 254 ∷ 2 ∷ 255 ∷ 255 ∷ []

abbrev full_disk : ℕ → Bool
full_disk offset = true

open_file_forest : open_file file [] ≡ parsed (node 4 3 1 (node 9 0 2 no_node no_node) no_node) 13
unfolding open_file scan
open_file_forest = refl

get_props_forest : get_props file (node 4 3 1 no_node no_node) ≡ props (253 ∷ 5 ∷ [])
unfolding get_props unescape
get_props_forest = refl

-- a file that ends in a node
open_file_cut : open_file (0 ∷ 0 ∷ 0 ∷ 0 ∷ 254 ∷ 1 ∷ 7 ∷ []) [] ≡ failed eof
unfolding open_file scan
open_file_cut = refl

open_file-saved_example :
    (n : Node) × (open_file (saved full_disk forest) []
      ≡ parsed n (length (saved full_disk forest)))
    × Loads (saved full_disk forest) forest n
open_file-saved_example =
    open_file-saved full_disk [] 1 (253 ∷ 5 ∷ []) (tree 2 [] no_tree no_tree) no_tree
      (λ offset. refl) (omega arith, omega arith, (omega arith, omega arith, tt, tt), tt)

open_file-Opens_example : Opens file (open_file file [])
open_file-Opens_example = open_file-Opens file [] (omega arith)
