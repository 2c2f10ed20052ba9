-- ===== src/FileLoader/Load.antt =====
-- The whole way: a saved tree is opened, and getProps gives its properties back.
use othire.Base.{
  ◌%◌, ltb, leb, ℕ, ◌+◌, ◌-◌, ◌^◌, ◌<◌, ◌≤◌, ◌≡◌, refl, sym, ap, ◌∙◌, subst, List, [], ◌∷◌, ◌++◌,
  append-nil, length, length-append, length-drop, drop, take, take-append, Bool, true, false, ◌==◌,
  arith, inl, inr, Bool-cases,
}
use othire.FileLoader.{
  Node, no_node, node, parsed, escape_char, open_file, get_props, props, unescape, error_none,
  prepend,
}
use othire.FileLoader.Writer
use othire.FileLoader.Writer.{special}
use othire.FileLoader.Escape.{encode, encode_plain, write_data-encode}
use othire.FileLoader.Forest.{Forest, no_tree, tree, bytes, save, PlainTypes, save-bytes}
use othire.FileLoader.Scan.{At}
use othire.FileLoader.RoundTrip.{forest-Reads}
use othire.FileLoader.Layout.{width, place, At-Layout}

pub unescape-cons :
    (b : ℕ) (xs : List ℕ) → (b == escape_char) ≡ false → unescape (b ∷ xs) ≡ prepend b (unescape xs)
unfolding unescape
unescape-cons b [] plain = ground arith
unescape-cons b (c ∷ xs) plain = ground arith

pub unescape_nil : unescape [] ≡ props []
unfolding unescape
unescape_nil = refl

pub unescape-escaped :
    (b : ℕ) (xs : List ℕ) → unescape (escape_char ∷ b ∷ xs) ≡ prepend b (unescape xs)
unfolding unescape
unescape-escaped b xs = refl

-- An escape doubles a byte at most.
encode-length : (ps : List ℕ) → length (encode true ps) ≤ length ps + length ps
unfolding encode
encode-length [] = omega arith
encode-length (b ∷ bs) = ground (arith, encode-length bs)

-- Taking the escapes out undoes putting them in.
unescape-encode : (ps : List ℕ) → unescape (encode true ps) ≡ props ps
unfolding encode
unescape-encode [] = unescape_nil
unescape-encode (b ∷ bs) = elim (Bool-cases (special b)) [
  | inl marked ↦
      rw marked (unescape-escaped b (encode true bs) ∙ ap (prepend b) (unescape-encode bs))
  | inr plain ↦
      rw plain
        (unescape-cons b (encode true bs) (ground arith) ∙ ap (prepend b) (unescape-encode bs))
]

-- The nodes that were read are those of the forest: types, properties, children, siblings.
abbrev pub Loads : List ℕ → Forest → Node → Type 0
Loads content no_tree no_node = Unit {0}
Loads content no_tree (node start size type child next) = ⊥
Loads content (tree type ps children sibling) no_node = ⊥
Loads content (tree type ps children sibling) (node start size type' child next) =
    (type' ≡ type)
    × (get_props content (node start size type' child next) ≡ props ps)
    × Loads content children child
    × Loads content sibling next

-- The properties of less than 4 GiB that are inside the file are read.
pub get_props-unescape :
    (content : List ℕ) (start size type : ℕ) (child next : Node)
    → size < 2 ^ 32
    → size ≤ length content - (start + 2)
    → get_props content (node start size type child next)
      ≡ unescape (take size (drop (start + 2) content))
unfolding get_props
get_props-unescape content start size type child next small h =
    let whole : size % 2 ^ 32 ≡ size = omega arith in
    let enough : ltb (length content - (start + 2)) (size % 2 ^ 32) ≡ false =
      rw whole (ground arith) in
    let ends : leb (2 ^ 32) size ≡ false = ground arith in rw (enough, ends) refl

get_props-encode :
    (content ps xs : List ℕ) (start type : ℕ) (child next : Node)
    → length ps < 2 ^ 16
    → At content (start + 2) (encode true ps ++ xs)
    → get_props content (node start (width ps) type child next) ≡ props ps
get_props-encode content ps xs start type child next short h =
    let wide = encode-length ps in
    let room : length content - (start + 2) ≡ width ps + length xs =
      sym (length-drop (start + 2) content) ∙ ap length h ∙ length-append (encode true ps) xs in
    let here : take (width ps) (drop (start + 2) content) ≡ encode true ps =
      rw h (take-append (encode true ps) xs) in
    get_props-unescape content start (width ps) type child next (omega (arith, wide, short))
      (omega (arith, room))
    ∙ ap unescape here
    ∙ unescape-encode ps

place-Loads :
    (content : List ℕ) (t : Forest) (start : ℕ) (post : List ℕ)
    → PlainTypes t
    → At content start (bytes t ++ post)
    → Loads content t (place start t)
unfolding place bytes
place-Loads content no_tree start post plain h = tt
place-Loads content (tree type ps children next) start post (plain, short, below, behind) h =
    let l = At-Layout content start type ps children next post h in
    (
      refl,
      get_props-encode content ps _ start type _ _ short l.at_props,
      place-Loads content children _ _ below l.at_below,
      place-Loads content next _ _ behind l.at_behind,
    )

-- what a client has written once it has created a file and saved a forest
pub saved : (ℕ → Bool) → Forest → List ℕ
saved disk t = (save disk t (Writer.create disk)).file

saved-bytes :
    (disk : ℕ → Bool)
    → ((offset : ℕ) → disk offset ≡ true)
    → (t : Forest) → PlainTypes t
    → saved disk t ≡ 0 ∷ 0 ∷ 0 ∷ 0 ∷ bytes t
unfolding saved Writer.create
saved-bytes disk room t h =
    ap (λ l. (save disk t l.1).file)
      (write_data-encode disk room (0 ∷ 0 ∷ 0 ∷ 0 ∷ []) false
        (record { file = []; last_error = error_none }))
    ∙ ap (λ l. l.file) (save-bytes disk room t _ h)
    ∙ ap (λ xs. xs ++ bytes t) (encode_plain (0 ∷ 0 ∷ 0 ∷ 0 ∷ []))

open_bytes :
    (accept : List ℕ) (type : ℕ) (ps : List ℕ) (children next : Forest)
    → let t = tree type ps children next in
      open_file (0 ∷ 0 ∷ 0 ∷ 0 ∷ bytes t) accept ≡ parsed (place 4 t) (4 + length (bytes t))
unfolding open_file bytes
open_bytes accept type ps children next =
    let t = tree type ps children next in
    let content = 0 ∷ 0 ∷ 0 ∷ 0 ∷ bytes t in
    let run =
      forest-Reads content t 4 [] (sym (append-nil (bytes t))) (inl refl) (length content + 1)
        (omega arith) in
    ground (arith, run)

-- A forest that is saved to a disk that does not fail, with node types below ESCAPE_CHAR and less
-- than 64 KiB of properties in each node, is opened again whatever identifier the reader accepts. The reader stops at the end of the file, and the
-- nodes it finds are those of the forest: getProps returns the properties of each, unchanged.
pub open_file-saved :
    (disk : ℕ → Bool) (accept : List ℕ) (type : ℕ) (ps : List ℕ) (children next : Forest)
    → ((offset : ℕ) → disk offset ≡ true)
    → PlainTypes (tree type ps children next)
    → let file = saved disk (tree type ps children next) in
      (n : Node) × (open_file file accept ≡ parsed n (length file))
      × Loads file (tree type ps children next) n
open_file-saved disk accept type ps children next room plain =
    let t = tree type ps children next in
    let e = saved-bytes disk room t plain in
    (
      place 4 t,
      rw e (open_bytes accept type ps children next ∙ ap (parsed (place 4 t)) (omega arith)),
      subst (λ file. Loads file t (place 4 t)) (sym e)
          (place-Loads (0 ∷ 0 ∷ 0 ∷ 0 ∷ bytes t) t 4 [] plain (sym (append-nil (bytes t)))),
    )
