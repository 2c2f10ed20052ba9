-- ===== src/FileLoader.antt =====
-- FileLoader (source/fileloader.h, source/fileloader.cpp): files that hold a tree of nodes.
-- A node is a start byte, a type, its properties, its children, and an end byte; the bytes of the
-- properties that look like a mark are escaped. The reader takes its bytes from the file: see Cache.
pub mod Writer
pub mod Escape
pub mod Scan
pub mod Forest
pub mod Layout
pub mod Segment
pub mod Sound
pub mod Total
pub mod RoundTrip
pub mod Load
pub mod Cache
mod Tests
use othire.Base.{
  ℕ, zero, suc, ◌+◌, ◌-◌, ◌%◌, ◌^◌, leb, Option, none, some, List, [], ◌∷◌, length, take, drop,
  get_elem?, Bool, true, false, ◌&&◌, ◌||◌, not, ◌==◌, ltb, if◌then◌else◌,
}

abbrev pub node_start : ℕ
node_start = 0xfe

abbrev pub node_end : ℕ
node_end = 0xff

abbrev pub escape_char : ℕ
escape_char = 0xfd

-- FILELOADER_ERRORS, those that the modelled functions set
pub data FileError : Type 0 where
  error_none invalid_file_version eof invalid_format could_not_write : FileError

-- NodeStruct, with the nodes that `child` and `next` point to
pub data Node : Type 0 where
  no_node : Node
  node : (start props_size type : ℕ) → (child next : Node) → Node

-- `parsed` is true, with the node and the file position; `failed` is false, with m_lastError.
pub data Outcome : Type 0 where
  parsed : Node → ℕ → Outcome
  failed : FileError → Outcome
  out_of_fuel : Outcome

abbrev pub with_node : Outcome → (Node → ℕ → Outcome) → Outcome
with_node (parsed n pos) k = k n pos
with_node (failed e) k = failed e
with_node out_of_fuel k = out_of_fuel

-- The variables of the inner loop: the node under way, `setPropsSize`, and the file position.
pub record Frame : Type 0 where
  pub start : ℕ
  pub type : ℕ
  pub props_size : ℕ
  pub set_props_size : Bool
  pub child : Node

abbrev pub frame : ℕ → ℕ → Frame
frame start type = record {
  start = start;
  type = type;
  props_size = 0;
  set_props_size = false;
  child = Node.no_node;
}

module _ (content : List ℕ) where
  -- The head of the outer loop: read the node's type and go on with the inner loop.
  abbrev pub enter : (Frame → ℕ → Outcome) → ℕ → ℕ → Outcome
  enter scan start pos = elim (get_elem? content pos) [
    | none ↦ failed eof
    | some type ↦ scan (frame start type) (pos + 1)
  ]

  -- The branch of NODE_START: parse the child with its siblings, then go on.
  unfoldable pub open_child : (Frame → ℕ → Outcome) → Frame → ℕ → Outcome
  open_child scan s pos = with_node (enter scan pos (pos + 1)) λ child pos'.
      scan (record s { props_size = pos - s.start - 2; set_props_size = true; child = child }) pos'

  abbrev pub closed : Frame → ℕ → Node → Node
  closed s pos next =
      node s.start (if s.set_props_size then s.props_size else pos - s.start - 2) s.type s.child
        next

  -- The branch of NODE_END: the next node, the end of the parent (which is read again), or the end
  -- of the file.
  unfoldable pub close : (Frame → ℕ → Outcome) → Frame → ℕ → Outcome
  close scan s pos = elim (get_elem? content (pos + 1)) [
    | none ↦ parsed (closed s pos no_node) (pos + 1)
    | some byte ↦
        if byte == node_start
        then with_node (enter scan (pos + 1) (pos + 2))
            (λ next pos'. parsed (closed s pos next) pos')
        else if byte == node_end
        then parsed (closed s pos no_node) (pos + 1)
        else failed invalid_format
  ]

  -- The branch of ESCAPE_CHAR: the next byte is no mark.
  unfoldable pub skip : (Frame → ℕ → Outcome) → Frame → ℕ → Outcome
  skip scan s pos = elim (get_elem? content (pos + 1)) [
    | none ↦ failed eof
    | some _ ↦ scan s (pos + 2)
  ]

  -- The inner loop of parseNode at the position pos, a round for each unit of fuel.
  unfoldable pub scan : ℕ → Frame → ℕ → Outcome
  unfolding open_child close skip
  scan zero s pos = out_of_fuel
  scan (suc fuel) s pos = elim (get_elem? content pos) [
    | none ↦ failed eof
    | some byte ↦
        let child = open_child (scan fuel) s pos in
        let finish = close (scan fuel) s pos in
        let escaped = skip (scan fuel) s pos in
        let rest = scan fuel s (pos + 1) in
        if byte == node_start
        then child
        else if byte == node_end
        then finish
        else if byte == escape_char
        then escaped
        else rest
  ]

-- `memcmp(a, b, n) == 0` for arrays of one length
unfoldable pub same_bytes : List ℕ → List ℕ → Bool
same_bytes [] [] = true
same_bytes [] (b ∷ bs) = false
same_bytes (a ∷ xs) [] = false
same_bytes (a ∷ xs) (b ∷ bs) = a == b && same_bytes xs bs

-- openFile for reading, from the point where `fopen` has succeeded. One round more than the file
-- has bytes is fuel enough.
unfoldable pub open_file : List ℕ → List ℕ → Outcome
unfolding same_bytes
open_file content accept_identifier =
    if ltb (length content) 4
    then failed invalid_file_version
    else if not (same_bytes (take 4 content) accept_identifier)
        && not (same_bytes (take 4 content) (0 ∷ 0 ∷ 0 ∷ 0 ∷ []))
    then failed invalid_file_version
    else elim (get_elem? content 4) [
      | none ↦ failed eof
      | some byte ↦
          if byte == node_start
          then enter content (scan content (length content + 1)) 4 5
          else failed error_none
    ]

-- `stale` is a read of a byte of m_buffer that this call has not written; `endless` is a loop that
-- does not end.
pub data Props : Type 0 where
  props : List ℕ → Props
  refused : FileError → Props
  stale endless : Props

abbrev pub prepend : ℕ → Props → Props
prepend b (props bs) = props (b ∷ bs)
prepend b (refused e) = refused e
prepend b stale = stale
prepend b endless = endless

-- the loop of getProps that takes the escapes out
unfoldable pub unescape : List ℕ → Props
unescape [] = props []
unescape (b ∷ []) = if b == escape_char then stale else props (b ∷ [])
unescape (b ∷ c ∷ bs) = elim (b == escape_char) [
  | true ↦ prepend c (unescape bs)
  | false ↦ prepend b (unescape (c ∷ bs))
]

-- getProps: the properties of a node, which start two bytes behind the node's start. No node gives
-- NULL and sets no error. readBytes takes the size as an unsigned int, and the loop's counters are
-- unsigned ints, which never reach a size of 2 ^ 32 or more.
unfoldable pub get_props : List ℕ → Node → Props
unfolding unescape
get_props content no_node = refused error_none
get_props content (node start props_size type child next) =
    if ltb (length content - (start + 2)) (props_size % 2 ^ 32)
    then refused eof
    else if leb (2 ^ 32) props_size
    then endless
    else unescape (take props_size (drop (start + 2) content))
