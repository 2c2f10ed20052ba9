-- ===== src/FileLoader/Writer.antt =====
-- The writing half of FileLoader. `file` is what has been written; `disk` says of each offset
-- whether `fwrite` succeeds there. A method returns its result with the loader.
use othire.Base.{
  ℕ, List, [], ◌∷◌, ◌++◌, length, take, ◌%◌, ◌^◌, Bool, true, false, ◌&&◌, ◌||◌, ◌==◌,
  if◌then◌else◌,
}
use othire.FileLoader.{FileError, error_none, could_not_write, node_start, node_end, escape_char}

pub record FileWriter : Type 0 where
  pub file : List ℕ
  pub last_error : FileError

-- c == NODE_START || c == NODE_END || c == ESCAPE_CHAR
abbrev pub special : ℕ → Bool
special c = c == node_start || (c == node_end || c == escape_char)

module _ (disk : ℕ → Bool) where
  -- one call of `fwrite`, with the test of its result
  abbrev put : ℕ → FileWriter → Bool × FileWriter
  put c l =
      if disk (length l.file)
      then (true, record l { file = l.file ++ c ∷ [] })
      else (false, record l { last_error = could_not_write })

  abbrev and_then : Bool × FileWriter → (FileWriter → Bool × FileWriter) → Bool × FileWriter
  and_then (true, l) k = k l
  and_then (false, l) k = (false, l)

  -- one round of the loop of writeData
  unfoldable pub write_byte : Bool → ℕ → FileWriter → Bool × FileWriter
  write_byte unescape c l =
      and_then (if unescape && special c then put escape_char l else (true, l)) (put c)

  unfoldable pub write_data : List ℕ → Bool → FileWriter → Bool × FileWriter
  unfolding write_byte
  write_data [] unescape l = (true, l)
  write_data (c ∷ cs) unescape l = and_then (write_byte unescape c l) (write_data cs unescape)

  -- openFile for writing, from the point where `fopen` has succeeded: four bytes of version.
  unfoldable pub create : FileWriter
  create = (write_data (0 ∷ 0 ∷ 0 ∷ 0 ∷ []) false (record { file = []; last_error = error_none })).1

  -- setProps; the size is an unsigned short, which cuts a longer length
  unfoldable pub set_props : List ℕ → FileWriter → FileError × FileWriter
  set_props bytes l =
      let (done, l') = write_data (take (length bytes % 2 ^ 16) bytes) true l in
      (if done then error_none else l'.last_error, l')

  unfoldable pub start_node : ℕ → FileWriter → FileWriter
  start_node type l = (write_data (type ∷ []) true (write_data (node_start ∷ []) false l).1).1

  unfoldable pub end_node : FileWriter → FileWriter
  end_node l = (write_data (node_end ∷ []) false l).1
