-- ===== src/FileLoader/Escape.antt =====
-- What the writer puts into the file: a description of the format that is independent of the
-- writer's calls, and the proof that the calls write it where the disk does not fail.
use othire.Base.{
  ℕ, ◌≡◌, refl, ap, List, [], ◌∷◌, ◌++◌, append_assoc, append-nil, length, Bool, true, false, ◌&&◌,
  if◌then◌else◌, arith,
}
use othire.FileLoader.{escape_char}
use othire.FileLoader.Writer
use othire.FileLoader.Writer.{FileWriter, special}

-- the code of one byte: its own, behind an escape if it looks like a mark
abbrev pub code : Bool → ℕ → List ℕ
code unescape b = if unescape && special b then escape_char ∷ b ∷ [] else b ∷ []

unfoldable pub encode : Bool → List ℕ → List ℕ
encode unescape [] = []
encode unescape (b ∷ bs) = code unescape b ++ encode unescape bs

pub encode_plain : (bs : List ℕ) → encode false bs ≡ bs
unfolding encode
encode_plain [] = refl
encode_plain (b ∷ bs) = ap (◌∷◌ b) (encode_plain bs)

abbrev pub extend : FileWriter → List ℕ → FileWriter
extend l bs = record l { file = l.file ++ bs }

module _ (disk : ℕ → Bool) (room : (offset : ℕ) → disk offset ≡ true) where
  write_byte_lem :
      (unescape : Bool) (b : ℕ) (l : FileWriter)
      → Writer.write_byte disk unescape b l ≡ (true, extend l (code unescape b))
  unfolding Writer.write_byte
  write_byte_lem unescape b l = ground (
    arith,
    room (length l.file),
    room (length (l.file ++ escape_char ∷ [])),
    append_assoc l.file (escape_char ∷ []) (b ∷ []),
  )

  -- Where the disk does not fail, writeData succeeds and appends the encoded bytes.
  pub write_data-encode :
      (bs : List ℕ) (unescape : Bool) (l : FileWriter)
      → Writer.write_data disk bs unescape l ≡ (true, extend l (encode unescape bs))
  unfolding Writer.write_data encode
  write_data-encode [] unescape l = rw append-nil
  write_data-encode (b ∷ bs) unescape l =
      rw (write_byte_lem unescape b l, write_data-encode bs unescape (extend l (code unescape b)))
        (rw append_assoc)
