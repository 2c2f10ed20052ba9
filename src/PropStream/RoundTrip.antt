-- ===== src/PropStream/RoundTrip.antt =====
-- What PropWriteStream writes, PropStream reads.
use othire.Base.{
  ℕ, ◌+◌, ◌-◌, ◌%◌, ◌^◌, ◌≤◌, ◌<◌, ◌≡◌, refl, sym, ap, ◌∙◌, List, ◌++◌, append_assoc, some, length,
  length-append, take, drop, drop-append, drop-drop, length-drop, take-append, length-take, arith,
}
use othire.Base.Bytes.{to_bytes, of_bytes, length-to_bytes, of_bytes-to_bytes}
use othire.PropStream.{
  PropStream, Read, got, size, get_value, get_nstring, get_string, get_lstring, get_ltext, ◌>>=◌,
}
use othire.PropStream.Write
use othire.PropStream.Write.{
  PropWriteStream, IsValid, Adds, limit, add_string-Adds, add_lstring-Adds,
}

-- The stream over `buf` after the bytes `before`.
abbrev pub after : List ℕ → List ℕ → PropStream
after before buf = record { buf = buf; p = length before }

-- A view: what follows p is `xs`, then `rest`.
abbrev At : PropStream → List ℕ → Type 0
At s xs = (drop s.p s.buf ≡ xs) × (s.p ≤ length s.buf)

-- The first n bytes are there, and the view moves past them.
At-split :
    (xs rest : List ℕ) (s : PropStream)
    → At s (xs ++ rest)
    → (take (length xs) (drop s.p s.buf) ≡ xs)
      × (length xs ≤ size s)
      × At (record s { p = s.p + length xs }) rest
unfolding size
At-split xs rest s (here, inside) =
    let long : length s.buf - s.p ≡ length xs + length rest =
      sym (length-drop s.p s.buf) ∙ ap length here ∙ length-append xs rest in
    (
      rw here (take-append xs rest),
      omega arith,
      (
        sym (drop-drop (length xs) s.p s.buf) ∙ ap (drop (length xs)) here ∙ drop-append xs rest,
        omega arith,
      ),
    )

get_value-At :
    (n v : ℕ) (s : PropStream) (rest : List ℕ)
    → v < 256 ^ n
    → At s (to_bytes n v ++ rest)
    → (get_value n s ≡ got v (record s { p = s.p + n })) × At (record s { p = s.p + n }) rest
unfolding get_value
get_value-At n v s rest h a =
    let w = length-to_bytes n v in
    let (front, room, next) = rw w at (At-split (to_bytes n v) rest s a) in
    (ground (arith, ap of_bytes front, of_bytes-to_bytes n v h), next)

get_nstring-At :
    (text rest : List ℕ) (s : PropStream)
    → At s (text ++ rest)
    → get_nstring (length text) s ≡ got text (record s { p = s.p + length text })
unfolding get_nstring
get_nstring-At text rest s a = ground (arith, At-split text rest s a)

-- A length field and its text, read back from wherever they stand.
get_text-At :
    (n : ℕ) (text rest : List ℕ) (s : PropStream) (get : ℕ → PropStream → Read (List ℕ))
    → length text < 256 ^ n
    → ((s' : PropStream) → get (length text) s' ≡ get_nstring (length text) s')
    → At s ((to_bytes n (length text) ++ text) ++ rest)
    → (get_value n s >>= get) ≡ got text (record s { p = s.p + n + length text })
get_text-At n text rest s get small same a =
    let (field, next) =
      get_value-At n (length text) s (text ++ rest) small
        (rw (append_assoc (to_bytes n (length text)) text rest) at a) in
    rw (field, same) (get_nstring-At text rest _ next)

get_ltext-small : (n : ℕ) (s : PropStream) → n < 2 ^ 31 → get_ltext n s ≡ get_nstring n s
unfolding get_ltext get_nstring
get_ltext-small n s h = ground arith

-- After an addition the new bytes stand where the old stream ended.
Adds-At :
    (bytes rest : List ℕ) (w w' : PropWriteStream)
    → Adds bytes w w'
    → At (after w.stream (w'.stream ++ rest)) (bytes ++ rest)
Adds-At bytes rest w w' a =
    rw (a.appended, append_assoc w.stream bytes rest)
      (drop-append w.stream (bytes ++ rest), omega (arith, length-append w.stream (bytes ++ rest)))

after-Adds :
    (n len : ℕ) (text : List ℕ) (w w' : PropWriteStream)
    → Adds (to_bytes n len ++ text) w w'
    → length w.stream + n + length text ≡ length w'.stream
after-Adds n len text w w' a = omega (
  arith,
  ap length a.appended,
  length-append w.stream (to_bytes n len ++ text),
  length-append (to_bytes n len) text,
  length-to_bytes n len,
)

-- Writing a text with a length field of n bytes and reading it back.
text_round :
    (n : ℕ) (text rest : List ℕ) (w w' : PropWriteStream) (get : ℕ → PropStream → Read (List ℕ))
    → length text < 256 ^ n
    → ((s' : PropStream) → get (length text) s' ≡ get_nstring (length text) s')
    → Adds (to_bytes n (length text) ++ text) w w'
    → (get_value n (after w.stream (w'.stream ++ rest)) >>= get)
      ≡ got text (after w'.stream (w'.stream ++ rest))
text_round n text rest w w' get small same a =
    rw (← after-Adds n (length text) text w w' a)
      (get_text-At n text rest _ get small same (Adds-At _ rest w w' a))

-- ADD_STRING followed by GET_STRING gives the text back, cut to its length modulo 2 ^ 16, and the
-- reader stands behind it. It holds after anything that was written before by a valid writer,
-- whatever follows, while the stream stays 32 bytes under 2 GiB; the writer's buffer is not overrun.
pub get_string-add_string :
    (text rest : List ℕ) (w : PropWriteStream)
    → IsValid w
    → length w.stream + (2 + length text) < limit
    → (w' : PropWriteStream) × (Write.add_string text w ≡ some w')
      × IsValid w'
      × (get_string (after w.stream (w'.stream ++ rest))
          ≡ got (take (length text % 2 ^ 16) text) (after w'.stream (w'.stream ++ rest)))
unfolding get_string
get_string-add_string text rest w v h =
    let kept = take (length text % 2 ^ 16) text in
    let e = length-take (length text % 2 ^ 16) text in
    let (w', run, a) = add_string-Adds text w v h in
    (w', run, a.valid, text_round 2 kept rest w w' get_nstring (omega arith) (λ s'. refl) a)

-- ADD_LSTRING followed by GET_LSTRING gives the whole text back, and the reader stands behind it.
-- It holds after anything that was written before by a valid writer, whatever follows, while the
-- stream stays 32 bytes under 2 GiB; the writer's buffer is not overrun.
pub get_lstring-add_lstring :
    (text rest : List ℕ) (w : PropWriteStream)
    → IsValid w
    → length w.stream + (4 + length text) < limit
    → (w' : PropWriteStream) × (Write.add_lstring text w ≡ some w')
      × IsValid w'
      × (get_lstring (after w.stream (w'.stream ++ rest))
          ≡ got text (after w'.stream (w'.stream ++ rest)))
unfolding get_lstring
get_lstring-add_lstring text rest w v h =
    let (w', run, a) = add_lstring-Adds text w v h in
    (
      w',
      run,
      a.valid,
      text_round 4 text rest w w' get_ltext (omega arith)
          (λ s'. get_ltext-small (length text) s' (omega arith)) a,
    )
