-- ===== src/FileLoader/Cache/Refine.antt =====
-- What is read through the cache is what the file holds (source/fileloader.cpp, safeSeek, readByte).
use othire.Base.{
  ℕ, zero, ◌+◌, ◌<◌, ◌≤◌, ◌≡◌, refl, sym, ap, subst, ◌∙◌, List, [], ◌∷◌, true, false, leb,
  if◌then◌else◌, Option, none, some, length, get_elem?, drop, arith, inl, inr, Bool-cases,
  Option-cases, get_elem?-take, get_elem?-drop_add, get_elem?-lt, some_injective,
}
use mathlib.Core.Path.{ap₂}
use othire.FileLoader.Cache.{
  open_cache, cache_size, Cache, new_cache, slice, get_cache_block, base_at, bytes_at, seated,
  safe_seek, read_at, read_from, read_byte,
}
use othire.FileLoader.Cache.Seek.{
  IsCached, length-slice, get_cache_block-Loads, Represents, base_at-block, bytes_at-block,
  seated-Represents, safe_seek-Represents,
}

module _ (content : List ℕ) where
  -- The position after a byte is read.
  abbrev pub after : ℕ → ℕ
  after p = elim (get_elem? content p) [ none ↦ p | some v ↦ p + 1 ]

  abbrev Reads : Option ℕ × Cache → ℕ → Type 0
  Reads r p = (r.0 ≡ get_elem? content p) × Represents content r.1 (after p)

  get_elem?-slice :
      (size base n : ℕ)
      → n < size
      → get_elem? (slice content size base) n ≡ get_elem? content (base + n)
  get_elem?-slice size base n h =
      get_elem?-take size n (drop base content) h ∙ get_elem?-drop_add base n content

  read_at-Reads :
      (c : Cache) (p : ℕ) (r : Represents content c p)
      → c.offset < c.size
      → Reads (read_at content r.i c) p
  read_at-Reads c p r lt =
      let d = bytes_at-block content c r.i r.b r.block.at_place ∙ r.block.holds in
      let g : get_elem? (bytes_at content r.i c) c.offset ≡ get_elem? content p =
        ap (λ w. get_elem? w c.offset) d
        ∙ get_elem?-slice c.size r.b.base c.offset lt
        ∙ ap (get_elem? content) r.position in
      elim (Option-cases (get_elem? content p)) [
        | inl e ↦
            let k : read_at content r.i c ≡ (none, c) = rw (read_at, g ∙ e) refl in
            let a : after p ≡ p = rw (after, e) refl in
            (
              ap (λ (q : Option ℕ × Cache). q.0) k ∙ sym e,
              subst (λ (q : Option ℕ × Cache). Represents content q.1 (after p)) (sym k)
                  (subst (Represents content c) (sym a) r),
            )
        | inr (v, e) ↦
            let c' : Cache = record c { offset = c.offset + 1 } in
            let k : read_at content r.i c ≡ (some v, c') = rw (read_at, g ∙ e) refl in
            let a : after p ≡ p + 1 = rw (after, e) refl in
            let lt' = get_elem?-lt content p v e in
            let n = ap length r.block.holds ∙ length-slice content c.size r.b.base in
            let q = r.position in
            let next : Represents content c' (p + 1) = record {
              cached = record {
                positive = r.cached.positive;
                some_block = r.cached.some_block;
                loaded = r.cached.loaded;
              };
              i = r.i;
              b = r.b;
              at_index = r.at_index;
              block = record {
                at_place = r.block.at_place;
                is_loaded = r.block.is_loaded;
                holds = r.block.holds;
              };
              position = omega (arith, q);
              within = omega (arith, q, n, lt, lt');
              inside = omega (arith, lt');
            } in
            (
              ap (λ (q : Option ℕ × Cache). q.0) k ∙ sym e,
              subst (λ (q : Option ℕ × Cache). Represents content q.1 (after p)) (sym k)
                  (subst (Represents content c') (sym a) next),
            )
      ]

  read_at-index :
      (c : Cache) (p i : ℕ)
      → Represents content c p
      → c.index ≡ some i
      → c.offset < c.size
      → Reads (read_at content i c) p
  read_at-index c p i r e lt =
      subst (λ j. Reads (read_at content j c) p) (some_injective (sym r.at_index ∙ e))
        (read_at-Reads c p r lt)

  read_from-here :
      (c : Cache) (i : ℕ)
      → leb (length (bytes_at content i c)) c.offset ≡ false
      → read_from content (some i) c ≡ read_at content i c
  read_from-here c i a = rw (read_from, a) refl

  read_from-behind :
      (c : Cache) (i j : ℕ) (c' : Cache)
      → leb (length (bytes_at content i c)) c.offset ≡ true
      → get_cache_block content (c.offset + base_at content i c) c ≡ (some j, c')
      → read_from content (some i) c
        ≡ read_at content j (seated content j (c.offset + base_at content i c) c')
  read_from-behind c i j c' b e =
      let found = ap (λ (r : Option ℕ × Cache). r.0) e in
      let left = ap (λ (r : Option ℕ × Cache). r.1) e in rw (read_from, b, found, left) refl

  -- At any position, readByte reads the byte of the file there, or nothing at its end.
  pub read_byte-Reads : (c : Cache) (p : ℕ) → Represents content c p → Reads (read_byte content c) p
  unfolding read_byte
  read_byte-Reads c p r =
      let d = bytes_at-block content c r.i r.b r.block.at_place in
      let n = ap length r.block.holds ∙ length-slice content c.size r.b.base in
      elim (Bool-cases (leb (length (bytes_at content r.i c)) c.offset)) [
        | inr a ↦
            let k : read_byte content c ≡ read_at content r.i c =
              ap (λ o. read_from content o c) r.at_index ∙ read_from-here c r.i a in
            subst (λ q. Reads q p) (sym k) (read_at-Reads c p r (ground (arith, a, ap length d, n)))
        | inl a ↦
            let b = base_at-block content c r.i r.b r.block.at_place in
            let pos = c.offset + base_at content r.i c in
            let here : pos ≡ p = (let q = r.position in omega (arith, q, b)) in
            let l =
              get_cache_block-Loads content pos c r.cached
                (let s = r.inside in omega (arith, here, s)) in
            let seat =
              seated-Represents content pos c (let s = r.inside in omega (arith, here, s)) l in
            let k : read_byte content c ≡ read_at content l.i (seated content l.i pos l.c') =
              ap (λ o. read_from content o c) r.at_index
              ∙ read_from-behind c r.i l.i l.c' a l.result in
            let e = base_at-block content l.c' l.i l.b l.block.at_place in
            let near = l.near in
            subst (λ q. Reads q p) (sym k)
              (subst (Reads (read_at content l.i (seated content l.i pos l.c'))) here (
                read_at-index (seated content l.i pos l.c') pos l.i seat refl
                  (omega (arith, e, near))))
      ]

-- What is asked of the file: to go to a position, or to read a byte.
pub data Command : Type 0 where
  seek : ℕ → Command
  read : Command

abbrev pub IsInside : ℕ → Command → Type 0
IsInside size (seek pos) = pos ≤ size
IsInside size read = zero ≡ zero

abbrev pub AreInside : ℕ → List Command → Type 0
AreInside size [] = zero ≡ zero
AreInside size (c ∷ cs) = IsInside size c × AreInside size cs

-- The bytes read through the cache; it ends with the first seek that fails.
abbrev pub run_cache : List ℕ → List Command → Cache → List (Option ℕ)
run_cache content [] c = []
run_cache content (read ∷ cs) c =
    (read_byte content c).0 ∷ run_cache content cs (read_byte content c).1
run_cache content (seek pos ∷ cs) c =
    let rest = run_cache content cs (safe_seek content pos c).1 in
    if (safe_seek content pos c).0 then rest else none ∷ []

-- The bytes of the file from a position on, as fgetc and fseek give them.
abbrev pub run_file : List ℕ → List Command → ℕ → List (Option ℕ)
run_file content [] p = []
run_file content (read ∷ cs) p = get_elem? content p ∷ run_file content cs (after content p)
run_file content (seek pos ∷ cs) p = run_file content cs pos

seek-eq :
    (content : List ℕ) (cs : List Command) (pos p : ℕ) (c : Cache)
    → IsCached content c
    → pos ≤ length content
    → ((c' : Cache) → Represents content c' pos → run_cache content cs c' ≡ run_file content cs pos)
    → run_cache content (seek pos ∷ cs) c ≡ run_file content (seek pos ∷ cs) p
seek-eq content cs pos p c h le rest =
    let (ok, r) = safe_seek-Represents content pos c h le in
    rw ok (rest (safe_seek content pos c).1 r)

run_cache-Represents :
    (content : List ℕ) (cs : List Command) (c : Cache) (p : ℕ)
    → AreInside (length content) cs
    → Represents content c p
    → run_cache content cs c ≡ run_file content cs p
run_cache-Represents content [] c p i r = refl
run_cache-Represents content (read ∷ cs) c p i r =
    let (e, r') = read_byte-Reads content c p r in
    ap₂ (λ o os. o ∷ os) e
      (run_cache-Represents content cs (read_byte content c).1 (after content p) i.1 r')
run_cache-Represents content (seek pos ∷ cs) c p i r =
    seek-eq content cs pos p c r.cached i.0 λ c' r'. run_cache-Represents content cs c' pos i.1 r'

run_cache-run_file :
    (content : List ℕ) (size start p : ℕ) (cs : List Command)
    → 0 < size
    → start ≤ length content
    → AreInside (length content) cs
    → run_cache content (seek start ∷ cs) (new_cache size) ≡ run_file content (seek start ∷ cs) p
run_cache-run_file content size start p cs pos le i =
    seek-eq content cs start p (new_cache size)
      (record {
        positive = pos;
        some_block = omega arith;
        loaded = (inl refl, (inl refl, (inl refl, refl)));
      })
      le λ c' r. run_cache-Represents content cs c' start i r

cache_size_pos : (file_size : ℕ) → 0 < cache_size file_size
cache_size_pos file_size = omega arith

-- The cache is transparent: on a file just opened, after a first seek, seeks within the file and
-- reads of single bytes, of any number and in any order, give the bytes that they give without a
-- cache, and nothing at the end of the file.
pub open_cache-run_file :
    (content : List ℕ) (start p : ℕ) (cs : List Command)
    → start ≤ length content
    → AreInside (length content) cs
    → run_cache content (seek start ∷ cs) (open_cache content)
      ≡ run_file content (seek start ∷ cs) p
open_cache-run_file content start p cs le i =
    run_cache-run_file content (cache_size (length content)) start p cs
      (cache_size_pos (length content)) le i
