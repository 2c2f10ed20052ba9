-- ===== src/FileLoader/Cache/Bytes.antt =====
-- Many bytes read through the cache (source/fileloader.cpp, readBytes).
use othire.Base.{
  ℕ, zero, suc, ◌+◌, ◌-◌, min, ◌<◌, ◌≤◌, ◌≡◌, refl, sym, ap, subst, ◌∙◌, List, [], ◌∷◌, ◌++◌, ◌==◌,
  if◌then◌else◌, Option, some, length, take, drop, arith, inl, inr, Bool-cases, length-take,
  length-drop, drop-drop,
}
use othire.FileLoader.Cache.{Cache, get_cache_block, bytes_at, seated, behind, read_bytes}
use othire.FileLoader.Cache.Seek.{
  IsCached, Loads, length-slice, Represents, get_cache_block-Loads, seated-Represents,
  base_at-block, bytes_at-block,
}

take_nil : (n : ℕ) → take {A = ℕ} n [] ≡ []
take_nil zero = refl
take_nil (suc n) = refl

drop-take : (m n : ℕ) (xs : List ℕ) → drop m (take n xs) ≡ take (n - m) (drop m xs)
drop-take zero n xs = let e : n - zero ≡ n = omega arith in rw e refl
drop-take (suc m) zero xs = let e : zero - suc m ≡ zero = omega arith in rw e refl
drop-take (suc m) (suc n) [] = sym (take_nil (suc n - suc m))
drop-take (suc m) (suc n) (x ∷ xs) =
    let e : suc n - suc m ≡ n - m = omega arith in rw e (drop-take m n xs)

take-take : (m n : ℕ) (xs : List ℕ) → take m (take n xs) ≡ take (min m n) xs
take-take zero n xs = let e : min zero n ≡ zero = omega arith in rw e refl
take-take (suc m) zero xs = let e : min (suc m) zero ≡ zero = omega arith in rw e refl
take-take (suc m) (suc n) [] = sym (take_nil (min (suc m) (suc n)))
take-take (suc m) (suc n) (x ∷ xs) =
    let e : min (suc m) (suc n) ≡ suc (min m n) = omega arith in
    rw e (ap (λ ys. x ∷ ys) (take-take m n xs))

take_add : (m n : ℕ) (xs : List ℕ) → take m xs ++ take n (drop m xs) ≡ take (m + n) xs
take_add zero n xs = let e : zero + n ≡ n = omega arith in rw e refl
take_add (suc m) n [] = take_nil n ∙ sym (take_nil (suc m + n))
take_add (suc m) n (x ∷ xs) =
    let e : suc m + n ≡ suc (m + n) = omega arith in rw e (ap (λ ys. x ∷ ys) (take_add m n xs))

module _ (content : List ℕ) where
  -- The bytes of a round, and the cache after it.
  abbrev chunk : (remain i : ℕ) → Cache → List ℕ
  chunk remain i c = take remain (drop c.offset (bytes_at content i c))

  abbrev moved_on : ℕ → Cache → Cache
  moved_on n c = record c { offset = c.offset + n }

  read_bytes-round :
      (fuel remain pos : ℕ) (c : Cache) (i : ℕ) (c' : Cache)
      → get_cache_block content pos c ≡ (some i, c')
      → let seat = seated content i pos c' in
        let bytes = chunk remain i seat in
        read_bytes content (suc fuel) remain pos c ≡ (
          if remain - length bytes == 0
          then some (some bytes, moved_on (length bytes) seat)
          else behind bytes (
              read_bytes content fuel
                (remain - length bytes)
                (pos + length bytes)
                (moved_on (length bytes) seat)))
  unfolding read_bytes
  read_bytes-round fuel remain pos c i c' e =
      let found = ap (λ (r : Option ℕ × Cache). r.0) e in
      let left = ap (λ (r : Option ℕ × Cache). r.1) e in rw (read_bytes, found, left) refl

  -- The bytes of a round are those of the file.
  chunk-eq :
      (remain pos : ℕ) (c : Cache) (l : Loads content pos c)
      → chunk remain l.i (seated content l.i pos l.c')
        ≡ take (min remain (l.c'.size - (pos - l.b.base))) (drop pos content)
  chunk-eq remain pos c l =
      let e = ap (λ b. pos - b) (base_at-block content l.c' l.i l.b l.block.at_place) in
      let d = bytes_at-block content l.c' l.i l.b l.block.at_place ∙ l.block.holds in
      let o = pos - l.b.base in
      let low = l.below in
      let p : l.b.base + o ≡ pos = omega (arith, low) in
      ap (λ n. take remain (drop n (bytes_at content l.i l.c'))) e
      ∙ ap (λ bs. take remain (drop o bs)) d
      ∙ ap (take remain) (
          drop-take o l.c'.size (drop l.b.base content)
          ∙ ap (take (l.c'.size - o)) (drop-drop o l.b.base content ∙ ap (λ n. drop n content) p))
      ∙ take-take remain (l.c'.size - o) (drop pos content)

  length-chunk :
      (remain pos : ℕ) (c : Cache) (l : Loads content pos c)
      → pos + remain ≤ length content
      → length (chunk remain l.i (seated content l.i pos l.c'))
        ≡ min remain (l.c'.size - (pos - l.b.base))
  length-chunk remain pos c l le =
      let k = min remain (l.c'.size - (pos - l.b.base)) in
      let e =
        ap length (chunk-eq remain pos c l)
        ∙ length-take k (drop pos content)
        ∙ ap (min k) (length-drop pos content) in
      omega (arith, e, le)

  moved_on-Represents :
      (n pos : ℕ) (c : Cache)
      → Represents content c pos
      → c.offset + n ≤ c.size
      → pos + n ≤ length content
      → Represents content (moved_on n c) (pos + n)
  moved_on-Represents n pos c r fits le =
      let k = ap length r.block.holds ∙ length-slice content c.size r.b.base in
      let q = r.position in
      record {
        cached = record {
          positive = r.cached.positive;
          some_block = r.cached.some_block;
          loaded = r.cached.loaded;
        };
        i = r.i;
        b = r.b;
        at_index = r.at_index;
        block = record {
          at_place = r.block.at_place;
          is_loaded = r.block.is_loaded;
          holds = r.block.holds;
        };
        position = omega (arith, q);
        within = omega (arith, q, k, fits, le);
        inside = le;
      }

  -- The bytes of the file from a position on were read, and the cache stands behind them.
  abbrev pub HasRead : Option (Option (List ℕ) × Cache) → (remain pos : ℕ) → Type 0
  HasRead r remain pos =
      (c' : Cache) × (r ≡ some (some (take remain (drop pos content)), c'))
      × Represents content c' (pos + remain)

  behind-HasRead :
      (bytes : List ℕ) (r : Option (Option (List ℕ) × Cache)) (n remain pos : ℕ)
      → bytes ≡ take n (drop pos content)
      → n ≤ remain
      → HasRead r (remain - n) (pos + n)
      → HasRead (behind bytes r) remain pos
  behind-HasRead bytes r n remain pos e le (c', k, rep) =
      let more = take (remain - n) (drop (pos + n) content) in
      let joined : bytes ++ more ≡ take remain (drop pos content) =
        ap (λ bs. bs ++ more) e
        ∙ ap (λ xs. take n (drop pos content) ++ take (remain - n) xs)
            (sym (drop-drop n pos content))
        ∙ take_add n (remain - n) (drop pos content)
        ∙ ap (λ m. take m (drop pos content)) (omega (arith, le)) in
      let at : pos + n + (remain - n) ≡ pos + remain = omega (arith, le) in
      (
        c',
        ap (behind bytes) k ∙ ap (λ bs. some (some bs, c')) joined,
        subst (Represents content c') at rep,
      )

  -- readBytes of a part of the file reads the bytes of the part, in at most one round for each byte
  -- and one more, and leaves the cache behind them.
  pub read_bytes-HasRead :
      (fuel remain pos : ℕ) (c : Cache)
      → IsCached content c
      → pos + remain ≤ length content
      → remain < fuel
      → HasRead (read_bytes content fuel remain pos c) remain pos
  read_bytes-HasRead zero remain pos c h le lt =
      let no : remain < 0 = lt in absurd (omega (arith, no))
  read_bytes-HasRead (suc fuel) remain pos c h le lt =
      let l = get_cache_block-Loads content pos c h (omega (arith, le)) in
      let seat = seated content l.i pos l.c' in
      let bytes = chunk remain l.i seat in
      let n = length bytes in
      let o = base_at-block content l.c' l.i l.b l.block.at_place in
      let near = l.near in
      let ln = length-chunk remain pos c l le in
      let same : bytes ≡ take n (drop pos content) =
        chunk-eq remain pos c l ∙ ap (λ m. take m (drop pos content)) (sym ln) in
      let round = read_bytes-round fuel remain pos c l.i l.c' l.result in
      let next =
        moved_on-Represents n pos seat (seated-Represents content pos c (omega (arith, le)) l)
          (omega (arith, o, near, ln)) (omega (arith, le, ln)) in
      subst (λ r. HasRead r remain pos) (sym round)
        (elim (Bool-cases (remain - n == 0)) [
          | inl a ↦
              let all : n ≡ remain = ground (arith, a, ln) in
              rw a (
                moved_on n seat,
                ap (λ bs. some (some bs, moved_on n seat))
                    (same ∙ ap (λ m. take m (drop pos content)) all),
                subst (λ m. Represents content (moved_on n seat) (pos + m)) all next,
              )
          | inr a ↦
              let rest =
                read_bytes-HasRead fuel (remain - n) (pos + n) (moved_on n seat) next.cached
                  (omega (arith, le, ln)) (ground (arith, a, ln, near, lt)) in
              rw a (behind-HasRead bytes _ n remain pos same (omega (arith, ln)) rest)
        ])
