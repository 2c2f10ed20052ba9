-- ===== src/FileLoader/Cache/Seek.antt =====
-- Where the cache stands in the file, and seeking there (source/fileloader.cpp, getCacheBlock and
-- safeSeek).
use othire.Base.{
  ℕ, ◌+◌, ◌-◌, min, ◌<◌, ◌≤◌, ◌≡◌, refl, sym, ap, subst, ◌∙◌, List, Bool, true, false, ltb, Option,
  some, length, get_elem?, drop, arith, inl, inr, Option-cases, length-take, length-drop,
}
use othire.FileLoader.Cache.{
  Block, Cache, base_pos, find_loaded, loading_cache, change_block, slice, load_cache_block,
  get_cache_block, base_at, bytes_at, seated, safe_seek,
}
use othire.FileLoader.Cache.Blocks.{
  base_pos-bounds, find_loaded-at, loading_cache-lt, change_block-at, length-change_block,
  AreLoaded, AreLoaded-at, change_block-AreLoaded,
}

module _ (content : List ℕ) where
  pub record IsCached (c : Cache) : Type 0 where
    pub positive : 0 < c.size
    pub some_block : 0 < length c.blocks
    pub loaded : AreLoaded content c.size c.blocks

  -- A block that is loaded, at the place i.
  pub record IsBlock (c : Cache) (i : ℕ) (b : Block) : Type 0 where
    pub at_place : get_elem? c.blocks i ≡ some b
    pub is_loaded : b.loaded ≡ true
    pub holds : b.bytes ≡ slice content c.size b.base

  -- getCacheBlock returns a loaded block that the position is in.
  pub record Loads (pos : ℕ) (c : Cache) : Type 0 where
    pub i : ℕ
    pub c' : Cache
    pub b : Block
    pub result : get_cache_block content pos c ≡ (some i, c')
    pub cached : IsCached c'
    pub block : IsBlock c' i b
    pub same_size : c'.size ≡ c.size
    pub below : b.base ≤ pos
    pub near : pos - b.base < c'.size

  pub length-slice :
      (size base : ℕ) → length (slice content size base) ≡ min size (length content - base)
  length-slice size base =
      length-take size (drop base content) ∙ ap (min size) (length-drop base content)

  pub get_cache_block-Loads :
      (pos : ℕ) (c : Cache) → IsCached c → pos ≤ length content → Loads pos c
  unfolding get_cache_block load_cache_block
  get_cache_block-Loads pos c h le =
      let base = base_pos c.size pos in
      let (low, near) = base_pos-bounds c.size pos h.positive in
      elim (Option-cases (find_loaded base c.blocks)) [
        | inr (i, e) ↦
            let (b, k, l, q) = find_loaded-at base c.blocks i e in
            record {
              i = i;
              c' = c;
              b = b;
              result = rw (get_cache_block, e) refl;
              cached = h;
              block = record {
                at_place = k;
                is_loaded = l;
                holds = AreLoaded-at content c.size c.blocks i b h.loaded k l;
              };
              same_size = refl;
              below = omega (arith, low, q);
              near = omega (arith, near, q);
            }
        | inl e ↦
            let i = loading_cache c.size base c.blocks in
            let new : Block = record {
              loaded = true;
              base = base;
              bytes = slice content c.size base;
            } in
            let (old, k) =
              change_block-at i (λ b. new) c.blocks
                (loading_cache-lt c.size base c.blocks h.some_block) in
            let n = length-slice c.size base in
            let enough : ltb (length (slice content c.size base)) (pos - base) ≡ false =
              ground (arith, n, near, low, le) in
            record {
              i = i;
              c' = record c { blocks = change_block i (λ b. new) c.blocks };
              b = new;
              result = rw (get_cache_block, e) (rw (load_cache_block, enough) refl);
              cached = record {
                positive = h.positive;
                some_block =
                    (let l = length-change_block i (λ b. new) c.blocks in
                      let s = h.some_block in omega (arith, l, s));
                loaded =
                    change_block-AreLoaded content c.size i (λ b. new) c.blocks (λ b. refl)
                      h.loaded;
              };
              block = record { at_place = k; is_loaded = refl; holds = refl };
              same_size = refl;
              below = low;
              near = near;
            }
      ]

  -- The cache stands at a position of the file.
  pub record Represents (c : Cache) (p : ℕ) : Type 0 where
    pub cached : IsCached c
    pub i : ℕ
    pub b : Block
    pub at_index : c.index ≡ some i
    pub block : IsBlock c i b
    pub position : b.base + c.offset ≡ p
    pub within : c.offset ≤ length b.bytes
    pub inside : p ≤ length content

  pub base_at-block :
      (c : Cache) (i : ℕ) (b : Block) → get_elem? c.blocks i ≡ some b → base_at content i c ≡ b.base
  base_at-block c i b e = rw (base_at, e) refl

  pub bytes_at-block :
      (c : Cache) (i : ℕ) (b : Block)
      → get_elem? c.blocks i ≡ some b
      → bytes_at content i c ≡ b.bytes
  bytes_at-block c i b e = rw (bytes_at, e) refl

  -- A seek to a position that the block is loaded for.
  pub seated-Represents :
      (pos : ℕ) (c : Cache)
      → pos ≤ length content
      → (l : Loads pos c) → Represents (seated content l.i pos l.c') pos
  seated-Represents pos c le l =
      let e = base_at-block l.c' l.i l.b l.block.at_place in
      let n = ap length l.block.holds ∙ length-slice l.c'.size l.b.base in
      let low = l.below in
      let near = l.near in
      record {
        cached = record {
          positive = l.cached.positive;
          some_block = l.cached.some_block;
          loaded = l.cached.loaded;
        };
        i = l.i;
        b = l.b;
        at_index = refl;
        block = record {
          at_place = l.block.at_place;
          is_loaded = l.block.is_loaded;
          holds = l.block.holds;
        };
        position = omega (arith, e, low);
        within = omega (arith, e, n, near, le);
        inside = le;
      }

  safe_seek-eq :
      (pos : ℕ) (c : Cache) (i : ℕ) (c' : Cache)
      → get_cache_block content pos c ≡ (some i, c')
      → safe_seek content pos c ≡ (true, seated content i pos c')
  unfolding safe_seek
  safe_seek-eq pos c i c' e =
      let found = ap (λ (r : Option ℕ × Cache). r.0) e in
      let left = ap (λ (r : Option ℕ × Cache). r.1) e in rw (safe_seek, found, left) refl

  -- A seek within the file succeeds.
  pub safe_seek-Represents :
      (pos : ℕ) (c : Cache)
      → IsCached c
      → pos ≤ length content
      → ((safe_seek content pos c).0 ≡ true) × Represents (safe_seek content pos c).1 pos
  safe_seek-Represents pos c h le =
      let l = get_cache_block-Loads pos c h le in
      let k : safe_seek content pos c ≡ (true, seated content l.i pos l.c') =
        safe_seek-eq pos c l.i l.c' l.result in
      (
        ap (λ (r : Bool × Cache). r.0) k,
        subst (λ (r : Bool × Cache). Represents r.1 pos) (sym k) (seated-Represents pos c le l),
      )
