-- ===== src/FileLoader/Cache.antt =====
-- The cache of FileLoader (source/fileloader.h, source/fileloader.cpp: getCacheBlock, loadCacheBlock,
-- safeSeek, safeTell, readByte, readBytes). The bytes of a block are those that fread put there, so their number
-- is `size`. An unsigned long is taken to be of 32 bits: where it is longer, the -1 of loadCacheBlock
-- is not NO_VALID_CACHE. fseek does not fail here, and no position past the end of the file is read at.
pub mod Blocks
pub mod Seek
pub mod Refine
pub mod Bytes
mod Tests
use Prim.Native.Nat.{bit_and}
use othire.Base.Int.{ℤ, sub_ℕ}
use othire.Base.{
  ℕ, zero, suc, ◌+◌, ◌-◌, ◌*◌, List, [], ◌∷◌, ◌++◌, Bool, true, false, not, ◌&&◌, leb, ltb, ◌==◌,
  if◌then◌else◌, Option, none, some, length, get_elem?, take, drop, min, max, ◌/◌, ◌%◌,
}

-- _cache
pub record Block : Type 0 where
  pub loaded : Bool
  pub base : ℕ
  pub bytes : List ℕ

-- m_cache_size, m_cached_data, m_cache_index and m_cache_offset; no index is NO_VALID_CACHE
pub record Cache : Type 0 where
  pub size : ℕ
  pub blocks : List Block
  pub index : Option ℕ
  pub offset : ℕ

abbrev pub unloaded : Block
unloaded = record { loaded = false; base = 0; bytes = [] }

-- The cache of a file just opened.
abbrev pub new_cache : (size : ℕ) → Cache
new_cache size = record {
  size = size;
  blocks = unloaded ∷ unloaded ∷ unloaded ∷ [];
  index = none;
  offset = 0;
}

-- The size that openFile chooses: std::min(32768, std::max(file_size/20, 8192)) & ~0x1FFF
abbrev pub cache_size : (file_size : ℕ) → ℕ
cache_size file_size = let chosen = min 32768 (max (file_size / 20) 8192) in chosen - chosen % 8192

-- The cache of a file that openFile has opened for reading.
abbrev pub open_cache : List ℕ → Cache
open_cache content = new_cache (cache_size (length content))

-- pos & ~(m_cache_size - 1)
unfoldable pub base_pos : (size pos : ℕ) → ℕ
base_pos size pos = pos - bit_and pos (size - 1)

-- The loops over the blocks: the loaded block at a base, a block not loaded, and a block that is
-- more than two sizes away.
abbrev pub next_index : Option ℕ → Option ℕ
next_index none = none
next_index (some i) = some (suc i)

unfoldable pub find_loaded : (base : ℕ) → List Block → Option ℕ
find_loaded base [] = none
find_loaded base (b ∷ bs) =
    let rest = find_loaded base bs in if b.loaded && b.base == base then some 0 else next_index rest

unfoldable pub find_free : List Block → Option ℕ
find_free [] = none
find_free (b ∷ bs) = let rest = find_free bs in if not b.loaded then some 0 else next_index rest

unfoldable pub find_far : (size base : ℕ) → List Block → Option ℕ
find_far size base [] = none
find_far size base (b ∷ bs) =
    let rest = find_far size base bs in
    if ltb (2 * size) ((b.base - base) + (base - b.base)) then some 0 else next_index rest

unfoldable pub loading_cache : (size base : ℕ) → List Block → ℕ
loading_cache size base bs = elim (find_free bs) [
  | some i ↦ i
  | none ↦ elim (find_far size base bs) [ some i ↦ i | none ↦ 0 ]
]

abbrev pub change_block : ℕ → (Block → Block) → List Block → List Block
change_block i f [] = []
change_block zero f (b ∷ bs) = f b ∷ bs
change_block (suc i) f (b ∷ bs) = b ∷ change_block i f bs

-- Bytes in front of those that a later round reads.
abbrev pub behind : List ℕ → Option (Option (List ℕ) × Cache) → Option (Option (List ℕ) × Cache)
behind bytes none = none
behind bytes (some (none, c)) = some (none, c)
behind bytes (some (some more, c)) = some (some (bytes ++ more), c)

module _ (content : List ℕ) where
  -- What fread reads from the base of a block.
  abbrev pub slice : (size base : ℕ) → List ℕ
  slice size base = take size (drop base content)

  unfoldable pub load_cache_block : ℕ → Cache → Option ℕ × Cache
  load_cache_block pos c =
      let base = base_pos c.size pos in
      let i = loading_cache c.size base c.blocks in
      let read = slice c.size base in
      if ltb (length read) (pos - base)
      then (
        none,
        record c { blocks = change_block i (λ b. record b { base = base; bytes = read }) c.blocks },
      )
      else (
        some i,
        record c {
          blocks =
              change_block i (λ b. record { loaded = true; base = base; bytes = read }) c.blocks;
        },
      )

  unfoldable pub get_cache_block : ℕ → Cache → Option ℕ × Cache
  get_cache_block pos c = elim (find_loaded (base_pos c.size pos) c.blocks) [
    | some i ↦ (some i, c)
    | none ↦ load_cache_block pos c
  ]

  abbrev pub base_at : ℕ → Cache → ℕ
  base_at i c = elim (get_elem? c.blocks i) [ none ↦ 0 | some b ↦ b.base ]

  abbrev pub bytes_at : ℕ → Cache → List ℕ
  bytes_at i c = elim (get_elem? c.blocks i) [ none ↦ [] | some b ↦ b.bytes ]

  abbrev pub seated : (i pos : ℕ) → Cache → Cache
  seated i pos c = record c { index = some i; offset = pos - base_at i c }

  unfoldable pub safe_seek : ℕ → Cache → Bool × Cache
  safe_seek pos c =
      let r = get_cache_block pos c in
      elim r.0 [ none ↦ (false, r.1) | some i ↦ (true, seated i pos r.1) ]

  -- The byte at m_cache_offset of the block, and the next offset.
  abbrev pub read_at : ℕ → Cache → Option ℕ × Cache
  read_at i c = elim (get_elem? (bytes_at i c) c.offset) [
    | none ↦ (none, c)
    | some value ↦ (some value, record c { offset = c.offset + 1 })
  ]

  -- readByte, with m_cache_index: none for false
  abbrev pub read_from : Option ℕ → Cache → Option ℕ × Cache
  read_from none c = (none, c)
  read_from (some i) c =
      if leb (length (bytes_at i c)) c.offset
      then (let pos = c.offset + base_at i c in
          let r = get_cache_block pos c in
          elim r.0 [ none ↦ (none, r.1) | some j ↦ read_at j (seated j pos r.1) ])
      else read_at i c

  unfoldable pub read_byte : Cache → Option ℕ × Cache
  read_byte c = read_from c.index c

  -- safeTell, whose position may be -1; none for false
  unfoldable pub safe_tell : Cache → Option ℤ
  safe_tell c = elim c.index [ none ↦ none | some i ↦ some (sub_ℕ (base_at i c + c.offset) 1) ]

  -- readBytes: the bytes put into the buffer, or none for false. A round for each unit of fuel, and
  -- none of the outer kind if it runs out.
  unfoldable pub read_bytes : (fuel remain pos : ℕ) → Cache → Option (Option (List ℕ) × Cache)
  read_bytes zero remain pos c = none
  read_bytes (suc fuel) remain pos c =
      let r = get_cache_block pos c in
      elim r.0 [
        | none ↦ some (none, r.1)
        | some i ↦
            let c' = seated i pos r.1 in
            let bytes = take remain (drop c'.offset (bytes_at i c')) in
            let reading = length bytes in
            let next = record c' { offset = c'.offset + reading } in
            let rest = read_bytes fuel (remain - reading) (pos + reading) next in
            if remain - reading == 0 then some (some bytes, next) else behind bytes rest
      ]
