-- ===== src/FileLoader/Cache/Tests.antt =====
-- Runs of the cache, and its theorems at concrete inputs. The caches here have blocks of 2 and 4 bytes.
use othire.Base.{ℕ, List, [], ◌∷◌, none, some, inl, ◌≡◌, refl, arith}
use othire.FileLoader.Cache.{
  new_cache, open_cache, base_pos, find_loaded, find_free, find_far, loading_cache,
  load_cache_block, get_cache_block, safe_seek, read_byte, read_bytes,
}
use othire.FileLoader.Cache.Refine.{Command, seek, read, run_cache, run_file, open_cache-run_file}
use othire.FileLoader.Cache.Seek.{IsCached}
use othire.FileLoader.Cache.Bytes.{HasRead, read_bytes-HasRead}

abbrev nine : List ℕ
nine = 10 ∷ 11 ∷ 12 ∷ 13 ∷ 14 ∷ 15 ∷ 16 ∷ 17 ∷ 18 ∷ []

base_of_six : base_pos 4 6 ≡ 4
unfolding base_pos
base_of_six = refl

-- A size that is no power of 2: the blocks overlap.
base_of_overlap : base_pos 24576 24576 ≡ 8192
unfolding base_pos
base_of_overlap = refl

-- Four blocks are read into three places.
abbrev wander : List Command
wander = read ∷ read ∷ seek 7 ∷ read ∷ read ∷ read ∷ seek 0 ∷ read ∷ seek 5 ∷ read ∷ []

through_the_cache :
    run_cache nine (seek 1 ∷ wander) (new_cache 2)
    ≡ some 11 ∷ some 12 ∷ some 17 ∷ some 18 ∷ none ∷ some 10 ∷ some 15 ∷ []
unfolding base_pos find_loaded find_free find_far loading_cache load_cache_block get_cache_block
    safe_seek read_byte
through_the_cache = refl

open_cache-run_file_example :
    run_cache nine (seek 1 ∷ wander) (open_cache nine) ≡ run_file nine (seek 1 ∷ wander) 0
open_cache-run_file_example = open_cache-run_file nine 1 0 wander (omega arith) (
  refl,
  (refl, (omega arith, (refl, (refl, (refl, (omega arith, (refl, (omega arith, (refl, refl))))))))),
)

new_cache-IsCached : IsCached nine (new_cache 4)
new_cache-IsCached = record {
  positive = omega arith;
  some_block = omega arith;
  loaded = (inl refl, (inl refl, (inl refl, refl)));
}

read_bytes-HasRead_example : HasRead nine (read_bytes nine 7 6 2 (new_cache 4)) 6 2
read_bytes-HasRead_example =
    read_bytes-HasRead nine 7 6 2 (new_cache 4) new_cache-IsCached (omega arith) (omega arith)
