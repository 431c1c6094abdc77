-- ===== src/Memory/Pool.antt =====
-- The pool of small blocks (src/runtime/memory.c): chunks of 256 blocks of 64 bytes. A chunk is the
-- address of its first block and its bitmap, of which bit i % 64 of word i / 64 stands at i. What
-- `calloc` answers for a new chunk is a parameter.
pub mod Blocks
pub mod Taking
use bread_lang.Prelude.{
  ℕ, suc, ◌+◌, ◌-◌, ◌*◌, ◌/◌, Bool, true, false, not, ◌&&◌, Option, none, some, List, [], ◌∷◌, ltb,
  leb, ◌==◌, if◌then◌else◌, set, get_or, replicate,
}

abbrev pub block_size : ℕ
block_size = 64

abbrev pub blocks_per_chunk : ℕ
blocks_per_chunk = 256

-- `BreadMemoryChunk`
pub record Chunk : Type 0 where
  pub start : ℕ
  pub free_bitmap : List Bool
  pub free_count : ℕ

-- `BreadMemoryPool`
pub record MemoryPool : Type 0 where
  pub chunks : List Chunk
  pub total_chunks : ℕ

-- `bread_pool_alloc_chunk`, for memory at an address
unfoldable pub pool_alloc_chunk : ℕ → Chunk
pool_alloc_chunk a = record { start = a; free_bitmap = replicate 256 true; free_count = 256 }

-- The first set bit of the bitmap: the loop over the words, and `__builtin_ctzll`
abbrev pub later : Option ℕ → Option ℕ
later none = none
later (some i) = some (suc i)

unfoldable pub first_free : List Bool → Option ℕ
first_free [] = none
first_free (true ∷ bs) = some 0
first_free (false ∷ bs) = later (first_free bs)

-- A block of the first chunk is taken.
abbrev pub take_found : Chunk → List Chunk → ℕ → Option ℕ → Option ℕ × MemoryPool
take_found c cs total none = (none, record { chunks = c ∷ cs; total_chunks = total })
take_found c cs total (some i) = (
  some (c.start + i * 64),
  record {
    chunks =
        record c { free_bitmap = set c.free_bitmap i false; free_count = c.free_count - 1 } ∷ cs;
    total_chunks = total;
  },
)

unfoldable pub take_block : Chunk → List Chunk → ℕ → Option ℕ × MemoryPool
unfolding first_free
take_block c cs total = take_found c cs total (first_free c.free_bitmap)

unfoldable pub from_new_chunk : Option ℕ → MemoryPool → Option ℕ × MemoryPool
unfolding take_block pool_alloc_chunk
from_new_chunk none p = (none, p)
from_new_chunk (some a) p = take_block (pool_alloc_chunk a) p.chunks (p.total_chunks + 1)

abbrev pub alloc_from : Option ℕ → MemoryPool → List Chunk → Option ℕ × MemoryPool
alloc_from fresh p [] = from_new_chunk fresh p
alloc_from fresh p (c ∷ cs) =
    if c.free_count == 0 then from_new_chunk fresh p else take_block c cs p.total_chunks

-- `bread_pool_alloc`
unfoldable pub pool_alloc : Option ℕ → MemoryPool → Option ℕ × MemoryPool
unfolding from_new_chunk take_block
pool_alloc fresh p = alloc_from fresh p p.chunks

-- Whether an address is that of a byte of the chunk's blocks.
unfoldable pub contains_address : Chunk → ℕ → Bool
contains_address c a = leb c.start a && ltb a (c.start + 16384)

-- The first chunk that contains the address takes the block back.
unfoldable pub free_in : List Chunk → ℕ → Bool × List Chunk
unfolding contains_address
free_in [] a = (false, [])
free_in (c ∷ cs) a =
    let rest = free_in cs a in
    if contains_address c a
    then (
      true,
      record c {
        free_bitmap = set c.free_bitmap ((a - c.start) / 64) true;
        free_count = c.free_count + 1;
      }
          ∷ cs,
    )
    else (rest.0, c ∷ rest.1)

-- `bread_pool_free` of a pointer that is not NULL
unfoldable pub pool_free : ℕ → MemoryPool → Bool × MemoryPool
unfolding free_in
pool_free a p = let (found, cs) = free_in p.chunks a in (found, record p { chunks = cs })

-- `bread_pool_cleanup`
abbrev pub pool_cleanup : MemoryPool → MemoryPool
pool_cleanup p = record { chunks = []; total_chunks = 0 }
