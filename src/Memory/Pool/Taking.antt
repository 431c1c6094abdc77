-- ===== src/Memory/Pool/Taking.antt =====
-- Taking a block of the pool, and giving it back.
use bread_lang.Prelude.{
  ℕ, ◌+◌, ◌-◌, ◌/◌, ◌≤◌, ◌<◌, ◌≡◌, refl, sym, ap, ◌∙◌, ◌⊎◌, inl, inr, Bool, true, false, not,
  Option, none, some, List, [], ◌∷◌, ◌==◌, if◌then◌else◌, get_or-replicate, Bool-cases,
  Option-cases, arith,
}
use bread_lang.Memory.Pool.{
  Chunk, MemoryPool, pool_alloc_chunk, first_free, take_block, from_new_chunk, alloc_from,
  pool_alloc, contains_address, pool_free,
}
use bread_lang.Memory.Pool.Blocks.{
  count_free, ChunkIsValid, ChunksAreValid, in_use, in_block, Apart, first_free-none, Taken,
  in_use-outside, in_use-inside, without-Taken, free_in-without,
}

-- The pool is full: its first chunk, if there is one, has no free block.
abbrev pub is_full : List Chunk → Bool
is_full [] = true
is_full (c ∷ cs) = c.free_count == 0

-- The chunks among which the block is taken: those of the pool, and a new one if it is full.
abbrev pub with_room : MemoryPool → Option ℕ → MemoryPool
with_room p none = p
with_room p (some f) =
    if is_full p.chunks
    then record { chunks = pool_alloc_chunk f ∷ p.chunks; total_chunks = p.total_chunks + 1 }
    else p

abbrev pub FreshIsApart : List Chunk → Option ℕ → Type 0
FreshIsApart cs none = Unit
FreshIsApart cs (some f) = Apart cs f

-- What `bread_pool_alloc` does: nothing, if the pool is full and no chunk is given, else it takes a block.
pub data Allocates (fresh : Option ℕ) (p : MemoryPool) : Option ℕ × MemoryPool → Type 0 where
  full : is_full p.chunks ≡ true → fresh ≡ none → Allocates fresh p (none, p)
  takes :
      {a : ℕ} {q : MemoryPool}
      → Taken p.chunks a q.chunks
      → pool_free a q ≡ (true, with_room p fresh)
      → Allocates fresh p (some a, q)

-- A chunk with a free block.
pub data Takes (c : Chunk) (cs : List Chunk) (total : ℕ) : Option ℕ × MemoryPool → Type 0 where
  takes_block :
      {a : ℕ} {q : MemoryPool}
      → Taken (c ∷ cs) a q.chunks
      → pool_free a q ≡ (true, record { chunks = c ∷ cs; total_chunks = total })
      → Takes c cs total (some a, q)

take_block-Takes :
    (c : Chunk) (cs : List Chunk) (total : ℕ)
    → ChunkIsValid c
    → ChunksAreValid cs
    → 0 < c.free_count
    → Takes c cs total (take_block c cs total)
unfolding take_block pool_free
take_block-Takes c cs total h k room = elim (Option-cases (first_free c.free_bitmap)) [
  | inl lost ↦ absurd (omega (arith, h.counted, first_free-none c.free_bitmap lost))
  | inr (i, found) ↦
      rw found (takes_block (without-Taken c cs i found h k) (rw (free_in-without c cs i found h)))
]

new_chunk-IsValid : (f : ℕ) → ChunkIsValid (pool_alloc_chunk f)
unfolding pool_alloc_chunk count_free
new_chunk-IsValid f = record { size = refl; counted = refl }

in_use-Apart :
    (cs : List Chunk) (f b : ℕ)
    → Apart cs f
    → contains_address (pool_alloc_chunk f) b ≡ true
    → in_use cs b ≡ false
unfolding in_use pool_alloc_chunk contains_address
in_use-Apart [] f b h k = refl
in_use-Apart (c ∷ cs) f b h k =
    let out : contains_address c b ≡ false = outside c h.0 in
    rw (in_use-outside c cs b out) (in_use-Apart cs f b h.1 k)
  where
    outside :
        (c : Chunk) → (c.start + 16384 ≤ f) ⊎ (f + 16384 ≤ c.start) → contains_address c b ≡ false
    outside c (inl d) = ground arith
    outside c (inr d) = ground arith

-- A new chunk has no block in use.
in_use-new :
    (cs : List Chunk) (f b : ℕ) → Apart cs f → in_use (pool_alloc_chunk f ∷ cs) b ≡ in_use cs b
unfolding pool_alloc_chunk
in_use-new cs f b h = elim (Bool-cases (contains_address (pool_alloc_chunk f) b)) [
  | inr out ↦ in_use-outside (pool_alloc_chunk f) cs b out
  | inl within ↦
      in_use-inside (pool_alloc_chunk f) cs b within
      ∙ ap not (get_or-replicate 256 ((b - f) / 64) true)
      ∙ sym (in_use-Apart cs f b h within)
]

Takes-Allocates :
    (f : ℕ) (p : MemoryPool) (o : Option ℕ × MemoryPool)
    → is_full p.chunks ≡ true
    → Apart p.chunks f
    → Takes (pool_alloc_chunk f) p.chunks (p.total_chunks + 1) o
    → Allocates (some f) p o
Takes-Allocates f p o full_up apart (takes_block {a} {q} t back) =
    takes
      (record {
        unused = sym (in_use-new p.chunks f a apart) ∙ t.unused;
        reads = λ b.
            t.reads b ∙ ap (λ u. if in_block a b then true else u) (in_use-new p.chunks f b apart);
        valid = t.valid;
      })
      (rw full_up back)

from_new_chunk-Allocates :
    (fresh : Option ℕ) (p : MemoryPool)
    → ChunksAreValid p.chunks
    → is_full p.chunks ≡ true
    → FreshIsApart p.chunks fresh
    → Allocates fresh p (from_new_chunk fresh p)
unfolding from_new_chunk
from_new_chunk-Allocates none p h full_up apart = full full_up refl
from_new_chunk-Allocates (some f) p h full_up apart =
    Takes-Allocates f p (take_block (pool_alloc_chunk f) p.chunks (p.total_chunks + 1)) full_up
      apart
      (take_block-Takes (pool_alloc_chunk f) p.chunks (p.total_chunks + 1) (new_chunk-IsValid f) h
        room)
  where
    room : 0 < (pool_alloc_chunk f).free_count
    room = omega arith

Takes-old :
    (fresh : Option ℕ) (c : Chunk) (cs : List Chunk) (total : ℕ) (o : Option ℕ × MemoryPool)
    → (c.free_count == 0) ≡ false
    → Takes c cs total o
    → Allocates fresh (record { chunks = c ∷ cs; total_chunks = total }) o
Takes-old none c cs total o room (takes_block t back) = takes t back
Takes-old (some f) c cs total o room (takes_block t back) = takes t (rw room back)

alloc_from-Allocates :
    (fresh : Option ℕ) (cs : List Chunk) (total : ℕ)
    → ChunksAreValid cs
    → FreshIsApart cs fresh
    → Allocates fresh
        (record { chunks = cs; total_chunks = total })
        (alloc_from fresh (record { chunks = cs; total_chunks = total }) cs)
alloc_from-Allocates fresh [] total h apart = from_new_chunk-Allocates fresh _ h refl apart
alloc_from-Allocates fresh (c ∷ cs) total h apart = elim (Bool-cases (c.free_count == 0)) [
  | inl none_left ↦ rw none_left (
      from_new_chunk-Allocates fresh (record { chunks = c ∷ cs; total_chunks = total }) h none_left
        apart)
  | inr room ↦
      let some_left : 0 < c.free_count = ground arith in
      rw room (
        Takes-old fresh c cs total (take_block c cs total) room
          (take_block-Takes c cs total h.0 h.1 some_left))
]

-- On a valid pool, with a new chunk apart from the others, `bread_pool_alloc` fails only when the pool is
-- full and no chunk is given. Else it returns a block that was not in use, all others stay as they were,
-- and the pool is valid; and `bread_pool_free` of that block restores the pool, with the new chunk if
-- there is one.
pub pool_alloc-Allocates :
    (fresh : Option ℕ) (p : MemoryPool)
    → ChunksAreValid p.chunks
    → FreshIsApart p.chunks fresh
    → Allocates fresh p (pool_alloc fresh p)
unfolding pool_alloc
pool_alloc-Allocates fresh p h apart = alloc_from-Allocates fresh p.chunks p.total_chunks h apart
