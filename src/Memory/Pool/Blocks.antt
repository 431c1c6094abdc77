-- ===== src/Memory/Pool/Blocks.antt =====
-- Which blocks of the pool are in use.
use bread_lang.Prelude.{
  ℕ, zero, suc, ◌+◌, ◌-◌, ◌*◌, ◌/◌, ◌≤◌, ◌<◌, ◌≡◌, ◌≢◌, refl, ap, ◌∙◌, subst, ◌⊎◌, inl, inr, Bool,
  true, false, not, ◌&&◌, none, some, List, [], ◌∷◌, ltb, leb, ◌==◌, if◌then◌else◌, set, get_or,
  length, length-set, get_or-set_self, get_or-set_ne, Bool-cases, Option-cases, arith,
}
use bread_lang.Memory.Pool.{Chunk, first_free, contains_address, free_in}

-- The bits that are set.
unfoldable pub count_free : List Bool → ℕ
count_free [] = 0
count_free (true ∷ bs) = suc (count_free bs)
count_free (false ∷ bs) = count_free bs

pub record ChunkIsValid (c : Chunk) : Type 0 where
  pub size : length c.free_bitmap ≡ 256
  pub counted : c.free_count ≡ count_free c.free_bitmap

abbrev pub ChunksAreValid : List Chunk → Type 0
ChunksAreValid [] = Unit
ChunksAreValid (c ∷ cs) = ChunkIsValid c × ChunksAreValid cs

-- Whether an address lies in a block that is not free.
unfoldable pub in_use : List Chunk → ℕ → Bool
in_use [] a = false
in_use (c ∷ cs) a =
    let rest = in_use cs a in
    if contains_address c a then not (get_or c.free_bitmap ((a - c.start) / 64) true) else rest

-- The 64 bytes from `a`.
abbrev pub in_block : ℕ → ℕ → Bool
in_block a b = leb a b && ltb b (a + 64)

-- New memory has no byte of a chunk.
abbrev pub Apart : List Chunk → ℕ → Type 0
Apart [] a = Unit
Apart (c ∷ cs) a = ((c.start + 16384 ≤ a) ⊎ (a + 16384 ≤ c.start)) × Apart cs a

pub first_free-found :
    (bs : List Bool) (i : ℕ)
    → first_free bs ≡ some i
    → (i < length bs)
      × (get_or bs i true ≡ true)
      × (suc (count_free (set bs i false)) ≡ count_free bs)
      × (set (set bs i false) i true ≡ bs)
unfolding first_free count_free
first_free-found [] i e = cc
first_free-found (true ∷ bs) zero e = (omega arith, refl, refl, refl)
first_free-found (true ∷ bs) (suc i) e = cc
first_free-found (false ∷ bs) i e = elim (Option-cases (first_free bs)) [
  | inl h ↦ cc (rw h at e)
  | inr (j, h) ↦
      let (lt, t, n, back) = first_free-found bs j h in
      let same : suc j ≡ i = cc (rw h at e) in
      subst
        (λ (k : ℕ).
          (k < length (false ∷ bs))
          × (get_or (false ∷ bs) k true ≡ true)
          × (suc (count_free (set (false ∷ bs) k false)) ≡ count_free (false ∷ bs))
          × (set (set (false ∷ bs) k false) k true ≡ false ∷ bs))
        same (omega arith, t, n, ap (λ (l : List Bool). false ∷ l) back)
]

pub first_free-none : (bs : List Bool) → first_free bs ≡ none → count_free bs ≡ 0
unfolding first_free count_free
first_free-none [] e = refl
first_free-none (true ∷ bs) e = cc
first_free-none (false ∷ bs) e = elim (Option-cases (first_free bs)) [
  | inl h ↦ first_free-none bs h
  | inr (j, h) ↦ cc (rw h at e)
]

-- The state of the pool after the block at `a` was taken from `before`.
pub record Taken (before : List Chunk) (a : ℕ) (after : List Chunk) : Type 0 where
  pub unused : in_use before a ≡ false
  pub reads : (b : ℕ) → in_use after b ≡ (if in_block a b then true else in_use before b)
  pub valid : ChunksAreValid after

-- The chunk without its block `i`.
abbrev pub without : Chunk → ℕ → Chunk
without c i = record c { free_bitmap = set c.free_bitmap i false; free_count = c.free_count - 1 }

module _ (c : Chunk) (i : ℕ) (small : i < 256) where
  contains-block : contains_address c (c.start + i * 64) ≡ true
  unfolding contains_address
  contains-block = ground arith

  index-block : (c.start + i * 64 - c.start) / 64 ≡ i
  index-block = omega arith

  in_block-outside : (b : ℕ) → contains_address c b ≡ false → in_block (c.start + i * 64) b ≡ false
  unfolding contains_address
  in_block-outside b h = ground arith

  in_block-inside :
      (b : ℕ)
      → contains_address c b ≡ true
      → in_block (c.start + i * 64) b ≡ ((b - c.start) / 64 == i)
  unfolding contains_address
  in_block-inside b h = ground arith

contains-without : (c : Chunk) (i b : ℕ) → contains_address (without c i) b ≡ contains_address c b
unfolding contains_address
contains-without c i b = refl

pub in_use-outside :
    (c : Chunk) (cs : List Chunk) (b : ℕ)
    → contains_address c b ≡ false
    → in_use (c ∷ cs) b ≡ in_use cs b
unfolding in_use
in_use-outside c cs b h = rw h

pub in_use-inside :
    (c : Chunk) (cs : List Chunk) (b : ℕ)
    → contains_address c b ≡ true
    → in_use (c ∷ cs) b ≡ not (get_or c.free_bitmap ((b - c.start) / 64) true)
unfolding in_use
in_use-inside c cs b h = rw h

module _ (c : Chunk) (cs : List Chunk) (i : ℕ) (found : first_free c.free_bitmap ≡ some i)
    (h : ChunkIsValid c) where
  block_small : i < 256
  block_small = let first = first_free-found c.free_bitmap i found in omega (arith, first.0, h.size)

  reads-without :
      (b : ℕ)
      → in_use (without c i ∷ cs) b
        ≡ (if in_block (c.start + i * 64) b then true else in_use (c ∷ cs) b)
  reads-without b = elim (Bool-cases (contains_address c b)) [
    | inr out ↦ rw (
      in_use-outside (without c i) cs b (contains-without c i b ∙ out),
      in_use-outside c cs b out,
      in_block-outside c i block_small b out,
    )
    | inl within ↦
        rw
          (
            in_use-inside (without c i) cs b (contains-without c i b ∙ within),
            in_use-inside c cs b within,
            in_block-inside c i block_small b within,
          )
          (elim (Bool-cases ((b - c.start) / 64 == i)) [
            | inl same ↦ rw same (
                ap not (
                  ap (λ (k : ℕ). get_or (set c.free_bitmap i false) k true) (==→eq same)
                  ∙ get_or-set_self c.free_bitmap i false true
                      (omega (arith, block_small, h.size))))
            | inr other ↦ rw other (
                ap not
                  (get_or-set_ne c.free_bitmap i ((b - c.start) / 64) false true (==→ne other)))
          ])
  ]
    where
      ==→eq : {a k : ℕ} → (a == k) ≡ true → a ≡ k
      ==→eq e = ground arith

      ==→ne : {a k : ℕ} → (a == k) ≡ false → k ≢ a
      ==→ne e same = ground arith

  without-IsValid : ChunkIsValid (without c i)
  without-IsValid =
      let first = first_free-found c.free_bitmap i found in
      record {
        size = length-set c.free_bitmap i false ∙ h.size;
        counted = omega (arith, first.2, h.counted);
      }

  pub without-Taken : ChunksAreValid cs → Taken (c ∷ cs) (c.start + i * 64) (without c i ∷ cs)
  without-Taken k =
      let first = first_free-found c.free_bitmap i found in
      record {
        unused =
            in_use-inside c cs (c.start + i * 64) (contains-block c i block_small)
            ∙ ap (λ (j : ℕ). not (get_or c.free_bitmap j true)) (index-block c i block_small)
            ∙ ap not first.1;
        reads = reads-without;
        valid = (without-IsValid, k);
      }

  -- The block is given back.
  pub free_in-without : free_in (without c i ∷ cs) (c.start + i * 64) ≡ (true, c ∷ cs)
  unfolding free_in
  free_in-without =
      let first = first_free-found c.free_bitmap i found in
      let count : c.free_count - 1 + 1 ≡ c.free_count = omega (arith, first.2, h.counted) in
      rw (
        contains-without c i (c.start + i * 64) ∙ contains-block c i block_small,
        index-block c i block_small,
        first.3,
        count,
      )
