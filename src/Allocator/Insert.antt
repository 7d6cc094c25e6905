-- ===== src/Allocator/Insert.antt =====
-- The free list of memory/allocator.c, and `insertFreeMemory` on it.
use some_os.Prelude.{
  ℕ, ◌+◌, ◌^◌, ◌≤◌, ◌<◌, ◌≡◌, ◌⊎◌, ◌↔◌, inl, List, [], ◌∷◌, ◌++◌, arith, add64, All,
}
use some_os.Allocator.{Block, listed, merged, insert_free_memory}

-- Blocks from `lo` on, in rising order; a gap lies between two of them, and none wraps.
abbrev pub IsFreeFrom : ℕ → List Block → Type 0
IsFreeFrom lo [] = Unit
IsFreeFrom lo (b ∷ bs) =
    (lo ≤ b.start)
    × (0 < b.size)
    × (b.start + b.size < 2 ^ 64)
    × IsFreeFrom (b.start + b.size + 1) bs

abbrev pub total : List Block → ℕ
total [] = 0
total (b ∷ bs) = b.size + total bs

-- No byte of the range lies in a free block.
abbrev pub IsApart : ℕ → ℕ → List Block → Type 0
IsApart start size = All (λ b. (start + size ≤ b.start) ⊎ (b.start + b.size ≤ start))

-- The address lies in a free block.
abbrev pub Covers : List Block → ℕ → Type 0
Covers [] a = ⊥
Covers (b ∷ bs) a = ((b.start ≤ a) × (a < b.start + b.size)) ⊎ Covers bs a

pub IsFreeFrom-le : (lo lo' : ℕ) (bs : List Block) → lo' ≤ lo → IsFreeFrom lo bs → IsFreeFrom lo' bs
IsFreeFrom-le lo lo' [] h f = tt
IsFreeFrom-le lo lo' (b ∷ bs) h f = (omega arith, f.1, f.2, f.3)

pub total-append : (xs ys : List Block) → total (xs ++ ys) ≡ total xs + total ys
total-append [] ys = omega arith
total-append (x ∷ xs) ys = omega (arith, total-append xs ys)

-- What lies behind `c` and is apart from the block right after it is apart from the two together.
IsApart-merge :
    (lo start mid size total' : ℕ) (bs : List Block)
    → IsFreeFrom lo bs
    → mid < lo
    → 0 < size
    → start + total' ≡ mid + size
    → IsApart mid size bs
    → IsApart start total' bs
IsApart-merge lo start mid size total' [] f l z e d = tt
IsApart-merge lo start mid size total' (b ∷ bs) f l z e d = (
  inl (omega arith),
  IsApart-merge (b.start + b.size + 1) start mid size total' bs f.3 (omega arith) z e d.1,
)

pub insert-IsFreeFrom :
    (lo : ℕ) (bs : List Block) (m : Block)
    → IsFreeFrom lo bs
    → lo ≤ m.start
    → 0 < m.size
    → m.start + m.size < 2 ^ 64
    → IsApart m.start m.size bs
    → IsFreeFrom lo (listed (insert_free_memory bs m))
unfolding insert_free_memory add64
insert-IsFreeFrom lo [] m f l s w d = ground arith
insert-IsFreeFrom lo (c ∷ cs) m f l s w d = ground (
  arith,
  insert-IsFreeFrom lo cs (merged c m),
  insert-IsFreeFrom (c.start + c.size + 1) cs m,
  IsFreeFrom-le (c.start + c.size + 1) lo cs,
  IsApart-merge (c.start + c.size + 1) c.start m.start m.size (merged c m).size cs,
)

-- The bytes of the block are added to those of the list.
pub total-insert :
    (lo : ℕ) (bs : List Block) (m : Block)
    → IsFreeFrom lo bs
    → 0 < m.size
    → m.start + m.size < 2 ^ 64
    → IsApart m.start m.size bs
    → total (listed (insert_free_memory bs m)) ≡ m.size + total bs
unfolding insert_free_memory add64
total-insert lo [] m f s w d = ground arith
total-insert lo (c ∷ cs) m f s w d = ground (
  arith,
  total-insert (c.start + c.size + 1) cs (merged c m),
  total-insert (c.start + c.size + 1) cs m,
  IsApart-merge (c.start + c.size + 1) c.start m.start m.size (merged c m).size cs,
)

-- Afterwards an address is free if it was free or lies in the block.
pub Covers-insert :
    (lo : ℕ) (bs : List Block) (m : Block) (a : ℕ)
    → IsFreeFrom lo bs
    → 0 < m.size
    → m.start + m.size < 2 ^ 64
    → IsApart m.start m.size bs
    → Covers (listed (insert_free_memory bs m)) a
      ↔ (((m.start ≤ a) × (a < m.start + m.size)) ⊎ Covers bs a)
unfolding insert_free_memory add64
Covers-insert lo [] m a f s w d = (λ c. c, λ c. c)
Covers-insert lo (c ∷ cs) m a f s w d = ground (
  arith,
  Covers-insert (c.start + c.size + 1) cs (merged c m) a,
  Covers-insert (c.start + c.size + 1) cs m a,
  IsApart-merge (c.start + c.size + 1) c.start m.start m.size (merged c m).size cs,
)

-- The block that the position shows holds all of the one inserted.
pub here-insert :
    (lo : ℕ) (bs : List Block) (m : Block)
    → IsFreeFrom lo bs
    → 0 < m.size
    → m.start + m.size < 2 ^ 64
    → IsApart m.start m.size bs
    → m.size ≤ (insert_free_memory bs m).here.size
unfolding insert_free_memory add64
here-insert lo [] m f s w d = omega arith
here-insert lo (c ∷ cs) m f s w d = ground (
  arith,
  here-insert (c.start + c.size + 1) cs (merged c m),
  here-insert (c.start + c.size + 1) cs m,
  IsApart-merge (c.start + c.size + 1) c.start m.start m.size (merged c m).size cs,
)
