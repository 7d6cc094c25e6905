-- ===== src/Allocator/Places.antt =====
-- Positions in the free list of memory/allocator.c: what a change there does to the whole list.
use some_os.Prelude.{ℕ, ◌+◌, ◌^◌, ◌≤◌, ◌<◌, ◌⊎◌, ◌↔◌, inl, inr, List, [], ◌∷◌, ◌++◌, arith}
use some_os.Allocator.{Block}
use some_os.Allocator.Insert.{IsFreeFrom, Covers, IsApart}

-- Behind the same blocks, the rest of a list may be exchanged.
pub append-IsFreeFrom :
    (lo : ℕ) (xs ys zs : List Block)
    → IsFreeFrom lo (xs ++ ys)
    → ((lo' : ℕ) → IsFreeFrom lo' ys → IsFreeFrom lo' zs)
    → IsFreeFrom lo (xs ++ zs)
append-IsFreeFrom lo [] ys zs f change = change lo f
append-IsFreeFrom lo (x ∷ xs) ys zs f change =
    (f.0, f.1, f.2, append-IsFreeFrom (x.start + x.size + 1) xs ys zs f.3 change)

pub Covers-append : (xs ys : List Block) (a : ℕ) → Covers (xs ++ ys) a ↔ (Covers xs a ⊎ Covers ys a)
Covers-append [] ys a = (λ c. inr c, λ c. elim c [ inl z ↦ absurd z | inr c' ↦ c' ])
Covers-append (x ∷ xs) ys a = ground (arith, Covers-append xs ys a)

-- An ordered list covers no address before its start.
pub Covers-ge : (lo : ℕ) (bs : List Block) (a : ℕ) → IsFreeFrom lo bs → Covers bs a → lo ≤ a
Covers-ge lo [] a f c = absurd c
Covers-ge lo (b ∷ bs) a f c = ground (arith, Covers-ge (b.start + b.size + 1) bs a)

pub Covers-before :
    (lo : ℕ) (xs : List Block) (h : Block) (ys : List Block) (a : ℕ)
    → IsFreeFrom lo (xs ++ (h ∷ ys))
    → Covers xs a
    → a < h.start
Covers-before lo [] h ys a f c = absurd c
Covers-before lo (x ∷ xs) h ys a f c = elim c [
  | inl inside ↦ before_head x xs f inside
  | inr rest ↦ Covers-before (x.start + x.size + 1) xs h ys a f.3 rest
]
  where
    start_after : (n : ℕ) (zs : List Block) → IsFreeFrom n (zs ++ (h ∷ ys)) → n ≤ h.start
    start_after n [] g = g.0
    start_after n (z ∷ zs) g = let later = start_after (z.start + z.size + 1) zs g.3 in omega arith

    before_head :
        (x : Block) (xs : List Block)
        → IsFreeFrom lo (x ∷ (xs ++ (h ∷ ys)))
        → (x.start ≤ a) × (a < x.start + x.size)
        → a < h.start
    before_head x xs g i = let later = start_after (x.start + x.size + 1) xs g.3 in omega arith

-- The block at a position, by itself, is like any other block of the list.
pub here-bounds :
    (lo : ℕ) (xs : List Block) (h : Block) (ys : List Block)
    → IsFreeFrom lo (xs ++ (h ∷ ys))
    → (lo ≤ h.start) × (0 < h.size) × (h.start + h.size < 2 ^ 64)
here-bounds lo [] h ys f = (f.0, f.1, f.2)
here-bounds lo (x ∷ xs) h ys f =
    let later = here-bounds (x.start + x.size + 1) xs h ys f.3 in omega arith

pub Covers-after :
    (lo : ℕ) (xs : List Block) (h : Block) (ys : List Block) (a : ℕ)
    → IsFreeFrom lo (xs ++ (h ∷ ys))
    → Covers ys a
    → h.start + h.size < a
Covers-after lo [] h ys a f c =
    let later = Covers-ge (h.start + h.size + 1) ys a f.3 c in omega arith
Covers-after lo (x ∷ xs) h ys a f c = Covers-after (x.start + x.size + 1) xs h ys a f.3 c

-- A range none of whose bytes is free is apart from every free block.
pub IsApart-of_not-Covers :
    (lo start size : ℕ) (bs : List Block)
    → IsFreeFrom lo bs
    → 0 < size
    → ((a : ℕ) → start ≤ a → a < start + size → Covers bs a → ⊥)
    → IsApart start size bs
IsApart-of_not-Covers lo start size [] f z h = tt
IsApart-of_not-Covers lo start size (b ∷ bs) f z h = (
  ground (arith, h start, h b.start),
  IsApart-of_not-Covers (b.start + b.size + 1) start size bs f.3 z λ a p q c. h a p q (inr c),
)
