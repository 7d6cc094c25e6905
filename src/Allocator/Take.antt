-- ===== src/Allocator/Take.antt =====
-- `findFreeMemoryThatFits` and the end of `basicAllocMemory` of memory/allocator.c.
use some_os.Prelude.{
  ℕ, ◌+◌, ◌^◌, ◌≤◌, ◌<◌, ◌≡◌, ◌⊎◌, inl, inr, refl, none, some, List, [], ◌∷◌, ◌++◌, arith, add64,
  sub64, All, Option-cases, Bool-cases, leb, leb→le, leb→lt, le→leb, ◌-◌,
}
use some_os.Allocator.{
  Block, Place, listed, minimum_free, round_up, find_free_memory_that_fits, take_memory,
}
use some_os.Allocator.Insert.{IsFreeFrom, IsFreeFrom-le, Covers, total, total-append}
use some_os.Allocator.Places.{
  append-IsFreeFrom, Covers-append, Covers-before, Covers-after, here-bounds,
}

abbrev pub AllSmaller : ℕ → List Block → Type 0
AllSmaller size = All (λ b. b.size < size)

-- The position found is the first block of the list that is large enough.
pub find-first :
    (size : ℕ) (bs : List Block) (p : Place)
    → find_free_memory_that_fits size bs ≡ some p
    → (listed p ≡ bs) × (size ≤ p.here.size) × AllSmaller size p.before
unfolding find_free_memory_that_fits
find-first size [] p e = cc
find-first size (c ∷ cs) p e = elim (Bool-cases (leb size c.size)) [
  | inl fits ↦ ground arith
  | inr small ↦ elim (Option-cases (find_free_memory_that_fits size cs)) [
    | inl gone ↦ ground arith
    | inr (q, found) ↦ ground (arith, find-first size cs q)
  ]
]

-- Nothing is found only if every block is too small.
pub find-none :
    (size : ℕ) (bs : List Block) → find_free_memory_that_fits size bs ≡ none → AllSmaller size bs
unfolding find_free_memory_that_fits
find-none size [] e = tt
find-none size (c ∷ cs) e = ground (arith, find-none size cs)

-- What `take_memory` makes of the list: the block at the position is used from its start.
pub record IsTaken (bs : List Block) (start size block_size lo : ℕ) (after : List Block)
    : Type 0 where
  pub ordered : IsFreeFrom lo after
  pub inside : (a : ℕ) → start ≤ a → a < start + size → Covers bs a
  pub shrinks : (a : ℕ) → Covers after a → Covers bs a × ((a < start) ⊎ (start + size ≤ a))
  pub bounded : start + size < 2 ^ 64
  pub bytes : total after + size ≤ total bs
  pub no_waste : total bs < total after + size + minimum_free + block_size

module _ (bs size lo : ℕ) (xs : List Block) (h : Block) (ys : List Block)
    (f : IsFreeFrom lo (xs ++ (h ∷ ys))) (z : 0 < size) (fits : size ≤ h.size) where
  inside-here : (a : ℕ) → h.start ≤ a → a < h.start + size → Covers (xs ++ (h ∷ ys)) a
  inside-here a p q = (Covers-append xs (h ∷ ys) a).1 (inr (inl (p, omega arith)))

  -- The whole block goes.
  take-all :
      h.size < size + minimum_free + bs → IsTaken (xs ++ (h ∷ ys)) h.start size bs lo (xs ++ ys)
  take-all tight =
      let b = here-bounds lo xs h ys f in
      record {
        ordered =
            append-IsFreeFrom lo xs (h ∷ ys) ys f
              λ lo' g. IsFreeFrom-le (h.start + h.size + 1) lo' ys (omega arith) g.3;
        inside = inside-here;
        shrinks = λ a c. elim ((Covers-append xs ys a).0 c) [
          | inl i ↦ ((Covers-append xs (h ∷ ys) a).1 (inl i), inl (Covers-before lo xs h ys a f i))
          | inr j ↦
              let later = Covers-after lo xs h ys a f j in
              ((Covers-append xs (h ∷ ys) a).1 (inr (inr j)), inr (omega arith))
        ];
        bounded = omega arith;
        bytes = omega (arith, total-append xs ys, total-append xs (h ∷ ys));
        no_waste = omega (arith, total-append xs ys, total-append xs (h ∷ ys));
      }

  -- The block is cut, and its end stays.
  take-part :
      (m : Block)
      → m.start ≡ h.start + size
      → m.size ≡ h.size - size
      → size < h.size
      → IsTaken (xs ++ (h ∷ ys)) h.start size bs lo (xs ++ (m ∷ ys))
  take-part m e e' more =
      let b = here-bounds lo xs h ys f in
      record {
        ordered = append-IsFreeFrom lo xs (h ∷ ys) (m ∷ ys) f λ lo' g. (
          omega arith,
          omega arith,
          omega arith,
          IsFreeFrom-le (h.start + h.size + 1) (m.start + m.size + 1) ys (omega arith) g.3,
        );
        inside = inside-here;
        shrinks = λ a c. elim ((Covers-append xs (m ∷ ys) a).0 c) [
          | inl i ↦ ((Covers-append xs (h ∷ ys) a).1 (inl i), inl (Covers-before lo xs h ys a f i))
          | inr (inl j) ↦ (
            (Covers-append xs (h ∷ ys) a).1 (inr (inl (omega arith, omega arith))),
            inr (omega arith),
          )
          | inr (inr j) ↦
              let later = Covers-after lo xs h ys a f j in
              ((Covers-append xs (h ∷ ys) a).1 (inr (inr j)), inr (omega arith))
        ];
        bounded = omega arith;
        bytes = omega (arith, total-append xs (m ∷ ys), total-append xs (h ∷ ys));
        no_waste = omega (arith, total-append xs (m ∷ ys), total-append xs (h ∷ ys));
      }

-- Any request that fits in the block at the position is met there.
pub take-IsTaken :
    (bs size lo : ℕ) (p : Place)
    → IsFreeFrom lo (listed p)
    → 0 < size
    → size ≤ p.here.size
    → 0 < bs
    → size + bs + minimum_free < 2 ^ 64
    → let (ret, after) = take_memory bs size p in
      (ret ≡ some p.here.start) × IsTaken (listed p) p.here.start size bs lo after
unfolding take_memory add64 sub64
take-IsTaken bs size lo p f z fits pos_bs small =
    let open' = here-bounds lo p.before p.here p.after f in
    let min_size = round_up bs (add64 size minimum_free) in
    elim (Bool-cases (leb min_size p.here.size)) [
      | inl cut ↦ rw cut (
        refl,
        take-part bs size lo p.before p.here p.after f z fits _ (omega arith) (omega arith)
            (omega (arith, leb→le min_size p.here.size cut)),
      )
      | inr whole ↦
          rw (whole, le→leb size p.here.size fits)
            (
              refl,
              take-all bs size lo p.before p.here p.after f z fits
                  (omega (arith, leb→lt min_size p.here.size whole)),
            )
    ]
