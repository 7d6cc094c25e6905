-- ===== src/Allocator/Chain.antt =====
-- Allocators of memory/allocator.c that back one another: what `allocMemory` promises.
use native.Mathlib.Decide.{dec_lt}
use mathlib.Core.Path.{subst, sym}
use some_os.Prelude.{
  ℕ, ◌+◌, ◌*◌, ◌^◌, ◌≤◌, ◌<◌, ◌≡◌, ◌⊎◌, inl, inr, refl, ap, Option, none, some, List, [], ◌∷◌,
  arith, add64, sub64, Option-cases, false, length, ◌==◌,
}
use some_os.Allocator.{
  Block, Place, Allocator, listed, round_up, insert_free_memory, find_free_memory_that_fits,
  take_memory, basic_alloc_memory, alloc_memory,
}
use some_os.Allocator.Insert.{IsFreeFrom, Covers, insert-IsFreeFrom, Covers-insert, here-insert}
use some_os.Allocator.Places.{IsApart-of_not-Covers}
use some_os.Allocator.Take.{find-first, IsTaken, take-IsTaken}

-- The address is free in one of the allocators.
abbrev pub CoversAny : List Allocator → ℕ → Type 0
CoversAny [] x = ⊥
CoversAny (a ∷ rest) x = Covers a.first_free x ⊎ CoversAny rest x

-- Each free list is in order, and no address is free twice.
abbrev pub IsChain : List Allocator → Type 0
IsChain [] = Unit
IsChain (a ∷ rest) =
    (0 < a.block_size)
    × (a.block_size ≤ 2 ^ 32)
    × IsFreeFrom 0 a.first_free
    × ((x : ℕ) → Covers a.first_free x → CoversAny rest x → ⊥)
    × IsChain rest

-- The block from `p` on was free, is not free any more, and nothing else has become free.
pub record IsCarved (before : List Allocator) (size p : ℕ) (after : List Allocator) : Type 0 where
  pub chain : IsChain after
  pub inside : (x : ℕ) → p ≤ x → x < p + size → CoversAny before x
  pub shrinks : (x : ℕ) → CoversAny after x → CoversAny before x × ((x < p) ⊎ (p + size ≤ x))
  pub bounded : p + size < 2 ^ 64

-- Without a block, nothing has changed.
abbrev pub Allocated : List Allocator → ℕ → Option ℕ × List Allocator → Type 0
Allocated before size (none, after) = after ≡ before
Allocated before size (some p, after) = IsCarved before size p after

-- A block taken from the list `bs` of the first allocator, whatever that list was made of.
carve :
    (a : Allocator) (rest rest' : List Allocator) (bs after : List Block) (start size : ℕ)
    → IsChain (a ∷ rest)
    → IsTaken bs start size a.block_size 0 after
    → ((x : ℕ) → Covers bs x → CoversAny (a ∷ rest) x)
    → ((x : ℕ) → Covers bs x → CoversAny rest' x → ⊥)
    → ((x : ℕ) → CoversAny rest' x → CoversAny rest x)
    → IsChain rest'
    → IsCarved (a ∷ rest) size start (record a { first_free = after } ∷ rest')
carve a rest rest' bs after start size c t from apart shrinks chain' = record {
  chain = (c.0, c.1, t.ordered, λ x p q. apart x (t.shrinks x p).0 q, chain');
  inside = λ x p q. from x (t.inside x p q);
  shrinks = λ x i. elim i [
    | inl p ↦ (from x (t.shrinks x p).0, (t.shrinks x p).1)
    | inr q ↦ (inr (shrinks x q), outside x q)
  ];
  bounded = t.bounded;
}
  where
    outside : (x : ℕ) → CoversAny rest' x → (x < start) ⊎ (start + size ≤ x)
    outside x q = elim (dec_lt x start) [
      | yes before ↦ inl before
      | no behind ↦ elim (dec_lt x (start + size)) [
        | yes within ↦ absurd (apart x (t.inside x (omega arith) within) q)
        | no past ↦ inr (omega arith)
      ]
    ]

module _ (a : Allocator) (size : ℕ) (z : 0 < size) (small : size + 2 ^ 33 < 2 ^ 63) where
  -- The first allocator has a block that is large enough.
  from-own :
      (rest : List Allocator) (p : Place)
      → IsChain (a ∷ rest)
      → find_free_memory_that_fits size a.first_free ≡ some p
      → let (ret, free) = take_memory a.block_size size p in
        Allocated (a ∷ rest) size (ret, record a { first_free = free } ∷ rest)
  from-own rest p c e =
      let (same, fits, _) = find-first size a.first_free p e in
      let (got, t) = take-IsTaken a.block_size size 0 p (rw same c.2) z fits c.0 (omega arith) in
      rw got (
        carve a rest rest (listed p) _ p.here.start size c t (λ x i. inl (rw same at i))
          (λ x i. c.3 x (rw same at i)) (λ x i. i) c.4)

  -- The first allocator takes a new block from its backing allocators, and its own list with it.
  from-new :
      (rest rest' : List Allocator) (q new_size : ℕ)
      → IsChain (a ∷ rest)
      → IsCarved rest new_size q rest'
      → size ≤ new_size
      → let new : Block = record { start = q; size = new_size } in
        let (ret, free) = take_memory a.block_size size (insert_free_memory a.first_free new) in
        Allocated (a ∷ rest) size (ret, record a { first_free = free } ∷ rest')
  from-new rest rest' q new_size c carved fits =
      let new : Block = record { start = q; size = new_size } in
      let apart =
        IsApart-of_not-Covers 0 q new_size a.first_free c.2 (omega arith)
          λ x l r i. c.3 x i (carved.inside x l r) in
      let p = insert_free_memory a.first_free new in
      let ordered =
        insert-IsFreeFrom 0 a.first_free new c.2 (omega arith) (omega arith) carved.bounded apart in
      let room = here-insert 0 a.first_free new c.2 (omega arith) carved.bounded apart in
      let covers =
        λ (x : ℕ). Covers-insert 0 a.first_free new x c.2 (omega arith) carved.bounded apart in
      let (got, t) = take-IsTaken a.block_size size 0 p ordered z (omega arith) c.0 (omega arith) in
      rw got (
        carve a rest rest' (listed p) _ p.here.start size c t
          (λ x i. elim ((covers x).0 i) [ inl j ↦ inr (carved.inside x j.0 j.1) | inr j ↦ inl j ])
          (λ x i r. elim ((covers x).0 i) [
            | inl j ↦ absurd (not_both x q new_size j (carved.shrinks x r).1)
            | inr j ↦ c.3 x j (carved.shrinks x r).0
          ])
          (λ x i. (carved.shrinks x i).0) carved.chain)
    where
      not_both : (x start n : ℕ) → (start ≤ x) × (x < start + n) → (x < start) ⊎ (start + n ≤ x) → ⊥
      not_both x start n h k = omega arith

round_up-bounds :
    (bs n : ℕ)
    → 0 < bs
    → bs ≤ 2 ^ 32
    → n + 2 ^ 33 < 2 ^ 63
    → (n ≤ round_up bs n) × (round_up bs n < n + 2 ^ 32)
unfolding add64 sub64
round_up-bounds bs n z h k = ground arith

-- The three ways through `basicAllocMemory`.
basic_alloc-found :
    (size : ℕ) (a : Allocator) (rest : List Allocator) (p : Place)
    → find_free_memory_that_fits size a.first_free ≡ some p
    → basic_alloc_memory size (a ∷ rest) ≡ (
        let (ret, free) = take_memory a.block_size size p in
        (ret, record a { first_free = free } ∷ rest))
unfolding basic_alloc_memory
basic_alloc-found size a [] p e = ground arith
basic_alloc-found size a (b ∷ rest) p e = ground arith

basic_alloc-none :
    (size : ℕ) (a : Allocator)
    → find_free_memory_that_fits size a.first_free ≡ none
    → basic_alloc_memory size (a ∷ []) ≡ (none, a ∷ [])
unfolding basic_alloc_memory
basic_alloc-none size a e = ground arith

abbrev refilled : ℕ → ℕ → Allocator → Option ℕ × List Allocator → Option ℕ × List Allocator
refilled size n a (none, rest) = (none, a ∷ rest)
refilled size n a (some q, rest) =
    let (ret, free) =
      take_memory a.block_size size
        (insert_free_memory a.first_free (record { start = q; size = n })) in
    (ret, record a { first_free = free } ∷ rest)

basic_alloc-backing :
    (size : ℕ) (a b : Allocator) (rest : List Allocator)
    → find_free_memory_that_fits size a.first_free ≡ none
    → let n = round_up b.block_size size in
      basic_alloc_memory size (a ∷ b ∷ rest) ≡ refilled size n a (basic_alloc_memory n (b ∷ rest))
unfolding basic_alloc_memory
basic_alloc-backing size a b rest e = ground arith

basic_alloc-Allocated :
    (size : ℕ) (as' : List Allocator)
    → IsChain as'
    → 0 < size
    → size + length as' * 2 ^ 33 < 2 ^ 63
    → Allocated as' size (basic_alloc_memory size as')
unfolding basic_alloc_memory
basic_alloc-Allocated size [] c z small = refl
basic_alloc-Allocated size (a ∷ []) c z small =
    elim (Option-cases (find_free_memory_that_fits size a.first_free)) [
      | inl gone ↦ subst (Allocated (a ∷ []) size) (sym (basic_alloc-none size a gone)) refl
      | inr (p, found) ↦
          subst (Allocated (a ∷ []) size) (sym (basic_alloc-found size a [] p found))
            (from-own a size z (omega arith) [] p c found)
    ]
basic_alloc-Allocated size (a ∷ b ∷ rest) c z small =
    let n = round_up b.block_size size in
    let bounds = round_up-bounds b.block_size size c.4.0 c.4.1 (omega arith) in
    elim (Option-cases (find_free_memory_that_fits size a.first_free)) [
      | inr (p, found) ↦
          subst (Allocated (a ∷ b ∷ rest) size) (sym (basic_alloc-found size a (b ∷ rest) p found))
            (from-own a size z (omega arith) (b ∷ rest) p c found)
      | inl gone ↦
          subst (Allocated (a ∷ b ∷ rest) size) (sym (basic_alloc-backing size a b rest gone)) (
            step (basic_alloc_memory n (b ∷ rest)) bounds.0
              (basic_alloc-Allocated n (b ∷ rest) c.4 (omega arith) (omega arith)))
    ]
  where
    step :
        (r : Option ℕ × List Allocator)
        → size ≤ round_up b.block_size size
        → Allocated (b ∷ rest) (round_up b.block_size size) r
        → Allocated (a ∷ b ∷ rest) size (refilled size (round_up b.block_size size) a r)
    step (none, after) fits same = ap (λ l. a ∷ l) same
    step (some q, after) fits carved =
        from-new a size z (omega arith) (b ∷ rest) after q (round_up b.block_size size) c carved
          fits

-- `allocMemory`, with however many backing allocators, returns null and leaves every free list as it
-- was, or returns a block of which each byte was free before. Afterwards no byte of it is free, no
-- other byte has become free, and all free lists are again in order and apart. The size is not 0,
-- and it leaves room below 2 ^ 63 for the rounding at every level.
pub alloc-Allocated :
    (size : ℕ) (as' : List Allocator)
    → IsChain as'
    → 0 < size
    → size + length as' * 2 ^ 33 < 2 ^ 63
    → Allocated as' size (alloc_memory size as')
unfolding alloc_memory
alloc-Allocated size as' c z small =
    let nonzero : (size == 0) ≡ false = ground arith in
    rw nonzero (basic_alloc-Allocated size as' c z small)
