-- ===== src/StringMap/Walk.antt =====
-- The walks through the table of util/stringmap.c.
use mathlib.Core.Bool.{false≢true}
use mathlib.Core.Option.{some_inj}
use native.Mathlib.Nat.{mod-eq_of_lt, mod-eq-sub-mod, mod-add-mod}
use some_os.Prelude.{
  ℕ, zero, suc, ◌+◌, ◌-◌, ◌%◌, ◌<◌, ◌≡◌, ◌≢◌, refl, sym, ap, ◌∙◌, true, false, ◌||◌, none, some, [],
  ◌∷◌, ltb, ltb→lt, ltb→le, ◌==◌, Bool-cases, ==_iff, ==_refl, inl, inr, arith,
}
use some_os.StringMap.{
  Text, are_equal, Key, empty, deleted, key, updated, is_empty_key, are_keys_equal, walk, is_free,
  free_walk,
}

pub are_equal_refl : (s : Text) → are_equal s s ≡ true
unfolding are_equal
are_equal_refl [] = refl
are_equal_refl (c ∷ s) = rw (==_refl c, are_equal_refl s) refl

pub are_equal-eq : (s t : Text) → are_equal s t ≡ true → s ≡ t
unfolding are_equal
are_equal-eq [] [] h = refl
are_equal-eq [] (_ ∷ _) h = absurd (false≢true h)
are_equal-eq (_ ∷ _) [] h = absurd (false≢true h)
are_equal-eq (a ∷ s) (b ∷ t) h = elim (Bool-cases (a == b)) [
  | inl e ↦
      let heads = (==_iff a b).0 e in
      let tails = are_equal-eq s t (rw e at h) in rw (heads, tails) refl
  | inr e ↦ absurd (false≢true (rw e at h))
]

updated_same : {A : Type 0} → (f : ℕ → A) (i : ℕ) (v : A) → updated f i v i ≡ v
updated_same f i v = rw (==_refl i) refl

-- The place that the walk looks at after `i` rounds.
abbrev place : ℕ → ℕ → ℕ → ℕ
place capacity start i = (start + i) % capacity

place-next :
    (capacity start i : ℕ) → (place capacity start i + 1) % capacity ≡ place capacity start (i + 1)
place-next capacity start i =
    let e : start + i + 1 ≡ start + (i + 1) = omega arith in
    mod-add-mod (start + i) capacity 1 ∙ ap (λ n. n % capacity) e

-- The walk is back at its start after as many rounds as the table has places, and not before.
place-start :
    (capacity start i : ℕ)
    → start < capacity
    → 0 < i
    → i < capacity
    → (place capacity start i == start) ≡ false
place-start capacity start i s p l = elim (Bool-cases (ltb (start + i) capacity)) [
  | inl e ↦
      let m : (start + i) % capacity ≡ start + i = mod-eq_of_lt (ltb→lt (start + i) capacity e) in
      rw m (ground arith)
  | inr e ↦
      let k = ltb→le (start + i) capacity e in
      let m : (start + i) % capacity ≡ start + i - capacity =
        mod-eq-sub-mod k ∙ mod-eq_of_lt (omega arith) in
      rw m (ground arith)
]

is_free-stops :
    (e : Key) (k : Text) → is_free e k ≡ false → (is_empty_key e || are_keys_equal e k) ≡ false
unfolding is_free are_keys_equal
is_free-stops empty k h = absurd (false≢true (sym h))
is_free-stops deleted k h = refl
is_free-stops (key s) k h = h

key-stops : (k : Text) → (is_empty_key (key k) || are_keys_equal (key k) k) ≡ true
unfolding are_keys_equal
key-stops k = are_equal_refl k

updated_other :
    {A : Type 0} → (f : ℕ → A) (i j : ℕ) (v : A) → (j == i) ≡ false → updated f i v j ≡ f j
updated_other f i j v e = rw e refl

none-some : (j : ℕ) → none ≢ some j
none-some j h = cc

-- A key that is written where the second walk stopped is what the first walk finds.
pub walk-lands :
    (keys : ℕ → Key) (capacity : ℕ) (k : Text) (start j n i : ℕ)
    → start < capacity
    → i + n ≡ capacity
    → free_walk keys capacity k n (place capacity start i) ≡ some j
    → walk (updated keys j (key k)) capacity k start n (place capacity start i) ≡ j
unfolding walk free_walk
walk-lands keys capacity k start j zero i s l h = cc
walk-lands keys capacity k start j (suc n) i s l h =
    let idx = place capacity start i in
    let keys' = updated keys j (key k) in
    elim (Bool-cases (is_free (keys idx) k)) [
      | inl e ↦
          let found : some idx ≡ some j = rw (e, free_walk) at h in
          let same : idx ≡ j = some_inj.0 found in
          let here : updated keys idx (key k) idx ≡ key k = updated_same keys idx (key k) in
          let stops = key-stops k in rw⁻¹ same (rw (here, stops, walk) refl)
      | inr e ↦ elim (Bool-cases (idx == j)) [
        | inl same ↦
            let eq : idx ≡ j = (==_iff idx j).0 same in
            let here : keys' idx ≡ key k = rw same refl in
            let stops = key-stops k in rw (here, stops, walk) eq
        | inr other ↦
            let here : keys' idx ≡ keys idx = updated_other keys j idx (key k) other in
            let goes_on = is_free-stops (keys idx) k e in
            let next = place-next capacity start i in
            let rest : free_walk keys capacity k n (place capacity start (i + 1)) ≡ some j =
              rw (e, next, free_walk) at h in
            elim (Bool-cases (ltb 0 n)) [
              | inl more ↦
                  let p = ltb→lt 0 n more in
                  let back = place-start capacity start (i + 1) s (omega arith) (omega arith) in
                  let ih = walk-lands keys capacity k start j n (i + 1) s (omega arith) rest in
                  rw (here, goes_on, next, back, walk) ih
              | inr last ↦
                  let z : n ≡ 0 = omega (arith, ltb→le 0 n last) in
                  let never : free_walk keys capacity k 0 (place capacity start (i + 1)) ≡ some j =
                    rw z at rest in
                  absurd (none-some j never)
            ]
      ]
    ]

-- A walk that finds a key finds it at the same place after another key has been written to a place
-- that did not hold it.
passes_written :
    (keys : ℕ → Key) (k other : Text) (j idx : ℕ)
    → are_equal k other ≡ false
    → (is_empty_key (keys idx) || are_keys_equal (keys idx) other) ≡ false
    → (is_empty_key (updated keys j (key k) idx)
        || are_keys_equal (updated keys j (key k) idx) other)
      ≡ false
unfolding are_keys_equal
passes_written keys k other j idx differs e = elim (Bool-cases (idx == j)) [
  | inl same ↦ rw same differs
  | inr off ↦ rw off e
]

pub walk-keeps :
    (keys : ℕ → Key) (capacity : ℕ) (k other : Text) (start j n idx : ℕ)
    → are_keys_equal (keys j) other ≡ false
    → are_equal k other ≡ false
    → are_keys_equal (keys (walk keys capacity other start n idx)) other ≡ true
    → walk (updated keys j (key k)) capacity other start n idx
      ≡ walk keys capacity other start n idx
unfolding walk
walk-keeps keys capacity k other start j zero idx free differs found = refl
walk-keeps keys capacity k other start j (suc n) idx free differs found =
    let next = (idx + 1) % capacity in
    elim (Bool-cases (is_empty_key (keys idx) || are_keys_equal (keys idx) other)) [
      | inl e ↦
          let here : are_keys_equal (keys idx) other ≡ true = rw (e, walk) at found in
          elim (Bool-cases (idx == j)) [
            | inl same ↦
                let eq : idx ≡ j = (==_iff idx j).0 same in
                absurd (false≢true (sym free ∙ (rw eq at here)))
            | inr off ↦
                let there : updated keys j (key k) idx ≡ keys idx =
                  updated_other keys j idx (key k) off in
                rw (there, e, walk) refl
          ]
      | inr e ↦
          let e' = passes_written keys k other j idx differs e in
          elim (Bool-cases (next == start)) [
            | inl back ↦ rw (e, e', back, walk) refl
            | inr on ↦
                let rest : are_keys_equal (keys (walk keys capacity other start n next)) other
                    ≡ true =
                  rw (e, on, walk) at found in
                rw (e, e', on, walk)
                  (walk-keeps keys capacity k other start j n next free differs rest)
          ]
    ]

-- The second walk ends when it can reach a place that is free.
pub free_walk-returns :
    (keys : ℕ → Key) (capacity : ℕ) (k : Text) (start : ℕ) (d n i : ℕ)
    → d < n
    → is_free (keys (place capacity start (i + d))) k ≡ true
    → (j : ℕ) × (free_walk keys capacity k n (place capacity start i) ≡ some j)
      × (is_free (keys j) k ≡ true)
unfolding free_walk
free_walk-returns keys capacity k start d zero i l h = absurd (omega arith)
free_walk-returns keys capacity k start d (suc n) i l h =
    let idx = place capacity start i in
    elim (Bool-cases (is_free (keys idx) k)) [
      | inl e ↦ (idx, rw (e, free_walk) refl, e)
      | inr e ↦ elim (Bool-cases (ltb 0 d)) [
        | inl more ↦
            let p = ltb→lt 0 d more in
            let eq : i + d ≡ i + 1 + (d - 1) = omega arith in
            let next = place-next capacity start i in
            let (j, found, free) =
              free_walk-returns keys capacity k start (d - 1) n (i + 1) (omega arith)
                (rw eq at h) in
            (j, rw (e, next, free_walk) found, free)
        | inr last ↦
            let z : i + d ≡ i = omega (arith, ltb→le 0 d last) in
            absurd (false≢true (sym e ∙ (rw z at h)))
      ]
    ]
