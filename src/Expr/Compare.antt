-- ===== src/Expr/Compare.antt =====
-- `cmpInteger` of userspace/src/expr/expr.c compares the numbers that texts of digits stand for.
use Prim.Native.Nat.{compare, Ordering, lt, eq, gt}
use some_os.Prelude.{
  ℕ, ◌+◌, ◌*◌, ◌≤◌, ◌<◌, ◌≡◌, refl, ◌⊎◌, inl, inr, [], ◌∷◌, length, arith, ◌==◌, Bool-cases, leb,
  leb→le, leb→lt,
}
use some_os.Expr.{Text, digit_of, skip_zeros, strcmp, cmp_unsigned}
use some_os.Expr.Value.{value_from, value, AreDigits, value-skip_zeros, skip_zeros-AreDigits}

-- What the sign of a comparison says of two numbers.
abbrev pub Compares : Ordering → ℕ → ℕ → Type 0
Compares lt x y = x < y
Compares eq x y = x ≡ y
Compares gt x y = y < x

compare-cases :
    (x y : ℕ)
    → ((compare x y ≡ lt) × (x < y))
      ⊎ (((compare x y ≡ eq) × (x ≡ y)) ⊎ ((compare x y ≡ gt) × (y < x)))
compare-cases x y = ground arith

-- A smaller start gives a smaller value, whatever as many digits follow.
value_from-lt :
    (x y : ℕ) (a b : Text)
    → length a ≡ length b
    → AreDigits a
    → x < y
    → value_from x a < value_from y b
unfolding value_from AreDigits
value_from-lt x y [] [] e d h = h
value_from-lt x y [] (_ ∷ _) e d h = absurd (omega arith)
value_from-lt x y (_ ∷ _) [] e d h = absurd (omega arith)
value_from-lt x y (c ∷ a) (k ∷ b) e d h =
    value_from-lt (10 * x + digit_of c) (10 * y + digit_of k) a b (omega arith) d.1
      (omega (arith, d.0))

-- A value of at least one before the digits is less than none, with as many digits or more.
value_from-longer :
    (y : ℕ) (a b : Text) → length a ≤ length b → AreDigits a → 0 < y → value a < value_from y b
unfolding value_from
value_from-longer y [] [] e d h = h
value_from-longer y (_ ∷ _) [] e d h = absurd (omega arith)
value_from-longer y a (k ∷ b) e d h = elim (Bool-cases (leb (length a) (length b))) [
  | inl fits ↦
      value_from-longer (10 * y + digit_of k) a b (leb→le (length a) (length b) fits) d
        (omega arith)
  | inr same ↦ value_from-lt 0 y a (k ∷ b) (omega (arith, leb→lt (length a) (length b) same)) d h
]

strcmp-Compares :
    (n : ℕ) (a b : Text)
    → length a ≡ length b
    → AreDigits a
    → AreDigits b
    → Compares (strcmp a b) (value_from n a) (value_from n b)
unfolding value_from AreDigits strcmp
strcmp-Compares n [] [] e d f = refl
strcmp-Compares n [] (_ ∷ _) e d f = absurd (omega arith)
strcmp-Compares n (_ ∷ _) [] e d f = absurd (omega arith)
strcmp-Compares n (c ∷ a) (k ∷ b) e d f = elim (compare-cases c k) [
  | inl (less, h) ↦
      rw (less, strcmp) (value_from-lt _ _ a b (omega arith) d.1 (omega (arith, d.0, f.0)))
  | inr (inl (same, h)) ↦
      rw (same, strcmp, h) (strcmp-Compares (10 * n + digit_of k) a b (omega arith) d.1 f.1)
  | inr (inr (more, h)) ↦
      rw (more, strcmp) (value_from-lt _ _ b a (omega arith) f.1 (omega (arith, d.0, f.0)))
]

-- What is left behind zeros starts with another digit.
abbrev IsNormal : Text → Type 0
IsNormal [] = Unit
IsNormal (c ∷ _) = 48 < c

skip_zeros-IsNormal : (s : Text) → AreDigits s → IsNormal (skip_zeros s)
unfolding skip_zeros AreDigits
skip_zeros-IsNormal [] d = tt
skip_zeros-IsNormal (c ∷ cs) d = elim (Bool-cases (c == 48)) [
  | inl z ↦ rw z (skip_zeros-IsNormal cs d.1)
  | inr n ↦ rw n (ground (arith, d.0))
]

shorter-lt : (a b : Text) → AreDigits a → IsNormal b → length a < length b → value a < value b
unfolding value_from
shorter-lt a [] d n h = absurd (omega arith)
shorter-lt a (k ∷ b) d n h =
    value_from-longer (10 * 0 + digit_of k) a b (omega arith) d (omega arith)

normal-Compares :
    (a b : Text)
    → AreDigits a
    → AreDigits b
    → IsNormal a
    → IsNormal b
    → Compares
        (elim (compare (length a) (length b)) as (λ _. Ordering) [
          | lt ↦ lt
          | eq ↦ strcmp a b
          | gt ↦ gt
        ])
        (value a)
        (value b)
normal-Compares a b d e n m = elim (compare-cases (length a) (length b)) [
  | inl (less, h) ↦ rw less (shorter-lt a b d m h)
  | inr (inl (same, h)) ↦ rw same (strcmp-Compares 0 a b h d e)
  | inr (inr (more, h)) ↦ rw more (shorter-lt b a e n h)
]

pub cmp_unsigned-Compares :
    (a b : Text) → AreDigits a → AreDigits b → Compares (cmp_unsigned a b) (value a) (value b)
unfolding cmp_unsigned
cmp_unsigned-Compares a b d e = rw⁻¹ (value-skip_zeros a) (
    rw⁻¹ (value-skip_zeros b) (
      normal-Compares (skip_zeros a) (skip_zeros b) (skip_zeros-AreDigits a d)
        (skip_zeros-AreDigits b e) (skip_zeros-IsNormal a d) (skip_zeros-IsNormal b e)))
