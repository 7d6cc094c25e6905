-- ===== src/Expr/Signed.antt =====
-- The arithmetic of userspace/src/expr/expr.c on texts with signs.
use some_os.Prelude.{
  ℕ, ◌+◌, ◌-◌, ◌*◌, ◌≡◌, inl, inr, Bool, true, false, arith, if◌then◌else◌, Bool-cases,
}
use some_os.Expr.{
  Text, has_minus, rest_of, neg_inline, cmp_unsigned, is_less, is_greater, add_unsigned,
  sub_unsigned, sub_magnitudes, add_integer, sub_integer,
}
use some_os.Expr.Value.{value, AreDigits}
use some_os.Expr.Compare.{cmp_unsigned-Compares}
use some_os.Expr.Sums.{
  IsText, add_unsigned-IsText, sub_magnitudes-IsText, Compares-less, Compares-not_less,
}
use some_os.Expr.Products.{digits-has_minus, mul_unsigned-IsText}
use some_os.Expr.Long.{mul_unsigned, mul_integer}

-- Digits with at most one minus before them.
abbrev pub IsInteger : Text → Type 0
IsInteger s = AreDigits (if has_minus s then rest_of s else s)

-- The number that a text stands for, as a difference: one of the two parts is 0.
abbrev pub above_zero : Text → ℕ
above_zero s = if has_minus s then 0 else value s

abbrev pub below_zero : Text → ℕ
below_zero s = if has_minus s then value (rest_of s) else 0

-- The text stands for `p - n`.
abbrev pub Denotes : ℕ → ℕ → Text → Type 0
Denotes p n s = (above_zero s + n ≡ below_zero s + p) × IsInteger s

text-Denotes : (m : ℕ) (s : Text) → IsText m s → Denotes m 0 s
text-Denotes m s t = let d = digits-has_minus s t.1 in rw d (omega (arith, t.0), t.1)

neg_text-Denotes : (m : ℕ) (s : Text) → IsText m s → Denotes 0 m (neg_inline s)
unfolding neg_inline
neg_text-Denotes m s t = let d = digits-has_minus s t.1 in rw d (omega (arith, t.0), t.1)

sub_unsigned-Denotes :
    (a b : Text) → AreDigits a → AreDigits b → Denotes (value a) (value b) (sub_unsigned a b)
unfolding sub_unsigned
sub_unsigned-Denotes a b d e =
    let c = cmp_unsigned-Compares a b d e in
    elim (Bool-cases (is_less (cmp_unsigned a b))) [
      | inl less ↦
          let l = Compares-less (cmp_unsigned a b) (value a) (value b) c less in
          let r =
            neg_text-Denotes (value b - value a) (sub_magnitudes b a)
              (sub_magnitudes-IsText b a e d (omega arith)) in
          rw less (omega (arith, r.0, l), r.1)
      | inr more ↦
          let l = Compares-not_less (cmp_unsigned a b) (value a) (value b) c more in
          let r =
            text-Denotes (value a - value b) (sub_magnitudes a b)
              (sub_magnitudes-IsText a b d e l) in
          rw more (omega (arith, r.0, l), r.1)
    ]

neg-Denotes : (p n : ℕ) (s : Text) → Denotes p n s → Denotes n p (neg_inline s)
unfolding neg_inline
neg-Denotes p n s r = elim (Bool-cases (has_minus s)) [
  | inl minus ↦
      let d = digits-has_minus (rest_of s) (rw minus at r.1) in
      let e : value (rest_of s) + p ≡ n = omega (arith, rw minus at r.0) in
      rw (minus, d) (omega (arith, e), rw minus at r.1)
  | inr plus ↦
      let e : value s + n ≡ p = omega (arith, rw plus at r.0) in
      rw plus (omega (arith, e), rw plus at r.1)
]

-- The four cases of signs, with what a text with or without one stands for.
add_negatives :
    (a b : Text)
    → AreDigits a
    → AreDigits b
    → Denotes 0 (value a + value b) (neg_inline (add_unsigned a b))
add_negatives a b d e =
    neg_text-Denotes (value a + value b) (add_unsigned a b) (add_unsigned-IsText a b d e)

add_positives :
    (a b : Text) → AreDigits a → AreDigits b → Denotes (value a + value b) 0 (add_unsigned a b)
add_positives a b d e =
    text-Denotes (value a + value b) (add_unsigned a b) (add_unsigned-IsText a b d e)

-- Both ways in which a difference is taken give it.
either-Denotes :
    (test : Bool) (a b : Text)
    → AreDigits a
    → AreDigits b
    → Denotes (value a) (value b) (if test then neg_inline (sub_unsigned b a) else sub_unsigned a b)
either-Denotes true a b d e =
    neg-Denotes (value b) (value a) (sub_unsigned b a) (sub_unsigned-Denotes b a e d)
either-Denotes false a b d e = sub_unsigned-Denotes a b d e

-- The product of two texts without signs, and its negation.
mul_positive :
    (a b : Text) → AreDigits a → AreDigits b → Denotes (value a * value b) 0 (mul_unsigned a b)
mul_positive a b d e =
    text-Denotes (value a * value b) (mul_unsigned a b) (mul_unsigned-IsText a b d e)

mul_negative :
    (a b : Text)
    → AreDigits a
    → AreDigits b
    → Denotes 0 (value a * value b) (neg_inline (mul_unsigned a b))
mul_negative a b d e =
    neg_text-Denotes (value a * value b) (mul_unsigned a b) (mul_unsigned-IsText a b d e)

add_integer-Denotes :
    (a b : Text)
    → IsInteger a
    → IsInteger b
    → Denotes (above_zero a + above_zero b) (below_zero a + below_zero b) (add_integer a b)
unfolding add_integer
add_integer-Denotes a b d e = elim (Bool-cases (has_minus a)) [
  | inl m ↦ elim (Bool-cases (has_minus b)) [
    | inl n ↦ rw (m, n) (add_negatives (rest_of a) (rest_of b) (rw m at d) (rw n at e))
    | inr q ↦
        let r =
          either-Denotes (is_greater (cmp_unsigned (rest_of a) b)) b (rest_of a) (rw q at e)
            (rw m at d) in
        rw (m, q) (omega (arith, r.0), r.1)
  ]
  | inr p ↦ elim (Bool-cases (has_minus b)) [
    | inl n ↦
        let r =
          either-Denotes (is_less (cmp_unsigned a (rest_of b))) a (rest_of b) (rw p at d)
            (rw n at e) in
        rw (p, n) (omega (arith, r.0), r.1)
    | inr q ↦ rw (p, q) (add_positives a b (rw p at d) (rw q at e))
  ]
]

sub_integer-Denotes :
    (a b : Text)
    → IsInteger a
    → IsInteger b
    → Denotes (above_zero a + below_zero b) (below_zero a + above_zero b) (sub_integer a b)
unfolding sub_integer
sub_integer-Denotes a b d e = elim (Bool-cases (has_minus a)) [
  | inl m ↦ elim (Bool-cases (has_minus b)) [
    | inl n ↦
        let r = sub_unsigned-Denotes (rest_of b) (rest_of a) (rw n at e) (rw m at d) in
        rw (m, n) (omega (arith, r.0), r.1)
    | inr q ↦ rw (m, q) (add_negatives (rest_of a) b (rw m at d) (rw q at e))
  ]
  | inr p ↦ elim (Bool-cases (has_minus b)) [
    | inl n ↦ rw (p, n) (add_positives a (rest_of b) (rw p at d) (rw n at e))
    | inr q ↦
        let r = sub_unsigned-Denotes a b (rw p at d) (rw q at e) in
        rw (p, q) (omega (arith, r.0), r.1)
  ]
]

-- `addInteger` and `subInteger` add and subtract, for digits of any number with at most one minus
-- before them: the sum and the difference are such texts again, and what they have above zero less
-- what they have below zero is the sum, or the difference, of the same of the two terms.
pub add_sub-Denotes :
    (a b : Text)
    → IsInteger a
    → IsInteger b
    → Denotes (above_zero a + above_zero b) (below_zero a + below_zero b) (add_integer a b)
      × Denotes (above_zero a + below_zero b) (below_zero a + above_zero b) (sub_integer a b)
add_sub-Denotes a b d e = (add_integer-Denotes a b d e, sub_integer-Denotes a b d e)

-- `mulInteger` multiplies, for digits of any number with at most one minus before them: the product
-- is such a text again, and what it has above zero less what it has below zero is the product of the
-- same of the two factors.
pub mul-Denotes :
    (a b : Text)
    → IsInteger a
    → IsInteger b
    → Denotes
        (above_zero a * above_zero b + below_zero a * below_zero b)
        (above_zero a * below_zero b + below_zero a * above_zero b)
        (mul_integer a b)
unfolding mul_integer
mul-Denotes a b d e = elim (Bool-cases (has_minus a)) [
  | inl m ↦ elim (Bool-cases (has_minus b)) [
    | inl n ↦
        let r = mul_positive (rest_of a) (rest_of b) (rw m at d) (rw n at e) in
        rw (m, n) (omega (arith, r.0), r.1)
    | inr q ↦
        let r = mul_negative (rest_of a) b (rw m at d) (rw q at e) in
        rw (m, q) (omega (arith, r.0), r.1)
  ]
  | inr p ↦ elim (Bool-cases (has_minus b)) [
    | inl n ↦
        let r = mul_negative a (rest_of b) (rw p at d) (rw n at e) in
        rw (p, n) (omega (arith, r.0), r.1)
    | inr q ↦
        let r = mul_positive a b (rw p at d) (rw q at e) in rw (p, q) (omega (arith, r.0), r.1)
  ]
]
