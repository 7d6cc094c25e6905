-- ===== src/Expr/Quotients.antt =====
-- Long division of userspace/src/expr/expr.c divides, and ends.
use native.Mathlib.Nat.{mul-le-mul_right}
use some_os.Prelude.{
  ℕ, zero, suc, ◌+◌, ◌-◌, ◌*◌, ◌≤◌, ◌<◌, ◌≡◌, refl, ap, ◌∙◌, inl, inr, false, some, [], ◌∷◌, ◌++◌,
  arith, Bool-cases, ltb, ltb→lt, ltb→le,
}
use some_os.Expr.{
  Text, digit_of, skip_zeros, or_zero, cmp_unsigned, cmp_integer, is_less, sub_integer,
  sub_unsigned,
}
use some_os.Expr.Value.{
  value_from, value, AreDigits, value-skip_zeros, skip_zeros-AreDigits, value_from-append,
  AreDigits-append, value-or_zero, or_zero-AreDigits,
}
use some_os.Expr.Compare.{cmp_unsigned-Compares}
use some_os.Expr.Sums.{IsText, sub_magnitudes-IsText, Compares-less, Compares-not_less}
use some_os.Expr.Products.{digits-has_minus}
use some_os.Expr.Long.{div_digit, div_loop, div_rem_integer}

cmp_integer-unsigned : (a b : Text) → AreDigits a → AreDigits b → cmp_integer a b ≡ cmp_unsigned a b
unfolding cmp_integer
cmp_integer-unsigned a b d e =
    let p = digits-has_minus a d in let q = digits-has_minus b e in rw (p, q) refl

sub_integer-IsText :
    (a b : Text)
    → AreDigits a
    → AreDigits b
    → is_less (cmp_unsigned a b) ≡ false
    → IsText (value a - value b) (sub_integer a b)
unfolding sub_integer sub_unsigned
sub_integer-IsText a b d e l =
    let p = digits-has_minus a d in
    let q = digits-has_minus b e in
    rw (p, q, l)
      (sub_magnitudes-IsText a b d e (
        Compares-not_less (cmp_unsigned a b) (value a) (value b) (cmp_unsigned-Compares a b d e) l))

-- What the inner loop finds: the quotient, added to `digit`, and the remainder.
record IsDigitStep (n s digit : ℕ) (r : ℕ × Text) : Type 0 where
  whole : r.0 * s + value r.1 ≡ digit * s + n
  below : value r.1 < s
  text : AreDigits r.1

div_digit-returns :
    (fuel : ℕ) (rem snd : Text) (digit : ℕ)
    → AreDigits rem
    → AreDigits snd
    → 0 < value snd
    → value rem < fuel * value snd
    → (r : ℕ × Text) × (div_digit fuel rem snd digit ≡ some r)
      × IsDigitStep (value rem) (value snd) digit r
unfolding div_digit
div_digit-returns zero rem snd digit d e z l = absurd (omega arith)
div_digit-returns (suc fuel) rem snd digit d e z l =
    let same = cmp_integer-unsigned rem snd d e in
    let compared = cmp_unsigned-Compares rem snd d e in
    elim (Bool-cases (is_less (cmp_unsigned rem snd))) [
      | inl less ↦ (
        (digit, rem),
        ground (arith, same, less),
        record {
          whole = refl;
          below = Compares-less (cmp_unsigned rem snd) (value rem) (value snd) compared less;
          text = d;
        },
      )
      | inr enough ↦
          let at_least =
            Compares-not_less (cmp_unsigned rem snd) (value rem) (value snd) compared enough in
          let next = sub_integer-IsText rem snd d e enough in
          let (r, found, v) =
            div_digit-returns fuel (sub_integer rem snd) snd (digit + 1) next.1 e z
              (omega (arith, next.0)) in
          (
            r,
            ground (arith, same, enough, found),
            record { whole = v.whole ∙ omega (arith, next.0); below = v.below; text = v.text },
          )
    ]

factor-lt : (x y s : ℕ) → x * s < y * s → x < y
factor-lt x y s h = elim (Bool-cases (ltb x y)) [
  | inl less ↦ ltb→lt x y less
  | inr more ↦ absurd (omega (arith, mul-le-mul_right s (ltb→le x y more)))
]

-- What the loop over the digits finds, behind digits of the value `q`.
record IsDivision (n s q : ℕ) (r : Text × Text) : Type 0 where
  whole : value_from q r.0 * s + value r.1 ≡ n
  below : value r.1 < s
  texts : AreDigits r.0 × AreDigits r.1

div_loop-returns :
    (fuel q : ℕ) (fst snd rem : Text)
    → 10 ≤ fuel
    → AreDigits fst
    → AreDigits snd
    → AreDigits rem
    → value rem < value snd
    → (r : Text × Text) × (div_loop fuel fst snd rem ≡ some r)
      × IsDivision (value_from (q * value snd + value rem) fst) (value snd) q r
unfolding div_loop AreDigits value_from
div_loop-returns fuel q [] snd rem enough d e f l =
    (([], rem), refl, record { whole = refl; below = l; texts = (tt, f) })
div_loop-returns fuel q (c ∷ fst) snd rem enough d e f l =
    let longer : value (rem ++ (c ∷ [])) ≡ 10 * value rem + digit_of c =
      value_from-append 0 rem (c ∷ []) in
    let ten : 10 * value snd ≤ fuel * value snd = mul-le-mul_right (value snd) enough in
    let small : value (rem ++ (c ∷ [])) < fuel * value snd = omega (arith, longer, ten, d.0) in
    let (r, found, v) =
      div_digit-returns fuel (rem ++ (c ∷ [])) snd 0 (AreDigits-append rem (c ∷ []) f (d.0, tt)) e
        (omega arith) small in
    let (r', found', w) =
      div_loop-returns fuel (10 * q + r.0) fst snd r.1 enough d.1 e v.text v.below in
    let digit : r.0 < 10 = factor-lt r.0 10 (value snd) (omega (arith, v.whole, longer, d.0)) in
    let start : (10 * q + r.0) * value snd + value r.1
        ≡ 10 * (q * value snd + value rem) + digit_of c =
      omega (arith, v.whole, longer) in
    (
      ((r.0 + 48) ∷ r'.0, r'.1),
      ground (arith, found, found'),
      record {
        whole =
            ap (λ (n : ℕ). value_from n r'.0 * value snd + value r'.1) (omega arith)
            ∙ w.whole
            ∙ ap (λ (n : ℕ). value_from n fst) start;
        below = w.below;
        texts = ((omega (arith, digit), w.texts.0), w.texts.1);
      },
    )

-- The quotient and the remainder of two texts.
pub record IsQuotient (a b : Text) (r : Text × Text) : Type 0 where
  pub whole : value r.0 * value b + value r.1 ≡ value a
  pub below : value r.1 < value b
  pub quotient : AreDigits r.0
  pub remainder : AreDigits r.1

-- For texts of digits and a divisor that is not 0, `divRemInteger` ends, with at most ten rounds of the
-- inner loop for each digit. Its results are texts of digits; the quotient times the divisor and the
-- remainder make up the dividend, and the remainder is less than the divisor.
pub div_rem-returns :
    (fuel : ℕ) (a b : Text)
    → 10 ≤ fuel
    → AreDigits a
    → AreDigits b
    → 0 < value b
    → (r : Text × Text) × (div_rem_integer fuel a b ≡ some r) × IsQuotient a b r
unfolding div_rem_integer AreDigits value_from
div_rem-returns fuel a b enough d e z =
    let (r, found, v) = div_loop-returns fuel 0 a b (48 ∷ []) enough d e (omega arith, tt) z in
    (
      (or_zero (skip_zeros r.0), r.1),
      ground (arith, found),
      record {
        whole =
            ap (λ (n : ℕ). n * value b + value r.1)
              (value-or_zero (skip_zeros r.0) ∙ value-skip_zeros r.0)
            ∙ v.whole
            ∙ ap (λ (n : ℕ). value_from n a) (omega arith);
        below = v.below;
        quotient = or_zero-AreDigits (skip_zeros r.0) (skip_zeros-AreDigits r.0 v.texts.0);
        remainder = v.texts.1;
      },
    )
