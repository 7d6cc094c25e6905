-- ===== src/Expr/Products.antt =====
-- Long multiplication of userspace/src/expr/expr.c multiplies.
use mathlib.Core.List.{reverse}
use native.Mathlib.Nat.{mul-le-mul, le_trans}
use some_os.Prelude.{
  ℕ, zero, suc, ◌+◌, ◌*◌, ◌/◌, ◌≤◌, ◌≡◌, refl, sym, ap, ◌∙◌, inl, inr, false, [], ◌∷◌, length,
  arith, Bool-cases,
}
use some_os.Expr.{Text, digit_of, has_minus, skip_zeros, cmp_unsigned, is_less, add_integer}
use some_os.Expr.Value.{
  value_from, value, reversed_value, AreDigits, reversed_value-reverse, AreDigits-reverse,
  value-skip_zeros, skip_zeros-AreDigits, value_from-append, AreDigits-append, finished-value,
  finished-AreDigits,
}
use some_os.Expr.Sums.{IsText, add_unsigned-IsText, less-length, not_less-length}
use some_os.Expr.Long.{
  mul_loop, mul_short, ordered, mul_by_char, zeros, dec_shift_inline, mul_long, mul_by_length,
  mul_unsigned,
}

mul_loop-value :
    (f : Text) (k carry : ℕ)
    → AreDigits f
    → 48 ≤ k
    → k ≤ 57
    → carry ≤ 8
    → (reversed_value (mul_loop f k carry) ≡ reversed_value f * digit_of k + carry)
      × AreDigits (mul_loop f k carry)
unfolding mul_loop reversed_value AreDigits
mul_loop-value [] k carry d lo hi h = (omega arith, (omega arith, tt))
mul_loop-value (c ∷ f) k carry d lo hi h =
    let small : digit_of c ≤ 9 = omega (arith, d.0) in
    let small' : digit_of k ≤ 9 = omega arith in
    let product : digit_of c * digit_of k ≤ 9 * 9 = mul-le-mul small small' in
    let v = carry + digit_of c * digit_of k in
    let ih = mul_loop-value f k (v / 10) d.1 lo hi (omega (arith, product)) in
    (omega (arith, ih.0, product), (omega arith, ih.1))

mul_short-IsText :
    (a b : Text)
    → AreDigits a
    → AreDigits b
    → length b ≤ 1
    → IsText (value a * value b) (mul_short a b)
unfolding mul_short value_from AreDigits
mul_short-IsText a [] d e l = (omega arith, (omega arith, tt))
mul_short-IsText a (_ ∷ _ ∷ _) d e l = absurd (omega arith)
mul_short-IsText a (k ∷ []) d e l =
    let r = mul_loop-value (reverse a) k 0 (AreDigits-reverse a d) e.0.0 e.0.1 (omega arith) in
    (
      finished-value (mul_loop (reverse a) k 0)
          ∙ r.0
          ∙ omega (arith, ap (λ n. n * digit_of k) (reversed_value-reverse a)),
      finished-AreDigits (mul_loop (reverse a) k 0) r.1,
    )

-- The two factors in some order, with the longer one first.
record IsOrdered (a b : Text) (r : Text × Text) : Type 0 where
  product : value r.0 * value r.1 ≡ value a * value b
  first : AreDigits r.0
  second : AreDigits r.1
  shorter : length r.1 ≤ length r.0
  short : length r.1 ≤ length (skip_zeros b)

ordered-IsOrdered : (a b : Text) → AreDigits a → AreDigits b → IsOrdered a b (ordered a b)
unfolding ordered
ordered-IsOrdered a b d e = elim (Bool-cases (is_less (cmp_unsigned a b))) [
  | inl less ↦ rw less (record {
    product = rw (value-skip_zeros a, value-skip_zeros b) (omega arith);
    first = skip_zeros-AreDigits b e;
    second = skip_zeros-AreDigits a d;
    shorter = less-length a b less;
    short = less-length a b less;
  })
  | inr other ↦ rw other (record {
    product = rw (value-skip_zeros a, value-skip_zeros b) refl;
    first = skip_zeros-AreDigits a d;
    second = skip_zeros-AreDigits b e;
    shorter = not_less-length a b other;
    short = omega arith;
  })
]

-- A number with so many zeros behind it.
unfoldable scaled : ℕ → ℕ → ℕ
scaled zero m = m
scaled (suc n) m = scaled n (10 * m)

value_from-zeros : (n m : ℕ) → value_from m (zeros n) ≡ scaled n m
unfolding value_from scaled
value_from-zeros zero m = refl
value_from-zeros (suc n) m = ap (value_from_of n) (omega arith) ∙ value_from-zeros n (10 * m)
  where
    value_from_of : ℕ → ℕ → ℕ
    value_from_of n m = value_from m (zeros n)

scaled-add : (n a b : ℕ) → scaled n (a + b) ≡ scaled n a + scaled n b
unfolding scaled
scaled-add zero a b = refl
scaled-add (suc n) a b = ap (scaled n) (omega arith) ∙ scaled-add n (10 * a) (10 * b)

scaled-mul : (n a b : ℕ) → scaled n (a * b) ≡ a * scaled n b
unfolding scaled
scaled-mul zero a b = refl
scaled-mul (suc n) a b = ap (scaled n) (omega arith) ∙ scaled-mul n a (10 * b)

value_from-scaled : (m : ℕ) (s : Text) → value_from m s ≡ scaled (length s) m + value s
unfolding value_from scaled
value_from-scaled m [] = omega arith
value_from-scaled m (c ∷ cs) =
    let behind : value (c ∷ cs) ≡ scaled (length cs) (digit_of c) + value cs =
      ap (λ (n : ℕ). value_from n cs) (omega arith) ∙ value_from-scaled (digit_of c) cs in
    value_from-scaled (10 * m + digit_of c) cs
    ∙ omega (arith, scaled-add (length cs) (10 * m) (digit_of c))
    ∙ ap (λ (v : ℕ). scaled (length cs) (10 * m) + v) (sym behind)

AreDigits-zeros : (n : ℕ) → AreDigits (zeros n)
unfolding AreDigits
AreDigits-zeros zero = tt
AreDigits-zeros (suc n) = (omega arith, AreDigits-zeros n)

dec_shift-IsText :
    (a : Text) (n : ℕ) → AreDigits a → IsText (scaled n (value a)) (dec_shift_inline a n)
dec_shift-IsText a n d = (
  value_from-append 0 a (zeros n) ∙ value_from-zeros n (value a),
  AreDigits-append a (zeros n) d (AreDigits-zeros n),
)

pub digits-has_minus : (a : Text) → AreDigits a → has_minus a ≡ false
unfolding AreDigits
digits-has_minus [] d = refl
digits-has_minus (c ∷ cs) d = ground (arith, d.0)

pub add_integer-IsText :
    (a b : Text) → AreDigits a → AreDigits b → IsText (value a + value b) (add_integer a b)
unfolding add_integer
add_integer-IsText a b d e =
    let p = digits-has_minus a d in
    let q = digits-has_minus b e in rw (p, q) (add_unsigned-IsText a b d e)

mul_by_char-IsText :
    (a : Text) (k : ℕ)
    → AreDigits a
    → 48 ≤ k
    → k ≤ 57
    → IsText (value a * digit_of k) (mul_by_char a k)
unfolding mul_by_char
mul_by_char-IsText a k d lo hi =
    let o = ordered-IsOrdered a (k ∷ []) d (digit k lo hi) in
    let r =
      mul_short-IsText (ordered a (k ∷ [])).0 (ordered a (k ∷ [])).1 o.first o.second
        (le_trans o.short (at_most_one k)) in
    (r.0 ∙ o.product ∙ ap (λ n. value a * n) (value-one k), r.1)
  where
    digit : (k : ℕ) → 48 ≤ k → k ≤ 57 → AreDigits (k ∷ [])
    digit k lo hi = unfold AreDigits in ((lo, hi), tt)

    at_most_one : (k : ℕ) → length (skip_zeros (k ∷ [])) ≤ 1
    at_most_one k = unfold skip_zeros in ground arith

    value-one : (k : ℕ) → value (k ∷ []) ≡ digit_of k
    value-one k = unfold value_from in omega arith

value-cons : (c : ℕ) (cs : Text) → value (c ∷ cs) ≡ scaled (length cs) (digit_of c) + value cs
unfolding value_from
value-cons c cs = ap (λ (n : ℕ). value_from n cs) (omega arith) ∙ value_from-scaled (digit_of c) cs

distributed :
    (res sum a part tens ones all : ℕ)
    → sum ≡ res + part
    → part ≡ a * tens
    → all ≡ tens + ones
    → sum + a * ones ≡ res + a * all
distributed res sum a part tens ones all p q r = omega (arith, ap (λ (v : ℕ). a * v) r)

mul_long-IsText :
    (a ks res : Text)
    → AreDigits a
    → AreDigits ks
    → AreDigits res
    → IsText (value res + value a * value ks) (mul_long a ks res)
unfolding mul_long AreDigits value_from
mul_long-IsText a [] res d e f = (omega arith, f)
mul_long-IsText a (k ∷ ks) res d e f =
    let n = length ks in
    let one = mul_by_char-IsText a k d e.0.0 e.0.1 in
    let part = dec_shift-IsText (mul_by_char a k) n one.1 in
    let sum = add_integer-IsText res (dec_shift_inline (mul_by_char a k) n) f part.1 in
    let all =
      mul_long-IsText a ks (add_integer res (dec_shift_inline (mul_by_char a k) n)) d e.1 sum.1 in
    let shifted : value (dec_shift_inline (mul_by_char a k) n) ≡ value a * scaled n (digit_of k) =
      part.0 ∙ ap (scaled n) one.0 ∙ scaled-mul n (value a) (digit_of k) in
    (all.0 ∙ distributed _ _ _ _ _ _ _ sum.0 shifted (value-cons k ks), all.1)

from_zero :
    (a b : Text) → AreDigits a → AreDigits b → IsText (value a * value b) (mul_long a b (48 ∷ []))
unfolding AreDigits value_from
from_zero a b d e =
    let r = mul_long-IsText a b (48 ∷ []) d e (omega arith, tt) in (r.0 ∙ omega arith, r.1)

mul_by_length-IsText :
    (a b : Text) → AreDigits a → AreDigits b → IsText (value a * value b) (mul_by_length a b)
mul_by_length-IsText a [] d e = from_zero a [] d e
mul_by_length-IsText a (k ∷ []) d e = mul_short-IsText a (k ∷ []) d e (omega arith)
mul_by_length-IsText a (k ∷ j ∷ ks) d e = from_zero a (k ∷ j ∷ ks) d e

pub mul_unsigned-IsText :
    (a b : Text) → AreDigits a → AreDigits b → IsText (value a * value b) (mul_unsigned a b)
unfolding mul_unsigned
mul_unsigned-IsText a b d e =
    let o = ordered-IsOrdered a b d e in
    let r = mul_by_length-IsText (ordered a b).0 (ordered a b).1 o.first o.second in
    (r.0 ∙ o.product, r.1)
