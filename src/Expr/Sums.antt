-- ===== src/Expr/Sums.antt =====
-- Sums and differences of texts without a sign, of userspace/src/expr/expr.c.
use mathlib.Core.List.{reverse}
use Prim.Native.Nat.{Ordering, lt, eq, gt}
use some_os.Prelude.{
  ℕ, ◌+◌, ◌-◌, ◌*◌, ◌/◌, ◌≤◌, ◌<◌, ◌≡◌, refl, ◌∙◌, inl, inr, true, false, [], ◌∷◌, length, arith,
  Bool-cases, ltb, ltb→lt, ltb→le,
}
use some_os.Expr.{
  Text, digit_of, head_digit, rest_of, skip_zeros, cmp_unsigned, is_less, add_loop, add_magnitudes,
  add_unsigned, sub_loop, sub_magnitudes,
}
use some_os.Expr.Value.{
  value, reversed_value, AreDigits, length-reverse, finished-value, finished-AreDigits,
  started-value, started-AreDigits,
}
use some_os.Expr.Compare.{Compares}

reversed_value-rest_of :
    (s : Text) → reversed_value s ≡ head_digit s + 10 * reversed_value (rest_of s)
unfolding reversed_value
reversed_value-rest_of [] = refl
reversed_value-rest_of (c ∷ cs) = refl

rest_of-AreDigits : (s : Text) → AreDigits s → (head_digit s ≤ 9) × AreDigits (rest_of s)
unfolding AreDigits
rest_of-AreDigits [] d = (omega arith, tt)
rest_of-AreDigits (c ∷ cs) d = (omega (arith, d.0), d.1)

add_loop-value :
    (f s : Text) (carry : ℕ)
    → AreDigits f
    → AreDigits s
    → length s ≤ length f
    → carry ≤ 1
    → reversed_value (add_loop f s carry) ≡ reversed_value f + reversed_value s + carry
unfolding add_loop reversed_value AreDigits
add_loop-value [] [] carry d e l h = omega arith
add_loop-value [] (_ ∷ _) carry d e l h = absurd (omega arith)
add_loop-value (c ∷ f) [] carry d e l h = omega (
  arith,
  add_loop-value f [] ((carry + digit_of c + 0) / 10) d.1 tt (omega arith) (omega (arith, d.0)),
  d.0,
)
add_loop-value (c ∷ f) (k ∷ s) carry d e l h = omega (
  arith,
  add_loop-value f s ((carry + digit_of c + digit_of k) / 10) d.1 e.1 (omega arith)
      (omega (arith, d.0, e.0)),
  d.0,
  e.0,
)

add_loop-AreDigits : (f s : Text) (carry : ℕ) → AreDigits (add_loop f s carry)
unfolding add_loop AreDigits
add_loop-AreDigits [] s carry = (omega arith, tt)
add_loop-AreDigits (c ∷ f) s carry =
    (omega arith, add_loop-AreDigits f (rest_of s) ((carry + digit_of c + head_digit s) / 10))

sub_loop-value :
    (f s : Text) (carry : ℕ)
    → AreDigits f
    → AreDigits s
    → reversed_value s + carry ≤ reversed_value f
    → carry ≤ 1
    → (reversed_value (sub_loop f s carry) + reversed_value s + carry ≡ reversed_value f)
      × AreDigits (sub_loop f s carry)
unfolding sub_loop reversed_value AreDigits
sub_loop-value [] s carry d e l h = (omega arith, tt)
sub_loop-value (c ∷ f) s carry d e l h =
    let (small, rest) = rest_of-AreDigits s e in
    let whole = reversed_value-rest_of s in
    elim (Bool-cases (ltb (digit_of c) (carry + head_digit s))) [
      | inl less ↦
          let lt' = ltb→lt (digit_of c) (carry + head_digit s) less in
          let borrow = (carry + head_digit s - digit_of c + 9) / 10 in
          let ih =
            sub_loop-value f (rest_of s) borrow d.1 rest (omega (arith, whole, lt', d.0, small))
              (omega (arith, lt', small)) in
          rw less
            (omega (arith, ih.0, whole, lt', d.0, small), (omega (arith, lt', d.0, small), ih.1))
      | inr enough ↦
          let le' = ltb→le (digit_of c) (carry + head_digit s) enough in
          let ih =
            sub_loop-value f (rest_of s) 0 d.1 rest (omega (arith, whole, le', d.0, small))
              (omega arith) in
          rw enough
            (omega (arith, ih.0, whole, le', d.0, small), (omega (arith, le', d.0, small), ih.1))
    ]

-- A text that is not less has no fewer digits behind its zeros.
pub not_less-length :
    (a b : Text)
    → is_less (cmp_unsigned a b) ≡ false
    → length (skip_zeros b) ≤ length (skip_zeros a)
unfolding cmp_unsigned
not_less-length a b h = ground arith

pub less-length :
    (a b : Text) → is_less (cmp_unsigned a b) ≡ true → length (skip_zeros a) ≤ length (skip_zeros b)
unfolding cmp_unsigned
less-length a b h = ground arith

abbrev pub IsText : ℕ → Text → Type 0
IsText n s = (value s ≡ n) × AreDigits s

pub add_magnitudes-IsText :
    (a b : Text)
    → AreDigits a
    → AreDigits b
    → length (skip_zeros b) ≤ length (skip_zeros a)
    → IsText (value a + value b) (add_magnitudes a b)
unfolding add_magnitudes
add_magnitudes-IsText a b d e l =
    let f = reverse (skip_zeros a) in
    let s = reverse (skip_zeros b) in
    (
      finished-value (add_loop f s 0)
          ∙ add_loop-value f s 0 (started-AreDigits a d) (started-AreDigits b e)
              (omega (arith, length-reverse (skip_zeros a), length-reverse (skip_zeros b)))
              (omega arith)
          ∙ omega (arith, started-value a, started-value b),
      finished-AreDigits (add_loop f s 0) (add_loop-AreDigits f s 0),
    )

pub sub_magnitudes-IsText :
    (a b : Text)
    → AreDigits a
    → AreDigits b
    → value b ≤ value a
    → IsText (value a - value b) (sub_magnitudes a b)
unfolding sub_magnitudes
sub_magnitudes-IsText a b d e l =
    let f = reverse (skip_zeros a) in
    let s = reverse (skip_zeros b) in
    let v =
      sub_loop-value f s 0 (started-AreDigits a d) (started-AreDigits b e)
        (omega (arith, started-value a, started-value b)) (omega arith) in
    (
      finished-value (sub_loop f s 0) ∙ omega (arith, v.0, started-value a, started-value b),
      finished-AreDigits (sub_loop f s 0) v.1,
    )

pub add_unsigned-IsText :
    (a b : Text) → AreDigits a → AreDigits b → IsText (value a + value b) (add_unsigned a b)
unfolding add_unsigned
add_unsigned-IsText a b d e = elim (Bool-cases (is_less (cmp_unsigned a b))) [
  | inl less ↦
      let r = add_magnitudes-IsText b a e d (less-length a b less) in
      rw less (omega (arith, r.0), r.1)
  | inr other ↦ rw other (add_magnitudes-IsText a b d e (not_less-length a b other))
]

pub Compares-less : (o : Ordering) (x y : ℕ) → Compares o x y → is_less o ≡ true → x < y
Compares-less lt x y c h = c
Compares-less eq x y c h = absurd (ground (arith, h))
Compares-less gt x y c h = absurd (ground (arith, h))

pub Compares-not_less : (o : Ordering) (x y : ℕ) → Compares o x y → is_less o ≡ false → y ≤ x
Compares-not_less lt x y c h = absurd (ground (arith, h))
Compares-not_less eq x y c h = omega arith
Compares-not_less gt x y c h = omega arith
