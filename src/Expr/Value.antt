-- ===== src/Expr/Value.antt =====
-- The numbers that texts of digits stand for.
use mathlib.Core.List.{reverse, reverse-cons, reverse-reverse}
use some_os.Prelude.{
  ℕ, ◌+◌, ◌*◌, ◌≤◌, ◌≡◌, refl, sym, ap, ◌∙◌, [], ◌∷◌, ◌++◌, length, arith, length-append, ◌==◌,
  Bool-cases, inl, inr,
}
use some_os.Expr.{Text, digit_of, skip_zeros, or_zero}

-- The value of a text behind digits of the value `n`.
unfoldable pub value_from : ℕ → Text → ℕ
value_from n [] = n
value_from n (c ∷ cs) = value_from (10 * n + digit_of c) cs

abbrev pub value : Text → ℕ
value s = value_from 0 s

-- The value of a reversed text.
unfoldable pub reversed_value : Text → ℕ
reversed_value [] = 0
reversed_value (c ∷ cs) = digit_of c + 10 * reversed_value cs

abbrev pub IsDigit : ℕ → Type 0
IsDigit c = (48 ≤ c) × (c ≤ 57)

unfoldable pub AreDigits : Text → Type 0
AreDigits [] = Unit
AreDigits (c ∷ cs) = IsDigit c × AreDigits cs

pub value_from-append : (n : ℕ) (s t : Text) → value_from n (s ++ t) ≡ value_from (value_from n s) t
unfolding value_from
value_from-append n [] t = refl
value_from-append n (c ∷ cs) t = value_from-append (10 * n + digit_of c) cs t

pub value-reverse : (s : Text) → value (reverse s) ≡ reversed_value s
unfolding value_from reversed_value
value-reverse [] = refl
value-reverse (c ∷ cs) =
    rw (reverse-cons c cs)
      (value_from-append 0 (reverse cs) (c ∷ []) ∙ omega (arith, value-reverse cs))

pub reversed_value-reverse : (s : Text) → reversed_value (reverse s) ≡ value s
reversed_value-reverse s = sym (value-reverse (reverse s)) ∙ ap value (reverse-reverse s)

pub AreDigits-append : (s t : Text) → AreDigits s → AreDigits t → AreDigits (s ++ t)
unfolding AreDigits
AreDigits-append [] t d e = e
AreDigits-append (c ∷ cs) t d e = (d.0, AreDigits-append cs t d.1 e)

pub AreDigits-reverse : (s : Text) → AreDigits s → AreDigits (reverse s)
unfolding AreDigits
AreDigits-reverse [] d = tt
AreDigits-reverse (c ∷ cs) d =
    rw (reverse-cons c cs)
      (AreDigits-append (reverse cs) (c ∷ []) (AreDigits-reverse cs d.1) (d.0, tt))

pub skip_zeros-AreDigits : (s : Text) → AreDigits s → AreDigits (skip_zeros s)
unfolding AreDigits skip_zeros
skip_zeros-AreDigits [] d = tt
skip_zeros-AreDigits (c ∷ cs) d = elim (Bool-cases (c == 48)) [
  | inl z ↦ rw z (skip_zeros-AreDigits cs d.1)
  | inr n ↦ rw n d
]

pub value-skip_zeros : (s : Text) → value (skip_zeros s) ≡ value s
unfolding value_from skip_zeros
value-skip_zeros [] = refl
value-skip_zeros (c ∷ cs) = ground (arith, value-skip_zeros cs)

pub value-or_zero : (s : Text) → value (or_zero s) ≡ value s
unfolding value_from
value-or_zero [] = refl
value-or_zero (c ∷ cs) = refl

pub or_zero-AreDigits : (s : Text) → AreDigits s → AreDigits (or_zero s)
unfolding AreDigits
or_zero-AreDigits [] d = (omega arith, tt)
or_zero-AreDigits (c ∷ cs) d = d

pub length-reverse : (s : Text) → length (reverse s) ≡ length s
length-reverse [] = refl
length-reverse (c ∷ cs) =
    rw (reverse-cons c cs)
      (omega (arith, length-append {0} (reverse cs) (c ∷ []), length-reverse cs))

-- The end of each operation turns reversed digits into a text.
pub finished-value : (s : Text) → value (or_zero (skip_zeros (reverse s))) ≡ reversed_value s
finished-value s =
    value-or_zero (skip_zeros (reverse s)) ∙ value-skip_zeros (reverse s) ∙ value-reverse s

pub finished-AreDigits : (s : Text) → AreDigits s → AreDigits (or_zero (skip_zeros (reverse s)))
finished-AreDigits s d =
    or_zero-AreDigits (skip_zeros (reverse s))
      (skip_zeros-AreDigits (reverse s) (AreDigits-reverse s d))

-- The start of each operation reverses what is left behind zeros.
pub started-value : (s : Text) → reversed_value (reverse (skip_zeros s)) ≡ value s
started-value s = reversed_value-reverse (skip_zeros s) ∙ value-skip_zeros s

pub started-AreDigits : (s : Text) → AreDigits s → AreDigits (reverse (skip_zeros s))
started-AreDigits s d = AreDigits-reverse (skip_zeros s) (skip_zeros-AreDigits s d)
