-- ===== src/Expr/Long.antt =====
-- Long multiplication and division of userspace/src/expr/expr.c.
use mathlib.Core.List.{reverse}
use some_os.Prelude.{
  ℕ, zero, suc, ◌+◌, ◌*◌, ◌/◌, ◌%◌, true, false, ◌&&◌, Option, none, some, [], ◌∷◌, ◌++◌, length,
  if◌then◌else◌,
}
use some_os.Expr.{
  Text, zero_char, digit_of, has_minus, rest_of, skip_zeros, or_zero, cmp_unsigned, cmp_integer,
  is_less, neg_inline, add_integer, sub_integer,
}

-- The loop of `mulInteger` for a second factor of the one digit `k`, on reversed digits.
unfoldable pub mul_loop : Text → ℕ → ℕ → Text
mul_loop [] k carry = ((carry % 10) + zero_char) ∷ []
mul_loop (c ∷ fst) k carry =
    let v = carry + digit_of c * digit_of k in ((v % 10) + zero_char) ∷ mul_loop fst k (v / 10)

-- For a second factor of at most one digit, without zeros in front.
unfoldable pub mul_short : Text → Text → Text
unfolding mul_loop skip_zeros
mul_short fst [] = zero_char ∷ []
mul_short fst (k ∷ _) = or_zero (skip_zeros (reverse (mul_loop (reverse fst) k 0)))

-- The factors, the greater one first, without zeros in front.
unfoldable pub ordered : Text → Text → Text × Text
unfolding cmp_unsigned skip_zeros
ordered a b =
    if is_less (cmp_unsigned a b)
    then (skip_zeros b, skip_zeros a)
    else (skip_zeros a, skip_zeros b)

-- `mulInteger` of `fst` and the text of the one character `k`, where it does not call itself.
unfoldable pub mul_by_char : Text → ℕ → Text
unfolding mul_short ordered
mul_by_char a k = let (fst, snd) = ordered a (k ∷ []) in mul_short fst snd

abbrev pub zeros : ℕ → Text
zeros zero = []
zeros (suc n) = zero_char ∷ zeros n

abbrev pub dec_shift_inline : Text → ℕ → Text
dec_shift_inline s n = s ++ zeros n

-- The loop over the digits of the second factor.
unfoldable pub mul_long : Text → Text → Text → Text
unfolding mul_by_char add_integer
mul_long fst [] res = res
mul_long fst (k ∷ ks) res =
    mul_long fst ks (add_integer res (dec_shift_inline (mul_by_char fst k) (length ks)))

abbrev pub mul_by_length : Text → Text → Text
mul_by_length fst (k ∷ []) = mul_short fst (k ∷ [])
mul_by_length fst snd = mul_long fst snd (zero_char ∷ [])

unfoldable pub mul_unsigned : Text → Text → Text
unfolding ordered mul_short mul_long
mul_unsigned a b = let (fst, snd) = ordered a b in mul_by_length fst snd

-- A product or quotient of texts with signs.
abbrev pub by_signs : (Text → Text → Text) → Text → Text → Text
by_signs f a b =
    let a' = rest_of a in
    let b' = rest_of b in
    if has_minus a && has_minus b
    then f a' b'
    else if has_minus a
    then neg_inline (f a' b)
    else if has_minus b
    then neg_inline (f a b')
    else f a b

unfoldable pub mul_integer : Text → Text → Text
unfolding mul_unsigned neg_inline
mul_integer a b = by_signs mul_unsigned a b

-- The inner loop of `divRemInteger`, on fuel: the digit, and what is left of `rem`.
unfoldable pub div_digit : ℕ → Text → Text → ℕ → Option (ℕ × Text)
unfolding cmp_integer sub_integer
div_digit zero rem snd digit = none
div_digit (suc fuel) rem snd digit = elim (is_less (cmp_integer rem snd)) [
  | true ↦ some (digit, rem)
  | false ↦ div_digit fuel (sub_integer rem snd) snd (digit + 1)
]

abbrev pub with_digit : ℕ → Option (Text × Text) → Option (Text × Text)
with_digit digit none = none
with_digit digit (some (ds, rem)) = some ((digit + zero_char) ∷ ds, rem)

-- The loop over the digits of `fst`.
unfoldable pub div_loop : ℕ → Text → Text → Text → Option (Text × Text)
unfolding div_digit
div_loop fuel [] snd rem = some ([], rem)
div_loop fuel (c ∷ fst) snd rem = elim (div_digit fuel (rem ++ (c ∷ [])) snd 0) [
  | none ↦ none
  | some (digit, rem') ↦ with_digit digit (div_loop fuel fst snd rem')
]

abbrev pub finished : Option (Text × Text) → Option (Text × Text)
finished none = none
finished (some (ds, rem)) = some (or_zero (skip_zeros ds), rem)

unfoldable pub div_rem_integer : ℕ → Text → Text → Option (Text × Text)
unfolding div_loop skip_zeros
div_rem_integer fuel fst snd = finished (div_loop fuel fst snd (zero_char ∷ []))

abbrev pub map_text : (Text × Text → Text) → Option (Text × Text) → Option Text
map_text f none = none
map_text f (some r) = some (f r)

unfoldable pub div_integer : ℕ → Text → Text → Option Text
unfolding div_rem_integer neg_inline
div_integer fuel a b =
    let a' = rest_of a in
    let b' = rest_of b in
    if has_minus a && has_minus b
    then map_text (λ r. r.0) (div_rem_integer fuel a' b')
    else if has_minus a
    then map_text (λ r. neg_inline r.0) (div_rem_integer fuel a' b)
    else if has_minus b
    then map_text (λ r. neg_inline r.0) (div_rem_integer fuel a b')
    else map_text (λ r. r.0) (div_rem_integer fuel a b)

unfoldable pub rem_integer : ℕ → Text → Text → Option Text
unfolding div_rem_integer neg_inline
rem_integer fuel a b =
    let a' = rest_of a in
    let b' = rest_of b in
    if has_minus a && has_minus b
    then map_text (λ r. neg_inline r.1) (div_rem_integer fuel a' b')
    else if has_minus a
    then map_text (λ r. neg_inline r.1) (div_rem_integer fuel a' b)
    else if has_minus b
    then map_text (λ r. r.1) (div_rem_integer fuel a b')
    else map_text (λ r. r.1) (div_rem_integer fuel a b)
