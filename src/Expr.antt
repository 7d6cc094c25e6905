-- ===== src/Expr.antt =====
-- userspace/src/expr/expr.c: arithmetic on integers of any length, written as text.
-- A text is the list of its characters without the NUL behind it. `assertInteger` lets nothing else
-- into the arithmetic than digits with at most one `-` before them. So where a function of the source
-- calls itself or another with the sign taken off, the model calls the part of it for texts without
-- a sign. The loops go from the last digit to the first: they are recursions on reversed texts.
pub mod Value
pub mod Compare
pub mod Sums
pub mod Long
pub mod Products
pub mod Quotients
pub mod Signed
pub mod Eval
pub mod Ends
pub mod Descent
mod Tests
use Prim.Native.Nat.{compare, Ordering, lt, eq, gt}
use mathlib.Core.List.{reverse}
use some_os.Prelude.{
  ℕ, ◌+◌, ◌-◌, ◌*◌, ◌/◌, ◌%◌, Bool, true, false, not, ◌&&◌, ◌||◌, List, [], ◌∷◌, ◌++◌, length, ltb,
  ◌==◌, if◌then◌else◌,
}

abbrev pub Text : Type 0
Text = List ℕ

-- '0' and '-'
abbrev pub zero_char : ℕ
zero_char = 48

abbrev pub minus_char : ℕ
minus_char = 45

abbrev pub digit_of : ℕ → ℕ
digit_of c = c - zero_char

-- The digit before the end of a text that may be used up.
abbrev pub head_digit : Text → ℕ
head_digit [] = 0
head_digit (c ∷ _) = digit_of c

abbrev pub rest_of : Text → Text
rest_of [] = []
rest_of (_ ∷ cs) = cs

-- `while (*arg == '0') { arg++; }`
unfoldable pub skip_zeros : Text → Text
skip_zeros [] = []
skip_zeros (c ∷ cs) = let rest = skip_zeros cs in if c == zero_char then rest else c ∷ cs

-- The end of each operation: zeros are skipped, but for a last one.
abbrev pub or_zero : Text → Text
or_zero [] = zero_char ∷ []
or_zero (c ∷ cs) = c ∷ cs

abbrev pub has_minus : Text → Bool
has_minus [] = false
has_minus (c ∷ _) = c == minus_char

unfoldable pub is_zero : Text → Bool
unfolding skip_zeros
is_zero s = elim (skip_zeros (if has_minus s then rest_of s else s)) [ [] ↦ true | _ ∷ _ ↦ false ]

unfoldable pub all_digits : Text → Bool
all_digits [] = true
all_digits (c ∷ cs) = not (ltb c zero_char || ltb 57 c) && all_digits cs

-- The loop runs once on an empty text, and finds no digit there.
abbrev pub some_digits : Text → Bool
some_digits [] = false
some_digits (c ∷ cs) = all_digits (c ∷ cs)

unfoldable pub is_integer : Text → Bool
unfolding all_digits
is_integer s = some_digits (if has_minus s then rest_of s else s)

unfoldable pub strcmp : Text → Text → Ordering
strcmp [] [] = eq
strcmp [] (_ ∷ _) = lt
strcmp (_ ∷ _) [] = gt
strcmp (a ∷ as') (b ∷ bs) =
    let rest = strcmp as' bs in elim (compare a b) [ lt ↦ lt | eq ↦ rest | gt ↦ gt ]

-- `cmpInteger` without signs. An `int` result is its sign.
unfoldable pub cmp_unsigned : Text → Text → Ordering
unfolding strcmp skip_zeros
cmp_unsigned a b =
    let fst = skip_zeros a in
    let snd = skip_zeros b in
    elim (compare (length fst) (length snd)) [ lt ↦ lt | eq ↦ strcmp fst snd | gt ↦ gt ]

abbrev pub flipped : Ordering → Ordering
flipped lt = gt
flipped eq = eq
flipped gt = lt

unfoldable pub cmp_integer : Text → Text → Ordering
unfolding cmp_unsigned
cmp_integer a b =
    if has_minus a && has_minus b
    then flipped (cmp_unsigned (rest_of a) (rest_of b))
    else if has_minus a
    then lt
    else if has_minus b
    then gt
    else cmp_unsigned a b

abbrev pub is_less : Ordering → Bool
is_less lt = true
is_less _ = false

abbrev pub is_greater : Ordering → Bool
is_greater gt = true
is_greater _ = false

unfoldable pub neg_inline : Text → Text
neg_inline s = if has_minus s then rest_of s else minus_char ∷ s

-- The loop of `addInteger`, on reversed digits; `snd` is not the longer one.
unfoldable pub add_loop : Text → Text → ℕ → Text
add_loop [] snd carry = (((carry + head_digit snd) % 10) + zero_char) ∷ []
add_loop (c ∷ fst) snd carry =
    let v = carry + digit_of c + head_digit snd in
    ((v % 10) + zero_char) ∷ add_loop fst (rest_of snd) (v / 10)

unfoldable pub add_magnitudes : Text → Text → Text
unfolding add_loop skip_zeros
add_magnitudes a b =
    or_zero (skip_zeros (reverse (add_loop (reverse (skip_zeros a)) (reverse (skip_zeros b)) 0)))

unfoldable pub add_unsigned : Text → Text → Text
unfolding add_magnitudes cmp_unsigned
add_unsigned a b = if is_less (cmp_unsigned a b) then add_magnitudes b a else add_magnitudes a b

-- The loop of `subInteger`: `carry` is what `while (sub > val)` borrows.
unfoldable pub sub_loop : Text → Text → ℕ → Text
sub_loop [] snd carry = []
sub_loop (c ∷ fst) snd carry =
    let val = digit_of c in
    let sub = carry + head_digit snd in
    let borrow = if ltb val sub then (sub - val + 9) / 10 else 0 in
    (val + 10 * borrow - sub + zero_char) ∷ sub_loop fst (rest_of snd) borrow

-- With no digit left in `a`, the one round reads the '0' that was skipped and writes the byte before
-- the buffer, which is then read back: the result is that of the empty loop.
unfoldable pub sub_magnitudes : Text → Text → Text
unfolding sub_loop skip_zeros
sub_magnitudes a b =
    or_zero (skip_zeros (reverse (sub_loop (reverse (skip_zeros a)) (reverse (skip_zeros b)) 0)))

unfoldable pub sub_unsigned : Text → Text → Text
unfolding sub_magnitudes cmp_unsigned neg_inline
sub_unsigned a b =
    if is_less (cmp_unsigned a b) then neg_inline (sub_magnitudes b a) else sub_magnitudes a b

unfoldable pub add_integer : Text → Text → Text
unfolding add_unsigned sub_unsigned neg_inline cmp_unsigned
add_integer a b =
    let a' = rest_of a in
    let b' = rest_of b in
    if has_minus a && has_minus b
    then neg_inline (add_unsigned a' b')
    else if has_minus a
    then (if is_greater (cmp_unsigned a' b)
        then neg_inline (sub_unsigned a' b)
        else sub_unsigned b a')
    else if has_minus b
    then (if is_less (cmp_unsigned a b') then neg_inline (sub_unsigned b' a) else sub_unsigned a b')
    else add_unsigned a b

unfoldable pub sub_integer : Text → Text → Text
unfolding add_unsigned sub_unsigned neg_inline
sub_integer a b =
    let a' = rest_of a in
    let b' = rest_of b in
    if has_minus a && has_minus b
    then sub_unsigned b' a'
    else if has_minus a
    then neg_inline (add_unsigned a' b)
    else if has_minus b
    then add_unsigned a b'
    else sub_unsigned a b
