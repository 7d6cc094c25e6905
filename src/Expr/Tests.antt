-- ===== src/Expr/Tests.antt =====
-- The arithmetic of userspace/src/expr/expr.c on concrete texts.
use some_os.Prelude.{◌+◌, ◌*◌, ◌≡◌, ◌≢◌, refl, none, some, [], ◌∷◌, arith}
use some_os.Expr.{Text, add_integer, sub_integer}
use some_os.Expr.Long.{mul_integer, div_rem_integer, div_integer}
use some_os.Expr.Eval.{Newlib, Args, main, ok, out_of_fuel}
use some_os.Expr.Descent.{main-ends}
use some_os.Expr.Value.{value, AreDigits, value_from}
use some_os.Expr.Quotients.{IsQuotient, div_rem-returns}
use some_os.Expr.Signed.{Denotes, above_zero, below_zero, add_sub-Denotes, mul-Denotes}

-- "-17", "105" and "8"
abbrev minus_seventeen : Text
minus_seventeen = 45 ∷ 49 ∷ 55 ∷ []

abbrev hundred_five : Text
hundred_five = 49 ∷ 48 ∷ 53 ∷ []

abbrev eight : Text
eight = 56 ∷ []

add_sub-Denotes_example :
    Denotes
      (above_zero minus_seventeen + above_zero hundred_five)
      (below_zero minus_seventeen + below_zero hundred_five)
      (add_integer minus_seventeen hundred_five)
    × Denotes
        (above_zero minus_seventeen + below_zero hundred_five)
        (below_zero minus_seventeen + above_zero hundred_five)
        (sub_integer minus_seventeen hundred_five)
unfolding AreDigits value_from
add_sub-Denotes_example =
    add_sub-Denotes minus_seventeen hundred_five (omega arith, (omega arith, tt))
      (omega arith, (omega arith, (omega arith, tt)))

mul-Denotes_example :
    Denotes
      (above_zero minus_seventeen * above_zero hundred_five
        + below_zero minus_seventeen * below_zero hundred_five)
      (above_zero minus_seventeen * below_zero hundred_five
        + below_zero minus_seventeen * above_zero hundred_five)
      (mul_integer minus_seventeen hundred_five)
unfolding AreDigits value_from
mul-Denotes_example =
    mul-Denotes minus_seventeen hundred_five (omega arith, (omega arith, tt))
      (omega arith, (omega arith, (omega arith, tt)))

div_rem-returns_example :
    (r : Text × Text) × (div_rem_integer 10 hundred_five eight ≡ some r)
    × IsQuotient hundred_five eight r
unfolding AreDigits value_from
div_rem-returns_example =
    div_rem-returns 10 hundred_five eight (omega arith)
      (omega arith, (omega arith, (omega arith, tt))) (omega arith, tt) (omega arith)

-- 105 - 17, 105 * -17 and 105 / 8
add_runs : add_integer minus_seventeen hundred_five ≡ 56 ∷ 56 ∷ []
unfolding add_integer
add_runs = refl

mul_runs : mul_integer hundred_five minus_seventeen ≡ 45 ∷ 49 ∷ 55 ∷ 56 ∷ 53 ∷ []
unfolding mul_integer
mul_runs = refl

div_runs : div_integer 10 hundred_five eight ≡ some (49 ∷ 51 ∷ [])
unfolding div_integer
div_runs = refl

-- Stand-ins for the functions of newlib, which read and write one digit.
abbrev one_digit : Newlib
one_digit = record { sscanf = λ s. value s; sprintf = λ n. (n + 48) ∷ []; strstr = λ s t. none }

-- 8 / 4 / 2
abbrev quotients : Args
quotients = eight ∷ (47 ∷ []) ∷ (52 ∷ []) ∷ (47 ∷ []) ∷ (50 ∷ []) ∷ []

main-ends_example : main one_digit quotients ≢ out_of_fuel
main-ends_example = main-ends one_digit quotients

quotients_run : main one_digit quotients ≡ ok (52 ∷ []) []
unfolding main
quotients_run = refl

-- 0 * -1
zero_run : mul_integer (48 ∷ []) (45 ∷ 49 ∷ []) ≡ 45 ∷ 48 ∷ []
unfolding mul_integer
zero_run = refl
