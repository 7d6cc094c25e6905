-- ===== src/Expr/Descent.antt =====
-- The recursive descent of userspace/src/expr/expr.c ends.
use some_os.Prelude.{
  ℕ, zero, suc, ◌+◌, ◌*◌, ◌≤◌, ◌≢◌, not, ◌&&◌, Option, none, some, [], ◌∷◌, length, arith,
}
use some_os.Expr.Ends.{
  EndsWithin, bind-EndsWithin, EndsWithin-trans, if-EndsWithin, EndsBelow, Applies,
  level-EndsWithin, eval_base-EndsWithin, EndsWithin-ends,
}
use some_os.Expr.{Text, is_integer}
use some_os.Expr.Long.{mul_integer, div_integer, rem_integer}
use some_os.Expr.Eval.{
  Args, Outcome, mul_operators, add_operators, comp_operators, and_or_operators, ok, exits,
  out_of_fuel, Parser, bind, Newlib, same, or_crash, substr, eval_substr, eval_pre, or_diverges,
  apply_mul, eval_mul, apply_add, eval_add, apply_comp, eval_comp, apply_and_or, eval_and_or,
  Function, base_call, pre_call, mul_call, add_call, comp_call, and_or_call, eval, main,
}

-- What each level applies ends at once.
or_diverges-EndsWithin :
    (o : Option Text) (rest : Args) → EndsWithin (length rest) (or_diverges o rest)
unfolding EndsWithin
or_diverges-EndsWithin none rest = tt
or_diverges-EndsWithin (some res) rest = omega arith

apply_mul-Applies : Applies apply_mul
unfolding apply_mul EndsWithin
apply_mul-Applies op fst snd rest =
    let n = length rest in
    if-EndsWithin n (not (is_integer fst && is_integer snd)) exits _ tt (
      if-EndsWithin n (same op (42 ∷ [])) (ok (mul_integer fst snd) rest) _ (omega arith) (
        if-EndsWithin n (same op (47 ∷ [])) (or_diverges (div_integer 10 fst snd) rest)
          (or_diverges (rem_integer 10 fst snd) rest)
          (or_diverges-EndsWithin (div_integer 10 fst snd) rest)
          (or_diverges-EndsWithin (rem_integer 10 fst snd) rest)))

apply_add-Applies : Applies apply_add
unfolding apply_add EndsWithin
apply_add-Applies op fst snd rest = ground arith

apply_comp-Applies : Applies apply_comp
unfolding apply_comp EndsWithin
apply_comp-Applies op fst snd rest = ground arith

apply_and_or-Applies : Applies apply_and_or
unfolding apply_and_or EndsWithin
apply_and_or-Applies op fst snd rest = ground arith

-- A parser, and then what is done with its value.
then-EndsWithin :
    (n : ℕ) (p : Parser) (args : Args) (f : Text → Args → Outcome)
    → EndsBelow (suc n) p
    → length args ≤ n
    → ((value : Text) (rest : Args) → length rest ≤ n → EndsWithin n (f value rest))
    → EndsWithin n (bind (p args) f)
then-EndsWithin n p args f h l k =
    bind-EndsWithin (length args) n (p args) f (h args (omega arith))
      λ value rest m. k value rest (omega arith)

or_crash-EndsWithin : (o : Option Text) (rest : Args) → EndsWithin (length rest) (or_crash o rest)
unfolding EndsWithin
or_crash-EndsWithin none rest = tt
or_crash-EndsWithin (some res) rest = omega arith

eval_substr-EndsWithin :
    (newlib : Newlib) (base : Parser) (n : ℕ) (args : Args)
    → EndsBelow (suc n) base
    → length args ≤ n
    → EndsWithin n (eval_substr newlib base args)
unfolding EndsWithin eval_substr
eval_substr-EndsWithin newlib base n args h l = then-EndsWithin n base args _ h l λ str rest m.
    then-EndsWithin n base rest _ h m λ pos rest' m'.
      then-EndsWithin n base rest' _ h m' λ len rest'' m''.
        let o = substr str (newlib.sscanf pos) (newlib.sscanf len) in
        if-EndsWithin n (is_integer pos && is_integer len) (or_crash o rest'') exits
          (EndsWithin-trans (length rest'') n (or_crash o rest'') (or_crash-EndsWithin o rest'')
            m'')
          tt

eval_pre-EndsWithin :
    (newlib : Newlib) (base : Parser) (args : Args)
    → EndsBelow (suc (length args)) base
    → EndsWithin (length args) (eval_pre newlib base args)
unfolding EndsWithin eval_pre
eval_pre-EndsWithin newlib base [] h = h [] (omega arith)
eval_pre-EndsWithin newlib base (arg ∷ rest) h =
    let n = suc (length rest) in
    let below : length rest ≤ n = omega arith in
    if-EndsWithin n (same arg (115 ∷ 117 ∷ 98 ∷ 115 ∷ 116 ∷ 114 ∷ [])) _ _
      (eval_substr-EndsWithin newlib base n rest h below)
      (if-EndsWithin n (same arg (105 ∷ 110 ∷ 100 ∷ 101 ∷ 120 ∷ [])) _ _
        (then-EndsWithin n base rest _ h below
          λ haystack rest' m. then-EndsWithin n base rest' _ h m λ needle rest'' m'. m')
        (if-EndsWithin n (same arg (108 ∷ 101 ∷ 110 ∷ 103 ∷ 116 ∷ 104 ∷ [])) _ _
          (then-EndsWithin n base rest _ h below λ val rest' m. m) (h (arg ∷ rest) (omega arith))))

-- The calls that a function makes before it takes an argument.
abbrev rank : Function → ℕ
rank base_call = 1
rank pre_call = 2
rank mul_call = 3
rank add_call = 4
rank comp_call = 5
rank and_or_call = 6

rank-positive : (f : Function) → 1 ≤ rank f
rank-positive base_call = omega arith
rank-positive pre_call = omega arith
rank-positive mul_call = omega arith
rank-positive add_call = omega arith
rank-positive comp_call = omega arith
rank-positive and_or_call = omega arith

eval-EndsWithin :
    (newlib : Newlib) (f : Function) (n : ℕ) (args : Args)
    → 8 * length args + rank f ≤ n
    → EndsWithin (length args) (eval newlib f n args)
unfolding eval eval_mul eval_add eval_comp eval_and_or
eval-EndsWithin newlib f zero args l = absurd (omega (arith, rank-positive f))
eval-EndsWithin newlib base_call (suc n) args l =
    eval_base-EndsWithin (λ rest. eval newlib and_or_call n rest) args
      λ rest k. eval-EndsWithin newlib and_or_call n rest (omega arith)
eval-EndsWithin newlib pre_call (suc n) args l =
    eval_pre-EndsWithin newlib (λ rest. eval newlib base_call n rest) args
      λ rest k. eval-EndsWithin newlib base_call n rest (omega arith)
eval-EndsWithin newlib mul_call (suc n) args l =
    level-EndsWithin mul_operators apply_mul (λ rest. eval newlib pre_call n rest)
      (λ rest. eval newlib mul_call n rest) args apply_mul-Applies
      (eval-EndsWithin newlib pre_call n args (omega arith))
      λ rest k. eval-EndsWithin newlib mul_call n rest (omega arith)
eval-EndsWithin newlib add_call (suc n) args l =
    let mul : Parser = λ rest. eval newlib mul_call n rest in
    level-EndsWithin add_operators apply_add mul mul args apply_add-Applies
      (eval-EndsWithin newlib mul_call n args (omega arith))
      λ rest k. eval-EndsWithin newlib mul_call n rest (omega arith)
eval-EndsWithin newlib comp_call (suc n) args l =
    let add : Parser = λ rest. eval newlib add_call n rest in
    level-EndsWithin comp_operators apply_comp add add args apply_comp-Applies
      (eval-EndsWithin newlib add_call n args (omega arith))
      λ rest k. eval-EndsWithin newlib add_call n rest (omega arith)
eval-EndsWithin newlib and_or_call (suc n) args l =
    let comp : Parser = λ rest. eval newlib comp_call n rest in
    level-EndsWithin and_or_operators apply_and_or comp comp args apply_and_or-Applies
      (eval-EndsWithin newlib comp_call n args (omega arith))
      λ rest k. eval-EndsWithin newlib comp_call n rest (omega arith)

-- The fuel that `main` gives, 8 for each argument and 6 more, is enough for any arguments: so deep at
-- most do the calls of the descent stand in each other, and it comes to a value, an error, a crash or a
-- division that does not end. How many calls there are in all is not said.
pub main-ends : (newlib : Newlib) (args : Args) → main newlib args ≢ out_of_fuel
unfolding main EndsWithin
main-ends newlib [] = EndsWithin-ends 0 exits tt
main-ends newlib (arg ∷ rest) =
    let n = 8 * length (arg ∷ rest) + 6 in
    EndsWithin-ends (length (arg ∷ rest)) (eval newlib and_or_call n (arg ∷ rest))
      (eval-EndsWithin newlib and_or_call n (arg ∷ rest) (omega arith))
