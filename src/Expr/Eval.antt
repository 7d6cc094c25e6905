-- ===== src/Expr/Eval.antt =====
-- The recursive descent of userspace/src/expr/expr.c over the arguments of the program.
-- The Scanner is the list of the arguments that are left; `peek` is its head. Each function takes the
-- functions that it calls, and `eval` ties them together on fuel. What newlib does is a parameter.
use Prim.Native.Nat.{Ordering, eq}
use some_os.Prelude.{
  ℕ, zero, suc, ◌+◌, ◌-◌, ◌*◌, Bool, true, false, not, ◌&&◌, ◌||◌, Option, none, some, List, [],
  ◌∷◌, length, take, drop, add64, ltb, ◌==◌, if◌then◌else◌,
}
use some_os.Expr.{
  Text, zero_char, is_zero, is_integer, strcmp, cmp_integer, is_less, is_greater, add_integer,
  sub_integer,
}
use some_os.Expr.Long.{mul_integer, div_integer, rem_integer}

abbrev pub Args : Type 0
Args = List Text

-- A value with the arguments behind it, `exit(2)`, an access out of bounds or through NULL, a division
-- that does not end, or too little fuel.
pub data Outcome : Type 0 where
  ok : Text → Args → Outcome
  exits : Outcome
  crashes : Outcome
  diverges : Outcome
  out_of_fuel : Outcome

abbrev pub Parser : Type 0
Parser = Args → Outcome

unfoldable pub bind : Outcome → (Text → Args → Outcome) → Outcome
bind (ok value rest) f = f value rest
bind exits f = exits
bind crashes f = crashes
bind diverges f = diverges
bind out_of_fuel f = out_of_fuel

-- The functions of newlib that are used: `sscanf` and `sprintf` with "%lu", and `strstr`.
pub record Newlib : Type 0 where
  pub sscanf : Text → ℕ
  pub sprintf : ℕ → Text
  pub strstr : Text → Text → Option ℕ

abbrev pub same : Text → Text → Bool
same a b = elim (strcmp a b) [ eq ↦ true | _ ↦ false ]

abbrev pub one_of : List Text → Text → Bool
one_of [] a = false
one_of (b ∷ bs) a = same a b || one_of bs a

-- "1" and "0"
abbrev pub truth : Bool → Text
truth true = 49 ∷ []
truth false = zero_char ∷ []

unfoldable pub closed : Text → Args → Outcome
unfolding strcmp
closed res [] = exits
closed res (arg ∷ rest) = if same arg (41 ∷ []) then ok res rest else exits

abbrev pub duplicated : Args → Outcome
duplicated [] = crashes
duplicated (arg ∷ rest) = ok arg rest

unfoldable pub eval_base : Parser → Parser
unfolding strcmp bind closed
eval_base expr [] = crashes
eval_base expr (arg ∷ rest) =
    if same arg (40 ∷ [])
    then bind (expr rest) closed
    else if same arg (43 ∷ [])
    then duplicated rest
    else ok arg rest

-- The part of `substr` behind the operands; the copy is out of bounds when `posi + leni` wraps around.
unfoldable pub substr : Text → ℕ → ℕ → Option Text
unfolding add64
substr str pos len =
    let leni = if pos == 0 then 0 else len in
    let posi = if ltb (length str) (pos - 1) then length str else pos - 1 in
    let leni' = if ltb (length str) (add64 posi leni) then length str - posi else leni in
    if ltb (length str) (posi + leni') then none else some (take leni' (drop posi str))

abbrev pub or_crash : Option Text → Args → Outcome
or_crash none rest = crashes
or_crash (some res) rest = ok res rest

abbrev pub index_of : Option ℕ → ℕ
index_of none = 0
index_of (some at) = at + 1

unfoldable pub eval_substr : Newlib → Parser → Parser
unfolding bind substr is_integer
eval_substr newlib base args = bind (base args) λ str rest. bind (base rest) λ pos rest'.
    bind (base rest') λ len rest''.
      if is_integer pos && is_integer len
      then or_crash (substr str (newlib.sscanf pos) (newlib.sscanf len)) rest''
      else exits

-- "substr", "index" and "length"
unfoldable pub eval_pre : Newlib → Parser → Parser
unfolding strcmp bind eval_substr
eval_pre newlib base [] = base []
eval_pre newlib base (arg ∷ rest) =
    if same arg (115 ∷ 117 ∷ 98 ∷ 115 ∷ 116 ∷ 114 ∷ [])
    then eval_substr newlib base rest
    else if same arg (105 ∷ 110 ∷ 100 ∷ 101 ∷ 120 ∷ [])
    then bind (base rest) (λ haystack rest'.
      bind (base rest')
        λ needle rest''. ok (newlib.sprintf (index_of (newlib.strstr haystack needle))) rest'')
    else if same arg (108 ∷ 101 ∷ 110 ∷ 103 ∷ 116 ∷ 104 ∷ [])
    then bind (base rest) (λ val rest'. ok (newlib.sprintf (length val)) rest')
    else base (arg ∷ rest)

-- The loop of a level: while an operator of it comes next, an operand is evaluated and applied.
unfoldable pub chain :
    List Text → (Text → Text → Text → Args → Outcome) → Parser → ℕ → Text → Args → Outcome
unfolding strcmp bind
chain ops apply operand zero res args = out_of_fuel
chain ops apply operand (suc n) res [] = ok res []
chain ops apply operand (suc n) res (op ∷ rest) =
    if one_of ops op
    then bind (operand rest) (λ snd rest'.
      bind (apply op res snd rest') λ res' rest''. chain ops apply operand n res' rest'')
    else ok res (op ∷ rest)

-- A level: the first operand, and the loop, which takes an argument at least in each round.
unfoldable pub level : List Text → (Text → Text → Text → Args → Outcome) → Parser → Parser → Parser
unfolding chain
level ops apply first operand args =
    bind (first args) λ res rest. chain ops apply operand (suc (length rest)) res rest

abbrev pub or_diverges : Option Text → Args → Outcome
or_diverges none rest = diverges
or_diverges (some res) rest = ok res rest

abbrev pub mul_operators : List Text
mul_operators = (42 ∷ []) ∷ (47 ∷ []) ∷ (37 ∷ []) ∷ []

-- "*", "/" and "%"; ten rounds are enough for a digit of a quotient.
unfoldable pub apply_mul : Text → Text → Text → Args → Outcome
unfolding strcmp is_integer mul_integer div_integer rem_integer
apply_mul op fst snd rest =
    if not (is_integer fst && is_integer snd)
    then exits
    else if same op (42 ∷ [])
    then ok (mul_integer fst snd) rest
    else if same op (47 ∷ [])
    then or_diverges (div_integer 10 fst snd) rest
    else or_diverges (rem_integer 10 fst snd) rest

-- `evalMul` calls itself for the right operand.
unfoldable pub eval_mul : Parser → Parser → Parser
unfolding level apply_mul
eval_mul pre mul args = level mul_operators apply_mul pre mul args

abbrev pub add_operators : List Text
add_operators = (43 ∷ []) ∷ (45 ∷ []) ∷ []

-- "+" and "-"
unfoldable pub apply_add : Text → Text → Text → Args → Outcome
unfolding strcmp is_integer add_integer sub_integer
apply_add op fst snd rest =
    if not (is_integer fst && is_integer snd)
    then exits
    else if same op (43 ∷ [])
    then ok (add_integer fst snd) rest
    else ok (sub_integer fst snd) rest

unfoldable pub eval_add : Parser → Parser
unfolding level apply_add
eval_add mul args = level add_operators apply_add mul mul args

abbrev pub is_equal : Ordering → Bool
is_equal eq = true
is_equal _ = false

-- "<", "<=", "=", "!=", ">=" and ">"
unfoldable pub compared : Text → Ordering → Bool
unfolding strcmp
compared op cmp =
    if same op (60 ∷ [])
    then is_less cmp
    else if same op (60 ∷ 61 ∷ [])
    then not (is_greater cmp)
    else if same op (61 ∷ [])
    then is_equal cmp
    else if same op (33 ∷ 61 ∷ [])
    then not (is_equal cmp)
    else if same op (62 ∷ 61 ∷ [])
    then not (is_less cmp)
    else is_greater cmp

abbrev pub comp_operators : List Text
comp_operators =
    (60 ∷ []) ∷ (60 ∷ 61 ∷ []) ∷ (61 ∷ []) ∷ (33 ∷ 61 ∷ []) ∷ (62 ∷ 61 ∷ []) ∷ (62 ∷ []) ∷ []

unfoldable pub apply_comp : Text → Text → Text → Args → Outcome
unfolding is_integer cmp_integer compared
apply_comp op fst snd rest =
    if is_integer fst && is_integer snd
    then ok (truth (compared op (cmp_integer fst snd))) rest
    else exits

unfoldable pub eval_comp : Parser → Parser
unfolding level apply_comp
eval_comp add args = level comp_operators apply_comp add add args

abbrev pub and_or_operators : List Text
and_or_operators = (124 ∷ []) ∷ (38 ∷ []) ∷ []

-- "|" and "&"
unfoldable pub apply_and_or : Text → Text → Text → Args → Outcome
unfolding strcmp is_zero
apply_and_or op fst snd rest =
    if same op (124 ∷ [])
    then ok (if is_zero fst then snd else fst) rest
    else ok (if is_zero fst || is_zero snd then truth false else fst) rest

unfoldable pub eval_and_or : Parser → Parser
unfolding level apply_and_or
eval_and_or comp args = level and_or_operators apply_and_or comp comp args

pub data Function : Type 0 where
  base_call : Function
  pre_call : Function
  mul_call : Function
  add_call : Function
  comp_call : Function
  and_or_call : Function

-- A call of one of the functions, on fuel; `evalExpr` is `evalAndOr`.
unfoldable pub eval : Newlib → Function → ℕ → Parser
unfolding eval_base eval_pre eval_mul eval_add eval_comp eval_and_or
eval newlib f zero args = out_of_fuel
eval newlib base_call (suc n) args = eval_base (λ rest. eval newlib and_or_call n rest) args
eval newlib pre_call (suc n) args = eval_pre newlib (λ rest. eval newlib base_call n rest) args
eval newlib mul_call (suc n) args =
    eval_mul (λ rest. eval newlib pre_call n rest) (λ rest. eval newlib mul_call n rest) args
eval newlib add_call (suc n) args = eval_add (λ rest. eval newlib mul_call n rest) args
eval newlib comp_call (suc n) args = eval_comp (λ rest. eval newlib add_call n rest) args
eval newlib and_or_call (suc n) args = eval_and_or (λ rest. eval newlib comp_call n rest) args

-- What `main` does: the arguments behind the expression are not looked at. The status is that of a
-- value which is printed.
unfoldable pub main : Newlib → Args → Outcome
unfolding eval
main newlib [] = exits
main newlib (arg ∷ rest) = eval newlib and_or_call (8 * length (arg ∷ rest) + 6) (arg ∷ rest)

unfoldable pub exit_status : Text → ℕ
unfolding is_zero
exit_status result = if is_zero result then 1 else 0
