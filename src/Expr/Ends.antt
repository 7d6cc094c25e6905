-- ===== src/Expr/Ends.antt =====
-- The recursive descent of userspace/src/expr/expr.c: fuel and arguments through its parts.
use mathlib.Core.Path.{subst}
use some_os.Prelude.{
  ℕ, zero, suc, ◌≤◌, ◌<◌, ◌≢◌, Bool, true, false, List, [], ◌∷◌, length, if◌then◌else◌, Bool-cases,
  inl, inr, arith,
}
use some_os.Expr.{Text}
use some_os.Expr.Eval.{
  Args, Outcome, ok, exits, crashes, diverges, out_of_fuel, Parser, bind, same, one_of, closed,
  duplicated, eval_base, chain, level,
}

-- The fuel is enough, and of the arguments no more than `n` are left.
unfoldable pub EndsWithin : ℕ → Outcome → Type 0
EndsWithin n (ok value rest) = length rest ≤ n
EndsWithin n exits = Unit
EndsWithin n crashes = Unit
EndsWithin n diverges = Unit
EndsWithin n out_of_fuel = 1 ≤ 0

pub bind-EndsWithin :
    (n m : ℕ) (r : Outcome) (f : Text → Args → Outcome)
    → EndsWithin n r
    → ((value : Text) (rest : Args) → length rest ≤ n → EndsWithin m (f value rest))
    → EndsWithin m (bind r f)
unfolding EndsWithin bind
bind-EndsWithin n m (ok value rest) f h k = k value rest h
bind-EndsWithin n m exits f h k = tt
bind-EndsWithin n m crashes f h k = tt
bind-EndsWithin n m diverges f h k = tt
bind-EndsWithin n m out_of_fuel f h k = h

pub EndsWithin-trans : (n m : ℕ) (r : Outcome) → EndsWithin n r → n ≤ m → EndsWithin m r
unfolding EndsWithin
EndsWithin-trans n m (ok value rest) h l = omega arith
EndsWithin-trans n m exits h l = tt
EndsWithin-trans n m crashes h l = tt
EndsWithin-trans n m diverges h l = tt
EndsWithin-trans n m out_of_fuel h l = h

-- Either branch of a test ends.
pub if-EndsWithin :
    (n : ℕ) (test : Bool) (r s : Outcome)
    → EndsWithin n r
    → EndsWithin n s
    → EndsWithin n (if test then r else s)
if-EndsWithin n true r s h k = h
if-EndsWithin n false r s h k = k

-- The parser ends on arguments that are fewer than `n`.
abbrev pub EndsBelow : ℕ → Parser → Type 0
EndsBelow n p = (args : Args) → length args < n → EndsWithin (length args) (p args)

abbrev pub Applies : (Text → Text → Text → Args → Outcome) → Type 0
Applies apply = (op fst snd : Text) (rest : Args) → EndsWithin (length rest) (apply op fst snd rest)

pub closed-EndsWithin : (res : Text) (rest : Args) → EndsWithin (length rest) (closed res rest)
unfolding EndsWithin closed
closed-EndsWithin res [] = tt
closed-EndsWithin res (arg ∷ rest) =
    if-EndsWithin (suc (length rest)) (same arg (41 ∷ [])) (ok res rest) exits (omega arith) tt

pub duplicated-EndsWithin : (rest : Args) → EndsWithin (length rest) (duplicated rest)
unfolding EndsWithin
duplicated-EndsWithin [] = tt
duplicated-EndsWithin (arg ∷ rest) = omega arith

pub eval_base-EndsWithin :
    (expr : Parser) (args : Args)
    → EndsBelow (length args) expr
    → EndsWithin (length args) (eval_base expr args)
unfolding EndsWithin eval_base
eval_base-EndsWithin expr [] h = tt
eval_base-EndsWithin expr (arg ∷ rest) h =
    let n = suc (length rest) in
    let group = bind (expr rest) closed in
    let other = if same arg (43 ∷ []) then duplicated rest else ok arg rest in
    if-EndsWithin n (same arg (40 ∷ [])) group other
      (bind-EndsWithin (length rest) n (expr rest) closed (h rest (omega arith)) λ value left l.
        EndsWithin-trans (length left) n (closed value left) (closed-EndsWithin value left)
          (omega arith))
      (if-EndsWithin n (same arg (43 ∷ [])) (duplicated rest) (ok arg rest)
        (EndsWithin-trans (length rest) n (duplicated rest) (duplicated-EndsWithin rest)
          (omega arith))
        (omega arith))

pub chain-EndsWithin :
    (ops : List Text) (apply : Text → Text → Text → Args → Outcome) (operand : Parser) (m : ℕ)
    → Applies apply
    → EndsBelow m operand
    → (n : ℕ) (res : Text) (args : Args) → length args < n
    → length args ≤ m
    → EndsWithin (length args) (chain ops apply operand n res args)
unfolding EndsWithin chain
chain-EndsWithin ops apply operand m a h zero res args l k = absurd (omega arith)
chain-EndsWithin ops apply operand m a h (suc n) res [] l k = omega arith
chain-EndsWithin ops apply operand m a h (suc n) res (op ∷ rest) l k =
    let b = suc (length rest) in
    elim (Bool-cases (one_of ops op)) [
      | inl e ↦ rw e (
          bind-EndsWithin (length rest) b (operand rest)
            (λ snd left.
              bind (apply op res snd left) (λ res' left'. chain ops apply operand n res' left'))
            (h rest (omega arith))
            λ snd left f.
              bind-EndsWithin (length left) b (apply op res snd left)
                (λ res' left'. chain ops apply operand n res' left') (a op res snd left)
                λ res' left' g.
                  EndsWithin-trans (length left') b (chain ops apply operand n res' left')
                    (chain-EndsWithin ops apply operand m a h n res' left' (omega arith)
                      (omega arith))
                    (omega arith))
      | inr e ↦ rw e (omega arith)
    ]

pub level-EndsWithin :
    (ops : List Text) (apply : Text → Text → Text → Args → Outcome) (first operand : Parser)
    (args : Args)
    → Applies apply
    → EndsWithin (length args) (first args)
    → EndsBelow (length args) operand
    → EndsWithin (length args) (level ops apply first operand args)
unfolding level
level-EndsWithin ops apply first operand args a f h =
    let n = length args in
    bind-EndsWithin n n (first args)
      (λ res rest. chain ops apply operand (suc (length rest)) res rest) f
      λ res rest l.
        EndsWithin-trans (length rest) n (chain ops apply operand (suc (length rest)) res rest)
          (chain-EndsWithin ops apply operand n a h (suc (length rest)) res rest (omega arith) l) l

pub EndsWithin-ends : (n : ℕ) (r : Outcome) → EndsWithin n r → r ≢ out_of_fuel
unfolding EndsWithin
EndsWithin-ends n r e h =
    let never : 1 ≤ 0 = subst (λ s. EndsWithin n s) h e in omega (arith, never)
