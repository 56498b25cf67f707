-- ===== src/Calc/Machine.antt =====
-- Expression trees, their value, and that the stack machine of apps/calc/main.c computes it.
use bitloader.Prelude.{
  List, [], ap, append-nil, append_assoc, arith, length, ltb, max, refl, true, ℕ, ◌++◌, ◌+◌, ◌<◌,
  ◌∙◌, ◌∷◌, ◌≡◌, ◌≤◌,
}
use bitloader.Calc.Execute.{apply, execute, execute_loop, execute_op}
use bitloader.Calc.{
  CalcExpression, CalcOperationType, Numbers, constant, done, number_size, op_add, op_div, op_mod,
  op_mul, op_sub, operator,
}
use bitloader.Prelude.Run.{returns}

-- An expression: a number by its digits, or an operation on two.
pub data Expr : Type 0 where
  number : List ℕ → Expr
  operation : CalcOperationType → Expr → Expr → Expr

module _ {N : Type 0} (nums : Numbers N) where
  -- The value by the operators' meaning, but for `%`, for which the calculator has -99999999.
  abbrev pub value : Expr → N
  value (number ds) = nums.parse_number ds
  value (operation op_add a b) = nums.add (value a) (value b)
  value (operation op_sub a b) = nums.sub (value a) (value b)
  value (operation op_mul a b) = nums.mul (value a) (value b)
  value (operation op_div a b) = nums.div (value a) (value b)
  value (operation op_mod a b) = nums.no_mod

  apply-value :
      (op : CalcOperationType) (a b : Expr)
      → apply nums op (value a) (value b) ≡ value (operation op a b)
  apply-value op_add a b = refl
  apply-value op_sub a b = refl
  apply-value op_mul a b = refl
  apply-value op_div a b = refl
  apply-value op_mod a b = refl

  -- The order in which the machine takes it: the operands, and then the operator.
  abbrev pub postfix : Expr → List (CalcExpression N)
  postfix (number ds) = constant (nums.parse_number ds) ∷ []
  postfix (operation op a b) = postfix a ++ (postfix b ++ (operator op ∷ []))

  -- How many numbers the machine holds at once.
  abbrev pub need : Expr → ℕ
  need (number ds) = 1
  need (operation op a b) = max (need a) (1 + need b)

  need-pos : (e : Expr) → 1 ≤ need e
  need-pos (number ds) = omega arith
  need-pos (operation op a b) = omega (arith, need-pos a)

  apply-top :
      (op : CalcOperationType) (x y : N) (ops : List (CalcExpression N)) (stack : List N)
      → length stack < 50
      → execute_loop nums (operator op ∷ ops) (y ∷ x ∷ stack)
        ≡ execute_loop nums ops (apply nums op x y ∷ stack)
  unfolding execute_loop execute_op
  apply-top op x y ops stack room =
      let fits : ltb (length stack) number_size ≡ true = ground arith in rw fits refl

  run-postfix :
      (e : Expr) (ops : List (CalcExpression N)) (stack : List N)
      → length stack + need e ≤ 50
      → execute_loop nums (postfix e ++ ops) stack ≡ execute_loop nums ops (value e ∷ stack)
  unfolding execute_loop execute_op
  run-postfix (number ds) ops stack room =
      let fits : ltb (length stack) number_size ≡ true = ground arith in rw fits refl
  run-postfix (operation op a b) ops stack room =
      rw (append_assoc (postfix a) (postfix b ++ (operator op ∷ [])) ops) (
        rw (append_assoc (postfix b) (operator op ∷ []) ops) (
          run-postfix a (postfix b ++ (operator op ∷ ops)) stack (omega arith)
          ∙ (run-postfix b (operator op ∷ ops) (value a ∷ stack) (omega arith)
              ∙ apply-top op (value a) (value b) ops stack (omega (arith, room, need-pos a))
              ∙ ap (λ v. execute_loop nums ops (v ∷ stack)) (apply-value op a b))))

  -- The machine computes an expression from its postfix order, if 50 numbers are enough.
  pub execute-postfix :
      (e : Expr) → need e ≤ 50 → execute nums (postfix e) ≡ returns (done (value e))
  unfolding execute execute_loop
  execute-postfix e room = rw (← append-nil (postfix e)) (run-postfix e [] [] (omega arith))
