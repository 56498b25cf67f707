-- ===== src/Calc/Execute.antt =====
-- The stack machine of apps/calc/main.c.
use bitloader.Prelude.{List, [], if◌then◌else◌, length, ltb, ◌∷◌}
use bitloader.Prelude.Run.{Run, fault, returns, ◌>>=◌}
use bitloader.Calc.{
  CalcExpression, CalcOperationType, Numbers, Outcome, bracket_close, bracket_open, constant, done,
  failed, no_result, not_enough_values, number_size, op_add, op_div, op_mod, op_mul, op_sub,
  operator,
}

-- The number stack, top first. A store behind its end is a fault.
abbrev pub number_stack_push : {N : Type 0} → N → List N → Run (List N)
number_stack_push val stack =
    if ltb (length stack) number_size then returns (val ∷ stack) else fault

abbrev pub apply : {N : Type 0} → Numbers N → CalcOperationType → N → N → N
apply nums op_add a b = nums.add a b
apply nums op_sub a b = nums.sub a b
apply nums op_mul a b = nums.mul a b
apply nums op_div a b = nums.div a b
apply nums op_mod a b = nums.no_mod

-- One entry of the program. A bracket does nothing.
unfoldable pub execute_op :
    {N : Type 0} → Numbers N → CalcExpression N → List N → Run (Outcome (List N))
execute_op nums (constant v) stack = do s ← number_stack_push v stack; returns (done s)
execute_op nums (operator op) (b ∷ a ∷ stack) = do
  s ← number_stack_push (apply nums op a b) stack
  returns (done s)
execute_op nums (operator op) (b ∷ []) = returns (failed not_enough_values)
execute_op nums (operator op) [] = returns (failed not_enough_values)
execute_op nums bracket_open stack = returns (done stack)
execute_op nums bracket_close stack = returns (done stack)

unfoldable pub execute_loop :
    {N : Type 0} → Numbers N → List (CalcExpression N) → List N → Run (Outcome N)
execute_loop nums [] [] = returns (failed no_result)
execute_loop nums [] (v ∷ stack) = returns (done v)
execute_loop nums (e ∷ ops) stack = do
  next ← execute_op nums e stack
  elim next [ failed err ↦ returns (failed err) | done stack' ↦ execute_loop nums ops stack' ]

-- The result, or an error. With no value left there is no error message.
unfoldable pub execute : {N : Type 0} → Numbers N → List (CalcExpression N) → Run (Outcome N)
execute nums ops = execute_loop nums ops []
