-- ===== src/Calc.antt =====
-- apps/calc/main.c: the calculator's parser, which orders an expression by operator precedence, and
-- its stack machine. `number_t` and its arithmetic are a parameter.
pub mod Execute
pub mod Machine
pub mod Tokens
pub mod Parser
pub mod Evaluate
mod Tests
use bitloader.Prelude.{
  Bool, List, Option, [], false, if◌then◌else◌, leb, length, ltb, none, some, suc, true, zero, ℕ,
  ◌&&◌, ◌++◌, ◌+◌, ◌==◌, ◌||◌, ◌∷◌,
}
use bitloader.Prelude.Int.{leb_ℤ, negsuc, pos, ℤ}
use bitloader.Prelude.Run.{Run, fault, out_of_fuel, returns, ◌>>=◌}
use bitloader.Strings.{isdigit}

-- `number_t` is a `float`: `parse_number` reads one with `sscanf`, and the processor computes with
-- it. `no_mod` stands for -99999999, the result of every `%`.
pub record Numbers (N : Type 0) : Type 0 where
  pub parse_number : List ℕ → N
  pub add : N → N → N
  pub sub : N → N → N
  pub mul : N → N → N
  pub div : N → N → N
  pub no_mod : N

pub data CalcOperationType : Type 0 where
  op_add : CalcOperationType
  op_sub : CalcOperationType
  op_mul : CalcOperationType
  op_div : CalcOperationType
  op_mod : CalcOperationType

pub data CalcExpression (N : Type 0) : Type 0 where
  constant : N → CalcExpression N
  operator : CalcOperationType → CalcExpression N
  bracket_open : CalcExpression N
  bracket_close : CalcExpression N

unfoldable pub make_expr_op_from_char : {N : Type 0} → ℕ → Option (CalcExpression N)
make_expr_op_from_char c =
    if c == b'+'
    then some (operator op_add)
    else if c == b'-'
    then some (operator op_sub)
    else if c == b'*'
    then some (operator op_mul)
    else if c == b'/'
    then some (operator op_div)
    else if c == b'%'
    then some (operator op_mod)
    else none

unfoldable pub get_operator_precedence : ℕ → ℤ
get_operator_precedence op =
    if op == b'^'
    then pos 3
    else if op == b'/' || (op == b'*' || op == b'%')
    then pos 2
    else if op == b'+' || op == b'-'
    then pos 1
    else negsuc 0

unfoldable pub calc_expr_get_operator_precedence : {N : Type 0} → CalcExpression N → ℤ
calc_expr_get_operator_precedence (operator op_add) = pos 1
calc_expr_get_operator_precedence (operator op_sub) = pos 1
calc_expr_get_operator_precedence (operator op_mul) = pos 2
calc_expr_get_operator_precedence (operator op_div) = pos 2
calc_expr_get_operator_precedence (operator op_mod) = pos 2
calc_expr_get_operator_precedence e = negsuc 0

unfoldable pub operator_to_char : CalcOperationType → ℕ
operator_to_char op_add = b'+'
operator_to_char op_sub = b'-'
operator_to_char op_mul = b'*'
operator_to_char op_div = b'/'
operator_to_char op_mod = b'%'

-- The error messages.
pub data CalcError : Type 0 where
  result_buffer_full : CalcError
  expression_stack_full : CalcError
  invalid_number : CalcError
  invalid_character : CalcError
  not_enough_values : CalcError
  no_result : CalcError

pub data Outcome (A : Type 0) : Type 0 where
  done : A → Outcome A
  failed : CalcError → Outcome A

abbrev pub stack_size : ℕ
stack_size = 100

abbrev pub number_size : ℕ
number_size = 50

-- The output, the stack with its top first, and by how much `expression_stack_offset` is below -1,
-- which closing brackets without a partner bring about.
pub record ParseState (N : Type 0) : Type 0 where
  pub result : List (CalcExpression N)
  pub stack : List (CalcExpression N)
  pub below : ℕ

-- A store behind the end of `result` is a fault.
abbrev pub emit : {N : Type 0} → ℕ → CalcExpression N → ParseState N → Run (ParseState N)
emit max_len e s =
    if ltb (length s.result) max_len
    then returns (record s { result = s.result ++ (e ∷ []) })
    else fault

-- A store in front of the stack or behind its end is a fault.
abbrev pub push_expr : {N : Type 0} → CalcExpression N → ParseState N → Run (ParseState N)
push_expr e s =
    if ltb 0 s.below
    then fault
    else if ltb (length s.stack) stack_size
    then returns (record s { stack = e ∷ s.stack })
    else fault

abbrev pub is_open : {N : Type 0} → CalcExpression N → Bool
is_open bracket_open = true
is_open e = false

-- The operators over the last opening bracket move to the output.
unfoldable pub pop_to_bracket :
    {N : Type 0} → ℕ → List (CalcExpression N) → List (CalcExpression N) → ℕ → Run (ParseState N)
pop_to_bracket max_len result [] below =
    returns (record { result = result; stack = []; below = below })
pop_to_bracket max_len result (e ∷ es) below =
    let rest = pop_to_bracket max_len (result ++ (e ∷ [])) es below in
    if is_open e
    then returns (record { result = result; stack = e ∷ es; below = below })
    else if ltb (length result) max_len
    then rest
    else fault

-- `expression_stack_offset - 1`
abbrev pub drop_bracket : {N : Type 0} → ParseState N → ParseState N
drop_bracket s = elim s.stack [
  | [] ↦ record s { below = s.below + 1 }
  | e ∷ es ↦ record s { stack = es }
]

-- The operators on top that bind at least as strongly as `ch` move to the output.
unfoldable pub pop_operators :
    {N : Type 0}
    → ℕ
    → ℕ
    → List (CalcExpression N)
    → List (CalcExpression N)
    → ℕ
    → Run (ParseState N)
pop_operators ch max_len result [] below =
    returns (record { result = result; stack = []; below = below })
pop_operators ch max_len result (e ∷ es) below =
    let rest = pop_operators ch max_len (result ++ (e ∷ [])) es below in
    if leb_ℤ (get_operator_precedence ch) (calc_expr_get_operator_precedence e)
    then (if ltb (length result) max_len then rest else fault)
    else returns (record { result = result; stack = e ∷ es; below = below })

abbrev pub is_number_char : ℕ → Bool
is_number_char c = isdigit c || c == b'.'

-- The digits of a number that begins here, and what comes after; a second point is an error, and
-- a store behind the end of `number_buffer` is a fault.
unfoldable pub take_number : (room : ℕ) → List ℕ → Bool → Run (Outcome (List ℕ × List ℕ))
take_number room [] had_point = returns (done ([], []))
take_number zero (c ∷ cs) had_point =
    if is_number_char c
    then (if had_point && c == b'.' then returns (failed invalid_number) else fault)
    else returns (done ([], c ∷ cs))
take_number (suc room) (c ∷ cs) had_point =
    let rest = take_number room cs (had_point || c == b'.') in
    if is_number_char c
    then (if had_point && c == b'.' then returns (failed invalid_number) else do
      out ← rest
      elim out [ done (ds, cs') ↦ returns (done (c ∷ ds, cs')) | failed e ↦ returns (failed e) ])
    else returns (done ([], c ∷ cs))

-- What one character leads to: the loop goes on with the rest of the input, or an error.
abbrev pub CharOutcome : Type 0 → Type 0
CharOutcome N = Run (Outcome (List ℕ × ParseState N))

-- A number. Its text is read up to a NUL, which 50 digits leave no room for.
unfoldable pub parse_digits : {N : Type 0} → Numbers N → ℕ → List ℕ → ParseState N → CharOutcome N
parse_digits nums max_len cs s = do
  number ← take_number number_size cs false
  elim number [
    | failed e ↦ returns (failed e)
    | done (ds, cs') ↦
        if ltb (length ds) number_size
        then (do s' ← emit max_len (constant (nums.parse_number ds)) s; returns (done (cs', s')))
        else fault
  ]

-- The body of the loop, for the character `ch`.
unfoldable pub parse_char : {N : Type 0} → Numbers N → ℕ → ℕ → List ℕ → ParseState N → CharOutcome N
parse_char nums max_len ch cs s =
    if leb max_len (length s.result)
    then returns (failed result_buffer_full)
    else if ltb stack_size (length s.stack)
    then returns (failed expression_stack_full)
    else if ch == b' '
    then returns (done (cs, s))
    else if isdigit ch
    then parse_digits nums max_len (ch ∷ cs) s
    else if ch == b'('
    then (do s' ← push_expr bracket_open s; returns (done (cs, s')))
    else if ch == b')'
    then (do
      s' ← pop_to_bracket max_len s.result s.stack s.below
      returns (done (cs, drop_bracket s')))
    else do
      s' ← pop_operators ch max_len s.result s.stack s.below
      elim (make_expr_op_from_char ch) [
        | none ↦ (do s'' ← push_expr (operator op_add) s'; returns (failed invalid_character))
        | some e ↦ (do s'' ← push_expr e s'; returns (done (cs, s'')))
      ]

-- The rest of the stack, top first.
unfoldable pub flush :
    {N : Type 0}
    → ℕ
    → List (CalcExpression N)
    → List (CalcExpression N)
    → Run (Outcome (List (CalcExpression N)))
flush max_len result [] = returns (done result)
flush max_len result (e ∷ es) =
    let rest = flush max_len (result ++ (e ∷ [])) es in
    if ltb (length result) max_len then rest else fault

-- The loop over the input, one round of fuel for a character.
unfoldable pub parse_loop :
    {N : Type 0}
    → Numbers N
    → ℕ
    → ℕ
    → List ℕ
    → ParseState N
    → Run (Outcome (List (CalcExpression N)))
parse_loop nums max_len fuel [] s = flush max_len s.result s.stack
parse_loop nums max_len zero (c ∷ cs) s = out_of_fuel
parse_loop nums max_len (suc fuel) (c ∷ cs) s = do
  next ← parse_char nums max_len c cs s
  elim next [ failed e ↦ returns (failed e) | done (cs', s') ↦ parse_loop nums max_len fuel cs' s' ]

-- The characters before the NUL and within the given length, which the loop looks at.
abbrev pub readable : List ℕ → ℕ → List ℕ
readable [] n = []
readable (c ∷ cs) zero = []
readable (c ∷ cs) (suc n) = if c == 0 then [] else c ∷ readable cs n

pub parse_input :
    {N : Type 0} → Numbers N → List ℕ → ℕ → ℕ → Run (Outcome (List (CalcExpression N)))
parse_input nums input_buffer input_buffer_len result_buffer_max_len =
    let input = readable input_buffer input_buffer_len in
    parse_loop nums result_buffer_max_len (length input) input
      (record { result = []; stack = []; below = 0 })
