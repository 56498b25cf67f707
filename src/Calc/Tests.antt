-- ===== src/Calc/Tests.antt =====
-- The calculator at a small expression, and its stack behind an extra bracket.
use bitloader.Prelude.{List, [], arith, refl, ℕ, ◌*◌, ◌++◌, ◌+◌, ◌-◌, ◌/◌, ◌∷◌, ◌≡◌}
use bitloader.Prelude.Run.{fault, returns}
use bitloader.Strings.{isdigit}
use bitloader.Calc.Execute.{execute}
use bitloader.Calc.Tokens.{Sound, show}
use bitloader.Calc.{
  Numbers, calc_expr_get_operator_precedence, done, flush, get_operator_precedence,
  make_expr_op_from_char, op_add, op_mul, op_sub, parse_char, parse_digits, parse_input, parse_loop,
  pop_operators, pop_to_bracket, take_number,
}
use bitloader.Calc.Machine.{Expr, number, operation, postfix}
use bitloader.Calc.Evaluate.{parse_input-execute}

abbrev decimal : List ℕ → ℕ → ℕ
decimal [] n = n
decimal (d ∷ ds) n = decimal ds (n * 10 + (d - b'0'))

abbrev whole_numbers : Numbers ℕ
whole_numbers = record {
  parse_number = λ ds. decimal ds 0;
  add = λ a b. a + b;
  sub = λ a b. a - b;
  mul = λ a b. a * b;
  div = λ a b. a / b;
  no_mod = 0;
}

-- (12*(3+4))
abbrev twelve_sevens : Expr
twelve_sevens =
    operation op_mul (number (b'1' ∷ b'2' ∷ []))
      (operation op_add (number (b'3' ∷ [])) (number (b'4' ∷ [])))

twelve_sevens-Sound : Sound twelve_sevens
unfolding isdigit
twelve_sevens-Sound = (
  ((refl, (refl, tt)), omega arith, omega arith),
  (((refl, tt), omega arith, omega arith), ((refl, tt), omega arith, omega arith)),
)

parse_input-execute_example :
    (parse_input whole_numbers (show twelve_sevens ++ (0 ∷ b'!' ∷ [])) 255 100
      ≡ returns (done (postfix whole_numbers twelve_sevens)))
    × (execute whole_numbers (postfix whole_numbers twelve_sevens) ≡ returns (done 84))
parse_input-execute_example =
    parse_input-execute whole_numbers twelve_sevens (b'!' ∷ []) 255 100 twelve_sevens-Sound
      (omega arith) (omega arith) (omega arith) (omega arith)

-- A closing bracket without a partner leaves the stack's offset below its start: the `(` that
-- follows is stored in front of the stack.
unmatched_bracket : parse_input whole_numbers (b')' ∷ b'(' ∷ []) 255 100 ≡ fault
unfolding parse_input parse_loop parse_char pop_to_bracket isdigit
unmatched_bracket = refl

-- Operators of equal precedence group to the left: 8-2-1 is (8-2)-1.
left_to_right :
    parse_input whole_numbers (b'8' ∷ b'-' ∷ b'2' ∷ b'-' ∷ b'1' ∷ []) 255 100
    ≡ returns (
        done (
          postfix whole_numbers (
            operation op_sub
              (operation op_sub (number (b'8' ∷ [])) (number (b'2' ∷ [])))
              (number (b'1' ∷ [])))))
unfolding parse_input parse_loop parse_char parse_digits take_number pop_operators flush isdigit
    make_expr_op_from_char get_operator_precedence calc_expr_get_operator_precedence
left_to_right = refl
