-- ===== src/Calc/Tokens.antt =====
-- The characters of a bracketed expression, as the parser of apps/calc/main.c takes them.
use bitloader.Prelude.{
  List, [], arith, false, length, max, refl, some, suc, true, zero, ℕ, ◌++◌, ◌+◌, ◌<◌, ◌==◌, ◌∷◌,
  ◌≡◌, ◌≤◌,
}
use bitloader.Prelude.Run.{returns}
use bitloader.Strings.{isdigit}
use bitloader.Calc.{
  CalcOperationType, bracket_open, calc_expr_get_operator_precedence, done, get_operator_precedence,
  is_number_char, make_expr_op_from_char, op_add, op_div, op_mod, op_mul, op_sub, operator,
  operator_to_char, take_number,
}
use bitloader.Calc.Machine.{Expr, number, operation}
use bitloader.Prelude.Int.{leb_ℤ}

-- An expression's text, with brackets around every operation.
abbrev pub show : Expr → List ℕ
show (number ds) = ds
show (operation op a b) = b'(' ∷ (show a ++ (operator_to_char op ∷ (show b ++ (b')' ∷ []))))

abbrev pub Digits : List ℕ → Type 0
Digits [] = Unit
Digits (d ∷ ds) = (isdigit d ≡ true) × Digits ds

-- The numbers have digits, and fewer than 50.
abbrev pub Sound : Expr → Type 0
Sound (number ds) = Digits ds × (0 < length ds) × (length ds < 50)
Sound (operation op a b) = Sound a × Sound b

-- How many characters and numbers the parser takes, and how deep the brackets are.
abbrev pub tokens : Expr → ℕ
tokens (number ds) = 1
tokens (operation op a b) = 3 + tokens a + tokens b

abbrev pub depth : Expr → ℕ
depth (number ds) = 0
depth (operation op a b) = 1 + max (depth a) (depth b)

-- What a number ends at.
abbrev pub Stops : List ℕ → Type 0
Stops [] = Unit
Stops (c ∷ cs) = is_number_char c ≡ false

pub digit-facts :
    (d : ℕ)
    → isdigit d ≡ true
    → (is_number_char d ≡ true) × ((d == b'.') ≡ false) × ((d == b' ') ≡ false)
unfolding isdigit
digit-facts d h = (ground arith, ground arith, ground arith)

pub take_number-Digits :
    (room : ℕ) (ds rest : List ℕ)
    → Digits ds
    → length ds ≤ room
    → Stops rest
    → take_number room (ds ++ rest) false ≡ returns (done (ds, rest))
unfolding take_number
take_number-Digits room [] [] digits enough stops = refl
take_number-Digits zero [] (c ∷ rest) digits enough stops = rw stops refl
take_number-Digits (suc room) [] (c ∷ rest) digits enough stops = rw stops refl
take_number-Digits zero (d ∷ ds) rest digits enough stops = absurd (omega arith)
take_number-Digits (suc room) (d ∷ ds) rest digits enough stops =
    let facts = digit-facts d digits.0 in
    rw facts.0 (rw facts.1 (rw (take_number-Digits room ds rest digits.1 (omega arith) stops) refl))

-- What the parser sees in an operator's character.
pub record IsOperator (N : Type 0) (op : CalcOperationType) (c : ℕ) : Type 0 where
  pub no_space : (c == b' ') ≡ false
  pub no_digit : isdigit c ≡ false
  pub no_open : (c == b'(') ≡ false
  pub no_close : (c == b')') ≡ false
  pub no_number : is_number_char c ≡ false
  pub back : make_expr_op_from_char {N = N} c ≡ some (operator op)
  pub stops_at_bracket :
      leb_ℤ (get_operator_precedence c) (calc_expr_get_operator_precedence {N = N} bracket_open)
      ≡ false

pub operator_to_char-IsOperator :
    (N : Type 0) (op : CalcOperationType) → IsOperator N op (operator_to_char op)
unfolding make_expr_op_from_char operator_to_char isdigit get_operator_precedence
    calc_expr_get_operator_precedence
operator_to_char-IsOperator N op_add = record {
  no_space = refl;
  no_digit = refl;
  no_open = refl;
  no_close = refl;
  no_number = refl;
  back = refl;
  stops_at_bracket = refl;
}
operator_to_char-IsOperator N op_sub = record {
  no_space = refl;
  no_digit = refl;
  no_open = refl;
  no_close = refl;
  no_number = refl;
  back = refl;
  stops_at_bracket = refl;
}
operator_to_char-IsOperator N op_mul = record {
  no_space = refl;
  no_digit = refl;
  no_open = refl;
  no_close = refl;
  no_number = refl;
  back = refl;
  stops_at_bracket = refl;
}
operator_to_char-IsOperator N op_div = record {
  no_space = refl;
  no_digit = refl;
  no_open = refl;
  no_close = refl;
  no_number = refl;
  back = refl;
  stops_at_bracket = refl;
}
operator_to_char-IsOperator N op_mod = record {
  no_space = refl;
  no_digit = refl;
  no_open = refl;
  no_close = refl;
  no_number = refl;
  back = refl;
  stops_at_bracket = refl;
}
