-- ===== src/Calc/Parser.antt =====
-- The parser of apps/calc/main.c on a fully bracketed expression.
use bitloader.Prelude.{
  List, [], ap, append_assoc, arith, false, leb, length, length-append, ltb, refl, suc, true, ℕ,
  ◌*◌, ◌++◌, ◌+◌, ◌<◌, ◌∙◌, ◌∷◌, ◌≡◌, ◌≤◌,
}
use bitloader.Strings.{isdigit}
use bitloader.Calc.Tokens.{
  Sound, Stops, depth, digit-facts, operator_to_char-IsOperator, show, take_number-Digits, tokens,
}
use bitloader.Calc.{
  CalcExpression, CalcOperationType, Numbers, ParseState, bracket_open, constant, is_number_char,
  number_size, operator, operator_to_char, parse_char, parse_digits, parse_loop, pop_operators,
  pop_to_bracket, stack_size,
}
use bitloader.Calc.Machine.{Expr, number, operation, postfix}

module _ {N : Type 0} (nums : Numbers N) (max_len : ℕ) where
  abbrev pub state : List (CalcExpression N) → List (CalcExpression N) → ParseState N
  state result stack = record { result = result; stack = stack; below = 0 }

  module _ (result stack : List (CalcExpression N)) (room : length result < max_len)
      (low : length stack ≤ 100) where
    number-char :
        (ds rest : List ℕ)
        → Sound (number ds)
        → Stops rest
        → (fuel : ℕ)
        → parse_loop nums max_len (suc fuel) (ds ++ rest) (state result stack)
          ≡ parse_loop nums max_len fuel rest
              (state (result ++ (constant (nums.parse_number ds) ∷ [])) stack)
    unfolding parse_loop parse_char parse_digits
    number-char [] rest sound stops fuel = absurd (omega (arith, sound.1))
    number-char (d ∷ ds) rest sound stops fuel =
        let facts = digit-facts d sound.0.0 in
        let not_full : leb max_len (length result) ≡ false = ground arith in
        let not_deep : ltb stack_size (length stack) ≡ false = ground arith in
        let fits : ltb (length result) max_len ≡ true = ground arith in
        let short : ltb (length (d ∷ ds)) number_size ≡ true = ground (arith, sound.2) in
        rw not_full (
          rw not_deep (
            rw facts.2 (
              rw sound.0.0 (
                rw (take_number-Digits 50 (d ∷ ds) rest sound.0 (omega (arith, sound.2)) stops)
                  (rw short (rw fits refl))))))

    open-char :
        (cs : List ℕ) (fuel : ℕ)
        → length stack < 100
        → parse_loop nums max_len (suc fuel) (b'(' ∷ cs) (state result stack)
          ≡ parse_loop nums max_len fuel cs (state result (bracket_open ∷ stack))
    unfolding parse_loop parse_char isdigit
    open-char cs fuel h =
        let not_full : leb max_len (length result) ≡ false = ground arith in
        let not_deep : ltb stack_size (length stack) ≡ false = ground arith in
        let fits : ltb (length stack) stack_size ≡ true = ground arith in
        rw not_full (rw not_deep (rw fits refl))

  operator-char :
      (result stack : List (CalcExpression N)) (op : CalcOperationType) (cs : List ℕ) (fuel : ℕ)
      → length result < max_len
      → length stack < 99
      → parse_loop nums max_len
          (suc fuel)
          (operator_to_char op ∷ cs)
          (state result (bracket_open ∷ stack))
        ≡ parse_loop nums max_len fuel cs (state result (operator op ∷ bracket_open ∷ stack))
  unfolding parse_loop parse_char pop_operators
  operator-char result stack op cs fuel room low =
      let o = operator_to_char-IsOperator N op in
      let not_full : leb max_len (length result) ≡ false = ground arith in
      let not_deep : ltb stack_size (suc (length stack)) ≡ false = ground arith in
      let fits : ltb (suc (length stack)) stack_size ≡ true = ground arith in
      rw not_full (
        rw not_deep (
          rw o.no_space (
            rw o.no_digit
              (rw o.no_open (rw o.no_close (rw o.stops_at_bracket (rw o.back (rw fits refl))))))))

  close-char :
      (result stack : List (CalcExpression N)) (op : CalcOperationType) (cs : List ℕ) (fuel : ℕ)
      → length result < max_len
      → length stack < 99
      → parse_loop nums max_len
          (suc fuel)
          (b')' ∷ cs)
          (state result (operator op ∷ bracket_open ∷ stack))
        ≡ parse_loop nums max_len fuel cs (state (result ++ (operator op ∷ [])) stack)
  unfolding parse_loop parse_char pop_to_bracket isdigit
  close-char result stack op cs fuel room low =
      let not_full : leb max_len (length result) ≡ false = ground arith in
      let not_deep : ltb stack_size (suc (suc (length stack))) ≡ false = ground arith in
      let fits : ltb (length result) max_len ≡ true = ground arith in
      rw not_full (rw not_deep (rw fits refl))

  close_stops : is_number_char b')' ≡ false
  unfolding isdigit
  close_stops = refl

  postfix-pos : (e : Expr) → 0 < length (postfix nums e)
  postfix-pos (number ds) = omega arith
  postfix-pos (operation op a b) =
      omega (
        arith,
        length-append (postfix nums a) (postfix nums b ++ (operator op ∷ [])),
        postfix-pos a,
      )

  length-postfix :
      (op : CalcOperationType) (a b : Expr)
      → length (postfix nums (operation op a b))
        ≡ length (postfix nums a) + (length (postfix nums b) + 1)
  length-postfix op a b =
      length-append (postfix nums a) (postfix nums b ++ (operator op ∷ []))
      ∙ ap (λ n. length (postfix nums a) + n) (length-append (postfix nums b) (operator op ∷ []))

  show-rest :
      (op : CalcOperationType) (a b : Expr) (rest : List ℕ)
      → (show a ++ (operator_to_char op ∷ (show b ++ (b')' ∷ [])))) ++ rest
        ≡ show a ++ (operator_to_char op ∷ (show b ++ (b')' ∷ rest)))
  show-rest op a b rest =
      append_assoc (show a) (operator_to_char op ∷ (show b ++ (b')' ∷ []))) rest
      ∙ ap (λ cs. show a ++ (operator_to_char op ∷ cs)) (append_assoc (show b) (b')' ∷ []) rest)

  result-postfix :
      (op : CalcOperationType) (a b : Expr) (result : List (CalcExpression N))
      → ((result ++ postfix nums a) ++ postfix nums b) ++ (operator op ∷ [])
        ≡ result ++ postfix nums (operation op a b)
  result-postfix op a b result =
      append_assoc (result ++ postfix nums a) (postfix nums b) (operator op ∷ [])
      ∙ append_assoc result (postfix nums a) (postfix nums b ++ (operator op ∷ []))

  -- The text of an expression puts its postfix order at the end of the output.
  pub parse-show :
      (e : Expr) (rest : List ℕ) (result stack : List (CalcExpression N)) (fuel total : ℕ)
      → Sound e
      → Stops rest
      → length result + length (postfix nums e) ≤ max_len
      → length stack + 2 * depth e ≤ 100
      → total ≡ tokens e + fuel
      → parse_loop nums max_len total (show e ++ rest) (state result stack)
        ≡ parse_loop nums max_len fuel rest (state (result ++ postfix nums e) stack)
  parse-show (number ds) rest result stack fuel total sound stops room low enough =
      let one : total ≡ suc fuel = omega arith in
      rw one (number-char result stack (omega arith) (omega arith) ds rest sound stops fuel)
  parse-show (operation op a b) rest result stack fuel total sound stops room low enough =
      let size = length-postfix op a b in
      let pa = postfix nums a in
      let pb = postfix nums b in
      let la = length-append result pa in
      let lb = length-append (result ++ pa) pb in
      let fuel_b = tokens b + suc fuel in
      let one : total ≡ suc (tokens a + suc fuel_b) = omega (arith, enough) in
      rw one (
        rw (show-rest op a b rest) (
          rw (← result-postfix op a b result) (
            open-char result stack (omega (arith, room, size, postfix-pos a)) (omega (arith, low))
              (show a ++ (operator_to_char op ∷ (show b ++ (b')' ∷ rest)))) (tokens a + suc fuel_b)
              (omega (arith, low))
            ∙ (parse-show a (operator_to_char op ∷ (show b ++ (b')' ∷ rest))) result
                  (bracket_open ∷ stack) (suc fuel_b) (tokens a + suc fuel_b) sound.0
                  (operator_to_char-IsOperator N op).no_number (omega (arith, room, size))
                  (omega (arith, low)) refl
                ∙ (operator-char (result ++ pa) stack op (show b ++ (b')' ∷ rest)) fuel_b
                      (omega (arith, room, size, la)) (omega (arith, low))
                    ∙ (parse-show b (b')' ∷ rest) (result ++ pa)
                          (operator op ∷ bracket_open ∷ stack) (suc fuel) fuel_b sound.1 close_stops
                          (omega (arith, room, size, la)) (omega (arith, low)) refl
                        ∙ close-char ((result ++ pa) ++ pb) stack op rest fuel
                            (omega (arith, room, size, la, lb)) (omega (arith, low))))))))
