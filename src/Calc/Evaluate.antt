-- ===== src/Calc/Evaluate.antt =====
-- The calculator of apps/calc/main.c computes the value of a bracketed expression from its text.
use bitloader.Prelude.{
  List, [], ap, append-nil, arith, false, length, length-append, refl, suc, zero, ℕ, ◌++◌, ◌-◌, ◌<◌,
  ◌==◌, ◌∷◌, ◌≡◌, ◌≢◌, ◌≤◌,
}
use bitloader.Prelude.Run.{returns}
use bitloader.Strings.{isdigit}
use bitloader.Calc.Execute.{execute}
use bitloader.Calc.Tokens.{Digits, Sound, depth, show, tokens}
use bitloader.Calc.{
  CalcOperationType, Numbers, done, flush, op_add, op_div, op_mod, op_mul, op_sub, operator_to_char,
  parse_input, parse_loop, readable,
}
use bitloader.Calc.Machine.{Expr, execute-postfix, need, number, operation, postfix, value}
use bitloader.Calc.Parser.{parse-show}

abbrev NonZero : List ℕ → Type 0
NonZero [] = Unit
NonZero (c ∷ cs) = (c ≢ 0) × NonZero cs

NonZero-append : (xs ys : List ℕ) → NonZero xs → NonZero ys → NonZero (xs ++ ys)
NonZero-append [] ys hx hy = hy
NonZero-append (x ∷ xs) ys hx hy = (hx.0, NonZero-append xs ys hx.1 hy)

readable-text :
    (cs after : List ℕ) (n : ℕ) → NonZero cs → length cs ≤ n → readable (cs ++ (0 ∷ after)) n ≡ cs
readable-text [] after zero h enough = refl
readable-text [] after (suc n) h enough = refl
readable-text (c ∷ cs) after zero h enough = absurd (omega arith)
readable-text (c ∷ cs) after (suc n) h enough =
    let more : (c == 0) ≡ false = ground arith in
    rw more (ap (λ r. c ∷ r) (readable-text cs after n h.1 (omega arith)))

Digits-NonZero : (ds : List ℕ) → Digits ds → NonZero ds
unfolding isdigit
Digits-NonZero [] h = tt
Digits-NonZero (d ∷ ds) h = (ground arith, Digits-NonZero ds h.1)

operator-nonzero : (op : CalcOperationType) → operator_to_char op ≢ 0
unfolding operator_to_char
operator-nonzero op_add e = absurd (omega (arith, e))
operator-nonzero op_sub e = absurd (omega (arith, e))
operator-nonzero op_mul e = absurd (omega (arith, e))
operator-nonzero op_div e = absurd (omega (arith, e))
operator-nonzero op_mod e = absurd (omega (arith, e))

bracket-nonzero : (c : ℕ) → 0 < c → c ≢ 0
bracket-nonzero c h e = absurd (omega (arith, e))

show-NonZero : (e : Expr) → Sound e → NonZero (show e)
show-NonZero (number ds) sound = Digits-NonZero ds sound.0
show-NonZero (operation op a b) sound = (
  bracket-nonzero b'(' (omega arith),
  NonZero-append (show a) (operator_to_char op ∷ (show b ++ (b')' ∷ []))) (show-NonZero a sound.0) (
    operator-nonzero op,
    NonZero-append (show b) (b')' ∷ []) (show-NonZero b sound.1)
        (bracket-nonzero b')' (omega arith), tt),
  ),
)

tokens-show : (e : Expr) → Sound e → tokens e ≤ length (show e)
tokens-show (number ds) sound = omega (arith, sound.1)
tokens-show (operation op a b) sound = omega (
  arith,
  tokens-show a sound.0,
  tokens-show b sound.1,
  length-append (show a) (operator_to_char op ∷ (show b ++ (b')' ∷ []))),
  length-append (show b) (b')' ∷ []),
)

-- On fully bracketed expressions `parse_input` turns the text, up to its NUL, into the expression's
-- postfix order without an error, and `execute` computes from that the expression's value by the meaning of
-- `+`, `-`, `*` and `/`, where a part `a % b` counts as -99999999 whatever `a` and `b` are. The
-- numbers have at most 49 digits and no point, the output buffer holds the whole postfix order, the
-- brackets are at most 50 deep, and 50 numbers at once are enough.
pub parse_input-execute :
    {N : Type 0} (nums : Numbers N) (e : Expr) (after : List ℕ) (len max_len : ℕ)
    → Sound e
    → length (show e) ≤ len
    → length (postfix nums e) ≤ max_len
    → depth e ≤ 50
    → need nums e ≤ 50
    → (parse_input nums (show e ++ (0 ∷ after)) len max_len ≡ returns (done (postfix nums e)))
      × (execute nums (postfix nums e) ≡ returns (done (value nums e)))
unfolding parse_input parse_loop flush
parse_input-execute nums e after len max_len sound fits room low few =
    let extra = length (show e) - tokens e in
    (
      rw (readable-text (show e) after len (show-NonZero e sound) fits) (
          rw (← append-nil (show e)) (
            parse-show nums max_len e [] [] [] extra (length (show e ++ [])) sound tt
              (omega (arith, room)) (omega (arith, low))
              (omega (arith, length-append (show e) [], tokens-show e sound)))),
      execute-postfix nums e few,
    )
