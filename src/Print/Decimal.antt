-- ===== src/Print/Decimal.antt =====
-- `print_int` of kernel/print.c prints a number in decimal.
use bitloader.Prelude.{
  Bool-cases, List, [], ap, append-nil, append_assoc, arith, false, inl, inr, length, refl, suc,
  sym, zero, ℕ, ◌%◌, ◌*◌, ◌++◌, ◌+◌, ◌-◌, ◌/◌, ◌<◌, ◌==◌, ◌^◌, ◌∙◌, ◌∷◌, ◌≡◌, ◌≢◌, ◌≤◌,
}
use bitloader.Prelude.Int.{neg_part, negsuc, pos, pos_part, ℤ}
use bitloader.Prelude.Run.{Run, returns}
use bitloader.Print.{decimal_loop, print_int}

-- The value of decimal digits behind those of `n`.
abbrev pub digits_value : ℕ → List ℕ → ℕ
digits_value n [] = n
digits_value n (c ∷ cs) = digits_value (n * 10 + (c - b'0')) cs

digits_value-append :
    (n : ℕ) (xs : List ℕ) (c : ℕ)
    → digits_value n (xs ++ (c ∷ [])) ≡ digits_value n xs * 10 + (c - b'0')
digits_value-append n [] c = refl
digits_value-append n (x ∷ xs) c = digits_value-append (n * 10 + (x - b'0')) xs c

abbrev pub Decimal : List ℕ → Type 0
Decimal [] = Unit
Decimal (c ∷ cs) = (b'0' ≤ c) × (c ≤ b'9') × Decimal cs

Decimal-append : (xs : List ℕ) (c : ℕ) → Decimal xs → b'0' ≤ c → c ≤ b'9' → Decimal (xs ++ (c ∷ []))
Decimal-append [] c h low high = (low, high, tt)
Decimal-append (x ∷ xs) c h low high = (h.0, h.1, Decimal-append xs c h.2 low high)

-- No digit in front of the others is 0.
abbrev pub Leading : List ℕ → Type 0
Leading [] = Unit
Leading (c ∷ cs) = c ≢ b'0'

Leading-append :
    (xs : List ℕ) (c : ℕ)
    → Leading xs
    → (digits_value 0 xs ≡ 0 → c ≢ b'0')
    → Leading (xs ++ (c ∷ []))
Leading-append [] c h last = last refl
Leading-append (x ∷ xs) c h last = h

-- 10 to the power of the room.
abbrev pub bound : ℕ → ℕ
bound zero = 1
bound (suc room) = 10 * bound room

pub record Filled (num : ℕ) (chars : List ℕ) (out : Run (List ℕ)) : Type 0 where
  pub digits : List ℕ
  pub result : out ≡ returns (digits ++ chars)
  pub decimal : Decimal digits
  pub value : digits_value 0 digits ≡ num
  pub leading : Leading digits

last_digit : (num n : ℕ) → n ≡ num / 10 → n * 10 + (b'0' + num % 10 - b'0') ≡ num
last_digit num n h = omega arith

pub decimal_loop-Filled :
    (room num : ℕ) (chars : List ℕ)
    → num < bound room
    → Filled num chars (decimal_loop room num chars)
unfolding decimal_loop
decimal_loop-Filled zero num chars small =
    let none_left : num ≡ 0 = omega arith in
    rw none_left (record { digits = []; result = refl; decimal = tt; value = refl; leading = tt })
decimal_loop-Filled (suc room) num chars small = elim (Bool-cases (num == 0)) [
  | inl done ↦
      rw done
        (record { digits = []; result = refl; decimal = tt; value = ground arith; leading = tt })
  | inr more ↦
      let f = decimal_loop-Filled room (num / 10) ((b'0' + num % 10) ∷ chars) (omega arith) in
      rw more (record {
        digits = f.digits ++ ((b'0' + num % 10) ∷ []);
        result = f.result ∙ ap returns (sym (append_assoc f.digits ((b'0' + num % 10) ∷ []) chars));
        decimal = Decimal-append f.digits (b'0' + num % 10) f.decimal (omega arith) (omega arith);
        value =
            digits_value-append 0 f.digits (b'0' + num % 10)
            ∙ last_digit num (digits_value 0 f.digits) f.value;
        leading =
            Leading-append f.digits (b'0' + num % 10) f.leading
              (λ zero_value e. let rest = f.value in absurd (ground (arith, zero_value, e)));
      })
]

-- The decimal numeral of a number: digits, at least one, without a leading 0 but for the number 0.
pub record Numeral (n : ℕ) (digits : List ℕ) : Type 0 where
  pub decimal : Decimal digits
  pub value : digits_value 0 digits ≡ n
  pub some_digit : length digits ≢ 0
  pub leading : n ≢ 0 → Leading digits

digits-some : (n : ℕ) (ds : List ℕ) → n ≢ 0 → digits_value 0 ds ≡ n → length ds ≢ 0
digits-some n [] some_n value = λ e. some_n (sym value)
digits-some n (c ∷ cs) some_n value = λ e. absurd (omega (arith, e))

Filled-Numeral : (n : ℕ) (out : Run (List ℕ)) → n ≢ 0 → (f : Filled n [] out) → Numeral n f.digits
Filled-Numeral n out some_n f = record {
  decimal = f.decimal;
  value = f.value;
  some_digit = digits-some n f.digits some_n f.value;
  leading = λ some_n. f.leading;
}

-- A minus sign for the numbers below 0.
abbrev pub minus_sign : ℤ → List ℕ
minus_sign (pos n) = []
minus_sign (negsuc n) = b'-' ∷ []

-- Every `int` but the least one is printed as the decimal numeral of its size, with a minus sign in
-- front if it is negative; the twelve bytes of the buffer are enough.
pub print_int-number :
    (z : ℤ)
    → pos_part z < 2 ^ 31
    → neg_part z < 2 ^ 31
    → (digits : List ℕ) × (print_int z ≡ returns (minus_sign z ++ digits))
      × Numeral (pos_part z + neg_part z) digits
unfolding print_int
print_int-number (pos zero) high low = (
  b'0' ∷ [],
  refl,
  record {
    decimal = (omega arith, omega arith, tt);
    value = refl;
    some_digit = λ e. absurd (omega (arith, e));
    leading = λ some_n. absurd (some_n refl);
  },
)
print_int-number (pos (suc n)) high low =
    let f = decimal_loop-Filled 12 (suc n) [] (omega arith) in
    let size : suc n ≡ suc n + 0 = omega arith in
    (
      f.digits,
      f.result ∙ ap returns (append-nil f.digits),
      rw (← size)
          (Filled-Numeral (suc n) (decimal_loop 12 (suc n) []) (λ e. absurd (omega (arith, e))) f),
    )
print_int-number (negsuc n) high low =
    let f = decimal_loop-Filled 12 (n + 1) [] (omega arith) in
    let above : (n + 1 == 2 ^ 31) ≡ false = ground arith in
    let size : n + 1 ≡ 0 + suc n = omega arith in
    (
      f.digits,
      rw above (rw f.result (ap (λ ds. returns (b'-' ∷ ds)) (append-nil f.digits))),
      rw (← size)
          (Filled-Numeral (n + 1) (decimal_loop 12 (n + 1) []) (λ e. absurd (omega (arith, e))) f),
    )
