-- ===== src/Numbers.antt =====
-- lib/goblibc/src/stdlib.c: numbers from and to texts. A text is its characters without the NUL, and a
-- radix is not negative.
pub mod RoundTrip
pub mod Room
mod Tests
use bitloader.Prelude.{
  Bool, List, [], false, if◌then◌else◌, length, ltb, not, set, suc, true, zero, ℕ, ◌%◌, ◌&&◌, ◌*◌,
  ◌+◌, ◌-◌, ◌/◌, ◌==◌, ◌^◌, ◌||◌, ◌∷◌,
}
use bitloader.Prelude.Int.{negsuc, pos, sub_ℕ, ℤ}
use bitloader.Prelude.Run.{Run, fault, returns, ◌>>=◌}
use bitloader.Strings.{isdigit}

-- The 32 bits of an `int`.
abbrev pub int_of : ℕ → ℤ
int_of n = if ltb n (2 ^ 31) then pos n else negsuc (2 ^ 32 - 1 - n)

abbrev pub neg : ℤ → ℤ
neg (pos n) = sub_ℕ 0 n
neg (negsuc n) = pos (n + 1)

-- `/ 10`, which rounds towards 0.
abbrev pub div_ten : ℤ → ℤ
div_ten (pos n) = pos (n / 10)
div_ten (negsuc n) = sub_ℕ 0 ((n + 1) / 10)

-- The result's bits, and whether the sign is -1.
unfoldable pub atoi_loop : List ℕ → (result : ℕ) → (sign_set negative : Bool) → ℕ × Bool
atoi_loop [] result sign_set negative = (result, negative)
atoi_loop (c ∷ buffer) result sign_set negative =
    let set = sign_set || isdigit c in
    let added = if isdigit c then (result + (c - b'0')) * 10 % 2 ^ 32 else result in
    atoi_loop buffer added set (negative || not set && c == b'-')

unfoldable pub atoi : List ℕ → ℤ
atoi buffer =
    let (result, negative) = atoi_loop buffer 0 false false in
    if negative then neg (div_ten (int_of result)) else div_ten (int_of result)

-- The bytes of `temp` before its NUL.
abbrev pub temp_size : ℕ
temp_size = 34

abbrev pub radix_digit : ℕ → ℕ
radix_digit t = (if ltb t 10 then t + b'0' else t + b'A' - 10) % 256

-- The digits before `chars`, and `room` bytes of `temp` are left. A store behind it is a fault, and so is a
-- division by 0.
unfoldable pub digit_loop : (room v radix : ℕ) (chars : List ℕ) → Run (List ℕ)
digit_loop zero v radix chars = if v == 0 then returns chars else fault
digit_loop (suc room) v radix chars =
    let rest = digit_loop room (v / radix) radix (radix_digit (v % radix) ∷ chars) in
    if v == 0 then returns chars else if radix == 0 then fault else rest

abbrev pub put_sign : Bool → List ℕ → Run (List ℕ)
put_sign sign digits =
    if not sign
    then returns digits
    else if ltb (length digits) temp_size
    then returns (b'-' ∷ digits)
    else fault

-- The copy from `temp` also reads the byte before it, which the NUL then takes the place of.
unfoldable pub itoa : ℤ → (radix : ℕ) → Run (List ℕ)
itoa (pos zero) radix = returns (b'0' ∷ [])
itoa (pos (suc n)) radix = digit_loop temp_size (suc n) radix []
itoa (negsuc n) radix =
    let sign = radix == 10 in
    let v = if sign then n + 1 else 2 ^ 32 - (n + 1) in
    digit_loop temp_size v radix [] >>= put_sign sign

-- The remainders of a negative `value`, which only the least `int` still is.
unfoldable pub minus_digit_loop : (room v radix : ℕ) (chars : List ℕ) → Run (List ℕ)
minus_digit_loop zero v radix chars = if v == 0 then returns chars else fault
minus_digit_loop (suc room) v radix chars =
    let digit = (b'0' + 256 - v % radix % 256) % 256 in
    let rest = minus_digit_loop room (v / radix) radix (digit ∷ chars) in
    if v == 0 then returns chars else if radix == 0 then fault else rest

-- The text, whose length is what `num_len` gets.
unfoldable pub int_to_str : ℤ → (radix : ℕ) → Run (List ℕ)
int_to_str (pos zero) radix = returns (b'0' ∷ [])
int_to_str (pos (suc n)) radix = digit_loop temp_size (suc n) radix []
int_to_str (negsuc n) radix =
    let least = minus_digit_loop temp_size (n + 1) radix [] in
    let digits = if n + 1 == 2 ^ 31 then least else digit_loop temp_size (n + 1) radix [] in
    digits >>= put_sign true
