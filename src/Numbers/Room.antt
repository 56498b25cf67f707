-- ===== src/Numbers/Room.antt =====
-- lib/goblibc/src/stdlib.c: the digits of a number in the 34 bytes of `temp`.
use bitloader.Prelude.{
  Bool, Bool-cases, List, [], ap, arith, false, if◌then◌else◌, inl, inr, length, ltb, refl, suc,
  true, zero, ℕ, ◌%◌, ◌*◌, ◌+◌, ◌-◌, ◌/◌, ◌<◌, ◌==◌, ◌^◌, ◌∙◌, ◌∷◌, ◌≡◌, ◌≤◌,
}
use bitloader.Prelude.Int.{neg_part, negsuc, pos, pos_part, ℤ}
use bitloader.Prelude.Run.{Run, returns, ◌>>=◌}
use bitloader.Numbers.{digit_loop, itoa, put_sign, radix_digit, temp_size}
use native.Mathlib.Nat.{mul-div-le, mul-le-mul_right}

abbrev two_to : ℕ → ℕ
two_to zero = 1
two_to (suc bits) = 2 * two_to bits

-- A text of at most so many characters.
pub record InRoom (most : ℕ) (out : Run (List ℕ)) : Type 0 where
  pub text : List ℕ
  pub result : out ≡ returns text
  pub short : length text ≤ most

-- A digit to the radix 2 or more takes a bit at least.
bit_less : (v radix bits : ℕ) → 2 ≤ radix → v < 2 * two_to bits → v / radix < two_to bits
bit_less v radix bits big below =
    let whole : radix * (v / radix) ≤ v = mul-div-le v radix in
    let twice : 2 * (v / radix) ≤ radix * (v / radix) = mul-le-mul_right (v / radix) big in
    omega arith

digit_loop-zero : (room radix : ℕ) (chars : List ℕ) → digit_loop room 0 radix chars ≡ returns chars
unfolding digit_loop
digit_loop-zero zero radix chars = refl
digit_loop-zero (suc room) radix chars = refl

digit_loop-InRoom :
    (room bits v radix : ℕ) (chars : List ℕ)
    → bits ≤ room
    → 2 ≤ radix
    → v < two_to bits
    → InRoom (length chars + bits) (digit_loop room v radix chars)
unfolding digit_loop
digit_loop-InRoom room zero v radix chars fits big below =
    let none_left : v ≡ 0 = omega arith in
    record {
      text = chars;
      result = ap (λ n. digit_loop room n radix chars) none_left ∙ digit_loop-zero room radix chars;
      short = omega arith;
    }
digit_loop-InRoom zero (suc bits) v radix chars fits big below = absurd (omega arith)
digit_loop-InRoom (suc room) (suc bits) v radix chars fits big below = elim (Bool-cases (v == 0)) [
  | inl done ↦ record { text = chars; result = rw done refl; short = omega arith }
  | inr more ↦
      let digit = radix_digit (v % radix) in
      let r =
        digit_loop-InRoom room bits (v / radix) radix (digit ∷ chars) (omega arith) big
          (bit_less v radix bits big below) in
      let divides : (radix == 0) ≡ false = ground arith in
      let short = r.short in
      record { text = r.text; result = rw more (rw divides (r.result)); short = omega arith }
]

pub digits-InRoom :
    (v radix : ℕ) → v < 2 ^ 32 → 2 ≤ radix → InRoom 32 (digit_loop temp_size v radix [])
digits-InRoom v radix small big =
    let word : 2 ^ 32 ≡ two_to 32 = refl in
    digit_loop-InRoom 34 32 v radix [] (omega arith) big (rw (← word) small)

pub put_sign-InRoom :
    (sign : Bool) (out : Run (List ℕ)) → InRoom 32 out → InRoom 33 (out >>= put_sign sign)
put_sign-InRoom false out r =
    let short = r.short in
    record { text = r.text; result = rw (r.result) refl; short = omega arith }
put_sign-InRoom true out r =
    let short = r.short in
    let room : ltb (length (r.text)) temp_size ≡ true = ground arith in
    record { text = b'-' ∷ r.text; result = rw (r.result) (rw room refl); short = omega arith }

more_room : (out : Run (List ℕ)) → InRoom 32 out → InRoom 33 out
more_room out r =
    let short = r.short in record { text = r.text; result = r.result; short = omega arith }

-- `temp` is enough for every `int` to every radix from 2 on: `itoa` gives a text of at most 33 characters.
pub itoa-InRoom :
    (z : ℤ) (radix : ℕ)
    → pos_part z < 2 ^ 31
    → neg_part z ≤ 2 ^ 31
    → 2 ≤ radix
    → InRoom 33 (itoa z radix)
unfolding itoa
itoa-InRoom (pos zero) radix high low big = record {
  text = b'0' ∷ [];
  result = refl;
  short = omega arith;
}
itoa-InRoom (pos (suc n)) radix high low big =
    more_room (digit_loop temp_size (suc n) radix [])
      (digits-InRoom (suc n) radix (omega arith) big)
itoa-InRoom (negsuc n) radix high low big =
    let v = if radix == 10 then n + 1 else 2 ^ 32 - (n + 1) in
    put_sign-InRoom (radix == 10) (digit_loop temp_size v radix [])
      (digits-InRoom v radix (ground arith) big)
