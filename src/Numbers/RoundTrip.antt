-- ===== src/Numbers/RoundTrip.antt =====
-- lib/goblibc/src/stdlib.c: `atoi` of what `itoa` writes in decimal.
use bitloader.Prelude.{
  Bool, List, [], ap, append-nil, arith, false, inl, inr, leb, length, ltb, refl, suc, sym, true,
  zero, ℕ, ◌%◌, ◌&&◌, ◌*◌, ◌+◌, ◌-◌, ◌/◌, ◌<◌, ◌==◌, ◌^◌, ◌||◌, ◌∙◌, ◌∷◌, ◌≡◌, ◌≤◌, ◌⊎◌,
}
use bitloader.Strings.{isdigit}
use bitloader.Print.{decimal_loop}
use bitloader.Print.Decimal.{Decimal, Filled, bound, decimal_loop-Filled, digits_value}
use bitloader.Numbers.Room.{digits-InRoom}
use bitloader.Numbers.{atoi, atoi_loop, digit_loop, div_ten, int_of, int_to_str, itoa, temp_size}
use bitloader.Prelude.Int.{neg_part, negsuc, pos, pos_part, sub_ℕ, ℤ}
use bitloader.Prelude.Run.{Run, fault, out_of_fuel, returns}

digit_loop-decimal :
    (room v : ℕ) (chars : List ℕ) → digit_loop room v 10 chars ≡ decimal_loop room v chars
unfolding digit_loop decimal_loop
digit_loop-decimal zero v chars = refl
digit_loop-decimal (suc room) v chars =
    let small : ltb (v % 10) 10 ≡ true = ground arith in
    let digit : (v % 10 + b'0') % 256 ≡ b'0' + v % 10 = omega arith in
    rw small (rw digit (rw (digit_loop-decimal room (v / 10) ((b'0' + v % 10) ∷ chars)) refl))

digits_value-above : (n : ℕ) (cs : List ℕ) → n ≤ digits_value n cs
digits_value-above n [] = omega arith
digits_value-above n (c ∷ cs) =
    let rest = digits_value-above (n * 10 + (c - b'0')) cs in omega arith

or_true : (b : Bool) → (b || true) ≡ true
or_true true = refl
or_true false = refl

or_false : (b : Bool) → (b || false) ≡ b
or_false true = refl
or_false false = refl

-- Digits behind those of `n`, whose number times ten has room in the result.
atoi_loop-Decimal :
    (cs : List ℕ) (n : ℕ) (digits negative : Bool)
    → Decimal cs
    → digits_value n cs < 214748365
    → atoi_loop cs (n * 10) digits negative ≡ (digits_value n cs * 10, negative)
unfolding atoi_loop isdigit
atoi_loop-Decimal [] n digits negative decimal small = refl
atoi_loop-Decimal (c ∷ cs) n digits negative (low, high, decimal) small =
    let above = digits_value-above (n * 10 + (c - b'0')) cs in
    let digit : (leb b'0' c && leb c b'9') ≡ true = ground arith in
    let set_now : (digits || true) ≡ true = or_true digits in
    let sign : (negative || false) ≡ negative = or_false negative in
    let exact : (n * 10 + (c - b'0')) * 10 % 2 ^ 32 ≡ (n * 10 + (c - b'0')) * 10 = omega arith in
    rw digit (
      rw set_now (
        rw sign
          (rw exact (atoi_loop-Decimal cs (n * 10 + (c - b'0')) true negative decimal small))))

exact_ten : (v : ℕ) → v < 214748365 → div_ten (int_of (v * 10)) ≡ pos v
exact_ten v small =
    let low : ltb (v * 10) (2 ^ 31) ≡ true = ground arith in
    let exact : v * 10 / 10 ≡ v = omega arith in rw low (ap pos exact)

atoi-Decimal :
    (ds : List ℕ) (v : ℕ) → Decimal ds → digits_value 0 ds ≡ v → v < 214748365 → atoi ds ≡ pos v
unfolding atoi
atoi-Decimal ds v decimal value small =
    let read = atoi_loop-Decimal ds 0 false false decimal (rw value small) in
    rw read (rw value (exact_ten v small))

atoi-minus :
    (ds : List ℕ) (v : ℕ)
    → Decimal ds
    → digits_value 0 ds ≡ v
    → v < 214748365
    → atoi (b'-' ∷ ds) ≡ sub_ℕ 0 v
unfolding atoi atoi_loop isdigit
atoi-minus ds v decimal value small =
    let read = atoi_loop-Decimal ds 0 false true decimal (rw value small) in
    rw read (rw value (rw (exact_ten v small) refl))

room_enough : (v : ℕ) → v < 2 ^ 32 → v < bound 34
room_enough v small = omega arith

abbrev text_of : Run (List ℕ) → List ℕ
text_of (returns text) = text
text_of fault = []
text_of out_of_fuel = []

minus_suc : (n : ℕ) → sub_ℕ 0 (n + 1) ≡ negsuc n
minus_suc n = ground arith

-- The digits of a number, with the sign in front for a negative one.
decimal_text : (v : ℕ) → v < 2 ^ 32 → Filled v [] (digit_loop temp_size v 10 [])
decimal_text v small =
    rw (digit_loop-decimal temp_size v []) (decimal_loop-Filled 34 v [] (room_enough v small))

-- In decimal, `atoi` of the text that `itoa` writes is the number, for numbers up to 214748364 of either
-- sign.
pub itoa-atoi :
    (z : ℤ)
    → pos_part z < 214748365
    → neg_part z < 214748365
    → (text : List ℕ) × (itoa z 10 ≡ returns text) × (atoi text ≡ z)
unfolding itoa
itoa-atoi (pos zero) high low =
    (b'0' ∷ [], refl, atoi-Decimal (b'0' ∷ []) 0 (omega arith, omega arith, tt) refl (omega arith))
itoa-atoi (pos (suc n)) high low =
    let f = decimal_text (suc n) (omega arith) in
    (
      f.digits,
      f.result ∙ ap returns (append-nil f.digits),
      atoi-Decimal f.digits (suc n) f.decimal f.value high,
    )
itoa-atoi (negsuc n) high low =
    let f = decimal_text (n + 1) (omega arith) in
    let r = digits-InRoom (n + 1) 10 (omega arith) (omega arith) in
    let same : r.text ≡ f.digits = ap text_of (sym r.result ∙ f.result) ∙ append-nil f.digits in
    let short = r.short in
    let room : ltb (length (f.digits)) temp_size ≡ true = rw (← same) (ground arith) in
    let written : digit_loop temp_size (n + 1) 10 [] ≡ returns (f.digits) =
      f.result ∙ ap returns (append-nil f.digits) in
    (
      b'-' ∷ f.digits,
      rw written (rw room refl),
      atoi-minus f.digits (n + 1) f.decimal f.value (omega arith) ∙ minus_suc n,
    )

-- `int_to_str` writes the same text as `itoa`, in decimal for every `int` but the least one, and to any
-- radix for one that is not negative.
int_to_str-itoa :
    (z : ℤ) (radix : ℕ)
    → neg_part z < 2 ^ 31
    → (neg_part z ≡ 0) ⊎ (radix ≡ 10)
    → int_to_str z radix ≡ itoa z radix
unfolding int_to_str itoa
int_to_str-itoa (pos zero) radix low same = refl
int_to_str-itoa (pos (suc n)) radix low same = refl
int_to_str-itoa (negsuc n) radix low (inl never) = absurd (omega arith)
int_to_str-itoa (negsuc n) radix low (inr ten) =
    let above : (n + 1 == 2 ^ 31) ≡ false = ground arith in
    let decimal : (radix == 10) ≡ true = ground arith in rw above (rw decimal refl)
