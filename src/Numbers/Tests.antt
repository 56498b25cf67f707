-- ===== src/Numbers/Tests.antt =====
-- Texts of numbers, and numbers of texts.
use bitloader.Prelude.{List, [], arith, refl, ℕ, ◌-◌, ◌^◌, ◌∷◌, ◌≡◌}
use bitloader.Prelude.Int.{negsuc, pos}
use bitloader.Prelude.Run.{returns}
use bitloader.Strings.{isdigit}
use bitloader.Numbers.{atoi, atoi_loop, digit_loop, int_to_str, itoa, minus_digit_loop}
use bitloader.Numbers.Room.{InRoom, itoa-InRoom}
use bitloader.Numbers.RoundTrip.{itoa-atoi}

itoa-atoi_example : (text : List ℕ) × (itoa (negsuc 41) 10 ≡ returns text) × (atoi text ≡ negsuc 41)
itoa-atoi_example = itoa-atoi (negsuc 41) (omega arith) (omega arith)

itoa-InRoom_example : InRoom 33 (itoa (negsuc 41) 2)
itoa-InRoom_example = itoa-InRoom (negsuc 41) 2 (omega arith) (omega arith) (omega arith)

minus_42 : itoa (negsuc 41) 10 ≡ returns (b'-' ∷ b'4' ∷ b'2' ∷ [])
unfolding itoa digit_loop
minus_42 = refl

-- `result` is ten times too large before the last division: 300000000 does not fit.
too_large :
    atoi (b'3' ∷ b'0' ∷ b'0' ∷ b'0' ∷ b'0' ∷ b'0' ∷ b'0' ∷ b'0' ∷ b'0' ∷ []) ≡ negsuc 129496728
unfolding atoi atoi_loop isdigit
too_large = refl

-- Characters that are no digits do not end the number.
skips_letters : atoi (b'1' ∷ b'x' ∷ b'2' ∷ []) ≡ pos 12
unfolding atoi atoi_loop isdigit
skips_letters = refl

-- The least `int` is written with characters below '0', the remainders of a negative number.
least_int :
    int_to_str (negsuc (2 ^ 31 - 1)) 10
    ≡ returns (b'-' ∷ 46 ∷ 47 ∷ 44 ∷ 41 ∷ 44 ∷ 40 ∷ 45 ∷ 42 ∷ 44 ∷ 40 ∷ [])
unfolding int_to_str minus_digit_loop
least_int = refl
