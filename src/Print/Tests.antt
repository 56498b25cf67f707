-- ===== src/Print/Tests.antt =====
-- Numbers and formats that kernel/print.c prints.
use bitloader.Prelude.{List, [], arith, refl, true, ℕ, ◌++◌, ◌+◌, ◌∷◌, ◌≡◌}
use bitloader.Prelude.Int.{neg_part, negsuc, pos_part}
use bitloader.Prelude.Run.{fault, returns}
use bitloader.Print.{
  decimal_loop, hex_loop, int, print_format, print_hex, print_int, printf, printf_loop, string,
}
use bitloader.Print.Decimal.{Numeral, minus_sign, print_int-number}

print_int-number_example :
    (digits : List ℕ) × (print_int (negsuc 304) ≡ returns (minus_sign (negsuc 304) ++ digits))
    × Numeral (pos_part (negsuc 304) + neg_part (negsuc 304)) digits
print_int-number_example = print_int-number (negsuc 304) (omega arith) (omega arith)

-- The least `int` is printed as a minus sign alone.
least_int : print_int (negsuc 2147483647) ≡ returns (b'-' ∷ [])
unfolding print_int
least_int = refl

hex : print_hex 0x1f0 ≡ returns (b'1' ∷ b'F' ∷ b'0' ∷ [])
unfolding print_hex hex_loop
hex = refl

formatted :
    printf true
      (b'a' ∷ b'%' ∷ b'd' ∷ b'%' ∷ b'%' ∷ b'%' ∷ b's' ∷ [])
      (int (negsuc 6) ∷ string (b'x' ∷ []) ∷ [])
    ≡ returns (b'a' ∷ b'-' ∷ b'7' ∷ b'%' ∷ b'x' ∷ [])
unfolding printf printf_loop print_format print_int decimal_loop
formatted = refl

-- A format that ends in `%` is read past its end.
open_format : printf true (b'5' ∷ b'%' ∷ []) [] ≡ fault
unfolding printf printf_loop
open_format = refl
