-- ===== src/Print.antt =====
-- kernel/print.c: `printf` and the numbers it prints, as the bytes that go to the terminal's file.
pub mod Decimal
mod Tests
use bitloader.Prelude.{
  Bool, List, [], bit_and, get_or, if◌then◌else◌, suc, zero, ℕ, ◌%◌, ◌++◌, ◌+◌, ◌/◌, ◌==◌, ◌^◌, ◌∷◌,
}
use bitloader.Prelude.Int.{negsuc, pos, ℤ}
use bitloader.Prelude.Run.{Run, fault, returns, ◌>>=◌}

-- The loop that fills `buf`, whose last character is printed first; `room` bytes of it are left,
-- and a store behind them is a fault. `chars` is what is printed of it.
unfoldable pub decimal_loop : (room num : ℕ) (chars : List ℕ) → Run (List ℕ)
decimal_loop zero num chars = if num == 0 then returns chars else fault
decimal_loop (suc room) num chars =
    let rest = decimal_loop room (num / 10) ((b'0' + num % 10) ∷ chars) in
    if num == 0 then returns chars else rest

-- An `int`. The negative of -2147483648 is that number again, which is not above 0.
unfoldable pub print_int : ℤ → Run (List ℕ)
print_int (pos zero) = returns (b'0' ∷ [])
print_int (pos (suc n)) = decimal_loop 12 (suc n) []
print_int (negsuc n) =
    let digits = decimal_loop 12 (n + 1) [] in
    if n + 1 == 2 ^ 31 then returns (b'-' ∷ []) else do ds ← digits; returns (b'-' ∷ ds)

abbrev pub hex_chars : List ℕ
hex_chars =
    b'0' ∷ b'1' ∷ b'2' ∷ b'3' ∷ b'4' ∷ b'5' ∷ b'6' ∷ b'7' ∷ b'8' ∷ b'9' ∷ b'A' ∷ b'B' ∷ b'C' ∷ b'D'
    ∷ b'E' ∷ b'F' ∷ []

unfoldable pub hex_loop : (room num : ℕ) (chars : List ℕ) → Run (List ℕ)
hex_loop zero num chars = if num == 0 then returns chars else fault
hex_loop (suc room) num chars =
    let rest = hex_loop room (num / 2 ^ 4) (get_or hex_chars (bit_and num 0xf) 0 ∷ chars) in
    if num == 0 then returns chars else rest

unfoldable pub print_hex : ℕ → Run (List ℕ)
print_hex num = if num == 0 then returns (b'0' ∷ []) else hex_loop 9 num []

-- The variable arguments, as `va_arg` takes them.
pub data Argument : Type 0 where
  string : List ℕ → Argument
  char : ℕ → Argument
  int : ℤ → Argument
  unsigned : ℕ → Argument

-- One format specifier: what it prints, and the arguments that are left. An argument of another
-- type, or none, is a fault.
unfoldable pub print_format : ℕ → List Argument → Run (List ℕ × List Argument)
print_format c args =
    if c == b's'
    then elim args [ string s ∷ rest ↦ returns (s, rest) | _ ↦ fault ]
    else if c == b'c'
    then elim args [ char v ∷ rest ↦ returns (v % 256 ∷ [], rest) | _ ↦ fault ]
    else if c == b'd'
    then elim args [ int z ∷ rest ↦ (do out ← print_int z; returns (out, rest)) | _ ↦ fault ]
    else if c == b'x'
    then elim args [ unsigned n ∷ rest ↦ (do out ← print_hex n; returns (out, rest)) | _ ↦ fault ]
    else if c == b'%'
    then returns (b'%' ∷ [], args)
    else returns (b'%' ∷ c ∷ [], args)

-- The characters of the format before its NUL. A `%` right before the NUL takes the loop past the
-- format's end, a fault.
unfoldable pub printf_loop : List ℕ → List Argument → Run (List ℕ)
printf_loop [] args = returns []
printf_loop (p ∷ []) args = if p == b'%' then fault else returns (p ∷ [])
printf_loop (p ∷ c ∷ fmt) args =
    let plain = printf_loop (c ∷ fmt) args in
    if p == b'%'
    then (do out ← print_format c args; rest ← printf_loop fmt out.1; returns (out.0 ++ rest))
    else (do rest ← plain; returns (p ∷ rest))

-- `tty` is NULL before `set_print_output`.
pub printf : Bool → List ℕ → List Argument → Run (List ℕ)
printf has_tty fmt args = if has_tty then printf_loop fmt args else returns []
