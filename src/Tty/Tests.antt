-- ===== src/Tty/Tests.antt =====
-- Runs of the terminal, and its theorems on a small screen state.
use bitloader.Prelude.{[], arith, bit_or, none, refl, some, ◌∷◌, ◌≡◌}
use bitloader.Prelude.Run.{returns}
use bitloader.Tty.{Tty, print_char, print_string, put_char, put_spaces, tty_ioctl, tty_write}
use bitloader.Tty.Cursor.{Printed, tty_write-Printed}
use bitloader.Tty.Lines.{print_string-cells, read_all, read_all-line}

-- White on black, the cursor three lines down.
abbrev start : Tty
start = record { text_buffer = λ c. c; cursor_row = 3; cursor_col = 70; color = 15 }

abbrev bottom : Tty
bottom = record start { cursor_row = 24; cursor_col = 79 }

prints_and_wraps :
    ((print_string (b'a' ∷ b'b' ∷ 10 ∷ 9 ∷ 8 ∷ []) start).cursor_row ≡ 4)
    × ((print_string (b'a' ∷ b'b' ∷ 10 ∷ 9 ∷ 8 ∷ []) start).cursor_col ≡ 7)
    × ((print_string (b'a' ∷ b'b' ∷ 10 ∷ 9 ∷ 8 ∷ []) start).text_buffer 311 ≡ 0xf62)
unfolding print_string print_char put_char put_spaces
prints_and_wraps = (refl, refl, refl)

scrolls_at_bottom :
    ((print_char b'a' bottom).cursor_row ≡ 24) × ((print_char b'a' bottom).cursor_col ≡ 0)
unfolding print_char put_char
scrolls_at_bottom = (refl, refl)

-- A background colour is or-ed in: blue on top of red is magenta.
background_mixes : (tty_ioctl 1 1 (record start { color = 0x4f })).0.color ≡ 0x5f
unfolding tty_ioctl
background_mixes = refl

tty_write-Printed_example :
    ((tty_write (b'a' ∷ 10 ∷ b'b' ∷ []) bottom).0 ≡ 3)
    × Printed bottom (tty_write (b'a' ∷ 10 ∷ b'b' ∷ []) bottom).1
tty_write-Printed_example = tty_write-Printed (b'a' ∷ 10 ∷ b'b' ∷ []) bottom (omega arith)

print_string-cells_example :
    ((print_string (b'o' ∷ b'k' ∷ []) start).text_buffer 311 ≡ bit_or b'k' 0xf00)
    × ((print_string (b'o' ∷ b'k' ∷ []) start).cursor_col ≡ 72)
    × ((print_string (b'o' ∷ b'k' ∷ []) start).cursor_row ≡ 3)
print_string-cells_example =
    print_string-cells (b'o' ∷ b'k' ∷ []) start 311 (omega arith) (omega arith)

read_all-line_example :
    read_all 4 2 (some (b'a' ∷ b'b' ∷ b'c' ∷ [])) none ≡ returns (b'a' ∷ b'b' ∷ b'c' ∷ [], none)
read_all-line_example = read_all-line 4 2 b'a' (b'b' ∷ b'c' ∷ []) (omega arith) (omega arith)
