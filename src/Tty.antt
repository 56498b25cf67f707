-- ===== src/Tty.antt =====
-- kernel/terminal/tty.c and tty.h: the text terminal, a cursor and a colour over the cells of the
-- VGA text buffer. A cell is found by its index; the two cursor fields and the colour are bytes.
pub mod Scroll
pub mod Cursor
pub mod Lines
mod Tests
use bitloader.Prelude.{
  List, Option, [], bit_and, bit_or, drop, if◌then◌else◌, leb, length, ltb, none, some, suc, take,
  zero, ℕ, ◌%◌, ◌*◌, ◌+◌, ◌-◌, ◌/◌, ◌==◌, ◌^◌, ◌∷◌,
}
use bitloader.Prelude.Loops.{for_range}

abbrev pub vga_width : ℕ
vga_width = 80

abbrev pub vga_height : ℕ
vga_height = 25

-- `text_buffer`, 16 bits to a cell
abbrev pub Cells : Type 0
Cells = ℕ → ℕ

abbrev pub put_cell : ℕ → ℕ → Cells → Cells
put_cell i v t j = if j == i then v else t j

pub record Tty : Type 0 where
  pub text_buffer : Cells
  pub cursor_row : ℕ
  pub cursor_col : ℕ
  pub color : ℕ

-- The cells move up by a line, in place.
unfoldable pub scroll : Cells → Cells
scroll t =
    let moved =
      for_range (vga_height - 1) 0
        (λ y.
          for_range vga_width 0
            (λ x u. put_cell (x + y * vga_width) (u (x + (y + 1) * vga_width)) u))
        t in
    for_range vga_width 0 (λ x. put_cell (x + 24 * vga_width) 0) moved

pub newline : Tty → Tty
newline s =
    let row = (s.cursor_row + 1) % 256 in
    if leb vga_height row
    then record s {
      text_buffer = scroll s.text_buffer;
      cursor_row = vga_height - 1;
      cursor_col = 0;
    }
    else record s { cursor_row = row; cursor_col = 0 }

-- The last part of `print_char`: one character into the cell under the cursor.
pub put_char : ℕ → Tty → Tty
unfolding newline
put_char chr s =
    let cell = bit_or chr (s.color * 2 ^ 8) in
    let col = (s.cursor_col + 1) % 256 in
    let s' = record s {
      text_buffer = put_cell (s.cursor_col + s.cursor_row * vga_width) cell s.text_buffer;
      cursor_col = col;
    } in
    if leb vga_width col then newline s' else s'

-- `print_string("        ")`: a space goes the way of any other printable character.
pub put_spaces : ℕ → Tty → Tty
put_spaces zero s = s
put_spaces (suc n) s = put_spaces n (put_char b' ' s)

pub print_char : ℕ → Tty → Tty
print_char chr s =
    if chr == 10
    then newline s
    else if chr == 13
    then record s { cursor_col = 0 }
    else if chr == 9
    then put_spaces 8 s
    else if chr == 8
    then (if ltb 0 s.cursor_col then record s { cursor_col = s.cursor_col - 1 } else s)
    else put_char chr s

-- The characters up to the NUL.
pub print_string : List ℕ → Tty → Tty
print_string [] s = s
print_string (c ∷ cs) s = print_string cs (print_char c s)

-- The buffer's bytes; it returns their number.
pub tty_write : List ℕ → Tty → ℕ × Tty
tty_write buffer s = (length buffer, print_string buffer s)

pub set_color : ℕ → ℕ → Tty → Tty
set_color fg bg s = record s { color = bit_or fg (bg * 2 ^ 4) % 256 }

unfoldable pub clear : Tty → Tty
clear s = record s {
  text_buffer =
      for_range vga_height 0 (λ y. for_range vga_width 0 (λ x. put_cell (x + y * vga_width) b'0'))
        s.text_buffer;
  cursor_row = 0;
  cursor_col = 0;
}

-- `get_cursor_pos` gives the column, then the row.
pub get_cursor_pos : Tty → ℕ × ℕ
get_cursor_pos s = (s.cursor_col, s.cursor_row)

pub set_cursor_pos : ℕ → ℕ → Tty → Tty
set_cursor_pos x y s = record s { cursor_col = x; cursor_row = y }

-- The state and `*arg` afterwards. An assignment to a byte keeps its low eight bits.
pub tty_ioctl : ℕ → ℕ → Tty → Tty × ℕ
tty_ioctl command arg s =
    if command == 0
    then (clear s, arg)
    else if command == 1
    then (record s { color = bit_or s.color (arg * 2 ^ 4) % 256 }, arg)
    else if command == 2
    then (record s { color = bit_or (bit_and arg 0xf) s.color % 256 }, arg)
    else if command == 3
    then (record s { cursor_row = arg / 2 ^ 16 % 256; cursor_col = arg % 2 ^ 16 % 256 }, arg)
    else if command == 4
    then (s, s.cursor_row * 2 ^ 16 + s.cursor_col)
    else (s, arg)

-- `struct tty_file_data`: what is left of the line that was typed, or no line.
abbrev pub TtyFileData : Type 0
TtyFileData = Option (List ℕ)

abbrev pub take_line : ℕ → List ℕ → List ℕ × TtyFileData
take_line size rest =
    let n = if ltb (length rest) size then length rest else size in
    (take n rest, some (drop n rest))

-- The bytes read. `typed` is what `get_line` returns if it is called, or NULL.
pub tty_read : ℕ → Option (List ℕ) → TtyFileData → List ℕ × TtyFileData
tty_read size typed (some []) = ([], none)
tty_read size typed (some (c ∷ cs)) = take_line size (c ∷ cs)
tty_read size (some line) none = take_line size line
tty_read size none none = ([], none)
