-- ===== src/Tty/Cursor.antt =====
-- The cursor of kernel/terminal/tty.c stays on the screen, and printing writes nowhere else.
use bitloader.Prelude.{
  Bool, List, [], arith, bit_or, false, if◌then◌else◌, length, ltb, refl, suc, true, zero, ℕ, ◌*◌,
  ◌+◌, ◌<◌, ◌==◌, ◌^◌, ◌∙◌, ◌∷◌, ◌≡◌, ◌≤◌,
}
use bitloader.Tty.{
  Tty, newline, print_char, print_string, put_cell, put_char, put_spaces, tty_write, vga_height,
  vga_width,
}
use bitloader.Tty.Scroll.{scroll-cells}

pub record OnScreen (s : Tty) : Type 0 where
  pub row_in : s.cursor_row < vga_height
  pub col_in : s.cursor_col < vga_width

-- Memory outside the screen's 2000 cells is as before.
abbrev pub SameOutside : Tty → Tty → Type 0
SameOutside s s' = (c : ℕ) → 2000 ≤ c → s'.text_buffer c ≡ s.text_buffer c

newline-OnScreen : (s : Tty) → OnScreen s → OnScreen (newline s)
unfolding newline
newline-OnScreen s v = ground arith

newline-SameOutside : (s : Tty) → OnScreen s → SameOutside s (newline s)
unfolding newline
newline-SameOutside s v c h = ground (arith, scroll-cells s.text_buffer c)

put_char-OnScreen : (chr : ℕ) (s : Tty) → OnScreen s → OnScreen (put_char chr s)
unfolding put_char
put_char-OnScreen chr s v = ground arith

put_char-SameOutside : (chr : ℕ) (s : Tty) → OnScreen s → SameOutside s (put_char chr s)
unfolding put_char
put_char-SameOutside chr s v c h = ground (
  arith,
  scroll-cells
      (put_cell (s.cursor_col + s.cursor_row * vga_width) (bit_or chr (s.color * 2 ^ 8))
        s.text_buffer)
      c,
)

newline-color : (s : Tty) → (newline s).color ≡ s.color
unfolding newline
newline-color s = ground arith

put_char-color : (chr : ℕ) (s : Tty) → (put_char chr s).color ≡ s.color
unfolding put_char
put_char-color chr s = ground arith

-- What printing leaves: the cursor on the screen, other memory and the colour as they were.
pub record Printed (s s' : Tty) : Type 0 where
  pub on_screen : OnScreen s'
  pub outside : SameOutside s s'
  pub color : s'.color ≡ s.color

Printed-trans : (r s t : Tty) → Printed r s → Printed s t → Printed r t
Printed-trans r s t p q = record {
  on_screen = q.on_screen;
  outside = λ c h. q.outside c h ∙ p.outside c h;
  color = q.color ∙ p.color;
}

newline-Printed : (s : Tty) → OnScreen s → Printed s (newline s)
newline-Printed s v = record {
  on_screen = newline-OnScreen s v;
  outside = newline-SameOutside s v;
  color = newline-color s;
}

put_char-Printed : (chr : ℕ) (s : Tty) → OnScreen s → Printed s (put_char chr s)
put_char-Printed chr s v = record {
  on_screen = put_char-OnScreen chr s v;
  outside = put_char-SameOutside chr s v;
  color = put_char-color chr s;
}

put_spaces-Printed : (n : ℕ) (s : Tty) → OnScreen s → Printed s (put_spaces n s)
unfolding put_spaces
put_spaces-Printed zero s v = record { on_screen = v; outside = λ c h. refl; color = refl }
put_spaces-Printed (suc n) s v =
    let first = put_char-Printed b' ' s v in
    Printed-trans s (put_char b' ' s) (put_spaces n (put_char b' ' s)) first
      (put_spaces-Printed n (put_char b' ' s) first.on_screen)

-- A property that holds on both branches holds of the conditional.
if-Printed : (b : Bool) (s x y : Tty) → Printed s x → Printed s y → Printed s (if b then x else y)
if-Printed true s x y p q = p
if-Printed false s x y p q = q

print_char-Printed : (chr : ℕ) (s : Tty) → OnScreen s → Printed s (print_char chr s)
unfolding print_char
print_char-Printed chr s v = if-Printed (chr == 10) s _ _ (newline-Printed s v) (
    if-Printed (chr == 13) s _ _
      (record { on_screen = omega arith; outside = λ c h. refl; color = refl })
      (if-Printed (chr == 9) s _ _ (put_spaces-Printed 8 s v) (
        if-Printed (chr == 8) s _ _
          (if-Printed (ltb 0 s.cursor_col) s _ _
            (record { on_screen = omega arith; outside = λ c h. refl; color = refl })
            (record { on_screen = v; outside = λ c h. refl; color = refl }))
          (put_char-Printed chr s v))))

print_string-Printed : (cs : List ℕ) (s : Tty) → OnScreen s → Printed s (print_string cs s)
unfolding print_string
print_string-Printed [] s v = record { on_screen = v; outside = λ c h. refl; color = refl }
print_string-Printed (c ∷ cs) s v =
    let first = print_char-Printed c s v in
    Printed-trans s (print_char c s) (print_string cs (print_char c s)) first
      (print_string-Printed cs (print_char c s) first.on_screen)

-- From a cursor on the screen, `tty_write` of any bytes, control characters included, reports
-- them all as written, leaves the cursor on the screen, writes to no memory outside the screen's
-- cells, and keeps the colour.
pub tty_write-Printed :
    (buffer : List ℕ) (s : Tty)
    → OnScreen s
    → ((tty_write buffer s).0 ≡ length buffer) × Printed s (tty_write buffer s).1
unfolding tty_write
tty_write-Printed buffer s v = (refl, print_string-Printed buffer s v)
