-- ===== src/Tty/Scroll.antt =====
-- The nested loops of `newline` and `clear` in kernel/terminal/tty.c, cell by cell.
use bitloader.Prelude.{arith, if◌then◌else◌, leb, ltb, refl, ℕ, ◌&&◌, ◌*◌, ◌+◌, ◌-◌, ◌∙◌, ◌≡◌}
use bitloader.Prelude.Loops.{for_range, for_range_inv}
use bitloader.Tty.{Cells, Tty, clear, put_cell, scroll, vga_height, vga_width}

-- The cells below `n` already hold what lay a line further down.
abbrev Moved : Cells → ℕ → Cells → Type 0
Moved t n u = (c : ℕ) → u c ≡ (if ltb c n then t (c + vga_width) else t c)

abbrev move_cell : ℕ → ℕ → Cells → Cells
move_cell y x u = put_cell (x + y * vga_width) (u (x + (y + 1) * vga_width)) u

move_cell-Moved :
    (t u : Cells) (y x : ℕ)
    → Moved t (x + y * vga_width) u
    → Moved t (x + 1 + y * vga_width) (move_cell y x u)
move_cell-Moved t u y x h c =
    let from : x + (y + 1) * vga_width ≡ x + y * vga_width + vga_width = omega arith in
    rw from (ground (arith, h c, h (x + y * vga_width + vga_width)))

move_row-Moved :
    (t u : Cells) (y : ℕ)
    → Moved t (y * vga_width) u
    → Moved t ((y + 1) * vga_width) (for_range vga_width 0 (move_cell y) u)
move_row-Moved t u y h =
    let start : y * vga_width ≡ 0 + y * vga_width = omega arith in
    let stop : vga_width + y * vga_width ≡ (y + 1) * vga_width = omega arith in
    rw (← stop) (
      for_range_inv (λ x u. Moved t (x + y * vga_width) u) (move_cell y) vga_width 0 vga_width u
        (omega arith) (λ x u _ m. move_cell-Moved t u y x m) (rw start at h))

rows-Moved :
    (t : Cells)
    → Moved t 1920 (for_range (vga_height - 1) 0 (λ y. for_range vga_width 0 (move_cell y)) t)
rows-Moved t =
    for_range_inv (λ y u. Moved t (y * vga_width) u) (λ y. for_range vga_width 0 (move_cell y)) 24 0
      24 t (omega arith) (λ y u _ m. move_row-Moved t u y m) (λ c. ground arith)

-- A run of cells is filled with one value.
filled :
    (u : Cells) (n b v c : ℕ)
    → for_range n 0 (λ x. put_cell (x + b) v) u c ≡ (if leb b c && ltb c (b + n) then v else u c)
filled u n b v =
    for_range_inv (λ x w. (c : ℕ) → w c ≡ (if leb b c && ltb c (b + x) then v else u c))
      (λ x. put_cell (x + b) v) n 0 n u (omega arith) (λ x w _ h c. ground (arith, h c))
      (λ c. ground arith)

-- `newline` at the bottom moves every line up by one and blanks the last line; it touches nothing
-- outside the screen.
pub scroll-cells :
    (t : Cells) (c : ℕ)
    → scroll t c ≡ (if ltb c 1920 then t (c + vga_width) else if ltb c 2000 then 0 else t c)
unfolding scroll
scroll-cells t c =
    filled (for_range (vga_height - 1) 0 (λ y. for_range vga_width 0 (move_cell y)) t) vga_width
      (24 * vga_width) 0 c
    ∙ ground (arith, rows-Moved t c)

rows_filled :
    (u : Cells) (v : ℕ) (n c : ℕ)
    → for_range n 0 (λ y. for_range vga_width 0 (λ x. put_cell (x + y * vga_width) v)) u c
      ≡ (if ltb c (n * vga_width) then v else u c)
rows_filled u v n =
    for_range_inv (λ y w. (c : ℕ) → w c ≡ (if ltb c (y * vga_width) then v else u c))
      (λ y. for_range vga_width 0 (λ x. put_cell (x + y * vga_width) v)) n 0 n u (omega arith)
      (λ y w _ h c. filled w vga_width (y * vga_width) v c ∙ ground (arith, h c))
      (λ c. ground arith)

-- `clear` writes the digit 0, with the colour bits 0, into every cell of the screen and into no
-- other, and puts the cursor in the top left corner.
clear-cells :
    (s : Tty) (c : ℕ)
    → ((clear s).text_buffer c ≡ (if ltb c 2000 then b'0' else s.text_buffer c))
      × ((clear s).cursor_row ≡ 0)
      × ((clear s).cursor_col ≡ 0)
      × ((clear s).color ≡ s.color)
unfolding clear
clear-cells s c = (rows_filled s.text_buffer b'0' vga_height c, refl, refl, refl)
