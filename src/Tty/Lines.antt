-- ===== src/Tty/Lines.antt =====
-- What a client sees of kernel/terminal/tty.c: text laid out on a line, the control calls, and
-- typed lines read back piece by piece.
use bitloader.Prelude.{
  List, Option, [], ap, arith, bit_or, drop, false, get_or, if◌then◌else◌, leb, length, ltb, none,
  refl, some, suc, take, zero, ℕ, ◌%◌, ◌&&◌, ◌*◌, ◌++◌, ◌+◌, ◌-◌, ◌<◌, ◌==◌, ◌^◌, ◌∙◌, ◌∷◌, ◌≡◌,
  ◌≢◌,
}
use bitloader.Tty.{
  Tty, TtyFileData, print_char, print_string, put_cell, put_char, take_line, tty_ioctl, tty_read,
  vga_width,
}
use bitloader.Prelude.Run.{Run, out_of_fuel, returns, ◌>>=◌}

-- No character with a meaning of its own.
abbrev pub Printable : ℕ → Type 0
Printable c = (c ≢ 8) × (c ≢ 9) × (c ≢ 10) × (c ≢ 13)

abbrev pub AllPrintable : List ℕ → Type 0
AllPrintable [] = Unit
AllPrintable (c ∷ cs) = Printable c × AllPrintable cs

abbrev pub cursor : Tty → ℕ
cursor s = s.cursor_col + s.cursor_row * vga_width

get_or-suc : (c : ℕ) (cs : List ℕ) (i : ℕ) → i ≢ 0 → get_or (c ∷ cs) i 0 ≡ get_or cs (i - 1) 0
get_or-suc c cs zero h = absurd (h refl)
get_or-suc c cs (suc i) h = ap (λ k. get_or cs k 0) (omega arith)

get_or-zero : (c : ℕ) (cs : List ℕ) (i : ℕ) → i ≡ 0 → get_or (c ∷ cs) i 0 ≡ c
get_or-zero c cs zero h = refl
get_or-zero c cs (suc i) h = absurd (omega arith)

print_char-plain :
    (c : ℕ) (s : Tty)
    → Printable c
    → s.cursor_col + 1 < vga_width
    → print_char c s ≡ record s {
      text_buffer = put_cell (cursor s) (bit_or c (s.color * 2 ^ 8)) s.text_buffer;
      cursor_col = s.cursor_col + 1;
    }
unfolding print_char put_char
print_char-plain c s p fits =
    let next : (s.cursor_col + 1) % 256 ≡ s.cursor_col + 1 = omega arith in
    let no_wrap : leb vga_width (s.cursor_col + 1) ≡ false = ground arith in
    let a : (c == 8) ≡ false = ground (arith, p.0) in
    let b : (c == 9) ≡ false = ground (arith, p.1) in
    let d : (c == 10) ≡ false = ground (arith, p.2) in
    let e : (c == 13) ≡ false = ground (arith, p.3) in rw (a, b, d, e, next, no_wrap)

cells_ahead :
    (x : ℕ) (xs : List ℕ) (s : Tty) (c : ℕ)
    → let at = s.cursor_col + 1 + s.cursor_row * vga_width in
      (if leb at c && ltb c (at + length xs)
        then bit_or (get_or xs (c - at) 0) (s.color * 2 ^ 8)
        else put_cell (cursor s) (bit_or x (s.color * 2 ^ 8)) s.text_buffer c)
      ≡ (if leb (cursor s) c && ltb c (cursor s + length (x ∷ xs))
          then bit_or (get_or (x ∷ xs) (c - cursor s) 0) (s.color * 2 ^ 8)
          else s.text_buffer c)
cells_ahead x xs s c =
    ground (arith, get_or-zero x xs (c - cursor s), get_or-suc x xs (c - cursor s))

-- Printable text that ends before the last column lies in the cells from the cursor on, in the
-- current colour; every other cell is as before, and the cursor stands behind the text.
pub print_string-cells :
    (cs : List ℕ) (s : Tty) (c : ℕ)
    → AllPrintable cs
    → s.cursor_col + length cs < vga_width
    → ((print_string cs s).text_buffer c ≡ (
        if leb (cursor s) c && ltb c (cursor s + length cs)
        then bit_or (get_or cs (c - cursor s) 0) (s.color * 2 ^ 8)
        else s.text_buffer c))
      × ((print_string cs s).cursor_col ≡ s.cursor_col + length cs)
      × ((print_string cs s).cursor_row ≡ s.cursor_row)
unfolding print_string
print_string-cells [] s c p fits = (ground arith, omega arith, refl)
print_string-cells (x ∷ xs) s c p fits =
    let s1 : Tty = record s {
      text_buffer = put_cell (cursor s) (bit_or x (s.color * 2 ^ 8)) s.text_buffer;
      cursor_col = s.cursor_col + 1;
    } in
    let step : print_string xs (print_char x s) ≡ print_string xs s1 =
      ap (print_string xs) (print_char-plain x s p.0 (omega arith)) in
    let rest = print_string-cells xs s1 c p.1 (omega arith) in
    (
      ap (λ r. r.text_buffer c) step ∙ rest.0 ∙ cells_ahead x xs s c,
      ap (λ r. r.cursor_col) step ∙ rest.1 ∙ omega arith,
      ap (λ r. r.cursor_row) step ∙ rest.2,
    )

-- The cursor that `TTY_SET_CURSOR_POS` sets is the one that `TTY_GET_CURSOR_POS` reports, for any
-- row and column that fit a byte, on the screen or off it.
tty_ioctl-cursor :
    (row col old : ℕ) (s : Tty)
    → row < 256
    → col < 256
    → let s' = (tty_ioctl 3 (row * 2 ^ 16 + col) s).0 in (tty_ioctl 4 old s').1 ≡ row * 2 ^ 16 + col
unfolding tty_ioctl
tty_ioctl-cursor row col old s hr hc = omega arith

length-drop : (n : ℕ) (xs : List ℕ) → length (drop n xs) ≡ length xs - n
length-drop zero xs = omega arith
length-drop (suc n) [] = omega arith
length-drop (suc n) (x ∷ xs) = omega (arith, length-drop n xs)

take-append-drop : (n : ℕ) (xs : List ℕ) → take n xs ++ drop n xs ≡ xs
take-append-drop zero xs = refl
take-append-drop (suc n) [] = refl
take-append-drop (suc n) (x ∷ xs) = ap (λ l. x ∷ l) (take-append-drop n xs)

-- A client that reads until a read gives nothing.
abbrev pub after_read :
    (TtyFileData → Run (List ℕ × TtyFileData)) → List ℕ × TtyFileData → Run (List ℕ × TtyFileData)
after_read again ([], fd) = returns ([], fd)
after_read again (c ∷ cs, fd) = again fd >>= λ (more, fd'). returns ((c ∷ cs) ++ more, fd')

abbrev pub read_all : ℕ → ℕ → Option (List ℕ) → TtyFileData → Run (List ℕ × TtyFileData)
read_all zero size typed fd = out_of_fuel
read_all (suc fuel) size typed fd = after_read (read_all fuel size typed) (tty_read size typed fd)

-- What a read takes off a line that is not empty.
abbrev taken : ℕ → List ℕ → ℕ
taken m xs = if ltb (length xs) m then length xs else m

take_line-cons :
    (m x : ℕ) (xs : List ℕ)
    → take_line (suc m) (x ∷ xs) ≡ (x ∷ take (taken m xs) xs, some (drop (taken m xs) xs))
take_line-cons m x xs =
    let n : (if ltb (suc (length xs)) (suc m) then suc (length xs) else suc m) ≡ suc (taken m xs) =
      ground arith in
    ap (λ k. (take k (x ∷ xs), some (drop k (x ∷ xs)))) n

after_take-line :
    (fuel m : ℕ) (typed : Option (List ℕ)) (x : ℕ) (xs : List ℕ)
    → read_all fuel (suc m) typed (some (drop (taken m xs) xs))
      ≡ returns (drop (taken m xs) xs, none)
    → after_read (read_all fuel (suc m) typed) (take_line (suc m) (x ∷ xs)) ≡ returns (x ∷ xs, none)
after_take-line fuel m typed x xs rest =
    ap (after_read (read_all fuel (suc m) typed)) (take_line-cons m x xs)
    ∙ ap (λ r. r >>= λ (more, fd'). returns ((x ∷ take (taken m xs) xs) ++ more, fd')) rest
    ∙ ap (λ l. returns (x ∷ l, none)) (take-append-drop (taken m xs) xs)

read_all-rest :
    (fuel m : ℕ) (typed : Option (List ℕ)) (rest : List ℕ)
    → length rest < fuel
    → read_all fuel (suc m) typed (some rest) ≡ returns (rest, none)
unfolding tty_read
read_all-rest zero m typed rest h = elim h [ ]
read_all-rest (suc fuel) m typed [] h = refl
read_all-rest (suc fuel) m typed (x ∷ xs) h =
    after_take-line fuel m typed x xs (
      read_all-rest fuel m typed (drop (taken m xs) xs)
        (omega (arith, length-drop (taken m xs) xs)))

-- Reading a typed line piece by piece, with a buffer of any size but 0, gives the whole line and
-- nothing else, and then a read that gives nothing; the file is back to having no line.
pub read_all-line :
    (fuel size c : ℕ) (cs : List ℕ)
    → 0 < size
    → length (c ∷ cs) < fuel
    → read_all fuel size (some (c ∷ cs)) none ≡ returns (c ∷ cs, none)
unfolding tty_read
read_all-line zero size c cs pos enough = elim enough [ ]
read_all-line (suc fuel) zero c cs pos enough = elim pos [ ]
read_all-line (suc fuel) (suc m) c cs pos enough = after_take-line fuel m (some (c ∷ cs)) c cs (
    read_all-rest fuel m (some (c ∷ cs)) (drop (taken m cs) cs)
      (omega (arith, length-drop (taken m cs) cs)))
