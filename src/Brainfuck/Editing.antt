-- ===== src/Brainfuck/Editing.antt =====
-- What typing and erasing in the editor of apps/brainfuck/main.c do to the code.
use bitloader.Prelude.{
  Bool, Bool-cases, ap, arith, false, if◌then◌else◌, inl, inr, leb, ltb, ltb→lt, refl, suc, true,
  zero, ℕ, ◌&&◌, ◌+◌, ◌-◌, ◌<◌, ◌==◌, ◌||◌, ◌∙◌, ◌≡◌, ◌≤◌,
}
use bitloader.Strings.{Bytes, isalnum, poke}
use bitloader.Input.{kc_backspace, kc_esc, keycode_to_ascii}
use bitloader.Brainfuck.Modes.{
  AppState, backspace, code_buffer_size, editor_mode, isvalidinput, shift_down, shift_up, type_char,
}
use bitloader.Prelude.Loops.{for_range_inv}

-- The cursor stands in the code, and the code fits its buffer.
pub record EditOk (app : AppState) : Type 0 where
  pub cursor : app.code_text_offset ≤ app.code_len
  pub fits : app.code_len ≤ code_buffer_size

type_char-EditOk :
    (ch : ℕ) (app : AppState)
    → app.code_len < code_buffer_size
    → EditOk app
    → EditOk (type_char ch app)
unfolding type_char
type_char-EditOk ch app room h = ground arith

backspace-EditOk : (app : AppState) → EditOk app → EditOk (backspace app)
unfolding backspace
backspace-EditOk app h = ground arith

EditOk-if :
    (b : Bool) (x y : AppState)
    → (b ≡ true → EditOk x)
    → (b ≡ false → EditOk y)
    → EditOk (if b then x else y)
EditOk-if true x y hx hy = hx refl
EditOk-if false x y hx hy = hy refl

and-right : (a b : Bool) → (a && b) ≡ true → b ≡ true
and-right true b h = h
and-right false b h = absurd (ground arith)

-- No key in the editor moves the cursor out of the code or makes the code longer than its buffer.
pub editor_mode-EditOk :
    (keycode : ℕ) (app : AppState) → EditOk app → EditOk (editor_mode keycode app)
unfolding editor_mode
editor_mode-EditOk keycode app h =
    let ch = keycode_to_ascii keycode app.shift_state in
    EditOk-if (keycode == 0x4b) _ _
      (λ e. record { cursor = omega (arith, h.cursor); fits = h.fits })
      (λ e.
        EditOk-if (keycode == 0x4d) _ _
          (λ e. record { cursor = omega (arith, h.cursor); fits = h.fits })
          (λ e.
            EditOk-if (keycode == kc_backspace) _ _ (λ e. backspace-EditOk app h)
              (λ e.
                EditOk-if (keycode == kc_esc) _ _ (λ e. record { cursor = h.cursor; fits = h.fits })
                  (λ e.
                    EditOk-if
                      ((isalnum ch || (isvalidinput ch || ch == b' '))
                        && ltb app.code_len code_buffer_size)
                      (type_char ch app) app
                      (λ e.
                        type_char-EditOk ch app
                          (ltb→lt app.code_len code_buffer_size (
                            and-right (isalnum ch || (isvalidinput ch || ch == b' '))
                              (ltb app.code_len code_buffer_size) e))
                          h)
                      (λ e. h)))))

-- The characters with one put in at the cursor.
abbrev pub inserted : (o len ch : ℕ) → Bytes → Bytes
inserted o len ch b i = if i == o then ch else if ltb o i && leb i len then b (i - 1) else b i

poke-moved :
    (i o : ℕ) (b : Bytes) (j : ℕ)
    → o ≤ i
    → (if ltb o j && leb j i then poke (suc i) (b i) b (j - 1) else poke (suc i) (b i) b j)
      ≡ (if ltb o j && leb j (suc i) then b (j - 1) else b j)
poke-moved i o b j le = elim (Bool-cases (j == suc i)) [
  | inl top ↦ let same : b i ≡ b (j - 1) = ap b (ground arith) in ground arith
  | inr other ↦ ground arith
]

shift_up-moved :
    (i o : ℕ) (b : Bytes) (j : ℕ)
    → o ≤ i
    → shift_up i o b j ≡ (if ltb o j && leb j i then b (j - 1) else b j)
unfolding shift_up
shift_up-moved zero o b j h =
    let none_moved : (ltb o j && leb j 0) ≡ false = ground arith in rw none_moved refl
shift_up-moved (suc i) o b j h = elim (Bool-cases (ltb o (suc i))) [
  | inl more ↦
      let before = shift_up-moved i o (poke (suc i) (b i) b) j (ground arith) in
      rw more (before ∙ poke-moved i o b j (ground arith))
  | inr over ↦
      let none_moved : (ltb o j && leb j (suc i)) ≡ false = ground arith in
      rw over (rw none_moved refl)
]

insert-last :
    (o len ch : ℕ) (b : Bytes) (i : ℕ) → (o == len) ≡ true → poke o ch b i ≡ inserted o len ch b i
insert-last o len ch b i h = ground arith

-- A character that is typed is put in at the cursor: what stood there and behind it moves up by
-- one place, and the rest of the buffer stays.
type_char-inserted :
    (ch : ℕ) (app : AppState)
    → EditOk app
    → (i : ℕ)
    → (type_char ch app).code_buffer i
      ≡ inserted app.code_text_offset app.code_len ch app.code_buffer i
unfolding type_char
type_char-inserted ch app h i = elim (Bool-cases (app.code_text_offset == app.code_len)) [
  | inl at_end ↦
      rw at_end (insert-last app.code_text_offset app.code_len ch app.code_buffer i at_end)
  | inr inside ↦ rw inside (
      ap (λ r. if i == app.code_text_offset then ch else r)
        (shift_up-moved app.code_len app.code_text_offset app.code_buffer i h.cursor))
]

-- The characters with the one under the cursor taken out, and a NUL in place of the last.
abbrev pub erased : (o len : ℕ) → Bytes → Bytes
erased o len b i =
    if leb o i && ltb i len
    then (if i + 1 == len then 0 else b (i + 1))
    else if i == len
    then 0
    else b i

down-next :
    (first x : ℕ) (b u : Bytes)
    → first ≤ x
    → ((i : ℕ) → u i ≡ (if leb first i && ltb i x then b (i + 1) else b i))
    → (i : ℕ) → poke x (u (x + 1)) u i ≡ (if leb first i && ltb i (x + 1) then b (i + 1) else b i)
down-next first x b u le h i = let ahead = h (x + 1) in let here = h i in ground arith

shift_down-moved :
    (first len : ℕ) (b : Bytes)
    → first ≤ len
    → (i : ℕ) → shift_down first len b i ≡ (if leb first i && ltb i len then b (i + 1) else b i)
unfolding shift_down
shift_down-moved first len b le i =
    (for_range_inv
        (λ x u. (first ≤ x) × ((i : ℕ) → u i ≡ (if leb first i && ltb i x then b (i + 1) else b i)))
        (λ i u. poke i (u (i + 1)) u) (len - first) first len b (omega arith)
        (λ x u small h. (omega (arith, h.0), down-next first x b u h.0 h.1))
        (omega arith, (λ i'. ground arith))).1
      i

-- The Backspace key with the cursor inside the code takes out the character under the cursor, not
-- the one before it, and what moves into the last place is a NUL, not the last character.
backspace-inner :
    (app : AppState)
    → app.code_text_offset < app.code_len
    → (i : ℕ)
    → (backspace app).code_buffer i
      ≡ erased app.code_text_offset (app.code_len - 1) app.code_buffer i
unfolding backspace
backspace-inner app h i =
    let some_code : ltb 0 app.code_len ≡ true = ground arith in
    let inside : ltb app.code_text_offset (app.code_len - 1 + 1) ≡ true = ground arith in
    rw some_code (
      rw inside (
        shift_down-moved app.code_text_offset (app.code_len - 1)
          (poke (app.code_len - 1) 0 app.code_buffer) (omega arith) i
        ∙ refl))
