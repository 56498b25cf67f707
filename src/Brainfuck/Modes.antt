-- ===== src/Brainfuck/Modes.antt =====
-- apps/brainfuck/main.c: the editor, its command line, and the modes between which keys switch.
use bitloader.Prelude.{
  Bool, List, [], bit_and, bit_or, if◌then◌else◌, leb, ltb, min, suc, zero, ℕ, ◌&&◌, ◌*◌, ◌+◌, ◌-◌,
  ◌==◌, ◌||◌, ◌∷◌,
}
use bitloader.Prelude.Int.{pos, ◌==ℤ◌}
use bitloader.Prelude.Loops.{for_range}
use bitloader.Strings.{Bytes, isalnum, literal, poke, strncmp}
use bitloader.Input.{kc_backspace, kc_enter, kc_esc, kc_tab, keycode_to_ascii}
use bitloader.Brainfuck.{CodeExecutionData, init_exec_data}

pub data EditorMode : Type 0 where
  editing : EditorMode
  command_line : EditorMode
  running : EditorMode
  running_waiting_for_input : EditorMode
  running_finished : EditorMode
  viewing_help : EditorMode
  exit : EditorMode

-- The screen is `text_buffer`, 80 cells to a row; `command_text_buffer` begins in its last row.
-- `code_buffer` has 512 bytes and `command_buffer` 50.
pub record AppState : Type 0 where
  pub current_mode : EditorMode
  pub code_buffer : ℕ → ℕ
  pub command_buffer : ℕ → ℕ
  pub text_buffer : ℕ → ℕ
  pub code_len : ℕ
  pub code_text_offset : ℕ
  pub command_text_offset : ℕ
  pub command_display_offset : ℕ
  pub shift_state : Bool
  pub exec_data : CodeExecutionData

abbrev pub code_buffer_size : ℕ
code_buffer_size = 512

abbrev pub command_buffer_size : ℕ
command_buffer_size = 50

abbrev pub command_cell : ℕ → ℕ
command_cell j = 80 * 24 + 1 + j

-- (background << 4 | foreground) << 8: white on black, white on blue, green on black.
abbrev pub plain_color : ℕ
plain_color = (0 * 16 + 15) * 256

abbrev pub cursor_color : ℕ
cursor_color = (1 * 16 + 15) * 256

abbrev pub prompt_color : ℕ
prompt_color = (0 * 16 + 2) * 256

abbrev pub paint : ℕ → ℕ → Bytes → Bytes
paint o color b = poke o (bit_or (bit_and (b o) 0xff) color) b

unfoldable pub isvalidinput : ℕ → Bool
isvalidinput c = leb b'!' c && leb c b'~'

-- `for (i = len; i > offset && i > 0; i--) b[i] = b[i - 1];`
unfoldable pub shift_up : ℕ → ℕ → Bytes → Bytes
shift_up zero offset b = b
shift_up (suc i) offset b =
    let rest = shift_up i offset (poke (suc i) (b i) b) in if ltb offset (suc i) then rest else b

-- `for (i = first; i < len; i++) b[i] = b[i + 1];`
unfoldable pub shift_down : ℕ → ℕ → Bytes → Bytes
shift_down first len b = for_range (len - first) first (λ i u. poke i (u (i + 1)) u) b

unfoldable pub type_char : ℕ → AppState → AppState
type_char ch app =
    let o = app.code_text_offset in
    if o == app.code_len
    then record app {
      code_buffer = poke o ch app.code_buffer;
      text_buffer = poke (o + 1) (plain_color + b' ') (poke o (plain_color + ch) app.text_buffer);
      code_text_offset = o + 1;
      code_len = app.code_len + 1;
    }
    else record app {
      code_buffer = poke o ch (shift_up app.code_len o app.code_buffer);
      text_buffer = poke o (plain_color + ch) (shift_up app.code_len o app.text_buffer);
      code_text_offset = o + 1;
      code_len = app.code_len + 1;
    }

-- The cursor's offset, which the code counts down to -1 where it was 0, is `o - 1` below.
unfoldable pub backspace : AppState → AppState
backspace app =
    let o = app.code_text_offset in
    let len = app.code_len - 1 in
    let text = paint o plain_color app.text_buffer in
    let inner = record app {
      code_buffer = shift_down o len (poke len 0 app.code_buffer);
      text_buffer = shift_down o len (poke len 0 text);
    } in
    let last = record app {
      code_buffer = poke (o - 1) 0 app.code_buffer;
      text_buffer = poke (o - 1) 0 text;
    } in
    let done = if ltb o (len + 1) then inner else last in
    if ltb 0 app.code_len
    then record done {
      code_len = len;
      code_text_offset = o - 1;
      text_buffer = paint (o - 1) cursor_color done.text_buffer;
    }
    else app

-- 0x4b and 0x4d are the arrow keys. The test after the right arrow, `x & 0xFF00 == 0`, is `x & 0`.
unfoldable pub editor_mode : ℕ → AppState → AppState
editor_mode keycode app =
    let o = app.code_text_offset in
    let ch = keycode_to_ascii keycode app.shift_state in
    let left = o - 1 in
    let right = min app.code_len (o + 1) in
    let text = paint o plain_color app.text_buffer in
    if keycode == 0x4b
    then record app { code_text_offset = left; text_buffer = paint left cursor_color text }
    else if keycode == 0x4d
    then record app { code_text_offset = right; text_buffer = paint right cursor_color text }
    else if keycode == kc_backspace
    then backspace app
    else if keycode == kc_esc
    then record app {
      current_mode = command_line;
      text_buffer = poke (80 * 24) (prompt_color + b':') app.text_buffer;
    }
    else if (isalnum ch || (isvalidinput ch || ch == b' ')) && ltb app.code_len code_buffer_size
    then type_char ch app
    else app

-- `strncmp(command_buffer, word, 50) == 0`, for a word or its first letter.
abbrev pub is_command : Bytes → List ℕ → Bool
is_command b word = strncmp b (literal word) command_buffer_size ==ℤ pos 0

abbrev pub either_command : Bytes → List ℕ → List ℕ → Bool
either_command b word letter = is_command b word || is_command b letter

abbrev pub no_bytes : ℕ → Bytes → Bytes
no_bytes n b j = if ltb j n then 0 else b j

-- The Enter key. `prepare_for_exec` clears the screen through the kernel; `blank` is the screen then.
unfoldable pub enter_command : Bytes → AppState → AppState
enter_command blank app =
    let b = app.command_buffer in
    if either_command b (b'q' ∷ b'u' ∷ b'i' ∷ b't' ∷ []) (b'q' ∷ [])
    then record app { current_mode = exit }
    else if either_command b (b'n' ∷ b'e' ∷ b'w' ∷ []) (b'n' ∷ [])
    then record app {
      code_buffer = no_bytes code_buffer_size app.code_buffer;
      text_buffer = no_bytes (80 * 50) app.text_buffer;
      command_buffer = no_bytes command_buffer_size b;
      command_display_offset = 0;
      code_text_offset = 0;
      command_text_offset = 0;
      current_mode = editing;
    }
    else if either_command b (b'h' ∷ b'e' ∷ b'l' ∷ b'p' ∷ []) (b'h' ∷ [])
    then record app { current_mode = viewing_help }
    else if either_command b (b'r' ∷ b'u' ∷ b'n' ∷ []) (b'r' ∷ [])
    then record app {
      current_mode = running;
      text_buffer = blank;
      exec_data = init_exec_data app.code_buffer code_buffer_size app.exec_data;
    }
    else app

unfoldable pub command_mode : Bytes → ℕ → Bool → AppState → AppState
command_mode blank keycode shift_pressed app =
    let ch = keycode_to_ascii keycode shift_pressed in
    let o = app.command_text_offset in
    let d = app.command_display_offset in
    if keycode == kc_enter
    then enter_command blank app
    else if keycode == kc_backspace
    then (if ltb 0 o
        then record app {
          command_display_offset = d - 1;
          command_text_offset = o - 1;
          command_buffer = poke (o - 1) 0 app.command_buffer;
          text_buffer = poke (command_cell (d - 1)) prompt_color app.text_buffer;
        }
        else app)
    else if keycode == kc_tab
    then record app {
      current_mode = editing;
      text_buffer = poke (80 * 24) prompt_color app.text_buffer;
    }
    else if isalnum ch && ltb o command_buffer_size
    then record app {
      command_buffer = poke o ch app.command_buffer;
      text_buffer = poke (command_cell d) (prompt_color + ch) app.text_buffer;
      command_display_offset = d + 1;
      command_text_offset = o + 1;
    }
    else app
