-- ===== src/Brainfuck/RunMode.antt =====
-- The mode of apps/brainfuck/main.c in which a program runs, and its status bar.
use bitloader.Prelude.{
  Bool, List, Option, [], bit_or, false, if◌then◌else◌, none, some, true, ℕ, ◌*◌, ◌+◌, ◌==◌, ◌^◌,
  ◌∷◌,
}
use bitloader.Strings.{Bytes, poke}
use bitloader.Input.{kc_esc, keycode_to_ascii}
use bitloader.Brainfuck.{
  CodeRunResult, cell, expect_input, forced_exit, invalid, memory_out_of_bounds, step_code, success,
  unfinished, unmatched_pair,
}
use bitloader.Brainfuck.Modes.{
  AppState, EditorMode, command_cell, running, running_finished, running_waiting_for_input,
}

-- What a step's result makes of the mode. `forced_exit` is not in the `switch`.
abbrev pub mode_after : CodeRunResult → EditorMode → EditorMode
mode_after unfinished m = running
mode_after expect_input m = running_waiting_for_input
mode_after success m = running_finished
mode_after memory_out_of_bounds m = running_finished
mode_after unmatched_pair m = running_finished
mode_after invalid m = running_finished
mode_after forced_exit m = m

-- The color and the text that the status bar shows for a result.
abbrev pub status_of : CodeRunResult → ℕ × List ℕ
status_of success = (
  2 * 16 + 15,
  b'F' ∷ b'i' ∷ b'n' ∷ b'i' ∷ b's' ∷ b'h' ∷ b'e' ∷ b'd' ∷ b'!' ∷ b' ' ∷ b'T' ∷ b'A' ∷ b'B' ∷ b' '
      ∷ b't' ∷ b'o' ∷ b' ' ∷ b'e' ∷ b'd' ∷ b'i' ∷ b't' ∷ b' ' ∷ b'c' ∷ b'o' ∷ b'd' ∷ b'e' ∷ [],
)
status_of memory_out_of_bounds = (
  4 * 16 + 15,
  b'P' ∷ b'o' ∷ b'i' ∷ b'n' ∷ b't' ∷ b'e' ∷ b'r' ∷ b' ' ∷ b'o' ∷ b'u' ∷ b't' ∷ b' ' ∷ b'o' ∷ b'f'
      ∷ b' ' ∷ b'b' ∷ b'o' ∷ b'u' ∷ b'n' ∷ b'd' ∷ b's' ∷ b'!' ∷ b' ' ∷ b'T' ∷ b'A' ∷ b'B' ∷ b' '
      ∷ b't' ∷ b'o' ∷ b' ' ∷ b'e' ∷ b'd' ∷ b'i' ∷ b't' ∷ b' ' ∷ b'c' ∷ b'o' ∷ b'd' ∷ b'e' ∷ [],
)
status_of unmatched_pair = (
  4 * 16 + 15,
  b'U' ∷ b'n' ∷ b'm' ∷ b'a' ∷ b't' ∷ b'c' ∷ b'h' ∷ b'e' ∷ b'd' ∷ b' ' ∷ b'b' ∷ b'r' ∷ b'a' ∷ b'c'
      ∷ b'k' ∷ b'e' ∷ b't' ∷ b's' ∷ b'!' ∷ b' ' ∷ b'T' ∷ b'A' ∷ b'B' ∷ b' ' ∷ b't' ∷ b'o' ∷ b' '
      ∷ b'e' ∷ b'd' ∷ b'i' ∷ b't' ∷ b' ' ∷ b'c' ∷ b'o' ∷ b'd' ∷ b'e' ∷ [],
)
status_of invalid = (
  14 * 16,
  b'I' ∷ b'n' ∷ b'v' ∷ b'a' ∷ b'l' ∷ b'i' ∷ b'd' ∷ b' ' ∷ b'a' ∷ b'p' ∷ b'p' ∷ b' ' ∷ b's' ∷ b'i'
      ∷ b't' ∷ b'u' ∷ b'a' ∷ b't' ∷ b'i' ∷ b'o' ∷ b'n' ∷ b' ' ∷ b'o' ∷ b'c' ∷ b'c' ∷ b'u' ∷ b'r'
      ∷ b'r' ∷ b'e' ∷ b'd' ∷ b'!' ∷ b' ' ∷ b'P' ∷ b'A' ∷ b'N' ∷ b'I' ∷ b'C' ∷ b'!' ∷ b' ' ∷ b'T'
      ∷ b'A' ∷ b'B' ∷ b' ' ∷ b't' ∷ b'o' ∷ b' ' ∷ b'e' ∷ b'd' ∷ b'i' ∷ b't' ∷ b' ' ∷ b'c' ∷ b'o'
      ∷ b'd' ∷ b'e' ∷ [],
)
status_of r = (0, [])

abbrev pub interrupted_text : List ℕ
interrupted_text =
    b'E' ∷ b'x' ∷ b'e' ∷ b'c' ∷ b'u' ∷ b't' ∷ b'i' ∷ b'o' ∷ b'n' ∷ b' ' ∷ b'i' ∷ b'n' ∷ b't' ∷ b'e'
    ∷ b'r' ∷ b'r' ∷ b'u' ∷ b'p' ∷ b't' ∷ b'e' ∷ b'd' ∷ b'!' ∷ b' ' ∷ b'T' ∷ b'A' ∷ b'B' ∷ b' '
    ∷ b't' ∷ b'o' ∷ b' ' ∷ b'e' ∷ b'd' ∷ b'i' ∷ b't' ∷ b' ' ∷ b'c' ∷ b'o' ∷ b'd' ∷ b'e' ∷ []

unfoldable pub write_text_to_status_bar : List ℕ → (color cell : ℕ) → Bytes → Bytes
write_text_to_status_bar [] color cell b = b
write_text_to_status_bar (c ∷ cs) color cell b =
    write_text_to_status_bar cs color (cell + 1) (poke cell (bit_or (color * 2 ^ 8) c) b)

abbrev pub is_running : EditorMode → Bool
is_running running = true
is_running running_waiting_for_input = true
is_running m = false

-- The state and the bytes that the program prints through the kernel. A key is given by its code
-- and the shift state.
unfoldable pub run_mode : Option (ℕ × Bool) → AppState → AppState × List ℕ
run_mode input app =
    let chr : Option ℕ = elim input [ none ↦ none | some k ↦ some (keycode_to_ascii k.0 k.1) ] in
    let esc : Bool = elim input [ none ↦ false | some k ↦ k.0 == kc_esc ] in
    let out = step_code app.exec_data chr in
    let status = status_of out.0 in
    let bar = λ (text : List ℕ) (color : ℕ).
      write_text_to_status_bar text color (command_cell 0) app.text_buffer in
    if is_running app.current_mode
    then (if esc
        then (
          record app {
            current_mode = running_finished;
            text_buffer = bar interrupted_text (14 * 16);
          },
          [],
        )
        else (
          record app {
            exec_data = out.1;
            current_mode = mode_after out.0 app.current_mode;
            text_buffer = bar status.1 status.0;
          },
          out.2,
        ))
    else (app, [])
