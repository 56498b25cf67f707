-- ===== src/Brainfuck/Tests.antt =====
-- The theorems on the interpreter at small programs.
use bitloader.Prelude.{
  List, [], ap, arith, false, get_or, if◌then◌else◌, length, none, refl, some, suc, zero, ℕ, ◌*◌,
  ◌+◌, ◌-◌, ◌<◌, ◌==◌, ◌||◌, ◌∙◌, ◌∷◌, ◌≡◌,
}
use bitloader.Prelude.Int.{pos}
use bitloader.Brainfuck.{
  CodeExecutionData, init_exec_data, step_char, step_code, success, unfinished,
}
use bitloader.Brainfuck.Program.{Plain, Program, Reads, end, text, then_char, then_loop}
use bitloader.Brainfuck.Runs.{
  Runs, Steps, Tape, a_key, at_end, loop_entered, loop_left, machine, no_key, one_char, put,
}
use bitloader.Brainfuck.Modes.{AppState, editing, editor_mode, enter_command, running}
use bitloader.Brainfuck.Editing.{EditOk, editor_mode-EditOk}
use bitloader.Strings.{strncmp, strncmp_loop}
use bitloader.Brainfuck.RunMode.{run_mode, write_text_to_status_bar}
use bitloader.Input.{kc_esc}
use bitloader.Brainfuck.Whole.{first_tape, step_code-Runs, step_code-unclosed}

abbrev nuls : ℕ → Program
nuls zero = end
nuls (suc n) = then_char 0 (nuls n)

abbrev code_of : Program → ℕ → ℕ
code_of p i = get_or (text p) i 0

nuls-Plain : (n : ℕ) → Plain (nuls n)
nuls-Plain zero = tt
nuls-Plain (suc n) =
    (omega arith, (λ e. absurd (omega (arith, e))), (λ e. absurd (omega (arith, e))), nuls-Plain n)

-- Read a number, and print it and all that follow down to 1.
abbrev countdown : Program
countdown = then_char b',' (then_loop (then_char b'.' (then_char b'-' end)) (nuls 125))

any_exec : CodeExecutionData
any_exec = record {
  memory = λ j. 7;
  mem_pos = 9;
  code = λ j. 0;
  code_len = 0;
  current_code_offset = pos 3;
}

Reads-at :
    (code : ℕ → ℕ) (o : ℕ) (xs : List ℕ)
    → ((i : ℕ) → i < length xs → code (o + i) ≡ get_or xs i 0)
    → Reads code o xs
Reads-at code o [] h = tt
Reads-at code o (x ∷ xs) h = (
  ap code (omega arith) ∙ h 0 (omega arith),
  Reads-at code (o + 1) xs (λ i lt. ap code (omega arith) ∙ h (suc i) (omega arith)),
)

code_of-Reads : (p : Program) → Reads (code_of p) 0 (text p)
code_of-Reads p = Reads-at (code_of p) 0 (text p) (λ i lt. ap (code_of p) (omega arith))

Plain-cons :
    (c : ℕ) (p : Program)
    → c < 128
    → ((c == b'[') || (c == b']')) ≡ false
    → Plain p
    → Plain (then_char c p)
Plain-cons c p small other plain = (small, ground arith, ground arith, plain)

countdown-Plain : Plain countdown
countdown-Plain =
    Plain-cons b',' (then_loop (then_char b'.' (then_char b'-' end)) (nuls 125)) (omega arith) refl
      (
        Plain-cons b'.' (then_char b'-' end) (omega arith) refl
            (Plain-cons b'-' end (omega arith) refl tt),
        nuls-Plain 125,
      )

nuls-Runs : (n : ℕ) (t : Tape) → Runs (nuls n) t [] [] t
nuls-Runs zero t = at_end
nuls-Runs (suc n) t = one_char no_key refl (nuls-Runs n t)

abbrev with_cell : ℕ → Tape
with_cell v = record (first_tape any_exec) {
  cells = λ j. if j == 0 then v else (first_tape any_exec).cells j;
}

abbrev after_two : Tape
after_two = put 0 (put 1 (put 2 (first_tape any_exec)))

countdown-Runs : Runs countdown (first_tape any_exec) (2 ∷ []) (2 ∷ 1 ∷ []) after_two
countdown-Runs = one_char {keys = []} a_key refl (
    loop_entered {outs = 2 ∷ []} (λ e. absurd (omega (arith, e)))
      (one_char no_key refl (one_char no_key refl at_end))
      (loop_entered {outs = 1 ∷ []} (λ e. absurd (omega (arith, e)))
        (one_char no_key refl (one_char no_key refl at_end))
        (loop_left refl (nuls-Runs 125 after_two))))

step_code-Runs_example :
    Steps
      (init_exec_data (code_of countdown) 130 any_exec)
      (2 ∷ [])
      (2 ∷ 1 ∷ [])
      (machine (code_of countdown) 130 130 after_two)
    × (step_code (machine (code_of countdown) 130 130 after_two) none
        ≡ (success, machine (code_of countdown) 130 130 after_two, []))
step_code-Runs_example =
    step_code-Runs countdown (code_of countdown) any_exec (2 ∷ []) (2 ∷ 1 ∷ []) after_two
      (omega arith) countdown-Plain (code_of-Reads countdown) countdown-Runs

abbrev behind_open : List ℕ → ℕ → ℕ
behind_open cs i = if i == 0 then b'[' else get_or cs (i - 1) 0

behind_open-get : (cs : List ℕ) (i : ℕ) → behind_open cs (1 + i) ≡ get_or cs i 0
behind_open-get cs i =
    let later : (1 + i == 0) ≡ false = ground arith in
    rw later (ap (λ j. get_or cs j 0) (omega arith))

abbrev unclosed : ℕ → ℕ
unclosed = behind_open (text (nuls 127))

unclosed-Reads : Reads unclosed 1 (text (nuls 127))
unclosed-Reads = Reads-at unclosed 1 (text (nuls 127)) (λ i lt. behind_open-get (text (nuls 127)) i)

step_code-unclosed_example :
    (step_code (machine unclosed 128 0 (first_tape any_exec)) none
      ≡ (unfinished, machine unclosed 128 129 (first_tape any_exec), []))
    × (step_code (machine unclosed 128 129 (first_tape any_exec)) none
        ≡ (success, machine unclosed 128 129 (first_tape any_exec), []))
step_code-unclosed_example =
    step_code-unclosed (nuls 127) unclosed 128 0 (first_tape any_exec) none (omega arith)
      (nuls-Plain 127) refl unclosed-Reads refl (omega arith) refl

-- `+]`: it never ends.
abbrev plus : Program
plus = then_char b'+' end

abbrev unopened : ℕ → ℕ
unopened i = if i == 0 then b'+' else if i == 1 then b']' else 0

-- `>` from the last cell is accepted, and the next `+` changes the pointer instead of a cell.
pointer_overrun :
    (step_code (machine (λ i. b'+') 512 0 (record { cells = λ j. 0; at = 300 })) none).1.mem_pos
    ≡ 301
unfolding step_code step_char
pointer_overrun = refl

-- The code `abcd` with the cursor at `c`.
abbrev editing_abcd : AppState
editing_abcd = record {
  current_mode = editing;
  code_buffer = λ i. get_or (b'a' ∷ b'b' ∷ b'c' ∷ b'd' ∷ []) i 0;
  command_buffer = λ i. 0;
  text_buffer = λ i. 0;
  code_len = 4;
  code_text_offset = 2;
  command_text_offset = 0;
  command_display_offset = 0;
  shift_state = false;
  exec_data = any_exec;
}

abcd-EditOk : EditOk editing_abcd
abcd-EditOk = record { cursor = omega arith; fits = omega arith }

editor_mode-EditOk_example : EditOk (editor_mode 0x0e editing_abcd)
editor_mode-EditOk_example = editor_mode-EditOk 0x0e editing_abcd abcd-EditOk

-- `new` forgets the code but not its length.
new_keeps_length :
    (enter_command
      (λ i. 0)
      (record editing_abcd { command_buffer = λ i. get_or (b'n' ∷ []) i 0 })).code_len
    ≡ 4
unfolding enter_command strncmp strncmp_loop
new_keeps_length = refl

-- The escape key stops a program that runs, and the status bar says so.
interrupted :
    ((run_mode
          (some (kc_esc, false))
          (record editing_abcd { current_mode = running })).0.text_buffer
        1921
      ≡ 224 * 256 + b'E')
    × ((run_mode (some (kc_esc, false)) editing_abcd).0.text_buffer 1921 ≡ 0)
unfolding run_mode write_text_to_status_bar
interrupted = (refl, refl)
