-- ===== src/Brainfuck/Whole.antt =====
-- Whole programs on the interpreter of apps/brainfuck/main.c, with matched brackets and without.
use bitloader.Prelude.{
  List, Option, [], arith, false, if◌then◌else◌, leb, length, ltb, none, refl, true, ℕ, ◌+◌, ◌-◌,
  ◌<◌, ◌==◌, ◌∙◌, ◌≡◌, ◌≢◌, ◌≤◌,
}
use bitloader.Prelude.Int.{negsuc, pos}
use bitloader.Brainfuck.{
  CodeExecutionData, init_exec_data, memory_size, scan_back, scan_forward, step_char, step_code,
  stopped_at, success, unfinished,
}
use bitloader.Brainfuck.Program.{
  Plain, Program, Reads, back_end, forward_end, scan_back-text, scan_forward-text, text,
}
use bitloader.Brainfuck.Runs.{Runs, Steps, Tape, machine}
use bitloader.Brainfuck.Loops.{Steps-to, text-Done}

-- The tape that `init_exec_data` prepares.
abbrev pub first_tape : CodeExecutionData → Tape
first_tape exec = record { cells = λ j. if ltb j memory_size then 0 else exec.memory j; at = 0 }

-- A program with matched brackets is run as its meaning says: from `init_exec_data`, where the
-- text fills the code, `step_code` makes steps that are all to be continued, take the keys and
-- print the bytes of the program's run, and come to its last cells and pointer; one more step
-- then answers success. The code has at least 128 characters, as the editor's buffer does, and the
-- run keeps the pointer inside the 300 cells.
pub step_code-Runs :
    (p : Program) (code : ℕ → ℕ) (exec : CodeExecutionData) (keys outs : List ℕ) (t : Tape)
    → 128 ≤ length (text p)
    → Plain p
    → Reads code 0 (text p)
    → Runs p (first_tape exec) keys outs t
    → Steps
        (init_exec_data code (length (text p)) exec)
        keys
        outs
        (machine code (length (text p)) (length (text p)) t)
      × (step_code (machine code (length (text p)) (length (text p)) t) none
          ≡ (success, machine code (length (text p)) (length (text p)) t, []))
unfolding init_exec_data step_code
step_code-Runs p code exec keys outs t big plain reads runs =
    let n = length (text p) in
    let d =
      text-Done code n big p 0 (first_tape exec) keys outs t runs plain reads (omega arith)
        (omega arith) in
    let ends : leb n n ≡ true = ground arith in
    (Steps-to code n (0 + n) n (omega arith) d.steps, rw ends refl)

-- A loop that is never closed is not reported: where its cell is 0, the step over its opening
-- bracket goes on behind the end of the code, and the next step answers success.
pub step_code-unclosed :
    (p : Program) (code : ℕ → ℕ) (code_len o : ℕ) (t : Tape) (input : Option ℕ)
    → 128 ≤ code_len
    → Plain p
    → code o ≡ b'['
    → Reads code (o + 1) (text p)
    → o + 1 + length (text p) ≡ code_len
    → t.at < memory_size
    → t.cells t.at ≡ 0
    → (step_code (machine code code_len o t) input
        ≡ (unfinished, machine code code_len (code_len + 1) t, []))
      × (step_code (machine code code_len (code_len + 1) t) input
          ≡ (success, machine code code_len (code_len + 1) t, []))
unfolding step_code step_char
step_code-unclosed p code code_len o t input big plain opens reads ends room h =
    let in_code : leb code_len o ≡ false = ground arith in
    let in_cells : ltb memory_size t.at ≡ false = ground arith in
    let off : (t.at == memory_size) ≡ false = ground arith in
    let past : leb code_len (code_len + 1) ≡ true = ground arith in
    let scan : scan_forward code code_len (code_len - (o + 1)) (o + 1) 0
        ≡ stopped_at (pos code_len) =
      scan_forward-text code code_len big (code_len - (o + 1)) 0 (o + 1) code_len 0 p plain reads
        (omega arith) (omega arith)
      ∙ forward_end code code_len big code_len in
    (rw in_code (rw in_cells (rw opens (rw off (rw h (rw scan refl))))), rw past refl)

-- A loop that is never opened is not reported: where its cell is not 0, the step over its closing
-- bracket starts the program again at its first character.
step_code-unopened :
    (p : Program) (code : ℕ → ℕ) (code_len o : ℕ) (t : Tape) (input : Option ℕ)
    → Plain p
    → Reads code 0 (text p)
    → o ≡ length (text p)
    → code o ≡ b']'
    → o < code_len
    → t.at < memory_size
    → t.cells t.at ≢ 0
    → step_code (machine code code_len o t) input ≡ (unfinished, machine code code_len 0 t, [])
unfolding step_code step_char
step_code-unopened p code code_len o t input plain reads size closes inside room h =
    let in_code : leb code_len o ≡ false = ground arith in
    let in_cells : ltb memory_size t.at ≡ false = ground arith in
    let off : (t.at == memory_size) ≡ false = ground arith in
    let full : (t.cells t.at == 0) ≡ false = ground arith in
    let scan : scan_back code o 0 ≡ stopped_at (negsuc 0) =
      scan_back-text code 0 o 0 p plain reads (omega arith) ∙ back_end code in
    rw in_code (rw in_cells (rw closes (rw off (rw full (rw scan refl)))))
