-- ===== src/Brainfuck.antt =====
-- apps/brainfuck/main.c: the interpreter's data and its step function.
pub mod Program
pub mod Runs
pub mod Loops
pub mod Whole
pub mod Modes
pub mod Editing
pub mod RunMode
mod Tests
use bitloader.Prelude.{
  List, Option, [], if◌then◌else◌, leb, ltb, none, some, suc, zero, ℕ, ◌%◌, ◌&&◌, ◌*◌, ◌+◌, ◌-◌,
  ◌/◌, ◌==◌, ◌∷◌,
}
use bitloader.Prelude.Int.{negsuc, pos, ℤ}
use bitloader.Prelude.Words.{add32, add8, sub32, sub8}

pub data CodeRunResult : Type 0 where
  unfinished : CodeRunResult
  success : CodeRunResult
  memory_out_of_bounds : CodeRunResult
  unmatched_pair : CodeRunResult
  forced_exit : CodeRunResult
  invalid : CodeRunResult
  expect_input : CodeRunResult

-- sizeof(data->memory)
abbrev pub memory_size : ℕ
memory_size = 300

-- The memory and the code are bytes at an index.
pub record CodeExecutionData : Type 0 where
  pub memory : ℕ → ℕ
  pub mem_pos : ℕ
  pub code : ℕ → ℕ
  pub code_len : ℕ
  pub current_code_offset : ℤ

-- `mem_pos` lies right behind `memory`: index 300 is its lowest byte. No other index past the end
-- gets through the test of `step_code`.
abbrev pub cell : CodeExecutionData → ℕ
cell d = if d.mem_pos == memory_size then d.mem_pos % 256 else d.memory d.mem_pos

abbrev pub set_cell : ℕ → CodeExecutionData → CodeExecutionData
set_cell v d =
    if d.mem_pos == memory_size
    then record d { mem_pos = d.mem_pos / 256 * 256 + v }
    else record d { memory = λ j. if j == d.mem_pos then v else d.memory j }

pub init_exec_data : (ℕ → ℕ) → ℕ → CodeExecutionData → CodeExecutionData
init_exec_data code code_len exec = record {
  memory = λ j. if ltb j memory_size then 0 else exec.memory j;
  mem_pos = 0;
  code = code;
  code_len = code_len;
  current_code_offset = pos 0;
}

-- Where the search for a bracket ends: at an offset, or with an error at one.
pub data Scan : Type 0 where
  stopped_at : ℤ → Scan
  unmatched_at : ℤ → Scan

-- `left` characters are left up to `code_len`. The code compares a character, not its offset,
-- with `code_len`; a byte from 128 on is a negative `char`.
unfoldable pub scan_forward : (code : ℕ → ℕ) (code_len left offset counter : ℕ) → Scan
scan_forward code code_len zero offset counter = stopped_at (pos offset)
scan_forward code code_len (suc left) offset counter =
    let c = code offset in
    let depth = if c == b'[' then counter + 1 else if c == b']' then counter - 1 else counter in
    let rest = scan_forward code code_len left (offset + 1) depth in
    if c == b']' && counter == 0
    then stopped_at (pos offset)
    else if ltb c 128 && leb code_len c
    then unmatched_at (pos offset)
    else rest

-- The search to the left, at the offset below its first number. It compares a character with 0.
unfoldable pub scan_back : (code : ℕ → ℕ) (above counter : ℕ) → Scan
scan_back code zero counter = stopped_at (negsuc 0)
scan_back code (suc offset) counter =
    let c = code offset in
    let depth = if c == b']' then counter + 1 else if c == b'[' then counter - 1 else counter in
    let rest = scan_back code offset depth in
    if c == b'[' && counter == 0
    then stopped_at (pos offset)
    else if leb 128 c
    then unmatched_at (pos offset)
    else rest

-- `current_code_offset++`
abbrev pub next_offset : ℤ → ℤ
next_offset (pos n) = pos (n + 1)
next_offset (negsuc zero) = pos 0
next_offset (negsuc (suc n)) = negsuc n

abbrev pub StepOutcome : Type 0
StepOutcome = CodeRunResult × CodeExecutionData × List ℕ

abbrev pub advance : CodeExecutionData → List ℕ → StepOutcome
advance d printed =
    (unfinished, record d { current_code_offset = next_offset d.current_code_offset }, printed)

abbrev pub jump : CodeExecutionData → Scan → StepOutcome
jump d (stopped_at z) = advance (record d { current_code_offset = z }) []
jump d (unmatched_at z) = (unmatched_pair, record d { current_code_offset = z }, [])

-- The `switch` over the character at offset `n`.
unfoldable pub step_char : ℕ → ℕ → Option ℕ → CodeExecutionData → StepOutcome
step_char n c input d =
    if c == b'+'
    then advance (set_cell (add8 (cell d) 1) d) []
    else if c == b'-'
    then advance (set_cell (sub8 (cell d) 1) d) []
    else if c == b'>'
    then advance (record d { mem_pos = add32 d.mem_pos 1 }) []
    else if c == b'<'
    then advance (record d { mem_pos = sub32 d.mem_pos 1 }) []
    else if c == b'.'
    then advance d (cell d ∷ [])
    else if c == b','
    then elim input [ none ↦ (expect_input, d, []) | some v ↦ advance (set_cell v d) [] ]
    else if c == b'['
    then (if cell d == 0
        then jump d (scan_forward d.code d.code_len (d.code_len - (n + 1)) (n + 1) 0)
        else advance d [])
    else if c == b']'
    then (if cell d == 0 then advance d [] else jump d (scan_back d.code n 0))
    else advance d []

-- One step, the data after it and what it prints; `input` is the key's character, if there is one.
unfoldable pub step_code : CodeExecutionData → Option ℕ → StepOutcome
step_code d input = elim d.current_code_offset [
  | negsuc k ↦ (unmatched_pair, d, [])
  | pos n ↦
      if leb d.code_len n
      then (success, d, [])
      else if ltb memory_size d.mem_pos
      then (memory_out_of_bounds, d, [])
      else step_char n (d.code n) input d
]
