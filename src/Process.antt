-- ===== src/Process.antt =====
-- kernel/process.c: the ring of processes. An entry lies at an address; 0 is NULL.
pub mod Ring
pub mod Timer
mod Tests
mod TimerTests
use bitloader.Prelude.{
  Option, if◌then◌else◌, ltb, none, some, suc, zero, ℕ, ◌%◌, ◌*◌, ◌+◌, ◌/◌, ◌==◌, ◌^◌, ◌||◌,
}
use bitloader.Prelude.Run.{Run, fault, out_of_fuel, returns, ◌>>=◌}
use bitloader.Prelude.Words.{sub32}

abbrev pub process_terminated : ℕ
process_terminated = 0

abbrev pub process_running : ℕ
process_running = 1

abbrev pub process_suspended : ℕ
process_suspended = 2

abbrev pub process_sleeping : ℕ
process_sleeping = 3

-- `struct time`.
pub record Time : Type 0 where
  pub seconds : ℕ
  pub millisecond : ℕ

-- `struct process_entry`, with its process but for the name; the files are NULL or not.
pub record ProcessEntry : Type 0 where
  pub id : ℕ
  pub state : ℕ
  pub esp : ℕ
  pub stdout : ℕ
  pub stdin : ℕ
  pub stderr : ℕ
  pub page_table : ℕ
  pub wake_time : Time
  pub next : ℕ
  pub prev : ℕ

abbrev pub Entries : Type 0
Entries = ℕ → Option ProcessEntry

-- `first_process`, `current_process`, `free_pid` and `number_of_processes`, and the entries.
pub record Processes : Type 0 where
  pub entries : Entries
  pub first_process : ℕ
  pub current_process : ℕ
  pub free_pid : ℕ
  pub number_of_processes : ℕ

abbrev pub store_entry : ℕ → Option ProcessEntry → Entries → Entries
store_entry p e m q = if q == p then e else m q

abbrev pub set_next : ℕ → ℕ → Entries → Run Entries
set_next p v m = elim (m p) [
  | none ↦ fault
  | some e ↦ returns (store_entry p (some (record e { next = v })) m)
]

abbrev pub set_prev : ℕ → ℕ → Entries → Run Entries
set_prev p v m = elim (m p) [
  | none ↦ fault
  | some e ↦ returns (store_entry p (some (record e { prev = v })) m)
]

-- The loop of `remove_process` and `set_current_process`: once round the ring. Reading through NULL
-- or a freed entry is a fault.
unfoldable pub search_ring : ℕ → Entries → (first entry id : ℕ) → Run (Option ℕ)
search_ring zero m first entry id = out_of_fuel
search_ring (suc fuel) m first entry id = elim (m entry) [
  | none ↦ fault
  | some e ↦
      let rest = search_ring fuel m first e.next id in
      if e.id == id then returns (some entry) else if e.next == first then returns none else rest
]

-- The loop of `get_process_by_id`, which stops at NULL only.
unfoldable pub search_to_null : ℕ → Entries → (entry id : ℕ) → Run (Option ℕ)
search_to_null zero m entry id = out_of_fuel
search_to_null (suc fuel) m entry id = elim (m entry) [
  | none ↦ fault
  | some e ↦
      let rest = search_to_null fuel m e.next id in
      if e.id == id then returns (some entry) else if e.next == 0 then returns none else rest
]

unfoldable pub get_process_by_id : ℕ → ℕ → Processes → Run (Option ℕ)
get_process_by_id fuel id s = search_to_null fuel s.entries s.first_process id

unfoldable pub set_current_process : ℕ → ℕ → Processes → Run (Option ℕ × Processes)
set_current_process fuel id s = do
  found ← search_ring fuel s.entries s.first_process s.first_process id
  returns (elim found [ none ↦ (none, s) | some p ↦ (some p, record s { current_process = p }) ])

unfoldable pub get_next_process : Processes → Run (ℕ × Processes)
get_next_process s = elim (s.entries s.current_process) [
  | none ↦ fault
  | some e ↦ returns (e.next, record s { current_process = e.next })
]

-- The entry at `p` leaves the ring and is freed. Its files are closed through the virtual file
-- system. `first_process` moves on, also where the entry was the only one.
unfoldable pub unlink : ℕ → ProcessEntry → Processes → Run Processes
unlink p e s = do
  m1 ← set_next e.prev e.next s.entries
  m2 ← set_prev e.next e.prev m1
  returns (record s {
    entries = store_entry p none m2;
    first_process = if p == s.first_process then e.next else s.first_process;
    number_of_processes = sub32 s.number_of_processes 1;
  })

unfoldable pub remove_process : ℕ → ℕ → Processes → Run Processes
remove_process fuel id s = do
  found ← search_ring fuel s.entries s.first_process s.first_process id
  elim found [
    | none ↦ returns s
    | some p ↦ elim (s.entries p) [ none ↦ fault | some e ↦ unlink p e s ]
  ]

-- sizeof(struct registers) and sizeof(struct interrupt_frame); the stack pointer is a multiple of 16.
abbrev pub first_esp : ℕ → ℕ
first_esp stack_base = sub32 (sub32 stack_base 32) 36 / 16 * 16

-- `entry` is what `malloc` gives, or NULL, and `name_length` the length of the name. The process is
-- the pointer returned, NULL on failure. What is put on its stack is not modelled.
unfoldable pub create_process :
    (entry name_length start_state stack_base table stdout stdin stderr : ℕ)
    → Processes
    → Run (ℕ × Processes)
create_process entry name_length start_state stack_base table stdout stdin stderr s =
    let alone = s.first_process == 0 in
    let prev : Run ℕ =
      if alone
      then returns entry
      else elim (s.entries s.first_process) [ none ↦ fault | some f ↦ returns f.prev ] in
    let next = if alone then entry else s.first_process in
    if ltb 63 name_length || name_length == 0
    then returns (0, s)
    else if entry == 0
    then returns (0, s)
    else do
      prev_entry ← prev
      let made : ProcessEntry = record {
        id = s.free_pid;
        state = start_state;
        esp = first_esp stack_base;
        stdout = stdout;
        stdin = stdin;
        stderr = stderr;
        page_table = table;
        wake_time = record { seconds = 0; millisecond = 0 };
        next = next;
        prev = prev_entry;
      }
      m1 ← set_prev next entry (store_entry entry (some made) s.entries)
      m2 ← set_next prev_entry entry m1
      returns (
        entry,
        record s {
          entries = m2;
          first_process = if alone then entry else s.first_process;
          free_pid = (s.free_pid + 1) % 2 ^ 32;
          number_of_processes = (s.number_of_processes + 1) % 2 ^ 32;
        },
      )
