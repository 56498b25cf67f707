-- ===== src/Process/Timer.antt =====
-- kernel/interrupts/irq_handlers.c: the timer's interrupt, which counts the time and picks the next
-- process. The rest of it is the interrupt controller's.
pub mod Picks
use bitloader.Prelude.{
  Bool, List, [], if◌then◌else◌, leb, ltb, none, some, suc, zero, ℕ, ◌&&◌, ◌-◌, ◌==◌, ◌∷◌,
}
use bitloader.Prelude.Run.{Run, fault, out_of_fuel, returns, ◌>>=◌}
use bitloader.Prelude.Words.{add32}
use bitloader.Process.{
  ProcessEntry, Processes, Time, get_next_process, process_running, process_sleeping,
  process_terminated, remove_process, store_entry,
}

-- Ten milliseconds more. A second is counted after its 1000th millisecond.
unfoldable pub tick : Time → Time
tick time =
    let millisecond = add32 time.millisecond 10 in
    if ltb 1000 millisecond
    then record { seconds = add32 time.seconds 1; millisecond = millisecond - 1000 }
    else record { seconds = time.seconds; millisecond = millisecond }

-- Seconds and milliseconds are compared each on its own.
abbrev pub is_due : Time → Time → Bool
is_due time wake_time =
    leb wake_time.seconds time.seconds && leb wake_time.millisecond time.millisecond

-- The processes, and the page tables that were freed. The process that the loop looks at is the
-- current one.
abbrev pub Scheduled : Type 0
Scheduled = Processes × List ℕ

abbrev pub set_state : ℕ → ProcessEntry → Processes → Processes
set_state state e s = record s {
  entries = store_entry s.current_process (some (record e { state = state })) s.entries;
}

-- The case of a terminated process.
unfoldable pub reap : ℕ → Processes → List ℕ → Run Scheduled
reap fuel s freed = elim (s.entries s.current_process) [
  | none ↦ fault
  | some e ↦ do
    next ← get_next_process s
    left ← remove_process fuel e.id next.1
    returns (left, e.page_table ∷ freed)
]

-- One round, for a process that is not running. A sleeping one that is not due is passed over, and
-- the case of a terminated one follows, for the process after it.
unfoldable pub not_running : ℕ → Time → ProcessEntry → Processes → List ℕ → Run Scheduled
not_running fuel time e s freed =
    if e.state == process_sleeping
    then (if is_due time e.wake_time
        then returns (set_state process_running e s, freed)
        else get_next_process s >>= λ next. reap fuel next.1 freed)
    else if e.state == process_terminated
    then reap fuel s freed
    else get_next_process s >>= λ next. returns (next.1, freed)

-- `rounds` of the loop, and `fuel` for each search of the ring.
unfoldable pub schedule : (rounds fuel : ℕ) → Time → Scheduled → Run Scheduled
schedule zero fuel time (s, freed) = out_of_fuel
schedule (suc rounds) fuel time (s, freed) =
    let again = schedule rounds fuel time in
    elim (s.entries s.current_process) [
      | none ↦ fault
      | some e ↦
          if e.state == process_running
          then returns (s, freed)
          else not_running fuel time e s freed >>= again
    ]

-- The stack pointer to go on with is the current process's, after the call.
unfoldable pub irq0_timer_c : (rounds fuel esp : ℕ) → Time → Processes → Run (Time × Scheduled)
irq0_timer_c rounds fuel esp time s =
    let now = tick time in
    elim (s.entries s.current_process) [
      | none ↦ fault
      | some e ↦ do
        let saved : Processes = record s {
          entries = store_entry s.current_process (some (record e { esp = esp })) s.entries;
        }
        next ← get_next_process saved
        done ← schedule rounds fuel now (next.1, [])
        returns (now, done)
    ]
