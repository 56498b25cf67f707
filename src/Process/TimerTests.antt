-- ===== src/Process/TimerTests.antt =====
-- Runs of the timer's interrupt.
use bitloader.Prelude.{
  [], arith, false, if◌then◌else◌, none, refl, some, ℕ, ◌*◌, ◌+◌, ◌<◌, ◌==◌, ◌∷◌, ◌≡◌, ◌≤◌,
}
use bitloader.Prelude.Run.{returns}
use bitloader.Process.{ProcessEntry, Processes, Time, process_running, search_ring, store_entry}
use bitloader.Process.Timer.{irq0_timer_c, is_due, not_running, tick}
use bitloader.Process.Timer.Picks.{
  irq0_timer_c-first_running, not_running-frees_next, tick-total, total,
}

abbrev early : Time
early = record { seconds = 1; millisecond = 995 }

abbrev entry : (id state next prev : ℕ) → ProcessEntry
entry id state next prev = record {
  id = id;
  state = state;
  esp = id * 100;
  stdout = 0;
  stdin = 0;
  stderr = 0;
  page_table = id * 10;
  wake_time = record { seconds = 9; millisecond = 0 };
  next = next;
  prev = prev;
}

-- Processes 1, 2 and 3 at 100, 200 and 300; the states of the first two are given.
abbrev three : (first second : ℕ) → Processes
three first second = record {
  entries = λ p.
      if p == 100
      then some (entry 1 first 200 300)
      else if p == 200
      then some (entry 2 second 300 100)
      else if p == 300
      then some (entry 3 process_running 100 200)
      else none;
  first_process = 100;
  current_process = 100;
  free_pid = 4;
  number_of_processes = 3;
}

tick-total_example :
    (total (tick early) ≡ total early + 10)
    × (0 < (tick early).millisecond)
    × ((tick early).millisecond ≤ 1000)
tick-total_example = tick-total early (omega arith) (omega arith)

irq0_timer_c-first_running_example :
    irq0_timer_c 2 3 777 early (three 1 2)
    ≡ returns (
      tick early,
      (
        record (three 1 2) {
          entries =
              store_entry 100 (some (record (entry 1 1 200 300) { esp = 777 })) (three 1 2).entries;
          current_process = 300;
        },
        [],
      ),
    )
irq0_timer_c-first_running_example =
    irq0_timer_c-first_running (entry 2 2 300 100 ∷ []) 2 3 777 early (three 1 2)
      (entry 1 1 200 300) 300 (entry 3 process_running 100 200) refl
      ((refl, refl, refl), refl, refl) (omega arith)

search_3 : search_ring 3 (three 3 1).entries 100 100 2 ≡ returns (some 200)
unfolding search_ring
search_3 = refl

not_running-frees_next_example :
    (left : Processes) × (not_running 3 early (entry 1 3 200 300) (three 3 1) []
      ≡ returns (left, 20 ∷ []))
    × (left.entries 200 ≡ none)
not_running-frees_next_example =
    not_running-frees_next 3 early (entry 1 3 200 300) (entry 2 1 300 100) (entry 1 3 200 300)
      (entry 3 process_running 100 200) (three 3 1) [] refl refl refl refl search_3 refl refl

-- Seconds and milliseconds are compared one by one: at 10.005 a process that wakes at 9.500 is not
-- due.
not_due :
    is_due (record { seconds = 10; millisecond = 5 }) (record { seconds = 9; millisecond = 500 })
    ≡ false
not_due = refl

-- The milliseconds reach 1000 before a second is counted.
late_second : (tick (record { seconds = 0; millisecond = 990 })).seconds ≡ 0
unfolding tick
late_second = refl
