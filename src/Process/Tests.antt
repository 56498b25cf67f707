-- ===== src/Process/Tests.antt =====
-- A ring of three processes, and one that is taken out.
use bitloader.Prelude.{
  Bool, List, [], arith, false, if◌then◌else◌, none, refl, some, true, ℕ, ◌*◌, ◌==◌, ◌∷◌, ◌≡◌, ◌≢◌,
}
use bitloader.Prelude.Run.{Run, fault, returns, ◌>>=◌}
use bitloader.Process.{
  Entries, ProcessEntry, Processes, create_process, get_process_by_id, process_running,
  remove_process, search_ring, search_to_null, unlink,
}
use bitloader.Process.Ring.{Ring}

abbrev no_processes : Processes
no_processes = record {
  entries = λ p. none;
  first_process = 0;
  current_process = 0;
  free_pid = 5;
  number_of_processes = 0;
}

abbrev in_ring : (id next prev : ℕ) → ProcessEntry
in_ring id next prev = record {
  id = id;
  state = process_running;
  esp = 0;
  stdout = 0;
  stdin = 0;
  stderr = 0;
  page_table = id * 10;
  wake_time = record { seconds = 0; millisecond = 0 };
  next = next;
  prev = prev;
}

-- Processes 5, 6 and 7 at 100, 200 and 300.
abbrev three_entries : Entries
three_entries p =
    if p == 100
    then some (in_ring 5 200 300)
    else if p == 200
    then some (in_ring 6 300 100)
    else if p == 300
    then some (in_ring 7 100 200)
    else none

abbrev three_processes : Processes
three_processes = record no_processes {
  entries = three_entries;
  first_process = 100;
  current_process = 100;
  number_of_processes = 3;
}

abbrev others : List (ℕ × ProcessEntry)
others = (200, in_ring 6 300 100) ∷ (300, in_ring 7 100 200) ∷ []

differ : (a b : ℕ) → (a == b) ≡ false → a ≢ b
differ a b h = ground arith

three-Ring : Ring three_entries 100 ((100, in_ring 5 200 300) ∷ others)
three-Ring = (refl, refl, differ 200 100 refl, (refl, refl, differ 300 100 refl, (refl, refl)))

-- A process is created, and taken out again: `first_process` still names its freed entry, which
-- the next look round the ring reads.
abbrev look_again : Processes → Run ℕ
look_again s = do
  made ← create_process 100 4 process_running 4096 0 0 0 0 s
  gone ← remove_process 2 5 made.1
  found ← get_process_by_id 2 5 gone
  returns gone.first_process

abbrev is_fault : Run ℕ → Bool
is_fault fault = true
is_fault r = false

last_removed : is_fault (look_again no_processes) ≡ true
unfolding create_process remove_process unlink search_ring get_process_by_id search_to_null
last_removed = refl

abbrev first_after : Processes → Run (ℕ × ℕ)
first_after s = do
  made ← create_process 100 4 process_running 4096 0 0 0 0 s
  gone ← remove_process 2 5 made.1
  returns (gone.first_process, gone.number_of_processes)

first_is_stale : first_after no_processes ≡ returns (100, 0)
unfolding create_process remove_process unlink search_ring
first_is_stale = refl
