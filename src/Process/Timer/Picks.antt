-- ===== src/Process/Timer/Picks.antt =====
-- Which process the timer's interrupt of kernel/interrupts/irq_handlers.c picks.
use bitloader.Prelude.{
  Bool-cases, List, [], ap, arith, false, if◌then◌else◌, inl, inr, length, ltb, none, refl, some,
  suc, true, zero, ℕ, ◌*◌, ◌+◌, ◌<◌, ◌==◌, ◌^◌, ◌∙◌, ◌∷◌, ◌≡◌, ◌≤◌,
}
use bitloader.Prelude.Run.{out_of_fuel, returns, ◌>>=◌}
use bitloader.Prelude.Words.{add32, sub32}
use bitloader.Process.{
  Entries, ProcessEntry, Processes, Time, get_next_process, process_running, process_sleeping,
  process_suspended, remove_process, search_ring, set_next, set_prev, store_entry, unlink,
}
use bitloader.Process.Timer.{irq0_timer_c, is_due, not_running, reap, schedule, tick}

abbrev pub total : Time → ℕ
total time = time.seconds * 1000 + time.millisecond

-- A tick adds ten milliseconds to the time, and leaves the milliseconds from 1 to 1000, while the
-- seconds do not overflow.
pub tick-total :
    (time : Time)
    → time.millisecond ≤ 1000
    → time.seconds + 1 < 2 ^ 32
    → (total (tick time) ≡ total time + 10)
      × (0 < (tick time).millisecond)
      × ((tick time).millisecond ≤ 1000)
unfolding tick
tick-total time small room =
    let sum : add32 time.millisecond 10 ≡ time.millisecond + 10 = omega arith in
    let next : add32 time.seconds 1 ≡ time.seconds + 1 = omega arith in
    elim (Bool-cases (ltb 1000 (time.millisecond + 10))) [
      | inl over ↦ rw sum (rw over (rw next (ground arith, ground arith, ground arith)))
      | inr under ↦ rw sum (rw under (ground arith, ground arith, ground arith))
    ]

next_lem :
    (s : Processes) (e : ProcessEntry)
    → s.entries s.current_process ≡ some e
    → get_next_process s ≡ returns (e.next, record s { current_process = e.next })
unfolding get_next_process
next_lem s e here = rw (here, get_next_process) refl

-- Suspended processes, from `p` to `q`.
abbrev pub Suspended : Entries → ℕ → List ProcessEntry → ℕ → Type 0
Suspended m p [] q = p ≡ q
Suspended m p (e ∷ es) q = (m p ≡ some e) × (e.state ≡ process_suspended) × Suspended m e.next es q

suspended_step :
    (fuel : ℕ) (time : Time) (e : ProcessEntry) (s : Processes) (freed : List ℕ)
    → e.state ≡ process_suspended
    → s.entries s.current_process ≡ some e
    → not_running fuel time e s freed ≡ returns (record s { current_process = e.next }, freed)
unfolding not_running
suspended_step fuel time e s freed suspended here = rw suspended (rw (next_lem s e here) refl)

schedule-first_running :
    (es : List ProcessEntry) (rounds fuel : ℕ) (time : Time) (s : Processes) (freed : List ℕ)
    (q : ℕ) (r : ProcessEntry)
    → Suspended s.entries s.current_process es q
    → s.entries q ≡ some r
    → r.state ≡ process_running
    → length es < rounds
    → schedule rounds fuel time (s, freed) ≡ returns (record s { current_process = q }, freed)
unfolding schedule
schedule-first_running es zero fuel time s freed q r path there runs enough = absurd (omega arith)
schedule-first_running [] (suc rounds) fuel time s freed q r path there runs enough =
    let here : s.entries s.current_process ≡ some r = ap s.entries path ∙ there in
    let state : (r.state == process_running) ≡ true = rw runs refl in
    rw (here, schedule)
      (rw state (ap (λ p. returns (record s { current_process = p }, freed)) path))
schedule-first_running (e ∷ es) (suc rounds) fuel time s freed q r path there runs enough =
    let here = path.0 in
    let state : (e.state == process_running) ≡ false = rw path.1 refl in
    let step = suspended_step fuel time e s freed path.1 here in
    rw (here, schedule)
      (rw state (
        ap (λ x. x >>= schedule rounds fuel time) step
        ∙ schedule-first_running es rounds fuel time (record s { current_process = e.next }) freed q
            r path.2 there runs (omega arith)))

-- The timer's interrupt saves the stack pointer of the current process, passes over the suspended
-- processes that follow in the ring, and goes on with the first running one; it changes nothing else
-- and frees nothing. The loop has one round for each process that is passed over, and one more.
pub irq0_timer_c-first_running :
    (es : List ProcessEntry) (rounds fuel esp : ℕ) (time : Time) (s : Processes) (e : ProcessEntry)
    (q : ℕ) (r : ProcessEntry)
    → s.entries s.current_process ≡ some e
    → (let saved = store_entry s.current_process (some (record e { esp = esp })) s.entries in
        Suspended saved e.next es q × (saved q ≡ some r) × (r.state ≡ process_running))
    → length es < rounds
    → irq0_timer_c rounds fuel esp time s
      ≡ returns (
        tick time,
        (
          record s {
            entries = store_entry s.current_process (some (record e { esp = esp })) s.entries;
            current_process = q;
          },
          [],
        ),
      )
unfolding irq0_timer_c
irq0_timer_c-first_running es rounds fuel esp time s e q r here found enough =
    let m = store_entry s.current_process (some (record e { esp = esp })) s.entries in
    let saved : Processes = record s { entries = m } in
    let self : (s.current_process == s.current_process) ≡ true = ground arith in
    let at : m s.current_process ≡ some (record e { esp = esp }) = rw self refl in
    let next = next_lem saved (record e { esp = esp }) at in
    let ran =
      schedule-first_running es rounds fuel (tick time) (record saved { current_process = e.next })
        [] q r found.0 found.1 found.2 enough in
    rw (here, irq0_timer_c) (rw next (rw ran refl))

-- Where every process is suspended, the interrupt never ends.
schedule-endless :
    (rounds fuel : ℕ) (time : Time) (s : Processes) (freed : List ℕ)
    → ((p : ℕ) (e : ProcessEntry)
        → s.entries p ≡ some e
        → (e.state ≡ process_suspended) × (f : ProcessEntry) × (s.entries e.next ≡ some f))
    → (e : ProcessEntry) → s.entries s.current_process ≡ some e
    → schedule rounds fuel time (s, freed) ≡ out_of_fuel
unfolding schedule
schedule-endless zero fuel time s freed all e here = refl
schedule-endless (suc rounds) fuel time s freed all e here =
    let (suspended, f, next) = all s.current_process e here in
    let state : (e.state == process_running) ≡ false = rw suspended refl in
    let step = suspended_step fuel time e s freed suspended here in
    rw (here, schedule)
      (rw state (
        ap (λ x. x >>= schedule rounds fuel time) step
        ∙ schedule-endless rounds fuel time (record s { current_process = e.next }) freed all f
            next))

set_next_lem :
    (p v : ℕ) (m : Entries) (e : ProcessEntry)
    → m p ≡ some e
    → set_next p v m ≡ returns (store_entry p (some (record e { next = v })) m)
set_next_lem p v m e here = rw (here, set_next) refl

set_prev_lem :
    (p v : ℕ) (m : Entries) (e : ProcessEntry)
    → m p ≡ some e
    → set_prev p v m ≡ returns (store_entry p (some (record e { prev = v })) m)
set_prev_lem p v m e here = rw (here, set_prev) refl

-- What follows an entry that is taken out, after its predecessor is linked past it.
next_of : (f a b : ProcessEntry) → ProcessEntry
next_of f a b = if f.next == f.prev then record a { next = f.next } else b

next_there :
    (f a b : ProcessEntry) (m : Entries)
    → m f.next ≡ some b
    → store_entry f.prev (some (record a { next = f.next })) m f.next ≡ some (next_of f a b)
unfolding next_of
next_there f a b m after = elim (Bool-cases (f.next == f.prev)) [
  | inl same ↦ rw same refl
  | inr other ↦ rw other after
]

unlink-gone :
    (p : ℕ) (f a b : ProcessEntry) (s : Processes)
    → s.entries f.prev ≡ some a
    → s.entries f.next ≡ some b
    → (left : Processes) × (unlink p f s ≡ returns left) × (left.entries p ≡ none)
unfolding unlink
unlink-gone p f a b s before after =
    let m1 = store_entry f.prev (some (record a { next = f.next })) s.entries in
    let m2 = store_entry f.next (some (record (next_of f a b) { prev = f.prev })) m1 in
    let self : (p == p) ≡ true = ground arith in
    let left : Processes = record s {
      entries = store_entry p none m2;
      first_process = if p == s.first_process then f.next else s.first_process;
      number_of_processes = sub32 s.number_of_processes 1;
    } in
    (
      left,
      rw (set_next_lem f.prev f.next s.entries a before) (
          rw (set_prev_lem f.next f.prev m1 (next_of f a b) (next_there f a b s.entries after))
            refl),
      rw self refl,
    )

-- Where a sleeping process is not due yet, the process after it in the ring is thrown out, whatever
-- its state: its page tables are freed, and its entry too. Its identifier is its own in the ring.
pub not_running-frees_next :
    (fuel : ℕ) (time : Time) (e f a b : ProcessEntry) (s : Processes) (freed : List ℕ)
    → s.entries s.current_process ≡ some e
    → e.state ≡ process_sleeping
    → is_due time e.wake_time ≡ false
    → s.entries e.next ≡ some f
    → search_ring fuel s.entries s.first_process s.first_process f.id ≡ returns (some e.next)
    → s.entries f.prev ≡ some a
    → s.entries f.next ≡ some b
    → (left : Processes) × (not_running fuel time e s freed ≡ returns (left, f.page_table ∷ freed))
      × (left.entries e.next ≡ none)
unfolding not_running reap remove_process
not_running-frees_next fuel time e f a b s freed here sleeps early there own before after =
    let s1 : Processes = record s { current_process = e.next } in
    let s2 : Processes = record s { current_process = f.next } in
    let (left, unlinked, gone) = unlink-gone e.next f a b s2 before after in
    (
      left,
      rw sleeps (
          rw early (
            rw (next_lem s e here) (
              rw (there, reap) (rw (next_lem s1 f there) (rw own (rw there (rw unlinked refl))))))),
      gone,
    )
