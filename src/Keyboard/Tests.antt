-- ===== src/Keyboard/Tests.antt =====
-- Runs of the keyboard device, and its theorems at small tables.
use bitloader.Prelude.{
  [], arith, drop, if◌then◌else◌, length, none, refl, some, take, ℕ, ◌++◌, ◌==◌, ◌||◌, ◌∷◌, ◌≡◌,
}
use bitloader.Prelude.Run.{returns}
use bitloader.Keyboard.{
  Allocations, Keyboard, KeyboardFileData, decode, fresh_ring, keyboard_read, on_event, push_event,
}
use bitloader.Keyboard.Table.{TableOk, has}
use bitloader.Keyboard.Interrupt.{on_event-Pushed, push_ring}
use bitloader.Keyboard.Ring.{InRange, keyboard_read-pending, pending, push_event-pending}

-- 31 events from index 4 on, so a full ring.
abbrev full_ring : KeyboardFileData
full_ring = record fresh_ring { start = 4; end = 3 }

abbrev one_event : KeyboardFileData
one_event = record fresh_ring { start = 31; end = 0 }

-- Files at 100, 200 and 300.
abbrev three_files : Keyboard
three_files = record {
  rings = λ p. if p == 100 || (p == 200 || p == 300) then some fresh_ring else none;
  table_ptr = 50;
  table = 100 ∷ 200 ∷ 300 ∷ [];
  table_length = 3;
}

abbrev served : Allocations
served = record { file = 700; fd = 400; table = 60 }

three_files-TableOk : TableOk three_files
three_files-TableOk = record {
  counted = refl;
  distinct = (refl, (refl, (refl, tt)));
  live = ((fresh_ring, refl), ((fresh_ring, refl), ((fresh_ring, refl), tt)));
}

-- The key A pressed and released: scancodes 0x1e and 0x9e.
decodes :
    (decode 0x1e ≡ record { scancode = 0x1e; type = 1 })
    × (decode 0x9e ≡ record { scancode = 0x1e; type = 2 })
unfolding decode
decodes = (refl, refl)

full_ring_moves : ((push_event 0x1e full_ring).start ≡ 6) × ((push_event 0x1e full_ring).end ≡ 4)
unfolding push_event
full_ring_moves = (refl, refl)

push_event-pending_example :
    pending (push_event 0x1e full_ring) ≡ drop 2 (pending full_ring ++ (decode 0x1e ∷ []))
push_event-pending_example = push_event-pending 0x1e full_ring (omega arith)

keyboard_read-pending_example :
    let (n, events, fd') = keyboard_read 7 one_event in
    (n ≡ length events)
    × (events ≡ take 2 (pending one_event))
    × (pending fd' ≡ drop 2 (pending one_event))
    × InRange fd'
keyboard_read-pending_example = keyboard_read-pending 7 one_event (omega arith)

on_event-Pushed_example :
    (k' : Keyboard) × (on_event 0x1e three_files ≡ returns k')
    × TableOk k'
    × ((p : ℕ)
        → k'.rings p ≡ (
            if has p three_files.table
            then push_ring 0x1e (three_files.rings p)
            else three_files.rings p))
on_event-Pushed_example = on_event-Pushed 0x1e three_files three_files-TableOk
