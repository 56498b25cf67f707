-- ===== src/Keyboard/Open.antt =====
-- `keyboard_open` of kernel/keyboard/keyboard.c.
use bitloader.Prelude.{[], arith, false, none, refl, some, ℕ, ◌++◌, ◌+◌, ◌∷◌, ◌≡◌, ◌≢◌}
use bitloader.Prelude.Run.{fault}
use bitloader.Keyboard.{Allocations, Keyboard, fresh_ring, keyboard_open, null, on_event, set_ring}
use bitloader.Keyboard.Table.{AllLive-without, TableOk, has}
use bitloader.Keyboard.Interrupt.{on_event_loop-past}

-- The state that a successful `keyboard_open` leaves.
abbrev opened : Allocations → Keyboard → Keyboard
opened a k = record (set_ring a.fd (some fresh_ring) k) {
  table_ptr = a.table;
  table = k.table ++ (a.fd ∷ []);
  table_length = k.table_length + 1;
}

abbrev uncounted : Allocations → Keyboard → Keyboard
uncounted a k = record (set_ring a.fd none k) { table_length = k.table_length + 1 }

keyboard_open-uncounted :
    (a : Allocations) (k : Keyboard)
    → k.table_length ≢ 0
    → a.file ≢ null
    → a.fd ≢ null
    → a.table ≡ null
    → keyboard_open a k ≡ (null, uncounted a k)
unfolding keyboard_open
keyboard_open-uncounted a k some_open file fd table = ground arith

-- Where only the `realloc` of the table fails, `keyboard_open` returns NULL and leaves the table
-- counted one too long: the next interrupt reads past its end.
keyboard_open-no_table :
    (scancode : ℕ) (a : Allocations) (k : Keyboard)
    → TableOk k
    → k.table_length ≢ 0
    → a.file ≢ null
    → a.fd ≢ null
    → a.table ≡ null
    → has a.fd k.table ≡ false
    → let (file, k') = keyboard_open a k in (file ≡ null) × (on_event scancode k' ≡ fault)
unfolding on_event
keyboard_open-no_table scancode a k ok some_open file fd table new =
    rw (keyboard_open-uncounted a k some_open file fd table) (
      refl,
      on_event_loop-past scancode [] k.table (uncounted a k) (k.table_length + 1)
          (omega (arith, ok.counted)) refl
          (AllLive-without k.rings (uncounted a k).rings a.fd k.table (λ q. refl) new ok.live),
    )
