-- ===== src/Input/GetLine.antt =====
-- `get_line` of kernel/keyboard/input.c, as a loop over the keyboard's events.
use bitloader.Prelude.{
  Bool, List, Option, [], false, if◌then◌else◌, leb, ltb, none, some, true, ℕ, ◌++◌, ◌+◌, ◌-◌, ◌==◌,
  ◌||◌, ◌∷◌,
}
use bitloader.Prelude.Run.{Run, fault, out_of_fuel, returns, ◌>>=◌}
use bitloader.Keyboard.{KeyboardEvent, key_pressed, key_released}
use bitloader.Input.{
  kc_backspace, kc_left_shift, kc_right_shift, keycode_to_ascii, scancode_to_keycode,
}

-- The variables of `get_line`, the bytes that `buffer` has room for, and what went to `printchar`.
pub record LineState : Type 0 where
  pub buffer : ℕ → ℕ
  pub capacity : ℕ
  pub i : ℕ
  pub shifted : Bool
  pub printed : List ℕ

abbrev pub buffer_size : ℕ
buffer_size = 32

abbrev pub store : ℕ → ℕ → LineState → LineState
store i v s = record s { buffer = λ j. if j == i then v else s.buffer j }

-- What one event leads to: the loop goes on, or the buffer is returned.
pub data LineStep : Type 0 where
  goes_on : LineState → LineStep
  returned : LineState → LineStep

-- A store at index `i`, which is a fault at the end of the allocation.
abbrev pub with_room : LineState → LineStep → Run LineStep
with_room s next = if ltb s.i s.capacity then returns next else fault

abbrev pub held_shift : KeyboardEvent → ℕ → Bool → Bool
held_shift event kc shifted =
    if kc == kc_left_shift || kc == kc_right_shift
    then (if event.type == key_pressed
        then true
        else if event.type == key_released
        then false
        else shifted)
    else shifted

-- The end of the loop's body, for a printable character: `grown` says if `realloc` gives memory.
unfoldable pub put_key : Bool → ℕ → LineState → LineStep
put_key grown ascii s =
    let s1 = store s.i ascii s in
    let next =
      λ (s' : LineState). record s' { printed = s'.printed ++ (ascii ∷ []); i = s.i + 1 } in
    if leb s.i buffer_size
    then (if grown then goes_on (next (record s1 { capacity = buffer_size + 32 })) else returned s1)
    else goes_on (next s1)

-- The loop's body behind the shift keys: a key code and the character that it types.
unfoldable pub line_code : (grown released : Bool) (kc ascii : ℕ) → LineState → Run LineStep
unfolding put_key
line_code grown released kc ascii s =
    if released
    then returns (goes_on s)
    else if kc == kc_backspace
    then (if ltb s.i 1
        then returns (goes_on s)
        else with_room s (
            goes_on
              (record (store s.i 0 s) { i = s.i - 1; printed = s.printed ++ (8 ∷ b' ' ∷ 8 ∷ []) })))
    else if ascii == 0
    then returns (goes_on s)
    else if ascii == 10
    then with_room s (returned (record (store s.i 0 s) { printed = s.printed ++ (10 ∷ []) }))
    else with_room s (put_key grown ascii s)

unfoldable pub line_key : Bool → KeyboardEvent → LineState → Run LineStep
line_key grown event s =
    let kc = scancode_to_keycode event.scancode in
    let shifted = held_shift event kc s.shifted in
    line_code grown (event.type == key_released) kc (keycode_to_ascii kc shifted)
      (record s { shifted = shifted })

-- The loop over the events that the keyboard gives, each with the answer of `realloc`, should
-- it be asked. A loop that is left with no event waits for more: it goes on.
unfoldable pub line_loop : List (Bool × KeyboardEvent) → LineState → Run LineStep
line_loop [] s = returns (goes_on s)
line_loop ((grown, event) ∷ keys) s = elim (line_key grown event s) [
  | returns (goes_on s') ↦ line_loop keys s'
  | returns (returned s') ↦ returns (returned s')
  | fault ↦ fault
  | out_of_fuel ↦ out_of_fuel
]

-- The buffer after `malloc(32)`; its bytes are whatever the heap held.
abbrev pub line_start : (ℕ → ℕ) → LineState
line_start garbage = record {
  buffer = garbage;
  capacity = buffer_size;
  i = 0;
  shifted = false;
  printed = [];
}

-- `memory` is what `malloc(32)` gives, or NULL, which `get_line` passes on.
unfoldable pub get_line : Option (ℕ → ℕ) → List (Bool × KeyboardEvent) → Run (Option LineStep)
get_line none keys = returns none
get_line (some garbage) keys = do out ← line_loop keys (line_start garbage); returns (some out)
