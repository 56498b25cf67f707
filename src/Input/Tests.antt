-- ===== src/Input/Tests.antt =====
-- Runs of kernel/keyboard/input.c, and its theorems at short lines.
use bitloader.Prelude.{
  Bool, List, Option, [], arith, false, refl, replicate, some, true, ℕ, ◌∷◌, ◌≡◌, ◌≢◌,
}
use bitloader.Prelude.Run.{Run, fault, returns, ◌>>=◌}
use bitloader.Keyboard.{KeyboardEvent}
use bitloader.Input.GetLine.{LineStep, get_line, line_code, line_key, line_loop, put_key}
use bitloader.Input.Editor.{edit, entered}
use bitloader.Input.{ascii_table, keycode_to_ascii, scancode_to_keycode, shifted_ascii_table}
use bitloader.Input.Line.{Agrees, get_line-Agrees}

abbrev press : ℕ → Bool × KeyboardEvent
press code = (true, record { scancode = code; type = 1 })

abbrev release : ℕ → Bool × KeyboardEvent
release code = (true, record { scancode = code; type = 2 })

-- Shift with H, I, a letter taken back, and the Enter key.
abbrev hi_keys : List (Bool × KeyboardEvent)
hi_keys =
    press 0x2a
    ∷ press 0x23
    ∷ release 0x23
    ∷ release 0x2a
    ∷ press 0x17
    ∷ press 0x2d
    ∷ press 0x0e
    ∷ press 0x1c
    ∷ []

hi_typed : edit hi_keys (record { shifted = false; chars = [] }) ≡ entered (b'i' ∷ b'H' ∷ [])
unfolding scancode_to_keycode keycode_to_ascii ascii_table shifted_ascii_table
hi_typed = refl

abbrev is_fault : Run (Option LineStep) → Bool
is_fault fault = true
is_fault r = false

-- The 65th character is written behind the 64 bytes that the buffer ever has.
overrun : is_fault (get_line (some (λ j. 0)) (replicate 65 (press 0x1e))) ≡ true
unfolding get_line line_loop line_key line_code put_key scancode_to_keycode keycode_to_ascii
    ascii_table shifted_ascii_table
overrun = refl

get_line-Agrees_example :
    (out : Run LineStep) × (get_line (some (λ j. 7)) hi_keys ≡ (do step ← out; returns (some step)))
    × Agrees (edit hi_keys (record { shifted = false; chars = [] })) out
get_line-Agrees_example =
    get_line-Agrees hi_keys (λ j. 7)
      (refl, (refl, (refl, (refl, (refl, (refl, (refl, (refl, tt)))))))) (omega arith)

types : keycode_to_ascii 0x1e true ≢ 0
unfolding keycode_to_ascii shifted_ascii_table
types e = absurd (omega (arith, e))
