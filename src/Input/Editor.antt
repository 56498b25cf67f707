-- ===== src/Input/Editor.antt =====
-- A line editor: what `get_line` of kernel/keyboard/input.c should make of the keys.
use bitloader.Prelude.{Bool, List, [], arith, if◌then◌else◌, length, true, ℕ, ◌==◌, ◌∷◌, ◌≡◌, ◌≤◌}
use bitloader.Keyboard.{KeyboardEvent, key_released}
use bitloader.Input.GetLine.{held_shift}
use bitloader.Input.{kc_backspace, keycode_to_ascii, scancode_to_keycode}

-- What a line that is being typed is: the shift state and the characters, the last one first.
pub record Typed : Type 0 where
  pub shifted : Bool
  pub chars : List ℕ

pub data Edit : Type 0 where
  open_line : Typed → Edit
  entered : List ℕ → Edit

-- `realloc` gives memory whenever it is asked.
abbrev pub Granted : List (Bool × KeyboardEvent) → Type 0
Granted [] = Unit
Granted ((grown, event) ∷ keys) = (grown ≡ true) × Granted keys

abbrev pub rubout : List ℕ → List ℕ
rubout [] = []
rubout (c ∷ cs) = cs

abbrev pub edit_code : (released : Bool) (kc ascii : ℕ) → Typed → Edit
edit_code released kc ascii t =
    if released
    then open_line t
    else if kc == kc_backspace
    then open_line (record t { chars = rubout t.chars })
    else if ascii == 0
    then open_line t
    else if ascii == 10
    then entered t.chars
    else open_line (record t { chars = ascii ∷ t.chars })

abbrev pub edit_key : KeyboardEvent → Typed → Edit
edit_key event t =
    let kc = scancode_to_keycode event.scancode in
    let shifted = held_shift event kc t.shifted in
    edit_code (event.type == key_released) kc (keycode_to_ascii kc shifted)
      (record t { shifted = shifted })

-- The line editor on a sequence of events.
abbrev pub edit : List (Bool × KeyboardEvent) → Typed → Edit
edit [] t = open_line t
edit ((grown, event) ∷ keys) t = elim (edit_key event t) [
  | open_line t' ↦ edit keys t'
  | entered chars ↦ entered chars
]

-- The buffer holds the characters below its index.
abbrev pub Holds : (ℕ → ℕ) → List ℕ → Type 0
Holds buffer [] = Unit
Holds buffer (c ∷ cs) = (buffer (length cs) ≡ c) × Holds buffer cs

pub Holds-above :
    (buffer : ℕ → ℕ) (i v : ℕ) (cs : List ℕ)
    → length cs ≤ i
    → Holds buffer cs
    → Holds (λ j. if j == i then v else buffer j) cs
Holds-above buffer i v [] h held = tt
Holds-above buffer i v (c ∷ cs) h held =
    (ground arith, Holds-above buffer i v cs (omega arith) held.1)
