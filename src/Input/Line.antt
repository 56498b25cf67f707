-- ===== src/Input/Line.antt =====
-- `get_line` of kernel/keyboard/input.c is a line editor: the buffer it returns holds the keys that
-- were typed and not taken back.
use mathlib.Core.Path.{subst}
use bitloader.Prelude.{
  Bool, Bool-cases, List, [], arith, false, if◌then◌else◌, inl, inr, leb, length, ltb, refl, some,
  suc, true, ℕ, ◌++◌, ◌+◌, ◌-◌, ◌<◌, ◌==◌, ◌∷◌, ◌≡◌, ◌≤◌, ◌⊎◌,
}
use bitloader.Prelude.Run.{Run, fault, out_of_fuel, returns, ◌>>=◌}
use bitloader.Keyboard.{KeyboardEvent, key_released}
use bitloader.Input.GetLine.{
  LineState, LineStep, get_line, goes_on, held_shift, line_code, line_key, line_loop, line_start,
  put_key, returned, store, with_room,
}
use bitloader.Input.Editor.{
  Edit, Granted, Holds, Holds-above, Typed, edit, edit_code, edit_key, entered, open_line, rubout,
}
use bitloader.Input.{kc_backspace, keycode_to_ascii, scancode_to_keycode}

pub record Tracks (t : Typed) (s : LineState) : Type 0 where
  pub same_shift : s.shifted ≡ t.shifted
  pub counted : s.i ≡ length t.chars
  pub held : Holds s.buffer t.chars
  pub room : (s.capacity ≡ 64) ⊎ ((s.capacity ≡ 32) × (s.i ≡ 0))

-- The line that the buffer returned holds, as a NUL-terminated string.
pub record Line (chars : List ℕ) (s : LineState) : Type 0 where
  pub held : Holds s.buffer chars
  pub ended : s.buffer (length chars) ≡ 0

-- How a run of the editor and a run of `get_line` agree.
abbrev pub Agrees : Edit → Run LineStep → Type 0
Agrees (open_line t) (returns (goes_on s)) = Tracks t s
Agrees (entered chars) (returns (returned s)) = Line chars s
Agrees e r = ⊥

module _ (s : LineState) (shifted : Bool) where
  type-Agrees :
      (ascii : ℕ) (chars : List ℕ)
      → Tracks (record { shifted = shifted; chars = chars }) s
      → length chars < 64
      → Agrees
          (open_line (record { shifted = shifted; chars = ascii ∷ chars }))
          (with_room s (put_key true ascii s))
  unfolding put_key
  type-Agrees ascii chars h small =
      let in_room : ltb s.i s.capacity ≡ true = ground arith in
      let above = Holds-above s.buffer s.i ascii chars (omega arith) h.held in
      let here : (if length chars == s.i then ascii else s.buffer (length chars)) ≡ ascii =
        ground arith in
      elim (Bool-cases (leb s.i 32)) [
        | inl low ↦ rw in_room (
            rw low (record {
              same_shift = h.same_shift;
              counted = omega arith;
              held = (here, above);
              room = inl refl;
            }))
        | inr high ↦ rw in_room (
            rw high (record {
              same_shift = h.same_shift;
              counted = omega arith;
              held = (here, above);
              room = inl (ground arith);
            }))
      ]

  rubout-Agrees :
      (chars : List ℕ)
      → Tracks (record { shifted = shifted; chars = chars }) s
      → length chars < 64
      → Agrees (open_line (record { shifted = shifted; chars = rubout chars })) (
          if ltb s.i 1
          then returns (goes_on s)
          else with_room s (
              goes_on (record (store s.i 0 s) {
                i = s.i - 1;
                printed = s.printed ++ (8 ∷ b' ' ∷ 8 ∷ []);
              })))
  rubout-Agrees [] h small = let empty : ltb s.i 1 ≡ true = ground arith in rw empty h
  rubout-Agrees (c ∷ cs) h small =
      let full : ltb s.i 1 ≡ false = ground arith in
      let in_room : ltb s.i s.capacity ≡ true = ground arith in
      let below = Holds-above s.buffer s.i 0 cs (omega arith) h.held.1 in
      rw full (
        rw in_room (record {
          same_shift = h.same_shift;
          counted = omega arith;
          held = below;
          room = ground arith;
        }))

  enter-Agrees :
      (chars : List ℕ)
      → Tracks (record { shifted = shifted; chars = chars }) s
      → length chars < 64
      → Agrees
          (entered chars)
          (with_room s (returned (record (store s.i 0 s) { printed = s.printed ++ (10 ∷ []) })))
  enter-Agrees chars h small =
      let in_room : ltb s.i s.capacity ≡ true = ground arith in
      let above = Holds-above s.buffer s.i 0 chars (omega arith) h.held in
      rw in_room (record { held = above; ended = ground arith })

line_code-Agrees :
    (released : Bool) (kc ascii : ℕ) (t : Typed) (s : LineState)
    → Tracks t s
    → length t.chars < 64
    → Agrees (edit_code released kc ascii t) (line_code true released kc ascii s)
unfolding line_code
line_code-Agrees true kc ascii t s h small = h
line_code-Agrees false kc ascii t s h small = elim (Bool-cases (kc == kc_backspace)) [
  | inl back ↦ rw back (rubout-Agrees s t.shifted t.chars h small)
  | inr other ↦ elim (Bool-cases (ascii == 0)) [
    | inl silent ↦ rw other (rw silent h)
    | inr typing ↦ elim (Bool-cases (ascii == 10)) [
      | inl enter ↦ rw other (rw typing (rw enter (enter-Agrees s t.shifted t.chars h small)))
      | inr types ↦ rw other (rw typing (rw types (type-Agrees s t.shifted ascii t.chars h small)))
    ]
  ]
]

Agrees-step :
    (edit_next : Typed → Edit) (loop_next : LineState → Run LineStep) (e : Edit) (r : Run LineStep)
    → Agrees e r
    → ((t : Typed) (s : LineState)
        → e ≡ open_line t
        → Tracks t s
        → Agrees (edit_next t) (loop_next s))
    → Agrees
        (elim e [ open_line t ↦ edit_next t | entered chars ↦ entered chars ])
        (elim r [
          | returns (goes_on s) ↦ loop_next s
          | returns (returned s) ↦ returns (returned s)
          | fault ↦ fault
          | out_of_fuel ↦ out_of_fuel
        ])
Agrees-step edit_next loop_next (open_line t) (returns (goes_on s)) h next = next t s refl h
Agrees-step edit_next loop_next (entered chars) (returns (returned s)) h next = h
Agrees-step edit_next loop_next (open_line t) (returns (returned s)) h next = elim h [ ]
Agrees-step edit_next loop_next (open_line t) fault h next = elim h [ ]
Agrees-step edit_next loop_next (open_line t) out_of_fuel h next = elim h [ ]
Agrees-step edit_next loop_next (entered chars) (returns (goes_on s)) h next = elim h [ ]
Agrees-step edit_next loop_next (entered chars) fault h next = elim h [ ]
Agrees-step edit_next loop_next (entered chars) out_of_fuel h next = elim h [ ]

abbrev Longest : ℕ → Edit → Type 0
Longest n (open_line t) = length t.chars ≤ n
Longest n (entered chars) = Unit

Longest-if :
    (n : ℕ) (b : Bool) (d e : Edit) → Longest n d → Longest n e → Longest n (if b then d else e)
Longest-if n true d e hd he = hd
Longest-if n false d e hd he = he

length-rubout : (cs : List ℕ) → length (rubout cs) ≤ suc (length cs)
length-rubout [] = omega arith
length-rubout (c ∷ cs) = omega arith

-- One key adds one character at most.
edit_code-Longest :
    (released : Bool) (kc ascii : ℕ) (t : Typed)
    → Longest (suc (length t.chars)) (edit_code released kc ascii t)
edit_code-Longest released kc ascii t = Longest-if _ released _ _ (omega arith) (
    Longest-if _ (kc == kc_backspace) _ _ (length-rubout t.chars) (
      Longest-if _ (ascii == 0) _ _ (omega arith)
        (Longest-if _ (ascii == 10) _ _ tt (omega arith))))

Longest-open : (n : ℕ) (e : Edit) (t : Typed) → e ≡ open_line t → Longest n e → length t.chars ≤ n
Longest-open n e t same h = subst (Longest n) same h

edit_key-Longest :
    (event : KeyboardEvent) (t : Typed) → Longest (suc (length t.chars)) (edit_key event t)
edit_key-Longest event t =
    let kc = scancode_to_keycode event.scancode in
    let shifted = held_shift event kc t.shifted in
    edit_code-Longest (event.type == key_released) kc (keycode_to_ascii kc shifted)
      (record t { shifted = shifted })

line_key-Agrees :
    (grown : Bool) (event : KeyboardEvent) (t : Typed) (s : LineState)
    → grown ≡ true
    → Tracks t s
    → length t.chars < 64
    → Agrees (edit_key event t) (line_key grown event s)
unfolding line_key
line_key-Agrees grown event t s g h small =
    let kc = scancode_to_keycode event.scancode in
    let shifted = held_shift event kc t.shifted in
    rw g (
      rw h.same_shift (
        line_code-Agrees (event.type == key_released) kc (keycode_to_ascii kc shifted)
          (record t { shifted = shifted }) (record s { shifted = shifted })
          (record { same_shift = refl; counted = h.counted; held = h.held; room = h.room }) small))

line_loop-Agrees :
    (keys : List (Bool × KeyboardEvent)) (t : Typed) (s : LineState)
    → Granted keys
    → length keys + length t.chars ≤ 64
    → Tracks t s
    → Agrees (edit keys t) (line_loop keys s)
unfolding line_loop
line_loop-Agrees [] t s g small h = h
line_loop-Agrees ((grown, event) ∷ keys) t s g small h =
    Agrees-step (edit keys) (line_loop keys) (edit_key event t) (line_key grown event s)
      (line_key-Agrees grown event t s g.0 h (omega arith))
      (λ t' s' same tracks.
        line_loop-Agrees keys t' s' g.1
          (omega (arith, small, Longest-open _ _ t' same (edit_key-Longest event t))) tracks)

-- For up to 64 keyboard events, while `realloc` gives memory, `get_line` never leaves its buffer, and it agrees
-- with a line editor: it returns exactly when the editor sees the Enter key, and its buffer then
-- holds, before a NUL, the characters that were typed and not taken back.
pub get_line-Agrees :
    (keys : List (Bool × KeyboardEvent)) (garbage : ℕ → ℕ)
    → Granted keys
    → length keys ≤ 64
    → (out : Run LineStep) × (get_line (some garbage) keys ≡ (do step ← out; returns (some step)))
      × Agrees (edit keys (record { shifted = false; chars = [] })) out
unfolding get_line
get_line-Agrees keys garbage g small = (
  line_loop keys (line_start garbage),
  refl,
  line_loop-Agrees keys (record { shifted = false; chars = [] }) (line_start garbage) g
      (omega arith)
      (record { same_shift = refl; counted = refl; held = tt; room = inr (refl, refl) }),
)
