-- ===== src/Keyboard/Ring.antt =====
-- One file's ring of kernel/keyboard/keyboard.c as the queue of the events that wait in it.
use bitloader.Prelude.{
  Bool-cases, List, [], ap, ap₂, arith, bit_and, drop, if◌then◌else◌, inl, inr, leb, length, ltb,
  refl, suc, sym, take, true, zero, ℕ, ◌%◌, ◌&&◌, ◌++◌, ◌+◌, ◌-◌, ◌/◌, ◌<◌, ◌==◌, ◌∙◌, ◌∷◌, ◌≡◌,
  ◌≢◌, ◌≤◌,
}
use bitloader.Prelude.Bytes.{all_below, all_below_sound}
use bitloader.Keyboard.{
  KeyboardEvent, KeyboardFileData, decode, event_size, file_buffer_size, key_pressed, key_released,
  keyboard_read, push_event, put, read_events, wrap,
}

pub record InRange (fd : KeyboardFileData) : Type 0 where
  pub start_in : fd.start < file_buffer_size
  pub end_in : fd.end < file_buffer_size

-- How many events wait.
abbrev pub count : ℕ → ℕ → ℕ
count start end = if leb start end then end - start else end + file_buffer_size - start

-- The `n` events from index `i` on, going round at the end of the buffer.
abbrev pub window : (ℕ → KeyboardEvent) → ℕ → ℕ → List KeyboardEvent
window b i zero = []
window b i (suc n) = b i ∷ window b (wrap (i + 1)) n

abbrev pub pending : KeyboardFileData → List KeyboardEvent
pending fd = window fd.buffer fd.start (count fd.start fd.end)

pub length-window : (b : ℕ → KeyboardEvent) (i n : ℕ) → length (window b i n) ≡ n
length-window b i zero = refl
length-window b i (suc n) = ap suc (length-window b (wrap (i + 1)) n)

wrap-mod : (i : ℕ) → i ≤ 32 → wrap i ≡ i % 32
wrap-mod i h = ground arith

-- A write at the index just behind a window extends it.
window-put :
    (b : ℕ → KeyboardEvent) (e : KeyboardEvent) (i n j : ℕ)
    → i < file_buffer_size
    → n < file_buffer_size
    → j ≡ (i + n) % 32
    → window (put b j e) i (suc n) ≡ window b i n ++ (e ∷ [])
window-put b e i zero j hi hn hj = ground arith
window-put b e i (suc n) j hi hn hj =
    let next : wrap (i + 1) ≡ (i + 1) % 32 = wrap-mod (i + 1) (omega arith) in
    ap₂ ◌∷◌ (ground arith)
      (window-put b e (wrap (i + 1)) n j (omega arith) (omega arith) (omega arith))

-- What a full ring gives up for a new event: two events, or one where `start` is the last slot.
abbrev pub lost : KeyboardFileData → ℕ
lost fd = if count fd.start fd.end == 31 then (if fd.start == 31 then 1 else 2) else 0

-- An event that arrives keeps both indices of a ring inside its 32 slots, whatever the ring held.
push_event-InRange :
    (scancode : ℕ) (fd : KeyboardFileData) → InRange fd → InRange (push_event scancode fd)
unfolding push_event
push_event-InRange scancode fd v = ground arith

-- The ring with the new event written, and not yet moved on.
abbrev written : ℕ → KeyboardFileData → ℕ → KeyboardEvent
written scancode fd = put fd.buffer fd.end (decode scancode)

module _ (scancode : ℕ) (fd : KeyboardFileData) (v : InRange fd) where
  written-snoc :
      window (written scancode fd) fd.start (suc (count fd.start fd.end))
      ≡ pending fd ++ (decode scancode ∷ [])
  written-snoc =
      window-put fd.buffer (decode scancode) fd.start (count fd.start fd.end) fd.end v.start_in
        (ground arith) (ground arith)

  push_event-window :
      (s n : ℕ)
      → (push_event scancode fd).start ≡ s
      → count (push_event scancode fd).start (push_event scancode fd).end ≡ n
      → pending (push_event scancode fd) ≡ window (written scancode fd) s n
  unfolding push_event
  push_event-window s n p q = ap₂ (window (written scancode fd)) p q

  push_event-room :
      count fd.start fd.end < 31
      → pending (push_event scancode fd) ≡ pending fd ++ (decode scancode ∷ [])
  unfolding push_event
  push_event-room room =
      push_event-window fd.start (suc (count fd.start fd.end)) (ground arith) (ground arith)
      ∙ written-snoc

  push_event-full_inside :
      count fd.start fd.end ≡ 31
      → fd.start ≢ 31
      → pending (push_event scancode fd) ≡ drop 2 (pending fd ++ (decode scancode ∷ []))
  unfolding push_event
  push_event-full_inside full inside =
      push_event-window (wrap (wrap (fd.start + 1) + 1)) 30 (ground arith) (ground arith)
      ∙ ap (λ n. drop 2 (window (written scancode fd) fd.start (suc n))) (sym full)
      ∙ ap (drop 2) written-snoc

  push_event-full_last :
      count fd.start fd.end ≡ 31
      → fd.start ≡ 31
      → pending (push_event scancode fd) ≡ drop 1 (pending fd ++ (decode scancode ∷ []))
  unfolding push_event
  push_event-full_last full last =
      push_event-window (wrap (fd.start + 1)) 31 (ground arith) (ground arith)
      ∙ ap (λ n. drop 1 (window (written scancode fd) fd.start (suc n))) (sym full)
      ∙ ap (drop 1) written-snoc

  -- `on_event` puts the decoded scancode behind the events that wait in a file's ring. A full
  -- ring, of 31 events, first loses its two oldest, or only the oldest where that is in the last
  -- slot.
  pub push_event-pending :
      pending (push_event scancode fd) ≡ drop (lost fd) (pending fd ++ (decode scancode ∷ []))
  push_event-pending = elim (Bool-cases (count fd.start fd.end == 31)) [
    | inl full ↦ elim (Bool-cases (fd.start == 31)) [
      | inl last ↦ rw (full, last) (push_event-full_last (ground arith) (ground arith))
      | inr inside ↦ rw (full, inside) (push_event-full_inside (ground arith) (ground arith))
    ]
    | inr room ↦ rw room (push_event-room (ground arith))
  ]

count-suc :
    (start end : ℕ)
    → start < file_buffer_size
    → end < file_buffer_size
    → start ≢ end
    → count start end ≡ suc (count (wrap (start + 1)) end)
count-suc start end hs he ne = ground arith

-- `read_events` takes events from the front, as many as are asked for and there are.
read_events-pending :
    (n : ℕ) (fd : KeyboardFileData)
    → InRange fd
    → ((read_events n fd).0 ≡ take n (pending fd))
      × (pending (read_events n fd).1 ≡ drop n (pending fd))
      × InRange (read_events n fd).1
unfolding read_events
read_events-pending zero fd v = (refl, refl, v)
read_events-pending (suc n) fd v = elim (Bool-cases (fd.start == fd.end)) [
  | inl empty ↦
      let none_wait : count fd.start fd.end ≡ 0 = ground arith in
      rw (empty, none_wait) (refl, refl, v)
  | inr more ↦
      let rest =
        read_events-pending n (record fd { start = wrap (fd.start + 1) })
          (record { start_in = ground arith; end_in = v.end_in }) in
      let c = count-suc fd.start fd.end v.start_in v.end_in (ground arith) in
      rw (more, c) (ap (λ l. fd.buffer fd.start ∷ l) rest.0, rest.1, rest.2)
]

-- `keyboard_read` hands over the oldest events, one for every 3 bytes of the caller's buffer as
-- long as events wait, and keeps the others in their order. It returns the number of events, which is a third of
-- the number of bytes that the comment on `read` in virtual-filesystem.h promises.
pub keyboard_read-pending :
    (buffer_size : ℕ) (fd : KeyboardFileData)
    → InRange fd
    → let (n, events, fd') = keyboard_read buffer_size fd in
      (n ≡ length events)
      × (events ≡ take (buffer_size / event_size) (pending fd))
      × (pending fd' ≡ drop (buffer_size / event_size) (pending fd))
      × InRange fd'
unfolding keyboard_read
keyboard_read-pending buffer_size fd v =
    let h = read_events-pending (buffer_size / event_size) fd v in (refl, h.0, h.1, h.2)

decode_table :
    all_below 256 (λ c.
      (bit_and c 0xffff_ff7f == c % 128)
      && ((if bit_and c 0x80 == 0 then key_pressed else key_released)
          == (if ltb c 128 then key_pressed else key_released)))
    ≡ true
unfolding all_below
decode_table = refl

-- A scancode below 128 is a key pressed, any other the release of the key 128 lower.
decode_lem :
    (c : ℕ)
    → c < 256
    → ((decode c).scancode ≡ c % 128)
      × ((decode c).type ≡ (if ltb c 128 then key_pressed else key_released))
unfolding decode
decode_lem c h = ground (arith, all_below_sound 256 _ c decode_table h)
