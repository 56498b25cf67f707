-- ===== src/Keyboard.antt =====
-- kernel/keyboard/keyboard.c: the keyboard device. Every open file has a ring of 32 events, which
-- the interrupt handler fills and `keyboard_read` empties. A pointer into a ring is its index;
-- a ring is found by its address, and a freed one is no longer there.
pub mod Ring
pub mod Table
pub mod Interrupt
pub mod Close
pub mod Open
mod Tests
use bitloader.Prelude.{
  List, Option, [], bit_and, get_elem?, get_or, if◌then◌else◌, leb, length, none, set, some, suc,
  take, zero, ℕ, ◌++◌, ◌+◌, ◌/◌, ◌==◌, ◌∷◌,
}
use bitloader.Prelude.Run.{Run, fault, returns}
use bitloader.Prelude.Words.{sub32}

pub record KeyboardEvent : Type 0 where
  pub scancode : ℕ
  pub type : ℕ

abbrev pub key_pressed : ℕ
key_pressed = 1

abbrev pub key_released : ℕ
key_released = 2

abbrev pub file_buffer_size : ℕ
file_buffer_size = 32

pub record KeyboardFileData : Type 0 where
  pub buffer : ℕ → KeyboardEvent
  pub start : ℕ
  pub end : ℕ

-- `if (p >= buffer + FILE_BUFFER_SIZE) p = buffer;`
abbrev pub wrap : ℕ → ℕ
wrap i = if leb file_buffer_size i then 0 else i

abbrev pub put : (ℕ → KeyboardEvent) → ℕ → KeyboardEvent → ℕ → KeyboardEvent
put b i e j = if j == i then e else b j

-- `scancode & ~(1 << 7)` and the test of bit 7; the complement is that of an `int`.
unfoldable pub decode : ℕ → KeyboardEvent
decode scancode = record {
  scancode = bit_and scancode 0xffff_ff7f;
  type = if bit_and scancode 0x80 == 0 then key_pressed else key_released;
}

-- The body of the loop of `on_event`, for one file.
pub push_event : ℕ → KeyboardFileData → KeyboardFileData
push_event scancode fd =
    let end = wrap (fd.end + 1) in
    record {
      buffer = put fd.buffer fd.end (decode scancode);
      start = if end == fd.start then wrap (fd.start + 1 + 1) else fd.start;
      end = end;
    }

-- sizeof(KeyboardEvent), a packed struct
abbrev pub event_size : ℕ
event_size = 3

-- The loop of `keyboard_read`: the events copied out and the ring then.
read_events : ℕ → KeyboardFileData → List KeyboardEvent × KeyboardFileData
read_events zero fd = ([], fd)
read_events (suc n) fd =
    let rest = read_events n (record fd { start = wrap (fd.start + 1) }) in
    if fd.start == fd.end then ([], fd) else (fd.buffer fd.start ∷ rest.0, rest.1)

-- It returns the number of events, as `i`.
pub keyboard_read : ℕ → KeyboardFileData → ℕ × List KeyboardEvent × KeyboardFileData
keyboard_read buffer_size fd =
    let out = read_events (buffer_size / event_size) fd in (length out.0, out.0, out.1)

-- The globals `keyboard_file_data` (its address and its entries) and
-- `keyboard_file_data_length`, with the rings in memory.
pub record Keyboard : Type 0 where
  pub rings : ℕ → Option KeyboardFileData
  pub table_ptr : ℕ
  pub table : List ℕ
  pub table_length : ℕ

abbrev pub set_ring : ℕ → Option KeyboardFileData → Keyboard → Keyboard
set_ring p r k = record k { rings = λ q. if q == p then r else k.rings q }

-- `n` rounds are left of the loop of `on_event`, and `i` is the index. Reading the table past its
-- end, or a ring that was freed, is a fault.
pub on_event_loop : ℕ → ℕ → ℕ → Keyboard → Run Keyboard
on_event_loop scancode zero i k = returns k
on_event_loop scancode (suc n) i k = elim (get_elem? k.table i) [
  | none ↦ fault
  | some p ↦ elim (k.rings p) [
    | none ↦ fault
    | some fd ↦ on_event_loop scancode n (i + 1) (set_ring p (some (push_event scancode fd)) k)
  ]
]

pub on_event : ℕ → Keyboard → Run Keyboard
on_event scancode k = on_event_loop scancode k.table_length 0 k

-- What the heap answers to the three allocations of `keyboard_open`.
pub record Allocations : Type 0 where
  pub file : ℕ
  pub fd : ℕ
  pub table : ℕ

abbrev pub null : ℕ
null = 0

abbrev pub fresh_ring : KeyboardFileData
fresh_ring = record { buffer = λ i. record { scancode = 0; type = 0 }; start = 0; end = 0 }

-- The pointer returned, NULL on failure. The length is counted up before `realloc` is tried.
pub keyboard_open : Allocations → Keyboard → ℕ × Keyboard
keyboard_open a k =
    let opened = set_ring a.fd (some fresh_ring) k in
    let longer = k.table_length + 1 in
    if a.file == null
    then (null, k)
    else if a.fd == null
    then (null, k)
    else if k.table_length == 0
    then (a.file, record opened { table_ptr = a.table; table = a.fd ∷ []; table_length = longer })
    else if a.table == null
    then (null, record (set_ring a.fd none k) { table_length = longer })
    else (
      a.file,
      record opened { table_ptr = a.table; table = k.table ++ (a.fd ∷ []); table_length = longer },
    )

-- The loop that looks for the file's entry compares `private_data` with the table's own address.
replace_index : ℕ → ℕ → Keyboard → ℕ
replace_index private_data new_length k = if private_data == k.table_ptr then 0 else new_length

-- `moved` is what `realloc` of the shrunk table returns.
pub keyboard_close : (moved private_data : ℕ) → Keyboard → Keyboard
keyboard_close moved private_data k =
    let n = sub32 k.table_length 1 in
    let gone = set_ring private_data none k in
    if n == 0 then record gone { table = []; table_length = 0 } else record gone {
      table_ptr = moved;
      table = take n (set k.table (replace_index private_data n k) (get_or k.table n 0));
      table_length = n;
    }
