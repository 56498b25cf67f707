-- ===== src/Heap.antt =====
-- kernel/heap.c and kernel/heap.h: the kernel's allocator. A block header lies at an address of a
-- header memory; `0` is NULL, and a header takes 16 bytes. Payload bytes are not modelled here.
pub mod Blocks
pub mod Take
pub mod Malloc
pub mod Zip
pub mod Merge
pub mod Free
pub mod Live
pub mod Stale
mod Tests
use bitloader.Prelude.{Bool, if◌then◌else◌, ltb, not, suc, zero, ℕ, ◌&&◌, ◌+◌, ◌-◌, ◌/◌, ◌==◌, ◌^◌}
use bitloader.Prelude.Run.{Run, fault, out_of_fuel, returns, ◌>>=◌}
use bitloader.Prelude.Words.{add32, mul32, sub32}

pub record BlockHeader : Type 0 where
  pub size : ℕ
  pub free : ℕ
  pub prev : ℕ
  pub next : ℕ

abbrev pub null : ℕ
null = 0

-- sizeof(BlockHeader)
abbrev pub header_size : ℕ
header_size = 16

abbrev pub Mem : Type 0
Mem = ℕ → BlockHeader

abbrev pub update : Mem → ℕ → BlockHeader → Mem
update m p h q = if q == p then h else m q

abbrev pub set_size : ℕ → ℕ → Mem → Mem
set_size p v m = update m p (record (m p) { size = v })

abbrev pub set_free : ℕ → ℕ → Mem → Mem
set_free p v m = update m p (record (m p) { free = v })

abbrev pub set_prev : ℕ → ℕ → Mem → Mem
set_prev p v m = update m p (record (m p) { prev = v })

abbrev pub set_next : ℕ → ℕ → Mem → Mem
set_next p v m = update m p (record (m p) { next = v })

-- The globals `heap`, `heap_size` and `first_entry`, with the headers in memory.
pub record HeapState : Type 0 where
  pub mem : Mem
  pub heap : ℕ
  pub heap_size : ℕ
  pub first_entry : ℕ

pub init_heap : ℕ → ℕ → HeapState → HeapState
init_heap buffer size s = record {
  mem =
      set_prev buffer null
        (set_next buffer null (set_free buffer 1 (set_size buffer (sub32 size header_size) s.mem)));
  heap = buffer;
  heap_size = size;
  first_entry = buffer;
}

-- The second block begins `size` bytes behind the first one's header.
unfoldable pub split : ℕ → ℕ → Mem → Mem
split entry size m =
    let size2 = sub32 (sub32 (m entry).size size) header_size in
    let old_next = (m entry).next in
    let next = add32 (entry + header_size) size in
    let m1 = set_next entry next (set_size entry size m) in
    set_next next old_next (set_prev next entry (set_free next 1 (set_size next size2 m1)))

-- The two directions of `merge`; its default branch is not reached by any caller.
unfoldable pub merge_p : ℕ → Mem → ℕ × Mem
merge_p entry m =
    let entry2 = (m entry).prev in
    let m1 = set_size entry2 (add32 (m entry2).size ((m entry).size + header_size)) m in
    let m2 = set_next entry2 (m1 entry).next m1 in (entry2, set_prev (m2 entry2).next entry2 m2)

unfoldable pub merge_n : ℕ → Mem → ℕ × Mem
merge_n entry m =
    let entry2 = (m entry).next in
    let m1 = set_size entry (add32 (m entry).size ((m entry2).size + header_size)) m in
    let m2 = set_next entry (m1 entry2).next m1 in (entry, set_prev (m2 entry).next entry m2)

-- A block is worth splitting when it could hold the request and its header twice.
abbrev pub is_splittable : BlockHeader → ℕ → Bool
is_splittable h size = ltb (mul32 (add32 size header_size) 2) h.size

-- What `malloc` does with the block that it takes.
pub take_block : ℕ → ℕ → Mem → ℕ × Mem
unfolding split
take_block current size m =
    if is_splittable (m current) size
    then (current + header_size, set_free current 0 (split current size m))
    else (current + header_size, set_free current 0 m)

malloc_loop : ℕ → ℕ → ℕ → Mem → Run (ℕ × Mem)
malloc_loop zero current size m = out_of_fuel
malloc_loop (suc fuel) current size m =
    let rest = malloc_loop fuel (m current).next size m in
    if current == null
    then returns (null, m)
    else if (m current).free == 0
    then rest
    else if ltb (m current).size size
    then rest
    else returns (take_block current size m)

pub malloc : ℕ → ℕ → HeapState → Run (ℕ × HeapState)
malloc fuel size s =
    if size == 0
    then returns (null, s)
    else do (p, m) ← malloc_loop fuel s.first_entry size s.mem; returns (p, record s { mem = m })

-- `UINT32_MAX / size` raises the divide error when `size` is 0.
pub calloc : ℕ → ℕ → ℕ → HeapState → Run (ℕ × HeapState)
calloc fuel n size s =
    if size == 0
    then fault
    else if ltb ((2 ^ 32 - 1) / size) n
    then returns (null, s)
    else malloc fuel (mul32 n size) s

pub is_free_block : ℕ → Mem → Bool
is_free_block p m = not (p == null) && ((m p).free == 1)

free_left : ℕ → ℕ → Mem → Run (ℕ × Mem)
free_left zero entry m = out_of_fuel
free_left (suc fuel) entry m =
    let rest = free_left fuel (merge_p entry m).0 (merge_p entry m).1 in
    if is_free_block (m entry).prev m then rest else returns (entry, m)

free_right : ℕ → ℕ → Mem → Run (ℕ × Mem)
free_right zero entry m = out_of_fuel
free_right (suc fuel) entry m =
    let rest = free_right fuel (merge_n entry m).0 (merge_n entry m).1 in
    if is_free_block (m entry).next m then rest else returns (entry, m)

pub free : ℕ → ℕ → HeapState → Run HeapState
free fuel ptr s = if ptr == null then returns s else do
  (entry, m) ← free_left fuel (ptr - header_size) (set_free (ptr - header_size) 1 s.mem)
  (_, m) ← free_right fuel entry m
  returns (record s { mem = m })
