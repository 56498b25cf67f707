-- ===== src/Heap/Tests.antt =====
-- Runs of the allocator, and its theorems at the kernel's heap.
use bitloader.Prelude.{List, [], arith, if◌then◌else◌, refl, ℕ, ◌==◌, ◌∷◌, ◌≡◌}
use bitloader.Prelude.Run.{Run, fault, returns, ◌>>=◌}
use bitloader.Heap.{
  HeapState, Mem, calloc, free, free_left, free_right, init_heap, is_free_block, malloc,
  malloc_loop, merge_n, merge_p, take_block,
}
use bitloader.Heap.Blocks.{Block, Tiles, alloc, block}
use bitloader.Heap.Zip.{onto}
use bitloader.Heap.Malloc.{malloc-alloc}
use bitloader.Heap.Free.{absorb_left, absorb_right, free-absorb}
use bitloader.Heap.Live.{Served, malloc-Served}

abbrev blank : HeapState
blank = record {
  mem = λ p. record { size = 0; free = 0; prev = 0; next = 0 };
  heap = 0;
  heap_size = 0;
  first_entry = 0;
}

-- `init_heap((uint8_t*)0x210000, 0x90000)` of kernel/main.c
fresh : HeapState
unfolding init_heap
fresh = init_heap 0x210000 0x90000 blank

abbrev fresh_blocks : List Block
fresh_blocks = block 0x8fff0 1 ∷ []

-- Three blocks: 100 bytes in use, 200 bytes free, the rest free.
abbrev three : List Block
three = block 100 0 ∷ block 200 1 ∷ block 0x8fea4 1 ∷ []

abbrev three_mem : Mem
three_mem p =
    if p == 0x210000
    then record { size = 100; free = 0; prev = 0; next = 0x210074 }
    else if p == 0x210074
    then record { size = 200; free = 1; prev = 0x210000; next = 0x21014c }
    else record { size = 0x8fea4; free = 1; prev = 0x210074; next = 0 }

abbrev three_state : HeapState
three_state = record blank { mem = three_mem; first_entry = 0x210000 }

first_call : (p : ℕ) × (s : HeapState) × (malloc 2 100 fresh ≡ returns (p, s)) × (p ≡ 0x210010)
unfolding malloc malloc_loop take_block fresh
first_call = (_, _, refl, refl)

no_zero : malloc 2 0 three_state ≡ returns (0, three_state)
unfolding malloc
no_zero = refl

calloc_zero : calloc 2 5 0 three_state ≡ fault
unfolding calloc
calloc_zero = refl

-- After a split with a stale `prev`, a later `free` loses a block in use: the last request is
-- given the 120 bytes from 0x210010, and the 60 bytes at 0x210034 are still in use.
overlap : Run (ℕ × ℕ)
unfolding fresh malloc malloc_loop take_block free free_left free_right is_free_block merge_p
    merge_n
overlap = do
  (a, s) ← malloc 9 100 fresh
  (b, s) ← malloc 9 100 s
  s ← free 9 a s
  (a', s) ← malloc 9 20 s
  (c, s) ← malloc 9 60 s
  s ← free 9 a' s
  s ← free 9 b s
  (d, s) ← malloc 9 120 s
  returns (c, d)

overlap_run : overlap ≡ returns (0x210034, 0x210010)
unfolding overlap
overlap_run = refl

malloc-alloc_example :
    (m : Mem) × (malloc 4 150 three_state
      ≡ returns ((alloc 150 0x210000 three).0, record three_state { mem = m }))
    × Tiles m 0x2a0000 0x210000 0x210000 (alloc 150 0x210000 three).1
malloc-alloc_example =
    malloc-alloc 4 150 0x2a0000 three_state three (omega arith) (omega arith) (omega arith)
      (omega arith) (omega arith)

malloc-Served_example : Served 150 0x2a0000 three_state three (malloc 4 150 three_state)
malloc-Served_example =
    malloc-Served 4 150 0x2a0000 three_state three (omega arith) (omega arith) (omega arith)
      (omega arith) (omega arith)

-- The first block is freed, and takes in both that follow.
free-absorb_example :
    let left = absorb_left [] (block 100 1) in
    let right = absorb_right left.1 (block 200 1 ∷ block 0x8fea4 1 ∷ []) in
    (m : Mem) × (free 4 0x210010 three_state ≡ returns (record three_state { mem = m }))
    × Tiles m 0x2a0000 0x210000 0x210000 (onto left.0 (right.0 ∷ right.1))
free-absorb_example =
    free-absorb 4 0x210000 0x2a0000 0x210000 three_state (block 100 0) []
      (block 200 1 ∷ block 0x8fea4 1 ∷ []) (omega arith) (omega arith) (omega arith)
      (record { size = refl; free = refl; behind = (refl, refl); ahead = omega arith })
