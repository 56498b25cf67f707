-- ===== src/Files/FileTests.antt =====
-- Runs of the operations on open files, and the witnesses of their laws.
use bitloader.Prelude.{
  [], arith, if◌then◌else◌, inr, ltb, refl, some, suc, true, zero, ℕ, ◌%◌, ◌+◌, ◌/◌, ◌<◌, ◌==◌, ◌∷◌,
  ◌≡◌, ◌≢◌, ◌≤◌,
}
use bitloader.Prelude.Run.{Run, fault, out_of_fuel, returns}
use bitloader.Files.{
  FileSystem, alloc_if_zero, block_size, find_block, find_single, harddrive_load_blocks,
  harddrive_write_blocks, load_loop, make_block, make_direct, num_direct_blocks, place, write_loop,
}
use bitloader.Files.Inodes.{
  SameInode, fetch_inode, inode_offset, inode_sector, write_inode, write_inode-fetch_inode,
}
use bitloader.Files.OpenFile.{
  FsFile, FsNode, Memory, ReadResult, Written, fs_close, fs_open, fs_read, fs_seek, fs_write,
  number_to_write, read_loop, read_round, refill_buffer, refill_write, vfs_beg, vfs_cur, vfs_end,
  vfstofs, window, write_out,
}
use bitloader.Files.ReadBack.{InBuffer, WrittenOk}
use bitloader.Files.WriteThrough.{fs_write-WrittenOk}
use bitloader.Files.WriteDisk.{Placed}
use bitloader.Files.ReadDisk.{AllThere, Cached, file_byte, fs_read-file_byte}
use bitloader.Files.Seek.{fs_seek-below}

abbrev zeros : ℕ → ℕ
zeros i = 0

abbrev counting : ℕ → ℕ
counting i = i % 256

abbrev blank : FileSystem
blank = record { disk = λ b w. b + w; n_blocks = 100; n_inodes = 3; root_inode = 0 }

abbrev empty_node : FsNode
empty_node = record { type = 1; size = 0; inode_number = 7; blocks = zeros }

abbrev opened : FsFile
opened = record { position = 0; buffer = some zeros; range_low = 0; range_high = 0 }

-- Six blocks, 100 to 105.
abbrev six_blocks : FsNode
six_blocks = record {
  type = 1;
  size = 5220;
  inode_number = 7;
  blocks = λ k. if ltb k 6 then 100 + k else 0;
}

write_inode-fetch_inode_example :
    SameInode
      (fetch_inode 7 (write_inode (vfstofs six_blocks) 7 blank.disk))
      (if 7 == 7 then vfstofs six_blocks else fetch_inode 7 blank.disk)
write_inode-fetch_inode_example =
    write_inode-fetch_inode (vfstofs six_blocks) 7 7 blank.disk (omega arith) (omega arith)

fs_seek-below_example : (fs_seek six_blocks 20 vfs_end opened).position < six_blocks.size
fs_seek-below_example =
    fs_seek-below six_blocks 20 vfs_end opened (omega arith) (omega arith)
      (inr (inr (refl, omega arith, omega arith)))

new_buffer :
    refill_write (some zeros) blank.disk empty_node 1500 opened
    ≡ returns (some (window opened zeros))
unfolding refill_write refill_buffer
new_buffer = refl

abbrev new_InBuffer : InBuffer 1500 (window opened zeros) zeros
new_InBuffer = record {
  buffer = refl;
  from = omega arith;
  to = omega arith;
  high = refl;
  small = omega arith;
}

-- The write of 1500 bytes to an empty file, which gets the blocks 100 and 101.
abbrev two_written : Written
two_written = write_out 1500 counting blank empty_node (window opened zeros) zeros

two_entries : (k : ℕ) → k < 2 → two_written.2.blocks (0 + k) ≡ 100 + k
unfolding write_out harddrive_write_blocks write_loop make_block make_direct alloc_if_zero
two_entries zero k_in = refl
two_entries (suc zero) k_in = refl
two_entries (suc (suc k)) k_in = absurd (omega arith)

two_count : number_to_write two_written.2.size ≡ 2
unfolding write_out
two_count = refl

two_Placed : Placed two_written.2.blocks 0 (number_to_write two_written.2.size)
two_Placed = record {
  there =
      λ k k_in. let small : k < 2 = rw two_count at k_in in rw (two_entries k small) (ground arith);
  apart = λ j k before k_in.
      let small : k < 2 = rw two_count at k_in in
      rw (two_entries j (omega arith)) (rw (two_entries k small) (λ e. absurd (omega (arith, e))));
}

two_off_inode :
    (k : ℕ)
    → k < number_to_write two_written.2.size
    → place (two_written.2.blocks (0 + k)) ≢ inode_sector 7 / 2
unfolding inode_offset
two_off_inode k k_in =
    let small : k < 2 = rw two_count at k_in in
    rw (two_entries k small) (λ e. absurd (omega (arith, e)))

fs_write-WrittenOk_example :
    (fs1 : FileSystem) × (node1 : FsNode) × (file1 : FsFile) × (fs_write
        (some zeros)
        1500
        counting
        blank
        empty_node
        opened
      ≡ returns (1500, fs1, node1, file1))
    × WrittenOk 1500 counting empty_node (window opened zeros) fs1 node1 file1
    × ((i : ℕ)
        → i < 1500
        → file_byte fs1.disk node1 ((window opened zeros).position + i) ≡ counting i)
    × Cached fs1.disk node1 file1
fs_write-WrittenOk_example =
    fs_write-WrittenOk (some zeros) 1500 counting blank empty_node opened (window opened zeros)
      zeros (λ e. absurd (omega arith)) new_buffer new_InBuffer (omega arith) (omega arith) refl
      (omega arith) (λ o below. omega arith) (λ o below. omega arith) two_Placed two_off_inode

six_there : AllThere blank.disk six_blocks
unfolding find_block
six_there p in_file =
    let direct : ltb (p / block_size) num_direct_blocks ≡ true = ground arith in
    let six : ltb (p / block_size) 6 ≡ true = ground arith in rw direct (rw six (ground arith))

fs_read-file_byte_example :
    (got : Memory) × (file1 : FsFile) × (fs_read 2 blank.disk six_blocks 3000 zeros opened
      ≡ returns (3000, got, file1))
    × ((i : ℕ) → i < 3000 → got i ≡ file_byte blank.disk six_blocks (opened.position + i))
    × ((i : ℕ) → 3000 ≤ i → got i ≡ zeros i)
    × (file1.position ≡ opened.position + 3000)
    × Cached blank.disk six_blocks file1
fs_read-file_byte_example =
    fs_read-file_byte 0 blank.disk six_blocks 3000 zeros opened zeros refl six_there
      (λ p from to in_it. absurd (omega arith)) (inr refl) (omega arith) (λ e. absurd (omega arith))
      (omega arith) (omega arith) (omega arith)

abbrev returned : Run ReadResult → ℕ
returned (returns r) = r.0
returned fault = 1_000_001
returned out_of_fuel = 1_000_002

-- A read of more than five blocks that is no multiple of them: the last round takes five blocks
-- again, the count of what is left wraps, and the rounds go on to the file's end, which gives 0.
long_read : returned (fs_read 5 blank.disk six_blocks 5220 zeros opened) ≡ 0
unfolding fs_read read_loop read_round refill_buffer harddrive_load_blocks load_loop find_block
    find_single
long_read = refl

-- A read that starts late in a block and needs its sixth block takes bytes past the buffer.
late_read :
    returned (fs_read 5 blank.disk six_blocks 5000 zeros (record opened { position = 200 }))
    ≡ 1_000_001
unfolding fs_read read_loop read_round refill_buffer harddrive_load_blocks load_loop find_block
    find_single
late_read = refl

-- `size - 1` wraps on an empty file, a seek forwards past the end adds the whole size, and a seek
-- back from the end that reaches the first byte but one goes to the first.
seek_empty : (fs_seek empty_node 500 vfs_beg opened).position ≡ 500
unfolding fs_seek
seek_empty = refl

seek_past : (fs_seek six_blocks 9000 vfs_cur (record opened { position = 5000 })).position ≡ 10219
unfolding fs_seek
seek_past = refl

seek_back_one : (fs_seek six_blocks 5219 vfs_end opened).position ≡ 0
unfolding fs_seek
seek_back_one = refl

-- The buffer, 30, stays with nobody.
close_leaks : (fs_open 10 20 30 zeros).0 ≡ some opened × fs_close 10 20 ≡ 20 ∷ 10 ∷ []
unfolding fs_open fs_close
close_leaks = (refl, refl)
