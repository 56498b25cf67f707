-- ===== src/Files/Tests.antt =====
-- Writing and loading a block that two pointer blocks lead to.
use bitloader.Prelude.{[], arith, false, refl, some, ℕ, ◌/◌, ◌==◌, ◌∷◌, ◌≡◌, ◌≢◌}
use bitloader.Files.{
  FileSystem, alloc_if_zero, alloc_ptr, block_size, harddrive_load_blocks, harddrive_write_blocks,
  make_block, make_double, make_single, no_block,
}
use bitloader.Files.RoundTrip.{Apart, path, write-load}

abbrev empty_disk : FileSystem
empty_disk = record { disk = λ n i. 0; n_blocks = 100; n_inodes = 3; root_inode = 0 }

abbrev no_entries : ℕ → ℕ
no_entries i = 0

-- Block 271 of a file: blocks 100 and 101 are made for pointers, and 102 for the data.
makes_102 : (make_block no_entries (277504 / block_size) empty_disk).0 ≡ 102
unfolding make_block make_double alloc_ptr alloc_if_zero
makes_102 = refl

differ : (a b : ℕ) → (a == b) ≡ false → a ≢ b
differ a b h = ground arith

blocks-Apart : Apart (
    (make_block no_entries (277504 / block_size) empty_disk).0
    ∷ path no_entries (277504 / block_size) empty_disk)
unfolding make_block make_double alloc_ptr alloc_if_zero
blocks-Apart =
    ((differ 102 100 refl, (differ 102 101 refl, tt)), ((differ 100 101 refl, tt), (tt, tt)))

there : no_block (make_block no_entries (277504 / block_size) empty_disk).0 ≡ false
unfolding make_block make_double alloc_ptr alloc_if_zero
there = refl

write-load_example :
    harddrive_load_blocks
      (harddrive_write_blocks ((λ i. i) ∷ []) no_entries 277504 empty_disk).1.disk
      (harddrive_write_blocks ((λ i. i) ∷ []) no_entries 277504 empty_disk).0
      277504
      1
    ≡ some ((λ i. i) ∷ [])
write-load_example =
    write-load no_entries 277504 empty_disk (λ i. i) (omega arith) there blocks-Apart

-- A pointer block that is made is not cleared: what the disk held there is taken for pointers.
stale_pointers : (make_single no_entries 3 (record empty_disk { disk = λ n i. 77 })).0 ≡ 77
unfolding make_single alloc_ptr alloc_if_zero
stale_pointers = refl
