-- ===== src/Files.antt =====
-- kernel/filesystem/estros-fs.c: where the blocks of a file lie on the disk. The disk is blocks of
-- 256 pointers, which the harddrive's VFS file reads and writes; data blocks are such blocks too.
pub mod RoundTrip
pub mod Inodes
pub mod OpenFile
pub mod WordBytes
pub mod WriteDisk
pub mod WriteThrough
pub mod ReadBack
pub mod ReadDisk
pub mod Seek
pub mod Directory
mod Tests
mod FileTests
use bitloader.Prelude.{
  Bool, List, Option, [], if◌then◌else◌, ltb, none, some, suc, zero, ℕ, ◌%◌, ◌*◌, ◌+◌, ◌-◌, ◌/◌,
  ◌==◌, ◌^◌, ◌||◌, ◌∷◌,
}

abbrev pub block_size : ℕ
block_size = 1024

abbrev pub ptrs_per_block : ℕ
ptrs_per_block = 256

abbrev pub num_direct_blocks : ℕ
num_direct_blocks = 10

abbrev pub single_indirect_index : ℕ
single_indirect_index = 10

abbrev pub double_indirect_index : ℕ
double_indirect_index = 11

abbrev pub triple_indirect_index : ℕ
triple_indirect_index = 12

abbrev pub Block : Type 0
Block = ℕ → ℕ

abbrev pub Disk : Type 0
Disk = ℕ → Block

-- `vfs_seek(harddrive, n * BLOCK_SIZE, VFS_BEG)`: the byte offset has 32 bits.
abbrev pub place : ℕ → ℕ
place n = n % 2 ^ 22

abbrev pub read_block : Disk → ℕ → Block
read_block disk n = disk (place n)

abbrev pub write_block : ℕ → Block → Disk → Disk
write_block n b disk m = if m == place n then b else disk m

abbrev pub set_ptr : ℕ → ℕ → (ℕ → ℕ) → ℕ → ℕ
set_ptr i v b j = if j == i then v else b j

-- The entries of the single, double and triple indirect blocks.
unfoldable pub find_single : Disk → (ℕ → ℕ) → ℕ → ℕ
find_single disk blocks index = read_block disk (blocks single_indirect_index) index

unfoldable pub find_double : Disk → (ℕ → ℕ) → ℕ → ℕ
find_double disk blocks index =
    read_block disk (read_block disk (blocks double_indirect_index) (index / ptrs_per_block))
      (index % ptrs_per_block)

unfoldable pub find_triple : Disk → (ℕ → ℕ) → ℕ → ℕ
find_triple disk blocks index =
    let l1 = index / (ptrs_per_block * ptrs_per_block) in
    let l2 = index / ptrs_per_block % ptrs_per_block in
    let double = read_block disk (blocks triple_indirect_index) l1 in
    read_block disk (read_block disk double l2) (index % ptrs_per_block)

-- The real block of a file's block `block_n`, by the 13 entries of its inode.
unfoldable pub find_block : Disk → (ℕ → ℕ) → ℕ → ℕ
find_block disk blocks block_n =
    let n1 = ptrs_per_block in
    let n2 = ptrs_per_block * ptrs_per_block in
    if ltb block_n num_direct_blocks
    then blocks block_n
    else if ltb block_n (num_direct_blocks + n1)
    then find_single disk blocks (block_n - num_direct_blocks)
    else if ltb block_n (num_direct_blocks + n1 + n2)
    then find_double disk blocks (block_n - num_direct_blocks - n1)
    else find_triple disk blocks (block_n - num_direct_blocks - n1 - n2)

abbrev pub no_block : ℕ → Bool
no_block real = real == 0 || real == 0xffff_ffff

-- `n` blocks are left to load, and `i` are there. A block that is missing ends the loop; the
-- buffer holds the ones before.
unfoldable pub load_loop : Disk → (ℕ → ℕ) → ℕ → ℕ → ℕ → List Block
load_loop disk blocks pos zero i = []
load_loop disk blocks pos (suc n) i =
    let real = find_block disk blocks ((pos + i * block_size) % 2 ^ 32 / block_size) in
    let rest = load_loop disk blocks pos n (i + 1) in
    if no_block real then [] else read_block disk real ∷ rest

-- The blocks loaded, or NULL where the first one is missing.
pub harddrive_load_blocks : Disk → (ℕ → ℕ) → ℕ → ℕ → Option (List Block)
harddrive_load_blocks disk blocks pos num_blocks =
    let loaded = load_loop disk blocks pos num_blocks 0 in
    if num_blocks == 0 then some [] else elim loaded [ [] ↦ none | b ∷ bs ↦ some (b ∷ bs) ]

-- The disk, and the fields of `super_block` in memory.
pub record FileSystem : Type 0 where
  pub disk : Disk
  pub n_blocks : ℕ
  pub n_inodes : ℕ
  pub root_inode : ℕ

-- The super block is written back too; its sector is none of the file system's blocks here.
abbrev pub alloc_block : FileSystem → ℕ × FileSystem
alloc_block fs = (fs.n_blocks, record fs { n_blocks = (fs.n_blocks + 1) % 2 ^ 32 })

abbrev pub alloc_inode : FileSystem → ℕ × FileSystem
alloc_inode fs = (fs.n_inodes, record fs { n_inodes = (fs.n_inodes + 1) % 2 ^ 32 })

-- `if (*entry == 0) *entry = alloc_block();`
unfoldable pub alloc_if_zero : ℕ → FileSystem → ℕ × FileSystem
alloc_if_zero entry fs = if entry == 0 then alloc_block fs else (entry, fs)

-- A pointer block's entry, which is allocated and written back where it is 0.
unfoldable pub alloc_ptr : ℕ → ℕ → FileSystem → ℕ × FileSystem
alloc_ptr block index fs =
    let ptrs = read_block fs.disk block in
    let a = alloc_block fs in
    if ptrs index == 0
    then (a.0, record a.1 { disk = write_block block (set_ptr index a.0 ptrs) fs.disk })
    else (ptrs index, fs)

abbrev pub Made : Type 0
Made = ℕ × (ℕ → ℕ) × FileSystem

unfoldable pub make_direct : (ℕ → ℕ) → ℕ → FileSystem → Made
make_direct blocks block_n fs =
    let a = alloc_if_zero (blocks block_n) fs in (a.0, set_ptr block_n a.0 blocks, a.1)

unfoldable pub make_single : (ℕ → ℕ) → ℕ → FileSystem → Made
make_single blocks index fs =
    let a = alloc_if_zero (blocks single_indirect_index) fs in
    let b = alloc_ptr a.0 index a.1 in (b.0, set_ptr single_indirect_index a.0 blocks, b.1)

unfoldable pub make_double : (ℕ → ℕ) → ℕ → FileSystem → Made
make_double blocks index fs =
    let a = alloc_if_zero (blocks double_indirect_index) fs in
    let b = alloc_ptr a.0 (index / ptrs_per_block) a.1 in
    let c = alloc_ptr b.0 (index % ptrs_per_block) b.1 in
    (c.0, set_ptr double_indirect_index a.0 blocks, c.1)

-- The real block for a file's block, made where it is missing; the entries of the inode then. Blocks
-- that only the triple indirect entry could reach are not made.
unfoldable pub make_block : (ℕ → ℕ) → ℕ → FileSystem → Made
make_block blocks block_n fs =
    let n1 = ptrs_per_block in
    let n2 = ptrs_per_block * ptrs_per_block in
    if ltb block_n num_direct_blocks
    then make_direct blocks block_n fs
    else if ltb block_n (num_direct_blocks + n1)
    then make_single blocks (block_n - num_direct_blocks) fs
    else if ltb block_n (num_direct_blocks + n1 + n2)
    then make_double blocks (block_n - num_direct_blocks - n1) fs
    else (0xffff_ffff, blocks, fs)

-- The blocks of the buffer that are left, `i` of them written.
unfoldable pub write_loop : List Block → (ℕ → ℕ) → ℕ → ℕ → FileSystem → (ℕ → ℕ) × FileSystem
write_loop [] blocks pos i fs = (blocks, fs)
write_loop (b ∷ bs) blocks pos i fs =
    let made = make_block blocks ((pos + i * block_size) % 2 ^ 32 / block_size) fs in
    let rest =
      write_loop bs made.1 pos (i + 1)
        (record made.2 { disk = write_block made.0 b made.2.disk }) in
    if no_block made.0 then (made.1, made.2) else rest

pub harddrive_write_blocks : List Block → (ℕ → ℕ) → ℕ → FileSystem → (ℕ → ℕ) × FileSystem
harddrive_write_blocks buffer blocks pos fs = write_loop buffer blocks pos 0 fs
