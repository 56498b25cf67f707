-- ===== src/Files/Directory/Create.antt =====
-- kernel/filesystem/estros-fs.c: a new file or directory in a directory.
use bitloader.Prelude.{
  List, Option, [], get_or, if◌then◌else◌, leb, length, ltb, none, not, some, ℕ, ◌%◌, ◌*◌, ◌++◌,
  ◌+◌, ◌-◌, ◌/◌, ◌==◌, ◌^◌, ◌∷◌,
}
use bitloader.Prelude.Run.{Run, fault, returns, ◌>>=◌}
use bitloader.Prelude.Words.{add32}
use bitloader.Files.{
  Disk, FileSystem, alloc_inode, block_size, harddrive_load_blocks, harddrive_write_blocks,
}
use bitloader.Files.Inodes.{Inode, write_inode}
use bitloader.Files.OpenFile.{Memory, blocks_of, copy_in, with_blocks}
use bitloader.Files.Directory.{directory, entry_size, resolve_inode, resolve_inode_number}

abbrev pub full_path : (path name : List ℕ) → List ℕ
full_path path name = if leb (length path) 1 then path ++ name else path ++ b'/' ∷ name

abbrev word_bytes : ℕ → List ℕ
word_bytes n = n % 256 ∷ n / 256 % 256 ∷ n / 256 ^ 2 % 256 ∷ n / 256 ^ 3 % 256 ∷ []

-- The header and the name.
abbrev pub new_entry : (inode_number : ℕ) → List ℕ → List ℕ
new_entry inode_number name =
    word_bytes inode_number
    ++ word_bytes (entry_size + length name)
    ++ word_bytes (length name)
    ++ name

-- Two blocks: zeros, or what is loaded over them. NULL where the first block is missing.
abbrev pub dir_buffer : Inode → Disk → Option Memory
dir_buffer inode disk =
    let zeros : Memory = λ o. 0 in
    if inode.size == 0
    then some zeros
    else elim (harddrive_load_blocks disk inode.blocks inode.size 2) [
      | none ↦ none
      | some blocks ↦ some (with_blocks blocks zeros)
    ]

-- The entry at the directory's end, and both inodes. The buffer is for the blocks from the size on, but
-- the entry goes to the size itself: behind two blocks that is a fault.
unfoldable pub add_entry :
    (rounds fuel : ℕ) (path name : List ℕ) (type : ℕ)
    → Inode
    → (inode_number : ℕ) → FileSystem
    → Option Memory
    → Run (ℕ × FileSystem)
add_entry rounds fuel path name type inode inode_number fs none = returns (1, fs)
add_entry rounds fuel path name type inode inode_number fs (some buffer) =
    let entry = new_entry inode_number name in
    let filled = copy_in (length entry) inode.size (λ i. get_or entry i 0) buffer in
    let w = harddrive_write_blocks (blocks_of filled 2) inode.blocks inode.size fs in
    let grown : Inode = record inode { size = add32 inode.size (length entry); blocks = w.0 } in
    let empty : Inode = record { type = type; size = 0; blocks = λ k. 0; reserved = 0 } in
    let fs1 = w.1 in
    if ltb (2 * block_size) (inode.size + length entry)
    then fault
    else resolve_inode_number rounds fuel path fs1 >>= λ number.
        let old : ℕ = elim number [ none ↦ 2 ^ 32 - 1 | some n ↦ n ] in
        let disk = write_inode empty inode_number (write_inode grown old fs1.disk) in
        returns (0, record fs1 { disk = disk })

-- 0 for success.
unfoldable pub create_inode :
    (rounds fuel : ℕ) (path name : List ℕ) (type : ℕ) → FileSystem → Run (ℕ × FileSystem)
create_inode rounds fuel path name type fs =
    let (inode_number, fs1) = alloc_inode fs in
    resolve_inode rounds fuel path fs >>= λ inode.
    if not (inode.type == directory)
    then returns (1, fs)
    else resolve_inode rounds fuel (full_path path name) fs >>= λ taken.
        if not (taken.type == 0)
        then returns (1, fs)
        else add_entry rounds fuel path name type inode inode_number fs1 (dir_buffer inode fs1.disk)
