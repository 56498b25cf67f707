-- ===== src/Files/OpenFile.antt =====
-- kernel/filesystem/estros-fs.c: open files, which read and write through a buffer of five blocks.
use bitloader.Prelude.{
  Bool, List, Option, [], get_elem?, if◌then◌else◌, leb, ltb, none, not, some, suc, zero, ℕ, ◌%◌,
  ◌&&◌, ◌*◌, ◌+◌, ◌-◌, ◌/◌, ◌==◌, ◌^◌, ◌||◌, ◌∷◌,
}
use bitloader.Prelude.Run.{Run, fault, out_of_fuel, returns, ◌>>=◌}
use bitloader.Prelude.Words.{add32, sub32}
use bitloader.Files.{
  Block, Disk, FileSystem, block_size, harddrive_load_blocks, harddrive_write_blocks,
}
use bitloader.Files.Inodes.{Inode, write_inode}

abbrev pub buffer_size_blocks : ℕ
buffer_size_blocks = 5

abbrev pub buffer_bytes : ℕ
buffer_bytes = buffer_size_blocks * block_size

abbrev pub Memory : Type 0
Memory = ℕ → ℕ

-- A `VFSIndexNode` of this file system, with its `InodeData`.
pub record FsNode : Type 0 where
  pub type : ℕ
  pub size : ℕ
  pub inode_number : ℕ
  pub blocks : ℕ → ℕ

-- A `VFSFile` with its `FileData`; `buffer` is `none` where the pointer is NULL.
pub record FsFile : Type 0 where
  pub position : ℕ
  pub buffer : Option Memory
  pub range_low : ℕ
  pub range_high : ℕ

abbrev pub vfstofs : FsNode → Inode
vfstofs node = record { type = node.type; size = node.size; blocks = node.blocks; reserved = 0 }

abbrev pub fstovfs : Inode → ℕ → FsNode
fstovfs inode inode_number = record {
  type = inode.type;
  size = inode.size;
  inode_number = inode_number;
  blocks = inode.blocks;
}

-- The answers of `malloc` for the file, its data and the buffer, 0 for NULL; `bytes` is what the
-- buffer holds. The file, or NULL, and what is freed again.
unfoldable pub fs_open : (file private_data buffer : ℕ) → Memory → Option FsFile × List ℕ
fs_open file private_data buffer bytes =
    if file == 0
    then (none, [])
    else if private_data == 0
    then (none, file ∷ [])
    else if buffer == 0
    then (none, private_data ∷ file ∷ [])
    else (some (record { position = 0; buffer = some bytes; range_low = 0; range_high = 0 }), [])

-- What is freed: the buffer is not.
unfoldable pub fs_close : (file private_data : ℕ) → List ℕ
fs_close file private_data = if private_data == 0 then file ∷ [] else private_data ∷ file ∷ []

-- The byte `o` of a block, lowest first in each word.
abbrev pub block_byte : Block → ℕ → ℕ
block_byte b o = b (o / 4) / 256 ^ (o % 4) % 256

-- The blocks that are loaded stand in the buffer from its start.
abbrev pub with_blocks : List Block → Memory → Memory
with_blocks loaded old o = elim (get_elem? loaded (o / block_size)) [
  | none ↦ old o
  | some b ↦ block_byte b (o % block_size)
]

abbrev pub outside : ℕ → FsFile → Bool
outside n file =
    ltb file.range_high (add32 file.position n)
    || ltb file.position file.range_low
    || file.range_high == file.range_low

abbrev pub window : FsFile → Memory → FsFile
window file bytes =
    let low = file.position / block_size * block_size in
    record file { buffer = some bytes; range_low = low; range_high = add32 low buffer_bytes }

-- The buffer loaded for `n` bytes at the position, where it does not have them; `none` where the
-- first block is missing. A buffer at NULL is a fault.
unfoldable pub refill_buffer : Disk → FsNode → ℕ → FsFile → Option Memory → Run (Option FsFile)
unfolding harddrive_load_blocks
refill_buffer disk node n file none = fault
refill_buffer disk node n file (some old) =
    let loaded = harddrive_load_blocks disk node.blocks file.position buffer_size_blocks in
    if not (outside n file) then returns (some file) else elim loaded [
      | none ↦ returns none
      | some blocks ↦ returns (some (window file (with_blocks blocks old)))
    ]

abbrev pub refill : Disk → FsNode → ℕ → FsFile → Run (Option FsFile)
refill disk node n file = refill_buffer disk node n file file.buffer

abbrev pub buffer_of : FsFile → Memory
buffer_of file = elim file.buffer [ none ↦ (λ o. 0) | some bytes ↦ bytes ]

abbrev pub copy_out : ℕ → FsFile → Memory → Memory
copy_out n file buffer i =
    if ltb i n then buffer_of file (i + file.position - file.range_low) else buffer i

abbrev pub ReadResult : Type 0
ReadResult = ℕ × Memory × FsFile

-- A round after its refill; `again` is the rest of the loop. Bytes past the file's own buffer are a
-- fault.
unfoldable pub read_round :
    (again : Memory → FsFile → Run ReadResult) (n : ℕ)
    → Memory
    → FsFile
    → Option FsFile
    → Run ReadResult
read_round again n buffer file none = returns (0, buffer, file)
read_round again n buffer file (some f) =
    if ltb buffer_bytes (f.position + n - f.range_low)
    then fault
    else again (copy_out n f buffer) (record f { position = add32 f.position n })

-- `remaining` bytes are left, and `n` go with each round, to the start of the caller's buffer.
unfoldable pub read_loop :
    (fuel : ℕ) → Disk → FsNode → (remaining n bytes_read : ℕ) → Memory → FsFile → Run ReadResult
read_loop zero disk node remaining n bytes_read buffer file = out_of_fuel
read_loop (suc fuel) disk node remaining n bytes_read buffer file =
    let n1 = if ltb buffer_bytes remaining then buffer_bytes else n in
    let again = read_loop fuel disk node (sub32 remaining n1) n1 (add32 bytes_read n1) in
    if remaining == 0
    then returns (bytes_read, buffer, file)
    else refill disk node n1 file >>= read_round again n1 buffer file

-- What is read, the caller's buffer and the file.
unfoldable pub fs_read : (fuel : ℕ) → Disk → FsNode → ℕ → Memory → FsFile → Run ReadResult
unfolding read_loop
fs_read fuel disk node buffer_size buffer file =
    let n =
      if ltb node.size (add32 buffer_size file.position)
      then node.size - file.position
      else buffer_size in
    if buffer_size == 0
    then returns (0, buffer, file)
    else if leb node.size file.position
    then returns (0, buffer, file)
    else read_loop fuel disk node n n 0 buffer file

abbrev pub copy_in : ℕ → ℕ → Memory → Memory → Memory
copy_in n at source bytes o = if leb at o && ltb o (at + n) then source (o - at) else bytes o

-- The block `k` of a buffer, word by word.
abbrev pub block_at : Memory → ℕ → Block
block_at bytes k w =
    let o = k * block_size + w * 4 in
    bytes o + bytes (o + 1) * 256 + bytes (o + 2) * 256 ^ 2 + bytes (o + 3) * 256 ^ 3

abbrev pub blocks_of : Memory → ℕ → List Block
blocks_of bytes zero = []
blocks_of bytes (suc n) = block_at bytes 0 ∷ blocks_of (λ o. bytes (o + block_size)) n

-- The buffer for a write: of a file of size 0 it is a new one, which holds `fresh`, or NULL, and the
-- use of that is a fault.
unfoldable pub refill_write : Option Memory → Disk → FsNode → ℕ → FsFile → Run (Option FsFile)
refill_write fresh disk node n file =
    if outside n file && node.size == 0
    then elim fresh [ none ↦ fault | some bytes ↦ returns (some (window file bytes)) ]
    else refill disk node n file

abbrev pub Written : Type 0
Written = ℕ × FileSystem × FsNode × FsFile

-- How many of the buffer's blocks go to the disk, for a file of that size.
abbrev pub number_to_write : ℕ → ℕ
number_to_write size =
    if ltb (size / block_size + 1) 5 then add32 size (block_size - 1) / block_size else 5

-- The bytes go into the buffer, and the buffer's blocks and the inode to the disk.
unfoldable pub write_out : ℕ → Memory → FileSystem → FsNode → FsFile → Memory → Written
unfolding harddrive_write_blocks
write_out n source fs node file bytes =
    let filled = copy_in n (file.position - file.range_low) source bytes in
    let position = add32 file.position n in
    let size = if ltb node.size position then position else node.size in
    let w =
      harddrive_write_blocks (blocks_of filled (number_to_write size)) node.blocks file.range_low
        fs in
    let node1 : FsNode = record node { size = size; blocks = w.0 } in
    let disk = write_inode (vfstofs node1) node.inode_number w.1.disk in
    (
      n,
      record w.1 { disk = disk },
      node1,
      record file { position = position; buffer = some filled },
    )

-- Where the first block is missing, nothing is written, and the buffer is NULL from then on. A store
-- past the buffer is a fault.
unfoldable pub write_refilled :
    ℕ → Memory → FileSystem → FsNode → FsFile → Option FsFile → Run Written
write_refilled n source fs node file none = returns (0, fs, node, record file { buffer = none })
write_refilled n source fs node file (some f) =
    if ltb buffer_bytes (f.position + n - f.range_low)
    then fault
    else returns (write_out n source fs node f (buffer_of f))

unfoldable pub fs_write : Option Memory → ℕ → Memory → FileSystem → FsNode → FsFile → Run Written
fs_write fresh buffer_size source fs node file =
    refill_write fresh fs.disk node buffer_size file
    >>= write_refilled buffer_size source fs node file

abbrev pub vfs_beg : ℕ
vfs_beg = 1

abbrev pub vfs_cur : ℕ
vfs_cur = 2

abbrev pub vfs_end : ℕ
vfs_end = 3

-- Unsigned: where the size is 0, `size - 1` is the largest number.
unfoldable pub fs_seek : FsNode → ℕ → ℕ → FsFile → FsFile
fs_seek node offset whence file =
    let last = sub32 node.size 1 in
    let moved = add32 offset file.position in
    if whence == vfs_beg
    then record file { position = if ltb offset last then offset else last }
    else if whence == vfs_cur
    then record file { position = if ltb moved last then moved else add32 file.position last }
    else if whence == vfs_end
    then record file { position = if ltb 0 (sub32 last offset) then sub32 node.size offset else 0 }
    else file

abbrev pub fs_tell : FsFile → ℕ
fs_tell file = file.position
