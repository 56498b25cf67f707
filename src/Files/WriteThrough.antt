-- ===== src/Files/WriteThrough.antt =====
-- kernel/filesystem/estros-fs.c: the bytes that `fs_write` takes are the file's bytes on the disk.
use bitloader.Prelude.{
  Bool-cases, Option, ap, arith, false, if◌then◌else◌, inl, inr, leb, ltb, refl, some, sym, true, ℕ,
  ◌%◌, ◌&&◌, ◌*◌, ◌+◌, ◌-◌, ◌/◌, ◌<◌, ◌==◌, ◌^◌, ◌∙◌, ◌≡◌, ◌≢◌, ◌≤◌,
}
use bitloader.Prelude.Words.{add32}
use bitloader.Files.{
  Disk, FileSystem, block_size, find_block, harddrive_write_blocks, num_direct_blocks, place,
}
use bitloader.Files.Inodes.{Inode, inode_sector, write_inode}
use bitloader.Files.OpenFile.{
  FsFile, FsNode, Memory, Written, block_at, buffer_bytes, copy_in, fs_write, number_to_write,
  outside, refill_write, vfstofs, write_out,
}
use bitloader.Files.ReadDisk.{Cached, file_byte}
use bitloader.Files.WordBytes.{AreBytes, byte_of-word, pick}
use bitloader.Files.WriteDisk.{Placed, left, left-written}
use bitloader.Prelude.Run.{returns}
use bitloader.Files.ReadBack.{
  InBuffer, WrittenOk, copied-source, fs_write-write_out, write_out-WrittenOk,
}

write_inode-others :
    (i : Inode) (n q w : ℕ) (disk : Disk)
    → q ≢ inode_sector n / 2
    → write_inode i n disk q w ≡ disk q w
unfolding write_inode
write_inode-others i n q w disk apart =
    let other : (q == inode_sector n / 2) ≡ false = ground arith in rw other refl

enough_written : (size p k : ℕ) → p < size → k ≤ p / block_size → k < 5 → k < number_to_write size
enough_written size p k in_file before five = elim (Bool-cases (ltb (size / block_size + 1) 5)) [
  | inl few ↦
      let small : size < 5120 = ground arith in
      let exact : add32 size (block_size - 1) ≡ size + 1023 = omega arith in
      rw few (rw exact (omega arith))
  | inr many ↦ rw many five
]

few_written : (size : ℕ) → number_to_write size ≤ 5
few_written size = elim (Bool-cases (ltb (size / block_size + 1) 5)) [
  | inl few ↦
      let small : size < 4096 = ground arith in
      let exact : add32 size (block_size - 1) ≡ size + 1023 = omega arith in
      rw few (rw exact (omega arith))
  | inr many ↦ rw many (omega arith)
]

copied_bytes :
    (n at : ℕ) (source bytes : Memory)
    → AreBytes n source
    → AreBytes buffer_bytes bytes
    → AreBytes buffer_bytes (copy_in n at source bytes)
copied_bytes n at source bytes small_source small o o_in =
    elim (Bool-cases (leb at o && ltb o (at + n))) [
      | inl inside ↦ rw inside (small_source (o - at) (ground arith))
      | inr outside ↦ rw outside (small o o_in)
    ]

module _ (n : ℕ) (source : Memory) (fs : FileSystem) (node : FsNode) (f : FsFile)
    (bytes : Memory) where
  abbrev filled : Memory
  filled = copy_in n (f.position - f.range_low) source bytes

  abbrev size : ℕ
  size = if ltb node.size (add32 f.position n) then add32 f.position n else node.size

  abbrev count : ℕ
  count = number_to_write size

  abbrev stored : (ℕ → ℕ) × FileSystem
  stored = left filled count node.blocks f.range_low 0 fs

  abbrev node1 : FsNode
  node1 = record node { size = size; blocks = stored.0 }

  abbrev disk1 : Disk
  disk1 = write_inode (vfstofs node1) node.inode_number stored.1.disk

  stored-byte :
      (p : ℕ)
      → f.range_low % block_size ≡ 0
      → f.range_low + buffer_bytes ≤ num_direct_blocks * block_size
      → AreBytes n source
      → AreBytes buffer_bytes bytes
      → Placed stored.0 (f.range_low / block_size) count
      → ((k : ℕ)
          → k < count
          → place (stored.0 (f.range_low / block_size + k)) ≢ inode_sector node.inode_number / 2)
      → f.range_low ≤ p
      → p < f.range_low + buffer_bytes
      → p < size
      → filled (p - f.range_low) ≡ file_byte disk1 node1 p
  unfolding find_block
  stored-byte p aligned direct small_source small placed off_inode from to in_file =
      let k = (p - f.range_low) / block_size in
      let o = p % block_size in
      let a = f.range_low / block_size in
      let row : p / block_size ≡ a + 0 + k = omega arith in
      let k_in = enough_written size p k in_file (omega arith) (omega arith) in
      let few = few_written size in
      let at_0 : a + 0 ≡ a = omega arith in
      let low : ltb (a + k) num_direct_blocks ≡ true = ground arith in
      let words =
        left-written filled count node.blocks f.range_low 0 fs k (o / 4) (omega arith)
          (rw at_0 placed) k_in in
      let apart : place (stored.0 (a + k)) ≢ inode_sector node.inode_number / 2 =
        off_inode k k_in in
      let word : disk1 (place (stored.0 (a + k))) (o / 4) ≡ block_at filled k (o / 4) =
        write_inode-others (vfstofs node1) node.inode_number (place (stored.0 (a + k))) (o / 4)
          stored.1.disk apart
        ∙ (rw at_0 at words) in
      let start = k * block_size + o / 4 * 4 in
      let place_o : start + o % 4 ≡ p - f.range_low = omega arith in
      let whole = copied_bytes n (f.position - f.range_low) source bytes small_source small in
      sym (
        rw row (
          rw at_0 (
            rw low (
              ap (λ v. v / 256 ^ (o % 4) % 256) word
              ∙ byte_of-word (filled start) (filled (start + 1)) (filled (start + 2))
                  (filled (start + 3)) (o % 4) (whole start (omega arith))
                  (whole (start + 1) (omega arith)) (whole (start + 2) (omega arith))
                  (whole (start + 3) (omega arith)) (omega arith)
              ∙ pick filled start (o % 4) (omega arith)
              ∙ ap filled place_o))))

  abbrev result : Written
  result = write_out n source fs node f bytes

  result-Cached :
      InBuffer n f bytes
      → f.range_low % block_size ≡ 0
      → f.range_low + buffer_bytes ≤ num_direct_blocks * block_size
      → AreBytes n source
      → AreBytes buffer_bytes bytes
      → Placed stored.0 (f.range_low / block_size) count
      → ((k : ℕ)
          → k < count
          → place (stored.0 (f.range_low / block_size + k)) ≢ inode_sector node.inode_number / 2)
      → Cached result.1.disk result.2 result.3
  unfolding write_out harddrive_write_blocks
  result-Cached inb aligned direct small_source small placed off_inode p from to in_file =
      let high = inb.high in
      stored-byte p aligned direct small_source small placed off_inode from (omega arith) in_file

  result-source :
      InBuffer n f bytes
      → Cached result.1.disk result.2 result.3
      → (i : ℕ) → i < n
      → file_byte result.1.disk result.2 (f.position + i) ≡ source i
  unfolding write_out harddrive_write_blocks
  result-source inb cached i i_in =
      let from = inb.from in
      let to = inb.to in
      let high = inb.high in
      let small = inb.small in
      let sum : add32 f.position n ≡ f.position + n = omega arith in
      let in_file : f.position + i < result.2.size = rw sum (ground arith) in
      let swap : f.position + i ≡ i + f.position = omega arith in
      sym (cached (f.position + i) (omega arith) (omega arith) in_file)
      ∙ ap (λ p. filled (p - f.range_low)) swap
      ∙ copied-source n source bytes bytes f.range_low f.position i from i_in

-- `fs_write` of `n` bytes that the file's buffer has room for, after it is refilled, returns `n`: the
-- position and the size grow, the inode on the disk is the file's, and seeking back and reading `n`
-- bytes gives the bytes that were written. They are the file's bytes on the disk, and so are all the
-- others of the file in its buffer. The buffer is for the file's first ten blocks, the entries of the blocks
-- that are written are blocks at different places, none of them the inode's, and the buffer holds bytes.
pub fs_write-WrittenOk :
    (fresh : Option Memory) (n : ℕ) (source : Memory) (fs : FileSystem) (node : FsNode)
    (file f : FsFile) (bytes : Memory)
    → n ≢ 0
    → refill_write fresh fs.disk node n file ≡ returns (some f)
    → InBuffer n f bytes
    → node.inode_number < 2 ^ 25
    → node.size < 2 ^ 32
    → f.range_low % block_size ≡ 0
    → f.range_low + buffer_bytes ≤ num_direct_blocks * block_size
    → AreBytes n source
    → AreBytes buffer_bytes bytes
    → Placed
        (write_out n source fs node f bytes).2.blocks
        (f.range_low / block_size)
        (number_to_write (write_out n source fs node f bytes).2.size)
    → ((k : ℕ)
        → k < number_to_write (write_out n source fs node f bytes).2.size
        → place ((write_out n source fs node f bytes).2.blocks (f.range_low / block_size + k))
          ≢ inode_sector node.inode_number / 2)
    → (fs1 : FileSystem) × (node1 : FsNode) × (file1 : FsFile) × (fs_write fresh n source fs node
          file
        ≡ returns (n, fs1, node1, file1))
      × WrittenOk n source node f fs1 node1 file1
      × ((i : ℕ) → i < n → file_byte fs1.disk node1 (f.position + i) ≡ source i)
      × Cached fs1.disk node1 file1
unfolding write_out harddrive_write_blocks
fs_write-WrittenOk fresh n source fs node file f bytes some_n refilled inb node_in size_in aligned
      direct small_source small placed off_inode =
    let r = write_out n source fs node f bytes in
    let cached =
      result-Cached n source fs node f bytes inb aligned direct small_source small placed
        off_inode in
    (
      r.1,
      r.2,
      r.3,
      fs_write-write_out fresh n source fs node file f bytes refilled inb,
      write_out-WrittenOk n some_n source fs node f bytes inb node_in size_in,
      result-source n source fs node f bytes inb cached,
      cached,
    )
