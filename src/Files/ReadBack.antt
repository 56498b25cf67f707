-- ===== src/Files/ReadBack.antt =====
-- kernel/filesystem/estros-fs.c: what is written to an open file is read back from it.
use bitloader.Prelude.{
  Option, ap, arith, false, if◌then◌else◌, leb, ltb, max, none, refl, some, suc, true, ℕ, ◌&&◌, ◌+◌,
  ◌-◌, ◌<◌, ◌==◌, ◌^◌, ◌∙◌, ◌≡◌, ◌≢◌, ◌≤◌,
}
use bitloader.Prelude.Run.{returns, ◌>>=◌}
use bitloader.Prelude.Words.{add32, sub32}
use bitloader.Files.{Disk, FileSystem}
use bitloader.Files.OpenFile.{
  FsFile, FsNode, Memory, Written, buffer_bytes, buffer_of, copy_in, copy_out, fs_read, fs_seek,
  fs_write, outside, read_loop, read_round, refill, refill_buffer, refill_write, vfs_beg, vfstofs,
  write_out, write_refilled,
}
use bitloader.Files.Inodes.{SameInode, fetch_inode, write_inode_self}

-- `n` bytes at the position lie in the file's buffer.
pub record InBuffer (n : ℕ) (file : FsFile) (bytes : Memory) : Type 0 where
  pub buffer : file.buffer ≡ some bytes
  pub from : file.range_low ≤ file.position
  pub to : file.position + n ≤ file.range_low + buffer_bytes
  pub high : file.range_high ≡ file.range_low + buffer_bytes
  pub small : file.range_high < 2 ^ 32

inside : (n : ℕ) (file : FsFile) (bytes : Memory) → InBuffer n file bytes → outside n file ≡ false
inside n file bytes inb =
    let from = inb.from in
    let to = inb.to in
    let high = inb.high in
    let small = inb.small in
    let sum : add32 file.position n ≡ file.position + n = omega arith in rw sum (ground arith)

refill-inside :
    (disk : Disk) (node : FsNode) (n : ℕ) (file : FsFile) (bytes : Memory)
    → InBuffer n file bytes
    → refill disk node n file ≡ returns (some file)
unfolding refill_buffer
refill-inside disk node n file bytes inb =
    let in_it = inside n file bytes inb in
    ap (refill_buffer disk node n file) inb.buffer ∙ rw in_it refl

-- Bytes that are in the buffer after its refill are read from it in one round.
read_loop-refilled :
    (fuel : ℕ) (disk : Disk) (node : FsNode) (n : ℕ) (buffer : Memory) (file f : FsFile)
    (bytes : Memory)
    → refill disk node n file ≡ returns (some f)
    → InBuffer n f bytes
    → n ≢ 0
    → read_loop (suc (suc fuel)) disk node n n 0 buffer file
      ≡ returns (n, copy_out n f buffer, record f { position = f.position + n })
unfolding read_loop read_round
read_loop-refilled fuel disk node n buffer file f bytes refilled inb some_n =
    let from = inb.from in
    let to = inb.to in
    let high = inb.high in
    let small = inb.small in
    let one : ltb buffer_bytes n ≡ false = ground arith in
    let more : (n == 0) ≡ false = ground arith in
    let fits : ltb buffer_bytes (f.position + n - f.range_low) ≡ false = ground arith in
    let left : sub32 n n ≡ 0 = omega arith in
    let sum : add32 f.position n ≡ f.position + n = omega arith in
    let all : add32 0 n ≡ n = omega arith in
    rw one (rw more (rw refilled (rw fits (rw left (rw sum (rw all refl))))))

pub fs_read-refilled :
    (fuel : ℕ) (disk : Disk) (node : FsNode) (n : ℕ) (buffer : Memory) (file f : FsFile)
    (bytes : Memory)
    → refill disk node n file ≡ returns (some f)
    → InBuffer n f bytes
    → f.position ≡ file.position
    → n ≢ 0
    → file.position + n ≤ node.size
    → fs_read (suc (suc fuel)) disk node n buffer file
      ≡ returns (n, copy_out n f buffer, record f { position = f.position + n })
unfolding fs_read
fs_read-refilled fuel disk node n buffer file f bytes refilled inb same some_n in_file =
    let to = inb.to in
    let high = inb.high in
    let small = inb.small in
    let sum : add32 n file.position ≡ file.position + n = omega arith in
    let more : (n == 0) ≡ false = ground arith in
    let before_end : leb node.size file.position ≡ false = ground arith in
    let whole : ltb node.size (file.position + n) ≡ false = ground arith in
    rw more (
      rw before_end (
        rw sum
          (rw whole (read_loop-refilled fuel disk node n buffer file f bytes refilled inb some_n))))

-- The copy of the caller's bytes.
pub copied-source :
    (n : ℕ) (source bytes buffer : Memory) (low at i : ℕ)
    → low ≤ at
    → i < n
    → copy_in n (at - low) source bytes (i + at - low) ≡ source i
copied-source n source bytes buffer low at i from small =
    let spot : i + at - low ≡ i + (at - low) = omega arith in
    let in_it : (leb (at - low) (i + (at - low)) && ltb (i + (at - low)) (at - low + n)) ≡ true =
      ground arith in
    let back : i + (at - low) - (at - low) ≡ i = omega arith in rw spot (rw in_it (ap source back))

-- What a write did: the position and the size, the inode on the disk, and what a read at the place
-- gives.
pub record WrittenOk (n : ℕ) (source : Memory) (node : FsNode) (file : FsFile) (fs1 : FileSystem)
    (node1 : FsNode) (file1 : FsFile) : Type 0 where
  pub position : file1.position ≡ file.position + n
  pub size : node1.size ≡ max node.size (file.position + n)
  pub inode : SameInode (fetch_inode node.inode_number fs1.disk) (vfstofs node1)
  pub read_back :
      (fuel : ℕ) (disk : Disk) (buffer : Memory)
      → (got : Memory) × (file2 : FsFile) × (fs_read
            (suc (suc fuel))
            disk
            node1
            n
            buffer
            (fs_seek node1 file.position vfs_beg file1)
          ≡ returns (n, got, file2))
        × (file2.position ≡ file.position + n)
        × ((i : ℕ) → i < n → got i ≡ source i)

module _ (n : ℕ) (some_n : n ≢ 0) (source : Memory) (fs : FileSystem) (node : FsNode) (f : FsFile)
    (bytes : Memory) (inb : InBuffer n f bytes) (node_in : node.inode_number < 2 ^ 25)
    (size_in : node.size < 2 ^ 32) where
  abbrev result : Written
  result = write_out n source fs node f bytes

  abbrev filled : Memory
  filled = copy_in n (f.position - f.range_low) source bytes

  -- The file after the write, with its position back at the place.
  abbrev back : FsFile
  back = record f { buffer = some filled }

  seek_back :
      (size : ℕ)
      → f.position + n ≤ size
      → size < 2 ^ 32
      → (if ltb f.position (sub32 size 1) then f.position else sub32 size 1) ≡ f.position
  seek_back size in_file small = ground arith

  read_back_lem :
      (node1 : FsNode) (position1 : ℕ)
      → f.position + n ≤ node1.size
      → node1.size < 2 ^ 32
      → (fuel : ℕ) (disk : Disk) (buffer : Memory)
      → (got : Memory) × (file2 : FsFile) × (fs_read
            (suc (suc fuel))
            disk
            node1
            n
            buffer
            (fs_seek node1 f.position vfs_beg (record back { position = position1 }))
          ≡ returns (n, got, file2))
        × (file2.position ≡ f.position + n)
        × ((i : ℕ) → i < n → got i ≡ source i)
  unfolding fs_seek
  read_back_lem node1 position1 in_file small fuel disk buffer =
      let inb1 : InBuffer n back filled = record {
        buffer = refl;
        from = inb.from;
        to = inb.to;
        high = inb.high;
        small = inb.small;
      } in
      let at = seek_back node1.size in_file small in
      (
        copy_out n back buffer,
        record back { position = f.position + n },
        ap (λ p. fs_read (suc (suc fuel)) disk node1 n buffer (record back { position = p })) at
            ∙ fs_read-refilled fuel disk node1 n buffer back back filled
                (refill-inside disk node1 n back filled inb1) inb1 refl some_n in_file,
        refl,
        λ i i_in.
            (let less : ltb i n ≡ true = ground arith in
              rw less (copied-source n source bytes buffer f.range_low f.position i inb.from i_in)),
      )

  pub write_out-WrittenOk : WrittenOk n source node f result.1 result.2 result.3
  unfolding write_out
  write_out-WrittenOk =
      let from = inb.from in
      let to = inb.to in
      let high = inb.high in
      let small = inb.small in
      let sum : add32 f.position n ≡ f.position + n = omega arith in
      record {
        position = sum;
        size = rw sum (ground arith);
        inode = write_inode_self (vfstofs result.2) node.inode_number _ node_in;
        read_back =
            let grown : f.position + n ≤ result.2.size = rw sum (ground arith) in
            let fits : result.2.size < 2 ^ 32 = rw sum (ground arith) in
            read_back_lem result.2 (add32 f.position n) grown fits;
      }

pub fs_write-write_out :
    (fresh : Option Memory) (n : ℕ) (source : Memory) (fs : FileSystem) (node : FsNode)
    (file f : FsFile) (bytes : Memory)
    → refill_write fresh fs.disk node n file ≡ returns (some f)
    → InBuffer n f bytes
    → fs_write fresh n source fs node file ≡ returns (write_out n source fs node f bytes)
unfolding fs_write write_refilled
fs_write-write_out fresh n source fs node file f bytes refilled inb =
    let to = inb.to in
    let fits : ltb buffer_bytes (f.position + n - f.range_low) ≡ false = ground arith in
    let held : write_out n source fs node f (buffer_of f) ≡ write_out n source fs node f bytes =
      ap (λ b. write_out n source fs node f (elim b [ none ↦ (λ o. 0) | some bytes ↦ bytes ]))
        inb.buffer in
    ap (λ c. c >>= write_refilled n source fs node file) refilled
    ∙ rw fits (ap (λ w. returns w) held)
