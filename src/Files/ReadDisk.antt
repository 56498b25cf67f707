-- ===== src/Files/ReadDisk.antt =====
-- kernel/filesystem/estros-fs.c: `fs_read` gives the bytes of the file on the disk.
use bitloader.Prelude.{
  Bool-cases, ap, ap₂, arith, false, get_elem?, inl, inr, ltb, none, refl, some, suc, true, zero, ℕ,
  ◌%◌, ◌*◌, ◌+◌, ◌-◌, ◌/◌, ◌<◌, ◌^◌, ◌∙◌, ◌≡◌, ◌≢◌, ◌≤◌, ◌⊎◌,
}
use bitloader.Files.{
  Disk, block_size, find_block, harddrive_load_blocks, load_loop, no_block, read_block,
}
use bitloader.Files.OpenFile.{
  FsFile, FsNode, Memory, block_byte, buffer_bytes, buffer_of, buffer_size_blocks, copy_out,
  fs_read, outside, refill, refill_buffer, window, with_blocks,
}
use bitloader.Prelude.Run.{returns}
use bitloader.Files.ReadBack.{InBuffer, fs_read-refilled}
use bitloader.Prelude.Words.{add32}

-- The byte `p` of a file, by its blocks on the disk.
abbrev pub file_byte : Disk → FsNode → ℕ → ℕ
file_byte disk node p =
    block_byte (read_block disk (find_block disk node.blocks (p / block_size))) (p % block_size)

-- The blocks of all the file's bytes are there.
abbrev pub AllThere : Disk → FsNode → Type 0
AllThere disk node =
    (p : ℕ) → p < node.size → no_block (find_block disk node.blocks (p / block_size)) ≡ false

-- What is in the buffer of the file's bytes is what the disk has.
abbrev pub Cached : Disk → FsNode → FsFile → Type 0
Cached disk node file =
    (p : ℕ)
    → file.range_low ≤ p
    → p < file.range_high
    → p < node.size
    → buffer_of file (p - file.range_low) ≡ file_byte disk node p

-- The block `k` of what is loaded.
load-block :
    (disk : Disk) (blocks : ℕ → ℕ) (pos n i k : ℕ)
    → k < n
    → pos + (i + n) * block_size < 2 ^ 32
    → ((j : ℕ)
        → i ≤ j
        → j ≤ i + k
        → no_block (find_block disk blocks (pos / block_size + j)) ≡ false)
    → get_elem? (load_loop disk blocks pos n i) k
      ≡ some (read_block disk (find_block disk blocks (pos / block_size + (i + k))))
unfolding load_loop
load-block disk blocks pos zero i k k_in small there = absurd (omega arith)
load-block disk blocks pos (suc n) i zero k_in small there =
    let at : (pos + i * block_size) % 2 ^ 32 / block_size ≡ pos / block_size + i = omega arith in
    let here = there i (omega arith) (omega arith) in
    let same : pos / block_size + i ≡ pos / block_size + (i + 0) = omega arith in
    rw at (rw here (ap (λ b. some (read_block disk (find_block disk blocks b))) same))
load-block disk blocks pos (suc n) i (suc k) k_in small there =
    let at : (pos + i * block_size) % 2 ^ 32 / block_size ≡ pos / block_size + i = omega arith in
    let here = there i (omega arith) (omega arith) in
    let same : pos / block_size + (i + 1 + k) ≡ pos / block_size + (i + suc k) = omega arith in
    rw at (
      rw here (
        load-block disk blocks pos n (i + 1) k (omega arith) (omega arith)
          (λ j low high. there j (omega arith) (omega arith))
        ∙ ap (λ b. some (read_block disk (find_block disk blocks b))) same))

-- The loaded blocks give the file's bytes, from the start of the position's block.
loaded-byte :
    (disk : Disk) (node : FsNode) (pos : ℕ) (old : Memory) (p : ℕ)
    → AllThere disk node
    → pos + buffer_bytes < 2 ^ 32
    → pos / block_size * block_size ≤ p
    → p < pos / block_size * block_size + buffer_bytes
    → p < node.size
    → with_blocks
        (load_loop disk node.blocks pos buffer_size_blocks 0)
        old
        (p - pos / block_size * block_size)
      ≡ file_byte disk node p
loaded-byte disk node pos old p there small from to in_file =
    let low = pos / block_size * block_size in
    let k = (p - low) / block_size in
    let column : (p - low) % block_size ≡ p % block_size = omega arith in
    let row : pos / block_size + (0 + k) ≡ p / block_size = omega arith in
    let got =
      load-block disk node.blocks pos buffer_size_blocks 0 k (omega arith) (omega arith)
        (λ j lower upper.
          (let q = (pos / block_size + j) * block_size in
            let q_block : q / block_size ≡ pos / block_size + j = omega arith in
            rw q_block at (there q (omega arith)))) in
    ap (λ r. elim r [ none ↦ old (p - low) | some b ↦ block_byte b ((p - low) % block_size) ]) got
    ∙ ap₂ (λ b c. block_byte (read_block disk (find_block disk node.blocks b)) c) row column

-- A refill gives a buffer that has what the disk has, and the bytes that are wanted.
record Refilled (disk : Disk) (node : FsNode) (n : ℕ) (file f : FsFile) : Type 0 where
  bytes : Memory
  inb : InBuffer n f bytes
  position : f.position ≡ file.position
  cached : Cached disk node f

loads :
    (disk : Disk) (node : FsNode) (pos : ℕ)
    → AllThere disk node
    → pos < node.size
    → pos < 2 ^ 32
    → harddrive_load_blocks disk node.blocks pos buffer_size_blocks
      ≡ some (load_loop disk node.blocks pos buffer_size_blocks 0)
unfolding harddrive_load_blocks load_loop
loads disk node pos there in_file small =
    let at : (pos + 0 * block_size) % 2 ^ 32 / block_size ≡ pos / block_size = omega arith in
    let here = there pos in_file in rw at (rw here refl)

refill-Refilled :
    (disk : Disk) (node : FsNode) (n : ℕ) (file : FsFile) (old : Memory)
    → file.buffer ≡ some old
    → AllThere disk node
    → Cached disk node file
    → file.range_high ≡ file.range_low + buffer_bytes ⊎ file.range_high ≡ file.range_low
    → file.range_high < 2 ^ 32
    → file.position < node.size
    → file.position + buffer_bytes < 2 ^ 32
    → file.position % block_size + n ≤ buffer_bytes
    → (f : FsFile) × (refill disk node n file ≡ returns (some f)) × Refilled disk node n file f
unfolding refill_buffer
refill-Refilled disk node n file old held there cached range high in_file small fits =
    elim (Bool-cases (outside n file)) [
      | inr in_it ↦
          let same : Refilled disk node n file file = record {
            bytes = old;
            inb = record {
              buffer = held;
              from = ground arith;
              to = ground arith;
              high = ground arith;
              small = high;
            };
            position = refl;
            cached = cached;
          } in
          (file, ap (refill_buffer disk node n file) held ∙ rw in_it refl, same)
      | inl out ↦
          let pos = file.position in
          let low = pos / block_size * block_size in
          let bytes = with_blocks (load_loop disk node.blocks pos buffer_size_blocks 0) old in
          let whole : add32 low buffer_bytes ≡ low + buffer_bytes = omega arith in
          let loaded = loads disk node pos there in_file (omega arith) in
          let fresh : Refilled disk node n file (window file bytes) = record {
            bytes = bytes;
            inb = record {
              buffer = refl;
              from = omega arith;
              to = omega arith;
              high = whole;
              small = omega arith;
            };
            position = refl;
            cached = λ p from to in_it.
                loaded-byte disk node pos old p there small from (omega (arith, whole)) in_it;
          } in
          (
            window file bytes,
            ap (refill_buffer disk node n file) held ∙ rw out (rw loaded refl),
            fresh,
          )
    ]

-- `fs_read` of `n` bytes in the file, which lie in the five blocks from the position's on, gives the
-- file's bytes on the disk and moves the position past them. The file's blocks are there, and its
-- buffer is empty or has what the disk has; so it is afterwards.
pub fs_read-file_byte :
    (fuel : ℕ) (disk : Disk) (node : FsNode) (n : ℕ) (buffer : Memory) (file : FsFile)
    (old : Memory)
    → file.buffer ≡ some old
    → AllThere disk node
    → Cached disk node file
    → file.range_high ≡ file.range_low + buffer_bytes ⊎ file.range_high ≡ file.range_low
    → file.range_high < 2 ^ 32
    → n ≢ 0
    → file.position + n ≤ node.size
    → file.position + buffer_bytes < 2 ^ 32
    → file.position % block_size + n ≤ buffer_bytes
    → (got : Memory) × (file1 : FsFile) × (fs_read (suc (suc fuel)) disk node n buffer file
        ≡ returns (n, got, file1))
      × ((i : ℕ) → i < n → got i ≡ file_byte disk node (file.position + i))
      × ((i : ℕ) → n ≤ i → got i ≡ buffer i)
      × (file1.position ≡ file.position + n)
      × Cached disk node file1
fs_read-file_byte fuel disk node n buffer file old held there cached range high some_n in_file small
      fits =
    let (f, refilled, r) =
      refill-Refilled disk node n file old held there cached range high (omega arith) small fits in
    let inb = r.inb in
    let from = inb.from in
    let to = inb.to in
    let high1 = inb.high in
    let same = r.position in
    (
      copy_out n f buffer,
      record f { position = f.position + n },
      fs_read-refilled fuel disk node n buffer file f r.bytes refilled inb same some_n in_file,
      λ i i_in.
          let less : ltb i n ≡ true = ground arith in
          let spot : i + f.position ≡ file.position + i = omega arith in
          rw less
            (rw spot (r.cached (file.position + i) (omega arith) (omega arith) (omega arith))),
      λ i out. (let more : ltb i n ≡ false = ground arith in rw more refl),
      ap (λ p. p + n) same,
      r.cached,
    )
