-- ===== src/Hdd/Blocks.antt =====
-- kernel/harddrive/hdd.c below kernel/filesystem/estros-fs.c: the sectors as the file system's blocks
-- of words.
use bitloader.Prelude.{
  Bool-cases, ap, arith, false, if◌then◌else◌, inl, inr, leb, ltb, refl, sym, true, ℕ, ◌%◌, ◌&&◌,
  ◌*◌, ◌+◌, ◌-◌, ◌/◌, ◌<◌, ◌==◌, ◌^◌, ◌∙◌, ◌≡◌,
}
use bitloader.Prelude.Words.{add32}
use bitloader.Files.{Disk, block_size, place, read_block}
use bitloader.Files.OpenFile.{Memory, block_byte, vfs_beg}
use bitloader.Files.Directory.{word_at}
use bitloader.Files.WordBytes.{AreBytes, byte_of-word, pick}
use bitloader.Hdd.{Drive, HddFile, ata_address, hdd_read, hdd_seek, hdd_write, sector_size}
use bitloader.Hdd.Sectors.{ata_address-mod, hdd_read-bytes, hdd_write-bytes}

-- Two sectors are a block, and four bytes a word.
abbrev pub disk_of : Drive → Disk
disk_of drive b w = word_at (drive (b * 2 + w / 128)) (w % 128 * 4)

block_byte-disk_of :
    (drive : Drive) (b o : ℕ)
    → AreBytes 512 (drive (b * 2 + o / 512))
    → block_byte (disk_of drive b) o ≡ drive (b * 2 + o / 512) (o % 512)
block_byte-disk_of drive b o small =
    let sector : o / 4 / 128 ≡ o / 512 = omega arith in
    let place : o / 4 % 128 * 4 + o % 4 ≡ o % 512 = omega arith in
    let bytes = drive (b * 2 + o / 512) in
    let at = o / 4 % 128 * 4 in
    rw sector (
      byte_of-word (bytes at) (bytes (at + 1)) (bytes (at + 2)) (bytes (at + 3)) (o % 4)
        (small at (omega arith)) (small (at + 1) (omega arith)) (small (at + 2) (omega arith))
        (small (at + 3) (omega arith)) (omega arith)
      ∙ pick bytes at (o % 4) (omega arith)
      ∙ ap bytes place)

-- The sector that the file system's seek to a block's bytes goes to.
seek_block :
    (file : HddFile) (n : ℕ)
    → (hdd_seek (n * block_size % 2 ^ 32) vfs_beg file).position ≡ place n * 2
unfolding hdd_seek
seek_block file n = omega arith

-- A seek to a block's bytes and a read of a block's size give the block, and leave the bytes behind it.
pub hdd_read-read_block :
    (drive : Drive) (file : HddFile) (n : ℕ) (buffer : Memory) (o : ℕ)
    → ((sector : ℕ) → AreBytes sector_size (drive sector))
    → (hdd_read (hdd_seek (n * block_size % 2 ^ 32) vfs_beg file) buffer block_size drive).1 o
      ≡ (if ltb o block_size then block_byte (read_block (disk_of drive) n) o else buffer o)
hdd_read-read_block drive file n buffer o small =
    let at = seek_block file n in
    let read = hdd_read-bytes (hdd_seek (n * block_size % 2 ^ 32) vfs_beg file) buffer 2 drive o in
    elim (Bool-cases (ltb o block_size)) [
      | inl inside ↦
          let address : ata_address (add32 (place n * 2) (o / 512)) ≡ place n * 2 + o / 512 =
            ata_address-mod (add32 (place n * 2) (o / 512)) ∙ ground arith in
          rw inside (
            (read
              ∙ rw inside (
                  rw at (
                    rw address (
                      sym
                        (block_byte-disk_of drive (place n) o (small (place n * 2 + o / 512))))))))
      | inr behind ↦ rw behind (read ∙ rw behind refl)
    ]

-- The bytes of all sectors after a write at a block.
written_at :
    (drive : Drive) (file : HddFile) (n : ℕ) (buffer : Memory) (sector o : ℕ)
    → o < sector_size
    → (hdd_write (hdd_seek (n * block_size % 2 ^ 32) vfs_beg file) buffer block_size drive).1 sector
        o
      ≡ (if leb (place n * 2) sector && ltb sector (place n * 2 + 2)
          then buffer ((sector - place n * 2) * 512 + o)
          else drive sector o)
written_at drive file n buffer sector o inside =
    let at = seek_block file n in
    let f = hdd_seek (n * block_size % 2 ^ 32) vfs_beg file in
    hdd_write-bytes f buffer 2 drive (rw at (omega arith)) sector o inside
    ∙ ap
        (λ p.
          if leb p sector && ltb sector (p + 2)
          then buffer ((sector - p) * 512 + o)
          else drive sector o)
        at

-- A seek to a block's bytes and a write of a block's size put the buffer in the place of that block, and of no
-- other.
pub hdd_write-write_block :
    (drive : Drive) (file : HddFile) (n m : ℕ) (buffer : Memory) (o : ℕ)
    → ((sector : ℕ) → AreBytes sector_size (drive sector))
    → AreBytes block_size buffer
    → o < block_size
    → let written =
        (hdd_write (hdd_seek (n * block_size % 2 ^ 32) vfs_beg file) buffer block_size drive).1 in
      block_byte (read_block (disk_of written) m) o
      ≡ (if place m == place n then buffer o else block_byte (read_block (disk_of drive) m) o)
hdd_write-write_block drive file n m buffer o small small_buffer inside =
    let written =
      (hdd_write (hdd_seek (n * block_size % 2 ^ 32) vfs_beg file) buffer block_size drive).1 in
    let sector = place m * 2 + o / 512 in
    let new = written_at drive file n buffer sector in
    elim (Bool-cases (place m == place n)) [
      | inl same ↦
          let in_range : (leb (place n * 2) sector && ltb sector (place n * 2 + 2)) ≡ true =
            ground arith in
          let from : (sector - place n * 2) * 512 + o % 512 ≡ o = ground arith in
          let is_new : (k : ℕ)
              → k < 512
              → written sector k ≡ buffer ((sector - place n * 2) * 512 + k) =
            λ k below. new k below ∙ rw in_range refl in
          let bytes : AreBytes 512 (written sector) = λ k below.
            rw (is_new k below) (small_buffer ((sector - place n * 2) * 512 + k) (ground arith)) in
          block_byte-disk_of written (place m) o bytes
          ∙ is_new (o % 512) (omega arith)
          ∙ rw same (ap buffer from)
      | inr other ↦
          let beyond : (leb (place n * 2) sector && ltb sector (place n * 2 + 2)) ≡ false =
            ground arith in
          let is_old : (k : ℕ) → k < 512 → written sector k ≡ drive sector k =
            λ k below. new k below ∙ rw beyond refl in
          let bytes : AreBytes 512 (written sector) =
            λ k below. rw (is_old k below) (small sector k below) in
          block_byte-disk_of written (place m) o bytes
          ∙ is_old (o % 512) (omega arith)
          ∙ rw other (sym (block_byte-disk_of drive (place m) o (small sector)))
    ]
